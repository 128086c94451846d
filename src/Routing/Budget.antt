-- ===== src/Routing/Budget.antt =====
-- How the loop of `Router.Search` counts the attempts against the providers.
use mathlib.Core.Path.{subst}
use search_x.Domain.Errors.{Error}
use search_x.Routing.World.{providers_of}
use search_x.ProfilePool.Types.{Pool}
use mathlib.Core.Option.{some-injective}
use search_x.Prelude.Text.{text_eq_refl, text_eq_iff}
use search_x.Domain.Attempts.{ProviderName}
use search_x.Prelude.{
  All-append, sym, length-append, All, ◌∙◌, ◌++◌, ap, ◌*◌, length, refl, zero, suc, [], ◌<◌, some,
  ◌-◌, false, ◌+◌, ◌≤◌, ◌≡◌, ◌∷◌, get_elem?, if◌then◌else◌, arith, List, ℕ,
}
use search_x.Routing.Rounds.{begin, Progress, counted, put_at}
use search_x.Prelude.Strings.{is_member}

-- The attempts that a provider may still get, and those of all of them.
abbrev pub attempts_left : ℕ → Progress → ProviderName → ℕ
attempts_left most g p = if is_member p g.attempted then 0 else most - g.agent_attempts p

pub budget : ℕ → Progress → List ProviderName → ℕ
budget most g [] = 0
budget most g (p ∷ ps) = attempts_left most g p + budget most g ps

-- A provider that is not given up on has an attempt left.
abbrev pub InBudget : ℕ → Progress → Type 0
InBudget most g = (p : ProviderName) → is_member p g.attempted ≡ false → g.agent_attempts p < most

-- Each provider that is given up on has its error, of which `P` holds, and there are not too many of
-- them.
abbrev pub Tally : (Error → Type 0) → ℕ → Progress → Type 0
Tally P top g =
    (length g.failed ≡ length g.attempted)
    × (length g.failures ≡ length g.attempted)
    × (length g.attempted ≤ top)
    × All P g.failures

module _ (P : Error → Type 0) (most : ℕ) (g g' : Progress) (p : ProviderName) where
  -- What a round does to the counters, `p` being the provider that it asked.
  pub data Spent : Type 0 where
    retry :
        g'.attempted ≡ g.attempted
        → g'.agent_attempts ≡ (counted p g).agent_attempts
        → g.agent_attempts p + 1 < most
        → g'.failed ≡ g.failed
        → g'.failures ≡ g.failures
        → Spent
    dropped :
        g'.attempted ≡ p ∷ g.attempted
        → g'.agent_attempts ≡ (counted p g).agent_attempts
        → length g'.failed ≡ length g.failed + 1
        → (x : Error) → P x
        → g'.failures ≡ g.failures ++ x ∷ []
        → Spent

  Spent-le : (q : ProviderName) → Spent → attempts_left most g' q ≤ attempts_left most g q
  unfolding counted put_at is_member
  Spent-le q (retry a b c d e) = rw (a, b) (ground (arith, text_eq_iff q p))
  Spent-le q (dropped a b c x d f) = rw (a, b) (ground (arith, text_eq_iff q p))

  Spent-lt :
      is_member p g.attempted ≡ false
      → g.agent_attempts p < most
      → Spent
      → attempts_left most g' p < attempts_left most g p
  unfolding counted put_at is_member
  Spent-lt h k (retry a b c d e) = rw (a, b, h, text_eq_refl p) (omega arith)
  Spent-lt h k (dropped a b c x d f) = rw (a, b) (ground (arith, text_eq_refl p, h))

  Spent-budget_le : (ns : List ProviderName) → Spent → budget most g' ns ≤ budget most g ns
  unfolding budget
  Spent-budget_le [] s = omega arith
  Spent-budget_le (n ∷ ns) s = omega (arith, Spent-le n s, Spent-budget_le ns s)

  pub Spent-budget :
      (ns : List ProviderName) (i : ℕ)
      → get_elem? ns i ≡ some p
      → is_member p g.attempted ≡ false
      → g.agent_attempts p < most
      → Spent
      → budget most g' ns < budget most g ns
  unfolding budget
  Spent-budget [] i e h k s = absurd (cc)
  Spent-budget (n ∷ ns) zero e h k s =
      let same : n ≡ p = some-injective n p e in
      rw same (omega (arith, Spent-lt h k s, Spent-budget_le ns s))
  Spent-budget (n ∷ ns) (suc i) e h k s = omega (arith, Spent-le n s, Spent-budget ns i e h k s)

  pub Spent-InBudget : InBudget most g → Spent → InBudget most g'
  unfolding counted put_at is_member
  Spent-InBudget ok (retry a b c d e) q h =
      rw b (ground (arith, text_eq_iff q p, ok q (rw (← a) h), c))
  Spent-InBudget ok (dropped a b c x d f) q h =
      let out = rw a at h in rw b (ground (arith, text_eq_iff q p, text_eq_iff p q, out, ok q))

  pub Spent-Tally : (top : ℕ) → Tally P top g → length g.attempted < top → Spent → Tally P top g'
  Spent-Tally top t h (retry a b c d e) = rw (a, d, e) t
  Spent-Tally top t h (dropped a b c x d f) =
      let more : length g'.failures ≡ length g.failures + 1 =
        ap length f ∙ length-append g.failures (x ∷ []) in
      (
        rw a (omega (arith, c)),
        rw a (omega (arith, more)),
        rw a (omega arith),
        subst (All P) (sym f) (All-append P g.failures (x ∷ []) t.3 (d, tt)),
      )

pub counted_self :
    (p : ProviderName) (g : Progress) → (counted p g).agent_attempts p ≡ g.agent_attempts p + 1
unfolding counted put_at
counted_self p g = rw (text_eq_refl p) refl

pub budget-begin : (most : ℕ) (ns : List ProviderName) → budget most begin ns ≡ length ns * most
unfolding budget begin is_member
budget-begin most [] = grind arith
budget-begin most (n ∷ ns) = grind (arith, budget-begin most ns)

pub length-providers_of : {R : Type 0} (ps : List (Pool R)) → length (providers_of ps) ≡ length ps
length-providers_of [] = refl
length-providers_of (p ∷ ps) = ap suc (length-providers_of ps)
