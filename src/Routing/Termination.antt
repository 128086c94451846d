-- ===== src/Routing/Termination.antt =====
-- The loop of `Router.Search` ends: every round counts an attempt against a provider that is still
-- allowed one.
use search_x.Routing.Leasing.{FairChoice, acquire_lease_fair}
use search_x.Domain.Errors.{Error}
use search_x.Routing.Endings.{
  IsNoted, IsInterruption, interrupted, out_of_capacity, overloaded, Ending,
}
use search_x.Routing.Budget.{Spent-budget, Spent-Tally, Spent-InBudget, budget, Tally, InBudget}
use search_x.Routing.RoundEnds.{announce_advances, goes_on, ends, Advance}
use search_x.Domain.Fallible.{fail, Fallible}
use search_x.Routing.Search.{start, has_rounds_left, with_choice, one_round, rounds, acquire_lease}
use search_x.ProfilePool.Types.{Pool}
use search_x.Routing.Fresh.{KeepsProviders}
use search_x.Domain.{SearchResponse, SearchRequest}
use search_x.Routing.World.{trace_error, Shared, providers_of, Limits, Env}
use search_x.ProfilePool.Floats.{FloatOps}
use mathlib.Core.Option.{some-injective}
use search_x.Domain.Attempts.{ProviderName}
use search_x.Prelude.{
  &&_true, length, true, refl, ltb→lt, none, inr, inl, inr, inl, Bool-cases, Option, zero, suc, [],
  ◌<◌, some, false, ◌≡◌, ◌∷◌, get_elem?, arith, List, ℕ,
}
use search_x.Routing.Rounds.{
  begin, profile_at, leased, nowhere, overfull, Choice, provider_at, again, finished, Next,
  Progress,
}
use search_x.Prelude.Strings.{is_member}

provider_at-name :
    {R W : Type 0} (i : ℕ) (s : Shared R W) (n : ProviderName)
    → get_elem? (providers_of s.pools) i ≡ some n
    → provider_at i s ≡ n
unfolding provider_at
provider_at-name {R} {W} i s n h = go s.pools i h
  where
    go :
        (ps : List (Pool R)) (j : ℕ)
        → get_elem? (providers_of ps) j ≡ some n
        → (elim (get_elem? ps j) as (λ x. ProviderName) [ none ↦ [] | some p ↦ p.provider ]) ≡ n
    go [] j e = absurd (cc)
    go (p ∷ ps) zero e = some-injective p.provider n e
    go (p ∷ ps) (suc j) e = go ps j e

module _ {R W : Type 0} (fl : FloatOps R) (env : Env R W) (limits : Limits)
    (request : SearchRequest) (shadow : ProviderName) (ns : List ProviderName)
    (keeps : KeepsProviders env) where
  abbrev Adv : Progress → ProviderName → Next R W → Type 0
  Adv = Advance fl env limits request shadow ns keeps

  -- The search returns, in one of the ways in which it may end.
  abbrev pub Ends : Option (Shared R W × Fallible SearchResponse) → Type 0
  Ends x =
      (t : Shared R W) × (out : Fallible SearchResponse) × (x ≡ some (t, out))
      × Ending fl env request limits.max_provider_attempts out

  -- A round ends the search, or lowers the budget.
  data Falls (g : Progress) : Next R W → Type 0 where
    over :
        {t : Shared R W} {out : Fallible SearchResponse}
        → Ending fl env request limits.max_provider_attempts out
        → Falls g (finished t out)
    lower :
        {t : Shared R W} {g' : Progress}
        → providers_of t.pools ≡ ns
        → InBudget limits.max_agent_attempts g'
        → Tally (IsNoted fl env request) limits.max_provider_attempts g'
        → budget limits.max_agent_attempts g' ns < budget limits.max_agent_attempts g ns
        → Falls g (again t g')

  Advance-Falls :
      (g : Progress) (p : ProviderName) (i : ℕ) (x : Next R W)
      → InBudget limits.max_agent_attempts g
      → get_elem? ns i ≡ some p
      → is_member p g.attempted ≡ false
      → Tally (IsNoted fl env request) limits.max_provider_attempts g
      → length g.attempted < limits.max_provider_attempts
      → Adv g p x
      → Falls g x
  Advance-Falls g p i x fit e h y room (ends z) = over z
  Advance-Falls g p i x fit e h y room (goes_on {t} {g'} k s) =
      lower k (Spent-InBudget (IsNoted fl env request) limits.max_agent_attempts g g' p fit s)
        (Spent-Tally (IsNoted fl env request) limits.max_agent_attempts g g' p
          limits.max_provider_attempts y room s)
        (Spent-budget (IsNoted fl env request) limits.max_agent_attempts g g' p ns i e h (fit p h)
          s)

  with_choice-Falls :
      (g : Progress) (c : Choice R W)
      → InBudget limits.max_agent_attempts g
      → Tally (IsNoted fl env request) limits.max_provider_attempts g
      → length g.attempted < limits.max_provider_attempts
      → FairChoice fl env limits request shadow ns keeps g c
      → Falls g (with_choice fl env limits request shadow g c)
  unfolding with_choice
  with_choice-Falls g (overfull s) fit y room f = over overloaded
  with_choice-Falls g (nowhere s) fit y room f =
      over (out_of_capacity g.failures (omega (arith, y)) y.3)
  with_choice-Falls g (leased s i l) fit y room (h, f) =
      let named : provider_at i s ≡ f.name = provider_at-name i s f.name (rw h f.at_index) in
      rw named (
        Advance-Falls g f.name i _ fit f.at_index f.unattempted y room (
          announce_advances fl env limits request shadow ns keeps i l f.name (profile_at i l s) g
            (omega (arith, y, room)) s h))

  room_left :
      (g : Progress) (s : Shared R W)
      → has_rounds_left fl env limits request shadow g s ≡ true
      → length g.attempted < limits.max_provider_attempts
  unfolding has_rounds_left
  room_left g s h = ltb→lt _ _ (&&_true _ _ h).0

  one_round-Falls :
      (g : Progress) (s : Shared R W)
      → InBudget limits.max_agent_attempts g
      → Tally (IsNoted fl env request) limits.max_provider_attempts g
      → providers_of s.pools ≡ ns
      → Falls g (one_round fl env limits request shadow g s)
  unfolding one_round
  one_round-Falls g s fit y h =
      elim (Bool-cases (has_rounds_left fl env limits request shadow g s)) [
        | inr a ↦ rw (one_round, a) (over (out_of_capacity g.failures (omega (arith, y)) y.3))
        | inl a ↦
            rw (one_round, a)
              (with_choice-Falls g (acquire_lease fl env limits request shadow g s) fit y
                (room_left g s a) (acquire_lease_fair fl env limits request shadow ns keeps g s h))
      ]

  -- Fuel above the budget is enough.
  pub rounds_end :
      (fuel : ℕ) (g : Progress) (s : Shared R W)
      → InBudget limits.max_agent_attempts g
      → Tally (IsNoted fl env request) limits.max_provider_attempts g
      → providers_of s.pools ≡ ns
      → budget limits.max_agent_attempts g ns < fuel
      → Ends (rounds fl env limits request shadow fuel g s)
  unfolding rounds
  rounds_end zero g s fit y h b = absurd (omega arith)
  rounds_end (suc fuel) g s fit y h b =
      go (one_round fl env limits request shadow g s) refl (one_round-Falls g s fit y h)
        (λ g' t fit' y' k less. rounds_end fuel g' t fit' y' k less)
    where
      go :
          (x : Next R W)
          → one_round fl env limits request shadow g s ≡ x
          → Falls g x
          → ((g' : Progress) (t : Shared R W)
              → InBudget limits.max_agent_attempts g'
              → Tally (IsNoted fl env request) limits.max_provider_attempts g'
              → providers_of t.pools ≡ ns
              → budget limits.max_agent_attempts g' ns < fuel
              → Ends (rounds fl env limits request shadow fuel g' t))
          → Ends (rounds fl env limits request shadow (suc fuel) g s)
      go (finished t out) e (over z) rec = (t, out, rw (rounds, e) refl, z)
      go (again t g') e (lower k fit' y' less) rec =
          let (u, out, r, z) = rec g' t fit' y' k (omega arith) in (u, out, rw (rounds, e) r, z)

  pub start-Ends :
      (fuel : ℕ)
      → 0 < limits.max_agent_attempts
      → budget limits.max_agent_attempts begin ns < fuel
      → (r : Shared R W × Option Error) → providers_of r.0.pools ≡ ns
      → ((x : Error) → r.1 ≡ some x → IsInterruption fl env request x)
      → Ends (start fl env limits request fuel shadow r)
  unfolding start begin
  start-Ends fuel k b (s, none) h stop =
      rounds_end fuel begin s (λ p u. k) (refl, refl, omega arith, tt) h b
  start-Ends fuel k b (s, some x) h stop =
      (s, fail (trace_error x), refl, interrupted x (stop x refl))
