-- ===== src/ProfilePool/Grants.antt =====
-- The outcomes of `tryAcquire` in `pool.go`.
use search_x.ProfilePool.Validity.{eligible_cases}
use search_x.ProfilePool.Hash.{bucket}
use mathlib.Core.Option.{some-injective}
use search_x.Prelude.{◌||◌, ◌<◌, ltb, refl}
use search_x.ProfilePool.Selection.{select_entry_sound, select_entry-none}
use search_x.ProfilePool.Select.{select_entry, eligible}
use search_x.ProfilePool.Acquire.{
  grant, next_streak, reserve, reconcile, preferred, refuses, try_acquire, fallback, choose,
}
use search_x.Prelude.{
  ◌∙◌, sym, ap, ◌⊎◌, Bool-cases, Option, inr, update, arith, true, get_elem?, inl, Option-cases,
  some, none, false, ◌≡◌, All, ℕ, List, Bool,
}
use search_x.ProfilePool.Types.{state_eq, Lease, Pool, Entry, State}
use search_x.Prelude.Text.{text_eq, Text}
use search_x.ProfilePool.Floats.{FloatOps}

module _ {R : Type 0} where
  -- No entry of the state has a free slot, but for the excluded profile.
  abbrev pub IsFull : State → Text → List (Entry R) → Type 0
  IsFull s x = All (λ c. eligible s x c ≡ false)

-- The state whose profile was chosen, when `first` is tried first.
pub data Chosen {R : Type 0} (first : State) (x : Text) (es : List (Entry R)) (e : Entry R)
    : State → Type 0 where
  at_first : Chosen first x es e first
  at_fallback : IsFull first x es → Chosen first x es e (fallback first)

module _ {R : Type 0} (fl : FloatOps R) (first : State) (x : Text) (es : List (Entry R)) where
  pub choose_cases :
      (i : ℕ) (e : Entry R)
      → choose fl first x es ≡ some (i, e)
      → (s : State) × Chosen first x es e s × (select_entry fl s x es ≡ some (i, e))
  unfolding choose
  choose_cases i e h = elim (Option-cases (select_entry fl first x es)) [
    | inl q ↦ (fallback first, Chosen.at_fallback (select_entry-none fl first x es q), ground arith)
    | inr (y, q) ↦ (first, Chosen.at_first, ground arith)
  ]

  pub choose-none : choose fl first x es ≡ none → IsFull first x es × IsFull (fallback first) x es
  unfolding choose
  choose-none h = elim (Option-cases (select_entry fl first x es)) [
    | inl q ↦ (
      select_entry-none fl first x es q,
      select_entry-none fl (fallback first) x es (ground arith),
    )
    | inr (y, q) ↦ absurd (ground arith)
  ]

module _ {R : Type 0} where
  preferred_cases :
      (request_id : Text) (p : Pool R)
      → (preferred request_id p ≡ State.trusted) ⊎ (preferred request_id p ≡ State.probation)
  unfolding preferred
  preferred_cases request_id p =
      elim (Bool-cases (ltb (bucket request_id) p.config.trusted_traffic_percent)) [
        | inl e ↦ inl (rw e)
        | inr e ↦ inr (rw e)
      ]

-- `StateProbation` or `StateTrusted`.
abbrev pub is_serving : State → Bool
is_serving s = state_eq s State.probation || state_eq s State.trusted

module _ {R : Type 0} (fl : FloatOps R) where
  Chosen-serving :
      (id x : Text) (p : Pool R) (es : List (Entry R)) (e : Entry R) (s : State)
      → Chosen (preferred id p) x es e s
      → is_serving s ≡ true
  unfolding fallback
  Chosen-serving id x p es e s Chosen.at_first = elim (preferred_cases id p) [
    | inl k ↦ rw k
    | inr k ↦ rw k
  ]
  Chosen-serving id x p es e s (Chosen.at_fallback _) = elim (preferred_cases id p) [
    | inl k ↦ rw k
    | inr k ↦ rw k
  ]

  -- What is chosen serves, is not the excluded profile and has a free slot.
  pub choose-serving :
      (id x : Text) (p : Pool R) (es : List (Entry R)) (i : ℕ) (e : Entry R)
      → choose fl (preferred id p) x es ≡ some (i, e)
      → (get_elem? es i ≡ some e)
        × (is_serving e.state ≡ true)
        × (text_eq e.profile.id x ≡ false)
        × (e.in_flight < e.profile.capacity)
  choose-serving id x p es i e h =
      let (s, c, g) = choose_cases fl (preferred id p) x es i e h in
      let (m, f) = select_entry_sound fl s x es i e g in
      let (lt, same, other) = eligible_cases s x e f in
      (m, ground (arith, Chosen-serving id x p es e s c, same), other, lt)

module _ {R : Type 0} (fl : FloatOps R) (request_id : Text) (automatic explicit : Bool) (x : Text)
    (now : ℕ) (p : Pool R) where
  -- The three ways out of `tryAcquire`.
  pub data Attempted (r : Pool R × Option Lease) : Type 0 where
    refused : refuses explicit p ≡ true → r ≡ (p, none) → Attempted r
    full :
        refuses explicit p ≡ false
        → choose fl (preferred request_id p) x (reconcile now p).profiles ≡ none
        → r ≡ (reconcile now p, none)
        → Attempted r
    granted :
        (i : ℕ) (e : Entry R)
        → refuses explicit p ≡ false
        → choose fl (preferred request_id p) x (reconcile now p).profiles ≡ some (i, e)
        → r ≡ grant automatic explicit now i (reconcile now p)
        → Attempted r

  pub try_acquire-Attempted : Attempted (try_acquire fl request_id automatic explicit x now p)
  unfolding try_acquire
  try_acquire-Attempted = elim (Bool-cases (refuses explicit p)) [
    | inl a ↦ Attempted.refused a (rw a)
    | inr a ↦
        elim (Option-cases (choose fl (preferred request_id p) x (reconcile now p).profiles)) [
          | inl b ↦ Attempted.full a b (rw (a, b))
          | inr ((i, e), b) ↦ Attempted.granted i e a b (rw (a, b))
        ]
  ]

  -- The state and the entry that a grant is made for.
  pub record Granted (p' : Pool R) (l : Lease) : Type 0 where
    pub allowed : refuses explicit p ≡ false
    pub entry : Entry R
    pub state : State
    pub chosen : Chosen (preferred request_id p) x (reconcile now p).profiles entry state
    pub selected : select_entry fl state x (reconcile now p).profiles ≡ some (l.slot, entry)
    pub stands : get_elem? (reconcile now p).profiles l.slot ≡ some entry
    pub fits : eligible state x entry ≡ true
    pub fresh : l.released ≡ false
    pub after : p' ≡ record (reconcile now p) {
      profiles = update (reconcile now p).profiles l.slot reserve;
      explicit_streak = next_streak automatic explicit p.explicit_streak;
    }

  pub both-IsFull :
      choose fl (preferred request_id p) x (reconcile now p).profiles ≡ none
      → IsFull State.trusted x (reconcile now p).profiles
        × IsFull State.probation x (reconcile now p).profiles
  unfolding fallback
  both-IsFull h =
      let full = choose-none fl (preferred request_id p) x (reconcile now p).profiles h in
      elim (preferred_cases request_id p) [
        | inl e ↦ (rw e at full)
        | inr e ↦ let swapped = rw e at full in (swapped.1, swapped.0)
      ]

  grant-Granted :
      (i : ℕ) (e : Entry R)
      → refuses explicit p ≡ false
      → choose fl (preferred request_id p) x (reconcile now p).profiles ≡ some (i, e)
      → Granted
          (grant automatic explicit now i (reconcile now p)).0
          (record { slot = i; acquired_at = now; released = false })
  unfolding grant reconcile
  grant-Granted i e a b =
      let (s, c, g) = choose_cases fl (preferred request_id p) x (reconcile now p).profiles i e b in
      let (m, f) = select_entry_sound fl s x (reconcile now p).profiles i e g in
      record {
        allowed = a;
        entry = e;
        state = s;
        chosen = c;
        selected = g;
        stands = m;
        fits = f;
        fresh = refl;
        after = refl;
      }

  -- A granted lease is on an unexcluded profile of the preferred state with a free slot, or of the
  -- other serving state if the preferred one has none; exactly that profile has one more request
  -- in flight.
  pub try_acquire-grants :
      (p' : Pool R) (l : Lease)
      → try_acquire fl request_id automatic explicit x now p ≡ (p', some l)
      → Granted p' l
  unfolding grant reconcile
  try_acquire-grants p' l h = elim try_acquire-Attempted [
    | Attempted.refused a b ↦ absurd (cc)
    | Attempted.full a b c ↦ absurd (cc)
    | Attempted.granted i e a b c ↦
        let eP : p' ≡ (grant automatic explicit now i (reconcile now p)).0 =
          ap (λ z. z.0) (sym h ∙ c) in
        let eL : l ≡ record { slot = i; acquired_at = now; released = false } =
          some-injective l _ (ap (λ z. z.1) (sym h ∙ c)) in
        rw (eP, eL) (grant-Granted i e a b)
  ]

  -- Where no lease comes back, the pool refuses and nothing is changed, or neither serving state has an
  -- unexcluded profile with a free slot.
  pub try_acquire-none :
      (p' : Pool R)
      → try_acquire fl request_id automatic explicit x now p ≡ (p', none)
      → ((refuses explicit p ≡ true) × (p' ≡ p))
        ⊎ ((p' ≡ reconcile now p)
            × IsFull State.trusted x p'.profiles
            × IsFull State.probation x p'.profiles)
  unfolding grant
  try_acquire-none p' h = elim try_acquire-Attempted [
    | Attempted.refused a b ↦ inl (a, ap (λ z. z.0) (sym h ∙ b))
    | Attempted.full a b c ↦
        let eP : p' ≡ reconcile now p = ap (λ z. z.0) (sym h ∙ c) in
        inr (rw eP (let f = both-IsFull b in (refl, f.0, f.1)))
    | Attempted.granted i e a b c ↦ absurd (cc)
  ]
