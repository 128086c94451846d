-- ===== src/ProfilePool/Snapshots.antt =====
-- `Snapshot` in `pool.go`, and the two views of `profile.go`.
use mathlib.Core.Path.{subst}
use search_x.ProfilePool.Select.{eligible}
use mathlib.Core.Option.{some-injective}
use search_x.ProfilePool.Acquire.{is_due, grant, reconcile_entry, try_acquire, reconcile, refuses}
use search_x.Prelude.Int.{ℤ, pos, ◌⊖◌, ◌+ℤ◌, ⊖_le, pos-injective}
use search_x.ProfilePool.Floats.{FloatOps}
use search_x.Prelude.Text.{text_eq, Text}
use search_x.Domain.Attempts.{ProviderName}
use search_x.Prelude.{
  inr, inl, Bool-cases, refl, sym, ap, ◌∙◌, map, ◌↔◌, All, zero, suc, ◌<◌, false, none, ◌++◌, true,
  some, ◌-◌, ◌≡◌, ◌+◌, if◌then◌else◌, get_elem?, arith, ◌&&◌, ◌∷◌, [], ◌≤◌, ℕ, Bool, List, length,
}
use search_x.ProfilePool.Types.{State, Entry, Pool}
use search_x.ProfilePool.Grants.{
  both-IsFull, IsFull, choose-serving, is_serving, Attempted, try_acquire-Attempted,
}

pub record Snapshot (R : Type 0) : Type 0 where
  pub id : Text
  pub provider : ProviderName
  pub state : State
  pub capacity : ℕ
  pub in_flight : ℕ
  pub effective_samples : ℕ
  pub success_weight : R
  pub failure_weight : R
  pub recent_ewma : R
  pub consecutive_failures : ℕ
  pub generation : ℕ

pub record ProviderSnapshot (R : Type 0) : Type 0 where
  pub provider : ProviderName
  pub profile_count : ℕ
  pub serving_count : ℕ
  pub available_slots : ℤ
  pub in_flight : ℕ
  pub profiles : List (Snapshot R)

module _ {R : Type 0} where
  unfoldable pub snapshot_entry : Entry R → Snapshot R
  snapshot_entry e = record {
    id = e.profile.id;
    provider = e.profile.provider;
    state = e.state;
    capacity = e.profile.capacity;
    in_flight = e.in_flight;
    effective_samples = e.effective_samples;
    success_weight = e.success_weight;
    failure_weight = e.failure_weight;
    recent_ewma = e.recent_ewma;
    consecutive_failures = e.consecutive_failures;
    generation = e.generation;
  }

  -- One round of the loop.
  unfoldable pub add_entry : Bool → Entry R → ProviderSnapshot R → ProviderSnapshot R
  unfolding snapshot_entry
  add_entry healthy e s =
      let serving = healthy && is_serving e.state in
      record s {
        serving_count = if serving then s.serving_count + 1 else s.serving_count;
        available_slots =
            if serving
            then s.available_slots +ℤ (e.profile.capacity ⊖ e.in_flight)
            else s.available_slots;
        in_flight = s.in_flight + e.in_flight;
        profiles = s.profiles ++ snapshot_entry e ∷ [];
      }

  unfoldable pub snapshot_from : Bool → ProviderSnapshot R → List (Entry R) → ProviderSnapshot R
  unfolding add_entry
  snapshot_from healthy s [] = s
  snapshot_from healthy s (e ∷ es) = snapshot_from healthy (add_entry healthy e s) es

  unfoldable pub snapshot : Pool R → ProviderSnapshot R
  unfolding snapshot_from
  snapshot p =
      snapshot_from p.disk.manifest_healthy
        (record {
          provider = p.provider;
          profile_count = length p.profiles;
          serving_count = 0;
          available_slots = pos 0;
          in_flight = 0;
          profiles = [];
        })
        p.profiles

  -- What an entry within its capacity adds.
  free_of : Bool → Entry R → ℕ
  free_of healthy e = if healthy && is_serving e.state then e.profile.capacity - e.in_flight else 0

  free_in : Bool → List (Entry R) → ℕ
  free_in healthy [] = 0
  free_in healthy (e ∷ es) = free_of healthy e + free_in healthy es

  slots-add_entry :
      (h : Bool) (s : ProviderSnapshot R) (e : Entry R) (n : ℕ)
      → e.in_flight ≤ e.profile.capacity
      → s.available_slots ≡ pos n
      → (add_entry h e s).available_slots ≡ pos (n + free_of h e)
  unfolding add_entry free_of
  slots-add_entry h s e n w k = elim (Bool-cases (h && is_serving e.state)) [
    | inl a ↦ rw (a, k, ⊖_le e.profile.capacity e.in_flight w) refl
    | inr a ↦ rw (a, k) (ap pos (omega arith))
  ]

  -- No difference is negative where no entry has more in flight than its capacity.
  slots-free_in :
      (h : Bool) (s : ProviderSnapshot R) (es : List (Entry R)) (n : ℕ)
      → All (λ e. e.in_flight ≤ e.profile.capacity) es
      → s.available_slots ≡ pos n
      → (snapshot_from h s es).available_slots ≡ pos (n + free_in h es)
  unfolding snapshot_from free_in
  slots-free_in h s [] n w k = k ∙ ap pos (omega arith)
  slots-free_in h s (e ∷ es) n w k =
      slots-free_in h (add_entry h e s) es (n + free_of h e) w.1 (slots-add_entry h s e n w.0 k)
      ∙ ap pos (omega arith)

  free_in-none :
      (h : Bool) (x : Text) (es : List (Entry R))
      → All (λ e. text_eq e.profile.id x ≡ false) es
      → IsFull State.trusted x es
      → IsFull State.probation x es
      → free_in h es ≡ 0
  unfolding free_in free_of eligible
  free_in-none h x [] n t q = refl
  free_in-none h x (e ∷ es) n t q =
      let rest = free_in-none h x es n.1 t.1 q.1 in
      let a = n.0 in
      let b = t.0 in
      let d = q.0 in let here : free_of h e ≡ 0 = ground arith in omega (arith, here, rest)

  free_in-some :
      (es : List (Entry R)) (i : ℕ) (e : Entry R)
      → get_elem? es i ≡ some e
      → is_serving e.state ≡ true
      → e.in_flight < e.profile.capacity
      → 0 < free_in true es
  unfolding free_in free_of
  free_in-some [] i e h k l = absurd (cc)
  free_in-some (c ∷ es) zero e h k l =
      let same : c ≡ e = some-injective c e h in
      let here : 0 < free_of true c = rw same (ground arith) in omega (arith, here)
  free_in-some (c ∷ es) (suc i) e h k l = omega (arith, free_in-some es i e h k l)

reconcile-idle :
    {R : Type 0} (now : ℕ) (p : Pool R)
    → All (λ e. is_due now e ≡ false) p.profiles
    → reconcile now p ≡ p
unfolding reconcile reconcile_entry
reconcile-idle now p h = ap (λ es. record p { profiles = es }) (go p.profiles h)
  where
    go :
        (es : List (Entry _))
        → All (λ e. is_due now e ≡ false) es
        → map (reconcile_entry p.config now) es ≡ es
    go [] k = refl
    go (e ∷ es) k = rw (k.0, go es k.1) refl

module _ {R : Type 0} (fl : FloatOps R) (id : Text) (automatic explicit : Bool) (x : Text) (now : ℕ)
    (p : Pool R) where
  -- What the router reads off a snapshot agrees with `tryAcquire`. In a pool that does not refuse the
  -- attempt, in which no suspended profile is due, none has more in flight than its capacity, and none
  -- is the excluded one: the snapshot has no available slots exactly where the attempt gets no lease.
  pub snapshot-full :
      refuses explicit p ≡ false
      → All (λ e. is_due now e ≡ false) p.profiles
      → All (λ e. e.in_flight ≤ e.profile.capacity) p.profiles
      → All (λ e. text_eq e.profile.id x ≡ false) p.profiles
      → ((snapshot p).available_slots ≡ pos 0)
        ↔ ((try_acquire fl id automatic explicit x now p).1 ≡ none)
  unfolding snapshot refuses grant
  snapshot-full admits idle within others = (no_lease, no_slots)
    where
      begun : ProviderSnapshot R
      begun = record {
        provider = p.provider;
        profile_count = length p.profiles;
        serving_count = 0;
        available_slots = pos 0;
        in_flight = 0;
        profiles = [];
      }

      counted : (snapshot p).available_slots ≡ pos (free_in p.disk.manifest_healthy p.profiles)
      counted =
          slots-free_in p.disk.manifest_healthy begun p.profiles 0 within refl
          ∙ ap pos (omega arith)

      same : reconcile now p ≡ p
      same = reconcile-idle now p idle

      no_lease :
          (snapshot p).available_slots ≡ pos 0
          → (try_acquire fl id automatic explicit x now p).1 ≡ none
      no_lease h = elim (try_acquire-Attempted fl id automatic explicit x now p) [
        | Attempted.refused a b ↦ rw b
        | Attempted.full a b c ↦ rw c
        | Attempted.granted i e a b c ↦
            let (m, k, _, l) = choose-serving fl id x p (reconcile now p).profiles i e b in
            let none_free : free_in p.disk.manifest_healthy p.profiles ≡ 0 =
              pos-injective _ _ (sym counted ∙ h) in
            let healthy : p.disk.manifest_healthy ≡ true = ground arith in
            absurd (
              omega (
                arith,
                rw healthy at none_free,
                free_in-some p.profiles i e (ap (λ q. get_elem? q.profiles i) (sym same) ∙ m) k l,
              ))
      ]

      no_slots :
          (try_acquire fl id automatic explicit x now p).1 ≡ none
          → (snapshot p).available_slots ≡ pos 0
      no_slots h = elim (try_acquire-Attempted fl id automatic explicit x now p) [
        | Attempted.refused a b ↦ absurd (cc (a, admits))
        | Attempted.granted i e a b c ↦ absurd (cc (sym h ∙ ap (λ z. z.1) c))
        | Attempted.full a b c ↦
            let (t, q) = both-IsFull fl id automatic explicit x now p b in
            counted
            ∙ ap pos (
                free_in-none p.disk.manifest_healthy x p.profiles others
                  (subst (λ y. IsFull State.trusted x y.profiles) same t)
                  (subst (λ y. IsFull State.probation x y.profiles) same q))
      ]
