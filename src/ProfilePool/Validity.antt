-- ===== src/ProfilePool/Validity.antt =====
-- A well-formed pool, entry by entry: what `New` validates, and a count of leases within capacity.
use search_x.ProfilePool.Release.{
  earns_trust, profile_relevant, retires, is_risk, observed, returned, judged, settled,
}
use search_x.ProfilePool.Select.{eligible}
use search_x.ProfilePool.Control.{valid_replacement, replaced, close_profile}
use search_x.ProfilePool.Floats.{FloatOps}
use search_x.Prelude.{
  refl, leb, inr, inl, Bool-cases, some, false, sym, ◌∙◌, ◌-◌, ap, true, ℕ, ◌≤◌, ◌<◌, List, [], map,
  ◌≡◌, ◌≢◌, arith,
}
use search_x.Prelude.Text.{text_eq→eq, text_eq, Text}
use search_x.Domain.Attempts.{ProviderName}
use search_x.ProfilePool.Acquire.{reserve, drained, reconcile_entry}
use search_x.ProfilePool.Types.{Profile, Pool, state_eq, Result, State, Config, Entry}

module _ {R : Type 0} where
  pub record IsSound (provider : ProviderName) (e : Entry R) : Type 0 where
    pub owned : e.profile.provider ≡ provider
    pub named : e.profile.id ≢ []
    pub positive : 0 < e.profile.capacity
    pub bounded : e.in_flight ≤ e.profile.capacity
    pub recovers : e.recovery_state ≢ State.retired

  -- Nothing is in flight on a retired profile.
  abbrev pub IsIdle : Entry R → Type 0
  IsIdle e = e.state ≡ State.retired → e.in_flight ≡ 0

  abbrev pub ids : List (Entry R) → List Text
  ids = map (λ e. e.profile.id)

  pub drained-IsSound : (v : ProviderName) (e : Entry R) → IsSound v e → IsSound v (drained e)
  unfolding drained
  drained-IsSound v e h = record {
    owned = h.owned;
    named = h.named;
    positive = h.positive;
    bounded = h.bounded;
    recovers = h.recovers;
  }

  pub drained-IsIdle : (e : Entry R) → IsIdle (drained e)
  unfolding drained
  drained-IsIdle e = λ h. ground arith

  pub reconcile_entry-IsSound :
      (c : Config R) (now : ℕ) (v : ProviderName) (e : Entry R)
      → IsSound v e
      → IsSound v (reconcile_entry c now e)
  unfolding reconcile_entry
  reconcile_entry-IsSound c now v e h = ground arith

  pub reconcile_entry-IsIdle :
      (c : Config R) (now : ℕ) (e : Entry R) → IsIdle e → IsIdle (reconcile_entry c now e)
  unfolding reconcile_entry
  reconcile_entry-IsIdle c now e h = λ k. ground arith

  pub reserve-IsSound :
      (v : ProviderName) (e : Entry R)
      → e.in_flight < e.profile.capacity
      → IsSound v e
      → IsSound v (reserve e)
  unfolding reserve
  reserve-IsSound v e lt h = record {
    owned = h.owned;
    named = h.named;
    positive = h.positive;
    bounded = omega arith;
    recovers = h.recovers;
  }

  pub close_profile-IsSound :
      (v : ProviderName) (e : Entry R) (s : State)
      → IsSound v e
      → IsSound v (record e { state = s; profile = close_profile e.profile })
  unfolding close_profile
  close_profile-IsSound v e s h = record {
    owned = h.owned;
    named = h.named;
    positive = h.positive;
    bounded = h.bounded;
    recovers = h.recovers;
  }

  -- What the eligibility test says.
  pub eligible_cases :
      (s : State) (x : Text) (e : Entry R)
      → eligible s x e ≡ true
      → (e.in_flight < e.profile.capacity)
        × (state_eq e.state s ≡ true)
        × (text_eq e.profile.id x ≡ false)
  unfolding eligible
  eligible_cases s x e h = ground arith

module _ {R : Type 0} (fl : FloatOps R) where
  judged_frame :
      (c : Config R) (r : Result) (now : ℕ) (e : Entry R)
      → ((judged fl c r now e).profile ≡ e.profile)
        × ((judged fl c r now e).in_flight ≡ e.in_flight)
        × ((judged fl c r now e).recovery_state ≡ e.recovery_state)
  unfolding judged
  judged_frame c r now e = elim (Bool-cases (is_risk r.classification)) [
    | inl a ↦ rw a (refl, refl, refl)
    | inr a ↦ elim (Bool-cases (leb c.trust.max_consecutive_failures e.consecutive_failures)) [
      | inl b ↦ rw (a, b) (refl, refl, refl)
      | inr b ↦ elim (Bool-cases (earns_trust fl c e)) [
        | inl d ↦ rw (a, b, d) (refl, refl, refl)
        | inr d ↦ rw (a, b, d) (refl, refl, refl)
      ]
    ]
  ]

  -- A release changes the counters and the state of an entry, and gives back one slot.
  pub settled_frame :
      (c : Config R) (r : Result) (now : ℕ) (e : Entry R)
      → ((settled fl c r now e).profile ≡ e.profile)
        × ((settled fl c r now e).in_flight ≡ e.in_flight - 1)
        × ((settled fl c r now e).recovery_state ≡ e.recovery_state)
  unfolding settled returned observed
  settled_frame c r now e = elim (Bool-cases (retires (returned e))) [
    | inl a ↦ rw a (refl, refl, refl)
    | inr a ↦ elim (Bool-cases (profile_relevant r)) [
      | inr b ↦ rw (a, b) (refl, refl, refl)
      | inl b ↦ rw (a, b) (judged_frame c r now (observed fl c r (returned e)))
    ]
  ]

  pub settled-IsSound :
      (c : Config R) (r : Result) (now : ℕ) (v : ProviderName) (e : Entry R)
      → IsSound v e
      → IsSound v (settled fl c r now e)
  settled-IsSound c r now v e h =
      let f = settled_frame c r now e in
      record {
        owned = ap (λ q. q.provider) f.0 ∙ h.owned;
        named = λ n. h.named (sym (ap (λ q. q.id) f.0) ∙ n);
        positive = rw (f.0) h.positive;
        bounded = rw (f.0, f.1) (omega (arith, h.bounded));
        recovers = λ n. h.recovers (sym (f.2) ∙ n);
      }

  pub settled-IsIdle :
      (c : Config R) (r : Result) (now : ℕ) (e : Entry R) → IsIdle e → IsIdle (settled fl c r now e)
  unfolding settled
  settled-IsIdle c r now e h = λ k. ground arith

  pub replaced-IsSound :
      (p : Pool R) (id : Text) (q : Profile) (e : Entry R)
      → id ≢ []
      → valid_replacement id p (some q) ≡ true
      → IsSound p.provider (replaced fl q e)
  unfolding replaced valid_replacement
  replaced-IsSound p id q e n h =
      let k = text_eq→eq q.id id (ground arith) in
      let m = text_eq→eq q.provider p.provider (ground arith) in
      record {
        owned = m;
        named = λ z. n (sym k ∙ z);
        positive = ground arith;
        bounded = omega arith;
        recovers = λ z. cc;
      }
