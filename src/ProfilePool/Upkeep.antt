-- ===== src/ProfilePool/Upkeep.antt =====
-- Well-formedness under the operations that do not look at results or loads.
use search_x.Domain.Errors.{Error}
use search_x.ProfilePool.Manifests.{save_manifest}
use search_x.ProfilePool.Validity.{
  close_profile-IsSound, ids, reconcile_entry-IsSound, drained-IsSound, IsSound,
}
use search_x.ProfilePool.Release.{save_and_signal}
use search_x.ProfilePool.Preserve.{
  AreValid-update, AreValid-map, commit_frame, save_and_signal_frame, at_entry_cases, IsValid,
}
use search_x.Prelude.Text.{Text}
use search_x.Domain.Attempts.{ProviderName}
use search_x.ProfilePool.Types.{state_eq, State, Disk, Pool, Entry}
use search_x.ProfilePool.Control.{signal, activate, close, close_from, commit, activate_from, drain}
use search_x.ProfilePool.Acquire.{drained, reconcile_entry, reconcile}
use search_x.Prelude.{
  Distinct, none, Option, Option-cases, inl, inr, Bool-cases, [], ◌∷◌, All-get_elem?, update, arith,
  some, All, ◌≡◌, get_elem?, List, ℕ, refl,
}

module _ {R : Type 0} where
  IsValid-of :
      (p : Pool R) (v : ProviderName) (es : List (Entry R))
      → p.provider ≡ v
      → p.profiles ≡ es
      → All (IsSound v) es × Distinct (ids es)
      → IsValid p
  IsValid-of p v es a b h = record { entries = rw (a, b) h.0; distinct = rw b h.1 }

  pub reconcile-IsValid : (now : ℕ) (p : Pool R) → IsValid p → IsValid (reconcile now p)
  unfolding reconcile
  reconcile-IsValid now p h =
      let f = reconcile_entry p.config now in
      let (a, d) =
        AreValid-map p.provider f p.profiles (λ e. unfold reconcile_entry in ground arith)
          (reconcile_entry-IsSound p.config now p.provider) (h.entries, h.distinct) in
      record { entries = a; distinct = d }

  pub update-IsValid :
      (p : Pool R) (i : ℕ) (f : Entry R → Entry R)
      → ((e : Entry R) → get_elem? p.profiles i ≡ some e → (f e).profile.id ≡ e.profile.id)
      → ((e : Entry R)
          → get_elem? p.profiles i ≡ some e
          → IsSound p.provider e
          → IsSound p.provider (f e))
      → IsValid p
      → IsValid (record p { profiles = update p.profiles i f })
  update-IsValid p i f same sound h =
      let (a, d) = AreValid-update p.provider f p.profiles i same sound (h.entries, h.distinct) in
      record { entries = a; distinct = d }

  pub commit-IsValid : (e : Entry R) (now : ℕ) (p : Pool R) → IsValid p → IsValid (commit e now p).0
  commit-IsValid e now p h =
      let f = commit_frame e now p in
      IsValid-of _ p.provider p.profiles f.1 f.0 (h.entries, h.distinct)

  pub save_and_signal-IsValid :
      (e : Entry R) (now : ℕ) (p : Pool R) → IsValid p → IsValid (save_and_signal e now p).0
  save_and_signal-IsValid e now p h =
      let f = save_and_signal_frame e now p in
      IsValid-of _ p.provider p.profiles f.1 f.0 (h.entries, h.distinct)

  pub drain-IsValid : (id : Text) (now : ℕ) (p : Pool R) → IsValid p → IsValid (drain id now p).0
  unfolding drain
  drain-IsValid id now p h =
      at_entry_cases (λ r. IsValid r.0) _ id _ p h
        λ i e g _. commit-IsValid (drained e) now _ (
          update-IsValid p i (λ _. drained e) (λ c k. ground (arith, k, g))
            (λ c k s.
              drained-IsSound p.provider e
                (All-get_elem? (IsSound p.provider) p.profiles i e h.entries g))
            h)

  -- The loop of `Activate` changes states alone, to what `recoveryState` holds.
  activated-IsSound :
      (v : ProviderName) (e : Entry R) (t : State)
      → IsSound v e
      → IsSound v (record e { state = t })
  activated-IsSound v e t h = record {
    owned = h.owned;
    named = h.named;
    positive = h.positive;
    bounded = h.bounded;
    recovers = h.recovers;
  }

  pub activate_from-valid :
      (v : ProviderName) (now : ℕ) (es : List (Entry R)) (d : Disk R)
      → All (IsSound v) es
      → All (IsSound v) (activate_from now es d).0 × (ids (activate_from now es d).0 ≡ ids es)
  unfolding activate_from
  activate_from-valid v now [] d h = (tt, refl)
  activate_from-valid v now (e ∷ es) d h = elim (Bool-cases (state_eq e.state State.warming)) [
    | inr q ↦
        rw (q, activate_from) (let r = activate_from-valid v now es d h.1 in ((h.0, r.0), cc (r.1)))
    | inl q ↦
        let e' : Entry R = record e { state = e.recovery_state } in
        let sound = activated-IsSound v e e.recovery_state h.0 in
        let r = activate_from-valid v now es (save_manifest e' now d).0 h.1 in
        elim (Option-cases (save_manifest e' now d).1) [
          | inl f ↦ rw (q, activate_from, f) ((sound, r.0), cc (r.1))
          | inr (x, f) ↦ rw (q, activate_from, f) ((sound, h.1), refl)
        ]
  ]

  pub activate_frame :
      (now : ℕ) (p : Pool R)
      → ((activate now p).0.profiles ≡ (activate_from now p.profiles p.disk).0)
        × ((activate now p).0.provider ≡ p.provider)
        × ((activate now p).0.closed ≡ p.closed)
  unfolding activate signal
  activate_frame now p = ground arith

  pub activate-IsValid : (now : ℕ) (p : Pool R) → IsValid p → IsValid (activate now p).0
  activate-IsValid now p h =
      let r = activate_from-valid p.provider now p.profiles p.disk h.entries in
      let f = activate_frame now p in IsValid-of _ p.provider _ f.1 f.0 (r.0, rw (r.1) h.distinct)

  pub close_from-valid :
      (v : ProviderName) (first : Option Error) (es : List (Entry R))
      → All (IsSound v) es
      → All (IsSound v) (close_from first es).0 × (ids (close_from first es).0 ≡ ids es)
  unfolding close_from
  close_from-valid v first [] h = (tt, refl)
  close_from-valid v first (e ∷ es) h =
      let r =
        close_from-valid v
          (elim first [ none ↦ e.profile.close_error e.profile.closes | some x ↦ some x ]) es h.1 in
      ((close_profile-IsSound v e State.retired h.0, r.0), cc (r.1))

  pub close-IsValid : (p : Pool R) → IsValid p → IsValid (close p).0
  unfolding close signal
  close-IsValid p h =
      let r = close_from-valid p.provider none p.profiles h.entries in
      record { entries = r.0; distinct = rw (r.1) h.distinct }
