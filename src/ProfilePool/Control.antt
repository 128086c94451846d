-- ===== src/ProfilePool/Control.antt =====
-- `New`, `Activate`, `Drain`, `replaceRetired`, `Close` and `signal` in `pool.go`.
use search_x.Prelude.{
  ℕ, suc, ◌+◌, ◌%◌, ◌^◌, Bool, true, false, not, ◌&&◌, List, [], ◌∷◌, Option, none, some, ltb,
  if◌then◌else◌, update, get_elem?,
}
use search_x.Prelude.Text.{Text, text_eq, codes}
use search_x.Domain.Errors.{Error, plain}
use search_x.ProfilePool.Acquire.{drained}
use search_x.ProfilePool.Manifests.{save_manifest}
use search_x.ProfilePool.Floats.{FloatOps}
use search_x.ProfilePool.Types.{State, state_eq, Profile, Entry, Disk, Pool}

unfoldable pub close_profile : Profile → Profile
close_profile q = record q { closes = q.closes + 1 }

module _ {R : Type 0} where
  unfoldable pub signal : Pool R → Pool R
  signal p = record p { signals = p.signals + 1 }

  -- `byID[id]`: the index of the entry.
  unfoldable pub find_slot : Text → List (Entry R) → Option ℕ
  find_slot id [] = none
  find_slot id (e ∷ es) =
      if text_eq e.profile.id id
      then some 0
      else elim (find_slot id es) [ none ↦ none | some i ↦ some (suc i) ]

  -- `saveManifest` after a change, then `signal` unless it failed.
  unfoldable pub commit : Entry R → ℕ → Pool R → Pool R × Option Error
  unfolding save_manifest signal
  commit e now p =
      let (d, err) = save_manifest e now p.disk in
      elim err [
        | some x ↦ (record p { disk = d }, some x)
        | none ↦ (signal (record p { disk = d }), none)
      ]

  -- The loop of `Activate`: it stops at the first manifest that cannot be saved.
  unfoldable pub activate_from :
      ℕ → List (Entry R) → Disk R → List (Entry R) × Disk R × Option Error
  unfolding save_manifest
  activate_from now [] d = ([], d, none)
  activate_from now (e ∷ es) d = elim (state_eq e.state State.warming) [
    | false ↦ let (es', d', err) = activate_from now es d in (e ∷ es', d', err)
    | true ↦
        let e' = record e { state = e.recovery_state } in
        let (d', err) = save_manifest e' now d in
        elim err [
          | some x ↦ (e' ∷ es, d', some x)
          | none ↦ let (es', d'', err') = activate_from now es d' in (e' ∷ es', d'', err')
        ]
  ]

  unfoldable pub activate : ℕ → Pool R → Pool R × Option Error
  unfolding activate_from signal
  activate now p =
      let (es, d, err) = activate_from now p.profiles p.disk in
      let q : Pool R = record p { profiles = es; disk = d } in
      elim err [ some x ↦ (q, some x) | none ↦ (signal q, none) ]

  -- An operation on the entry of an id, with the message for an id that no entry has.
  unfoldable pub at_entry :
      Text → Text → (ℕ → Entry R → Pool R × Option Error) → Pool R → Pool R × Option Error
  unfolding find_slot
  at_entry unknown id k p = elim (find_slot id p.profiles) [
    | none ↦ (p, some (plain unknown))
    | some i ↦ elim (get_elem? p.profiles i) [ none ↦ (p, some (plain unknown)) | some e ↦ k i e ]
  ]

  unfoldable pub drain : Text → ℕ → Pool R → Pool R × Option Error
  unfolding at_entry commit drained
  drain id now p =
      at_entry (codes "profile not found") id
        (λ i e.
          commit (drained e) now (record p { profiles = update p.profiles i (λ _. drained e) }))
        p

  unfoldable pub valid_replacement : Text → Pool R → Option Profile → Bool
  valid_replacement id p none = false
  valid_replacement id p (some q) =
      text_eq q.id id && text_eq q.provider p.provider && ltb 0 q.capacity

  -- The entry after `replaceRetired`; the old profile is closed by then.
  unfoldable pub replaced : FloatOps R → Profile → Entry R → Entry R
  replaced fl q e = record e {
    profile = q;
    state = State.probation;
    recovery_state = State.probation;
    in_flight = 0;
    effective_samples = 0;
    success_weight = fl.literal 0 1;
    failure_weight = fl.literal 0 1;
    recent_ewma = fl.literal 1 1;
    consecutive_failures = 0;
    recovery_attempts = 0;
    generation = (e.generation + 1) % 2 ^ 64;
  }

  -- `Close` of the old profile has already happened when its error ends the replacement.
  unfoldable pub swap_profile :
      FloatOps R → ℕ → ℕ → Profile → Entry R → Pool R → Pool R × Option Error
  unfolding replaced commit close_profile
  swap_profile fl now i q e p = elim (e.profile.close_error e.profile.closes) [
    | some x ↦ (
      record p {
        profiles = update p.profiles i (λ _. record e { profile = close_profile e.profile });
      },
      some x,
    )
    | none ↦
        commit (replaced fl q e) now
          (record p { profiles = update p.profiles i (λ _. replaced fl q e) })
  ]

  unfoldable pub replace_retired :
      FloatOps R → Text → Option Profile → ℕ → Pool R → Pool R × Option Error
  unfolding at_entry swap_profile valid_replacement
  replace_retired fl id replacement now p =
      at_entry (codes "profile is not retired") id
        (λ i e.
          if not (state_eq e.state State.retired)
          then (p, some (plain (codes "profile is not retired")))
          else elim replacement [
            | none ↦ (p, some (plain (codes "replacement profile is invalid")))
            | some q ↦
                if not (valid_replacement id p (some q))
                then (p, some (plain (codes "replacement profile is invalid")))
                else swap_profile fl now i q e p
          ])
        p

  -- The loop of `Close`, with the first error.
  unfoldable pub close_from : Option Error → List (Entry R) → List (Entry R) × Option Error
  unfolding close_profile
  close_from first [] = ([], first)
  close_from first (e ∷ es) =
      let (es', err) =
        close_from (elim first [ none ↦ e.profile.close_error e.profile.closes | some x ↦ some x ])
          es in
      (record e { state = State.retired; profile = close_profile e.profile } ∷ es', err)

  unfoldable pub close : Pool R → Pool R × Option Error
  unfolding close_from signal
  close p =
      let (es, err) = close_from none p.profiles in
      (signal (record p { closed = true; profiles = es }), err)
