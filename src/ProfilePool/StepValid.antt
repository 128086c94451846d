-- ===== src/ProfilePool/StepValid.antt =====
-- Well-formedness call by call, and over a history.
use search_x.ProfilePool.Upkeep.{
  drain-IsValid, close-IsValid, save_and_signal-IsValid, update-IsValid, reconcile-IsValid,
  commit-IsValid, activate-IsValid,
}
use search_x.ProfilePool.Selection.{select_entry_sound}
use search_x.ProfilePool.Histories.{
  wakes, waits, closes, activates, acquires, replaces, drains, releases, World, Call, hand_out,
  step, run,
}
use mathlib.Core.Option.{some-injective}
use search_x.ProfilePool.Grants.{choose_cases, Attempted, try_acquire-Attempted}
use search_x.ProfilePool.Floats.{FloatOps}
use search_x.ProfilePool.Validity.{
  settled-IsSound, eligible_cases, reserve-IsSound, settled_frame, replaced-IsSound,
  close_profile-IsSound, IsSound,
}
use search_x.ProfilePool.Release.{
  profile_relevant, returned, retires, settled, release_entry, release,
}
use search_x.ProfilePool.Preserve.{at_entry_cases, IsValid}
use search_x.Prelude.Text.{text_eq→eq, Text}
use search_x.ProfilePool.Types.{Result, Lease, Profile, state_eq, State, Pool, Entry}
use search_x.ProfilePool.Control.{
  close_profile, replaced, valid_replacement, signal, swap_profile, replace_retired,
}
use search_x.ProfilePool.Acquire.{
  wait_end, reserve, wait_begin, preferred, choose, try_acquire, grant, reconcile,
}
use search_x.Prelude.{
  ◌&&◌, ◌∙◌, sym, not, ◌<◌, true, Bool, none, Option, Option-cases, inl, inr, Bool-cases, [], ◌∷◌,
  All-get_elem?, update, arith, some, ◌≡◌, get_elem?, List, ℕ, refl,
}

module _ {R : Type 0} (fl : FloatOps R) where
  swap_profile-IsValid :
      (now i : ℕ) (q : Profile) (e : Entry R) (p : Pool R)
      → get_elem? p.profiles i ≡ some e
      → valid_replacement e.profile.id p (some q) ≡ true
      → IsValid p
      → IsValid (swap_profile fl now i q e p).0
  unfolding swap_profile
  swap_profile-IsValid now i q e p g w h =
      let sound = All-get_elem? (IsSound p.provider) p.profiles i e h.entries g in
      elim (Option-cases (e.profile.close_error e.profile.closes)) [
        | inl f ↦
            rw (f, swap_profile)
              (commit-IsValid (replaced fl q e) now _ (
                update-IsValid p i (λ _. replaced fl q e) (λ c k. replaced-id c k)
                  (λ c k s. replaced-IsSound fl p e.profile.id q e sound.named w) h))
        | inr (x, f) ↦
            rw (f, swap_profile)
              (update-IsValid p i (λ _. record e { profile = close_profile e.profile })
                (λ c k. unfold close_profile in ground (arith, k, g))
                (λ c k s. close_profile-IsSound p.provider e e.state sound) h)
      ]
    where
      replaced-id :
          (c : Entry R)
          → get_elem? p.profiles i ≡ some c
          → (replaced fl q e).profile.id ≡ c.profile.id
      replaced-id c k =
          unfold replaced valid_replacement in ground (arith, k, g, text_eq→eq q.id e.profile.id, w)

  replace_retired-IsValid :
      (id : Text) (o : Option Profile) (now : ℕ) (p : Pool R)
      → IsValid p
      → IsValid (replace_retired fl id o now p).0
  unfolding replace_retired
  replace_retired-IsValid id none now p h =
      at_entry_cases (λ r. IsValid r.0) _ id _ p h
        λ i e g k. elim (Bool-cases (state_eq e.state State.retired)) [
          | inl a ↦ rw a h
          | inr a ↦ rw a h
        ]
  replace_retired-IsValid id (some q) now p h =
      at_entry_cases (λ r. IsValid r.0) _ id _ p h
        λ i e g k. elim (Bool-cases (state_eq e.state State.retired)) [
          | inr a ↦ rw a h
          | inl a ↦ elim (Bool-cases (valid_replacement id p (some q))) [
            | inr b ↦ rw (a, b) h
            | inl b ↦ rw (a, b) (swap_profile-IsValid now i q e p g (rw k b) h)
          ]
        ]

  settled-IsValid :
      (i : ℕ) (r : Result) (now : ℕ) (e : Entry R) (p : Pool R)
      → get_elem? p.profiles i ≡ some e
      → IsValid p
      → IsValid (record p { profiles = update p.profiles i (λ _. settled fl p.config r now e) })
  settled-IsValid i r now e p g h =
      update-IsValid p i (λ _. settled fl p.config r now e)
        (λ c k. cc ((settled_frame fl p.config r now e).0, some-injective c e (sym k ∙ g)))
        (λ c k s.
          settled-IsSound fl p.config r now p.provider e
            (All-get_elem? (IsSound p.provider) p.profiles i e h.entries g))
        h

  release_entry-IsValid :
      (i : ℕ) (r : Result) (now : ℕ) (e : Entry R) (p : Pool R)
      → get_elem? p.profiles i ≡ some e
      → IsValid p
      → IsValid (release_entry fl i r now e p).0
  unfolding release_entry
  release_entry-IsValid i r now e p g h =
      let v = settled-IsValid i r now e p g h in
      elim (Bool-cases (not (retires (returned e)) && not (profile_relevant r))) [
        | inl a ↦ rw a (unfold signal in record { entries = v.entries; distinct = v.distinct })
        | inr a ↦ rw a (save_and_signal-IsValid (settled fl p.config r now e) now _ v)
      ]

  release-IsValid :
      (l : Lease) (r : Result) (now : ℕ) (p : Pool R) → IsValid p → IsValid (release fl l r now p).1
  unfolding release
  release-IsValid l r now p h = elim (Bool-cases l.released) [
    | inl a ↦ rw a h
    | inr a ↦ elim (Option-cases (get_elem? p.profiles l.slot)) [
      | inl b ↦ rw (a, b, release) h
      | inr (e, b) ↦ rw (a, b, release) (release_entry-IsValid l.slot r now e p b h)
    ]
  ]

  grant-IsValid :
      (automatic explicit : Bool) (now i : ℕ) (e : Entry R) (p : Pool R)
      → (get_elem? p.profiles i ≡ some e) × (e.in_flight < e.profile.capacity)
      → IsValid p
      → IsValid (grant automatic explicit now i p).0
  unfolding grant
  grant-IsValid automatic explicit now i e p (g, lt) h =
      let v =
        update-IsValid p i reserve (λ c k. unfold reserve in refl)
          (λ c k s. reserve-IsSound p.provider c (rw (some-injective c e (sym k ∙ g)) lt) s) h in
      record { entries = v.entries; distinct = v.distinct }

  granted_room :
      (id x : Text) (now : ℕ) (p : Pool R) (i : ℕ) (e : Entry R)
      → choose fl (preferred id p) x (reconcile now p).profiles ≡ some (i, e)
      → (get_elem? (reconcile now p).profiles i ≡ some e) × (e.in_flight < e.profile.capacity)
  granted_room id x now p i e h =
      let (s, c, g) = choose_cases fl (preferred id p) x (reconcile now p).profiles i e h in
      let (m, f) = select_entry_sound fl s x (reconcile now p).profiles i e g in
      (m, (eligible_cases s x e f).0)

  try_acquire-IsValid :
      (id : Text) (automatic explicit : Bool) (x : Text) (now : ℕ) (p : Pool R)
      → IsValid p
      → IsValid (try_acquire fl id automatic explicit x now p).0
  unfolding grant
  try_acquire-IsValid id automatic explicit x now p h =
      elim (try_acquire-Attempted fl id automatic explicit x now p) [
        | Attempted.refused a b ↦ rw b h
        | Attempted.full a b c ↦ rw c (reconcile-IsValid now p h)
        | Attempted.granted i e a b c ↦ rw c (
            grant-IsValid automatic explicit now i e (reconcile now p)
              (granted_room id x now p i e b) (reconcile-IsValid now p h))
      ]

  hand_out-IsValid :
      (w : World R) (r : Pool R × Option Lease) → IsValid r.0 → IsValid (hand_out w r).pool
  unfolding hand_out
  hand_out-IsValid w (p, none) h = h
  hand_out-IsValid w (p, some l) h = h

  release_call-IsValid :
      (w : World R) (n : ℕ) (r : Result) (now : ℕ)
      → IsValid w.pool
      → IsValid (step fl (now, releases n r) w).pool
  unfolding step
  release_call-IsValid w n r now h = elim (Option-cases (get_elem? w.leases n)) [
    | inl a ↦ rw (a, step) h
    | inr (l, a) ↦ rw (a, step) (release-IsValid l r now w.pool h)
  ]

  pub step-IsValid : (c : ℕ × Call) (w : World R) → IsValid w.pool → IsValid (step fl c w).pool
  unfolding step wait_begin wait_end
  step-IsValid (now, activates) w h = activate-IsValid now w.pool h
  step-IsValid (now, closes) w h = close-IsValid w.pool h
  step-IsValid (now, waits) w h = record { entries = h.entries; distinct = h.distinct }
  step-IsValid (now, wakes) w h = record { entries = h.entries; distinct = h.distinct }
  step-IsValid (now, drains id) w h = drain-IsValid id now w.pool h
  step-IsValid (now, replaces id q) w h = replace_retired-IsValid id q now w.pool h
  step-IsValid (now, acquires id automatic explicit x) w h =
      hand_out-IsValid w _ (try_acquire-IsValid id automatic explicit x now w.pool h)
  step-IsValid (now, releases n r) w h = release_call-IsValid w n r now h

  -- Whatever calls are made, in whatever order: every profile stays with its provider, has an id
  -- of its own and a positive capacity, and never more requests in flight than its capacity.
  pub run-IsValid :
      (cs : List (ℕ × Call)) (w : World R) → IsValid w.pool → IsValid (run fl cs w).pool
  unfolding run
  run-IsValid [] w h = h
  run-IsValid (c ∷ cs) w h = run-IsValid cs (step fl c w) (step-IsValid c w h)
