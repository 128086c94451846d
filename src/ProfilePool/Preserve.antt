-- ===== src/ProfilePool/Preserve.antt =====
-- Well-formed pools, and well-formedness under the operations on one entry.
use search_x.Domain.Errors.{plain, Error}
use search_x.ProfilePool.Validity.{ids, IsSound}
use search_x.Prelude.Text.{text_eq→eq, Text}
use search_x.Domain.Attempts.{ProviderName}
use search_x.ProfilePool.Types.{Entry, Pool}
use search_x.ProfilePool.Control.{at_entry, commit, find_slot}
use search_x.ProfilePool.Release.{save_and_signal}
use search_x.Prelude.{
  Distinct, inr, inl, Option-cases, zero, suc, All-update, All-map, [], ◌∷◌, map, update, some,
  arith, get_elem?, ◌≡◌, Option, ℕ, All, List, refl,
}

module _ {R : Type 0} where
  -- What `New` validates holds of every entry, no request count exceeds a capacity, and the ids
  -- are distinct.
  pub record IsValid (p : Pool R) : Type 0 where
    pub entries : All (IsSound p.provider) p.profiles
    pub distinct : Distinct (ids p.profiles)

  abbrev AreValid : ProviderName → List (Entry R) → Type 0
  AreValid v es = All (IsSound v) es × Distinct (ids es)

  ids-map :
      (f : Entry R → Entry R) (es : List (Entry R))
      → ((e : Entry R) → (f e).profile.id ≡ e.profile.id)
      → ids (map f es) ≡ ids es
  ids-map f [] h = refl
  ids-map f (e ∷ es) h = cc (h e, ids-map f es h)

  ids-update :
      (es : List (Entry R)) (i : ℕ) (f : Entry R → Entry R)
      → ((e : Entry R) → get_elem? es i ≡ some e → (f e).profile.id ≡ e.profile.id)
      → ids (update es i f) ≡ ids es
  ids-update [] i f h = refl
  ids-update (e ∷ es) zero f h = cc (h e refl)
  ids-update (e ∷ es) (suc i) f h = cc (ids-update es i f h)

  pub AreValid-map :
      (v : ProviderName) (f : Entry R → Entry R) (es : List (Entry R))
      → ((e : Entry R) → (f e).profile.id ≡ e.profile.id)
      → ((e : Entry R) → IsSound v e → IsSound v (f e))
      → AreValid v es
      → AreValid v (map f es)
  AreValid-map v f es same sound (a, d) =
      (All-map (IsSound v) f es sound a, rw (ids-map f es same) d)

  pub AreValid-update :
      (v : ProviderName) (f : Entry R → Entry R) (es : List (Entry R)) (i : ℕ)
      → ((e : Entry R) → get_elem? es i ≡ some e → (f e).profile.id ≡ e.profile.id)
      → ((e : Entry R) → get_elem? es i ≡ some e → IsSound v e → IsSound v (f e))
      → AreValid v es
      → AreValid v (update es i f)
  AreValid-update v f es i same sound (a, d) =
      (All-update (IsSound v) es i f a sound, rw (ids-update es i f same) d)

  -- A save touches the directory and `manifestHealthy`, and a signal the waiters, nothing else.
  pub commit_frame :
      (e : Entry R) (now : ℕ) (p : Pool R)
      → ((commit e now p).0.profiles ≡ p.profiles)
        × ((commit e now p).0.provider ≡ p.provider)
        × ((commit e now p).0.closed ≡ p.closed)
  unfolding commit
  commit_frame e now p = ground arith

  pub save_and_signal_frame :
      (e : Entry R) (now : ℕ) (p : Pool R)
      → ((save_and_signal e now p).0.profiles ≡ p.profiles)
        × ((save_and_signal e now p).0.provider ≡ p.provider)
        × ((save_and_signal e now p).0.closed ≡ p.closed)
  unfolding save_and_signal
  save_and_signal_frame e now p = ground arith

  pub find_slot_sound :
      (id : Text) (es : List (Entry R)) (i : ℕ) (e : Entry R)
      → find_slot id es ≡ some i
      → get_elem? es i ≡ some e
      → e.profile.id ≡ id
  unfolding find_slot
  find_slot_sound id [] i e h k = cc
  find_slot_sound id (c ∷ es) zero e h k =
      ground (arith, text_eq→eq c.profile.id id, find_slot id es)
  find_slot_sound id (c ∷ es) (suc i) e h k = ground (arith, find_slot_sound id es i e)

  -- The two ways out of a lookup by id.
  pub at_entry_cases {ℓ} :
      (P : Pool R × Option Error → Type ℓ) (unknown id : Text)
      (k : ℕ → Entry R → Pool R × Option Error) (p : Pool R)
      → P (p, some (plain unknown))
      → ((i : ℕ) (e : Entry R) → get_elem? p.profiles i ≡ some e → e.profile.id ≡ id → P (k i e))
      → P (at_entry unknown id k p)
  unfolding at_entry
  at_entry_cases P unknown id k p missing found = elim (Option-cases (find_slot id p.profiles)) [
    | inl e ↦ rw (e, at_entry) missing
    | inr (i, e) ↦ elim (Option-cases (get_elem? p.profiles i)) [
      | inl f ↦ rw (e, f, at_entry) missing
      | inr (c, f) ↦ rw (e, f, at_entry) (found i c f (find_slot_sound id p.profiles i c e f))
    ]
  ]
