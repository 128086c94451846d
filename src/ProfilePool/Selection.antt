-- ===== src/ProfilePool/Selection.antt =====
-- The outcomes of `selectEntry` in `pool.go`.
use native.Mathlib.Nat.{zero-add}
use search_x.ProfilePool.LoadOrder.{less_loaded_irrefl, less_loaded-cotrans, less_loaded_trans}
use search_x.Prelude.{
  All-get_elem?, ◌&&◌, if◌then◌else◌, Bool-cases, ◌<◌, subst, ap, inr, [], inl, suc, arith, ◌∷◌,
  get_elem?, ◌+◌, false, true, All, ◌⊎◌, none, some, List, ◌≡◌, Option, ℕ,
}
use search_x.ProfilePool.Select.{select_entry, less_loaded, eligible, better, select_from, pick}
use search_x.Prelude.Text.{Text}
use search_x.ProfilePool.Types.{Entry, State}
use search_x.ProfilePool.Floats.{IsOrder, FloatOps}

module _ {R : Type 0} (fl : FloatOps R) (s : State) (x : Text) where
  pick-some :
      (i : ℕ) (sel : Option (ℕ × Entry R)) (c : Entry R) (j : ℕ) (e : Entry R)
      → pick fl s x i sel c ≡ some (j, e)
      → (sel ≡ some (j, e)) ⊎ ((i ≡ j) × (c ≡ e) × (eligible s x c ≡ true))
  unfolding pick
  pick-some i sel c j e h = ground arith

  pick-none :
      (i : ℕ) (sel : Option (ℕ × Entry R)) (c : Entry R)
      → pick fl s x i sel c ≡ none
      → (sel ≡ none) × (eligible s x c ≡ false)
  unfolding pick better
  pick-none i sel c h = ground arith

  select_from_sound :
      (i : ℕ) (sel : Option (ℕ × Entry R)) (cs : List (Entry R)) (j : ℕ) (e : Entry R)
      → select_from fl s x i sel cs ≡ some (j, e)
      → (sel ≡ some (j, e))
        ⊎ ((k : ℕ) × (j ≡ i + k) × (get_elem? cs k ≡ some e) × (eligible s x e ≡ true))
  unfolding select_from
  select_from_sound i sel [] j e h = inl h
  select_from_sound i sel (c ∷ cs) j e h =
      elim (select_from_sound (suc i) (pick fl s x i sel c) cs j e h) [
        | inl g ↦ elim (pick-some i sel c j e g) [
          | inl k ↦ inl k
          | inr (a, b, d) ↦ inr (0, omega arith, ap some b, subst (λ y. eligible s x y ≡ true) b d)
        ]
        | inr (k, a, b, d) ↦ inr (suc k, omega arith, b, d)
      ]

  select_from_complete :
      (i : ℕ) (sel : Option (ℕ × Entry R)) (cs : List (Entry R))
      → select_from fl s x i sel cs ≡ none
      → (sel ≡ none) × All (λ c. eligible s x c ≡ false) cs
  unfolding select_from
  select_from_complete i sel [] h = (h, tt)
  select_from_complete i sel (c ∷ cs) h =
      let (g, rest) = select_from_complete (suc i) (pick fl s x i sel c) cs h in
      let d = pick-none i sel c g in (d.0, (d.1, rest))

  pub select_entry_sound :
      (es : List (Entry R)) (i : ℕ) (e : Entry R)
      → select_entry fl s x es ≡ some (i, e)
      → (get_elem? es i ≡ some e) × (eligible s x e ≡ true)
  unfolding select_entry
  select_entry_sound es i e h = elim (select_from_sound 0 none es i e h) [
    | inl q ↦ absurd (cc)
    | inr (k, a, b, d) ↦ (rw (a, zero-add) b, d)
  ]

  pub select_entry-none :
      (es : List (Entry R)) → select_entry fl s x es ≡ none → All (λ c. eligible s x c ≡ false) es
  unfolding select_entry
  select_entry-none es h = (select_from_complete 0 none es h).1

module _ {R : Type 0} where
  abbrev pub HasRoom : Entry R → Type 0
  HasRoom c = 0 < c.profile.capacity

  HasRoomIn : Option (ℕ × Entry R) → Type 0
  HasRoomIn none = Unit
  HasRoomIn (some (i, b)) = HasRoom b

module _ {R : Type 0} (fl : FloatOps R) where
  -- The entries that are eligible do not come before `e`.
  abbrev pub IsLeast : State → Text → Entry R → List (Entry R) → Type 0
  IsLeast s x e = All (λ c. (eligible s x c && less_loaded fl c e) ≡ false)

  -- The entry selected so far, if any, does not come before `e`.
  NotBefore : Entry R → Option (ℕ × Entry R) → Type 0
  NotBefore e none = Unit
  NotBefore e (some (i, b)) = less_loaded fl b e ≡ false

module _ {R : Type 0} (fl : FloatOps R) (IsNumber : R → Type 0) (o : IsOrder fl IsNumber)
    (s : State) (x : Text) where
  pick-HasRoom :
      (i : ℕ) (sel : Option (ℕ × Entry R)) (c : Entry R)
      → HasRoom c
      → HasRoomIn sel
      → HasRoomIn (pick fl s x i sel c)
  unfolding pick HasRoomIn
  pick-HasRoom i sel c h k = elim (Bool-cases (eligible s x c && better fl c sel)) [
    | inl q ↦ rw q h
    | inr q ↦ rw q k
  ]

  -- A new choice was less loaded than the old one; an old one that stays was not.
  pick-NotBefore :
      (i : ℕ) (sel : Option (ℕ × Entry R)) (c e : Entry R)
      → HasRoom c
      → HasRoom e
      → HasRoomIn sel
      → NotBefore fl e (pick fl s x i sel c)
      → NotBefore fl e sel × ((eligible s x c && less_loaded fl c e) ≡ false)
  unfolding pick NotBefore HasRoomIn better
  pick-NotBefore i none c e h k l n = elim (Bool-cases (eligible s x c)) [
    | inl q ↦ (tt, ground (arith, rw q at n))
    | inr q ↦ (tt, rw q)
  ]
  pick-NotBefore i (some (j, b)) c e h k l n = (
    ground (arith, less_loaded_trans fl IsNumber o c b e h l k, n'),
    ground (arith, less_loaded-cotrans fl IsNumber o c b e h l k, n'),
  )
    where
      n' :
          NotBefore fl e (if eligible s x c && less_loaded fl c b then some (i, c) else some (j, b))
      n' = n

  select_from-IsLeast :
      (i : ℕ) (sel : Option (ℕ × Entry R)) (cs : List (Entry R)) (j : ℕ) (e : Entry R)
      → All HasRoom cs
      → HasRoom e
      → HasRoomIn sel
      → select_from fl s x i sel cs ≡ some (j, e)
      → NotBefore fl e sel × IsLeast fl s x e cs
  unfolding select_from NotBefore HasRoomIn
  select_from-IsLeast i none [] j e h k l g = (tt, tt)
  select_from-IsLeast i (some (m, b)) [] j e h k l g =
      (ground (arith, less_loaded_irrefl fl IsNumber o b l), tt)
  select_from-IsLeast i sel (c ∷ cs) j e h k l g =
      let (n, rest) =
        select_from-IsLeast (suc i) (pick fl s x i sel c) cs j e h.1 k (pick-HasRoom i sel c h.0 l)
          g in
      let (m, first) = pick-NotBefore i sel c e h.0 k l n in (m, (first, rest))

  -- Where all capacities are positive and the floats are ordered: no eligible entry is less loaded
  -- than the one selected.
  pub select_entry-IsLeast :
      (es : List (Entry R)) (i : ℕ) (e : Entry R)
      → All HasRoom es
      → select_entry fl s x es ≡ some (i, e)
      → IsLeast fl s x e es
  unfolding select_entry HasRoomIn
  select_entry-IsLeast es i e h g =
      let (at_i, fits) = select_entry_sound fl s x es i e g in
      (select_from-IsLeast 0 none es i e h (All-get_elem? HasRoom es i e h at_i) tt g).1
