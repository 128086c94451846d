-- ===== src/Prelude/Lists.antt =====
-- List operations over the native numbers, predicates by recursion, and an update at an index.
use Prim.Native.Nat.{◌≤◌, ℕ, zero, suc, ◌+◌}
use mathlib.Core.Path.{◌≡◌, refl, ap, subst}
use mathlib.Core.Logic.{◌≢◌}
use mathlib.Core.Option.{Option, none, some, some-injective}
use mathlib.Core.List.{List, [], ◌∷◌, ◌++◌, map}
use native.Mathlib.Omega.{arith}

module _ {ℓ} {A : Type ℓ} where
  abbrev pub length : List A → ℕ
  length [] = 0
  length (x ∷ xs) = suc (length xs)

  pub length-append : (xs ys : List A) → length (xs ++ ys) ≡ length xs + length ys
  length-append [] ys = omega arith
  length-append (x ∷ xs) ys = omega (arith, length-append xs ys)

  unfoldable pub take : ℕ → List A → List A
  take zero xs = []
  take (suc n) [] = []
  take (suc n) (x ∷ xs) = x ∷ take n xs

  unfoldable pub drop : ℕ → List A → List A
  drop zero xs = xs
  drop (suc n) [] = []
  drop (suc n) (x ∷ xs) = drop n xs

  pub take-append : (xs ys : List A) (n : ℕ) → length xs ≡ n → take n (xs ++ ys) ≡ xs
  unfolding take
  take-append [] ys zero h = refl
  take-append [] ys (suc n) h = absurd (omega (arith, h))
  take-append (x ∷ xs) ys zero h = absurd (omega (arith, h))
  take-append (x ∷ xs) ys (suc n) h = ap (◌∷◌ x) (take-append xs ys n (omega (arith, h)))

  pub drop-append : (xs ys : List A) (n : ℕ) → length xs ≡ n → drop n (xs ++ ys) ≡ ys
  unfolding drop
  drop-append [] ys zero h = refl
  drop-append [] ys (suc n) h = absurd (omega (arith, h))
  drop-append (x ∷ xs) ys zero h = absurd (omega (arith, h))
  drop-append (x ∷ xs) ys (suc n) h = drop-append xs ys n (omega (arith, h))

  pub length-take : (n : ℕ) (xs : List A) → length (take n xs) ≤ n
  unfolding take
  length-take zero xs = omega arith
  length-take (suc n) [] = omega arith
  length-take (suc n) (x ∷ xs) = omega (arith, length-take n xs)

  pub length-take_le : (n : ℕ) (xs : List A) → length (take n xs) ≤ length xs
  unfolding take
  length-take_le zero xs = omega arith
  length-take_le (suc n) [] = omega arith
  length-take_le (suc n) (x ∷ xs) = omega (arith, length-take_le n xs)

  abbrev pub get_elem? : List A → ℕ → Option A
  get_elem? [] i = none
  get_elem? (x ∷ xs) zero = some x
  get_elem? (x ∷ xs) (suc i) = get_elem? xs i

  -- The entry at an index is replaced by its image; out of range nothing changes.
  abbrev pub update : List A → ℕ → (A → A) → List A
  update [] i f = []
  update (x ∷ xs) zero f = f x ∷ xs
  update (x ∷ xs) (suc i) f = x ∷ update xs i f

  pub get_elem?-update_self :
      (xs : List A) (i : ℕ) (f : A → A) (a : A)
      → get_elem? xs i ≡ some a
      → get_elem? (update xs i f) i ≡ some (f a)
  get_elem?-update_self [] i f a h = cc
  get_elem?-update_self (x ∷ xs) zero f a h = ground arith
  get_elem?-update_self (x ∷ xs) (suc i) f a h = get_elem?-update_self xs i f a h

  pub get_elem?-update_ne :
      (xs : List A) (i j : ℕ) (f : A → A) → i ≢ j → get_elem? (update xs i f) j ≡ get_elem? xs j
  get_elem?-update_ne [] i j f h = refl
  get_elem?-update_ne (x ∷ xs) zero zero f h = absurd (h refl)
  get_elem?-update_ne (x ∷ xs) zero (suc j) f h = refl
  get_elem?-update_ne (x ∷ xs) (suc i) zero f h = refl
  get_elem?-update_ne (x ∷ xs) (suc i) (suc j) f h =
      get_elem?-update_ne xs i j f (λ e. h (ap suc e))

  pub length-update : (xs : List A) (i : ℕ) (f : A → A) → length (update xs i f) ≡ length xs
  length-update [] i f = refl
  length-update (x ∷ xs) zero f = refl
  length-update (x ∷ xs) (suc i) f = ap suc (length-update xs i f)

  abbrev pub All {κ} : (A → Type κ) → List A → Type κ
  All P [] = Unit
  All P (x ∷ xs) = P x × All P xs

module _ {ℓ κ} {A : Type ℓ} (P : A → Type κ) where
  pub All-get_elem? : (xs : List A) (i : ℕ) (a : A) → All P xs → get_elem? xs i ≡ some a → P a
  All-get_elem? [] i a h e = absurd (cc)
  All-get_elem? (x ∷ xs) zero a h e = subst P (some-injective x a e) h.0
  All-get_elem? (x ∷ xs) (suc i) a h e = All-get_elem? xs i a h.1 e

  pub All-update :
      (xs : List A) (i : ℕ) (f : A → A)
      → All P xs
      → ((a : A) → get_elem? xs i ≡ some a → P a → P (f a))
      → All P (update xs i f)
  All-update [] i f h k = h
  All-update (x ∷ xs) zero f h k = (k x refl h.0, h.1)
  All-update (x ∷ xs) (suc i) f h k = (h.0, All-update xs i f h.1 k)

  pub All-append : (xs ys : List A) → All P xs → All P ys → All P (xs ++ ys)
  All-append [] ys h k = k
  All-append (x ∷ xs) ys h k = (h.0, All-append xs ys h.1 k)

  pub All-map : (f : A → A) (xs : List A) → ((a : A) → P a → P (f a)) → All P xs → All P (map f xs)
  All-map f [] k h = h
  All-map f (x ∷ xs) k h = (k x h.0, All-map f xs k h.1)

  pub All-imp {μ} : (Q : A → Type μ) (xs : List A) → ((a : A) → P a → Q a) → All P xs → All Q xs
  All-imp Q [] k h = tt
  All-imp Q (x ∷ xs) k h = (k x h.0, All-imp Q xs k h.1)

module _ {ℓ} {A : Type ℓ} where
  abbrev pub Distinct : List A → Type ℓ
  Distinct [] = Unit
  Distinct (x ∷ xs) = All (λ y. y ≢ x) xs × Distinct xs

  pub Distinct-snoc :
      (xs : List A) (x : A) → All (λ y. x ≢ y) xs → Distinct xs → Distinct (xs ++ x ∷ [])
  Distinct-snoc [] x h d = (tt, tt)
  Distinct-snoc (y ∷ xs) x h d =
      (All-append (λ z. z ≢ y) xs (x ∷ []) d.0 (h.0, tt), Distinct-snoc xs x h.1 d.1)
