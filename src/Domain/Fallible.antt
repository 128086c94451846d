-- ===== src/Domain/Fallible.antt =====
-- A Go result `(value, error)`.
use search_x.Prelude.Text.{Text}
use search_x.Prelude.{inr, inl, ◌⊎◌, ◌≡◌, refl}
use search_x.Domain.Errors.{Error, wrap}

pub data Fallible {ℓ} (A : Type ℓ) : Type ℓ where
  ok : A → Fallible A
  fail : Error → Fallible A

infixl 5 ◌>>=◌
abbrev pub ◌>>=◌ {ℓ κ} : {A : Type ℓ} {B : Type κ} → Fallible A → (A → Fallible B) → Fallible B
fail e >>= f = fail e
ok a >>= f = f a

-- `fmt.Errorf("…: %w", err)`
abbrev pub wrapped {ℓ} : {A : Type ℓ} → Text → Fallible A → Fallible A
wrapped m (ok a) = ok a
wrapped m (fail e) = fail (wrap m e)

module _ {ℓ κ} {A : Type ℓ} {B : Type κ} (f : A → Fallible B) where
  pub >>=-eq-ok : (r : Fallible A) {y : B} → (r >>= f) ≡ ok y → (x : A) × (f x ≡ ok y) × (r ≡ ok x)
  >>=-eq-ok (fail e) h = cc
  >>=-eq-ok (ok x) h = (x, h, refl)

pub Fallible-cases {ℓ} :
    {A : Type ℓ} (r : Fallible A) → ((a : A) × (r ≡ ok a)) ⊎ ((e : Error) × (r ≡ fail e))
Fallible-cases (ok a) = inl (a, refl)
Fallible-cases (fail e) = inr (e, refl)
