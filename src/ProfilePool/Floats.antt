-- ===== src/ProfilePool/Floats.antt =====
-- Go's `float64` and package `math` as an interface: the pool computes weights, rates and loads
-- with these operations, and nothing here depends on how they round.
use search_x.Prelude.{ℕ, Bool, true, false, ◌≡◌, ◌<◌}

pub record FloatOps (R : Type 0) : Type 0 where
  -- The literal `n / d`, as 0.25 is `literal 1 4`.
  pub literal : ℕ → ℕ → R
  pub of_int : ℕ → R
  pub add : R → R → R
  pub sub : R → R → R
  pub mul : R → R → R
  pub div : R → R → R
  pub eq : R → R → Bool
  pub lt : R → R → Bool
  pub le : R → R → Bool
  -- `math.Exp(-math.Ln2 * a / b)` and `int(math.Round(x))`.
  pub half_life : R → R → R
  pub round : R → ℕ

-- What IEEE comparison promises on the numbers other than NaN and -0, and that a quotient of a
-- count by a positive count is one: `<` is irreflexive and transitive, `==` is equality, and one of
-- the three holds of any two.
pub record IsOrder {R : Type 0} (fl : FloatOps R) (IsNumber : R → Type 0) : Type 0 where
  pub ratio-IsNumber : (a b : ℕ) → 0 < b → IsNumber (fl.div (fl.of_int a) (fl.of_int b))
  pub eq→same : (a b : R) → IsNumber a → IsNumber b → fl.eq a b ≡ true → a ≡ b
  pub eq-refl : (a : R) → IsNumber a → fl.eq a a ≡ true
  pub lt-irrefl : (a : R) → IsNumber a → fl.lt a a ≡ false
  pub lt-trans :
      (a b c : R)
      → IsNumber a
      → IsNumber b
      → IsNumber c
      → fl.lt a b ≡ true
      → fl.lt b c ≡ true
      → fl.lt a c ≡ true
  pub lt-total :
      (a b : R) → IsNumber a → IsNumber b → fl.eq a b ≡ false → fl.lt a b ≡ false → fl.lt b a ≡ true
