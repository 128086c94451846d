-- ===== src/Prelude/Int.antt =====
-- Go's `int` where its sign matters.
use Prim.Native.Nat.{ℕ, ◌+◌, ◌-◌, ◌≤◌}
use mathlib.Core.Path.{◌≡◌, refl}
use mathlib.Core.Bool.{Bool, true, false}
use search_x.Prelude.Tests.{leb, ltb, ◌==◌, if◌then◌else◌, le→leb}

-- `negsuc n` is -(n + 1).
pub data ℤ : Type 0 where
  pos : ℕ → ℤ
  negsuc : ℕ → ℤ

abbrev pub leb_int : ℤ → ℤ → Bool
leb_int (pos a) (pos b) = leb a b
leb_int (pos a) (negsuc b) = false
leb_int (negsuc a) (pos b) = true
leb_int (negsuc a) (negsuc b) = leb b a

abbrev pub is_zero : ℤ → Bool
is_zero (pos n) = n == 0
is_zero (negsuc n) = false

-- The difference of two natural numbers.
infix 65 ◌⊖◌
abbrev pub ◌⊖◌ : ℕ → ℕ → ℤ
a ⊖ b = if leb b a then pos (a - b) else negsuc (b - a - 1)

infixl 65 ◌+ℤ◌
abbrev pub ◌+ℤ◌ : ℤ → ℤ → ℤ
pos a +ℤ pos b = pos (a + b)
pos a +ℤ negsuc b = a ⊖ (b + 1)
negsuc a +ℤ pos b = b ⊖ (a + 1)
negsuc a +ℤ negsuc b = negsuc (a + b + 1)

-- Whether it is above 0.
abbrev pub is_positive : ℤ → Bool
is_positive (pos n) = ltb 0 n
is_positive (negsuc n) = false

pub ⊖_le : (a b : ℕ) → b ≤ a → (a ⊖ b) ≡ pos (a - b)
⊖_le a b h = rw (le→leb b a h) refl

pub pos-injective : (a b : ℕ) → pos a ≡ pos b → a ≡ b
pos-injective a b h = cc h
