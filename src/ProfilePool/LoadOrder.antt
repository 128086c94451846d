-- ===== src/ProfilePool/LoadOrder.antt =====
-- The order of entries by `lessLoaded` in `pool.go`.
use search_x.ProfilePool.Select.{relative_load, less_loaded}
use search_x.ProfilePool.Types.{Entry}
use search_x.Prelude.{
  inr, inl, ◌<◌, Bool-cases, ◌≢◌, false, arith, not, true, if◌then◌else◌, ◌≡◌, Bool,
}
use search_x.Prelude.Text.{
  text_eq_refl, text_eq→eq, text_lt-total, text_eq, text_lt_irrefl, text_lt_trans, text_lt, Text,
}
use search_x.ProfilePool.Floats.{FloatOps, IsOrder}

module _ {R : Type 0} (fl : FloatOps R) where
  before : R → Text → R → Text → Bool
  before a s b t = if not (fl.eq a b) then fl.lt a b else text_lt s t

module _ {R : Type 0} (fl : FloatOps R) (IsNumber : R → Type 0) (o : IsOrder fl IsNumber) where
  before_trans :
      (a b c : R) (s t u : Text)
      → IsNumber a
      → IsNumber b
      → IsNumber c
      → before fl a s b t ≡ true
      → before fl b t c u ≡ true
      → before fl a s c u ≡ true
  unfolding before
  before_trans a b c s t u x y z h k = ground (
    arith,
    o.eq→same a b x y,
    o.eq→same b c y z,
    o.eq→same a c x z,
    o.eq-refl a x,
    o.lt-irrefl a x,
    o.lt-irrefl b y,
    o.lt-trans a b c x y z,
    o.lt-trans b a b y x y,
    text_lt_trans s t u,
  )

  before_irrefl : (a : R) (s : Text) → IsNumber a → before fl a s a s ≡ false
  unfolding before
  before_irrefl a s x = ground (arith, o.eq-refl a x, text_lt_irrefl s)

  cotrans_same :
      (a b c : R) (s t u : Text)
      → IsNumber a
      → IsNumber b
      → IsNumber c
      → before fl a s c u ≡ true
      → before fl a s b t ≡ false
      → s ≡ t
      → before fl b t c u ≡ true
  unfolding before
  cotrans_same a b c s t u x y z h k q = ground (
    arith,
    o.eq→same a b x y,
    o.eq→same b c y z,
    o.eq→same a c x z,
    o.eq-refl a x,
    o.eq-refl b y,
    o.lt-trans b a c y x z,
    o.lt-total a b x y,
    text_lt_irrefl s,
  )

  cotrans_other :
      (a b c : R) (s t u : Text)
      → IsNumber a
      → IsNumber b
      → IsNumber c
      → before fl a s c u ≡ true
      → before fl a s b t ≡ false
      → s ≢ t
      → before fl b t c u ≡ true
  unfolding before
  cotrans_other a b c s t u x y z h k q = ground (
    arith,
    o.eq→same a b x y,
    o.eq→same b c y z,
    o.eq→same a c x z,
    o.eq-refl a x,
    o.eq-refl b y,
    o.lt-trans b a c y x z,
    o.lt-total a b x y,
    text_lt-total s t,
    text_lt_trans t s u,
  )

  -- What is before `c` and not before `b` has `b` before `c`.
  before-cotrans :
      (a b c : R) (s t u : Text)
      → IsNumber a
      → IsNumber b
      → IsNumber c
      → before fl a s c u ≡ true
      → before fl a s b t ≡ false
      → before fl b t c u ≡ true
  before-cotrans a b c s t u x y z h k = elim (Bool-cases (text_eq s t)) [
    | inl e ↦ cotrans_same a b c s t u x y z h k (text_eq→eq s t e)
    | inr e ↦ cotrans_other a b c s t u x y z h k (λ q. cc (q, text_eq_refl s))
  ]

  pub less_loaded_irrefl : (e : Entry R) → 0 < e.profile.capacity → less_loaded fl e e ≡ false
  unfolding less_loaded relative_load before
  less_loaded_irrefl e p = before_irrefl _ _ (o.ratio-IsNumber e.in_flight e.profile.capacity p)

  module _ (e f g : Entry R) (p : 0 < e.profile.capacity) (q : 0 < f.profile.capacity)
      (r : 0 < g.profile.capacity) where
    pub less_loaded_trans :
        less_loaded fl e f ≡ true → less_loaded fl f g ≡ true → less_loaded fl e g ≡ true
    unfolding less_loaded relative_load before
    less_loaded_trans =
        before_trans _ _ _ _ _ _ (o.ratio-IsNumber e.in_flight e.profile.capacity p)
          (o.ratio-IsNumber f.in_flight f.profile.capacity q)
          (o.ratio-IsNumber g.in_flight g.profile.capacity r)

    pub less_loaded-cotrans :
        less_loaded fl e g ≡ true → less_loaded fl e f ≡ false → less_loaded fl f g ≡ true
    unfolding less_loaded relative_load before
    less_loaded-cotrans =
        before-cotrans _ _ _ _ _ _ (o.ratio-IsNumber e.in_flight e.profile.capacity p)
          (o.ratio-IsNumber f.in_flight f.profile.capacity q)
          (o.ratio-IsNumber g.in_flight g.profile.capacity r)
