-- ===== src/ProfilePool/Trust.antt =====
-- `trust.go` and `failureWeight` in `lease.go`.
use search_x.Prelude.{ℕ, Bool, ◌==◌, ◌||◌, if◌then◌else◌}
use search_x.Domain.Attempts.{Classification}
use search_x.ProfilePool.Floats.{FloatOps}
use search_x.ProfilePool.Types.{TrustConfig}

-- An `int` or a `Duration` that is tested by `<= 0` alone: what is not positive is 0.
abbrev pub or_default : ℕ → ℕ → ℕ
or_default n d = if n == 0 then d else n

-- 7 * 24 * time.Hour
abbrev week : ℕ
week = 604_800_000_000_000

module _ {R : Type 0} (fl : FloatOps R) where
  open fl use {literal, add, div, le, lt}

  -- `x <= 0 || x > 1`
  abbrev out_of_unit : R → Bool
  out_of_unit x = le x (literal 0 1) || lt (literal 1 1) x

  unfoldable pub normalized : TrustConfig R → TrustConfig R
  normalized c = record {
    min_samples = or_default c.min_samples 20;
    min_success_rate = if out_of_unit c.min_success_rate then literal 9 10 else c.min_success_rate;
    min_recent_ewma = if out_of_unit c.min_recent_ewma then literal 9 10 else c.min_recent_ewma;
    max_consecutive_failures = or_default c.max_consecutive_failures 3;
    recent_alpha = if out_of_unit c.recent_alpha then literal 1 5 else c.recent_alpha;
    decay_half_life = or_default c.decay_half_life week;
  }

  unfoldable pub success_rate : R → R → R
  success_rate success failure =
      div (add success (literal 1 1)) (add (add (add success failure) (literal 1 1)) (literal 1 1))

  unfoldable pub failure_weight : Classification → R
  failure_weight Classification.timeout = literal 1 4
  failure_weight Classification.network_error = literal 1 4
  failure_weight Classification.parse_changed = literal 0 1
  failure_weight Classification.rate_limited = literal 3 4
  failure_weight Classification.captcha = literal 1 1
  failure_weight Classification.blocked = literal 1 1
  failure_weight _ = literal 1 1
