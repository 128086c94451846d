-- ===== src/Examples/Pool.antt =====
-- A pool of two profiles, over numbers scaled by a million in place of `float64`.
use search_x.ProfilePool.Balance.{open_at}
use search_x.ProfilePool.Trust.{success_rate}
use search_x.ProfilePool.Release.{earns_trust, observed, judged, settled, release_entry, release}
use search_x.ProfilePool.Hash.{bucket}
use search_x.ProfilePool.Select.{
  relative_load, less_loaded, better, eligible, pick, select_from, select_entry,
}
use search_x.ProfilePool.Acquire.{
  is_due, reconcile_entry, reconcile, preferred, choose, refuses, try_acquire,
}
use search_x.ProfilePool.Control.{find_slot}
use search_x.ProfilePool.StepValid.{run-IsValid}
use search_x.ProfilePool.Founding.{build-IsValid, IsNew}
use search_x.Domain.Attempts.{Classification, bing}
use search_x.ProfilePool.Histories.{closes, step, releases, acquires, Call, run}
use search_x.Prelude.Text.{text_lt, codes, text_eq, Text}
use search_x.ProfilePool.Build.{made, fresh_entry, build}
use search_x.ProfilePool.Preserve.{IsValid}
use search_x.ProfilePool.Types.{State, Config, Profile, Pool, Entry}
use search_x.Prelude.{
  ◌≤◌, get_elem?, ◌≢◌, leb, ltb, ◌==◌, ◌-◌, ◌∷◌, ◌+◌, ◌≡◌, true, none, some, [], false, ◌/◌, arith,
  Option, All, ◌*◌, ==_iff, List, ℕ, refl,
}
use search_x.ProfilePool.Ledger.{run_leases, opened}
use search_x.ProfilePool.Trust.{failure_weight}
use search_x.ProfilePool.Floats.{FloatOps, IsOrder}

abbrev pub million : ℕ
million = 1_000_000

abbrev pub scaled : FloatOps ℕ
scaled = record {
  literal = λ n d. n * million / d;
  of_int = λ n. n * million;
  add = λ a b. a + b;
  sub = λ a b. a - b;
  mul = λ a b. a * b / million;
  div = λ a b. a * million / b;
  eq = λ a b. a == b;
  lt = λ a b. ltb a b;
  le = λ a b. leb a b;
  half_life = λ a b. million * b / (a + b);
  round = λ a. (a + million / 2) / million;
}

abbrev pub AnyNumber : ℕ → Type 0
AnyNumber n = Unit {0}

pub scaled-IsOrder : IsOrder scaled AnyNumber
scaled-IsOrder = record {
  ratio-IsNumber = λ a b h. tt;
  eq→same = λ a b _ _ h. (==_iff a b).0 h;
  eq-refl = λ a _. (==_iff a a).1 refl;
  lt-irrefl = λ a _. ground arith;
  lt-trans = λ a b c _ _ _ h k. ground arith;
  lt-total = λ a b _ _ h k. ground arith;
}

abbrev pub profile_of : Text → ℕ → Profile
profile_of id n = record {
  id = id;
  provider = bing;
  capacity = n;
  closes = 0;
  close_error = λ n. none;
}

abbrev pub first : Profile
first = profile_of (codes "p1") 2

abbrev pub second : Profile
second = profile_of (codes "p2") 1

abbrev pub settings : Config ℕ
settings = record {
  trusted_traffic_percent = 80;
  trust = record {
    min_samples = 1;
    min_success_rate = 600_000;
    min_recent_ewma = 900_000;
    max_consecutive_failures = 2;
    recent_alpha = 200_000;
    decay_half_life = 1000;
  };
  quarantine_cooldown = 50;
  degraded_cooldown = 20;
  max_recovery_attempts = 1;
}

abbrev pub two : List (Option Profile)
two = some first ∷ some second ∷ []

-- An entry as `New` makes it.
abbrev pub idle : Profile → Entry ℕ
idle q = record {
  profile = q;
  state = State.probation;
  in_flight = 0;
  effective_samples = 0;
  success_weight = 0;
  failure_weight = 0;
  recent_ewma = million;
  consecutive_failures = 0;
  generation = 1;
  recovery_state = State.probation;
  quarantined_until = 0;
  recovery_attempts = 0;
}

abbrev pub built : Pool ℕ
built = record {
  provider = bing;
  config = settings;
  profiles = idle first ∷ idle second ∷ [];
  disk = record { store = none; manifest_healthy = true };
  signals = 0;
  closed = false;
  auto_waiters = 0;
  explicit_streak = 0;
}

build-built : build scaled two settings none 0 ≡ made built
unfolding build text_eq find_slot fresh_entry
build-built = refl

build-IsValid_example : IsValid built × All (IsNew bing) built.profiles × (built.closed ≡ false)
build-IsValid_example = build-IsValid scaled two settings none 0 built build-built

abbrev pub calls : List (ℕ × Call)
calls =
    (1, acquires (codes "r1") false true [])
    ∷ (2, acquires (codes "r2") true false [])
    ∷ (3, releases 0 (record { succeeded = true; classification = Classification.normal }))
    ∷ (4, releases 0 (record { succeeded = true; classification = Classification.normal }))
    ∷ []

run-IsValid_example : IsValid (run scaled calls (record { pool = built; leases = [] })).pool
run-IsValid_example =
    run-IsValid scaled calls (record { pool = built; leases = [] }) build-IsValid_example.0

-- The second profile after the calls: one lease on it is open.
abbrev pub second_used : Entry ℕ
second_used = record (idle second) { in_flight = 1 }

second_stands :
    get_elem? (run scaled calls (opened scaled built)).pool.profiles 1 ≡ some second_used
unfolding run step try_acquire refuses choose select_entry select_from pick eligible better
    less_loaded relative_load text_eq text_lt bucket preferred reconcile reconcile_entry is_due
    release release_entry settled judged observed earns_trust success_rate failure_weight find_slot
    fresh_entry
second_stands = refl

none_closes : All (λ k. k.1 ≢ closes) calls
none_closes = (λ e. cc, (λ e. cc, (λ e. cc, (λ e. cc, tt))))

run_leases_example :
    (1 ≡ open_at 1 (run scaled calls (opened scaled built)).leases)
    × (open_at 1 (run scaled calls (opened scaled built)).leases ≤ 1)
run_leases_example =
    run_leases scaled two settings none 0 built calls 1 second_used build-built none_closes
      second_stands
