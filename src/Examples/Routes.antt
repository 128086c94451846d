-- ===== src/Examples/Routes.antt =====
-- The router over two pools.
use search_x.Examples.Requests.{page}
use search_x.Domain.Fallible.{ok, Fallible}
use search_x.Routing.World.{expire, meanwhile, wake, Limits, Env, Shared}
use search_x.ProfilePool.Select.{relative_load, less_loaded, better, eligible, pick, select_from}
use search_x.ProfilePool.Acquire.{try_acquire_auto_except}
use search_x.Prelude.Strings.{is_member}
use search_x.Routing.Priority.{reroutable-allows_fallback, route-Routed, chain_falls_back, Routed}
use search_x.Routing.Router.{route, reroutable}
use search_x.Prelude.{none, refl, some, ◌≡◌, ◌∷◌, [], ℕ, false}
use search_x.ProfilePool.Types.{Pool, Lease}
use search_x.Domain.Errors.{as_error, as_search_error}
use search_x.Examples.Pool.{scaled, built, idle, first, second}
use search_x.Examples.Answers.{limited}
use search_x.Domain.Attempts.{brave}
use search_x.Prelude.Text.{text_lt, text_eq, codes, Text}

reroutable-allows_fallback_example :
    reroutable (as_error limited) ≡ chain_falls_back (as_search_error (as_error limited))
reroutable-allows_fallback_example = reroutable-allows_fallback (as_error limited)

-- All slots of the first pool are in use, and the second pool is another provider's.
abbrev busy : Pool ℕ
busy = record built {
  profiles = record (idle first) { in_flight = 2 } ∷ record (idle second) { in_flight = 1 } ∷ [];
}

abbrev other : Pool ℕ
other = record built { provider = brave }

abbrev other_used : Pool ℕ
other_used = record other { profiles = record (idle first) { in_flight = 1 } ∷ idle second ∷ [] }

abbrev nothing_excluded : Text → Text
nothing_excluded p = []

abbrev lease : Lease
lease = record { slot = 0; acquired_at = 1; released = false }

routes :
    route scaled (codes "r1") [] nothing_excluded 1 (busy ∷ other ∷ [])
    ≡ (busy ∷ other_used ∷ [], some (1, lease))
unfolding route is_member try_acquire_auto_except select_from pick eligible text_eq better
    less_loaded relative_load text_lt
routes = refl

route-Routed_example :
    Routed scaled
      (codes "r1")
      []
      nothing_excluded
      1
      (busy ∷ other ∷ [])
      (busy ∷ other_used ∷ [])
      1
      lease
route-Routed_example =
    route-Routed scaled (codes "r1") [] nothing_excluded 1 (busy ∷ other ∷ [])
      (busy ∷ other_used ∷ []) 1 lease routes

-- A clock that stands still, no tracer, and a profile that always answers; nobody else is there.
abbrev calm : Env ℕ ℕ
calm = record {
  now = λ w. w;
  tracer = none;
  search = λ i l r s. (s, ok page);
  others = λ s. s;
  turns = λ w. wake 1 ∷ meanwhile ∷ expire ∷ [];
}

abbrev unset_limits : Limits
unset_limits = record {
  max_provider_attempts = 0;
  max_agent_attempts = 0;
  minimum_attempt_budget = 0;
  auto_queue_max = 0;
  deadline = none;
}

abbrev limits : Limits
limits = record {
  max_provider_attempts = 3;
  max_agent_attempts = 2;
  minimum_attempt_budget = 3000000000;
  auto_queue_max = 100;
  deadline = none;
}

abbrev start_state : Shared ℕ ℕ
start_state = record { pools = busy ∷ other ∷ []; queued = 0; world = 1 }
