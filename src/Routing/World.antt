-- ===== src/Routing/World.antt =====
-- What the searches of `routing/router.go` share, and what they reach outside of it: the clock, the
-- tracer, the profiles behind the leases, and the other goroutines, which use the same pools.
use search_x.Prelude.Int.{ℤ}
use search_x.Domain.Attempts.{ProviderName, Classification}
use search_x.Domain.Errors.{Error, ErrorCode, search, original, Original}
use search_x.Domain.Fallible.{Fallible}
use search_x.Domain.{SearchRequest, SearchResponse}
use search_x.ProfilePool.Floats.{FloatOps}
use search_x.ProfilePool.Release.{release}
use search_x.ProfilePool.Snapshots.{Snapshot}
use search_x.ProfilePool.Types.{Pool, Lease, Result}
use search_x.Prelude.Text.{Text, codes}
use search_x.Prelude.{ℕ, Bool, true, false, List, [], Option, none, some, get_elem?, update, map}

-- `queued` is the counter of searches that wait.
pub record Shared (R W : Type 0) : Type 0 where
  pub pools : List (Pool R)
  pub queued : ℕ
  pub world : W

-- The events of the router, with the fields that it gives them.
pub data Event (R : Type 0) : Type 0 where
  shadow_route_decision : ProviderName → ℤ → Event R
  route_decision : ProviderName → Text → ℕ → Event R
  lease_acquired : ProviderName → Text → Text → Option (Snapshot R) → Event R
  provider_attempt : ProviderName → Text → Text → Classification → ℕ → Event R
  lease_released :
      ProviderName
      → Text
      → Text
      → Classification
      → ℕ
      → Option (Snapshot R)
      → Option (Snapshot R)
      → Event R
  shadow_route_compare : ProviderName → ProviderName → Bool → Event R

-- One step while a search waits: the worker of a pool is woken, the others do something, or the
-- time is up.
pub data Turn : Type 0 where
  wake : ℕ → Turn
  meanwhile : Turn
  expire : Turn

-- `search` is `Lease.Search`, during which others use the pools as well; `others` is what they do
-- between two turns of a wait; `turns` is the order of the turns; `tracer` is nil or `Append`.
pub record Env (R W : Type 0) : Type 0 where
  pub now : W → ℕ
  pub tracer : Option (Event R → W → W × Option Error)
  pub search : ℕ → Lease → SearchRequest → Shared R W → Shared R W × Fallible SearchResponse
  pub others : Shared R W → Shared R W
  pub turns : W → List Turn

-- `router.config`, each value positive after `New`, and the deadline of the context.
pub record Limits : Type 0 where
  pub max_provider_attempts : ℕ
  pub max_agent_attempts : ℕ
  pub minimum_attempt_budget : ℕ
  pub auto_queue_max : ℕ
  pub deadline : Option ℕ

abbrev pub network_error : Result
network_error = record { succeeded = false; classification = Classification.network_error }

-- `traceError`
unfoldable pub trace_error : Error → Error
trace_error x =
    search ErrorCode.provider_unavailable (codes "Provider 资源释放失败") true (original x) [] []

unfoldable pub queue_full : Error
queue_full = search ErrorCode.search_queue_full (codes "自动搜索调度队列已满") true Original.nil [] []

abbrev pub providers_of : {R : Type 0} → List (Pool R) → List ProviderName
providers_of ps = map (λ p. p.provider) ps

module _ {R W : Type 0} (fl : FloatOps R) (env : Env R W) where
  unfoldable pub traced : Event R → Shared R W → Shared R W × Option Error
  traced e s = elim env.tracer [
    | none ↦ (s, none)
    | some append ↦ let (w, err) = append e s.world in (record s { world = w }, err)
  ]

  -- `lease.Release` on the pool that the lease came from.
  unfoldable pub release_at : ℕ → Lease → Result → Shared R W → Shared R W × Option Error
  unfolding release
  release_at i l r s = elim (get_elem? s.pools i) [
    | none ↦ (s, none)
    | some p ↦
        let (_, q, err) = release fl l r (env.now s.world) p in
        (record s { pools = update s.pools i (λ _. q) }, err)
  ]
