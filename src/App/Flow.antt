-- ===== src/App/Flow.antt =====
-- `Search`, `acquireLive` and `cacheKey` of `app/search_service.go`, for the caller whose call of
-- `DoChan` does the work; a caller that joins its flight receives the same value, so `land` serves it
-- as well. The tracer has no effect: `trace` returns nil whatever the tracer says.
use search_x.Prelude.Decimal.{decimal}
use search_x.Prelude.Int.{negsuc, pos, ℤ}
use search_x.Prelude.{
  ltb, ◌||◌, ◌∷◌, ◌/◌, if◌then◌else◌, ◌++◌, ◌-◌, some, [], Option, ◌+◌, none, false, Bool, true, ℕ,
}
use search_x.App.Requests.{Selected, single, chained, normalize_request, select_provider}
use search_x.App.Responses.{prepare_fresh, prepare_stale, live_response, cache_value}
use search_x.Cache.Memory.{Memory, get_fresh, get_stale, set}
use search_x.Domain.Attempts.{ProviderName, TransportName, WarningCode}
use search_x.Domain.Errors.{Error, ErrorCode, search, original, Original}
use search_x.Domain.Fallible.{Fallible, ok, fail}
use search_x.Domain.{SearchRequest, SearchResponse, Warning}
use search_x.Provider.Chain.{search_chain}
use search_x.Provider.Registry.{Registry}
use search_x.Prelude.Text.{Text, text_eq, codes}

-- `live_slots` is the capacity of the channel, or `none` for a nil one; `in_use` counts what is in it.
pub record Service (W : Type 0) : Type 0 where
  pub memory : Memory
  pub live_slots : Option ℕ
  pub in_use : ℕ
  pub queue_max : ℕ
  pub queued : ℕ
  pub world : W

-- `fingerprint` is a hash of the request; `canceled` is `ctx.Err`; `await_slot` is a wait that ends with
-- a free slot, which it takes, or with the error of the context; `others` is what the other searches do
-- while the provider works.
pub record Surroundings (W : Type 0) : Type 0 where
  pub unicode : ℕ → ℕ
  pub registry : Registry W
  pub fingerprint : SearchRequest → Text
  pub now : W → ℕ
  pub canceled : W → Option Error
  pub await_slot : Service W → Service W × Option Error
  pub others : Service W → Service W

unfoldable pub not_registered : Error → Error
not_registered e =
    search ErrorCode.provider_not_found (codes "Provider 未注册") false (original e) [] []

unfoldable pub live_queue_full : Error
live_queue_full = search ErrorCode.search_queue_full (codes "实时搜索队列已满") true Original.nil [] []

unfoldable pub slot_timeout : Error → Error
slot_timeout e = search ErrorCode.upstream_timeout (codes "等待实时搜索执行槽超时") true (original e) [] []

unfoldable pub search_canceled : Error → Error
search_canceled e = search ErrorCode.upstream_timeout (codes "搜索请求已取消或超时") true (original e) [] []

unfoldable pub is_canceled : Option Error → Bool
is_canceled none = false
is_canceled (some e) = true

unfoldable pub cache_write_warning : Warning
cache_write_warning = record {
  code = WarningCode.cache_write_error;
  message = codes "搜索结果缓存写入失败，本次仍返回实时结果";
}

unfoldable pub with_cache_error : Option Error → SearchResponse → SearchResponse
unfolding cache_write_warning
with_cache_error none r = r
with_cache_error (some e) r = record r { warnings = r.warnings ++ cache_write_warning ∷ [] }

abbrev pub is_fresh_transport : TransportName → Bool
is_fresh_transport TransportName.fresh_cache = true
is_fresh_transport _ = false

unfoldable pub page_text : ℤ → Text
page_text (pos n) = decimal n
page_text (negsuc n) = codes "-" ++ decimal (n + 1)

module _ {W : Type 0} (env : Surroundings W) where
  unfoldable pub cache_key : SearchRequest → Text
  unfolding page_text decimal
  cache_key n = n.provider ++ (codes "|" ++ (page_text n.page ++ (codes "|" ++ env.fingerprint n)))

  unfoldable pub ask : Selected W → SearchRequest → W → W × Fallible SearchResponse
  unfolding search_chain
  ask (single p) r w = p.search r w
  ask (chained c) r w = search_chain env.canceled c r w

  -- `acquireLive`: the queue is bounded, and so is the wait.
  unfoldable pub take_slot : Service W → Service W
  take_slot s = record s { in_use = s.in_use + 1 }

  unfoldable pub leave_queue : Service W × Option Error → Service W × Option Error
  unfolding slot_timeout
  leave_queue (s, none) = (record s { queued = s.queued - 1 }, none)
  leave_queue (s, some e) = (record s { queued = s.queued - 1 }, some (slot_timeout e))

  unfoldable pub acquire_within : Option ℕ → Service W → Service W × Option Error
  unfolding take_slot leave_queue live_queue_full
  acquire_within none s = (s, none)
  acquire_within (some most) s =
      if ltb s.in_use most
      then (take_slot s, none)
      else if ltb s.queue_max (s.queued + 1)
      then (s, some live_queue_full)
      else leave_queue (env.await_slot (record s { queued = s.queued + 1 }))

  unfoldable pub acquire_live : Service W → Service W × Option Error
  unfolding acquire_within
  acquire_live s = acquire_within s.live_slots s

  -- `release`
  unfoldable pub give_slot : Service W → Service W
  give_slot s = elim s.live_slots [ none ↦ s | some n ↦ record s { in_use = s.in_use - 1 } ]

  unfoldable pub fresh_in : Bool → Text → Service W → Option SearchResponse
  unfolding get_fresh is_canceled
  fresh_in true key s = none
  fresh_in false key s =
      get_fresh (is_canceled (env.canceled s.world)) (env.now s.world) key s.memory

  -- A live answer is cached; a failure is answered from the stale cache, if it is there.
  unfoldable pub use_outcome :
      SearchRequest
      → ProviderName
      → Text
      → Service W
      → Fallible SearchResponse
      → Service W × Fallible SearchResponse
  unfolding live_response cache_value set with_cache_error prepare_stale get_stale is_canceled
  use_outcome n requested key s (ok r) =
      let live = live_response requested r in
      let (m, err) = set (env.canceled s.world) (env.now s.world) key (cache_value live) s.memory in
      (record s { memory = m }, ok (with_cache_error err live))
  use_outcome n requested key s (fail e) =
      elim (get_stale (is_canceled (env.canceled s.world)) (env.now s.world) key s.memory) [
        | none ↦ (s, fail e)
        | some old ↦ (s, ok (prepare_stale requested n.request_id e n.debug (env.now s.world) old))
      ]

  unfoldable pub search_live :
      SearchRequest
      → Selected W
      → ProviderName
      → Text
      → Service W
      → Service W × Fallible SearchResponse
  unfolding ask use_outcome give_slot
  search_live n selected requested key s =
      let (w, outcome) = ask selected n s.world in
      let (t, answer) = use_outcome n requested key (env.others (record s { world = w })) outcome in
      (give_slot t, answer)

  unfoldable pub with_slot :
      SearchRequest
      → Selected W
      → ProviderName
      → Text
      → Service W × Option Error
      → Service W × Fallible SearchResponse
  unfolding search_live
  with_slot n selected requested key (s, some e) = (s, fail e)
  with_slot n selected requested key (s, none) = search_live n selected requested key s

  -- The function of the flight: the cache once more, then the provider.
  unfoldable pub fly_from :
      Option SearchResponse
      → SearchRequest
      → Selected W
      → ProviderName
      → Text
      → Service W
      → Service W × Fallible SearchResponse
  unfolding with_slot acquire_live
  fly_from (some cached) n selected requested key s = (s, ok cached)
  fly_from none n selected requested key s = with_slot n selected requested key (acquire_live s)

  -- What becomes of the value of the flight.
  unfoldable pub land_response : SearchRequest → ℕ → ℕ → SearchResponse → SearchResponse
  land_response n started now r = record r {
    meta = record (r.meta) {
      took_ms = (now - started) / 1000000;
      request_id =
          if text_eq r.meta.request_id [] || is_fresh_transport r.meta.transport
          then n.request_id
          else r.meta.request_id;
    };
  }

  unfoldable pub land : SearchRequest → ℕ → ℕ → Fallible SearchResponse → Fallible SearchResponse
  unfolding land_response
  land n started now (fail e) = fail e
  land n started now (ok r) = ok (land_response n started now r)

  -- The context of the caller may end before the flight lands; where both are ready Go may take either,
  -- and here it is the error of the context.
  unfoldable pub await_flight :
      Option Error
      → SearchRequest
      → ℕ
      → Service W × Fallible SearchResponse
      → Service W × Fallible SearchResponse
  unfolding land search_canceled
  await_flight (some e) n started (s, r) = (s, fail (search_canceled e))
  await_flight none n started (s, r) = (s, land n started (env.now s.world) r)

  unfoldable pub answer_from :
      Option SearchResponse
      → SearchRequest
      → Selected W
      → ProviderName
      → Text
      → Service W
      → Service W × Fallible SearchResponse
  unfolding prepare_fresh fly_from fresh_in await_flight
  answer_from (some cached) n selected requested key s =
      (s, ok (prepare_fresh requested n.request_id (env.now s.world) (env.now s.world) cached))
  answer_from none n selected requested key s =
      let flown = fly_from (fresh_in n.refresh key s) n selected requested key s in
      await_flight (env.canceled flown.0.world) n (env.now s.world) flown

  unfoldable pub search_with :
      SearchRequest
      → Fallible (Selected W × ProviderName)
      → Service W
      → Service W × Fallible SearchResponse
  unfolding not_registered answer_from fresh_in cache_key
  search_with n (fail e) s = (s, fail (not_registered e))
  search_with n (ok (selected, requested)) s =
      let key = cache_key n in answer_from (fresh_in n.refresh key s) n selected requested key s

  unfoldable pub search_normalized :
      Fallible SearchRequest → Service W → Service W × Fallible SearchResponse
  unfolding search_with select_provider
  search_normalized (fail e) s = (s, fail e)
  search_normalized (ok n) s = search_with n (select_provider env.unicode env.registry n) s

  -- `Search`
  unfoldable pub search_service : SearchRequest → Service W → Service W × Fallible SearchResponse
  unfolding normalize_request search_normalized
  search_service request s = search_normalized (normalize_request env.unicode request) s
