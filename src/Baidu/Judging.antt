-- ===== src/Baidu/Judging.antt =====
-- What `Search` of `baidu/provider.go` makes of the outcome of one fetch, and `parseForTransport`.
use search_x.Baidu.Attempts.{Turn, answered, ended, failure_class, next, or_class, trip_strategy}
use search_x.Prelude.Text.{codes, Text}
use search_x.Prelude.{◌-◌, length, false, ◌∷◌, some, ℕ, ◌++◌, none, [], Option, List, if◌then◌else◌}
use search_x.Baidu.Detector.{classify}
use search_x.Baidu.Types.{
  Artifacts, Baidu, FetchError, Fetched, Parsed, Shared, Step, Tried, add_attempt,
}
use search_x.Domain.Attempts.{RouteReason, baidu, Attempt, Classification, TransportName}
use search_x.Domain.{SearchResult, SearchRequest, SearchResponse, Warning}

module _ {W : Type 0} (p : Baidu W) (request : SearchRequest) where
  unfoldable pub parse_for_transport : TransportName → Text → Parsed
  parse_for_transport TransportName.mobile_http body = p.parse_mobile body request.limit
  parse_for_transport TransportName.chromedp body = elim (p.parse_desktop body request.limit) [
    | Parsed.parsed results warnings ↦ Parsed.parsed results warnings
    | Parsed.broken desktop ↦ elim (p.parse_mobile body request.limit) [
      | Parsed.parsed results warnings ↦ Parsed.parsed results warnings
      | Parsed.broken mobile ↦ Parsed.broken (
          codes "browser DOM parsers failed: desktop="
          ++ (desktop ++ (codes "; mobile=" ++ mobile)))
    ]
  ]
  parse_for_transport _ body = p.parse_desktop body request.limit

  -- The store is used for a request with `Debug` alone.
  unfoldable pub debug_store : Option (Artifacts W)
  debug_store = if request.debug then p.artifacts else none

  -- The policy decides whether the next step is tried.
  unfoldable pub settle : Attempt → Tried → Turn
  unfolding add_attempt
  settle a t = if p.allows a.classification then next (add_attempt a t) else ended (add_attempt a t)

  unfoldable pub settle_tripped : Step W → Attempt → Tried → Shared W → Shared W × Turn
  unfolding settle trip_strategy
  settle_tripped step a t s = (
    if step.use_breaker then trip_strategy p.now step.name a.classification p.steps s else s,
    settle a t,
  )

  unfoldable pub respond :
      Text → Step W → Attempt → Tried → ℕ → List SearchResult → List Warning → SearchResponse
  unfolding add_attempt
  respond id step a t now results parser_warnings =
      let t' = add_attempt a t in
      record {
        query = request.query;
        provider = baidu;
        results = results;
        meta = record {
          requested_provider = [];
          transport = step.transport;
          strategy = step.name;
          cached = false;
          degraded = false;
          fallback_count = length t'.attempts - 1;
          provider_fallback_count = 0;
          selected_provider = [];
          route_reason = RouteReason.unset;
          profile_id = [];
          provider_queue_ms = 0;
          took_ms = 0;
          request_id = id;
          cache_age_seconds = 0;
        };
        warnings = t.warnings ++ parser_warnings;
        debug =
            if request.debug
            then some (record { attempts = t'.attempts; raw_artifacts = t.artifact_paths })
            else none;
        stored_at = now;
        pagination_known = false;
        next_page_token = [];
      }

  unfoldable pub use_parsed : Text → Step W → Attempt → Tried → Shared W → Parsed → Shared W × Turn
  unfolding settle respond
  use_parsed id step a t s (Parsed.broken e) = (
    s,
    settle
        (record a {
          classification = Classification.parse_changed;
          parser_error = e;
          original_error = e;
        })
        t,
  )
  use_parsed id step a t s (Parsed.parsed results warnings) =
      let found : Attempt = elim results [
        | [] ↦ record a { classification = Classification.empty }
        | r ∷ rs ↦ a
      ] in
      (s, answered (respond id step found t (p.now s.world) results warnings))

  -- A page that is neither normal nor empty is a failure.
  unfoldable pub judge_page :
      Text → Step W → Fetched → Attempt → Tried → Shared W → Classification → Shared W × Turn
  unfolding use_parsed parse_for_transport settle_tripped
  judge_page id step r a t s Classification.normal =
      use_parsed id step (record a { classification = Classification.normal }) t s
        (parse_for_transport step.transport r.body)
  judge_page id step r a t s Classification.empty =
      use_parsed id step (record a { classification = Classification.empty }) t s
        (parse_for_transport step.transport r.body)
  judge_page id step r a t s c =
      settle_tripped step
        (record a { classification = c; original_error = codes "baidu response classified as" }) t s

  unfoldable pub judge_fetch :
      Text → Step W → Fetched → Attempt → Tried → Shared W → Option FetchError → Shared W × Turn
  unfolding settle_tripped failure_class judge_page or_class classify
  judge_fetch id step r a t s (some e) =
      settle_tripped step
        (record a { classification = failure_class r e; original_error = e.message }) t s
  judge_fetch id step r a t s none = judge_page id step r a t s (
      or_class r.classification (classify p.page_lib r.status_code r.final_url r.page_title r.body))
