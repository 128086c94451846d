-- ===== src/Baidu/Search.antt =====
-- `Search` of `baidu/provider.go`: one step, and the loop over the steps.
use search_x.Baidu.Attempts.{
  Turn, answered, attempt_of, ended, fetched_attempt, next, previewed, save_artifacts, wait_for,
}
use search_x.Baidu.Judging.{debug_store, judge_fetch}
use search_x.Prelude.Text.{codes, text_eq, Text}
use search_x.Prelude.{true, Bool, not, false, ◌&&◌, ◌∷◌, some, ◌++◌, none, [], List, if◌then◌else◌}
use search_x.Baidu.Detector.{extract_title}
use search_x.Baidu.Failures.{build_search_error}
use search_x.Baidu.Types.{Baidu, Fetched, Shared, Step, Tried, add_attempt}
use search_x.Domain.Attempts.{Classification}
use search_x.Domain.Errors.{as_error}
use search_x.Domain.{SearchRequest, SearchResponse}
use search_x.Domain.Fallible.{Fallible, ok, fail}
use search_x.Provider.Breaker.{allow}

module _ {W : Type 0} (p : Baidu W) (request : SearchRequest) where
  unfoldable pub with_title : Fetched → Fetched
  unfolding extract_title
  with_title r = record r {
    page_title =
        if text_eq r.page_title [] && not (text_eq r.body [])
        then extract_title p.page_lib r.body
        else r.page_title;
  }

  unfoldable pub fetch_step : Text → Step W → Tried → Shared W → Shared W × Turn
  unfolding with_title previewed save_artifacts judge_fetch fetched_attempt debug_store
  fetch_step id step t s =
      let (s', fetched, e) = step.fetch request s in
      let r = with_title fetched in
      let kept = save_artifacts (debug_store p request) id step.transport r t s' in
      judge_fetch p request id step r (previewed (debug_store p request) r (fetched_attempt step r))
        kept.1 kept.0 e

  unfoldable pub wait_step : Text → Step W → Tried → Shared W → Shared W × Turn
  unfolding wait_for fetch_step add_attempt attempt_of
  wait_step id step t s =
      let (s', e) = wait_for step.waiters s in
      elim e [
        | none ↦ fetch_step id step t s'
        | some m ↦ (
          s',
          ended (
              add_attempt
                (attempt_of step Classification.timeout (codes "wait for Baidu strategy: " ++ m))
                t),
        )
      ]

  -- Whether the breaker lets the step through.
  unfoldable pub try_allowed : Bool → Text → Step W → Tried → Shared W → Shared W × Turn
  unfolding wait_step add_attempt attempt_of
  try_allowed true id step t s = wait_step id step t s
  try_allowed false id step t s = (
    s,
    next (
        add_attempt (attempt_of step Classification.blocked (codes "transport circuit is open")) t),
  )

  unfoldable pub try_guarded : Bool → Text → Step W → Tried → Shared W → Shared W × Turn
  unfolding try_allowed wait_step allow
  try_guarded true id step t s =
      let (allowed, b) = allow (p.now s.world) step.transport s.breaker in
      try_allowed allowed id step t (record s { breaker = b })
  try_guarded false id step t s = wait_step id step t s

  unfoldable pub try_step : Text → Step W → Tried → Shared W → Shared W × Turn
  unfolding try_guarded
  try_step id step t s = try_guarded step.use_breaker id step t s

  -- The loop over the steps.
  unfoldable pub search_steps :
      Text → List (Step W) → Tried → Shared W → Shared W × Fallible SearchResponse
  unfolding try_step build_search_error
  search_steps id [] t s = (s, fail (as_error (build_search_error t)))
  search_steps id (step ∷ steps) t s =
      let (s', turn) = try_step id step t s in
      elim turn [
        | next t' ↦ search_steps id steps t' s'
        | ended t' ↦ (s', fail (as_error (build_search_error t')))
        | answered r ↦ (s', ok r)
      ]

  unfoldable pub request_name : Text
  request_name = if text_eq request.request_id [] then codes "req_internal" else request.request_id

  -- `Search`
  unfoldable pub search_baidu : Shared W → Shared W × Fallible SearchResponse
  unfolding search_steps request_name
  search_baidu s =
      search_steps request_name p.steps
        (record { attempts = []; artifact_paths = []; warnings = [] }) s
