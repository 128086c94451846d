-- ===== src/Baidu/Attempts.antt =====
-- The attempt, the artifacts and the breaker, as `Search` of `baidu/provider.go` keeps them for one step, and
-- `tripStrategy`.
use search_x.Prelude.Text.{Text}
use search_x.Prelude.{◌&&◌, ◌/◌, ◌∷◌, some, ◌==◌, ℕ, ◌++◌, none, [], Option, List, if◌then◌else◌}
use search_x.Baidu.Types.{
  strategy_number, Artifacts, FetchError, Fetched, Saved, Shared, Step, Tried,
}
use search_x.Domain.Attempts.{
  BaiduStrategyName, Attempt, BaiduSessionState, Classification, TransportName, WarningCode,
}
use search_x.Domain.{SearchResponse}
use search_x.Provider.Breaker.{trip}

-- How the work on one step ends: the next step is tried, the search fails, or it is answered.
pub data Turn : Type 0 where
  next ended : Tried → Turn
  answered : SearchResponse → Turn

unfoldable pub or_class : Classification → Classification → Classification
or_class Classification.unset d = d
or_class c d = c

abbrev pub milliseconds : ℕ → ℕ
milliseconds d = d / 1000000

unfoldable pub note_saved : Saved → Tried → Tried
note_saved (Saved.saved path) t = record t { artifact_paths = t.artifact_paths ++ path ∷ [] }
note_saved (Saved.not_saved message) t = record t {
  warnings =
      t.warnings ++ record { code = WarningCode.artifact_save_error; message = message } ∷ [];
}

unfoldable pub failure_class : Fetched → FetchError → Classification
unfolding or_class
failure_class r e =
    let session : Classification = elim e.session [ none ↦ Classification.unset | some c ↦ c ] in
    let outside = if e.is_context then Classification.timeout else Classification.network_error in
    or_class (or_class session r.classification) outside

module _ {W : Type 0} where
  unfoldable pub wait_for :
      List (Shared W → Shared W × Option Text) → Shared W → Shared W × Option Text
  wait_for [] s = (s, none)
  wait_for (wait ∷ ws) s =
      let (s', e) = wait s in elim e [ none ↦ wait_for ws s' | some m ↦ (s', some m) ]

  -- An attempt with the strategy and the transport of the step.
  unfoldable pub attempt_of : Step W → Classification → Text → Attempt
  attempt_of step c message = record {
    provider = [];
    profile_id = [];
    lease_id = [];
    route_round = 0;
    strategy = step.name;
    transport = step.transport;
    header_profile = [];
    request_url = [];
    http_status = 0;
    final_url = [];
    page_title = [];
    elapsed_ms = 0;
    classification = c;
    session_state = BaiduSessionState.unset;
    session_generation = 0;
    session_wait_ms = 0;
    blocked_until = none;
    parser_error = [];
    original_error = message;
    response_headers = none;
    body_preview = [];
    body_sha256 = [];
  }

  unfoldable pub fetched_attempt : Step W → Fetched → Attempt
  unfolding attempt_of
  fetched_attempt step r = record (attempt_of step Classification.unset []) {
    header_profile = r.header_profile;
    request_url = r.request_url;
    http_status = r.status_code;
    final_url = r.final_url;
    page_title = r.page_title;
    elapsed_ms = milliseconds r.elapsed;
    session_state = r.session_state;
    session_generation = r.session_generation;
    session_wait_ms = milliseconds r.session_wait;
    blocked_until = if r.blocked_until == 0 then none else some r.blocked_until;
  }

  unfoldable pub previewed : Option (Artifacts W) → Fetched → Attempt → Attempt
  previewed none r a = a
  previewed (some store) r a = record a {
    body_preview = (store.preview r.body).0;
    body_sha256 = (store.preview r.body).1;
    response_headers = some (store.redact_headers r.headers);
  }

  -- Nothing is written for an empty body.
  unfoldable pub save_one :
      (Text → Shared W → Shared W × Saved) → Text → Tried → Shared W → Shared W × Tried
  unfolding note_saved
  save_one save [] t s = (s, t)
  save_one save (c ∷ body) t s = let (s', r) = save (c ∷ body) s in (s', note_saved r t)

  unfoldable pub save_artifacts :
      Option (Artifacts W) → Text → TransportName → Fetched → Tried → Shared W → Shared W × Tried
  unfolding save_one
  save_artifacts none id name r t s = (s, t)
  save_artifacts (some store) id name r t s =
      let (s', t') = save_one (store.save_html id name) r.body t s in
      save_one (store.save_screenshot id name) r.screenshot t' s'

  -- `tripStrategy`
  unfoldable pub trip_strategy :
      (W → ℕ) → BaiduStrategyName → Classification → List (Step W) → Shared W → Shared W
  unfolding trip strategy_number
  trip_strategy now name c [] s = s
  trip_strategy now name c (step ∷ steps) s = trip_strategy now name c steps (
      if step.use_breaker && strategy_number step.name == strategy_number name
      then record s { breaker = trip (now s.world) step.transport c s.breaker }
      else s)
