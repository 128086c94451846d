-- ===== src/Baidu/Types.antt =====
-- The parts of a Baidu search: `transport/transport.go`, `StrategyStep` and `StrategyChain` of
-- `baidu/strategy.go`, and `Provider` of `baidu/provider.go`. Transports, waiters, artifacts and the two
-- parsers of result pages are functions on the state that searches share; what the other searches do
-- to the breaker meanwhile is part of what such a function does.
use search_x.Prelude.Int.{ℤ}
use search_x.Baidu.Detector.{PageLib}
use search_x.Prelude.Text.{Text}
use search_x.Provider.Breaker.{Breaker}
use search_x.Prelude.{[], ◌∷◌, Bool, ℕ, ◌++◌, Option, List}
use search_x.Domain.Attempts.{
  Attempt, BaiduStrategyName, BaiduSessionState, Classification, TransportName,
}
use search_x.Domain.{SearchRequest, SearchResult, Warning}

pub record Shared (W : Type 0) : Type 0 where
  pub breaker : Breaker
  pub world : W

-- `transport.Response`; times and durations in nanoseconds, 0 for the zero time.
pub record Fetched : Type 0 where
  pub request_url : Text
  pub header_profile : Text
  pub status_code : ℕ
  pub final_url : Text
  pub page_title : Text
  pub classification : Classification
  pub headers : List (Text × List Text)
  pub body : Text
  pub screenshot : Text
  pub elapsed : ℕ
  pub session_state : BaiduSessionState
  pub session_generation : ℕ
  pub session_wait : ℕ
  pub blocked_until : ℕ

-- What `Search` asks of the error of a fetch: its text, the classification of the `*SessionError` in it, and
-- whether it is the end of a context.
pub record FetchError : Type 0 where
  pub message : Text
  pub session : Option Classification
  pub is_context : Bool

pub data Saved : Type 0 where
  saved not_saved : Text → Saved

pub data Parsed : Type 0 where
  parsed : List SearchResult → List Warning → Parsed
  broken : Text → Parsed

pub record Step (W : Type 0) : Type 0 where
  pub name : BaiduStrategyName
  pub transport : TransportName
  pub fetch : SearchRequest → Shared W → Shared W × Fetched × Option FetchError
  pub waiters : List (Shared W → Shared W × Option Text)
  pub use_breaker : Bool

pub record Artifacts (W : Type 0) : Type 0 where
  pub preview : Text → Text × Text
  pub redact_headers : List (Text × List Text) → List (Text × List Text)
  pub save_html : Text → TransportName → Text → Shared W → Shared W × Saved
  pub save_screenshot : Text → TransportName → Text → Shared W → Shared W × Saved

pub record Baidu (W : Type 0) : Type 0 where
  pub steps : List (Step W)
  pub allows : Classification → Bool
  pub artifacts : Option (Artifacts W)
  pub page_lib : PageLib
  pub now : W → ℕ
  pub parse_desktop : Text → ℤ → Parsed
  pub parse_mobile : Text → ℤ → Parsed

-- The slices that `Search` appends to.
pub record Tried : Type 0 where
  pub attempts : List Attempt
  pub artifact_paths : List Text
  pub warnings : List Warning

-- `append(attempts, attempt)`
unfoldable pub add_attempt : Attempt → Tried → Tried
add_attempt a t = record t { attempts = t.attempts ++ a ∷ [] }

unfoldable pub class_number : Classification → ℕ
class_number Classification.unset = 0
class_number Classification.normal = 1
class_number Classification.empty = 2
class_number Classification.captcha = 3
class_number Classification.rate_limited = 4
class_number Classification.blocked = 5
class_number Classification.parse_changed = 6
class_number Classification.timeout = 7
class_number Classification.network_error = 8

unfoldable pub strategy_number : BaiduStrategyName → ℕ
strategy_number BaiduStrategyName.unset = 0
strategy_number BaiduStrategyName.fixed_session = 1
strategy_number BaiduStrategyName.header_pool = 2
