-- ===== src/Domain/Attempts.antt =====
-- The names of `websearch/internal/domain/search.go`, and the diagnostics of one attempt.
use search_x.Prelude.{ℕ, List, Option}
use search_x.Prelude.Text.{Text, codes}

abbrev pub ProviderName : Type 0
ProviderName = Text

abbrev pub auto : ProviderName
auto = codes "auto"

abbrev pub baidu : ProviderName
baidu = codes "baidu"

abbrev pub duck_duck_go : ProviderName
duck_duck_go = codes "duckduckgo"

abbrev pub bing : ProviderName
bing = codes "bing"

abbrev pub brave : ProviderName
brave = codes "brave"

-- `unset` is the empty string, the zero value of the field.
pub data TransportName : Type 0 where
  unset desktop_http baidu_session_http mobile_http chromedp duck_duck_go_http : TransportName
  bing_chromedp brave_chromedp fresh_cache stale_cache : TransportName

pub data BaiduStrategyName : Type 0 where
  unset fixed_session header_pool : BaiduStrategyName

pub data BaiduSessionState : Type 0 where
  unset cold warm cooling : BaiduSessionState

pub data Classification : Type 0 where
  unset normal empty captcha rate_limited blocked parse_changed timeout network_error :
      Classification

pub data WarningCode : Type 0 where
  artifact_save_error cache_write_error live_search_unavailable provider_fallback : WarningCode
  redirect_url_unresolved partial_readable_results : WarningCode

pub data RouteReason : Type 0 where
  unset explicit priority retry_reroute : RouteReason

pub record Attempt : Type 0 where
  pub provider : ProviderName
  pub profile_id : Text
  pub lease_id : Text
  pub route_round : ℕ
  pub strategy : BaiduStrategyName
  pub transport : TransportName
  pub header_profile : Text
  pub request_url : Text
  pub http_status : ℕ
  pub final_url : Text
  pub page_title : Text
  pub elapsed_ms : ℕ
  pub classification : Classification
  pub session_state : BaiduSessionState
  pub session_generation : ℕ
  pub session_wait_ms : ℕ
  pub blocked_until : Option ℕ
  pub parser_error : Text
  pub original_error : Text
  pub response_headers : Option (List (Text × List Text))
  pub body_preview : Text
  pub body_sha256 : Text
