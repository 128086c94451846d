-- ===== src/Domain.antt =====
-- The vocabulary of `websearch/internal/domain`: `search.go` and `errors.go`. A Go string type
-- stays a text, an enumeration that the code only compares with its constants is a data type, a
-- `time.Time` or a `time.Duration` is a number of nanoseconds, a nil pointer is `none`.
pub mod Attempts
pub mod Errors
pub mod Fallible
use search_x.Prelude.{ℕ, Bool, List, [], ◌∷◌, Option}
use search_x.Prelude.Text.{Text}
use search_x.Prelude.Int.{ℤ}
use Attempts.{ProviderName, TransportName, BaiduStrategyName, WarningCode, RouteReason, Attempt}

pub record SearchFilters : Type 0 where
  pub include_domains : List Text
  pub exclude_domains : List Text

pub record SearchQueryOptions : Type 0 where
  pub exact_phrases : List Text
  pub any_terms : List Text
  pub exclude_terms : List Text
  pub title_terms : List Text
  pub file_types : List Text

pub record SearchRequest : Type 0 where
  pub query : Text
  pub providers : List ProviderName
  pub provider : ProviderName
  pub request_id : Text
  pub limit : ℤ
  pub page : ℤ
  pub refresh : Bool
  pub debug : Bool
  pub region : Text
  pub filters : SearchFilters
  pub query_options : SearchQueryOptions
  pub provider_query : Text
  pub provider_page_token : Text

pub record SearchResult : Type 0 where
  pub title : Text
  pub url : Text
  pub canonical_url : Text
  pub domain : Text
  pub snippet : Text
  pub rank : ℕ
  pub provider : ProviderName

pub record Warning : Type 0 where
  pub code : WarningCode
  pub message : Text

pub record Meta : Type 0 where
  pub requested_provider : ProviderName
  pub transport : TransportName
  pub strategy : BaiduStrategyName
  pub cached : Bool
  pub degraded : Bool
  pub fallback_count : ℕ
  pub provider_fallback_count : ℕ
  pub selected_provider : ProviderName
  pub route_reason : RouteReason
  pub profile_id : Text
  pub provider_queue_ms : ℕ
  pub took_ms : ℕ
  pub request_id : Text
  pub cache_age_seconds : ℕ

pub record Debug : Type 0 where
  pub attempts : List Attempt
  pub raw_artifacts : List Text

-- `results` and `warnings` do not tell a nil slice from an empty one.
pub record SearchResponse : Type 0 where
  pub query : Text
  pub provider : ProviderName
  pub results : List SearchResult
  pub meta : Meta
  pub warnings : List Warning
  pub debug : Option Debug
  pub stored_at : ℕ
  pub pagination_known : Bool
  pub next_page_token : Text

-- `UpstreamQuery`
pub upstream_query : SearchRequest → Text
upstream_query r = elim r.provider_query [ [] ↦ r.query | c ∷ s ↦ c ∷ s ]
