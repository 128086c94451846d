-- ===== src/WebFetch/Types.antt =====
-- `webfetch/internal/domain/read.go` and `errors.go`. A Go string type that the code only compares
-- with its constants is a data type, in which `unset` is the empty string; `StoredAt` is 0 for the
-- zero time; `[]byte` is a text. An optional author, title and so on is the empty text.
use search_x.Prelude.{ℕ, Bool, List, Option}
use search_x.Prelude.Int.{ℤ}
use search_x.Prelude.Text.{Text}

pub data SourceType : Type 0 where
  unset html plain_text : SourceType

-- `other` is a format that no constant names.
pub data OutputFormat : Type 0 where
  unset markdown text other : OutputFormat

pub data ReadStage : Type 0 where
  policy cache read detect extract quality convert : ReadStage

pub data ReadClassification : Type 0 where
  success empty unsafe unsupported timeout fetch_failed captcha : ReadClassification
  login_required js_shell too_short rejected : ReadClassification

pub data QualityAction : Type 0 where
  accept render reject : QualityAction

pub data ImplementationName : Type 0 where
  unset safe_url_policy http_reader chromedp_reader mime_type_detector : ImplementationName
  html_extractor readability_extractor dom_article_extractor : ImplementationName
  plain_text_extractor article_quality_evaluator markdown_converter : ImplementationName
  text_converter memory_read_cache : ImplementationName

pub data ReadTransport : Type 0 where
  http chromedp fresh_cache stale_cache : ReadTransport

pub data ReadWarningCode : Type 0 where
  invalid_utf8 cache_write_error live_read_unavailable unsupported_charset : ReadWarningCode

pub data ErrorCode : Type 0 where
  unset invalid_request captcha_required unsafe_url unsupported_content_type : ErrorCode
  content_too_large fetch_timeout fetch_failed extraction_failed : ErrorCode

pub record ReadRequest : Type 0 where
  pub url : Text
  pub format : OutputFormat
  pub max_chars : ℤ
  pub refresh : Bool
  pub debug : Bool
  pub request_id : Text

pub record Resource : Type 0 where
  pub url : Text
  pub final_url : Text
  pub status_code : ℕ
  pub content_type : Text
  pub charset : Text
  pub headers : List (Text × List Text)
  pub body : Text
  pub transport : ReadTransport

pub record ReadWarning : Type 0 where
  pub code : ReadWarningCode
  pub message : Text

pub record ReadDocument : Type 0 where
  pub url : Text
  pub final_url : Text
  pub title : Text
  pub author : Text
  pub published_at : Text
  pub language : Text
  pub source_type : SourceType
  pub content_type : Text
  pub status_code : ℕ
  pub extractor : ImplementationName
  pub content_html : Text
  pub content_text : Text
  pub warnings : List ReadWarning
  pub stored_at : ℕ

pub record QualityResult : Type 0 where
  pub action : QualityAction
  pub classification : ReadClassification
  pub reason : Text

pub record FormattedContent : Type 0 where
  pub content : Text
  pub format : OutputFormat

pub record ReadAttempt : Type 0 where
  pub stage : ReadStage
  pub implementation : ImplementationName
  pub classification : ReadClassification
  pub request_url : Text
  pub final_url : Text
  pub http_status : ℕ
  pub content_type : Text
  pub elapsed_ms : ℕ
  pub original_error : Text

pub record ReadMeta : Type 0 where
  pub transport : ReadTransport
  pub extractor : ImplementationName
  pub cached : Bool
  pub degraded : Bool
  pub fallback_count : ℕ
  pub took_ms : ℕ
  pub request_id : Text
  pub cache_age_seconds : ℕ

pub record ReadDebug : Type 0 where
  pub attempts : List ReadAttempt
  pub raw_artifacts : List Text

pub record ReadResponse : Type 0 where
  pub url : Text
  pub final_url : Text
  pub title : Text
  pub author : Text
  pub published_at : Text
  pub language : Text
  pub source_type : SourceType
  pub content_type : Text
  pub status_code : ℕ
  pub content : Text
  pub content_format : OutputFormat
  pub content_length : ℕ
  pub truncated : Bool
  pub meta : ReadMeta
  pub warnings : List ReadWarning
  pub debug : Option ReadDebug
