-- ===== src/WebFetch/Formatting.antt =====
-- `formatResponse` of `app/read_service.go`, and what it is given for a live, a fresh and a stale page.
use search_x.Prelude.{
  ◌/◌, ◌-◌, ◌==◌, not, ◌&&◌, none, if◌then◌else◌, ◌++◌, length, ◌∷◌, some, true, ℕ, Bool, List, [],
  false, Option,
}
use search_x.WebFetch.Pipeline.{ContentConverter, Pipeline, millis}
use search_x.WebFetch.Failures.{Failure, Outcome, ok, fail, attempts_from_read_error, plain_attempt}
use search_x.WebFetch.Extraction.{LiveReadResult, failing, failed_attempt}
use search_x.WebFetch.Requests.{truncate_content}
use search_x.WebFetch.Types.{
  ReadRequest, ReadDocument, ReadResponse, ReadAttempt, ReadStage, ReadClassification, ReadWarning,
  ReadWarningCode, ReadTransport, ImplementationName, SourceType, OutputFormat, ErrorCode,
  FormattedContent, ReadDebug,
}
use search_x.Prelude.Text.{codes}

-- What the response is made of.
pub record Source : Type 0 where
  pub document : ReadDocument
  pub transport : ReadTransport
  pub extractor : ImplementationName
  pub fallback_count : ℕ
  pub cached : Bool
  pub degraded : Bool
  pub warnings : List ReadWarning
  pub attempts : List ReadAttempt

unfoldable pub extractor_for : SourceType → ImplementationName
extractor_for SourceType.plain_text = ImplementationName.plain_text_extractor
extractor_for _ = ImplementationName.html_extractor

-- `cachedExtractor`
unfoldable pub cached_extractor : ReadDocument → ImplementationName
unfolding extractor_for
cached_extractor d = elim d.extractor [
  | ImplementationName.unset ↦ extractor_for d.source_type
  | name ↦ name
]

unfoldable pub is_fresh_cache : ReadTransport → Bool
is_fresh_cache ReadTransport.fresh_cache = true
is_fresh_cache _ = false

unfoldable pub from_fresh : ReadDocument → List ReadAttempt → Source
unfolding cached_extractor
from_fresh d attempts = record {
  document = d;
  transport = ReadTransport.fresh_cache;
  extractor = cached_extractor d;
  fallback_count = 0;
  cached = true;
  degraded = false;
  warnings = [];
  attempts = attempts;
}

unfoldable pub from_stale : ReadDocument → Failure → Source
unfolding cached_extractor attempts_from_read_error
from_stale d f = record {
  document = d;
  transport = ReadTransport.stale_cache;
  extractor = cached_extractor d;
  fallback_count = 0;
  cached = true;
  degraded = true;
  warnings =
      record { code = ReadWarningCode.live_read_unavailable; message = codes "实时正文读取不可用，当前返回旧缓存" }
      ∷ [];
  attempts = attempts_from_read_error f;
}

unfoldable pub from_live : LiveReadResult → Source
unfolding is_fresh_cache
from_live r = record {
  document = r.document;
  transport = r.transport;
  extractor = r.extractor;
  fallback_count = r.fallback_count;
  cached = is_fresh_cache r.transport;
  degraded = false;
  warnings = r.warnings;
  attempts = r.attempts;
}

abbrev pub format_or : OutputFormat → OutputFormat → OutputFormat
format_or OutputFormat.unset f = f
format_or given f = given

-- The age of a degraded answer, in seconds.
unfoldable pub age_seconds : Bool → ℕ → ℕ → ℕ
age_seconds degraded stored_at now =
    if degraded && not (stored_at == 0) then (now - stored_at) / 1000000000 else 0

unfoldable pub debug_of : Bool → List ReadAttempt → Option ReadDebug
debug_of true attempts = some (record { attempts = attempts; raw_artifacts = [] })
debug_of false attempts = none

unfoldable pub respond :
    ReadRequest → Source → List ReadAttempt → FormattedContent → ℕ → ℕ → ReadResponse
unfolding truncate_content millis age_seconds debug_of
respond request x attempts formatted started now =
    let (content, truncated) = truncate_content formatted.content request.max_chars in
    let d = x.document in
    record {
      url = request.url;
      final_url = d.final_url;
      title = d.title;
      author = d.author;
      published_at = d.published_at;
      language = d.language;
      source_type = d.source_type;
      content_type = d.content_type;
      status_code = d.status_code;
      content = content;
      content_format = format_or formatted.format request.format;
      content_length = length content;
      truncated = truncated;
      meta = record {
        transport = x.transport;
        extractor = x.extractor;
        cached = x.cached;
        degraded = x.degraded;
        fallback_count = x.fallback_count;
        took_ms = millis started now;
        request_id = request.request_id;
        cache_age_seconds = age_seconds x.degraded d.stored_at now;
      };
      warnings = d.warnings ++ x.warnings;
      debug = debug_of request.debug attempts;
    }

module _ {S : Type 0} (env : Pipeline S) where
  unfoldable pub finish_convert :
      ReadRequest → Source → ReadAttempt → ℕ → S → Outcome FormattedContent → Outcome ReadResponse
  unfolding respond failing failed_attempt
  finish_convert request x a started t (ok formatted) =
      ok (respond request x (x.attempts ++ a ∷ []) formatted started (env.now t))
  finish_convert request x a started t (fail f) = fail (
      failing ErrorCode.extraction_failed (codes "正文格式转换失败") false f
        (x.attempts ++ failed_attempt a ReadClassification.rejected f ∷ []))

  unfoldable pub convert_with :
      ReadRequest → Source → ℕ → S → Outcome (ContentConverter S) → S × Outcome ReadResponse
  unfolding finish_convert plain_attempt millis failing
  convert_with request x started s (fail f) =
      (s, fail (failing ErrorCode.invalid_request (codes "正文输出格式不可用") false f x.attempts))
  convert_with request x started s (ok c) =
      let (t, converted) = c.convert x.document s in
      let a = record (plain_attempt ReadStage.convert c.name ReadClassification.success) {
        request_url = x.document.url;
        final_url = x.document.final_url;
        elapsed_ms = millis (env.now s) (env.now t);
      } in
      (t, finish_convert request x a started t converted)

  -- `formatResponse`
  unfoldable pub format_response : ReadRequest → Source → ℕ → S → S × Outcome ReadResponse
  unfolding convert_with
  format_response request x started s =
      convert_with request x started s (env.resolve_converter request.format)
