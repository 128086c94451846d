-- ===== src/App/Responses.antt =====
-- `prepareFresh`, `prepareStale` and `annotateResultProviders` of `app/search_service.go`, and the
-- response that is written to the cache. `took_ms` and the age are whole milliseconds and seconds.
use search_x.Prelude.{
  ◌∷◌, ◌++◌, ◌/◌, length, ◌-◌, ◌==◌, false, some, true, [], Option, if◌then◌else◌, none, Bool, ℕ,
  map,
}
use search_x.Domain.{Warning, SearchResponse, SearchResult}
use search_x.Domain.Attempts.{ProviderName, TransportName, WarningCode}
use search_x.Domain.Errors.{SearchError, Error, as_search_error}
use search_x.Prelude.Text.{Text, codes, text_eq}

unfoldable pub annotate_result : ProviderName → SearchResult → SearchResult
annotate_result p r = record r { provider = if text_eq r.provider [] then p else r.provider }

unfoldable pub annotate_result_providers : SearchResponse → SearchResponse
unfolding annotate_result
annotate_result_providers r = record r { results = map (annotate_result r.provider) r.results }

-- Nanoseconds in a millisecond and in a second.
abbrev milli : ℕ
milli = 1_000_000

abbrev second : ℕ
second = 1_000_000_000

unfoldable pub prepare_fresh : ProviderName → Text → ℕ → ℕ → SearchResponse → SearchResponse
unfolding annotate_result_providers
prepare_fresh requested request_id started now r = annotate_result_providers (record r {
  meta = record (r.meta) {
    transport = TransportName.fresh_cache;
    requested_provider = requested;
    cached = true;
    degraded = false;
    request_id = request_id;
    took_ms = (now - started) / milli;
  };
})

unfoldable pub stale_warning : Warning
stale_warning = record {
  code = WarningCode.live_search_unavailable;
  message = codes "实时 Provider 查询不可用，当前返回旧缓存";
}

-- What the provider's error adds to the response.
unfoldable pub with_error : Bool → Option SearchError → SearchResponse → SearchResponse
with_error debug none r = r
with_error debug (some e) r = record r {
  meta = record (r.meta) { fallback_count = length e.attempts };
  debug =
      if debug
      then some (record { attempts = e.attempts; raw_artifacts = e.artifacts })
      else r.debug;
}

-- The response before the provider's error is looked at. A time of 0 is Go's zero time.
unfoldable pub as_stale : ProviderName → Text → ℕ → SearchResponse → SearchResponse
unfolding stale_warning
as_stale requested request_id now r = record r {
  meta = record (r.meta) {
    transport = TransportName.stale_cache;
    requested_provider = requested;
    cached = true;
    degraded = true;
    request_id = request_id;
    cache_age_seconds =
        if r.stored_at == 0 then r.meta.cache_age_seconds else (now - r.stored_at) / second;
  };
  warnings = r.warnings ++ stale_warning ∷ [];
}

unfoldable pub prepare_stale :
    ProviderName → Text → Error → Bool → ℕ → SearchResponse → SearchResponse
unfolding annotate_result_providers with_error as_stale
prepare_stale requested request_id e debug now r =
    annotate_result_providers
      (with_error debug (as_search_error e) (as_stale requested request_id now r))

-- The live response, and the value that `Search` writes to the cache, without diagnostics.
unfoldable pub live_response : ProviderName → SearchResponse → SearchResponse
unfolding annotate_result_providers
live_response requested r = annotate_result_providers (record r {
  meta = record (r.meta) {
    requested_provider =
        if text_eq r.meta.requested_provider [] then requested else r.meta.requested_provider;
  };
})

unfoldable pub cache_value : SearchResponse → SearchResponse
cache_value r = record r { debug = none }
