-- ===== src/WebFetch/Service.antt =====
-- `Read` of `app/read_service.go`, for the caller whose call of `DoChan` does the work; a caller that
-- joins its flight receives the same value, so `land` serves it as well.
use search_x.WebFetch.Formatting.{
  cached_extractor, from_fresh, from_stale, from_live, format_response,
}
use search_x.Prelude.{none, ◌++◌, ◌∷◌, some, true, ℕ, Bool, [], false, Option}
use search_x.WebFetch.Pipeline.{SafeTarget, Pipeline, key_of, millis}
use search_x.WebFetch.Failures.{Failure, Outcome, ok, fail, message_of, plain, plain_attempt}
use search_x.WebFetch.Live.{read_live}
use search_x.WebFetch.Extraction.{LiveReadResult, failing, failed_attempt}
use search_x.WebFetch.Requests.{normalize_read}
use search_x.WebFetch.Types.{
  ReadRequest, ReadDocument, ReadResponse, ReadAttempt, ReadStage, ReadClassification,
  ReadWarningCode, ReadTransport, ImplementationName, ErrorCode,
}
use search_x.Prelude.Text.{Text, codes}

module _ {S : Type 0} (env : Pipeline S) where
  -- A cache that refuses the document costs a warning only.
  unfoldable pub note_cache : LiveReadResult → Option Failure → LiveReadResult
  unfolding plain_attempt message_of
  note_cache r none = r
  note_cache r (some f) = record r {
    warnings =
        r.warnings
        ++ record { code = ReadWarningCode.cache_write_error; message = codes "正文缓存写入失败，本次仍返回实时结果" }
          ∷ [];
    attempts =
        r.attempts
        ++ record (plain_attempt ReadStage.cache ImplementationName.memory_read_cache
            ReadClassification.rejected) { original_error = message_of f }
          ∷ [];
  }

  unfoldable pub store_live : Text → S × Outcome LiveReadResult → S × Outcome LiveReadResult
  unfolding note_cache
  store_live key (s, fail f) = (s, fail f)
  store_live key (s, ok r) = let (t, err) = env.set key r.document s in (t, ok (note_cache r err))

  unfoldable pub cached_result : ReadDocument → LiveReadResult
  unfolding cached_extractor
  cached_result d = record {
    document = d;
    transport = ReadTransport.fresh_cache;
    extractor = cached_extractor d;
    fallback_count = 0;
    warnings = [];
    attempts = [];
  }

  unfoldable pub fresh_unless : Bool → Text → S → Option ReadDocument
  fresh_unless true key s = none
  fresh_unless false key s = env.get_fresh key s

  unfoldable pub fly_from :
      Option ReadDocument → SafeTarget → ReadAttempt → S → S × Outcome LiveReadResult
  unfolding cached_result read_live store_live key_of
  fly_from (some d) target policy s = (s, ok (cached_result d))
  fly_from none target policy s = store_live (key_of target) (read_live env target policy s)

  -- The function of the flight: the cache once more, then the live page, which is stored.
  unfoldable pub fly : Bool → SafeTarget → ReadAttempt → S → S × Outcome LiveReadResult
  unfolding fly_from fresh_unless key_of
  fly refresh target policy s = fly_from (fresh_unless refresh (key_of target) s) target policy s

  unfoldable pub land_stale :
      ReadRequest → Failure → Option ReadDocument → ℕ → S → S × Outcome ReadResponse
  unfolding format_response from_stale
  land_stale request f none started s = (s, fail f)
  land_stale request f (some d) started s = format_response env request (from_stale d f) started s

  -- The flight has landed, with a result or an error.
  unfoldable pub land :
      ReadRequest → Text → Outcome LiveReadResult → ℕ → S → S × Outcome ReadResponse
  unfolding format_response from_live land_stale
  land request key (ok r) started s = format_response env request (from_live r) started s
  land request key (fail f) started s = land_stale request f (env.get_stale key s) started s

  unfoldable pub time_out : ReadRequest → Failure → Failure
  unfolding failing plain_attempt message_of
  time_out request f = failing ErrorCode.fetch_timeout (codes "正文读取超时") true f (
      record (plain_attempt ReadStage.read env.http_reader.name ReadClassification.timeout) {
        request_url = request.url;
        original_error = message_of f;
      }
      ∷ [])

  -- The context of the caller may end before the flight lands.
  unfoldable pub await :
      Option Failure
      → ReadRequest
      → Text
      → Outcome LiveReadResult
      → ℕ
      → S
      → S × Outcome ReadResponse
  unfolding time_out land
  await (some f) request key flight started s = (s, fail (time_out request f))
  await none request key flight started s = land request key flight started s

  unfoldable pub read_from :
      Option ReadDocument
      → ReadRequest
      → SafeTarget
      → ReadAttempt
      → ℕ
      → S
      → S × Outcome ReadResponse
  unfolding format_response from_fresh fly await key_of
  read_from (some d) request target policy started s =
      format_response env request (from_fresh d (policy ∷ [])) started s
  read_from none request target policy started s =
      let (t, flight) = fly request.refresh target policy s in
      await (env.ended t) request (key_of target) flight started t

  unfoldable pub after_strategy :
      ReadRequest → ReadAttempt → ℕ → S × Outcome SafeTarget → S × Outcome ReadResponse
  unfolding failing read_from fresh_unless key_of
  after_strategy request policy started (s, fail f) =
      (s, fail (failing ErrorCode.fetch_failed (codes "站点读取策略执行失败") true f (policy ∷ [])))
  after_strategy request policy started (s, ok target) =
      read_from (fresh_unless request.refresh (key_of target) s) request target policy started s

  unfoldable pub prepare :
      Option (SafeTarget → S → S × Outcome SafeTarget) → SafeTarget → S → S × Outcome SafeTarget
  prepare none target s = (s, ok target)
  prepare (some strategy) target s = strategy target s

  unfoldable pub unsafe_target : Failure → ReadAttempt → Failure
  unfolding failing failed_attempt
  unsafe_target f policy =
      failing ErrorCode.unsafe_url (codes "目标 URL 不允许访问") false f
        (failed_attempt policy ReadClassification.unsafe f ∷ [])

  unfoldable pub after_policy :
      ReadRequest → ReadAttempt → ℕ → S × Outcome SafeTarget → S × Outcome ReadResponse
  unfolding unsafe_target prepare after_strategy
  after_policy request policy started (s, fail f) = (s, fail (unsafe_target f policy))
  after_policy request policy started (s, ok target) = elim target.url [
    | none ↦ (s, fail (unsafe_target (plain (codes "URL policy returned a nil target URL")) policy))
    | some u ↦
        after_strategy request policy started (prepare (env.resolve_strategy target) target s)
  ]

  unfoldable pub read_normalized : ℕ → S → Outcome ReadRequest → S × Outcome ReadResponse
  unfolding failing after_policy plain_attempt millis
  read_normalized started s (fail f) =
      (s, fail (failing ErrorCode.invalid_request (codes "正文读取参数错误") false f []))
  read_normalized started s (ok request) =
      let r = env.validate request.url s in
      after_policy request
        (record (plain_attempt ReadStage.policy ImplementationName.safe_url_policy
          ReadClassification.success) {
            request_url = request.url;
            elapsed_ms = millis started (env.now r.0);
          })
        started r

  -- `Read`
  unfoldable pub read_page : ReadRequest → S → S × Outcome ReadResponse
  unfolding normalize_read read_normalized
  read_page request s = read_normalized (env.now s) s (normalize_read request)
