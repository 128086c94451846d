-- ===== src/WebFetch/Extraction.antt =====
-- `readAndExtract` of `app/read_service.go`, and the errors of a live read.
use search_x.WebFetch.Pipeline.{
  SafeTarget, ResourceReader, ContentExtractor, Pipeline, key_of, millis,
}
use search_x.WebFetch.Failures.{
  Failure, Outcome, ok, fail, as_failure, as_read_error, read_error_code, read_error,
  read_error_description, message_of, plain_attempt,
}
use search_x.WebFetch.Types.{
  ReadDocument, Resource, SourceType, QualityResult, ReadAttempt, ReadStage, ReadClassification,
  ErrorCode, ImplementationName, ReadTransport, ReadWarning,
}
use search_x.Prelude.Text.{Text, codes}
use search_x.Prelude.{true, [], ◌++◌, ◌∷◌, Bool, false, ℕ, List, Option, none, some}

-- What `readAndExtract` returns without an error.
pub record Extracted : Type 0 where
  pub document : ReadDocument
  pub resource : Resource
  pub extractor : ImplementationName
  pub attempts : List ReadAttempt

-- `liveReadResult`
pub record LiveReadResult : Type 0 where
  pub document : ReadDocument
  pub transport : ReadTransport
  pub extractor : ImplementationName
  pub fallback_count : ℕ
  pub warnings : List ReadWarning
  pub attempts : List ReadAttempt

unfoldable pub failed_attempt : ReadAttempt → ReadClassification → Failure → ReadAttempt
unfolding message_of
failed_attempt a class f = record a { classification = class; original_error = message_of f }

-- The attempts so far, and an error, as one failure.
unfoldable pub failing : ErrorCode → Text → Bool → Failure → List ReadAttempt → Failure
unfolding read_error
failing code message retryable f attempts =
    as_failure (read_error code message retryable f attempts)

-- The error of a reader: a `*ReadError` is kept, with the attempts so far in front of its own.
unfoldable pub read_failure : Failure → List ReadAttempt → Failure
unfolding as_read_error failing read_error_code read_error_description
read_failure f attempts = elim (as_read_error f) [
  | some e ↦ as_failure (record e { attempts = attempts ++ e.attempts })
  | none ↦
      let (message, retryable, _) = read_error_description (read_error_code f) in
      failing (read_error_code f) message retryable f attempts
]

abbrev pub extract_class : ErrorCode → ReadClassification
extract_class ErrorCode.captcha_required = ReadClassification.captcha
extract_class _ = ReadClassification.rejected

unfoldable pub extract_failure : ErrorCode → Failure → List ReadAttempt → Failure
unfolding failing
extract_failure ErrorCode.captcha_required f attempts =
    failing ErrorCode.captcha_required (codes "目标网页要求安全验证") true f attempts
extract_failure _ f attempts =
    failing ErrorCode.extraction_failed (codes "网页正文提取失败") false f attempts

abbrev pub or_name : ImplementationName → ImplementationName → ImplementationName
or_name ImplementationName.unset name = name
or_name given name = given

-- `qualityRejectionError`
unfoldable pub quality_rejection : QualityResult → Text → Failure → List ReadAttempt → Failure
unfolding failing
quality_rejection q message f attempts = elim q.classification [
  | ReadClassification.captcha ↦
      failing ErrorCode.captcha_required (codes "目标网页要求安全验证") true f attempts
  | _ ↦ failing ErrorCode.extraction_failed message false f attempts
]

module _ {S : Type 0} (env : Pipeline S) where
  unfoldable pub finish_extract :
      Resource
      → ImplementationName
      → List ReadAttempt
      → ReadAttempt
      → ReadDocument × Option Failure
      → Outcome Extracted
  unfolding failed_attempt extract_failure read_error_code
  finish_extract resource name attempts a (document, none) = ok (record {
    document = record document {
      content_type = resource.content_type;
      status_code = resource.status_code;
    };
    resource = resource;
    extractor = name;
    attempts = attempts ++ a ∷ [];
  })
  finish_extract resource name attempts a (document, some f) =
      let code = read_error_code f in
      fail (extract_failure code f (attempts ++ failed_attempt a (extract_class code) f ∷ []))

  unfoldable pub extract_with :
      ContentExtractor S → Resource → List ReadAttempt → S → S × Outcome Extracted
  unfolding finish_extract plain_attempt millis
  extract_with x resource attempts s =
      let (t, document, err) = x.extract resource s in
      let name = or_name document.extractor x.name in
      let a = record (plain_attempt ReadStage.extract name ReadClassification.success) {
        request_url = resource.url;
        final_url = resource.final_url;
        elapsed_ms = millis (env.now s) (env.now t);
      } in
      (t, finish_extract resource name attempts a (document, err))

  -- With the extractor of the registry, if there is one.
  unfoldable pub extract_by :
      Resource → List ReadAttempt → Outcome (ContentExtractor S) → S → S × Outcome Extracted
  unfolding extract_with failing
  extract_by resource attempts (fail f) s =
      (s, fail (failing ErrorCode.unsupported_content_type (codes "没有可用的正文提取器") false f attempts))
  extract_by resource attempts (ok x) s = extract_with x resource attempts s

  unfoldable pub resolve_and_extract :
      Resource → List ReadAttempt → Outcome SourceType → ReadAttempt → S → S × Outcome Extracted
  unfolding extract_by failing failed_attempt
  resolve_and_extract resource attempts (fail f) a s = (
    s,
    fail (
        failing ErrorCode.unsupported_content_type (codes "暂不支持该资源格式") false f
          (attempts ++ failed_attempt a ReadClassification.unsupported f ∷ [])),
  )
  resolve_and_extract resource attempts (ok source) a s =
      extract_by resource (attempts ++ a ∷ []) (env.resolve_extractor source) s

  unfoldable pub detect_and_extract : Resource → List ReadAttempt → S → S × Outcome Extracted
  unfolding resolve_and_extract plain_attempt millis
  detect_and_extract resource attempts s =
      let a = record (plain_attempt ReadStage.detect env.detector_name ReadClassification.success) {
        request_url = resource.url;
        final_url = resource.final_url;
        content_type = resource.content_type;
        elapsed_ms = millis (env.now s) (env.now s);
      } in
      resolve_and_extract resource attempts (env.detect resource) a s

  unfoldable pub after_read :
      List ReadAttempt → ReadAttempt → Resource → Option Failure → S → S × Outcome Extracted
  unfolding read_failure failed_attempt read_error_code read_error_description detect_and_extract
  after_read attempts a resource (some f) s =
      let (_, _, class) = read_error_description (read_error_code f) in
      (s, fail (read_failure f (attempts ++ failed_attempt a class f ∷ [])))
  after_read attempts a resource none s = detect_and_extract resource (attempts ++ a ∷ []) s

  unfoldable pub read_and_extract :
      ResourceReader S → SafeTarget → List ReadAttempt → S → S × Outcome Extracted
  unfolding after_read plain_attempt millis key_of
  read_and_extract reader target attempts s =
      let (t, resource, err) = reader.read target s in
      let a = record (plain_attempt ReadStage.read reader.name ReadClassification.success) {
        request_url = key_of target;
        final_url = resource.final_url;
        http_status = resource.status_code;
        content_type = resource.content_type;
        elapsed_ms = millis (env.now s) (env.now t);
      } in
      after_read attempts a resource err t
