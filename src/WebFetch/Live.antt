-- ===== src/WebFetch/Live.antt =====
-- `readRendered` and `readLive` of `app/read_service.go`.
use search_x.WebFetch.Extraction.{
  Extracted, LiveReadResult, failing, quality_rejection, read_and_extract,
}
use search_x.WebFetch.Pipeline.{SafeTarget, ResourceReader, Pipeline}
use search_x.WebFetch.Failures.{
  Failure, Outcome, ok, fail, browser_fallback_eligible, attempts_from_read_error, plain,
  plain_attempt,
}
use search_x.WebFetch.Types.{QualityResult, QualityAction, ReadAttempt, ReadStage, ErrorCode}
use search_x.Prelude.Text.{codes}
use search_x.Prelude.{if◌then◌else◌, [], ◌++◌, ◌∷◌, false, ℕ, List, Option, none, some}

module _ {S : Type 0} (env : Pipeline S) where
  unfoldable pub quality_attempt : Extracted → QualityResult → ReadAttempt
  unfolding plain_attempt
  quality_attempt x q =
      record (plain_attempt ReadStage.quality env.evaluator_name q.classification) {
        request_url = x.resource.url;
        final_url = x.resource.final_url;
      }

  unfoldable pub accepted : ℕ → List ReadAttempt → Extracted → LiveReadResult
  accepted fallbacks attempts x = record {
    document = x.document;
    transport = x.resource.transport;
    extractor = x.extractor;
    fallback_count = fallbacks;
    warnings = [];
    attempts = attempts;
  }

  unfoldable pub settle_rendered :
      QualityAction → QualityResult → List ReadAttempt → Extracted → Outcome LiveReadResult
  unfolding accepted quality_rejection
  settle_rendered QualityAction.accept q attempts x = ok (accepted 1 attempts x)
  settle_rendered _ q attempts x = fail (
      quality_rejection q (codes "浏览器渲染后仍未提取到有效正文")
        (plain (codes "rendered content rejected: " ++ q.reason)) attempts)

  unfoldable pub judge_rendered : Outcome Extracted → Outcome LiveReadResult
  unfolding quality_attempt settle_rendered
  judge_rendered (fail f) = fail f
  judge_rendered (ok x) =
      let q = env.evaluate x.document x.resource in
      settle_rendered q.action q (x.attempts ++ quality_attempt x q ∷ []) x

  unfoldable pub read_rendered :
      ResourceReader S → SafeTarget → List ReadAttempt → S → S × Outcome LiveReadResult
  unfolding read_and_extract judge_rendered
  read_rendered browser target attempts s =
      let (t, x) = read_and_extract env browser target attempts s in (t, judge_rendered x)

  -- The first reading failed.
  unfoldable pub recover :
      Option (ResourceReader S) → SafeTarget → Failure → S → S × Outcome LiveReadResult
  unfolding read_rendered browser_fallback_eligible attempts_from_read_error
  recover none target f s = (s, fail f)
  recover (some browser) target f s =
      if browser_fallback_eligible f
      then read_rendered browser target (attempts_from_read_error f) s
      else (s, fail f)

  -- The page has to be rendered.
  unfoldable pub render_page :
      Option (ResourceReader S)
      → SafeTarget
      → QualityResult
      → List ReadAttempt
      → S
      → S × Outcome LiveReadResult
  unfolding read_rendered failing
  render_page none target q attempts s = (
    s,
    fail (
        failing ErrorCode.extraction_failed (codes "网页正文需要浏览器渲染，但浏览器 fallback 未启用") false
          (plain (codes "browser fallback is disabled: " ++ q.reason)) attempts),
  )
  render_page (some browser) target q attempts s = read_rendered browser target attempts s

  unfoldable pub settle_page :
      QualityAction
      → SafeTarget
      → QualityResult
      → List ReadAttempt
      → Extracted
      → S
      → S × Outcome LiveReadResult
  unfolding accepted quality_rejection render_page
  settle_page QualityAction.accept target q attempts x s = (s, ok (accepted 0 attempts x))
  settle_page QualityAction.render target q attempts x s =
      render_page env.browser_reader target q attempts s
  settle_page QualityAction.reject target q attempts x s = (
    s,
    fail (
        quality_rejection q (codes "未提取到有效网页正文") (plain (codes "content rejected: " ++ q.reason))
          attempts),
  )

  unfoldable pub judge_page : SafeTarget → Extracted → S → S × Outcome LiveReadResult
  unfolding quality_attempt settle_page
  judge_page target x s =
      let q = env.evaluate x.document x.resource in
      settle_page q.action target q (x.attempts ++ quality_attempt x q ∷ []) x s

  unfoldable pub after_page : SafeTarget → S × Outcome Extracted → S × Outcome LiveReadResult
  unfolding recover judge_page
  after_page target (s, fail f) = recover env.browser_reader target f s
  after_page target (s, ok x) = judge_page target x s

  unfoldable pub read_live : SafeTarget → ReadAttempt → S → S × Outcome LiveReadResult
  unfolding read_and_extract after_page
  read_live target policy s =
      after_page target (read_and_extract env env.http_reader target (policy ∷ []) s)
