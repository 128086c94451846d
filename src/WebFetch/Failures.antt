-- ===== src/WebFetch/Failures.antt =====
-- The Go errors of `webfetch`: plain ones, those of a context, those with a method `ReadErrorCode` or
-- `HTTPStatusCode`, wrapped ones, and `*ReadError` of `domain/read.go`; with the questions that
-- `app/read_service.go` asks of an error.
use search_x.Prelude.{
  refl, inr, inl, ◌⊎◌, ◌≡◌, ◌||◌, ◌==◌, ◌++◌, if◌then◌else◌, ℕ, Bool, true, false, List, [], ◌∷◌,
  Option, none, some,
}
use search_x.Prelude.Text.{Text, codes}
use search_x.WebFetch.Types.{
  ErrorCode, ReadAttempt, ReadStage, ReadClassification, ImplementationName,
}

mutual
  pub data Failure : Type 0 where
    plain : Text → Failure
    context_ended : Text → Failure
    coded : ErrorCode → Failure → Failure
    status : ℕ → Text → Failure
    wrap : Text → Failure → Failure
    read : ErrorCode → Text → Bool → Original → List ReadAttempt → List Text → Failure

  -- The field `Original`, which may be nil.
  pub data Original : Type 0 where
    nil : Original
    original : Failure → Original

-- A `*ReadError` that is not nil.
pub record ReadError : Type 0 where
  pub code : ErrorCode
  pub message : Text
  pub retryable : Bool
  pub cause : Original
  pub attempts : List ReadAttempt
  pub artifacts : List Text

abbrev pub as_failure : ReadError → Failure
as_failure e = read e.code e.message e.retryable e.cause e.attempts e.artifacts

-- A Go result `(value, error)`.
pub data Outcome {ℓ} (A : Type ℓ) : Type ℓ where
  ok : A → Outcome A
  fail : Failure → Outcome A

pub Outcome-cases {ℓ} :
    {A : Type ℓ} (r : Outcome A) → ((a : A) × (r ≡ ok a)) ⊎ ((f : Failure) × (r ≡ fail f))
Outcome-cases (ok a) = inl (a, refl)
Outcome-cases (fail f) = inr (f, refl)

-- `errors.As`: the first `*ReadError` on the chain.
unfoldable pub as_read_error : Failure → Option ReadError
as_read_error (plain m) = none
as_read_error (context_ended m) = none
as_read_error (coded c f) = as_read_error f
as_read_error (status n m) = none
as_read_error (wrap m f) = as_read_error f
as_read_error (read c m r o ats bs) =
    some
      (record { code = c; message = m; retryable = r; cause = o; attempts = ats; artifacts = bs })

unfoldable mutual
  -- The first error with a method `ReadErrorCode`.
  pub as_coder : Failure → Option ErrorCode
  as_coder (plain m) = none
  as_coder (context_ended m) = none
  as_coder (coded c f) = some c
  as_coder (status n m) = none
  as_coder (wrap m f) = as_coder f
  as_coder (read c m r o ats bs) = original_coder o

  original_coder : Original → Option ErrorCode
  original_coder nil = none
  original_coder (original f) = as_coder f

unfoldable mutual
  -- The first error with a method `HTTPStatusCode`.
  pub as_status : Failure → Option ℕ
  as_status (plain m) = none
  as_status (context_ended m) = none
  as_status (coded c f) = as_status f
  as_status (status n m) = some n
  as_status (wrap m f) = as_status f
  as_status (read c m r o ats bs) = original_status o

  original_status : Original → Option ℕ
  original_status nil = none
  original_status (original f) = as_status f

unfoldable mutual
  -- `errors.Is` for `context.DeadlineExceeded` or `context.Canceled`.
  pub is_context : Failure → Bool
  is_context (plain m) = false
  is_context (context_ended m) = true
  is_context (coded c f) = is_context f
  is_context (status n m) = false
  is_context (wrap m f) = is_context f
  is_context (read c m r o ats bs) = original_context o

  original_context : Original → Bool
  original_context nil = false
  original_context (original f) = is_context f

abbrev pub is_set : ErrorCode → Bool
is_set ErrorCode.unset = false
is_set _ = true

unfoldable pub fallback_code : Failure → ErrorCode
unfolding is_context
fallback_code f = if is_context f then ErrorCode.fetch_timeout else ErrorCode.fetch_failed

unfoldable pub coder_code : Failure → Option ErrorCode → ErrorCode
unfolding fallback_code
coder_code f none = fallback_code f
coder_code f (some c) = if is_set c then c else fallback_code f

unfoldable pub typed_code : Failure → Option ReadError → ErrorCode
unfolding coder_code as_coder
typed_code f none = coder_code f (as_coder f)
typed_code f (some e) = if is_set e.code then e.code else coder_code f (as_coder f)

-- `readErrorCode`
unfoldable pub read_error_code : Failure → ErrorCode
unfolding typed_code as_read_error
read_error_code f = typed_code f (as_read_error f)

-- `readError`
unfoldable pub read_error : ErrorCode → Text → Bool → Failure → List ReadAttempt → ReadError
read_error code message retryable cause attempts = record {
  code = code;
  message = message;
  retryable = retryable;
  cause = original cause;
  attempts = attempts;
  artifacts = [];
}

abbrev pub is_fallback_status : Option ℕ → Bool
is_fallback_status none = false
is_fallback_status (some n) = n == 403 || n == 429 || n == 503

-- `browserFallbackEligible`
unfoldable pub browser_fallback_eligible : Failure → Bool
unfolding read_error_code as_status
browser_fallback_eligible f = elim (read_error_code f) [
  | ErrorCode.captcha_required ↦ true
  | ErrorCode.extraction_failed ↦ true
  | ErrorCode.fetch_failed ↦ is_fallback_status (as_status f)
  | _ ↦ false
]

-- `readErrorDescription`
unfoldable pub read_error_description : ErrorCode → Text × Bool × ReadClassification
read_error_description ErrorCode.unsafe_url =
    (codes "目标 URL 或重定向地址不允许访问", false, ReadClassification.unsafe)
read_error_description ErrorCode.unsupported_content_type =
    (codes "暂不支持该资源格式", false, ReadClassification.unsupported)
read_error_description ErrorCode.content_too_large =
    (codes "网页资源超过大小限制", false, ReadClassification.rejected)
read_error_description ErrorCode.fetch_timeout =
    (codes "网页资源获取超时", true, ReadClassification.timeout)
read_error_description _ = (codes "网页资源获取失败", true, ReadClassification.fetch_failed)

-- `err.Error()`; the words of a wrapped error stand in front.
unfoldable mutual
  pub message_of : Failure → Text
  message_of (plain m) = m
  message_of (context_ended m) = m
  message_of (coded c f) = message_of f
  message_of (status n m) = m
  message_of (wrap m f) = m ++ message_of f
  message_of (read c m r o ats bs) = original_message m o

  original_message : Text → Original → Text
  original_message m nil = m
  original_message m (original f) = message_of f

unfoldable pub plain_attempt : ReadStage → ImplementationName → ReadClassification → ReadAttempt
plain_attempt stage name class = record {
  stage = stage;
  implementation = name;
  classification = class;
  request_url = [];
  final_url = [];
  http_status = 0;
  content_type = [];
  elapsed_ms = 0;
  original_error = [];
}

-- `attemptsFromReadError`
unfoldable pub attempts_from_read_error : Failure → List ReadAttempt
unfolding as_read_error message_of plain_attempt
attempts_from_read_error f = elim (as_read_error f) [
  | some e ↦ e.attempts
  | none ↦
      record (plain_attempt ReadStage.read ImplementationName.unset
        ReadClassification.fetch_failed) { original_error = message_of f }
      ∷ []
]
