-- ===== src/Baidu/Failures.antt =====
-- `buildSearchError` of `baidu/provider.go`.
use search_x.Prelude.Strings.{trim_space}
use search_x.Prelude.Text.{text_eq, Text, codes}
use search_x.Prelude.{◌==◌, not, true, [], ◌∷◌, List, if◌then◌else◌}
use search_x.Domain.Attempts.{Attempt, Classification}
use search_x.Domain.Errors.{ErrorCode, Original, SearchError, plain}
use search_x.Baidu.Types.{Tried, class_number}

pub record Wanted : Type 0 where
  pub classification : Classification
  pub code : ErrorCode
  pub message : Text

abbrev pub priority : List Wanted
priority =
    record {
      classification = Classification.captcha;
      code = ErrorCode.captcha_required;
      message = codes "百度返回安全验证页面";
    }
    ∷ record {
      classification = Classification.rate_limited;
      code = ErrorCode.rate_limited;
      message = codes "百度限制了当前请求频率";
    }
    ∷ record {
      classification = Classification.timeout;
      code = ErrorCode.upstream_timeout;
      message = codes "百度查询链路超时";
    }
    ∷ record {
      classification = Classification.parse_changed;
      code = ErrorCode.upstream_changed;
      message = codes "百度页面结构发生变化";
    }
    ∷ []

-- The variables `code`, `message` and `original`.
pub record Cause : Type 0 where
  pub code : ErrorCode
  pub message : Text
  pub original : Text

abbrev pub unavailable : Cause
unavailable = record {
  code = ErrorCode.provider_unavailable;
  message = codes "BaiduProvider is unavailable";
  original = [];
}

-- The inner loop: the first attempt with the wanted classification.
unfoldable pub find_wanted : Wanted → List Attempt → Cause → Cause
unfolding class_number
find_wanted v [] c = c
find_wanted v (a ∷ ats) c =
    if class_number a.classification == class_number v.classification
    then record { code = v.code; message = v.message; original = a.original_error }
    else find_wanted v ats c

-- The outer loop, which ends at an original that is not empty.
unfoldable pub find_cause : List Wanted → List Attempt → Cause → Cause
unfolding find_wanted
find_cause [] ats c = c
find_cause (v ∷ vs) ats c =
    let found = find_wanted v ats c in
    if text_eq found.original [] then find_cause vs ats found else found

-- The last error that is not blank.
unfoldable pub last_error : List Attempt → Text
unfolding trim_space
last_error [] = []
last_error (a ∷ ats) =
    let later = last_error ats in
    if not (text_eq later [])
    then later
    else if text_eq (trim_space a.original_error) []
    then []
    else a.original_error

unfoldable pub build_search_error : Tried → SearchError
unfolding find_cause last_error
build_search_error t =
    let cause = find_cause priority t.attempts unavailable in
    let second = if text_eq cause.original [] then last_error t.attempts else cause.original in
    record {
      code = cause.code;
      message = cause.message;
      retryable = true;
      original = Original.original (plain (if text_eq second [] then cause.message else second));
      attempts = t.attempts;
      artifacts = t.artifact_paths;
    }
