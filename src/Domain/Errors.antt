-- ===== src/Domain/Errors.antt =====
-- `websearch/internal/domain/errors.go`, and the Go errors that the program builds and inspects:
-- a plain message, `fmt.Errorf("…: %w", err)`, `errors.Join` and `*SearchError`.
use search_x.Prelude.{Bool, List, Option, none, some}
use search_x.Prelude.Text.{Text}
use search_x.Domain.Attempts.{Attempt}

pub data ErrorCode : Type 0 where
  invalid_request provider_not_found rate_limited upstream_changed captcha_required : ErrorCode
  provider_unavailable provider_busy provider_capacity_exhausted search_queue_full : ErrorCode
  upstream_timeout : ErrorCode

mutual
  pub data Error : Type 0 where
    plain : Text → Error
    wrap : Text → Error → Error
    joined : Errors → Error
    search : ErrorCode → Text → Bool → Original → List Attempt → List Text → Error

  -- The field `Original`, which may be nil.
  pub data Original : Type 0 where
    nil : Original
    original : Error → Original

  pub data Errors : Type 0 where
    end : Errors
    more : Error → Errors → Errors

-- A `*SearchError` that is not nil.
pub record SearchError : Type 0 where
  pub code : ErrorCode
  pub message : Text
  pub retryable : Bool
  pub original : Original
  pub attempts : List Attempt
  pub artifacts : List Text

abbrev pub as_error : SearchError → Error
as_error e = search e.code e.message e.retryable e.original e.attempts e.artifacts

-- `errors.As` for a `*SearchError`: the first one on the chain of wrapped errors.
unfoldable mutual
  pub as_search_error : Error → Option SearchError
  as_search_error (plain m) = none
  as_search_error (wrap m e) = as_search_error e
  as_search_error (joined es) = as_search_errors es
  as_search_error (search c m r o ats bs) = some (record {
    code = c;
    message = m;
    retryable = r;
    original = o;
    attempts = ats;
    artifacts = bs;
  })

  as_search_errors : Errors → Option SearchError
  as_search_errors end = none
  as_search_errors (more e es) = elim (as_search_error e) [
    | none ↦ as_search_errors es
    | some s ↦ some s
  ]
