-- ===== src/Errors.antt =====
-- fusen/src/error/invocation.rs: the error of an invocation and its classes. Headers, details and the
-- diagnostic source of an error only travel along, and are left out. A status is a number.
pub mod Classify
pub mod Hints
use fusen_rs.Prelude.{
  ℕ, zero, suc, ◌+◌, ◌/◌, Bool, true, false, ◌&&◌, ◌||◌, not, Option, none, some, leb, ◌==◌,
  if◌then◌else◌, Result, ok, err, ◌>>=◌, length,
}
use fusen_rs.Prelude.Bytes.{
  Bytes, is_ascii_lowercase, is_ascii_digit, ends_with, contains_twice, all, starts_with, bytes_of,
}
use mathlib.Core.List.{List, [], ◌∷◌}

pub data ErrorKind : Type 0 where
  application framework : ErrorKind

pub data ErrorCategory : Type 0 where
  invalid_argument not_found conflict unauthenticated permission_denied : ErrorCategory
  payload_too_large resource_exhausted unavailable deadline_exceeded : ErrorCategory
  cancelled unimplemented internal data_loss unknown : ErrorCategory

pub data ErrorOrigin : Type 0 where
  local remote : ErrorOrigin

pub data RetryHint : Type 0 where
  never retryable : RetryHint
  after : ℕ → RetryHint

pub data ErrorConstructionError : Type 0 where
  invalid_code : Bytes → ErrorConstructionError
  non_canonical_category : ErrorCategory → ErrorConstructionError
  invalid_application_status : ℕ → ErrorConstructionError

pub record Error : Type 0 where
  pub kind : ErrorKind
  pub category : ErrorCategory
  pub code : Bytes
  pub message : Bytes
  pub status : ℕ
  pub origin : ErrorOrigin
  pub request_id : Option Bytes
  pub attempts : ℕ
  pub retry_hint : RetryHint

-- `ErrorCategory::canonical_status`.
unfoldable pub canonical_status : ErrorCategory → Option ℕ
canonical_status invalid_argument = some 400
canonical_status not_found = some 404
canonical_status conflict = some 409
canonical_status unauthenticated = some 401
canonical_status permission_denied = some 403
canonical_status payload_too_large = some 413
canonical_status resource_exhausted = some 429
canonical_status unavailable = some 503
canonical_status deadline_exceeded = some 504
canonical_status cancelled = some 499
canonical_status unimplemented = some 501
canonical_status internal = some 500
canonical_status data_loss = some 502
canonical_status unknown = none

-- `RetryHint::is_retryable`.
unfoldable pub hint_is_retryable : RetryHint → Bool
hint_is_retryable never = false
hint_is_retryable _ = true

unfoldable pub retry_after : RetryHint → Option ℕ
retry_after (after duration) = some duration
retry_after _ = none

abbrev pub is_server_error : ℕ → Bool
is_server_error status = leb 500 status && leb status 599

abbrev pub is_client_error : ℕ → Bool
is_client_error status = leb 400 status && leb status 499

-- A byte of an error code.
abbrev pub is_code_byte : ℕ → Bool
is_code_byte b = is_ascii_lowercase b || is_ascii_digit b || b == b'_'

abbrev pub starts_lowercase : Bytes → Bool
starts_lowercase [] = false
starts_lowercase (b ∷ bs) = is_ascii_lowercase b

-- `ErrorCode::new`: an underscore follows no other and does not end the code.
unfoldable pub error_code : Bytes → Result Bytes ErrorConstructionError
unfolding ends_with contains_twice all
error_code value =
    if leb (length value) 64
      && starts_lowercase value
      && not (ends_with b'_' value)
      && all is_code_byte value
      && not (contains_twice b'_' value)
    then ok value
    else err (ErrorConstructionError.invalid_code value)

unfoldable pub category_from_status : ℕ → ErrorCategory
category_from_status s =
    if s == 400 || s == 405
    then invalid_argument
    else if s == 401
    then unauthenticated
    else if s == 403
    then permission_denied
    else if s == 404
    then not_found
    else if s == 409
    then conflict
    else if s == 413
    then payload_too_large
    else if s == 429
    then resource_exhausted
    else if s == 503
    then unavailable
    else if s == 504 || s == 408
    then deadline_exceeded
    else if s == 501
    then unimplemented
    else if s == 502
    then data_loss
    else if s == 500
    then internal
    else if s == 499
    then cancelled
    else unknown

-- A new error of the process itself.
abbrev pub local_error : ErrorKind → ErrorCategory → ℕ → Bytes → Bytes → Error
local_error kind category status code message = record {
  kind = kind;
  category = category;
  code = code;
  message = message;
  status = status;
  origin = local;
  request_id = none;
  attempts = 0;
  retry_hint = never;
}

unfoldable pub application_parts :
    ErrorCategory → ℕ → Bytes → Bytes → Result Error ErrorConstructionError
unfolding error_code
application_parts category status code message = do
  valid ← error_code code
  ok (local_error ErrorKind.application category status valid message)

abbrev pub status_of : ErrorCategory → Option ℕ → Result ℕ ErrorConstructionError
status_of category none = err (ErrorConstructionError.non_canonical_category category)
status_of category (some s) = ok s

-- `Error::application`.
unfoldable pub new_application : ErrorCategory → Bytes → Bytes → Result Error ErrorConstructionError
unfolding application_parts canonical_status
new_application category code message = do
  status ← status_of category (canonical_status category)
  application_parts category status code message

unfoldable pub application_status : ℕ → Bytes → Bytes → Result Error ErrorConstructionError
unfolding application_parts category_from_status
application_status status code message =
    if not (is_client_error status) && not (is_server_error status)
    then err (ErrorConstructionError.invalid_application_status status)
    else application_parts (category_from_status status) status code message

-- `Error::local`.
unfoldable pub new_local : ErrorCategory → Bytes → Bytes → Result Error ErrorConstructionError
unfolding error_code canonical_status
new_local category code message = do
  status ← status_of category (canonical_status category)
  valid ← error_code code
  ok (local_error ErrorKind.framework category status valid message)

-- `Error::framework`, which panics where the category has no status. Its codes are literals.
unfoldable pub new_framework : ErrorCategory → Bytes → Bytes → Option Error
unfolding canonical_status
new_framework category code message = elim (canonical_status category) [
  | none ↦ none
  | some status ↦ some (local_error ErrorKind.framework category status code message)
]

pub record RemoteErrorParts : Type 0 where
  pub kind : ErrorKind
  pub category : ErrorCategory
  pub code : Bytes
  pub message : Bytes
  pub status : ℕ
  pub request_id : Bytes
  pub retry_hint : RetryHint

abbrev pub hint_for : ErrorKind → RetryHint → RetryHint
hint_for ErrorKind.application hint = never
hint_for ErrorKind.framework hint = hint

unfoldable pub from_remote_parts : RemoteErrorParts → Error
from_remote_parts parts = record {
  kind = parts.kind;
  category = parts.category;
  code = parts.code;
  message = parts.message;
  status = parts.status;
  origin = remote;
  request_id = some parts.request_id;
  attempts = 0;
  retry_hint = hint_for parts.kind parts.retry_hint;
}

unfoldable pub with_attempts : ℕ → Error → Error
with_attempts attempts e = record e { attempts = attempts }

unfoldable pub with_request_id : Bytes → Error → Error
with_request_id id e = record e { request_id = some id }

unfoldable pub with_remote_origin : Error → Error
with_remote_origin e = record e { origin = remote }

unfoldable pub with_local_origin : Error → Error
with_local_origin e = record e { origin = local }

abbrev pub hint_or : ErrorKind → RetryHint → RetryHint → RetryHint
hint_or ErrorKind.application hint old = old
hint_or ErrorKind.framework hint old = hint

unfoldable pub with_retry_hint : RetryHint → Error → Error
with_retry_hint hint e = record e { retry_hint = hint_or e.kind hint e.retry_hint }
