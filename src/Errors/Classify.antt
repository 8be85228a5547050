-- ===== src/Errors/Classify.antt =====
-- fusen/src/resilience/classify.rs: the class of an error that decides on retries and breakers.
use fusen_rs.Errors.{
  Error, ErrorKind, ErrorCategory, ErrorOrigin, application, framework, local, remote,
  hint_is_retryable, is_server_error,
}
use fusen_rs.Resilience.Failure.{FailureClass, is_retryable}
use fusen_rs.Prelude.{
  ℕ, ◌≡◌, ◌↔◌, inl, inr, refl, Bool, true, false, ◌&&◌, ◌||◌, not, ◌==◌, leb, if◌then◌else◌, arith,
  Bool-cases,
}

pub record ClassifiedError : Type 0 where
  pub error : Error
  pub class : FailureClass

abbrev pub is_application : ErrorKind → Bool
is_application application = true
is_application framework = false

abbrev pub is_local : ErrorOrigin → Bool
is_local local = true
is_local remote = false

abbrev pub is_data_loss : ErrorCategory → Bool
is_data_loss ErrorCategory.data_loss = true
is_data_loss _ = false

unfoldable pub classify_application : ErrorOrigin → Bool → FailureClass
classify_application remote true = FailureClass.remote_failure
classify_application remote false = FailureClass.application
classify_application local server_error = FailureClass.invalid_request

unfoldable pub classify_local : ErrorCategory → FailureClass
classify_local ErrorCategory.deadline_exceeded = FailureClass.timeout
classify_local ErrorCategory.cancelled = FailureClass.cancelled
classify_local ErrorCategory.data_loss = FailureClass.protocol
classify_local ErrorCategory.payload_too_large = FailureClass.local_rejection
classify_local ErrorCategory.resource_exhausted = FailureClass.local_rejection
classify_local ErrorCategory.unavailable = FailureClass.local_rejection
classify_local _ = FailureClass.invalid_request

abbrev pub retryable_status : ℕ → Bool
retryable_status s =
    s == 408 || s == 425 || s == 429 || s == 500 || s == 502 || s == 503 || s == 504

unfoldable pub classify_status : ℕ → FailureClass
classify_status s =
    if s == 408
    then FailureClass.timeout
    else if s == 429
    then FailureClass.overloaded
    else if leb 502 s && leb s 504
    then FailureClass.unavailable
    else FailureClass.remote_server

unfoldable pub classify_error : Error → FailureClass
unfolding classify_application classify_local classify_status hint_is_retryable
classify_error e =
    if not (is_application e.kind) && not (is_local e.origin) && is_data_loss e.category
    then FailureClass.protocol
    else if is_application e.kind
    then classify_application e.origin (is_server_error e.status)
    else if is_local e.origin
    then (if hint_is_retryable e.retry_hint
        then FailureClass.transport
        else classify_local e.category)
    else if retryable_status e.status
    then (if not (hint_is_retryable e.retry_hint)
        then FailureClass.remote_failure
        else classify_status e.status)
    else if is_server_error e.status
    then FailureClass.remote_failure
    else FailureClass.invalid_request

unfoldable pub classify : Error → ClassifiedError
unfolding classify_error
classify e = record { error = e; class = classify_error e }

-- The framework errors that may pass: a local one that is hinted so or is a timeout, whatever its hint,
-- and a remote one of a transient status that is hinted so and is not corrupt data.
pub data IsTransient (e : Error) : Type 0 where
  hinted :
      e.kind ≡ framework → e.origin ≡ local → hint_is_retryable e.retry_hint ≡ true → IsTransient e
  timed_out :
      e.kind ≡ framework
      → e.origin ≡ local
      → e.category ≡ ErrorCategory.deadline_exceeded
      → IsTransient e
  peer :
      e.kind ≡ framework
      → e.origin ≡ remote
      → is_data_loss e.category ≡ false
      → retryable_status e.status ≡ true
      → hint_is_retryable e.retry_hint ≡ true
      → IsTransient e

local_timeout :
    (c : ErrorCategory)
    → is_retryable (classify_local c) ≡ true
    → c ≡ ErrorCategory.deadline_exceeded
unfolding is_retryable classify_local
local_timeout ErrorCategory.deadline_exceeded h = refl
local_timeout _ h = cc

application_stops :
    (o : ErrorOrigin) (b : Bool) → is_retryable (classify_application o b) ≡ true → ⊥
unfolding is_retryable classify_application
application_stops local b h = cc
application_stops remote true h = cc
application_stops remote false h = cc

only_transient :
    (e : Error) (k : ErrorKind) (o : ErrorOrigin)
    → e.kind ≡ k
    → e.origin ≡ o
    → is_retryable (classify_error e) ≡ true
    → IsTransient e
unfolding classify_error is_retryable
only_transient e application local ek eo h = absurd (cc (rw (ek, eo, classify_error) at h))
only_transient e application remote ek eo h =
    absurd (application_stops remote (is_server_error e.status) (rw (ek, eo, classify_error) at h))
only_transient e framework local ek eo h = elim (Bool-cases (hint_is_retryable e.retry_hint)) [
  | inl y ↦ hinted ek eo y
  | inr n ↦ timed_out ek eo (local_timeout e.category (rw (ek, eo, n, classify_error) at h))
]
only_transient e framework remote ek eo h = elim (Bool-cases (is_data_loss e.category)) [
  | inl d ↦ absurd (cc (rw (ek, eo, d, classify_error) at h))
  | inr d ↦ elim (Bool-cases (retryable_status e.status)) [
    | inl s ↦ elim (Bool-cases (hint_is_retryable e.retry_hint)) [
      | inl y ↦ peer ek eo d s y
      | inr n ↦ absurd (cc (rw (ek, eo, d, s, n, classify_error) at h))
    ]
    | inr s ↦ elim (Bool-cases (is_server_error e.status)) [
      | inl y ↦ absurd (cc (rw (ek, eo, d, s, y, classify_error) at h))
      | inr n ↦ absurd (cc (rw (ek, eo, d, s, n, classify_error) at h))
    ]
  ]
]

transient_only : (e : Error) → IsTransient e → is_retryable (classify_error e) ≡ true
unfolding classify_error is_retryable
transient_only e (hinted ek eo h) = rw (ek, eo, h) refl
transient_only e (timed_out ek eo c) = rw (ek, eo, c) (ground arith)
transient_only e (peer ek eo d s h) = rw (ek, eo, d, s, h) (ground arith)

-- An error is of a class that may be retried exactly when it is transient: a framework error that is local
-- and hinted retryable, or local and of a deadline that passed, also with a hint never to retry, or of the
-- peer with a transient status, a retryable hint and no data loss.
pub classify_error-IsTransient :
    (e : Error) → (is_retryable (classify_error e) ≡ true) ↔ IsTransient e
classify_error-IsTransient e = (only_transient e e.kind e.origin refl refl, transient_only e)
