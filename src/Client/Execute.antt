-- ===== src/Client/Execute.antt =====
-- What `execute_attempts` of fusen/src/client/invocation.rs keeps, and how it decides on a failed attempt.
pub mod Loop
pub mod Retried
pub mod Steps
pub mod Bounds
pub mod Permits
use fusen_rs.Client.Attempts.{
  AttemptObservation, Exchange, Interception, Intercepted, intercepted, cancelled_error,
  retry_policy_panic,
}
use fusen_rs.Client.Response.{Response, set_attempts, track_endpoint_breaker, hold_service_breaker}
use fusen_rs.Client.Select.{
  Client, Breakers, Selection, SelectedEndpoint, select_endpoint, release_unattempted, url_of,
}
use fusen_rs.Errors.{Error, with_attempts, retry_after}
use fusen_rs.Errors.Classify.{ClassifiedError, classify, classify_error}
use fusen_rs.Resilience.Breaker.{PermitOutcome, success, failure, abandoned, unattempted, unwrap_or}
use fusen_rs.Resilience.Failure.{FailureClass, is_retryable}
use fusen_rs.Resilience.Retry.{
  RetryBudget, RetryDecision, RetryDecisionContext, new_context, decide_with_guards,
  has_next_attempt, full_jitter_backoff, hard_max_attempts, retry, stop,
}
use fusen_rs.Prelude.{
  ℕ, zero, suc, ◌+◌, min, max, Bool, true, false, not, ◌||◌, Option, none, some, List, [], ◌∷◌, leb,
  ltb, ◌==◌, if◌then◌else◌, Result, ok, err,
}
use fusen_rs.Prelude.Bytes.{Bytes, bytes_of}

-- The retry configuration of the runtime, and whether the method allows retries.
pub record Settings : Type 0 where
  pub max_attempts : ℕ
  pub backoff_base : ℕ
  pub backoff_cap : ℕ
  pub allows_retries : Bool

-- What one attempt meets. A retry policy that panics gives no decision.
pub record Round (W S B : Type 0) : Type 0 where
  pub client : Client W
  pub before : S → S
  pub meanwhile : S → S
  pub budget : RetryBudget → RetryBudget
  pub exchange : Exchange (Response B)
  pub interception : Interception (Response B)
  pub sample : ℕ → ℕ
  pub remaining : ℕ
  pub policy : RetryDecisionContext → Option RetryDecision
  pub now : ℕ
  pub force_cancelled : Bool

-- What the attempts change: the breakers of the endpoints, the retry budget and the counter.
pub record World (S : Type 0) : Type 0 where
  pub breakers : S
  pub budget : RetryBudget
  pub attempts_started : ℕ

pub record AttemptSuccess (B P : Type 0) : Type 0 where
  pub response : Response B
  pub endpoint_breaker_permit : Option P
  pub service_breaker_failure : Option FailureClass

-- The end of an attempt, with the outcome if it is the last one.
pub record RoundEnd (S B P : Type 0) : Type 0 where
  pub world : World S
  pub attempted : List Bytes
  pub outcome : Option (Result (AttemptSuccess B P) ClassifiedError)

-- How a failed attempt completes its permit; a permit that is dropped is abandoned.
abbrev pub outcome_of : Option FailureClass → Bool → Bool → PermitOutcome
outcome_of (some f) succeeded unstarted = failure f
outcome_of none true unstarted = success
outcome_of none false true = unattempted
outcome_of none false false = abandoned

unfoldable pub permit_outcome : ℕ → ℕ → AttemptObservation → PermitOutcome
permit_outcome attempt started observation =
    outcome_of observation.failure observation.transport_succeeded (ltb started attempt)

unfoldable pub hint_of : AttemptObservation → Error → Option ℕ
unfolding retry_after
hint_of observation e = elim observation.failure [
  | some f ↦ observation.retry_after
  | none ↦ retry_after e.retry_hint
]

unfoldable pub retry_delay : (ℕ → ℕ) → Settings → ℕ → Option ℕ → ℕ
unfolding full_jitter_backoff
retry_delay sample settings attempt none =
    full_jitter_backoff sample settings.backoff_base settings.backoff_cap attempt
retry_delay sample settings attempt (some hint) =
    max (full_jitter_backoff sample settings.backoff_base settings.backoff_cap attempt) hint

-- Whether `decide_with_guards` stops before it asks the policy.
unfoldable pub stops_early : RetryDecisionContext → Bool
unfolding has_next_attempt is_retryable
stops_early context =
    context.remaining == 0
    || not (has_next_attempt context.completed_attempts context.max_attempts)
    || not context.method_allows_retries
    || not (is_retryable context.failure)

unfoldable pub decide :
    Option RetryDecision
    → RetryDecisionContext
    → RetryBudget
    → ℕ
    → RetryBudget × Option RetryDecision
unfolding decide_with_guards
decide none context budget now = (budget, none)
decide (some d) context budget now =
    let (after, decision) = decide_with_guards (λ c. d) context budget now in (after, some decision)

-- `decide_with_guards` under `catch_unwind`.
unfoldable pub caught_decision :
    (RetryDecisionContext → Option RetryDecision)
    → RetryDecisionContext
    → RetryBudget
    → ℕ
    → RetryBudget × Option RetryDecision
unfolding stops_early decide
caught_decision policy context budget now =
    if stops_early context then (budget, some stop) else decide (policy context) context budget now
