-- ===== src/Resilience/Failure.antt =====
-- fusen/src/resilience/breaker.rs: the classes of a failed attempt and what each does to a breaker.
use fusen_rs.Prelude.{Bool, true, false}

pub data FailureClass : Type 0 where
  connect transport timeout unavailable overloaded remote_server remote_failure protocol :
      FailureClass
  application invalid_request cancelled local_rejection : FailureClass

unfoldable pub is_retryable : FailureClass → Bool
is_retryable connect = true
is_retryable transport = true
is_retryable timeout = true
is_retryable unavailable = true
is_retryable overloaded = true
is_retryable remote_server = true
is_retryable _ = false

pub data BreakerImpact : Type 0 where
  success failure ignore unattempted : BreakerImpact

unfoldable pub breaker_impact : FailureClass → BreakerImpact
breaker_impact connect = failure
breaker_impact transport = failure
breaker_impact timeout = failure
breaker_impact unavailable = failure
breaker_impact remote_server = failure
breaker_impact remote_failure = failure
breaker_impact protocol = failure
breaker_impact application = success
breaker_impact _ = ignore
