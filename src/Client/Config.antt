-- ===== src/Client/Config.antt =====
-- fusen/src/client/config.rs: the validation of the settings for retries and circuit breakers. An error has
-- its kind and the path of the field; the sentence of explanation is left out. A failure ratio is of any
-- type, with the test that it is finite and between 0 and 1.
pub mod Valid
use Prim.Native.String.{String}
use fusen_rs.Prelude.{ℕ, Bool, ◌&&◌, ltb, leb, ◌==◌, if◌then◌else◌, Result, ok, err, ◌>>◌}

pub data ConfigValidationErrorKind : Type 0 where
  out_of_range inconsistent : ConfigValidationErrorKind

pub record ConfigValidationError : Type 0 where
  pub kind : ConfigValidationErrorKind
  pub field_path : String

abbrev pub Validation : Type 0
Validation = Result Unit ConfigValidationError

abbrev pub refused : ConfigValidationErrorKind → String → ConfigValidationError
refused kind field_path = record { kind = kind; field_path = field_path }

-- An early return where a test fails.
unfoldable pub require : Bool → ConfigValidationError → Validation
require passed e = if passed then ok tt else err e

-- `positive_duration`, `positive_usize` and `positive_u32`.
abbrev pub positive : ℕ → String → Validation
positive value field_path = require (ltb 0 value) (refused out_of_range field_path)

pub record RetryConfig : Type 0 where
  pub max_attempts : ℕ
  pub backoff_base : ℕ
  pub backoff_cap : ℕ
  pub budget_capacity : ℕ
  pub budget_refill_per_second : ℕ

unfoldable pub validate_retry : RetryConfig → Validation
unfolding require
validate_retry c =
    require (leb 1 c.max_attempts && leb c.max_attempts 3)
      (refused out_of_range "client.retry.max_attempts")
    >> (positive c.backoff_base "client.retry.backoff_base"
        >> (positive c.backoff_cap "client.retry.backoff_cap"
            >> (require (leb c.backoff_base c.backoff_cap)
                  (refused inconsistent "client.retry.backoff_base")
                >> (positive c.budget_capacity "client.retry.budget_capacity"
                    >> positive c.budget_refill_per_second
                        "client.retry.budget_refill_per_second"))))

pub record BreakerThreshold (R : Type 0) : Type 0 where
  pub window : ℕ
  pub buckets : ℕ
  pub minimum_samples : ℕ
  pub failure_ratio : R
  pub open_duration : ℕ
  pub half_open_probes : ℕ
  pub close_successes : ℕ

pub record CircuitBreakerConfig (R : Type 0) : Type 0 where
  pub endpoint : BreakerThreshold R
  pub service : BreakerThreshold R
  pub max_open_duration : ℕ
  pub max_endpoint_entries : ℕ
  pub idle_eviction : ℕ

pub data ThresholdScope : Type 0 where
  endpoint service standalone : ThresholdScope

pub record ThresholdPaths : Type 0 where
  pub window : String
  pub buckets : String
  pub minimum_samples : String
  pub failure_ratio : String
  pub open_duration : String
  pub half_open_probes : String
  pub close_successes : String

abbrev pub paths_of : ThresholdScope → ThresholdPaths
paths_of endpoint = record {
  window = "client.circuit_breaker.endpoint.window";
  buckets = "client.circuit_breaker.endpoint.buckets";
  minimum_samples = "client.circuit_breaker.endpoint.minimum_samples";
  failure_ratio = "client.circuit_breaker.endpoint.failure_ratio";
  open_duration = "client.circuit_breaker.endpoint.open_duration";
  half_open_probes = "client.circuit_breaker.endpoint.half_open_probes";
  close_successes = "client.circuit_breaker.endpoint.close_successes";
}
paths_of service = record {
  window = "client.circuit_breaker.service.window";
  buckets = "client.circuit_breaker.service.buckets";
  minimum_samples = "client.circuit_breaker.service.minimum_samples";
  failure_ratio = "client.circuit_breaker.service.failure_ratio";
  open_duration = "client.circuit_breaker.service.open_duration";
  half_open_probes = "client.circuit_breaker.service.half_open_probes";
  close_successes = "client.circuit_breaker.service.close_successes";
}
paths_of standalone = record {
  window = "breaker_threshold.window";
  buckets = "breaker_threshold.buckets";
  minimum_samples = "breaker_threshold.minimum_samples";
  failure_ratio = "breaker_threshold.failure_ratio";
  open_duration = "breaker_threshold.open_duration";
  half_open_probes = "breaker_threshold.half_open_probes";
  close_successes = "breaker_threshold.close_successes";
}

module _ {R : Type 0} (is_ratio : R → Bool) where
  unfoldable pub validate_threshold : BreakerThreshold R → ThresholdScope → Validation
  unfolding require
  validate_threshold c scope =
      let paths = paths_of scope in
      positive c.window paths.window
      >> (positive c.buckets paths.buckets
          >> (positive c.minimum_samples paths.minimum_samples
              >> (require (is_ratio c.failure_ratio) (refused out_of_range paths.failure_ratio)
                  >> (positive c.open_duration paths.open_duration
                      >> (positive c.half_open_probes paths.half_open_probes
                          >> positive c.close_successes paths.close_successes)))))

  unfoldable pub validate_circuit_breaker : CircuitBreakerConfig R → Validation
  unfolding validate_threshold require
  validate_circuit_breaker c =
      validate_threshold c.endpoint ThresholdScope.endpoint
      >> (validate_threshold c.service ThresholdScope.service
          >> (positive c.max_open_duration "client.circuit_breaker.max_open_duration"
              >> (positive c.max_endpoint_entries "client.circuit_breaker.max_endpoint_entries"
                  >> positive c.idle_eviction "client.circuit_breaker.idle_eviction")))
