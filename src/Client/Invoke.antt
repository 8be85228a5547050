-- ===== src/Client/Invoke.antt =====
-- `execute`, `invoke` and `finish_result_failure` of fusen/src/client/invocation.rs, for an invocation that
-- is not dropped while it runs, as a whole or by an interceptor of the call. Metrics and the types of the
-- results are left out.
pub mod Calls
pub mod Balance
pub mod Executed
pub mod Settled
pub mod Ends
use fusen_rs.Client.Attempts.{Interception, short_circuit, around}
use fusen_rs.Client.Execute.{Settings, Round, World, AttemptSuccess}
use fusen_rs.Client.Execute.Loop.{execute_attempts}
use fusen_rs.Client.Response.{
  Response, set_attempts, track_endpoint_breaker, hold_service_breaker, map_body,
}
use fusen_rs.Client.Select.{
  Breakers, release_unattempted, framework_error, circuit_open, Caught, returned, failed, panicked,
}
use fusen_rs.Errors.{
  Error, ErrorKind, RetryHint, unavailable, internal, unimplemented, data_loss, from_remote_parts,
  with_attempts, with_request_id,
}
use fusen_rs.Errors.Classify.{ClassifiedError}
use fusen_rs.Resilience.Breaker.{success, failure, abandoned}
use fusen_rs.Resilience.Failure.{FailureClass}
use fusen_rs.Prelude.{
  ℕ, max, Bool, true, false, Option, none, some, ◌==◌, if◌then◌else◌, Result, ok, err,
}
use fusen_rs.Prelude.Bytes.{Bytes, bytes_of}

abbrev pub closed_invocation : Error
closed_invocation =
    framework_error unavailable 503 (bytes_of "client_closed")
      (bytes_of "client runtime is draining or closed")

abbrev pub serialization_panic : Error
serialization_panic =
    framework_error internal 500 (bytes_of "serialization_panic")
      (bytes_of "failed to serialize invocation arguments")

abbrev pub result_mismatch : Bytes
result_mismatch = bytes_of "invocation result does not match the generated return type"

-- The error of a result that does not decode: a fault of the peer if the result is the peer's.
unfoldable pub invalid_result : Bytes → Bool → Error
unfolding from_remote_parts
invalid_result request_id true = from_remote_parts (record {
  kind = ErrorKind.framework;
  category = data_loss;
  code = bytes_of "invalid_result";
  message = result_mismatch;
  status = 502;
  request_id = request_id;
  retry_hint = RetryHint.never;
})
invalid_result request_id false =
    framework_error data_loss 502 (bytes_of "invalid_result") result_mismatch

-- What decoding a result comes to.
pub data Decoding (T : Type 0) : Type 0 where
  value : T → Decoding T
  mismatched decode_panicked : Decoding T

-- The permits of one invocation: those in the terminal and in the response, and the breakers.
pub record Permits (S V P Q : Type 0) : Type 0 where
  pub world : World S
  pub services : V
  pub endpoint_permit : Option P
  pub service_permit : Option Q

module _ {S V P Q : Type 0} where
  unfoldable pub complete_endpoint : Option P → (P → S → S) → Permits S V P Q → Permits S V P Q
  complete_endpoint none f permits = permits
  complete_endpoint (some p) f permits = record permits {
    world = record (permits.world) { breakers = f p permits.world.breakers };
    endpoint_permit = none;
  }

  unfoldable pub complete_service : Option Q → (Q → V → V) → Permits S V P Q → Permits S V P Q
  complete_service none f permits = permits
  complete_service (some q) f permits = record permits {
    services = f q permits.services;
    service_permit = none;
  }

  -- An invocation that holds no permit.
  abbrev pub no_permits : World S → V → Permits S V P Q
  no_permits world services = record {
    world = world;
    services = services;
    endpoint_permit = none;
    service_permit = none;
  }

  abbrev pub settle_service : (V → V) → Permits S V P Q → Permits S V P Q
  settle_service f permits = record permits { services = f permits.services }

module _ {S V P Q : Type 0} (endpoints : Breakers S P) where
  -- `succeed_endpoint_breaker`, and `succeed` of an endpoint's permit that was taken.
  unfoldable pub succeed_endpoint : Permits S V P Q → Permits S V P Q
  unfolding complete_endpoint
  succeed_endpoint permits =
      complete_endpoint permits.endpoint_permit (λ p. endpoints.complete p success) permits

  unfoldable pub fail_endpoint : FailureClass → Permits S V P Q → Permits S V P Q
  unfolding complete_endpoint
  fail_endpoint f permits =
      complete_endpoint permits.endpoint_permit (λ p. endpoints.complete p (failure f)) permits

  -- The permit of the endpoint is kept for the result only if the response tracks it.
  abbrev pub endpoint_taken : Bool → Permits S V P Q → Permits S V P Q
  endpoint_taken true permits = permits
  endpoint_taken false permits = succeed_endpoint permits

module _ {S V P Q : Type 0} (service : Breakers V Q) where
  unfoldable pub succeed_service : Permits S V P Q → Permits S V P Q
  unfolding complete_service
  succeed_service permits =
      complete_service permits.service_permit (λ q. service.complete q success) permits

  unfoldable pub fail_service : FailureClass → Permits S V P Q → Permits S V P Q
  unfolding complete_service
  fail_service f permits =
      complete_service permits.service_permit (λ q. service.complete q (failure f)) permits

  -- What happens to the service's permit when the response that holds it is dropped.
  unfoldable pub drop_service : Permits S V P Q → Permits S V P Q
  unfolding complete_service
  drop_service permits =
      complete_service permits.service_permit (λ q. service.complete q abandoned) permits

  -- `take_service_breaker`: without the response that holds it, the permit is dropped.
  abbrev pub service_taken : Bool → Permits S V P Q → Permits S V P Q
  service_taken true permits = permits
  service_taken false permits = drop_service permits
