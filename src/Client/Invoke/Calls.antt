-- ===== src/Client/Invoke/Calls.antt =====
-- `execute` and `invoke` of fusen/src/client/invocation.rs, from the guards to the end of the permits.
use fusen_rs.Client.Attempts.{Interception, short_circuit, around}
use fusen_rs.Client.Execute.{Settings, Round, World, AttemptSuccess}
use fusen_rs.Client.Execute.Loop.{execute_attempts}
use fusen_rs.Client.Invoke.{
  closed_invocation, serialization_panic, invalid_result, Decoding, complete_endpoint, no_permits,
  settle_service, service_taken, endpoint_taken, value, mismatched, decode_panicked, Permits,
  succeed_endpoint, fail_endpoint, succeed_service, fail_service, drop_service,
}
use fusen_rs.Client.Response.{
  Response, set_attempts, track_endpoint_breaker, hold_service_breaker, map_body,
}
use fusen_rs.Client.Select.{
  Breakers, release_unattempted, circuit_open, Caught, returned, failed, panicked,
}
use fusen_rs.Errors.{Error, with_attempts, with_request_id}
use fusen_rs.Errors.Classify.{ClassifiedError}
use fusen_rs.Resilience.Breaker.{failure, abandoned}
use fusen_rs.Resilience.Failure.{FailureClass}
use fusen_rs.Prelude.{
  ℕ, max, Bool, true, false, not, Option, none, some, ◌==◌, if◌then◌else◌, Result, ok, err,
}
use fusen_rs.Prelude.Bytes.{Bytes}

-- What an invocation meets outside its attempts. The cell of the response's permit starts empty.
pub record Outside (W S V B T : Type 0) : Type 0 where
  pub request_id : Bytes
  pub method_missing : Option Error
  pub running : Bool
  pub admission_error : Option Error
  pub encoded : Caught Bytes
  pub transport_open : Bool
  pub interception : Interception (Response B)
  pub service_key : Bytes
  pub before : V → V
  pub meanwhile : V → V
  pub rounds : ℕ → Round W S B
  pub decode : B → Decoding T

module _ {S V P Q B : Type 0} (endpoints : Breakers S P) (service : Breakers V Q) where
  -- `execute`, after attempts that brought a response. A permit that comes with a failure is dropped.
  unfoldable pub after_attempts :
      Q → AttemptSuccess B P → Permits S V P Q → Permits S V P Q × Response B
  unfolding track_endpoint_breaker hold_service_breaker complete_endpoint
  after_attempts q success permits = elim success.service_breaker_failure [
    | some f ↦ (
      settle_service (service.complete q (failure f)) (
          complete_endpoint success.endpoint_breaker_permit (λ p. endpoints.complete p abandoned)
            permits),
      success.response,
    )
    | none ↦ elim success.endpoint_breaker_permit [
      | some p ↦ (
        record permits { endpoint_permit = some p; service_permit = some q },
        hold_service_breaker (track_endpoint_breaker success.response),
      )
      | none ↦
          if permits.world.attempts_started == 0
          then (settle_service (release_unattempted service q) permits, success.response)
          else (settle_service (service.complete q abandoned) permits, success.response)
    ]
  ]

  -- The end of `execute`.
  unfoldable pub execute_end :
      Q
      → Result (AttemptSuccess B P) ClassifiedError
      → Permits S V P Q
      → Permits S V P Q × Result (Response B) Error
  unfolding after_attempts
  execute_end q (ok success) permits =
      let (after, response) = after_attempts q success permits in (after, ok response)
  execute_end q (err classified) permits =
      if permits.world.attempts_started == 0
      then (settle_service (release_unattempted service q) permits, err classified.error)
      else (
        settle_service (service.complete q (failure classified.class)) permits,
        err classified.error,
      )

module _ {W S V P Q B T : Type 0} (endpoints : Breakers S P) (service : Breakers V Q)
    (settings : Settings) (weight_eq : W → W → Bool) where
  abbrev pub on_service_permit :
      Outside W S V B T
      → World S
      → V × Option Q
      → Option (Permits S V P Q × Result (Response B) Error)
  on_service_permit outside world (services, none) =
      some (no_permits world services, err circuit_open)
  on_service_permit outside world (services, some q) =
      elim (execute_attempts endpoints settings weight_eq outside.rounds world) [
        | none ↦ none
        | some (after, outcome) ↦ some (
            execute_end endpoints service q outcome (no_permits after (outside.meanwhile services)))
      ]

  unfoldable pub execute :
      Outside W S V B T → World S → V → Option (Permits S V P Q × Result (Response B) Error)
  unfolding execute_attempts execute_end
  execute outside world services =
      on_service_permit outside world
        (service.try_acquire outside.service_key (outside.before services))

  -- The interceptors of the call: they answer themselves, or let the rest of the chain run to its end. That
  -- they drop it at an await is left out.
  unfoldable pub intercept_call :
      Interception (Response B)
      → Outside W S V B T
      → World S
      → V
      → Option (Permits S V P Q × Result (Response B) Error)
  unfolding execute
  intercept_call (short_circuit result) outside world services =
      some (no_permits world services, result)
  intercept_call (around f) outside world services = elim (execute outside world services) [
    | none ↦ none
    | some (permits, result) ↦ some (permits, f (some result))
  ]

module _ {S V P Q T : Type 0} (endpoints : Breakers S P) (service : Breakers V Q) where
  -- `finish_result_failure`: only a result of the peer counts against the breakers.
  unfoldable pub finish_result_failure :
      Bool → ℕ → Error → Permits S V P Q → Permits S V P Q × Result (Response T) Error
  unfolding fail_service fail_endpoint succeed_service succeed_endpoint with_attempts
  finish_result_failure true attempts e permits = (
    fail_service service FailureClass.protocol
        (fail_endpoint endpoints FailureClass.protocol permits),
    err (with_attempts attempts e),
  )
  finish_result_failure false attempts e permits =
      (succeed_service service (succeed_endpoint endpoints permits), err (with_attempts attempts e))

module _ {S V P Q B T : Type 0} (endpoints : Breakers S P) (service : Breakers V Q) where
  abbrev pub on_decoded :
      Bytes
      → Response B
      → Decoding T
      → Permits S V P Q
      → Permits S V P Q × Result (Response T) Error
  on_decoded request_id response (value v) permits = (
    succeed_service service (succeed_endpoint endpoints permits),
    ok (map_body (λ body. v) response),
  )
  on_decoded request_id response mismatched permits =
      finish_result_failure endpoints service response.wire_origin response.attempts
        (invalid_result request_id response.wire_origin) permits
  on_decoded request_id response decode_panicked permits =
      finish_result_failure endpoints service response.wire_origin response.attempts
        (invalid_result request_id response.wire_origin) permits

  -- What `invoke` does with what the interceptors return.
  unfoldable pub finish_call :
      Bytes
      → (B → Decoding T)
      → Permits S V P Q
      → Result (Response B) Error
      → Permits S V P Q × Result (Response T) Error
  unfolding succeed_endpoint drop_service finish_result_failure map_body set_attempts invalid_result
  finish_call request_id decode permits (err e) =
      (succeed_endpoint endpoints (drop_service service permits), err e)
  finish_call request_id decode permits (ok response) =
      let counted = set_attempts (max response.attempts permits.world.attempts_started) response in
      on_decoded request_id counted (decode counted.body) (
        endpoint_taken endpoints counted.tracks_endpoint_breaker
          (service_taken service counted.holds_service_breaker permits))

-- An error of an invocation carries its attempts and its request.
abbrev pub reported :
    {T : Type 0} → Bytes → ℕ → Result (Response T) Error → Result (Response T) Error
reported request_id started (ok response) = ok response
reported request_id started (err e) =
    err (with_request_id request_id (with_attempts (max e.attempts started) e))

abbrev pub report :
    {S V P Q T : Type 0}
    → Bytes
    → Option (Permits S V P Q × Result (Response T) Error)
    → Option (Permits S V P Q × Result (Response T) Error)
report request_id none = none
report request_id (some (permits, result)) =
    some (permits, reported request_id permits.world.attempts_started result)

module _ {W S V P Q B T : Type 0} (endpoints : Breakers S P) (service : Breakers V Q)
    (settings : Settings) (weight_eq : W → W → Bool) where
  -- The call over the transport of the runtime, if it is open.
  abbrev pub on_transport :
      Bool → Outside W S V B T → World S → V → Option (Permits S V P Q × Result (Response T) Error)
  on_transport false outside world services =
      some (no_permits world services, err closed_invocation)
  on_transport true outside world services =
      elim (intercept_call endpoints service settings weight_eq outside.interception outside world
        services) [
          | none ↦ none
          | some (permits, result) ↦
              some (finish_call endpoints service outside.request_id outside.decode permits result)
        ]

  abbrev pub on_encoded :
      Caught Bytes
      → Outside W S V B T
      → World S
      → V
      → Option (Permits S V P Q × Result (Response T) Error)
  on_encoded panicked outside world services =
      some (no_permits world services, err serialization_panic)
  on_encoded (failed e) outside world services = some (no_permits world services, err e)
  on_encoded (returned arguments) outside world services =
      on_transport outside.transport_open outside world services

  -- The invocation that `invoke` runs once it is admitted.
  unfoldable pub run_call :
      Outside W S V B T → World S → V → Option (Permits S V P Q × Result (Response T) Error)
  unfolding intercept_call finish_call
  run_call outside world services = on_encoded outside.encoded outside world services

  -- `invoke`; the counter of attempts starts at zero.
  unfoldable pub invoke :
      Outside W S V B T → World S → V → Option (Permits S V P Q × Result (Response T) Error)
  unfolding run_call with_request_id with_attempts
  invoke outside world services =
      let start = record world { attempts_started = 0 } in
      elim outside.method_missing [
        | some e ↦ some (no_permits start services, err e)
        | none ↦
            if not outside.running
            then some (
              no_permits start services,
              err (with_request_id outside.request_id closed_invocation),
            )
            else elim outside.admission_error [
              | some e ↦
                  some (no_permits start services, err (with_request_id outside.request_id e))
              | none ↦ report outside.request_id (run_call outside start services)
            ]
      ]
