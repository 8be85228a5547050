-- ===== src/Client/Invoke/Ends.antt =====
-- Every invocation of fusen/src/client/invocation.rs ends, with no permit left behind.
use fusen_rs.Client.Attempts.{Interception, short_circuit, around}
use fusen_rs.Client.Execute.{Settings, World}
use fusen_rs.Client.Invoke.{Permits}
use fusen_rs.Client.Invoke.Calls.{
  Outside, execute, on_service_permit, intercept_call, on_transport, on_encoded, run_call, report,
  invoke,
}
use fusen_rs.Client.Invoke.Settled.{OthersKeep, invoke-Settled}
use fusen_rs.Client.Execute.Bounds.{execute_attempts_ends}
use fusen_rs.Client.Invoke.Balance.{Elsewhere}
use fusen_rs.Client.Response.{Response}
use fusen_rs.Client.Select.{Breakers, Caught, returned, failed, panicked}
use fusen_rs.Client.Select.Circuits.{BreakerPermit}
use fusen_rs.Client.Select.Outstanding.{is_permit, out_count}
use fusen_rs.Client.Select.Tracked.{Tracked, tracked, tracked-Counted, IsSound}
use fusen_rs.Resilience.Breaker.{BreakerConfig}
use fusen_rs.Errors.{Error}
use fusen_rs.Prelude.{
  Float64, ◌≡◌, ◌≢◌, refl, inl, inr, Bool, true, false, Option, none, some, Result, Bool-cases,
  Option-cases,
}
use fusen_rs.Prelude.Bytes.{Bytes}

module _ {W S V P Q B T : Type 0} (endpoints : Breakers S P) (service : Breakers V Q)
    (settings : Settings) (weight_eq : W → W → Bool) (outside : Outside W S V B T) where
  on_service_permit_ends :
      (world : World S) (services : V) (permit : Option Q)
      → world.attempts_started ≡ 0
      → on_service_permit {T = T} endpoints service settings weight_eq outside world
          (services, permit)
        ≢ none
  on_service_permit_ends world services none h bad = cc
  on_service_permit_ends world services (some q) h bad =
      let (out, ends, bound) =
        execute_attempts_ends endpoints settings weight_eq outside.rounds world h in
      cc (rw (on_service_permit, ends) at bad)

  intercept_call_ends :
      (i : Interception (Response B)) (world : World S) (services : V)
      → world.attempts_started ≡ 0
      → intercept_call endpoints service settings weight_eq i outside world services ≢ none
  unfolding intercept_call execute
  intercept_call_ends (short_circuit r) world services h bad = cc
  intercept_call_ends (around f) world services h bad =
      let tried = service.try_acquire outside.service_key (outside.before services) in
      elim (Option-cases (execute endpoints service settings weight_eq outside world services)) [
        | inl e ↦ on_service_permit_ends world tried.0 tried.1 h e
        | inr (out, e) ↦ cc (rw (intercept_call, e) at bad)
      ]

  on_transport_ends :
      (b : Bool) (world : World S) (services : V)
      → world.attempts_started ≡ 0
      → on_transport endpoints service settings weight_eq b outside world services ≢ none
  on_transport_ends false world services h bad = cc
  on_transport_ends true world services h bad =
      elim (Option-cases (
        intercept_call endpoints service settings weight_eq outside.interception outside world
          services)) [
            | inl e ↦ intercept_call_ends outside.interception world services h e
            | inr (out, e) ↦ cc (rw (on_transport, e) at bad)
          ]

  on_encoded_ends :
      (encoded : Caught Bytes) (world : World S) (services : V)
      → world.attempts_started ≡ 0
      → on_encoded endpoints service settings weight_eq encoded outside world services ≢ none
  on_encoded_ends panicked world services h bad = cc
  on_encoded_ends (failed e) world services h bad = cc
  on_encoded_ends (returned a) world services h bad =
      on_transport_ends outside.transport_open world services h bad

  report_ends :
      (id : Bytes) (r : Option (Permits S V P Q × Result (Response T) Error))
      → r ≢ none
      → report id r ≢ none
  report_ends id none h bad = h refl
  report_ends id (some (permits, result)) h bad = cc

  invoke_ends :
      (world : World S) (services : V)
      → invoke endpoints service settings weight_eq outside world services ≢ none
  unfolding invoke run_call
  invoke_ends world services bad = elim (Option-cases outside.method_missing) [
    | inr (e, q) ↦ cc (rw (invoke, q) at bad)
    | inl m ↦ elim (Bool-cases outside.running) [
      | inr stopped ↦ cc (rw (invoke, m, stopped) at bad)
      | inl running ↦ elim (Option-cases outside.admission_error) [
        | inr (e, q) ↦ cc (rw (invoke, m, running, q) at bad)
        | inl a ↦
            let start = record world { attempts_started = 0 } in
            report_ends outside.request_id _ (on_encoded_ends outside.encoded start services refl)
              (rw (invoke, m, running, a) at bad)
      ]
    ]
  ]

-- A permit that is watched during an invocation, and how often it is out when the invocation starts.
abbrev watch :
    {F : Type 0} (fl : Float64 F) (endpoint_config service_config : BreakerConfig F)
    → Tracked fl endpoint_config
    → Tracked fl service_config
    → BreakerPermit
    → Elsewhere (Tracked fl endpoint_config) (Tracked fl service_config) BreakerPermit BreakerPermit
watch fl endpoint_config service_config before services x = record {
  endpoint_weight = is_permit x;
  service_weight = is_permit x;
  endpoints_in_flight = λ t. out_count x t.state;
  services_in_flight = λ t. out_count x t.state;
  endpoints = out_count x before.state;
  services = out_count x services.state;
}

module _ {F W B T : Type 0} (fl : Float64 F) (endpoint_config service_config : BreakerConfig F)
    (settings : Settings) (weight_eq : W → W → Bool)
    (outside : Outside W (Tracked fl endpoint_config) (Tracked fl service_config) B T)
    (world : World (Tracked fl endpoint_config)) (services : Tracked fl service_config) where
  -- An invocation over the circuit breakers ends, if it is not dropped. Then each permit is out as often as
  -- when it started: every permit that the invocation was given is finished, that of the service and those
  -- of all endpoints. And each half-open breaker counts in flight exactly the probes of its epoch that are
  -- out, unless 2^64 calls of the breakers have been made. This holds whatever the peer, the policies and
  -- the decoder of the result do, and the interceptors too, except that one of the call that enters the rest
  -- of the chain lets it run to its end. Other tasks keep the permits that are out.
  pub invoke_settles :
      ((x : BreakerPermit)
        → OthersKeep (watch fl endpoint_config service_config world.breakers services x) outside)
      → (out : Permits
            (Tracked fl endpoint_config)
            (Tracked fl service_config)
            BreakerPermit
            BreakerPermit
          × Result (Response T) Error)
        × (invoke
              (tracked fl endpoint_config)
              (tracked fl service_config)
              settings
              weight_eq
              outside
              world
              services
            ≡ some out)
        × ((x : BreakerPermit)
            → (out_count x out.0.world.breakers.state ≡ out_count x world.breakers.state)
              × (out_count x out.0.services.state ≡ out_count x services.state))
        × IsSound fl endpoint_config out.0.world.breakers.state
        × IsSound fl service_config out.0.services.state
  invoke_settles others =
      let call =
        invoke (tracked fl endpoint_config) (tracked fl service_config) settings weight_eq outside
          world services in
      elim (Option-cases call) [
        | inl e ↦ absurd (
            invoke_ends (tracked fl endpoint_config) (tracked fl service_config) settings weight_eq
              outside world services e)
        | inr (out, e) ↦ (
          out,
          e,
          (λ x.
              invoke-Settled (watch fl endpoint_config service_config world.breakers services x)
                (tracked-Counted fl endpoint_config x) (tracked-Counted fl service_config x)
                settings weight_eq outside (others x) world services out refl refl e),
          out.0.world.breakers.sound,
          out.0.services.sound,
        )
      ]
