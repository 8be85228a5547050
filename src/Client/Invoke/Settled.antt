-- ===== src/Client/Invoke/Settled.antt =====
-- An invocation of fusen/src/client/invocation.rs leaves no permit behind.
use fusen_rs.Client.Attempts.{Interception, short_circuit, around}
use fusen_rs.Client.Execute.{Settings, World}
use fusen_rs.Client.Execute.Loop.{execute_attempts}
use fusen_rs.Client.Execute.Permits.{Kept, execute_attempts-in_flight}
use fusen_rs.Client.Invoke.{Permits, no_permits}
use fusen_rs.Client.Invoke.Calls.{
  Outside, execute_end, execute, on_service_permit, intercept_call, finish_call, on_transport,
  on_encoded, run_call, report, reported, invoke,
}
use fusen_rs.Client.Invoke.Executed.{execute_end-Balanced}
use fusen_rs.Client.Invoke.Balance.{Elsewhere, Balanced, Settled, finish_call-Settled}
use fusen_rs.Client.Response.{Response}
use fusen_rs.Client.Select.{circuit_open, Breakers, Caught, returned, failed, panicked}
use fusen_rs.Client.Select.Permits.{Counted, granted}
use fusen_rs.Errors.{Error}
use fusen_rs.Prelude.{
  ℕ, ◌+◌, ◌≡◌, refl, ◌∙◌, subst, arith, inl, inr, Bool, true, false, Option, none, some, Result,
  err, Bool-cases, Option-cases,
}
use fusen_rs.Prelude.Bytes.{Bytes}

-- What other tasks do keeps the permits of this invocation.
pub record OthersKeep {W S V P Q B T : Type 0} (c : Elsewhere S V P Q) (outside : Outside W S V B T)
    : Type 0 where
  pub rounds : (n : ℕ) → Kept c.endpoints_in_flight (outside.rounds n)
  pub before : (v : V) → c.services_in_flight (outside.before v) ≡ c.services_in_flight v
  pub meanwhile : (v : V) → c.services_in_flight (outside.meanwhile v) ≡ c.services_in_flight v

module _ {W S V P Q B T : Type 0} {endpoints : Breakers S P} {service : Breakers V Q}
    (c : Elsewhere S V P Q) (ce : Counted endpoints c.endpoint_weight c.endpoints_in_flight)
    (cs : Counted service c.service_weight c.services_in_flight) (settings : Settings)
    (weight_eq : W → W → Bool) (outside : Outside W S V B T) (others : OthersKeep c outside) where
  on_service_permit-Balanced :
      (world : World S) (services : V) (permit : Option Q)
      (out : Permits S V P Q × Result (Response B) Error)
      → c.endpoints_in_flight world.breakers ≡ c.endpoints
      → c.services_in_flight services ≡ c.services + granted c.service_weight permit
      → on_service_permit endpoints service settings weight_eq outside world (services, permit)
        ≡ some out
      → Balanced c out.0
  on_service_permit-Balanced world services none out he hs h =
      let same : (no_permits world services, err circuit_open) ≡ out = cc in
      subst (λ o. Balanced c o.0) same (record { endpoint = omega (arith, he); service = hs })
  on_service_permit-Balanced world services (some q) out he hs h =
      elim (Option-cases (execute_attempts endpoints settings weight_eq outside.rounds world)) [
        | inl e ↦ absurd (cc (rw (on_service_permit, e) at h))
        | inr ((after, outcome), e) ↦
            let same : execute_end endpoints service q outcome
                  (no_permits after (outside.meanwhile services))
                ≡ out =
              cc (rw (on_service_permit, e) at h) in
            subst (λ o. Balanced c o.0) same
              (execute_end-Balanced c ce cs q outcome after (outside.meanwhile services)
                (execute_attempts-in_flight ce settings weight_eq outside.rounds others.rounds world
                    (after, outcome) e
                  ∙ omega (arith, he))
                (omega (arith, hs, others.meanwhile services)))
      ]

  -- A call that starts with no permit.
  abbrev Starts : World S → V → Type 0
  Starts world services =
      (c.endpoints_in_flight world.breakers ≡ c.endpoints)
      × (c.services_in_flight services ≡ c.services)

  execute-Balanced :
      (world : World S) (services : V) (out : Permits S V P Q × Result (Response B) Error)
      → Starts world services
      → execute endpoints service settings weight_eq outside world services ≡ some out
      → Balanced c out.0
  unfolding execute
  execute-Balanced world services out start h =
      let tried = service.try_acquire outside.service_key (outside.before services) in
      on_service_permit-Balanced world tried.0 tried.1 out start.0
        (omega (
          arith,
          start.1,
          cs.acquired outside.service_key (outside.before services),
          others.before services,
        ))
        h

  intercept_call-Balanced :
      (i : Interception (Response B)) (world : World S) (services : V)
      (out : Permits S V P Q × Result (Response B) Error)
      → Starts world services
      → intercept_call endpoints service settings weight_eq i outside world services ≡ some out
      → Balanced c out.0
  unfolding intercept_call
  intercept_call-Balanced (short_circuit r) world services out start h =
      let same : (no_permits world services, r) ≡ out = cc in
      subst (λ o. Balanced c o.0) same
        (record { endpoint = omega (arith, start.0); service = omega (arith, start.1) })
  intercept_call-Balanced (around f) world services out start h =
      elim (Option-cases (execute endpoints service settings weight_eq outside world services)) [
        | inl e ↦ absurd (cc (rw (intercept_call, e) at h))
        | inr ((permits, r), e) ↦
            let same : (permits, f (some r)) ≡ out = cc (rw (intercept_call, e) at h) in
            subst (λ o. Balanced c o.0) same (execute-Balanced world services (permits, r) start e)
      ]

  none_taken :
      (world : World S) (services : V) (r : Result (Response T) Error)
      (out : Permits S V P Q × Result (Response T) Error)
      → Starts world services
      → some (no_permits world services, r) ≡ some out
      → Settled c ce cs out.0
  none_taken world services r out start h =
      let same : (no_permits world services, r) ≡ out = cc in
      subst (λ o. Settled c ce cs o.0) same start

  on_transport-Settled :
      (b : Bool) (world : World S) (services : V)
      (out : Permits S V P Q × Result (Response T) Error)
      → Starts world services
      → on_transport endpoints service settings weight_eq b outside world services ≡ some out
      → Settled c ce cs out.0
  on_transport-Settled false world services out start h = none_taken world services _ out start h
  on_transport-Settled true world services out start h =
      let call =
        intercept_call endpoints service settings weight_eq outside.interception outside world
          services in
      elim (Option-cases call) [
        | inl e ↦ absurd (cc (rw (on_transport, e) at h))
        | inr ((permits, r), e) ↦
            let same : finish_call endpoints service outside.request_id outside.decode permits r
                ≡ out =
              cc (rw (on_transport, e) at h) in
            subst (λ o. Settled c ce cs o.0) same
              (finish_call-Settled c ce cs outside.request_id outside.decode permits r
                (intercept_call-Balanced outside.interception world services (permits, r) start e))
      ]

  on_encoded-Settled :
      (encoded : Caught Bytes) (world : World S) (services : V)
      (out : Permits S V P Q × Result (Response T) Error)
      → Starts world services
      → on_encoded endpoints service settings weight_eq encoded outside world services ≡ some out
      → Settled c ce cs out.0
  on_encoded-Settled panicked world services out start h = none_taken world services _ out start h
  on_encoded-Settled (failed e) world services out start h = none_taken world services _ out start h
  on_encoded-Settled (returned arguments) world services out start h =
      on_transport-Settled outside.transport_open world services out start h

  report-Settled :
      (id : Bytes) (r : Option (Permits S V P Q × Result (Response T) Error))
      (out : Permits S V P Q × Result (Response T) Error)
      → report id r ≡ some out
      → ((o : Permits S V P Q × Result (Response T) Error) → r ≡ some o → Settled c ce cs o.0)
      → Settled c ce cs out.0
  report-Settled id none out h settled = absurd (cc)
  report-Settled id (some (permits, result)) out h settled =
      let same : (permits, reported id permits.world.attempts_started result) ≡ out = cc in
      subst (λ o. Settled c ce cs o.0) same (settled (permits, result) refl)

  pub invoke-Settled :
      (world : World S) (services : V) (out : Permits S V P Q × Result (Response T) Error)
      → c.endpoints_in_flight world.breakers ≡ c.endpoints
      → c.services_in_flight services ≡ c.services
      → invoke endpoints service settings weight_eq outside world services ≡ some out
      → (c.endpoints_in_flight out.0.world.breakers ≡ c.endpoints)
        × (c.services_in_flight out.0.services ≡ c.services)
  unfolding invoke run_call
  invoke-Settled world services out he hs h =
      let start = record world { attempts_started = 0 } in
      elim (Option-cases outside.method_missing) [
        | inr (e, q) ↦ none_taken start services _ out (he, hs) (rw (invoke, q) at h)
        | inl m ↦ elim (Bool-cases outside.running) [
          | inr stopped ↦ none_taken start services _ out (he, hs) (rw (invoke, m, stopped) at h)
          | inl running ↦ elim (Option-cases outside.admission_error) [
            | inr (e, q) ↦
                none_taken start services _ out (he, hs) (rw (invoke, m, running, q) at h)
            | inl a ↦
                report-Settled outside.request_id
                  (on_encoded endpoints service settings weight_eq outside.encoded outside start
                    services)
                  out (rw (invoke, m, running, a) at h)
                  (λ o eq. on_encoded-Settled outside.encoded start services o (he, hs) eq)
          ]
        ]
      ]
