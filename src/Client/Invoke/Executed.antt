-- ===== src/Client/Invoke/Executed.antt =====
-- `execute` of fusen/src/client/invocation.rs accounts for the permits that the attempts hand back.
use fusen_rs.Client.Execute.{World, AttemptSuccess}
use fusen_rs.Client.Execute.Permits.{held}
use fusen_rs.Client.Invoke.{no_permits, complete_endpoint}
use fusen_rs.Client.Invoke.Calls.{after_attempts, execute_end}
use fusen_rs.Client.Invoke.Balance.{Elsewhere, Balanced}
use fusen_rs.Client.Select.{Breakers}
use fusen_rs.Client.Select.Permits.{Counted, granted}
use fusen_rs.Errors.Classify.{ClassifiedError}
use fusen_rs.Resilience.Breaker.{failure, abandoned, unattempted}
use fusen_rs.Prelude.{
  ◌+◌, ◌≡◌, refl, arith, inl, inr, Option, none, some, ◌==◌, Result, ok, err, Bool-cases,
  Option-cases,
}

module _ {S V P Q : Type 0} {endpoints : Breakers S P} (c : Elsewhere S V P Q)
    (ce : Counted endpoints c.endpoint_weight c.endpoints_in_flight) where
  endpoint_dropped :
      (held : Option P) (world : World S) (services : V)
      → c.endpoints_in_flight world.breakers ≡ c.endpoints + granted c.endpoint_weight held
      → let after =
          complete_endpoint {Q = Q} held
            (λ p. endpoints.complete p abandoned)
            (no_permits world services) in
        (c.endpoints_in_flight after.world.breakers ≡ c.endpoints)
        × (after.endpoint_permit ≡ none)
        × (after.service_permit ≡ none)
        × (after.services ≡ services)
  unfolding complete_endpoint
  endpoint_dropped none world services h = (omega (arith, h), refl, refl, refl)
  endpoint_dropped (some p) world services h =
      (omega (arith, h, ce.completed p abandoned world.breakers), refl, refl, refl)

module _ {S V P Q B : Type 0} {endpoints : Breakers S P} {service : Breakers V Q}
    (c : Elsewhere S V P Q) (ce : Counted endpoints c.endpoint_weight c.endpoints_in_flight)
    (cs : Counted service c.service_weight c.services_in_flight) where
  after_attempts-Balanced :
      (q : Q) (won : AttemptSuccess B P) (world : World S) (services : V)
      → c.endpoints_in_flight world.breakers
        ≡ c.endpoints + granted c.endpoint_weight won.endpoint_breaker_permit
      → c.services_in_flight services ≡ c.services + c.service_weight q
      → Balanced c (after_attempts endpoints service q won (no_permits world services)).0
  unfolding after_attempts
  after_attempts-Balanced q won world services he hs =
      elim (Option-cases won.service_breaker_failure) [
        | inr (f, e) ↦
            let (settled, empty, none_q, same) =
              endpoint_dropped {Q = Q} c ce won.endpoint_breaker_permit world services he in
            rw (after_attempts, e)
              (record {
                endpoint = rw empty (omega (arith, settled));
                service =
                    rw (none_q, same) (omega (arith, hs, cs.completed q (failure f) services));
              })
        | inl e ↦ elim (Option-cases won.endpoint_breaker_permit) [
          | inr (p, some_p) ↦
              rw (after_attempts, e, some_p) (record { endpoint = rw some_p at he; service = hs })
          | inl no_permit ↦
              let counts : c.endpoints_in_flight world.breakers ≡ c.endpoints + 0 =
                rw no_permit at he in
              elim (Bool-cases (world.attempts_started == 0)) [
                | inl z ↦
                    rw (after_attempts, e, no_permit, z)
                      (record {
                        endpoint = counts;
                        service = omega (arith, hs, cs.completed q unattempted services);
                      })
                | inr z ↦
                    rw (after_attempts, e, no_permit, z)
                      (record {
                        endpoint = counts;
                        service = omega (arith, hs, cs.completed q abandoned services);
                      })
              ]
        ]
      ]

  pub execute_end-Balanced :
      (q : Q) (outcome : Result (AttemptSuccess B P) ClassifiedError) (world : World S)
      (services : V)
      → c.endpoints_in_flight world.breakers ≡ c.endpoints + held c.endpoint_weight outcome
      → c.services_in_flight services ≡ c.services + c.service_weight q
      → Balanced c (execute_end endpoints service q outcome (no_permits world services)).0
  unfolding execute_end
  execute_end-Balanced q (ok won) world services he hs =
      after_attempts-Balanced q won world services he hs
  execute_end-Balanced q (err classified) world services he hs =
      elim (Bool-cases (world.attempts_started == 0)) [
        | inl z ↦
            rw (execute_end, z)
              (record {
                endpoint = he;
                service = omega (arith, hs, cs.completed q unattempted services);
              })
        | inr z ↦
            rw (execute_end, z)
              (record {
                endpoint = he;
                service = omega (arith, hs, cs.completed q (failure classified.class) services);
              })
      ]
