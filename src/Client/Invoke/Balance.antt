-- ===== src/Client/Invoke/Balance.antt =====
-- The permits that an invocation of fusen/src/client/invocation.rs leaves behind.
use fusen_rs.Client.Invoke.{
  Decoding, value, mismatched, decode_panicked, Permits, service_taken, endpoint_taken,
  succeed_endpoint, fail_endpoint, succeed_service, fail_service, drop_service, complete_endpoint,
  complete_service,
}
use fusen_rs.Client.Invoke.Calls.{finish_result_failure, on_decoded, finish_call}
use fusen_rs.Client.Response.{Response, set_attempts}
use fusen_rs.Client.Select.{Breakers}
use fusen_rs.Client.Select.Permits.{Counted, granted}
use fusen_rs.Errors.{Error}
use fusen_rs.Resilience.Breaker.{PermitOutcome, success, failure, abandoned}
use fusen_rs.Resilience.Failure.{FailureClass}
use fusen_rs.Prelude.{
  ℕ, ◌+◌, ◌≡◌, refl, ◌∙◌, arith, max, Bool, true, false, Option, none, some, Result, ok, err,
}
use fusen_rs.Prelude.Bytes.{Bytes}

-- The weights of permits, how the breakers count them, and what they count besides the permits that the
-- invocation holds.
pub record Elsewhere (S V P Q : Type 0) : Type 0 where
  pub endpoint_weight : P → ℕ
  pub service_weight : Q → ℕ
  pub endpoints_in_flight : S → ℕ
  pub services_in_flight : V → ℕ
  pub endpoints : ℕ
  pub services : ℕ

module _ {S V P Q : Type 0} (c : Elsewhere S V P Q) where
  pub record Balanced (permits : Permits S V P Q) : Type 0 where
    pub endpoint :
        c.endpoints_in_flight permits.world.breakers
        ≡ c.endpoints + granted c.endpoint_weight permits.endpoint_permit
    pub service :
        c.services_in_flight permits.services
        ≡ c.services + granted c.service_weight permits.service_permit

  -- A step that leaves no permit of an endpoint, and keeps that of the service.
  pub record EndpointDone (before after : Permits S V P Q) : Type 0 where
    pub balanced : Balanced after
    pub emptied : after.endpoint_permit ≡ none
    pub kept : after.service_permit ≡ before.service_permit

  -- A step that leaves no permit of the service, and keeps that of the endpoint.
  record ServiceDone (before after : Permits S V P Q) : Type 0 where
    pub balanced : Balanced after
    pub emptied : after.service_permit ≡ none
    pub kept : after.endpoint_permit ≡ before.endpoint_permit

module _ {S V P Q : Type 0} {endpoints : Breakers S P} {service : Breakers V Q}
    (c : Elsewhere S V P Q) (ce : Counted endpoints c.endpoint_weight c.endpoints_in_flight)
    (cs : Counted service c.service_weight c.services_in_flight) where
  pub endpoint_done :
      (o : PermitOutcome) (permits : Permits S V P Q) (held : Option P)
      → permits.endpoint_permit ≡ held
      → Balanced c permits
      → EndpointDone c permits (complete_endpoint held (λ p. endpoints.complete p o) permits)
  unfolding complete_endpoint
  endpoint_done o permits none q b = record { balanced = b; emptied = q; kept = refl }
  endpoint_done o permits (some p) q b = record {
    balanced = record {
      endpoint = omega (arith, rw q at b.endpoint, ce.completed p o permits.world.breakers);
      service = b.service;
    };
    emptied = refl;
    kept = refl;
  }

  service_done :
      (o : PermitOutcome) (permits : Permits S V P Q) (held : Option Q)
      → permits.service_permit ≡ held
      → Balanced c permits
      → ServiceDone c permits (complete_service held (λ q. service.complete q o) permits)
  unfolding complete_service
  service_done o permits none q b = record { balanced = b; emptied = q; kept = refl }
  service_done o permits (some p) q b = record {
    balanced = record {
      service = omega (arith, rw q at b.service, cs.completed p o permits.services);
      endpoint = b.endpoint;
    };
    emptied = refl;
    kept = refl;
  }

  -- What holds of the breakers once an invocation has ended.
  abbrev pub Settled : Permits S V P Q → Type 0
  Settled permits =
      (c.endpoints_in_flight permits.world.breakers ≡ c.endpoints)
      × (c.services_in_flight permits.services ≡ c.services)

  -- The end of both permits, in either order.
  endpoint_then_service :
      (a b : PermitOutcome) (permits : Permits S V P Q)
      → Balanced c permits
      → let mid = complete_endpoint permits.endpoint_permit (λ p. endpoints.complete p a) permits in
        Settled (complete_service mid.service_permit (λ q. service.complete q b) mid)
  endpoint_then_service a b permits h =
      let first = endpoint_done a permits permits.endpoint_permit refl h in
      let mid = complete_endpoint permits.endpoint_permit (λ p. endpoints.complete p a) permits in
      let last = service_done b mid mid.service_permit refl first.balanced in
      let none_e = last.kept ∙ first.emptied in
      (
        omega (arith, rw none_e at last.balanced.endpoint),
        omega (arith, rw (last.emptied) at last.balanced.service),
      )

  service_then_endpoint :
      (a b : PermitOutcome) (permits : Permits S V P Q)
      → Balanced c permits
      → let mid = complete_service permits.service_permit (λ q. service.complete q a) permits in
        Settled (complete_endpoint mid.endpoint_permit (λ p. endpoints.complete p b) mid)
  service_then_endpoint a b permits h =
      let first = service_done a permits permits.service_permit refl h in
      let mid = complete_service permits.service_permit (λ q. service.complete q a) permits in
      let last = endpoint_done b mid mid.endpoint_permit refl first.balanced in
      let none_s = last.kept ∙ first.emptied in
      (
        omega (arith, rw (last.emptied) at last.balanced.endpoint),
        omega (arith, rw none_s at last.balanced.service),
      )

  service_taken-Balanced :
      (b : Bool) (permits : Permits S V P Q)
      → Balanced c permits
      → Balanced c (service_taken service b permits)
  unfolding drop_service
  service_taken-Balanced true permits h = h
  service_taken-Balanced false permits h =
      (service_done abandoned permits permits.service_permit refl h).balanced

  endpoint_taken-Balanced :
      (b : Bool) (permits : Permits S V P Q)
      → Balanced c permits
      → Balanced c (endpoint_taken endpoints b permits)
  unfolding succeed_endpoint
  endpoint_taken-Balanced true permits h = h
  endpoint_taken-Balanced false permits h =
      (endpoint_done success permits permits.endpoint_permit refl h).balanced

  finish_result_failure-Settled :
      (T : Type 0) (remote : Bool) (n : ℕ) (e : Error) (permits : Permits S V P Q)
      → Balanced c permits
      → Settled (finish_result_failure {T = T} endpoints service remote n e permits).0
  unfolding finish_result_failure fail_service fail_endpoint succeed_service succeed_endpoint
  finish_result_failure-Settled T true n e permits h =
      endpoint_then_service (failure FailureClass.protocol) (failure FailureClass.protocol) permits
        h
  finish_result_failure-Settled T false n e permits h =
      endpoint_then_service success success permits h

  on_decoded-Settled :
      {B T : Type 0} (id : Bytes) (r : Response B) (d : Decoding T) (permits : Permits S V P Q)
      → Balanced c permits
      → Settled (on_decoded endpoints service id r d permits).0
  unfolding succeed_service succeed_endpoint
  on_decoded-Settled id r (value v) permits h = endpoint_then_service success success permits h
  on_decoded-Settled id r mismatched permits h =
      finish_result_failure-Settled _ r.wire_origin r.attempts _ permits h
  on_decoded-Settled id r decode_panicked permits h =
      finish_result_failure-Settled _ r.wire_origin r.attempts _ permits h

  pub finish_call-Settled :
      {B T : Type 0} (id : Bytes) (decode : B → Decoding T) (permits : Permits S V P Q)
      (r : Result (Response B) Error)
      → Balanced c permits
      → Settled (finish_call endpoints service id decode permits r).0
  unfolding finish_call succeed_endpoint drop_service set_attempts
  finish_call-Settled id decode permits (err e) h =
      service_then_endpoint abandoned success permits h
  finish_call-Settled id decode permits (ok r) h =
      on_decoded-Settled id (set_attempts (max r.attempts permits.world.attempts_started) r)
        (decode r.body) _
        (endpoint_taken-Balanced r.tracks_endpoint_breaker _
          (service_taken-Balanced r.holds_service_breaker permits h))
