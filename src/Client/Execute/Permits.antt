-- ===== src/Client/Execute/Permits.antt =====
-- The permits of endpoints in `execute_attempts` of fusen/src/client/invocation.rs.
use fusen_rs.Client.Attempts.{Intercepted, intercepted}
use fusen_rs.Client.Execute.{Settings, Round, World, AttemptSuccess, permit_outcome}
use fusen_rs.Client.Execute.Loop.{
  succeeded, failed_as, finish, attempt_on, on_selection, attempt_round, attempt_loop,
  execute_attempts,
}
use fusen_rs.Client.Execute.Steps.{after_failure_keeps}
use fusen_rs.Client.Response.{Response}
use fusen_rs.Client.Select.{Breakers, SelectedEndpoint, select_endpoint, url_of}
use fusen_rs.Client.Select.Permits.{Counted, granted, handed_over, select_endpoint-in_flight}
use fusen_rs.Errors.{Error}
use fusen_rs.Errors.Classify.{ClassifiedError}
use fusen_rs.Resilience.Breaker.{failure, unattempted}
use fusen_rs.Resilience.Retry.{hard_max_attempts}
use fusen_rs.Prelude.{
  ℕ, zero, suc, ◌+◌, min, ◌≡◌, subst, ap, ◌∙◌, arith, inl, inr, Bool, Option, none, some, List, [],
  ◌∷◌, leb, Result, ok, err, Bool-cases, Option-cases,
}
use fusen_rs.Prelude.Bytes.{Bytes}

-- The weight of the permit of an endpoint that attempts hand back.
abbrev pub held : {B P : Type 0} → (P → ℕ) → Result (AttemptSuccess B P) ClassifiedError → ℕ
held weight (ok success) = granted weight success.endpoint_breaker_permit
held weight (err e) = 0

abbrev held_by : {B P : Type 0} → (P → ℕ) → Option (Result (AttemptSuccess B P) ClassifiedError) → ℕ
held_by weight none = 0
held_by weight (some outcome) = held weight outcome

failed_as-in_flight :
    {S : Type 0} (B P : Type 0) (weight : P → ℕ) (in_flight : S → ℕ) (attempted : List Bytes)
    (r : World S × Option ClassifiedError) (m : ℕ)
    → in_flight r.0.breakers ≡ m
    → let end = failed_as {B = B} {P = P} attempted r in
      in_flight end.world.breakers ≡ m + held_by weight end.outcome
failed_as-in_flight B P weight in_flight attempted (w, none) m h = omega (arith, h)
failed_as-in_flight B P weight in_flight attempted (w, some e) m h = omega (arith, h)

-- What other tasks do keeps the permits of this invocation.
pub record Kept {W S B : Type 0} (in_flight : S → ℕ) (round : Round W S B) : Type 0 where
  pub kept_before : (s : S) → in_flight (round.before s) ≡ in_flight s
  pub kept_meanwhile : (s : S) → in_flight (round.meanwhile s) ≡ in_flight s

module _ {S P : Type 0} {breakers : Breakers S P} {weight : P → ℕ} {in_flight : S → ℕ}
    (counted : Counted breakers weight in_flight) where
  succeeded-in_flight :
      {B : Type 0} (n : ℕ) (permit : P) (run : Intercepted (Response B)) (world : World S)
      (r : Response B) (m : ℕ)
      → in_flight world.breakers ≡ m + weight permit
      → let (after, success) = succeeded breakers n permit run world r in
        in_flight after.breakers ≡ m + granted weight success.endpoint_breaker_permit
  unfolding succeeded
  succeeded-in_flight n permit run world r m h = elim (Option-cases run.observation.failure) [
    | inr (f, e) ↦
        rw (succeeded, e) (omega (arith, counted.completed permit (failure f) world.breakers))
    | inl e ↦ elim (Bool-cases (leb n run.attempts_started)) [
      | inl y ↦ rw (succeeded, e, y) h
      | inr y ↦
          rw (succeeded, e, y) (omega (arith, counted.completed permit unattempted world.breakers))
    ]
  ]

module _ {W S B P : Type 0} {breakers : Breakers S P} {weight : P → ℕ} {in_flight : S → ℕ}
    (counted : Counted breakers weight in_flight) (settings : Settings) where
  finish-in_flight :
      (round : Round W S B) (n : ℕ) (attempted : List Bytes) (permit : P)
      (run : Intercepted (Response B)) (r : Result (Response B) Error) (world : World S) (m : ℕ)
      → in_flight world.breakers ≡ m + weight permit
      → let end = finish breakers settings round n attempted permit run r world in
        in_flight end.world.breakers ≡ m + held_by weight end.outcome
  unfolding finish
  finish-in_flight round n attempted permit run (ok response) world m h =
      succeeded-in_flight counted n permit run world response m h
  finish-in_flight round n attempted permit run (err e) world m h =
      let outcome = permit_outcome n run.attempts_started run.observation in
      failed_as-in_flight B P weight in_flight attempted _ m (
        ap in_flight (after_failure_keeps settings round n _ _ _).0
        ∙ omega (arith, h, counted.completed permit outcome world.breakers))

  on_selection-in_flight :
      (round : Round W S B) (n : ℕ) (attempted : List Bytes) (world : World S) (state : S)
      (r : Result (SelectedEndpoint W P) Error) (m : ℕ)
      → Kept in_flight round
      → in_flight state ≡ m + handed_over weight r
      → let end =
          on_selection breakers settings round n attempted world
            (record { state = state; result = r }) in
        in_flight end.world.breakers ≡ m + held_by weight end.outcome
  unfolding attempt_on
  on_selection-in_flight round n attempted world state (err e) m kept h = h
  on_selection-in_flight round n attempted world state (ok endpoint) m kept h =
      let counts : in_flight (round.meanwhile state) ≡ m + weight endpoint.breaker_permit =
        omega (arith, h, kept.kept_meanwhile state) in
      let run = intercepted round.interception n world.attempts_started round.exchange in
      finish-in_flight round n (url_of endpoint.instance_ ∷ attempted) endpoint.breaker_permit run
        run.result
        (record world { breakers = round.meanwhile state; attempts_started = run.attempts_started })
        m counts

  attempt_round-in_flight :
      (weight_eq : W → W → Bool) (round : Round W S B) (n : ℕ) (attempted : List Bytes)
      (world : World S)
      → Kept in_flight round
      → let end = attempt_round breakers settings weight_eq round n attempted world in
        in_flight end.world.breakers ≡ in_flight world.breakers + held_by weight end.outcome
  unfolding attempt_round
  attempt_round-in_flight weight_eq round n attempted world kept =
      let started = round.before world.breakers in
      let selection = select_endpoint weight_eq breakers round.client attempted started in
      on_selection-in_flight round n attempted world selection.state selection.result
        (in_flight world.breakers) kept
        (select_endpoint-in_flight counted weight_eq round.client attempted started
          ∙ omega (arith, kept.kept_before world.breakers))

module _ {W S B P : Type 0} {breakers : Breakers S P} {weight : P → ℕ} {in_flight : S → ℕ}
    (counted : Counted breakers weight in_flight) (settings : Settings) (weight_eq : W → W → Bool)
    (rounds : ℕ → Round W S B) (kept : (n : ℕ) → Kept in_flight (rounds n)) where
  loop-in_flight :
      (fuel n : ℕ) (attempted : List Bytes) (world : World S)
      (out : World S × Result (AttemptSuccess B P) ClassifiedError)
      → attempt_loop breakers settings weight_eq rounds fuel n attempted world ≡ some out
      → in_flight out.0.breakers ≡ in_flight world.breakers + held weight out.1
  unfolding attempt_loop
  loop-in_flight zero n attempted world out h = absurd (cc)
  loop-in_flight (suc fuel) n attempted world out h =
      let end = attempt_round breakers settings weight_eq (rounds n) n attempted world in
      let ran =
        attempt_round-in_flight counted settings weight_eq (rounds n) n attempted world (kept n) in
      elim (Option-cases end.outcome) [
        | inr (outcome, q) ↦
            let same : (end.world, outcome) ≡ out = cc (rw (attempt_loop, q) at h) in
            subst (λ o. in_flight o.0.breakers ≡ in_flight world.breakers + held weight o.1) same
              (rw q at ran)
        | inl q ↦
            let rest =
              loop-in_flight fuel (min (n + 1) 255) end.attempted end.world out
                (rw (attempt_loop, q) at h) in
            omega (arith, rest, rw q at ran)
      ]

  -- When the attempts end, the breakers of the endpoints count the permit that is handed back with a
  -- response and no other one of the invocation, for breakers whose count follows each permit and other
  -- tasks that keep the permits of this one.
  pub execute_attempts-in_flight :
      (world : World S) (out : World S × Result (AttemptSuccess B P) ClassifiedError)
      → execute_attempts breakers settings weight_eq rounds world ≡ some out
      → in_flight out.0.breakers ≡ in_flight world.breakers + held weight out.1
  unfolding execute_attempts
  execute_attempts-in_flight world out h = loop-in_flight hard_max_attempts 1 [] world out h
