-- ===== src/Client/Execute/Loop.antt =====
-- `execute_attempts` of fusen/src/client/invocation.rs: an attempt, and the loop over them.
use fusen_rs.Client.Attempts.{Intercepted, intercepted, cancelled_error, retry_policy_panic}
use fusen_rs.Client.Execute.{
  Settings, Round, World, AttemptSuccess, RoundEnd, permit_outcome, hint_of, retry_delay,
  caught_decision,
}
use fusen_rs.Client.Response.{Response, set_attempts}
use fusen_rs.Client.Select.{
  Breakers, Selection, SelectedEndpoint, select_endpoint, release_unattempted, url_of,
}
use fusen_rs.Errors.{Error, with_attempts}
use fusen_rs.Errors.Classify.{ClassifiedError, classify, classify_error}
use fusen_rs.Resilience.Breaker.{failure, unwrap_or}
use fusen_rs.Resilience.Retry.{RetryDecision, new_context, hard_max_attempts, retry, stop}
use fusen_rs.Prelude.{
  ℕ, zero, suc, ◌+◌, min, Bool, true, false, Option, none, some, List, [], ◌∷◌, leb, if◌then◌else◌,
  Result, ok, err,
}
use fusen_rs.Prelude.Bytes.{Bytes}

-- What is done about a decision; `none` goes on to the next attempt.
abbrev pub after_decision :
    Option RetryDecision → Bool → ℕ → ClassifiedError → Option ClassifiedError
after_decision none cancelled started failed =
    some (record { error = with_attempts started retry_policy_panic; class = failed.class })
after_decision (some stop) cancelled started failed = some failed
after_decision (some retry) true started failed =
    some (classify (with_attempts started cancelled_error))
after_decision (some retry) false started failed = none

module _ {W S B : Type 0} (settings : Settings) where
  -- The rest of the loop's body after a failed attempt.
  unfoldable pub after_failure :
      Round W S B → ℕ → World S → Option ℕ → ClassifiedError → World S × Option ClassifiedError
  unfolding retry_delay caught_decision new_context
  after_failure round attempt world hint failed =
      if leb round.remaining (retry_delay round.sample settings attempt hint)
      then (world, some failed)
      else let (budget, decision) =
          caught_decision round.policy
            (new_context attempt settings.max_attempts settings.allows_retries failed.class
              round.remaining)
            (round.budget world.budget) round.now in
        (
          record world { budget = budget },
          after_decision decision round.force_cancelled world.attempts_started failed,
        )

module _ {S B P : Type 0} (breakers : Breakers S P) where
  -- An attempt that succeeded, or was answered by an interceptor.
  unfoldable pub succeeded :
      ℕ → P → Intercepted (Response B) → World S → Response B → World S × AttemptSuccess B P
  unfolding set_attempts
  succeeded attempt permit run world response =
      let answer = set_attempts run.attempts_started response in
      elim run.observation.failure [
        | some f ↦ (
          record world { breakers = breakers.complete permit (failure f) world.breakers },
          record {
            response = answer;
            endpoint_breaker_permit = none;
            service_breaker_failure = some f;
          },
        )
        | none ↦
            if leb attempt run.attempts_started
            then (
              world,
              record {
                response = answer;
                endpoint_breaker_permit = some permit;
                service_breaker_failure = none;
              },
            )
            else (
              record world { breakers = release_unattempted breakers permit world.breakers },
              record {
                response = answer;
                endpoint_breaker_permit = none;
                service_breaker_failure = none;
              },
            )
      ]

abbrev pub failed_as :
    {S B P : Type 0} → List Bytes → World S × Option ClassifiedError → RoundEnd S B P
failed_as attempted (world, none) = record { world = world; attempted = attempted; outcome = none }
failed_as attempted (world, some e) = record {
  world = world;
  attempted = attempted;
  outcome = some (err e);
}

module _ {W S B P : Type 0} (breakers : Breakers S P) (settings : Settings) where
  -- The end of an attempt, on what its interceptors return.
  unfoldable pub finish :
      Round W S B
      → ℕ
      → List Bytes
      → P
      → Intercepted (Response B)
      → Result (Response B) Error
      → World S
      → RoundEnd S B P
  unfolding succeeded after_failure permit_outcome hint_of with_attempts classify_error
  finish round attempt attempted permit run (ok response) world =
      let (after, success) = succeeded breakers attempt permit run world response in
      record { world = after; attempted = attempted; outcome = some (ok success) }
  finish round attempt attempted permit run (err e) world =
      let outcome = permit_outcome attempt run.attempts_started run.observation in
      let settled = record world { breakers = breakers.complete permit outcome world.breakers } in
      let class = unwrap_or run.observation.failure (classify_error e) in
      failed_as attempted (
        after_failure settings round attempt settled (hint_of run.observation e)
          (record { error = with_attempts run.attempts_started e; class = class }))

  -- The attempt on a selected endpoint.
  unfoldable pub attempt_on :
      Round W S B → ℕ → List Bytes → World S → SelectedEndpoint W P → RoundEnd S B P
  unfolding intercepted finish
  attempt_on round attempt attempted world selected =
      let run = intercepted round.interception attempt world.attempts_started round.exchange in
      finish round attempt (url_of selected.instance_ ∷ attempted) selected.breaker_permit run
        run.result
        (record world {
          breakers = round.meanwhile world.breakers;
          attempts_started = run.attempts_started;
        })

  abbrev pub on_selection :
      Round W S B → ℕ → List Bytes → World S → Selection W S P → RoundEnd S B P
  on_selection round attempt attempted world selection =
      let after = record world { breakers = selection.state } in
      elim selection.result [
        | err e ↦ record { world = after; attempted = attempted; outcome = some (err (classify e)) }
        | ok selected ↦ attempt_on round attempt attempted after selected
      ]

  -- One round of the loop.
  unfoldable pub attempt_round :
      (W → W → Bool) → Round W S B → ℕ → List Bytes → World S → RoundEnd S B P
  unfolding select_endpoint attempt_on classify
  attempt_round weight_eq round attempt attempted world =
      on_selection round attempt attempted world
        (select_endpoint weight_eq breakers round.client attempted (round.before world.breakers))

  -- The loop, on fuel; `rounds` says what each attempt meets.
  unfoldable pub attempt_loop :
      (W → W → Bool)
      → (ℕ → Round W S B)
      → ℕ
      → ℕ
      → List Bytes
      → World S
      → Option (World S × Result (AttemptSuccess B P) ClassifiedError)
  unfolding attempt_round
  attempt_loop weight_eq rounds zero attempt attempted world = none
  attempt_loop weight_eq rounds (suc fuel) attempt attempted world =
      let end = attempt_round weight_eq (rounds attempt) attempt attempted world in
      let rest =
        attempt_loop weight_eq rounds fuel (min (attempt + 1) 255) end.attempted end.world in
      elim end.outcome [ none ↦ rest | some outcome ↦ some (end.world, outcome) ]

  -- `execute_attempts`, with fuel for as many rounds as there may be attempts.
  unfoldable pub execute_attempts :
      (W → W → Bool)
      → (ℕ → Round W S B)
      → World S
      → Option (World S × Result (AttemptSuccess B P) ClassifiedError)
  unfolding attempt_loop
  execute_attempts weight_eq rounds world =
      attempt_loop weight_eq rounds hard_max_attempts 1 [] world
