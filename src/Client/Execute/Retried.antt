-- ===== src/Client/Execute/Retried.antt =====
-- When `execute_attempts` of fusen/src/client/invocation.rs goes on to another attempt.
use fusen_rs.Client.Attempts.{Intercepted, intercepted}
use fusen_rs.Client.Execute.{
  Settings, Round, World, hint_of, retry_delay, caught_decision, stops_early, decide,
}
use fusen_rs.Client.Execute.Loop.{
  after_decision, after_failure, failed_as, finish, attempt_on, on_selection, attempt_round,
}
use fusen_rs.Client.Response.{Response}
use fusen_rs.Client.Select.{Breakers, Selection, SelectedEndpoint, select_endpoint}
use fusen_rs.Errors.{Error}
use fusen_rs.Errors.Classify.{ClassifiedError, classify_error}
use fusen_rs.Resilience.Breaker.{unwrap_or}
use fusen_rs.Resilience.Retry.{
  RetryBudget, RetryDecision, RetryDecisionContext, new_context, decide_with_guards, refill,
  token_scale, retry, stop,
}
use fusen_rs.Resilience.Retry.Decision.{MayRetry, decide_with_guards-MayRetry}
use fusen_rs.Prelude.{
  ℕ, ◌<◌, ◌≤◌, ◌≡◌, refl, arith, inl, inr, Bool, true, false, Option, none, some, List, leb, Result,
  ok, err, Bool-cases, Option-cases,
}
use fusen_rs.Prelude.Bytes.{Bytes}

-- A retry that is decided on: the guards let it, the policy wants it, and a token pays for it.
pub record Agreed (policy : RetryDecisionContext → Option RetryDecision)
    (context : RetryDecisionContext) (budget : RetryBudget) (now : ℕ) : Type 0 where
  pub allowed : MayRetry context
  pub wanted : policy context ≡ some retry
  pub paid : token_scale ≤ (refill budget now).scaled_tokens

caught_decision-Agreed :
    (policy : RetryDecisionContext → Option RetryDecision) (context : RetryDecisionContext)
    (budget : RetryBudget) (now : ℕ)
    → (caught_decision policy context budget now).1 ≡ some retry
    → Agreed policy context budget now
unfolding caught_decision decide
caught_decision-Agreed policy context budget now h = elim (Bool-cases (stops_early context)) [
  | inl early ↦ absurd (cc (rw (caught_decision, early) at h))
  | inr late ↦ elim (Option-cases (policy context)) [
    | inl panic ↦ absurd (cc (rw (caught_decision, late, panic) at h))
    | inr (d, said) ↦
        let decided : (decide_with_guards (λ c. d) context budget now).1 ≡ retry =
          cc (rw (caught_decision, late, said, decide) at h) in
        let (allowed, wants, paid) =
          (decide_with_guards-MayRetry (λ c. d) context budget now).0 decided in
        record { allowed = allowed; wanted = cc; paid = paid }
  ]
]

after_decision-none :
    (d : Option RetryDecision) (cancelled : Bool) (n : ℕ) (failed : ClassifiedError)
    → after_decision d cancelled n failed ≡ none
    → (d ≡ some retry) × (cancelled ≡ false)
after_decision-none none cancelled n failed h = absurd (cc)
after_decision-none (some stop) cancelled n failed h = absurd (cc)
after_decision-none (some retry) true n failed h = absurd (cc)
after_decision-none (some retry) false n failed h = (refl, refl)

failed_as-none :
    {S B P : Type 0} (attempted : List Bytes) (w : World S) (o : Option ClassifiedError)
    → (failed_as {B = B} {P = P} attempted (w, o)).outcome ≡ none
    → o ≡ none
failed_as-none attempted w none h = refl
failed_as-none attempted w (some e) h = absurd (cc)

-- What holds where a failed attempt is followed by another one.
pub record Retried {W S B : Type 0} (settings : Settings) (round : Round W S B) (attempt : ℕ)
    (budget : RetryBudget) (run : Intercepted (Response B)) : Type 0 where
  pub error : Error
  pub failed : run.result ≡ err error
  pub in_time :
      retry_delay round.sample settings attempt (hint_of run.observation error) < round.remaining
  pub agreed :
      Agreed round.policy
        (new_context attempt settings.max_attempts settings.allows_retries
          (unwrap_or run.observation.failure (classify_error error))
          round.remaining)
        (round.budget budget)
        round.now
  pub uncancelled : round.force_cancelled ≡ false

module _ {W S B P : Type 0} (breakers : Breakers S P) (settings : Settings) where
  after_failure-none :
      (round : Round W S B) (attempt : ℕ) (world : World S) (hint : Option ℕ)
      (failed : ClassifiedError)
      → (after_failure settings round attempt world hint failed).1 ≡ none
      → (retry_delay round.sample settings attempt hint < round.remaining)
        × Agreed round.policy
            (new_context attempt settings.max_attempts settings.allows_retries failed.class
              round.remaining)
            (round.budget world.budget)
            round.now
        × (round.force_cancelled ≡ false)
  unfolding after_failure
  after_failure-none round attempt world hint failed h =
      elim (Bool-cases (leb round.remaining (retry_delay round.sample settings attempt hint))) [
        | inl late ↦ absurd (cc (rw (after_failure, late) at h))
        | inr early ↦
            let (decided, uncancelled) =
              after_decision-none _ _ _ _ (rw (after_failure, early) at h) in
            (ground arith, caught_decision-Agreed _ _ _ _ decided, uncancelled)
      ]

  finish-none :
      (round : Round W S B) (attempt : ℕ) (attempted : List Bytes) (permit : P)
      (run : Intercepted (Response B)) (r : Result (Response B) Error) (world : World S)
      → run.result ≡ r
      → (finish breakers settings round attempt attempted permit run r world).outcome ≡ none
      → Retried settings round attempt world.budget run
  unfolding finish
  finish-none round attempt attempted permit run (ok response) world e h = absurd (cc)
  finish-none round attempt attempted permit run (err failure) world e h =
      let (in_time, agreed, uncancelled) =
        after_failure-none round attempt _ _ _ (failed_as-none {B = B} {P = P} _ _ _ h) in
      record {
        error = failure;
        failed = e;
        in_time = in_time;
        agreed = agreed;
        uncancelled = uncancelled;
      }

  on_selection-none :
      (round : Round W S B) (attempt : ℕ) (attempted : List Bytes) (world : World S)
      (selection : Selection W S P) (r : Result (SelectedEndpoint W P) Error)
      → selection.result ≡ r
      → (on_selection breakers settings round attempt attempted world selection).outcome ≡ none
      → (endpoint : SelectedEndpoint W P) × (r ≡ ok endpoint)
        × Retried settings round attempt world.budget
            (intercepted round.interception attempt world.attempts_started round.exchange)
  unfolding attempt_on
  on_selection-none round attempt attempted world selection (err e) q h = absurd (cc (rw q at h))
  on_selection-none round attempt attempted world selection (ok endpoint) q h =
      (endpoint, refl, finish-none round attempt _ _ _ _ _ refl (rw q at h))

  -- Another attempt is made only after an endpoint was selected and its attempt failed, where the backoff
  -- and the peer's hint leave time, every guard of the retry context lets it, the policy asks for it, the
  -- budget has a token and the client is not cancelled.
  pub attempt_round-Retried :
      (weight_eq : W → W → Bool) (round : Round W S B) (attempt : ℕ) (attempted : List Bytes)
      (world : World S)
      → (attempt_round breakers settings weight_eq round attempt attempted world).outcome ≡ none
      → (endpoint : SelectedEndpoint W P) × ((select_endpoint weight_eq breakers round.client
            attempted
            (round.before world.breakers)).result
          ≡ ok endpoint)
        × Retried settings round attempt world.budget
            (intercepted round.interception attempt world.attempts_started round.exchange)
  unfolding attempt_round
  attempt_round-Retried weight_eq round attempt attempted world h =
      on_selection-none round attempt attempted world
        (select_endpoint weight_eq breakers round.client attempted (round.before world.breakers)) _
        refl h
