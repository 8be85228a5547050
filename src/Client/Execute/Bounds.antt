-- ===== src/Client/Execute/Bounds.antt =====
-- `execute_attempts` of fusen/src/client/invocation.rs ends, after a bounded number of attempts.
use fusen_rs.Client.Execute.{Settings, Round, World, AttemptSuccess}
use fusen_rs.Client.Execute.Loop.{
  attempt_on, on_selection, attempt_round, attempt_loop, execute_attempts,
}
use fusen_rs.Client.Execute.Retried.{attempt_round-Retried}
use fusen_rs.Client.Execute.Steps.{intercepted_started, finish_started}
use fusen_rs.Client.Select.{Breakers, Selection, select_endpoint}
use fusen_rs.Errors.Classify.{ClassifiedError}
use fusen_rs.Resilience.Retry.{hard_attempt_limit, hard_max_attempts, new_context}
use fusen_rs.Prelude.{
  ℕ, zero, suc, ◌+◌, ◌<◌, ◌≤◌, min, ◌≡◌, refl, arith, inl, inr, Bool, none, some, List, [],
  if◌then◌else◌, Result, Option-cases, Result-cases,
}
use fusen_rs.Prelude.Bytes.{Bytes}

module _ {W S B P : Type 0} (breakers : Breakers S P) (settings : Settings) where
  on_selection_started :
      (round : Round W S B) (n : ℕ) (attempted : List Bytes) (world : World S)
      (selection : Selection W S P)
      → world.attempts_started ≤ n
      → (on_selection breakers settings round n attempted world selection).world.attempts_started
        ≤ n
  unfolding attempt_on
  on_selection_started round n attempted world selection h = elim (Result-cases selection.result) [
    | inr (e, q) ↦ rw q h
    | inl (endpoint, q) ↦
        let started =
          intercepted_started round.interception n world.attempts_started round.exchange h in
        rw q (omega (arith, started, finish_started breakers settings round n _ _ _ _ _))
  ]

  attempt_round_started :
      (weight_eq : W → W → Bool) (round : Round W S B) (n : ℕ) (attempted : List Bytes)
      (world : World S)
      → world.attempts_started ≤ n
      → (attempt_round breakers settings weight_eq round n attempted world).world.attempts_started
        ≤ n
  unfolding attempt_round
  attempt_round_started weight_eq round n attempted world h =
      on_selection_started round n attempted world
        (select_endpoint weight_eq breakers round.client attempted (round.before world.breakers)) h

-- The most attempts that the settings allow.
unfoldable pub attempt_limit : Settings → ℕ
unfolding hard_attempt_limit
attempt_limit settings =
    if settings.allows_retries then hard_attempt_limit settings.max_attempts else 1

attempt_limit_bounds :
    (settings : Settings)
    → (1 ≤ attempt_limit settings) × (attempt_limit settings ≤ hard_max_attempts)
unfolding attempt_limit hard_attempt_limit
attempt_limit_bounds settings = ground arith

module _ {W S B P : Type 0} (breakers : Breakers S P) (settings : Settings)
    (weight_eq : W → W → Bool) (rounds : ℕ → Round W S B) where
  next_attempt :
      (n : ℕ) (attempted : List Bytes) (world : World S)
      → (attempt_round breakers settings weight_eq (rounds n) n attempted world).outcome ≡ none
      → n + 1 ≤ attempt_limit settings
  unfolding attempt_limit hard_attempt_limit new_context
  next_attempt n attempted world h =
      let (endpoint, found, r) =
        attempt_round-Retried breakers settings weight_eq (rounds n) n attempted world h in
      let may = r.agreed.allowed in ground (arith, may.attempts_left, may.replayable)

  loop_ends :
      (fuel n : ℕ) (attempted : List Bytes) (world : World S)
      → 1 ≤ n
      → n ≤ attempt_limit settings
      → attempt_limit settings < n + fuel
      → world.attempts_started ≤ n
      → (out : World S × Result (AttemptSuccess B P) ClassifiedError) × (attempt_loop breakers
            settings weight_eq rounds fuel n attempted world
          ≡ some out)
        × (out.0.attempts_started ≤ attempt_limit settings)
  unfolding attempt_loop
  loop_ends zero n attempted world one low high started = absurd (omega arith)
  loop_ends (suc fuel) n attempted world one low high started =
      let end = attempt_round breakers settings weight_eq (rounds n) n attempted world in
      let ran =
        attempt_round_started breakers settings weight_eq (rounds n) n attempted world started in
      elim (Option-cases end.outcome) [
        | inr (outcome, q) ↦ ((end.world, outcome), rw (attempt_loop, q) refl, omega (arith, ran))
        | inl q ↦
            let next = next_attempt n attempted world q in
            let bounds = attempt_limit_bounds settings in
            let small : min (n + 1) 255 ≡ n + 1 = omega (arith, bounds.1) in
            rw (attempt_loop, q)
              (loop_ends fuel (min (n + 1) 255) end.attempted end.world (omega arith)
                (omega (arith, small)) (omega (arith, small)) (omega (arith, small, ran)))
      ]

  -- The attempts of an invocation that started none yet end, whatever they meet; they start no more than
  -- the configured maximum cut to three, and no more than one where the method does not allow retries.
  pub execute_attempts_ends :
      (world : World S)
      → world.attempts_started ≡ 0
      → (out : World S × Result (AttemptSuccess B P) ClassifiedError) × (execute_attempts breakers
            settings weight_eq rounds world
          ≡ some out)
        × (out.0.attempts_started ≤ attempt_limit settings)
  unfolding execute_attempts
  execute_attempts_ends world h =
      let bounds = attempt_limit_bounds settings in
      loop_ends hard_max_attempts 1 [] world (omega arith) (omega (arith, bounds.0))
        (omega (arith, bounds.1)) (omega arith)
