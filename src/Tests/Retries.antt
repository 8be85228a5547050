-- ===== src/Tests/Retries.antt =====
-- Runs of fusen/src/resilience/retry.rs.
use fusen_rs.Resilience.Failure.{FailureClass}
use fusen_rs.Resilience.Retry.{
  RetryDecision, RetryDecisionContext, RetryBudget, standard_policy, decide_with_guards, refill,
  token_scale, new_budget, full_jitter_backoff,
}
use fusen_rs.Resilience.Retry.Budget.{acquires, last_time, acquires_bounded}
use fusen_rs.Resilience.Retry.Decision.{MayRetry, decide_with_guards-MayRetry}
use fusen_rs.Resilience.Retry.Backoff.{full_jitter_backoff_bounds}
use fusen_rs.Prelude.{ℕ, ◌+◌, ◌-◌, ◌*◌, ◌/◌, ◌^◌, ◌≤◌, min, ◌≡◌, ◌↔◌, true, List, [], ◌∷◌, arith}

abbrev budget : RetryBudget
budget = record {
  capacity = 2;
  refill_per_second = 1;
  scaled_tokens = 1_500_000_000;
  last_refill = 10;
}

abbrev context : RetryDecisionContext
context = record {
  completed_attempts = 1;
  max_attempts = 3;
  method_allows_retries = true;
  failure = FailureClass.connect;
  remaining = 5000;
}

abbrev calls : List ℕ
calls = 20 ∷ 500_000_000 ∷ 1_500_000_000 ∷ []

acquires_bounded_example :
    (acquires (new_budget 1 1 10) calls).1 * token_scale
    ≤ 1 * token_scale + (last_time 10 calls - 10) * 1
acquires_bounded_example =
    acquires_bounded 1 1 10 calls (omega arith, (omega arith, (omega arith, tt)))

decide_with_guards-MayRetry_example :
    ((decide_with_guards standard_policy context budget 20).1 ≡ RetryDecision.retry) ↔ (
      MayRetry context
      × (standard_policy context ≡ RetryDecision.retry)
      × (token_scale ≤ (refill budget 20).scaled_tokens))
decide_with_guards-MayRetry_example = decide_with_guards-MayRetry standard_policy context budget 20

abbrev half : ℕ → ℕ
half n = n / 2

half_le : (n : ℕ) → half n ≤ n
half_le n = omega arith

full_jitter_backoff_bounds_example :
    full_jitter_backoff half 100 350 3 ≤ min (100 * 2 ^ min (3 - 1) 31) 350
full_jitter_backoff_bounds_example = full_jitter_backoff_bounds half 100 350 3 half_le (omega arith)
