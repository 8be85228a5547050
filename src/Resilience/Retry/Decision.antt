-- ===== src/Resilience/Retry/Decision.antt =====
-- Guarded retry decisions of fusen/src/resilience/retry.rs.
use fusen_rs.Resilience.Failure.{is_retryable}
use fusen_rs.Resilience.Retry.{
  RetryDecision, RetryDecisionContext, RetryPolicy, RetryBudget, hard_attempt_limit,
  decide_with_guards, refill, token_scale, hard_max_attempts,
}
use fusen_rs.Prelude.{ℕ, ◌+◌, ◌≤◌, ◌<◌, ◌≡◌, ◌↔◌, ◌⊎◌, true, arith}

-- Whatever is configured, there is at least one attempt and there are at most three.
pub hard_attempt_limit_bounds :
    (configured : ℕ)
    → (1 ≤ hard_attempt_limit configured) × (hard_attempt_limit configured ≤ hard_max_attempts)
unfolding hard_attempt_limit
hard_attempt_limit_bounds configured = ground arith

-- What has to hold for another attempt, whatever the policy of the user says.
pub record MayRetry (c : RetryDecisionContext) : Type 0 where
  pub time_left : 0 < c.remaining
  pub attempts_left : c.completed_attempts < hard_attempt_limit c.max_attempts
  pub replayable : c.method_allows_retries ≡ true
  pub transient : is_retryable c.failure ≡ true

-- Another attempt is made exactly when every guard allows it, the policy asks for it and the refilled
-- budget has a token.
pub decide_with_guards-MayRetry :
    (policy : RetryPolicy) (c : RetryDecisionContext) (b : RetryBudget) (now : ℕ)
    → ((decide_with_guards policy c b now).1 ≡ RetryDecision.retry) ↔ (
        MayRetry c
        × (policy c ≡ RetryDecision.retry)
        × (token_scale ≤ (refill b now).scaled_tokens))
unfolding decide_with_guards
decide_with_guards-MayRetry policy c b now = (λ h. ground arith, λ h. ground arith)

-- A retry takes exactly one token off the refilled budget, and a stop takes none.
decide_with_guards_spends :
    (policy : RetryPolicy) (c : RetryDecisionContext) (b : RetryBudget) (now : ℕ)
    → let r = decide_with_guards policy c b now in
      ((r.1 ≡ RetryDecision.retry)
        × (r.0.scaled_tokens + token_scale ≡ (refill b now).scaled_tokens))
      ⊎ ((r.1 ≡ RetryDecision.stop) × ((r.0 ≡ b) ⊎ (r.0 ≡ refill b now)))
unfolding decide_with_guards
decide_with_guards_spends policy c b now = ground arith
