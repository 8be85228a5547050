-- ===== src/Resilience/Retry.antt =====
-- fusen/src/resilience/retry.rs: attempt limits, the retry token budget, guarded decisions, backoff.
-- The retry policy of a user and the random number generator are arguments.
pub mod Budget
pub mod Decision
pub mod Backoff
use fusen_rs.Resilience.Failure.{FailureClass, is_retryable}
use fusen_rs.Resilience.Breaker.{checked_mul, duration_limit, unwrap_or}
use fusen_rs.Prelude.{
  ℕ, ◌+◌, ◌-◌, ◌*◌, ◌/◌, ◌%◌, ◌^◌, min, max, Bool, true, false, not, ◌||◌, ◌&&◌, leb, ltb, ◌==◌,
  if◌then◌else◌,
}

abbrev pub token_scale : ℕ
token_scale = 1_000_000_000

abbrev pub hard_max_attempts : ℕ
hard_max_attempts = 3

pub data RetryDecision : Type 0 where
  retry stop : RetryDecision

unfoldable pub hard_attempt_limit : ℕ → ℕ
hard_attempt_limit configured =
    if configured == 0
    then 1
    else if ltb hard_max_attempts configured
    then hard_max_attempts
    else configured

unfoldable pub has_next_attempt : ℕ → ℕ → Bool
unfolding hard_attempt_limit
has_next_attempt completed configured = ltb completed (hard_attempt_limit configured)

pub record RetryDecisionContext : Type 0 where
  pub completed_attempts : ℕ
  pub max_attempts : ℕ
  pub method_allows_retries : Bool
  pub failure : FailureClass
  pub remaining : ℕ

-- `RetryDecisionContext::new`.
unfoldable pub new_context : ℕ → ℕ → Bool → FailureClass → ℕ → RetryDecisionContext
unfolding hard_attempt_limit
new_context completed configured allows failure remaining = record {
  completed_attempts = max completed 1;
  max_attempts = hard_attempt_limit configured;
  method_allows_retries = allows;
  failure = failure;
  remaining = remaining;
}

-- `RetryPolicy::decide`.
abbrev pub RetryPolicy : Type 0
RetryPolicy = RetryDecisionContext → RetryDecision

unfoldable pub standard_policy : RetryPolicy
unfolding is_retryable
standard_policy context =
    if context.method_allows_retries && is_retryable context.failure
    then RetryDecision.retry
    else RetryDecision.stop

pub record RetryBudget : Type 0 where
  pub capacity : ℕ
  pub refill_per_second : ℕ
  pub scaled_tokens : ℕ
  pub last_refill : ℕ

unfoldable pub new_budget : ℕ → ℕ → ℕ → RetryBudget
new_budget capacity refill_per_second now = record {
  capacity = capacity;
  refill_per_second = refill_per_second;
  scaled_tokens = capacity * token_scale;
  last_refill = now;
}

-- The saturating operations of `u128`.
abbrev pub saturate_u128 : ℕ → ℕ
saturate_u128 n = min n (2 ^ 128 - 1)

unfoldable pub refill : RetryBudget → ℕ → RetryBudget
refill b now =
    let elapsed = now - b.last_refill in
    let replenished = saturate_u128 (elapsed * b.refill_per_second) in
    record b {
      scaled_tokens =
          min (saturate_u128 (b.scaled_tokens + replenished)) (b.capacity * token_scale);
      last_refill = now;
    }

-- `RetryBudget::try_acquire`: the budget afterwards, and whether a token was taken.
unfoldable pub try_acquire : RetryBudget → ℕ → RetryBudget × Bool
unfolding refill
try_acquire b now =
    let r = refill b now in
    if ltb r.scaled_tokens token_scale
    then (r, false)
    else (record r { scaled_tokens = r.scaled_tokens - token_scale }, true)

unfoldable pub is_retry : RetryDecision → Bool
is_retry RetryDecision.retry = true
is_retry RetryDecision.stop = false

-- `decide_with_guards`: the budget is asked last, so a decision that stops earlier leaves it alone.
unfoldable pub decide_with_guards :
    RetryPolicy → RetryDecisionContext → RetryBudget → ℕ → RetryBudget × RetryDecision
unfolding has_next_attempt is_retryable is_retry try_acquire
decide_with_guards policy context budget now =
    if context.remaining == 0
      || not (has_next_attempt context.completed_attempts context.max_attempts)
      || not context.method_allows_retries
      || not (is_retryable context.failure)
      || not (is_retry (policy context))
    then (budget, RetryDecision.stop)
    else let (b, granted) = try_acquire budget now in
      (b, if granted then RetryDecision.retry else RetryDecision.stop)

unfoldable pub exponential_ceiling : ℕ → ℕ → ℕ → ℕ
unfolding checked_mul
exponential_ceiling base cap retry_ordinal =
    let shift = min (retry_ordinal - 1) 31 in min (unwrap_or (checked_mul base (2 ^ shift)) cap) cap

-- `Duration::new` of the whole seconds, cut to 64 bits, and the nanoseconds left.
unfoldable pub duration_from_nanos : ℕ → ℕ
duration_from_nanos nanos = (nanos / 1_000_000_000) % 2 ^ 64 * 1_000_000_000 + nanos % 1_000_000_000

-- `sample n` stands for `rng.random_range(0..=n)`.
unfoldable pub full_jitter_backoff : (ℕ → ℕ) → ℕ → ℕ → ℕ → ℕ
unfolding exponential_ceiling duration_from_nanos
full_jitter_backoff sample base cap retry_ordinal =
    duration_from_nanos (sample (exponential_ceiling base cap retry_ordinal))
