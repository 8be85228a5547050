-- ===== src/Resilience/Retry/Backoff.antt =====
-- The backoff delay of fusen/src/resilience/retry.rs.
use fusen_rs.Resilience.Breaker.{duration_limit}
use fusen_rs.Resilience.Retry.{exponential_ceiling, duration_from_nanos, full_jitter_backoff}
use fusen_rs.Prelude.{ℕ, ◌-◌, ◌*◌, ◌^◌, ◌≤◌, ◌<◌, ◌≡◌, refl, arith, min}

-- Rebuilding a duration from its nanoseconds loses nothing.
pub duration_from_nanos_id : (n : ℕ) → n < duration_limit → duration_from_nanos n ≡ n
unfolding duration_from_nanos
duration_from_nanos_id n h = omega arith

-- An overflow of the doubling is an overflow of the cap as well.
pub exponential_ceiling_lem :
    (base cap ordinal : ℕ)
    → cap < duration_limit
    → exponential_ceiling base cap ordinal ≡ min (base * 2 ^ min (ordinal - 1) 31) cap
unfolding exponential_ceiling
exponential_ceiling_lem base cap ordinal h = ground arith

full_jitter_backoff_lem :
    (sample : ℕ → ℕ) (base cap ordinal : ℕ)
    → full_jitter_backoff sample base cap ordinal
      ≡ duration_from_nanos (sample (exponential_ceiling base cap ordinal))
unfolding full_jitter_backoff
full_jitter_backoff_lem sample base cap ordinal = refl

-- The delay is at most the base doubled for each earlier retry, 31 times at most, and at most the cap.
-- The sample stays within its range, and the cap is a `Duration`.
pub full_jitter_backoff_bounds :
    (sample : ℕ → ℕ) (base cap ordinal : ℕ)
    → ((n : ℕ) → sample n ≤ n)
    → cap < duration_limit
    → full_jitter_backoff sample base cap ordinal ≤ min (base * 2 ^ min (ordinal - 1) 31) cap
full_jitter_backoff_bounds sample base cap ordinal range h =
    let ceiling : ℕ = exponential_ceiling base cap ordinal in
    let below = range ceiling in
    let e = exponential_ceiling_lem base cap ordinal h in
    rw
      (
        full_jitter_backoff_lem sample base cap ordinal,
        duration_from_nanos_id (sample ceiling) (omega arith),
      )
      (omega arith)
