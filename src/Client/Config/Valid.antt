-- ===== src/Client/Config/Valid.antt =====
-- What the validation of fusen/src/client/config.rs accepts.
use fusen_rs.Client.Config.{
  ConfigValidationError, Validation, require, RetryConfig, validate_retry, BreakerThreshold,
  CircuitBreakerConfig, ThresholdScope, validate_threshold, validate_circuit_breaker,
}
use fusen_rs.Prelude.{
  ℕ, ◌<◌, ◌≤◌, ◌≡◌, ◌↔◌, refl, Bool, true, false, ltb, leb, ◌&&◌, ok, err, ◌>>◌, arith,
}

pub record IsRetry (c : RetryConfig) : Type 0 where
  pub attempted : 1 ≤ c.max_attempts
  pub limited : c.max_attempts ≤ 3
  pub delayed : 0 < c.backoff_base
  pub capped : c.backoff_base ≤ c.backoff_cap
  pub budgeted : 0 < c.budget_capacity
  pub refilled : 0 < c.budget_refill_per_second

pub record IsThreshold {R : Type 0} (is_ratio : R → Bool) (c : BreakerThreshold R) : Type 0 where
  pub windowed : 0 < c.window
  pub bucketed : 0 < c.buckets
  pub sampled : 0 < c.minimum_samples
  pub rated : is_ratio c.failure_ratio ≡ true
  pub opened : 0 < c.open_duration
  pub probed : 0 < c.half_open_probes
  pub closed : 0 < c.close_successes

pub record IsBreakerConfig {R : Type 0} (is_ratio : R → Bool) (c : CircuitBreakerConfig R)
    : Type 0 where
  pub for_endpoint : IsThreshold is_ratio c.endpoint
  pub for_service : IsThreshold is_ratio c.service
  pub opens : 0 < c.max_open_duration
  pub holds : 0 < c.max_endpoint_entries
  pub evicts : 0 < c.idle_eviction

passes : (b : Bool) (e : ConfigValidationError) → require b e ≡ ok tt → b ≡ true
unfolding require
passes true e h = refl
passes false e h = cc

then_passes : (v rest : Validation) → (v >> rest) ≡ ok tt → (v ≡ ok tt) × (rest ≡ ok tt)
then_passes (ok tt) rest h = (refl, h)
then_passes (err e) rest h = cc

above : (n : ℕ) (e : ConfigValidationError) → require (ltb 0 n) e ≡ ok tt → 0 < n
above n e h = let p = passes (ltb 0 n) e h in ground arith

le_of : (a b : ℕ) → leb a b ≡ true → a ≤ b
le_of a b h = ground arith

and_both : (a b : Bool) → (a && b) ≡ true → (a ≡ true) × (b ≡ true)
and_both true b h = (refl, h)
and_both false b h = cc

validate_retry_meets : (c : RetryConfig) → validate_retry c ≡ ok tt → IsRetry c
unfolding validate_retry
validate_retry_meets c h =
    let (attempts, h1) = then_passes _ _ h in
    let (base, h2) = then_passes _ _ h1 in
    let (cap, h3) = then_passes _ _ h2 in
    let (order, h4) = then_passes _ _ h3 in
    let (capacity, refill) = then_passes _ _ h4 in
    let (some_attempt, few) = and_both _ _ (passes _ _ attempts) in
    record {
      attempted = le_of _ _ some_attempt;
      limited = le_of _ _ few;
      delayed = above _ _ base;
      capped = le_of _ _ (passes _ _ order);
      budgeted = above _ _ capacity;
      refilled = above _ _ refill;
    }

validate_retry_accepts : (c : RetryConfig) → IsRetry c → validate_retry c ≡ ok tt
unfolding validate_retry require
validate_retry_accepts c h =
    let a : leb 1 c.max_attempts ≡ true = ground (arith, h.attempted) in
    let b : leb c.max_attempts 3 ≡ true = ground (arith, h.limited) in
    let d : ltb 0 c.backoff_base ≡ true = ground (arith, h.delayed) in
    let e : ltb 0 c.backoff_cap ≡ true = ground (arith, h.delayed, h.capped) in
    let f : leb c.backoff_base c.backoff_cap ≡ true = ground (arith, h.capped) in
    let g : ltb 0 c.budget_capacity ≡ true = ground (arith, h.budgeted) in
    let i : ltb 0 c.budget_refill_per_second ≡ true = ground (arith, h.refilled) in
    rw (a, b, d, e, f, g, i) refl

module _ {R : Type 0} (is_ratio : R → Bool) where
  validate_threshold_meets :
      (c : BreakerThreshold R) (scope : ThresholdScope)
      → validate_threshold is_ratio c scope ≡ ok tt
      → IsThreshold is_ratio c
  unfolding validate_threshold
  validate_threshold_meets c scope h =
      let (window, h1) = then_passes _ _ h in
      let (buckets, h2) = then_passes _ _ h1 in
      let (samples, h3) = then_passes _ _ h2 in
      let (ratio, h4) = then_passes _ _ h3 in
      let (duration, h5) = then_passes _ _ h4 in
      let (probes, successes) = then_passes _ _ h5 in
      record {
        windowed = above _ _ window;
        bucketed = above _ _ buckets;
        sampled = above _ _ samples;
        rated = passes _ _ ratio;
        opened = above _ _ duration;
        probed = above _ _ probes;
        closed = above _ _ successes;
      }

  validate_threshold_accepts :
      (c : BreakerThreshold R) (scope : ThresholdScope)
      → IsThreshold is_ratio c
      → validate_threshold is_ratio c scope ≡ ok tt
  unfolding validate_threshold require
  validate_threshold_accepts c scope h =
      let a : ltb 0 c.window ≡ true = ground (arith, h.windowed) in
      let b : ltb 0 c.buckets ≡ true = ground (arith, h.bucketed) in
      let d : ltb 0 c.minimum_samples ≡ true = ground (arith, h.sampled) in
      let e : ltb 0 c.open_duration ≡ true = ground (arith, h.opened) in
      let f : ltb 0 c.half_open_probes ≡ true = ground (arith, h.probed) in
      let g : ltb 0 c.close_successes ≡ true = ground (arith, h.closed) in
      rw (a, b, d, h.rated, e, f, g) refl

  validate_circuit_breaker_meets :
      (c : CircuitBreakerConfig R)
      → validate_circuit_breaker is_ratio c ≡ ok tt
      → IsBreakerConfig is_ratio c
  unfolding validate_circuit_breaker
  validate_circuit_breaker_meets c h =
      let (first, h1) = then_passes _ _ h in
      let (second, h2) = then_passes _ _ h1 in
      let (duration, h3) = then_passes _ _ h2 in
      let (entries, idle) = then_passes _ _ h3 in
      record {
        for_endpoint = validate_threshold_meets c.endpoint ThresholdScope.endpoint first;
        for_service = validate_threshold_meets c.service ThresholdScope.service second;
        opens = above _ _ duration;
        holds = above _ _ entries;
        evicts = above _ _ idle;
      }

  validate_circuit_breaker_accepts :
      (c : CircuitBreakerConfig R)
      → IsBreakerConfig is_ratio c
      → validate_circuit_breaker is_ratio c ≡ ok tt
  unfolding validate_circuit_breaker require
  validate_circuit_breaker_accepts c h =
      let first = validate_threshold_accepts c.endpoint ThresholdScope.endpoint h.for_endpoint in
      let second = validate_threshold_accepts c.service ThresholdScope.service h.for_service in
      let d : ltb 0 c.max_open_duration ≡ true = ground (arith, h.opens) in
      let e : ltb 0 c.max_endpoint_entries ≡ true = ground (arith, h.holds) in
      let f : ltb 0 c.idle_eviction ≡ true = ground (arith, h.evicts) in
      rw (first, second, d, e, f) refl

-- The settings for retries are accepted exactly when they allow one to three attempts, the first delay is
-- positive and at most the longest, and the budget has a capacity and is refilled.
validate_retry_iff : (c : RetryConfig) → (validate_retry c ≡ ok tt) ↔ IsRetry c
validate_retry_iff c = (validate_retry_meets c, validate_retry_accepts c)

-- The settings for circuit breakers are accepted exactly when both thresholds and the three limits are
-- valid, each threshold with a ratio and positive counts and durations.
validate_circuit_breaker_iff :
    {R : Type 0} (is_ratio : R → Bool) (c : CircuitBreakerConfig R)
    → (validate_circuit_breaker is_ratio c ≡ ok tt) ↔ IsBreakerConfig is_ratio c
validate_circuit_breaker_iff is_ratio c =
    (validate_circuit_breaker_meets is_ratio c, validate_circuit_breaker_accepts is_ratio c)
