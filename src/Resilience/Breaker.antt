-- ===== src/Resilience/Breaker.antt =====
-- fusen/src/resilience/breaker.rs: `CircuitBreaker`. A method runs under the breaker's lock, so it is
-- one step from state to state. The transition that it hands to the observer is part of its result.

pub mod Acquire
pub mod Phases
pub mod Durations
pub mod Trip
pub mod Permits
use fusen_rs.Resilience.Failure.{FailureClass, BreakerImpact, breaker_impact}
use fusen_rs.Resilience.Window.{
  RollingWindow, new, advance, record_success, record_failure, WindowCounts, counts, samples,
  saturating_add_u32,
}
use fusen_rs.Prelude.{
  ℕ, zero, suc, ◌+◌, ◌-◌, ◌*◌, ◌%◌, ◌^◌, min, Bool, true, false, ◌&&◌, Option, none, some, leb, ltb,
  ◌==◌, if◌then◌else◌, Result, ok, err, Float64,
}

-- 120 s, in nanoseconds.
abbrev pub hard_max_open_duration : ℕ
hard_max_open_duration = 120 * 1_000_000_000

-- The first number of nanoseconds that is no `Duration`.
abbrev pub duration_limit : ℕ
duration_limit = 2 ^ 64 * 1_000_000_000

-- `Duration::checked_mul`.
unfoldable pub checked_mul : ℕ → ℕ → Option ℕ
checked_mul d k = if ltb (d * k) duration_limit then some (d * k) else none

abbrev pub unwrap_or {ℓ} : {A : Type ℓ} → Option A → A → A
unwrap_or none d = d
unwrap_or (some a) d = a

abbrev pub wrapping_add_u64 : ℕ → ℕ → ℕ
wrapping_add_u64 a b = (a + b) % 2 ^ 64

pub record BreakerConfig (F : Type 0) : Type 0 where
  pub window : ℕ
  pub buckets : ℕ
  pub minimum_samples : ℕ
  pub failure_ratio : F
  pub open_duration : ℕ
  pub max_open_duration : ℕ
  pub half_open_concurrency : ℕ
  pub close_successes : ℕ

-- `BreakerConfig::new`.
unfoldable pub new_config : {F : Type 0} → BreakerConfig F → BreakerConfig F
new_config c = record c { max_open_duration = min c.max_open_duration hard_max_open_duration }

unfoldable pub initial_open_duration : {F : Type 0} → BreakerConfig F → ℕ
initial_open_duration c = min c.open_duration c.max_open_duration

unfoldable pub next_open_duration : {F : Type 0} → BreakerConfig F → ℕ → ℕ
unfolding checked_mul
next_open_duration c previous =
    min (unwrap_or (checked_mul previous 2) c.max_open_duration) c.max_open_duration

pub data BreakerPhase : Type 0 where
  closed opened half_open : BreakerPhase

pub data BreakerRejection : Type 0 where
  still_open : ℕ → BreakerRejection
  half_open_saturated : BreakerRejection

pub data MachineState : Type 0 where
  closed : RollingWindow → MachineState
  opened : (until duration : ℕ) → MachineState
  half_open : (in_flight consecutive_successes previous_open_duration : ℕ) → MachineState

pub record BreakerInner : Type 0 where
  pub epoch : ℕ
  pub state : MachineState

pub data PermitPhase : Type 0 where
  closed half_open : PermitPhase

pub record PermitToken : Type 0 where
  pub epoch : ℕ
  pub phase : PermitPhase

pub data PermitOutcome : Type 0 where
  success abandoned unattempted : PermitOutcome
  failure : FailureClass → PermitOutcome

-- What `try_acquire` leaves behind: the state, its result and the transition observed.
pub record Acquired : Type 0 where
  pub inner : BreakerInner
  pub result : Result PermitToken BreakerRejection
  pub transition : Option BreakerPhase

-- The `impact` of `complete`.
unfoldable pub impact_of : PermitOutcome → BreakerImpact
unfolding breaker_impact
impact_of PermitOutcome.success = BreakerImpact.success
impact_of (PermitOutcome.failure f) = breaker_impact f
impact_of PermitOutcome.abandoned = BreakerImpact.ignore
impact_of PermitOutcome.unattempted = BreakerImpact.unattempted

module _ {F : Type 0} (config : BreakerConfig F) where
  -- `with_observer`.
  unfoldable pub new_breaker : ℕ → BreakerInner
  new_breaker now = record {
    epoch = 0;
    state = MachineState.closed (new config.window config.buckets now);
  }

  -- One round of the loop of `try_acquire`; `again` is the next round.
  unfoldable pub acquire_round :
      (BreakerInner → Option BreakerPhase → Option Acquired)
      → ℕ
      → MachineState
      → BreakerInner
      → Option BreakerPhase
      → Option Acquired
  acquire_round again now (MachineState.closed window) inner transition = some (record {
    inner = record inner { state = MachineState.closed (advance window now) };
    result = ok (record { epoch = inner.epoch; phase = PermitPhase.closed });
    transition = transition;
  })
  acquire_round again now (MachineState.opened until duration) inner transition =
      if leb until now
      then again
          (record {
            epoch = wrapping_add_u64 inner.epoch 1;
            state = MachineState.half_open 0 0 duration;
          })
          (some BreakerPhase.half_open)
      else some (record {
        inner = inner;
        result = err (BreakerRejection.still_open (until - now));
        transition = transition;
      })
  acquire_round again now (MachineState.half_open in_flight wins previous) inner transition =
      if leb config.half_open_concurrency in_flight
      then some (record {
        inner = inner;
        result = err BreakerRejection.half_open_saturated;
        transition = transition;
      })
      else some (record {
        inner = record inner { state = MachineState.half_open (in_flight + 1) wins previous };
        result = ok (record { epoch = inner.epoch; phase = PermitPhase.half_open });
        transition = transition;
      })

  unfoldable pub acquire_loop : ℕ → ℕ → BreakerInner → Option BreakerPhase → Option Acquired
  unfolding acquire_round
  acquire_loop zero now inner transition = none
  acquire_loop (suc fuel) now inner transition =
      acquire_round (acquire_loop fuel now) now inner.state inner transition

  -- The loop with fuel for two rounds.
  unfoldable pub try_acquire : BreakerInner → ℕ → Option Acquired
  unfolding acquire_loop
  try_acquire inner now = acquire_loop 2 now inner none

module _ {F : Type 0} (fl : Float64 F) (config : BreakerConfig F) where
  unfoldable pub threshold_exceeded : WindowCounts → Bool
  threshold_exceeded c =
      leb config.minimum_samples (samples c)
      && fl.ge (fl.div (fl.of_u64 c.failures) (fl.of_u64 (samples c))) config.failure_ratio

  -- The state that opens the breaker at `now` for `duration`.
  unfoldable pub open_for : BreakerInner → ℕ → ℕ → BreakerInner
  open_for inner now duration = record {
    epoch = wrapping_add_u64 inner.epoch 1;
    state = MachineState.opened (now + duration) duration;
  }

  unfoldable pub complete_closed :
      MachineState → BreakerInner → ℕ → BreakerImpact → BreakerInner × Option BreakerPhase
  unfolding threshold_exceeded open_for initial_open_duration
  complete_closed (MachineState.closed window) inner now BreakerImpact.success =
      (record inner { state = MachineState.closed (record_success (advance window now)) }, none)
  complete_closed (MachineState.closed window) inner now BreakerImpact.failure =
      let w = record_failure (advance window now) in
      if threshold_exceeded (counts w)
      then (open_for inner now (initial_open_duration config), some BreakerPhase.opened)
      else (record inner { state = MachineState.closed w }, none)
  complete_closed (MachineState.closed window) inner now _ =
      (record inner { state = MachineState.closed (advance window now) }, none)
  complete_closed _ inner now impact = (inner, none)

  unfoldable pub complete_half_open :
      MachineState → BreakerInner → ℕ → BreakerImpact → BreakerInner × Option BreakerPhase
  unfolding open_for next_open_duration
  complete_half_open (MachineState.half_open in_flight wins previous) inner now
        BreakerImpact.success =
      let wins' = saturating_add_u32 wins 1 in
      if leb config.close_successes wins'
      then (
        record {
          epoch = wrapping_add_u64 inner.epoch 1;
          state = MachineState.closed (new config.window config.buckets now);
        },
        some BreakerPhase.closed,
      )
      else (record inner { state = MachineState.half_open (in_flight - 1) wins' previous }, none)
  complete_half_open (MachineState.half_open in_flight wins previous) inner now
        BreakerImpact.failure =
      (open_for inner now (next_open_duration config previous), some BreakerPhase.opened)
  complete_half_open (MachineState.half_open in_flight wins previous) inner now _ =
      (record inner { state = MachineState.half_open (in_flight - 1) wins previous }, none)
  complete_half_open _ inner now impact = (inner, none)

  unfoldable pub complete_phase :
      PermitPhase → BreakerInner → ℕ → BreakerImpact → BreakerInner × Option BreakerPhase
  unfolding complete_closed complete_half_open
  complete_phase PermitPhase.closed inner now impact = complete_closed inner.state inner now impact
  complete_phase PermitPhase.half_open inner now impact =
      complete_half_open inner.state inner now impact

  unfoldable pub complete :
      BreakerInner → ℕ → PermitToken → PermitOutcome → BreakerInner × Option BreakerPhase
  unfolding complete_phase impact_of
  complete inner now token outcome =
      if token.epoch == inner.epoch
      then complete_phase token.phase inner now (impact_of outcome)
      else (inner, none)
