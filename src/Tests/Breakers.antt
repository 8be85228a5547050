-- ===== src/Tests/Breakers.antt =====
-- Runs of fusen/src/resilience/breaker.rs, with thousandths for the floating-point numbers.
use fusen_rs.Resilience.Failure.{FailureClass, BreakerImpact, breaker_impact}
use fusen_rs.Resilience.Window.{Bucket, RollingWindow, empty_bucket, advance, u32_max, new}
use fusen_rs.Resilience.Window.Ages.{IsWindow, ages, elapsed_steps, ages-advance}
use fusen_rs.Resilience.Window.Counts.{current_bucket}
use fusen_rs.Resilience.Breaker.{
  BreakerConfig, BreakerInner, MachineState, PermitPhase, PermitToken, PermitOutcome, BreakerPhase,
  BreakerRejection, Acquired, try_acquire, complete, acquire_loop, new_config,
  initial_open_duration, hard_max_open_duration, threshold_exceeded,
}
use fusen_rs.Resilience.Breaker.Acquire.{Admits, is_ok, try_acquire_enough, try_acquire-Admits}
use fusen_rs.Resilience.Breaker.Phases.{Moves, complete-Moves}
use fusen_rs.Resilience.Breaker.Trip.{recent, complete_trips}
use fusen_rs.Resilience.Breaker.Durations.{
  failed_probes, open_time, successful_probes, open_time-failed_probes, close_after_successes,
}
use fusen_rs.Resilience.Breaker.Permits.{Event, IsAccounted, run, fresh, run-IsAccounted}
use fusen_rs.Prelude.{
  ℕ, ◌+◌, ◌*◌, ◌/◌, ◌^◌, ◌<◌, min, ◌≡◌, refl, ◌↔◌, none, some, true, List, [], ◌∷◌, ◌++◌, take,
  replicate, ok, err, Float64, leb, arith,
}

-- A number stands for so many thousandths.
abbrev pub thousandths : Float64 ℕ
thousandths = record { of_u64 = λ n. n; div = λ a b. a * 1000 / b; ge = λ a b. leb b a }

-- Two buckets of 5 units, opened by half of at least 2 samples.
abbrev pub config : BreakerConfig ℕ
config = record {
  window = 10;
  buckets = 2;
  minimum_samples = 2;
  failure_ratio = 500;
  open_duration = 7;
  max_open_duration = 20;
  half_open_concurrency = 1;
  close_successes = 2;
}

abbrev one_failure : Bucket
one_failure = record { successes = 0; failures = 1 }

abbrev window : RollingWindow
window = record {
  buckets = one_failure ∷ empty_bucket ∷ [];
  current = 0;
  current_start = 100;
  bucket_width = 5;
}

window-IsWindow : IsWindow window
window-IsWindow = record { in_ring = omega arith; wide = omega arith }

abbrev pub closed_breaker : BreakerInner
closed_breaker = record { epoch = 3; state = MachineState.closed window }

abbrev open_breaker : BreakerInner
open_breaker = record { epoch = 4; state = MachineState.opened 110 7 }

abbrev token : PermitToken
token = record { epoch = 3; phase = PermitPhase.closed }

abbrev probing : Acquired
probing = record {
  inner = record { epoch = 5; state = MachineState.half_open 1 0 7 };
  result = ok (record { epoch = 5; phase = PermitPhase.half_open });
  transition = some BreakerPhase.half_open;
}

acquired : try_acquire config open_breaker 112 ≡ some probing
unfolding try_acquire
acquired = refl

still_shut :
    try_acquire config open_breaker 104
    ≡ some (record {
      inner = open_breaker;
      result = err (BreakerRejection.still_open 6);
      transition = none;
    })
unfolding try_acquire
still_shut = refl

abbrev history : List Event
history =
    Event.acquire 100
    ∷ Event.finish 0 101 (PermitOutcome.failure FailureClass.timeout)
    ∷ Event.acquire 102
    ∷ []

run-IsAccounted_example :
    IsAccounted config (run thousandths config (fresh thousandths config 100) history)
run-IsAccounted_example = run-IsAccounted thousandths config 100 history (omega arith)

room : (current_bucket (advance window 101)).failures < u32_max
unfolding advance
room = omega arith

timeout_counts : breaker_impact FailureClass.timeout ≡ BreakerImpact.failure
unfolding breaker_impact
timeout_counts = refl

connect_counts : breaker_impact FailureClass.connect ≡ BreakerImpact.failure
unfolding breaker_impact
connect_counts = refl

complete_trips_example :
    ((complete thousandths config closed_breaker 101 token
        (PermitOutcome.failure FailureClass.timeout)).1
      ≡ some BreakerPhase.opened)
    ↔ (threshold_exceeded thousandths config
          (record (recent window 101) { failures = (recent window 101).failures + 1 })
        ≡ true)
complete_trips_example =
    complete_trips thousandths config 3 101 window FailureClass.timeout window-IsWindow room
      timeout_counts

try_acquire-Admits_example : (is_ok probing.result ≡ true) ↔ Admits 1 112 open_breaker.state
try_acquire-Admits_example = try_acquire-Admits config open_breaker 112 probing acquired

ages-advance_example :
    ages (advance window 106)
    ≡ take 2 (replicate (elapsed_steps window 106) empty_bucket ++ ages window)
ages-advance_example = ages-advance window 106 window-IsWindow

abbrev two_probes : List (ℕ × FailureClass)
two_probes = (0, FailureClass.timeout) ∷ (3, FailureClass.connect) ∷ []

open_time-failed_probes_example :
    open_time
      (failed_probes thousandths
        (new_config config)
        (record {
          epoch = 1;
          state = MachineState.opened 110 (initial_open_duration (new_config config));
        })
        two_probes).state
    ≡ min (7 * 2 ^ 2) (min 20 hard_max_open_duration)
open_time-failed_probes_example =
    open_time-failed_probes thousandths config 1 110 two_probes (omega arith)
      (timeout_counts, (connect_counts, tt))

close_after_successes_example :
    let start : BreakerInner = record { epoch = 5; state = MachineState.half_open 0 0 7 } in
    ((successful_probes thousandths config start (120 ∷ [])).state ≡ MachineState.half_open 0 1 7)
    × ((successful_probes thousandths config start (120 ∷ 125 ∷ [])).state
        ≡ MachineState.closed (new 10 2 125))
close_after_successes_example =
    close_after_successes thousandths config 5 7 125 (120 ∷ []) refl (omega arith) (omega arith)

complete-Moves_example :
    let r = complete thousandths config closed_breaker 101 token PermitOutcome.success in
    Moves closed_breaker r.0 r.1
complete-Moves_example =
    complete-Moves thousandths config closed_breaker 101 token PermitOutcome.success

try_acquire_enough_example :
    (a : Acquired) × (acquire_loop config 9 112 open_breaker none ≡ some a)
    × (try_acquire config open_breaker 112 ≡ some a)
try_acquire_enough_example = try_acquire_enough config open_breaker 112 9 (omega arith)
