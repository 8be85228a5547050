-- ===== src/Resilience/Breaker/Trip.antt =====
-- When a closed breaker of fusen/src/resilience/breaker.rs opens, in terms of the bucket queue.
use fusen_rs.Resilience.Failure.{FailureClass, BreakerImpact, breaker_impact}
use fusen_rs.Resilience.Window.{
  RollingWindow, u32_max, advance, record_failure, WindowCounts, counts,
}
use fusen_rs.Resilience.Window.Ages.{IsWindow, ages, elapsed_steps, advance-IsWindow}
use fusen_rs.Resilience.Window.Counts.{tally, counts-advance, counts-record_failure, current_bucket}
use fusen_rs.Resilience.Breaker.{
  BreakerConfig, BreakerInner, MachineState, PermitPhase, PermitToken, PermitOutcome, BreakerPhase,
  complete, threshold_exceeded,
}
use fusen_rs.Prelude.{
  ℕ, ◌+◌, ◌-◌, ◌<◌, ◌≡◌, sym, ap, ◌∙◌, ◌↔◌, some, Float64, arith, true, length, take,
}

-- The counts of the buckets that are still inside the window at `now`.
abbrev pub recent : RollingWindow → ℕ → WindowCounts
recent w now = tally (take (length w.buckets - elapsed_steps w now) (ages w))

module _ {F : Type 0} (fl : Float64 F) (config : BreakerConfig F) where
  recent_failure :
      (w : RollingWindow) (now : ℕ)
      → IsWindow w
      → (current_bucket (advance w now)).failures < u32_max
      → counts (record_failure (advance w now))
        ≡ record (recent w now) { failures = (recent w now).failures + 1 }
  recent_failure w now v room =
      counts-record_failure (advance w now) (advance-IsWindow w now v) room
      ∙ ap (λ (c : WindowCounts). record c { failures = c.failures + 1 }) (counts-advance w now v)

  tripped :
      (n now : ℕ) (w : RollingWindow) (f : FailureClass)
      → breaker_impact f ≡ BreakerImpact.failure
      → let before : BreakerInner = record { epoch = n; state = MachineState.closed w } in
        let token : PermitToken = record { epoch = n; phase = PermitPhase.closed } in
        ((complete fl config before now token (PermitOutcome.failure f)).1
          ≡ some BreakerPhase.opened)
        ↔ (threshold_exceeded fl config (counts (record_failure (advance w now))) ≡ true)
  unfolding complete
  tripped n now w f h = (ground arith, ground arith)

  -- A failure of a class that counts, under a permit of the current epoch, opens a closed breaker
  -- with a well-formed window exactly when the counts inside the window, this failure included,
  -- exceed the threshold. The condition is that the current bucket's counter is not saturated.
  pub complete_trips :
      (n now : ℕ) (w : RollingWindow) (f : FailureClass)
      → IsWindow w
      → (current_bucket (advance w now)).failures < u32_max
      → breaker_impact f ≡ BreakerImpact.failure
      → let before : BreakerInner = record { epoch = n; state = MachineState.closed w } in
        let token : PermitToken = record { epoch = n; phase = PermitPhase.closed } in
        ((complete fl config before now token (PermitOutcome.failure f)).1
          ≡ some BreakerPhase.opened)
        ↔ (threshold_exceeded fl config
              (record (recent w now) { failures = (recent w now).failures + 1 })
            ≡ true)
  complete_trips n now w f v room h =
      let e = ap (λ c. threshold_exceeded fl config c) (recent_failure w now v room) in
      let (opens, exceeds) = tripped n now w f h in (λ o. sym e ∙ opens o, λ t. exceeds (e ∙ t))
