-- ===== src/Resilience/Breaker/Phases.antt =====
-- The phase diagram of `CircuitBreaker` in fusen/src/resilience/breaker.rs, and the moves of its
-- methods.
use fusen_rs.Resilience.Failure.{BreakerImpact}
use fusen_rs.Resilience.Breaker.{
  BreakerConfig, BreakerInner, MachineState, PermitPhase, PermitToken, PermitOutcome, BreakerPhase,
  Acquired, try_acquire, complete, complete_phase, impact_of, wrapping_add_u64,
}
use fusen_rs.Prelude.{ℕ, ◌≡◌, refl, inl, inr, Option, none, some, Float64, arith, Bool-cases, ◌==◌}

abbrev pub phase_of : MachineState → BreakerPhase
phase_of (MachineState.closed w) = BreakerPhase.closed
phase_of (MachineState.opened until duration) = BreakerPhase.opened
phase_of (MachineState.half_open k wins previous) = BreakerPhase.half_open

pub data Edge : BreakerPhase → BreakerPhase → Type 0 where
  trip : Edge BreakerPhase.closed BreakerPhase.opened
  probe : Edge BreakerPhase.opened BreakerPhase.half_open
  recover : Edge BreakerPhase.half_open BreakerPhase.closed
  reopen : Edge BreakerPhase.half_open BreakerPhase.opened

-- Either nothing is reported, and phase and epoch stay, or the phase reported is the new one, it lies
-- one edge from the old one, and the epoch moves on by one.
abbrev pub Moves : BreakerInner → BreakerInner → Option BreakerPhase → Type 0
Moves before after none =
    (phase_of after.state ≡ phase_of before.state) × (after.epoch ≡ before.epoch)
Moves before after (some p) =
    (phase_of after.state ≡ p)
    × Edge (phase_of before.state) p
    × (after.epoch ≡ wrapping_add_u64 before.epoch 1)

module _ {F : Type 0} (fl : Float64 F) (config : BreakerConfig F) where
  complete_phase-Moves :
      (phase : PermitPhase) (n : ℕ) (s : MachineState) (now : ℕ) (impact : BreakerImpact)
      → let r = complete_phase fl config phase (record { epoch = n; state = s }) now impact in
        Moves (record { epoch = n; state = s }) r.0 r.1
  unfolding complete_phase
  complete_phase-Moves PermitPhase.closed n (MachineState.closed w) now BreakerImpact.failure =
      grind (arith, trip)
  complete_phase-Moves PermitPhase.half_open n (MachineState.half_open k wins previous) now
        BreakerImpact.success =
      grind (arith, recover)
  complete_phase-Moves PermitPhase.half_open n (MachineState.half_open k wins previous) now
        BreakerImpact.failure =
      (refl, reopen, refl)
  complete_phase-Moves PermitPhase.closed n (MachineState.closed w) now _ = (refl, refl)
  complete_phase-Moves PermitPhase.closed n _ now impact = (refl, refl)
  complete_phase-Moves PermitPhase.half_open n (MachineState.closed w) now impact = (refl, refl)
  complete_phase-Moves PermitPhase.half_open n (MachineState.opened u d) now impact = (refl, refl)
  complete_phase-Moves PermitPhase.half_open n (MachineState.half_open k wins previous) now _ =
      (refl, refl)

  -- Finishing any permit moves the breaker along one edge of its diagram or leaves its phase alone. The
  -- observer hears exactly of the moves, and the epoch changes exactly with them.
  pub complete-Moves :
      (inner : BreakerInner) (now : ℕ) (token : PermitToken) (outcome : PermitOutcome)
      → let r = complete fl config inner now token outcome in Moves inner r.0 r.1
  unfolding complete
  complete-Moves inner now token outcome = elim (Bool-cases (token.epoch == inner.epoch)) [
    | inl e ↦
        rw e (complete_phase-Moves token.phase inner.epoch inner.state now (impact_of outcome))
    | inr e ↦ rw e (refl, refl)
  ]

module _ {F : Type 0} (config : BreakerConfig F) where
  -- Acquiring moves the breaker along one edge of its diagram or leaves its phase alone. The observer
  -- hears exactly of the moves, and the epoch changes exactly with them.
  pub try_acquire-Moves :
      (inner : BreakerInner) (now : ℕ) (a : Acquired)
      → try_acquire config inner now ≡ some a
      → Moves inner a.inner a.transition
  unfolding try_acquire
  try_acquire-Moves inner now a e = go inner.epoch inner.state e
    where
      go :
          (n : ℕ) (s : MachineState)
          → try_acquire config (record { epoch = n; state = s }) now ≡ some a
          → Moves (record { epoch = n; state = s }) a.inner a.transition
      go n (MachineState.closed w) e = ground arith
      go n (MachineState.opened until duration) e = grind (arith, probe)
      go n (MachineState.half_open k wins previous) e = ground arith
