-- ===== src/Resilience/Breaker/Acquire.antt =====
-- `try_acquire` of fusen/src/resilience/breaker.rs: its loop, and whom it admits.
use fusen_rs.Resilience.Breaker.{
  BreakerConfig, BreakerInner, MachineState, Acquired, acquire_loop, try_acquire,
}
use fusen_rs.Prelude.{
  ℕ, zero, suc, ◌≤◌, ◌<◌, ◌≡◌, refl, ◌↔◌, inl, inr, Bool, true, false, none, some, Result, ok, err,
  arith, Option-cases, ◌∙◌, ◌≢◌,
}

-- Whether a new attempt may start at `now`.
abbrev pub Admits : ℕ → ℕ → MachineState → Type 0
Admits conc now (MachineState.closed w) = Unit {0}
Admits conc now (MachineState.opened until duration) = (until ≤ now) × (0 < conc)
Admits conc now (MachineState.half_open k wins previous) = k < conc

abbrev pub is_ok {ℓ} : {A E : Type ℓ} → Result A E → Bool
is_ok (ok a) = true
is_ok (err e) = false

module _ {F : Type 0} (config : BreakerConfig F) where
  two_rounds :
      (n : ℕ) (s : MachineState) (now fuel : ℕ)
      → acquire_loop config (suc (suc fuel)) now (record { epoch = n; state = s }) none
        ≡ try_acquire config (record { epoch = n; state = s }) now
  unfolding try_acquire
  two_rounds n (MachineState.closed w) now fuel = refl
  two_rounds n (MachineState.opened until duration) now fuel = ground arith
  two_rounds n (MachineState.half_open k wins previous) now fuel = ground arith

  try_acquire-ne-none :
      (n : ℕ) (s : MachineState) (now : ℕ)
      → try_acquire config (record { epoch = n; state = s }) now ≢ none
  unfolding try_acquire
  try_acquire-ne-none n (MachineState.closed w) now = ground arith
  try_acquire-ne-none n (MachineState.opened until duration) now = ground arith
  try_acquire-ne-none n (MachineState.half_open k wins previous) now = ground arith

  -- With two rounds or more the loop returns, and returns what `try_acquire` does.
  pub try_acquire_enough :
      (inner : BreakerInner) (now fuel : ℕ)
      → 2 ≤ fuel
      → (a : Acquired) × (acquire_loop config fuel now inner none ≡ some a)
        × (try_acquire config inner now ≡ some a)
  try_acquire_enough inner now zero h = absurd (omega arith)
  try_acquire_enough inner now (suc zero) h = absurd (omega arith)
  try_acquire_enough inner now (suc (suc fuel)) h =
      elim (Option-cases (try_acquire config inner now)) [
        | inl e ↦ absurd (try_acquire-ne-none inner.epoch inner.state now e)
        | inr (a, e) ↦ (a, two_rounds inner.epoch inner.state now fuel ∙ e, e)
      ]

  -- An attempt is admitted exactly when the breaker is closed, its open time is over, or a half-open
  -- probe is free.
  pub try_acquire-Admits :
      (inner : BreakerInner) (now : ℕ) (a : Acquired)
      → try_acquire config inner now ≡ some a
      → (is_ok a.result ≡ true) ↔ Admits config.half_open_concurrency now inner.state
  unfolding try_acquire acquire_loop
  try_acquire-Admits inner now a e = go inner.epoch inner.state e
    where
      go :
          (n : ℕ) (s : MachineState)
          → try_acquire config (record { epoch = n; state = s }) now ≡ some a
          → (is_ok a.result ≡ true) ↔ Admits config.half_open_concurrency now s
      go n (MachineState.closed w) e = (ground arith, ground arith)
      go n (MachineState.opened until duration) e = (ground arith, ground arith)
      go n (MachineState.half_open k wins previous) e = (ground arith, ground arith)
