-- ===== src/Resilience/Breaker/Durations.antt =====
-- Failed and successful probes of `CircuitBreaker` in fusen/src/resilience/breaker.rs: how long the
-- breaker stays open, and when it closes.
use native.Mathlib.Nat.{pow-suc}
use fusen_rs.Resilience.Failure.{FailureClass, BreakerImpact, breaker_impact}
use fusen_rs.Resilience.Window.{u32_max, new}
use fusen_rs.Resilience.Breaker.{
  BreakerConfig, BreakerInner, MachineState, PermitOutcome, try_acquire, complete,
  hard_max_open_duration, initial_open_duration, next_open_duration, new_config,
}
use fusen_rs.Prelude.{
  ℕ, zero, suc, ◌+◌, ◌*◌, ◌^◌, ◌≤◌, ◌<◌, ◌≡◌, refl, ◌∙◌, ap, ◌++◌, none, some, min, List, [], ◌∷◌,
  length, dec_le, ok, err, Float64, arith,
}

-- Below the hard limit a doubled duration is a `Duration`, so only the cap cuts it.
next_open_duration_lem :
    {F : Type 0} (config : BreakerConfig F) (d : ℕ)
    → d ≤ config.max_open_duration
    → config.max_open_duration ≤ hard_max_open_duration
    → next_open_duration config d ≡ min (d * 2) config.max_open_duration
unfolding next_open_duration
next_open_duration_lem config d h hard = ground arith

le-mul_pos : (m p : ℕ) → 0 < p → m ≤ m * p
le-mul_pos m zero h = absurd (omega arith)
le-mul_pos m (suc p) h = grind arith

two_pow_pos : (k : ℕ) → 0 < 2 ^ k
two_pow_pos zero = omega arith
two_pow_pos (suc k) = rw (pow-suc 2 k) (omega (arith, two_pow_pos k))

-- A cap may be applied before or after a multiplication that is capped again.
min-mul : (a m p : ℕ) → 0 < p → min (min a m * p) m ≡ min (a * p) m
min-mul a m p h = elim (dec_le a m) [
  | yes le ↦ let e : min a m ≡ a = omega arith in rw e
  | no gt ↦
      let e : min a m ≡ m = omega arith in rw e (omega (arith, le-mul_pos m p h, le-mul_pos a p h))
]

-- Every failure counts against the endpoint.
abbrev pub AllCount : List (ℕ × FailureClass) → Type 0
AllCount [] = Unit {0}
AllCount ((delay, f) ∷ ps) = (breaker_impact f ≡ BreakerImpact.failure) × AllCount ps

-- The time from which an open breaker lets a probe through, and how long it was opened for.
abbrev pub open_until : MachineState → ℕ
open_until (MachineState.opened until duration) = until
open_until _ = 0

abbrev pub open_time : MachineState → ℕ
open_time (MachineState.opened until duration) = duration
open_time _ = 0

module _ {F : Type 0} (fl : Float64 F) (config : BreakerConfig F) where
  -- An attempt at `now` that ends with `outcome` before any other.
  abbrev pub attempt : BreakerInner → ℕ → PermitOutcome → BreakerInner
  attempt inner now outcome = elim (try_acquire config inner now) [
    | none ↦ inner
    | some a ↦ elim a.result [
      | ok token ↦ (complete fl config a.inner now token outcome).0
      | err _ ↦ a.inner
    ]
  ]

  -- Probes one after the other, each some time after the breaker lets it through.
  abbrev pub failed_probes : BreakerInner → List (ℕ × FailureClass) → BreakerInner
  failed_probes inner [] = inner
  failed_probes inner ((delay, f) ∷ ps) =
      failed_probes (attempt inner (open_until inner.state + delay) (PermitOutcome.failure f)) ps

  failed_probe :
      (n until d now : ℕ) (f : FailureClass)
      → until ≤ now
      → 0 < config.half_open_concurrency
      → breaker_impact f ≡ BreakerImpact.failure
      → (attempt
          (record { epoch = n; state = MachineState.opened until d })
          now
          (PermitOutcome.failure f)).state
        ≡ MachineState.opened (now + next_open_duration config d) (next_open_duration config d)
  unfolding try_acquire complete
  failed_probe n until d now f due free h = ground arith

  failed_probes_from :
      (inner : BreakerInner) (until d : ℕ) (ps : List (ℕ × FailureClass))
      → inner.state ≡ MachineState.opened until d
      → d ≤ config.max_open_duration
      → config.max_open_duration ≤ hard_max_open_duration
      → 0 < config.half_open_concurrency
      → AllCount ps
      → open_time (failed_probes inner ps).state ≡ min (d * 2 ^ length ps) config.max_open_duration
  failed_probes_from inner until d [] e le hard free all = rw e (omega arith)
  failed_probes_from inner until d ((delay, f) ∷ ps) e le hard free all =
      let q : inner ≡ record { epoch = inner.epoch; state = MachineState.opened until d } =
        λ i. record { epoch = inner.epoch; state = e i } in
      let next = failed_probe inner.epoch until d (until + delay) f (omega arith) free all.0 in
      rw q (
        failed_probes_from
          (attempt (record { epoch = inner.epoch; state = MachineState.opened until d })
            (until + delay) (PermitOutcome.failure f))
          _ _ ps next (rw (next_open_duration_lem config d le hard) (omega arith)) hard free all.1
        ∙ rw (next_open_duration_lem config d le hard) (
            min-mul (d * 2) config.max_open_duration (2 ^ length ps) (two_pow_pos (length ps))
            ∙ rw (pow-suc 2 (length ps)) (omega arith)))

  -- Successful probes one after the other, at any times.
  abbrev pub successful_probes : BreakerInner → List ℕ → BreakerInner
  successful_probes inner [] = inner
  successful_probes inner (now ∷ ts) =
      successful_probes (attempt inner now PermitOutcome.success) ts

  successful_probe :
      (n wins previous now : ℕ)
      → wins < config.close_successes
      → config.close_successes ≤ u32_max
      → 0 < config.half_open_concurrency
      → (suc wins < config.close_successes
          → attempt
              (record { epoch = n; state = MachineState.half_open 0 wins previous })
              now
              PermitOutcome.success
            ≡ record { epoch = n; state = MachineState.half_open 0 (wins + 1) previous })
        × (suc wins ≡ config.close_successes
            → (attempt
                (record { epoch = n; state = MachineState.half_open 0 wins previous })
                now
                PermitOutcome.success).state
              ≡ MachineState.closed (new config.window config.buckets now))
  unfolding try_acquire complete
  successful_probe n wins previous now h small free = (ground arith, ground arith)

  probing :
      (n wins previous : ℕ) (ts : List ℕ)
      → wins + length ts < config.close_successes
      → config.close_successes ≤ u32_max
      → 0 < config.half_open_concurrency
      → successful_probes (record { epoch = n; state = MachineState.half_open 0 wins previous }) ts
        ≡ record { epoch = n; state = MachineState.half_open 0 (wins + length ts) previous }
  probing n wins previous [] h small free = let e : wins + 0 ≡ wins = omega arith in rw e
  probing n wins previous (t ∷ ts) h small free =
      rw ((successful_probe n wins previous t (omega arith) small free).0 (omega arith)) (
        probing n (wins + 1) previous ts (omega arith) small free
        ∙ (let e : wins + 1 + length ts ≡ wins + suc (length ts) = omega arith in rw e))

  successful_probes-append :
      (inner : BreakerInner) (ts us : List ℕ)
      → successful_probes inner (ts ++ us) ≡ successful_probes (successful_probes inner ts) us
  successful_probes-append inner [] us = refl
  successful_probes-append inner (t ∷ ts) us =
      successful_probes-append (attempt inner t PermitOutcome.success) ts us

  -- A half-open breaker stays half-open through its first successful probes, made one after the other,
  -- and the probe that completes `close_successes` of them in a row closes it with a new window. The
  -- breaker allows at least one probe, and `close_successes` is a 32-bit number.
  pub close_after_successes :
      (n previous last : ℕ) (ts : List ℕ)
      → length ts + 1 ≡ config.close_successes
      → config.close_successes ≤ u32_max
      → 0 < config.half_open_concurrency
      → let start : BreakerInner = record {
        epoch = n;
        state = MachineState.half_open 0 0 previous;
      } in
        ((successful_probes start ts).state ≡ MachineState.half_open 0 (length ts) previous)
        × ((successful_probes start (ts ++ last ∷ [])).state
            ≡ MachineState.closed (new config.window config.buckets last))
  close_after_successes n previous last ts h small free =
      let start : BreakerInner = record {
        epoch = n;
        state = MachineState.half_open 0 0 previous;
      } in
      let e : 0 + length ts ≡ length ts = omega arith in
      let before : successful_probes start ts
          ≡ record { epoch = n; state = MachineState.half_open 0 (length ts) previous } =
        probing n 0 previous ts (omega arith) small free ∙ rw e in
      (
        ap (λ i. i.state) before,
        rw (successful_probes-append start ts (last ∷ []), before)
            ((successful_probe n (length ts) previous last (omega arith) small free).1
              (omega arith)),
      )

-- After failed probes only, of classes that count and each made when the open time is over, a breaker
-- that was opened for its initial time is open for that time doubled at each probe, up to the configured
-- maximum and never above the hard one. The breaker allows at least one probe.
pub open_time-failed_probes :
    {F : Type 0} (fl : Float64 F) (c : BreakerConfig F) (n until : ℕ) (ps : List (ℕ × FailureClass))
    → 0 < c.half_open_concurrency
    → AllCount ps
    → let config : BreakerConfig F = new_config c in
      let start : BreakerInner = record {
        epoch = n;
        state = MachineState.opened until (initial_open_duration config);
      } in
      open_time (failed_probes fl config start ps).state
      ≡ min (c.open_duration * 2 ^ length ps) (min c.max_open_duration hard_max_open_duration)
unfolding new_config initial_open_duration
open_time-failed_probes fl c n until ps free all =
    let config = new_config c in
    failed_probes_from fl config
      (record { epoch = n; state = MachineState.opened until (initial_open_duration config) }) until
      (initial_open_duration config) ps refl (omega arith) (omega arith) free all
    ∙ min-mul c.open_duration config.max_open_duration (2 ^ length ps) (two_pow_pos (length ps))
