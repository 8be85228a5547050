-- ===== src/Resilience/Breaker/Permits.antt =====
-- A breaker of fusen/src/resilience/breaker.rs with the permits that it has given out. A
-- `BreakerPermit` is finished once, by `succeed`, `fail`, `release_unattempted` or by being dropped.
use fusen_rs.Resilience.Failure.{BreakerImpact}
use fusen_rs.Resilience.Breaker.{
  BreakerConfig, BreakerInner, MachineState, PermitPhase, PermitToken, PermitOutcome,
  BreakerRejection, Acquired, try_acquire, complete, complete_phase, impact_of, new_breaker,
}
use fusen_rs.Prelude.{
  ℕ, zero, suc, ◌+◌, ◌^◌, ◌≤◌, ◌<◌, ◌≡◌, refl, inl, inr, none, some, List, [], ◌∷◌, get_elem?,
  remove_at, length, Result, ok, err, Float64, arith, Bool, true, false, Bool-cases, ◌==◌, ◌&&◌,
  Option-cases, if◌then◌else◌,
}

pub record Breaker : Type 0 where
  pub inner : BreakerInner
  pub permits : List PermitToken

pub data Event : Type 0 where
  acquire : (now : ℕ) → Event
  finish : (permit now : ℕ) → PermitOutcome → Event

abbrev pub keep_permit : Result PermitToken BreakerRejection → List PermitToken → List PermitToken
keep_permit (ok token) ts = token ∷ ts
keep_permit (err _) ts = ts

module _ {F : Type 0} (fl : Float64 F) (config : BreakerConfig F) where
  -- A caller acquires, or finishes one of the permits given out.
  unfoldable pub step : Breaker → Event → Breaker
  step b (acquire now) = elim (try_acquire config b.inner now) [
    | none ↦ b
    | some a ↦ record { inner = a.inner; permits = keep_permit a.result b.permits }
  ]
  step b (finish i now outcome) = elim (get_elem? b.permits i) [
    | none ↦ b
    | some token ↦ record {
      inner = (complete fl config b.inner now token outcome).0;
      permits = remove_at i b.permits;
    }
  ]

  unfoldable pub run : Breaker → List Event → Breaker
  run b [] = b
  run b (e ∷ es) = run (step b e) es

abbrev is_probe : PermitPhase → Bool
is_probe PermitPhase.half_open = true
is_probe PermitPhase.closed = false

-- The probes among the permits that were given out in the given epoch.
abbrev pub probes : ℕ → List PermitToken → ℕ
probes n [] = 0
probes n (t ∷ ts) = (if t.epoch == n && is_probe t.phase then 1 else 0) + probes n ts

-- No permit is from a later epoch.
abbrev pub NoneLater : ℕ → List PermitToken → Type 0
NoneLater n [] = Unit {0}
NoneLater n (t ∷ ts) = (t.epoch ≤ n) × NoneLater n ts

-- The permits that a state counts as in flight.
abbrev pub in_flight : MachineState → ℕ
in_flight (MachineState.half_open k wins previous) = k
in_flight _ = 0

pub record IsAccounted {F : Type 0} (config : BreakerConfig F) (b : Breaker) : Type 0 where
  pub none_later : NoneLater b.inner.epoch b.permits
  pub counted : probes b.inner.epoch b.permits ≡ in_flight b.inner.state
  pub bounded : in_flight b.inner.state ≤ config.half_open_concurrency

probes_later : (n m : ℕ) (ts : List PermitToken) → NoneLater n ts → n < m → probes m ts ≡ 0
probes_later n m [] h lt = refl
probes_later n m (t ∷ ts) h lt = ground (arith, probes_later n m ts h.1 lt)

NoneLater-mono : (n m : ℕ) (ts : List PermitToken) → NoneLater n ts → n ≤ m → NoneLater m ts
NoneLater-mono n m [] h le = tt
NoneLater-mono n m (t ∷ ts) h le = (omega arith, NoneLater-mono n m ts h.1 le)

remove_at-NoneLater :
    (n i : ℕ) (ts : List PermitToken) → NoneLater n ts → NoneLater n (remove_at i ts)
remove_at-NoneLater n i [] h = tt
remove_at-NoneLater n zero (t ∷ ts) h = h.1
remove_at-NoneLater n (suc i) (t ∷ ts) h = (h.0, remove_at-NoneLater n i ts h.1)

probes-remove_at :
    (n i : ℕ) (ts : List PermitToken) (t : PermitToken)
    → get_elem? ts i ≡ some t
    → probes n ts ≡ (if t.epoch == n && is_probe t.phase then 1 else 0) + probes n (remove_at i ts)
probes-remove_at n i [] t h = cc
probes-remove_at n zero (x ∷ ts) t h = ground arith
probes-remove_at n (suc i) (x ∷ ts) t h = ground (arith, probes-remove_at n i ts t h)

module _ {F : Type 0} (fl : Float64 F) (config : BreakerConfig F) where
  acquire-IsAccounted :
      (n : ℕ) (s : MachineState) (ts : List PermitToken) (now : ℕ) (a : Acquired)
      → IsAccounted config (record { inner = record { epoch = n; state = s }; permits = ts })
      → n + 1 < 2 ^ 64
      → try_acquire config (record { epoch = n; state = s }) now ≡ some a
      → IsAccounted config (record { inner = a.inner; permits = keep_permit a.result ts })
        × (a.inner.epoch ≤ n + 1)
  unfolding try_acquire
  acquire-IsAccounted n (MachineState.closed w) ts now a v small e = ground arith
  acquire-IsAccounted n (MachineState.opened until d) ts now a v small e =
      ground
        (arith, NoneLater-mono n (n + 1) ts v.none_later, probes_later n (n + 1) ts v.none_later)
  acquire-IsAccounted n (MachineState.half_open k wins previous) ts now a v small e = ground arith

  -- Finishing a permit of the current epoch, seen from the permits that are left.
  complete_phase-IsAccounted :
      (phase : PermitPhase) (n : ℕ) (s : MachineState) (left : List PermitToken) (now : ℕ)
      (impact : BreakerImpact)
      → NoneLater n left
      → (if is_probe phase then 1 else 0) + probes n left ≡ in_flight s
      → in_flight s ≤ config.half_open_concurrency
      → n + 1 < 2 ^ 64
      → let r = (complete_phase fl config phase (record { epoch = n; state = s }) now impact).0 in
        IsAccounted config (record { inner = r; permits = left }) × (r.epoch ≤ n + 1)
  unfolding complete_phase
  complete_phase-IsAccounted PermitPhase.closed n (MachineState.closed w) left now impact h c b
        small =
      ground (arith, NoneLater-mono n (n + 1) left h, probes_later n (n + 1) left h)
  complete_phase-IsAccounted PermitPhase.closed n (MachineState.opened u d) left now impact h c b
        small =
      ground arith
  complete_phase-IsAccounted PermitPhase.closed n (MachineState.half_open k wins previous) left now
        impact h c b small =
      ground arith
  complete_phase-IsAccounted PermitPhase.half_open n (MachineState.closed w) left now impact h c b
        small =
      ground arith
  complete_phase-IsAccounted PermitPhase.half_open n (MachineState.opened u d) left now impact h c b
        small =
      ground arith
  complete_phase-IsAccounted PermitPhase.half_open n (MachineState.half_open k wins previous) left
        now impact h c b small =
      ground (arith, NoneLater-mono n (n + 1) left h, probes_later n (n + 1) left h)

  finish-IsAccounted :
      (n : ℕ) (s : MachineState) (ts : List PermitToken) (i now : ℕ) (t : PermitToken)
      (o : PermitOutcome)
      → IsAccounted config (record { inner = record { epoch = n; state = s }; permits = ts })
      → n + 1 < 2 ^ 64
      → get_elem? ts i ≡ some t
      → let r = (complete fl config (record { epoch = n; state = s }) now t o).0 in
        IsAccounted config (record { inner = r; permits = remove_at i ts }) × (r.epoch ≤ n + 1)
  unfolding complete
  finish-IsAccounted n s ts i now t o v small e = elim (Bool-cases (t.epoch == n)) [
    | inl same ↦ rw same (
        complete_phase-IsAccounted t.phase n s (remove_at i ts) now (impact_of o)
          (remove_at-NoneLater n i ts v.none_later) (ground (arith, probes-remove_at n i ts t e))
          v.bounded small)
    | inr other ↦ rw other (
      record {
        none_later = remove_at-NoneLater n i ts v.none_later;
        counted = ground (arith, probes-remove_at n i ts t e);
        bounded = v.bounded;
      },
      omega arith,
    )
  ]

  pub step-IsAccounted :
      (b : Breaker) (e : Event)
      → IsAccounted config b
      → b.inner.epoch + 1 < 2 ^ 64
      → IsAccounted config (step fl config b e)
        × ((step fl config b e).inner.epoch ≤ b.inner.epoch + 1)
  unfolding step
  step-IsAccounted b (acquire now) v small = elim (Option-cases (try_acquire config b.inner now)) [
    | inl e ↦ rw (e, step) (v, omega arith)
    | inr (a, e) ↦
        rw (e, step) (acquire-IsAccounted b.inner.epoch b.inner.state b.permits now a v small e)
  ]
  step-IsAccounted b (finish i now o) v small = elim (Option-cases (get_elem? b.permits i)) [
    | inl e ↦ rw (e, step) (v, omega arith)
    | inr (t, e) ↦
        rw (e, step) (finish-IsAccounted b.inner.epoch b.inner.state b.permits i now t o v small e)
  ]

  run_from-IsAccounted :
      (b : Breaker) (es : List Event)
      → IsAccounted config b
      → b.inner.epoch + length es < 2 ^ 64
      → IsAccounted config (run fl config b es)
  unfolding run
  run_from-IsAccounted b [] v small = v
  run_from-IsAccounted b (e ∷ es) v small =
      let next = step-IsAccounted b e v (omega arith) in
      run_from-IsAccounted (step fl config b e) es next.0 (omega (arith, next.1))

  -- The breaker with no permit given out.
  abbrev pub fresh : ℕ → Breaker
  fresh now = record { inner = new_breaker config now; permits = [] }

  -- After any fewer than 2 ^ 64 calls a half-open breaker counts in flight exactly the probes of its
  -- epoch that are still held, and never more than `half_open_concurrency` of them.
  pub run-IsAccounted :
      (start : ℕ) (es : List Event)
      → length es < 2 ^ 64
      → IsAccounted config (run fl config (fresh start) es)
  unfolding new_breaker
  run-IsAccounted start es small =
      run_from-IsAccounted (fresh start) es
        (record { none_later = tt; counted = refl; bounded = omega arith }) (omega arith)
