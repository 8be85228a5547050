-- ===== src/Resilience/Retry/Budget.antt =====
-- The retry budget of fusen/src/resilience/retry.rs over any sequence of calls.
use fusen_rs.Resilience.Retry.{RetryBudget, new_budget, try_acquire, token_scale}
use fusen_rs.Prelude.{ℕ, ◌+◌, ◌-◌, ◌*◌, ◌≤◌, ◌≡◌, List, [], ◌∷◌, if◌then◌else◌, arith}

-- The calls of `try_acquire` at the given times, and the tokens that they took.
abbrev pub acquires : RetryBudget → List ℕ → RetryBudget × ℕ
acquires b [] = (b, 0)
acquires b (now ∷ ts) =
    let (b', granted) = try_acquire b now in
    let (last, n) = acquires b' ts in (last, (if granted then 1 else 0) + n)

-- The clock is monotonic.
abbrev pub Ascending : ℕ → List ℕ → Type 0
Ascending t [] = Unit {0}
Ascending t (u ∷ us) = (t ≤ u) × Ascending u us

-- The time of the last call.
abbrev pub last_time : ℕ → List ℕ → ℕ
last_time t [] = t
last_time t (u ∷ us) = last_time u us

one_call :
    (b : RetryBudget) (now : ℕ)
    → b.last_refill ≤ now
    → let r = try_acquire b now in
      ((if r.1 then 1 else 0) * token_scale + r.0.scaled_tokens
        ≤ b.scaled_tokens + (now - b.last_refill) * b.refill_per_second)
      × (r.0.last_refill ≡ now)
      × (r.0.refill_per_second ≡ b.refill_per_second)
      × (r.0.capacity ≡ b.capacity)
      × (r.0.scaled_tokens ≤ b.capacity * token_scale)
unfolding try_acquire
one_call b now h = ground arith

le-last_time : (t : ℕ) (ts : List ℕ) → Ascending t ts → t ≤ last_time t ts
le-last_time t [] h = omega arith
le-last_time t (u ∷ us) h = omega (arith, h.0, le-last_time u us h.1)

-- Two intervals end to end.
sub-mul_split : (a b c r : ℕ) → a ≤ b → b ≤ c → (c - a) * r ≡ (c - b) * r + (b - a) * r
sub-mul_split a b c r h k = let e : c - a ≡ (c - b) + (b - a) = omega arith in rw e (omega arith)

spent_from :
    (b : RetryBudget) (ts : List ℕ)
    → Ascending b.last_refill ts
    → let r = acquires b ts in
      r.1 * token_scale + r.0.scaled_tokens
      ≤ b.scaled_tokens + (last_time b.last_refill ts - b.last_refill) * b.refill_per_second
spent_from b [] h = omega arith
spent_from b (now ∷ ts) h =
    let b' : RetryBudget = (try_acquire b now).0 in
    let (spent, at_now, rate, _, _) = one_call b now h.0 in
    let rest = spent_from b' ts (rw at_now h.1) in
    let rest' : (acquires b' ts).1 * token_scale + (acquires b' ts).0.scaled_tokens
        ≤ b'.scaled_tokens + (last_time now ts - now) * b.refill_per_second =
      rw (at_now, rate) at rest in
    omega (
      arith,
      spent,
      rest',
      sub-mul_split b.last_refill now (last_time now ts) b.refill_per_second h.0
          (le-last_time now ts h.1),
    )

-- Whatever the calls, the tokens taken by the last of them are at most the capacity and what was
-- refilled since the budget was made. The calls are in the order of a monotonic clock.
pub acquires_bounded :
    (capacity refill_per_second start : ℕ) (ts : List ℕ)
    → Ascending start ts
    → (acquires (new_budget capacity refill_per_second start) ts).1 * token_scale
      ≤ capacity * token_scale + (last_time start ts - start) * refill_per_second
unfolding new_budget
acquires_bounded capacity refill_per_second start ts h =
    let all = spent_from (new_budget capacity refill_per_second start) ts h in omega arith
