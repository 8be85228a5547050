-- ===== src/Resilience/Window/Bounds.antt =====
-- Bounds of `RollingWindow` in fusen/src/resilience/breaker.rs: 32-bit buckets, a 64-bit sum, and the
-- time that the current bucket covers.
use native.Mathlib.Nat.{mod-lt, mod-add-div'}
use fusen_rs.Resilience.Window.{
  Bucket, empty_bucket, RollingWindow, u32_max, new, shift, shifts, advance, record_success,
  record_failure, counts, samples,
}
use fusen_rs.Resilience.Window.Ages.{IsWindow, elapsed_steps, advance_cases}
use fusen_rs.Resilience.Window.Counts.{total, wins, losses, counts-tally}
use fusen_rs.Prelude.{
  ℕ, zero, suc, ◌+◌, ◌-◌, ◌*◌, ◌^◌, ◌<◌, ◌≤◌, ◌≡◌, refl, inl, inr, List, [], ◌∷◌, arith, length,
  get_or, set, replicate,
}

-- Every counter fits 32 bits.
abbrev pub AllFit : List Bucket → Type 0
AllFit [] = Unit {0}
AllFit (b ∷ bs) = (b.successes ≤ u32_max) × (b.failures ≤ u32_max) × AllFit bs

abbrev pub Fits : RollingWindow → Type 0
Fits w = AllFit w.buckets

replicate-AllFit : (n : ℕ) → AllFit (replicate n empty_bucket)
replicate-AllFit zero = tt
replicate-AllFit (suc n) = (omega arith, omega arith, replicate-AllFit n)

set-AllFit :
    (xs : List Bucket) (i : ℕ) (b : Bucket)
    → b.successes ≤ u32_max
    → b.failures ≤ u32_max
    → AllFit xs
    → AllFit (set xs i b)
set-AllFit [] i b hs hf h = tt
set-AllFit (x ∷ xs) zero b hs hf h = (hs, hf, h.2)
set-AllFit (x ∷ xs) (suc i) b hs hf h = (h.0, h.1, set-AllFit xs i b hs hf h.2)

get_or-Fits :
    (xs : List Bucket) (i : ℕ)
    → AllFit xs
    → ((get_or xs i empty_bucket).successes ≤ u32_max)
      × ((get_or xs i empty_bucket).failures ≤ u32_max)
get_or-Fits [] i h = (omega arith, omega arith)
get_or-Fits (x ∷ xs) zero h = (h.0, h.1)
get_or-Fits (x ∷ xs) (suc i) h = get_or-Fits xs i h.2

pub new-Fits : (window n now : ℕ) → Fits (new window n now)
unfolding new
new-Fits window n now = replicate-AllFit n

shifts-Fits : (k : ℕ) (w : RollingWindow) → Fits w → Fits (shifts k w)
unfolding shifts shift
shifts-Fits zero w h = h
shifts-Fits (suc k) w h =
    shifts-Fits k (shift w) (set-AllFit w.buckets _ empty_bucket (omega arith) (omega arith) h)

pub advance-Fits : (w : RollingWindow) (now : ℕ) → Fits w → Fits (advance w now)
advance-Fits w now h = elim (advance_cases w now) [
  | inl (_, e) ↦ rw e h
  | inr (inl (_, e)) ↦ rw e (replicate-AllFit (length w.buckets))
  | inr (inr (_, e)) ↦ rw e (shifts-Fits _ w h)
]

pub record_success-Fits : (w : RollingWindow) → Fits w → Fits (record_success w)
unfolding record_success
record_success-Fits w h =
    set-AllFit w.buckets w.current _ (omega arith) (get_or-Fits w.buckets w.current h).1 h

pub record_failure-Fits : (w : RollingWindow) → Fits w → Fits (record_failure w)
unfolding record_failure
record_failure-Fits w h =
    set-AllFit w.buckets w.current _ (get_or-Fits w.buckets w.current h).0 (omega arith) h

total_bound :
    (xs : List Bucket)
    → AllFit xs
    → (total wins xs ≤ length xs * u32_max) × (total losses xs ≤ length xs * u32_max)
total_bound [] h = (omega arith, omega arith)
total_bound (x ∷ xs) h =
    (omega (arith, (total_bound xs h.2).0), omega (arith, (total_bound xs h.2).1))

-- The 64-bit sums of `counts` and `samples` do not overflow with at most 255 buckets of 32-bit
-- counters.
samples_no_overflow :
    (w : RollingWindow) → Fits w → length w.buckets ≤ 255 → samples (counts w) < 2 ^ 64
samples_no_overflow w h n =
    rw (counts-tally w) (omega (arith, (total_bound w.buckets h).0, (total_bound w.buckets h).1))

shifts_start :
    (k : ℕ) (w : RollingWindow)
    → ((shifts k w).current_start ≡ w.current_start + k * w.bucket_width)
      × ((shifts k w).bucket_width ≡ w.bucket_width)
unfolding shifts shift
shifts_start zero w = (omega arith, refl)
shifts_start (suc k) w = (omega (arith, (shifts_start k (shift w)).0), (shifts_start k (shift w)).1)

-- After advancing a well-formed window, its current bucket does not end before `now`.
pub advance_covers :
    (w : RollingWindow) (now : ℕ)
    → IsWindow w
    → now - (advance w now).current_start < (advance w now).bucket_width
advance_covers w now v = elim (advance_cases w now) [
  | inl (h, e) ↦ rw e (grind arith)
  | inr (inl (_, e)) ↦ rw e (omega (arith, v.wide))
  | inr (inr (_, e)) ↦
      rw (e, (shifts_start (elapsed_steps w now) w).0, (shifts_start (elapsed_steps w now) w).1)
        (omega (
          arith,
          mod-lt (now - w.current_start) v.wide,
          mod-add-div' (now - w.current_start) w.bucket_width,
        ))
]
