-- ===== src/Resilience/Window.antt =====
-- fusen/src/resilience/breaker.rs: `RollingWindow`, a ring of counting buckets over time.
-- Instants and durations are numbers of nanoseconds.
mod Lists
pub mod Ages
pub mod Counts
pub mod Bounds
use fusen_rs.Prelude.{
  ℕ, zero, suc, ◌+◌, ◌-◌, ◌/◌, ◌%◌, min, max, List, [], ◌∷◌, length, get_or, set, replicate, leb,
  ◌==◌, if◌then◌else◌,
}

pub record Bucket : Type 0 where
  pub successes : ℕ
  pub failures : ℕ

abbrev pub empty_bucket : Bucket
empty_bucket = record { successes = 0; failures = 0 }

pub record RollingWindow : Type 0 where
  pub buckets : List Bucket
  pub current : ℕ
  pub current_start : ℕ
  pub bucket_width : ℕ

-- `u32::MAX`.
abbrev pub u32_max : ℕ
u32_max = 4294967295

abbrev pub saturating_add_u32 : ℕ → ℕ → ℕ
saturating_add_u32 a b = min (a + b) u32_max

pub new : ℕ → ℕ → ℕ → RollingWindow
new window buckets now = record {
  buckets = replicate buckets empty_bucket;
  current = 0;
  current_start = now;
  bucket_width = max (window / buckets) 1;
}

-- One round of the loop of `advance`.
pub shift : RollingWindow → RollingWindow
shift w =
    let c = (w.current + 1) % length w.buckets in
    record w {
      current = c;
      buckets = set w.buckets c empty_bucket;
      current_start = w.current_start + w.bucket_width;
    }

pub shifts : ℕ → RollingWindow → RollingWindow
shifts zero w = w
shifts (suc k) w = shifts k (shift w)

unfoldable pub advance : RollingWindow → ℕ → RollingWindow
advance w now =
    let steps = (now - w.current_start) / w.bucket_width in
    if steps == 0
    then w
    else if leb (length w.buckets) steps
    then record w {
      buckets = replicate (length w.buckets) empty_bucket;
      current = 0;
      current_start = now;
    }
    else shifts steps w

abbrev pub at_current : (Bucket → Bucket) → RollingWindow → RollingWindow
at_current f w = record w {
  buckets = set w.buckets w.current (f (get_or w.buckets w.current empty_bucket));
}

unfoldable pub record_success : RollingWindow → RollingWindow
record_success = at_current (λ b. record b { successes = saturating_add_u32 b.successes 1 })

unfoldable pub record_failure : RollingWindow → RollingWindow
record_failure = at_current (λ b. record b { failures = saturating_add_u32 b.failures 1 })

pub record WindowCounts : Type 0 where
  pub successes : ℕ
  pub failures : ℕ

pub sum_buckets : WindowCounts → List Bucket → WindowCounts
sum_buckets c [] = c
sum_buckets c (b ∷ bs) =
    sum_buckets
      (record { successes = c.successes + b.successes; failures = c.failures + b.failures }) bs

unfoldable pub counts : RollingWindow → WindowCounts
unfolding sum_buckets
counts w = sum_buckets (record { successes = 0; failures = 0 }) w.buckets

abbrev pub samples : WindowCounts → ℕ
samples c = c.successes + c.failures
