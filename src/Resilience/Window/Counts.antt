-- ===== src/Resilience/Window/Counts.antt =====
-- What `RollingWindow::counts` of fusen/src/resilience/breaker.rs adds up.
use mathlib.Core.List.{reverse-cons}
use fusen_rs.Resilience.Window.{
  Bucket, empty_bucket, RollingWindow, u32_max, advance, record_success, record_failure,
  WindowCounts, sum_buckets, counts,
}
use fusen_rs.Resilience.Window.Ages.{IsWindow, ages, elapsed_steps, ages-advance}
use fusen_rs.Prelude.{
  ℕ, zero, suc, ◌+◌, ◌-◌, ◌<◌, ◌≡◌, refl, ap, ◌∙◌, List, [], ◌∷◌, ◌++◌, reverse, arith, length,
  get_or, set, take, drop, replicate,
}

-- The sum of a field over a list of buckets.
abbrev pub total : (Bucket → ℕ) → List Bucket → ℕ
total f [] = 0
total f (b ∷ bs) = f b + total f bs

abbrev pub wins : Bucket → ℕ
wins b = b.successes

abbrev pub losses : Bucket → ℕ
losses b = b.failures

sum_buckets-total :
    (c : WindowCounts) (bs : List Bucket)
    → sum_buckets c bs
      ≡ record { successes = c.successes + total wins bs; failures = c.failures + total losses bs }
unfolding sum_buckets
sum_buckets-total c [] = ground arith
sum_buckets-total c (b ∷ bs) = ground (
  arith,
  sum_buckets-total
      (record { successes = c.successes + b.successes; failures = c.failures + b.failures }) bs,
)

total-append : (f : Bucket → ℕ) (xs ys : List Bucket) → total f (xs ++ ys) ≡ total f xs + total f ys
total-append f [] ys = omega arith
total-append f (x ∷ xs) ys = omega (arith, total-append f xs ys)

total-reverse : (f : Bucket → ℕ) (xs : List Bucket) → total f (reverse xs) ≡ total f xs
total-reverse f [] = refl
total-reverse f (x ∷ xs) = omega (
  arith,
  ap (total f) (reverse-cons x xs),
  total-append f (reverse xs) (x ∷ []),
  total-reverse f xs,
)

total-take-drop :
    (f : Bucket → ℕ) (k : ℕ) (xs : List Bucket)
    → total f (take k xs) + total f (drop k xs) ≡ total f xs
total-take-drop f zero xs = omega arith
total-take-drop f (suc k) [] = omega arith
total-take-drop f (suc k) (x ∷ xs) = omega (arith, total-take-drop f k xs)

total-ages : (f : Bucket → ℕ) (w : RollingWindow) → total f (ages w) ≡ total f w.buckets
total-ages f w = omega (
  arith,
  total-append f (reverse (take (suc w.current) w.buckets))
      (reverse (drop (suc w.current) w.buckets)),
  total-reverse f (take (suc w.current) w.buckets),
  total-reverse f (drop (suc w.current) w.buckets),
  total-take-drop f (suc w.current) w.buckets,
)

-- The totals of both fields over a list of buckets.
abbrev pub tally : List Bucket → WindowCounts
tally bs = record { successes = total wins bs; failures = total losses bs }

pub counts-tally : (w : RollingWindow) → counts w ≡ tally w.buckets
unfolding counts
counts-tally w =
    ground (arith, sum_buckets-total (record { successes = 0; failures = 0 }) w.buckets)

counts-ages : (w : RollingWindow) → counts w ≡ tally (ages w)
counts-ages w = ground (arith, counts-tally w, total-ages wins w, total-ages losses w)

-- Empty buckets in front count for nothing.
total_pushed :
    (f : Bucket → ℕ) (n k : ℕ) (ys : List Bucket)
    → f empty_bucket ≡ 0
    → total f (take n (replicate k empty_bucket ++ ys)) ≡ total f (take (n - k) ys)
total_pushed f zero k ys h = let e : 0 - k ≡ 0 = omega arith in rw e
total_pushed f (suc n) zero ys h = let e : suc n - 0 ≡ suc n = omega arith in rw e
total_pushed f (suc n) (suc k) ys h =
    let e : suc n - suc k ≡ n - k = omega arith in rw e (omega (arith, total_pushed f n k ys h))

-- After advancing, only the buckets that are still young enough are counted.
pub counts-advance :
    (w : RollingWindow) (now : ℕ)
    → IsWindow w
    → counts (advance w now) ≡ tally (take (length w.buckets - elapsed_steps w now) (ages w))
counts-advance w now v =
    counts-ages (advance w now)
    ∙ rw (ages-advance w now v) (
        ground (
          arith,
          total_pushed wins (length w.buckets) (elapsed_steps w now) (ages w),
          total_pushed losses (length w.buckets) (elapsed_steps w now) (ages w),
        ))

total-set :
    (f : Bucket → ℕ) (xs : List Bucket) (i : ℕ) (b : Bucket)
    → i < length xs
    → total f (set xs i b) + f (get_or xs i empty_bucket) ≡ total f xs + f b
total-set f [] i b h = elim h [ ]
total-set f (x ∷ xs) zero b h = omega arith
total-set f (x ∷ xs) (suc i) b h = omega (arith, total-set f xs i b (omega arith))

-- The bucket that records now.
abbrev pub current_bucket : RollingWindow → Bucket
current_bucket w = get_or w.buckets w.current empty_bucket

pub counts-record_success :
    (w : RollingWindow)
    → IsWindow w
    → (current_bucket w).successes < u32_max
    → counts (record_success w) ≡ record (counts w) { successes = (counts w).successes + 1 }
unfolding record_success
counts-record_success w v h =
    let b : Bucket = record (current_bucket w) { successes = (current_bucket w).successes + 1 } in
    ground (
      arith,
      counts-tally w,
      counts-tally (record w { buckets = set w.buckets w.current b }),
      total-set wins w.buckets w.current b v.in_ring,
      total-set losses w.buckets w.current b v.in_ring,
    )

pub counts-record_failure :
    (w : RollingWindow)
    → IsWindow w
    → (current_bucket w).failures < u32_max
    → counts (record_failure w) ≡ record (counts w) { failures = (counts w).failures + 1 }
unfolding record_failure
counts-record_failure w v h =
    let b : Bucket = record (current_bucket w) { failures = (current_bucket w).failures + 1 } in
    ground (
      arith,
      counts-tally w,
      counts-tally (record w { buckets = set w.buckets w.current b }),
      total-set wins w.buckets w.current b v.in_ring,
      total-set losses w.buckets w.current b v.in_ring,
    )
