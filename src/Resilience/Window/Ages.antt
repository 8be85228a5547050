-- ===== src/Resilience/Window/Ages.antt =====
-- The ring of `RollingWindow` (fusen/src/resilience/breaker.rs) read as a queue of buckets by age.
use mathlib.Core.List.{append-nil, reverse-cons}
use fusen_rs.Resilience.Window.{Bucket, empty_bucket, RollingWindow, new, shift, shifts, advance}
use fusen_rs.Resilience.Window.Lists.{
  newest_first, length-newest_first, newest_first-set_next, newest_first-set_first,
}
use native.Mathlib.Nat.{mod-lt, mod-eq_of_lt, mod_self}
use fusen_rs.Prelude.{
  dec_lt, ℕ, zero, suc, ◌+◌, ◌-◌, ◌/◌, ◌%◌, ◌<◌, ◌≤◌, ◌≡◌, refl, sym, ap, ◌∙◌, ◌⊎◌, inl, inr, List,
  [], ◌∷◌, ◌++◌, reverse, arith, length, take, replicate, length-set, length-replicate, take_all,
  take-append_le, take-replicate,
}

pub record IsWindow (w : RollingWindow) : Type 0 where
  pub in_ring : w.current < length w.buckets
  pub wide : 0 < w.bucket_width

-- The buckets from the current one to the oldest.
abbrev pub ages : RollingWindow → List Bucket
ages w = newest_first (suc w.current) w.buckets

-- The number of whole bucket widths between the start of the current bucket and `now`.
abbrev pub elapsed_steps : RollingWindow → ℕ → ℕ
elapsed_steps w now = (now - w.current_start) / w.bucket_width

pub length-ages : (w : RollingWindow) → length (ages w) ≡ length w.buckets
length-ages w = length-newest_first (suc w.current) w.buckets

pub new-IsWindow : (window n now : ℕ) → 0 < n → IsWindow (new window n now)
unfolding new
new-IsWindow window n now h = record {
  in_ring = omega (arith, length-replicate n empty_bucket);
  wide = omega arith;
}

wrap : (c n : ℕ) → c + 1 ≡ n → (c + 1) % n ≡ 0
wrap c n e = rw e (mod_self n)

-- The next slot, at the end of the ring or before it.
next_slot :
    (c n : ℕ) → c < n → ((suc c < n) × ((c + 1) % n ≡ suc c)) ⊎ ((suc c ≡ n) × ((c + 1) % n ≡ 0))
next_slot c n h = elim (dec_lt (suc c) n) [
  | yes more ↦ inl (more, mod-eq_of_lt (omega arith) ∙ omega arith)
  | no last ↦ inr (omega arith, wrap c n (omega arith))
]

length-shift : (w : RollingWindow) → length (shift w).buckets ≡ length w.buckets
unfolding shift
length-shift w = length-set w.buckets _ empty_bucket

shift-IsWindow : (w : RollingWindow) → IsWindow w → IsWindow (shift w)
unfolding shift
shift-IsWindow w v = record {
  in_ring = omega (
    arith,
    length-shift w,
    length-set w.buckets ((w.current + 1) % length w.buckets) empty_bucket,
    mod-lt (w.current + 1) {m = length w.buckets} (omega arith),
  );
  wide = v.wide;
}

ages-shift :
    (w : RollingWindow)
    → IsWindow w
    → ages (shift w) ≡ take (length w.buckets) (empty_bucket ∷ ages w)
unfolding shift
ages-shift w v = elim (next_slot w.current (length w.buckets) v.in_ring) [
  | inl (h, e) ↦ rw e (newest_first-set_next (suc w.current) w.buckets empty_bucket h)
  | inr (h, e) ↦ rw e (
      newest_first-set_first w.buckets empty_bucket (omega arith)
      ∙ ap (λ k. take (length w.buckets) (empty_bucket ∷ newest_first k w.buckets)) (sym h))
]

take-append_take {ℓ} :
    {A : Type ℓ} (n m : ℕ) (xs ys : List A) → n ≤ m → take n (xs ++ take m ys) ≡ take n (xs ++ ys)
take-append_take zero m xs ys h = refl
take-append_take (suc n) zero xs ys h = absurd (omega arith)
take-append_take (suc n) (suc m) [] [] h = refl
take-append_take (suc n) (suc m) [] (y ∷ ys) h =
    ap (◌∷◌ y) (take-append_take n m [] ys (omega arith))
take-append_take (suc n) (suc m) (x ∷ xs) ys h =
    ap (◌∷◌ x) (take-append_take n (suc m) xs ys (omega arith))

replicate_push {ℓ} :
    {A : Type ℓ} (k : ℕ) (a : A) (ys : List A) → replicate k a ++ a ∷ ys ≡ a ∷ (replicate k a ++ ys)
replicate_push zero a ys = refl
replicate_push (suc k) a ys = ap (◌∷◌ a) (replicate_push k a ys)

length-shifts : (k : ℕ) (w : RollingWindow) → length (shifts k w).buckets ≡ length w.buckets
unfolding shifts
length-shifts zero w = refl
length-shifts (suc k) w = length-shifts k (shift w) ∙ length-shift w

shifts-IsWindow : (k : ℕ) (w : RollingWindow) → IsWindow w → IsWindow (shifts k w)
unfolding shifts
shifts-IsWindow zero w v = v
shifts-IsWindow (suc k) w v = shifts-IsWindow k (shift w) (shift-IsWindow w v)

ages-shifts :
    (k : ℕ) (w : RollingWindow)
    → IsWindow w
    → ages (shifts k w) ≡ take (length w.buckets) (replicate k empty_bucket ++ ages w)
unfolding shifts
ages-shifts zero w v = sym (take_all (length w.buckets) (ages w) (omega (arith, length-ages w)))
ages-shifts (suc k) w v =
    ages-shifts k (shift w) (shift-IsWindow w v)
    ∙ rw (length-shift w, ages-shift w v)
        (take-append_take (length w.buckets) (length w.buckets) (replicate k empty_bucket)
            (empty_bucket ∷ ages w) (omega arith)
          ∙ ap (take (length w.buckets)) (replicate_push k empty_bucket (ages w)))

reverse-replicate {ℓ} : {A : Type ℓ} (k : ℕ) (a : A) → reverse (replicate k a) ≡ replicate k a
reverse-replicate zero a = refl
reverse-replicate (suc k) a =
    reverse-cons a (replicate k a)
    ∙ rw (reverse-replicate k a, replicate_push k a [], append-nil (replicate k a))

-- The window with every bucket empty, its current bucket started at `now`.
abbrev pub reset : RollingWindow → ℕ → RollingWindow
reset w now = record w {
  buckets = replicate (length w.buckets) empty_bucket;
  current = 0;
  current_start = now;
}

ages-reset :
    (w : RollingWindow) (now : ℕ)
    → 0 < length w.buckets
    → ages (reset w now) ≡ replicate (length w.buckets) empty_bucket
ages-reset w now h = go (length w.buckets) h
  where
    go : (n : ℕ) → 0 < n → newest_first 1 (replicate n empty_bucket) ≡ replicate n empty_bucket
    go zero h = elim h [ ]
    go (suc n) h = ap (◌∷◌ empty_bucket) (reverse-replicate n empty_bucket)

-- The three ways through `advance`.
pub advance_cases :
    (w : RollingWindow) (now : ℕ)
    → ((elapsed_steps w now ≡ 0) × (advance w now ≡ w))
      ⊎ ((length w.buckets ≤ elapsed_steps w now) × (advance w now ≡ reset w now))
      ⊎ ((elapsed_steps w now < length w.buckets)
          × (advance w now ≡ shifts (elapsed_steps w now) w))
unfolding advance
advance_cases w now = ground arith

pub advance-IsWindow : (w : RollingWindow) (now : ℕ) → IsWindow w → IsWindow (advance w now)
advance-IsWindow w now v = elim (advance_cases w now) [
  | inl (_, e) ↦ rw e v
  | inr (inl (_, e)) ↦ rw e (record {
    in_ring = omega (arith, v.in_ring, length-replicate (length w.buckets) empty_bucket);
    wide = v.wide;
  })
  | inr (inr (_, e)) ↦ rw e (shifts-IsWindow _ w v)
]

-- Advancing a well-formed window pushes one empty bucket for each whole width elapsed and drops as
-- many of the oldest.
pub ages-advance :
    (w : RollingWindow) (now : ℕ)
    → IsWindow w
    → ages (advance w now)
      ≡ take (length w.buckets) (replicate (elapsed_steps w now) empty_bucket ++ ages w)
ages-advance w now v = elim (advance_cases w now) [
  | inl (none_yet, e) ↦
      rw (e, none_yet) (sym (take_all (length w.buckets) (ages w) (omega (arith, length-ages w))))
  | inr (inl (all, e)) ↦ rw e (
      ages-reset w now (omega arith)
      ∙ sym (
          take-append_le (length w.buckets) (replicate (elapsed_steps w now) empty_bucket) (ages w)
            (omega (arith, length-replicate (elapsed_steps w now) empty_bucket))
          ∙ take-replicate (length w.buckets) (elapsed_steps w now) empty_bucket all))
  | inr (inr (_, e)) ↦ rw e (ages-shifts _ w v)
]
