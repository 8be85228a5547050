-- ===== src/Resilience/Window/Lists.antt =====
-- List facts for the ring of buckets of fusen/src/resilience/breaker.rs: a ring read from its
-- current slot backwards, and what a write of the next slot does to that reading.
use mathlib.Core.List.{append-nil, append_assoc, reverse-cons, reverse-append}
use fusen_rs.Prelude.{
  ℕ, zero, suc, ◌<◌, ◌≡◌, refl, sym, ap, ◌∙◌, List, [], ◌∷◌, ◌++◌, reverse, arith, length, set,
  take, drop, length-append, length-reverse, length-take, length-drop, take_all, drop_all,
  take-append_le,
}

module _ {ℓ} {A : Type ℓ} where
  -- The first `k` slots from the newest to the oldest, then the others, newest first.
  abbrev pub newest_first : ℕ → List A → List A
  newest_first k xs = reverse (take k xs) ++ reverse (drop k xs)

  pub length-newest_first : (k : ℕ) (xs : List A) → length (newest_first k xs) ≡ length xs
  length-newest_first k xs = omega (
    arith,
    length-append (reverse (take k xs)) (reverse (drop k xs)),
    length-reverse (take k xs),
    length-reverse (drop k xs),
    length-take k xs,
    length-drop k xs,
  )

  take-set_next :
      (k : ℕ) (xs : List A) (e : A)
      → k < length xs
      → take (suc k) (set xs k e) ≡ take k xs ++ e ∷ []
  take-set_next k [] e h = elim h [ ]
  take-set_next zero (x ∷ xs) e h = refl
  take-set_next (suc k) (x ∷ xs) e h = ap (◌∷◌ x) (take-set_next k xs e (omega arith))

  drop-set_next : (k : ℕ) (xs : List A) (e : A) → drop (suc k) (set xs k e) ≡ drop (suc k) xs
  drop-set_next k [] e = refl
  drop-set_next zero (x ∷ xs) e = refl
  drop-set_next (suc k) (x ∷ xs) e = drop-set_next k xs e

  drop_next : (k : ℕ) (xs : List A) → k < length xs → (x : A) × (drop k xs ≡ x ∷ drop (suc k) xs)
  drop_next k [] h = elim h [ ]
  drop_next zero (x ∷ xs) h = (x, refl)
  drop_next (suc k) (x ∷ xs) h = drop_next k xs (omega arith)

  take_push :
      (n : ℕ) (ys : List A) (e x : A) → suc (length ys) ≡ n → take n (e ∷ (ys ++ x ∷ [])) ≡ e ∷ ys
  take_push zero ys e x h = absurd (omega arith)
  take_push (suc n) ys e x h =
      ap (◌∷◌ e) (take-append_le n ys (x ∷ []) (omega arith) ∙ take_all n ys (omega arith))

  -- Writing the slot after the newest pushes a new newest and drops the oldest.
  pub newest_first-set_next :
      (k : ℕ) (xs : List A) (e : A)
      → k < length xs
      → newest_first (suc k) (set xs k e) ≡ take (length xs) (e ∷ newest_first k xs)
  newest_first-set_next k xs e h =
      let (x, d) = drop_next k xs h in
      let D : List A = drop (suc k) xs in
      let T : List A = take k xs in
      rw
        (
          take-set_next k xs e h,
          drop-set_next k xs e,
          d,
          reverse-append T (e ∷ []),
          reverse-cons x D,
        )
        (sym (
          ap (λ ys. take (length xs) (e ∷ ys)) (sym (append_assoc (reverse T) (reverse D) (x ∷ [])))
          ∙ take_push (length xs) (reverse T ++ reverse D) e x (
              omega (
                arith,
                length-append (reverse T) (reverse D),
                length-reverse T,
                length-reverse D,
                length-take k xs,
                length-drop (suc k) xs,
              ))))

  -- At the end of the ring the next slot is the first one.
  pub newest_first-set_first :
      (xs : List A) (e : A)
      → 0 < length xs
      → newest_first 1 (set xs 0 e) ≡ take (length xs) (e ∷ newest_first (length xs) xs)
  newest_first-set_first [] e h = elim h [ ]
  newest_first-set_first (x ∷ xs) e h =
      rw (take_all (length xs) xs (omega arith), drop_all (length xs) xs (omega arith))
        (sym (
          rw (append-nil (reverse (x ∷ xs)), reverse-cons x xs)
            (take_push (suc (length xs)) (reverse xs) e x (omega (arith, length-reverse xs)))))
