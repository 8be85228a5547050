-- ===== src/Client/Instances/Subset.antt =====
-- The test of router outputs in fusen/src/client/invocation.rs, in terms of how often instances occur.
use fusen_rs.Client.Instances.{claim, claim_all, unmatched, validate_output}
use fusen_rs.Prelude.{
  ℕ, ◌+◌, ◌≤◌, ◌≡◌, ◌↔◌, refl, sym, inl, inr, Bool, true, ◌&&◌, not, none, some, List, [], ◌∷◌,
  if◌then◌else◌, arith, Bool-cases, Option-cases,
}

module _ {ℓ} {A : Type ℓ} (same : A → A → Bool)
    (same_iff : (x y : A) → (same x y ≡ true) ↔ (x ≡ y)) where
  -- How often `x` occurs.
  abbrev pub count : A → List A → ℕ
  count x [] = 0
  count x (y ∷ ys) = (if same y x then 1 else 0) + count x ys

  -- How often `x` occurs unmatched.
  abbrev free : A → List A → List Bool → ℕ
  free x [] flags = 0
  free x (y ∷ ys) [] = 0
  free x (y ∷ ys) (flag ∷ flags) = (if not flag && same y x then 1 else 0) + free x ys flags

  claimed :
      (x : A) (input : List A) (flags flags' : List Bool)
      → claim same x input flags ≡ some flags'
      → (y : A) → free y input flags ≡ free y input flags' + (if same x y then 1 else 0)
  unfolding claim
  claimed x [] flags flags' h y = absurd (cc)
  claimed x (c ∷ input) [] flags' h y = absurd (cc)
  claimed x (c ∷ input) (flag ∷ flags) flags' h y = elim (Bool-cases (not flag && same c x)) [
    | inl found ↦ ground (arith, found, rw (found, claim) at h, same_iff c x)
    | inr other ↦ elim (Option-cases (claim same x input flags)) [
      | inl n ↦ absurd (cc (rw (other, n, claim) at h))
      | inr (later, e) ↦
          let rest = claimed x input flags later e y in
          ground (arith, rw (other, e, claim) at h, rest)
    ]
  ]

  unclaimed :
      (x : A) (input : List A) (flags : List Bool)
      → claim same x input flags ≡ none
      → free x input flags ≡ 0
  unfolding claim
  unclaimed x [] flags h = refl
  unclaimed x (c ∷ input) [] h = refl
  unclaimed x (c ∷ input) (flag ∷ flags) h = elim (Bool-cases (not flag && same c x)) [
    | inl found ↦ absurd (cc (rw (found, claim) at h))
    | inr other ↦ elim (Option-cases (claim same x input flags)) [
      | inl n ↦ rw other (omega (arith, unclaimed x input flags n))
      | inr (later, e) ↦ absurd (cc (rw (other, e, claim) at h))
    ]
  ]

  counts_fit :
      (input output : List A) (flags : List Bool)
      → claim_all same input output flags ≡ true
      → (y : A) → count y output ≤ free y input flags
  unfolding claim_all
  counts_fit input [] flags h y = omega arith
  counts_fit input (x ∷ output) flags h y = elim (Option-cases (claim same x input flags)) [
    | inl n ↦ absurd (cc (rw (n, claim_all) at h))
    | inr (flags', e) ↦
        let rest = counts_fit input output flags' (rw (e, claim_all) at h) y in
        let step = claimed x input flags flags' e y in rw step (ground (arith, rest))
  ]

  fitting_counts :
      (input output : List A) (flags : List Bool)
      → ((y : A) → count y output ≤ free y input flags)
      → claim_all same input output flags ≡ true
  unfolding claim_all
  fitting_counts input [] flags h = refl
  fitting_counts input (x ∷ output) flags h = elim (Option-cases (claim same x input flags)) [
    | inl n ↦
        let nothing = unclaimed x input flags n in
        absurd (ground (arith, nothing, h x, (same_iff x x).1 refl))
    | inr (flags', e) ↦
        rw (e, claim_all)
          (fitting_counts input output flags'
            (λ y. ground (arith, h y, claimed x input flags flags' e y)))
  ]

  free-unmatched : (y : A) (input : List A) → free y input (unmatched input) ≡ count y input
  unfolding unmatched
  free-unmatched y [] = refl
  free-unmatched y (c ∷ input) = ground (arith, free-unmatched y input)

  -- An output is accepted exactly when no instance occurs in it more often than in the input.
  pub validate_output_iff :
      (input output : List A)
      → (validate_output same input output ≡ true) ↔ ((y : A) → count y output ≤ count y input)
  unfolding validate_output
  validate_output_iff input output = (
    λ h y. rw (sym (free-unmatched y input)) (counts_fit input output (unmatched input) h y),
    λ h. fitting_counts input output (unmatched input) (λ y. rw (free-unmatched y input) (h y)),
  )
