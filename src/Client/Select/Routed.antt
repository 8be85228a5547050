-- ===== src/Client/Select/Routed.antt =====
-- Lists that are filtered and routed in `select_endpoint` of fusen/src/client/invocation.rs.
use mathlib.Core.List.{Memᴰ}
use fusen_rs.Client.Instances.{same_instance, validate_output}
use fusen_rs.Client.Instances.Subset.{count, validate_output_iff}
use fusen_rs.Client.Instances.Equal.{same_instance_iff}
use fusen_rs.Client.Select.{Caught, returned, failed, panicked, route_all, routed, keep_if}
use fusen_rs.Prelude.{
  ℕ, zero, suc, ◌≡◌, ◌≤◌, ◌↔◌, arith, refl, sym, subst, inl, inr, Bool, true, some, List, [], ◌∷◌,
  ok, get_elem?, Result-cases, Bool-cases,
}
use fusen_rs.Contract.Http.{ServiceInstance}

module _ {ℓ} {A : Type ℓ} where
  pub kept : (p : A → Bool) (x : A) (xs : List A) → Memᴰ x (keep_if p xs) → Memᴰ x xs × (p x ≡ true)
  unfolding keep_if
  kept p x [] m = elim m [ ]
  kept p x (y ∷ ys) m = elim (Bool-cases (p y)) [
    | inl e ↦ elim (rw (e, keep_if) at m) [
      | Memᴰ.head same ↦ (Memᴰ.head same, rw same e)
      | Memᴰ.tail later ↦ let (l, q) = kept p x ys later in (Memᴰ.tail l, q)
    ]
    | inr e ↦ let (l, q) = kept p x ys (rw (e, keep_if) at m) in (Memᴰ.tail l, q)
  ]

  pub keeping :
      (p : A → Bool) (x : A) (xs : List A) → Memᴰ x xs → p x ≡ true → Memᴰ x (keep_if p xs)
  unfolding keep_if
  keeping p x [] m e = elim m [ ]
  keeping p x (y ∷ ys) (Memᴰ.head same) e = rw (sym same, e) (Memᴰ.head refl)
  keeping p x (y ∷ ys) (Memᴰ.tail later) e = elim (Bool-cases (p y)) [
    | inl q ↦ rw (q, keep_if) (Memᴰ.tail (keeping p x ys later e))
    | inr q ↦ rw (q, keep_if) (keeping p x ys later e)
  ]

  pub get_elem?-Memᴰ : (xs : List A) (i : ℕ) (x : A) → get_elem? xs i ≡ some x → Memᴰ x xs
  get_elem?-Memᴰ [] i x h = absurd (cc)
  get_elem?-Memᴰ (y ∷ ys) zero x h = Memᴰ.head (cc)
  get_elem?-Memᴰ (y ∷ ys) (suc i) x h = Memᴰ.tail (get_elem?-Memᴰ ys i x h)

  module _ (same : A → A → Bool) (same_iff : (x y : A) → (same x y ≡ true) ↔ (x ≡ y)) where
    listed_counts : (x : A) (xs : List A) → Memᴰ x xs → 1 ≤ count same same_iff x xs
    listed_counts x [] m = elim m [ ]
    listed_counts x (y ∷ ys) (Memᴰ.head e) = let s = (same_iff y x).1 (sym e) in rw s (omega arith)
    listed_counts x (y ∷ ys) (Memᴰ.tail later) = omega (arith, listed_counts x ys later)

    counts_listed : (x : A) (xs : List A) → 1 ≤ count same same_iff x xs → Memᴰ x xs
    counts_listed x [] h = absurd (omega arith)
    counts_listed x (y ∷ ys) h = elim (Bool-cases (same y x)) [
      | inl e ↦ Memᴰ.head (sym ((same_iff y x).0 e))
      | inr e ↦ Memᴰ.tail (counts_listed x ys (ground (arith, e)))
    ]

    -- An accepted output lists only what the input lists.
    validated :
        (x : A) (input output : List A)
        → validate_output same input output ≡ true
        → Memᴰ x output
        → Memᴰ x input
    validated x input output h m = counts_listed x input (
        omega
          (arith, (validate_output_iff same same_iff input output).0 h x, listed_counts x output m))

module _ {W : Type 0} (weight_eq : W → W → Bool)
    (weight_eq_iff : (a b : W) → (weight_eq a b ≡ true) ↔ (a ≡ b)) where
  routed_lem :
      (input output : List (ServiceInstance W)) (c : Caught (List (ServiceInstance W)))
      → routed weight_eq input c ≡ ok output
      → (x : ServiceInstance W) → Memᴰ x output
      → Memᴰ x input
  routed_lem input output (returned o) h x m =
      elim (Bool-cases (validate_output (same_instance weight_eq) input o)) [
        | inl e ↦
            let same : o ≡ output = cc (rw e at h) in
            validated (same_instance weight_eq) (same_instance_iff weight_eq weight_eq_iff) x input
              o e (subst (λ l. Memᴰ x l) (sym same) m)
        | inr e ↦ absurd (cc (rw e at h))
      ]
  routed_lem input output (failed e) h x m = absurd (cc)
  routed_lem input output panicked h x m = absurd (cc)

  pub route_all_lem :
      (routers : List (List (ServiceInstance W) → Caught (List (ServiceInstance W))))
      (input output : List (ServiceInstance W))
      → route_all weight_eq routers input ≡ ok output
      → (x : ServiceInstance W) → Memᴰ x output
      → Memᴰ x input
  unfolding route_all
  route_all_lem [] input output h x m =
      let same : input ≡ output = cc in subst (λ l. Memᴰ x l) (sym same) m
  route_all_lem (r ∷ rs) input output h x m =
      elim (Result-cases (routed weight_eq input (r input))) [
        | inl (mid, e) ↦
            routed_lem input mid (r input) e x
              (route_all_lem rs mid output (rw (e, route_all) at h) x m)
        | inr (e, q) ↦ absurd (cc (rw (q, route_all) at h))
      ]
