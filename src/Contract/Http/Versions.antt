-- ===== src/Contract/Http/Versions.antt =====
-- The version sets of fusen-contract/src/http.rs as sets of versions.
use fusen_rs.Contract.Http.{Version, http_11, http_2, collect_bits, new_version_set, contains}
use Prim.Native.Nat.{bit_or}
use fusen_rs.Prelude.{
  ℕ, ◌≡◌, inl, inr, refl, sym, ap, ◌∙◌, Bool, true, false, ◌||◌, List, [], ◌∷◌, ok, arith,
  Result-cases,
}

-- Whether a version is 1.1, or 2.
abbrev pub is_11 : Version → Bool
is_11 http_11 = true
is_11 _ = false

abbrev pub is_2 : Version → Bool
is_2 http_2 = true
is_2 _ = false

abbrev pub any_version : (Version → Bool) → List Version → Bool
any_version p [] = false
any_version p (v ∷ vs) = p v || any_version p vs

-- The bits of the two flags.
abbrev bits_of : Bool → Bool → ℕ
bits_of false false = 0
bits_of true false = 1
bits_of false true = 2
bits_of true true = 3

or_11 : (a b : Bool) → bit_or (bits_of a b) 1 ≡ bits_of true b
or_11 false false = refl
or_11 false true = refl
or_11 true false = refl
or_11 true true = refl

or_2 : (a b : Bool) → bit_or (bits_of a b) 2 ≡ bits_of a true
or_2 false false = refl
or_2 false true = refl
or_2 true false = refl
or_2 true true = refl

or_true : (a : Bool) → (a || true) ≡ true
or_true true = refl
or_true false = refl

collected :
    (a b : Bool) (vs : List Version) (set : ℕ)
    → collect_bits (bits_of a b) vs ≡ ok set
    → set ≡ bits_of (a || any_version is_11 vs) (b || any_version is_2 vs)
unfolding collect_bits
collected a b [] set h = ground (arith, h)
collected a b (http_11 ∷ vs) set h = rw (or_true a) (collected true b vs set (rw (or_11 a b) at h))
collected a b (http_2 ∷ vs) set h = rw (or_true b) (collected a true vs set (rw (or_2 a b) at h))
collected a b (_ ∷ vs) set h = absurd (cc)

contains_11 : (a b : Bool) → contains (bits_of a b) http_11 ≡ a
unfolding contains
contains_11 false false = refl
contains_11 false true = refl
contains_11 true false = refl
contains_11 true true = refl

contains_2 : (a b : Bool) → contains (bits_of a b) http_2 ≡ b
unfolding contains
contains_2 false false = refl
contains_2 false true = refl
contains_2 true false = refl
contains_2 true true = refl

-- A set that was made from versions contains 1.1, and 2, exactly when it was made from it.
pub contains-new_version_set :
    (vs : List Version) (set : ℕ)
    → new_version_set vs ≡ ok set
    → (contains set http_11 ≡ any_version is_11 vs) × (contains set http_2 ≡ any_version is_2 vs)
unfolding new_version_set
contains-new_version_set vs set h = elim (Result-cases (collect_bits 0 vs)) [
  | inr (e, n) ↦ absurd (cc (rw (n, new_version_set) at h))
  | inl (bits, n) ↦
      let same : bits ≡ set = ground (arith, rw (n, new_version_set) at h) in
      let flags : set ≡ bits_of (any_version is_11 vs) (any_version is_2 vs) =
        sym same ∙ collected false false vs bits n in
      (
        ap (λ s. contains s http_11) flags ∙ contains_11 _ _,
        ap (λ s. contains s http_2) flags ∙ contains_2 _ _,
      )
]
