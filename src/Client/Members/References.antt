-- ===== src/Client/Members/References.antt =====
-- The reference counts of fusen/src/client/endpoint_breakers.rs count the owners that list an endpoint.
use fusen_rs.Client.Members.{
  DiscoveryEndpoint, member_eq, listed, collect, difference, References, set_reference, incremented,
  decremented, increment_references, decrement_references,
}
use fusen_rs.Prelude.{
  ℕ, ◌+◌, ◌-◌, ◌^◌, ◌<◌, ◌≡◌, ◌↔◌, refl, ap, ◌∙◌, inl, inr, Bool, true, false, Option, none, some,
  List, [], ◌∷◌, if◌then◌else◌, ◌==◌, arith, Bool-cases,
}
use fusen_rs.Prelude.Bytes.{str_eq_iff}

pub member_eq_iff : (a b : DiscoveryEndpoint) → (member_eq a b ≡ true) ↔ (a ≡ b)
unfolding member_eq
member_eq_iff a b = (
  λ h. ground (arith, str_eq_iff a.service b.service, str_eq_iff a.endpoint b.endpoint),
  λ h. ground (arith, str_eq_iff a.service b.service, str_eq_iff a.endpoint b.endpoint),
)

abbrev pub one_if : Bool → ℕ
one_if true = 1
one_if false = 0

-- How often an endpoint occurs.
unfoldable pub times : DiscoveryEndpoint → List DiscoveryEndpoint → ℕ
unfolding member_eq
times e [] = 0
times e (x ∷ xs) = one_if (member_eq x e) + times e xs

-- How the map of references shows a count.
abbrev pub as_count : ℕ → Option ℕ
as_count n = if n == 0 then none else some n

-- The references show the counts `f`.
abbrev pub Shows : References → (DiscoveryEndpoint → ℕ) → Type 0
Shows references f = (e : DiscoveryEndpoint) → references e ≡ as_count (f e)

decremented-as_count : (n : ℕ) → decremented (as_count n) ≡ as_count (n - 1)
decremented-as_count n = ground arith

incremented-as_count : (n : ℕ) → n + 1 < 2 ^ 64 → incremented (as_count n) ≡ as_count (n + 1)
incremented-as_count n h = ground arith

set_decremented :
    (references : References) (f : DiscoveryEndpoint → ℕ) (x : DiscoveryEndpoint)
    → Shows references f
    → Shows
        (set_reference x (decremented (references x)) references)
        (λ e. f e - one_if (member_eq x e))
set_decremented references f x h e = elim (Bool-cases (member_eq x e)) [
  | inl y ↦
      let same : x ≡ e = (member_eq_iff x e).0 y in rw (y, h x, same) (decremented-as_count (f e))
  | inr n ↦ rw (n, h e) (ap (λ n. as_count n) (omega arith))
]

pub decrement_references-Shows :
    (xs : List DiscoveryEndpoint) (references : References) (f : DiscoveryEndpoint → ℕ)
    → Shows references f
    → Shows (decrement_references references xs).0 (λ e. f e - times e xs)
unfolding decrement_references times
decrement_references-Shows [] references f h e = h e ∙ ap (λ n. as_count n) (omega arith)
decrement_references-Shows (x ∷ xs) references f h e =
    decrement_references-Shows xs _ (λ e. f e - one_if (member_eq x e))
      (set_decremented references f x h) e
    ∙ ap (λ n. as_count n) (omega arith)

set_incremented :
    (references : References) (f : DiscoveryEndpoint → ℕ) (x : DiscoveryEndpoint)
    → Shows references f
    → f x + 1 < 2 ^ 64
    → Shows
        (set_reference x (incremented (references x)) references)
        (λ e. f e + one_if (member_eq x e))
set_incremented references f x h small e = elim (Bool-cases (member_eq x e)) [
  | inl y ↦
      let same : x ≡ e = (member_eq_iff x e).0 y in
      rw (y, h x, same) (incremented-as_count (f e) (rw same at small))
  | inr n ↦ rw (n, h e) (ap (λ n. as_count n) (omega arith))
]

pub increment_references-Shows :
    (xs : List DiscoveryEndpoint) (references : References) (f : DiscoveryEndpoint → ℕ)
    → Shows references f
    → ((e : DiscoveryEndpoint) → f e + times e xs < 2 ^ 64)
    → Shows (increment_references references xs) (λ e. f e + times e xs)
unfolding increment_references times
increment_references-Shows [] references f h small e = h e ∙ ap (λ n. as_count n) (omega arith)
increment_references-Shows (x ∷ xs) references f h small e =
    let here : member_eq x x ≡ true = (member_eq_iff x x).1 refl in
    increment_references-Shows xs _ (λ e. f e + one_if (member_eq x e))
      (set_incremented references f x h (omega (arith, rw here at (small x))))
      (λ e. omega (arith, small e)) e
    ∙ ap (λ n. as_count n) (omega arith)

listed-times :
    (e : DiscoveryEndpoint) (xs : List DiscoveryEndpoint) → listed e xs ≡ false → times e xs ≡ 0
unfolding listed times
listed-times e [] h = refl
listed-times e (x ∷ xs) h = elim (Bool-cases (member_eq x e)) [
  | inl y ↦ absurd (cc (rw y at h))
  | inr n ↦ rw n (omega (arith, listed-times e xs (rw n at h)))
]

-- A set lists an endpoint once or not at all.
abbrev pub IsSetOf : List DiscoveryEndpoint → Type 0
IsSetOf xs = (e : DiscoveryEndpoint) → times e xs ≡ one_if (listed e xs)

pub collect-set : (xs : List DiscoveryEndpoint) → IsSetOf (collect xs)
unfolding collect listed times
collect-set [] e = refl
collect-set (x ∷ xs) e = elim (Bool-cases (listed x (collect xs))) [
  | inl y ↦ rw (collect, y) (collect-set xs e)
  | inr n ↦ elim (Bool-cases (member_eq x e)) [
    | inr m ↦ rw (collect, n, m) (omega (arith, collect-set xs e))
    | inl m ↦
        let same : x ≡ e = (member_eq_iff x e).0 m in
        rw (collect, n, m) (omega (arith, listed-times e (collect xs) (rw same at n)))
  ]
]

pub times-difference :
    (e : DiscoveryEndpoint) (xs ys : List DiscoveryEndpoint)
    → times e (difference xs ys) ≡ (if listed e ys then 0 else times e xs)
unfolding difference times
times-difference e [] ys = ground arith
times-difference e (x ∷ xs) ys = elim (Bool-cases (member_eq x e)) [
  | inl m ↦
      let same : x ≡ e = (member_eq_iff x e).0 m in
      elim (Bool-cases (listed e ys)) [
        | inl y ↦ rw (difference, same, y) (rw y at (times-difference e xs ys))
        | inr n ↦
            let at_e : listed x ys ≡ false = rw same n in
            rw (difference, at_e, n, times, m) (omega (arith, rw n at (times-difference e xs ys)))
      ]
  | inr m ↦ elim (Bool-cases (listed x ys)) [
    | inl y ↦ rw (difference, y, m) (ground (arith, times-difference e xs ys))
    | inr n ↦ rw (difference, n, times, m) (ground (arith, times-difference e xs ys))
  ]
]
