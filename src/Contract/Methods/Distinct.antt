-- ===== src/Contract/Methods/Distinct.antt =====
-- Which methods fusen-contract/src/service.rs accepts in one descriptor.
use fusen_rs.Contract.Methods.{
  MethodDescriptor, Seen, nothing_seen, validate_methods, http_route_shape, method_str, has_route,
}
use fusen_rs.Contract.Methods.Lookup.{AreValid, accepts_all, accepts_all_only}
use fusen_rs.Contract.Methods.Shape.{segments_of, SameTemplate, http_route_shape_iff}
use fusen_rs.Prelude.{
  ℕ, zero, suc, ◌+◌, ◌≡◌, ◌≢◌, refl, ◌↔◌, ◌⊎◌, sym, length, ◌&&◌, ◌||◌, Bool, Bool-cases, false,
  inl, inr, true, false, List, [], ◌∷◌, ok,
}
use fusen_rs.Prelude.Bytes.{Bytes, member, str_eq, str_eq_iff}

-- The numbers from `n` on.
abbrev pub count_from : ℕ → ℕ → List ℕ
count_from n zero = []
count_from n (suc k) = n ∷ count_from (n + 1) k

abbrev pub ids : List MethodDescriptor → List ℕ
ids [] = []
ids (m ∷ ms) = m.id ∷ ids ms

-- Two methods of one descriptor: other names, and other HTTP methods or other templates.
abbrev pub Differ : MethodDescriptor → MethodDescriptor → Type 0
Differ a b =
    (a.invocation_name ≢ b.invocation_name)
    × ((method_str a.method ≢ method_str b.method)
        ⊎ (¬ SameTemplate (segments_of a.path) (segments_of b.path)))

abbrev pub DifferFrom : MethodDescriptor → List MethodDescriptor → Type 0
DifferFrom a [] = Unit {0}
DifferFrom a (m ∷ ms) = Differ a m × DifferFrom a ms

abbrev pub AllDiffer : List MethodDescriptor → Type 0
AllDiffer [] = Unit {0}
AllDiffer (m ∷ ms) = DifferFrom m ms × AllDiffer ms

-- Each of the methods before differs from each of those after.
abbrev Apart : List MethodDescriptor → List MethodDescriptor → Type 0
Apart [] ms = Unit {0}
Apart (e ∷ es) ms = DifferFrom e ms × Apart es ms

abbrev AreNew : List MethodDescriptor → MethodDescriptor → Type 0
AreNew [] m = Unit {0}
AreNew (e ∷ es) m = Differ e m × AreNew es m

abbrev names_of : List MethodDescriptor → List Bytes
names_of [] = []
names_of (m ∷ ms) = m.invocation_name ∷ names_of ms

abbrev routes_of : List MethodDescriptor → List (Bytes × Bytes)
routes_of [] = []
routes_of (m ∷ ms) = (method_str m.method, http_route_shape m.path) ∷ routes_of ms

and_false : (a b : Bool) → b ≡ false → (a && b) ≡ false
and_false true b h = h
and_false false b h = refl

neither : (a b : Bool) → (a || b) ≡ false → (a ≡ false) × (b ≡ false)
neither true b h = cc
neither false b h = (refl, h)

differs : (xs ys : Bytes) → str_eq xs ys ≡ false → ys ≢ xs
differs xs ys h e = let same = (str_eq_iff xs ys).1 (sym e) in cc

differs_only : (xs ys : Bytes) → ys ≢ xs → str_eq xs ys ≡ false
differs_only xs ys h = elim (Bool-cases (str_eq xs ys)) [
  | inl y ↦ absurd (h (sym ((str_eq_iff xs ys).0 y)))
  | inr n ↦ n
]

-- The tests of the loop on one of the methods before.
abbrev Untaken : MethodDescriptor → MethodDescriptor → Type 0
Untaken e m =
    (str_eq m.invocation_name e.invocation_name ≡ false)
    × ((str_eq (method_str m.method) (method_str e.method)
          && str_eq (http_route_shape m.path) (http_route_shape e.path))
        ≡ false)

Untaken-Differ : (e m : MethodDescriptor) → Untaken e m → Differ e m
Untaken-Differ e m (name, route) = (
  differs m.invocation_name e.invocation_name name,
  elim (Bool-cases (str_eq (method_str m.method) (method_str e.method))) [
    | inr other ↦ inl (differs (method_str m.method) (method_str e.method) other)
    | inl same ↦ inr (λ template.
        differs (http_route_shape m.path) (http_route_shape e.path) (rw same at route)
          ((http_route_shape_iff e.path m.path).1 template))
  ],
)

Differ-Untaken : (e m : MethodDescriptor) → Differ e m → Untaken e m
Differ-Untaken e m (name, inl other) = (
  differs_only m.invocation_name e.invocation_name name,
  rw (differs_only (method_str m.method) (method_str e.method) other) refl,
)
Differ-Untaken e m (name, inr template) = (
  differs_only m.invocation_name e.invocation_name name,
  and_false _ _ (
      differs_only (http_route_shape m.path) (http_route_shape e.path)
        (λ same. template ((http_route_shape_iff e.path m.path).0 same))),
)

untaken_all :
    (es : List MethodDescriptor) (m : MethodDescriptor)
    → member m.invocation_name (names_of es) ≡ false
    → has_route (method_str m.method) (http_route_shape m.path) (routes_of es) ≡ false
    → AreNew es m
unfolding member has_route
untaken_all [] m n r = tt
untaken_all (e ∷ es) m n r =
    let (name, names) = neither _ _ n in
    let (route, routes) = neither _ _ r in
    (Untaken-Differ e m (name, route), untaken_all es m names routes)

untaken_all_only :
    (es : List MethodDescriptor) (m : MethodDescriptor)
    → AreNew es m
    → (member m.invocation_name (names_of es) ≡ false)
      × (has_route (method_str m.method) (http_route_shape m.path) (routes_of es) ≡ false)
unfolding member has_route
untaken_all_only [] m h = (refl, refl)
untaken_all_only (e ∷ es) m (first, rest) =
    let (name, route) = Differ-Untaken e m first in
    let (names, routes) = untaken_all_only es m rest in
    (rw (member, name) names, rw (has_route, route) routes)

prepended :
    (es : List MethodDescriptor) (m : MethodDescriptor) (ms : List MethodDescriptor)
    → AreNew es m
    → Apart es ms
    → Apart es (m ∷ ms)
prepended [] m ms h rest = tt
prepended (e ∷ es) m ms (n, ns) (a, rest) = ((n, a), prepended es m ms ns rest)

prepended_only :
    (es : List MethodDescriptor) (m : MethodDescriptor) (ms : List MethodDescriptor)
    → Apart es (m ∷ ms)
    → AreNew es m × Apart es ms
prepended_only [] m ms h = (tt, tt)
prepended_only (e ∷ es) m ms ((n, a), rest) =
    let (ns, others) = prepended_only es m ms rest in ((n, ns), (a, others))

nothing_after : (es : List MethodDescriptor) → Apart es []
nothing_after [] = tt
nothing_after (e ∷ es) = (tt, nothing_after es)

loop_splits :
    (n : ℕ) (es ms : List MethodDescriptor)
    → AreValid n (names_of es) (routes_of es) ms
    → (ids ms ≡ count_from n (length ms)) × Apart es ms × AllDiffer ms
loop_splits n es [] v = (refl, nothing_after es, tt)
loop_splits n es (m ∷ ms) (i, name, route, rest) =
    let (numbers, (differ, apart), all) = loop_splits (n + 1) (m ∷ es) ms rest in
    (cc, prepended es m ms (untaken_all es m name route) apart, (differ, all))

loop_joins :
    (n : ℕ) (es ms : List MethodDescriptor)
    → ids ms ≡ count_from n (length ms)
    → Apart es ms
    → AllDiffer ms
    → AreValid n (names_of es) (routes_of es) ms
loop_joins n es [] numbers apart all = tt
loop_joins n es (m ∷ ms) numbers apart (differ, all) =
    let (new, others) = prepended_only es m ms apart in
    let (name, route) = untaken_all_only es m new in
    (cc, name, route, loop_joins (n + 1) (m ∷ es) ms (cc) (differ, others) all)

-- A descriptor: it has a method, the ids count up from 0, and any two methods differ.
pub record IsDescriptor (ms : List MethodDescriptor) : Type 0 where
  pub some_method : ms ≢ []
  pub numbered : ids ms ≡ count_from 0 (length ms)
  pub distinct : AllDiffer ms

-- A descriptor is accepted exactly when it has a method, the ids of its methods are 0, 1, 2 and so on, no
-- two methods have one invocation name, and no two have one HTTP method and templates that agree segment
-- by segment up to the names of parameters.
pub validate_methods_iff :
    (ms : List MethodDescriptor) → ((r : Seen) × (validate_methods ms ≡ ok r)) ↔ IsDescriptor ms
unfolding validate_methods
validate_methods_iff [] = ((λ (r, e). absurd (cc)), (λ d. absurd (d.some_method refl)))
validate_methods_iff (m ∷ ms) = (
  (λ (r, e).
      let (numbers, _, all) =
        loop_splits 0 [] (m ∷ ms) (accepts_all_only (m ∷ ms) nothing_seen r e) in
      record { some_method = λ q. cc; numbered = numbers; distinct = all }),
  (λ d. accepts_all (m ∷ ms) nothing_seen (loop_joins 0 [] (m ∷ ms) d.numbered tt d.distinct)),
)
