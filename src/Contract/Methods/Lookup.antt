-- ===== src/Contract/Methods/Lookup.antt =====
-- What the loop of `validate_methods` in fusen-contract/src/service.rs accepts, and how the methods of a
-- descriptor are found.
use fusen_rs.Contract.Methods.{
  MethodDescriptor, Seen, nothing_seen, check_method, check_methods, validate_methods, method_by_id,
  http_route_shape, method_str, has_route,
}
use fusen_rs.Prelude.{
  ℕ, zero, suc, ◌+◌, ◌≡◌, refl, false, inl, inr, true, false, some, List, [], ◌∷◌, ok, get_elem?,
  Option-cases, arith, Result-cases, ◌==◌,
}
use fusen_rs.Prelude.Bytes.{Bytes, member}

-- What the loop asks of the methods that are left.
abbrev pub AreValid : ℕ → List Bytes → List (Bytes × Bytes) → List MethodDescriptor → Type 0
AreValid n names routes [] = Unit {0}
AreValid n names routes (m ∷ ms) =
    (m.id ≡ n)
    × (member m.invocation_name names ≡ false)
    × (has_route (method_str m.method) (http_route_shape m.path) routes ≡ false)
    × AreValid (n + 1) (m.invocation_name ∷ names)
        ((method_str m.method, http_route_shape m.path) ∷ routes) ms

accepts_one :
    (m : MethodDescriptor) (s : Seen)
    → m.id ≡ s.index
    → member m.invocation_name s.invocation_names ≡ false
    → has_route (method_str m.method) (http_route_shape m.path) s.http_routes ≡ false
    → check_method m s
      ≡ ok (record {
        index = s.index + 1;
        invocation_names = m.invocation_name ∷ s.invocation_names;
        http_routes = (method_str m.method, http_route_shape m.path) ∷ s.http_routes;
      })
unfolding check_method
accepts_one m s i n r = ground arith

accepts_one_only :
    (m : MethodDescriptor) (s r : Seen)
    → check_method m s ≡ ok r
    → (m.id ≡ s.index)
      × (member m.invocation_name s.invocation_names ≡ false)
      × (has_route (method_str m.method) (http_route_shape m.path) s.http_routes ≡ false)
unfolding check_method
accepts_one_only m s r h = ground arith

pub accepts_all :
    (ms : List MethodDescriptor) (s : Seen)
    → AreValid s.index s.invocation_names s.http_routes ms
    → (r : Seen) × (check_methods ms s ≡ ok r)
unfolding check_methods
accepts_all [] s v = (s, refl)
accepts_all (m ∷ ms) s (i, n, r, rest) =
    let (last, e) = accepts_all ms _ rest in (last, rw (accepts_one m s i n r, check_methods) e)

pub accepts_all_only :
    (ms : List MethodDescriptor) (s r : Seen)
    → check_methods ms s ≡ ok r
    → AreValid s.index s.invocation_names s.http_routes ms
unfolding check_methods
accepts_all_only [] s r h = tt
accepts_all_only (m ∷ ms) s r h = elim (Result-cases (check_method m s)) [
  | inr (x, e) ↦ absurd (cc (rw (e, check_methods) at h))
  | inl (u, e) ↦
      let (i, n, q) = accepts_one_only m s u e in
      (i, n, q, accepts_all_only ms _ r (rw (accepts_one m s i n q, check_methods) at h))
]

accepted-AreValid :
    (ms : List MethodDescriptor) (r : Seen) → validate_methods ms ≡ ok r → AreValid 0 [] [] ms
unfolding validate_methods
accepted-AreValid [] r h = absurd (cc)
accepted-AreValid (m ∷ ms) r h = accepts_all_only (m ∷ ms) nothing_seen r h

get_elem-id :
    (ms : List MethodDescriptor) (n i : ℕ) (names : List Bytes) (routes : List (Bytes × Bytes))
    (m : MethodDescriptor)
    → AreValid n names routes ms
    → get_elem? ms i ≡ some m
    → m.id ≡ n + i
get_elem-id [] n i names routes m v h = absurd (cc)
get_elem-id (x ∷ ms) n zero names routes m (i, _, _, rest) h = ground arith
get_elem-id (x ∷ ms) n (suc i) names routes m (_, _, _, rest) h =
    omega (arith, get_elem-id ms (n + 1) i _ _ m rest h)

-- In an accepted descriptor the method found under an id is the one at that place of the list.
pub method_by_id-get_elem? :
    (ms : List MethodDescriptor) (r : Seen) (id : ℕ)
    → validate_methods ms ≡ ok r
    → method_by_id ms id ≡ get_elem? ms id
unfolding method_by_id
method_by_id-get_elem? ms r id h = elim (Option-cases (get_elem? ms id)) [
  | inl e ↦ rw (e, method_by_id)
  | inr (m, e) ↦
      let same = get_elem-id ms 0 id [] [] m (accepted-AreValid ms r h) e in
      let test : (m.id == id) ≡ true = ground arith in rw (e, method_by_id) (rw test)
]
