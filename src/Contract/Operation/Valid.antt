-- ===== src/Contract/Operation/Valid.antt =====
-- Which operations `validate_http_operation` of fusen-contract/src/service.rs accepts.
use fusen_rs.Contract.Route.{Unicode, validate_http_route}
use fusen_rs.Contract.Operation.{
  Method, HttpParameter, HttpParameterSource, Tally, no_parameters, is_supported, is_bodiless,
  is_repeated, is_query, tally_source, tally_parameter, tally_parameters, check_tally,
  validate_http_operation, path, body, body_field, query_map, header_map,
}
use fusen_rs.Prelude.{
  ℕ, ◌+◌, ◌≤◌, ◌<◌, ◌≡◌, refl, ◌∙◌, ap, ◌↔◌, inl, inr, Bool, true, false, List, [], ◌∷◌, ok, arith,
  Result-cases, Bool-cases, if◌then◌else◌,
}
use fusen_rs.Prelude.Bytes.{Bytes, member, set_eq}

-- No name is among the given ones or those before it.
abbrev pub NewNames : List Bytes → List HttpParameter → Type 0
NewNames seen [] = Unit {0}
NewNames seen (p ∷ ps) = (member p.name seen ≡ false) × NewNames (p.name ∷ seen) ps

-- Only query parameters are repeated.
abbrev pub RepeatedAreQueries : List HttpParameter → Type 0
RepeatedAreQueries [] = Unit {0}
RepeatedAreQueries (p ∷ ps) =
    (is_repeated p.cardinality ≡ true → is_query p.source ≡ true) × RepeatedAreQueries ps

-- The number of parameters with a source that passes the test.
abbrev pub uses : (HttpParameterSource → Bool) → List HttpParameter → ℕ
uses test [] = 0
uses test (p ∷ ps) = (if test p.source then 1 else 0) + uses test ps

abbrev pub is_path : HttpParameterSource → Bool
is_path path = true
is_path _ = false

abbrev pub is_body : HttpParameterSource → Bool
is_body body = true
is_body _ = false

abbrev pub is_body_field : HttpParameterSource → Bool
is_body_field body_field = true
is_body_field _ = false

abbrev pub is_query_map : HttpParameterSource → Bool
is_query_map query_map = true
is_query_map _ = false

abbrev pub is_header_map : HttpParameterSource → Bool
is_header_map header_map = true
is_header_map _ = false

-- The names of the path parameters, last first.
abbrev pub path_names : List HttpParameter → List Bytes → List Bytes
path_names [] seen = seen
path_names (p ∷ ps) seen =
    let rest = path_names ps (if is_path p.source then p.name ∷ seen else seen) in rest

pub record IsOperation (unicode : Unicode) (method : Method) (route : Bytes)
    (ps : List HttpParameter) (names : List Bytes) : Type 0 where
  pub supported : is_supported method ≡ true
  pub routed : validate_http_route unicode route ≡ ok names
  pub distinct : NewNames [] ps
  pub repeated_queries : RepeatedAreQueries ps
  pub one_body : uses is_body ps ≤ 1
  pub body_alone : 0 < uses is_body ps → uses is_body_field ps ≡ 0
  pub one_query_map : uses is_query_map ps ≤ 1
  pub one_header_map : uses is_header_map ps ≤ 1
  pub bodiless : is_bodiless method ≡ true → uses is_body ps + uses is_body_field ps ≡ 0
  pub placeholders_match : set_eq names (path_names ps []) ≡ true

-- What the loop has counted when it ends.
record Counted (ps : List HttpParameter) (t r : Tally) : Type 0 where
  paths : r.path_parameters ≡ path_names ps t.path_parameters
  bodies : r.body_count ≡ t.body_count + uses is_body ps
  fields : r.body_field_count ≡ t.body_field_count + uses is_body_field ps
  query_maps : r.query_map_count ≡ t.query_map_count + uses is_query_map ps
  header_maps : r.header_map_count ≡ t.header_map_count + uses is_header_map ps

tally_one :
    (p : HttpParameter) (t r : Tally)
    → tally_parameter p t ≡ ok r
    → (member p.name t.names ≡ false)
      × (is_repeated p.cardinality ≡ true → is_query p.source ≡ true)
      × (r.names ≡ p.name ∷ t.names)
      × Counted (p ∷ []) t r
unfolding tally_parameter
tally_one p t r h = ground arith

accepted_one :
    (p : HttpParameter) (t : Tally)
    → member p.name t.names ≡ false
    → (is_repeated p.cardinality ≡ true → is_query p.source ≡ true)
    → (r : Tally) × (tally_parameter p t ≡ ok r)
unfolding tally_parameter
accepted_one p t new h =
    (tally_source p.source p.name (record t { names = p.name ∷ t.names }), ground arith)

tally_all :
    (ps : List HttpParameter) (t r : Tally)
    → tally_parameters ps t ≡ ok r
    → NewNames t.names ps × RepeatedAreQueries ps × Counted ps t r
unfolding tally_parameters
tally_all [] t r h = (tt, tt, ground arith)
tally_all (p ∷ ps) t r h = elim (Result-cases (tally_parameter p t)) [
  | inr (x, e) ↦ absurd (cc (rw (e, tally_parameters) at h))
  | inl (u, e) ↦
      let (new, queries, names, one) = tally_one p t u e in
      let (rest_new, rest_queries, rest) = tally_all ps u r (rw (e, tally_parameters) at h) in
      (
        (new, rw names at rest_new),
        (queries, rest_queries),
        record {
          paths = rest.paths ∙ ap (path_names ps) one.paths;
          bodies = omega (arith, rest.bodies, one.bodies);
          fields = omega (arith, rest.fields, one.fields);
          query_maps = omega (arith, rest.query_maps, one.query_maps);
          header_maps = omega (arith, rest.header_maps, one.header_maps);
        },
      )
]

accepted_all :
    (ps : List HttpParameter) (t : Tally)
    → NewNames t.names ps
    → RepeatedAreQueries ps
    → (r : Tally) × (tally_parameters ps t ≡ ok r)
unfolding tally_parameters
accepted_all [] t new queries = (t, refl)
accepted_all (p ∷ ps) t (new, rest_new) (q, queries) =
    let (u, e) = accepted_one p t new q in
    let (_, _, names, _) = tally_one p t u e in
    let (r, e') = accepted_all ps u (rw names rest_new) queries in (r, rw (e, tally_parameters) e')

-- The tests after the loop, as conditions on what it counted.
record Passes (method : Method) (placeholders : List Bytes) (t : Tally) : Type 0 where
  one_body : t.body_count ≤ 1
  body_alone : 0 < t.body_count → t.body_field_count ≡ 0
  one_query_map : t.query_map_count ≤ 1
  one_header_map : t.header_map_count ≤ 1
  bodiless : is_bodiless method ≡ true → t.body_count + t.body_field_count ≡ 0
  matched : set_eq placeholders t.path_parameters ≡ true

check_tally-Passes :
    (method : Method) (placeholders names : List Bytes) (t : Tally)
    → check_tally method placeholders t ≡ ok names
    → Passes method placeholders t × (names ≡ placeholders)
unfolding check_tally
check_tally-Passes method placeholders names t h = ground arith

Passes-check_tally :
    (method : Method) (placeholders : List Bytes) (t : Tally)
    → Passes method placeholders t
    → check_tally method placeholders t ≡ ok placeholders
unfolding check_tally
Passes-check_tally method placeholders t v = ground arith

module _ (unicode : Unicode) where
  accepts_only :
      (method : Method) (route : Bytes) (ps : List HttpParameter) (names : List Bytes)
      → validate_http_operation unicode method route ps ≡ ok names
      → IsOperation unicode method route ps names
  unfolding validate_http_operation
  accepts_only method route ps names h = elim (Bool-cases (is_supported method)) [
    | inr no_method ↦ absurd (cc (rw (no_method, validate_http_operation) at h))
    | inl supported ↦ elim (Result-cases (validate_http_route unicode route)) [
      | inr (x, no_route) ↦ absurd (cc (rw (supported, no_route, validate_http_operation) at h))
      | inl (placeholders, routed) ↦ elim (Result-cases (tally_parameters ps no_parameters)) [
        | inr (x, stopped) ↦
            absurd (cc (rw (supported, routed, stopped, validate_http_operation) at h))
        | inl (t, counted) ↦
            let (new, queries, c) = tally_all ps no_parameters t counted in
            let checked = rw (supported, routed, counted, validate_http_operation) at h in
            let (v, same) = check_tally-Passes method placeholders names t checked in
            record {
              supported = supported;
              routed = rw (same) routed;
              distinct = new;
              repeated_queries = queries;
              one_body = omega (arith, v.one_body, c.bodies);
              body_alone = λ b. omega (arith, v.body_alone (omega (arith, c.bodies)), c.fields);
              one_query_map = omega (arith, v.one_query_map, c.query_maps);
              one_header_map = omega (arith, v.one_header_map, c.header_maps);
              bodiless = λ b. omega (arith, v.bodiless b, c.bodies, c.fields);
              placeholders_match = rw same (rw c.paths at v.matched);
            }
      ]
    ]
  ]

  accepts :
      (method : Method) (route : Bytes) (ps : List HttpParameter) (names : List Bytes)
      → IsOperation unicode method route ps names
      → validate_http_operation unicode method route ps ≡ ok names
  unfolding validate_http_operation
  accepts method route ps names v =
      let (t, counted) = accepted_all ps no_parameters v.distinct v.repeated_queries in
      let (_, _, c) = tally_all ps no_parameters t counted in
      rw (v.supported, v.routed, counted, validate_http_operation)
        (Passes-check_tally method names t (record {
          one_body = omega (arith, v.one_body, c.bodies);
          body_alone = λ b. omega (arith, v.body_alone (omega (arith, c.bodies)), c.fields);
          one_query_map = omega (arith, v.one_query_map, c.query_maps);
          one_header_map = omega (arith, v.one_header_map, c.header_maps);
          bodiless = λ b. omega (arith, v.bodiless b, c.bodies, c.fields);
          matched = rw c.paths v.placeholders_match;
        }))

  -- An operation is accepted, with the placeholders of its route, exactly when its method and route
  -- are valid, its parameter names are distinct, only query parameters repeat, it has at most one body,
  -- and that alone, at most one map of each kind and no body where the method has none, and its path
  -- parameters are the placeholders.
  pub validate_http_operation_iff :
      (method : Method) (route : Bytes) (ps : List HttpParameter) (names : List Bytes)
      → (validate_http_operation unicode method route ps ≡ ok names)
        ↔ IsOperation unicode method route ps names
  validate_http_operation_iff method route ps names =
      (accepts_only method route ps names, accepts method route ps names)
