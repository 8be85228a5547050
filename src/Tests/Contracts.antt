-- ===== src/Tests/Contracts.antt =====
-- Runs of fusen-contract/src/service.rs, with texts of ASCII characters only.
use fusen_rs.Contract.Identity.{ServiceSelector, new_selector, is_identity_component}
use fusen_rs.Contract.Identity.RoundTrip.{new_selector_identity_injective}
use fusen_rs.Contract.Route.{
  Unicode, decode_route_literal, decode_bytes, plain, check_text, is_route_pchar,
  validate_http_route, segments, check_segments, check_segment,
}
use fusen_rs.Contract.Route.Literal.{decode_route_literal_injective}
use fusen_rs.Contract.Operation.{
  Method, HttpParameter, HttpParameterSource, HttpParameterCardinality, validate_http_operation,
  tally_parameters, check_tally,
}
use fusen_rs.Contract.Operation.Valid.{IsOperation, validate_http_operation_iff}
use fusen_rs.Contract.Methods.{
  MethodDescriptor, Seen, validate_methods, check_methods, check_method, has_route, shape_segments,
  http_route_shape, method_str,
}
use fusen_rs.Contract.Methods.Distinct.{IsDescriptor, validate_methods_iff}
use fusen_rs.Prelude.{
  ◌≡◌, ◌↔◌, refl, Option, none, some, List, [], ◌∷◌, ok, ltb, leb, ◌==◌, ◌||◌, ◌&&◌, if◌then◌else◌,
}
use fusen_rs.Prelude.Bytes.{
  Bytes, bytes_of, all, strip_suffix, any, str_eq, contains_twice, ends_with, split, trim_matches,
  member, set_eq,
}

abbrev ascii : Unicode
unfolding all
ascii = record {
  from_utf8 = λ bs. if all (λ b. ltb b 128) bs then some bs else none;
  is_whitespace = λ c. c == 32 || (leb 9 c && leb c 13);
  is_control = λ c. ltb c 32 || c == 127;
}

abbrev orders : ServiceSelector
orders = record {
  service_id = bytes_of "orders";
  group = some (bytes_of "eu");
  version = none;
  metadata = [];
  identity = bytes_of "orders/eu";
}

orders_made : new_selector (bytes_of "orders") (some (bytes_of "eu")) none ≡ ok orders
unfolding new_selector
orders_made = refl

new_selector_identity_injective_example :
    let no_version : Option Bytes = none in
    (bytes_of "orders" ≡ bytes_of "orders")
    × (some (bytes_of "eu") ≡ some (bytes_of "eu"))
    × (no_version ≡ no_version)
new_selector_identity_injective_example =
    new_selector_identity_injective (bytes_of "orders") (bytes_of "orders") (some (bytes_of "eu"))
      (some (bytes_of "eu")) none none orders orders orders_made orders_made refl

literal_decoded : decode_route_literal ascii (bytes_of "a~b") ≡ ok (bytes_of "a~b")
unfolding decode_route_literal is_route_pchar any str_eq all decode_bytes plain check_text
literal_decoded = refl

decode_route_literal_injective_example : bytes_of "a~b" ≡ bytes_of "a~b"
decode_route_literal_injective_example =
    decode_route_literal_injective ascii (bytes_of "a~b") (bytes_of "a~b") (bytes_of "a~b")
      literal_decoded literal_decoded

abbrev id_parameter : HttpParameter
id_parameter = record {
  name = bytes_of "id";
  source = HttpParameterSource.path;
  cardinality = HttpParameterCardinality.scalar;
}

validate_http_operation_iff_example :
    (validate_http_operation ascii Method.get (bytes_of "/orders/{id}") (id_parameter ∷ [])
      ≡ ok (bytes_of "id" ∷ []))
    ↔ IsOperation ascii Method.get
        (bytes_of "/orders/{id}")
        (id_parameter ∷ [])
        (bytes_of "id" ∷ [])
validate_http_operation_iff_example =
    validate_http_operation_iff ascii Method.get (bytes_of "/orders/{id}") (id_parameter ∷ [])
      (bytes_of "id" ∷ [])

operation_accepted :
    validate_http_operation ascii Method.get (bytes_of "/orders/{id}") (id_parameter ∷ [])
    ≡ ok (bytes_of "id" ∷ [])
unfolding validate_http_operation validate_http_route any contains_twice ends_with segments
    check_segments check_segment decode_route_literal all split trim_matches str_eq strip_suffix
    is_identity_component member tally_parameters check_tally set_eq is_route_pchar
operation_accepted = refl

abbrev methods : List MethodDescriptor
methods =
    (record {
      id = 0;
      invocation_name = bytes_of "find";
      method = Method.get;
      path = bytes_of "/{id}";
    })
    ∷ (record {
      id = 1;
      invocation_name = bytes_of "all";
      method = Method.get;
      path = bytes_of "/";
    })
    ∷ []

abbrev seen : Seen
seen = record {
  index = 2;
  invocation_names = bytes_of "all" ∷ bytes_of "find" ∷ [];
  http_routes = (bytes_of "GET", bytes_of "/") ∷ (bytes_of "GET", bytes_of "/{}") ∷ [];
}

methods_accepted : validate_methods methods ≡ ok seen
unfolding validate_methods check_methods check_method http_route_shape method_str has_route member
    shape_segments split str_eq
methods_accepted = refl

validate_methods_iff_example :
    ((r : Seen) × (validate_methods methods ≡ ok r)) ↔ IsDescriptor methods
validate_methods_iff_example = validate_methods_iff methods
