-- ===== src/Contract/Methods.antt =====
-- fusen-contract/src/service.rs: the methods of a service descriptor.
pub mod Lookup
pub mod Shape
pub mod Distinct
use fusen_rs.Contract.Operation.{Method, get, post, put, patch, delete, head, options, other}
use fusen_rs.Prelude.{
  ℕ, zero, suc, ◌+◌, Bool, true, false, ◌&&◌, ◌||◌, not, Option, none, some, List, [], ◌∷◌, ◌++◌,
  ◌==◌, if◌then◌else◌, Result, ok, err, get_elem?,
}
use fusen_rs.Prelude.Bytes.{Bytes, bytes_of, str_eq, member, split, starts_with}

pub record MethodDescriptor : Type 0 where
  pub id : ℕ
  pub invocation_name : Bytes
  pub method : Method
  pub path : Bytes

pub data MethodsError : Type 0 where
  empty_methods : MethodsError
  non_contiguous_id : (id : ℕ) → MethodsError
  duplicate_name : Bytes → MethodsError
  duplicate_route : Method → Bytes → MethodsError

-- `http::Method::as_str`.
unfoldable pub method_str : Method → Bytes
method_str get = bytes_of "GET"
method_str post = bytes_of "POST"
method_str put = bytes_of "PUT"
method_str patch = bytes_of "PATCH"
method_str delete = bytes_of "DELETE"
method_str head = bytes_of "HEAD"
method_str options = bytes_of "OPTIONS"
method_str (other name) = name

-- One segment of a shape, behind its slash.
abbrev pub shape_segment : Bytes → Bytes
shape_segment segment = b'/' ∷ (if starts_with b'{' segment then b'{' ∷ b'}' ∷ [] else segment)

unfoldable pub shape_segments : List Bytes → Bytes
shape_segments [] = []
shape_segments (s ∷ ss) = shape_segment s ++ shape_segments ss

abbrev pub remove_first : Bytes → Bytes
remove_first [] = []
remove_first (b ∷ bs) = bs

unfoldable pub http_route_shape : Bytes → Bytes
unfolding shape_segments split
http_route_shape path = remove_first (shape_segments (split (λ b. b == b'/') path))

-- Membership in the set of methods with shapes.
unfoldable pub has_route : Bytes → Bytes → List (Bytes × Bytes) → Bool
has_route method shape [] = false
has_route method shape ((m, s) ∷ rest) =
    (str_eq method m && str_eq shape s) || has_route method shape rest

-- The locals of the loop of `validate_methods`.
pub record Seen : Type 0 where
  pub index : ℕ
  pub invocation_names : List Bytes
  pub http_routes : List (Bytes × Bytes)

unfoldable pub check_method : MethodDescriptor → Seen → Result Seen MethodsError
unfolding member has_route
check_method m seen =
    let shape = http_route_shape m.path in
    let name = method_str m.method in
    if not (m.id == seen.index)
    then err (MethodsError.non_contiguous_id m.id)
    else if member m.invocation_name seen.invocation_names
    then err (MethodsError.duplicate_name m.invocation_name)
    else if has_route name shape seen.http_routes
    then err (MethodsError.duplicate_route m.method m.path)
    else ok (record {
      index = seen.index + 1;
      invocation_names = m.invocation_name ∷ seen.invocation_names;
      http_routes = (name, shape) ∷ seen.http_routes;
    })

abbrev pub continue_with :
    (Seen → Result Seen MethodsError) → Result Seen MethodsError → Result Seen MethodsError
continue_with f (ok s) = f s
continue_with f (err e) = err e

unfoldable pub check_methods : List MethodDescriptor → Seen → Result Seen MethodsError
check_methods [] seen = ok seen
check_methods (m ∷ ms) seen = continue_with (check_methods ms) (check_method m seen)

abbrev pub nothing_seen : Seen
nothing_seen = record { index = 0; invocation_names = []; http_routes = [] }

unfoldable pub validate_methods : List MethodDescriptor → Result Seen MethodsError
validate_methods [] = err MethodsError.empty_methods
validate_methods (m ∷ ms) = check_methods (m ∷ ms) nothing_seen

-- `ServiceDescriptor::method`.
unfoldable pub method_by_id : List MethodDescriptor → ℕ → Option MethodDescriptor
method_by_id methods id = elim (get_elem? methods id) [
  | none ↦ none
  | some m ↦ if m.id == id then some m else none
]
