-- ===== src/Contract/Operation.antt =====
-- fusen-contract/src/service.rs: the HTTP mapping of one method. MIME types are a third-party crate's:
-- `canonical_media_type` is not part of this model.
pub mod Valid
use fusen_rs.Contract.Route.{Unicode, RouteError, validate_http_route}
use fusen_rs.Prelude.{
  ℕ, ◌+◌, Bool, true, false, ◌&&◌, ◌||◌, not, List, [], ◌∷◌, ◌++◌, ltb, ◌==◌, if◌then◌else◌, Result,
  ok, err, ◌>>=◌,
}
use fusen_rs.Prelude.Bytes.{Bytes, member, set_eq}

-- `http::Method`: the standard methods that routes may use, and any other.
pub data Method : Type 0 where
  get post put patch delete head options : Method
  other : Bytes → Method

pub data HttpParameterSource : Type 0 where
  path query header cookie body_field body query_map header_map : HttpParameterSource

pub data HttpParameterCardinality : Type 0 where
  scalar repeated : HttpParameterCardinality

pub record HttpParameter : Type 0 where
  pub name : Bytes
  pub source : HttpParameterSource
  pub cardinality : HttpParameterCardinality

pub data OperationError : Type 0 where
  unsupported_method : OperationError
  bad_route : RouteError → OperationError
  duplicate_parameter : Bytes → OperationError
  repeated_not_query several_bodies body_with_fields several_query_maps : OperationError
  several_header_maps method_without_body placeholder_mismatch : OperationError

abbrev pub is_supported : Method → Bool
is_supported (other name) = false
is_supported _ = true

abbrev pub is_bodiless : Method → Bool
is_bodiless get = true
is_bodiless head = true
is_bodiless options = true
is_bodiless _ = false

-- `MethodDescriptor::allows_retries`.
unfoldable pub allows_retries : Method → Bool
allows_retries get = true
allows_retries head = true
allows_retries options = true
allows_retries put = true
allows_retries delete = true
allows_retries _ = false

-- The locals of the loop over the parameters.
pub record Tally : Type 0 where
  pub names : List Bytes
  pub path_parameters : List Bytes
  pub body_count : ℕ
  pub body_field_count : ℕ
  pub query_map_count : ℕ
  pub header_map_count : ℕ

abbrev pub no_parameters : Tally
no_parameters = record {
  names = [];
  path_parameters = [];
  body_count = 0;
  body_field_count = 0;
  query_map_count = 0;
  header_map_count = 0;
}

unfoldable pub tally_source : HttpParameterSource → Bytes → Tally → Tally
tally_source path name t = record t { path_parameters = name ∷ t.path_parameters }
tally_source body name t = record t { body_count = t.body_count + 1 }
tally_source body_field name t = record t { body_field_count = t.body_field_count + 1 }
tally_source query_map name t = record t { query_map_count = t.query_map_count + 1 }
tally_source header_map name t = record t { header_map_count = t.header_map_count + 1 }
tally_source _ name t = t

abbrev pub is_repeated : HttpParameterCardinality → Bool
is_repeated repeated = true
is_repeated scalar = false

abbrev pub is_query : HttpParameterSource → Bool
is_query query = true
is_query _ = false

unfoldable pub tally_parameter : HttpParameter → Tally → Result Tally OperationError
unfolding tally_source
tally_parameter p t =
    if member p.name t.names
    then err (duplicate_parameter p.name)
    else if is_repeated p.cardinality && not (is_query p.source)
    then err repeated_not_query
    else ok (tally_source p.source p.name (record t { names = p.name ∷ t.names }))

unfoldable pub tally_parameters : List HttpParameter → Tally → Result Tally OperationError
unfolding tally_parameter
tally_parameters [] t = ok t
tally_parameters (p ∷ ps) t = tally_parameter p t >>= tally_parameters ps

abbrev pub route_result : Result (List Bytes) RouteError → Result (List Bytes) OperationError
route_result (ok names) = ok names
route_result (err e) = err (bad_route e)

-- The tests after the loop.
unfoldable pub check_tally : Method → List Bytes → Tally → Result (List Bytes) OperationError
check_tally method placeholders t =
    if ltb 1 t.body_count
    then err several_bodies
    else if t.body_count == 1 && not (t.body_field_count == 0)
    then err body_with_fields
    else if ltb 1 t.query_map_count
    then err several_query_maps
    else if ltb 1 t.header_map_count
    then err several_header_maps
    else if is_bodiless method && not (t.body_count + t.body_field_count == 0)
    then err method_without_body
    else if set_eq placeholders t.path_parameters
    then ok placeholders
    else err placeholder_mismatch

module _ (unicode : Unicode) where
  unfoldable pub validate_http_operation :
      Method → Bytes → List HttpParameter → Result (List Bytes) OperationError
  validate_http_operation method route parameters =
      if not (is_supported method) then err unsupported_method else do
        placeholders ← route_result (validate_http_route unicode route)
        t ← tally_parameters parameters no_parameters
        check_tally method placeholders t
