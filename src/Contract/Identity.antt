-- ===== src/Contract/Identity.antt =====
-- fusen-contract/src/service.rs: identifiers and the canonical identity of a service.
pub mod RoundTrip
use fusen_rs.Prelude.{
  ℕ, Bool, true, false, ◌&&◌, ◌||◌, not, Option, none, some, List, [], ◌∷◌, ◌++◌, length, leb, ltb,
  ◌==◌, if◌then◌else◌, Result, ok, err, ◌>>=◌,
}
use fusen_rs.Prelude.Bytes.{Bytes, all, any, is_empty, is_ascii_alphanumeric, str_eq, bytes_of}

abbrev pub max_identity_bytes : ℕ
max_identity_bytes = 128

-- The field that `InvalidIdentifier` names, and the keys of metadata.
pub data ContractError : Type 0 where
  invalid_identifier : (field : Bytes) → ContractError
  invalid_instance_id : ContractError
  invalid_metadata_key : Bytes → ContractError

unfoldable pub is_identity_byte : ℕ → Bool
is_identity_byte b = is_ascii_alphanumeric b || b == b'.' || b == b'_' || b == b'-'

unfoldable pub is_identity_component : Bytes → Bool
unfolding all is_identity_byte
is_identity_component value =
    not (is_empty value) && leb (length value) max_identity_bytes && all is_identity_byte value

unfoldable pub is_instance_id : Bytes → Bool
unfolding all is_identity_byte
is_instance_id value =
    not (is_empty value)
    && leb (length value) max_identity_bytes
    && all (λ b. is_identity_byte b || b == b':') value

-- `InstanceId::new`.
unfoldable pub new_instance_id : Bytes → Result Bytes ContractError
unfolding is_instance_id
new_instance_id value =
    if is_instance_id value then ok value else err ContractError.invalid_instance_id

unfoldable pub validate_identifier : Bytes → Bytes → Result Bytes ContractError
unfolding is_identity_component
validate_identifier value field =
    if is_identity_component value then ok value else err (ContractError.invalid_identifier field)

unfoldable pub validate_optional_identifier :
    Option Bytes → Bytes → Result (Option Bytes) ContractError
unfolding validate_identifier
validate_optional_identifier none field = ok none
validate_optional_identifier (some value) field = do
  v ← validate_identifier value field
  ok (some v)

-- A separator and a component, if there is one.
abbrev pub suffix : ℕ → Option Bytes → Bytes
suffix c none = []
suffix c (some value) = c ∷ value

-- `service[/group][@version]`.
unfoldable pub service_identity : Bytes → Option Bytes → Option Bytes → Bytes
service_identity service_id group version = service_id ++ (suffix b'/' group ++ suffix b'@' version)

pub record ServiceSelector : Type 0 where
  pub service_id : Bytes
  pub group : Option Bytes
  pub version : Option Bytes
  pub metadata : List (Bytes × Bytes)
  pub identity : Bytes

-- `ServiceSelector::new`.
unfoldable pub new_selector :
    Bytes → Option Bytes → Option Bytes → Result ServiceSelector ContractError
unfolding validate_identifier validate_optional_identifier service_identity
new_selector service_id group version = do
  s ← validate_identifier service_id (bytes_of "service id")
  g ← validate_optional_identifier group (bytes_of "service group")
  v ← validate_optional_identifier version (bytes_of "service version")
  ok (record {
    service_id = s;
    group = g;
    version = v;
    metadata = [];
    identity = service_identity s g v;
  })
