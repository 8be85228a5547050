-- ===== src/Contract/Http.antt =====
-- fusen-contract/src/http.rs, with the instances of fusen-contract/src/service.rs: bindings, versions
-- and capabilities of an endpoint. A version set is the bits of a `u8`. URLs are a third-party crate's:
-- an endpoint is its text and whether its scheme is `https`. A weight is of any type.
pub mod Versions
use Prim.Native.Nat.{bit_or, bit_and}
use fusen_rs.Prelude.{
  ℕ, Bool, true, false, ◌&&◌, ◌||◌, not, Option, none, some, List, [], ◌∷◌, leb, ◌==◌,
  if◌then◌else◌, Result, ok, err, ◌>>=◌, length,
}
use fusen_rs.Prelude.Bytes.{
  Bytes, is_empty, is_ascii_lowercase, is_ascii_digit, all, split, str_eq, member, bytes_of,
}

-- `http::Version`.
pub data Version : Type 0 where
  http_09 http_10 http_11 http_2 http_3 : Version

pub data HttpError : Type 0 where
  invalid_http_binding empty_http_version_set empty_http_bindings : HttpError
  unsupported_http_version : Version → HttpError

abbrev pub http_json_v1 : Bytes
http_json_v1 = bytes_of "http-json-v1"

abbrev pub is_binding_segment : Bytes → Bool
is_binding_segment s = not (is_empty s) && all (λ b. is_ascii_lowercase b || is_ascii_digit b) s

unfoldable pub all_segments : List Bytes → Bool
unfolding all
all_segments [] = true
all_segments (s ∷ ss) = is_binding_segment s && all_segments ss

unfoldable pub valid_binding_id : Bytes → Bool
unfolding all_segments split
valid_binding_id value =
    not (is_empty value)
    && leb (length value) 64
    && all_segments (split (λ b. b == b'-' || b == b'.') value)

-- `HttpBindingId::new`.
unfoldable pub new_binding_id : Bytes → Result Bytes HttpError
unfolding valid_binding_id
new_binding_id value = if valid_binding_id value then ok value else err invalid_http_binding

abbrev pub http_1_1_bit : ℕ
http_1_1_bit = 1

abbrev pub http_2_bit : ℕ
http_2_bit = 2

-- `HttpVersionSet::ALL`.
abbrev pub all_versions : ℕ
all_versions = 3

unfoldable pub version_bit : Version → Result ℕ HttpError
version_bit http_11 = ok http_1_1_bit
version_bit http_2 = ok http_2_bit
version_bit v = err (unsupported_http_version v)

unfoldable pub collect_bits : ℕ → List Version → Result ℕ HttpError
unfolding version_bit
collect_bits bits [] = ok bits
collect_bits bits (v ∷ vs) = version_bit v >>= λ b. collect_bits (bit_or bits b) vs

abbrev pub nonempty_bits : ℕ → Result ℕ HttpError
nonempty_bits bits = if bits == 0 then err empty_http_version_set else ok bits

-- `HttpVersionSet::new`.
unfoldable pub new_version_set : List Version → Result ℕ HttpError
unfolding collect_bits
new_version_set versions = collect_bits 0 versions >>= nonempty_bits

abbrev pub bit_or_zero : Version → ℕ
bit_or_zero http_11 = http_1_1_bit
bit_or_zero http_2 = http_2_bit
bit_or_zero _ = 0

-- `HttpVersionSet::contains`.
unfoldable pub contains : ℕ → Version → Bool
contains set version = not (bit_and set (bit_or_zero version) == 0)

pub data HttpVersionPolicy : Type 0 where
  auto http1 http2 h2c : HttpVersionPolicy

-- The bindings are a set.
pub record EndpointCapabilities : Type 0 where
  pub http_versions : ℕ
  pub bindings : List Bytes
  pub invocation_controls : Bool

-- `EndpointCapabilities::new`.
unfoldable pub new_capabilities : ℕ → List Bytes → Bool → Result EndpointCapabilities HttpError
new_capabilities http_versions [] controls = err empty_http_bindings
new_capabilities http_versions (b ∷ bs) controls =
    ok (record { http_versions = http_versions; bindings = b ∷ bs; invocation_controls = controls })

unfoldable pub supports_binding : EndpointCapabilities → Bytes → Bool
unfolding member
supports_binding c binding = member binding c.bindings

pub record ServiceEndpoint : Type 0 where
  pub url : Bytes
  pub https : Bool

pub record ServiceInstance (W : Type 0) : Type 0 where
  pub instance_id : Bytes
  pub endpoint : ServiceEndpoint
  pub capabilities : EndpointCapabilities
  pub weight : W
  pub metadata : List (Bytes × Bytes)
