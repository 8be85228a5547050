-- ===== src/Client/Instances.antt =====
-- fusen/src/client/invocation.rs: the versions of an endpoint, the equality of instances, and the test
-- of what a router returns.
pub mod Subset
pub mod Equal
use fusen_rs.Contract.Http.{
  Version, http_11, http_2, HttpVersionPolicy, auto, http1, http2, h2c, EndpointCapabilities,
  ServiceEndpoint, ServiceInstance, contains,
}
use fusen_rs.Prelude.{
  ℕ, Bool, true, false, ◌&&◌, ◌||◌, not, Option, none, some, List, [], ◌∷◌, ◌==◌, if◌then◌else◌,
  Result, ok, err,
}
use fusen_rs.Prelude.Bytes.{Bytes, str_eq}

abbrev pub then_some {ℓ} : {A : Type ℓ} → Bool → A → Option A
then_some true a = some a
then_some false a = none

unfoldable pub select_http_version :
    HttpVersionPolicy → ServiceEndpoint → EndpointCapabilities → Option Version
unfolding contains
select_http_version auto endpoint capabilities =
    if endpoint.https && contains capabilities.http_versions http_2
    then some http_2
    else if contains capabilities.http_versions http_11
    then some http_11
    else none
select_http_version http1 endpoint capabilities =
    then_some (contains capabilities.http_versions http_11) http_11
select_http_version http2 endpoint capabilities =
    then_some (endpoint.https && contains capabilities.http_versions http_2) http_2
select_http_version h2c endpoint capabilities =
    then_some (not endpoint.https && contains capabilities.http_versions http_2) http_2

abbrev pub is_auto : HttpVersionPolicy → Bool
is_auto auto = true
is_auto _ = false

unfoldable pub should_auto_negotiate :
    HttpVersionPolicy → ServiceEndpoint → EndpointCapabilities → Bool
unfolding contains
should_auto_negotiate policy endpoint capabilities =
    is_auto policy
    && endpoint.https
    && contains capabilities.http_versions http_11
    && contains capabilities.http_versions http_2

-- Equality of the texts of two lists.
unfoldable pub texts_eq : List Bytes → List Bytes → Bool
unfolding str_eq
texts_eq [] [] = true
texts_eq (s ∷ ss) (t ∷ ts) = str_eq s t && texts_eq ss ts
texts_eq _ _ = false

unfoldable pub metadata_eq : List (Bytes × Bytes) → List (Bytes × Bytes) → Bool
unfolding str_eq
metadata_eq [] [] = true
metadata_eq ((k, v) ∷ m) ((j, w) ∷ n) = str_eq k j && str_eq v w && metadata_eq m n
metadata_eq _ _ = false

abbrev pub bool_eq : Bool → Bool → Bool
bool_eq true b = b
bool_eq false b = not b

unfoldable pub capabilities_eq : EndpointCapabilities → EndpointCapabilities → Bool
unfolding texts_eq
capabilities_eq c d =
    c.http_versions == d.http_versions
    && texts_eq c.bindings d.bindings
    && bool_eq c.invocation_controls d.invocation_controls

-- The URL decides the scheme, and with it the whole endpoint.
unfoldable pub endpoint_eq : ServiceEndpoint → ServiceEndpoint → Bool
unfolding str_eq
endpoint_eq e f = str_eq e.url f.url && bool_eq e.https f.https

module _ {W : Type 0} (weight_eq : W → W → Bool) where
  unfoldable pub same_instance : ServiceInstance W → ServiceInstance W → Bool
  unfolding endpoint_eq capabilities_eq metadata_eq str_eq
  same_instance left right =
      str_eq left.instance_id right.instance_id
      && endpoint_eq left.endpoint right.endpoint
      && capabilities_eq left.capabilities right.capabilities
      && weight_eq left.weight right.weight
      && metadata_eq left.metadata right.metadata

unfoldable pub unmatched {ℓ} : {A : Type ℓ} → List A → List Bool
unmatched [] = []
unmatched (x ∷ xs) = false ∷ unmatched xs

module _ {ℓ} {A : Type ℓ} (same : A → A → Bool) where
  abbrev pub push_flag : Bool → Option (List Bool) → Option (List Bool)
  push_flag b none = none
  push_flag b (some bs) = some (b ∷ bs)

  -- The flags with the first candidate that is unmatched and the same as `x` matched, if there is one.
  unfoldable pub claim : A → List A → List Bool → Option (List Bool)
  claim x [] flags = none
  claim x (candidate ∷ rest) [] = none
  claim x (candidate ∷ rest) (flag ∷ flags) =
      let later = push_flag flag (claim x rest flags) in
      if not flag && same candidate x then some (true ∷ flags) else later

  -- The loop of `validate_router_output`.
  unfoldable pub claim_all : List A → List A → List Bool → Bool
  claim_all input [] flags = true
  claim_all input (x ∷ output) flags = elim (claim x input flags) [
    | none ↦ false
    | some flags' ↦ claim_all input output flags'
  ]

  -- `validate_router_output`, for any equality of instances.
  unfoldable pub validate_output : List A → List A → Bool
  unfolding claim_all unmatched
  validate_output input output = claim_all input output (unmatched input)
