-- ===== src/Client/Instances/Equal.antt =====
-- The equality of instances in fusen/src/client/invocation.rs decides whether they are the same.
use fusen_rs.Contract.Http.{EndpointCapabilities, ServiceEndpoint, ServiceInstance}
use fusen_rs.Client.Instances.{
  texts_eq, metadata_eq, capabilities_eq, endpoint_eq, same_instance, bool_eq,
}
use fusen_rs.Prelude.{◌≡◌, ◌↔◌, refl, Bool, true, false, List, [], ◌∷◌, arith, ==_iff}
use fusen_rs.Prelude.Bytes.{Bytes, str_eq_iff}

bool_eq_iff : (a b : Bool) → (bool_eq a b ≡ true) ↔ (a ≡ b)
bool_eq_iff true true = (λ h. refl, λ h. refl)
bool_eq_iff true false = (λ h. cc, λ h. cc)
bool_eq_iff false true = (λ h. cc, λ h. cc)
bool_eq_iff false false = (λ h. refl, λ h. refl)

texts_eq_iff : (ss ts : List Bytes) → (texts_eq ss ts ≡ true) ↔ (ss ≡ ts)
unfolding texts_eq
texts_eq_iff [] [] = (λ h. refl, λ h. refl)
texts_eq_iff [] (t ∷ ts) = (λ h. cc, λ h. cc)
texts_eq_iff (s ∷ ss) [] = (λ h. cc, λ h. cc)
texts_eq_iff (s ∷ ss) (t ∷ ts) = (
  λ h. ground (arith, str_eq_iff s t, texts_eq_iff ss ts),
  λ h. ground (arith, str_eq_iff s t, texts_eq_iff ss ts),
)

metadata_eq_iff : (m n : List (Bytes × Bytes)) → (metadata_eq m n ≡ true) ↔ (m ≡ n)
unfolding metadata_eq
metadata_eq_iff [] [] = (λ h. refl, λ h. refl)
metadata_eq_iff [] ((j, w) ∷ n) = (λ h. cc, λ h. cc)
metadata_eq_iff ((k, v) ∷ m) [] = (λ h. cc, λ h. cc)
metadata_eq_iff ((k, v) ∷ m) ((j, w) ∷ n) = (
  λ h. ground (arith, str_eq_iff k j, str_eq_iff v w, metadata_eq_iff m n),
  λ h. ground (arith, str_eq_iff k j, str_eq_iff v w, metadata_eq_iff m n),
)

capabilities_eq_iff : (c d : EndpointCapabilities) → (capabilities_eq c d ≡ true) ↔ (c ≡ d)
unfolding capabilities_eq
capabilities_eq_iff c d = (
  λ h. ground (
    arith,
    ==_iff c.http_versions d.http_versions,
    texts_eq_iff c.bindings d.bindings,
    bool_eq_iff c.invocation_controls d.invocation_controls,
  ),
  λ h. ground (
    arith,
    ==_iff c.http_versions d.http_versions,
    texts_eq_iff c.bindings d.bindings,
    bool_eq_iff c.invocation_controls d.invocation_controls,
  ),
)

endpoint_eq_iff : (e f : ServiceEndpoint) → (endpoint_eq e f ≡ true) ↔ (e ≡ f)
unfolding endpoint_eq
endpoint_eq_iff e f = (
  λ h. ground (arith, str_eq_iff e.url f.url, bool_eq_iff e.https f.https),
  λ h. ground (arith, str_eq_iff e.url f.url, bool_eq_iff e.https f.https),
)

module _ {W : Type 0} (weight_eq : W → W → Bool)
    (weight_eq_iff : (a b : W) → (weight_eq a b ≡ true) ↔ (a ≡ b)) where
  pub same_instance_iff : (a b : ServiceInstance W) → (same_instance weight_eq a b ≡ true) ↔ (a ≡ b)
  unfolding same_instance
  same_instance_iff a b = (
    λ h. ground (
      arith,
      str_eq_iff a.instance_id b.instance_id,
      endpoint_eq_iff a.endpoint b.endpoint,
      capabilities_eq_iff a.capabilities b.capabilities,
      weight_eq_iff a.weight b.weight,
      metadata_eq_iff a.metadata b.metadata,
    ),
    λ h. ground (
      arith,
      str_eq_iff a.instance_id b.instance_id,
      endpoint_eq_iff a.endpoint b.endpoint,
      capabilities_eq_iff a.capabilities b.capabilities,
      weight_eq_iff a.weight b.weight,
      metadata_eq_iff a.metadata b.metadata,
    ),
  )
