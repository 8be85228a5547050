-- ===== src/Client/Select.antt =====
-- `select_endpoint` of fusen/src/client/invocation.rs. Breakers are behind an interface: a state, a call
-- that acquires a permit and one that completes it. Routers, the load balancer and the weight
-- type are arguments; code of a user may return, fail or panic.
pub mod Routed
pub mod Chosen
pub mod Permits
pub mod Circuits
pub mod Outstanding
pub mod Tracked
use fusen_rs.Client.Instances.{
  select_http_version, should_auto_negotiate, same_instance, validate_output,
}
use fusen_rs.Contract.Http.{
  Version, http_11, HttpVersionPolicy, EndpointCapabilities, ServiceEndpoint, ServiceInstance,
  supports_binding, http_1_1_bit, all_versions,
}
use fusen_rs.Register.Directory.{DirectorySnapshot, DirectoryState, ready, stale}
use fusen_rs.Errors.{
  Error, ErrorKind, ErrorCategory, local_error, unavailable, internal, ErrorOrigin,
}
use fusen_rs.Resilience.Breaker.{PermitOutcome, unattempted}
use fusen_rs.Prelude.{
  ℕ, Bool, true, false, ◌&&◌, ◌||◌, not, Option, none, some, List, [], ◌∷◌, if◌then◌else◌, Result,
  ok, err, ◌>>=◌, get_elem?, remove_at,
}
use fusen_rs.Prelude.Bytes.{Bytes, bytes_of, member}

-- What `catch_unwind` gives for code of a user.
pub data Caught {ℓ} (A : Type ℓ) : Type ℓ where
  returned : A → Caught A
  failed : Error → Caught A
  panicked : Caught A

-- `Error::framework` for a category with a status.
abbrev pub framework_error : ErrorCategory → ℕ → Bytes → Bytes → Error
framework_error category status code message =
    local_error ErrorKind.framework category status code message

abbrev pub no_instances : Error
no_instances =
    framework_error unavailable 503 (bytes_of "no_instances")
      (bytes_of "discovery has no currently routable service instances")

abbrev pub no_compatible_endpoint : Error
no_compatible_endpoint =
    framework_error unavailable 503 (bytes_of "no_compatible_endpoint")
      (bytes_of "no endpoint is compatible with the selected HTTP binding and version policy")

abbrev pub router_panic : Error
router_panic = framework_error internal 500 (bytes_of "router_panic") (bytes_of "router failed")

abbrev pub invalid_router_output : Error
invalid_router_output =
    framework_error internal 500 (bytes_of "invalid_router_output")
      (bytes_of "instance router must return a non-duplicated subset of its input snapshot")

abbrev pub circuit_open : Error
circuit_open =
    framework_error unavailable 503 (bytes_of "circuit_open")
      (bytes_of "circuit breaker rejected the attempt")

abbrev pub invalid_selection : Error
invalid_selection =
    framework_error internal 500 (bytes_of "invalid_load_balancer_selection")
      (bytes_of "load balancer returned an out-of-range index")

abbrev pub load_balancer_panic : Error
load_balancer_panic =
    framework_error internal 500 (bytes_of "load_balancer_panic") (bytes_of "load balancer failed")

-- `Vec::retain`.
unfoldable pub keep_if {ℓ} : {A : Type ℓ} → (A → Bool) → List A → List A
keep_if p [] = []
keep_if p (x ∷ xs) = let rest = keep_if p xs in if p x then x ∷ rest else rest

abbrev pub is_some {ℓ} : {A : Type ℓ} → Option A → Bool
is_some none = false
is_some (some a) = true

abbrev pub is_routable : DirectoryState → Bool
is_routable ready = true
is_routable stale = true
is_routable _ = false

pub data EndpointSource (W : Type 0) : Type 0 where
  direct : ServiceEndpoint → Option EndpointCapabilities → EndpointSource W
  discovery : DirectorySnapshot (ServiceInstance W) → EndpointSource W

pub record Client (W : Type 0) : Type 0 where
  pub binding_id : Bytes
  pub http_version_policy : HttpVersionPolicy
  pub source : EndpointSource W
  pub routers : List (List (ServiceInstance W) → Caught (List (ServiceInstance W)))
  pub load_balancer : List (ServiceInstance W) → Caught ℕ
  pub default_weight : W

-- The breakers of the endpoints of a client.
pub record Breakers (S P : Type 0) : Type 0 where
  pub try_acquire : Bytes → S → S × Option P
  pub complete : P → PermitOutcome → S → S

pub record SelectedEndpoint (W P : Type 0) : Type 0 where
  pub instance_ : ServiceInstance W
  pub breaker_permit : P
  pub http_version : Version
  pub auto_negotiate : Bool
  pub invocation_controls : Bool

-- What is left behind: the state of the breakers, and the result.
pub record Selection (W S P : Type 0) : Type 0 where
  pub state : S
  pub result : Result (SelectedEndpoint W P) Error

-- The capabilities of a direct endpoint that has none configured.
abbrev pub direct_capabilities :
    Bytes → ServiceEndpoint → Option EndpointCapabilities → EndpointCapabilities
direct_capabilities binding_id endpoint (some c) = c
direct_capabilities binding_id endpoint none = record {
  http_versions = if endpoint.https then all_versions else http_1_1_bit;
  bindings = binding_id ∷ [];
  invocation_controls = false;
}

module _ {W : Type 0} where
  abbrev pub url_of : ServiceInstance W → Bytes
  url_of i = i.endpoint.url

  unfoldable pub available : Bytes → W → EndpointSource W → Result (List (ServiceInstance W)) Error
  available binding_id weight (direct endpoint capabilities) = ok (
      (record {
        instance_id = bytes_of "direct";
        endpoint = endpoint;
        capabilities = direct_capabilities binding_id endpoint capabilities;
        weight = weight;
        metadata = [];
      })
      ∷ [])
  available binding_id weight (discovery snapshot) =
      if is_routable snapshot.state
      then elim snapshot.instances [ [] ↦ err no_instances | i ∷ is ↦ ok (i ∷ is) ]
      else err no_instances

  -- Whether an instance supports the binding, and a version that the policy allows.
  abbrev pub is_compatible : Bytes → HttpVersionPolicy → ServiceInstance W → Bool
  is_compatible binding_id policy i =
      supports_binding i.capabilities binding_id
      && is_some (select_http_version policy i.endpoint i.capabilities)

  abbrev pub is_untried : List Bytes → ServiceInstance W → Bool
  is_untried attempted i = not (member (url_of i) attempted)

  abbrev pub nonempty : Error → List (ServiceInstance W) → Result (List (ServiceInstance W)) Error
  nonempty e [] = err e
  nonempty e (i ∷ is) = ok (i ∷ is)

  -- Those that were not attempted, if there are any, and all otherwise.
  abbrev pub prefer : List (ServiceInstance W) → List (ServiceInstance W) → List (ServiceInstance W)
  prefer [] all = all
  prefer (i ∷ is) all = i ∷ is

  -- The instances that are handed to the routers.
  unfoldable pub candidates : Client W → List Bytes → Result (List (ServiceInstance W)) Error
  unfolding available keep_if supports_binding select_http_version member
  candidates client attempted = do
    instances ← available client.binding_id client.default_weight client.source
    compatible ←
        nonempty no_compatible_endpoint
          (keep_if (is_compatible client.binding_id client.http_version_policy) instances)
    ok (prefer (keep_if (is_untried attempted) compatible) compatible)

module _ {W : Type 0} (weight_eq : W → W → Bool) where
  -- The instances after one router.
  abbrev pub routed :
      List (ServiceInstance W)
      → Caught (List (ServiceInstance W))
      → Result (List (ServiceInstance W)) Error
  routed input (returned output) =
      if validate_output (same_instance weight_eq) input output
      then ok output
      else err invalid_router_output
  routed input (failed e) = err e
  routed input panicked = err router_panic

  unfoldable pub route_all :
      List (List (ServiceInstance W) → Caught (List (ServiceInstance W)))
      → List (ServiceInstance W)
      → Result (List (ServiceInstance W)) Error
  route_all [] input = ok input
  route_all (router ∷ rest) input = routed input (router input) >>= route_all rest

-- The instances whose breakers admit an attempt, each with its permit.
abbrev pub keep_acquired :
    {W P : Type 0}
    → ServiceInstance W
    → Option P
    → List (ServiceInstance W × P)
    → List (ServiceInstance W × P)
keep_acquired i none eligible = eligible
keep_acquired i (some permit) eligible = (i, permit) ∷ eligible

abbrev pub instances_of : {W P : Type 0} → List (ServiceInstance W × P) → List (ServiceInstance W)
instances_of [] = []
instances_of ((i, p) ∷ rest) = i ∷ instances_of rest

abbrev pub permits_of : {W P : Type 0} → List (ServiceInstance W × P) → List P
permits_of [] = []
permits_of ((i, p) ∷ rest) = p ∷ permits_of rest

-- The version of an endpoint that is not negotiated with; the code expects that there is one.
abbrev pub expect_version : Option Version → Version
expect_version none = http_11
expect_version (some v) = v

unfoldable pub selected :
    {W P : Type 0} → HttpVersionPolicy → ServiceInstance W → P → SelectedEndpoint W P
unfolding should_auto_negotiate select_http_version
selected policy i permit =
    let negotiate = should_auto_negotiate policy i.endpoint i.capabilities in
    record {
      instance_ = i;
      breaker_permit = permit;
      http_version =
          if negotiate
          then http_11
          else expect_version (select_http_version policy i.endpoint i.capabilities);
      auto_negotiate = negotiate;
      invocation_controls = i.capabilities.invocation_controls;
    }

module _ {S P : Type 0} (breakers : Breakers S P) where
  -- `BreakerPermit::release_unattempted`.
  abbrev pub release_unattempted : P → S → S
  release_unattempted p s = breakers.complete p unattempted s

  unfoldable pub release_all : List P → S → S
  release_all [] s = s
  release_all (p ∷ ps) s = release_all ps (release_unattempted p s)

module _ {W S P : Type 0} (breakers : Breakers S P) where
  unfoldable pub acquire_all : List (ServiceInstance W) → S → S × List (ServiceInstance W × P)
  acquire_all [] s = (s, [])
  acquire_all (i ∷ is) s =
      let (s', permit) = breakers.try_acquire (url_of i) s in
      let (last, eligible) = acquire_all is s' in (last, keep_acquired i permit eligible)

  -- The permits that were not taken are dropped when the selection ends.
  abbrev pub give_up : Error → S → List P → Selection W S P
  give_up e s permits = record { state = release_all breakers permits s; result = err e }

  -- The end of the selection, on what the load balancer says.
  unfoldable pub take_permit :
      HttpVersionPolicy → Caught ℕ → S → List (ServiceInstance W × P) → Selection W S P
  unfolding selected release_all
  take_permit policy (returned index) s eligible = elim (get_elem? eligible index) [
    | none ↦ give_up invalid_selection s (permits_of eligible)
    | some (i, permit) ↦
        let others = permits_of (remove_at index eligible) in
        record { state = release_all breakers others s; result = ok (selected policy i permit) }
  ]
  take_permit policy (failed e) s eligible = give_up e s (permits_of eligible)
  take_permit policy panicked s eligible = give_up load_balancer_panic s (permits_of eligible)

  unfoldable pub choose : Client W → S × List (ServiceInstance W × P) → Selection W S P
  unfolding take_permit
  choose client (s, []) = give_up circuit_open s []
  choose client (s, e ∷ es) =
      take_permit client.http_version_policy (client.load_balancer (instances_of (e ∷ es))) s
        (e ∷ es)

  unfoldable pub balance : Client W → S → Result (List (ServiceInstance W)) Error → Selection W S P
  unfolding choose acquire_all
  balance client s (err e) = give_up e s []
  balance client s (ok []) = give_up no_instances s []
  balance client s (ok (i ∷ is)) = choose client (acquire_all (i ∷ is) s)

module _ {W S P : Type 0} (weight_eq : W → W → Bool) (breakers : Breakers S P) where
  unfoldable pub select_endpoint : Client W → List Bytes → S → Selection W S P
  unfolding candidates route_all balance
  select_endpoint client attempted s =
      balance breakers client s (candidates client attempted >>= route_all weight_eq client.routers)
