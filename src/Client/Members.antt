-- ===== src/Client/Members.antt =====
-- fusen/src/client/endpoint_breakers.rs: which endpoints discovery lists, and the breakers that are cached
-- for them. A method that changes the memberships holds their lock to its end, so it is one step. A hash
-- set is a list without repetitions, the map of owners a list of entries with distinct keys, the map of
-- references a function. The owners are of any type with an equality.
pub mod References
pub mod Owners
pub mod Cached
pub mod Runs
use fusen_rs.Resilience.Store.{
  EndpointBreakerStore, new_store, get_or_insert, retain, untracked_observed,
}
use fusen_rs.Prelude.{
  ℕ, ◌+◌, ◌-◌, ◌^◌, min, Bool, true, false, ◌&&◌, ◌||◌, not, Option, none, some, List, [], ◌∷◌, map,
  ltb, if◌then◌else◌,
}
use fusen_rs.Prelude.Bytes.{Bytes, str_eq}

pub data EndpointBreakerSource : Type 0 where
  direct discovery : EndpointBreakerSource

abbrev pub source_eq : EndpointBreakerSource → EndpointBreakerSource → Bool
source_eq direct direct = true
source_eq discovery discovery = true
source_eq _ _ = false

abbrev pub is_discovery : EndpointBreakerSource → Bool
is_discovery direct = false
is_discovery discovery = true

pub record DiscoveryEndpoint : Type 0 where
  pub service : Bytes
  pub endpoint : Bytes

unfoldable pub member_eq : DiscoveryEndpoint → DiscoveryEndpoint → Bool
unfolding str_eq
member_eq a b = str_eq a.service b.service && str_eq a.endpoint b.endpoint

pub record EndpointBreakerKey : Type 0 where
  pub service : Bytes
  pub binding_id : Bytes
  pub source : EndpointBreakerSource
  pub endpoint : Bytes

unfoldable pub key_eq : EndpointBreakerKey → EndpointBreakerKey → Bool
unfolding str_eq
key_eq a b =
    str_eq a.service b.service
    && str_eq a.binding_id b.binding_id
    && source_eq a.source b.source
    && str_eq a.endpoint b.endpoint

abbrev pub member_of : EndpointBreakerKey → DiscoveryEndpoint
member_of k = record { service = k.service; endpoint = k.endpoint }

unfoldable pub listed : DiscoveryEndpoint → List DiscoveryEndpoint → Bool
unfolding member_eq
listed e [] = false
listed e (x ∷ xs) = member_eq x e || listed e xs

-- `collect` into a set.
unfoldable pub collect : List DiscoveryEndpoint → List DiscoveryEndpoint
unfolding listed
collect [] = []
collect (x ∷ xs) = let rest = collect xs in if listed x rest then rest else x ∷ rest

unfoldable pub difference : List DiscoveryEndpoint → List DiscoveryEndpoint → List DiscoveryEndpoint
unfolding listed
difference [] ys = []
difference (x ∷ xs) ys = let rest = difference xs ys in if listed x ys then rest else x ∷ rest

-- `references`: how many owners list an endpoint, if any does.
abbrev pub References : Type 0
References = DiscoveryEndpoint → Option ℕ

abbrev pub set_reference : DiscoveryEndpoint → Option ℕ → References → References
set_reference x n references = λ e. if member_eq x e then n else references e

abbrev pub incremented : Option ℕ → Option ℕ
incremented none = some 1
incremented (some n) = some (min (n + 1) (2 ^ 64 - 1))

unfoldable pub increment_references : References → List DiscoveryEndpoint → References
unfolding member_eq
increment_references references [] = references
increment_references references (x ∷ xs) =
    increment_references (set_reference x (incremented (references x)) references) xs

-- The count afterwards: the last reference is removed.
abbrev pub decremented : Option ℕ → Option ℕ
decremented none = none
decremented (some n) = if ltb 1 n then some (n - 1) else none

abbrev pub is_last : Option ℕ → Bool
is_last none = false
is_last (some n) = not (ltb 1 n)

unfoldable pub decrement_references :
    References → List DiscoveryEndpoint → References × List DiscoveryEndpoint
unfolding member_eq
decrement_references references [] = (references, [])
decrement_references references (x ∷ xs) =
    let (after, evicted) =
      decrement_references (set_reference x (decremented (references x)) references) xs in
    (after, if is_last (references x) then x ∷ evicted else evicted)

module _ {O : Type 0} (owner_eq : O → O → Bool) where
  -- The set of an owner, `unwrap_or_default`.
  unfoldable pub set_of : O → List (O × List DiscoveryEndpoint) → List DiscoveryEndpoint
  set_of owner [] = []
  set_of owner ((o, set) ∷ rest) =
      let later = set_of owner rest in if owner_eq o owner then set else later

  unfoldable pub remove_owner :
      O → List (O × List DiscoveryEndpoint) → List (O × List DiscoveryEndpoint)
  remove_owner owner [] = []
  remove_owner owner ((o, set) ∷ rest) =
      let later = remove_owner owner rest in if owner_eq o owner then rest else (o, set) ∷ later

pub record EndpointBreakers (O : Type 0) : Type 0 where
  pub store : EndpointBreakerStore EndpointBreakerKey
  pub owners : List (O × List DiscoveryEndpoint)
  pub references : References

-- `EndpointBreakers::new`.
unfoldable pub new_breakers : {O : Type 0} → ℕ → ℕ → EndpointBreakers O
unfolding new_store
new_breakers max_entries idle_eviction = record {
  store = new_store max_entries idle_eviction;
  owners = [];
  references = λ e. none;
}

abbrev pub keeps : List DiscoveryEndpoint → EndpointBreakerKey → Bool
keeps evicted key = not (is_discovery key.source) || not (listed (member_of key) evicted)

unfoldable pub remove_cached :
    List DiscoveryEndpoint
    → EndpointBreakerStore EndpointBreakerKey
    → EndpointBreakerStore EndpointBreakerKey
unfolding retain listed
remove_cached evicted store = retain (keeps (collect evicted)) store

module _ {O : Type 0} where
  abbrev pub with_store :
      EndpointBreakers O → EndpointBreakerStore EndpointBreakerKey × ℕ → EndpointBreakers O × ℕ
  with_store b (store, breaker) = (record b { store = store }, breaker)

  abbrev pub discovered :
      Option ℕ → EndpointBreakerKey → ℕ → EndpointBreakers O → EndpointBreakers O × ℕ
  discovered none key now b = with_store b (untracked_observed b.store)
  discovered (some n) key now b = with_store b (get_or_insert key_eq key now b.store)

  -- `get_or_insert_observed`: the breakers afterwards and the address of the one that is returned.
  unfoldable pub get_or_insert_observed :
      EndpointBreakerKey → ℕ → EndpointBreakers O → EndpointBreakers O × ℕ
  unfolding get_or_insert untracked_observed key_eq
  get_or_insert_observed key now b =
      if is_discovery key.source
      then discovered (b.references (member_of key)) key now b
      else with_store b (get_or_insert key_eq key now b.store)

module _ {O : Type 0} (owner_eq : O → O → Bool) where
  -- `replace_discovery`, with the endpoints of the instances.
  unfoldable pub replace_discovery :
      O → List DiscoveryEndpoint → EndpointBreakers O → EndpointBreakers O
  unfolding set_of remove_owner collect difference decrement_references increment_references
      remove_cached
  replace_discovery owner endpoints b =
      let current = collect endpoints in
      let previous = set_of owner_eq owner b.owners in
      let (fewer, evicted) = decrement_references b.references (difference previous current) in
      record {
        store = remove_cached evicted b.store;
        owners = (owner, current) ∷ remove_owner owner_eq owner b.owners;
        references = increment_references fewer (difference current previous);
      }

  unfoldable pub remove_discovery : O → EndpointBreakers O → EndpointBreakers O
  unfolding set_of remove_owner decrement_references remove_cached
  remove_discovery owner b =
      let (fewer, evicted) = decrement_references b.references (set_of owner_eq owner b.owners) in
      record {
        store = remove_cached evicted b.store;
        owners = remove_owner owner_eq owner b.owners;
        references = fewer;
      }
