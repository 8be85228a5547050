-- ===== src/Client/Members/Runs.antt =====
-- Any calls of the methods of fusen/src/client/endpoint_breakers.rs, one after another.
use fusen_rs.Client.Members.{
  DiscoveryEndpoint, EndpointBreakerKey, EndpointBreakers, new_breakers, replace_discovery,
  remove_discovery, get_or_insert_observed, is_discovery, member_of, key_eq, set_of, discovered,
  increment_references, collect, difference,
}
use fusen_rs.Client.Members.Cached.{may_cache, remove_cached-AllKeys}
use fusen_rs.Client.Members.Owners.{
  owners_with, IsCounted, remove_discovery-IsCounted, replace_discovery-IsCounted,
  get_or_insert_members, length-remove_owner,
}
use fusen_rs.Client.Members.References.{as_count}
use fusen_rs.Resilience.Store.{untracked_observed, new_store}
use fusen_rs.Resilience.Store.Held.{AllKeys, AllKeys-implied, get_or_insert-AllKeys}
use fusen_rs.Prelude.{
  ℕ, ◌+◌, ◌^◌, ◌≤◌, ◌<◌, ◌≡◌, refl, sym, subst, inl, inr, Bool, true, ◌||◌, not, Option, none, some,
  List, [], ◌∷◌, length, ltb, arith, Bool-cases,
}

pub data MembershipCall (O : Type 0) : Type 0 where
  replace : O → List DiscoveryEndpoint → MembershipCall O
  leave : O → MembershipCall O
  look_up : EndpointBreakerKey → ℕ → MembershipCall O

module _ {O : Type 0} (owner_eq : O → O → Bool) where
  unfoldable pub apply_call : MembershipCall O → EndpointBreakers O → EndpointBreakers O
  unfolding replace_discovery remove_discovery get_or_insert_observed
  apply_call (replace owner endpoints) b = replace_discovery owner_eq owner endpoints b
  apply_call (leave owner) b = remove_discovery owner_eq owner b
  apply_call (look_up key now) b = (get_or_insert_observed key now b).0

  -- The calls in order, the last one first in the list.
  unfoldable pub after_calls : List (MembershipCall O) → EndpointBreakers O → EndpointBreakers O
  unfolding apply_call
  after_calls [] b = b
  after_calls (c ∷ cs) b = apply_call c (after_calls cs b)

-- References count owners, and a cached key of discovery belongs to an endpoint that some owner lists.
pub record IsMembership {O : Type 0} (b : EndpointBreakers O) : Type 0 where
  pub counted : IsCounted b
  pub cached : AllKeys (may_cache b.references) b.store.entries

module _ {O : Type 0} where
  discovered-cached :
      (n : Option ℕ) (key : EndpointBreakerKey) (now : ℕ) (b : EndpointBreakers O)
      → b.references (member_of key) ≡ n
      → is_discovery key.source ≡ true
      → AllKeys (may_cache b.references) b.store.entries
      → AllKeys (may_cache b.references) (discovered n key now b).0.store.entries
  unfolding untracked_observed
  discovered-cached none key now b e d h = h
  discovered-cached (some n) key now b e d h =
      get_or_insert-AllKeys (may_cache b.references) key_eq key now b.store (rw (d, e) refl) h

  look_up-cached :
      (key : EndpointBreakerKey) (now : ℕ) (b : EndpointBreakers O)
      → AllKeys (may_cache b.references) b.store.entries
      → AllKeys (may_cache b.references) (get_or_insert_observed key now b).0.store.entries
  unfolding get_or_insert_observed
  look_up-cached key now b h = elim (Bool-cases (is_discovery key.source)) [
    | inl y ↦
        rw (get_or_insert_observed, y)
          (discovered-cached (b.references (member_of key)) key now b refl y h)
    | inr n ↦
        rw (get_or_insert_observed, n)
          (get_or_insert-AllKeys (may_cache b.references) key_eq key now b.store (rw n refl) h)
  ]

no_owners :
    (O : Type 0) (max idle : ℕ)
    → length (EndpointBreakers.owners {O = O} (new_breakers max idle)) ≡ 0
unfolding new_breakers
no_owners O max idle = refl

module _ {O : Type 0} (owner_eq : O → O → Bool) where
  length-apply_call :
      (c : MembershipCall O) (b : EndpointBreakers O)
      → length (apply_call owner_eq c b).owners ≤ length b.owners + 1
  unfolding apply_call replace_discovery remove_discovery
  length-apply_call (replace owner endpoints) b =
      omega (arith, length-remove_owner owner_eq owner b.owners)
  length-apply_call (leave owner) b = omega (arith, length-remove_owner owner_eq owner b.owners)
  length-apply_call (look_up key now) b = rw ((get_or_insert_members key now b).0) (omega arith)

  apply_call-IsMembership :
      (c : MembershipCall O) (b : EndpointBreakers O)
      → length b.owners + 1 < 2 ^ 64
      → IsMembership b
      → IsMembership (apply_call owner_eq c b)
  unfolding apply_call increment_references
  apply_call-IsMembership (replace owner endpoints) b small h = record {
    counted = replace_discovery-IsCounted owner_eq owner endpoints b small h.counted;
    cached =
        let current = collect endpoints in
        let previous = set_of owner_eq owner b.owners in
        remove_cached-AllKeys (difference previous current) (difference current previous)
          b.references b.store h.cached;
  }
  apply_call-IsMembership (leave owner) b small h = record {
    counted = remove_discovery-IsCounted owner_eq owner b h.counted;
    cached =
        remove_cached-AllKeys (set_of owner_eq owner b.owners) [] b.references b.store h.cached;
  }
  apply_call-IsMembership (look_up key now) b small h =
      let (same_owners, same_references) = get_or_insert_members key now b in
      record {
        counted = record {
          shown = λ e. rw (same_owners, same_references) (h.counted.shown e);
          sets = rw same_owners h.counted.sets;
        };
        cached =
            subst (λ r. AllKeys (may_cache r) (get_or_insert_observed key now b).0.store.entries)
              (sym same_references) (look_up-cached key now b h.cached);
      }

  length-after_calls :
      (cs : List (MembershipCall O)) (b : EndpointBreakers O)
      → length (after_calls owner_eq cs b).owners ≤ length b.owners + length cs
  unfolding after_calls
  length-after_calls [] b = omega arith
  length-after_calls (c ∷ cs) b =
      omega (arith, length-after_calls cs b, length-apply_call c (after_calls owner_eq cs b))

  new_breakers-IsMembership : (max idle : ℕ) → IsMembership {O = O} (new_breakers max idle)
  unfolding new_breakers owners_with new_store
  new_breakers-IsMembership max idle = record {
    counted = record { shown = λ e. refl; sets = tt };
    cached = tt;
  }

  calls-IsMembership :
      (max idle : ℕ) (cs : List (MembershipCall O))
      → length cs < 2 ^ 64
      → IsMembership (after_calls owner_eq cs (new_breakers max idle))
  unfolding after_calls
  calls-IsMembership max idle [] h = new_breakers-IsMembership max idle
  calls-IsMembership max idle (c ∷ cs) h =
      let before = after_calls owner_eq cs (new_breakers max idle) in
      apply_call-IsMembership c before
        (omega (arith, length-after_calls cs (new_breakers max idle), no_owners O max idle))
        (calls-IsMembership max idle cs (omega arith))

  -- A key that may be cached: of a direct endpoint, or of one that some owner lists.
  abbrev pub is_listed : EndpointBreakers O → EndpointBreakerKey → Bool
  is_listed b key = not (is_discovery key.source) || ltb 0 (owners_with (member_of key) b.owners)

  -- After any fewer than 2 ^ 64 calls, the map of references holds for each endpoint how many owners list
  -- it, and nothing where none does; and a breaker is cached for a discovered endpoint only if some owner
  -- lists it.
  pub after_calls-IsMembership :
      (max_entries idle_eviction : ℕ) (calls : List (MembershipCall O))
      → length calls < 2 ^ 64
      → let b = after_calls owner_eq calls (new_breakers max_entries idle_eviction) in
        ((e : DiscoveryEndpoint) → b.references e ≡ as_count (owners_with e b.owners))
        × AllKeys (is_listed b) b.store.entries
  after_calls-IsMembership max_entries idle_eviction calls h =
      let b = after_calls owner_eq calls (new_breakers max_entries idle_eviction) in
      let m = calls-IsMembership max_entries idle_eviction calls h in
      (
        m.counted.shown,
        AllKeys-implied (may_cache b.references) (is_listed b) b.store.entries
            (λ k ok. ground (arith, ok, m.counted.shown (member_of k))) m.cached,
      )
