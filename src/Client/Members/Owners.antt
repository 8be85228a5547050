-- ===== src/Client/Members/Owners.antt =====
-- The owners of fusen/src/client/endpoint_breakers.rs and the references to what they list.
use fusen_rs.Client.Members.{
  DiscoveryEndpoint, listed, collect, difference, decrement_references, set_of, remove_owner,
  EndpointBreakers, replace_discovery, remove_discovery, get_or_insert_observed, discovered,
  is_discovery, EndpointBreakerKey, member_of,
}
use fusen_rs.Client.Members.References.{
  one_if, times, as_count, Shows, IsSetOf, collect-set, times-difference,
  decrement_references-Shows, increment_references-Shows,
}
use fusen_rs.Prelude.{
  ℕ, ◌+◌, ◌-◌, ◌^◌, ◌≤◌, ◌<◌, ◌≡◌, refl, ap, ◌∙◌, inl, inr, Bool, true, false, Option, none, some,
  List, [], ◌∷◌, length, if◌then◌else◌, arith, Bool-cases,
}

-- How many owners list an endpoint.
unfoldable pub owners_with :
    {O : Type 0} → DiscoveryEndpoint → List (O × List DiscoveryEndpoint) → ℕ
unfolding listed
owners_with e [] = 0
owners_with e ((o, set) ∷ rest) = one_if (listed e set) + owners_with e rest

abbrev pub AllSets : {O : Type 0} → List (O × List DiscoveryEndpoint) → Type 0
AllSets [] = Unit
AllSets ((o, set) ∷ rest) = IsSetOf set × AllSets rest

one_if_le : (b : Bool) → one_if b ≤ 1
one_if_le true = omega arith
one_if_le false = omega arith

owners_with_le :
    {O : Type 0} (e : DiscoveryEndpoint) (owners : List (O × List DiscoveryEndpoint))
    → owners_with e owners ≤ length owners
unfolding owners_with
owners_with_le e [] = omega arith
owners_with_le e ((o, set) ∷ rest) = omega (arith, owners_with_le e rest, one_if_le (listed e set))

module _ {O : Type 0} (owner_eq : O → O → Bool) where
  owners_with-remove :
      (e : DiscoveryEndpoint) (owner : O) (owners : List (O × List DiscoveryEndpoint))
      → owners_with e owners
        ≡ one_if (listed e (set_of owner_eq owner owners))
          + owners_with e (remove_owner owner_eq owner owners)
  unfolding owners_with set_of remove_owner
  owners_with-remove e owner [] = refl
  owners_with-remove e owner ((o, set) ∷ rest) = elim (Bool-cases (owner_eq o owner)) [
    | inl y ↦ rw (set_of, remove_owner, y) refl
    | inr n ↦ rw (set_of, remove_owner, n) (omega (arith, owners_with-remove e owner rest))
  ]

  set_of-set :
      (owner : O) (owners : List (O × List DiscoveryEndpoint))
      → AllSets owners
      → IsSetOf (set_of owner_eq owner owners)
  unfolding set_of times listed
  set_of-set owner [] h e = refl
  set_of-set owner ((o, set) ∷ rest) (here, later) e = elim (Bool-cases (owner_eq o owner)) [
    | inl y ↦ rw (set_of, y) (here e)
    | inr n ↦ rw (set_of, n) (set_of-set owner rest later e)
  ]

  remove_owner-sets :
      (owner : O) (owners : List (O × List DiscoveryEndpoint))
      → AllSets owners
      → AllSets (remove_owner owner_eq owner owners)
  unfolding remove_owner
  remove_owner-sets owner [] h = h
  remove_owner-sets owner ((o, set) ∷ rest) (here, later) = elim (Bool-cases (owner_eq o owner)) [
    | inl y ↦ rw (remove_owner, y) later
    | inr n ↦ rw (remove_owner, n) (here, remove_owner-sets owner rest later)
  ]

  pub length-remove_owner :
      (owner : O) (owners : List (O × List DiscoveryEndpoint))
      → length (remove_owner owner_eq owner owners) ≤ length owners
  unfolding remove_owner
  length-remove_owner owner [] = omega arith
  length-remove_owner owner ((o, set) ∷ rest) = elim (Bool-cases (owner_eq o owner)) [
    | inl y ↦ rw (remove_owner, y) (omega arith)
    | inr n ↦ rw (remove_owner, n) (omega (arith, length-remove_owner owner rest))
  ]

-- Each reference count is the number of owners that list the endpoint.
pub record IsCounted {O : Type 0} (b : EndpointBreakers O) : Type 0 where
  pub shown : Shows b.references (λ e. owners_with e b.owners)
  pub sets : AllSets b.owners

-- The counts after `old` is replaced by `new`, where the owner's sets are both sets.
swapped :
    (listed_old listed_new : Bool) (others : ℕ)
    → (one_if listed_old + others)
        - (if listed_new then 0 else one_if listed_old)
        + (if listed_old then 0 else one_if listed_new)
      ≡ one_if listed_new + others
swapped true true others = omega arith
swapped true false others = omega arith
swapped false true others = omega arith
swapped false false others = omega arith

module _ {O : Type 0} (owner_eq : O → O → Bool) where
  pub remove_discovery-IsCounted :
      (owner : O) (b : EndpointBreakers O)
      → IsCounted b
      → IsCounted (remove_discovery owner_eq owner b)
  unfolding remove_discovery
  remove_discovery-IsCounted owner b h = record {
    shown = λ e.
        decrement_references-Shows (set_of owner_eq owner b.owners) b.references
          (λ x. owners_with x b.owners) h.shown e
        ∙ ap (λ n. as_count n)
            (omega (
              arith,
              owners_with-remove owner_eq e owner b.owners,
              set_of-set owner_eq owner b.owners h.sets e,
            ));
    sets = remove_owner-sets owner_eq owner b.owners h.sets;
  }

  replaced_count :
      (owner : O) (current : List DiscoveryEndpoint) (owners : List (O × List DiscoveryEndpoint))
      → IsSetOf current
      → AllSets owners
      → (e : DiscoveryEndpoint)
      → let previous = set_of owner_eq owner owners in
        owners_with e owners
          - times e (difference previous current)
          + times e (difference current previous)
        ≡ one_if (listed e current) + owners_with e (remove_owner owner_eq owner owners)
  replaced_count owner current owners set_c sets e =
      let previous = set_of owner_eq owner owners in
      let set_p = set_of-set owner_eq owner owners sets in
      rw
        (
          owners_with-remove owner_eq e owner owners,
          times-difference e previous current,
          times-difference e current previous,
          set_p e,
          set_c e,
        )
        (swapped (listed e previous) (listed e current)
          (owners_with e (remove_owner owner_eq owner owners)))

  pub replace_discovery-IsCounted :
      (owner : O) (endpoints : List DiscoveryEndpoint) (b : EndpointBreakers O)
      → length b.owners + 1 < 2 ^ 64
      → IsCounted b
      → IsCounted (replace_discovery owner_eq owner endpoints b)
  unfolding replace_discovery owners_with
  replace_discovery-IsCounted owner endpoints b small h =
      let current = collect endpoints in
      let previous = set_of owner_eq owner b.owners in
      let gone = difference previous current in
      let new = difference current previous in
      let fewer = (decrement_references b.references gone).0 in
      let set_c = collect-set endpoints in
      record {
        shown = λ e.
            increment_references-Shows new fewer (λ x. owners_with x b.owners - times x gone)
              (decrement_references-Shows gone b.references (λ x. owners_with x b.owners) h.shown)
              (λ x. omega (
                arith,
                small,
                replaced_count owner current b.owners set_c h.sets x,
                one_if_le (listed x current),
                owners_with_le x (remove_owner owner_eq owner b.owners),
                length-remove_owner owner_eq owner b.owners,
              ))
              e
            ∙ ap (λ n. as_count n) (replaced_count owner current b.owners set_c h.sets e);
        sets = (set_c, remove_owner-sets owner_eq owner b.owners h.sets);
      }

module _ {O : Type 0} where
  discovered_members :
      (n : Option ℕ) (key : EndpointBreakerKey) (now : ℕ) (b : EndpointBreakers O)
      → ((discovered n key now b).0.owners ≡ b.owners)
        × ((discovered n key now b).0.references ≡ b.references)
  discovered_members none key now b = (refl, refl)
  discovered_members (some n) key now b = (refl, refl)

  -- A lookup changes no membership.
  pub get_or_insert_members :
      (key : EndpointBreakerKey) (now : ℕ) (b : EndpointBreakers O)
      → let after = (get_or_insert_observed key now b).0 in
        (after.owners ≡ b.owners) × (after.references ≡ b.references)
  unfolding get_or_insert_observed
  get_or_insert_members key now b = elim (Bool-cases (is_discovery key.source)) [
    | inl y ↦
        rw (get_or_insert_observed, y) (discovered_members (b.references (member_of key)) key now b)
    | inr n ↦ rw (get_or_insert_observed, n) (refl, refl)
  ]
