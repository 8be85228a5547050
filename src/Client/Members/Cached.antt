-- ===== src/Client/Members/Cached.antt =====
-- fusen/src/client/endpoint_breakers.rs caches breakers for discovered endpoints only while they are listed.
use fusen_rs.Client.Members.{
  DiscoveryEndpoint, member_eq, listed, collect, References, set_reference, decremented,
  incremented, is_last, decrement_references, increment_references, keeps, is_discovery,
  EndpointBreakerKey, member_of, remove_cached,
}
use fusen_rs.Client.Members.References.{member_eq_iff}
use fusen_rs.Resilience.Store.{EndpointBreakerStore, retain}
use fusen_rs.Resilience.Store.Held.{AllKeys, retain_entries-AllKeys}
use fusen_rs.Prelude.{
  ℕ, ◌≡◌, refl, sym, ◌∙◌, inl, inr, Bool, true, false, ◌||◌, not, Option, none, some, List, [], ◌∷◌,
  arith, Bool-cases,
}

abbrev pub is_shown : Option ℕ → Bool
is_shown none = false
is_shown (some n) = true

-- A key is of a direct endpoint, or of one that some owner lists.
abbrev pub may_cache : References → EndpointBreakerKey → Bool
may_cache references key = not (is_discovery key.source) || is_shown (references (member_of key))

kept_shown :
    (n : Option ℕ) → is_last n ≡ false → is_shown n ≡ true → is_shown (decremented n) ≡ true
kept_shown none l h = cc
kept_shown (some n) l h = ground arith

incremented_shown : (n : Option ℕ) → is_shown (incremented n) ≡ true
incremented_shown none = refl
incremented_shown (some n) = refl

decrement_keeps :
    (xs : List DiscoveryEndpoint) (references : References) (e : DiscoveryEndpoint)
    → is_shown (references e) ≡ true
    → listed e (decrement_references references xs).1 ≡ false
    → is_shown ((decrement_references references xs).0 e) ≡ true
unfolding decrement_references listed
decrement_keeps [] references e h l = h
decrement_keeps (x ∷ xs) references e h l = elim (Bool-cases (member_eq x e)) [
  | inl m ↦
      let same : x ≡ e = (member_eq_iff x e).0 m in
      elim (Bool-cases (is_last (references x))) [
        | inl y ↦ absurd (cc (rw (decrement_references, y, listed, m) at l))
        | inr n ↦
            decrement_keeps xs (set_reference x (decremented (references x)) references) e
              (rw m (kept_shown (references x) n (rw (sym same) at h)))
              (rw (decrement_references, n) at l)
      ]
  | inr m ↦ elim (Bool-cases (is_last (references x))) [
    | inl y ↦
        decrement_keeps xs (set_reference x (decremented (references x)) references) e (rw m h)
          (rw (decrement_references, y, listed, m) at l)
    | inr n ↦
        decrement_keeps xs (set_reference x (decremented (references x)) references) e (rw m h)
          (rw (decrement_references, n) at l)
  ]
]

increment_keeps :
    (xs : List DiscoveryEndpoint) (references : References) (e : DiscoveryEndpoint)
    → is_shown (references e) ≡ true
    → is_shown (increment_references references xs e) ≡ true
unfolding increment_references
increment_keeps [] references e h = h
increment_keeps (x ∷ xs) references e h =
    increment_keeps xs (set_reference x (incremented (references x)) references) e
      (elim (Bool-cases (member_eq x e)) [
        | inl m ↦ rw m (incremented_shown (references x))
        | inr m ↦ rw m h
      ])

listed-collect :
    (e : DiscoveryEndpoint) (xs : List DiscoveryEndpoint) → listed e (collect xs) ≡ listed e xs
unfolding listed collect
listed-collect e [] = refl
listed-collect e (x ∷ xs) = elim (Bool-cases (listed x (collect xs))) [
  | inr n ↦ rw (collect, n, listed, listed-collect e xs) refl
  | inl y ↦ elim (Bool-cases (member_eq x e)) [
    | inl m ↦ let same : x ≡ e = (member_eq_iff x e).0 m in rw (collect, y, m) (rw same at y)
    | inr m ↦ rw (collect, y, m) (listed-collect e xs)
  ]
]

-- The keys that are left after the endpoints without owners were evicted.
keeps_shown :
    (xs added : List DiscoveryEndpoint) (references : References) (k : EndpointBreakerKey)
    → may_cache references k ≡ true
    → keeps (collect (decrement_references references xs).1) k ≡ true
    → may_cache (increment_references (decrement_references references xs).0 added) k ≡ true
keeps_shown xs added references k h kept = elim (Bool-cases (is_discovery k.source)) [
  | inr n ↦ rw n refl
  | inl y ↦
      let evicted = (decrement_references references xs).1 in
      let unlisted : listed (member_of k) (collect evicted) ≡ false =
        ground (arith, rw y at kept) in
      rw y (
        increment_keeps added (decrement_references references xs).0 (member_of k) (
          decrement_keeps xs references (member_of k) (rw y at h)
            (sym (listed-collect (member_of k) evicted) ∙ unlisted)))
]

-- The store after a change of the memberships caches only what may be cached.
pub remove_cached-AllKeys :
    (xs added : List DiscoveryEndpoint) (references : References)
    (store : EndpointBreakerStore EndpointBreakerKey)
    → AllKeys (may_cache references) store.entries
    → AllKeys
        (may_cache (increment_references (decrement_references references xs).0 added))
        (remove_cached (decrement_references references xs).1 store).entries
unfolding remove_cached retain
remove_cached-AllKeys xs added references store h =
    retain_entries-AllKeys (may_cache references) _
      (keeps (collect (decrement_references references xs).1)) store.entries
      (keeps_shown xs added references) h
