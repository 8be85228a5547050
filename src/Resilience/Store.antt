-- ===== src/Resilience/Store.antt =====
-- fusen/src/resilience/breaker.rs: `EndpointBreakerStore`. The map is a list of entries with distinct
-- keys, in the order of its iterator. A breaker is known by its address: entries and permits share
-- it, and each breaker that is made has the next address.
pub mod Bounded
pub mod Room
pub mod Reuse
pub mod Keys
pub mod Recency
pub mod Held
use fusen_rs.Prelude.{
  ℕ, ◌+◌, ◌-◌, Bool, true, false, Option, none, some, List, [], ◌∷◌, length, ltb, leb,
  if◌then◌else◌,
}

pub record EndpointEntry : Type 0 where
  pub breaker : ℕ
  pub last_used : ℕ

pub record EndpointBreakerStore (K : Type 0) : Type 0 where
  pub max_entries : ℕ
  pub idle_eviction : ℕ
  pub entries : List (K × EndpointEntry)
  pub next_breaker : ℕ

-- The key and time of the entry that was used least lately, the first of several.
abbrev pub earlier {ℓ} : {K : Type ℓ} → K → ℕ → Option (K × ℕ) → Option (K × ℕ)
earlier k t none = some (k, t)
earlier k t (some (j, u)) = if leb t u then some (k, t) else some (j, u)

module _ {K : Type 0} where
  unfoldable pub new_store : ℕ → ℕ → EndpointBreakerStore K
  new_store max_entries idle_eviction = record {
    max_entries = max_entries;
    idle_eviction = idle_eviction;
    entries = [];
    next_breaker = 0;
  }

  unfoldable pub evict_idle_locked : ℕ → ℕ → List (K × EndpointEntry) → List (K × EndpointEntry)
  evict_idle_locked now idle [] = []
  evict_idle_locked now idle ((k, e) ∷ es) =
      let rest = evict_idle_locked now idle es in
      if ltb (now - e.last_used) idle then (k, e) ∷ rest else rest

  unfoldable pub oldest : List (K × EndpointEntry) → Option (K × ℕ)
  oldest [] = none
  oldest ((k, e) ∷ es) = earlier k e.last_used (oldest es)

  unfoldable pub retain_entries : (K → Bool) → List (K × EndpointEntry) → List (K × EndpointEntry)
  retain_entries keep [] = []
  retain_entries keep ((k, e) ∷ es) =
      let rest = retain_entries keep es in if keep k then (k, e) ∷ rest else rest

  unfoldable pub retain : (K → Bool) → EndpointBreakerStore K → EndpointBreakerStore K
  unfolding retain_entries
  retain keep s = record s { entries = retain_entries keep s.entries }

  -- The breaker that is returned is in no entry.
  unfoldable pub untracked_observed : EndpointBreakerStore K → EndpointBreakerStore K × ℕ
  untracked_observed s = (record s { next_breaker = s.next_breaker + 1 }, s.next_breaker)

module _ {K : Type 0} (eq : K → K → Bool) where
  unfoldable pub get_entry : K → List (K × EndpointEntry) → Option EndpointEntry
  get_entry key [] = none
  get_entry key ((k, e) ∷ es) = let rest = get_entry key es in if eq k key then some e else rest

  -- `entry.last_used = now` for the entry of a key.
  unfoldable pub touch : K → ℕ → List (K × EndpointEntry) → List (K × EndpointEntry)
  touch key now [] = []
  touch key now ((k, e) ∷ es) =
      let rest = touch key now es in
      if eq k key then (k, record e { last_used = now }) ∷ es else (k, e) ∷ rest

  unfoldable pub remove : K → List (K × EndpointEntry) → List (K × EndpointEntry)
  remove key [] = []
  remove key ((k, e) ∷ es) = let rest = remove key es in if eq k key then es else (k, e) ∷ rest

  -- The entries with room for one more.
  unfoldable pub make_room : ℕ → List (K × EndpointEntry) → List (K × EndpointEntry)
  unfolding oldest
  make_room max_entries es =
      if leb max_entries (length es)
      then elim (oldest es) [ none ↦ es | some (k, t) ↦ remove k es ]
      else es

  -- `get_or_insert_with_observer`: the store afterwards and the address of the breaker.
  unfoldable pub get_or_insert : K → ℕ → EndpointBreakerStore K → EndpointBreakerStore K × ℕ
  unfolding evict_idle_locked
  get_or_insert key now s =
      let live = evict_idle_locked now s.idle_eviction s.entries in
      elim (get_entry key live) [
        | some e ↦ (record s { entries = touch key now live }, e.breaker)
        | none ↦ (
          record s {
            entries =
                (key, record { breaker = s.next_breaker; last_used = now })
                ∷ make_room s.max_entries live;
            next_breaker = s.next_breaker + 1;
          },
          s.next_breaker,
        )
      ]
