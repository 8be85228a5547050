-- ===== src/Resilience/Store/Held.antt =====
-- What holds of all keys of the store of fusen/src/resilience/breaker.rs.
use fusen_rs.Resilience.Store.{
  EndpointEntry, EndpointBreakerStore, evict_idle_locked, retain_entries, touch, remove, make_room,
  oldest, get_entry, get_or_insert,
}
use fusen_rs.Prelude.{
  ℕ, ◌-◌, ◌≡◌, inl, inr, Bool, true, List, [], ◌∷◌, length, ltb, leb, Bool-cases, Option-cases,
}

module _ {K : Type 0} (p : K → Bool) where
  abbrev pub AllKeys : List (K × EndpointEntry) → Type 0
  AllKeys [] = Unit
  AllKeys ((k, e) ∷ es) = (p k ≡ true) × AllKeys es

  evict_idle-AllKeys :
      (now idle : ℕ) (es : List (K × EndpointEntry))
      → AllKeys es
      → AllKeys (evict_idle_locked now idle es)
  unfolding evict_idle_locked
  evict_idle-AllKeys now idle [] h = h
  evict_idle-AllKeys now idle ((k, e) ∷ es) (here, later) =
      elim (Bool-cases (ltb (now - e.last_used) idle)) [
        | inl y ↦ rw (evict_idle_locked, y) (here, evict_idle-AllKeys now idle es later)
        | inr n ↦ rw (evict_idle_locked, n) (evict_idle-AllKeys now idle es later)
      ]

module _ {K : Type 0} (p q : K → Bool) where
  pub AllKeys-implied :
      (es : List (K × EndpointEntry))
      → ((k : K) → p k ≡ true → q k ≡ true)
      → AllKeys p es
      → AllKeys q es
  AllKeys-implied [] step h = h
  AllKeys-implied ((k, e) ∷ es) step (here, later) = (step k here, AllKeys-implied es step later)

  pub retain_entries-AllKeys :
      (keep : K → Bool) (es : List (K × EndpointEntry))
      → ((k : K) → p k ≡ true → keep k ≡ true → q k ≡ true)
      → AllKeys p es
      → AllKeys q (retain_entries keep es)
  unfolding retain_entries
  retain_entries-AllKeys keep [] step h = h
  retain_entries-AllKeys keep ((k, e) ∷ es) step (here, later) = elim (Bool-cases (keep k)) [
    | inl y ↦ rw (retain_entries, y) (step k here y, retain_entries-AllKeys keep es step later)
    | inr n ↦ rw (retain_entries, n) (retain_entries-AllKeys keep es step later)
  ]

module _ {K : Type 0} (p : K → Bool) (eq : K → K → Bool) where
  touch-AllKeys :
      (key : K) (now : ℕ) (es : List (K × EndpointEntry))
      → AllKeys p es
      → AllKeys p (touch eq key now es)
  unfolding touch
  touch-AllKeys key now [] h = h
  touch-AllKeys key now ((k, e) ∷ es) (here, later) = elim (Bool-cases (eq k key)) [
    | inl y ↦ rw (touch, y) (here, later)
    | inr n ↦ rw (touch, n) (here, touch-AllKeys key now es later)
  ]

  remove-AllKeys :
      (key : K) (es : List (K × EndpointEntry)) → AllKeys p es → AllKeys p (remove eq key es)
  unfolding remove
  remove-AllKeys key [] h = h
  remove-AllKeys key ((k, e) ∷ es) (here, later) = elim (Bool-cases (eq k key)) [
    | inl y ↦ rw (remove, y) later
    | inr n ↦ rw (remove, n) (here, remove-AllKeys key es later)
  ]

  make_room-AllKeys :
      (max_entries : ℕ) (es : List (K × EndpointEntry))
      → AllKeys p es
      → AllKeys p (make_room eq max_entries es)
  unfolding make_room
  make_room-AllKeys max_entries es h = elim (Bool-cases (leb max_entries (length es))) [
    | inr n ↦ rw (make_room, n) h
    | inl y ↦ elim (Option-cases (oldest es)) [
      | inl none_old ↦ rw (make_room, y, none_old) h
      | inr ((k, t), found) ↦ rw (make_room, y, found) (remove-AllKeys k es h)
    ]
  ]

  pub get_or_insert-AllKeys :
      (key : K) (now : ℕ) (s : EndpointBreakerStore K)
      → p key ≡ true
      → AllKeys p s.entries
      → AllKeys p (get_or_insert eq key now s).0.entries
  unfolding get_or_insert
  get_or_insert-AllKeys key now s here h =
      let live = evict_idle_locked now s.idle_eviction s.entries in
      let kept = evict_idle-AllKeys p now s.idle_eviction s.entries h in
      elim (Option-cases (get_entry eq key live)) [
        | inr (e, found) ↦ rw (get_or_insert, found) (touch-AllKeys key now live kept)
        | inl missing ↦
            rw (get_or_insert, missing) (here, make_room-AllKeys s.max_entries live kept)
      ]
