-- ===== src/Resilience/Store/Reuse.antt =====
-- Which breaker the endpoint breaker store of fusen/src/resilience/breaker.rs hands out.
use fusen_rs.Resilience.Store.{
  EndpointEntry, EndpointBreakerStore, evict_idle_locked, get_entry, touch, get_or_insert,
}
use fusen_rs.Prelude.{
  ℕ, ◌-◌, ◌≡◌, refl, inl, inr, Bool, true, Option, none, some, List, [], ◌∷◌, arith, Bool-cases,
  Option-cases, if◌then◌else◌, ltb, ◌↔◌, sym, subst, ◌∙◌,
}

-- An entry that has not been idle for too long.
abbrev pub if_live : ℕ → ℕ → Option EndpointEntry → Option EndpointEntry
if_live now idle none = none
if_live now idle (some e) = if ltb (now - e.last_used) idle then some e else none

-- The breaker of an entry, or a new one where there is no entry.
abbrev pub breaker_or : ℕ → Option EndpointEntry → ℕ
breaker_or fresh none = fresh
breaker_or fresh (some e) = e.breaker

module _ {K : Type 0} (eq : K → K → Bool) (eq_iff : (a b : K) → (eq a b ≡ true) ↔ (a ≡ b)) where
  -- The keys of a map.
  abbrev pub DistinctKeys : List (K × EndpointEntry) → Type 0
  DistinctKeys [] = Unit {0}
  DistinctKeys ((k, e) ∷ es) = (get_entry eq k es ≡ none) × DistinctKeys es

  pub evicted_absent :
      (now idle : ℕ) (key : K) (es : List (K × EndpointEntry))
      → get_entry eq key es ≡ none
      → get_entry eq key (evict_idle_locked now idle es) ≡ none
  unfolding get_entry evict_idle_locked
  evicted_absent now idle key [] h = refl
  evicted_absent now idle key ((k, e) ∷ es) h = ground (arith, evicted_absent now idle key es)

  get_entry-evict :
      (now idle : ℕ) (key : K) (es : List (K × EndpointEntry))
      → DistinctKeys es
      → get_entry eq key (evict_idle_locked now idle es) ≡ if_live now idle (get_entry eq key es)
  unfolding get_entry evict_idle_locked
  get_entry-evict now idle key [] h = refl
  get_entry-evict now idle key ((k, e) ∷ es) h = elim (Bool-cases (eq k key)) [
    | inr y ↦ ground (arith, y, get_entry-evict now idle key es h.1)
    | inl y ↦
        let none_left =
          evicted_absent now idle key es
            (subst (λ j. get_entry eq j es ≡ none) ((eq_iff k key).0 y) h.0) in
        ground (arith, y, none_left)
  ]

  get_entry-touch :
      (key : K) (now : ℕ) (es : List (K × EndpointEntry)) (e : EndpointEntry)
      → get_entry eq key es ≡ some e
      → get_entry eq key (touch eq key now es) ≡ some (record e { last_used = now })
  unfolding get_entry touch
  get_entry-touch key now [] e h = absurd (cc)
  get_entry-touch key now ((k, x) ∷ es) e h = ground (arith, get_entry-touch key now es e)

  -- In a store with distinct keys, the breaker that is handed out for a key is the one that the key had,
  -- if it was used recently enough, and a new one otherwise. Afterwards the key has that breaker, used
  -- now.
  pub get_or_insert_returns :
      (key : K) (now : ℕ) (s : EndpointBreakerStore K)
      → DistinctKeys s.entries
      → let r = get_or_insert eq key now s in
        (r.1 ≡ breaker_or s.next_breaker (if_live now s.idle_eviction (get_entry eq key s.entries)))
        × (get_entry eq key r.0.entries ≡ some (record { breaker = r.1; last_used = now }))
  unfolding get_or_insert get_entry
  get_or_insert_returns key now s distinct =
      let e = get_entry-evict now s.idle_eviction key s.entries distinct in
      elim (Option-cases (get_entry eq key (evict_idle_locked now s.idle_eviction s.entries))) [
        | inl n ↦
            rw (n, get_or_insert)
              (rw (sym e ∙ n) refl, rw ((eq_iff key key).1 refl, get_entry) refl)
        | inr (x, h) ↦ rw (h, get_or_insert) (rw (sym e ∙ h) refl, get_entry-touch key now _ x h)
      ]
