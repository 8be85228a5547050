-- ===== src/Resilience/Store/Keys.antt =====
-- The keys of the endpoint breaker store of fusen/src/resilience/breaker.rs.
use fusen_rs.Resilience.Store.{
  EndpointEntry, EndpointBreakerStore, new_store, evict_idle_locked, oldest, retain_entries, retain,
  untracked_observed, get_entry, touch, remove, make_room, get_or_insert,
}
use fusen_rs.Resilience.Store.Bounded.{Call, ask, forget, detached}
use fusen_rs.Resilience.Store.Room.{run}
use fusen_rs.Resilience.Store.Reuse.{DistinctKeys, evicted_absent}
use fusen_rs.Prelude.{
  ℕ, ◌≡◌, refl, inl, inr, Bool, true, none, List, [], ◌∷◌, arith, Bool-cases, Option-cases, ltb,
  ◌-◌, ◌↔◌, leb, length,
}

module _ {K : Type 0} (eq : K → K → Bool) (eq_iff : (a b : K) → (eq a b ≡ true) ↔ (a ≡ b)) where
  evict-DistinctKeys :
      (now idle : ℕ) (es : List (K × EndpointEntry))
      → DistinctKeys eq eq_iff es
      → DistinctKeys eq eq_iff (evict_idle_locked now idle es)
  unfolding evict_idle_locked
  evict-DistinctKeys now idle [] h = tt
  evict-DistinctKeys now idle ((k, e) ∷ es) h = elim (Bool-cases (ltb (now - e.last_used) idle)) [
    | inl y ↦ rw y (evicted_absent eq eq_iff now idle k es h.0, evict-DistinctKeys now idle es h.1)
    | inr y ↦ rw y (evict-DistinctKeys now idle es h.1)
  ]

  touched_absent :
      (key j : K) (now : ℕ) (es : List (K × EndpointEntry))
      → get_entry eq j es ≡ none
      → get_entry eq j (touch eq key now es) ≡ none
  unfolding get_entry touch
  touched_absent key j now [] h = refl
  touched_absent key j now ((k, e) ∷ es) h = ground (arith, touched_absent key j now es)

  touch-DistinctKeys :
      (key : K) (now : ℕ) (es : List (K × EndpointEntry))
      → DistinctKeys eq eq_iff es
      → DistinctKeys eq eq_iff (touch eq key now es)
  unfolding touch
  touch-DistinctKeys key now [] h = tt
  touch-DistinctKeys key now ((k, e) ∷ es) h = elim (Bool-cases (eq k key)) [
    | inl y ↦ rw y h
    | inr y ↦ rw y (touched_absent key k now es h.0, touch-DistinctKeys key now es h.1)
  ]

  removed_absent :
      (key j : K) (es : List (K × EndpointEntry))
      → get_entry eq j es ≡ none
      → get_entry eq j (remove eq key es) ≡ none
  unfolding get_entry remove
  removed_absent key j [] h = refl
  removed_absent key j ((k, e) ∷ es) h = ground (arith, removed_absent key j es)

  remove-DistinctKeys :
      (key : K) (es : List (K × EndpointEntry))
      → DistinctKeys eq eq_iff es
      → DistinctKeys eq eq_iff (remove eq key es)
  unfolding remove
  remove-DistinctKeys key [] h = tt
  remove-DistinctKeys key ((k, e) ∷ es) h = elim (Bool-cases (eq k key)) [
    | inl y ↦ rw y h.1
    | inr y ↦ rw y (removed_absent key k es h.0, remove-DistinctKeys key es h.1)
  ]

  retained_absent :
      (keep : K → Bool) (j : K) (es : List (K × EndpointEntry))
      → get_entry eq j es ≡ none
      → get_entry eq j (retain_entries keep es) ≡ none
  unfolding get_entry retain_entries
  retained_absent keep j [] h = refl
  retained_absent keep j ((k, e) ∷ es) h = ground (arith, retained_absent keep j es)

  retain-DistinctKeys :
      (keep : K → Bool) (es : List (K × EndpointEntry))
      → DistinctKeys eq eq_iff es
      → DistinctKeys eq eq_iff (retain_entries keep es)
  unfolding retain_entries
  retain-DistinctKeys keep [] h = tt
  retain-DistinctKeys keep ((k, e) ∷ es) h = elim (Bool-cases (keep k)) [
    | inl y ↦ rw y (retained_absent keep k es h.0, retain-DistinctKeys keep es h.1)
    | inr y ↦ rw y (retain-DistinctKeys keep es h.1)
  ]

  -- Making room for a key that is absent.
  make_room-DistinctKeys :
      (bound : ℕ) (key : K) (es : List (K × EndpointEntry))
      → get_entry eq key es ≡ none
      → DistinctKeys eq eq_iff es
      → (get_entry eq key (make_room eq bound es) ≡ none)
        × DistinctKeys eq eq_iff (make_room eq bound es)
  unfolding make_room
  make_room-DistinctKeys bound key es n h = elim (Bool-cases (leb bound (length es))) [
    | inr y ↦ rw y (n, h)
    | inl full ↦ elim (Option-cases (oldest es)) [
      | inl o ↦ rw (full, o) (n, h)
      | inr ((j, t), o) ↦ rw (full, o) (removed_absent j key es n, remove-DistinctKeys j es h)
    ]
  ]

  get_or_insert-DistinctKeys :
      (key : K) (now : ℕ) (s : EndpointBreakerStore K)
      → DistinctKeys eq eq_iff s.entries
      → DistinctKeys eq eq_iff (get_or_insert eq key now s).0.entries
  unfolding get_or_insert
  get_or_insert-DistinctKeys key now s h =
      let live : List (K × EndpointEntry) = evict_idle_locked now s.idle_eviction s.entries in
      let kept = evict-DistinctKeys now s.idle_eviction s.entries h in
      elim (Option-cases (get_entry eq key live)) [
        | inl n ↦ rw (n, get_or_insert) (make_room-DistinctKeys s.max_entries key live n kept)
        | inr (e, found) ↦ rw (found, get_or_insert) (touch-DistinctKeys key now live kept)
      ]

  module _ (eq_refl : (k : K) → eq k k ≡ true) where
    run_from-DistinctKeys :
        (cs : List (Call K)) (s : EndpointBreakerStore K)
        → DistinctKeys eq eq_iff s.entries
        → DistinctKeys eq eq_iff (run eq eq_refl s cs).entries
    unfolding run retain untracked_observed
    run_from-DistinctKeys [] s h = h
    run_from-DistinctKeys (ask key now ∷ cs) s h =
        run_from-DistinctKeys cs (get_or_insert eq key now s).0
          (get_or_insert-DistinctKeys key now s h)
    run_from-DistinctKeys (forget keep ∷ cs) s h =
        run_from-DistinctKeys cs (retain keep s) (retain-DistinctKeys keep s.entries h)
    run_from-DistinctKeys (detached ∷ cs) s h = run_from-DistinctKeys cs (untracked_observed s).0 h

    -- After any calls the keys of a store's entries are distinct.
    pub run-DistinctKeys :
        (max_entries idle_eviction : ℕ) (cs : List (Call K))
        → DistinctKeys eq eq_iff (run eq eq_refl (new_store max_entries idle_eviction) cs).entries
    unfolding new_store
    run-DistinctKeys max_entries idle_eviction cs =
        run_from-DistinctKeys cs (new_store max_entries idle_eviction) tt
