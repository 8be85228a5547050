-- ===== src/Resilience/Store/Room.antt =====
-- Making room in the endpoint breaker store of fusen/src/resilience/breaker.rs: the size and the
-- breakers kept.
use fusen_rs.Resilience.Store.{
  EndpointEntry, EndpointBreakerStore, new_store, evict_idle_locked, oldest, retain,
  untracked_observed, get_entry, remove, make_room, get_or_insert,
}
use fusen_rs.Resilience.Store.Bounded.{
  Call, ask, forget, detached, AllDistinct, IsStore, IsSmaller, same-IsSmaller, evict-IsSmaller,
  retain-IsSmaller, remove-IsSmaller, made_later, fresh_breaker, touch_made, touch_distinct,
  length-touch, length-remove,
}
use fusen_rs.Prelude.{
  ℕ, suc, ◌+◌, ◌≤◌, ◌<◌, ◌≡◌, refl, inl, inr, Bool, true, some, List, [], ◌∷◌, length, arith,
  Bool-cases, Option-cases, leb, subst, ◌∙◌,
}

module _ {K : Type 0} where
  oldest_cons :
      (k : K) (e : EndpointEntry) (es : List (K × EndpointEntry))
      → (j : K) × (t : ℕ) × (oldest ((k, e) ∷ es) ≡ some (j, t))
  unfolding oldest
  oldest_cons k e es = elim (Option-cases (oldest es)) [
    | inl h ↦ rw h (k, e.last_used, refl)
    | inr ((j, u), h) ↦ elim (Bool-cases (leb e.last_used u)) [
      | inl y ↦ rw (h, y) (k, e.last_used, refl)
      | inr y ↦ rw (h, y) (j, u, refl)
    ]
  ]

module _ {K : Type 0} (eq : K → K → Bool) (eq_refl : (k : K) → eq k k ≡ true) where
  there :
      (k j : K) (e : EndpointEntry) (es : List (K × EndpointEntry))
      → (x : EndpointEntry) × (get_entry eq j es ≡ some x)
      → (x : EndpointEntry) × (get_entry eq j ((k, e) ∷ es) ≡ some x)
  unfolding get_entry
  there k j e es (x, h) = elim (Bool-cases (eq k j)) [
    | inl y ↦ rw y (e, refl)
    | inr y ↦ rw y (x, h)
  ]

  head_there :
      (k : K) (e : EndpointEntry) (es : List (K × EndpointEntry))
      → (x : EndpointEntry) × (get_entry eq k ((k, e) ∷ es) ≡ some x)
  unfolding get_entry
  head_there k e es = rw (eq_refl k) (e, refl)

  get_entry-oldest :
      (es : List (K × EndpointEntry)) (j : K) (t : ℕ)
      → oldest es ≡ some (j, t)
      → (x : EndpointEntry) × (get_entry eq j es ≡ some x)
  unfolding oldest
  get_entry-oldest [] j t h = absurd (cc)
  get_entry-oldest ((k, e) ∷ es) j t h = elim (Option-cases (oldest es)) [
    | inl n ↦ first (cc (rw (n, oldest) at h))
    | inr ((i, u), s) ↦ elim (Bool-cases (leb e.last_used u)) [
      | inl y ↦ first (cc (rw (s, y, oldest) at h))
      | inr y ↦ there k j e es (get_entry-oldest es j u (ground (arith, rw (s, y, oldest) at h, s)))
    ]
  ]
    where
      first : k ≡ j → (x : EndpointEntry) × (get_entry eq j ((k, e) ∷ es) ≡ some x)
      first same =
          subst (λ i. (x : EndpointEntry) × (get_entry eq i ((k, e) ∷ es) ≡ some x)) same
            (head_there k e es)

  remove-oldest :
      (k : K) (e : EndpointEntry) (es : List (K × EndpointEntry))
      → (j : K) × (t : ℕ) × (oldest ((k, e) ∷ es) ≡ some (j, t))
        × (length (remove eq j ((k, e) ∷ es)) + 1 ≡ suc (length es))
  remove-oldest k e es =
      let (j, t, h) = oldest_cons k e es in
      let (x, found) = get_entry-oldest ((k, e) ∷ es) j t h in
      (j, t, h, length-remove eq j ((k, e) ∷ es) x found)

  length-make_room :
      (bound : ℕ) (es : List (K × EndpointEntry))
      → 0 < bound
      → length es ≤ bound
      → length (make_room eq bound es) < bound
  unfolding make_room
  length-make_room bound [] some_room h = ground arith
  length-make_room bound ((k, e) ∷ es) some_room h =
      elim (Bool-cases (leb bound (suc (length es)))) [
        | inl full ↦
            let (j, t, first, shorter) = remove-oldest k e es in
            rw (full, first) (omega (arith, shorter))
        | inr y ↦ rw y (ground arith)
      ]

  make_room-IsSmaller :
      (bound : ℕ) (es : List (K × EndpointEntry)) → IsSmaller es (make_room eq bound es)
  unfolding make_room
  make_room-IsSmaller bound es = elim (Bool-cases (leb bound (length es))) [
    | inr y ↦ rw y (same-IsSmaller es)
    | inl full ↦ elim (Option-cases (oldest es)) [
      | inl n ↦ rw (full, n) (same-IsSmaller es)
      | inr ((j, t), h) ↦ rw (full, h) (remove-IsSmaller eq j es)
    ]
  ]

  get_or_insert-IsStore :
      (key : K) (now : ℕ) (s : EndpointBreakerStore K)
      → 0 < s.max_entries
      → IsStore s
      → IsStore (get_or_insert eq key now s).0
        × ((get_or_insert eq key now s).0.max_entries ≡ s.max_entries)
  unfolding get_or_insert
  get_or_insert-IsStore key now s some_room v =
      let live : List (K × EndpointEntry) = evict_idle_locked now s.idle_eviction s.entries in
      let kept = evict-IsSmaller now s.idle_eviction s.entries in
      let room = make_room-IsSmaller s.max_entries live in
      let made = room.made s.next_breaker (kept.made s.next_breaker v.made) in
      elim (Option-cases (get_entry eq key live)) [
        | inr (e, h) ↦
            rw (h, get_or_insert)
              (
                record {
                  bounded = omega (arith, length-touch eq key now live, kept.shorter, v.bounded);
                  made =
                      touch_made eq key now s.next_breaker live (kept.made s.next_breaker v.made);
                  distinct = touch_distinct eq key now live (kept.distinct v.distinct);
                },
                refl,
              )
        | inl n ↦
            rw (n, get_or_insert)
              (
                record {
                  bounded = omega (
                    arith,
                    length-make_room s.max_entries live some_room
                        (omega (arith, kept.shorter, v.bounded)),
                  );
                  made = (omega arith, made_later s.next_breaker _ made);
                  distinct = (
                    fresh_breaker s.next_breaker _ made,
                    room.distinct (kept.distinct v.distinct),
                  );
                },
                refl,
              )
      ]

  -- The store after a call.
  unfoldable pub step : EndpointBreakerStore K → Call K → EndpointBreakerStore K
  step s (ask key now) = (get_or_insert eq key now s).0
  step s (forget keep) = retain keep s
  step s detached = (untracked_observed s).0

  unfoldable pub run : EndpointBreakerStore K → List (Call K) → EndpointBreakerStore K
  unfolding step
  run s [] = s
  run s (c ∷ cs) = run (step s c) cs

  step-IsStore :
      (s : EndpointBreakerStore K) (c : Call K)
      → 0 < s.max_entries
      → IsStore s
      → IsStore (step s c) × ((step s c).max_entries ≡ s.max_entries)
  unfolding step retain untracked_observed
  step-IsStore s (ask key now) some_room v = get_or_insert-IsStore key now s some_room v
  step-IsStore s (forget keep) some_room v =
      let kept = retain-IsSmaller keep s.entries in
      (
        record {
          bounded = omega (arith, kept.shorter, v.bounded);
          made = kept.made s.next_breaker v.made;
          distinct = kept.distinct v.distinct;
        },
        refl,
      )
  step-IsStore s detached some_room v = (
    record {
      bounded = v.bounded;
      made = made_later s.next_breaker s.entries v.made;
      distinct = v.distinct;
    },
    refl,
  )

  run_from-IsStore :
      (s : EndpointBreakerStore K) (cs : List (Call K))
      → 0 < s.max_entries
      → IsStore s
      → IsStore (run s cs) × ((run s cs).max_entries ≡ s.max_entries)
  unfolding run
  run_from-IsStore s [] some_room v = (v, refl)
  run_from-IsStore s (c ∷ cs) some_room v =
      let (v', same) = step-IsStore s c some_room v in
      let (w, e) = run_from-IsStore (step s c) cs (omega (arith, same)) v' in (w, e ∙ same)

  -- After any calls a store that was made for at least one entry holds no more entries than it was made
  -- for, and each entry has a breaker of its own.
  pub run-IsStore :
      (max_entries idle_eviction : ℕ) (cs : List (Call K))
      → 0 < max_entries
      → let s : EndpointBreakerStore K = run (new_store max_entries idle_eviction) cs in
        (length s.entries ≤ max_entries) × AllDistinct s.entries
  unfolding new_store
  run-IsStore max_entries idle_eviction cs some_room =
      let (v, e) =
        run_from-IsStore (new_store max_entries idle_eviction) cs some_room
          (record { bounded = omega arith; made = tt; distinct = tt }) in
      (omega (arith, v.bounded, e), v.distinct)
