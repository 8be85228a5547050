-- ===== src/Resilience/Store/Recency.antt =====
-- Which entry leaves the endpoint breaker store of fusen/src/resilience/breaker.rs to make room.
use fusen_rs.Resilience.Store.{EndpointEntry, oldest, get_entry, remove, make_room}
use fusen_rs.Resilience.Store.Reuse.{DistinctKeys}
use fusen_rs.Prelude.{
  ℕ, ◌≡◌, ◌≤◌, refl, inl, inr, Bool, true, false, none, some, List, [], ◌∷◌, arith, Bool-cases,
  Option-cases, ◌↔◌, leb, length, sym, ◌∙◌, subst,
}

-- Every entry was used at that time or later.
abbrev pub NotBefore : {K : Type 0} → ℕ → List (K × EndpointEntry) → Type 0
NotBefore t [] = Unit {0}
NotBefore t ((k, e) ∷ es) = (t ≤ e.last_used) × NotBefore t es

module _ {K : Type 0} where
  earlier_still :
      (t u : ℕ) (es : List (K × EndpointEntry)) → u ≤ t → NotBefore t es → NotBefore u es
  earlier_still t u [] le h = tt
  earlier_still t u ((k, e) ∷ es) le h = (omega (arith, h.0), earlier_still t u es le h.1)

  empty-oldest : (es : List (K × EndpointEntry)) → oldest es ≡ none → es ≡ []
  unfolding oldest
  empty-oldest [] h = refl
  empty-oldest ((k, e) ∷ es) h = elim (Option-cases (oldest es)) [
    | inl n ↦ absurd (cc (rw (n, oldest) at h))
    | inr ((i, u), s) ↦ elim (Bool-cases (leb e.last_used u)) [
      | inl y ↦ absurd (cc (rw (s, y, oldest) at h))
      | inr y ↦ absurd (cc (rw (s, y, oldest) at h))
    ]
  ]

  oldest-NotBefore :
      (es : List (K × EndpointEntry)) (j : K) (t : ℕ) → oldest es ≡ some (j, t) → NotBefore t es
  unfolding oldest
  oldest-NotBefore [] j t h = tt
  oldest-NotBefore ((k, e) ∷ es) j t h = elim (Option-cases (oldest es)) [
    | inl n ↦
        let same : e.last_used ≡ t = ground (arith, rw (n, oldest) at h) in
        (omega (arith, same), subst (NotBefore t) (sym (empty-oldest es n)) tt)
    | inr ((i, u), s) ↦ elim (Bool-cases (leb e.last_used u)) [
      | inl y ↦
          let same : e.last_used ≡ t = ground (arith, rw (s, y, oldest) at h) in
          (
            omega (arith, same),
            earlier_still u t es (ground (arith, y, same)) (oldest-NotBefore es i u s),
          )
      | inr y ↦
          let same : u ≡ t = ground (arith, rw (s, y, oldest) at h) in
          (
            ground (arith, y, same),
            earlier_still u t es (omega (arith, same)) (oldest-NotBefore es i u s),
          )
    ]
  ]

module _ {K : Type 0} (eq : K → K → Bool) (eq_iff : (a b : K) → (eq a b ≡ true) ↔ (a ≡ b)) where
  -- The entry whose key and time are found.
  entry_of-oldest :
      (es : List (K × EndpointEntry)) (j : K) (t : ℕ)
      → DistinctKeys eq eq_iff es
      → oldest es ≡ some (j, t)
      → (x : EndpointEntry) × (get_entry eq j es ≡ some x) × (x.last_used ≡ t)
  unfolding oldest get_entry
  entry_of-oldest [] j t d h = absurd (cc)
  entry_of-oldest ((k, e) ∷ es) j t d h = elim (Option-cases (oldest es)) [
    | inl n ↦
        let same : k ≡ j = cc (rw (n, oldest) at h) in
        (e, rw ((eq_iff k j).1 same, get_entry) refl, ground (arith, rw (n, oldest) at h))
    | inr ((i, u), s) ↦ elim (Bool-cases (leb e.last_used u)) [
      | inl y ↦
          let same : k ≡ j = cc (rw (s, y, oldest) at h) in
          (e, rw ((eq_iff k j).1 same, get_entry) refl, ground (arith, rw (s, y, oldest) at h))
      | inr y ↦
          let same : i ≡ j = cc (rw (s, y, oldest) at h) in
          let (x, found, time) = entry_of-oldest es i u d.1 s in
          let found' = subst (λ z. get_entry eq z es ≡ some x) same found in
          let u_is_t : u ≡ t = ground (arith, rw (s, y, oldest) at h) in
          elim (Bool-cases (eq k j)) [
            | inl clash ↦
                absurd
                  (cc (subst (λ z. get_entry eq z es ≡ none) ((eq_iff k j).0 clash) d.0, found'))
            | inr differs ↦ (x, rw (differs, get_entry) found', time ∙ u_is_t)
          ]
    ]
  ]

  kept_entry :
      (i j : K) (es : List (K × EndpointEntry))
      → eq i j ≡ false
      → get_entry eq j (remove eq i es) ≡ get_entry eq j es
  unfolding get_entry remove
  kept_entry i j [] h = refl
  kept_entry i j ((k, e) ∷ es) h =
      ground (arith, kept_entry i j es h, eq_iff k i, eq_iff k j, eq_iff i j)

  -- In a map with distinct keys, an entry that leaves to make room leaves a full map, in which no entry
  -- was used before it.
  pub make_room-NotBefore :
      (bound : ℕ) (es : List (K × EndpointEntry)) (j : K) (e : EndpointEntry)
      → DistinctKeys eq eq_iff es
      → get_entry eq j es ≡ some e
      → get_entry eq j (make_room eq bound es) ≡ none
      → (bound ≤ length es) × NotBefore e.last_used es
  unfolding make_room
  make_room-NotBefore bound es j e d found gone = elim (Bool-cases (leb bound (length es))) [
    | inr y ↦ absurd (cc (rw (y, make_room) at gone, found))
    | inl full ↦ elim (Option-cases (oldest es)) [
      | inl o ↦ absurd (cc (rw (full, o, make_room) at gone, found))
      | inr ((i, t), o) ↦ elim (Bool-cases (eq i j)) [
        | inr differs ↦
            absurd (cc (rw (full, o, make_room) at gone, kept_entry i j es differs, found))
        | inl same ↦
            let (x, is_x, time) = entry_of-oldest es i t d o in
            let is_x' = subst (λ z. get_entry eq z es ≡ some x) ((eq_iff i j).0 same) is_x in
            let times : t ≡ e.last_used = ground (arith, is_x', found, time) in
            (ground (arith, full), subst (λ z. NotBefore z es) times (oldest-NotBefore es i t o))
      ]
    ]
  ]
