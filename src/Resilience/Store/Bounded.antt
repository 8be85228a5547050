-- ===== src/Resilience/Store/Bounded.antt =====
-- The size of the endpoint breaker store of fusen/src/resilience/breaker.rs.
use fusen_rs.Resilience.Store.{
  EndpointEntry, EndpointBreakerStore, evict_idle_locked, retain_entries, get_entry, touch, remove,
}
use fusen_rs.Prelude.{
  ℕ, ◌+◌, ◌≤◌, ◌<◌, ◌≡◌, refl, inl, inr, Bool, true, false, some, List, [], ◌∷◌, length, arith,
  Bool-cases, if◌then◌else◌,
}

-- A call of the store; the selection of `retain` is any test.
pub data Call (K : Type 0) : Type 0 where
  ask : (key : K) (now : ℕ) → Call K
  forget : (keep : K → Bool) → Call K
  detached : Call K

-- The addresses of the entries are of breakers made before.
abbrev pub AllMade : {K : Type 0} → ℕ → List (K × EndpointEntry) → Type 0
AllMade n [] = Unit {0}
AllMade n ((k, e) ∷ es) = (e.breaker < n) × AllMade n es

-- No entry has the breaker of that address.
abbrev pub NotIn : {K : Type 0} → ℕ → List (K × EndpointEntry) → Type 0
NotIn b [] = Unit {0}
NotIn b ((k, e) ∷ es) = (¬ (e.breaker ≡ b)) × NotIn b es

-- No two entries have the same breaker.
abbrev pub AllDistinct : {K : Type 0} → List (K × EndpointEntry) → Type 0
AllDistinct [] = Unit {0}
AllDistinct ((k, e) ∷ es) = NotIn e.breaker es × AllDistinct es

pub record IsStore {K : Type 0} (s : EndpointBreakerStore K) : Type 0 where
  pub bounded : length s.entries ≤ s.max_entries
  pub made : AllMade s.next_breaker s.entries
  pub distinct : AllDistinct s.entries

-- What filtering and removing keep.
pub record IsSmaller {K : Type 0} (es fs : List (K × EndpointEntry)) : Type 0 where
  pub shorter : length fs ≤ length es
  pub made : (n : ℕ) → AllMade n es → AllMade n fs
  pub absent : (b : ℕ) → NotIn b es → NotIn b fs
  pub distinct : AllDistinct es → AllDistinct fs

module _ {K : Type 0} where
  pub same-IsSmaller : (es : List (K × EndpointEntry)) → IsSmaller es es
  same-IsSmaller es = record {
    shorter = omega arith;
    made = λ n h. h;
    absent = λ b h. h;
    distinct = λ h. h;
  }

  keep-IsSmaller :
      (k : K) (e : EndpointEntry) (es fs : List (K × EndpointEntry))
      → IsSmaller es fs
      → IsSmaller ((k, e) ∷ es) ((k, e) ∷ fs)
  keep-IsSmaller k e es fs v = record {
    shorter = omega (arith, v.shorter);
    made = λ n h. (h.0, v.made n h.1);
    absent = λ b h. (h.0, v.absent b h.1);
    distinct = λ h. (v.absent e.breaker h.0, v.distinct h.1);
  }

  drop-IsSmaller :
      (k : K) (e : EndpointEntry) (es fs : List (K × EndpointEntry))
      → IsSmaller es fs
      → IsSmaller ((k, e) ∷ es) fs
  drop-IsSmaller k e es fs v = record {
    shorter = omega (arith, v.shorter);
    made = λ n h. v.made n h.1;
    absent = λ b h. v.absent b h.1;
    distinct = λ h. v.distinct h.1;
  }

  either-IsSmaller :
      (c : Bool) (k : K) (e : EndpointEntry) (es fs : List (K × EndpointEntry))
      → IsSmaller es fs
      → IsSmaller ((k, e) ∷ es) (if c then (k, e) ∷ fs else fs)
  either-IsSmaller true k e es fs v = keep-IsSmaller k e es fs v
  either-IsSmaller false k e es fs v = drop-IsSmaller k e es fs v

  pub evict-IsSmaller :
      (now idle : ℕ) (es : List (K × EndpointEntry)) → IsSmaller es (evict_idle_locked now idle es)
  unfolding evict_idle_locked
  evict-IsSmaller now idle [] = same-IsSmaller []
  evict-IsSmaller now idle ((k, e) ∷ es) = either-IsSmaller _ k e es _ (evict-IsSmaller now idle es)

  pub retain-IsSmaller :
      (keep : K → Bool) (es : List (K × EndpointEntry)) → IsSmaller es (retain_entries keep es)
  unfolding retain_entries
  retain-IsSmaller keep [] = same-IsSmaller []
  retain-IsSmaller keep ((k, e) ∷ es) =
      either-IsSmaller (keep k) k e es _ (retain-IsSmaller keep es)

  pub made_later : (n : ℕ) (es : List (K × EndpointEntry)) → AllMade n es → AllMade (n + 1) es
  made_later n [] h = tt
  made_later n ((k, e) ∷ es) h = (omega (arith, h.0), made_later n es h.1)

  pub fresh_breaker : (n : ℕ) (es : List (K × EndpointEntry)) → AllMade n es → NotIn n es
  fresh_breaker n [] h = tt
  fresh_breaker n ((k, e) ∷ es) h = ((λ same. omega (arith, h.0, same)), fresh_breaker n es h.1)

module _ {K : Type 0} (eq : K → K → Bool) where
  pub remove-IsSmaller : (key : K) (es : List (K × EndpointEntry)) → IsSmaller es (remove eq key es)
  unfolding remove
  remove-IsSmaller key [] = same-IsSmaller []
  remove-IsSmaller key ((k, e) ∷ es) = elim (Bool-cases (eq k key)) [
    | inl h ↦ rw h (drop-IsSmaller k e es es (same-IsSmaller es))
    | inr h ↦ rw h (keep-IsSmaller k e es _ (remove-IsSmaller key es))
  ]

  pub touch_made :
      (key : K) (now n : ℕ) (es : List (K × EndpointEntry))
      → AllMade n es
      → AllMade n (touch eq key now es)
  unfolding touch
  touch_made key now n [] h = tt
  touch_made key now n ((k, e) ∷ es) h = ground (arith, touch_made key now n es h.1)

  touch_absent :
      (key : K) (now b : ℕ) (es : List (K × EndpointEntry))
      → NotIn b es
      → NotIn b (touch eq key now es)
  unfolding touch
  touch_absent key now b [] h = tt
  touch_absent key now b ((k, e) ∷ es) h = elim (Bool-cases (eq k key)) [
    | inl y ↦ rw y h
    | inr y ↦ rw y (h.0, touch_absent key now b es h.1)
  ]

  pub touch_distinct :
      (key : K) (now : ℕ) (es : List (K × EndpointEntry))
      → AllDistinct es
      → AllDistinct (touch eq key now es)
  unfolding touch
  touch_distinct key now [] h = tt
  touch_distinct key now ((k, e) ∷ es) h = elim (Bool-cases (eq k key)) [
    | inl y ↦ rw y h
    | inr y ↦ rw y (touch_absent key now e.breaker es h.0, touch_distinct key now es h.1)
  ]

  pub length-touch :
      (key : K) (now : ℕ) (es : List (K × EndpointEntry)) → length (touch eq key now es) ≡ length es
  unfolding touch
  length-touch key now [] = refl
  length-touch key now ((k, e) ∷ es) = ground (arith, length-touch key now es)

  -- Removing a key that is there makes room.
  pub length-remove :
      (key : K) (es : List (K × EndpointEntry)) (e : EndpointEntry)
      → get_entry eq key es ≡ some e
      → length (remove eq key es) + 1 ≡ length es
  unfolding remove get_entry
  length-remove key [] e h = cc
  length-remove key ((k, x) ∷ es) e h = elim (Bool-cases (eq k key)) [
    | inl y ↦ rw y (omega arith)
    | inr y ↦
        let rest = length-remove key es e (rw (y, get_entry) at h) in rw y (omega (arith, rest))
  ]
