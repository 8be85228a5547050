-- ===== src/Tests/Stores.antt =====
-- Runs of the endpoint breaker store of fusen/src/resilience/breaker.rs, with numbers for keys.
use fusen_rs.Resilience.Store.{
  EndpointBreakerStore, get_entry, get_or_insert, new_store, make_room, remove,
}
use fusen_rs.Resilience.Store.Bounded.{Call, ask, forget, detached, AllDistinct}
use fusen_rs.Resilience.Store.Recency.{NotBefore, make_room-NotBefore}
use fusen_rs.Resilience.Store.Room.{run, run-IsStore}
use fusen_rs.Resilience.Store.Reuse.{breaker_or, if_live, DistinctKeys, get_or_insert_returns}
use fusen_rs.Prelude.{
  none, ℕ, ◌≤◌, ◌≡◌, refl, Bool, true, some, List, [], ◌∷◌, length, arith, ◌==◌, leb, ==_iff,
}

abbrev same : ℕ → ℕ → Bool
same a b = a == b

same_refl : (k : ℕ) → same k k ≡ true
same_refl k = ground arith

abbrev calls : List (Call ℕ)
calls = ask 1 10 ∷ ask 2 11 ∷ detached ∷ ask 1 12 ∷ ask 3 13 ∷ forget (λ k. leb k 2) ∷ []

run-IsStore_example :
    let s : EndpointBreakerStore ℕ = run same same_refl (new_store 2 600) calls in
    (length s.entries ≤ 2) × AllDistinct s.entries
run-IsStore_example = run-IsStore same same_refl 2 600 calls (omega arith)

abbrev store : EndpointBreakerStore ℕ
store = record {
  max_entries = 2;
  idle_eviction = 10;
  entries =
      (1, record { breaker = 0; last_used = 20 }) ∷ (2, record { breaker = 1; last_used = 5 }) ∷ [];
  next_breaker = 2;
}

store_keys : DistinctKeys same ==_iff store.entries
unfolding get_entry
store_keys = (refl, (refl, tt))

get_or_insert_returns_example :
    let r = get_or_insert same 2 21 store in
    (r.1 ≡ breaker_or 2 (if_live 21 10 (get_entry same 2 store.entries)))
    × (get_entry same 2 r.0.entries ≡ some (record { breaker = r.1; last_used = 21 }))
get_or_insert_returns_example = get_or_insert_returns same ==_iff 2 21 store store_keys

second_there : get_entry same 2 store.entries ≡ some (record { breaker = 1; last_used = 5 })
unfolding get_entry
second_there = refl

second_gone : get_entry same 2 (make_room same 2 store.entries) ≡ none
unfolding get_entry make_room remove
second_gone = refl

make_room-NotBefore_example : (2 ≤ 2) × NotBefore 5 store.entries
make_room-NotBefore_example =
    make_room-NotBefore same ==_iff 2 store.entries 2 (record { breaker = 1; last_used = 5 })
      store_keys second_there second_gone
