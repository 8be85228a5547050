-- ===== src/Tests/Routing.antt =====
-- Runs of fusen/src/server/routes.rs: a trie of two routes.
use fusen_rs.Server.Routes.{
  Segment, literal, parameter, HttpRouteLeaf, HttpRouteTrie, node, no_entry, entry, vacant, child,
  empty_trie, insert, get, put, match_segments,
}
use fusen_rs.Server.Routes.Insert.{find, same_shape, parameters, find-insert, insert_taken}
use fusen_rs.Server.Routes.Match.{Fits, Precedes, match_segments-some, match_segments-none}
use fusen_rs.Prelude.{ℕ, ◌≡◌, ◌≢◌, ◌↔◌, refl, none, some, List, [], ◌∷◌, ◌++◌, if◌then◌else◌}
use fusen_rs.Prelude.Bytes.{Bytes, bytes_of, str_eq}

-- `/orders/{id}`.
abbrev by_id : List Segment
by_id = literal (bytes_of "orders") ∷ parameter (bytes_of "id") ∷ []

-- `/orders/all`.
abbrev every : List Segment
every = literal (bytes_of "orders") ∷ literal (bytes_of "all") ∷ []

abbrev found_by_id : HttpRouteLeaf ℕ
found_by_id = record { route = 1; parameter_names = bytes_of "id" ∷ [] }

abbrev leaf_node : HttpRouteLeaf ℕ → HttpRouteTrie ℕ
leaf_node l = node no_entry vacant (some l)

abbrev one_route : HttpRouteTrie ℕ
one_route =
    node (entry (bytes_of "orders") (node no_entry (child (leaf_node found_by_id)) none) no_entry)
      vacant none

abbrev two_routes : HttpRouteTrie ℕ
two_routes =
    node
      (entry (bytes_of "orders")
        (node
          (entry (bytes_of "all") (leaf_node (record { route = 2; parameter_names = [] })) no_entry)
          (child (leaf_node found_by_id)) none)
        no_entry)
      vacant none

first_inserted : insert by_id [] 1 empty_trie ≡ some one_route
unfolding insert get put str_eq
first_inserted = refl

second_inserted : insert every [] 2 one_route ≡ some two_routes
unfolding insert get put str_eq
second_inserted = refl

abbrev path : List Bytes
path = bytes_of "orders" ∷ bytes_of "42" ∷ []

matched : match_segments path two_routes [] ≡ (some found_by_id, bytes_of "42" ∷ [])
unfolding match_segments get str_eq
matched = refl

match_segments-some_example :
    (ss : List Segment) × (cs : List Bytes) × Fits path two_routes ss found_by_id cs
    × (bytes_of "42" ∷ [] ≡ [] ++ cs)
    × ((ts : List Segment) (m : HttpRouteLeaf ℕ) (ds : List Bytes)
        → Fits path two_routes ts m ds
        → Precedes ss ts)
match_segments-some_example =
    match_segments-some path two_routes [] (bytes_of "42" ∷ []) found_by_id matched

match_segments-none_example :
    let bs : List Bytes = bytes_of "carts" ∷ [] in
    ((match_segments bs two_routes []).0 ≡ none → (match_segments bs two_routes []).1 ≡ [])
    × (((match_segments bs two_routes []).0 ≡ none) ↔ (
        (ss : List Segment) (l : HttpRouteLeaf ℕ) (cs : List Bytes) → ¬ Fits bs two_routes ss l cs))
match_segments-none_example = match_segments-none (bytes_of "carts" ∷ []) two_routes []

find-insert_example : find every two_routes ≡ (
    if same_shape every every
    then some (record { route = 2; parameter_names = [] ++ parameters every })
    else find every one_route)
find-insert_example = find-insert every [] 2 one_route two_routes every second_inserted

insert_taken_example : (insert by_id [] 3 two_routes ≡ none) ↔ (find by_id two_routes ≢ none)
insert_taken_example = insert_taken by_id [] 3 two_routes
