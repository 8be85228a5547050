-- ===== src/Server/Table.antt =====
-- fusen/src/server/routes.rs: `RouteTable`, one trie for each HTTP method. Percent decoding is that of
-- the `urlencoding` crate: an argument. The handlers of a route are of any type.
pub mod Known
pub mod Served
pub mod Matched
use fusen_rs.Contract.Methods.{method_str}
use fusen_rs.Contract.Operation.{Method}
use fusen_rs.Contract.Route.{placeholder, segments}
use fusen_rs.Server.Routes.{
  Segment, literal, parameter, HttpRouteLeaf, HttpRouteTrie, Found, empty_trie, insert,
  match_segments,
}
use fusen_rs.Prelude.{
  ℕ, Bool, true, false, ◌&&◌, ◌||◌, not, Option, none, some, List, [], ◌∷◌, ◌++◌, if◌then◌else◌,
  Result, ok, err, ◌>>=◌, length,
}
use fusen_rs.Prelude.Bytes.{Bytes, str_eq, ends_with, contains_twice}

pub record Route (H : Type 0) : Type 0 where
  pub method : Method
  pub path : Bytes
  pub handler : H

pub data BuildError : Type 0 where
  bad_template : BuildError
  duplicate_route : Method → Bytes → BuildError

pub data RequestError : Type 0 where
  route_not_found invalid_path_encoding : RequestError

-- The map from methods to tries, as a list of entries.
abbrev pub RouteTable : Type 0 → Type 0
RouteTable H = List (Method × HttpRouteTrie (Route H))

pub record MatchedRoute (H : Type 0) : Type 0 where
  pub route : Route H
  pub path_arguments : List (Bytes × Bytes)

-- `Iterator::zip`.
unfoldable pub zip : List Bytes → List Bytes → List (Bytes × Bytes)
zip [] vs = []
zip (n ∷ ns) [] = []
zip (n ∷ ns) (v ∷ vs) = (n, v) ∷ zip ns vs

abbrev pub push_segment : Segment → Option (List Segment) → Option (List Segment)
push_segment s none = none
push_segment s (some ss) = some (s ∷ ss)

abbrev pub push_decoded :
    Bytes → Result (List Bytes) RequestError → Result (List Bytes) RequestError
push_decoded b (ok bs) = ok (b ∷ bs)
push_decoded b (err e) = err e

module _ (decode : Bytes → Option Bytes) where
  -- The segment of a template, where its decoding succeeds.
  unfoldable pub parse_segment : Option Bytes → Bytes → Option Segment
  parse_segment (some name) segment = some (parameter name)
  parse_segment none segment = elim (decode segment) [
    | none ↦ none
    | some value ↦ some (literal value)
  ]

  unfoldable pub parse_segments : List Bytes → Option (List Segment)
  unfolding parse_segment
  parse_segments [] = some []
  parse_segments (s ∷ ss) =
      let rest = parse_segments ss in
      elim (parse_segment (placeholder s) s) [ none ↦ none | some p ↦ push_segment p rest ]

  unfoldable pub parse_template : Bytes → Option (List Segment)
  unfolding parse_segments
  parse_template path = parse_segments (segments path)

  unfoldable pub decode_segments : List Bytes → Result (List Bytes) RequestError
  decode_segments [] = ok []
  decode_segments (s ∷ ss) =
      let rest = decode_segments ss in
      elim (decode s) [
        | none ↦ err RequestError.invalid_path_encoding
        | some value ↦ push_decoded value rest
      ]

  unfoldable pub split_path : Bytes → Result (List Bytes) RequestError
  unfolding decode_segments
  split_path path =
      if not (str_eq path (b'/' ∷ [])) && (ends_with b'/' path || contains_twice b'/' path)
      then err RequestError.route_not_found
      else decode_segments (segments path)

abbrev pub same_method : Method → Method → Bool
same_method m n = str_eq (method_str m) (method_str n)

module _ {H : Type 0} where
  -- The trie of a method, empty where there is none.
  unfoldable pub get_trie : Method → RouteTable H → Option (HttpRouteTrie (Route H))
  get_trie m [] = none
  get_trie m ((n, t) ∷ rest) =
      let other = get_trie m rest in if same_method n m then some t else other

  unfoldable pub put_trie : Method → HttpRouteTrie (Route H) → RouteTable H → RouteTable H
  put_trie m t [] = (m, t) ∷ []
  put_trie m t ((n, u) ∷ rest) =
      let other = put_trie m t rest in if same_method n m then (n, t) ∷ rest else (n, u) ∷ other

  abbrev pub or_empty : Option (HttpRouteTrie (Route H)) → HttpRouteTrie (Route H)
  or_empty none = empty_trie
  or_empty (some t) = t

module _ {H : Type 0} (decode : Bytes → Option Bytes) where
  -- One round of the loop of `build`.
  unfoldable pub add_route : Route H → RouteTable H → Result (RouteTable H) BuildError
  unfolding get_trie put_trie
  add_route route table = elim (parse_template decode route.path) [
    | none ↦ err BuildError.bad_template
    | some ss ↦ elim (insert ss [] route (or_empty (get_trie route.method table))) [
      | none ↦ err (BuildError.duplicate_route route.method route.path)
      | some t ↦ ok (put_trie route.method t table)
    ]
  ]

  abbrev pub continue_with :
      (RouteTable H → Result (RouteTable H) BuildError)
      → Result (RouteTable H) BuildError
      → Result (RouteTable H) BuildError
  continue_with f (ok t) = f t
  continue_with f (err e) = err e

  unfoldable pub add_routes : List (Route H) → RouteTable H → Result (RouteTable H) BuildError
  unfolding add_route
  add_routes [] table = ok table
  add_routes (r ∷ rs) table = continue_with (add_routes rs) (add_route r table)

  unfoldable pub build : List (Route H) → Result (RouteTable H) BuildError
  unfolding add_routes
  build routes = add_routes routes []

  -- What is made of the leaf found, if any, and of the vector of values.
  abbrev pub matched : Found (Route H) → Result (MatchedRoute H) RequestError
  matched (none, values) = err RequestError.route_not_found
  matched (some leaf, values) =
      ok (record { route = leaf.route; path_arguments = zip leaf.parameter_names values })

  abbrev pub match_in :
      Option (HttpRouteTrie (Route H)) → List Bytes → Result (MatchedRoute H) RequestError
  match_in none request = err RequestError.route_not_found
  match_in (some t) request = matched (match_segments request t [])

  abbrev pub match_request :
      Option (HttpRouteTrie (Route H))
      → Result (List Bytes) RequestError
      → Result (MatchedRoute H) RequestError
  match_request trie (ok request) = match_in trie request
  match_request trie (err e) = err e

  unfoldable pub match_http : RouteTable H → Method → Bytes → Result (MatchedRoute H) RequestError
  unfolding get_trie split_path
  match_http table method path = match_request (get_trie method table) (split_path decode path)
