-- ===== src/Tests/Tables.antt =====
-- Runs of the route table of fusen/src/server/routes.rs, with paths that need no decoding.
use mathlib.Core.List.{Memᴰ}
use fusen_rs.Contract.Methods.{method_str}
use fusen_rs.Contract.Operation.{Method}
use fusen_rs.Contract.Route.{segments}
use fusen_rs.Server.Routes.{
  literal, parameter, node, no_entry, entry, vacant, child, insert, get, put, match_segments,
}
use fusen_rs.Server.Routes.Match.{captures}
use fusen_rs.Server.Table.{
  Route, RouteTable, MatchedRoute, build, match_http, parse_template, parse_segments, split_path,
  zip,
}
use fusen_rs.Server.Table.Matched.{Answers, match_http-Answers, match_http_answered}
use fusen_rs.Prelude.{ℕ, ◌≡◌, refl, Option, none, some, [], ◌∷◌, ok}
use fusen_rs.Prelude.Bytes.{
  Bytes, bytes_of, str_eq, split, trim_matches, strip_suffix, ends_with, contains_twice,
}

abbrev decode : Bytes → Option Bytes
decode b = some b

abbrev by_id : Route ℕ
by_id = record { method = Method.get; path = bytes_of "/orders/{id}"; handler = 1 }

abbrev table : RouteTable ℕ
table =
    (
      Method.get,
      node
          (entry (bytes_of "orders")
            (node no_entry
              (child (
                node no_entry vacant
                  (some (record { route = by_id; parameter_names = bytes_of "id" ∷ [] }))))
              none)
            no_entry)
          vacant none,
    )
    ∷ []

built : build decode (by_id ∷ []) ≡ ok table
unfolding build parse_template parse_segments segments split trim_matches strip_suffix insert get
    put
built = refl

abbrev answer : MatchedRoute ℕ
answer = record { route = by_id; path_arguments = (bytes_of "id", bytes_of "42") ∷ [] }

answered : match_http decode table Method.get (bytes_of "/orders/42") ≡ ok answer
unfolding match_http split_path segments split trim_matches str_eq ends_with contains_twice get
    method_str match_segments zip
answered = refl

by_id_parsed :
    parse_template decode by_id.path
    ≡ some (literal (bytes_of "orders") ∷ parameter (bytes_of "id") ∷ [])
unfolding parse_template parse_segments segments split trim_matches strip_suffix
by_id_parsed = refl

path_split : split_path decode (bytes_of "/orders/42") ≡ ok (bytes_of "orders" ∷ bytes_of "42" ∷ [])
unfolding split_path segments split trim_matches str_eq ends_with contains_twice
path_split = refl

path_captured :
    captures
      (literal (bytes_of "orders") ∷ parameter (bytes_of "id") ∷ [])
      (bytes_of "orders" ∷ bytes_of "42" ∷ [])
    ≡ some (bytes_of "42" ∷ [])
unfolding captures str_eq
path_captured = refl

path_named : answer.path_arguments ≡ zip (bytes_of "id" ∷ []) (bytes_of "42" ∷ [])
unfolding zip
path_named = refl

match_http-Answers_example :
    Answers decode
      (by_id ∷ [])
      Method.get
      (bytes_of "/orders/42")
      answer.route
      answer.path_arguments
match_http-Answers_example =
    match_http-Answers decode (by_id ∷ []) table Method.get (bytes_of "/orders/42") answer built
      answered

answer_fits :
    Answers decode (by_id ∷ []) Method.get (bytes_of "/orders/42") by_id answer.path_arguments
unfolding str_eq method_str
answer_fits = record {
  template = literal (bytes_of "orders") ∷ parameter (bytes_of "id") ∷ [];
  request = bytes_of "orders" ∷ bytes_of "42" ∷ [];
  values = bytes_of "42" ∷ [];
  listed = Memᴰ.head refl;
  for_method = refl;
  parsed = by_id_parsed;
  split = path_split;
  captured = path_captured;
  named = path_named;
}

match_http_answered_example :
    (found : MatchedRoute ℕ) × (match_http decode table Method.get (bytes_of "/orders/42")
      ≡ ok found)
match_http_answered_example =
    match_http_answered decode (by_id ∷ []) table Method.get (bytes_of "/orders/42") by_id
      answer.path_arguments built answer_fits
