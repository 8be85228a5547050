-- ===== src/Server/Table/Matched.antt =====
-- Requests against the route table of fusen/src/server/routes.rs, from the list of routes to the answer.
use mathlib.Core.List.{Memᴰ}
use fusen_rs.Contract.Operation.{Method}
use fusen_rs.Server.Routes.{Segment, HttpRouteLeaf, HttpRouteTrie, match_segments, Found}
use fusen_rs.Server.Routes.Insert.{find, find-empty, parameters}
use fusen_rs.Server.Routes.Match.{captures, Fits, match_segments-some, match_segments-none}
use fusen_rs.Server.Table.{
  Route, RouteTable, MatchedRoute, parse_template, split_path, same_method, get_trie, build,
  match_http, matched, zip,
}
use fusen_rs.Server.Table.Known.{captures_same, get_trie_same}
use fusen_rs.Server.Table.Served.{Source, leaves_from, leaf_of_listed}
use fusen_rs.Prelude.{
  ◌≡◌, refl, sym, ◌∙◌, inl, inr, true, Option, none, some, List, [], arith, Option-cases,
  Result-cases, ok,
}
use fusen_rs.Prelude.Bytes.{Bytes}

module _ {H : Type 0} (decode : Bytes → Option Bytes) where
  -- A route of the list that a request fits, and the answer with its path arguments.
  pub record Answers (rs : List (Route H)) (m : Method) (path : Bytes) (r : Route H)
      (arguments : List (Bytes × Bytes)) : Type 0 where
    pub template : List Segment
    pub request : List Bytes
    pub values : List Bytes
    pub listed : Memᴰ r rs
    pub for_method : same_method r.method m ≡ true
    pub parsed : parse_template decode r.path ≡ some template
    pub split : split_path decode path ≡ ok request
    pub captured : captures template request ≡ some values
    pub named : arguments ≡ zip (parameters template) values

  Answers-from :
      (rs : List (Route H)) (m : Method) (path : Bytes) (bs : List Bytes) (ss : List Segment)
      (l : HttpRouteLeaf (Route H)) (cs : List Bytes)
      → Source decode rs m ss l
      → split_path decode path ≡ ok bs
      → captures ss bs ≡ some cs
      → Answers rs m path l.route (zip l.parameter_names cs)
  Answers-from rs m path bs ss l cs v s c = rw (v.leaf) (record {
    template = v.template;
    request = bs;
    values = cs;
    listed = v.listed;
    for_method = v.for_method;
    parsed = v.parsed;
    split = s;
    captured = captures_same v.template ss bs v.shaped ∙ c;
    named = refl;
  })

  found_in :
      (rs : List (Route H)) (table : RouteTable H) (m : Method) (t : HttpRouteTrie (Route H))
      (ss : List Segment) (l : HttpRouteLeaf (Route H))
      → build decode rs ≡ ok table
      → get_trie m table ≡ some t
      → find ss t ≡ some l
      → Source decode rs m ss l
  unfolding build
  found_in rs table m t ss l b g f = elim (leaves_from decode rs [] table m ss l b (rw g f)) [
    | inr s ↦ s
    | inl nothing ↦ absurd (cc (nothing, find-empty {A = Route H} ss))
  ]

  matched_from :
      (rs : List (Route H)) (table : RouteTable H) (m : Method) (path : Bytes) (bs : List Bytes)
      (t : HttpRouteTrie (Route H)) (found : MatchedRoute H) (o : Found (Route H))
      → build decode rs ≡ ok table
      → get_trie m table ≡ some t
      → split_path decode path ≡ ok bs
      → match_segments bs t [] ≡ o
      → matched decode o ≡ ok found
      → Answers rs m path found.route found.path_arguments
  matched_from rs table m path bs t found (none, ws) b g s e h = absurd (cc)
  matched_from rs table m path bs t found (some l, ws) b g s e h =
      let (ss, cs, fits, values, _) = match_segments-some bs t [] ws l e in
      let source = found_in rs table m t ss l b g fits.known in
      let answers = Answers-from rs m path bs ss l cs source s fits.fits in
      let same : record { route = l.route; path_arguments = zip l.parameter_names ws } ≡ found =
        ground (arith, h) in
      rw (sym same, values) answers

  -- What a table answers to a request is a route that the table was built from, for the request's
  -- method, whose template fits the decoded path; the path arguments are the values of its parameters
  -- under their names.
  pub match_http-Answers :
      (rs : List (Route H)) (table : RouteTable H) (m : Method) (path : Bytes)
      (found : MatchedRoute H)
      → build decode rs ≡ ok table
      → match_http decode table m path ≡ ok found
      → Answers rs m path found.route found.path_arguments
  unfolding match_http
  match_http-Answers rs table m path found b h = elim (Result-cases (split_path decode path)) [
    | inr (e, s) ↦ absurd (cc (rw (s, match_http) at h))
    | inl (bs, s) ↦ elim (Option-cases (get_trie m table)) [
      | inl g ↦ absurd (cc (rw (s, g, match_http) at h))
      | inr (t, g) ↦
          matched_from rs table m path bs t found (match_segments bs t []) b g s refl
            (rw (s, g, match_http) at h)
    ]
  ]

  matched-some :
      (o : Found (Route H)) (l : HttpRouteLeaf (Route H))
      → o.0 ≡ some l
      → (found : MatchedRoute H) × (matched decode o ≡ ok found)
  matched-some (none, ws) l h = absurd (cc)
  matched-some (some k, ws) l h = (_, refl)

  trie-Fits :
      (rs : List (Route H)) (table : RouteTable H) (m : Method) (path : Bytes) (r : Route H)
      (arguments : List (Bytes × Bytes))
      → build decode rs ≡ ok table
      → (v : Answers rs m path r arguments)
      → (t : HttpRouteTrie (Route H)) × (l : HttpRouteLeaf (Route H)) × (get_trie m table ≡ some t)
        × Fits v.request t v.template l v.values
  unfolding build
  trie-Fits rs table m path r arguments b v =
      let leaf = leaf_of_listed decode rs r [] table v.template v.listed b v.parsed in
      let at_method = rw (get_trie_same r.method m table v.for_method) at leaf in
      elim (Option-cases (get_trie m table)) [
        | inl g ↦ absurd (cc (rw g at at_method, find-empty {A = Route H} v.template))
        | inr (t, g) ↦ (t, _, g, record { known = rw g at at_method; fits = v.captured })
      ]

  -- A request that fits a route of the table, by method and decoded path, is always answered with a
  -- route.
  pub match_http_answered :
      (rs : List (Route H)) (table : RouteTable H) (m : Method) (path : Bytes) (r : Route H)
      (arguments : List (Bytes × Bytes))
      → build decode rs ≡ ok table
      → Answers rs m path r arguments
      → (found : MatchedRoute H) × (match_http decode table m path ≡ ok found)
  unfolding match_http
  match_http_answered rs table m path r arguments b v =
      let (t, l, g, fits) = trie-Fits rs table m path r arguments b v in
      let (_, nothing) = match_segments-none v.request t [] in
      elim (Option-cases (match_segments v.request t []).0) [
        | inl n ↦ absurd (nothing.0 n v.template l v.values fits)
        | inr (k, e) ↦
            let (found, h) = matched-some (match_segments v.request t []) k e in
            (found, rw (v.split, g, match_http) h)
      ]
