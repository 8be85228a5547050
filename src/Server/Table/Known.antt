-- ===== src/Server/Table/Known.antt =====
-- What the route table of fusen/src/server/routes.rs knows after it is built.
use fusen_rs.Contract.Methods.{method_str}
use fusen_rs.Contract.Operation.{Method}
use fusen_rs.Server.Routes.{
  Segment, literal, parameter, HttpRouteLeaf, HttpRouteTrie, insert, node, or_default, get,
}
use fusen_rs.Server.Routes.Insert.{find, same_shape, parameters, find-insert, insert_taken}
use fusen_rs.Server.Routes.Match.{captures, push_value}
use fusen_rs.Server.Table.{
  Route, RouteTable, parse_template, same_method, get_trie, put_trie, or_empty, add_route,
}
use fusen_rs.Prelude.{
  ◌≡◌, refl, sym, ap, inl, inr, true, ◌&&◌, Option, none, some, List, [], ◌∷◌, if◌then◌else◌, arith,
  Option-cases, Bool-cases, ok,
}
use fusen_rs.Prelude.Bytes.{Bytes, str_eq_iff}

pub captures_same :
    (ss ts : List Segment) (bs : List Bytes)
    → same_shape ss ts ≡ true
    → captures ss bs ≡ captures ts bs
unfolding captures same_shape
captures_same [] [] bs h = refl
captures_same [] (t ∷ ts) bs h = absurd (cc)
captures_same (literal v ∷ ss) [] bs h = absurd (cc)
captures_same (parameter v ∷ ss) [] bs h = absurd (cc)
captures_same (literal v ∷ ss) (parameter w ∷ ts) bs h = absurd (cc)
captures_same (parameter v ∷ ss) (literal w ∷ ts) bs h = absurd (cc)
captures_same (literal v ∷ ss) (literal w ∷ ts) [] h = refl
captures_same (parameter v ∷ ss) (parameter w ∷ ts) [] h = refl
captures_same (literal v ∷ ss) (literal w ∷ ts) (b ∷ bs) h =
    ground (arith, captures_same ss ts bs, str_eq_iff v w)
captures_same (parameter v ∷ ss) (parameter w ∷ ts) (b ∷ bs) h =
    ap (push_value b) (captures_same ss ts bs h)

module _ {H : Type 0} where
  pub find_same :
      (ss ts : List Segment) (t : HttpRouteTrie (Route H))
      → same_shape ss ts ≡ true
      → find ss t ≡ find ts t
  unfolding find same_shape
  find_same [] [] t h = refl
  find_same [] (s ∷ ts) t h = absurd (cc)
  find_same (literal v ∷ ss) [] t h = absurd (cc)
  find_same (parameter v ∷ ss) [] t h = absurd (cc)
  find_same (literal v ∷ ss) (parameter w ∷ ts) t h = absurd (cc)
  find_same (parameter v ∷ ss) (literal w ∷ ts) t h = absurd (cc)
  find_same (literal v ∷ ss) (literal w ∷ ts) (node ls p l) h =
      ground (arith, find_same ss ts (or_default (get w ls)), str_eq_iff v w)
  find_same (parameter v ∷ ss) (parameter w ∷ ts) (node ls p l) h = find_same ss ts (or_default p) h

  get_trie-put_trie :
      (m j : Method) (t : HttpRouteTrie (Route H)) (table : RouteTable H)
      → get_trie j (put_trie m t table) ≡ (if same_method m j then some t else get_trie j table)
  unfolding get_trie put_trie
  get_trie-put_trie m j t [] = refl
  get_trie-put_trie m j t ((n, u) ∷ table) = ground (
    arith,
    str_eq_iff (method_str n) (method_str m),
    str_eq_iff (method_str n) (method_str j),
    str_eq_iff (method_str m) (method_str j),
    get_trie-put_trie m j t table,
  )

  pub get_trie_same :
      (m j : Method) (table : RouteTable H)
      → same_method m j ≡ true
      → get_trie m table ≡ get_trie j table
  unfolding get_trie
  get_trie_same m j [] h = refl
  get_trie_same m j ((n, u) ∷ table) h =
      ground (arith, str_eq_iff (method_str m) (method_str j), get_trie_same m j table h)

  -- The leaf of a method under the shape of a template.
  abbrev pub leaf_at : Method → List Segment → RouteTable H → Option (HttpRouteLeaf (Route H))
  leaf_at m ss table = find ss (or_empty (get_trie m table))

  leaf_at-put_trie :
      (r : Route H) (ts qs : List Segment) (m : Method) (t : HttpRouteTrie (Route H))
      (table : RouteTable H)
      → insert ts [] r (or_empty (get_trie r.method table)) ≡ some t
      → leaf_at m qs (put_trie r.method t table) ≡ (
          if same_method r.method m && same_shape ts qs
          then some (record { route = r; parameter_names = parameters ts })
          else leaf_at m qs table)
  leaf_at-put_trie r ts qs m t table i =
      let e = get_trie-put_trie r.method m t table in
      let f = find-insert ts [] r (or_empty (get_trie r.method table)) t qs i in
      elim (Bool-cases (same_method r.method m)) [
        | inr other ↦ rw (e, other) refl
        | inl same ↦ rw (e, same) (rw (get_trie_same r.method m table same) at f)
      ]

  not_taken :
      (r : Route H) (ts : List Segment) (t t' : HttpRouteTrie (Route H))
      → insert ts [] r t ≡ some t'
      → find ts t ≡ none
  not_taken r ts t t' i = elim (Option-cases (find ts t)) [
    | inl n ↦ n
    | inr (l, s) ↦ absurd (cc (i, (insert_taken ts [] r t).1 (λ n. cc (n, s))))
  ]

  -- What adding a route does.
  pub record Added (decode : Bytes → Option Bytes) (r : Route H) (table table' : RouteTable H)
      : Type 0 where
    pub template : List Segment
    pub parsed : parse_template decode r.path ≡ some template
    pub free : leaf_at r.method template table ≡ none
    pub leaves :
        (m : Method) (qs : List Segment)
        → leaf_at m qs table' ≡ (
            if same_method r.method m && same_shape template qs
            then some (record { route = r; parameter_names = parameters template })
            else leaf_at m qs table)

  pub add_route-Added :
      (decode : Bytes → Option Bytes) (r : Route H) (table table' : RouteTable H)
      → add_route decode r table ≡ ok table'
      → Added decode r table table'
  unfolding add_route
  add_route-Added decode r table table' h = elim (Option-cases (parse_template decode r.path)) [
    | inl n ↦ absurd (cc (rw (n, add_route) at h))
    | inr (ts, p) ↦ elim (Option-cases (insert ts [] r (or_empty (get_trie r.method table)))) [
      | inl n ↦ absurd (cc (rw (p, n, add_route) at h))
      | inr (t, i) ↦
          let e : put_trie r.method t table ≡ table' = ground (arith, rw (p, i, add_route) at h) in
          record {
            template = ts;
            parsed = p;
            free = not_taken r ts (or_empty (get_trie r.method table)) t i;
            leaves = λ m qs. rw (sym e) (leaf_at-put_trie r ts qs m t table i);
          }
    ]
  ]
