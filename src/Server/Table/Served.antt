-- ===== src/Server/Table/Served.antt =====
-- The leaves of the route table of fusen/src/server/routes.rs and the routes it was built from.
use mathlib.Core.List.{Memᴰ}
use fusen_rs.Contract.Methods.{method_str}
use fusen_rs.Contract.Operation.{Method}
use fusen_rs.Server.Routes.{Segment, literal, parameter, HttpRouteLeaf}
use fusen_rs.Server.Routes.Insert.{same_shape, parameters}
use fusen_rs.Server.Table.{
  Route, RouteTable, parse_template, same_method, get_trie, or_empty, add_route, add_routes,
}
use fusen_rs.Server.Table.Known.{leaf_at, find_same, get_trie_same, Added, add_route-Added}
use fusen_rs.Prelude.{
  ◌≡◌, refl, sym, ◌∙◌, inl, inr, ◌⊎◌, true, false, ◌&&◌, Option, some, List, [], ◌∷◌, arith,
  Bool-cases, Result-cases, subst, ok,
}
use fusen_rs.Prelude.Bytes.{Bytes, str_eq_refl}

pub same_shape_refl : (ss : List Segment) → same_shape ss ss ≡ true
unfolding same_shape
same_shape_refl [] = refl
same_shape_refl (literal v ∷ ss) = ground (arith, str_eq_refl v, same_shape_refl ss)
same_shape_refl (parameter v ∷ ss) = same_shape_refl ss

module _ {H : Type 0} (decode : Bytes → Option Bytes) where
  -- A route of the list, with its template, for a method and a shape.
  pub record Source (rs : List (Route H)) (m : Method) (qs : List Segment)
      (l : HttpRouteLeaf (Route H)) : Type 0 where
    pub route : Route H
    pub template : List Segment
    pub listed : Memᴰ route rs
    pub for_method : same_method route.method m ≡ true
    pub parsed : parse_template decode route.path ≡ some template
    pub shaped : same_shape template qs ≡ true
    pub leaf : l ≡ record { route = route; parameter_names = parameters template }

  later-Source :
      (r : Route H) (rs : List (Route H)) (m : Method) (qs : List Segment)
      (l : HttpRouteLeaf (Route H))
      → Source rs m qs l
      → Source (r ∷ rs) m qs l
  later-Source r rs m qs l v = record {
    route = v.route;
    template = v.template;
    listed = Memᴰ.tail v.listed;
    for_method = v.for_method;
    parsed = v.parsed;
    shaped = v.shaped;
    leaf = v.leaf;
  }

  -- Every leaf after adding routes was there before, or is of one of them.
  pub leaves_from :
      (rs : List (Route H)) (table table' : RouteTable H) (m : Method) (qs : List Segment)
      (l : HttpRouteLeaf (Route H))
      → add_routes decode rs table ≡ ok table'
      → leaf_at m qs table' ≡ some l
      → (leaf_at m qs table ≡ some l) ⊎ Source rs m qs l
  unfolding add_routes
  leaves_from [] table table' m qs l h k =
      inl (subst (λ t. leaf_at m qs t ≡ some l) (ground (arith, h)) k)
  leaves_from (r ∷ rs) table table' m qs l h k = elim (Result-cases (add_route decode r table)) [
    | inr (e, n) ↦ absurd (cc (rw (n, add_routes) at h))
    | inl (next, n) ↦
        let v = add_route-Added decode r table next n in
        elim (leaves_from rs next table' m qs l (rw (n, add_routes) at h) k) [
          | inr s ↦ inr (later-Source r rs m qs l s)
          | inl before ↦ elim (Bool-cases (same_method r.method m && same_shape v.template qs)) [
            | inr old ↦ inl (sym (rw old at (v.leaves m qs)) ∙ before)
            | inl new ↦ inr (record {
              route = r;
              template = v.template;
              listed = Memᴰ.head refl;
              for_method = ground (arith, new);
              parsed = v.parsed;
              shaped = ground (arith, new);
              leaf = ground (arith, rw new at (v.leaves m qs), before);
            })
          ]
        ]
  ]

  taken_before :
      (r : Route H) (table next : RouteTable H) (m : Method) (qs : List Segment)
      (l : HttpRouteLeaf (Route H)) (v : Added decode r table next)
      → leaf_at m qs table ≡ some l
      → (same_method r.method m && same_shape v.template qs) ≡ false
  taken_before r table next m qs l v k =
      elim (Bool-cases (same_method r.method m && same_shape v.template qs)) [
        | inr old ↦ old
        | inl new ↦
            let e = get_trie_same r.method m table (ground (arith, new)) in
            let f = find_same v.template qs (or_empty (get_trie m table)) (ground (arith, new)) in
            absurd (cc (rw e at (v.free), f, k))
      ]

  leaf_stays :
      (rs : List (Route H)) (table table' : RouteTable H) (m : Method) (qs : List Segment)
      (l : HttpRouteLeaf (Route H))
      → add_routes decode rs table ≡ ok table'
      → leaf_at m qs table ≡ some l
      → leaf_at m qs table' ≡ some l
  unfolding add_routes
  leaf_stays [] table table' m qs l h k = subst (λ t. leaf_at m qs t ≡ some l) (ground (arith, h)) k
  leaf_stays (r ∷ rs) table table' m qs l h k = elim (Result-cases (add_route decode r table)) [
    | inr (e, n) ↦ absurd (cc (rw (n, add_routes) at h))
    | inl (next, n) ↦
        let v = add_route-Added decode r table next n in
        leaf_stays rs next table' m qs l (rw (n, add_routes) at h)
          (rw (taken_before r table next m qs l v k) at (v.leaves m qs) ∙ k)
  ]

  leaf_of-Added :
      (q : Route H) (table next : RouteTable H) (ts : List Segment)
      → Added decode q table next
      → parse_template decode q.path ≡ some ts
      → leaf_at q.method ts next ≡ some (record { route = q; parameter_names = parameters ts })
  leaf_of-Added q table next ts v p =
      let e : v.template ≡ ts = ground (arith, v.parsed, p) in
      let leaf = rw e at (v.leaves q.method ts) in
      rw (str_eq_refl (method_str q.method), same_shape_refl ts) at leaf

  pub leaf_of_listed :
      (rs : List (Route H)) (r : Route H) (table table' : RouteTable H) (ts : List Segment)
      → Memᴰ r rs
      → add_routes decode rs table ≡ ok table'
      → parse_template decode r.path ≡ some ts
      → leaf_at r.method ts table' ≡ some (record { route = r; parameter_names = parameters ts })
  unfolding add_routes
  leaf_of_listed [] r table table' ts i h p = elim i [ ]
  leaf_of_listed (q ∷ rs) r table table' ts i h p = elim (Result-cases (add_route decode q table)) [
    | inr (e, n) ↦ absurd (cc (rw (n, add_routes) at h))
    | inl (next, n) ↦ elim i [
      | Memᴰ.tail later ↦ leaf_of_listed rs r next table' ts later (rw (n, add_routes) at h) p
      | Memᴰ.head same ↦
          let v = add_route-Added decode q table next n in
          rw same (
            leaf_stays rs next table' q.method ts _ (rw (n, add_routes) at h)
              (leaf_of-Added q table next ts v (rw same at p)))
    ]
  ]
