-- ===== src/Server/Routes/Insert.antt =====
-- Insertion into the route trie of fusen/src/server/routes.rs, seen through lookup by shape.
use mathlib.Core.List.{append-nil, append_assoc}
use mathlib.Core.Option.{some-injective}
use fusen_rs.Server.Routes.{
  Segment, literal, parameter, HttpRouteLeaf, HttpRouteTrie, Literals, Slot, node, no_entry, entry,
  child, empty_trie, or_default, get, put, insert, rebuild,
}
use fusen_rs.Prelude.{
  ◌≡◌, ◌≢◌, ◌↔◌, refl, ap, inl, inr, Bool, true, false, ◌&&◌, Option, none, some, List, [], ◌∷◌,
  ◌++◌, if◌then◌else◌, arith, Option-cases, Bool-cases, subst,
}
use fusen_rs.Prelude.Bytes.{Bytes, str_eq, str_eq_iff}

-- The names of the parameters of a template.
abbrev pub parameters : List Segment → List Bytes
parameters [] = []
parameters (literal v ∷ ss) = parameters ss
parameters (parameter n ∷ ss) = n ∷ parameters ss

-- Two templates that differ in the names of their parameters at most.
unfoldable pub same_shape : List Segment → List Segment → Bool
same_shape [] [] = true
same_shape (literal v ∷ ss) (literal w ∷ ts) = str_eq v w && same_shape ss ts
same_shape (parameter n ∷ ss) (parameter m ∷ ts) = same_shape ss ts
same_shape _ _ = false

module _ {ℓ} {A : Type ℓ} where
  -- The leaf under the shape of a template.
  unfoldable pub find : List Segment → HttpRouteTrie A → Option (HttpRouteLeaf A)
  find [] (node literals param leaf) = leaf
  find (literal v ∷ ss) (node literals param leaf) = find ss (or_default (get v literals))
  find (parameter n ∷ ss) (node literals param leaf) = find ss (or_default param)

  pub find-empty : (ss : List Segment) → find ss (empty_trie {A = A}) ≡ none
  unfolding find get
  find-empty [] = refl
  find-empty (literal v ∷ ss) = find-empty ss
  find-empty (parameter n ∷ ss) = find-empty ss

  get-put :
      (k j : Bytes) (t : HttpRouteTrie A) (ls : Literals A)
      → get j (put k t ls) ≡ (if str_eq k j then child t else get j ls)
  unfolding get put
  get-put k j t no_entry = refl
  get-put k j t (entry i u ls) =
      ground (arith, str_eq_iff i k, str_eq_iff i j, str_eq_iff k j, get-put k j t ls)

  rebuild-none :
      (f : HttpRouteTrie A → HttpRouteTrie A) (o : Option (HttpRouteTrie A))
      → rebuild f o ≡ none
      → o ≡ none
  rebuild-none f none h = refl
  rebuild-none f (some t) h = absurd (cc)

  at_leaf :
      (ls : Literals A) (p : Slot A) (names : List Bytes) (route : A) (qs : List Segment)
      → find qs (node ls p (some (record { route = route; parameter_names = names }))) ≡ (
          if same_shape [] qs
          then some (record { route = route; parameter_names = names ++ [] })
          else find qs (node ls p none))
  unfolding find same_shape
  at_leaf ls p names route [] = rw (append-nil names)
  at_leaf ls p names route (literal v ∷ qs) = refl
  at_leaf ls p names route (parameter n ∷ qs) = refl

  at_literal :
      (v : Bytes) (ss : List Segment) (u : HttpRouteTrie A) (ls : Literals A) (p : Slot A)
      (l : Option (HttpRouteLeaf A)) (new : Option (HttpRouteLeaf A)) (qs : List Segment)
      → ((ts : List Segment)
          → find ts u ≡ (if same_shape ss ts then new else find ts (or_default (get v ls))))
      → find qs (node (put v u ls) p l)
        ≡ (if same_shape (literal v ∷ ss) qs then new else find qs (node ls p l))
  unfolding find same_shape
  at_literal v ss u ls p l new [] ih = refl
  at_literal v ss u ls p l new (parameter n ∷ qs) ih = refl
  at_literal v ss u ls p l new (literal w ∷ qs) ih = elim (Bool-cases (str_eq v w)) [
    | inl same ↦ rw (get-put v w u ls, same) (rw (← (str_eq_iff v w).0 same) (ih qs))
    | inr other ↦ rw (get-put v w u ls, other)
  ]

  at_parameter :
      (n : Bytes) (ss : List Segment) (u : HttpRouteTrie A) (ls : Literals A) (p : Slot A)
      (l : Option (HttpRouteLeaf A)) (new : Option (HttpRouteLeaf A)) (qs : List Segment)
      → ((ts : List Segment)
          → find ts u ≡ (if same_shape ss ts then new else find ts (or_default p)))
      → find qs (node ls (child u) l)
        ≡ (if same_shape (parameter n ∷ ss) qs then new else find qs (node ls p l))
  unfolding find same_shape
  at_parameter n ss u ls p l new [] ih = refl
  at_parameter n ss u ls p l new (literal w ∷ qs) ih = refl
  at_parameter n ss u ls p l new (parameter m ∷ qs) ih = ih qs

  -- After an insertion that succeeds, the new route, with the names of its parameters, is under each
  -- template of its shape, and what was under every other template is there still.
  pub find-insert :
      (ss : List Segment) (names : List Bytes) (route : A) (t t' : HttpRouteTrie A)
      (qs : List Segment)
      → insert ss names route t ≡ some t'
      → find qs t' ≡ (
          if same_shape ss qs
          then some (record { route = route; parameter_names = names ++ parameters ss })
          else find qs t)
  unfolding insert
  find-insert [] names route (node ls p (some l)) t' qs h = absurd (cc)
  find-insert [] names route (node ls p none) t' qs h =
      subst
        (λ u. find qs u ≡ (
          if same_shape [] qs
          then some (record { route = route; parameter_names = names ++ [] })
          else find qs (node ls p none)))
        (some-injective _ t' h) (at_leaf ls p names route qs)
  find-insert (literal v ∷ ss) names route (node ls p l) t' qs h =
      elim (Option-cases (insert ss names route (or_default (get v ls)))) [
        | inl e ↦ absurd (cc (rw (e, insert) at h))
        | inr (u, e) ↦
            let q : node (put v u ls) p l ≡ t' = some-injective _ t' (rw (e, insert) at h) in
            let new = some (record { route = route; parameter_names = names ++ parameters ss }) in
            subst
              (λ x.
                find qs x ≡ (if same_shape (literal v ∷ ss) qs then new else find qs (node ls p l)))
              q
              (at_literal v ss u ls p l new qs
                (λ ts. find-insert ss names route (or_default (get v ls)) u ts e))
      ]
  find-insert (parameter n ∷ ss) names route (node ls p l) t' qs h =
      elim (Option-cases (insert ss (names ++ n ∷ []) route (or_default p))) [
        | inl e ↦ absurd (cc (rw (e, insert) at h))
        | inr (u, e) ↦
            let q : node ls (child u) l ≡ t' = some-injective _ t' (rw (e, insert) at h) in
            let new =
              some (record { route = route; parameter_names = names ++ n ∷ parameters ss }) in
            subst
              (λ x.
                find qs x
                ≡ (if same_shape (parameter n ∷ ss) qs then new else find qs (node ls p l)))
              q
              (at_parameter n ss u ls p l new qs (λ ts.
                rw (← append_assoc names (n ∷ []) (parameters ss))
                  (find-insert ss (names ++ n ∷ []) route (or_default p) u ts e)))
      ]

  -- An insertion fails exactly when there is a route of that shape.
  pub insert_taken :
      (ss : List Segment) (names : List Bytes) (route : A) (t : HttpRouteTrie A)
      → (insert ss names route t ≡ none) ↔ (find ss t ≢ none)
  unfolding insert find
  insert_taken [] names route (node ls p none) = ((λ h. absurd (cc)), (λ h. absurd (h refl)))
  insert_taken [] names route (node ls p (some l)) = ((λ h q. cc), (λ h. refl))
  insert_taken (literal v ∷ ss) names route (node ls p l) =
      let (to_taken, from_taken) = insert_taken ss names route (or_default (get v ls)) in
      ((λ h. to_taken (rebuild-none _ _ h)), (λ h. ap (rebuild _) (from_taken h)))
  insert_taken (parameter n ∷ ss) names route (node ls p l) =
      let (to_taken, from_taken) = insert_taken ss (names ++ n ∷ []) route (or_default p) in
      ((λ h. to_taken (rebuild-none _ _ h)), (λ h. ap (rebuild _) (from_taken h)))
