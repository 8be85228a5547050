-- ===== src/Server/Routes/Match.antt =====
-- Matching in the route trie of fusen/src/server/routes.rs, against the templates that it holds.
use mathlib.Core.List.{append-nil, append_assoc}
use mathlib.Core.Option.{some-injective}
use mathlib.Core.Path.{ap₂, fun_ext}
use fusen_rs.Server.Routes.{
  Segment, literal, parameter, HttpRouteLeaf, HttpRouteTrie, Literals, Slot, node, vacant, child,
  or_default, get, pop, Found, or_pop, or_else, match_segments,
}
use fusen_rs.Server.Routes.Insert.{find, find-empty}
use fusen_rs.Prelude.{
  ◌≡◌, ◌↔◌, refl, sym, ap, ◌∙◌, inl, inr, Option, none, some, List, [], ◌∷◌, ◌++◌, if◌then◌else◌,
  Option-cases, Bool-cases, subst,
}
use fusen_rs.Prelude.Bytes.{Bytes, str_eq, str_eq_iff, str_eq_refl}

abbrev pub push_value : Bytes → Option (List Bytes) → Option (List Bytes)
push_value b none = none
push_value b (some vs) = some (b ∷ vs)

-- The values that the parameters of a template take on a path, if it fits.
unfoldable pub captures : List Segment → List Bytes → Option (List Bytes)
captures [] [] = some []
captures (literal v ∷ ss) (b ∷ bs) = if str_eq v b then captures ss bs else none
captures (parameter n ∷ ss) (b ∷ bs) = push_value b (captures ss bs)
captures _ _ = none

-- Of two templates, the first one that is literal where the other has a parameter comes first.
abbrev pub Precedes : List Segment → List Segment → Type 0
Precedes (literal v ∷ ss) (literal w ∷ ts) = Precedes ss ts
Precedes (parameter n ∷ ss) (parameter m ∷ ts) = Precedes ss ts
Precedes (parameter n ∷ ss) (literal w ∷ ts) = ⊥
Precedes _ _ = Unit {0}

pop-append : (vs : List Bytes) (b : Bytes) → pop (vs ++ b ∷ []) ≡ vs
pop-append [] b = refl
pop-append (v ∷ []) b = refl
pop-append (v ∷ w ∷ vs) b = ap (◌∷◌ v) (pop-append (w ∷ vs) b)

module _ {ℓ} {A : Type ℓ} where
  -- A template of the trie that fits the path, with its values.
  pub record Fits (bs : List Bytes) (t : HttpRouteTrie A) (ss : List Segment) (l : HttpRouteLeaf A)
      (cs : List Bytes) : Type ℓ where
    pub known : find ss t ≡ some l
    pub fits : captures ss bs ≡ some cs

  -- What matching does to the vector that it is given.
  data Outcome (bs : List Bytes) (t : HttpRouteTrie A) (vs : List Bytes) (f : Found A)
      : Type ℓ where
    hit :
        (ss : List Segment) (l : HttpRouteLeaf A) (cs : List Bytes)
        → f ≡ (some l, vs ++ cs)
        → Fits bs t ss l cs
        → ((ts : List Segment) (m : HttpRouteLeaf A) (ds : List Bytes)
            → Fits bs t ts m ds
            → Precedes ss ts)
        → Outcome bs t vs f
    miss :
        f ≡ (none, vs)
        → ((ts : List Segment) (m : HttpRouteLeaf A) (ds : List Bytes) → ¬ Fits bs t ts m ds)
        → Outcome bs t vs f

  -- A template that fits a path begins with the literal or with a parameter, and its rest fits below.
  Fits-nil :
      (b : Bytes) (bs : List Bytes) (t : HttpRouteTrie A) (m : HttpRouteLeaf A) (ds : List Bytes)
      → ¬ Fits (b ∷ bs) t [] m ds
  unfolding captures
  Fits-nil b bs t m ds v = cc (v.fits)

  Fits-literal :
      (b w : Bytes) (bs : List Bytes) (ls : Literals A) (p : Slot A) (l : Option (HttpRouteLeaf A))
      (ts : List Segment) (m : HttpRouteLeaf A) (ds : List Bytes)
      → Fits (b ∷ bs) (node ls p l) (literal w ∷ ts) m ds
      → Fits bs (or_default (get b ls)) ts m ds
  unfolding captures find
  Fits-literal b w bs ls p l ts m ds v = elim (Bool-cases (str_eq w b)) [
    | inr other ↦ absurd (cc (rw (other, captures) at v.fits))
    | inl same ↦ record {
      known =
          subst (λ x. find ts (or_default (get x ls)) ≡ some m) ((str_eq_iff w b).0 same) v.known;
      fits = rw (same, captures) at v.fits;
    }
  ]

  Fits-parameter :
      (b n : Bytes) (bs : List Bytes) (ls : Literals A) (p : Slot A) (l : Option (HttpRouteLeaf A))
      (ts : List Segment) (m : HttpRouteLeaf A) (ds : List Bytes)
      → Fits (b ∷ bs) (node ls p l) (parameter n ∷ ts) m ds
      → (es : List Bytes) × Fits bs (or_default p) ts m es
  unfolding captures find
  Fits-parameter b n bs ls p l ts m ds v = elim (Option-cases (captures ts bs)) [
    | inl e ↦ absurd (cc (rw (e, captures) at v.fits))
    | inr (es, e) ↦ (es, record { known = v.known; fits = e })
  ]

  -- The branch below a slot.
  abbrev match_slot : List Bytes → Slot A → List Bytes → Found A
  match_slot bs vacant vs = (none, vs)
  match_slot bs (child t) vs = match_segments bs t vs

  empty-Outcome : (bs vs : List Bytes) → Outcome bs (or_default {A = A} vacant) vs (none, vs)
  empty-Outcome bs vs = miss refl (λ ts m ds v. cc (v.known, find-empty {A = A} ts))

  hit_literal :
      (b : Bytes) (bs vs : List Bytes) (ls : Literals A) (p : Slot A) (l : Option (HttpRouteLeaf A))
      (ss : List Segment) (k : HttpRouteLeaf A) (cs : List Bytes) (f : Found A)
      → f ≡ (some k, vs ++ cs)
      → Fits bs (or_default (get b ls)) ss k cs
      → ((ts : List Segment) (m : HttpRouteLeaf A) (ds : List Bytes)
          → Fits bs (or_default (get b ls)) ts m ds
          → Precedes ss ts)
      → Outcome (b ∷ bs) (node ls p l) vs f
  hit_literal b bs vs ls p l ss k cs f e v first = hit (literal b ∷ ss) k cs e fits_here all_first
    where
      fits_here : Fits (b ∷ bs) (node ls p l) (literal b ∷ ss) k cs
      fits_here = record {
        known = unfold find in v.known;
        fits = unfold captures in rw (str_eq_refl b) v.fits;
      }

      all_first :
          (ts : List Segment) (m : HttpRouteLeaf A) (ds : List Bytes)
          → Fits (b ∷ bs) (node ls p l) ts m ds
          → Precedes (literal b ∷ ss) ts
      all_first [] m ds w = tt
      all_first (literal x ∷ ts) m ds w = first ts m ds (Fits-literal b x bs ls p l ts m ds w)
      all_first (parameter x ∷ ts) m ds w = tt

  after_miss :
      (b : Bytes) (bs vs : List Bytes) (ls : Literals A) (p : Slot A) (l : Option (HttpRouteLeaf A))
      (f : Found A)
      → ((ts : List Segment) (m : HttpRouteLeaf A) (ds : List Bytes)
          → ¬ Fits bs (or_default (get b ls)) ts m ds)
      → Outcome bs (or_default p) (vs ++ b ∷ []) f
      → Outcome (b ∷ bs) (node ls p l) vs (or_pop f)
  after_miss b bs vs ls p l f no_literal (miss e no_param) =
      rw e (miss (rw (pop-append vs b)) none_fits)
    where
      none_fits :
          (ts : List Segment) (m : HttpRouteLeaf A) (ds : List Bytes)
          → ¬ Fits (b ∷ bs) (node ls p l) ts m ds
      none_fits [] m ds w = Fits-nil b bs _ m ds w
      none_fits (literal x ∷ ts) m ds w = no_literal ts m ds (Fits-literal b x bs ls p l ts m ds w)
      none_fits (parameter x ∷ ts) m ds w =
          let (es, v) = Fits-parameter b x bs ls p l ts m ds w in no_param ts m es v
  after_miss b bs vs ls p l f no_literal (hit ss k cs e v first) =
      rw e
        (hit (parameter [] ∷ ss) k (b ∷ cs) (rw (append_assoc vs (b ∷ []) cs)) fits_here all_first)
    where
      fits_here : Fits (b ∷ bs) (node ls p l) (parameter [] ∷ ss) k (b ∷ cs)
      fits_here = record { known = unfold find in v.known; fits = unfold captures in rw v.fits }

      all_first :
          (ts : List Segment) (m : HttpRouteLeaf A) (ds : List Bytes)
          → Fits (b ∷ bs) (node ls p l) ts m ds
          → Precedes (parameter [] ∷ ss) ts
      all_first [] m ds w = tt
      all_first (literal x ∷ ts) m ds w = no_literal ts m ds (Fits-literal b x bs ls p l ts m ds w)
      all_first (parameter x ∷ ts) m ds w =
          let (es, u) = Fits-parameter b x bs ls p l ts m ds w in first ts m es u

  slot-Outcome :
      (bs vs : List Bytes) (s : Slot A)
      → ((t : HttpRouteTrie A) → Outcome bs t vs (match_segments bs t vs))
      → Outcome bs (or_default s) vs (match_slot bs s vs)
  slot-Outcome bs vs vacant below = empty-Outcome bs vs
  slot-Outcome bs vs (child t) below = below t

  -- The second branch of `match_segments`.
  parameter_branch : (b : Bytes) (bs vs : List Bytes) (p : Slot A) → Found A
  parameter_branch b bs vs vacant = (none, vs)
  parameter_branch b bs vs (child t) = or_pop (match_segments bs t (vs ++ b ∷ []))

  parameter_branch_lem :
      (b : Bytes) (bs vs : List Bytes) (p : Slot A)
      → parameter_branch b bs vs p ≡ or_pop (match_slot bs p (vs ++ b ∷ []))
  unfolding parameter_branch
  parameter_branch_lem b bs vs vacant = rw (pop-append vs b)
  parameter_branch_lem b bs vs (child t) = refl

  two_branches :
      (b : Bytes) (bs vs : List Bytes) (ls : Literals A) (p : Slot A) (l : Option (HttpRouteLeaf A))
      (f : Found A)
      → Outcome bs (or_default (get b ls)) vs f
      → Outcome bs (or_default p) (vs ++ b ∷ []) (match_slot bs p (vs ++ b ∷ []))
      → Outcome (b ∷ bs) (node ls p l) vs (or_else f (λ ws. parameter_branch b bs ws p))
  two_branches b bs vs ls p l f (hit ss k cs e v first) below =
      hit_literal b bs vs ls p l ss k cs _ (rw e) v first
  two_branches b bs vs ls p l f (miss e no_literal) below = rw e (
      rw (parameter_branch_lem b bs vs p)
        (after_miss b bs vs ls p l (match_slot bs p (vs ++ b ∷ [])) no_literal below))

  match_cons :
      (b : Bytes) (bs vs : List Bytes) (ls : Literals A) (p : Slot A) (l : Option (HttpRouteLeaf A))
      → match_segments (b ∷ bs) (node ls p l) vs
        ≡ or_else (match_slot bs (get b ls) vs) (λ ws. parameter_branch b bs ws p)
  unfolding match_segments parameter_branch
  match_cons b bs vs ls p l = ap₂ or_else (first (get b ls)) (fun_ext (second p))
    where
      first :
          (s : Slot A)
          → ◌≡◌ {A = Found A}
              (elim s [ vacant ↦ (none, vs) | child t ↦ match_segments bs t vs ])
              (match_slot bs s vs)
      first vacant = refl
      first (child t) = refl

      second :
          (s : Slot A) (ws : List Bytes)
          → ◌≡◌ {A = Found A}
              (elim s [
                | vacant ↦ (none, ws)
                | child t ↦ or_pop (match_segments bs t (ws ++ b ∷ []))
              ])
              (parameter_branch b bs ws s)
      second vacant ws = refl
      second (child t) ws = refl

  leaf_only :
      (ts : List Segment) (ls : Literals A) (p : Slot A) (o : Option (HttpRouteLeaf A))
      (m : HttpRouteLeaf A) (ds : List Bytes)
      → Fits [] (node ls p o) ts m ds
      → o ≡ some m
  unfolding captures find
  leaf_only [] ls p o m ds v = v.known
  leaf_only (literal x ∷ ts) ls p o m ds v = absurd (cc (v.fits))
  leaf_only (parameter x ∷ ts) ls p o m ds v = absurd (cc (v.fits))

  match-Outcome :
      (bs : List Bytes) (t : HttpRouteTrie A) (vs : List Bytes)
      → Outcome bs t vs (match_segments bs t vs)
  match-Outcome [] (node ls p none) vs =
      miss (unfold match_segments in refl) (λ ts m ds v. cc (leaf_only ts ls p none m ds v))
  match-Outcome [] (node ls p (some l)) vs =
      hit [] l [] (unfold match_segments in rw (append-nil vs))
        (record { known = unfold find in refl; fits = unfold captures in refl }) (λ ts m ds v. tt)
  match-Outcome (b ∷ bs) (node ls p l) vs = rw (match_cons b bs vs ls p l) (
      two_branches b bs vs ls p l _ (slot-Outcome bs vs (get b ls) (λ t. match-Outcome bs t vs))
        (slot-Outcome bs (vs ++ b ∷ []) p (λ t. match-Outcome bs t (vs ++ b ∷ []))))

  -- Matching finds nothing exactly when no template of the trie fits the path, and leaves the vector
  -- of values as it was then.
  pub match_segments-none :
      (bs : List Bytes) (t : HttpRouteTrie A) (vs : List Bytes)
      → ((match_segments bs t vs).0 ≡ none → (match_segments bs t vs).1 ≡ vs)
        × (((match_segments bs t vs).0 ≡ none)
            ↔ ((ss : List Segment) (l : HttpRouteLeaf A) (cs : List Bytes) → ¬ Fits bs t ss l cs))
  match_segments-none bs t vs = from_outcome (match-Outcome bs t vs)
    where
      from_outcome :
          {f : Found A}
          → Outcome bs t vs f
          → (f.0 ≡ none → f.1 ≡ vs)
            × ((f.0 ≡ none) ↔ (
                (ss : List Segment) (l : HttpRouteLeaf A) (cs : List Bytes) → ¬ Fits bs t ss l cs))
      from_outcome (miss e none_fits) = rw e ((λ h. refl), ((λ h. none_fits), (λ h. refl)))
      from_outcome (hit ss l cs e v first) =
          rw e ((λ h. absurd (cc)), ((λ h. absurd (cc)), (λ h. absurd (h ss l cs v))))

  -- What is found belongs to a template that fits the path, and the values of that template's
  -- parameters are what is added to the vector. No other template that fits is more literal.
  pub match_segments-some :
      (bs : List Bytes) (t : HttpRouteTrie A) (vs ws : List Bytes) (l : HttpRouteLeaf A)
      → match_segments bs t vs ≡ (some l, ws)
      → (ss : List Segment) × (cs : List Bytes) × Fits bs t ss l cs
        × (ws ≡ vs ++ cs)
        × ((ts : List Segment) (m : HttpRouteLeaf A) (ds : List Bytes)
            → Fits bs t ts m ds
            → Precedes ss ts)
  match_segments-some bs t vs ws l h = from_outcome (match-Outcome bs t vs) h
    where
      from_outcome :
          {f : Found A}
          → Outcome bs t vs f
          → f ≡ (some l, ws)
          → (ss : List Segment) × (cs : List Bytes) × Fits bs t ss l cs
            × (ws ≡ vs ++ cs)
            × ((ts : List Segment) (m : HttpRouteLeaf A) (ds : List Bytes)
                → Fits bs t ts m ds
                → Precedes ss ts)
      from_outcome (miss e none_fits) h = absurd (cc (sym e ∙ h))
      from_outcome (hit ss k cs e v first) h =
          let both = sym e ∙ h in
          let same : k ≡ l = some-injective k l (ap (λ f. f.0) both) in
          (ss, cs, subst (λ x. Fits bs t ss x cs) same v, sym (ap (λ f. f.1) both), first)
