-- ===== src/Contract/Methods/Shape.antt =====
-- When two paths have one shape in `http_route_shape` of fusen-contract/src/service.rs.
use fusen_rs.Contract.Methods.{shape_segments, http_route_shape, remove_first}
use fusen_rs.Prelude.{
  ℕ, true, false, ◌==◌, ◌≡◌, ◌≢◌, refl, sym, ap, ◌∙◌, ◌↔◌, ◌⊎◌, inl, inr, List, [], ◌∷◌, ◌++◌,
  if◌then◌else◌, Bool-cases, arith,
}
use fusen_rs.Prelude.Bytes.{Bytes, split, push_first, starts_with}

-- The segments of a path.
abbrev pub segments_of : Bytes → List Bytes
segments_of path = split (λ b. b == b'/') path

-- The same literal, or two parameters of any names.
abbrev pub SameSegment : Bytes → Bytes → Type 0
SameSegment s t =
    ((starts_with b'{' s ≡ true) × (starts_with b'{' t ≡ true))
    ⊎ ((starts_with b'{' s ≡ false) × (s ≡ t))

abbrev pub SameTemplate : List Bytes → List Bytes → Type 0
SameTemplate [] [] = Unit
SameTemplate (s ∷ ss) (t ∷ ts) = SameSegment s t × SameTemplate ss ts
SameTemplate _ _ = ⊥

abbrev NoSlash : Bytes → Type 0
NoSlash [] = Unit
NoSlash (b ∷ bs) = ((b == b'/') ≡ false) × NoSlash bs

abbrev NoSlashes : List Bytes → Type 0
NoSlashes [] = Unit
NoSlashes (s ∷ ss) = NoSlash s × NoSlashes ss

push_first-NoSlashes :
    (b : ℕ) (ss : List Bytes) → (b == b'/') ≡ false → NoSlashes ss → NoSlashes (push_first b ss)
push_first-NoSlashes b [] h rest = ((h, tt), tt)
push_first-NoSlashes b (s ∷ ss) h (first, rest) = ((h, first), rest)

split-NoSlashes : (path : Bytes) → NoSlashes (segments_of path)
unfolding split
split-NoSlashes [] = (tt, tt)
split-NoSlashes (b ∷ bs) = elim (Bool-cases (b == b'/')) [
  | inl y ↦ rw (split, y) (tt, split-NoSlashes bs)
  | inr n ↦ rw (split, n) (push_first-NoSlashes b (segments_of bs) n (split-NoSlashes bs))
]

-- A text that is empty or starts with a slash.
abbrev Cut : Bytes → Type 0
Cut [] = Unit
Cut (b ∷ bs) = b ≡ b'/'

shape_segments-Cut : (ss : List Bytes) → Cut (shape_segments ss)
unfolding shape_segments
shape_segments-Cut [] = tt
shape_segments-Cut (s ∷ ss) = refl

split_unique :
    (u v x y : Bytes) → NoSlash u → NoSlash v → Cut x → Cut y → u ++ x ≡ v ++ y → (u ≡ v) × (x ≡ y)
split_unique [] [] x y nu nv cx cy h = (refl, h)
split_unique [] (b ∷ v) [] y nu nv cx cy h = absurd (cc)
split_unique [] (b ∷ v) (c ∷ x) y nu (nb, nv) cx cy h =
    let same : c ≡ b = cc in absurd (ground (arith, same, cx, nb))
split_unique (a ∷ u) [] x [] nu nv cx cy h = absurd (cc)
split_unique (a ∷ u) [] x (c ∷ y) (na, nu) nv cx cy h =
    let same : a ≡ c = cc in absurd (ground (arith, same, cy, na))
split_unique (a ∷ u) (b ∷ v) x y (na, nu) (nb, nv) cx cy h =
    let first : a ≡ b = cc in
    let rest : u ++ x ≡ v ++ y = cc in
    let (left, right) = split_unique u v x y nu nv cx cy rest in (cc, right)

abbrev shape_text : Bytes → Bytes
shape_text s = if starts_with b'{' s then b'{' ∷ b'}' ∷ [] else s

shape_text-NoSlash : (s : Bytes) → NoSlash s → NoSlash (shape_text s)
shape_text-NoSlash s h = elim (Bool-cases (starts_with b'{' s)) [
  | inl y ↦ rw y (refl, (refl, tt))
  | inr n ↦ rw n h
]

same_text : (s t : Bytes) → shape_text s ≡ shape_text t → SameSegment s t
same_text s t h = elim (Bool-cases (starts_with b'{' s)) [
  | inl y ↦ elim (Bool-cases (starts_with b'{' t)) [
    | inl z ↦ inl (y, z)
    | inr z ↦
        let e : b'{' ∷ b'}' ∷ [] ≡ t = rw (y, z) at h in
        let starts : starts_with b'{' t ≡ true = rw (sym e) refl in absurd (cc)
  ]
  | inr n ↦ elim (Bool-cases (starts_with b'{' t)) [
    | inl z ↦
        let e : s ≡ b'{' ∷ b'}' ∷ [] = rw (n, z) at h in
        let starts : starts_with b'{' s ≡ true = rw e refl in absurd (cc)
    | inr z ↦ inr (n, rw (n, z) at h)
  ]
]

text_of_same : (s t : Bytes) → SameSegment s t → shape_text s ≡ shape_text t
text_of_same s t (inl (y, z)) = rw (y, z) refl
text_of_same s t (inr (n, e)) = ap shape_text e

same_template :
    (ss ts : List Bytes)
    → NoSlashes ss
    → NoSlashes ts
    → shape_segments ss ≡ shape_segments ts
    → SameTemplate ss ts
unfolding shape_segments
same_template [] [] ns nt h = tt
same_template [] (t ∷ ts) ns nt h = cc
same_template (s ∷ ss) [] ns nt h = cc
same_template (s ∷ ss) (t ∷ ts) (ns, nss) (nt, nts) h =
    let bare : shape_text s ++ shape_segments ss ≡ shape_text t ++ shape_segments ts =
      ap remove_first h in
    let (first, rest) =
      split_unique (shape_text s) (shape_text t) (shape_segments ss) (shape_segments ts)
        (shape_text-NoSlash s ns) (shape_text-NoSlash t nt) (shape_segments-Cut ss)
        (shape_segments-Cut ts) bare in
    (same_text s t first, same_template ss ts nss nts rest)

template_shape : (ss ts : List Bytes) → SameTemplate ss ts → shape_segments ss ≡ shape_segments ts
unfolding shape_segments
template_shape [] [] h = refl
template_shape [] (t ∷ ts) h = absurd h
template_shape (s ∷ ss) [] h = absurd h
template_shape (s ∷ ss) (t ∷ ts) (first, rest) =
    rw (text_of_same s t first, template_shape ss ts rest) refl

pushed : (b : ℕ) (ss : List Bytes) → push_first b ss ≢ []
pushed b [] h = cc
pushed b (s ∷ ss) h = cc

segments_some : (path : Bytes) → segments_of path ≢ []
unfolding split
segments_some [] h = cc
segments_some (b ∷ bs) h = elim (Bool-cases (b == b'/')) [
  | inl y ↦ cc (rw (split, y) at h)
  | inr n ↦ pushed b (segments_of bs) (rw (split, n) at h)
]

slash_first :
    (ss : List Bytes) → ss ≢ [] → b'/' ∷ remove_first (shape_segments ss) ≡ shape_segments ss
unfolding shape_segments
slash_first [] some_segment = absurd (some_segment refl)
slash_first (s ∷ ss) some_segment = refl

-- Two paths have one shape exactly when they agree segment by segment, up to the names of parameters.
pub http_route_shape_iff :
    (p q : Bytes)
    → (http_route_shape p ≡ http_route_shape q) ↔ SameTemplate (segments_of p) (segments_of q)
unfolding http_route_shape
http_route_shape_iff p q = (
  (λ h. same_template (segments_of p) (segments_of q) (split-NoSlashes p) (split-NoSlashes q) (
      sym (slash_first (segments_of p) (segments_some p))
      ∙ ap (λ bs. b'/' ∷ bs) h
      ∙ slash_first (segments_of q) (segments_some q))),
  (λ same. ap remove_first (template_shape (segments_of p) (segments_of q) same)),
)
