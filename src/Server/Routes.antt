-- ===== src/Server/Routes.antt =====
-- fusen/src/server/routes.rs: the trie of HTTP route templates. A map of literals is a list of entries
-- with distinct keys; a parameter child is a slot. The values of the parameters are kept in the one
-- vector that matching pushes to and pops from.
pub mod Insert
pub mod Match
use fusen_rs.Prelude.{
  ℕ, Bool, true, false, ◌&&◌, ◌||◌, not, Option, none, some, List, [], ◌∷◌, ◌++◌, if◌then◌else◌,
  ◌==◌,
}
use fusen_rs.Prelude.Bytes.{Bytes, str_eq}

pub data Segment : Type 0 where
  literal parameter : Bytes → Segment

pub record HttpRouteLeaf {ℓ} (A : Type ℓ) : Type ℓ where
  pub route : A
  pub parameter_names : List Bytes

mutual
  pub data HttpRouteTrie {ℓ} (A : Type ℓ) : Type ℓ where
    node : Literals A → Slot A → Option (HttpRouteLeaf A) → HttpRouteTrie A

  pub data Literals {ℓ} (A : Type ℓ) : Type ℓ where
    no_entry : Literals A
    entry : Bytes → HttpRouteTrie A → Literals A → Literals A

  pub data Slot {ℓ} (A : Type ℓ) : Type ℓ where
    vacant : Slot A
    child : HttpRouteTrie A → Slot A

-- `Vec::pop`.
abbrev pub pop : List Bytes → List Bytes
pop [] = []
pop (v ∷ []) = []
pop (v ∷ w ∷ vs) = v ∷ pop (w ∷ vs)

-- What is found, and the vector of values afterwards.
abbrev pub Found {ℓ} : Type ℓ → Type ℓ
Found A = Option (HttpRouteLeaf A) × List Bytes

module _ {ℓ} {A : Type ℓ} where
  -- `HttpRouteTrie::default`.
  abbrev pub empty_trie : HttpRouteTrie A
  empty_trie = node no_entry vacant none

  abbrev pub or_default : Slot A → HttpRouteTrie A
  or_default vacant = empty_trie
  or_default (child t) = t

  unfoldable pub get : Bytes → Literals A → Slot A
  get k no_entry = vacant
  get k (entry j t rest) = let other = get k rest in if str_eq j k then child t else other

  unfoldable pub put : Bytes → HttpRouteTrie A → Literals A → Literals A
  put k t no_entry = entry k t no_entry
  put k t (entry j u rest) =
      let other = put k t rest in if str_eq j k then entry j t rest else entry j u other

  abbrev pub leaf_of : HttpRouteTrie A → Option (HttpRouteLeaf A)
  leaf_of (node literals param leaf) = leaf

  abbrev pub literals_of : HttpRouteTrie A → Literals A
  literals_of (node literals param leaf) = literals

  abbrev pub param_of : HttpRouteTrie A → Slot A
  param_of (node literals param leaf) = param

  abbrev pub rebuild :
      (HttpRouteTrie A → HttpRouteTrie A) → Option (HttpRouteTrie A) → Option (HttpRouteTrie A)
  rebuild f none = none
  rebuild f (some t) = some (f t)

  -- `insert`; `none` where it returns false. The trie is dropped then, with the nodes it has added.
  unfoldable pub insert : List Segment → List Bytes → A → HttpRouteTrie A → Option (HttpRouteTrie A)
  insert [] names route (node literals param none) =
      some (node literals param (some (record { route = route; parameter_names = names })))
  insert [] names route (node literals param (some leaf)) = none
  insert (literal value ∷ rest) names route (node literals param leaf) =
      rebuild (λ t. node (put value t literals) param leaf)
        (insert rest names route (or_default (get value literals)))
  insert (parameter name ∷ rest) names route (node literals param leaf) =
      rebuild (λ t. node literals (child t) leaf)
        (insert rest (names ++ name ∷ []) route (or_default param))

  -- A vector with the value taken off again, where nothing was found.
  abbrev pub or_pop : Found A → Found A
  or_pop (some leaf, values) = (some leaf, values)
  or_pop (none, values) = (none, pop values)

  abbrev pub or_else : Found A → (List Bytes → Found A) → Found A
  or_else (some leaf, values) next = (some leaf, values)
  or_else (none, values) next = next values

  unfoldable pub match_segments : List Bytes → HttpRouteTrie A → List Bytes → Found A
  match_segments [] trie values = (leaf_of trie, values)
  match_segments (segment ∷ rest) trie values =
      or_else
        (elim (get segment (literals_of trie)) [
          | vacant ↦ (none, values)
          | child t ↦ match_segments rest t values
        ])
        (λ vs. elim (param_of trie) [
          | vacant ↦ (none, vs)
          | child t ↦ or_pop (match_segments rest t (vs ++ segment ∷ []))
        ])
