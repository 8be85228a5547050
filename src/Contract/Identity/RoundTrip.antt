-- ===== src/Contract/Identity/RoundTrip.antt =====
-- The identity of a service, fusen-contract/src/service.rs, read back into its components.
use mathlib.Core.List.{append-nil}
use fusen_rs.Contract.Identity.{
  is_identity_byte, is_identity_component, service_identity, suffix, ServiceSelector, new_selector,
}
use fusen_rs.Prelude.{
  ℕ, ◌≡◌, refl, sym, ap, ◌∙◌, true, false, Option, none, some, [], ◌∷◌, ◌++◌, ◌==◌, if◌then◌else◌,
  ok, arith,
}
use fusen_rs.Prelude.Bytes.{Bytes, all}

abbrev push_span : ℕ → Bytes × Bytes → Bytes × Bytes
push_span b (front, back) = (b ∷ front, back)

-- The longest front of identity bytes, and the rest.
span : Bytes → Bytes × Bytes
span [] = ([], [])
span (b ∷ bs) = let rest = span bs in if is_identity_byte b then push_span b rest else ([], b ∷ bs)

-- A text that does not begin with an identity byte.
abbrev Stops : Bytes → Type 0
Stops [] = Unit {0}
Stops (b ∷ bs) = is_identity_byte b ≡ false

span-append :
    (a rest : Bytes) → all is_identity_byte a ≡ true → Stops rest → span (a ++ rest) ≡ (a, rest)
unfolding span all
span-append [] [] h s = refl
span-append [] (b ∷ bs) h s = rw s
span-append (b ∷ a) rest h s =
    let first : is_identity_byte b ≡ true = ground arith in
    let others : all is_identity_byte a ≡ true = ground arith in
    rw (first, span-append a rest others s)

-- The optional component after a separator.
read_suffix : ℕ → Bytes → Option Bytes × Bytes
unfolding span
read_suffix c [] = (none, [])
read_suffix c (b ∷ bs) =
    let (front, back) = span bs in if b == c then (some front, back) else (none, b ∷ bs)

abbrev AllIdentity : Option Bytes → Type 0
AllIdentity none = Unit {0}
AllIdentity (some v) = all is_identity_byte v ≡ true

read_suffix-some :
    (c : ℕ) (v rest : Bytes)
    → all is_identity_byte v ≡ true
    → Stops rest
    → read_suffix c (c ∷ (v ++ rest)) ≡ (some v, rest)
unfolding read_suffix
read_suffix-some c v rest h s =
    let same : (c == c) ≡ true = ground arith in rw (same, span-append v rest h s)

-- The components of an identity, read back.
pub read_identity : Bytes → Bytes × Option Bytes × Option Bytes
read_identity text =
    let (service_id, r) = span text in
    let (group, r') = read_suffix b'/' r in
    let (version, _) = read_suffix b'@' r' in (service_id, group, version)

suffix-Stops : (v : Option Bytes) → Stops (suffix b'@' v)
unfolding is_identity_byte
suffix-Stops none = tt
suffix-Stops (some v) = refl

suffixes-Stops : (g v : Option Bytes) → Stops (suffix b'/' g ++ suffix b'@' v)
unfolding is_identity_byte
suffixes-Stops none v = suffix-Stops v
suffixes-Stops (some g) v = refl

read_version : (v : Option Bytes) → AllIdentity v → read_suffix b'@' (suffix b'@' v) ≡ (v, [])
read_version none h = unfold read_suffix in refl
read_version (some v) h =
    ap (λ t. read_suffix b'@' (b'@' ∷ t)) (sym (append-nil v)) ∙ read_suffix-some b'@' v [] h tt

read_group :
    (g v : Option Bytes)
    → AllIdentity g
    → read_suffix b'/' (suffix b'/' g ++ suffix b'@' v) ≡ (g, suffix b'@' v)
read_group none none h = unfold read_suffix in refl
read_group none (some v) h = unfold read_suffix in refl
read_group (some g) v h = read_suffix-some b'/' g (suffix b'@' v) h (suffix-Stops v)

read_identity-service_identity :
    (s : Bytes) (g v : Option Bytes)
    → all is_identity_byte s ≡ true
    → AllIdentity g
    → AllIdentity v
    → read_identity (service_identity s g v) ≡ (s, g, v)
unfolding read_identity service_identity
read_identity-service_identity s g v hs hg hv =
    rw (span-append s (suffix b'/' g ++ suffix b'@' v) hs (suffixes-Stops g v))
      (rw (read_group g v hg) (rw (read_version v hv)))

-- What a selector that was made keeps of its arguments.
record Made (s : Bytes) (g v : Option Bytes) (a : ServiceSelector) : Type 0 where
  service_bytes : all is_identity_byte s ≡ true
  group_bytes : AllIdentity g
  version_bytes : AllIdentity v
  named : a.identity ≡ service_identity s g v

new_selector-Made :
    (s : Bytes) (g v : Option Bytes) (a : ServiceSelector)
    → new_selector s g v ≡ ok a
    → Made s g v a
unfolding new_selector is_identity_component
new_selector-Made s none none a h = ground arith
new_selector-Made s (some g) none a h = ground arith
new_selector-Made s none (some v) a h = ground arith
new_selector-Made s (some g) (some v) a h = ground arith

-- Two selectors that were made have the same identity only if service, group and version are the same.
pub new_selector_identity_injective :
    (s s' : Bytes) (g g' v v' : Option Bytes) (a b : ServiceSelector)
    → new_selector s g v ≡ ok a
    → new_selector s' g' v' ≡ ok b
    → a.identity ≡ b.identity
    → (s ≡ s') × (g ≡ g') × (v ≡ v')
new_selector_identity_injective s s' g g' v v' a b ha hb e =
    let ma = new_selector-Made s g v a ha in
    let mb = new_selector-Made s' g' v' b hb in
    let read_a =
      read_identity-service_identity s g v ma.service_bytes ma.group_bytes ma.version_bytes in
    let read_b =
      read_identity-service_identity s' g' v' mb.service_bytes mb.group_bytes mb.version_bytes in
    let both = sym read_a ∙ ap read_identity (sym ma.named ∙ e ∙ mb.named) ∙ read_b in
    (ap (λ t. t.0) both, ap (λ t. t.1) both, ap (λ t. t.2) both)
