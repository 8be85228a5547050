-- ===== src/Contract/Route/Literal.antt =====
-- The spelling of route literals of fusen-contract/src/service.rs.
use fusen_rs.Contract.Route.{
  LiteralError, Unicode, uppercase_hex_value, is_route_pchar, plain, escaped, decode_bytes,
  decode_route_literal, check_text,
}
use fusen_rs.Prelude.{
  ℕ, ◌+◌, ◌-◌, ◌*◌, ◌/◌, ◌%◌, ◌<◌, ◌≡◌, refl, sym, ap, ◌∙◌, inl, inr, true, false, Option, none,
  some, [], ◌∷◌, ltb, ◌==◌, if◌then◌else◌, Result, ok, err, arith, Bool-cases, Result-cases,
}
use fusen_rs.Prelude.Bytes.{Bytes}

-- The uppercase digit of a value below 16.
abbrev hex_digit : ℕ → ℕ
hex_digit v = if ltb v 10 then b'0' + v else b'A' + v - 10

-- The canonical spelling: ASCII as it is, every other byte escaped.
abbrev pub encode : Bytes → Bytes
encode [] = []
encode (b ∷ bs) =
    let rest = encode bs in
    if ltb b 128 then b ∷ rest else b'%' ∷ hex_digit (b / 16) ∷ hex_digit (b % 16) ∷ rest

uppercase_hex_value_lem : (b v : ℕ) → uppercase_hex_value b ≡ some v → (v < 16) × (hex_digit v ≡ b)
unfolding uppercase_hex_value
uppercase_hex_value_lem b v h = ground arith

is_route_pchar-lt : (b : ℕ) → is_route_pchar b ≡ true → b < 128
unfolding is_route_pchar
is_route_pchar-lt b h = ground arith

-- What a successful step says.
plain-ok :
    (b : ℕ) (r : Result Bytes LiteralError) (d : Bytes)
    → plain b r ≡ ok d
    → (rest : Bytes) × (r ≡ ok rest) × (d ≡ b ∷ rest) × (b < 128)
unfolding plain
plain-ok b (err e) d h = absurd (ground arith)
plain-ok b (ok rest) d h = (rest, refl, ground arith, ground (arith, is_route_pchar-lt b))

encode_escape :
    (high low : ℕ) (rest : Bytes)
    → high < 16
    → low < 16
    → ltb (high * 16 + low) 128 ≡ false
    → encode ((high * 16 + low) ∷ rest) ≡ b'%' ∷ hex_digit high ∷ hex_digit low ∷ encode rest
encode_escape high low rest h l big =
    let up : (high * 16 + low) / 16 ≡ high = omega arith in
    let down : (high * 16 + low) % 16 ≡ low = omega arith in rw (big, up, down)

-- An escape that was decoded is the spelling of its byte.
escaped_values :
    (h l : ℕ) (high low : Option ℕ) (r : Result Bytes LiteralError) (d : Bytes)
    → uppercase_hex_value h ≡ high
    → uppercase_hex_value l ≡ low
    → escaped high low r ≡ ok d
    → (rest : Bytes) × (r ≡ ok rest) × (encode d ≡ b'%' ∷ h ∷ l ∷ encode rest)
unfolding escaped
escaped_values h l none low r d eh el e = absurd (cc)
escaped_values h l (some high) none r d eh el e = absurd (cc)
escaped_values h l (some high) (some low) (err x) d eh el e = absurd (ground arith)
escaped_values h l (some high) (some low) (ok rest) d eh el e =
    let (high_small, high_digit) = uppercase_hex_value_lem h high eh in
    let (low_small, low_digit) = uppercase_hex_value_lem l low el in
    let big : ltb (high * 16 + low) 128 ≡ false = ground arith in
    let shape : d ≡ (high * 16 + low) ∷ rest = ground arith in
    (
      rest,
      refl,
      rw shape (encode_escape high low rest high_small low_small big ∙ rw (high_digit, low_digit)),
    )

spell_plain :
    (b : ℕ) (d rest tail : Bytes)
    → d ≡ b ∷ rest
    → b < 128
    → encode rest ≡ tail
    → encode d ≡ b ∷ tail
spell_plain b d rest tail shape small e =
    let ascii : ltb b 128 ≡ true = ground arith in rw (shape, ascii, e)

-- A byte that is no escape, before a rest that is spelled as it was.
step_plain :
    (b : ℕ) (s d : Bytes)
    → ((rest : Bytes) → decode_bytes s ≡ ok rest → encode rest ≡ s)
    → plain b (decode_bytes s) ≡ ok d
    → encode d ≡ b ∷ s
step_plain b s d ih h =
    let (rest, e, shape, small) = plain-ok b (decode_bytes s) d h in
    spell_plain b d rest s shape small (ih rest e)

step_escape :
    (b x y : ℕ) (s d : Bytes)
    → ((rest : Bytes) → decode_bytes s ≡ ok rest → encode rest ≡ s)
    → (b == b'%') ≡ true
    → escaped (uppercase_hex_value x) (uppercase_hex_value y) (decode_bytes s) ≡ ok d
    → encode d ≡ b ∷ x ∷ y ∷ s
step_escape b x y s d ih esc h =
    let (rest, e, spelled) = escaped_values x y _ _ (decode_bytes s) d refl refl h in
    let percent : b ≡ b'%' = ground arith in
    rw percent (spelled ∙ ap (λ t. b'%' ∷ x ∷ y ∷ t) (ih rest e))

-- A decoded text spelled again is the literal that it came from.
pub encode-decode_bytes : (s d : Bytes) → decode_bytes s ≡ ok d → encode d ≡ s
unfolding decode_bytes
encode-decode_bytes [] d h = ground arith
encode-decode_bytes (b ∷ []) d h = elim (Bool-cases (b == b'%')) [
  | inl esc ↦ absurd (ground arith)
  | inr no_esc ↦
      step_plain b [] d (λ rest e. encode-decode_bytes [] rest e) (rw (no_esc, decode_bytes) at h)
]
encode-decode_bytes (b ∷ x ∷ []) d h = elim (Bool-cases (b == b'%')) [
  | inl esc ↦ absurd (ground arith)
  | inr no_esc ↦
      step_plain b (x ∷ []) d (λ rest e. encode-decode_bytes (x ∷ []) rest e)
        (rw (no_esc, decode_bytes) at h)
]
encode-decode_bytes (b ∷ x ∷ y ∷ bs) d h = elim (Bool-cases (b == b'%')) [
  | inl esc ↦
      step_escape b x y bs d (λ rest e. encode-decode_bytes bs rest e) esc
        (rw (esc, decode_bytes) at h)
  | inr no_esc ↦
      step_plain b (x ∷ y ∷ bs) d (λ rest e. encode-decode_bytes (x ∷ y ∷ bs) rest e)
        (rw (no_esc, decode_bytes) at h)
]

check_text-ok : (u : Unicode) (x d : Bytes) → check_text u x ≡ ok d → x ≡ d
unfolding check_text
check_text-ok u x d h = ground arith

decode_route_literal-bytes :
    (u : Unicode) (s d : Bytes) → decode_route_literal u s ≡ ok d → decode_bytes s ≡ ok d
unfolding decode_route_literal
decode_route_literal-bytes u s d h = elim (Result-cases (decode_bytes s)) [
  | inl (x, e) ↦ e ∙ ap ok (check_text-ok u x d (rw e at h))
  | inr (x, e) ↦ absurd (cc (rw e at h))
]

-- Two valid route literals that stand for the same text are the same literal.
pub decode_route_literal_injective :
    (u : Unicode) (s t d : Bytes)
    → decode_route_literal u s ≡ ok d
    → decode_route_literal u t ≡ ok d
    → s ≡ t
decode_route_literal_injective u s t d hs ht =
    sym (encode-decode_bytes s d (decode_route_literal-bytes u s d hs))
    ∙ encode-decode_bytes t d (decode_route_literal-bytes u t d ht)
