-- ===== src/Contract/Route.antt =====
-- fusen-contract/src/service.rs: HTTP route templates. UTF-8 and the character classes of Unicode are
-- the standard library's: arguments, as a decoder and two tests.
pub mod Literal
use fusen_rs.Contract.Identity.{is_identity_component}
use fusen_rs.Prelude.{
  ℕ, ◌+◌, ◌-◌, ◌*◌, Bool, true, false, ◌&&◌, ◌||◌, not, Option, none, some, List, [], ◌∷◌, ◌++◌,
  length, leb, ltb, ◌==◌, if◌then◌else◌, Result, ok, err, ◌>>=◌,
}
use fusen_rs.Prelude.Bytes.{
  Bytes, all, any, is_empty, is_ascii_alphanumeric, is_ascii_digit, str_eq, split, filter_nonempty,
  trim_matches, starts_with, ends_with, contains_twice, strip_prefix, strip_suffix, member,
}

pub data LiteralError : Type 0 where
  bad_escape escaped_ascii bad_character not_utf8 dot_segment blank_or_control : LiteralError

pub data RouteError : Type 0 where
  not_absolute query_or_fragment empty_segment trailing_slash : RouteError
  bad_parameter partial_parameter : RouteError
  bad_literal : LiteralError → RouteError

-- `String::from_utf8`, to the characters of the text, and two tests of a character.
pub record Unicode : Type 0 where
  pub from_utf8 : Bytes → Option (List ℕ)
  pub is_whitespace : ℕ → Bool
  pub is_control : ℕ → Bool

unfoldable pub uppercase_hex_value : ℕ → Option ℕ
uppercase_hex_value b =
    if is_ascii_digit b
    then some (b - b'0')
    else if leb b'A' b && leb b b'F'
    then some (b - b'A' + 10)
    else none

unfoldable pub is_route_pchar : ℕ → Bool
is_route_pchar b =
    is_ascii_alphanumeric b
    || b == b'-'
    || b == b'.'
    || b == b'_'
    || b == b'~'
    || b == b'!'
    || b == b'$'
    || b == b'&'
    || b == 39
    || b == b'('
    || b == b')'
    || b == b'*'
    || b == b'+'
    || b == b','
    || b == b';'
    || b == b'='
    || b == b':'
    || b == b'@'

abbrev pub push_decoded : ℕ → Result Bytes LiteralError → Result Bytes LiteralError
push_decoded b (ok bs) = ok (b ∷ bs)
push_decoded b (err e) = err e

-- A byte that is no escape, before the rest.
unfoldable pub plain : ℕ → Result Bytes LiteralError → Result Bytes LiteralError
plain b rest = if is_route_pchar b then push_decoded b rest else err LiteralError.bad_character

-- The two digits of an escape, before the rest.
unfoldable pub escaped : Option ℕ → Option ℕ → Result Bytes LiteralError → Result Bytes LiteralError
escaped none low rest = err LiteralError.bad_escape
escaped (some high) none rest = err LiteralError.bad_escape
escaped (some high) (some low) rest =
    if ltb (high * 16 + low) 128
    then err LiteralError.escaped_ascii
    else push_decoded (high * 16 + low) rest

-- The loop of `decode_route_literal`.
unfoldable pub decode_bytes : Bytes → Result Bytes LiteralError
unfolding plain escaped uppercase_hex_value
decode_bytes [] = ok []
decode_bytes (b ∷ []) = if b == b'%' then err LiteralError.bad_escape else plain b (ok [])
decode_bytes (b ∷ h ∷ []) =
    let rest = decode_bytes (h ∷ []) in
    if b == b'%' then err LiteralError.bad_escape else plain b rest
decode_bytes (b ∷ h ∷ l ∷ bs) =
    let rest = decode_bytes (h ∷ l ∷ bs) in
    let after = decode_bytes bs in
    if b == b'%'
    then escaped (uppercase_hex_value h) (uppercase_hex_value l) after
    else plain b rest

-- The name of a segment `{name}`.
abbrev pub placeholder : Bytes → Option Bytes
placeholder segment = elim (strip_prefix b'{' segment) [
  | none ↦ none
  | some value ↦ strip_suffix b'}' value
]

unfoldable pub segments : Bytes → List Bytes
unfolding trim_matches split filter_nonempty
segments path = filter_nonempty (split (λ b. b == b'/') (trim_matches b'/' path))

module _ (unicode : Unicode) where
  -- The tests on the decoded bytes.
  unfoldable pub check_text : Bytes → Result Bytes LiteralError
  check_text decoded = elim (unicode.from_utf8 decoded) [
    | none ↦ err LiteralError.not_utf8
    | some characters ↦
        if str_eq decoded (b'.' ∷ []) || str_eq decoded (b'.' ∷ b'.' ∷ [])
        then err LiteralError.dot_segment
        else if any unicode.is_whitespace characters || any unicode.is_control characters
        then err LiteralError.blank_or_control
        else ok decoded
  ]

  unfoldable pub decode_route_literal : Bytes → Result Bytes LiteralError
  unfolding decode_bytes check_text
  decode_route_literal segment = decode_bytes segment >>= check_text

  abbrev pub literal_result :
      List Bytes → Result Bytes LiteralError → Result (List Bytes) RouteError
  literal_result placeholders (ok decoded) = ok placeholders
  literal_result placeholders (err e) = err (RouteError.bad_literal e)

  -- One round of the loop of `validate_http_route`.
  unfoldable pub check_segment : List Bytes → Bytes → Result (List Bytes) RouteError
  unfolding decode_route_literal
  check_segment placeholders segment = elim (placeholder segment) [
    | some name ↦
        if not (is_identity_component name) || member name placeholders
        then err RouteError.bad_parameter
        else ok (placeholders ++ name ∷ [])
    | none ↦
        if any (λ b. b == b'{' || b == b'}') segment
        then err RouteError.partial_parameter
        else literal_result placeholders (decode_route_literal segment)
  ]

  unfoldable pub check_segments : List Bytes → List Bytes → Result (List Bytes) RouteError
  unfolding check_segment
  check_segments placeholders [] = ok placeholders
  check_segments placeholders (segment ∷ rest) =
      check_segment placeholders segment >>= λ next. check_segments next rest

  -- The names of the path parameters, in order.
  unfoldable pub validate_http_route : Bytes → Result (List Bytes) RouteError
  unfolding check_segments segments
  validate_http_route path =
      if not (starts_with b'/' path)
      then err RouteError.not_absolute
      else if any (λ b. b == b'?' || b == b'#') path
      then err RouteError.query_or_fragment
      else if contains_twice b'/' path
      then err RouteError.empty_segment
      else if ltb 1 (length path) && ends_with b'/' path
      then err RouteError.trailing_slash
      else check_segments [] (segments path)
