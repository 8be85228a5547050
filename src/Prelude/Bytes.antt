-- ===== src/Prelude/Bytes.antt =====
-- Text as a list of bytes, with the operations of `str` that the program uses.
use Prim.Native.Nat.{ℕ}
use Prim.Native.Char.{code}
use Prim.Native.String.{String}
use mathlib.Core.Path.{◌≡◌, refl, ap₂}
use mathlib.Core.Logic.{◌↔◌}
use mathlib.Core.Bool.{Bool, true, false, ◌&&◌, ◌||◌}
use mathlib.Core.Option.{Option, none, some}
use mathlib.Core.List.{List, [], ◌∷◌, reverse}
use native.Mathlib.Omega.{arith}
use fusen_rs.Prelude.Tests.{◌==◌, leb, if◌then◌else◌}

abbrev pub Bytes : Type 0
Bytes = List ℕ

-- The bytes of an ASCII literal.
abbrev pub bytes_of : String → Bytes
bytes_of String.[] = []
bytes_of (String.◌∷◌ c s) = code c ∷ bytes_of s

unfoldable pub str_eq : Bytes → Bytes → Bool
str_eq [] [] = true
str_eq (x ∷ xs) (y ∷ ys) = x == y && str_eq xs ys
str_eq _ _ = false

pub str_eq_refl : (xs : Bytes) → str_eq xs xs ≡ true
unfolding str_eq
str_eq_refl [] = refl
str_eq_refl (x ∷ xs) = ground (arith, str_eq_refl xs)

pub str_eq_sound : (xs ys : Bytes) → str_eq xs ys ≡ true → xs ≡ ys
unfolding str_eq
str_eq_sound [] [] h = refl
str_eq_sound [] (y ∷ ys) h = cc
str_eq_sound (x ∷ xs) [] h = cc
str_eq_sound (x ∷ xs) (y ∷ ys) h = ap₂ ◌∷◌ (ground arith) (str_eq_sound xs ys (ground arith))

pub str_eq_iff : (xs ys : Bytes) → (str_eq xs ys ≡ true) ↔ (xs ≡ ys)
str_eq_iff xs ys = (str_eq_sound xs ys, λ e. rw e (str_eq_refl ys))

unfoldable pub all : (ℕ → Bool) → Bytes → Bool
all p [] = true
all p (b ∷ bs) = p b && all p bs

unfoldable pub any : (ℕ → Bool) → Bytes → Bool
any p [] = false
any p (b ∷ bs) = p b || any p bs

abbrev pub is_empty : Bytes → Bool
is_empty [] = true
is_empty (b ∷ bs) = false

-- `u8::is_ascii_alphanumeric` and its parts.
abbrev pub is_ascii_lowercase : ℕ → Bool
is_ascii_lowercase b = leb b'a' b && leb b b'z'

abbrev pub is_ascii_uppercase : ℕ → Bool
is_ascii_uppercase b = leb b'A' b && leb b b'Z'

abbrev pub is_ascii_digit : ℕ → Bool
is_ascii_digit b = leb b'0' b && leb b b'9'

abbrev pub is_ascii_alphanumeric : ℕ → Bool
is_ascii_alphanumeric b = is_ascii_lowercase b || is_ascii_uppercase b || is_ascii_digit b

abbrev pub push_first : ℕ → List Bytes → List Bytes
push_first b [] = (b ∷ []) ∷ []
push_first b (s ∷ ss) = (b ∷ s) ∷ ss

-- `str::split` at one of the bytes of a test: one more piece than there are such bytes.
unfoldable pub split : (ℕ → Bool) → Bytes → List Bytes
split at_byte [] = [] ∷ []
split at_byte (b ∷ bs) =
    let rest = split at_byte bs in if at_byte b then [] ∷ rest else push_first b rest

unfoldable pub filter_nonempty : List Bytes → List Bytes
filter_nonempty [] = []
filter_nonempty (s ∷ ss) = let rest = filter_nonempty ss in if is_empty s then rest else s ∷ rest

unfoldable pub trim_start : ℕ → Bytes → Bytes
trim_start c [] = []
trim_start c (b ∷ bs) = let rest = trim_start c bs in if b == c then rest else b ∷ bs

-- `str::trim_matches`.
unfoldable pub trim_matches : ℕ → Bytes → Bytes
unfolding trim_start
trim_matches c bs = reverse (trim_start c (reverse (trim_start c bs)))

abbrev pub starts_with : ℕ → Bytes → Bool
starts_with c [] = false
starts_with c (b ∷ bs) = b == c

unfoldable pub ends_with : ℕ → Bytes → Bool
ends_with c [] = false
ends_with c (b ∷ []) = b == c
ends_with c (b ∷ b' ∷ bs) = ends_with c (b' ∷ bs)

-- `str::contains("//")`, for the byte `c`.
unfoldable pub contains_twice : ℕ → Bytes → Bool
contains_twice c [] = false
contains_twice c (b ∷ []) = false
contains_twice c (b ∷ b' ∷ bs) = (b == c && b' == c) || contains_twice c (b' ∷ bs)

abbrev pub strip_prefix : ℕ → Bytes → Option Bytes
strip_prefix c [] = none
strip_prefix c (b ∷ bs) = if b == c then some bs else none

abbrev push_option : ℕ → Option Bytes → Option Bytes
push_option b none = none
push_option b (some bs) = some (b ∷ bs)

unfoldable pub strip_suffix : ℕ → Bytes → Option Bytes
strip_suffix c [] = none
strip_suffix c (b ∷ []) = if b == c then some [] else none
strip_suffix c (b ∷ b' ∷ bs) = push_option b (strip_suffix c (b' ∷ bs))

-- A set of texts as a list without repetitions; `insert` says whether the text is new.
unfoldable pub member : Bytes → List Bytes → Bool
member s [] = false
member s (t ∷ ts) = str_eq s t || member s ts

unfoldable pub subset : List Bytes → List Bytes → Bool
unfolding member
subset [] ts = true
subset (s ∷ ss) ts = member s ts && subset ss ts

-- Equality of two sets.
unfoldable pub set_eq : List Bytes → List Bytes → Bool
unfolding subset
set_eq ss ts = subset ss ts && subset ts ss
