-- ===== src/Base/Trim.antt =====
-- The standard library's `str::trim` and the parsing of unsigned integers, on UTF-8 bytes.
use xray_rs.Base.Tests.{leb, ◌==◌, if◌then◌else◌}
use xray_rs.Base.Text.{between, is_ascii_digit}
use Prim.Native.Nat.{ℕ, zero, suc, ◌+◌, ◌-◌, ◌*◌, ◌≤◌}
use mathlib.Core.Path.{◌≡◌, refl}
use mathlib.Core.Bool.{Bool, true, false, ◌&&◌, ◌||◌}
use mathlib.Core.Option.{Option, none, some}
use mathlib.Core.List.{List, [], ◌∷◌, reverse}
use native.Mathlib.Omega.{arith}

-- The code points of three bytes that Unicode calls white space.
abbrev three_byte_space : ℕ → ℕ → ℕ → Bool
three_byte_space a b c =
    (a == 0xE1 && b == 0x9A && c == 0x80)
    || (a == 0xE2 && b == 0x80 && (between 0x80 0x8A c || c == 0xA8 || c == 0xA9 || c == 0xAF))
    || (a == 0xE2 && b == 0x81 && c == 0x9F)
    || (a == 0xE3 && b == 0x80 && c == 0x80)

abbrev two_byte_space : ℕ → ℕ → Bool
two_byte_space a b = a == 0xC2 && (b == 0x85 || b == 0xA0)

abbrev one_byte_space : ℕ → Bool
one_byte_space a = between 9 13 a || a == 32

-- The length of the white space character at the front, 0 if there is none; with the flag, of a text
-- whose bytes are reversed.
abbrev space_length : Bool → List ℕ → ℕ
space_length false (a ∷ b ∷ c ∷ _) =
    if one_byte_space a
    then 1
    else if two_byte_space a b
    then 2
    else if three_byte_space a b c
    then 3
    else 0
space_length true (a ∷ b ∷ c ∷ _) =
    if one_byte_space a
    then 1
    else if two_byte_space b a
    then 2
    else if three_byte_space c b a
    then 3
    else 0
space_length false (a ∷ b ∷ []) =
    if one_byte_space a then 1 else if two_byte_space a b then 2 else 0
space_length true (a ∷ b ∷ []) = if one_byte_space a then 1 else if two_byte_space b a then 2 else 0
space_length _ (a ∷ []) = if one_byte_space a then 1 else 0
space_length _ [] = 0

-- Skips `n` more bytes, and then white space.
skip_space : Bool → ℕ → List ℕ → List ℕ
skip_space rev n [] = []
skip_space rev (suc n) (c ∷ s) = skip_space rev n s
skip_space rev zero (c ∷ s) = elim (space_length rev (c ∷ s)) [
  | zero ↦ c ∷ s
  | suc n ↦ skip_space rev n s
]

unfoldable pub trim : List ℕ → List ℕ
unfolding skip_space
trim s = reverse (skip_space true 0 (reverse (skip_space false 0 s)))

-- The value of a run of digits, if it is at most `max`.
parse_digits : ℕ → ℕ → List ℕ → Option ℕ
parse_digits max value [] = some value
parse_digits max value (c ∷ s) =
    let next = parse_digits max (value * 10 + (c - b'0')) s in
    if is_ascii_digit c && leb (value * 10 + (c - b'0')) max then next else none

-- A sign before something.
abbrev strip_plus : List ℕ → List ℕ
strip_plus (c ∷ d ∷ s) = if c == b'+' then d ∷ s else c ∷ d ∷ s
strip_plus s = s

unfoldable pub digits_of : ℕ → List ℕ → Option ℕ
unfolding parse_digits
digits_of max [] = none
digits_of max (c ∷ s) = parse_digits max 0 (c ∷ s)

-- `str::parse` of an unsigned integer up to `max`.
unfoldable pub parse_uint : ℕ → List ℕ → Option ℕ
unfolding digits_of
parse_uint max s = digits_of max (strip_plus s)

parse_digits_le :
    (max value : ℕ) (s : List ℕ) {n : ℕ} → value ≤ max → parse_digits max value s ≡ some n → n ≤ max
unfolding parse_digits
parse_digits_le max value [] h e = ground arith
parse_digits_le max value (c ∷ s) {n} h e =
    ground (arith, parse_digits_le max (value * 10 + (c - b'0')) s {n = n})

digits_of_le : (max : ℕ) (s : List ℕ) {n : ℕ} → digits_of max s ≡ some n → n ≤ max
unfolding digits_of
digits_of_le max [] e = cc
digits_of_le max (c ∷ s) e = parse_digits_le max 0 (c ∷ s) (omega arith) e

pub parse_uint_le : (max : ℕ) (s : List ℕ) {n : ℕ} → parse_uint max s ≡ some n → n ≤ max
unfolding parse_uint
parse_uint_le max s e = digits_of_le max (strip_plus s) e

trim_tests :
    (trim (b' ' ∷ 9 ∷ b'a' ∷ b' ' ∷ b'b' ∷ 0xC2 ∷ 0xA0 ∷ 0xE2 ∷ 0x80 ∷ 0x83 ∷ [])
      ≡ b'a' ∷ b' ' ∷ b'b' ∷ [])
    × (parse_uint 65535 (b'6' ∷ b'5' ∷ b'5' ∷ b'3' ∷ b'5' ∷ []) ≡ some 65535)
    × (parse_uint 255 (b'2' ∷ b'5' ∷ b'6' ∷ []) ≡ none)
    × (parse_uint 255 (b'+' ∷ []) ≡ none)
    × (parse_uint 255 (b'+' ∷ b'7' ∷ []) ≡ some 7)
unfolding trim parse_uint
trim_tests = (refl, refl, refl, refl, refl)
