-- ===== src/Base/IpText.antt =====
-- The standard library's `str::parse::<IpAddr>()`: dotted decimal first, then RFC 4291 text.
-- An address is its octets, 4 or 16 of them.
use xray_rs.Base.Tests.{ltb, leb, ◌==◌, if◌then◌else◌}
use xray_rs.Base.Lists.{length, replicate}
use xray_rs.Base.Text.{between, is_ascii_digit, bytes}
use Prim.Native.Nat.{ℕ, zero, suc, ◌+◌, ◌-◌, ◌*◌, ◌/◌, ◌%◌}
use mathlib.Core.Path.{◌≡◌, refl}
use mathlib.Core.Bool.{Bool, true, false, ◌&&◌}
use mathlib.Core.Option.{Option, none, some}
use mathlib.Core.List.{List, [], ◌∷◌, ◌++◌}

abbrev Reader : Type 0 → Type 0
Reader A = List ℕ → Option (A × List ℕ)

infixl 5 ◌>>=◌
abbrev ◌>>=◌ : {A B : Type 0} → Reader A → (A → Reader B) → Reader B
◌>>=◌ m f s = elim (m s) [ none ↦ none | some (a, rest) ↦ f a rest ]

abbrev to_digit : ℕ → ℕ → Option ℕ
to_digit radix c =
    let d =
      if is_ascii_digit c
      then c - 48
      else if between 97 102 c
      then c - 87
      else if between 65 70 c
      then c - 55
      else 99 in
    if ltb d radix then some d else none

-- The digits at the front, with their value and count; `none` past `most` digits.
read_digits : ℕ → ℕ → ℕ → ℕ → List ℕ → Option ((ℕ × ℕ) × List ℕ)
read_digits radix most value count [] = some ((value, count), [])
read_digits radix most value count (c ∷ s) = elim (to_digit radix c) [
  | none ↦ some ((value, count), c ∷ s)
  | some d ↦ elim (ltb count most) [
    | true ↦ read_digits radix most (value * radix + d) (count + 1) s
    | false ↦ none
  ]
]

has_leading_zero : List ℕ → Bool
has_leading_zero [] = false
has_leading_zero (c ∷ s) = c == b'0'

decimal_octet : Reader ℕ
unfolding read_digits has_leading_zero
decimal_octet s = elim (read_digits 10 3 0 0 s) [
  | none ↦ none
  | some ((value, count), rest) ↦
      if count == 0
      then none
      else if has_leading_zero s && ltb 1 count
      then none
      else if leb value 255
      then some (value, rest)
      else none
]

hex_group : Reader ℕ
unfolding read_digits
hex_group s = elim (read_digits 16 4 0 0 s) [
  | none ↦ none
  | some ((value, count), rest) ↦ if count == 0 then none else some (value, rest)
]

given_char : ℕ → Reader (Unit {0})
given_char c [] = none
given_char c (d ∷ s) = if c == d then some (tt, s) else none

-- `read_separator`: every entry but the first stands behind the separator.
separated : {A : Type 0} → ℕ → ℕ → Reader A → Reader A
unfolding given_char
separated sep zero inner = inner
separated sep (suc i) inner = given_char sep >>= λ _. inner

read_ipv4 : Reader (List ℕ)
unfolding decimal_octet separated
read_ipv4 = do
  a ← separated b'.' 0 decimal_octet
  b ← separated b'.' 1 decimal_octet
  c ← separated b'.' 2 decimal_octet
  d ← separated b'.' 3 decimal_octet
  λ s. some (a ∷ b ∷ c ∷ d ∷ [], s)

-- `k` groups at most from number `i` on, as octets; true if the last two were a dotted address.
read_groups : ℕ → ℕ → List ℕ → List ℕ × Bool × List ℕ
unfolding read_ipv4 hex_group separated
read_groups zero i s = ([], false, s)
read_groups (suc k) i s = elim (if ltb 0 k then separated b':' i read_ipv4 s else none) [
  | some (octets, rest) ↦ (octets, true, rest)
  | none ↦ elim (separated b':' i hex_group s) [
    | none ↦ ([], false, s)
    | some (g, rest) ↦
        let (more, dotted, end) = read_groups k (i + 1) rest in
        ((g / 256) ∷ (g % 256) ∷ more, dotted, end)
  ]
]

fill_gap : List ℕ → List ℕ → List ℕ
fill_gap head tail = head ++ (replicate (16 - length head - length tail) 0 ++ tail)

-- What stands behind `::`.
read_tail : List ℕ → Reader (List ℕ)
unfolding read_groups given_char fill_gap
read_tail head = do
  _ ← given_char b':'
  _ ← given_char b':'
  λ s. let (tail, _, end) = read_groups (7 - length head / 2) 0 s in some (fill_gap head tail, end)

read_ipv6 : Reader (List ℕ)
unfolding read_groups read_tail
read_ipv6 s =
    let (head, dotted, rest) = read_groups 8 0 s in
    if length head == 16 then some (head, rest) else if dotted then none else read_tail head rest

read_ip : Reader (List ℕ)
unfolding read_ipv4 read_ipv6
read_ip s = elim (read_ipv4 s) [ some r ↦ some r | none ↦ read_ipv6 s ]

-- The octets of the address that the whole text spells.
unfoldable pub parse_octets : List ℕ → Option (List ℕ)
unfolding read_ip
parse_octets s = elim (read_ip s) [ some (octets, []) ↦ some octets | _ ↦ none ]

parse_octets_tests :
    (parse_octets (bytes "1.2.3.250") ≡ some (1 ∷ 2 ∷ 3 ∷ 250 ∷ []))
    × (parse_octets (bytes "01.2.3.4") ≡ none)
    × (parse_octets (bytes "1.2.3.256") ≡ none)
    × (parse_octets (bytes "1.2.3") ≡ none)
    × (parse_octets (bytes "::1") ≡ some (replicate 15 0 ++ (1 ∷ [])))
    × (parse_octets (bytes "::ffff:1.2.3.4")
        ≡ some (replicate 10 0 ++ (255 ∷ 255 ∷ 1 ∷ 2 ∷ 3 ∷ 4 ∷ [])))
    × (parse_octets (bytes "fe80::a:1") ≡ some (254 ∷ 128 ∷ (replicate 11 0 ++ (10 ∷ 0 ∷ 1 ∷ []))))
    × (parse_octets (bytes "example.com") ≡ none)
unfolding parse_octets
parse_octets_tests = (refl, refl, refl, refl, refl, refl, refl, refl)
