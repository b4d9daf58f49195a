-- ===== src/Kernel/Uuid/Groups.antt =====
-- kernel/src/uuid.rs: the digits of the groups of a UUID, read one group after the other.
use xray_rs.Base.{
  ℕ, ◌+◌, ◌*◌, ◌/◌, ◌%◌, ◌<◌, ◌≤◌, ◌≡◌, refl, ◌∙◌, Bool, true, false, List, [], ◌∷◌, ◌++◌, ltb,
  ◌==◌, length, length-append, take, drop, take-append, drop-append, IsBytes, arith,
}
use xray_rs.Base.Below.{all_below, all_below_lem}
use xray_rs.Base.Result.{ok, err, >>=-ok}
use xray_rs.Kernel.Uuid.{
  hex_val, hex_byte, decode_hex, skip_dash, parse_hex, parse_group, parse_groups, hex_digit,
  hex_text,
}

-- Whether the two digits of a byte are read as that byte.
reads_back : ℕ → Bool
reads_back b = elim (hex_byte (hex_digit (b / 16)) (hex_digit (b % 16))) [
  | ok c ↦ b == c
  | err e ↦ false
]

reads_back_table : all_below reads_back 256 ≡ true
unfolding all_below reads_back hex_byte hex_val hex_digit
reads_back_table = refl

hex_byte-hex_digit : (b : ℕ) → b < 256 → hex_byte (hex_digit (b / 16)) (hex_digit (b % 16)) ≡ ok b
unfolding reads_back
hex_byte-hex_digit b h =
    let t = all_below_lem reads_back 256 b reads_back_table h in ground (arith, t)

decode_hex-hex_text : (bs : List ℕ) → IsBytes bs → decode_hex (length bs) (hex_text bs) ≡ ok bs
unfolding decode_hex hex_text
decode_hex-hex_text [] h = refl
decode_hex-hex_text (b ∷ bs) (p, h) =
    rw (hex_byte-hex_digit b p, decode_hex-hex_text bs h, decode_hex) refl

length-hex_text : (bs : List ℕ) → length (hex_text bs) ≡ 2 * length bs
unfolding hex_text
length-hex_text [] = refl
length-hex_text (b ∷ bs) = omega (arith, length-hex_text bs)

hex_digit-ne_dash : (n : ℕ) → (hex_digit n == b'-') ≡ false
unfolding hex_digit
hex_digit-ne_dash n = ground arith

-- The text of bytes with a dash before it or without.
unfoldable pub dashed : Bool × List ℕ → List ℕ
dashed (true, bs) = b'-' ∷ hex_text bs
dashed (false, bs) = hex_text bs

skip_dash-dashed :
    (d : Bool) (b : ℕ) (bs rest : List ℕ)
    → skip_dash (dashed (d, b ∷ bs) ++ rest) ≡ hex_text (b ∷ bs) ++ rest
unfolding skip_dash dashed hex_text
skip_dash-dashed true b bs rest = refl
skip_dash-dashed false b bs rest = rw (hex_digit-ne_dash (b / 16), skip_dash) refl

parse_hex-hex_text :
    (bs rest : List ℕ)
    → IsBytes bs
    → parse_hex (2 * length bs) (hex_text bs ++ rest) ≡ ok (bs, rest)
unfolding parse_hex
parse_hex-hex_text bs rest h =
    let long : ltb (length (hex_text bs ++ rest)) (2 * length bs) ≡ false =
      ground (arith, length-append (hex_text bs) rest, length-hex_text bs) in
    let half : 2 * length bs / 2 ≡ length bs = omega arith in
    let front : take (2 * length bs) (hex_text bs ++ rest) ≡ hex_text bs =
      rw (← length-hex_text bs) (take-append (hex_text bs) rest) in
    let back : drop (2 * length bs) (hex_text bs ++ rest) ≡ rest =
      rw (← length-hex_text bs) (drop-append (hex_text bs) rest) in
    rw (long, half, front, decode_hex-hex_text bs h, back, parse_hex) refl

-- A group of `g` digits for the bytes, of which there is one at least.
unfoldable pub IsGroup : ℕ → Bool × List ℕ → Type 0
IsGroup g (d, bs) = (0 < length bs) × (g ≡ 2 * length bs) × IsBytes bs

parse_group-dashed :
    (g : ℕ) (s : Bool × List ℕ) (rest : List ℕ)
    → IsGroup g s
    → parse_group g (dashed s ++ rest) ≡ ok (s.1, rest)
unfolding parse_group IsGroup
parse_group-dashed g (d, []) rest (some_byte, q, h) = absurd (omega (arith, some_byte))
parse_group-dashed g (d, b ∷ bs) rest (some_byte, q, h) =
    rw (skip_dash-dashed d b bs rest, q, parse_group) (parse_hex-hex_text (b ∷ bs) rest h)

unfoldable pub AreGroups : List ℕ → List (Bool × List ℕ) → Type 0
AreGroups [] [] = Unit
AreGroups (g ∷ gs) (s ∷ segments) = IsGroup g s × AreGroups gs segments
AreGroups _ _ = ⊥

unfoldable pub text : List (Bool × List ℕ) → List ℕ
text [] = []
text (s ∷ segments) = dashed s ++ text segments

unfoldable pub all_bytes : List (Bool × List ℕ) → List ℕ
all_bytes [] = []
all_bytes (s ∷ segments) = s.1 ++ all_bytes segments

pub parse_groups-text :
    (gs : List ℕ) (segments : List (Bool × List ℕ))
    → AreGroups gs segments
    → parse_groups gs (text segments) ≡ ok (all_bytes segments, [])
unfolding parse_groups AreGroups text all_bytes
parse_groups-text [] [] h = refl
parse_groups-text [] (s ∷ segments) h = absurd h
parse_groups-text (g ∷ gs) [] h = absurd h
parse_groups-text (g ∷ gs) (s ∷ segments) (h, k) =
    >>=-ok (parse_group g) _ (dashed s ++ text segments) (parse_group-dashed g s (text segments) h)
    ∙ >>=-ok (parse_groups gs) _ (text segments) (parse_groups-text gs segments k)

unfoldable pub bit : Bool → ℕ
bit true = 1
bit false = 0

pub bit-IsSmall : (d : Bool) → bit d ≤ 1
unfolding bit
bit-IsSmall true = omega arith
bit-IsSmall false = omega arith

length-dashed : (s : Bool × List ℕ) → length (dashed s) ≡ 2 * length s.1 + bit s.0
unfolding dashed bit
length-dashed (true, bs) = omega (arith, length-hex_text bs)
length-dashed (false, bs) = omega (arith, length-hex_text bs)

unfoldable pub count : List (Bool × List ℕ) → ℕ
count [] = 0
count (s ∷ segments) = bit s.0 + count segments

pub length-text :
    (segments : List (Bool × List ℕ))
    → length (text segments) ≡ 2 * length (all_bytes segments) + count segments
unfolding text all_bytes count
length-text [] = refl
length-text (s ∷ segments) = omega (
  arith,
  length-append (dashed s) (text segments),
  length-dashed s,
  length-text segments,
  length-append s.1 (all_bytes segments),
)
