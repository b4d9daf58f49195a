-- ===== src/Kernel/Uuid.antt =====
-- kernel/src/uuid.rs: the text of a UUID. A UUID is its list of 16 bytes; SHA-1 is a parameter.
pub mod Groups
pub mod Text
pub mod Derived
use xray_rs.Base.{
  ℕ, zero, suc, ◌+◌, ◌*◌, ◌-◌, ◌/◌, ◌%◌, Bool, true, false, ◌||◌, not, ◌&&◌, Option, none, some,
  List, [], ◌∷◌, ◌++◌, ltb, leb, ◌==◌, if◌then◌else◌, length, take, drop, replicate, set, get_elem?,
  bit_and, bit_or,
}
use xray_rs.Base.Text.{between}
use xray_rs.Base.Result.{Result, ok, err, Parser, pure, fail, ◌>>=◌}
use xray_rs.Kernel.Error.{Error, protocol, crypto}

abbrev pub groups : List ℕ
groups = 8 ∷ 4 ∷ 4 ∷ 4 ∷ 12 ∷ []

-- `Uuid::from_bytes`
unfoldable pub from_bytes : List ℕ → Result Error (List ℕ)
from_bytes b = if length b == 16 then ok b else err (protocol "invalid UUID length")

unfoldable pub hex_val : ℕ → Result Error ℕ
hex_val c =
    if between b'0' b'9' c
    then ok (c - b'0')
    else if between b'a' b'f' c
    then ok (c - b'a' + 10)
    else if between b'A' b'F' c
    then ok (c - b'A' + 10)
    else err (protocol "invalid UUID hex")

-- The byte of two digits.
unfoldable pub hex_byte : (hi lo : ℕ) → Result Error ℕ
hex_byte hi lo = elim (hex_val hi) [
  | err e ↦ err e
  | ok h ↦ elim (hex_val lo) [ err e ↦ err e | ok l ↦ ok (bit_or (h * 16 % 256) l) ]
]

-- `decode_hex`, into `n` bytes.
unfoldable pub decode_hex : (n : ℕ) → (hex : List ℕ) → Result Error (List ℕ)
decode_hex zero hex = ok []
decode_hex (suc n) (hi ∷ lo ∷ hex) =
    let rest = decode_hex n hex in
    elim (hex_byte hi lo) [
      | err e ↦ err e
      | ok b ↦ elim rest [ err e ↦ err e | ok bs ↦ ok (b ∷ bs) ]
    ]
decode_hex (suc n) _ = err (protocol "invalid UUID")

unfoldable pub skip_dash : List ℕ → List ℕ
skip_dash [] = []
skip_dash (c ∷ text) = if c == b'-' then text else c ∷ text

-- A group of digits off the text.
unfoldable pub parse_hex : (group : ℕ) → Parser Error (List ℕ)
parse_hex group text =
    if ltb (length text) group
    then err (protocol "invalid UUID")
    else elim (decode_hex (group / 2) (take group text)) [
      | err e ↦ err e
      | ok bs ↦ ok (bs, drop group text)
    ]

unfoldable pub parse_group : (group : ℕ) → Parser Error (List ℕ)
parse_group group text = parse_hex group (skip_dash text)

unfoldable pub parse_groups : List ℕ → Parser Error (List ℕ)
parse_groups [] = pure []
parse_groups (g ∷ gs) = do bs ← parse_group g; rest ← parse_groups gs; pure (bs ++ rest)

unfoldable pub update : ℕ → (ℕ → ℕ) → List ℕ → List ℕ
update i f [] = []
update zero f (b ∷ bs) = f b ∷ bs
update (suc i) f (b ∷ bs) = b ∷ update i f bs

unfoldable pub version : ℕ → ℕ
version b = bit_or (bit_and b 0x0f) (5 * 16)

unfoldable pub variant : ℕ → ℕ
variant b = bit_or (bit_and b 0x3f) 0x80

-- The first 16 bytes of a digest, with the version and the variant put in.
unfoldable pub marked : List ℕ → List ℕ
marked u = update 8 variant (update 6 version u)

module _ (sha1 : List ℕ → List ℕ) where
  unfoldable pub derive : List ℕ → Result Error (List ℕ)
  derive text =
      let digest = sha1 (replicate 16 0 ++ text) in
      if ltb (length digest) 16 then err (crypto "sha1 short") else ok (marked (take 16 digest))

  -- `Uuid::parse_str`
  unfoldable pub parse_str : List ℕ → Result Error (List ℕ)
  parse_str text =
      let l = length text in
      if not (between 32 36 l)
      then if l == 0 || ltb 30 l then err (protocol "invalid UUID") else derive text
      else elim (parse_groups groups text) [ err e ↦ err e | ok (u, rest) ↦ ok u ]

-- `{:02x}`
unfoldable pub hex_digit : ℕ → ℕ
hex_digit n = if ltb n 10 then b'0' + n else b'a' + (n - 10)

unfoldable pub hex_text : List ℕ → List ℕ
hex_text [] = []
hex_text (b ∷ bs) = hex_digit (b / 16) ∷ hex_digit (b % 16) ∷ hex_text bs

-- `Display`
unfoldable pub display : List ℕ → List ℕ
display u =
    hex_text (take 4 u)
    ++ (b'-'
        ∷ (hex_text (take 2 (drop 4 u))
            ++ (b'-'
                ∷ (hex_text (take 2 (drop 6 u))
                    ++ (b'-' ∷ (hex_text (take 2 (drop 8 u)) ++ (b'-' ∷ hex_text (drop 10 u))))))))
