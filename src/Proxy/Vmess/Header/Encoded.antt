-- ===== src/Proxy/Vmess/Header/Encoded.antt =====
-- proxy/src/vmess/header.rs: a header that a client encodes is parsed as it was meant.
use xray_rs.Base.{
  ℕ, ◌-◌, ◌*◌, ◌/◌, ◌%◌, ◌^◌, ◌≤◌, ◌<◌, ◌≡◌, refl, ap, sym, ◌∙◌, true, false, some, List, [], ◌∷◌,
  ◌++◌, append_assoc, ltb, ◌==◌, length, length-append, take, drop, take-append, drop-append,
  take_at, drop_at, bit_and, bit_xor, arith,
}
use xray_rs.Base.Result.{ok}
use xray_rs.Kernel.Net.{Network, Address, read, write, vmess_codec}
use xray_rs.Kernel.Net.RoundTrip.{IsPlain, read_written}
use xray_rs.Proxy.Vmess.Users.{from_be_bytes}
use xray_rs.Proxy.Vmess.Kdf.{fnv1a, fnv1a_from}
use xray_rs.Proxy.Vmess.Header.{
  cmd_mux, Request, network_of, with_address, parse_fields, parse_version, parse_header,
}

-- What a client puts into the fixed part: the IV and the key of its body, and five bytes.
pub record Fields : Type 0 where
  pub iv : List ℕ
  pub key : List ℕ
  pub resp : ℕ
  pub options : ℕ
  pub padsec : ℕ
  pub reserved : ℕ
  pub cmd : ℕ

abbrev pub last_five : Fields → List ℕ
last_five f = f.resp ∷ f.options ∷ f.padsec ∷ f.reserved ∷ f.cmd ∷ []

abbrev pub fixed_part : Fields → List ℕ
fixed_part f = 1 ∷ (f.iv ++ (f.key ++ last_five f))

-- `BufMut::put_u32`
abbrev pub put_u32 : ℕ → List ℕ
put_u32 n = (n / 16777216 % 256) ∷ (n / 65536 % 256) ∷ (n / 256 % 256) ∷ (n % 256) ∷ []

-- The header, with the checksum of all that stands before.
abbrev pub encode_header : Fields → (tail : List ℕ) → List ℕ
encode_header f tail = (fixed_part f ++ tail) ++ put_u32 (fnv1a (fixed_part f ++ tail))

-- The request that the fields are meant as.
abbrev pub meant : Fields → Network → Address → ℕ → Request
meant f network address port = record {
  dest = record { network = network; address = address; port = port };
  req_key = f.key;
  req_iv = f.iv;
  resp_header = f.resp;
  options = f.options;
  security = bit_and f.padsec 0x0f;
  mux = false;
  email = [];
}

fnv1a_from_range : (h : ℕ) (input : List ℕ) → h < 2 ^ 32 → fnv1a_from h input < 2 ^ 32
unfolding fnv1a_from
fnv1a_from_range h [] r = r
fnv1a_from_range h (b ∷ input) r =
    fnv1a_from_range (bit_xor h b * 0x01000193 % 2 ^ 32) input (omega arith)

fnv1a_range : (input : List ℕ) → fnv1a input < 2 ^ 32
unfolding fnv1a
fnv1a_range input = fnv1a_from_range 0x811c9dc5 input (omega arith)

from_be_bytes-put_u32 : (n : ℕ) → n < 2 ^ 32 → from_be_bytes 0 (put_u32 n) ≡ n
from_be_bytes-put_u32 n h = omega arith

-- The fixed part, cut as the parser cuts it.
record IsCut (f : Fields) : Type 0 where
  size : length (fixed_part f) ≡ 38
  iv : take 16 (drop 1 (fixed_part f)) ≡ f.iv
  key : take 16 (drop 17 (fixed_part f)) ≡ f.key
  five : drop 33 (fixed_part f) ≡ last_five f

fixed_part-IsCut : (f : Fields) → length f.iv ≡ 16 → length f.key ≡ 16 → IsCut f
fixed_part-IsCut f i k = record {
  size =
      omega
        (arith, i, k, length-append f.iv (f.key ++ last_five f), length-append f.key (last_five f));
  iv = take_at 16 f.iv (f.key ++ last_five f) i;
  key =
      ap (take 16) (drop_at 17 (1 ∷ f.iv) (f.key ++ last_five f) (omega (arith, i)))
      ∙ take_at 16 f.key (last_five f) k;
  five =
      ap (drop 33) (sym (append_assoc (1 ∷ f.iv) f.key (last_five f)))
      ∙ drop_at 33 ((1 ∷ f.iv) ++ f.key) (last_five f)
          (omega (arith, i, k, length-append f.iv f.key));
}

-- The checksum that is written is the one that is computed.
parse_header-checked :
    (signed : List ℕ)
    → 38 ≤ length signed
    → parse_header (signed ++ put_u32 (fnv1a signed))
      ≡ parse_version (signed ++ put_u32 (fnv1a signed))
unfolding parse_header
parse_header-checked signed long =
    let n = length-append signed (put_u32 (fnv1a signed)) in
    let enough : ltb (length (signed ++ put_u32 (fnv1a signed))) 38 ≡ false = ground (arith, n) in
    let body : length (signed ++ put_u32 (fnv1a signed)) - 4 ≡ length signed = omega (arith, n) in
    let sum : (fnv1a signed == from_be_bytes 0 (put_u32 (fnv1a signed))) ≡ true =
      ground (arith, from_be_bytes-put_u32 (fnv1a signed) (fnv1a_range signed)) in
    rw
      (
        enough,
        body,
        take-append signed (put_u32 (fnv1a signed)),
        drop-append signed (put_u32 (fnv1a signed)),
        sum,
      )
      refl

parse_version-fixed_part :
    (f : Fields) (behind : List ℕ)
    → IsCut f
    → parse_version (fixed_part f ++ behind) ≡ parse_fields (fixed_part f) (last_five f) behind
unfolding parse_version
parse_version-fixed_part f behind c =
    let front : take 38 (fixed_part f ++ behind) ≡ fixed_part f =
      take_at 38 (fixed_part f) behind c.size in
    let back : drop 38 (fixed_part f ++ behind) ≡ behind =
      drop_at 38 (fixed_part f) behind c.size in
    let five : drop 33 (fixed_part f) ≡ last_five f = c.five in rw (front, back, five) refl

parse_fields-meant :
    (f : Fields) (network : Network) (a : Address) (port : ℕ) (behind left : List ℕ)
    → IsCut f
    → network_of f.cmd ≡ some network
    → read vmess_codec behind ≡ ok ((a, port), left)
    → parse_fields (fixed_part f) (last_five f) behind ≡ ok (meant f network a port)
unfolding parse_fields with_address
parse_fields-meant f network a port behind left c n r =
    let other : (f.cmd == cmd_mux) ≡ false = ground arith in
    rw (other, n, with_address, r, c.iv, c.key) refl

-- A header that a client encodes, for an address that the codec carries as it is and a port of 16 bits,
-- with any padding, is parsed as the request that the client means.
pub parse_header-encode_header :
    (f : Fields) (network : Network) (a : Address) (port : ℕ) (head padding : List ℕ)
    → length f.iv ≡ 16
    → length f.key ≡ 16
    → network_of f.cmd ≡ some network
    → IsPlain a
    → port < 65536
    → write vmess_codec a port ≡ ok head
    → parse_header (encode_header f (head ++ padding)) ≡ ok (meant f network a port)
parse_header-encode_header f network a port head padding i k n plain p w =
    let c = fixed_part-IsCut f i k in
    let signed = fixed_part f ++ (head ++ padding) in
    let behind = padding ++ put_u32 (fnv1a signed) in
    let parsed = read_written vmess_codec a port head behind plain p w in
    parse_header-checked signed
      (omega (arith, c.size, length-append (fixed_part f) (head ++ padding)))
    ∙ ap parse_version (
        append_assoc (fixed_part f) (head ++ padding) (put_u32 (fnv1a signed))
        ∙ ap (λ t. fixed_part f ++ t) (append_assoc head padding (put_u32 (fnv1a signed))))
    ∙ parse_version-fixed_part f (head ++ behind) c
    ∙ parse_fields-meant f network a port (head ++ behind) behind c n parsed
