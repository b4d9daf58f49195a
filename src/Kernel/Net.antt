-- ===== src/Kernel/Net.antt =====
-- kernel/src/net.rs: addresses, destinations and the address codec that the protocols share.
-- An IP address is its octets; a `CompactString` is its bytes.
pub mod Stream
pub mod RoundTrip
use xray_rs.Base.{
  ℕ, ◌+◌, ◌*◌, ◌/◌, ◌%◌, ◌<◌, ◌≡◌, refl, Bool, true, false, not, ◌&&◌, ◌||◌, Option, none, some,
  List, [], ◌∷◌, ◌++◌, ltb, leb, ◌==◌, if◌then◌else◌, length, take, drop, replicate, all, eq_bytes,
  IsByte, IsBytes, bit_and,
}
use xray_rs.Base.Result.{Result, ok, err, ok_or, pure, fail, ◌>>=◌}
use xray_rs.Base.Text.{is_ascii_digit, is_ascii_alphanumeric, is_utf8, strip_prefix, bytes}
use xray_rs.Base.IpText.{parse_octets}
use xray_rs.Kernel.Error.{Error, bad_address_type, bad_domain, protocol}
use xray_rs.Kernel.Cursor.{Decoder, take_u8, read_port, take_bytes}
use mathlib.Core.List.{reverse}

pub data Network : Type 0 where
  unknown tcp udp unix : Network

pub data IpAddr : Type 0 where
  v4 v6 : (octets : List ℕ) → IpAddr

pub data Address : Type 0 where
  ip : IpAddr → Address
  domain : List ℕ → Address

pub record Destination : Type 0 where
  pub network : Network
  pub address : Address
  pub port : ℕ

-- `Ipv6Addr::to_ipv4_mapped`
abbrev mapped_prefix : List ℕ
mapped_prefix = replicate 10 0 ++ (0xff ∷ 0xff ∷ [])

unfoldable pub to_ipv4_mapped : List ℕ → Option (List ℕ)
to_ipv4_mapped octets = strip_prefix mapped_prefix octets

unfoldable pub from_ip_bytes : List ℕ → Result Error Address
from_ip_bytes b =
    if length b == 4
    then ok (ip (v4 b))
    else if length b == 16
    then elim (to_ipv4_mapped b) [ some a ↦ ok (ip (v4 a)) | none ↦ ok (ip (v6 b)) ]
    else err (protocol "invalid IP length")

abbrev of_octets : List ℕ → IpAddr
of_octets octets = if length octets == 4 then v4 octets else v6 octets

-- `str::parse::<IpAddr>`
unfoldable pub parse_ip : List ℕ → Option IpAddr
parse_ip s = elim (parse_octets s) [ none ↦ none | some octets ↦ some (of_octets octets) ]

abbrev pub strip_suffix : ℕ → List ℕ → Option (List ℕ)
strip_suffix c s = elim (reverse s) [
  | [] ↦ none
  | d ∷ r ↦ if d == c then some (reverse r) else none
]

-- The inside of a text in brackets.
abbrev in_brackets : List ℕ → Option (List ℕ)
in_brackets s = elim (strip_prefix (b'[' ∷ []) s) [ none ↦ none | some t ↦ strip_suffix b']' t ]

-- `Address::parse`
unfoldable pub parse_address : List ℕ → Address
unfolding parse_ip
parse_address s = elim (parse_ip s) [
  | some a ↦ ip a
  | none ↦ elim (in_brackets s) [
    | none ↦ domain s
    | some inner ↦ elim (parse_ip inner) [ some a ↦ ip a | none ↦ domain s ]
  ]
]

abbrev pub is_ip : Address → Bool
is_ip (ip _) = true
is_ip (domain _) = false

unfoldable pub tcp_destination : Address → ℕ → Destination
tcp_destination address port = record { network = tcp; address = address; port = port }

unfoldable pub udp_destination : Address → ℕ → Destination
udp_destination address port = record { network = udp; address = address; port = port }

unfoldable pub is_valid : Destination → Bool
is_valid d = elim d.network [ unknown ↦ false | _ ↦ true ]

-- The codec.

pub data Family : Type 0 where
  vless_vmess standard : Family

pub data PortOrder : Type 0 where
  port_first port_last : PortOrder

pub data Kind : Type 0 where
  ipv4 ipv6 name : Kind

unfoldable pub kind : Family → ℕ → Option Kind
kind vless_vmess b =
    if b == 1 then some ipv4 else if b == 2 then some name else if b == 3 then some ipv6 else none
kind standard b =
    if b == 1 then some ipv4 else if b == 3 then some name else if b == 4 then some ipv6 else none

unfoldable pub byte_for : Family → Address → ℕ
byte_for vless_vmess (ip (v4 _)) = 1
byte_for vless_vmess (domain _) = 2
byte_for vless_vmess (ip (v6 _)) = 3
byte_for standard (ip (v4 _)) = 1
byte_for standard (domain _) = 3
byte_for standard (ip (v6 _)) = 4

pub record AddrCodec : Type 0 where
  pub family : Family
  pub order : PortOrder
  pub mask : Bool

abbrev pub vless_codec : AddrCodec
vless_codec = record { family = vless_vmess; order = port_first; mask = false }

abbrev pub vmess_codec : AddrCodec
vmess_codec = vless_codec

abbrev pub trojan_codec : AddrCodec
trojan_codec = record { family = standard; order = port_last; mask = false }

abbrev pub socks_codec : AddrCodec
socks_codec = trojan_codec

abbrev pub shadowsocks_codec : AddrCodec
shadowsocks_codec = record { family = standard; order = port_last; mask = true }

abbrev pub is_domain_byte : ℕ → Bool
is_domain_byte c = is_ascii_alphanumeric c || c == b'-' || c == b'.' || c == b'_'

unfoldable pub is_valid_domain : List ℕ → Bool
is_valid_domain d = not (length d == 0) && all is_domain_byte d

-- The domain's first character looks like an address, so it is tried as one.
abbrev looks_like_ip : List ℕ → Bool
looks_like_ip [] = false
looks_like_ip (first ∷ _) = first == b'[' || is_ascii_digit first

-- What becomes of the bytes of a domain field.
unfoldable pub domain_address : List ℕ → Result Error Address
domain_address b =
    if is_utf8 b
    then if looks_like_ip b && is_ip (parse_address b)
      then ok (parse_address b)
      else if is_valid_domain b
      then ok (domain b)
      else err bad_domain
    else err bad_domain

-- A step that reads no bytes.
abbrev pub lift : {A : Type 0} → Result Error A → Decoder A
lift (ok a) = pure a
lift (err e) = fail e

unfoldable pub read_domain : Decoder Address
read_domain = do
  len ← take_u8
  if len == 0 then fail bad_domain else (take_bytes len >>= λ b. lift (domain_address b))

unfoldable pub read_kind : Kind → Decoder Address
read_kind ipv4 = do b ← take_bytes 4; lift (from_ip_bytes b)
read_kind ipv6 = do b ← take_bytes 16; lift (from_ip_bytes b)
read_kind name = read_domain

abbrev pub masked : AddrCodec → ℕ → ℕ
masked c t = if c.mask then bit_and t 0x0F else t

unfoldable pub read_address : AddrCodec → Decoder Address
read_address c = do
  t ← take_u8
  k ← lift (ok_or (kind c.family (masked c t)) (bad_address_type (masked c t)))
  read_kind k

read_in : PortOrder → AddrCodec → Decoder (Address × ℕ)
read_in port_first c = do port ← read_port; addr ← read_address c; pure (addr, port)
read_in port_last c = do addr ← read_address c; port ← read_port; pure (addr, port)

-- `AddrCodec::read`
unfoldable pub read : AddrCodec → Decoder (Address × ℕ)
unfolding read_in
read c = read_in c.order c

-- `BufMut::put_u16`
abbrev pub put_u16 : ℕ → List ℕ
put_u16 n = (n / 256 % 256) ∷ (n % 256) ∷ []

unfoldable pub write_address : AddrCodec → Address → Result Error (List ℕ)
write_address c (ip (v4 a)) = ok (byte_for c.family (ip (v4 a)) ∷ a)
write_address c (ip (v6 a)) = ok (byte_for c.family (ip (v6 a)) ∷ a)
write_address c (domain d) =
    if ltb (length d) 256 then ok (byte_for c.family (domain d) ∷ length d ∷ d) else err bad_domain

abbrev in_order : PortOrder → (port addr : List ℕ) → List ℕ
in_order port_first port addr = port ++ addr
in_order port_last port addr = addr ++ port

-- `AddrCodec::write`, as the bytes that it puts. (What it put before an error is thrown away.)
unfoldable pub write : AddrCodec → Address → ℕ → Result Error (List ℕ)
write c addr port = elim (write_address c addr) [
  | err e ↦ err e
  | ok a ↦ ok (in_order c.order (put_u16 port) a)
]
