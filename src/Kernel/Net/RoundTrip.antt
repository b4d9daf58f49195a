-- ===== src/Kernel/Net/RoundTrip.antt =====
-- What the address codec writes it reads back.
use xray_rs.Base.{
  ℕ, ◌+◌, ◌*◌, ◌/◌, ◌%◌, ◌<◌, ◌≡◌, refl, ◌∙◌, Bool, true, false, none, some, List, [], ◌∷◌, ◌++◌,
  arith, bit_and, append_assoc, length, ◌==◌, if◌then◌else◌, ltb, lt→ltb, all,
}
use xray_rs.Base.Result.{Result, ok, ◌>>=◌, >>=-ok}
use xray_rs.Base.Text.{is_utf8-ascii}
use xray_rs.Kernel.Error.{Error}
use xray_rs.Kernel.Cursor.{take_u8, read_port, take_bytes, take_bytes-front}
use xray_rs.Kernel.Net.{
  v4, v6, Address, ip, domain, is_ip, parse_address, is_valid_domain, is_domain_byte,
  to_ipv4_mapped, from_ip_bytes, domain_address, AddrCodec, PortOrder, read_in, port_first,
  port_last, Family, vless_vmess, standard, Kind, ipv4, ipv6, name, lift, kind, byte_for, masked,
  read_domain, read_kind, read_address, read, write_address, write, in_order, put_u16,
}

-- The addresses that the codec can carry as they are: an IPv6 address that is no IPv4 address in
-- disguise, and a domain of 1 to 255 letters, digits, `-`, `.` and `_` that is no address.
abbrev pub IsPlain : Address → Type 0
IsPlain (ip (v4 a)) = length a ≡ 4
IsPlain (ip (v6 a)) = (length a ≡ 16) × (to_ipv4_mapped a ≡ none)
IsPlain (domain d) =
    (length d < 256) × (is_valid_domain d ≡ true) × (is_ip (parse_address d) ≡ false)

pub read_port-put_u16 :
    (port : ℕ) (rest : List ℕ) → port < 65536 → read_port (put_u16 port ++ rest) ≡ ok (port, rest)
unfolding read_port
read_port-put_u16 port rest h =
    let e : port / 256 % 256 * 256 + port % 256 ≡ port = omega arith in rw e

pub all-imp :
    (p q : ℕ → Bool) (s : List ℕ)
    → ((c : ℕ) → p c ≡ true → q c ≡ true)
    → all p s ≡ true
    → all q s ≡ true
all-imp p q [] imp h = refl
all-imp p q (c ∷ s) imp h = ground (arith, imp c, all-imp p q s imp)

pub valid→ascii : (d : List ℕ) → is_valid_domain d ≡ true → all (λ c. ltb c 128) d ≡ true
unfolding is_valid_domain
valid→ascii d h = all-imp is_domain_byte (λ c. ltb c 128) d (λ c e. ground arith) (ground arith)

domain_address-plain : (d : List ℕ) → IsPlain (domain d) → domain_address d ≡ ok (domain d)
unfolding domain_address
domain_address-plain d (_, valid, other) = rw (is_utf8-ascii d (valid→ascii d valid)) (ground arith)

abbrev kind_of : Address → Kind
kind_of (ip (v4 _)) = ipv4
kind_of (ip (v6 _)) = ipv6
kind_of (domain _) = name

-- The type byte that is written is read as the kind of the address, masked or not.
kind-byte_for :
    (f : Family) (mask : Bool) (a : Address)
    → kind f (if mask then bit_and (byte_for f a) 0x0F else byte_for f a) ≡ some (kind_of a)
unfolding kind byte_for
kind-byte_for vless_vmess true (ip (v4 _)) = refl
kind-byte_for vless_vmess true (ip (v6 _)) = refl
kind-byte_for vless_vmess true (domain _) = refl
kind-byte_for vless_vmess false (ip (v4 _)) = refl
kind-byte_for vless_vmess false (ip (v6 _)) = refl
kind-byte_for vless_vmess false (domain _) = refl
kind-byte_for standard true (ip (v4 _)) = refl
kind-byte_for standard true (ip (v6 _)) = refl
kind-byte_for standard true (domain _) = refl
kind-byte_for standard false (ip (v4 _)) = refl
kind-byte_for standard false (ip (v6 _)) = refl
kind-byte_for standard false (domain _) = refl

read_address_lem :
    (c : AddrCodec) (b : ℕ) (more : List ℕ) {k : Kind}
    → kind c.family (masked c b) ≡ some k
    → read_address c (b ∷ more) ≡ read_kind k more
unfolding read_address take_u8
read_address_lem c b more h = rw h

read_kind-front :
    (n : ℕ) (f : List ℕ → Result Error Address) (bs rest : List ℕ) {a : Address}
    → length bs ≡ n
    → f bs ≡ ok a
    → (take_bytes n >>= λ b. lift (f b)) (bs ++ rest) ≡ ok (a, rest)
read_kind-front n f bs rest e h =
    >>=-ok (take_bytes n) _ _ {a = bs} {rest = rest} (rw (← e) (take_bytes-front bs rest))
    ∙ rw (h, lift)

read_kind-v4 : (a rest : List ℕ) → length a ≡ 4 → read_kind ipv4 (a ++ rest) ≡ ok (ip (v4 a), rest)
unfolding read_kind from_ip_bytes
read_kind-v4 a rest h = read_kind-front 4 from_ip_bytes a rest h (ground arith)

read_kind-v6 :
    (a rest : List ℕ)
    → length a ≡ 16
    → to_ipv4_mapped a ≡ none
    → read_kind ipv6 (a ++ rest) ≡ ok (ip (v6 a), rest)
unfolding read_kind from_ip_bytes
read_kind-v6 a rest h k = read_kind-front 16 from_ip_bytes a rest h (ground arith)

valid→nonempty : (d : List ℕ) → is_valid_domain d ≡ true → (length d == 0) ≡ false
unfolding is_valid_domain
valid→nonempty d h = ground arith

read_kind-domain :
    (d rest : List ℕ)
    → IsPlain (domain d)
    → read_kind name (length d ∷ (d ++ rest)) ≡ ok (domain d, rest)
unfolding read_kind read_domain take_u8
read_kind-domain d rest h =
    rw (valid→nonempty d h.1)
      (read_kind-front (length d) domain_address d rest refl (domain_address-plain d h))

read_address-write_address :
    (c : AddrCodec) (a : Address) (rest : List ℕ)
    → IsPlain a
    → (bs : List ℕ) × (write_address c a ≡ ok bs) × (read_address c (bs ++ rest) ≡ ok (a, rest))
unfolding write_address
read_address-write_address c (ip (v4 a)) rest h = (
  _,
  refl,
  read_address_lem c _ _ (kind-byte_for c.family c.mask (ip (v4 a))) ∙ read_kind-v4 a rest h,
)
read_address-write_address c (ip (v6 a)) rest (h, k) = (
  _,
  refl,
  read_address_lem c _ _ (kind-byte_for c.family c.mask (ip (v6 a))) ∙ read_kind-v6 a rest h k,
)
read_address-write_address c (domain d) rest h = (
  byte_for c.family (domain d) ∷ length d ∷ d,
  rw (lt→ltb _ _ h.0),
  read_address_lem c _ _ (kind-byte_for c.family c.mask (domain d)) ∙ read_kind-domain d rest h,
)

read_in-port_first :
    (c : AddrCodec) (a : Address) (port : ℕ) (bs rest : List ℕ)
    → port < 65536
    → read_address c (bs ++ rest) ≡ ok (a, rest)
    → read_in port_first c (put_u16 port ++ (bs ++ rest)) ≡ ok ((a, port), rest)
unfolding read_in
read_in-port_first c a port bs rest h e =
    >>=-ok read_port _ _ (read_port-put_u16 port (bs ++ rest) h) ∙ >>=-ok (read_address c) _ _ e

read_in-port_last :
    (c : AddrCodec) (a : Address) (port : ℕ) (bs rest : List ℕ)
    → port < 65536
    → read_address c (bs ++ (put_u16 port ++ rest)) ≡ ok (a, put_u16 port ++ rest)
    → read_in port_last c (bs ++ (put_u16 port ++ rest)) ≡ ok ((a, port), rest)
unfolding read_in
read_in-port_last c a port bs rest h e =
    >>=-ok (read_address c) _ _ e ∙ >>=-ok read_port _ _ (read_port-put_u16 port rest h)

read_in-in_order :
    (o : PortOrder) (c : AddrCodec) (a : Address) (port : ℕ) (rest : List ℕ)
    → IsPlain a
    → port < 65536
    → (bs : List ℕ) × (write_address c a ≡ ok bs)
      × (read_in o c (in_order o (put_u16 port) bs ++ rest) ≡ ok ((a, port), rest))
read_in-in_order port_first c a port rest plain h =
    let (bs, w, r) = read_address-write_address c a rest plain in
    (bs, w, rw append_assoc (read_in-port_first c a port bs rest h r))
read_in-in_order port_last c a port rest plain h =
    let (bs, w, r) = read_address-write_address c a (put_u16 port ++ rest) plain in
    (bs, w, rw append_assoc (read_in-port_last c a port bs rest h r))

-- Every codec reads back the address and the port that it wrote, and leaves what follows them: for
-- a port of 16 bits and an address that the codec carries as it is.
pub read-write :
    (c : AddrCodec) (a : Address) (port : ℕ) (rest : List ℕ)
    → IsPlain a
    → port < 65536
    → (bs : List ℕ) × (write c a port ≡ ok bs) × (read c (bs ++ rest) ≡ ok ((a, port), rest))
unfolding read write
read-write c a port rest plain h =
    let (bs, w, r) = read_in-in_order c.order c a port rest plain h in
    (in_order c.order (put_u16 port) bs, rw (w, write), r)

-- The same of the bytes that were written.
pub read_written :
    (c : AddrCodec) (a : Address) (port : ℕ) (head rest : List ℕ)
    → IsPlain a
    → port < 65536
    → write c a port ≡ ok head
    → read c (head ++ rest) ≡ ok ((a, port), rest)
read_written c a port head rest plain h w =
    let (bs, written, r) = read-write c a port rest plain h in
    let same : bs ≡ head = cc (written, w) in rw (← same) r
