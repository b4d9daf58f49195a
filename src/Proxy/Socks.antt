-- ===== src/Proxy/Socks.antt =====
-- proxy/src/socks.rs: the SOCKS5 handshake, its replies and its datagrams. The connection is the
-- bytes that the client sends before it ends its side; what is written is a list of messages.
pub mod Handshake
pub mod Accept
pub mod Datagram
use xray_rs.Base.{
  ℕ, ◌+◌, ◌*◌, ◌<◌, Bool, true, false, ◌&&◌, ◌||◌, not, Option, none, some, List, [], ◌∷◌, ◌++◌,
  ltb, ◌==◌, if◌then◌else◌, length, drop, any, eq_bytes,
}
use xray_rs.Base.Result.{Result, ok, err}
use xray_rs.Kernel.Error.{
  Error, IoError, message, wrapped, invalid_data, unexpected_eof, permission_denied,
}
use xray_rs.Kernel.Cursor.{take_u8, take_bytes}
use xray_rs.Kernel.Net.{Address, Destination, udp_destination, read, write, put_u16, socks_codec}

abbrev pub version5 : ℕ
version5 = 5

abbrev pub auth_version : ℕ
auth_version = 1

abbrev pub auth_none : ℕ
auth_none = 0

abbrev pub auth_password : ℕ
auth_password = 2

abbrev pub auth_no_match : ℕ
auth_no_match = 255

abbrev pub rep_success : ℕ
rep_success = 0

abbrev pub rep_cmd_not_supported : ℕ
rep_cmd_not_supported = 7

pub record SocksAccount : Type 0 where
  pub username : List ℕ
  pub password : List ℕ

-- `Socks::account_for`
unfoldable pub account_for : List SocksAccount → (user pass : List ℕ) → Option SocksAccount
account_for [] user pass = none
account_for (a ∷ accounts) user pass =
    if eq_bytes a.username user && eq_bytes a.password pass
    then some a
    else account_for accounts user pass

-- A step of the handshake: the result, the bytes that are left, and what was written, the last
-- message first.
pub record Conn : Type 0 where
  pub input : List ℕ
  pub written : List (List ℕ)

abbrev pub Step : Type 0 → Type 0
Step A = Conn → Result IoError A × Conn

module _ {A : Type 0} where
  abbrev pub done : A → Step A
  done a c = (ok a, c)

  abbrev pub refuse : IoError → Step A
  refuse e c = (err e, c)

abbrev pub next : {A B : Type 0} → (A → Step B) → Result IoError A → Step B
next f (ok a) c = f a c
next f (err e) c = (err e, c)

infixl 5 ◌>>=◌ ◌>>◌
abbrev pub ◌>>=◌ : {A B : Type 0} → Step A → (A → Step B) → Step B
◌>>=◌ m f c = next f (m c).0 (m c).1

abbrev pub ◌>>◌ : {A B : Type 0} → Step A → Step B → Step B
m >> k = m >>= λ _. k

-- `read_u8`, `read_exact` and `write_all`. A read past the end has used up what there was.
unfoldable pub read_u8 : Step ℕ
read_u8 c = elim c.input [
  | [] ↦ (err (message unexpected_eof "early eof"), c)
  | b ∷ rest ↦ (ok b, record c { input = rest })
]

unfoldable pub read_exact : ℕ → Step (List ℕ)
read_exact n c = elim (take_bytes n c.input) [
  | ok (bs, rest) ↦ (ok bs, record c { input = rest })
  | err _ ↦ (err (message unexpected_eof "early eof"), record c { input = [] })
]

unfoldable pub write_all : List ℕ → Step (Unit {0})
write_all bs c = (ok tt, record c { written = bs ∷ c.written })

abbrev pub expected_method : List SocksAccount → ℕ
expected_method [] = auth_none
expected_method (_ ∷ _) = auth_password

-- The bytes of an address behind its type byte, and the whole read by the codec.
unfoldable pub raw_address : ℕ → Step (List ℕ)
raw_address atyp =
    if atyp == 1
    then (read_exact 6 >>= λ b. done (atyp ∷ b))
    else if atyp == 4
    then (read_exact 18 >>= λ b. done (atyp ∷ b))
    else if atyp == 3
    then (read_u8 >>= λ len. (read_exact (len + 2) >>= λ b. done (atyp ∷ len ∷ b)))
    else refuse (message invalid_data "socks: bad address type")

unfoldable pub decode_address : List ℕ → Step (Address × ℕ)
decode_address raw c = elim (read socks_codec raw) [
  | ok (p, _) ↦ (ok p, c)
  | err e ↦ (err (wrapped invalid_data e), c)
]

unfoldable pub read_addr : Step (Address × ℕ)
read_addr = do atyp ← read_u8; raw ← raw_address atyp; decode_address raw

unfoldable pub admit : Option SocksAccount → Step (Unit {0})
admit none = do
  write_all (auth_version ∷ 1 ∷ [])
  refuse (message permission_denied "socks: auth failed")
admit (some _) = write_all (auth_version ∷ 0 ∷ [])

unfoldable pub credentials : List SocksAccount → Step (Unit {0})
credentials accounts = do
  ulen ← read_u8
  uname ← read_exact ulen
  plen ← read_u8
  passwd ← read_exact plen
  admit (account_for accounts uname passwd)

-- The sub-negotiation of a user and a password.
unfoldable pub login : List SocksAccount → Step (Unit {0})
login accounts = do
  uver ← read_u8
  if uver == auth_version
      then credentials accounts
      else refuse (message invalid_data "socks: bad auth version")

-- The request behind its version.
unfoldable pub command : Step (ℕ × (Address × ℕ))
command = do cmd ← read_u8; _ ← read_u8; a ← read_addr; done (cmd, a)

unfoldable pub request : Step (ℕ × (Address × ℕ))
request = do
  rver ← read_u8
  if rver == version5 then command else refuse (message invalid_data "socks: bad request version")

unfoldable pub choose_method : ℕ → List ℕ → Step (Unit {0})
choose_method expected methods =
    if any (λ m. m == expected) methods
    then write_all (version5 ∷ expected ∷ [])
    else (write_all (version5 ∷ auth_no_match ∷ [])
        >> refuse (message invalid_data "socks: no acceptable auth method"))

-- The methods that the client offers.
unfoldable pub offer : List SocksAccount → Step (Unit {0})
offer accounts = do
  nmethods ← read_u8
  methods ← read_exact nmethods
  choose_method (expected_method accounts) methods

unfoldable pub greeting : List SocksAccount → Step (Unit {0})
greeting accounts = do
  ver ← read_u8
  if ver == version5
      then offer accounts
      else refuse (message invalid_data "socks: unsupported version")

-- `Socks::handshake`
unfoldable pub handshake : List SocksAccount → Step (ℕ × (Address × ℕ))
handshake accounts = do
  greeting accounts
  if expected_method accounts == auth_password then login accounts else done tt
  request

-- `write_reply` and `write_reply_port`, as the bytes.
abbrev pub reply : ℕ → ℕ → List ℕ
reply rep port = version5 ∷ rep ∷ 0 ∷ 1 ∷ 0 ∷ 0 ∷ 0 ∷ 0 ∷ put_u16 port

-- Datagrams.

-- A datagram that is whole: two bytes that nothing reads, and no fragment.
unfoldable pub decode_socks_udp : List ℕ → Option (Destination × List ℕ)
decode_socks_udp (_ ∷ _ ∷ frag ∷ b) =
    if frag == 0
    then elim (read socks_codec b) [
      | err e ↦ none
      | ok ((address, port), rest) ↦ some (udp_destination address port, rest)
    ]
    else none
decode_socks_udp _ = none

unfoldable pub encode_socks_udp : Destination → List ℕ → Option (List ℕ)
encode_socks_udp target payload = elim (write socks_codec target.address target.port) [
  | err e ↦ none
  | ok addr ↦ some (0 ∷ 0 ∷ 0 ∷ (addr ++ payload))
]
