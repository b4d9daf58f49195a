-- ===== src/Kernel/Net/Stream.antt =====
-- The address codec on a stream: a decoder that may be called again once more input has come.
use xray_rs.Base.{◌≡◌, Option, none, some, ℕ, List, ◌==◌}
use xray_rs.Base.Result.{Result, ok, err, ok_or}
use xray_rs.Kernel.Error.{Error, bad_domain}
use xray_rs.Kernel.Cursor.{
  IsStream, pure-IsStream, fail-IsStream, bind-IsStream, if-IsStream, take_u8-IsStream,
  take_bytes-IsStream, read_port-IsStream,
}
use xray_rs.Kernel.Net.{
  AddrCodec, PortOrder, read_in, port_first, port_last, Kind, ipv4, ipv6, name, lift, from_ip_bytes,
  domain_address, read_domain, read_kind, read_address, read,
}

pub lift-IsStream : {A : Type 0} (r : Result Error A) → IsStream (lift r)
lift-IsStream (ok a) = pure-IsStream a
lift-IsStream (err e) = fail-IsStream e

read_domain-IsStream : IsStream read_domain
unfolding read_domain
read_domain-IsStream = bind-IsStream take_u8-IsStream λ len.
    if-IsStream (len == 0) (fail-IsStream bad_domain)
      (bind-IsStream (take_bytes-IsStream len) λ b. lift-IsStream (domain_address b))

read_kind-IsStream : (k : Kind) → IsStream (read_kind k)
unfolding read_kind
read_kind-IsStream ipv4 = bind-IsStream (take_bytes-IsStream 4) λ b. lift-IsStream (from_ip_bytes b)
read_kind-IsStream ipv6 =
    bind-IsStream (take_bytes-IsStream 16) λ b. lift-IsStream (from_ip_bytes b)
read_kind-IsStream name = read_domain-IsStream

pub read_address-IsStream : (c : AddrCodec) → IsStream (read_address c)
unfolding read_address
read_address-IsStream c =
    bind-IsStream take_u8-IsStream λ t. bind-IsStream (lift-IsStream _) λ k. read_kind-IsStream k

read_in-IsStream : (o : PortOrder) (c : AddrCodec) → IsStream (read_in o c)
unfolding read_in
read_in-IsStream port_first c =
    bind-IsStream read_port-IsStream
      λ port. bind-IsStream (read_address-IsStream c) λ addr. pure-IsStream (addr, port)
read_in-IsStream port_last c =
    bind-IsStream (read_address-IsStream c)
      λ addr. bind-IsStream read_port-IsStream λ port. pure-IsStream (addr, port)

-- What the codec has read from a front of a stream stands, and what it has refused stays refused.
pub read-IsStream : (c : AddrCodec) → IsStream (read c)
unfolding read
read-IsStream c = read_in-IsStream c.order c

pub lift-inv :
    {A : Type 0} (r : Result Error A) (buf : List ℕ) {a : A} {rest : List ℕ}
    → lift r buf ≡ ok (a, rest)
    → (r ≡ ok a) × (rest ≡ buf)
lift-inv (ok a) buf h = (cc, cc)
lift-inv (err e) buf h = cc

pub ok_or-inv {ℓ κ} :
    {E : Type ℓ} {A : Type κ} (o : Option A) (e : E) {a : A} → ok_or o e ≡ ok a → o ≡ some a
ok_or-inv none e h = cc
ok_or-inv (some a) e h = cc
