-- ===== src/Proxy/Mux.antt =====
-- proxy/src/mux.rs: the mux.cool demultiplexer. This file has the frames; `Demux` has the loop.
pub mod Demux
pub mod Frames
use xray_rs.Base.{
  ℕ, ◌+◌, ◌*◌, Bool, false, ◌&&◌, ◌||◌, Option, none, some, List, [], ◌∷◌, ◌++◌, ltb, ◌==◌,
  if◌then◌else◌, length,
}
use xray_rs.Base.Result.{Result, ok, err}
use xray_rs.Kernel.Net.{Network, tcp, udp, Address, Destination, read, write, put_u16, vless_codec}

abbrev pub st_new : ℕ
st_new = 1

abbrev pub st_keep : ℕ
st_keep = 2

abbrev pub st_end : ℕ
st_end = 3

abbrev pub st_keepalive : ℕ
st_keepalive = 4

abbrev pub opt_data : ℕ
opt_data = 1

abbrev pub net_tcp : ℕ
net_tcp = 1

abbrev pub net_udp : ℕ
net_udp = 2

abbrev pub max_meta : ℕ
max_meta = 512

abbrev pub max_data : ℕ
max_data = 8192

pub record Meta : Type 0 where
  pub sid : ℕ
  pub status : ℕ
  pub option : ℕ
  pub target : Option Destination

abbrev network_of : ℕ → Option Network
network_of b = if b == net_tcp then some tcp else if b == net_udp then some udp else none

abbrev with_target : ℕ → Address → ℕ → Option Destination
with_target network address port = elim (network_of network) [
  | none ↦ none
  | some net ↦ some (record { network = net; address = address; port = port })
]

-- The network byte and the address behind it.
unfoldable pub parse_target : List ℕ → Option Destination
parse_target [] = none
parse_target (network ∷ b) = elim (read vless_codec b) [
  | err e ↦ none
  | ok ((address, port), _) ↦ with_target network address port
]

abbrev first_is : ℕ → List ℕ → Bool
first_is b [] = false
first_is b (c ∷ _) = c == b

unfoldable pub parse_meta : List ℕ → Option Meta
parse_meta (hi ∷ lo ∷ status ∷ option ∷ rest) =
    let sid = hi * 256 + lo in
    if status == st_new || (status == st_keep && first_is net_udp rest)
    then elim (parse_target rest) [
      | none ↦ none
      | some t ↦ some (record { sid = sid; status = status; option = option; target = some t })
    ]
    else some (record { sid = sid; status = status; option = option; target = none })
parse_meta _ = none

-- The frames to the client. A run of data that 16 bits cannot count is sent with the length 0.
unfoldable pub frame_keep_tcp : ℕ → List ℕ → List ℕ
frame_keep_tcp sid data_bytes =
    let len = if ltb (length data_bytes) 65536 then length data_bytes else 0 in
    put_u16 4 ++ (put_u16 sid ++ (st_keep ∷ opt_data ∷ (put_u16 len ++ data_bytes)))

abbrev keep_udp_meta : ℕ → List ℕ → List ℕ
keep_udp_meta sid addr = put_u16 sid ++ (st_keep ∷ opt_data ∷ net_udp ∷ addr)

unfoldable pub frame_keep_udp : ℕ → Destination → List ℕ → Option (List ℕ)
frame_keep_udp sid target data_bytes = elim (write vless_codec target.address target.port) [
  | err e ↦ none
  | ok addr ↦
      let meta = keep_udp_meta sid addr in
      if ltb (length meta) 65536 && ltb (length data_bytes) 65536
      then some (put_u16 (length meta) ++ (meta ++ (put_u16 (length data_bytes) ++ data_bytes)))
      else none
]

unfoldable pub frame_end : ℕ → List ℕ
frame_end sid = put_u16 4 ++ (put_u16 sid ++ (st_end ∷ 0 ∷ []))
