-- ===== src/Proxy/Vmess/Header.antt =====
-- proxy/src/vmess/header.rs: the request header of a VMess flow.
pub mod Encoded
use xray_rs.Base.{
  ℕ, zero, suc, ◌+◌, ◌-◌, ◌*◌, ◌/◌, ◌%◌, Bool, true, false, Option, none, some, List, [], ◌∷◌, ◌++◌,
  ltb, ◌==◌, if◌then◌else◌, length, take, drop, bit_and,
}
use xray_rs.Base.Result.{Result, ok, err}
use xray_rs.Kernel.Error.{Error, protocol, auth}
use xray_rs.Kernel.Net.{
  Network, tcp, udp, Address, ip, v4, Destination, tcp_destination, read, vmess_codec,
}
use xray_rs.Proxy.Vmess.Users.{from_be_bytes}
use xray_rs.Proxy.Vmess.Kdf.{fnv1a}

abbrev pub cmd_tcp : ℕ
cmd_tcp = 1

abbrev pub cmd_udp : ℕ
cmd_udp = 2

abbrev pub cmd_mux : ℕ
cmd_mux = 3

pub record Request : Type 0 where
  pub dest : Destination
  pub req_key : List ℕ
  pub req_iv : List ℕ
  pub resp_header : ℕ
  pub options : ℕ
  pub security : ℕ
  pub mux : Bool
  pub email : List ℕ

-- The request of the fields at fixed places.
abbrev pub fixed_request : List ℕ → (resp options padsec : ℕ) → Destination → Bool → Request
fixed_request fixed resp options padsec dest mux = record {
  dest = dest;
  req_key = take 16 (drop 17 fixed);
  req_iv = take 16 (drop 1 fixed);
  resp_header = resp;
  options = options;
  security = bit_and padsec 0x0f;
  mux = mux;
  email = [];
}

abbrev pub network_of : ℕ → Option Network
network_of cmd = if cmd == cmd_tcp then some tcp else if cmd == cmd_udp then some udp else none

-- The address behind the fixed fields.
unfoldable pub with_address :
    List ℕ → (resp options padsec cmd : ℕ) → (behind : List ℕ) → Result Error Request
with_address fixed resp options padsec cmd behind = elim (network_of cmd) [
  | none ↦ err (protocol "vmess command")
  | some network ↦ elim (read vmess_codec behind) [
    | err e ↦ err e
    | ok ((address, port), left) ↦ ok (
        fixed_request fixed resp options padsec
          (record { network = network; address = address; port = port }) false)
  ]
]

-- The fields from the 33rd byte on.
unfoldable pub parse_fields : List ℕ → List ℕ → (behind : List ℕ) → Result Error Request
parse_fields fixed (resp ∷ options ∷ padsec ∷ reserved ∷ cmd ∷ _) behind =
    if cmd == cmd_mux
    then ok (
        fixed_request fixed resp options padsec (tcp_destination (ip (v4 (127 ∷ 0 ∷ 0 ∷ 1 ∷ []))) 0)
          true)
    else with_address fixed resp options padsec cmd behind
parse_fields fixed _ behind = err (protocol "cmd")

unfoldable pub parse_version : List ℕ → Result Error Request
parse_version [] = err (protocol "ver")
parse_version (version ∷ header) =
    if version == 1
    then parse_fields (take 38 (version ∷ header)) (drop 33 (take 38 (version ∷ header)))
        (drop 38 (version ∷ header))
    else err (protocol "vmess version")

unfoldable pub parse_header : List ℕ → Result Error Request
parse_header header =
    if ltb (length header) 38
    then err (protocol "vmess header short")
    else let body_len = length header - 4 in
      if fnv1a (take body_len header) == from_be_bytes 0 (drop body_len header)
      then parse_version header
      else err auth
