-- ===== src/Proxy/Outbound.antt =====
-- proxy/src/outbound.rs: the outbounds and how they are made. What they do with a stream is not modelled.
use xray_rs.Base.{ℕ, none, some, List, String}
use xray_rs.Base.Result.{Result, ok, err}
use xray_rs.Kernel.Net.{Address, Destination, tcp_destination}
use xray_rs.Proxy.Crypto.{AeadKind, key_size, evp_bytes_to_key}
use xray_rs.Proxy.Shadowsocks.{method_kind}

pub record SsOutbound : Type 0 where
  pub server : Destination
  pub kind : AeadKind
  pub master : List ℕ

pub record SocksOutbound : Type 0 where
  pub server : Destination
  pub username : List ℕ
  pub password : List ℕ

pub data Outbound : Type 0 where
  freedom blackhole : Outbound
  shadowsocks : SsOutbound → Outbound
  socks : SocksOutbound → Outbound

-- `SsOutbound::new`
unfoldable pub new_ss :
    (md5 : List ℕ → List ℕ) → Address → ℕ → (password cipher : List ℕ) → Result String SsOutbound
new_ss md5 server port password cipher = elim (method_kind cipher) [
  | none ↦ err "unsupported shadowsocks cipher"
  | some kind ↦ ok (record {
    server = tcp_destination server port;
    kind = kind;
    master = evp_bytes_to_key md5 password (key_size kind);
  })
]

-- `SocksOutbound::new`
abbrev pub new_socks : Address → ℕ → (username password : List ℕ) → SocksOutbound
new_socks server port username password = record {
  server = tcp_destination server port;
  username = username;
  password = password;
}
