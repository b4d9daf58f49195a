-- ===== src/Proxy/Shadowsocks.antt =====
-- proxy/src/shadowsocks.rs: users, the decoder of a flow, the chunks and the datagrams. HKDF, MD5 and
-- the making of a keyed cipher are parameters. A connection is the bytes up to its end, and the salt
-- of an answer an argument.
pub mod Chunks
pub mod Decode
pub mod Flow
pub mod Datagram
use xray_rs.Base.{
  ℕ, zero, suc, ◌+◌, ◌-◌, ◌*◌, ◌/◌, ◌%◌, ◌^◌, ◌≡◌, Bool, true, false, ◌||◌, Option, none, some,
  List, [], ◌∷◌, ◌++◌, ltb, leb, ◌==◌, if◌then◌else◌, length, take, drop, replicate, chunks, map,
  eq_bytes,
}
use xray_rs.Base.Text.{bytes}
use xray_rs.Base.Result.{Result, ok, err}
use xray_rs.Kernel.Error.{Error, IoError, message, wrapped, invalid_data, unexpected_eof, other}
use xray_rs.Kernel.Net.{
  put_u16, Address, Destination, tcp_destination, udp_destination, read, write, shadowsocks_codec,
}
use xray_rs.Proxy.Crypto.{
  AeadKind, aes128_gcm, aes256_gcm, chacha20_poly1305, xchacha20_poly1305, key_size, nonce_size,
  Cipher, tag, seal, open_sealed, NonceCtr, new_nonce, nonce_bytes, inc, evp_bytes_to_key,
}
use xray_rs.Proxy.Framed.{ChunkRead, ChunkWrite}

abbrev pub max_chunk : ℕ
max_chunk = 0x3fff

abbrev subkey_info : List ℕ
subkey_info = bytes "ss-subkey"

unfoldable pub method_kind : List ℕ → Option AeadKind
method_kind name =
    if eq_bytes name (bytes "aes-128-gcm") || eq_bytes name (bytes "AEAD_AES_128_GCM")
    then some aes128_gcm
    else if eq_bytes name (bytes "aes-256-gcm") || eq_bytes name (bytes "AEAD_AES_256_GCM")
    then some aes256_gcm
    else if eq_bytes name (bytes "chacha20-ietf-poly1305")
        || eq_bytes name (bytes "chacha20-poly1305")
        || eq_bytes name (bytes "AEAD_CHACHA20_POLY1305")
    then some chacha20_poly1305
    else if eq_bytes name (bytes "xchacha20-ietf-poly1305")
        || eq_bytes name (bytes "xchacha20-poly1305")
    then some xchacha20_poly1305
    else none

pub record SsUser : Type 0 where
  pub master : List ℕ
  pub email : List ℕ
  pub level : ℕ

-- `build_ss_users`, of passwords, emails and levels.
abbrev pub build_ss_users :
    (md5 : List ℕ → List ℕ) → AeadKind → List (List ℕ × List ℕ × ℕ) → List SsUser
build_ss_users md5 kind = map (λ (p : List ℕ × List ℕ × ℕ). record {
  master = evp_bytes_to_key md5 p.0 (key_size kind);
  email = p.1;
  level = p.2;
})

-- The inbound: its method and its table, which `set_users` replaces.
pub record Shadowsocks : Type 0 where
  pub kind : AeadKind
  pub users : List SsUser

abbrev pub new : (md5 : List ℕ → List ℕ) → AeadKind → List (List ℕ × List ℕ × ℕ) → Shadowsocks
new md5 kind users = record { kind = kind; users = build_ss_users md5 kind users }

abbrev pub set_users :
    (md5 : List ℕ → List ℕ) → List (List ℕ × List ℕ × ℕ) → Shadowsocks → Shadowsocks
set_users md5 users s = record s { users = build_ss_users md5 s.kind users }

unfoldable pub chunk_len : List ℕ → Result IoError ℕ
chunk_len (hi ∷ lo ∷ _) = ok (hi * 256 + lo)
chunk_len _ = err (message invalid_data "len")

-- `SsChunks`
pub record SsChunks : Type 0 where
  pub aead : Cipher
  pub nonce : NonceCtr

-- `aead.open(nonce.bytes(), …)` and then `nonce.inc()`.
unfoldable pub open_next : List ℕ → SsChunks → Result IoError (List ℕ × SsChunks)
open_next ct s = elim (open_sealed s.aead (nonce_bytes s.nonce) ct) [
  | err e ↦ err (wrapped invalid_data e)
  | ok plain ↦ ok (plain, record s { nonce = inc s.nonce })
]

unfoldable pub seal_next : List ℕ → SsChunks → Result IoError (List ℕ × SsChunks)
seal_next plain s = elim (seal s.aead (nonce_bytes s.nonce) plain) [
  | err e ↦ err (wrapped other e)
  | ok ct ↦ ok (ct, record s { nonce = inc s.nonce })
]

-- The text of a chunk whose length was read.
unfoldable pub read_payload :
    (len : ℕ) → List ℕ → SsChunks → Result IoError (List ℕ × (List ℕ × SsChunks))
read_payload len input s =
    if ltb (length input) (len + tag)
    then err (message unexpected_eof "early eof")
    else elim (open_next (take (len + tag) input) s) [
      | err e ↦ err e
      | ok (plain, t) ↦ ok (plain, (drop (len + tag) input, t))
    ]

unfoldable pub read_sized :
    List ℕ → List ℕ × SsChunks → Result IoError (List ℕ × (List ℕ × SsChunks))
read_sized input (lenpt, s) = elim (chunk_len lenpt) [
  | err e ↦ err e
  | ok len ↦ read_payload len input s
]

unfoldable pub ss_read_chunk :
    List ℕ → SsChunks → Result IoError (Option (List ℕ) × (List ℕ × SsChunks))
ss_read_chunk input s =
    if ltb (length input) (2 + tag)
    then ok (none, ([], s))
    else elim (open_next (take (2 + tag) input) s) [
      | err e ↦ err e
      | ok sized ↦ elim (read_sized (drop (2 + tag) input) sized) [
        | err e ↦ err e
        | ok (plain, end) ↦ ok (some plain, end)
      ]
    ]

-- `u16::try_from(…).unwrap_or(0)`
abbrev pub u16_or_zero : ℕ → ℕ
u16_or_zero n = if ltb n (2 ^ 16) then n else 0

unfoldable pub write_piece : List ℕ → SsChunks → Result IoError (List ℕ × SsChunks)
write_piece piece s = elim (seal_next (put_u16 (u16_or_zero (length piece))) s) [
  | err e ↦ err e
  | ok (lenct, t) ↦ elim (seal_next piece t) [
    | err e ↦ err e
    | ok (payct, u) ↦ ok (lenct ++ payct, u)
  ]
]

unfoldable pub write_pieces : List (List ℕ) → SsChunks → Result IoError (List ℕ × SsChunks)
write_pieces [] s = ok ([], s)
write_pieces (piece ∷ pieces) s = elim (write_piece piece s) [
  | err e ↦ err e
  | ok (wire, t) ↦ elim (write_pieces pieces t) [
    | err e ↦ err e
    | ok (more, u) ↦ ok (wire ++ more, u)
  ]
]

unfoldable pub ss_write_chunks : List ℕ → SsChunks → Result IoError (List ℕ × SsChunks)
ss_write_chunks input s = write_pieces (chunks (length input) max_chunk input) s

-- `ChunkRead for SsChunks` and `ChunkWrite for SsChunks`: at its end nothing is written.
abbrev pub ss_read : ChunkRead SsChunks
ss_read = record { read_chunk = ss_read_chunk }

abbrev pub ss_write : ChunkWrite SsChunks
ss_write = record { write_chunk = ss_write_chunks; finish = λ s. ok ([], s) }

module _ (hkdf : (master salt info : List ℕ) → (len : ℕ) → Option (List ℕ))
    (new_cipher : AeadKind → (key : List ℕ) → Option Cipher) where
  -- The cipher of a user for a salt.
  unfoldable pub user_cipher : AeadKind → (master salt : List ℕ) → Option Cipher
  user_cipher kind master salt = elim (hkdf master salt subkey_info (key_size kind)) [
    | none ↦ none
    | some subkey ↦ new_cipher kind subkey
  ]

  -- Whether a user's cipher opens the first length, with the text and the state behind it.
  unfoldable pub try_user : AeadKind → (salt lenct : List ℕ) → SsUser → Option (List ℕ × SsChunks)
  try_user kind salt lenct user = elim (user_cipher kind user.master salt) [
    | none ↦ none
    | some c ↦
        let nonce = new_nonce (nonce_size kind) in
        elim (open_sealed c (nonce_bytes nonce) lenct) [
          | err e ↦ none
          | ok lenpt ↦ some (lenpt, record { aead = c; nonce = inc nonce })
        ]
  ]

  -- The trial of the users in turn.
  unfoldable pub match_user :
      AeadKind → (salt lenct : List ℕ) → List SsUser → Option (SsUser × (List ℕ × SsChunks))
  match_user kind salt lenct [] = none
  match_user kind salt lenct (user ∷ users) =
      let rest = match_user kind salt lenct users in
      elim (try_user kind salt lenct user) [ none ↦ rest | some m ↦ some (user, m) ]

  -- What `decode` gives: the user, the target, what is left of the first text, the decoder of the
  -- chunks behind it and what is left of the input.
  pub record Decoded : Type 0 where
    pub user : SsUser
    pub target : Destination
    pub leftover : List ℕ
    pub chunks_state : SsChunks
    pub input : List ℕ

  unfoldable pub decode_target : SsUser → List ℕ × (List ℕ × SsChunks) → Result IoError Decoded
  decode_target user (plain, (input, s)) = elim (read shadowsocks_codec plain) [
    | err e ↦ err (wrapped invalid_data e)
    | ok ((address, port), left) ↦ ok (record {
      user = user;
      target = tcp_destination address port;
      leftover = left;
      chunks_state = s;
      input = input;
    })
  ]

  unfoldable pub decode_flow : List ℕ → SsUser × (List ℕ × SsChunks) → Result IoError Decoded
  decode_flow input (user, m) = elim (read_sized input m) [
    | err e ↦ err e
    | ok r ↦ decode_target user r
  ]

  -- `decode` up to the answer.
  unfoldable pub decode : AeadKind → List SsUser → (input : List ℕ) → Result IoError Decoded
  decode kind users input =
      let k = key_size kind in
      if ltb (length input) (k + (2 + tag))
      then err (message unexpected_eof "early eof")
      else elim (match_user kind (take k input) (take (2 + tag) (drop k input)) users) [
        | none ↦ err (message invalid_data "ss auth failed")
        | some m ↦ decode_flow (drop (2 + tag) (drop k input)) m
      ]

  -- The answer: its salt, and the state of its chunks.
  unfoldable pub answer : AeadKind → (salt : List ℕ) → SsUser → Option (List ℕ × SsChunks)
  answer kind salt user = elim (user_cipher kind user.master salt) [
    | none ↦ none
    | some c ↦ some (salt, record { aead = c; nonce = new_nonce (nonce_size kind) })
  ]

  -- `ss_udp_encode`, with the random salt.
  unfoldable pub ss_udp_encode :
      AeadKind → (master salt : List ℕ) → Destination → List ℕ → Option (List ℕ)
  ss_udp_encode kind master salt target payload = elim (user_cipher kind master salt) [
    | none ↦ none
    | some c ↦ elim (write shadowsocks_codec target.address target.port) [
      | err e ↦ none
      | ok a ↦ elim (seal c (replicate (nonce_size kind) 0) (a ++ payload)) [
        | err e ↦ none
        | ok ct ↦ some (salt ++ ct)
      ]
    ]
  ]

  -- A datagram under one user's key.
  unfoldable pub udp_try : AeadKind → (salt ct : List ℕ) → SsUser → Option (Destination × List ℕ)
  udp_try kind salt ct user = elim (user_cipher kind user.master salt) [
    | none ↦ none
    | some c ↦ elim (open_sealed c (replicate (nonce_size kind) 0) ct) [
      | err e ↦ none
      | ok plain ↦ elim (read shadowsocks_codec plain) [
        | err e ↦ none
        | ok ((address, port), left) ↦ some (udp_destination address port, left)
      ]
    ]
  ]

  unfoldable pub udp_users :
      AeadKind → (salt ct : List ℕ) → List SsUser → Option (SsUser × (Destination × List ℕ))
  udp_users kind salt ct [] = none
  udp_users kind salt ct (user ∷ users) =
      let rest = udp_users kind salt ct users in
      elim (udp_try kind salt ct user) [ none ↦ rest | some m ↦ some (user, m) ]

  -- `udp_decode`
  unfoldable pub udp_decode :
      AeadKind → List SsUser → List ℕ → Option (SsUser × (Destination × List ℕ))
  udp_decode kind users dgram =
      let k = key_size kind in
      if ltb (length dgram) k then none else udp_users kind (take k dgram) (drop k dgram) users
