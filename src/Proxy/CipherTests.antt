-- ===== src/Proxy/CipherTests.antt =====
-- The ciphers, the chunks and the flows at a concrete cipher.
use xray_rs.Base.{
  ℕ, suc, ◌+◌, ◌-◌, ◌*◌, ◌%◌, ◌≡◌, refl, true, Option, none, some, List, [], ◌∷◌, ◌++◌,
  if◌then◌else◌, length, length-append, take, drop, take-append, drop-append, replicate,
  length-replicate, eq_bytes, eq_bytes_refl, concat, arith,
}
use xray_rs.Base.Text.{bytes}
use xray_rs.Base.Result.{ok}
use xray_rs.Kernel.Net.{
  Address, ip, v4, Destination, tcp_destination, udp_destination, shadowsocks_codec,
}
use xray_rs.Proxy.Crypto.{
  AeadKind, aes128_gcm, key_size, nonce_size, Cipher, IsCipher, NonceCtr, new_nonce, nonce_bytes,
  inc, evp_bytes_to_key,
}
use xray_rs.Proxy.Framed.{up_loop, up, down, ended}
use xray_rs.Proxy.Vmess.Body.{Random, Body, new_body, body_read, body_write}
use xray_rs.Proxy.Vmess.Body.Chunks.{read_chunk-write_chunk}
use xray_rs.Proxy.Shadowsocks.{
  SsUser, SsChunks, build_ss_users, write_piece, ss_read, ss_write, user_cipher, try_user, Decoded,
  decode, ss_udp_encode, udp_decode,
}
use xray_rs.Proxy.Shadowsocks.Decode.{IsLetIn, decode-IsLetIn}
use xray_rs.Proxy.Shadowsocks.Flow.{decoded, decode-write_piece, up-decode}
use xray_rs.Proxy.Shadowsocks.Datagram.{udp_decode-ss_udp_encode}

-- A cipher that adds its key byte sixteen times, and opens what ends so.
abbrev toy_decrypt : ℕ → (nonce sealed : List ℕ) → Option (List ℕ)
toy_decrypt key nonce sealed =
    if eq_bytes (drop (length sealed - 16) sealed) (replicate 16 key)
    then some (take (length sealed - 16) sealed)
    else none

abbrev toy : ℕ → Cipher
toy key = record {
  encrypt = λ nonce plain. some (plain ++ replicate 16 key);
  decrypt = toy_decrypt key;
}

toy_opens :
    (key : ℕ) (nonce plain : List ℕ)
    → toy_decrypt key nonce (plain ++ replicate 16 key) ≡ some plain
toy_opens key nonce plain =
    let n : length (plain ++ replicate 16 key) - 16 ≡ length plain =
      omega (arith, length-append plain (replicate 16 key)) in
    rw
      (
        n,
        drop-append plain (replicate 16 key),
        take-append plain (replicate 16 key),
        eq_bytes_refl (replicate 16 key),
      )
      refl

toy-IsCipher : (key : ℕ) → IsCipher (toy key)
toy-IsCipher key = record {
  seals = λ nonce plain short. (
    plain ++ replicate 16 key,
    refl,
    length-append plain (replicate 16 key),
    toy_opens key nonce plain,
  );
}

abbrev toy_state : SsChunks
toy_state = record { aead = toy 7; nonce = new_nonce 12 }

-- A stream of masks and a source of padding.
abbrev toy_xof : List ℕ → ℕ → ℕ
toy_xof seed place = (place * 40503 + 12345) % 65536

abbrev toy_random : Random
toy_random = record {
  Rng = ℕ;
  fill = λ n r. (replicate n r, r + 1);
  length-fill = λ n r. length-replicate n r;
}

abbrev toy_body : Body
toy_body = new_body (some (toy 7)) (replicate 16 9) true true

read_chunk-write_chunk_example :
    (wire : List ℕ) × (f : Body × ℕ) × (down
        (body_write toy_xof toy_random)
        (bytes "one" ∷ bytes "two" ∷ [])
        (toy_body, 5)
      ≡ ok (wire, f))
    × ((up_loop (body_read toy_xof) (suc (length wire) + 0) (wire ++ (1 ∷ 2 ∷ [])) toy_body).0
        ≡ ended)
    × (concat
          (up_loop (body_read toy_xof) (suc (length wire) + 0) (wire ++ (1 ∷ 2 ∷ [])) toy_body).1
        ≡ bytes "onetwo")
read_chunk-write_chunk_example =
    read_chunk-write_chunk toy_xof (λ seed place. omega arith) toy_random (some (toy 7))
      (replicate 16 9) true true (toy-IsCipher 7) (bytes "one" ∷ bytes "two" ∷ []) 5 (1 ∷ 2 ∷ []) 0

-- A key derivation and two users.
abbrev toy_md5 : List ℕ → List ℕ
toy_md5 bs = take 16 (bs ++ replicate 16 0)

abbrev toy_hkdf : (master salt info : List ℕ) → ℕ → Option (List ℕ)
toy_hkdf master salt info len = some (take len master)

abbrev toy_new : AeadKind → List ℕ → Option Cipher
toy_new kind [] = none
toy_new kind (b ∷ key) = some (toy b)

abbrev ann : SsUser
ann = record { master = replicate 16 7; email = bytes "ann"; level = 0 }

abbrev bob : SsUser
bob = record { master = replicate 16 8; email = bytes "bob"; level = 0 }

abbrev host : Address
host = ip (v4 (10 ∷ 0 ∷ 0 ∷ 1 ∷ []))

-- The target and the port 80, as they are written.
abbrev host_head : List ℕ
host_head = 1 ∷ 10 ∷ 0 ∷ 0 ∷ 1 ∷ 0 ∷ 80 ∷ []

abbrev salt : List ℕ
salt = replicate 16 3

abbrev first_wire : List ℕ
first_wire = 0 ∷ 9 ∷ replicate 16 8 ++ (host_head ++ bytes "hi" ++ replicate 16 8)

abbrev second_state : SsChunks
second_state = record { aead = toy 8; nonce = record { buf = 2 ∷ replicate 23 0; size = 12 } }

up-decode_example :
    (more : List ℕ) × (f : SsChunks) × (d : Decoded toy_hkdf toy_new) × (down ss_write
        (bytes " there" ∷ [])
        second_state
      ≡ ok (more, f))
    × (decode toy_hkdf toy_new aes128_gcm (ann ∷ bob ∷ []) (salt ++ (first_wire ++ more)) ≡ ok d)
    × (d.user ≡ bob)
    × (d.target ≡ tcp_destination host 80)
    × ((up ss_read (suc (length more) + 0) d.leftover d.input d.chunks_state).0 ≡ ended)
    × (concat (up ss_read (suc (length more) + 0) d.leftover d.input d.chunks_state).1
        ≡ bytes "hi there")
unfolding write_piece user_cipher xray_rs.Kernel.Net.write xray_rs.Kernel.Net.write_address
    xray_rs.Kernel.Net.byte_for xray_rs.Proxy.Shadowsocks.seal_next inc
    xray_rs.Proxy.Crypto.inc_bytes try_user eq_bytes
up-decode_example =
    up-decode toy_hkdf toy_new aes128_gcm (ann ∷ []) [] bob (toy 8) salt refl refl (toy-IsCipher 8)
      host 80 host_head (bytes "hi") first_wire second_state refl (omega arith) refl (omega arith)
      refl (refl, tt) (bytes " there" ∷ []) 0

abbrev plain_input : List ℕ
plain_input = salt ++ first_wire

decode-IsLetIn_example :
    IsLetIn toy_hkdf toy_new aes128_gcm
      (ann ∷ bob ∷ [])
      plain_input
      (decoded toy_hkdf toy_new aes128_gcm bob host 80 (bytes "hi") second_state [])
unfolding write_piece user_cipher xray_rs.Kernel.Net.write xray_rs.Kernel.Net.write_address
    xray_rs.Kernel.Net.byte_for xray_rs.Proxy.Shadowsocks.seal_next inc
    xray_rs.Proxy.Crypto.inc_bytes try_user eq_bytes
decode-IsLetIn_example =
    decode-IsLetIn toy_hkdf toy_new aes128_gcm (ann ∷ bob ∷ []) plain_input
      (decoded toy_hkdf toy_new aes128_gcm bob host 80 (bytes "hi") second_state [])
      (decode-write_piece toy_hkdf toy_new aes128_gcm (ann ∷ []) [] bob (toy 8) salt refl refl
        (toy-IsCipher 8) host 80 host_head (bytes "hi") first_wire second_state refl (omega arith)
        refl (omega arith) refl (refl, tt) [])

abbrev packet : List ℕ
packet = salt ++ (host_head ++ bytes "hi" ++ replicate 16 8)

udp_decode-ss_udp_encode_example :
    udp_decode toy_hkdf toy_new aes128_gcm (ann ∷ bob ∷ []) packet
    ≡ some (bob, (udp_destination host 80, bytes "hi"))
unfolding ss_udp_encode user_cipher udp_destination xray_rs.Kernel.Net.write
    xray_rs.Kernel.Net.write_address xray_rs.Kernel.Net.byte_for xray_rs.Proxy.Shadowsocks.udp_try
    eq_bytes
udp_decode-ss_udp_encode_example =
    udp_decode-ss_udp_encode toy_hkdf toy_new aes128_gcm (ann ∷ []) [] bob (toy 8) salt host_head
      (udp_destination host 80) (bytes "hi") packet refl refl (toy-IsCipher 8) refl (omega arith)
      refl (omega arith) refl (refl, tt)
