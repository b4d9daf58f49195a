-- ===== src/Proxy/Vmess/Flow.antt =====
-- proxy/src/vmess.rs, `read_header` and `decode`: the sealed header, the answer and the bodies of a
-- flow. A connection is the bytes up to its end; the handshake's timeout is left out.
pub mod Sealed
pub mod Relayed
mod Tests
use xray_rs.Base.{
  ℕ, ◌+◌, ◌*◌, ◌/◌, ◌%◌, ◌≡◌, Bool, true, false, not, Option, none, some, List, [], ◌∷◌, ◌++◌, ltb,
  ◌==◌, if◌then◌else◌, length, take, drop, bit_and,
}
use xray_rs.Base.Result.{Result, ok, err}
use xray_rs.Kernel.Error.{
  IoError, message, wrapped, invalid_data, unexpected_eof, unsupported, other, crypto,
}
use xray_rs.Kernel.Net.{put_u16, Network, tcp, udp, Destination}
use xray_rs.Proxy.Crypto.{AeadKind, aes128_gcm, chacha20_poly1305, Cipher}
use xray_rs.Proxy.Vmess.Users.{VmessAuth}
use xray_rs.Proxy.Vmess.Inbound.{Vmess, authenticate}
use xray_rs.Proxy.Vmess.Body.{Body, new_body}
use xray_rs.Proxy.Vmess.Kdf.{
  salt_hdr_len_key, salt_hdr_len_iv, salt_hdr_key, salt_hdr_iv, salt_resp_len_key, salt_resp_len_iv,
  salt_resp_key, salt_resp_iv, Primitives, chacha_key, kdf, kdf16, aes128gcm_open, aes128gcm_seal,
}
use xray_rs.Proxy.Vmess.Header.{Request, parse_header}

abbrev pub opt_chunk_masking : ℕ
opt_chunk_masking = 0x04

abbrev pub opt_global_padding : ℕ
opt_global_padding = 0x08

abbrev pub sec_aes128_gcm : ℕ
sec_aes128_gcm = 3

abbrev pub sec_chacha20 : ℕ
sec_chacha20 = 4

abbrev pub sec_none : ℕ
sec_none = 5

abbrev pub eof : IoError
eof = message unexpected_eof "early eof"

-- The length in the first two bytes of a text.
unfoldable pub hdr_len : List ℕ → Result IoError ℕ
hdr_len (hi ∷ lo ∷ _) = ok (hi * 256 + lo)
hdr_len _ = err (message invalid_data "vmess hdr len")

-- What a flow becomes: a demultiplexed carrier, or a relay to a target, each with its two bodies.
pub data Decision : Type 0 where
  demuxed : (up down : Body) → Decision
  relayed : Destination → (up down : Body) → Decision

abbrev is_udp : Network → Bool
is_udp udp = true
is_udp _ = false

module _ (P : Primitives) where
  -- The key and the nonce of a part of the header.
  abbrev pub header_key : (cmd_key salt authid nonce : List ℕ) → List ℕ
  header_key cmd_key salt authid nonce = kdf16 P cmd_key (salt ∷ authid ∷ nonce ∷ [])

  abbrev pub header_iv : (cmd_key salt authid nonce : List ℕ) → List ℕ
  header_iv cmd_key salt authid nonce = take 12 (kdf P cmd_key (salt ∷ authid ∷ nonce ∷ []))

  unfoldable pub open_len : (cmd_key authid nonce lenct : List ℕ) → Result IoError ℕ
  open_len cmd_key authid nonce lenct =
      elim (aes128gcm_open P (header_key cmd_key salt_hdr_len_key authid nonce)
        (header_iv cmd_key salt_hdr_len_iv authid nonce) lenct authid) [
          | err e ↦ err e
          | ok len_plain ↦ hdr_len len_plain
        ]

  unfoldable pub open_header : (cmd_key authid nonce payct email : List ℕ) → Result IoError Request
  open_header cmd_key authid nonce payct email =
      elim (aes128gcm_open P (header_key cmd_key salt_hdr_key authid nonce)
        (header_iv cmd_key salt_hdr_iv authid nonce) payct authid) [
          | err e ↦ err e
          | ok header ↦ elim (parse_header header) [
            | err e ↦ err (wrapped invalid_data e)
            | ok req ↦ ok (record req { email = email })
          ]
        ]

  -- The header of a known length, with what is left of the input.
  unfoldable pub read_payload :
      (hlen : ℕ) → (cmd_key authid nonce email input : List ℕ) → Result IoError (Request × List ℕ)
  read_payload hlen cmd_key authid nonce email input =
      if ltb (length input) (hlen + 16)
      then err eof
      else elim (open_header cmd_key authid nonce (take (hlen + 16) input) email) [
        | err e ↦ err e
        | ok req ↦ ok (req, drop (hlen + 16) input)
      ]

  -- `read_header` behind the authID.
  unfoldable pub read_sealed :
      (cmd_key authid email input : List ℕ) → Result IoError (Request × List ℕ)
  read_sealed cmd_key authid email input =
      if ltb (length input) 26
      then err eof
      else elim (open_len cmd_key authid (take 8 (drop 18 input)) (take 18 input)) [
        | err e ↦ err e
        | ok hlen ↦ read_payload hlen cmd_key authid (take 8 (drop 18 input)) email (drop 26 input)
      ]

  module _ (decrypt_block : (key block : List ℕ) → List ℕ) (crc32 : List ℕ → ℕ) where
    -- What follows the answer of `authenticate`.
    unfoldable pub admitted :
        (authid input : List ℕ)
        → Result IoError VmessAuth × Vmess
        → Result IoError (Request × List ℕ) × Vmess
    admitted authid input (err e, s) = (err e, s)
    admitted authid input (ok m, s) = (read_sealed m.cmd_key authid m.email input, s)

    unfoldable pub read_header :
        (input : List ℕ)
        → (match_now replay_now : ℕ) → Vmess
        → Result IoError (Request × List ℕ) × Vmess
    read_header input match_now replay_now s =
        if ltb (length input) 16
        then (err eof, s)
        else admitted (take 16 input) (drop 16 input)
            (authenticate decrypt_block crc32 (take 16 input) match_now replay_now s)

  -- `response_keys`
  unfoldable pub response_keys : Request → List ℕ × List ℕ
  response_keys req = (take 16 (P.sha256 req.req_key), take 16 (P.sha256 req.req_iv))

  unfoldable pub write_response_header : (resp_key resp_iv : List ℕ) → ℕ → Result IoError (List ℕ)
  write_response_header resp_key resp_iv resp_header =
      elim (aes128gcm_seal P (kdf16 P resp_key (salt_resp_len_key ∷ []))
        (take 12 (kdf P resp_iv (salt_resp_len_iv ∷ []))) (put_u16 4) []) [
          | err e ↦ err e
          | ok sealed_len ↦
              elim (aes128gcm_seal P (kdf16 P resp_key (salt_resp_key ∷ []))
                (take 12 (kdf P resp_iv (salt_resp_iv ∷ []))) (resp_header ∷ 0 ∷ 0 ∷ 0 ∷ []) []) [
                  | err e ↦ err e
                  | ok sealed_pay ↦ ok (sealed_len ++ sealed_pay)
                ]
        ]

  module _ (new_cipher : AeadKind → (key : List ℕ) → Option Cipher) where
    unfoldable pub made : Option Cipher → Result IoError (Option Cipher)
    made none = err (wrapped other (crypto "aead key"))
    made (some c) = ok (some c)

    unfoldable pub body_aead : (security : ℕ) → (key : List ℕ) → Result IoError (Option Cipher)
    body_aead security key =
        if security == sec_aes128_gcm
        then made (new_cipher aes128_gcm key)
        else if security == sec_chacha20
        then made (new_cipher chacha20_poly1305 (chacha_key P key))
        else if security == sec_none
        then ok none
        else err (message invalid_data "vmess security")

    unfoldable pub body_codecs :
        Request → (resp_key resp_iv : List ℕ) → Result IoError (Body × Body)
    body_codecs req resp_key resp_iv =
        let masking = not (bit_and req.options opt_chunk_masking == 0) in
        let padding = not (bit_and req.options opt_global_padding == 0) in
        elim (body_aead req.security req.req_key) [
          | err e ↦ err e
          | ok up ↦ elim (body_aead req.security resp_key) [
            | err e ↦ err e
            | ok down ↦
                ok (new_body up req.req_iv masking padding, new_body down resp_iv masking padding)
          ]
        ]

    abbrev pub decide : Request → Body × Body → Result IoError Decision
    decide req (up, down) =
        if req.mux
        then ok (demuxed up down)
        else if is_udp req.dest.network
        then err (message unsupported "vmess udp-direct not supported")
        else ok (relayed req.dest up down)

    -- `decode` behind the header: what is written, and what the flow becomes.
    unfoldable pub decode : Request → List ℕ × Result IoError Decision
    decode req =
        let (resp_key, resp_iv) = response_keys req in
        elim (write_response_header resp_key resp_iv req.resp_header) [
          | err e ↦ ([], err e)
          | ok answer ↦ (
            answer,
            elim (body_codecs req resp_key resp_iv) [
              | err e ↦ err e
              | ok bodies ↦ decide req bodies
            ],
          )
        ]
