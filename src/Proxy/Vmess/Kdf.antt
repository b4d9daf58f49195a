-- ===== src/Proxy/Vmess/Kdf.antt =====
-- proxy/src/vmess/crypto.rs: the checksum and the key derivations, and the sealing of a header. The
-- hash functions and AES-GCM are third-party code and stand as parameters.
use xray_rs.Base.{
  ℕ, zero, suc, ◌+◌, ◌-◌, ◌*◌, ◌%◌, ◌^◌, ◌≤◌, ◌≡◌, Option, none, some, List, [], ◌∷◌, ◌++◌, ltb,
  ◌==◌, if◌then◌else◌, length, take, replicate, get_elem?, bit_xor,
}
use xray_rs.Base.Text.{bytes}
use xray_rs.Base.Result.{Result, err, ok_or}
use xray_rs.Kernel.Error.{IoError, message, invalid_data, other}

abbrev magic : List ℕ
magic = bytes "c48619fe-8f02-49e0-b9e9-edf763e17e21"

abbrev kdf_salt : List ℕ
kdf_salt = bytes "VMess AEAD KDF"

abbrev pub salt_authid : List ℕ
salt_authid = bytes "AES Auth ID Encryption"

abbrev pub salt_hdr_len_key : List ℕ
salt_hdr_len_key = bytes "VMess Header AEAD Key_Length"

abbrev pub salt_hdr_len_iv : List ℕ
salt_hdr_len_iv = bytes "VMess Header AEAD Nonce_Length"

abbrev pub salt_hdr_key : List ℕ
salt_hdr_key = bytes "VMess Header AEAD Key"

abbrev pub salt_hdr_iv : List ℕ
salt_hdr_iv = bytes "VMess Header AEAD Nonce"

abbrev pub salt_resp_len_key : List ℕ
salt_resp_len_key = bytes "AEAD Resp Header Len Key"

abbrev pub salt_resp_len_iv : List ℕ
salt_resp_len_iv = bytes "AEAD Resp Header Len IV"

abbrev pub salt_resp_key : List ℕ
salt_resp_key = bytes "AEAD Resp Header Key"

abbrev pub salt_resp_iv : List ℕ
salt_resp_iv = bytes "AEAD Resp Header IV"

-- The loop of `fnv1a`.
unfoldable pub fnv1a_from : ℕ → List ℕ → ℕ
fnv1a_from h [] = h
fnv1a_from h (b ∷ input) = fnv1a_from (bit_xor h b * 0x01000193 % 2 ^ 32) input

unfoldable pub fnv1a : List ℕ → ℕ
fnv1a input = fnv1a_from 0x811c9dc5 input

-- The hash functions, and AES-128-GCM under a key of the right length.
pub record Primitives : Type 0 where
  pub sha256 : List ℕ → List ℕ
  pub md5 : List ℕ → List ℕ
  pub encrypt : (key nonce plain aad : List ℕ) → Option (List ℕ)
  pub decrypt : (key nonce sealed aad : List ℕ) → Option (List ℕ)

-- What they promise: digests of their lengths, and a cipher that opens what it sealed and adds a tag.
pub record ArePrimitives (P : Primitives) : Type 0 where
  pub length-sha256 : (input : List ℕ) → length (P.sha256 input) ≡ 32
  pub length-md5 : (input : List ℕ) → length (P.md5 input) ≡ 16
  pub seals :
      (key nonce plain aad : List ℕ)
      → length plain ≤ 65536
      → (sealed : List ℕ) × (P.encrypt key nonce plain aad ≡ some sealed)
        × (length sealed ≡ length plain + 16)
        × (P.decrypt key nonce sealed aad ≡ some plain)

module _ (P : Primitives) where
  -- `cmd_key` and `chacha_key`
  unfoldable pub cmd_key : (uuid : List ℕ) → List ℕ
  cmd_key uuid = P.md5 (uuid ++ magic)

  unfoldable pub chacha_key : List ℕ → List ℕ
  chacha_key k = P.md5 k ++ P.md5 (P.md5 k)

  -- The key of a block, filled up with zeros.
  unfoldable pub block_key : List ℕ → List ℕ
  block_key key =
      if ltb 64 (length key)
      then P.sha256 key ++ replicate 32 0
      else key ++ replicate (64 - length key) 0

  abbrev pub xor_all : ℕ → List ℕ → List ℕ
  xor_all pad [] = []
  xor_all pad (k ∷ ks) = bit_xor pad k ∷ xor_all pad ks

  unfoldable pub hmac_with : (key msg : List ℕ) → (hash : List ℕ → List ℕ) → List ℕ
  hmac_with key msg hash =
      let k = block_key key in hash (xor_all 0x5c k ++ hash (xor_all 0x36 k ++ msg))

  unfoldable pub hmac_sha256 : (key msg : List ℕ) → List ℕ
  hmac_sha256 key msg = hmac_with key msg P.sha256

  unfoldable pub kdf_level : List (List ℕ) → (level : ℕ) → (msg : List ℕ) → List ℕ
  kdf_level keys zero msg = elim (get_elem? keys 0) [
    | none ↦ P.sha256 msg
    | some key ↦ hmac_sha256 key msg
  ]
  kdf_level keys (suc level) msg = elim (get_elem? keys (suc level)) [
    | none ↦ P.sha256 msg
    | some key ↦ hmac_with key msg (λ m. kdf_level keys level m)
  ]

  unfoldable pub kdf : (key : List ℕ) → (paths : List (List ℕ)) → List ℕ
  kdf key paths = kdf_level (kdf_salt ∷ paths) (length paths) key

  unfoldable pub kdf16 : (key : List ℕ) → (paths : List (List ℕ)) → List ℕ
  kdf16 key paths = take 16 (kdf key paths)

  -- `aes128gcm_open` and `aes128gcm_seal`
  unfoldable pub aes128gcm_open : (key nonce ct aad : List ℕ) → Result IoError (List ℕ)
  aes128gcm_open key nonce ct aad =
      if length key == 16
      then ok_or (P.decrypt key nonce ct aad) (message invalid_data "vmess header open")
      else err (message other "gcm key")

  unfoldable pub aes128gcm_seal : (key nonce pt aad : List ℕ) → Result IoError (List ℕ)
  aes128gcm_seal key nonce pt aad =
      if length key == 16
      then ok_or (P.encrypt key nonce pt aad) (message other "vmess header seal")
      else err (message other "gcm key")
