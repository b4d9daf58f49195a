-- ===== src/Proxy/Crypto.antt =====
-- proxy/src/crypto.rs: the ciphers behind one type, the counting nonce and the key of a password. The
-- ciphers and MD5 are third-party code and stand as parameters.
pub mod Nonce
use xray_rs.Base.{
  ℕ, zero, suc, ◌+◌, ◌-◌, ◌*◌, ◌%◌, ◌≤◌, ◌≡◌, Bool, true, false, Option, none, some, List, [], ◌∷◌,
  ◌++◌, ltb, leb, ◌==◌, if◌then◌else◌, length, take, replicate,
}
use xray_rs.Base.Result.{Result, ok, err, ok_or}
use xray_rs.Kernel.Error.{Error, crypto}

pub data AeadKind : Type 0 where
  aes128_gcm aes256_gcm chacha20_poly1305 xchacha20_poly1305 : AeadKind

abbrev pub key_size : AeadKind → ℕ
key_size aes128_gcm = 16
key_size aes256_gcm = 32
key_size chacha20_poly1305 = 32
key_size xchacha20_poly1305 = 32

abbrev pub nonce_size : AeadKind → ℕ
nonce_size xchacha20_poly1305 = 24
nonce_size aes128_gcm = 12
nonce_size aes256_gcm = 12
nonce_size chacha20_poly1305 = 12

-- `AeadKind::TAG`
abbrev pub tag : ℕ
tag = 16

-- A keyed cipher.
pub record Cipher : Type 0 where
  pub encrypt : (nonce plain : List ℕ) → Option (List ℕ)
  pub decrypt : (nonce sealed : List ℕ) → Option (List ℕ)

-- What a keyed cipher promises for texts of a chunk: it adds a tag and opens what it sealed.
pub record IsCipher (c : Cipher) : Type 0 where
  pub seals :
      (nonce plain : List ℕ)
      → length plain ≤ 65536
      → (sealed : List ℕ) × (c.encrypt nonce plain ≡ some sealed)
        × (length sealed ≡ length plain + 16)
        × (c.decrypt nonce sealed ≡ some plain)

-- `Aead::seal` and `Aead::open`
abbrev pub seal : Cipher → (nonce plain : List ℕ) → Result Error (List ℕ)
seal c nonce plain = ok_or (c.encrypt nonce plain) (crypto "aead seal")

abbrev pub open_sealed : Cipher → (nonce sealed : List ℕ) → Result Error (List ℕ)
open_sealed c nonce sealed = ok_or (c.decrypt nonce sealed) (crypto "aead open")

-- `NonceCtr`
pub record NonceCtr : Type 0 where
  pub buf : List ℕ
  pub size : ℕ

abbrev pub new_nonce : ℕ → NonceCtr
new_nonce size = record { buf = replicate 24 0; size = if ltb size 24 then size else 24 }

abbrev pub nonce_bytes : NonceCtr → List ℕ
nonce_bytes n = take n.size n.buf

-- The loop of `inc` over the first `size` bytes.
unfoldable pub inc_bytes : ℕ → List ℕ → List ℕ
inc_bytes zero bs = bs
inc_bytes (suc size) [] = []
inc_bytes (suc size) (b ∷ bs) =
    let rest = inc_bytes size bs in if leb 255 b then 0 ∷ rest else (b + 1) ∷ bs

unfoldable pub inc : NonceCtr → NonceCtr
inc n = record n { buf = inc_bytes n.size n.buf }

module _ (md5 : List ℕ → List ℕ) where
  -- The loop of `evp_bytes_to_key`, at most `fuel` times.
  unfoldable pub key_rounds : ℕ → (password : List ℕ) → (key_len : ℕ) → (key prev : List ℕ) → List ℕ
  key_rounds zero password key_len key prev = key
  key_rounds (suc fuel) password key_len key prev =
      let digest = md5 (prev ++ password) in
      let more = key_rounds fuel password key_len (key ++ digest) digest in
      if ltb (length key) key_len then more else key

  -- Each round adds a digest, so `key_len` rounds are enough.
  unfoldable pub evp_bytes_to_key : (password : List ℕ) → (key_len : ℕ) → List ℕ
  evp_bytes_to_key password key_len = take key_len (key_rounds key_len password key_len [] [])
