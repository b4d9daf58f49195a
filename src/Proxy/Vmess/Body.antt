-- ===== src/Proxy/Vmess/Body.antt =====
-- proxy/src/vmess/body.rs: the chunks of a VMess body, with their sealed texts, masked sizes and
-- paddings. The stream of SHAKE128 is a function of its seed and the place of a `u16` in it; random
-- bytes come off a generator that is passed on. What is written is a list of bytes, and what is read
-- is the bytes up to the end of the connection.
pub mod Frame
pub mod Chunks
use xray_rs.Base.{
  ℕ, zero, suc, ◌+◌, ◌-◌, ◌*◌, ◌/◌, ◌%◌, ◌^◌, ◌≡◌, Bool, true, false, Option, none, some, List, [],
  ◌∷◌, ◌++◌, ltb, leb, ◌==◌, if◌then◌else◌, length, take, drop, replicate, bit_xor, chunks,
}
use xray_rs.Base.Result.{Result, ok, err}
use xray_rs.Kernel.Error.{Error, IoError, message, wrapped, invalid_data, unexpected_eof, other}
use xray_rs.Kernel.Net.{put_u16}
use xray_rs.Proxy.Crypto.{Cipher, tag, seal, open_sealed}
use xray_rs.Proxy.Framed.{ChunkRead, ChunkWrite}

-- A source of random bytes.
pub record Random : Type 1 where
  pub Rng : Type 0
  pub fill : ℕ → Rng → List ℕ × Rng
  pub length-fill : (n : ℕ) (r : Rng) → length (fill n r).0 ≡ n

-- `shake` is the place of the next `u16` of the masks.
pub record Body : Type 0 where
  pub aead : Option Cipher
  pub iv : List ℕ
  pub count : ℕ
  pub shake : Option ℕ
  pub global_padding : Bool

-- `Body::new`
abbrev pub new_body : Option Cipher → (iv : List ℕ) → (masking global_padding : Bool) → Body
new_body aead iv masking global_padding = record {
  aead = aead;
  iv = iv;
  count = 0;
  shake = if masking then some 0 else none;
  global_padding = global_padding;
}

abbrev overhead_of : Option Cipher → ℕ
overhead_of none = 0
overhead_of (some c) = tag

abbrev pub overhead : Body → ℕ
overhead b = overhead_of b.aead

abbrev pub chunk_nonce : Body → List ℕ
chunk_nonce b = put_u16 b.count ++ take 10 (drop 2 b.iv)

abbrev pub next_count : Body → Body
next_count b = record b { count = (b.count + 1) % 2 ^ 16 }

-- `seal_piece` and `open_piece`, by the cipher.
unfoldable pub seal_by : Option Cipher → List ℕ → List ℕ → Result IoError (List ℕ)
seal_by none nonce piece = ok piece
seal_by (some c) nonce piece = elim (seal c nonce piece) [
  | ok ct ↦ ok ct
  | err e ↦ err (wrapped other e)
]

unfoldable pub open_by : Option Cipher → List ℕ → List ℕ → Result IoError (List ℕ)
open_by none nonce ct = ok ct
open_by (some c) nonce ct = elim (open_sealed c nonce ct) [
  | ok plain ↦ ok plain
  | err e ↦ err (wrapped invalid_data e)
]

unfoldable pub seal_piece : List ℕ → Body → Result IoError (List ℕ × Body)
seal_piece piece b = elim (seal_by b.aead (chunk_nonce b) piece) [
  | ok ct ↦ ok (ct, next_count b)
  | err e ↦ err e
]

unfoldable pub open_piece : List ℕ → Body → Result IoError (List ℕ × Body)
open_piece ct b = elim (open_by b.aead (chunk_nonce b) ct) [
  | ok plain ↦ ok (plain, next_count b)
  | err e ↦ err e
]

module _ (xof : (seed : List ℕ) → (place : ℕ) → ℕ) where
  unfoldable pub padding_by : Option ℕ → Body → ℕ × Body
  padding_by none b = (0, b)
  padding_by (some place) b = (xof b.iv place % 64, record b { shake = some (place + 1) })

  unfoldable pub next_padding : Body → ℕ × Body
  next_padding b = if b.global_padding then padding_by b.shake b else (0, b)

  unfoldable pub mask_by : Option ℕ → ℕ → Body → ℕ × Body
  mask_by none size b = (size, b)
  mask_by (some place) size b =
      (bit_xor (xof b.iv place) size, record b { shake = some (place + 1) })

  unfoldable pub mask_size : ℕ → Body → ℕ × Body
  mask_size size b = mask_by b.shake size b

  module _ (R : Random) where
    -- The padding of a frame; nothing is drawn for none.
    unfoldable pub pad : ℕ → R.Rng → List ℕ × R.Rng
    pad padding r = if ltb 0 padding then R.fill padding r else ([], r)

    unfoldable pub encode_frame :
        (ct : List ℕ) → (padding : ℕ) → Body → R.Rng → List ℕ × (Body × R.Rng)
    encode_frame ct padding b r =
        let size = length ct + padding in
        let (masked, c) = mask_size (if ltb size (2 ^ 16) then size else 2 ^ 16 - 1) b in
        let (noise, s) = pad padding r in (put_u16 masked ++ (ct ++ noise), (c, s))

    -- A piece's frame. `write_terminal` writes that of an empty piece.
    unfoldable pub write_frame :
        (piece : List ℕ) → Body → R.Rng → Result IoError (List ℕ × (Body × R.Rng))
    write_frame piece b r =
        let (padding, c) = next_padding b in
        elim (seal_piece piece c) [ ok (ct, d) ↦ ok (encode_frame ct padding d r) | err e ↦ err e ]

    unfoldable pub write_pieces :
        List (List ℕ) → Body → R.Rng → Result IoError (List ℕ × (Body × R.Rng))
    write_pieces [] b r = ok ([], (b, r))
    write_pieces (piece ∷ pieces) b r = elim (write_frame piece b r) [
      | err e ↦ err e
      | ok (frame, (c, s)) ↦ elim (write_pieces pieces c s) [
        | err e ↦ err e
        | ok (frames, end) ↦ ok (frame ++ frames, end)
      ]
    ]

    -- `max` of `write_chunk`
    abbrev pub piece_max : Body → ℕ
    piece_max b = let m = 8192 - overhead b - 64 in if ltb m 1 then 1 else m

    -- `write_chunk`
    unfoldable pub write_chunk : List ℕ → Body → R.Rng → Result IoError (List ℕ × (Body × R.Rng))
    write_chunk bytes b r = write_pieces (chunks (length bytes) (piece_max b) bytes) b r

  -- The rest of a chunk of `size` bytes, `padding` of them at its end.
  unfoldable pub read_body :
      (size padding : ℕ) → List ℕ → Body → Result IoError (Option (List ℕ) × (List ℕ × Body))
  read_body size padding input b =
      if size == overhead b + padding
      then ok (none, (input, b))
      else if ltb size (overhead b + padding)
      then err (message invalid_data "vmess chunk size")
      else if ltb (length input) size
      then err (message unexpected_eof "early eof")
      else elim (open_piece (take (size - padding) (take size input)) b) [
        | ok (plain, c) ↦ ok (some plain, (drop size input, c))
        | err e ↦ err e
      ]

  -- `read_chunk`, with what is left of the input.
  unfoldable pub read_chunk : List ℕ → Body → Result IoError (Option (List ℕ) × (List ℕ × Body))
  read_chunk (hi ∷ lo ∷ input) b =
      let (padding, c) = next_padding b in
      let (size, d) = mask_size (hi * 256 + lo) c in read_body size padding input d
  read_chunk _ b = ok (none, ([], b))

-- `ChunkRead for Body` and `ChunkWrite for Body`
module _ (xof : (seed : List ℕ) → (place : ℕ) → ℕ) where
  abbrev pub body_read : ChunkRead Body
  body_read = record { read_chunk = read_chunk xof }

  module _ (R : Random) where
    abbrev pub body_write : ChunkWrite (Body × R.Rng)
    body_write = record {
      write_chunk = λ bytes (b, r). write_chunk xof R bytes b r;
      finish = λ (b, r). write_frame xof R [] b r;
    }
