-- ===== src/Proxy/Vmess/Body/Frame.antt =====
-- proxy/src/vmess/body.rs: a frame is read back by a body in the state in which it was written.
use xray_rs.Base.{
  ℕ, zero, suc, ◌+◌, ◌-◌, ◌*◌, ◌/◌, ◌%◌, ◌≤◌, ◌<◌, ◌≡◌, refl, ap, sym, ◌∙◌, Bool, true, false,
  Option, none, some, List, [], ◌++◌, ltb, ◌==◌, if◌then◌else◌, length, take, drop, length-append,
  take-append, drop-append, bit_xor, arith,
}
use xray_rs.Base.Xor.{zero-bit_xor, bit_xor_twice, bit_xor_u16}
use xray_rs.Base.Result.{ok}
use xray_rs.Kernel.Net.{put_u16}
use xray_rs.Proxy.Crypto.{Cipher, IsCipher}
use xray_rs.Proxy.Vmess.Body.{
  Random, Body, overhead_of, overhead, chunk_nonce, next_count, seal_by, open_by, seal_piece,
  open_piece, padding_by, next_padding, mask_by, mask_size, pad, encode_frame, write_frame,
  read_body, read_chunk,
}

-- What a body's cipher promises, if it has one.
abbrev pub IsSealer : Option Cipher → Type 0
IsSealer none = Unit
IsSealer (some c) = IsCipher c

-- A sealed piece: the overhead longer, and opened by the same nonce.
pub record IsSealed (aead : Option Cipher) (nonce piece ct : List ℕ) : Type 0 where
  pub sealed : seal_by aead nonce piece ≡ ok ct
  pub size : length ct ≡ length piece + overhead_of aead
  pub opened : open_by aead nonce ct ≡ ok piece

seal_by-IsSealed :
    (aead : Option Cipher) (nonce piece : List ℕ)
    → IsSealer aead
    → length piece ≤ 65536
    → (ct : List ℕ) × IsSealed aead nonce piece ct
unfolding seal_by open_by
seal_by-IsSealed none nonce piece v h =
    (piece, record { sealed = refl; size = omega arith; opened = refl })
seal_by-IsSealed (some c) nonce piece v h =
    let (ct, e, n, d) = v.seals nonce piece h in
    (ct, record { sealed = rw (e, seal_by) refl; size = n; opened = rw (d, open_by) refl })

overhead_small : (aead : Option Cipher) → overhead_of aead ≤ 16
overhead_small none = omega arith
overhead_small (some c) = omega arith

module _ (xof : (seed : List ℕ) → (place : ℕ) → ℕ) where
  -- The mask of the next size, and the body behind it.
  pub mask_key : Option ℕ → List ℕ → ℕ
  mask_key none iv = 0
  mask_key (some place) iv = xof iv place

  pub moved : Option ℕ → Body → Body
  moved none b = b
  moved (some place) b = record b { shake = some (place + 1) }

  mask_by_lem :
      (shake : Option ℕ) (size : ℕ) (b : Body)
      → mask_by xof shake size b ≡ (bit_xor (mask_key shake b.iv) size, moved shake b)
  unfolding mask_by mask_key moved
  mask_by_lem none size b = ap (λ (n : ℕ). (n, b)) (sym (zero-bit_xor size))
  mask_by_lem (some place) size b = refl

  mask_size_lem :
      (size : ℕ) (b : Body)
      → mask_size xof size b ≡ (bit_xor (mask_key b.shake b.iv) size, moved b.shake b)
  unfolding mask_size
  mask_size_lem size b = mask_by_lem b.shake size b

  moved-next_count :
      (shake : Option ℕ) (b : Body) → moved shake (next_count b) ≡ next_count (moved shake b)
  unfolding moved
  moved-next_count none b = refl
  moved-next_count (some place) b = refl

  -- A move changes neither what a piece is sealed by nor the nonce.
  moved-open :
      (ct : List ℕ) (shake : Option ℕ) (b : Body)
      → (open_by (moved shake b).aead (chunk_nonce (moved shake b)) ct
          ≡ open_by b.aead (chunk_nonce b) ct)
        × (overhead (moved shake b) ≡ overhead b)
  unfolding moved
  moved-open ct none b = (refl, refl)
  moved-open ct (some place) b = (refl, refl)

  padding_by_small : (shake : Option ℕ) (b : Body) → (padding_by xof shake b).0 < 64
  unfolding padding_by
  padding_by_small none b = omega arith
  padding_by_small (some place) b = omega arith

  next_padding_small : (b : Body) → (next_padding xof b).0 < 64
  unfolding next_padding
  next_padding_small b = by_flag b.global_padding
    where
      by_flag : (f : Bool) → (if f then padding_by xof b.shake b else (0, b)).0 < 64
      by_flag true = padding_by_small b.shake b
      by_flag false = omega arith

  next_padding-aead : (b : Body) → (next_padding xof b).1.aead ≡ b.aead
  unfolding next_padding
  next_padding-aead b = by_flag b.global_padding b.shake
    where
      by_flag :
          (f : Bool) (s : Option ℕ) → (if f then padding_by xof s b else (0, b)).1.aead ≡ b.aead
      by_flag true none = unfold padding_by in refl
      by_flag true (some place) = unfold padding_by in refl
      by_flag false s = refl

  read_body_piece :
      (b : Body) (size padding : ℕ) (piece ct noise rest : List ℕ)
      → IsSealed b.aead (chunk_nonce b) piece ct
      → 0 < length piece
      → length noise ≡ padding
      → size ≡ length ct + padding
      → read_body xof size padding ((ct ++ noise) ++ rest) b ≡ ok (some piece, (rest, next_count b))
  unfolding read_body open_piece
  read_body_piece b size padding piece ct noise rest v some_byte n q =
      let whole : length (ct ++ noise) ≡ size = omega (arith, length-append ct noise) in
      let full : (size == overhead b + padding) ≡ false = ground (arith, v.size) in
      let long : ltb size (overhead b + padding) ≡ false = ground (arith, v.size) in
      let here : ltb (length ((ct ++ noise) ++ rest)) size ≡ false =
        ground (arith, length-append (ct ++ noise) rest) in
      let front : take size ((ct ++ noise) ++ rest) ≡ ct ++ noise =
        rw (← whole) (take-append (ct ++ noise) rest) in
      let back : drop size ((ct ++ noise) ++ rest) ≡ rest =
        rw (← whole) (drop-append (ct ++ noise) rest) in
      let cut : size - padding ≡ length ct = omega arith in
      let text : take (size - padding) (ct ++ noise) ≡ ct = rw cut (take-append ct noise) in
      rw (full, long, here, front, text, v.opened, back) refl

  read_body_end :
      (b : Body) (size padding : ℕ) (input : List ℕ)
      → size ≡ overhead b + padding
      → read_body xof size padding input b ≡ ok (none, (input, b))
  unfolding read_body
  read_body_end b size padding input q =
      let e : (size == overhead b + padding) ≡ true = ground arith in rw e refl

  module _ (u16 : (seed : List ℕ) (place : ℕ) → xof seed place < 65536) (R : Random) where
    key_u16 : (shake : Option ℕ) (iv : List ℕ) → mask_key shake iv < 65536
    unfolding mask_key
    key_u16 none iv = omega arith
    key_u16 (some place) iv = u16 iv place

    length-pad : (padding : ℕ) (r : R.Rng) → length (pad xof R padding r).0 ≡ padding
    unfolding pad
    length-pad zero r = refl
    length-pad (suc n) r =
        let e : ltb 0 (suc n) ≡ true = ground arith in rw e (R.length-fill (suc n) r)

    -- A frame of `piece`, by a body that is `after` it.
    pub record IsFrame (b : Body) (piece frame : List ℕ) (after : Body) : Type 0 where
      pub wire :
          (masked : ℕ) × (ct : List ℕ) × (noise : List ℕ) × (frame
            ≡ put_u16 masked ++ (ct ++ noise))
          × (masked
              ≡ bit_xor
                  (mask_key (next_padding xof b).1.shake (next_padding xof b).1.iv)
                  (length ct + (next_padding xof b).0))
          × (length noise ≡ (next_padding xof b).0)
          × IsSealed (next_padding xof b).1.aead (chunk_nonce (next_padding xof b).1) piece ct
      pub moved_on : after ≡ next_count (moved (next_padding xof b).1.shake (next_padding xof b).1)

    pub write_frame-IsFrame :
        (b : Body) (piece : List ℕ) (r : R.Rng)
        → IsSealer b.aead
        → length piece ≤ 8192
        → (frame : List ℕ) × (after : Body) × (s : R.Rng) × (write_frame xof R piece b r
            ≡ ok (frame, (after, s)))
          × IsFrame b piece frame after
    unfolding write_frame seal_piece encode_frame
    write_frame-IsFrame b piece r v h =
        let c = (next_padding xof b).1 in
        let padding = (next_padding xof b).0 in
        let same : c.aead ≡ b.aead = next_padding-aead b in
        let (ct, w) =
          seal_by-IsSealed c.aead (chunk_nonce c) piece (rw same v) (omega (arith, h)) in
        let size : length ct + padding < 65536 =
          omega (arith, w.size, overhead_small c.aead, next_padding_small b, h) in
        let fits : ltb (length ct + padding) 65536 ≡ true = ground arith in
        let (noise, s) = pad xof R padding r in
        (
          put_u16 (bit_xor (mask_key c.shake c.iv) (length ct + padding)) ++ (ct ++ noise),
          moved c.shake (next_count c),
          s,
          rw (w.sealed, fits, mask_size_lem (length ct + padding) (next_count c), write_frame) refl,
          record {
            wire = (
              bit_xor (mask_key c.shake c.iv) (length ct + padding),
              ct,
              noise,
              refl,
              refl,
              length-pad padding r,
              w,
            );
            moved_on = moved-next_count c.shake c;
          },
        )

    moved-IsSealed :
        (shake : Option ℕ) (b : Body) (piece ct : List ℕ)
        → IsSealed b.aead (chunk_nonce b) piece ct
        → IsSealed (moved shake b).aead (chunk_nonce (moved shake b)) piece ct
    unfolding moved
    moved-IsSealed none b piece ct v = v
    moved-IsSealed (some place) b piece ct v = v

    moved-overhead : (shake : Option ℕ) (b : Body) → overhead (moved shake b) ≡ overhead b
    unfolding moved
    moved-overhead none b = refl
    moved-overhead (some place) b = refl

    -- What the size on the wire is read as.
    read_size :
        (b : Body) (size : ℕ)
        → size < 65536
        → let m = bit_xor (mask_key b.shake b.iv) size in
          mask_size xof (m / 256 % 256 * 256 + m % 256) b ≡ (size, moved b.shake b)
    read_size b size h =
        let m = bit_xor (mask_key b.shake b.iv) size in
        let small : m < 65536 = bit_xor_u16 (mask_key b.shake b.iv) size (key_u16 b.shake b.iv) h in
        let two : m / 256 % 256 * 256 + m % 256 ≡ m = omega arith in
        rw two (
          mask_size_lem m b
          ∙ ap (λ (n : ℕ). (n, moved b.shake b)) (bit_xor_twice (mask_key b.shake b.iv) size))

    read_chunk_step :
        (b after : Body) (piece frame rest : List ℕ)
        → IsFrame b piece frame after
        → length piece ≤ 8192
        → (ct : List ℕ) × (noise : List ℕ) × (read_chunk xof (frame ++ rest) b
            ≡ read_body xof
                (length ct + (next_padding xof b).0)
                (next_padding xof b).0
                ((ct ++ noise) ++ rest)
                (moved (next_padding xof b).1.shake (next_padding xof b).1))
          × (length noise ≡ (next_padding xof b).0)
          × IsSealed
              (moved (next_padding xof b).1.shake (next_padding xof b).1).aead
              (chunk_nonce (moved (next_padding xof b).1.shake (next_padding xof b).1))
              piece
              ct
    unfolding read_chunk
    read_chunk_step b after piece frame rest f h =
        let (m, ct, noise, e, q, n, v) = f.wire in
        let c = (next_padding xof b).1 in
        let size : length ct + (next_padding xof b).0 < 65536 =
          omega (arith, v.size, overhead_small c.aead, next_padding_small b, h) in
        (
          ct,
          noise,
          rw (e, q, read_size c (length ct + (next_padding xof b).0) size) refl,
          n,
          moved-IsSealed c.shake c piece ct v,
        )

    -- The frame of a piece is read as the piece, by a body that is then where the writer's is.
    pub read_chunk-write_frame :
        (b after : Body) (piece frame rest : List ℕ)
        → IsFrame b piece frame after
        → 0 < length piece
        → length piece ≤ 8192
        → read_chunk xof (frame ++ rest) b ≡ ok (some piece, (rest, after))
    read_chunk-write_frame b after piece frame rest f some_byte h =
        let (ct, noise, e, n, v) = read_chunk_step b after piece frame rest f h in
        e
        ∙ read_body_piece _ _ _ piece ct noise rest v some_byte n refl
        ∙ ap (λ t. ok (some piece, (rest, t))) (sym f.moved_on)

    -- The frame of no bytes is read as the end.
    pub read_chunk-write_terminal :
        (b after : Body) (frame rest : List ℕ)
        → IsFrame b [] frame after
        → (left : List ℕ) × (end : Body) × (read_chunk xof (frame ++ rest) b
            ≡ ok (none, (left, end)))
    read_chunk-write_terminal b after frame rest f =
        let (ct, noise, e, n, v) = read_chunk_step b after [] frame rest f (omega arith) in
        let d = moved (next_padding xof b).1.shake (next_padding xof b).1 in
        (
          (ct ++ noise) ++ rest,
          d,
          e
              ∙ read_body_end d _ (next_padding xof b).0 ((ct ++ noise) ++ rest)
                  (omega (arith, v.size)),
        )

    moved-aead : (shake : Option ℕ) (b : Body) → (next_count (moved shake b)).aead ≡ b.aead
    unfolding moved
    moved-aead none b = refl
    moved-aead (some place) b = refl

    pub frame-aead :
        (b after : Body) (piece frame : List ℕ) → IsFrame b piece frame after → after.aead ≡ b.aead
    frame-aead b after piece frame f =
        ap (λ (t : Body). t.aead) f.moved_on
        ∙ moved-aead (next_padding xof b).1.shake (next_padding xof b).1
        ∙ next_padding-aead b
