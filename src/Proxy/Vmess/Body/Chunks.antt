-- ===== src/Proxy/Vmess/Body/Chunks.antt =====
-- proxy/src/vmess/body.rs: the bodies of the two sides are a codec.
use xray_rs.Base.{
  ℕ, suc, ◌+◌, ◌-◌, ◌≤◌, ◌<◌, ◌≡◌, refl, Bool, Option, List, [], ◌∷◌, ◌++◌, ltb, if◌then◌else◌,
  length, length-append, append_assoc, chunks, concat, concat-chunks, chunks-IsChunk, IsChunk, All,
  arith,
}
use xray_rs.Base.Result.{ok}
use xray_rs.Proxy.Crypto.{Cipher}
use xray_rs.Proxy.Framed.Codec.{Reads, here, next, IsWritten, IsFinished, IsCodec, up-down}
use xray_rs.Proxy.Framed.{up_loop, down, ended}
use xray_rs.Proxy.Vmess.Body.{
  Random, Body, new_body, overhead, write_pieces, piece_max, write_chunk, body_read, body_write,
}
use xray_rs.Proxy.Vmess.Body.Frame.{
  IsSealer, IsFrame, frame-aead, write_frame-IsFrame, read_chunk-write_frame,
  read_chunk-write_terminal,
}

module _ (xof : (seed : List ℕ) → (place : ℕ) → ℕ)
    (u16 : (seed : List ℕ) (place : ℕ) → xof seed place < 65536) (R : Random) where
  frame_long :
      (b after : Body) (piece frame : List ℕ)
      → IsFrame xof u16 R b piece frame after
      → 1 ≤ length frame
  frame_long b after piece frame f = let (m, ct, noise, e, _, _, _) = f.wire in rw e (omega arith)

  -- The frames of pieces, and that they are read one by one.
  record AreWritten (b : Body) (r : R.Rng) (pieces : List (List ℕ)) : Type 0 where
    wire : List ℕ
    after : Body
    rng : R.Rng
    written : write_pieces xof R pieces b r ≡ ok (wire, (after, rng))
    reads :
        (rest : List ℕ)
        → Reads (body_read xof) (body_write xof R) b (wire ++ rest) pieces after rest
    few : length pieces ≤ length wire
    sealer : IsSealer after.aead

  write_pieces-AreWritten :
      (pieces : List (List ℕ)) (b : Body) (r : R.Rng)
      → IsSealer b.aead
      → All (IsChunk 8192) pieces
      → AreWritten b r pieces
  unfolding write_pieces
  write_pieces-AreWritten [] b r v a = record {
    wire = [];
    after = b;
    rng = r;
    written = refl;
    reads = λ rest. here;
    few = omega arith;
    sealer = v;
  }
  write_pieces-AreWritten (piece ∷ pieces) b r v ((low, high), a) =
      let (frame, c, s, e, f) = write_frame-IsFrame xof u16 R b piece r v high in
      let w =
        write_pieces-AreWritten pieces c s (rw (frame-aead xof u16 R b c piece frame f) v) a in
      record {
        wire = frame ++ w.wire;
        after = w.after;
        rng = w.rng;
        written = rw (e, w.written, write_pieces) refl;
        reads = λ rest. rw (append_assoc frame w.wire rest) (
            next (read_chunk-write_frame xof u16 R b c piece frame (w.wire ++ rest) f low high)
              (w.reads rest));
        few = omega (arith, length-append frame w.wire, w.few, frame_long b c piece frame f);
        sealer = w.sealer;
      }

  -- The terminal frame ends the body, whatever follows it.
  abbrev pub Anything : List ℕ → Type 0
  Anything _ = Unit

  -- A reader and a writer in step: the same body.
  abbrev pub Agrees : Body → Body × R.Rng → Type 0
  Agrees d (b, r) = (d ≡ b) × IsSealer b.aead

  piece_max_range : (b : Body) → (0 < piece_max xof R b) × (piece_max xof R b ≤ 8192)
  piece_max_range b = by_size (8192 - overhead b - 64) (omega arith)
    where
      by_size :
          (m : ℕ)
          → m ≤ 8192
          → (0 < (if ltb m 1 then 1 else m)) × ((if ltb m 1 then 1 else m) ≤ 8192)
      by_size m h = ground arith

  IsChunk-le : (n m : ℕ) (xss : List (List ℕ)) → n ≤ m → All (IsChunk n) xss → All (IsChunk m) xss
  IsChunk-le n m [] h a = tt
  IsChunk-le n m (xs ∷ xss) h ((low, high), a) =
      ((low, omega (arith, h, high)), IsChunk-le n m xss h a)

  body-writes :
      (d b : Body) (r : R.Rng) (bytes : List ℕ)
      → Agrees d (b, r)
      → IsWritten (body_read xof) (body_write xof R) Agrees d (b, r) bytes
  unfolding write_chunk
  body-writes d b r bytes (same, v) =
      let (low, high) = piece_max_range b in
      let w =
        write_pieces-AreWritten (chunks (length bytes) (piece_max xof R b) bytes) b r v (
          IsChunk-le _ 8192 _ high (chunks-IsChunk (length bytes) (piece_max xof R b) bytes low)) in
      record {
        wire = w.wire;
        writer = (w.after, w.rng);
        written = w.written;
        chunks = chunks (length bytes) (piece_max xof R b) bytes;
        reader = w.after;
        reads = λ rest. rw same (w.reads rest);
        whole = concat-chunks (length bytes) (piece_max xof R b) bytes low (omega arith);
        few = w.few;
        agrees = (refl, w.sealer);
      }

  body-finishes :
      (d b : Body) (r : R.Rng)
      → Agrees d (b, r)
      → IsFinished (body_read xof) (body_write xof R) Anything d (b, r)
  body-finishes d b r (same, v) =
      let (frame, c, s, e, f) = write_frame-IsFrame xof u16 R b [] r v (omega arith) in
      record {
        wire = frame;
        writer = (c, s);
        written = e;
        reads = λ rest _.
            let (left, end, q) = read_chunk-write_terminal xof u16 R b c frame rest f in
            rw same ((left, end), q);
      }

  -- The bodies of the two sides of a direction, with one key and one seed, are a codec.
  pub body-IsCodec : IsCodec (body_read xof) (body_write xof R) Anything Agrees
  body-IsCodec = record {
    writes = λ d (b, r) bytes a. body-writes d b r bytes a;
    finishes = λ d (b, r) a. body-finishes d b r a;
  }

  -- What one side of a VMess flow writes in any pieces, with masked sizes and paddings or without,
  -- sealed or not, comes out of the other side whole and in order, and then its end.
  pub read_chunk-write_chunk :
      (aead : Option Cipher) (iv : List ℕ) (masking global_padding : Bool)
      → IsSealer aead
      → (datas : List (List ℕ)) (r : R.Rng) (rest : List ℕ) (extra : ℕ)
      → (wire : List ℕ) × (f : Body × R.Rng) × (down
            (body_write xof R)
            datas
            (new_body aead iv masking global_padding, r)
          ≡ ok (wire, f))
        × ((up_loop
              (body_read xof)
              (suc (length wire) + extra)
              (wire ++ rest)
              (new_body aead iv masking global_padding)).0
            ≡ ended)
        × (concat
              (up_loop
                (body_read xof)
                (suc (length wire) + extra)
                (wire ++ rest)
                (new_body aead iv masking global_padding)).1
            ≡ concat datas)
  read_chunk-write_chunk aead iv masking global_padding v datas r rest extra =
      up-down (body_read xof) (body_write xof R) Anything Agrees body-IsCodec datas
        (new_body aead iv masking global_padding) (new_body aead iv masking global_padding, r) rest
        extra (refl, v) tt
