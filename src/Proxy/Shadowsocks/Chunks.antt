-- ===== src/Proxy/Shadowsocks/Chunks.antt =====
-- proxy/src/shadowsocks.rs: the chunks of the two sides are a codec.
use xray_rs.Base.{
  ℕ, suc, ◌+◌, ◌*◌, ◌/◌, ◌%◌, ◌≤◌, ◌<◌, ◌≡◌, refl, true, false, some, List, [], ◌∷◌, ◌++◌, ltb,
  length, length-append, append_assoc, append-nil, take, drop, take-append, drop-append, chunks,
  concat, concat-chunks, chunks-IsChunk, IsChunk, All, arith,
}
use mathlib.Core.Path.{subst}
use xray_rs.Base.Result.{ok}
use xray_rs.Kernel.Net.{put_u16}
use xray_rs.Proxy.Crypto.{IsCipher, nonce_bytes, inc}
use xray_rs.Proxy.Framed.{up_loop, down, ended}
use xray_rs.Proxy.Framed.Codec.{Reads, here, next, IsWritten, IsFinished, IsCodec, up-down}
use xray_rs.Proxy.Shadowsocks.{
  max_chunk, SsChunks, chunk_len, open_next, seal_next, read_payload, read_sized, ss_read_chunk,
  u16_or_zero, write_piece, write_pieces, ss_write_chunks, ss_read, ss_write,
}

-- The state after a use of the cipher.
abbrev pub stepped : SsChunks → SsChunks
stepped s = record s { nonce = inc s.nonce }

pub record IsSealedNext (s : SsChunks) (plain ct : List ℕ) : Type 0 where
  pub sealed : seal_next plain s ≡ ok (ct, stepped s)
  pub size : length ct ≡ length plain + 16
  pub opened : open_next ct s ≡ ok (plain, stepped s)

pub seal_next-IsSealedNext :
    (s : SsChunks) (plain : List ℕ)
    → IsCipher s.aead
    → length plain ≤ 65536
    → (ct : List ℕ) × IsSealedNext s plain ct
unfolding seal_next open_next
seal_next-IsSealedNext s plain v h =
    let (ct, e, n, d) = v.seals (nonce_bytes s.nonce) plain h in
    (ct, record { sealed = rw (e, seal_next) refl; size = n; opened = rw (d, open_next) refl })

-- A text behind its length is read as that text.
pub read_sized_lem :
    (s : SsChunks) (plain ct rest : List ℕ)
    → IsSealedNext s plain ct
    → length plain < 65536
    → read_sized (ct ++ rest) (put_u16 (u16_or_zero (length plain)), s)
      ≡ ok (plain, (rest, stepped s))
unfolding read_sized read_payload chunk_len
read_sized_lem s plain ct rest v h =
    let small : ltb (length plain) 65536 ≡ true = ground arith in
    let n : length plain / 256 % 256 * 256 + length plain % 256 ≡ length plain = omega arith in
    let whole : length ct ≡ length plain + 16 = v.size in
    let enough : ltb (length (ct ++ rest)) (length plain + 16) ≡ false =
      ground (arith, length-append ct rest, whole) in
    let front : take (length plain + 16) (ct ++ rest) ≡ ct = rw (← whole) (take-append ct rest) in
    let back : drop (length plain + 16) (ct ++ rest) ≡ rest = rw (← whole) (drop-append ct rest) in
    rw (small, n, read_payload, enough, front, v.opened, small, n, back) refl

-- What is written for a piece: its sealed length and its sealed text.
pub record IsSealedPiece (s : SsChunks) (piece wire : List ℕ) : Type 0 where
  pub lenct : List ℕ
  pub payct : List ℕ
  pub parts : wire ≡ lenct ++ payct
  pub len_sealed : IsSealedNext s (put_u16 (u16_or_zero (length piece))) lenct
  pub text_sealed : IsSealedNext (stepped s) piece payct
  pub written : write_piece piece s ≡ ok (wire, stepped (stepped s))

pub write_piece-IsSealedPiece :
    (s : SsChunks) (piece : List ℕ)
    → IsCipher s.aead
    → length piece ≤ 65536
    → (wire : List ℕ) × IsSealedPiece s piece wire
unfolding write_piece
write_piece-IsSealedPiece s piece v h =
    let (lenct, a) =
      seal_next-IsSealedNext s (put_u16 (u16_or_zero (length piece))) v (omega arith) in
    let (payct, b) = seal_next-IsSealedNext (stepped s) piece v h in
    (
      lenct ++ payct,
      record {
        lenct = lenct;
        payct = payct;
        parts = refl;
        len_sealed = a;
        text_sealed = b;
        written = rw (a.sealed, b.sealed, write_piece) refl;
      },
    )

ss_read_chunk_lem :
    (s : SsChunks) (piece lenct payct rest : List ℕ)
    → IsSealedNext s (put_u16 (u16_or_zero (length piece))) lenct
    → IsSealedNext (stepped s) piece payct
    → length piece < 65536
    → ss_read_chunk (lenct ++ (payct ++ rest)) s ≡ ok (some piece, (rest, stepped (stepped s)))
unfolding ss_read_chunk
ss_read_chunk_lem s piece lenct payct rest a b h =
    let n : length lenct ≡ 18 = a.size in
    let enough : ltb (length (lenct ++ (payct ++ rest))) 18 ≡ false =
      ground (arith, length-append lenct (payct ++ rest), n) in
    let front : take 18 (lenct ++ (payct ++ rest)) ≡ lenct =
      rw (← n) (take-append lenct (payct ++ rest)) in
    let back : drop 18 (lenct ++ (payct ++ rest)) ≡ payct ++ rest =
      rw (← n) (drop-append lenct (payct ++ rest)) in
    rw (enough, front, a.opened, back, read_sized_lem (stepped s) piece payct rest b h) refl

ss_read_chunk-write_piece :
    (s : SsChunks) (piece wire rest : List ℕ)
    → IsSealedPiece s piece wire
    → length piece < 65536
    → ss_read_chunk (wire ++ rest) s ≡ ok (some piece, (rest, stepped (stepped s)))
ss_read_chunk-write_piece s piece wire rest p h =
    rw (p.parts, append_assoc p.lenct p.payct rest)
      (ss_read_chunk_lem s piece p.lenct p.payct rest p.len_sealed p.text_sealed h)

-- The chunks of pieces, and that they are read one by one.
record AreWritten (s : SsChunks) (pieces : List (List ℕ)) : Type 0 where
  wire : List ℕ
  after : SsChunks
  written : write_pieces pieces s ≡ ok (wire, after)
  reads : (rest : List ℕ) → Reads ss_read ss_write s (wire ++ rest) pieces after rest
  few : length pieces ≤ length wire
  cipher : IsCipher after.aead

piece_long : (s : SsChunks) (piece wire : List ℕ) → IsSealedPiece s piece wire → 1 ≤ length wire
piece_long s piece wire p =
    rw (p.parts) (omega (arith, length-append p.lenct p.payct, p.len_sealed.size))

write_pieces-AreWritten :
    (pieces : List (List ℕ)) (s : SsChunks)
    → IsCipher s.aead
    → All (IsChunk max_chunk) pieces
    → AreWritten s pieces
unfolding write_pieces
write_pieces-AreWritten [] s v a = record {
  wire = [];
  after = s;
  written = refl;
  reads = λ rest. here;
  few = omega arith;
  cipher = v;
}
write_pieces-AreWritten (piece ∷ pieces) s v ((low, high), a) =
    let (front, p) = write_piece-IsSealedPiece s piece v (omega (arith, high)) in
    let w = write_pieces-AreWritten pieces (stepped (stepped s)) v a in
    record {
      wire = front ++ w.wire;
      after = w.after;
      written = rw (p.written, w.written, write_pieces) refl;
      reads = λ rest. rw (append_assoc front w.wire rest) (
          next (ss_read_chunk-write_piece s piece front (w.wire ++ rest) p (omega (arith, high)))
            (w.reads rest));
      few = omega (arith, length-append front w.wire, w.few, piece_long s piece front p);
      cipher = w.cipher;
    }

-- A reader and a writer in step: the same state.
abbrev pub Agrees : SsChunks → SsChunks → Type 0
Agrees d e = (d ≡ e) × IsCipher e.aead

-- The end of a connection ends the chunks.
abbrev pub IsEof : List ℕ → Type 0
IsEof rest = rest ≡ []

ss_writes :
    (d e : SsChunks) (bytes : List ℕ) → Agrees d e → IsWritten ss_read ss_write Agrees d e bytes
unfolding ss_write_chunks
ss_writes d e bytes (same, v) =
    let w =
      write_pieces-AreWritten (chunks (length bytes) max_chunk bytes) e v
        (chunks-IsChunk (length bytes) max_chunk bytes (omega arith)) in
    record {
      wire = w.wire;
      writer = w.after;
      written = w.written;
      chunks = chunks (length bytes) max_chunk bytes;
      reader = w.after;
      reads = λ rest. rw same (w.reads rest);
      whole = concat-chunks (length bytes) max_chunk bytes (omega arith) (omega arith);
      few = w.few;
      agrees = (refl, w.cipher);
    }

ss_finishes : (d e : SsChunks) → Agrees d e → IsFinished ss_read ss_write IsEof d e
unfolding ss_read_chunk
ss_finishes d e (same, v) = record {
  wire = [];
  writer = e;
  written = refl;
  reads = λ rest tail. (([], d), rw tail refl);
}

-- The chunks of the two sides of a connection are a codec.
pub ss_IsCodec : IsCodec ss_read ss_write IsEof Agrees
ss_IsCodec = record { writes = ss_writes; finishes = ss_finishes }

-- Whatever one side of a Shadowsocks connection writes, in pieces of any length, comes out of the
-- other side whole and in order where the nonces of the two agree, and the end of the connection
-- ends it.
pub ss_read-ss_write :
    (s : SsChunks)
    → IsCipher s.aead
    → (datas : List (List ℕ)) (extra : ℕ)
    → (wire : List ℕ) × (f : SsChunks) × (down ss_write datas s ≡ ok (wire, f))
      × ((up_loop ss_read (suc (length wire) + extra) wire s).0 ≡ ended)
      × (concat (up_loop ss_read (suc (length wire) + extra) wire s).1 ≡ concat datas)
ss_read-ss_write s v datas extra =
    let (wire, f, q, u, w) =
      up-down ss_read ss_write IsEof Agrees ss_IsCodec datas s s [] extra (refl, v) refl in
    (
      wire,
      f,
      q,
      subst (λ t. (up_loop ss_read (suc (length wire) + extra) t s).0 ≡ ended) (append-nil wire) u,
      subst (λ t. concat (up_loop ss_read (suc (length wire) + extra) t s).1 ≡ concat datas)
          (append-nil wire) w,
    )
