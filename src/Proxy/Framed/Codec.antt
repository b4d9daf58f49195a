-- ===== src/Proxy/Framed/Codec.antt =====
-- proxy/src/io.rs: what a pair of codecs has to keep, and that a relay then carries the bytes across.
use xray_rs.Base.{
  ℕ, zero, suc, ◌+◌, ◌-◌, ◌≤◌, ◌<◌, ◌≡◌, refl, ap, sym, ◌∙◌, none, some, List, [], ◌∷◌, ◌++◌,
  append_assoc, length, length-append, concat, arith,
}
use xray_rs.Base.Result.{ok}
use xray_rs.Proxy.Framed.{ChunkRead, ChunkWrite, ended, up_loop, sent, down}

module _ {D E : Type 0} (dec : ChunkRead D) (enc : ChunkWrite E) where
  -- The chunks that come off an input, the state behind them and what is left.
  pub data Reads : D → List ℕ → List (List ℕ) → D → List ℕ → Type 0 where
    here : {d : D} {input : List ℕ} → Reads d input [] d input
    next :
        {d d' d'' : D} {input rest left : List ℕ} {chunk : List ℕ} {chunks : List (List ℕ)}
        → dec.read_chunk input d ≡ ok (some chunk, (rest, d'))
        → Reads d' rest chunks d'' left
        → Reads d input (chunk ∷ chunks) d'' left

  -- What is written for `bytes`, and that a reader in step with the writer reads those bytes off it.
  pub record IsWritten (Agrees : D → E → Type 0) (d : D) (e : E) (bytes : List ℕ) : Type 0 where
    pub wire : List ℕ
    pub writer : E
    pub written : enc.write_chunk bytes e ≡ ok (wire, writer)
    pub chunks : List (List ℕ)
    pub reader : D
    pub reads : (rest : List ℕ) → Reads d (wire ++ rest) chunks reader rest
    pub whole : concat chunks ≡ bytes
    pub few : length chunks ≤ length wire
    pub agrees : Agrees reader writer

  -- What is written for the end, and that a reader in step takes it for that, if what follows is a `Tail`.
  pub record IsFinished (Tail : List ℕ → Type 0) (d : D) (e : E) : Type 0 where
    pub wire : List ℕ
    pub writer : E
    pub written : enc.finish e ≡ ok (wire, writer)
    pub reads :
        (rest : List ℕ)
        → Tail rest
        → (end : List ℕ × D) × (dec.read_chunk (wire ++ rest) d ≡ ok (none, end))

  -- A codec: whatever is written is read, from states in step to states in step.
  pub record IsCodec (Tail : List ℕ → Type 0) (Agrees : D → E → Type 0) : Type 0 where
    pub writes : (d : D) (e : E) (bytes : List ℕ) → Agrees d e → IsWritten Agrees d e bytes
    pub finishes : (d : D) (e : E) → Agrees d e → IsFinished Tail d e

  pub sent-concat :
      (chunk : List ℕ) (sends : List (List ℕ))
      → concat (sent dec chunk sends) ≡ chunk ++ concat sends
  sent-concat [] sends = refl
  sent-concat (b ∷ chunk) sends = refl

  up_step :
      (fuel : ℕ) (d d' : D) (input rest chunk : List ℕ)
      → dec.read_chunk input d ≡ ok (some chunk, (rest, d'))
      → up_loop dec (suc fuel) input d
        ≡ ((up_loop dec fuel rest d').0, sent dec chunk (up_loop dec fuel rest d').1)
  unfolding up_loop
  up_step fuel d d' input rest chunk h = rw (h, up_loop) refl

  -- The uplink takes the chunks of a read and goes on behind them.
  up_reads :
      (fuel : ℕ) {d d' : D} {input left : List ℕ} {chunks : List (List ℕ)}
      → Reads d input chunks d' left
      → ((up_loop dec (length chunks + fuel) input d).0 ≡ (up_loop dec fuel left d').0)
        × (concat (up_loop dec (length chunks + fuel) input d).1
            ≡ concat chunks ++ concat (up_loop dec fuel left d').1)
  up_reads fuel {d} {input} here = let e : 0 + fuel ≡ fuel = omega arith in rw e (refl, refl)
  up_reads fuel {d} {d'} {input} {left}
        (next {d' = m} {rest = rest} {chunk = chunk} {chunks = chunks} h r) =
      let (a, b) = up_reads fuel r in
      let e : suc (length chunks) + fuel ≡ suc (length chunks + fuel) = omega arith in
      rw (e, up_step (length chunks + fuel) d m input rest chunk h)
        (
          a,
          sent-concat chunk (up_loop dec (length chunks + fuel) rest m).1
              ∙ ap (λ t. chunk ++ t) b
              ∙ sym (append_assoc chunk (concat chunks) (concat (up_loop dec fuel left _).1)),
        )

  -- What comes through, off what was written.
  pub record Carries (Tail : List ℕ → Type 0) (d : D) (bytes wire : List ℕ) : Type 0 where
    pub carried :
        (rest : List ℕ) (fuel : ℕ)
        → Tail rest
        → length wire < fuel
        → ((up_loop dec fuel (wire ++ rest) d).0 ≡ ended)
          × (concat (up_loop dec fuel (wire ++ rest) d).1 ≡ bytes)

  up_end :
      (fuel : ℕ) (d : D) (input : List ℕ) (end : List ℕ × D)
      → 0 < fuel
      → dec.read_chunk input d ≡ ok (none, end)
      → up_loop dec fuel input d ≡ (ended, [])
  unfolding up_loop
  up_end zero d input end p h = absurd (omega arith)
  up_end (suc fuel) d input end p h = rw (h, up_loop) refl

  down_lem :
      (Tail : List ℕ → Type 0) (Agrees : D → E → Type 0)
      → IsCodec Tail Agrees
      → (datas : List (List ℕ)) (d : D) (e : E) → Agrees d e
      → (wire : List ℕ) × (f : E) × (down enc datas e ≡ ok (wire, f))
        × Carries Tail d (concat datas) wire
  unfolding down
  down_lem Tail Agrees c [] d e a =
      let w = c.finishes d e a in
      (
        w.wire,
        w.writer,
        w.written,
        record {
          carried = λ rest fuel tail h.
              let (end, q) = w.reads rest tail in
              rw (up_end fuel d (w.wire ++ rest) end (omega (arith, h)) q) (refl, refl);
        },
      )
  down_lem Tail Agrees c (bytes ∷ more) d e a =
      let w = c.writes d e bytes a in
      let (wire, f, q, k) = down_lem Tail Agrees c more w.reader w.writer w.agrees in
      (
        w.wire ++ wire,
        f,
        rw (w.written, q, down) refl,
        record {
          carried = λ rest fuel tail h.
              let n = fuel - length w.chunks in
              let enough : length w.chunks + n ≡ fuel =
                omega (arith, h, length-append w.wire wire, w.few) in
              let (x, y) = up_reads n (w.reads (wire ++ rest)) in
              let (u, v) =
                k.carried rest n tail (omega (arith, h, length-append w.wire wire, w.few)) in
              rw (append_assoc w.wire wire rest, ← enough)
                (x ∙ u, y ∙ ap (λ t. concat w.chunks ++ t) v ∙ ap (λ t. t ++ concat more) w.whole);
        },
      )

  -- Between two sides in step, whatever is written chunk by chunk and then ended comes out of the
  -- reader's loop, whole and in order, and the loop ends there; fuel above the bytes on the wire is
  -- enough.
  pub up-down :
      (Tail : List ℕ → Type 0) (Agrees : D → E → Type 0)
      → IsCodec Tail Agrees
      → (datas : List (List ℕ)) (d : D) (e : E) (rest : List ℕ) (extra : ℕ) → Agrees d e
      → Tail rest
      → (wire : List ℕ) × (f : E) × (down enc datas e ≡ ok (wire, f))
        × ((up_loop dec (suc (length wire) + extra) (wire ++ rest) d).0 ≡ ended)
        × (concat (up_loop dec (suc (length wire) + extra) (wire ++ rest) d).1 ≡ concat datas)
  up-down Tail Agrees c datas d e rest extra a tail =
      let (wire, f, q, k) = down_lem Tail Agrees c datas d e a in
      let (u, v) = k.carried rest (suc (length wire) + extra) tail (omega arith) in
      (wire, f, q, u, v)
