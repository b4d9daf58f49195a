-- ===== src/Proxy/Framed.antt =====
-- proxy/src/io.rs, `relay_framed`: a flow in chunks, read off the client and written to it by a codec.
-- The link is the list of what is sent into it and of what comes out of it.
pub mod Codec
use xray_rs.Base.{
  ℕ, zero, suc, Bool, true, false, Option, none, some, List, [], ◌∷◌, ◌++◌, ltb, length,
  if◌then◌else◌,
}
use xray_rs.Base.Result.{Result, ok, err}
use xray_rs.Kernel.Error.{IoError}

-- `ChunkRead` and `ChunkWrite`: a chunk off the input with what is left of it; the bytes that are
-- written.
pub record ChunkRead (D : Type 0) : Type 0 where
  pub read_chunk : List ℕ → D → Result IoError (Option (List ℕ) × (List ℕ × D))

pub record ChunkWrite (E : Type 0) : Type 0 where
  pub write_chunk : List ℕ → E → Result IoError (List ℕ × E)
  pub finish : E → Result IoError (List ℕ × E)

-- How the uplink ends.
pub data Ending : Type 0 where
  ended : Ending
  failed : IoError → Ending
  out_of_fuel : Ending

module _ {D : Type 0} (dec : ChunkRead D) where
  -- What is sent for a chunk: none for an empty one.
  abbrev pub sent : List ℕ → List (List ℕ) → List (List ℕ)
  sent [] sends = sends
  sent (b ∷ chunk) sends = (b ∷ chunk) ∷ sends

  -- The loop of `up`: how it ends, and what was sent.
  unfoldable pub up_loop : ℕ → List ℕ → D → Ending × List (List ℕ)
  up_loop zero input d = (out_of_fuel, [])
  up_loop (suc fuel) input d = elim (dec.read_chunk input d) [
    | err e ↦ (failed e, [])
    | ok (none, end) ↦ (ended, [])
    | ok (some chunk, (rest, next)) ↦
        let (ending, sends) = up_loop fuel rest next in (ending, sent chunk sends)
  ]

  -- `up`, with what was read before.
  unfoldable pub up : ℕ → (leftover input : List ℕ) → D → Ending × List (List ℕ)
  up fuel leftover input d =
      let (ending, sends) = up_loop fuel input d in (ending, sent leftover sends)

module _ {E : Type 0} (enc : ChunkWrite E) where
  -- `down`: all that comes out of the link, and the end.
  unfoldable pub down : List (List ℕ) → E → Result IoError (List ℕ × E)
  down [] e = enc.finish e
  down (bytes ∷ more) e = elim (enc.write_chunk bytes e) [
    | err x ↦ err x
    | ok (wire, f) ↦ elim (down more f) [ err x ↦ err x | ok (rest, g) ↦ ok (wire ++ rest, g) ]
  ]
