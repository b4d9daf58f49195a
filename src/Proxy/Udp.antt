-- ===== src/Proxy/Udp.antt =====
-- proxy/src/udp.rs: datagrams on a stream. Reading a stream is as in Kernel/Translation.
pub mod Framing
use xray_rs.Base.{
  ℕ, zero, suc, List, [], ◌∷◌, ◌++◌, Option, none, some, ltb, if◌then◌else◌, length, drop, ◌-◌, ◌<◌,
  Bool,
}
use xray_rs.Base.Result.{Result, ok, err, pure, ◌>>=◌}
use xray_rs.Kernel.Error.{
  Error, IoError, message, wrapped, invalid_data, unexpected_eof, is_truncated,
}
use xray_rs.Kernel.Cursor.{Decoder, read_port, take_bytes}
use xray_rs.Kernel.Net.{Destination, udp_destination, read, write, put_u16, trojan_codec}
use xray_rs.Kernel.Translation.{Event, chunk, failed}

unfoldable pub parse_trojan_packet : Decoder (Destination × List ℕ)
parse_trojan_packet = do
  p ← read trojan_codec
  len ← read_port
  _ ← take_bytes 2
  payload ← take_bytes len
  pure (udp_destination p.0 p.1, payload)

unfoldable pub parse_vless_packet : Decoder (List ℕ)
parse_vless_packet = do len ← read_port; take_bytes len

-- What `down` of the Trojan relay writes for a datagram from `target`, an error if the address cannot
-- be written; nothing for a datagram that 16 bits cannot count.
unfoldable pub trojan_frame : Destination → List ℕ → Option (Result Error (List ℕ))
trojan_frame target payload =
    if ltb (length payload) 65536
    then elim (write trojan_codec target.address target.port) [
      | err e ↦ some (err e)
      | ok addr ↦ some (ok (addr ++ (put_u16 (length payload) ++ (b'\r' ∷ b'\n' ∷ payload))))
    ]
    else none

-- The same of the VLESS relay.
unfoldable pub vless_frame : List ℕ → Option (List ℕ)
vless_frame payload =
    if ltb (length payload) 65536 then some (put_u16 (length payload) ++ payload) else none

-- `Framed`: the bytes that are read and not used yet, and the reads to come. The end of the list of
-- reads is a stream that says nothing more: it is waited for.
pub record Framed : Type 0 where
  pub buf : List ℕ
  pub reads : List Event

pub data Answer (T : Type 0) : Type 0 where
  ready : Result IoError T → Framed → Answer T
  waiting : Answer T

module _ {T : Type 0} (parse : Decoder T) where
  -- The decoder's answer on the bytes there are; `none` asks for more.
  unfoldable pub attempt : List ℕ → Option (Result IoError (T × List ℕ))
  attempt buf = elim (parse buf) [
    | ok (t, view) ↦ let consumed = length buf - length view in some (ok (t, drop consumed buf))
    | err e ↦ if is_truncated e then none else some (err (wrapped invalid_data e))
  ]

  -- An answer with the reads left; the bytes stay if it is an error.
  unfoldable pub settle : List ℕ → List Event → Result IoError (T × List ℕ) → Answer T
  settle buf es (ok (t, rest)) = ready (ok t) (record { buf = rest; reads = es })
  settle buf es (err e) = ready (err e) (record { buf = buf; reads = es })

  -- `Framed::frame`
  unfoldable pub frame : List ℕ → List Event → Answer T
  unfolding attempt settle
  frame buf [] = elim (attempt buf) [ some r ↦ settle buf [] r | none ↦ waiting ]
  frame buf (failed e ∷ es) = elim (attempt buf) [
    | some r ↦ settle buf (failed e ∷ es) r
    | none ↦ settle buf es (err e)
  ]
  frame buf (chunk [] ∷ es) = elim (attempt buf) [
    | some r ↦ settle buf (chunk [] ∷ es) r
    | none ↦ settle buf es (err (message unexpected_eof "eof in udp frame"))
  ]
  frame buf (chunk (b ∷ bs) ∷ es) =
      let more = frame (buf ++ (b ∷ bs)) es in
      elim (attempt buf) [ some r ↦ settle buf (chunk (b ∷ bs) ∷ es) r | none ↦ more ]

  -- The first `n` datagrams that `up` takes off the stream, if they come.
  unfoldable pub datagrams : ℕ → List ℕ → List Event → Option (List T × Framed)
  unfolding frame
  datagrams zero buf es = some ([], record { buf = buf; reads = es })
  datagrams (suc n) buf es = elim (frame buf es) [
    | ready (ok t) f ↦ elim (datagrams n f.buf f.reads) [
      | none ↦ none
      | some (ts, g) ↦ some (t ∷ ts, g)
    ]
    | _ ↦ none
  ]
