-- ===== src/Kernel/Translation.antt =====
-- kernel/src/pipe/translation.rs: reading a protocol header off a connection under a deadline.
-- The connection is the sequence of what its reads return before the deadline.
pub mod Split
use xray_rs.Base.{
  ℕ, ◌-◌, ◌≤◌, ◌≡◌, Bool, true, false, Option, none, some, List, [], ◌∷◌, ◌++◌, leb, if◌then◌else◌,
  length, drop,
}
use xray_rs.Base.Result.{Result, ok, err}
use xray_rs.Kernel.Error.{
  Error, IoError, ErrorKind, message, wrapped, timed_out, invalid_data, unexpected_eof,
  is_truncated,
}
use xray_rs.Kernel.Cursor.{Decoder}

-- One `read`: its bytes (none of them is the end of the stream), or its failure.
pub data Event : Type 0 where
  chunk : List ℕ → Event
  failed : IoError → Event

-- How the reading ends: with a result and the reads that are left, or still waiting at the deadline.
pub data Outcome (T : Type 0) : Type 0 where
  ready : Result IoError T → List Event → Outcome T
  pending : Outcome T

module _ {T : Type 0} (max : ℕ) (parse : Decoder T) where
  -- One round of the loop up to its `read`: the result, or `none` where it goes on to read.
  unfoldable pub try_parse : List ℕ → Option (Result IoError (T × List ℕ))
  try_parse acc = elim (parse acc) [
    | ok (t, view) ↦ let consumed = length acc - length view in some (ok (t, drop consumed acc))
    | err e ↦
        if is_truncated e
        then if leb max (length acc)
          then some (err (message invalid_data "header too large"))
          else none
        else some (err (wrapped invalid_data e))
  ]

  unfoldable pub read_header_inner : List ℕ → List Event → Outcome (T × List ℕ)
  unfolding try_parse
  read_header_inner acc [] = elim (try_parse acc) [ some r ↦ ready r [] | none ↦ pending ]
  read_header_inner acc (failed e ∷ es) = elim (try_parse acc) [
    | some r ↦ ready r (failed e ∷ es)
    | none ↦ ready (err e) es
  ]
  read_header_inner acc (chunk [] ∷ es) = elim (try_parse acc) [
    | some r ↦ ready r (chunk [] ∷ es)
    | none ↦ ready (err (message unexpected_eof "eof during header")) es
  ]
  read_header_inner acc (chunk (b ∷ bs) ∷ es) = elim (try_parse acc) [
    | some r ↦ ready r (chunk (b ∷ bs) ∷ es)
    | none ↦ read_header_inner (acc ++ (b ∷ bs)) es
  ]

  -- Under the deadline, with the reads that are left.
  unfoldable pub read_header : List Event → Result IoError (T × List ℕ) × List Event
  unfolding read_header_inner
  read_header es = elim (read_header_inner [] es) [
    | ready r rest ↦ (r, rest)
    | pending ↦ (err (message timed_out "handshake timeout"), [])
  ]
