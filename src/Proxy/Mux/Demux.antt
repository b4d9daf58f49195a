-- ===== src/Proxy/Mux/Demux.antt =====
-- proxy/src/mux.rs, `demux` with its handlers: the loop over the frames of one carrier. The carrier
-- is the bytes that are still to come before its end; the reader's buffer hides how they are cut.
-- What the handlers do to the world is a list of effects, the last one first.
pub mod Ends
pub mod Sessions
use xray_rs.Base.{
  ℕ, zero, suc, ◌+◌, Bool, true, false, ◌||◌, not, Option, none, some, List, [], ◌∷◌, ◌++◌, ltb,
  ◌==◌, if◌then◌else◌, length, bit_and,
}
use xray_rs.Base.Eq.{nat_eq}
use xray_rs.Base.Dict.{Dict, lookup, insert, remove}
use xray_rs.Base.Result.{Result, ok, err, ok_or, Parser, pure, fail, ◌>>=◌}
use xray_rs.Kernel.Error.{IoError, message, invalid_data, unexpected_eof}
use xray_rs.Kernel.Net.{Network, Destination}
use xray_rs.Kernel.Cursor.{read_port, take_bytes}
use xray_rs.Proxy.Mux.{
  Meta, st_new, st_keep, st_end, st_keepalive, opt_data, max_meta, max_data, parse_meta,
}

-- A sub-session, by the number of its channel.
pub data Sub : Type 0 where
  tcp udp : (channel : ℕ) → Sub

-- `open` makes a channel, dials or binds behind it and spawns its tasks; a send puts data on a
-- channel; `close` drops the sender.
pub data Effect : Type 0 where
  open_tcp open_udp : (channel sid : ℕ) → Destination → Effect
  send_tcp : (channel : ℕ) → List ℕ → Effect
  send_udp : (channel : ℕ) → List ℕ → Destination → Effect
  close : (channel : ℕ) → Effect

pub record State : Type 0 where
  pub sessions : Dict ℕ Sub
  pub next_channel : ℕ
  pub effects : List Effect

-- What `demux` begins with.
abbrev pub start : State
start = record { sessions = []; next_channel = 0; effects = [] }

abbrev pub channel_of : Sub → ℕ
channel_of (tcp c) = c
channel_of (udp c) = c

-- `Reader::take` and `Reader::u16`
unfoldable pub take : ℕ → Parser IoError (List ℕ)
take n buf = elim (take_bytes n buf) [
  | ok r ↦ ok r
  | err _ ↦ err (message unexpected_eof "mux eof")
]

unfoldable pub u16 : Parser IoError ℕ
u16 buf = elim (read_port buf) [ ok r ↦ ok r | err _ ↦ err (message unexpected_eof "mux eof") ]

abbrev pub act : Effect → State → State
act e s = record s { effects = e ∷ s.effects }

-- The sender that an entry of the map held is dropped with it.
abbrev pub drop_sender : Option Sub → List Effect → List Effect
drop_sender none es = es
drop_sender (some sub) es = close (channel_of sub) ∷ es

-- `sessions.insert`
unfoldable pub register : ℕ → Sub → State → State
register sid sub s = record s {
  sessions = insert sid sub s.sessions;
  effects = drop_sender (lookup sid s.sessions) s.effects;
}

-- A fresh channel's number, used up.
abbrev pub opened : Effect → State → State
opened e s = record s { next_channel = s.next_channel + 1; effects = e ∷ s.effects }

abbrev pub first_packet : ℕ → Destination → Option (List ℕ) → State → State
first_packet c target none s = s
first_packet c target (some d) s = act (send_udp c d target) s

abbrev pub first_chunk : ℕ → Option (List ℕ) → State → State
first_chunk c none s = s
first_chunk c (some []) s = s
first_chunk c (some (b ∷ d)) s = act (send_tcp c (b ∷ d)) s

unfoldable pub open_session : ℕ → Destination → Option (List ℕ) → State → State
open_session sid target d s =
    let c = s.next_channel in
    elim target.network [
      | Network.udp ↦
          register sid (udp c) (first_packet c target d (opened (open_udp c sid target) s))
      | _ ↦ register sid (tcp c) (first_chunk c d (opened (open_tcp c sid target) s))
    ]

unfoldable pub handle_new : Meta → Option (List ℕ) → State → State
handle_new meta d s = elim meta.target [ none ↦ s | some t ↦ open_session meta.sid t d s ]

unfoldable pub handle_keep : Meta → List ℕ → State → State
handle_keep meta d s = elim (lookup meta.sid s.sessions) [
  | none ↦ s
  | some (tcp c) ↦ act (send_tcp c d) s
  | some (udp c) ↦ elim meta.target [ none ↦ s | some t ↦ act (send_udp c d t) s ]
]

unfoldable pub handle_end : ℕ → State → State
handle_end sid s = record s {
  sessions = remove sid s.sessions;
  effects = drop_sender (lookup sid s.sessions) s.effects;
}

abbrev pub kept : Meta → Option (List ℕ) → State → State
kept meta none s = s
kept meta (some d) s = handle_keep meta d s

-- One frame's effect by its status; another status ends the carrier.
unfoldable pub handle : Meta → Option (List ℕ) → State → Result IoError State
handle meta d s =
    if meta.status == st_new
    then ok (handle_new meta d s)
    else if meta.status == st_keep
    then ok (kept meta d s)
    else if meta.status == st_end
    then ok (handle_end meta.sid s)
    else if meta.status == st_keepalive
    then ok s
    else err (message invalid_data "mux status")

-- The data of a frame whose option says that it has some.
unfoldable pub read_data : ℕ → Parser IoError (Option (List ℕ))
read_data option =
    if bit_and option opt_data == 0
    then pure none
    else (u16 >>= λ dlen.
        if ltb max_data dlen
        then fail (message invalid_data "mux datalen")
        else (take dlen >>= λ d. pure (some d)))

unfoldable pub parsed : List ℕ → Parser IoError Meta
parsed meta_bytes buf = elim (parse_meta meta_bytes) [
  | none ↦ err (message invalid_data "mux meta")
  | some m ↦ ok (m, buf)
]

-- A frame behind its length.
unfoldable pub read_frame : ℕ → Parser IoError (Meta × Option (List ℕ))
read_frame metalen =
    if metalen == 0 || ltb max_meta metalen then fail (message invalid_data "mux metalen") else (do
      meta_bytes ← take metalen
      meta ← parsed meta_bytes
      d ← read_data meta.option
      pure (meta, d))

pub data Round : Type 0 where
  again : State → List ℕ → Round
  stop : Result IoError State → Round

-- One round of the loop. An end of the carrier before a length is a clean end.
unfoldable pub round : State → List ℕ → Round
round s buf = elim (u16 buf) [
  | err _ ↦ stop (ok s)
  | ok (metalen, rest) ↦ elim (read_frame metalen rest) [
    | err e ↦ stop (err e)
    | ok ((meta, d), more) ↦ elim (handle meta d s) [ err e ↦ stop (err e) | ok s' ↦ again s' more ]
  ]
]

-- The loop; `none` is fuel run out.
unfoldable pub demux : ℕ → State → List ℕ → Option (Result IoError State)
demux zero s buf = none
demux (suc fuel) s buf = elim (round s buf) [ stop r ↦ some r | again s' rest ↦ demux fuel s' rest ]
