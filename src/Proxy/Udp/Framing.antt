-- ===== src/Proxy/Udp/Framing.antt =====
-- Datagrams come off the stream as they were put on it, however the network cuts it.
use xray_rs.Base.{
  ℕ, ◌-◌, ◌<◌, ◌≡◌, ◌≢◌, refl, sym, ap, ◌∙◌, ◌⊎◌, inl, inr, none, some, List, [], ◌∷◌, ◌++◌, ltb,
  lt→ltb, length, drop, arith, append_assoc, append-nil, length-append, drop-append, All,
  Bool-cases,
}
use xray_rs.Base.Result.{ok, Result-cases, >>=-ok}
use xray_rs.Kernel.Error.{is_truncated}
use xray_rs.Kernel.Cursor.{
  Decoder, IsStream, kept_ok, kept_err, read_port, take_bytes, take_bytes-front, bind-IsStream,
  pure-IsStream, read_port-IsStream, take_bytes-IsStream,
}
use xray_rs.Kernel.Net.{Network, udp, Destination, udp_destination, read, put_u16, trojan_codec}
use xray_rs.Kernel.Net.Stream.{read-IsStream}
use xray_rs.Kernel.Net.RoundTrip.{IsPlain, read-write, read_port-put_u16}
use xray_rs.Kernel.Translation.{Event, chunk, failed}
use xray_rs.Kernel.Translation.Split.{payload}
use xray_rs.Proxy.Udp.{
  parse_trojan_packet, parse_vless_packet, trojan_frame, vless_frame, Framed, ready, attempt,
  settle, frame, datagrams,
}

parse_trojan_packet-IsStream : IsStream parse_trojan_packet
unfolding parse_trojan_packet
parse_trojan_packet-IsStream = bind-IsStream (read-IsStream trojan_codec) λ p.
    bind-IsStream read_port-IsStream λ len.
      bind-IsStream (take_bytes-IsStream 2)
        λ _. bind-IsStream (take_bytes-IsStream len) λ _. pure-IsStream _

parse_vless_packet-IsStream : IsStream parse_vless_packet
unfolding parse_vless_packet
parse_vless_packet-IsStream = bind-IsStream read_port-IsStream λ len. take_bytes-IsStream len

-- A datagram that the relay puts on the stream is read back, and what follows is left.
parse_vless_packet-vless_frame :
    (data_bytes rest : List ℕ)
    → length data_bytes < 65536
    → (bs : List ℕ) × (vless_frame data_bytes ≡ some bs)
      × (parse_vless_packet (bs ++ rest) ≡ ok (data_bytes, rest))
unfolding parse_vless_packet vless_frame
parse_vless_packet-vless_frame d rest h = (
  put_u16 (length d) ++ d,
  rw (lt→ltb (length d) 65536 h) refl,
  >>=-ok read_port _ _ (read_port-put_u16 (length d) (d ++ rest) h) ∙ take_bytes-front d rest,
)

parse_trojan_packet-trojan_frame :
    (target : Destination) (d rest : List ℕ)
    → IsPlain target.address
    → target.port < 65536
    → length d < 65536
    → (bs : List ℕ) × (trojan_frame target d ≡ some (ok bs))
      × (parse_trojan_packet (bs ++ rest)
          ≡ ok ((udp_destination target.address target.port, d), rest))
unfolding parse_trojan_packet trojan_frame
parse_trojan_packet-trojan_frame target d rest plain p h =
    let tail = put_u16 (length d) ++ (b'\r' ∷ b'\n' ∷ d) in
    let (addr, w, r) = read-write trojan_codec target.address target.port (tail ++ rest) plain p in
    (
      addr ++ tail,
      rw (lt→ltb (length d) 65536 h, w, trojan_frame) refl,
      ap parse_trojan_packet (append_assoc addr tail rest)
          ∙ >>=-ok (read trojan_codec) _ _ r
          ∙ >>=-ok read_port _ _ (read_port-put_u16 (length d) (b'\r' ∷ b'\n' ∷ (d ++ rest)) h)
          ∙ >>=-ok (take_bytes 2) _ _ (take_bytes-front (b'\r' ∷ b'\n' ∷ []) (d ++ rest))
          ∙ >>=-ok (take_bytes (length d)) _ _ (take_bytes-front d rest),
    )

module _ {T : Type 0} (parse : Decoder T) (stream : IsStream parse) where
  attempt-ok :
      (buf : List ℕ) (t : T) (left : List ℕ)
      → parse buf ≡ ok (t, left)
      → attempt parse buf ≡ some (ok (t, left))
  unfolding attempt
  attempt-ok buf t left h =
      let (_, front, split, _) = kept_ok stream buf [] h in
      let e : length (front ++ left) - length left ≡ length front =
        omega (arith, length-append front left) in
      let d : drop (length buf - length left) buf ≡ left = rw (split, e) (drop-append front left) in
      rw (h, attempt) (ap (λ r. some (ok (t, r))) d)

  -- Either the decoder answers on `buf`, and leaves the rest; or it asks for more, and more is there.
  settled :
      (buf ys : List ℕ) (t : T) (rest : List ℕ)
      → parse (buf ++ ys) ≡ ok (t, rest)
      → ((left : List ℕ) × (attempt parse buf ≡ some (ok (t, left))) × (left ++ ys ≡ rest))
        ⊎ ((attempt parse buf ≡ none) × (ys ≢ []))
  unfolding attempt
  settled buf ys t rest h = elim (Result-cases (parse buf)) [
    | inl ((a, view), e) ↦
        let k = (kept_ok stream buf ys e).0 in
        let same : a ≡ t = cc in inl (view, rw (← same) (attempt-ok buf a view e), cc)
    | inr (x, e) ↦ elim (Bool-cases (is_truncated x)) [
      | inr final ↦ cc (h, kept_err stream buf ys e final)
      | inl more ↦ inr (rw (e, more, attempt) refl, λ z. cc (append-nil buf))
    ]
  ]

  -- The decoder's datagram, and what is left of the buffer and the reads to come.
  Comes : List ℕ → List Event → T → List ℕ → Type 0
  Comes buf es t rest =
      (f : Framed) × (frame parse buf es ≡ ready (ok t) f) × (f.buf ++ payload f.reads ≡ rest)

  now :
      (buf : List ℕ) (es : List Event) (t : T) (rest : List ℕ)
      → ((left : List ℕ) × (attempt parse buf ≡ some (ok (t, left))) × (left ++ payload es ≡ rest))
      → Comes buf es t rest
  unfolding frame Comes settle
  now buf [] t rest (left, h, e) = (record { buf = left; reads = [] }, rw (h, frame) refl, e)
  now buf (failed x ∷ es) t rest (left, h, e) =
      (record { buf = left; reads = failed x ∷ es }, rw (h, frame) refl, e)
  now buf (chunk [] ∷ es) t rest (left, h, e) =
      (record { buf = left; reads = chunk [] ∷ es }, rw (h, frame) refl, e)
  now buf (chunk (b ∷ bs) ∷ es) t rest (left, h, e) =
      (record { buf = left; reads = chunk (b ∷ bs) ∷ es }, rw (h, frame) refl, e)

  later :
      (buf : List ℕ) (b : ℕ) (bs : List ℕ) (es : List Event) (t : T) (rest : List ℕ)
      → attempt parse buf ≡ none
      → Comes (buf ++ (b ∷ bs)) es t rest
      → Comes buf (chunk (b ∷ bs) ∷ es) t rest
  unfolding frame Comes
  later buf b bs es t rest more (f, h, e) = (f, rw (more, frame) h, e)

  frame_comes :
      (buf : List ℕ) (es : List Event) (t : T) (rest : List ℕ)
      → parse (buf ++ payload es) ≡ ok (t, rest)
      → Comes buf es t rest
  frame_comes buf [] t rest h = elim (settled buf [] t rest h) [
    | inl p ↦ now buf [] t rest p
    | inr (_, more) ↦ absurd (more refl)
  ]
  frame_comes buf (failed x ∷ es) t rest h = elim (settled buf [] t rest h) [
    | inl p ↦ now buf (failed x ∷ es) t rest p
    | inr (_, more) ↦ absurd (more refl)
  ]
  frame_comes buf (chunk [] ∷ es) t rest h = elim (settled buf [] t rest h) [
    | inl p ↦ now buf (chunk [] ∷ es) t rest p
    | inr (_, more) ↦ absurd (more refl)
  ]
  frame_comes buf (chunk (b ∷ bs) ∷ es) t rest h =
      elim (settled buf (payload (chunk (b ∷ bs) ∷ es)) t rest h) [
        | inl p ↦ now buf (chunk (b ∷ bs) ∷ es) t rest p
        | inr (more, _) ↦ later buf b bs es t rest more (
            frame_comes (buf ++ (b ∷ bs)) es t rest (rw (append_assoc buf (b ∷ bs) (payload es)) h))
      ]

-- The bytes of the frames `ps`, one behind the other; each stands beside its datagram.
abbrev pub stream_of : {T : Type 0} → List (T × List ℕ) → List ℕ
stream_of [] = []
stream_of ((t, bs) ∷ ps) = bs ++ stream_of ps

abbrev pub datagrams_of : {T : Type 0} → List (T × List ℕ) → List T
datagrams_of [] = []
datagrams_of ((t, bs) ∷ ps) = t ∷ datagrams_of ps

-- `bs` is a frame of `t`, whatever follows.
abbrev IsFrame : {T : Type 0} → Decoder T → T × List ℕ → Type 0
IsFrame parse (t, bs) = (rest : List ℕ) → parse (bs ++ rest) ≡ ok (t, rest)

datagrams_come :
    {T : Type 0} (parse : Decoder T) (stream : IsStream parse) (ps : List (T × List ℕ))
    (buf : List ℕ) (es : List Event) (rest : List ℕ)
    → All (IsFrame parse) ps
    → buf ++ payload es ≡ stream_of ps ++ rest
    → (f : Framed) × (datagrams parse (length ps) buf es ≡ some (datagrams_of ps, f))
      × (f.buf ++ payload f.reads ≡ rest)
unfolding datagrams Comes
datagrams_come parse stream [] buf es rest h e = (record { buf = buf; reads = es }, refl, e)
datagrams_come parse stream ((t, bs) ∷ ps) buf es rest (first, h) e =
    let (f, k, l) =
      frame_comes parse stream buf es t (stream_of ps ++ rest)
        (ap parse (e ∙ append_assoc bs (stream_of ps) rest) ∙ first (stream_of ps ++ rest)) in
    let (g, m, n) = datagrams_come parse stream ps f.buf f.reads rest h l in
    (g, rw (k, m, datagrams) refl, n)

-- A datagram of the VLESS relay with its frame.
abbrev pub IsVlessFrame : List ℕ × List ℕ → Type 0
IsVlessFrame (d, bs) = vless_frame d ≡ some bs

abbrev pub IsTrojanFrame : (Destination × List ℕ) × List ℕ → Type 0
IsTrojanFrame ((target, d), bs) =
    (target.network ≡ udp)
    × IsPlain target.address
    × (target.port < 65536)
    × (trojan_frame target d ≡ some (ok bs))

vless_small : (d bs : List ℕ) → vless_frame d ≡ some bs → length d < 65536
unfolding vless_frame
vless_small d bs h = ground arith

trojan_small :
    (t : Destination) (d bs : List ℕ) → trojan_frame t d ≡ some (ok bs) → length d < 65536
unfolding trojan_frame
trojan_small t d bs h = elim (Bool-cases (ltb (length d) 65536)) [
  | inl e ↦ ground arith
  | inr e ↦ cc (rw (e, trojan_frame) at h)
]

IsVlessFrame-IsFrame : (p : List ℕ × List ℕ) → IsVlessFrame p → IsFrame parse_vless_packet p
IsVlessFrame-IsFrame (d, bs) h rest =
    let (bs', e, k) = parse_vless_packet-vless_frame d rest (vless_small d bs h) in
    let same : bs' ≡ bs = cc in rw same at k

IsTrojanFrame-IsFrame :
    (p : (Destination × List ℕ) × List ℕ) → IsTrojanFrame p → IsFrame parse_trojan_packet p
unfolding udp_destination
IsTrojanFrame-IsFrame ((t, d), bs) (n, plain, port, h) rest =
    let (bs', e, k) =
      parse_trojan_packet-trojan_frame t d rest plain port (trojan_small t d bs h) in
    let same : bs' ≡ bs = cc in
    let whole : udp_destination t.address t.port ≡ t =
      ap (λ (m : Network). record t { network = m }) (sym n) in
    rw (same, whole) at k

All-map :
    {A : Type 0} (P Q : A → Type 0) (xs : List A) → ((a : A) → P a → Q a) → All P xs → All Q xs
All-map P Q [] f h = tt
All-map P Q (x ∷ xs) f (p, h) = (f x p, All-map P Q xs f h)

-- If the bytes to come are the frames that the VLESS relay makes of some datagrams and then `rest`,
-- it takes just these datagrams off the stream, in order and whole, however the reads cut them, and
-- `rest` is what it leaves.
pub vless_datagrams :
    (ps : List (List ℕ × List ℕ)) (buf : List ℕ) (es : List Event) (rest : List ℕ)
    → All IsVlessFrame ps
    → buf ++ payload es ≡ stream_of ps ++ rest
    → (f : Framed) × (datagrams parse_vless_packet (length ps) buf es ≡ some (datagrams_of ps, f))
      × (f.buf ++ payload f.reads ≡ rest)
vless_datagrams ps buf es rest h e =
    datagrams_come parse_vless_packet parse_vless_packet-IsStream ps buf es rest
      (All-map IsVlessFrame (IsFrame parse_vless_packet) ps IsVlessFrame-IsFrame h) e

-- If the bytes to come are the frames that the Trojan relay makes of some datagrams and then `rest`, it
-- takes these datagrams off the stream, in order, whole and with their targets, however the reads cut
-- them, and `rest` is what it leaves. For targets over UDP with a port of 16 bits and an address that
-- the codec carries as it is.
pub trojan_datagrams :
    (ps : List ((Destination × List ℕ) × List ℕ)) (buf : List ℕ) (es : List Event) (rest : List ℕ)
    → All IsTrojanFrame ps
    → buf ++ payload es ≡ stream_of ps ++ rest
    → (f : Framed) × (datagrams parse_trojan_packet (length ps) buf es ≡ some (datagrams_of ps, f))
      × (f.buf ++ payload f.reads ≡ rest)
trojan_datagrams ps buf es rest h e =
    datagrams_come parse_trojan_packet parse_trojan_packet-IsStream ps buf es rest
      (All-map IsTrojanFrame (IsFrame parse_trojan_packet) ps IsTrojanFrame-IsFrame h) e
