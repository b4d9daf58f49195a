-- ===== src/Proxy/Mux/Frames.antt =====
-- proxy/src/mux.rs: the frames that the server sends are read back by the reader of frames.
use xray_rs.Base.{
  ℕ, ◌+◌, ◌*◌, ◌/◌, ◌%◌, ◌≤◌, ◌<◌, ◌≡◌, refl, sym, ap, ◌∙◌, true, false, Option, none, some, List,
  [], ◌∷◌, ◌++◌, ltb, lt→ltb, le→ltb, ◌==◌, length, arith, append_assoc, append-nil,
}
use xray_rs.Base.Result.{Result, ok, ◌>>=◌, >>=-ok}
use xray_rs.Kernel.Cursor.{take_bytes-front}
use xray_rs.Kernel.Net.{
  Address, v4, v6, ip, domain, Destination, Network, byte_for, read, write, write_address, put_u16,
  vless_codec,
}
use xray_rs.Kernel.Net.RoundTrip.{IsPlain, read-write, read_port-put_u16}
use xray_rs.Proxy.Mux.{
  Meta, st_keep, st_end, opt_data, max_meta, max_data, parse_meta, parse_target, keep_udp_meta,
  frame_keep_tcp, frame_keep_udp, frame_end,
}
use xray_rs.Proxy.Mux.Demux.{take, u16, parsed, read_data, read_frame}
use xray_rs.Kernel.Error.{IoError}

u16-front : (n : ℕ) (rest : List ℕ) → n < 65536 → u16 (put_u16 n ++ rest) ≡ ok (n, rest)
unfolding u16
u16-front n rest h = rw (read_port-put_u16 n rest h, u16) refl

take-front : (xs rest : List ℕ) → take (length xs) (xs ++ rest) ≡ ok (xs, rest)
unfolding take
take-front xs rest = rw (take_bytes-front xs rest, take) refl

-- One frame off the front of the carrier: its length, and then the frame.
unfoldable pub next_frame : List ℕ → Result IoError ((Meta × Option (List ℕ)) × List ℕ)
next_frame = u16 >>= read_frame

read_data-front :
    (d rest : List ℕ)
    → length d ≤ max_data
    → read_data 1 (put_u16 (length d) ++ (d ++ rest)) ≡ ok (some d, rest)
unfolding read_data
read_data-front d rest h =
    >>=-ok u16 _ _ (u16-front (length d) (d ++ rest) (omega arith))
    ∙ rw (le→ltb max_data (length d) h) (>>=-ok (take (length d)) _ _ (take-front d rest))

read_frame-front :
    (meta_bytes more rest : List ℕ) (m : Meta) (d : Option (List ℕ))
    → 0 < length meta_bytes
    → length meta_bytes ≤ max_meta
    → parse_meta meta_bytes ≡ some m
    → read_data m.option more ≡ ok (d, rest)
    → next_frame (put_u16 (length meta_bytes) ++ (meta_bytes ++ more)) ≡ ok ((m, d), rest)
unfolding next_frame read_frame parsed
read_frame-front meta_bytes more rest m d pos small h k =
    let some_meta : (length meta_bytes == 0) ≡ false = ground arith in
    >>=-ok u16 _ _ (u16-front (length meta_bytes) (meta_bytes ++ more) (omega arith))
    ∙ rw (some_meta, le→ltb max_meta (length meta_bytes) small)
        (>>=-ok (take (length meta_bytes)) _ _ (take-front meta_bytes more)
          ∙ >>=-ok (parsed meta_bytes) _ more {a = m} {rest = more} (rw (h, parsed) refl)
          ∙ >>=-ok (read_data m.option) _ more k)

sid_lem : (sid : ℕ) → sid < 65536 → sid / 256 % 256 * 256 + sid % 256 ≡ sid
sid_lem sid h = omega arith

-- A frame with TCP data, of at most 8192 bytes, is read back as the data of its session; what follows
-- is left.
pub next_frame-frame_keep_tcp :
    (sid : ℕ) (d rest : List ℕ)
    → sid < 65536
    → length d ≤ max_data
    → next_frame (frame_keep_tcp sid d ++ rest)
      ≡ ok
          ((record { sid = sid; status = st_keep; option = opt_data; target = none }, some d), rest)
unfolding frame_keep_tcp
next_frame-frame_keep_tcp sid d rest h k = rw (lt→ltb (length d) 65536 (omega arith)) (
    read_frame-front (put_u16 sid ++ (st_keep ∷ opt_data ∷ [])) (put_u16 (length d) ++ (d ++ rest))
      rest (record { sid = sid; status = st_keep; option = opt_data; target = none }) (some d)
      (omega arith) (omega arith) (unfold parse_meta in rw (sid_lem sid h) refl)
      (read_data-front d rest k))

-- The frame that ends a session is read back as its end, without data.
pub next_frame-frame_end :
    (sid : ℕ) (rest : List ℕ)
    → sid < 65536
    → next_frame (frame_end sid ++ rest)
      ≡ ok ((record { sid = sid; status = st_end; option = 0; target = none }, none), rest)
unfolding frame_end
next_frame-frame_end sid rest h =
    read_frame-front (put_u16 sid ++ (st_end ∷ 0 ∷ [])) rest rest
      (record { sid = sid; status = st_end; option = 0; target = none }) none (omega arith)
      (omega arith) (unfold parse_meta in rw (sid_lem sid h) refl) (unfold read_data in refl)

write-short :
    (a : Address) (port : ℕ) (bs : List ℕ)
    → IsPlain a
    → write vless_codec a port ≡ ok bs
    → length bs ≤ 260
unfolding write write_address byte_for
write-short (ip (v4 a)) port bs h e =
    let q : put_u16 port ++ (1 ∷ a) ≡ bs = cc in rw (← q) (omega arith)
write-short (ip (v6 a)) port bs (h, _) e =
    let q : put_u16 port ++ (3 ∷ a) ≡ bs = cc in rw (← q) (omega arith)
write-short (domain d) port bs h e =
    let q : put_u16 port ++ (2 ∷ length d ∷ d) ≡ bs =
      cc (rw (lt→ltb (length d) 256 h.0, write, write_address) at e) in
    rw (← q) (omega (arith, h.0))

parse_meta-udp :
    (sid : ℕ) (addr : List ℕ) (a : Address) (port : ℕ)
    → sid < 65536
    → read vless_codec addr ≡ ok ((a, port), [])
    → parse_meta (keep_udp_meta sid addr)
      ≡ some (record {
        sid = sid;
        status = st_keep;
        option = opt_data;
        target = some (record { network = Network.udp; address = a; port = port });
      })
unfolding parse_meta parse_target
parse_meta-udp sid addr a port h e =
    rw (e, parse_target)
      (ap
        (λ (n : ℕ). some (record {
          sid = n;
          status = st_keep;
          option = opt_data;
          target = some (record { network = Network.udp; address = a; port = port });
        }))
        (sid_lem sid h))

-- A frame with a datagram of at most 8192 bytes, from an address that the codec carries as it is, is
-- read back with this address.
pub next_frame-frame_keep_udp :
    (sid : ℕ) (target : Destination) (d rest : List ℕ)
    → sid < 65536
    → length d ≤ max_data
    → IsPlain target.address
    → target.port < 65536
    → (bs : List ℕ) × (frame_keep_udp sid target d ≡ some bs)
      × (next_frame (bs ++ rest)
          ≡ ok (
            (
              record {
                sid = sid;
                status = st_keep;
                option = opt_data;
                target = some (record {
                  network = Network.udp;
                  address = target.address;
                  port = target.port;
                });
              },
              some d,
            ),
            rest,
          ))
unfolding frame_keep_udp
next_frame-frame_keep_udp sid target d rest h k plain p =
    let (addr, w, r) = read-write vless_codec target.address target.port [] plain p in
    let short = write-short target.address target.port addr plain w in
    let alone : read vless_codec addr ≡ ok ((target.address, target.port), []) =
      ap (read vless_codec) (sym (append-nil addr)) ∙ r in
    let fits : ltb (length (keep_udp_meta sid addr)) 65536 ≡ true = lt→ltb _ 65536 (omega arith) in
    let fits' : ltb (length d) 65536 ≡ true = lt→ltb (length d) 65536 (omega arith) in
    (
      put_u16 (length (keep_udp_meta sid addr))
          ++ (keep_udp_meta sid addr ++ (put_u16 (length d) ++ d)),
      rw (w, fits, fits', frame_keep_udp) refl,
      rw (append_assoc (keep_udp_meta sid addr) (put_u16 (length d) ++ d) rest) (
          read_frame-front (keep_udp_meta sid addr) (put_u16 (length d) ++ (d ++ rest)) rest
            (record {
              sid = sid;
              status = st_keep;
              option = opt_data;
              target =
                  some (record {
                    network = Network.udp;
                    address = target.address;
                    port = target.port;
                  });
            })
            (some d) (omega arith) (omega arith)
            (parse_meta-udp sid addr target.address target.port h alone)
            (read_data-front d rest k)),
    )
