-- ===== src/Proxy/Tests.antt =====
-- The proxies' definitions and theorems at concrete inputs.
use xray_rs.Base.{
  ℕ, zero, suc, ◌+◌, ◌<◌, ◌≡◌, ◌≢◌, refl, ap, Bool, true, false, Option, none, some, List, [], ◌∷◌,
  ◌++◌, ◌⊎◌, arith, length, replicate, get_elem?,
}
use xray_rs.Base.Text.{bytes}
use xray_rs.Base.Result.{Result, ok}
use xray_rs.Kernel.Error.{IoError}
use xray_rs.Kernel.Cursor.{IsStream}
use xray_rs.Kernel.Net.{
  Network, Address, ip, v4, Destination, tcp_destination, udp_destination, read, write, put_u16,
  vless_codec, trojan_codec, socks_codec,
}
use xray_rs.Kernel.Translation.{Event, chunk}
use xray_rs.Kernel.Translation.Split.{payload}
use xray_rs.Proxy.Vless.{VlessUser, VlessUsers, VlessReq, tcp, udp, mux, new, parse}
use xray_rs.Proxy.Vless.Request.{IsAuthenticated, vless-IsAuthenticated, header, vless_request}
use xray_rs.Proxy.Trojan.{TrojanUser, TrojanUsers, get, network_of, parse as trojan_parse}
use xray_rs.Proxy.Trojan.Request.{trojan_authenticated, trojan_request}
use xray_rs.Proxy.Mux.{Meta, st_keep, st_end, opt_data, frame_keep_tcp, frame_keep_udp, frame_end}
use xray_rs.Proxy.Mux.Demux.{Sub, State, open_tcp, send_tcp, start, round, demux, again}
use xray_rs.Proxy.Mux.Demux.Ends.{demux_total}
use xray_rs.Proxy.Mux.Demux.Sessions.{IsValid, here, step, reached-IsValid}
use xray_rs.Proxy.Udp.{parse_trojan_packet, trojan_frame, Framed, datagrams}
use xray_rs.Proxy.Udp.Framing.{trojan_datagrams}
use xray_rs.Proxy.Socks.{
  SocksAccount, account_for, Conn, handshake, auth_version, auth_password, version5,
  decode_socks_udp, encode_socks_udp,
}
use xray_rs.Proxy.Socks.Handshake.{HasLogin, handshake_authenticated}
use xray_rs.Proxy.Socks.Accept.{conn, hello, handshake_accepts}
use xray_rs.Proxy.Socks.Datagram.{decode_socks_udp-encode_socks_udp}
use xray_rs.Proxy.Vmess.Users.{VmessUser, VmessAuth, active, fallback, match_user}
use xray_rs.Proxy.Vmess.Users.{is_fresh}
use xray_rs.Proxy.Vmess.Inbound.{Vmess, new as vmess_new, authenticate, Step, flow, swap, run}
use xray_rs.Proxy.Vmess.Inbound.Once.{authenticate_once}
use xray_rs.Proxy.Vmess.Inbound.Recent.{IsRecent, run-IsRecent}
use xray_rs.Proxy.Vmess.Replay.{empty_filter, check_insert, after}
use xray_rs.Proxy.Vmess.Replay.Window.{check_insert_once}
use xray_rs.Proxy.Vmess.Replay.Gap.{check_insert_again}
use xray_rs.Proxy.Vmess.Users.Match.{IsMatch, NotOwner, match_user_lem}

abbrev host : Address
host = ip (v4 (1 ∷ 2 ∷ 3 ∷ 4 ∷ []))

-- VLESS.

abbrev alice_id : List ℕ
alice_id = replicate 16 7

abbrev alice : VlessUser
alice = record { id = alice_id; email = bytes "a@x"; level = 0 }

abbrev vless_users : VlessUsers
vless_users = record { by_id = (alice_id, alice) ∷ [] }

-- A request for 1.2.3.4:443 over TCP, and a byte behind it.
abbrev vless_hello : List ℕ
vless_hello = header alice_id [] 1 (1 ∷ 187 ∷ 1 ∷ 1 ∷ 2 ∷ 3 ∷ 4 ∷ 9 ∷ [])

vless-IsAuthenticated_example :
    (more : List ℕ) × (vless_hello ≡ 0 ∷ more) × IsAuthenticated vless_users more (bytes "a@x")
unfolding parse xray_rs.Kernel.Cursor.take_u8 xray_rs.Proxy.Vless.parse_user
    xray_rs.Kernel.Cursor.take_bytes xray_rs.Proxy.Vless.get xray_rs.Base.Dict.lookup
    xray_rs.Base.eq_bytes xray_rs.Proxy.Vless.skip_addons xray_rs.Proxy.Vless.request read
    xray_rs.Kernel.Cursor.read_port xray_rs.Kernel.Net.read_address xray_rs.Kernel.Net.kind
    xray_rs.Kernel.Net.read_kind xray_rs.Kernel.Net.from_ip_bytes
vless-IsAuthenticated_example =
    vless-IsAuthenticated vless_users vless_hello (9 ∷ []) (tcp (tcp_destination host 443))
      (bytes "a@x") refl

vless_request_example :
    (bs : List ℕ) × (write vless_codec host 443 ≡ ok bs)
    × (parse vless_users (header alice_id [] 1 (bs ++ (9 ∷ [])))
        ≡ ok ((tcp (tcp_destination host 443), bytes "a@x"), 9 ∷ []))
    × (parse vless_users (header alice_id [] 2 (bs ++ (9 ∷ [])))
        ≡ ok ((udp (udp_destination host 443), bytes "a@x"), 9 ∷ []))
    × (parse vless_users (header alice_id [] 3 (9 ∷ [])) ≡ ok ((mux, bytes "a@x"), 9 ∷ []))
unfolding xray_rs.Proxy.Vless.get xray_rs.Base.Dict.lookup xray_rs.Base.eq_bytes
vless_request_example =
    vless_request vless_users alice_id alice refl refl [] host 443 (9 ∷ []) refl (omega arith)

-- Trojan.

abbrev key : List ℕ
key = replicate 56 b'a'

abbrev bob : TrojanUser
bob = record { email = bytes "b@x"; level = 0 }

abbrev trojan_users : TrojanUsers
trojan_users = record { by_key = (key, bob) ∷ [] }

abbrev trojan_hello : List ℕ
trojan_hello = key ++ (13 ∷ 10 ∷ 1 ∷ 1 ∷ 1 ∷ 2 ∷ 3 ∷ 4 ∷ 1 ∷ 187 ∷ 13 ∷ 10 ∷ 9 ∷ [])

trojan_authenticated_example :
    (k : List ℕ) × (more : List ℕ) × (user : TrojanUser) × (trojan_hello ≡ k ++ more)
    × (length k ≡ 56)
    × (get trojan_users k ≡ some user)
    × (user.email ≡ bytes "b@x")
unfolding trojan_parse xray_rs.Kernel.Cursor.take_bytes get xray_rs.Base.Dict.lookup
    xray_rs.Base.eq_bytes xray_rs.Kernel.Cursor.take_u8 read xray_rs.Kernel.Net.read_address
    xray_rs.Kernel.Net.kind xray_rs.Kernel.Net.read_kind xray_rs.Kernel.Net.from_ip_bytes
    xray_rs.Kernel.Cursor.read_port tcp_destination
trojan_authenticated_example =
    trojan_authenticated trojan_users trojan_hello (9 ∷ []) (tcp_destination host 443) (bytes "b@x")
      refl

trojan_request_example :
    (bs : List ℕ) × (write trojan_codec host 443 ≡ ok bs)
    × (trojan_parse trojan_users (key ++ (13 ∷ 10 ∷ 3 ∷ (bs ++ (13 ∷ 10 ∷ 9 ∷ []))))
        ≡ ok ((record { network = network_of 3; address = host; port = 443 }, bytes "b@x"), 9 ∷ []))
unfolding get xray_rs.Base.Dict.lookup xray_rs.Base.eq_bytes
trojan_request_example =
    trojan_request trojan_users key bob 3 13 10 13 10 host 443 (9 ∷ []) refl refl refl (omega arith)

-- The demultiplexer.

abbrev carrier_end : List ℕ
carrier_end = 0 ∷ 4 ∷ 0 ∷ 5 ∷ 3 ∷ 0 ∷ []

-- A new TCP session with a byte of data, and then its end.
abbrev carrier : List ℕ
carrier = 0 ∷ 12 ∷ 0 ∷ 5 ∷ 1 ∷ 1 ∷ 1 ∷ 1 ∷ 187 ∷ 1 ∷ 1 ∷ 2 ∷ 3 ∷ 4 ∷ 0 ∷ 1 ∷ 42 ∷ carrier_end

demux_total_example : (r : Result IoError State) × (demux 40 start carrier ≡ some r)
demux_total_example = demux_total 40 start carrier (omega arith)

abbrev after_new : State
after_new = record {
  sessions = (5, Sub.tcp 0) ∷ [];
  next_channel = 1;
  effects = send_tcp 0 (42 ∷ []) ∷ open_tcp 0 5 (tcp_destination host 443) ∷ [];
}

reached-IsValid_example : IsValid after_new
unfolding round xray_rs.Proxy.Mux.Demux.u16 xray_rs.Kernel.Cursor.read_port
    xray_rs.Proxy.Mux.Demux.read_frame xray_rs.Proxy.Mux.Demux.take xray_rs.Kernel.Cursor.take_bytes
    xray_rs.Proxy.Mux.Demux.parsed xray_rs.Proxy.Mux.parse_meta xray_rs.Proxy.Mux.parse_target read
    xray_rs.Kernel.Net.read_address xray_rs.Kernel.Cursor.take_u8 xray_rs.Kernel.Net.kind
    xray_rs.Kernel.Net.read_kind xray_rs.Kernel.Net.from_ip_bytes xray_rs.Proxy.Mux.Demux.read_data
    xray_rs.Proxy.Mux.Demux.handle xray_rs.Proxy.Mux.Demux.handle_new
    xray_rs.Proxy.Mux.Demux.open_session xray_rs.Proxy.Mux.Demux.register xray_rs.Base.Dict.insert
    xray_rs.Base.Dict.lookup tcp_destination
reached-IsValid_example = reached-IsValid carrier carrier_end after_new (step here refl)

-- Datagrams.

abbrev vless_datagram : List ℕ × List ℕ
vless_datagram = (1 ∷ 2 ∷ [], 0 ∷ 2 ∷ 1 ∷ 2 ∷ [])

abbrev cut : List Event
cut = chunk (2 ∷ 1 ∷ []) ∷ chunk (2 ∷ 9 ∷ []) ∷ []

abbrev trojan_datagram : (Destination × List ℕ) × List ℕ
trojan_datagram =
    ((udp_destination host 53, 7 ∷ []), 1 ∷ 1 ∷ 2 ∷ 3 ∷ 4 ∷ 0 ∷ 53 ∷ 0 ∷ 1 ∷ 13 ∷ 10 ∷ 7 ∷ [])

abbrev trojan_reads : List Event
trojan_reads = chunk (1 ∷ 1 ∷ 2 ∷ 3 ∷ 4 ∷ 0 ∷ []) ∷ chunk (53 ∷ 0 ∷ 1 ∷ 13 ∷ 10 ∷ 7 ∷ []) ∷ []

trojan_datagrams_example :
    (f : Framed) × (datagrams parse_trojan_packet 1 [] trojan_reads
      ≡ some ((udp_destination host 53, 7 ∷ []) ∷ [], f))
    × (f.buf ++ payload f.reads ≡ [])
unfolding udp_destination trojan_frame write xray_rs.Kernel.Net.write_address
    xray_rs.Kernel.Net.byte_for
trojan_datagrams_example =
    trojan_datagrams (trojan_datagram ∷ []) [] trojan_reads [] ((refl, refl, omega arith, refl), tt)
      refl

-- SOCKS.

abbrev account : SocksAccount
account = record { username = bytes "u"; password = bytes "p" }

abbrev socks_hello : List ℕ
socks_hello = hello (0 ∷ 2 ∷ []) (bytes "u") (bytes "p") 1 0 (1 ∷ 1 ∷ 2 ∷ 3 ∷ 4 ∷ 1 ∷ 187 ∷ [])

handshake_authenticated_example : HasLogin (account ∷ []) socks_hello
unfolding handshake xray_rs.Proxy.Socks.greeting xray_rs.Proxy.Socks.read_u8
    xray_rs.Proxy.Socks.offer xray_rs.Proxy.Socks.read_exact xray_rs.Kernel.Cursor.take_bytes
    xray_rs.Proxy.Socks.choose_method xray_rs.Proxy.Socks.write_all xray_rs.Proxy.Socks.login
    xray_rs.Proxy.Socks.credentials xray_rs.Proxy.Socks.admit account_for xray_rs.Base.eq_bytes
    xray_rs.Proxy.Socks.request xray_rs.Proxy.Socks.command xray_rs.Proxy.Socks.read_addr
    xray_rs.Proxy.Socks.raw_address xray_rs.Proxy.Socks.decode_address read
    xray_rs.Kernel.Net.read_address xray_rs.Kernel.Cursor.take_u8 xray_rs.Kernel.Net.kind
    xray_rs.Kernel.Net.read_kind xray_rs.Kernel.Net.from_ip_bytes xray_rs.Kernel.Cursor.read_port
handshake_authenticated_example =
    handshake_authenticated (account ∷ []) (conn socks_hello [])
      (conn [] ((1 ∷ 0 ∷ []) ∷ (5 ∷ 2 ∷ []) ∷ [])) (1, (host, 443)) (λ e. cc) refl

handshake_accepts_example :
    (bs : List ℕ) × (write socks_codec host 443 ≡ ok bs)
    × (handshake
          (account ∷ [])
          (conn (hello (0 ∷ 2 ∷ []) (bytes "u") (bytes "p") 1 0 (bs ++ [])) [])
        ≡ (
          ok (1, (host, 443)),
          conn [] ((auth_version ∷ 0 ∷ []) ∷ (version5 ∷ auth_password ∷ []) ∷ []),
        ))
unfolding account_for xray_rs.Base.eq_bytes
handshake_accepts_example =
    handshake_accepts account [] account (0 ∷ 2 ∷ []) (bytes "u") (bytes "p") 1 0 host 443 [] refl
      refl refl (omega arith)

decode_socks_udp-encode_socks_udp_example :
    (bs : List ℕ) × (encode_socks_udp (udp_destination host 53) (1 ∷ []) ≡ some bs)
    × (decode_socks_udp bs ≡ some (udp_destination host 53, 1 ∷ []))
unfolding udp_destination
decode_socks_udp-encode_socks_udp_example =
    decode_socks_udp-encode_socks_udp (udp_destination host 53) (1 ∷ []) refl (omega arith)

-- VMess. The cipher of the example is none, and its checksum is 0.

abbrev no_cipher : (k block : List ℕ) → List ℕ
no_cipher k block = block

abbrev no_checksum : List ℕ → ℕ
no_checksum _ = 0

abbrev carol : VmessUser
carol = record { cmd_key = 1 ∷ []; authid_key = 2 ∷ []; email = bytes "c@x" }

match_user_lem_example :
    ((m : VmessAuth)
      → match_user no_cipher no_checksum (carol ∷ []) (replicate 16 0) 100 (0 ∷ []) ≡ some m
      → IsMatch no_cipher no_checksum (carol ∷ []) (replicate 16 0) 100 m)
    × (match_user no_cipher no_checksum (carol ∷ []) (replicate 16 0) 100 (0 ∷ []) ≡ none
        → (i : ℕ) → NotOwner no_cipher no_checksum (carol ∷ []) (replicate 16 0) 100 i)
match_user_lem_example =
    match_user_lem no_cipher no_checksum (carol ∷ []) (replicate 16 0) 100 (0 ∷ [])

-- A user who owns the authID is found by the first pass, and by the second if no user is active.
match_user_tests :
    (match_user no_cipher no_checksum (carol ∷ []) (replicate 16 0) 100 (0 ∷ [])
      ≡ some (record { index = 0; cmd_key = 1 ∷ []; email = bytes "c@x"; kind = active }))
    × (match_user no_cipher no_checksum (carol ∷ []) (replicate 16 0) 100 []
        ≡ some (record { index = 0; cmd_key = 1 ∷ []; email = bytes "c@x"; kind = fallback }))
    × (match_user no_cipher no_checksum (carol ∷ []) (replicate 16 0) 121 [] ≡ none)
unfolding match_user xray_rs.Proxy.Vmess.Users.active_pass xray_rs.Proxy.Vmess.Users.contains
    xray_rs.Proxy.Vmess.Users.new_tried xray_rs.Proxy.Vmess.Users.match_one
    xray_rs.Proxy.Vmess.Users.is_fresh xray_rs.Proxy.Vmess.Users.full_scan
match_user_tests = (refl, refl, refl)

-- The replay filter: another authID came first, and one more comes in between.

abbrev first_call : List (List ℕ × ℕ)
first_call = (replicate 16 1, 3) ∷ []

abbrev between : List (List ℕ × ℕ)
between = (replicate 16 2, 60) ∷ []

check_insert_once_example :
    (check_insert
      (replicate 16 7)
      119
      (after between (check_insert (replicate 16 7) 5 (after first_call empty_filter)).1)).0
    ≡ false
unfolding check_insert xray_rs.Proxy.Vmess.Replay.prune xray_rs.Proxy.Vmess.Replay.prune_queue after
    xray_rs.Proxy.Vmess.Replay.remember xray_rs.Base.eq_bytes
check_insert_once_example =
    check_insert_once first_call between (replicate 16 7) 5 119 refl (omega arith, tt) (omega arith)
      (omega arith)

check_insert_again_example :
    ((check_insert (replicate 16 0) 0 empty_filter).0 ≡ true)
    × (is_fresh no_cipher no_checksum (replicate 16 0) 120 ≡ true)
    × ((check_insert (replicate 16 0) 120 (check_insert (replicate 16 0) 0 empty_filter).1).0
        ≡ true)
unfolding is_fresh
check_insert_again_example =
    check_insert_again no_cipher no_checksum (2 ∷ []) (replicate 16 0) 0 refl (omega arith)
      (omega arith)

-- The inbound: a flow of nobody before, and a change of the table in between.

abbrev before_flow : List Step
before_flow = flow (replicate 16 1) 100 3 ∷ []

abbrev between_flows : List Step
between_flows = swap (carol ∷ carol ∷ []) ∷ flow (replicate 16 0) 100 60 ∷ []

abbrev inbound : Vmess
inbound = run no_cipher no_checksum before_flow (vmess_new (carol ∷ []))

authenticate_once_example :
    IsMatch no_cipher no_checksum inbound.users
      (replicate 16 0)
      100
      (record { index = 0; cmd_key = 1 ∷ []; email = bytes "c@x"; kind = fallback })
    × ((n : VmessAuth)
        → (authenticate no_cipher no_checksum (replicate 16 0) 101 119 (
            run no_cipher no_checksum between_flows
              (authenticate no_cipher no_checksum (replicate 16 0) 100 5 inbound).1)).0
          ≢ ok n)
unfolding authenticate match_user xray_rs.Proxy.Vmess.Users.active_pass run
    xray_rs.Proxy.Vmess.Inbound.step xray_rs.Proxy.Vmess.Users.full_scan
    xray_rs.Proxy.Vmess.Users.contains xray_rs.Proxy.Vmess.Users.new_tried
    xray_rs.Proxy.Vmess.Users.match_one is_fresh xray_rs.Proxy.Vmess.Inbound.failed
    xray_rs.Proxy.Vmess.Inbound.admit check_insert xray_rs.Proxy.Vmess.Replay.prune
    xray_rs.Proxy.Vmess.Replay.prune_queue
authenticate_once_example =
    authenticate_once no_cipher no_checksum (carol ∷ []) before_flow between_flows (replicate 16 0)
      100 5 101 119 (record { index = 0; cmd_key = 1 ∷ []; email = bytes "c@x"; kind = fallback })
      refl (tt, (omega arith, tt)) (omega arith) (omega arith)

run-IsRecent_example :
    IsRecent
      (run no_cipher no_checksum
        (flow (replicate 16 0) 100 5 ∷ [])
        (vmess_new (carol ∷ []))).active_users
run-IsRecent_example =
    run-IsRecent no_cipher no_checksum (carol ∷ []) (flow (replicate 16 0) 100 5 ∷ [])

-- A user who was let in is in the list, with one hit by the scan and one failure of nobody before.
inbound_tests :
    (run no_cipher no_checksum (flow (replicate 16 0) 100 5 ∷ []) inbound ≡ record {
      users = carol ∷ [];
      active_users = 0 ∷ [];
      replay_filter = record { seen = replicate 16 0 ∷ []; order = (replicate 16 0, 125) ∷ [] };
      auth_active_hits = 0;
      auth_fallback_hits = 1;
      auth_failures = 1;
    })
unfolding run xray_rs.Proxy.Vmess.Inbound.step authenticate match_user
    xray_rs.Proxy.Vmess.Users.active_pass xray_rs.Proxy.Vmess.Users.full_scan
    xray_rs.Proxy.Vmess.Users.contains xray_rs.Proxy.Vmess.Users.new_tried
    xray_rs.Proxy.Vmess.Users.match_one is_fresh xray_rs.Proxy.Vmess.Inbound.failed
    xray_rs.Proxy.Vmess.Inbound.admit check_insert xray_rs.Proxy.Vmess.Replay.prune
    xray_rs.Proxy.Vmess.Replay.prune_queue xray_rs.Proxy.Vmess.Inbound.let_in
    xray_rs.Proxy.Vmess.Inbound.record_auth_hit xray_rs.Proxy.Vmess.Inbound.remember_active_user
    xray_rs.Proxy.Vmess.Inbound.pop_long xray_rs.Proxy.Vmess.Replay.remember
    xray_rs.Proxy.Vmess.Inbound.remove_index
inbound_tests = refl
