-- ===== src/Kernel/Tests.antt =====
-- The kernel's definitions and theorems at concrete inputs.
use xray_rs.Base.{
  ℕ, zero, suc, ◌+◌, ◌<◌, ◌≡◌, ◌≢◌, refl, ap, Bool, true, false, Option, none, some, List, [], ◌∷◌,
  ◌++◌, ◌↔◌, ◌⊎◌, arith, length, take, get_elem?, IsBytes,
}
use xray_rs.Base.Text.{bytes, to_ascii_lowercase}
use xray_rs.Base.Result.{ok, err}
use xray_rs.Kernel.Error.{protocol}
use xray_rs.Kernel.Cursor.{IsStream, read_port, read_port-IsStream}
use xray_rs.Kernel.Net.{
  Network, tcp, IpAddr, v4, v6, Address, ip, domain, Destination, read, write, parse_address,
  from_ip_bytes, vless_codec, shadowsocks_codec,
}
use xray_rs.Kernel.Net.RoundTrip.{read-write}
use xray_rs.Kernel.Translation.{Event, chunk, read_header}
use xray_rs.Kernel.Translation.Split.{payload, read_header_sound, read_header_complete}
use xray_rs.Kernel.Route.Balance.{
  BalanceMode, random, round_robin, user_auth_hash, LoadBalancer, pick, parse_mode,
}
use xray_rs.Kernel.Route.Balance.Fair.{pick_in_range, after, round_robin_fair}
use xray_rs.Kernel.Route.Condition.{
  Condition, domain_suffix, port, no_geo, parse, prefix_match, domain_suffix_match, RouteQuery,
}
use xray_rs.Kernel.Route.Condition.Prefix.{address_bits, prefix_match_iff}
use xray_rs.Kernel.Route.Condition.Domain.{IsSubdomain, domain_suffix_match_iff}
use xray_rs.Kernel.Route.Condition.Parsed.{IsMeaningful, parse-IsMeaningful}
use xray_rs.Kernel.Route.Table.{
  RouteDecision, outbound, freedom, blackhole, MatchRule, new_rule, RouteTable, new_table, decide,
  route,
}
use xray_rs.Kernel.Route.Table.First.{NoneMatches, IsFirst, route-IsFirst}
use xray_rs.Base.Eq.{bytes_eq}
use xray_rs.Base.Dict.{lookup}
use xray_rs.Kernel.Stats.{
  Counter, Stats, Op, up_op, down_op, counter_op, history, UserTraffic, Taken, parse_user_tag,
  collect,
}
use xray_rs.Kernel.Stats.Active.{IsValid, IsActive}
use xray_rs.Kernel.Stats.Report.{IsReported, IsKept, collect-IsReported}
use xray_rs.Base.Int.{ℤ, pos, negsuc}
use xray_rs.Kernel.Stats.History.{history-IsValid}
use xray_rs.Base.{replicate}
use xray_rs.Kernel.Uuid.{parse_str, display}
use xray_rs.Kernel.Uuid.Text.{print, parse_str-display}

abbrev host : Address
host = ip (v4 (1 ∷ 2 ∷ 3 ∷ 4 ∷ []))

net_tests :
    (parse_address (bytes "[::1]")
      ≡ ip (v6 (0 ∷ 0 ∷ 0 ∷ 0 ∷ 0 ∷ 0 ∷ 0 ∷ 0 ∷ 0 ∷ 0 ∷ 0 ∷ 0 ∷ 0 ∷ 0 ∷ 0 ∷ 1 ∷ [])))
    × (parse_address (bytes "1.2.3.4") ≡ host)
    × (parse_address (bytes "a.example") ≡ domain (bytes "a.example"))
    × (from_ip_bytes (0 ∷ 0 ∷ 0 ∷ 0 ∷ 0 ∷ 0 ∷ 0 ∷ 0 ∷ 0 ∷ 0 ∷ 255 ∷ 255 ∷ 1 ∷ 2 ∷ 3 ∷ 4 ∷ [])
        ≡ ok host)
    × (write vless_codec host 443 ≡ ok (1 ∷ 187 ∷ 1 ∷ 1 ∷ 2 ∷ 3 ∷ 4 ∷ []))
    × (read shadowsocks_codec (0x11 ∷ 1 ∷ 2 ∷ 3 ∷ 4 ∷ 1 ∷ 187 ∷ 9 ∷ []) ≡ ok ((host, 443), 9 ∷ []))
unfolding parse_address from_ip_bytes write read xray_rs.Base.IpText.parse_octets
    xray_rs.Base.Text.strip_prefix xray_rs.Kernel.Net.to_ipv4_mapped
    xray_rs.Kernel.Net.write_address xray_rs.Kernel.Net.byte_for xray_rs.Kernel.Net.read_address
    xray_rs.Kernel.Cursor.take_u8 xray_rs.Kernel.Net.kind xray_rs.Kernel.Net.read_kind
    xray_rs.Kernel.Cursor.take_bytes read_port
net_tests = (refl, refl, refl, refl, refl, refl)

read-write_example :
    (bs : List ℕ) × (write vless_codec host 443 ≡ ok bs)
    × (read vless_codec (bs ++ (7 ∷ [])) ≡ ok ((host, 443), 7 ∷ []))
read-write_example = read-write vless_codec host 443 (7 ∷ []) refl (omega arith)

-- A port that comes in two reads.
abbrev two_reads : List Event
two_reads = chunk (1 ∷ []) ∷ chunk (187 ∷ 5 ∷ []) ∷ []

read_header_sound_example : read_port (payload two_reads) ≡ ok (443, (5 ∷ []) ++ payload [])
unfolding read_header read_port
read_header_sound_example =
    read_header_sound 8 read_port read_port-IsStream two_reads [] 443 (5 ∷ []) refl

read_header_complete_example :
    (left : List ℕ) × (es' : List Event) × (read_header 8 read_port two_reads
      ≡ (ok (443, left), es'))
    × (left ++ payload es' ≡ 5 ∷ [])
unfolding read_port
read_header_complete_example =
    read_header_complete 8 read_port read_port-IsStream two_reads 443 (5 ∷ []) refl (omega arith)

-- The balancer.

abbrev turning : LoadBalancer
turning = record { mode = round_robin; cursor = 5 }

abbrev hashed : LoadBalancer
hashed = record { mode = user_auth_hash; cursor = 0 }

parse_mode_tests :
    (parse_mode (bytes " Round-Robin ") ≡ some round_robin)
    × (parse_mode (bytes "hash") ≡ some user_auth_hash)
    × (parse_mode (bytes "bogus") ≡ none)
unfolding parse_mode xray_rs.Base.eq_bytes xray_rs.Kernel.Route.Balance.normal_token
    to_ascii_lowercase xray_rs.Base.Trim.trim
parse_mode_tests = (refl, refl, refl)

pick_in_range_example :
    (i : ℕ) × ((pick turning 9 3 none).0 ≡ some i)
    × (i < 3)
    × ((pick turning 9 3 none).1.mode ≡ round_robin)
pick_in_range_example = pick_in_range turning 9 3 none (omega arith)

round_robin_fair_example :
    (n : ℕ) × (n < 3) × ((pick (after n (λ _. 0) 3 (λ _. none) turning) 0 3 none).0 ≡ some 1)
round_robin_fair_example =
    round_robin_fair turning (λ _. 0) 3 (λ _. none) 1 refl (omega arith) (omega arith)

-- The conditions.

prefix_match_iff_example :
    (prefix_match (10 ∷ 0 ∷ 0 ∷ 0 ∷ []) (10 ∷ 127 ∷ 1 ∷ 1 ∷ []) 9 ≡ true)
    ↔ (take 9 (address_bits (10 ∷ 0 ∷ 0 ∷ 0 ∷ [])) ≡ take 9 (address_bits (10 ∷ 127 ∷ 1 ∷ 1 ∷ [])))
prefix_match_iff_example =
    prefix_match_iff (10 ∷ 0 ∷ 0 ∷ 0 ∷ []) (10 ∷ 127 ∷ 1 ∷ 1 ∷ []) 9 refl
      (omega arith, (omega arith, (omega arith, (omega arith, tt))))
      (omega arith, (omega arith, (omega arith, (omega arith, tt))))

domain_suffix_match_iff_example :
    (domain_suffix_match (bytes "Mail.Google.com") (bytes "google.com") ≡ true) ↔ (
      (to_ascii_lowercase (bytes "Mail.Google.com") ≡ to_ascii_lowercase (bytes "google.com"))
      ⊎ IsSubdomain (bytes "Mail.Google.com") (bytes "google.com"))
domain_suffix_match_iff_example =
    domain_suffix_match_iff (bytes "Mail.Google.com") (bytes "google.com") refl

domain_tests :
    (domain_suffix_match (bytes "Mail.Google.com") (bytes "google.com") ≡ true)
    × (domain_suffix_match (bytes "notgoogle.com") (bytes "google.com") ≡ false)
    × (prefix_match (10 ∷ 0 ∷ 0 ∷ 0 ∷ []) (10 ∷ 127 ∷ 1 ∷ 1 ∷ []) 9 ≡ true)
    × (prefix_match (10 ∷ 0 ∷ 0 ∷ 0 ∷ []) (10 ∷ 128 ∷ 1 ∷ 1 ∷ []) 9 ≡ false)
    × (parse (bytes " Port: 1000-2000") ≡ some (port 1000 2000))
    × (parse (bytes "port:9-8") ≡ none)
    × (parse (bytes "*") ≡ some Condition.any)
unfolding domain_suffix_match prefix_match parse xray_rs.Base.Text.eq_ignore_ascii_case
    xray_rs.Kernel.Route.Condition.dot_suffix xray_rs.Base.Trim.trim xray_rs.Base.Text.split_once
    xray_rs.Kernel.Route.Condition.of_kind xray_rs.Kernel.Route.Condition.parse_port_range
    xray_rs.Kernel.Route.Condition.in_order xray_rs.Base.Trim.parse_uint
domain_tests = (refl, refl, refl, refl, refl, refl, refl)

parse-IsMeaningful_example : IsMeaningful (port 1000 2000)
unfolding parse xray_rs.Base.eq_bytes xray_rs.Base.Trim.trim xray_rs.Base.Text.split_once
    xray_rs.Kernel.Route.Condition.of_kind to_ascii_lowercase
    xray_rs.Kernel.Route.Condition.parse_port_range xray_rs.Kernel.Route.Condition.in_order
    xray_rs.Base.Trim.parse_uint
parse-IsMeaningful_example = parse-IsMeaningful (bytes "port:1000-2000") (port 1000 2000) refl

-- The table.

abbrev web : MatchRule
web = record {
  conditions = domain_suffix (bytes "google.com") ∷ [];
  outs = bytes "a" ∷ bytes "b" ∷ [];
  balancer = record { mode = round_robin; cursor = 1 };
}

abbrev to_google : RouteQuery
to_google = record {
  target = record { network = tcp; address = domain (bytes "www.google.com"); port = 443 };
  sniffed_domain = none;
  auth_hash = none;
}

abbrev table : RouteTable
table = record { rules = web ∷ []; default = freedom }

route_tests : ((route no_geo 0 to_google table).0 ≡ outbound (bytes "b"))
unfolding route xray_rs.Kernel.Route.Table.route_rules xray_rs.Kernel.Route.Table.rule_matches
    xray_rs.Kernel.Route.Condition.matches xray_rs.Kernel.Route.Condition.domain_of
    domain_suffix_match xray_rs.Base.Text.eq_ignore_ascii_case
    xray_rs.Kernel.Route.Condition.dot_suffix decide xray_rs.Kernel.Route.Table.decide_among
    xray_rs.Kernel.Route.Table.picked pick xray_rs.Kernel.Route.Balance.pick_in
route_tests = refl

route-IsFirst_example :
    (NoneMatches no_geo to_google (web ∷ []) × (route no_geo 0 to_google table ≡ (freedom, table)))
    ⊎ ((before : List MatchRule) × (rule : MatchRule) × (behind : List MatchRule) × IsFirst no_geo
          to_google
          (web ∷ [])
          before
          rule
          behind
        × (route no_geo 0 to_google table ≡ (
          (decide rule 0 to_google).0,
          record table { rules = before ++ ((decide rule 0 to_google).1 ∷ behind) },
        )))
route-IsFirst_example = route-IsFirst no_geo 0 to_google table

-- The counters: alice is counted, taken, and counted again.

abbrev alice : List ℕ
alice = bytes "n|a|1"

abbrev ops : List Op
ops = up_op 0 5 ∷ down_op 0 7 ∷ counter_op alice ∷ []

abbrev after_ops : Stats
after_ops = record {
  counters = record { up = 5; down = 7; dirty = 1; tag = alice } ∷ [];
  users = (alice, 0) ∷ [];
  active = alice ∷ [];
}

abbrev reported : List UserTraffic × List Taken
reported =
    (record { uid = pos 1; email = bytes "a"; upload = 5; download = 7 } ∷ [], (0, 5, 7) ∷ [])

history_tests : (history ops ≡ after_ops) × ((collect (bytes "n") after_ops).0 ≡ reported)
unfolding history xray_rs.Kernel.Stats.step xray_rs.Kernel.Stats.add_up xray_rs.Kernel.Stats.touch
    xray_rs.Kernel.Stats.add_down xray_rs.Kernel.Stats.counter lookup xray_rs.Kernel.Stats.count_up
    xray_rs.Base.Dict.insert xray_rs.Kernel.Stats.mark_if xray_rs.Kernel.Stats.mark_active
    xray_rs.Kernel.Stats.count_down xray_rs.Kernel.Stats.insert_tag collect
    xray_rs.Kernel.Stats.take_all xray_rs.Kernel.Stats.active_counters
    xray_rs.Kernel.Stats.registered xray_rs.Base.eq_bytes xray_rs.Kernel.Stats.take
    xray_rs.Kernel.Stats.take_one parse_user_tag xray_rs.Base.Text.strip_prefix
    xray_rs.Base.Text.rsplit_once xray_rs.Base.Text.split_once xray_rs.Base.Int.parse_i32
    xray_rs.Base.Trim.parse_uint
history_tests = (refl, refl)

history-IsValid_example : IsValid (history ops)
history-IsValid_example = history-IsValid ops

after_ops-IsValid : IsValid after_ops
unfolding history xray_rs.Kernel.Stats.step xray_rs.Kernel.Stats.add_up xray_rs.Kernel.Stats.touch
    xray_rs.Kernel.Stats.add_down xray_rs.Kernel.Stats.counter lookup xray_rs.Kernel.Stats.mark_if
    xray_rs.Kernel.Stats.count_up xray_rs.Base.Dict.insert xray_rs.Kernel.Stats.mark_active
    xray_rs.Kernel.Stats.count_down xray_rs.Kernel.Stats.insert_tag
after_ops-IsValid = history-IsValid ops

collect-IsReported_example :
    ((user : ℤ × List ℕ) × (parse_user_tag (bytes "n") alice ≡ some user)
      × IsReported user 0
          (record { up = 5; down = 7; dirty = 1; tag = alice })
          (collect (bytes "n") after_ops))
    ⊎ ((parse_user_tag (bytes "n") alice ≡ none)
        × IsKept 0
            (record { up = 5; down = 7; dirty = 1; tag = alice })
            (collect (bytes "n") after_ops).1
        × IsActive alice (collect (bytes "n") after_ops).1.active)
unfolding lookup xray_rs.Base.eq_bytes
collect-IsReported_example =
    collect-IsReported (bytes "n") after_ops alice 0
      (record { up = 5; down = 7; dirty = 1; tag = alice }) after_ops-IsValid refl refl
      (omega arith) (omega arith) (omega arith)

-- A user of the node, and one of another.
parse_user_tag_tests :
    (parse_user_tag (bytes "n") (bytes "n|a|-12") ≡ some (negsuc 11, bytes "a"))
    × (parse_user_tag (bytes "m") alice ≡ none)
unfolding parse_user_tag xray_rs.Base.Text.strip_prefix xray_rs.Base.Text.rsplit_once
    xray_rs.Base.Text.split_once xray_rs.Base.Int.parse_i32 xray_rs.Base.Trim.digits_of
parse_user_tag_tests = (refl, refl)

-- UUIDs. The digest of the example is the same for every text.

abbrev no_sha1 : List ℕ → List ℕ
no_sha1 _ = replicate 20 171

abbrev some_id : List ℕ
some_id =
    0xb8 ∷ 0x31 ∷ 0x38 ∷ 0x1d ∷ 0x63 ∷ 0x24 ∷ 0x4d ∷ 0x53 ∷ 0xad ∷ 0x4f ∷ 0x8c ∷ 0xda ∷ 0x48 ∷ 0xb3
    ∷ 0x08 ∷ 0x11 ∷ []

some_id-IsBytes : IsBytes some_id
some_id-IsBytes = (
  omega arith,
  (
    omega arith,
    (
      omega arith,
      (
        omega arith,
        (
          omega arith,
          (
            omega arith,
            (
              omega arith,
              (
                omega arith,
                (
                  omega arith,
                  (
                    omega arith,
                    (
                      omega arith,
                      (omega arith, (omega arith, (omega arith, (omega arith, (omega arith, tt))))),
                    ),
                  ),
                ),
              ),
            ),
          ),
        ),
      ),
    ),
  ),
)

-- The text of a UUID, with capitals, and what is refused.
uuid_tests :
    (display some_id ≡ bytes "b831381d-6324-4d53-ad4f-8cda48b30811")
    × (parse_str no_sha1 (bytes "B831381D63244D53AD4F8CDA48B30811") ≡ ok some_id)
    × (parse_str no_sha1 (bytes "x831381d-6324-4d53-ad4f-8cda48b30811")
        ≡ err (protocol "invalid UUID hex"))
    × (parse_str no_sha1 (replicate 31 b'a') ≡ err (protocol "invalid UUID"))
    × (parse_str no_sha1 [] ≡ err (protocol "invalid UUID"))
unfolding display xray_rs.Kernel.Uuid.hex_text xray_rs.Kernel.Uuid.hex_digit parse_str
    xray_rs.Kernel.Uuid.parse_groups xray_rs.Kernel.Uuid.parse_group xray_rs.Kernel.Uuid.parse_hex
    xray_rs.Kernel.Uuid.skip_dash xray_rs.Kernel.Uuid.decode_hex xray_rs.Kernel.Uuid.hex_byte
    xray_rs.Kernel.Uuid.hex_val
uuid_tests = (refl, refl, refl, refl, refl)

parse_str-display_example :
    (parse_str no_sha1 (display some_id) ≡ ok some_id)
    × (parse_str no_sha1 (print (true, false, true, false) some_id) ≡ ok some_id)
parse_str-display_example =
    parse_str-display no_sha1 (true, false, true, false) some_id refl some_id-IsBytes

digest-IsBytes : IsBytes (replicate 20 171)
digest-IsBytes = (
  omega arith,
  (
    omega arith,
    (
      omega arith,
      (
        omega arith,
        (
          omega arith,
          (
            omega arith,
            (
              omega arith,
              (
                omega arith,
                (
                  omega arith,
                  (
                    omega arith,
                    (
                      omega arith,
                      (
                        omega arith,
                        (
                          omega arith,
                          (
                            omega arith,
                            (
                              omega arith,
                              (
                                omega arith,
                                (omega arith, (omega arith, (omega arith, (omega arith, tt)))),
                              ),
                            ),
                          ),
                        ),
                      ),
                    ),
                  ),
                ),
              ),
            ),
          ),
        ),
      ),
    ),
  ),
)
