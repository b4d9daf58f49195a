-- ===== src/Proxy/Vmess/Flow/Tests.antt =====
-- A flow of the VMess inbound at concrete primitives.
use xray_rs.Base.{
  ℕ, ◌+◌, ◌-◌, ◌%◌, ◌≡◌, refl, Option, none, some, List, [], ◌∷◌, ◌++◌, if◌then◌else◌, length,
  length-append, length-take, length-replicate, take, drop, take-append, drop-append, replicate,
  eq_bytes, eq_bytes_refl, arith,
}
use xray_rs.Base.Text.{bytes}
use xray_rs.Kernel.Net.{Address, ip, v4}
use xray_rs.Proxy.Vmess.Body.{Random}
use xray_rs.Proxy.Vmess.Users.{VmessUser, VmessAuth, fallback}
use xray_rs.Proxy.Vmess.Inbound.{Vmess, new, authenticate}
use xray_rs.Proxy.Vmess.Kdf.{Primitives, ArePrimitives}
use xray_rs.Proxy.Vmess.Header.Encoded.{Fields, encode_header}
use xray_rs.Proxy.Vmess.Flow.Relayed.{IsRelayed, decode-read_header}

abbrev test_digest : ℕ → List ℕ → List ℕ
test_digest n input = take n (input ++ replicate n 0)

length-test_digest : (n : ℕ) (input : List ℕ) → length (test_digest n input) ≡ n
length-test_digest n input =
    length-take n (input ++ replicate n 0)
      (omega (arith, length-append input (replicate n 0), length-replicate {A = ℕ} n 0))

abbrev test_tag : List ℕ
test_tag = replicate 16 7

abbrev test_open : List ℕ → Option (List ℕ)
test_open sealed =
    if eq_bytes (drop (length sealed - 16) sealed) test_tag
    then some (take (length sealed - 16) sealed)
    else none

test_open-sealed : (plain : List ℕ) → test_open (plain ++ test_tag) ≡ some plain
test_open-sealed plain =
    let n : length (plain ++ test_tag) - 16 ≡ length plain =
      omega (arith, length-append plain test_tag) in
    rw (n, drop-append plain test_tag, take-append plain test_tag, eq_bytes_refl test_tag) refl

abbrev test_primitives : Primitives
test_primitives = record {
  sha256 = test_digest 32;
  md5 = test_digest 16;
  encrypt = λ key nonce plain aad. some (plain ++ test_tag);
  decrypt = λ key nonce sealed aad. test_open sealed;
}

are_primitives : ArePrimitives test_primitives
are_primitives = record {
  length-sha256 = length-test_digest 32;
  length-md5 = length-test_digest 16;
  seals = λ key nonce plain aad short.
      (plain ++ test_tag, refl, length-append plain test_tag, test_open-sealed plain);
}

abbrev zeros : (key block : List ℕ) → List ℕ
zeros key block = replicate 16 0

abbrev no_sum : List ℕ → ℕ
no_sum block = 0

abbrev test_random : Random
test_random = record {
  Rng = ℕ;
  fill = λ n r. (replicate n r, r + 1);
  length-fill = λ n r. length-replicate n r;
}

abbrev dora : VmessUser
dora = record { cmd_key = 1 ∷ 2 ∷ []; authid_key = 5 ∷ []; email = bytes "d@x" }

abbrev test_inbound : Vmess
test_inbound = new (dora ∷ [])

abbrev test_authid : List ℕ
test_authid = replicate 16 0

abbrev test_after : Vmess
test_after = (authenticate zeros no_sum test_authid 100 5 test_inbound).1

abbrev dora_auth : VmessAuth
dora_auth = record { index = 0; cmd_key = 1 ∷ 2 ∷ []; email = bytes "d@x"; kind = fallback }

-- Masking and padding, and no cipher for the body.
abbrev test_fields : Fields
test_fields = record {
  iv = replicate 16 1;
  key = replicate 16 2;
  resp = 9;
  options = 12;
  padsec = 5;
  reserved = 0;
  cmd = 1;
}

abbrev test_host : Address
test_host = ip (v4 (10 ∷ 0 ∷ 0 ∷ 1 ∷ []))

abbrev test_head : List ℕ
test_head = 0 ∷ 80 ∷ 1 ∷ 10 ∷ 0 ∷ 0 ∷ 1 ∷ []

decode-read_header_example :
    IsRelayed test_primitives are_primitives zeros no_sum
      (λ kind key. none)
      (λ seed place. place % 65536)
      (λ seed place. omega arith)
      test_random
      test_authid
      (replicate 8 4)
      100
      5
      test_inbound
      test_after
      dora_auth
      test_fields
      test_host
      80
      (encode_header test_fields (test_head ++ (6 ∷ [])))
      none
      none
      3
      (bytes "one" ∷ bytes "two" ∷ [])
      (8 ∷ [])
unfolding authenticate xray_rs.Proxy.Vmess.Users.match_user xray_rs.Proxy.Vmess.Users.active_pass
    xray_rs.Proxy.Vmess.Users.full_scan xray_rs.Proxy.Vmess.Users.contains
    xray_rs.Proxy.Vmess.Users.new_tried xray_rs.Proxy.Vmess.Users.match_one
    xray_rs.Proxy.Vmess.Users.is_fresh xray_rs.Proxy.Vmess.Inbound.admit
    xray_rs.Proxy.Vmess.Replay.check_insert xray_rs.Proxy.Vmess.Replay.prune
    xray_rs.Proxy.Vmess.Replay.prune_queue xray_rs.Kernel.Net.write xray_rs.Kernel.Net.write_address
    xray_rs.Kernel.Net.byte_for xray_rs.Proxy.Vmess.Flow.body_aead
decode-read_header_example =
    decode-read_header test_primitives are_primitives zeros no_sum (λ kind key. none)
      (λ seed place. place % 65536) (λ seed place. omega arith) test_random test_authid
      (replicate 8 4) 100 5 test_inbound test_after dora_auth refl refl refl test_fields test_host
      80 test_head (6 ∷ []) refl refl refl refl (omega arith) refl (omega arith) none none refl refl
      tt 3 (bytes "one" ∷ bytes "two" ∷ []) (8 ∷ [])
