-- ===== src/Kernel/Route/Sniff/Tests.antt =====
-- The sniffer's theorems at concrete streams.
use xray_rs.Base.{ℕ, ◌≡◌, refl, inl, inr, some, List, [], ◌∷◌, ◌++◌, replicate, arith}
use xray_rs.Base.Text.{bytes, eq_ignore_ascii_case, split_once, is_utf8}
use xray_rs.Kernel.Net.{is_valid_domain}
use xray_rs.Kernel.Route.Sniff.{tls, sniff, sniff_http, begins_with}
use xray_rs.Kernel.Route.Sniff.Hello.{
  IsHostName, client_hello, named_extensions, tls_record, sniff-tls_record,
}
use xray_rs.Kernel.Route.Sniff.Request.{IsHost, IsPassed, request, sniff_http-request}

abbrev test_name : List ℕ
test_name = bytes "a.com"

test_name-IsHostName : IsHostName test_name
unfolding is_utf8
test_name-IsHostName = record { printable = refl; no_dot = refl; utf8 = refl }

abbrev test_head : List ℕ
test_head = replicate 38 1

sniff-tls_record_example :
    sniff (
      tls_record 1 (
        client_hello test_head
          (7 ∷ [])
          (0x13 ∷ 1 ∷ [])
          (0 ∷ [])
          (named_extensions ((16, 1 ∷ 2 ∷ []) ∷ []) test_name [] []))
      ++ (9 ∷ []))
    ≡ some (tls, bytes "a.com")
sniff-tls_record_example =
    sniff-tls_record 1 test_head (7 ∷ []) (0x13 ∷ 1 ∷ []) (0 ∷ []) ((16, 1 ∷ 2 ∷ []) ∷ []) test_name
      [] [] (9 ∷ []) refl (omega arith) refl ((omega arith, refl, omega arith), tt)
      test_name-IsHostName (omega arith)

-- A host line with a port, the blank line of a header block and a line of the body.
port-IsPassed : IsPassed (bytes "Host: a.com:80" ++ (13 ∷ []))
unfolding split_once is_utf8 xray_rs.Kernel.Route.Sniff.trim_ascii
    xray_rs.Kernel.Route.Sniff.trim_ascii_start
port-IsPassed = record {
  whole = refl;
  long = omega arith;
  text = inr (bytes "Host", bytes " a.com:80" ++ (13 ∷ []), refl, refl);
}

cr-IsPassed : IsPassed (13 ∷ [])
unfolding split_once
cr-IsPassed = record { whole = refl; long = omega arith; text = inl refl }

body-IsPassed : IsPassed (bytes "x=1")
unfolding split_once
body-IsPassed = record { whole = refl; long = omega arith; text = inl refl }

abbrev test_before : List (List ℕ)
test_before = (bytes "Host: a.com:80" ++ (13 ∷ [])) ∷ (13 ∷ []) ∷ bytes "x=1" ∷ []

test_line-IsHost : IsHost (bytes "B.com") (bytes "HOST:B.com ")
unfolding split_once eq_ignore_ascii_case xray_rs.Kernel.Route.Sniff.trim_ascii
    xray_rs.Kernel.Route.Sniff.trim_ascii_start is_valid_domain
test_line-IsHost = record {
  whole = refl;
  key = bytes "HOST";
  value = bytes "B.com ";
  cut = refl;
  host_key = refl;
  trimmed = refl;
  domain = refl;
}

sniff_http-request_example :
    sniff_http (request (bytes "POST / HTTP/1.1") test_before (bytes "HOST:B.com ") [] [])
    ≡ some (bytes "b.com")
unfolding begins_with eq_ignore_ascii_case
sniff_http-request_example =
    sniff_http-request (bytes "POST / HTTP/1.1") test_before (bytes "B.com") (bytes "HOST:B.com ")
      [] [] refl refl (port-IsPassed, (cr-IsPassed, (body-IsPassed, tt))) test_line-IsHost tt
      (inl refl)
