-- ===== src/Proxy/Http/Tests.antt =====
-- The HTTP inbound at concrete requests.
use xray_rs.Base.{ℕ, zero, suc, Option, none, some, List, [], ◌∷◌, ◌++◌, drop}
use xray_rs.Base.Text.{bytes}
use xray_rs.Kernel.Dispatch.{Ctx, with_user}
use xray_rs.Kernel.Net.{domain, tcp_destination}
use xray_rs.Kernel.Translation.{Event, chunk}
use xray_rs.Proxy.Relay.{user_hash}
use xray_rs.Proxy.Http.{HttpAccount, crlf, put_lines, HttpFlow}

abbrev toy_base64 : List ℕ → Option (List ℕ)
toy_base64 s = some s

abbrev test_accounts : List HttpAccount
test_accounts = record { username = bytes "u"; password = bytes "p" } ∷ []

abbrev nobody : Ctx
nobody = record { user_email = none; user_auth_hash = none }

abbrev test_request : List Event
test_request =
    chunk (
      put_lines (
        bytes "GET http://a.com:81/x HTTP/1.1"
        ∷ bytes "Proxy-Authorization: basic u:p"
        ∷ bytes "A: b"
        ∷ [])
      ++ (crlf ++ bytes "xy"))
    ∷ []

abbrev test_flow : HttpFlow
test_flow = record {
  decision = record {
    target = tcp_destination (domain (bytes "a.com")) 81;
    ctx = with_user (bytes "u") (user_hash (bytes "u")) nobody;
  };
  leftover =
      put_lines (
        bytes "GET /x HTTP/1.1"
        ∷ bytes "A: b"
        ∷ bytes "Host: a.com:81"
        ∷ bytes "Connection: close"
        ∷ [])
      ++ (crlf ++ bytes "xy");
}
