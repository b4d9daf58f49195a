-- ===== src/Proxy/Http.antt =====
-- proxy/src/http.rs: the HTTP inbound. A text is its bytes; base64 is a parameter, and the relay that
-- `decode` spawns stands by the bytes that are already read.
pub mod Forwarded
pub mod Authorized
mod Tests
use xray_rs.Base.{
  ℕ, Bool, true, false, ◌||◌, ◌&&◌, Option, none, some, List, [], ◌∷◌, ◌++◌, reverse, String, ◌==◌,
  leb, if◌then◌else◌, length, take, drop, all, eq_bytes,
}
use xray_rs.Base.Text.{
  bytes, is_ascii_digit, is_utf8, eq_ignore_ascii_case, strip_prefix, split_once, rsplit_once,
}
use xray_rs.Base.Trim.{trim, parse_uint}
use xray_rs.Base.Optional.{◌>>=◌, ◌>>◌, ensure}
use xray_rs.Base.Result.{Result, ok, err}
use xray_rs.Kernel.Error.{Error, IoError, message, invalid_data, truncated}
use xray_rs.Kernel.Cursor.{Decoder}
use xray_rs.Kernel.Net.{Address, parse_address, tcp_destination}
use xray_rs.Kernel.Dispatch.{Ctx, with_user, ProxyDecision}
use xray_rs.Kernel.Translation.{Event, read_header}
use xray_rs.Proxy.Relay.{user_hash, noop_decision, sniff_override}

abbrev pub max_head : ℕ
max_head = 16384

pub record HttpAccount : Type 0 where
  pub username : List ℕ
  pub password : List ℕ

abbrev pub crlf : List ℕ
crlf = 13 ∷ 10 ∷ []

-- The head up to and with its end, and what is behind it.
unfoldable pub cut_head : List ℕ → Option (List ℕ × List ℕ)
cut_head [] = none
cut_head (c ∷ s) = elim (strip_prefix (crlf ++ crlf) (c ∷ s)) [
  | some rest ↦ some (crlf ++ crlf, rest)
  | none ↦ elim (cut_head s) [ none ↦ none | some (head, rest) ↦ some (c ∷ head, rest) ]
]

unfoldable pub parse_head : Decoder (List ℕ)
parse_head b = elim (cut_head b) [ none ↦ err (truncated 1 (length b)) | some p ↦ ok p ]

abbrev push_first : ℕ → List (List ℕ) → List (List ℕ)
push_first c [] = (c ∷ []) ∷ []
push_first c (line ∷ lines) = (c ∷ line) ∷ lines

-- `text.split("\r\n")`
unfoldable pub split_crlf : List ℕ → List (List ℕ)
split_crlf [] = [] ∷ []
split_crlf (c ∷ []) = (c ∷ []) ∷ []
split_crlf (c ∷ d ∷ s) = elim (c == 13 && d == 10) [
  | true ↦ [] ∷ split_crlf s
  | false ↦ push_first c (split_crlf (d ∷ s))
]

-- The headers are the lines up to an empty one.
unfoldable pub headers_of : List (List ℕ) → List (List ℕ)
headers_of [] = []
headers_of ([] ∷ lines) = []
headers_of ((c ∷ line) ∷ lines) = (c ∷ line) ∷ headers_of lines

abbrev named_value : (name : List ℕ) → Option (List ℕ × List ℕ) → Option (List ℕ)
named_value name none = none
named_value name (some (k, v)) = if eq_ignore_ascii_case (trim k) name then some (trim v) else none

unfoldable pub header_value : List (List ℕ) → (name : List ℕ) → Option (List ℕ)
header_value [] name = none
header_value (line ∷ headers) name = elim (named_value name (split_once b':' line)) [
  | some v ↦ some v
  | none ↦ header_value headers name
]

abbrev invalid : String → IoError
invalid msg = message invalid_data msg

-- `find(['/', '?', '#'])`, with both sides.
unfoldable pub cut_authority : List ℕ → List ℕ × List ℕ
cut_authority [] = ([], [])
cut_authority (c ∷ s) =
    let (authority, path) = cut_authority s in
    if c == b'/' || c == b'?' || c == b'#' then ([], c ∷ s) else (c ∷ authority, path)

abbrev or_root : List ℕ → List ℕ
or_root [] = bytes "/"
or_root (c ∷ path) = c ∷ path

abbrev authority_and_path : List ℕ → ℕ → Option (List ℕ × List ℕ × ℕ)
authority_and_path rest default_port =
    let (authority, path) = cut_authority rest in some (authority, or_root path, default_port)

-- A scheme is ASCII, so no character is cut behind it.
unfoldable pub split_absolute : List ℕ → Option (List ℕ × List ℕ × ℕ)
split_absolute target =
    if leb 7 (length target) && eq_ignore_ascii_case (take 7 target) (bytes "http://")
    then authority_and_path (drop 7 target) 80
    else if leb 8 (length target) && eq_ignore_ascii_case (take 8 target) (bytes "https://")
    then authority_and_path (drop 8 target) 443
    else none

abbrev with_port : Address → Option ℕ → Result IoError (Address × ℕ)
with_port a none = err (invalid "http: bad port")
with_port a (some port) = ok (a, port)

-- What follows the bracket of an IPv6 host.
abbrev bracketed : ℕ → Option (List ℕ × List ℕ) → Result IoError (Address × ℕ)
bracketed default_port none = err (invalid "http: malformed ipv6 authority")
bracketed default_port (some (host, after)) = elim (strip_prefix (bytes ":") after) [
  | none ↦ ok (parse_address host, default_port)
  | some [] ↦ ok (parse_address host, default_port)
  | some (c ∷ p) ↦ with_port (parse_address host) (parse_uint 65535 (c ∷ p))
]

abbrev is_port_text : List ℕ → Bool
is_port_text [] = false
is_port_text (c ∷ p) = all is_ascii_digit (c ∷ p)

abbrev unbracketed : List ℕ → ℕ → Option (List ℕ × List ℕ) → Result IoError (Address × ℕ)
unbracketed s default_port none = ok (parse_address s, default_port)
unbracketed s default_port (some (h, p)) =
    if is_port_text p
    then with_port (parse_address h) (parse_uint 65535 p)
    else ok (parse_address s, default_port)

unfoldable pub parse_authority : List ℕ → (default_port : ℕ) → Result IoError (Address × ℕ)
parse_authority s default_port = elim (strip_prefix (bytes "[") (trim s)) [
  | some rest ↦ bracketed default_port (split_once b']' rest)
  | none ↦ unbracketed (trim s) default_port (rsplit_once b':' (trim s))
]

-- The name of a header line, the whole line if it has no colon.
unfoldable pub line_name : List ℕ → List ℕ
line_name line = elim (split_once b':' line) [ none ↦ trim line | some (k, v) ↦ trim k ]

-- A header that is not forwarded.
unfoldable pub is_hop : List ℕ → Bool
is_hop line =
    eq_ignore_ascii_case (line_name line) (bytes "proxy-connection")
    || eq_ignore_ascii_case (line_name line) (bytes "proxy-authorization")
    || eq_ignore_ascii_case (line_name line) (bytes "connection")

-- The header loop: the lines that are kept, and whether one is the host.
unfoldable pub kept_headers : List (List ℕ) → List (List ℕ) × Bool
kept_headers [] = ([], false)
kept_headers (line ∷ headers) =
    let (kept, host_seen) = kept_headers headers in
    if is_hop line
    then (kept, host_seen)
    else (line ∷ kept, eq_ignore_ascii_case (line_name line) (bytes "host") || host_seen)

-- Lines, each with its end.
unfoldable pub put_lines : List (List ℕ) → List ℕ
put_lines [] = []
put_lines (line ∷ lines) = line ++ (crlf ++ put_lines lines)

-- The host that is put in where no header names it.
abbrev injected : Option (List ℕ) → (host_seen : Bool) → List (List ℕ)
injected (some authority) false = (bytes "Host: " ++ authority) ∷ []
injected _ _ = []

-- The rewritten head, with the bytes behind the head.
unfoldable pub rewritten :
    (new_req_line : List ℕ)
    → (inject_host : Option (List ℕ)) → (headers : List (List ℕ)) → (body : List ℕ) → List ℕ
rewritten new_req_line inject_host headers body =
    let (kept, host_seen) = kept_headers headers in
    put_lines (
      new_req_line ∷ (kept ++ (injected inject_host host_seen ++ (bytes "Connection: close" ∷ []))))
    ++ (crlf ++ body)

-- The method, the target and the version of a request line.
unfoldable pub request_parts : List ℕ → Result IoError (List ℕ × List ℕ × List ℕ)
request_parts line = elim (split_once b' ' line) [
  | none ↦ err (invalid "http: missing target")
  | some (method, rest) ↦ elim (split_once b' ' rest) [
    | none ↦ err (invalid "http: missing version")
    | some (target, version) ↦ ok (method, target, version)
  ]
]

-- Where a plain request goes: the address, the line and the host to put in.
unfoldable pub plain_target :
    (method target version request_line : List ℕ)
    → (headers : List (List ℕ)) → Result IoError ((Address × ℕ) × List ℕ × Option (List ℕ))
plain_target method target version request_line headers = elim (split_absolute target) [
  | some (authority, path, dport) ↦ elim (parse_authority authority dport) [
    | err e ↦ err e
    | ok a ↦ ok (a, method ++ (b' ' ∷ (path ++ (b' ' ∷ version))), some authority)
  ]
  | none ↦ elim (header_value headers (bytes "host")) [
    | none ↦ err (invalid "http: missing host")
    | some host ↦ elim (parse_authority host 80) [
      | err e ↦ err e
      | ok a ↦ ok (a, request_line, none)
    ]
  ]
]

-- What a flow becomes: the decision, and the bytes for the uplink that are already there.
pub record HttpFlow : Type 0 where
  pub decision : ProxyDecision
  pub leftover : List ℕ

-- What is written to the client, and the flow.
abbrev pub Answer : Type 0
Answer = List ℕ × Result IoError HttpFlow

abbrev pub established : List ℕ
established = bytes "HTTP/1.1 200 Connection Established" ++ (crlf ++ crlf)

abbrev pub auth_required : List ℕ
auth_required =
    put_lines (
      bytes "HTTP/1.1 407 Proxy Authentication Required"
      ∷ bytes "Proxy-Authenticate: Basic realm=\"proxy\""
      ∷ bytes "Connection: close"
      ∷ [])
    ++ crlf

unfoldable pub tunnel : Ctx → (target body : List ℕ) → Answer
tunnel ctx target body = elim (parse_authority target 443) [
  | err e ↦ ([], err e)
  | ok (address, port) ↦ (
    established,
    ok (record {
      decision = record { target = sniff_override (tcp_destination address port) body; ctx = ctx };
      leftover = body;
    }),
  )
]

unfoldable pub plain :
    Ctx
    → (method target version request_line : List ℕ) → (headers : List (List ℕ)) → (body : List ℕ)
    → Answer
plain ctx method target version request_line headers body =
    elim (plain_target method target version request_line headers) [
      | err e ↦ ([], err e)
      | ok ((address, port), line, inject_host) ↦ (
        [],
        ok (record {
          decision = record { target = tcp_destination address port; ctx = ctx };
          leftover = rewritten line inject_host headers body;
        }),
      )
    ]

-- `decode` behind the authentication.
unfoldable pub proxied :
    Ctx
    → (request_line : List ℕ) → (List ℕ × List ℕ × List ℕ)
    → (headers : List (List ℕ)) → (body : List ℕ) → Answer
proxied ctx request_line (method, target, version) headers body =
    if eq_ignore_ascii_case method (bytes "CONNECT")
    then tunnel ctx target body
    else plain ctx method target version request_line headers body

unfoldable pub account_of : List HttpAccount → (user pass : List ℕ) → Option (List ℕ)
account_of [] user pass = none
account_of (a ∷ more) user pass =
    if eq_bytes a.username user && eq_bytes a.password pass
    then some a.username
    else account_of more user pass

module _ (base64_decode : List ℕ → Option (List ℕ)) where
  -- The credentials in the value of the header.
  unfoldable pub basic : (value : List ℕ) → Option (List ℕ)
  basic value = do
    _ ← ensure (leb 6 (length value) && eq_ignore_ascii_case (take 6 value) (bytes "Basic "))
    decoded ← base64_decode (trim (drop 6 value))
    _ ← ensure (is_utf8 decoded)
    some decoded

  module _ (accounts : List HttpAccount) where
    unfoldable pub check_auth : List (List ℕ) → Option (List ℕ)
    check_auth headers = do
      value ← header_value headers (bytes "proxy-authorization")
      creds ← basic value
      p ← split_once b':' creds
      account_of accounts p.0 p.1

    -- The context that the flow goes on with, none if it is refused.
    unfoldable pub authorized : Ctx → (headers : List (List ℕ)) → Option Ctx
    authorized ctx headers = elim accounts [
      | [] ↦ some ctx
      | _ ∷ _ ↦ elim (check_auth headers) [
        | none ↦ none
        | some user ↦ some (with_user user (user_hash user) ctx)
      ]
    ]

    -- `decode` on the lines of the head.
    unfoldable pub decode_lines : Ctx → List (List ℕ) → (body : List ℕ) → Answer
    decode_lines ctx [] body = ([], err (invalid "http: empty request"))
    decode_lines ctx (request_line ∷ lines) body = elim (request_parts request_line) [
      | err e ↦ ([], err e)
      | ok parts ↦ elim (authorized ctx (headers_of lines)) [
        | none ↦ (auth_required, ok (record { decision = noop_decision ctx; leftover = [] }))
        | some user ↦ proxied user request_line parts (headers_of lines) body
      ]
    ]

    unfoldable pub decode_head : Ctx → List ℕ × List ℕ → Answer
    decode_head ctx (head, body) =
        if is_utf8 head
        then decode_lines ctx (split_crlf head) body
        else ([], err (invalid "http: non-utf8 head"))

    unfoldable pub decode : Ctx → List Event → Answer
    decode ctx es = elim (read_header max_head parse_head es).0 [
      | err e ↦ ([], err e)
      | ok p ↦ decode_head ctx p
    ]
