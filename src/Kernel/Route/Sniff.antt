-- ===== src/Kernel/Route/Sniff.antt =====
-- kernel/src/route/sniff.rs: the name that the first bytes of a stream ask for, of a TLS hello or of an
-- HTTP request.
pub mod Hello
pub mod Request
mod Tests
use xray_rs.Base.{
  ℕ, zero, suc, ◌+◌, ◌*◌, ◌%◌, ◌≡◌, Bool, true, false, not, ◌&&◌, ◌||◌, Option, none, some, List,
  [], ◌∷◌, ◌++◌, reverse, ltb, leb, ◌==◌, if◌then◌else◌, length, take, drop, get_elem?, any,
  eq_bytes,
}
use xray_rs.Base.Optional.{◌>>=◌, ◌>>◌, ensure, get_from, get_to, first, read_u16}
use xray_rs.Base.Text.{
  bytes, is_utf8, to_ascii_lowercase, eq_ignore_ascii_case, strip_prefix, split_once,
}

pub data SniffedProtocol : Type 0 where
  tls http : SniffedProtocol

-- The last byte of a name, 0 if it is empty.
abbrev last_of : ℕ → List ℕ → ℕ
last_of last [] = last
last_of last (c ∷ name) = last_of c name

-- A `host_name` entry.
unfoldable pub host_name : List ℕ → Option (List ℕ)
host_name name =
    if any (λ c. leb c 32) name
    then none
    else if last_of 0 name == b'.'
    then none
    else if is_utf8 name
    then some name
    else none

-- The loop of `read_server_name`; an entry has three bytes at least, so fuel of the length is enough.
unfoldable pub name_loop : ℕ → List ℕ → Option (List ℕ)
name_loop fuel [] = none
name_loop zero (name_type ∷ d) = none
name_loop (suc fuel) (name_type ∷ d) = do
  name_len ← read_u16 d
  d ← get_from 2 d
  name ← get_to name_len d
  let rest = get_from name_len d >>= name_loop fuel in
      if name_type == 0 then host_name name else rest

-- `read_server_name`
unfoldable pub read_server_name : List ℕ → Option (List ℕ)
read_server_name body = do
  names_len ← read_u16 body
  d ← get_from 2 body
  _ ← ensure (length d == names_len)
  name_loop (length d) d

-- The loop over the extensions; each has four bytes at least, so fuel of the length is enough.
unfoldable pub extension_loop : ℕ → List ℕ → Option (List ℕ)
extension_loop fuel [] = none
extension_loop zero (b ∷ input) = none
extension_loop (suc fuel) (b ∷ input) = do
  extension ← read_u16 (b ∷ input)
  sized ← get_from 2 (b ∷ input)
  len ← read_u16 sized
  behind ← get_from 4 (b ∷ input)
  body ← get_to len behind
  let rest = get_from len behind >>= extension_loop fuel in
      if extension == 0
      then elim (read_server_name body) [ some name ↦ some name | none ↦ rest ]
      else rest

-- `read_client_hello` behind the session id.
unfoldable pub read_suites : List ℕ → Option (List ℕ)
read_suites input = do
  cipher_suite_len ← read_u16 input
  _ ← ensure (not (cipher_suite_len % 2 == 1))
  methods ← get_from (2 + cipher_suite_len) input
  compression_len ← first methods
  extensions ← get_from (1 + compression_len) methods
  extensions_len ← read_u16 extensions
  body ← get_from 2 extensions
  _ ← ensure (extensions_len == length body)
  extension_loop (length body) body

unfoldable pub read_client_hello : List ℕ → Option (List ℕ)
read_client_hello input = do
  _ ← ensure (leb 42 (length input))
  session_id_len ← get_elem? input 38
  _ ← ensure (leb session_id_len 32)
  behind ← get_from (39 + session_id_len) input
  read_suites behind

-- The record's header behind its first three bytes.
unfoldable pub read_record : List ℕ → Option (List ℕ)
read_record payload = do
  sized ← get_from 3 payload
  record_len ← read_u16 sized
  _ ← ensure (leb (5 + record_len) (length payload))
  upto ← get_to (5 + record_len) payload
  hello ← get_from 5 upto
  read_client_hello hello

unfoldable pub sniff_tls : List ℕ → Option (List ℕ)
sniff_tls payload = do
  _ ← ensure (leb 5 (length payload))
  content ← get_elem? payload 0
  _ ← ensure (content == 0x16)
  major ← get_elem? payload 1
  _ ← ensure (major == 3)
  read_record payload

abbrev pub http_methods : List (List ℕ)
http_methods =
    bytes "get"
    ∷ bytes "post"
    ∷ bytes "head"
    ∷ bytes "put"
    ∷ bytes "delete"
    ∷ bytes "options"
    ∷ bytes "connect"
    ∷ []

-- `begins_with_http_method` over the methods that are left.
unfoldable pub begins_with : List (List ℕ) → List ℕ → Bool
begins_with [] b = false
begins_with (m ∷ methods) b =
    let rest = begins_with methods b in
    if leb (length m) (length b) && eq_ignore_ascii_case (take (length m) b) m
    then true
    else if ltb (length b) (length m)
    then false
    else rest

-- A byte put in front of the first line.
abbrev push_first : ℕ → List (List ℕ) → List (List ℕ)
push_first c [] = (c ∷ []) ∷ []
push_first c (line ∷ lines) = (c ∷ line) ∷ lines

-- `slice::split` at one byte.
unfoldable pub split : ℕ → List ℕ → List (List ℕ)
split sep [] = [] ∷ []
split sep (c ∷ s) = let lines = split sep s in if c == sep then [] ∷ lines else push_first c lines

-- `trim_ascii`
abbrev pub is_ascii_whitespace : ℕ → Bool
is_ascii_whitespace c = c == 9 || c == 10 || c == 12 || c == 13 || c == 32

unfoldable pub trim_ascii_start : List ℕ → List ℕ
trim_ascii_start [] = []
trim_ascii_start (c ∷ s) =
    let rest = trim_ascii_start s in if is_ascii_whitespace c then rest else c ∷ s

unfoldable pub trim_ascii : List ℕ → List ℕ
trim_ascii s = reverse (trim_ascii_start (reverse (trim_ascii_start s)))

-- The count of a byte.
abbrev pub count : ℕ → List ℕ → ℕ
count b [] = 0
count b (c ∷ s) = if c == b then suc (count b s) else count b s

-- What `strip_port` takes behind a bracket.
abbrev after_bracket : List ℕ × List ℕ → Option (List ℕ)
after_bracket (addr, []) = some addr
after_bracket (addr, c ∷ after) = if c == b':' then some addr else none

-- A single colon: the split at the last one is that at the first.
unfoldable pub strip_port : List ℕ → Option (List ℕ)
strip_port host = elim (strip_prefix (b'[' ∷ []) host) [
  | some rest ↦ split_once b']' rest >>= after_bracket
  | none ↦
      if count b':' host == 0
      then some host
      else if count b':' host == 1
      then split_once b':' host >>= (λ (p : List ℕ × List ℕ). some p.0)
      else none
]

-- What a header line does to the host that was found before; `none` where the code returns.
unfoldable pub header_host : List ℕ → List ℕ → Option (List ℕ) → Option (Option (List ℕ))
header_host key value host =
    if eq_ignore_ascii_case key (bytes "host")
    then ensure (is_utf8 (trim_ascii value))
      >> some (strip_port (to_ascii_lowercase (trim_ascii value)))
    else some host

unfoldable pub header_line : List ℕ → Option (List ℕ) → Option (Option (List ℕ))
header_line line host = elim (split_once b':' line) [
  | none ↦ some host
  | some (key, value) ↦ header_host key value host
]

-- The loop over the lines, up to an empty one.
unfoldable pub header_loop : List (List ℕ) → Option (List ℕ) → Option (Option (List ℕ))
header_loop [] host = some host
header_loop ([] ∷ lines) host = some host
header_loop ((c ∷ line) ∷ lines) host = header_line (c ∷ line) host >>= header_loop lines

abbrev non_empty : Option (List ℕ) → Option (List ℕ)
non_empty none = none
non_empty (some []) = none
non_empty (some (c ∷ h)) = some (c ∷ h)

unfoldable pub sniff_http : List ℕ → Option (List ℕ)
sniff_http payload = do
  _ ← ensure (begins_with http_methods payload)
  host ← header_loop (drop 1 (split 10 payload)) none
  non_empty host

unfoldable pub sniff : List ℕ → Option (SniffedProtocol × List ℕ)
sniff payload = elim (sniff_tls payload) [
  | some domain ↦ some (tls, domain)
  | none ↦ sniff_http payload >>= (λ domain. some (http, domain))
]
