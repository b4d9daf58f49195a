-- ===== src/Kernel/Route/Condition.antt =====
-- kernel/src/route/rule.rs: the conditions of a rule, their syntax and when they match. The geodata
-- is a parameter.
pub mod Prefix
pub mod Domain
pub mod Parsed
use xray_rs.Base.{
  ℕ, zero, ◌+◌, ◌-◌, ◌*◌, ◌%◌, ◌^◌, ◌≤◌, ◌<◌, Bool, true, false, not, ◌&&◌, Option, none, some,
  List, [], ◌∷◌, leb, ltb, ◌==◌, if◌then◌else◌, length, drop, get_elem?, eq_bytes, bit_and,
}
use xray_rs.Base.Text.{bytes, between, to_ascii_lowercase, eq_ignore_ascii_case, split_once}
use xray_rs.Base.Trim.{trim, parse_uint}
use xray_rs.Kernel.Net.{Network, IpAddr, v4, v6, Address, Destination, parse_ip}

-- `GeoMatcher`
pub record GeoMatcher : Type 0 where
  pub site_contains : (tag domain : List ℕ) → Bool
  pub ip_contains : (tag : List ℕ) → IpAddr → Bool

abbrev pub no_geo : GeoMatcher
no_geo = record { site_contains = λ _ _. false; ip_contains = λ _ _. false }

pub record Cidr : Type 0 where
  pub addr : IpAddr
  pub prefix : ℕ

abbrev is_ipv4 : IpAddr → Bool
is_ipv4 (v4 _) = true
is_ipv4 (v6 _) = false

-- `u8::wrapping_shl` of 0xff.
abbrev pub mask : ℕ → ℕ
mask bits = 255 * 2 ^ (8 - bits) % 256

unfoldable pub prefix_match : (net ip : List ℕ) → (bits : ℕ) → Bool
prefix_match (a ∷ net) (b ∷ ip) bits =
    let rest = prefix_match net ip (bits - 8) in
    if bits == 0
    then true
    else if leb 8 bits
    then (if a == b then rest else false)
    else bit_and a (mask bits) == bit_and b (mask bits)
prefix_match _ _ bits = true

abbrev pub max_prefix : IpAddr → ℕ
max_prefix a = if is_ipv4 a then 32 else 128

unfoldable pub with_prefix : IpAddr → Option (List ℕ) → Option Cidr
with_prefix addr none = some (record { addr = addr; prefix = max_prefix addr })
with_prefix addr (some p) = elim (parse_uint 255 (trim p)) [
  | none ↦ none
  | some n ↦ if leb n (max_prefix addr) then some (record { addr = addr; prefix = n }) else none
]

-- The address and the text behind the slash, if there is one.
abbrev pub cut_prefix : List ℕ → List ℕ × Option (List ℕ)
cut_prefix s = elim (split_once b'/' s) [ none ↦ (s, none) | some (a, b) ↦ (a, some b) ]

-- `Cidr::parse`
unfoldable pub parse_cidr : List ℕ → Option Cidr
parse_cidr s = elim (parse_ip (trim (cut_prefix s).0)) [
  | none ↦ none
  | some addr ↦ with_prefix addr (cut_prefix s).1
]

unfoldable pub addr_contains : IpAddr → IpAddr → ℕ → Bool
addr_contains (v4 net) (v4 ip) prefix = prefix_match net ip prefix
addr_contains (v6 net) (v6 ip) prefix = prefix_match net ip prefix
addr_contains _ _ prefix = false

-- `Cidr::contains`
abbrev pub contains : Cidr → IpAddr → Bool
contains c ip = addr_contains c.addr ip c.prefix

pub data Condition : Type 0 where
  geo_site domain_suffix geo_ip : List ℕ → Condition
  ip : Cidr → Condition
  port : (lo hi : ℕ) → Condition
  any : Condition

unfoldable pub in_order : Option ℕ → Option ℕ → Option (ℕ × ℕ)
in_order (some lo) (some hi) = if leb lo hi then some (lo, hi) else none
in_order _ _ = none

unfoldable pub parse_port_range : List ℕ → Option (ℕ × ℕ)
parse_port_range s = elim (split_once b'-' s) [
  | some (lo, hi) ↦ in_order (parse_uint 65535 (trim lo)) (parse_uint 65535 (trim hi))
  | none ↦ elim (parse_uint 65535 (trim s)) [ none ↦ none | some p ↦ some (p, p) ]
]

abbrev pub non_empty : List ℕ → Condition → Option Condition
non_empty [] c = none
non_empty (_ ∷ _) c = some c

-- A condition by its kind, in lower case, and its value.
unfoldable pub of_kind : (kind value : List ℕ) → Option Condition
of_kind kind value =
    if eq_bytes kind (bytes "geosite")
    then non_empty value (geo_site value)
    else if eq_bytes kind (bytes "domain")
    then non_empty value (domain_suffix (to_ascii_lowercase value))
    else if eq_bytes kind (bytes "geoip")
    then non_empty value (geo_ip value)
    else if eq_bytes kind (bytes "ip")
    then elim (parse_cidr value) [ none ↦ none | some c ↦ some (ip c) ]
    else if eq_bytes kind (bytes "port")
    then elim (parse_port_range value) [ none ↦ none | some (lo, hi) ↦ some (port lo hi) ]
    else none

-- `Condition::parse`
unfoldable pub parse : List ℕ → Option Condition
parse token =
    let t = trim token in
    if eq_bytes t (b'*' ∷ []) then some any else elim (split_once b':' t) [
      | none ↦ none
      | some (kind, value) ↦ of_kind (to_ascii_lowercase (trim kind)) (trim value)
    ]

abbrev starts_char : List ℕ → Bool
starts_char [] = true
starts_char (c ∷ _) = not (between 0x80 0xBF c)

-- `str::get(i..)`
abbrev get_from : ℕ → List ℕ → Option (List ℕ)
get_from i d = if starts_char (drop i d) then some (drop i d) else none

abbrev is_dot : Option ℕ → Bool
is_dot none = false
is_dot (some c) = c == b'.'

-- The domain ends with the suffix, with a dot in front.
unfoldable pub dot_suffix : (d suffix : List ℕ) → Bool
dot_suffix d suffix =
    let i = length d - length suffix in
    ltb (length suffix) (length d)
    && is_dot (get_elem? d (i - 1))
    && elim (get_from i d) [ none ↦ false | some tail ↦ eq_ignore_ascii_case tail suffix ]

unfoldable pub domain_suffix_match : (d suffix : List ℕ) → Bool
domain_suffix_match d suffix = if eq_ignore_ascii_case d suffix then true else dot_suffix d suffix

-- `RouteQuery`; the fields `network` and `source` are read by nothing.
pub record RouteQuery : Type 0 where
  pub target : Destination
  pub sniffed_domain : Option (List ℕ)
  pub auth_hash : Option ℕ

-- `RouteQuery::domain`
unfoldable pub domain_of : Address → Option (List ℕ) → Option (List ℕ)
domain_of (Address.domain d) sniffed = some (to_ascii_lowercase d)
domain_of (Address.ip _) none = none
domain_of (Address.ip _) (some d) = some (to_ascii_lowercase d)

abbrev query_domain : RouteQuery → Option (List ℕ)
query_domain q = domain_of q.target.address q.sniffed_domain

abbrev is_some_and : {A : Type 0} → Option A → (A → Bool) → Bool
is_some_and none p = false
is_some_and (some a) p = p a

abbrev target_ip : Address → Option IpAddr
target_ip (Address.ip a) = some a
target_ip (Address.domain _) = none

-- `Condition::matches`
unfoldable pub matches : GeoMatcher → RouteQuery → Condition → Bool
matches geo q any = true
matches geo q (port lo hi) = leb lo q.target.port && leb q.target.port hi
matches geo q (domain_suffix suffix) =
    is_some_and (query_domain q) (λ d. domain_suffix_match d suffix)
matches geo q (geo_site tag) = is_some_and (query_domain q) (λ d. geo.site_contains tag d)
matches geo q (ip cidr) = is_some_and (target_ip q.target.address) (λ a. contains cidr a)
matches geo q (geo_ip tag) = is_some_and (target_ip q.target.address) (λ a. geo.ip_contains tag a)
