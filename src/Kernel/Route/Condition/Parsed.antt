-- ===== src/Kernel/Route/Condition/Parsed.antt =====
-- kernel/src/route/rule.rs, `Condition::parse`: what a token that parses can stand for.
use xray_rs.Base.{
  ℕ, ◌≤◌, ◌≡◌, ◌≢◌, refl, arith, Bool, true, false, Option, none, some, List, ◌∷◌, [], leb,
  if◌then◌else◌, inl, inr, Bool-cases, Option-cases, eq_bytes,
}
use xray_rs.Base.Text.{bytes, to_ascii_lowercase, to_ascii_lowercase_idem, split_once}
use xray_rs.Base.Trim.{trim, parse_uint, parse_uint_le}
use xray_rs.Kernel.Net.{IpAddr, parse_ip}
use xray_rs.Kernel.Route.Condition.{
  Cidr, max_prefix, with_prefix, cut_prefix, parse_cidr, Condition, geo_site, domain_suffix, geo_ip,
  ip, port, any, in_order, parse_port_range, of_kind, non_empty, parse,
}

-- A condition that means something: a name that is not empty, a domain in lower case, a prefix no
-- longer than the address, a range of ports that is not empty.
abbrev pub IsMeaningful : Condition → Type 0
IsMeaningful (geo_site tag) = tag ≢ []
IsMeaningful (domain_suffix d) = (d ≢ []) × (to_ascii_lowercase d ≡ d)
IsMeaningful (geo_ip tag) = tag ≢ []
IsMeaningful (ip c) = c.prefix ≤ max_prefix c.addr
IsMeaningful (port lo hi) = (lo ≤ hi) × (hi ≤ 65535)
IsMeaningful any = Unit

-- What is said of a result, if there is one.
abbrev Given : {A : Type 0} → (A → Type 0) → Option A → Type 0
Given P none = Unit
Given P (some a) = P a

given : {A : Type 0} (P : A → Type 0) {o : Option A} {a : A} → Given P o → o ≡ some a → P a
given P g e = rw e at g

with_prefix-Given :
    (addr : IpAddr) (p : Option (List ℕ))
    → Given (λ (c : Cidr). c.prefix ≤ max_prefix c.addr) (with_prefix addr p)
unfolding with_prefix
with_prefix-Given addr none = omega arith
with_prefix-Given addr (some p) = elim (Option-cases (parse_uint 255 (trim p))) [
  | inl e ↦ rw (e, Given) tt
  | inr (n, e) ↦ elim (Bool-cases (leb n (max_prefix addr))) [
    | inl f ↦ rw (e, f, Given) (ground arith)
    | inr f ↦ rw (e, f, Given) tt
  ]
]

parse_cidr-Given : (s : List ℕ) → Given (λ (c : Cidr). c.prefix ≤ max_prefix c.addr) (parse_cidr s)
unfolding parse_cidr
parse_cidr-Given s = elim (Option-cases (parse_ip (trim (cut_prefix s).0))) [
  | inl e ↦ rw (e, Given) tt
  | inr (addr, e) ↦ rw (e, Given) (with_prefix-Given addr (cut_prefix s).1)
]

in_order-Given :
    (a b : Option ℕ)
    → ((n : ℕ) → b ≡ some n → n ≤ 65535)
    → Given (λ (p : ℕ × ℕ). (p.0 ≤ p.1) × (p.1 ≤ 65535)) (in_order a b)
unfolding in_order
in_order-Given none b h = tt
in_order-Given (some lo) none h = tt
in_order-Given (some lo) (some hi) h = elim (Bool-cases (leb lo hi)) [
  | inl e ↦ rw (e, Given) (ground arith, h hi refl)
  | inr e ↦ rw (e, Given) tt
]

parse_port_range-Given :
    (s : List ℕ) → Given (λ (p : ℕ × ℕ). (p.0 ≤ p.1) × (p.1 ≤ 65535)) (parse_port_range s)
unfolding parse_port_range
parse_port_range-Given s = elim (Option-cases (split_once b'-' s)) [
  | inr ((lo, hi), e) ↦
      rw (e, Given)
        (in_order-Given (parse_uint 65535 (trim lo)) (parse_uint 65535 (trim hi))
          λ n f. parse_uint_le 65535 (trim hi) f)
  | inl e ↦ elim (Option-cases (parse_uint 65535 (trim s))) [
    | inl f ↦ rw (e, f, Given) tt
    | inr (n, f) ↦ rw (e, f, Given) (omega arith, parse_uint_le 65535 (trim s) f)
  ]
]

non_empty-Given :
    (v : List ℕ) (c : Condition) → (v ≢ [] → IsMeaningful c) → Given IsMeaningful (non_empty v c)
non_empty-Given [] c h = tt
non_empty-Given (b ∷ v) c h = h (λ e. cc)

lowercase_ne : (v : List ℕ) → v ≢ [] → to_ascii_lowercase v ≢ []
unfolding to_ascii_lowercase
lowercase_ne [] h = h
lowercase_ne (c ∷ v) h = λ e. cc

ip-Given :
    (o : Option Cidr)
    → Given (λ (c : Cidr). c.prefix ≤ max_prefix c.addr) o
    → Given IsMeaningful (elim o [ none ↦ none | some c ↦ some (ip c) ])
ip-Given none h = tt
ip-Given (some c) h = h

port-Given :
    (o : Option (ℕ × ℕ))
    → Given (λ (p : ℕ × ℕ). (p.0 ≤ p.1) × (p.1 ≤ 65535)) o
    → Given IsMeaningful (elim o [ none ↦ none | some (lo, hi) ↦ some (port lo hi) ])
port-Given none h = tt
port-Given (some (lo, hi)) h = h

if_Given :
    {A : Type 0} (P : A → Type 0) (b : Bool) (o u : Option A)
    → Given P o
    → Given P u
    → Given P (if b then o else u)
if_Given P true o u h k = h
if_Given P false o u h k = k

of_kind-Given : (kind v : List ℕ) → Given IsMeaningful (of_kind kind v)
unfolding of_kind
of_kind-Given kind v =
    if_Given IsMeaningful (eq_bytes kind (bytes "geosite")) _ _
      (non_empty-Given v (geo_site v) (λ h. h))
      (if_Given IsMeaningful (eq_bytes kind (bytes "domain")) _ _
        (non_empty-Given v (domain_suffix (to_ascii_lowercase v))
          (λ h. (lowercase_ne v h, to_ascii_lowercase_idem v)))
        (if_Given IsMeaningful (eq_bytes kind (bytes "geoip")) _ _
          (non_empty-Given v (geo_ip v) (λ h. h))
          (if_Given IsMeaningful (eq_bytes kind (bytes "ip")) _ _
            (ip-Given (parse_cidr v) (parse_cidr-Given v))
            (if_Given IsMeaningful (eq_bytes kind (bytes "port")) _ _
              (port-Given (parse_port_range v) (parse_port_range-Given v)) tt))))

kind-Given :
    (o : Option (List ℕ × List ℕ))
    → Given IsMeaningful (elim o [
      | none ↦ none
      | some (kind, value) ↦ of_kind (to_ascii_lowercase (trim kind)) (trim value)
    ])
kind-Given none = tt
kind-Given (some (kind, value)) = of_kind-Given (to_ascii_lowercase (trim kind)) (trim value)

-- A token that parses is a meaningful condition: no empty name, a domain in lower case, a prefix that
-- the address is long enough for, and ports in order within 16 bits.
pub parse-IsMeaningful : (token : List ℕ) (c : Condition) → parse token ≡ some c → IsMeaningful c
unfolding parse
parse-IsMeaningful token c h =
    given IsMeaningful
      (if_Given IsMeaningful (eq_bytes (trim token) (b'*' ∷ [])) (some any) _ tt
        (kind-Given (split_once b':' (trim token))))
      h
