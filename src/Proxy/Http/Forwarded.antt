-- ===== src/Proxy/Http/Forwarded.antt =====
-- proxy/src/http.rs: what goes to the origin of a request that is served.
use xray_rs.Base.{
  ◌||◌, arith, ℕ, ◌≡◌, refl, ap, Bool, true, false, inl, inr, ◌⊎◌, Option, none, some, List, [],
  ◌∷◌, ◌++◌, Bool-cases, Option-cases, any,
}
use mathlib.Core.Path.{subst}
use xray_rs.Base.Text.{bytes, eq_ignore_ascii_case}
use xray_rs.Base.Result.{ok, Result-cases}
use xray_rs.Kernel.Net.{Address, tcp_destination}
use xray_rs.Kernel.Dispatch.{Ctx}
use xray_rs.Proxy.Relay.{sniff_override}
use xray_rs.Proxy.Http.{
  crlf, is_hop, line_name, parse_authority, kept_headers, put_lines, rewritten, injected,
  request_parts, split_absolute, header_value, plain_target, HttpFlow, tunnel, plain, proxied,
}

-- A header that is not for the proxy.
abbrev pub IsPassed : List ℕ → Type 0
IsPassed line =
    (eq_ignore_ascii_case (line_name line) (bytes "proxy-connection") ≡ false)
    × (eq_ignore_ascii_case (line_name line) (bytes "proxy-authorization") ≡ false)
    × (eq_ignore_ascii_case (line_name line) (bytes "connection") ≡ false)

none_of : (a b c : Bool) → (a || b || c) ≡ false → (a ≡ false) × (b ≡ false) × (c ≡ false)
none_of a b c h = (ground (arith, h), ground (arith, h), ground (arith, h))

is_hop-IsPassed : (line : List ℕ) → is_hop line ≡ false → IsPassed line
unfolding is_hop
is_hop-IsPassed line h =
    none_of (eq_ignore_ascii_case (line_name line) (bytes "proxy-connection"))
      (eq_ignore_ascii_case (line_name line) (bytes "proxy-authorization"))
      (eq_ignore_ascii_case (line_name line) (bytes "connection")) h

-- What is kept of the headers, in order: every one but those for the proxy.
pub data IsKept : List (List ℕ) → List (List ℕ) → Type 0 where
  nil : IsKept [] []
  dropped :
      {line : List ℕ} {headers kept : List (List ℕ)}
      → ¬ IsPassed line
      → IsKept headers kept
      → IsKept (line ∷ headers) kept
  passed :
      {line : List ℕ} {headers kept : List (List ℕ)}
      → IsPassed line
      → IsKept headers kept
      → IsKept (line ∷ headers) (line ∷ kept)

-- A line that names the host.
abbrev pub names_host : List ℕ → Bool
names_host line = eq_ignore_ascii_case (line_name line) (bytes "host")

-- What is forwarded of a request line, and the host behind the headers: the line itself, or for a
-- target with a scheme the line with the path alone and the host, if no header that is kept names one.
pub data IsOrigin (kept : List (List ℕ))
    : (request_line line : List ℕ) → (host : List (List ℕ)) → Type 0 where
  as_it_is :
      {line method target version : List ℕ}
      → request_parts line ≡ ok (method, target, version)
      → split_absolute target ≡ none
      → IsOrigin kept line line []
  by_path :
      {request_line method target version authority path : List ℕ} {dport : ℕ}
      {host : List (List ℕ)}
      → request_parts request_line ≡ ok (method, target, version)
      → split_absolute target ≡ some (authority, path, dport)
      → ((any names_host kept ≡ true) × (host ≡ []))
        ⊎ ((any names_host kept ≡ false) × (host ≡ (bytes "Host: " ++ authority) ∷ []))
      → IsOrigin kept request_line (method ++ (b' ' ∷ (path ++ (b' ' ∷ version)))) host

-- A request for a tunnel.
abbrev pub IsConnect : List ℕ → Type 0
IsConnect request_line =
    (method : List ℕ) × (target : List ℕ) × (version : List ℕ) × (request_parts request_line
      ≡ ok (method, target, version))
    × (eq_ignore_ascii_case method (bytes "CONNECT") ≡ true)

-- What is forwarded of a request: for a tunnel what is behind the head, and else the head again, its
-- first line by `IsOrigin`, the headers that are kept, and the line Connection: close.
abbrev pub IsForwarded :
    (request_line : List ℕ) → (headers : List (List ℕ)) → (body leftover : List ℕ) → Type 0
IsForwarded request_line headers body leftover =
    (IsConnect request_line × (leftover ≡ body))
    ⊎ ((line : List ℕ) × (host : List (List ℕ)) × (kept : List (List ℕ)) × IsOrigin kept
          request_line line host
        × IsKept headers kept
        × (leftover
            ≡ put_lines (line ∷ (kept ++ (host ++ (bytes "Connection: close" ∷ []))))
              ++ (crlf ++ body)))

true_of : (a b c : Bool) → (a || b || c) ≡ true → (a ≡ false) × (b ≡ false) × (c ≡ false) → ⊥
true_of a b c h (x, y, z) = cc (rw (x, y, z) at h)

is_hop-not-IsPassed : (line : List ℕ) → is_hop line ≡ true → ¬ IsPassed line
unfolding is_hop
is_hop-not-IsPassed line h p =
    true_of (eq_ignore_ascii_case (line_name line) (bytes "proxy-connection"))
      (eq_ignore_ascii_case (line_name line) (bytes "proxy-authorization"))
      (eq_ignore_ascii_case (line_name line) (bytes "connection")) h p

kept_headers-IsKept : (headers : List (List ℕ)) → IsKept headers (kept_headers headers).0
unfolding kept_headers
kept_headers-IsKept [] = nil
kept_headers-IsKept (line ∷ headers) = elim (Bool-cases (is_hop line)) [
  | inl e ↦
      rw (e, kept_headers) (dropped (is_hop-not-IsPassed line e) (kept_headers-IsKept headers))
  | inr e ↦ rw (e, kept_headers) (passed (is_hop-IsPassed line e) (kept_headers-IsKept headers))
]

kept_headers-any :
    (headers : List (List ℕ)) → (kept_headers headers).1 ≡ any names_host (kept_headers headers).0
unfolding kept_headers
kept_headers-any [] = refl
kept_headers-any (line ∷ headers) = elim (Bool-cases (is_hop line)) [
  | inl e ↦ rw (e, kept_headers) (kept_headers-any headers)
  | inr e ↦ rw (e, kept_headers) (ap (λ t. names_host line || t) (kept_headers-any headers))
]

injected-cases :
    (authority : List ℕ) (seen : Bool)
    → ((seen ≡ true) × (injected (some authority) seen ≡ []))
      ⊎ ((seen ≡ false) × (injected (some authority) seen ≡ (bytes "Host: " ++ authority) ∷ []))
injected-cases authority true = inl (refl, refl)
injected-cases authority false = inr (refl, refl)

-- A flow keeps the context that it was let in with.
abbrev pub IsServed :
    Ctx → (request_line : List ℕ) → (headers : List (List ℕ)) → (body : List ℕ) → HttpFlow → Type 0
IsServed ctx request_line headers body flow =
    (flow.decision.ctx ≡ ctx) × IsForwarded request_line headers body flow.leftover

rewritten-IsForwarded :
    (request_line line : List ℕ) (inject_host : Option (List ℕ)) (headers : List (List ℕ))
    (body : List ℕ)
    → IsOrigin
        (kept_headers headers).0
        request_line
        line
        (injected inject_host (kept_headers headers).1)
    → IsForwarded request_line headers body (rewritten line inject_host headers body)
unfolding rewritten
rewritten-IsForwarded request_line line inject_host headers body o = inr (
  line,
  injected inject_host (kept_headers headers).1,
  (kept_headers headers).0,
  o,
  kept_headers-IsKept headers,
  refl,
)

-- The first line of a plain request.
plain_target-IsOrigin :
    (method target version request_line : List ℕ) (headers : List (List ℕ)) (a : Address × ℕ)
    (line : List ℕ) (inject_host : Option (List ℕ)) (kept : List (List ℕ)) (seen : Bool)
    → seen ≡ any names_host kept
    → request_parts request_line ≡ ok (method, target, version)
    → plain_target method target version request_line headers ≡ ok (a, line, inject_host)
    → IsOrigin kept request_line line (injected inject_host seen)
unfolding plain_target
plain_target-IsOrigin method target version request_line headers a line inject_host kept seen named
      parts h =
    elim (Option-cases (split_absolute target)) [
      | inl e ↦ elim (Option-cases (header_value headers (bytes "host"))) [
        | inl n ↦ absurd (cc (rw (e, n, plain_target) at h))
        | inr (host, n) ↦ elim (Result-cases (parse_authority host 80)) [
          | inr (x, q) ↦ absurd (cc (rw (e, n, q, plain_target) at h))
          | inl (b, q) ↦
              let l : request_line ≡ line = cc (rw (e, n, q, plain_target) at h) in
              let i : none ≡ inject_host = cc (rw (e, n, q, plain_target) at h) in
              subst (λ j. IsOrigin kept request_line line (injected j seen)) i
                (subst (λ m. IsOrigin kept request_line m []) l (as_it_is parts e))
        ]
      ]
      | inr ((authority, path, dport), e) ↦ elim (Result-cases (parse_authority authority dport)) [
        | inr (x, q) ↦ absurd (cc (rw (e, q, plain_target) at h))
        | inl (b, q) ↦
            let l : method ++ (b' ' ∷ (path ++ (b' ' ∷ version))) ≡ line =
              cc (rw (e, q, plain_target) at h) in
            let i : some authority ≡ inject_host = cc (rw (e, q, plain_target) at h) in
            subst (λ j. IsOrigin kept request_line line (injected j seen)) i
              (subst (λ m. IsOrigin kept request_line m (injected (some authority) seen)) l
                (by_path parts e (rw (← named) (injected-cases authority seen))))
      ]
    ]

tunnel-IsServed :
    (ctx : Ctx) (line : List ℕ) (headers : List (List ℕ)) (target body written : List ℕ)
    (flow : HttpFlow)
    → IsConnect line
    → tunnel ctx target body ≡ (written, ok flow)
    → IsServed ctx line headers body flow
unfolding tunnel
tunnel-IsServed ctx line headers target body written flow connect h =
    elim (Result-cases (parse_authority target 443)) [
      | inr (x, e) ↦ absurd (cc (rw (e, tunnel) at h))
      | inl ((address, port), e) ↦
          let made : record {
            decision = record {
              target = sniff_override (tcp_destination address port) body;
              ctx = ctx;
            };
            leftover = body;
          }
              ≡ flow =
            cc (rw (e, tunnel) at h) in
          subst (IsServed ctx line headers body) made (refl, inl (connect, refl))
    ]

plain-IsServed :
    (ctx : Ctx) (method target version line : List ℕ) (headers : List (List ℕ))
    (body written : List ℕ) (flow : HttpFlow)
    → request_parts line ≡ ok (method, target, version)
    → plain ctx method target version line headers body ≡ (written, ok flow)
    → IsServed ctx line headers body flow
unfolding plain
plain-IsServed ctx method target version line headers body written flow parts h =
    elim (Result-cases (plain_target method target version line headers)) [
      | inr (x, e) ↦ absurd (cc (rw (e, plain) at h))
      | inl (((address, port), new_line, host), e) ↦
          let made : record {
            decision = record { target = tcp_destination address port; ctx = ctx };
            leftover = rewritten new_line host headers body;
          }
              ≡ flow =
            cc (rw (e, plain) at h) in
          subst (IsServed ctx line headers body) made (
            refl,
            rewritten-IsForwarded line new_line host headers body (
                plain_target-IsOrigin method target version line headers (address, port) new_line
                  host (kept_headers headers).0 (kept_headers headers).1 (kept_headers-any headers)
                  parts e),
          )
    ]

pub proxied-IsServed :
    (ctx : Ctx) (line : List ℕ) (parts : List ℕ × List ℕ × List ℕ) (headers : List (List ℕ))
    (body written : List ℕ) (flow : HttpFlow)
    → request_parts line ≡ ok parts
    → proxied ctx line parts headers body ≡ (written, ok flow)
    → IsServed ctx line headers body flow
unfolding proxied
proxied-IsServed ctx line (method, target, version) headers body written flow p h =
    elim (Bool-cases (eq_ignore_ascii_case method (bytes "CONNECT"))) [
      | inl e ↦
          tunnel-IsServed ctx line headers target body written flow (method, target, version, p, e)
            (rw (e, proxied) at h)
      | inr e ↦
          plain-IsServed ctx method target version line headers body written flow p
            (rw (e, proxied) at h)
    ]
