-- ===== src/Kernel/Route/Balance.antt =====
-- kernel/src/route/balance.rs: the choice among the tags of a rule. The cursor of the round robin is
-- state that is passed on; the random number is an argument.
pub mod Fair
use xray_rs.Base.{
  ℕ, suc, ◌+◌, ◌%◌, ◌^◌, ◌||◌, Bool, Option, none, some, List, ◌∷◌, [], ◌==◌, if◌then◌else◌,
  eq_bytes, map,
}
use xray_rs.Base.Text.{to_ascii_lowercase, bytes}
use xray_rs.Base.Trim.{trim}

pub data BalanceMode : Type 0 where
  random round_robin user_auth_hash : BalanceMode

abbrev pub or_zero : Option ℕ → ℕ
or_zero none = 0
or_zero (some n) = n

abbrev dash_to_underscore : ℕ → ℕ
dash_to_underscore c = if c == b'-' || c == b' ' then b'_' else c

-- The token as it is compared.
unfoldable pub normal_token : List ℕ → List ℕ
normal_token s = map dash_to_underscore (to_ascii_lowercase (trim s))

-- `BalanceMode::parse`
unfoldable pub parse_mode : List ℕ → Option BalanceMode
parse_mode s =
    let t = normal_token s in
    if eq_bytes t (bytes "random") || eq_bytes t (bytes "rand")
    then some random
    else if eq_bytes t (bytes "round_robin")
        || eq_bytes t (bytes "roundrobin")
        || eq_bytes t (bytes "rr")
    then some round_robin
    else if eq_bytes t (bytes "user_auth_hash")
        || eq_bytes t (bytes "userauthhash")
        || eq_bytes t (bytes "auth_hash")
        || eq_bytes t (bytes "hash")
    then some user_auth_hash
    else none

pub record LoadBalancer : Type 0 where
  pub mode : BalanceMode
  pub cursor : ℕ

unfoldable pub new : BalanceMode → LoadBalancer
new mode = record { mode = mode; cursor = 0 }

-- `fetch_add(1)` on a `usize` of 64 bits.
abbrev pub next_cursor : ℕ → ℕ
next_cursor n = (n + 1) % 2 ^ 64

-- The choice among one tag or more: the index, and the balancer after it.
unfoldable pub pick_in : BalanceMode → LoadBalancer → (r count : ℕ) → Option ℕ → ℕ × LoadBalancer
pick_in random b r count auth_hash = (r % count, b)
pick_in round_robin b r count auth_hash =
    (b.cursor % count, record b { cursor = next_cursor b.cursor })
pick_in user_auth_hash b r count auth_hash = (or_zero auth_hash % count, b)

-- `pick`. `r` is what `rand::random` returns, if it is asked.
unfoldable pub pick : LoadBalancer → (r count : ℕ) → Option ℕ → Option ℕ × LoadBalancer
pick b r count auth_hash =
    if count == 0 then (none, b) else let (i, c) = pick_in b.mode b r count auth_hash in (some i, c)
