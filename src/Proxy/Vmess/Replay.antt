-- ===== src/Proxy/Vmess/Replay.antt =====
-- proxy/src/vmess.rs, `ReplayFilter`: an authID that was let in is refused until it expires.
pub mod Queue
pub mod Window
pub mod Gap
use xray_rs.Base.{
  ℕ, zero, suc, ◌+◌, ◌-◌, ◌^◌, Bool, true, false, ◌||◌, List, [], ◌∷◌, ◌++◌, ltb, leb,
  if◌then◌else◌, length, any, eq_bytes,
}

abbrev pub vmess_auth_replay_window_secs : ℕ
vmess_auth_replay_window_secs = 120

abbrev pub vmess_auth_replay_max : ℕ
vmess_auth_replay_max = 65536

-- An entry of the queue is an authID and the time when it expires.
pub record ReplayFilter : Type 0 where
  pub seen : List (List ℕ)
  pub order : List (List ℕ × ℕ)

abbrev pub empty_filter : ReplayFilter
empty_filter = record { seen = []; order = [] }

abbrev pub is_seen : List ℕ → List (List ℕ) → Bool
is_seen a set = any (eq_bytes a) set

-- `HashSet::remove`
unfoldable pub forget : List ℕ → List (List ℕ) → List (List ℕ)
forget a [] = []
forget a (b ∷ set) = let rest = forget a set in if eq_bytes a b then rest else b ∷ rest

-- `u64::saturating_add`
abbrev pub saturating_add : ℕ → ℕ → ℕ
saturating_add a b = if ltb (a + b) (2 ^ 64) then a + b else 2 ^ 64 - 1

-- The loop of `prune` over the queue.
unfoldable pub prune_queue : ℕ → List (List ℕ) → List (List ℕ × ℕ) → ReplayFilter
prune_queue now seen [] = record { seen = seen; order = [] }
prune_queue now seen ((a, expires_at) ∷ order) =
    let rest = prune_queue now (forget a seen) order in
    if ltb now expires_at then record { seen = seen; order = (a, expires_at) ∷ order } else rest

unfoldable pub prune : ℕ → ReplayFilter → ReplayFilter
prune now f = prune_queue now f.seen f.order

unfoldable pub remember : List ℕ → ℕ → ReplayFilter → ReplayFilter
remember a now f = record {
  seen = a ∷ f.seen;
  order = f.order ++ ((a, saturating_add now vmess_auth_replay_window_secs) ∷ []);
}

-- `ReplayFilter::check_insert`
unfoldable pub check_insert : List ℕ → ℕ → ReplayFilter → Bool × ReplayFilter
check_insert a now f =
    let g = prune now f in
    if is_seen a g.seen || leb vmess_auth_replay_max (length g.seen)
    then (false, g)
    else (true, remember a now g)

-- The filter after a run of checks, each with its time.
unfoldable pub after : List (List ℕ × ℕ) → ReplayFilter → ReplayFilter
after [] f = f
after ((a, now) ∷ calls) f = after calls (check_insert a now f).1
