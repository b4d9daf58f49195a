-- ===== src/Proxy/Vmess/Inbound.antt =====
-- proxy/src/vmess.rs: whom the inbound lets in, with the state behind its locks. One flow at a time
-- is let in, and no lock is poisoned. The two clocks of a flow, of the match and of the replay filter,
-- are arguments.
pub mod Once
pub mod Recent
use xray_rs.Base.{
  ℕ, zero, suc, ◌+◌, ◌-◌, ◌%◌, ◌^◌, Bool, true, false, Option, none, some, List, [], ◌∷◌, ltb, ◌==◌,
  if◌then◌else◌, length, take,
}
use xray_rs.Base.Result.{Result, ok, err}
use xray_rs.Kernel.Error.{IoError, message, invalid_data}
use xray_rs.Proxy.Vmess.Users.{VmessUser, VmessAuth, VmessAuthKind, active, fallback, match_user}
use xray_rs.Proxy.Vmess.Replay.{ReplayFilter, empty_filter, check_insert}

abbrev pub vmess_active_auth_max : ℕ
vmess_active_auth_max = 1024

pub record Vmess : Type 0 where
  pub users : List VmessUser
  pub active_users : List ℕ
  pub replay_filter : ReplayFilter
  pub auth_active_hits : ℕ
  pub auth_fallback_hits : ℕ
  pub auth_failures : ℕ

-- `Vmess::new`
abbrev pub new : List VmessUser → Vmess
new users = record {
  users = users;
  active_users = [];
  replay_filter = empty_filter;
  auth_active_hits = 0;
  auth_fallback_hits = 0;
  auth_failures = 0;
}

-- `Vmess::set_users`
unfoldable pub set_users : List VmessUser → Vmess → Vmess
set_users users s = record s { users = users; active_users = [] }

-- The removal of the first place where `index` stands.
unfoldable pub remove_index : ℕ → List ℕ → List ℕ
remove_index index [] = []
remove_index index (i ∷ is) =
    let rest = remove_index index is in if i == index then is else i ∷ rest

unfoldable pub pop_long : List ℕ → List ℕ
pop_long is = if ltb vmess_active_auth_max (length is) then take (length is - 1) is else is

-- `Vmess::remember_active_user`
unfoldable pub remember_active_user : ℕ → List ℕ → List ℕ
remember_active_user index is = pop_long (index ∷ remove_index index is)

abbrev pub fetch_add : ℕ → ℕ
fetch_add n = (n + 1) % 2 ^ 64

-- `Vmess::record_auth_hit`
unfoldable pub record_auth_hit : VmessAuthKind → Vmess → Vmess
record_auth_hit active s = record s { auth_active_hits = fetch_add s.auth_active_hits }
record_auth_hit fallback s = record s { auth_fallback_hits = fetch_add s.auth_fallback_hits }

unfoldable pub failed : Vmess → Vmess
failed s = record s { auth_failures = fetch_add s.auth_failures }

unfoldable pub let_in : VmessAuth → Vmess → Vmess
let_in m s =
    let t = record_auth_hit m.kind s in
    record t { active_users = remember_active_user m.index t.active_users }

-- The answer of the replay filter for an authID that a user owns.
unfoldable pub admit : VmessAuth → Bool × ReplayFilter → Vmess → Result IoError VmessAuth × Vmess
admit m (true, filter) s = (ok m, let_in m (record s { replay_filter = filter }))
admit m (false, filter) s =
    (err (message invalid_data "vmess replay"), failed (record s { replay_filter = filter }))

module _ (decrypt_block : (key block : List ℕ) → List ℕ) (crc32 : List ℕ → ℕ) where
  -- The front of `Vmess::read_header`, up to the sealed header.
  unfoldable pub authenticate :
      (authid : List ℕ) → (match_now replay_now : ℕ) → Vmess → Result IoError VmessAuth × Vmess
  authenticate authid match_now replay_now s =
      elim (match_user decrypt_block crc32 s.users authid match_now s.active_users) [
        | none ↦ (err (message invalid_data "vmess auth"), failed s)
        | some m ↦ admit m (check_insert authid replay_now s.replay_filter) s
      ]

-- What the inbound goes through.
pub data Step : Type 0 where
  flow : (authid : List ℕ) → (match_now replay_now : ℕ) → Step
  swap : List VmessUser → Step

module _ (decrypt_block : (key block : List ℕ) → List ℕ) (crc32 : List ℕ → ℕ) where
  unfoldable pub step : Step → Vmess → Vmess
  step (flow authid match_now replay_now) s =
      (authenticate decrypt_block crc32 authid match_now replay_now s).1
  step (swap users) s = set_users users s

  unfoldable pub run : List Step → Vmess → Vmess
  run [] s = s
  run (e ∷ es) s = run es (step e s)
