-- ===== src/Proxy/Vmess/Users.antt =====
-- proxy/src/vmess/user.rs: which user an authID belongs to. AES-128, CRC-32 and the key derivation are
-- parameters; an `i64` from the wire is its 64 bits, and is negative from 2^63.
pub mod Match
use xray_rs.Base.{
  ℕ, zero, suc, ◌+◌, ◌-◌, ◌*◌, ◌^◌, Bool, true, false, ◌||◌, not, Option, none, some, List, [], ◌∷◌,
  ltb, leb, ◌==◌, if◌then◌else◌, length, take, drop, replicate, get_elem?, set,
}
use xray_rs.Base.Result.{Result, ok, err}
use xray_rs.Kernel.Error.{Error, crypto}

-- A user with the key of its authID cipher; the level is read by nothing.
pub record VmessUser : Type 0 where
  pub cmd_key : List ℕ
  pub authid_key : List ℕ
  pub email : List ℕ

pub data VmessAuthKind : Type 0 where
  active fallback : VmessAuthKind

pub record VmessAuth : Type 0 where
  pub index : ℕ
  pub cmd_key : List ℕ
  pub email : List ℕ
  pub kind : VmessAuthKind

-- `TriedSet`: `none` tracks nothing.
abbrev pub TriedSet : Type 0
TriedSet = Option (List Bool)

unfoldable pub new_tried : Bool → ℕ → TriedSet
new_tried track len = if track then some (replicate len false) else none

unfoldable pub mark : ℕ → TriedSet → TriedSet
mark index none = none
mark index (some slots) = some (set slots index true)

abbrev or_false : Option Bool → Bool
or_false none = false
or_false (some b) = b

unfoldable pub contains : ℕ → TriedSet → Bool
contains index none = false
contains index (some slots) = or_false (get_elem? slots index)

-- A big-endian number.
abbrev pub from_be_bytes : ℕ → List ℕ → ℕ
from_be_bytes acc [] = acc
from_be_bytes acc (b ∷ bs) = from_be_bytes (acc * 256 + b) bs

abbrev pub abs_diff : ℕ → ℕ → ℕ
abs_diff a b = (a - b) + (b - a)

abbrev pub is_empty : {A : Type 0} → List A → Bool
is_empty [] = true
is_empty (_ ∷ _) = false

module _ (cmd_key kdf_authid : List ℕ → List ℕ) where
  -- `VmessUsers::new` of the ids and the emails. (A key of 16 bytes is always accepted.)
  unfoldable pub new : List (List ℕ × List ℕ) → List VmessUser
  new [] = []
  new ((id, email) ∷ users) =
      record { cmd_key = cmd_key id; authid_key = kdf_authid (cmd_key id); email = email }
      ∷ new users

module _ (decrypt_block : (key block : List ℕ) → List ℕ) (crc32 : List ℕ → ℕ) where
  -- The checks on a decrypted authID: its checksum, and its time, at most 120 seconds off.
  unfoldable pub is_fresh : (plain : List ℕ) → (now : ℕ) → Bool
  is_fresh plain now =
      let t = from_be_bytes 0 (take 8 plain) in
      let crc_field = from_be_bytes 0 (take 4 (drop 12 plain)) in
      if ltb (length plain) 16
      then false
      else if crc_field == crc32 (take 12 plain)
      then not (leb (2 ^ 63) t || ltb 120 (abs_diff now t))
      else false

  unfoldable pub match_one :
      ℕ → VmessUser → (authid : List ℕ) → (now : ℕ) → VmessAuthKind → Option VmessAuth
  match_one index user authid now kind =
      if is_fresh (decrypt_block user.authid_key authid) now
      then some (record { index = index; cmd_key = user.cmd_key; email = user.email; kind = kind })
      else none

  -- The pass over the active users, with what it has tried at its end.
  unfoldable pub active_pass :
      List VmessUser
      → (authid : List ℕ) → (now : ℕ) → List ℕ
      → TriedSet
      → Option VmessAuth × TriedSet
  active_pass users authid now [] tried = (none, tried)
  active_pass users authid now (index ∷ rest) tried =
      let skip = active_pass users authid now rest tried in
      let next = active_pass users authid now rest (mark index tried) in
      if contains index tried then skip else elim (get_elem? users index) [
        | none ↦ skip
        | some user ↦ elim (match_one index user authid now active) [
          | some m ↦ (some m, mark index tried)
          | none ↦ next
        ]
      ]

  -- The scan of the users from `index` on.
  unfoldable pub full_scan :
      (authid : List ℕ) → (now : ℕ) → TriedSet → ℕ → List VmessUser → Option VmessAuth
  full_scan authid now tried index [] = none
  full_scan authid now tried index (user ∷ users) =
      let rest = full_scan authid now tried (index + 1) users in
      if contains index tried
      then rest
      else elim (match_one index user authid now fallback) [ some m ↦ some m | none ↦ rest ]

  -- `VmessUsers::match_user`, at the time `now`.
  unfoldable pub match_user :
      List VmessUser → (authid : List ℕ) → (now : ℕ) → List ℕ → Option VmessAuth
  match_user users authid now active_list =
      let tried = new_tried (not (is_empty active_list)) (length users) in
      let (found, tried_then) = active_pass users authid now active_list tried in
      elim found [ some m ↦ some m | none ↦ full_scan authid now tried_then 0 users ]
