-- ===== src/Proxy/Trojan.antt =====
-- proxy/src/trojan.rs: the user table and the request decoder. The hash is the `sha2` package's.
pub mod Request
use xray_rs.Base.{ℕ, Option, List, [], ◌∷◌, ◌==◌, if◌then◌else◌, length, none}
use xray_rs.Base.Eq.{bytes_eq}
use xray_rs.Base.Dict.{Dict, lookup, insert}
use xray_rs.Base.Result.{ok_or, pure, ◌>>=◌}
use xray_rs.Kernel.Error.{auth}
use xray_rs.Kernel.Cursor.{Decoder, take_u8, take_bytes}
use xray_rs.Kernel.Net.{Network, udp, tcp, Destination, lift, read, trojan_codec}
use mathlib.Core.List.{foldl}

pub record TrojanUser : Type 0 where
  pub email : List ℕ
  pub level : ℕ

pub record TrojanUsers : Type 0 where
  pub by_key : Dict (List ℕ) TrojanUser

-- `TrojanUsers::new`, over the key function (hexadecimal SHA-224).
module _ (trojan_key : List ℕ → List ℕ) where
  abbrev add_user : Dict (List ℕ) TrojanUser → List ℕ × List ℕ × ℕ → Dict (List ℕ) TrojanUser
  add_user by_key (password, email, level) =
      insert (trojan_key password) (record { email = email; level = level }) by_key

  unfoldable pub new : List (List ℕ × List ℕ × ℕ) → TrojanUsers
  new users = record { by_key = foldl add_user [] users }

unfoldable pub get : TrojanUsers → List ℕ → Option TrojanUser
get users key = if length key == 56 then lookup key users.by_key else none

abbrev pub network_of : ℕ → Network
network_of cmd = if cmd == 3 then udp else tcp

unfoldable pub parse : TrojanUsers → Decoder (Destination × List ℕ)
parse users = do
  hash ← take_bytes 56
  user ← lift (ok_or (get users hash) auth)
  _ ← take_bytes 2
  cmd ← take_u8
  (address, port) ← read trojan_codec
  _ ← take_bytes 2
  pure (record { network = network_of cmd; address = address; port = port }, user.email)
