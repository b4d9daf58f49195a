-- ===== src/Proxy/Vless.antt =====
-- proxy/src/vless.rs: the user table and the request decoder.
pub mod Request
use xray_rs.Base.{ℕ, ◌<◌, Bool, Option, none, some, List, [], ◌∷◌, ltb, ◌==◌, if◌then◌else◌, length}
use xray_rs.Base.Eq.{bytes_eq}
use xray_rs.Base.Dict.{Dict, lookup, insert}
use xray_rs.Base.Result.{ok_or, pure, fail, ◌>>=◌, ◌>>◌}
use xray_rs.Kernel.Error.{Error, auth, protocol}
use xray_rs.Kernel.Cursor.{Decoder, take_u8, take_bytes}
use xray_rs.Kernel.Net.{Destination, tcp_destination, udp_destination, lift, read, vless_codec}
use mathlib.Core.List.{foldl}

pub record VlessUser : Type 0 where
  pub id : List ℕ
  pub email : List ℕ
  pub level : ℕ

pub record VlessUsers : Type 0 where
  pub by_id : Dict (List ℕ) VlessUser

abbrev add_user : Dict (List ℕ) VlessUser → VlessUser → Dict (List ℕ) VlessUser
add_user by_id user = insert user.id user by_id

-- `VlessUsers::new`: of two users with one id the later stays.
unfoldable pub new : List VlessUser → VlessUsers
new users = record { by_id = foldl add_user [] users }

unfoldable pub get : VlessUsers → List ℕ → Option VlessUser
get users id = if length id == 16 then lookup id users.by_id else none

pub data VlessReq : Type 0 where
  tcp udp : Destination → VlessReq
  mux : VlessReq

-- The addons are skipped.
unfoldable pub skip_addons : Decoder (Unit {0})
skip_addons = do
  addon_len ← take_u8
  if ltb 0 addon_len then (take_bytes addon_len >>= λ _. pure tt) else pure tt

unfoldable pub request : ℕ → Decoder VlessReq
request cmd =
    if cmd == 1
    then (read vless_codec >>= λ (address, port). pure (tcp (tcp_destination address port)))
    else if cmd == 2
    then (read vless_codec >>= λ (address, port). pure (udp (udp_destination address port)))
    else if cmd == 3
    then pure mux
    else fail (protocol "vless command")

-- `parse` behind the version byte.
unfoldable pub parse_user : VlessUsers → Decoder (VlessReq × List ℕ)
parse_user users = do
  id ← take_bytes 16
  user ← lift (ok_or (get users id) auth)
  skip_addons
  cmd ← take_u8
  req ← request cmd
  pure (req, user.email)

unfoldable pub parse : VlessUsers → Decoder (VlessReq × List ℕ)
parse users = do
  ver ← take_u8
  if ver == 0 then parse_user users else fail (protocol "vless version")
