-- ===== src/Proxy/Vless/Request.antt =====
-- The VLESS request: on a stream, who gets in, and what a client's request is read as.
use xray_rs.Base.{
  ℕ, suc, ◌<◌, ◌≡◌, refl, ◌∙◌, some, List, [], ◌∷◌, ◌++◌, ltb, lt→ltb, ◌==◌, length, arith, inl,
  inr, Bool-cases,
}
use xray_rs.Base.Result.{ok, ok_or, pure, >>=-ok, >>=-elim}
use xray_rs.Base.Eq.{bytes_eq}
use xray_rs.Base.Dict.{lookup}
use xray_rs.Kernel.Error.{auth}
use xray_rs.Kernel.Cursor.{
  take_u8, take_bytes, take_bytes-front, take_u8-inv, take_bytes-inv, IsStream, pure-IsStream,
  fail-IsStream, bind-IsStream, if-IsStream, take_u8-IsStream, take_bytes-IsStream,
}
use xray_rs.Kernel.Net.{Address, tcp_destination, udp_destination, lift, read, write, vless_codec}
use xray_rs.Kernel.Net.Stream.{lift-inv, ok_or-inv, lift-IsStream, read-IsStream}
use xray_rs.Kernel.Net.RoundTrip.{IsPlain, read-write}
use xray_rs.Proxy.Vless.{
  VlessUser, VlessUsers, get, VlessReq, tcp, udp, mux, skip_addons, request, parse_user, parse,
}

skip_addons-IsStream : IsStream skip_addons
unfolding skip_addons
skip_addons-IsStream = bind-IsStream take_u8-IsStream λ n.
    if-IsStream (ltb 0 n) (bind-IsStream (take_bytes-IsStream n) λ _. pure-IsStream tt)
      (pure-IsStream tt)

request-IsStream : (cmd : ℕ) → IsStream (request cmd)
unfolding request
request-IsStream cmd =
    if-IsStream (cmd == 1) (bind-IsStream (read-IsStream vless_codec) λ p. pure-IsStream _) (
      if-IsStream (cmd == 2) (bind-IsStream (read-IsStream vless_codec) λ p. pure-IsStream _)
        (if-IsStream (cmd == 3) (pure-IsStream mux) (fail-IsStream _)))

parse_user-IsStream : (users : VlessUsers) → IsStream (parse_user users)
unfolding parse_user
parse_user-IsStream users = bind-IsStream (take_bytes-IsStream 16) λ id.
    bind-IsStream (lift-IsStream _) λ user. bind-IsStream skip_addons-IsStream λ _.
      bind-IsStream take_u8-IsStream
        λ cmd. bind-IsStream (request-IsStream cmd) λ req. pure-IsStream (req, user.email)

-- The decoder may be called again as the handshake comes in.
pub vless_parse-IsStream : (users : VlessUsers) → IsStream (parse users)
unfolding parse
vless_parse-IsStream users =
    bind-IsStream take_u8-IsStream
      λ ver. if-IsStream (ver == 0) (parse_user-IsStream users) (fail-IsStream _)

pub record IsAuthenticated (users : VlessUsers) (buf email : List ℕ) : Type 0 where
  pub id : List ℕ
  pub more : List ℕ
  pub user : VlessUser
  pub long : length id ≡ 16
  pub found : lookup id users.by_id ≡ some user
  pub split : buf ≡ id ++ more
  pub same : user.email ≡ email

get-found :
    (users : VlessUsers) (id : List ℕ) (user : VlessUser)
    → length id ≡ 16
    → get users id ≡ some user
    → lookup id users.by_id ≡ some user
unfolding get
get-found users id user long h = rw (long) at h

parse_user-IsAuthenticated :
    (users : VlessUsers) (buf rest : List ℕ) (req : VlessReq) (email : List ℕ)
    → parse_user users buf ≡ ok ((req, email), rest)
    → IsAuthenticated users buf email
unfolding parse_user
parse_user-IsAuthenticated users buf rest req email h =
    >>=-elim (take_bytes 16) _ buf h λ id buf1 e1 h1.
      >>=-elim (lift (ok_or (get users id) auth)) _ buf1 h1 λ user buf2 e2 h2.
        >>=-elim skip_addons _ buf2 h2 λ _ buf3 _ h3. >>=-elim take_u8 _ buf3 h3 λ cmd buf4 _ h4.
          >>=-elim (request cmd) _ buf4 h4 λ req' buf5 _ h5. record {
            id = id;
            more = buf1;
            user = user;
            long = (take_bytes-inv 16 buf e1).1;
            found =
                get-found users id user (take_bytes-inv 16 buf e1).1
                  (ok_or-inv (get users id) auth (lift-inv _ buf1 e2).0);
            split = (take_bytes-inv 16 buf e1).0;
            same = cc h5;
          }

-- Whoever is let in sent, behind the version byte 0, the 16 bytes of an id under which the table has a
-- user, all of them as they stand there, and is taken for that user.
pub vless-IsAuthenticated :
    (users : VlessUsers) (buf rest : List ℕ) (req : VlessReq) (email : List ℕ)
    → parse users buf ≡ ok ((req, email), rest)
    → (more : List ℕ) × (buf ≡ 0 ∷ more) × IsAuthenticated users more email
unfolding parse
vless-IsAuthenticated users buf rest req email h = >>=-elim take_u8 _ buf h λ ver more e k.
    elim (Bool-cases (ver == 0)) [
      | inl zero_version ↦ (
        more,
        ground (arith, take_u8-inv buf e),
        parse_user-IsAuthenticated users more rest req email (rw zero_version at k),
      )
      | inr other ↦ cc (rw other at k)
    ]

skip_addons-front :
    (addons rest : List ℕ) → skip_addons (length addons ∷ (addons ++ rest)) ≡ ok (tt, rest)
unfolding skip_addons take_u8
skip_addons-front [] rest = refl
skip_addons-front (x ∷ xs) rest = rw (lt→ltb 0 (suc (length xs)) (omega arith)) (
    >>=-ok (take_bytes (length (x ∷ xs))) (λ _. pure tt) ((x ∷ xs) ++ rest)
      (take_bytes-front (x ∷ xs) rest))

-- What a client sends before the address.
abbrev pub header : (id addons : List ℕ) (cmd : ℕ) → List ℕ → List ℕ
header id addons cmd rest = 0 ∷ (id ++ (length addons ∷ (addons ++ (cmd ∷ rest))))

module _ (users : VlessUsers) (id : List ℕ) (user : VlessUser) (known : get users id ≡ some user)
    (size : length id ≡ 16) (addons : List ℕ) where
  parse-header :
      (cmd : ℕ) (rest end : List ℕ) {req : VlessReq}
      → request cmd rest ≡ ok (req, end)
      → parse users (header id addons cmd rest) ≡ ok ((req, user.email), end)
  unfolding parse parse_user take_u8
  parse-header cmd rest end h =
      let tail = length addons ∷ (addons ++ (cmd ∷ rest)) in
      >>=-ok (take_bytes 16) _ _ (rw (← size) (take_bytes-front id tail))
      ∙ >>=-ok (lift (ok_or (get users id) auth)) _ tail {a = user} {rest = tail} (rw (known, lift))
      ∙ >>=-ok skip_addons _ tail (skip_addons-front addons (cmd ∷ rest))
      ∙ >>=-ok (request cmd) _ rest h

  -- A known user's request for an address that the codec carries is read as that address, over TCP
  -- for command 1 and over UDP for command 2, whatever the addons; a mux request (command 3) has no
  -- address. What follows the request is left.
  pub vless_request :
      (a : Address) (port : ℕ) (rest : List ℕ)
      → IsPlain a
      → port < 65536
      → (bs : List ℕ) × (write vless_codec a port ≡ ok bs)
        × (parse users (header id addons 1 (bs ++ rest))
            ≡ ok ((tcp (tcp_destination a port), user.email), rest))
        × (parse users (header id addons 2 (bs ++ rest))
            ≡ ok ((udp (udp_destination a port), user.email), rest))
        × (parse users (header id addons 3 rest) ≡ ok ((mux, user.email), rest))
  unfolding request
  vless_request a port rest plain h =
      let (bs, w, r) = read-write vless_codec a port rest plain h in
      (
        bs,
        w,
        parse-header 1 (bs ++ rest) rest (>>=-ok (read vless_codec) _ _ r),
        parse-header 2 (bs ++ rest) rest (>>=-ok (read vless_codec) _ _ r),
        parse-header 3 rest rest refl,
      )
