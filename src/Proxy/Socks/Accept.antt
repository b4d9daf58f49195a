-- ===== src/Proxy/Socks/Accept.antt =====
-- proxy/src/socks.rs: a client that keeps the protocol and knows a password gets through.
use xray_rs.Base.{
  ℕ, ◌+◌, ◌<◌, ◌≡◌, refl, sym, ap, ◌∙◌, true, some, List, [], ◌∷◌, ◌++◌, ◌==◌, length,
  length-append, any, arith, append-nil, lt→ltb,
}
use xray_rs.Base.Result.{Result, ok}
use xray_rs.Kernel.Cursor.{take_bytes-front}
use xray_rs.Kernel.Net.{
  Address, byte_for, v4, v6, ip, domain, read, write, write_address, put_u16, socks_codec,
}
use xray_rs.Kernel.Net.RoundTrip.{IsPlain, read-write}
use xray_rs.Proxy.Socks.{
  SocksAccount, account_for, Conn, Step, done, next, ◌>>=◌, read_u8, read_exact, write_all,
  expected_method, auth_password, auth_version, version5, admit, credentials, login, command,
  request, greeting, offer, handshake, choose_method, read_addr, raw_address, decode_address,
}

-- A connection with `input` to come and `written` sent.
abbrev pub conn : List ℕ → List (List ℕ) → Conn
conn input written = record { input = input; written = written }

step :
    {A B : Type 0} (m : Step A) (f : A → Step B) (c : Conn) {a : A} {mid : Conn}
    → m c ≡ (ok a, mid)
    → (m >>= f) c ≡ f a mid
step m f c h = ap (λ (r : Result _ _ × Conn). next f r.0 r.1) h

read_exact-front :
    (bs rest : List ℕ) (w : List (List ℕ))
    → read_exact (length bs) (conn (bs ++ rest) w) ≡ (ok bs, conn rest w)
unfolding read_exact
read_exact-front bs rest w = rw (take_bytes-front bs rest, read_exact) refl

raw_run :
    (n : ℕ) (more rest : List ℕ) (w : List (List ℕ))
    → length more ≡ n
    → (f : List ℕ → List ℕ)
    → (read_exact n >>= λ b. done (f b)) (conn (more ++ rest) w) ≡ (ok (f more), conn rest w)
raw_run n more rest w e f =
    rw (← e) (step (read_exact (length more)) (λ b. done (f b)) _ (read_exact-front more rest w))

-- The address that the codec wrote is the raw address.
raw_address-write :
    (a : Address) (port : ℕ) (rest : List ℕ) (w : List (List ℕ)) (bs : List ℕ)
    → IsPlain a
    → write socks_codec a port ≡ ok bs
    → (atyp : ℕ) × (more : List ℕ) × (bs ≡ atyp ∷ more)
      × (raw_address atyp (conn (more ++ rest) w) ≡ (ok bs, conn rest w))
unfolding write write_address raw_address byte_for
raw_address-write (ip (v4 a)) port rest w bs h e =
    let q : 1 ∷ (a ++ put_u16 port) ≡ bs = cc in
    (
      1,
      a ++ put_u16 port,
      sym q,
      raw_run 6 _ rest w (omega (arith, length-append a (put_u16 port))) (λ b. 1 ∷ b) ∙ rw q refl,
    )
raw_address-write (ip (v6 a)) port rest w bs (h, _) e =
    let q : 4 ∷ (a ++ put_u16 port) ≡ bs = cc in
    (
      4,
      a ++ put_u16 port,
      sym q,
      raw_run 18 _ rest w (omega (arith, length-append a (put_u16 port))) (λ b. 4 ∷ b) ∙ rw q refl,
    )
raw_address-write (domain d) port rest w bs h e =
    let q : 3 ∷ length d ∷ (d ++ put_u16 port) ≡ bs =
      cc (rw (lt→ltb (length d) 256 h.0, write, write_address) at e) in
    (
      3,
      length d ∷ (d ++ put_u16 port),
      sym q,
      unfold read_u8 in
          raw_run (length d + 2) _ rest w (omega (arith, length-append d (put_u16 port)))
            (λ b. 3 ∷ length d ∷ b)
          ∙ rw q refl,
    )

read_addr-write :
    (a : Address) (port : ℕ) (rest : List ℕ) (w : List (List ℕ)) (bs : List ℕ)
    → IsPlain a
    → port < 65536
    → write socks_codec a port ≡ ok bs
    → read_addr (conn (bs ++ rest) w) ≡ (ok (a, port), conn rest w)
unfolding read_addr read_u8
read_addr-write a port rest w bs plain p e =
    let (atyp, more, split, run) = raw_address-write a port rest w bs plain e in
    let (bs', e', r) = read-write socks_codec a port [] plain p in
    let same : bs' ≡ bs = cc in
    let alone : read socks_codec bs ≡ ok ((a, port), []) =
      ap (read socks_codec) (sym (append-nil bs) ∙ rw same refl) ∙ r in
    ap (λ t. read_addr (conn (t ++ rest) w)) split
    ∙ step (raw_address atyp) decode_address (conn (more ++ rest) w) {a = bs} {mid = conn rest w}
        run
    ∙ unfold decode_address in rw (alone, decode_address) refl

-- A client offers a method, says who it is, and asks.
abbrev pub hello : (methods user pass : List ℕ) → (cmd rsv : ℕ) → (addr : List ℕ) → List ℕ
hello methods user pass cmd rsv addr =
    version5
    ∷ length methods
    ∷ (methods
        ++ (auth_version
            ∷ length user
            ∷ (user ++ (length pass ∷ (pass ++ (version5 ∷ cmd ∷ rsv ∷ addr))))))

request-front :
    (cmd rsv : ℕ) (a : Address) (port : ℕ) (bs rest : List ℕ) (w : List (List ℕ))
    → IsPlain a
    → port < 65536
    → write socks_codec a port ≡ ok bs
    → request (conn (version5 ∷ cmd ∷ rsv ∷ (bs ++ rest)) w) ≡ (ok (cmd, (a, port)), conn rest w)
unfolding request command read_u8
request-front cmd rsv a port bs rest w plain p e =
    step read_addr (λ x. done (cmd, x)) (conn (bs ++ rest) w) {a = (a, port)} {mid = conn rest w}
      (read_addr-write a port rest w bs plain p e)

login-front :
    (accounts : List SocksAccount) (user pass rest : List ℕ) (w : List (List ℕ)) (a : SocksAccount)
    → account_for accounts user pass ≡ some a
    → login accounts
        (conn (auth_version ∷ length user ∷ (user ++ (length pass ∷ (pass ++ rest)))) w)
      ≡ (ok tt, conn rest ((auth_version ∷ 0 ∷ []) ∷ w))
unfolding login credentials read_u8
login-front accounts user pass rest w a known =
    step (read_exact (length user)) _ (conn (user ++ (length pass ∷ (pass ++ rest))) w)
      (read_exact-front user (length pass ∷ (pass ++ rest)) w)
    ∙ step (read_exact (length pass)) _ (conn (pass ++ rest) w) (read_exact-front pass rest w)
    ∙ rw known (unfold admit in unfold write_all in refl)

greeting-front :
    (accounts : List SocksAccount) (methods rest : List ℕ)
    → any (λ m. m == expected_method accounts) methods ≡ true
    → greeting accounts (conn (version5 ∷ length methods ∷ (methods ++ rest)) [])
      ≡ (ok tt, conn rest ((version5 ∷ expected_method accounts ∷ []) ∷ []))
unfolding greeting offer read_u8 choose_method
greeting-front accounts methods rest h =
    step (read_exact (length methods)) _ (conn (methods ++ rest) [])
      (read_exact-front methods rest [])
    ∙ rw (h, choose_method) (unfold write_all in refl)

-- A client that offers the method for passwords, sends those of an account, and then a request for an
-- address that the codec carries, gets the two answers of success and is read as it asked.
pub handshake_accepts :
    (first : SocksAccount) (others : List SocksAccount) (account : SocksAccount)
    (methods user pass : List ℕ) (cmd rsv : ℕ) (a : Address) (port : ℕ) (rest : List ℕ)
    → any (λ m. m == auth_password) methods ≡ true
    → account_for (first ∷ others) user pass ≡ some account
    → IsPlain a
    → port < 65536
    → (bs : List ℕ) × (write socks_codec a port ≡ ok bs)
      × (handshake (first ∷ others) (conn (hello methods user pass cmd rsv (bs ++ rest)) []) ≡ (
        ok (cmd, (a, port)),
        conn rest ((auth_version ∷ 0 ∷ []) ∷ (version5 ∷ auth_password ∷ []) ∷ []),
      ))
unfolding handshake
handshake_accepts first others account methods user pass cmd rsv a port rest m known plain p =
    let (bs, e, _) = read-write socks_codec a port [] plain p in
    let tail = version5 ∷ cmd ∷ rsv ∷ (bs ++ rest) in
    let login_bytes = auth_version ∷ length user ∷ (user ++ (length pass ∷ (pass ++ tail))) in
    (
      bs,
      e,
      step (greeting (first ∷ others)) _ _ (greeting-front (first ∷ others) methods login_bytes m)
          ∙ step (login (first ∷ others)) _ _
              (login-front (first ∷ others) user pass tail _ account known)
          ∙ request-front cmd rsv a port bs rest _ plain p e,
    )
