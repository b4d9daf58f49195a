-- ===== src/Proxy/Trojan/Request.antt =====
-- The Trojan request: on a stream, who gets in, and what a client's request is read as.
use xray_rs.Base.{ℕ, ◌<◌, ◌≡◌, ◌∙◌, some, List, [], ◌∷◌, ◌++◌, length}
use xray_rs.Base.Result.{ok, ok_or, >>=-ok, >>=-elim}
use xray_rs.Kernel.Error.{auth}
use xray_rs.Kernel.Cursor.{
  take_u8, take_bytes, take_bytes-front, take_bytes-inv, IsStream, pure-IsStream, bind-IsStream,
  take_u8-IsStream, take_bytes-IsStream,
}
use xray_rs.Kernel.Net.{Address, Destination, lift, read, write, trojan_codec}
use xray_rs.Kernel.Net.Stream.{lift-inv, ok_or-inv, lift-IsStream, read-IsStream}
use xray_rs.Kernel.Net.RoundTrip.{IsPlain, read-write}
use xray_rs.Proxy.Trojan.{TrojanUser, TrojanUsers, get, network_of, parse}

-- The decoder may be called again as the handshake comes in.
pub trojan_parse-IsStream : (users : TrojanUsers) → IsStream (parse users)
unfolding parse
trojan_parse-IsStream users = bind-IsStream (take_bytes-IsStream 56) λ hash.
    bind-IsStream (lift-IsStream _) λ user. bind-IsStream (take_bytes-IsStream 2) λ _.
      bind-IsStream take_u8-IsStream λ cmd.
        bind-IsStream (read-IsStream trojan_codec)
          λ p. bind-IsStream (take_bytes-IsStream 2) λ _. pure-IsStream _

-- Whoever is let in sent the 56-byte key of a user in the table first, and is taken for that user.
pub trojan_authenticated :
    (users : TrojanUsers) (buf rest : List ℕ) (dest : Destination) (email : List ℕ)
    → parse users buf ≡ ok ((dest, email), rest)
    → (key more : List ℕ) × (user : TrojanUser) × (buf ≡ key ++ more)
      × (length key ≡ 56)
      × (get users key ≡ some user)
      × (user.email ≡ email)
unfolding parse
trojan_authenticated users buf rest dest email h =
    >>=-elim (take_bytes 56) _ buf h λ key buf1 e1 h1.
      >>=-elim (lift (ok_or (get users key) auth)) _ buf1 h1 λ user buf2 e2 h2.
        >>=-elim (take_bytes 2) _ buf2 h2 λ _ buf3 _ h3. >>=-elim take_u8 _ buf3 h3 λ cmd buf4 _ h4.
          >>=-elim (read trojan_codec) _ buf4 h4 λ p buf5 _ h5.
            >>=-elim (take_bytes 2) _ buf5 h5 λ _ buf6 _ h6. (
              key,
              buf1,
              user,
              (take_bytes-inv 56 buf e1).0,
              (take_bytes-inv 56 buf e1).1,
              ok_or-inv (get users key) auth (lift-inv _ buf1 e2).0,
              cc h6,
            )

-- A known user's request for an address that the codec carries is read as that address, over UDP for
-- command 3 and over TCP for any other; the two bytes behind the key and behind the address are
-- skipped, whatever they are, and what follows is left.
pub trojan_request :
    (users : TrojanUsers) (key : List ℕ) (user : TrojanUser) (cmd a1 a2 b1 b2 : ℕ) (a : Address)
    (port : ℕ) (rest : List ℕ)
    → get users key ≡ some user
    → length key ≡ 56
    → IsPlain a
    → port < 65536
    → (bs : List ℕ) × (write trojan_codec a port ≡ ok bs)
      × (parse users (key ++ (a1 ∷ a2 ∷ cmd ∷ (bs ++ (b1 ∷ b2 ∷ rest))))
          ≡ ok ((record { network = network_of cmd; address = a; port = port }, user.email), rest))
unfolding parse
trojan_request users key user cmd a1 a2 b1 b2 a port rest known size plain h =
    let (bs, w, r) = read-write trojan_codec a port (b1 ∷ b2 ∷ rest) plain h in
    let tail = a1 ∷ a2 ∷ cmd ∷ (bs ++ (b1 ∷ b2 ∷ rest)) in
    (
      bs,
      w,
      >>=-ok (take_bytes 56) _ _ (rw (← size) (take_bytes-front key tail))
          ∙ >>=-ok (lift (ok_or (get users key) auth)) _ tail {a = user} {rest = tail}
              (rw (known, lift))
          ∙ >>=-ok (take_bytes 2) _ tail (take_bytes-front (a1 ∷ a2 ∷ []) _)
          ∙ unfold take_u8 in
            >>=-ok (read trojan_codec) _ (bs ++ (b1 ∷ b2 ∷ rest)) r
            ∙ >>=-ok (take_bytes 2) _ (b1 ∷ b2 ∷ rest) (take_bytes-front (b1 ∷ b2 ∷ []) rest),
    )
