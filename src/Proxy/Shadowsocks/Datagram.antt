-- ===== src/Proxy/Shadowsocks/Datagram.antt =====
-- proxy/src/shadowsocks.rs, `ss_udp_encode` and `udp_decode`: the datagrams of both directions.
use xray_rs.Base.{
  ℕ, ◌≤◌, ◌<◌, ◌≡◌, refl, false, Option, none, some, List, [], ◌∷◌, ◌++◌, ltb, length,
  length-append, take, drop, take-append, drop-append, replicate, All, arith,
}
use xray_rs.Base.Result.{ok}
use xray_rs.Kernel.Net.{Destination, udp_destination, write, shadowsocks_codec}
use xray_rs.Kernel.Net.RoundTrip.{IsPlain, read_written}
use xray_rs.Proxy.Crypto.{AeadKind, key_size, nonce_size, Cipher, IsCipher}
use xray_rs.Proxy.Shadowsocks.{SsUser, user_cipher, ss_udp_encode, udp_try, udp_users, udp_decode}

module _ (hkdf : (master salt info : List ℕ) → (len : ℕ) → Option (List ℕ))
    (new_cipher : AeadKind → (key : List ℕ) → Option Cipher) (kind : AeadKind) where
  -- What is sent for a payload, and that the key of its user opens it.
  pub record IsSent (user : SsUser) (salt : List ℕ) (target : Destination) (payload dgram : List ℕ)
      : Type 0 where
    pub ct : List ℕ
    pub parts : dgram ≡ salt ++ ct
    pub opens :
        udp_try hkdf new_cipher kind salt ct user
        ≡ some (udp_destination target.address target.port, payload)

  -- A target that a datagram carries, under a key: the encoder always makes a datagram for it.
  pub ss_udp_encode-IsSent :
      (user : SsUser) (c : Cipher) (salt head : List ℕ) (target : Destination) (payload : List ℕ)
      → user_cipher hkdf new_cipher kind user.master salt ≡ some c
      → IsCipher c
      → IsPlain target.address
      → target.port < 65536
      → write shadowsocks_codec target.address target.port ≡ ok head
      → length (head ++ payload) ≤ 65536
      → (dgram : List ℕ) × (ss_udp_encode hkdf new_cipher kind user.master salt target payload
          ≡ some dgram)
        × IsSent user salt target payload dgram
  unfolding ss_udp_encode udp_try
  ss_udp_encode-IsSent user c salt head target payload key v plain p16 w short =
      let (ct, e, n, d) = v.seals (replicate (nonce_size kind) 0) (head ++ payload) short in
      let parsed =
        read_written shadowsocks_codec target.address target.port head payload plain p16 w in
      (
        salt ++ ct,
        rw (key, w, e, ss_udp_encode) refl,
        record { ct = ct; parts = refl; opens = rw (key, d, parsed, udp_try) refl },
      )

  udp_users-append :
      (salt ct : List ℕ) (before after : List SsUser) (user : SsUser) (m : Destination × List ℕ)
      → All (λ u. udp_try hkdf new_cipher kind salt ct u ≡ none) before
      → udp_try hkdf new_cipher kind salt ct user ≡ some m
      → udp_users hkdf new_cipher kind salt ct (before ++ user ∷ after) ≡ some (user, m)
  unfolding udp_users
  udp_users-append salt ct [] after user m a h = rw (h, udp_users) refl
  udp_users-append salt ct (u ∷ before) after user m (e, a) h =
      rw (e, udp_users) (udp_users-append salt ct before after user m a h)

  udp_decode-parts :
      (users : List SsUser) (salt ct : List ℕ)
      → length salt ≡ key_size kind
      → udp_decode hkdf new_cipher kind users (salt ++ ct)
        ≡ udp_users hkdf new_cipher kind salt ct users
  unfolding udp_decode
  udp_decode-parts users salt ct n =
      let enough : ltb (length (salt ++ ct)) (key_size kind) ≡ false =
        ground (arith, length-append salt ct, n) in
      let front : take (key_size kind) (salt ++ ct) ≡ salt = rw (← n) (take-append salt ct) in
      let back : drop (key_size kind) (salt ++ ct) ≡ ct = rw (← n) (drop-append salt ct) in
      rw (enough, front, back) refl

  -- What is sent under the key of a user of the table for a target and a payload is decoded to that
  -- user, target over UDP and payload, if no earlier user's key makes a datagram of it. For an address
  -- that the codec carries as it is, a port of 16 bits, at most 65536 bytes of address and payload, and
  -- a cipher that opens what it sealed.
  pub udp_decode-ss_udp_encode :
      (before after : List SsUser) (user : SsUser) (c : Cipher) (salt head : List ℕ)
      (target : Destination) (payload dgram : List ℕ)
      → length salt ≡ key_size kind
      → user_cipher hkdf new_cipher kind user.master salt ≡ some c
      → IsCipher c
      → IsPlain target.address
      → target.port < 65536
      → write shadowsocks_codec target.address target.port ≡ ok head
      → length (head ++ payload) ≤ 65536
      → ss_udp_encode hkdf new_cipher kind user.master salt target payload ≡ some dgram
      → All (λ u. udp_try hkdf new_cipher kind salt (drop (key_size kind) dgram) u ≡ none) before
      → udp_decode hkdf new_cipher kind (before ++ user ∷ after) dgram
        ≡ some (user, (udp_destination target.address target.port, payload))
  udp_decode-ss_udp_encode before after user c salt head target payload dgram salted key v plain p16
        w short sent others =
      let (dgram', e, s) =
        ss_udp_encode-IsSent user c salt head target payload key v plain p16 w short in
      let same : dgram ≡ salt ++ s.ct = cc (sent, e, s.parts) in
      let ct : drop (key_size kind) dgram ≡ s.ct = rw (same, ← salted) (drop-append salt s.ct) in
      rw (same, udp_decode-parts (before ++ user ∷ after) salt s.ct salted)
        (udp_users-append salt s.ct before after user _ (rw (ct) at others) s.opens)
