-- ===== src/Proxy/Shadowsocks/Decode.antt =====
-- proxy/src/shadowsocks.rs, `decode`: who is let in, and what a client's flow is decoded to.
use xray_rs.Base.{
  ℕ, ◌+◌, ◌-◌, ◌*◌, ◌∙◌, ◌⊎◌, replicate, ◌≡◌, refl, ap, sym, Bool-cases, Option, none, some,
  Option-cases, List, [], ◌∷◌, ◌++◌, ltb, length, take, drop, All, inl, inr,
}
use mathlib.Core.Path.{subst}
use xray_rs.Base.Result.{ok, Result-cases}
use xray_rs.Kernel.Net.{Address, tcp_destination, read, shadowsocks_codec}
use xray_rs.Proxy.Crypto.{
  AeadKind, aes128_gcm, aes256_gcm, chacha20_poly1305, xchacha20_poly1305, nonce_bytes, inc,
  inc_bytes, key_size, nonce_size, Cipher, tag, new_nonce,
}
use xray_rs.Proxy.Shadowsocks.{
  SsUser, SsChunks, user_cipher, chunk_len, open_next, read_payload, read_sized, try_user,
  match_user, Decoded, decode_target, decode_flow, decode,
}

-- The first three nonces of a cipher: its number counts up from the first byte.
abbrev pub nonce_of : AeadKind → ℕ → List ℕ
nonce_of kind n = n ∷ replicate (nonce_size kind - 1) 0

zero_nonce : (kind : AeadKind) → nonce_bytes (new_nonce (nonce_size kind)) ≡ nonce_of kind 0
zero_nonce aes128_gcm = refl
zero_nonce aes256_gcm = refl
zero_nonce chacha20_poly1305 = refl
zero_nonce xchacha20_poly1305 = refl

next_nonce : (kind : AeadKind) → nonce_bytes (inc (new_nonce (nonce_size kind))) ≡ nonce_of kind 1
unfolding inc inc_bytes
next_nonce aes128_gcm = refl
next_nonce aes256_gcm = refl
next_nonce chacha20_poly1305 = refl
next_nonce xchacha20_poly1305 = refl

third_nonce :
    (kind : AeadKind) → nonce_bytes (inc (inc (new_nonce (nonce_size kind)))) ≡ nonce_of kind 2
unfolding inc inc_bytes
third_nonce aes128_gcm = refl
third_nonce aes256_gcm = refl
third_nonce chacha20_poly1305 = refl
third_nonce xchacha20_poly1305 = refl

chunk_len-inv :
    (lenpt : List ℕ) (len : ℕ)
    → chunk_len lenpt ≡ ok len
    → (hi : ℕ) × (lo : ℕ) × (more : List ℕ) × (lenpt ≡ hi ∷ lo ∷ more) × (len ≡ hi * 256 + lo)
unfolding chunk_len
chunk_len-inv [] len h = absurd (cc h)
chunk_len-inv (hi ∷ []) len h = absurd (cc h)
chunk_len-inv (hi ∷ lo ∷ more) len h =
    let e : hi * 256 + lo ≡ len = cc h in (hi, lo, more, refl, sym e)

-- Where a text of a known length comes from.
record IsOpened (c : Cipher) (len : ℕ) (input plain rest : List ℕ) (s t : SsChunks) : Type 0 where
  opens : c.decrypt (nonce_bytes s.nonce) (take (len + tag) input) ≡ some plain
  left : rest ≡ drop (len + tag) input
  next : t ≡ record s { nonce = inc s.nonce }

read_payload-inv :
    (len : ℕ) (input plain rest : List ℕ) (s t : SsChunks)
    → read_payload len input s ≡ ok (plain, (rest, t))
    → IsOpened s.aead len input plain rest s t
unfolding read_payload open_next
read_payload-inv len input plain rest s t h = elim (Bool-cases (ltb (length input) (len + tag))) [
  | inl e ↦ absurd (cc (rw (e, read_payload) at h))
  | inr e ↦ elim (Option-cases (s.aead.decrypt (nonce_bytes s.nonce) (take (len + tag) input))) [
    | inl q ↦ absurd (cc (rw (e, read_payload, open_next, q) at h))
    | inr (m, q) ↦
        let both : ok (m, (drop (len + tag) input, record s { nonce = inc s.nonce }))
            ≡ ok (plain, (rest, t)) =
          (rw (e, read_payload, open_next, q) at h) in
        let text : m ≡ plain = cc both in
        record { opens = q ∙ ap some text; left = cc both; next = cc both }
  ]
]

module _ (hkdf : (master salt info : List ℕ) → (len : ℕ) → Option (List ℕ))
    (new_cipher : AeadKind → (key : List ℕ) → Option Cipher) (kind : AeadKind) where
  -- The state that a cipher starts with.
  abbrev pub first_state : Cipher → SsChunks
  first_state c = record { aead = c; nonce = new_nonce (nonce_size kind) }

  -- What a user's key makes of a flow: the cipher for the salt, and that it does not open the length.
  abbrev pub IsRefused : (salt lenct : List ℕ) → SsUser → Type 0
  IsRefused salt lenct user =
      (user_cipher hkdf new_cipher kind user.master salt ≡ none)
      ⊎ ((c : Cipher) × (user_cipher hkdf new_cipher kind user.master salt ≡ some c)
          × (c.decrypt (nonce_of kind 0) lenct ≡ none))

  -- The first user whose key for the salt opens the length, at the nonce zero, with its cipher.
  pub record IsMatch (salt lenct : List ℕ) (users : List SsUser) (user : SsUser) (lenpt : List ℕ)
      (c : Cipher) : Type 0 where
    pub before : List SsUser
    pub after : List SsUser
    pub place : users ≡ before ++ user ∷ after
    pub others : All (IsRefused salt lenct) before
    pub made : user_cipher hkdf new_cipher kind user.master salt ≡ some c
    pub opens : c.decrypt (nonce_of kind 0) lenct ≡ some lenpt

  pub match_user-append :
      (salt lenct : List ℕ) (before after : List SsUser) (user : SsUser) (m : List ℕ × SsChunks)
      → All (λ u. try_user hkdf new_cipher kind salt lenct u ≡ none) before
      → try_user hkdf new_cipher kind salt lenct user ≡ some m
      → match_user hkdf new_cipher kind salt lenct (before ++ user ∷ after) ≡ some (user, m)
  unfolding match_user
  match_user-append salt lenct [] after user m a h = rw (h, match_user) refl
  match_user-append salt lenct (u ∷ before) after user m (e, a) h =
      rw (e, match_user) (match_user-append salt lenct before after user m a h)

  try_user-none :
      (salt lenct : List ℕ) (user : SsUser)
      → try_user hkdf new_cipher kind salt lenct user ≡ none
      → IsRefused salt lenct user
  unfolding try_user
  try_user-none salt lenct user h =
      elim (Option-cases (user_cipher hkdf new_cipher kind user.master salt)) [
        | inl e ↦ inl e
        | inr (c, e) ↦
            elim (Option-cases (c.decrypt (nonce_bytes (new_nonce (nonce_size kind))) lenct)) [
              | inl q ↦ inr (c, e, rw (← zero_nonce kind) q)
              | inr (m, q) ↦ absurd (cc (rw (e, q, try_user) at h))
            ]
      ]

  try_user-some :
      (salt lenct : List ℕ) (user : SsUser) (lenpt : List ℕ) (s : SsChunks)
      → try_user hkdf new_cipher kind salt lenct user ≡ some (lenpt, s)
      → (c : Cipher) × (user_cipher hkdf new_cipher kind user.master salt ≡ some c)
        × (c.decrypt (nonce_of kind 0) lenct ≡ some lenpt)
        × (s ≡ record { aead = c; nonce = inc (new_nonce (nonce_size kind)) })
  unfolding try_user
  try_user-some salt lenct user lenpt s h =
      elim (Option-cases (user_cipher hkdf new_cipher kind user.master salt)) [
        | inl e ↦ absurd (cc (rw (e, try_user) at h))
        | inr (c, e) ↦
            elim (Option-cases (c.decrypt (nonce_bytes (new_nonce (nonce_size kind))) lenct)) [
              | inl q ↦ absurd (cc (rw (e, q, try_user) at h))
              | inr (m, q) ↦
                  let both : some
                        (m, record { aead = c; nonce = inc (new_nonce (nonce_size kind)) })
                      ≡ some (lenpt, s) =
                    (rw (e, q, try_user) at h) in
                  let text : m ≡ lenpt = cc both in
                  (c, e, rw (← zero_nonce kind, ← text) q, cc both)
            ]
      ]

  match_user-IsMatch :
      (salt lenct : List ℕ) (users : List SsUser) (user : SsUser) (lenpt : List ℕ) (s : SsChunks)
      → match_user hkdf new_cipher kind salt lenct users ≡ some (user, (lenpt, s))
      → (c : Cipher) × IsMatch salt lenct users user lenpt c
        × (s ≡ record { aead = c; nonce = inc (new_nonce (nonce_size kind)) })
  unfolding match_user
  match_user-IsMatch salt lenct [] user lenpt s h = absurd (cc h)
  match_user-IsMatch salt lenct (u ∷ users) user lenpt s h =
      elim (Option-cases (try_user hkdf new_cipher kind salt lenct u)) [
        | inl e ↦
            let (c, m, t) =
              match_user-IsMatch salt lenct users user lenpt s (rw (e, match_user) at h) in
            (
              c,
              record {
                before = u ∷ m.before;
                after = m.after;
                place = ap (λ t. u ∷ t) m.place;
                others = (try_user-none salt lenct u e, m.others);
                made = m.made;
                opens = m.opens;
              },
              t,
            )
        | inr (m, e) ↦
            let q : some (u, m) ≡ some (user, (lenpt, s)) = (rw (e, match_user) at h) in
            let same : u ≡ user = cc q in
            let all : m ≡ (lenpt, s) = cc q in
            let (c, made, opens, t) = try_user-some salt lenct u lenpt s (e ∙ ap some all) in
            (
              c,
              record {
                before = [];
                after = users;
                place = ap (λ t. t ∷ users) same;
                others = tt;
                made =
                    subst (λ (x : SsUser). user_cipher hkdf new_cipher kind x.master salt ≡ some c)
                      same made;
                opens = opens;
              },
              t,
            )
      ]

  -- What `decode` read behind the match: a text whose length was opened, under the same cipher and the
  -- next nonce, which begins with the target. The rest of the text and of the input is passed on, and
  -- the cipher goes on with the nonce after that.
  pub record IsDecoded (behind lenpt : List ℕ) (c : Cipher) (d : Decoded hkdf new_cipher)
      : Type 0 where
    pub hi : ℕ
    pub lo : ℕ
    pub more : List ℕ
    pub sized : lenpt ≡ hi ∷ lo ∷ more
    pub plain : List ℕ
    pub opened : c.decrypt (nonce_of kind 1) (take (hi * 256 + lo + 16) behind) ≡ some plain
    pub address : Address
    pub port : ℕ
    pub parsed : read shadowsocks_codec plain ≡ ok ((address, port), d.leftover)
    pub aimed : d.target ≡ tcp_destination address port
    pub rest : d.input ≡ drop (hi * 256 + lo + 16) behind
    pub same_cipher : d.chunks_state.aead ≡ c
    pub next_nonce : nonce_bytes d.chunks_state.nonce ≡ nonce_of kind 2

  read_sized-parts :
      (behind lenpt plain input : List ℕ) (s t : SsChunks)
      → read_sized behind (lenpt, s) ≡ ok (plain, (input, t))
      → (hi : ℕ) × (lo : ℕ) × (more : List ℕ) × (lenpt ≡ hi ∷ lo ∷ more)
        × IsOpened s.aead (hi * 256 + lo) behind plain input s t
  unfolding read_sized
  read_sized-parts behind lenpt plain input s t h = elim (Result-cases (chunk_len lenpt)) [
    | inr (x, e) ↦ absurd (cc (rw (e, read_sized) at h))
    | inl (len, e) ↦
        let (hi, lo, more, sized, same) = chunk_len-inv lenpt len e in
        (
          hi,
          lo,
          more,
          sized,
          rw (← same) (read_payload-inv len behind plain input s t (rw (e, read_sized) at h)),
        )
  ]

  decode_target-inv :
      (user : SsUser) (plain input : List ℕ) (s : SsChunks) (d : Decoded hkdf new_cipher)
      → decode_target hkdf new_cipher user (plain, (input, s)) ≡ ok d
      → (a : Address) × (port : ℕ) × (left : List ℕ) × (read shadowsocks_codec plain
          ≡ ok ((a, port), left))
        × (record {
          user = user;
          target = tcp_destination a port;
          leftover = left;
          chunks_state = s;
          input = input;
        }
            ≡ d)
  unfolding decode_target
  decode_target-inv user plain input s d h = elim (Result-cases (read shadowsocks_codec plain)) [
    | inr (e, q) ↦ absurd (cc (rw (q, decode_target) at h))
    | inl (((a, port), left), q) ↦ (a, port, left, q, cc (rw (q, decode_target) at h))
  ]

  -- The state behind the first length.
  abbrev second_of : Cipher → SsChunks
  second_of c = record { aead = c; nonce = inc (new_nonce (nonce_size kind)) }

  -- A decoded flow is of the user it was matched to.
  decode_flow-IsDecoded :
      (behind : List ℕ) (user : SsUser) (lenpt : List ℕ) (c : Cipher) (d : Decoded hkdf new_cipher)
      → decode_flow hkdf new_cipher behind (user, (lenpt, second_of c)) ≡ ok d
      → (d.user ≡ user) × IsDecoded behind lenpt c d
  unfolding decode_flow
  decode_flow-IsDecoded behind user lenpt c d h =
      elim (Result-cases (read_sized behind (lenpt, second_of c))) [
        | inr (e, q) ↦ absurd (cc (rw (q, decode_flow) at h))
        | inl ((plain, (input, t)), q) ↦
            let (a, port, left, r, same) =
              decode_target-inv user plain input t d (rw (q, decode_flow) at h) in
            let (hi, lo, more, sized, o) =
              read_sized-parts behind lenpt plain input (second_of c) t q in
            (
              ap (λ (x : Decoded hkdf new_cipher). x.user) (sym same),
              subst (λ (x : Decoded hkdf new_cipher). IsDecoded behind lenpt c x) same
                  (record {
                    hi = hi;
                    lo = lo;
                    more = more;
                    sized = sized;
                    plain = plain;
                    opened = rw (← next_nonce kind) o.opens;
                    address = a;
                    port = port;
                    parsed = r;
                    aimed = refl;
                    rest = o.left;
                    same_cipher = ap (λ (x : SsChunks). x.aead) o.next;
                    next_nonce =
                        ap (λ (x : SsChunks). nonce_bytes x.nonce) o.next ∙ third_nonce kind;
                  }),
            )
      ]

  -- What `decode` lets in.
  pub record IsLetIn (users : List SsUser) (input : List ℕ) (d : Decoded hkdf new_cipher)
      : Type 0 where
    pub lenpt : List ℕ
    pub cipher : Cipher
    pub matched :
        IsMatch
          (take (key_size kind) input)
          (take (2 + tag) (drop (key_size kind) input))
          users
          d.user
          lenpt
          cipher
    pub read_on : IsDecoded (drop (2 + tag) (drop (key_size kind) input)) lenpt cipher d

  -- A flow that `decode` lets in is of the first user of the table whose cipher for the flow's salt
  -- opens the first length at the nonce 0; the same cipher opened the text of that length behind it at
  -- the nonce 1, and the text begins with the target. What is left of the text and of the input is
  -- passed on as it is, and the cipher goes on at the nonce 2.
  pub decode-IsLetIn :
      (users : List SsUser) (input : List ℕ) (d : Decoded hkdf new_cipher)
      → decode hkdf new_cipher kind users input ≡ ok d
      → IsLetIn users input d
  unfolding decode
  decode-IsLetIn users input d h =
      elim (Bool-cases (ltb (length input) (key_size kind + (2 + tag)))) [
        | inl e ↦ absurd (cc (rw (e, decode) at h))
        | inr e ↦
            elim (Option-cases (
              match_user hkdf new_cipher kind (take (key_size kind) input)
                (take (2 + tag) (drop (key_size kind) input)) users)) [
                  | inl q ↦ absurd (cc (rw (e, q, decode) at h))
                  | inr ((user, (lenpt, s)), q) ↦
                      let (c, m, t) = match_user-IsMatch _ _ users user lenpt s q in
                      let flow : decode_flow hkdf new_cipher
                            (drop (2 + tag) (drop (key_size kind) input)) (user, (lenpt, s))
                          ≡ ok d =
                        (rw (e, q, decode) at h) in
                      let (same, on) =
                        decode_flow-IsDecoded (drop (2 + tag) (drop (key_size kind) input)) user
                          lenpt c d (rw t at flow) in
                      record { lenpt = lenpt; cipher = c; matched = rw same m; read_on = on }
                ]
      ]
