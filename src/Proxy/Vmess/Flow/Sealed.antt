-- ===== src/Proxy/Vmess/Flow/Sealed.antt =====
-- proxy/src/vmess.rs, `read_header`: a header that a client seals is opened and parsed.
use xray_rs.Base.{
  ℕ, zero, suc, ◌+◌, ◌*◌, ◌/◌, ◌%◌, ◌≤◌, ◌<◌, ◌≡◌, refl, ap, sym, ◌∙◌, true, false, Option-cases,
  inl, inr, List, [], ◌∷◌, ◌++◌, append_assoc, ltb, ◌==◌, length, length-append, length-take, take,
  drop, take_at, drop_at, get_elem?, arith,
}
use xray_rs.Base.Result.{Result, ok, err}
use xray_rs.Kernel.Error.{IoError}
use xray_rs.Kernel.Net.{put_u16}
use xray_rs.Proxy.Vmess.Users.{VmessAuth}
use xray_rs.Proxy.Vmess.Inbound.{Vmess, authenticate}
use xray_rs.Proxy.Vmess.Kdf.{
  salt_hdr_len_key, salt_hdr_len_iv, salt_hdr_key, salt_hdr_iv, Primitives, ArePrimitives,
  hmac_with, hmac_sha256, kdf_level, kdf, kdf16, aes128gcm_open, aes128gcm_seal,
}
use xray_rs.Proxy.Vmess.Header.{Request, parse_header}
use xray_rs.Proxy.Vmess.Flow.{
  header_key, header_iv, hdr_len, open_len, open_header, read_payload, read_sealed, admitted,
  read_header,
}

module _ (P : Primitives) where
  -- What a client sends behind its authID: the sealed length, its nonce and the sealed header.
  abbrev pub seal_header : (cmd_key authid nonce header : List ℕ) → Result IoError (List ℕ)
  seal_header cmd_key authid nonce header =
      elim (aes128gcm_seal P (header_key P cmd_key salt_hdr_len_key authid nonce)
        (header_iv P cmd_key salt_hdr_len_iv authid nonce) (put_u16 (length header)) authid) [
          | err e ↦ err e
          | ok lenct ↦
              elim (aes128gcm_seal P (header_key P cmd_key salt_hdr_key authid nonce)
                (header_iv P cmd_key salt_hdr_iv authid nonce) header authid) [
                  | err e ↦ err e
                  | ok payct ↦ ok (lenct ++ (nonce ++ payct))
                ]
        ]

module _ (P : Primitives) (L : ArePrimitives P) where
  length-hmac_with :
      (key msg : List ℕ) (hash : List ℕ → List ℕ)
      → ((m : List ℕ) → length (hash m) ≡ 32)
      → length (hmac_with P key msg hash) ≡ 32
  unfolding hmac_with
  length-hmac_with key msg hash h = h _

  length-kdf_level :
      (keys : List (List ℕ)) (level : ℕ) (msg : List ℕ) → length (kdf_level P keys level msg) ≡ 32
  unfolding kdf_level hmac_sha256
  length-kdf_level keys zero msg = elim (Option-cases (get_elem? keys 0)) [
    | inl e ↦ rw (e, kdf_level) (L.length-sha256 msg)
    | inr (key, e) ↦ rw (e, kdf_level) (length-hmac_with key msg P.sha256 L.length-sha256)
  ]
  length-kdf_level keys (suc level) msg = elim (Option-cases (get_elem? keys (suc level))) [
    | inl e ↦ rw (e, kdf_level) (L.length-sha256 msg)
    | inr (key, e) ↦
        rw (e, kdf_level)
          (length-hmac_with key msg (λ m. kdf_level P keys level m) (length-kdf_level keys level))
  ]

  length-kdf : (key : List ℕ) (paths : List (List ℕ)) → length (kdf P key paths) ≡ 32
  unfolding kdf
  length-kdf key paths = length-kdf_level _ (length paths) key

  -- A derived key is a key of the cipher.
  pub length-kdf16 : (key : List ℕ) (paths : List (List ℕ)) → length (kdf16 P key paths) ≡ 16
  unfolding kdf16
  length-kdf16 key paths = length-take 16 (kdf P key paths) (omega (arith, length-kdf key paths))

  -- A text that is sealed is opened again.
  pub record IsSealed (key nonce plain aad ct : List ℕ) : Type 0 where
    pub sealed : aes128gcm_seal P key nonce plain aad ≡ ok ct
    pub size : length ct ≡ length plain + 16
    pub opened : aes128gcm_open P key nonce ct aad ≡ ok plain

  pub aes128gcm_seal-IsSealed :
      (key nonce plain aad : List ℕ)
      → length key ≡ 16
      → length plain ≤ 65536
      → (ct : List ℕ) × IsSealed key nonce plain aad ct
  unfolding aes128gcm_seal aes128gcm_open
  aes128gcm_seal-IsSealed key nonce plain aad k short =
      let (ct, e, n, d) = L.seals key nonce plain aad short in
      let right : (length key == 16) ≡ true = ground (arith, k) in
      (ct, record { sealed = rw (right, e) refl; size = n; opened = rw (right, d) refl })

  open_header-parsed :
      (cmd_key authid nonce payct header email : List ℕ) (req : Request)
      → aes128gcm_open P
          (header_key P cmd_key salt_hdr_key authid nonce)
          (header_iv P cmd_key salt_hdr_iv authid nonce)
          payct
          authid
        ≡ ok header
      → parse_header header ≡ ok req
      → open_header P cmd_key authid nonce payct email ≡ ok (record req { email = email })
  unfolding open_header
  open_header-parsed cmd_key authid nonce payct header email req o p = rw (o, open_header, p) refl

  open_len-put_u16 :
      (cmd_key authid nonce lenct : List ℕ) (n : ℕ)
      → n < 65536
      → aes128gcm_open P
          (header_key P cmd_key salt_hdr_len_key authid nonce)
          (header_iv P cmd_key salt_hdr_len_iv authid nonce)
          lenct
          authid
        ≡ ok (put_u16 n)
      → open_len P cmd_key authid nonce lenct ≡ ok n
  unfolding open_len hdr_len
  open_len-put_u16 cmd_key authid nonce lenct n h o =
      let value : n / 256 % 256 * 256 + n % 256 ≡ n = omega arith in rw (o, open_len, value) refl

  -- The three parts of a sealed header, cut as the inbound cuts them.
  read_sealed-parts :
      (cmd_key authid email lenct nonce payct rest : List ℕ) (n : ℕ) (req : Request)
      → length lenct ≡ 18
      → length nonce ≡ 8
      → length payct ≡ n + 16
      → open_len P cmd_key authid nonce lenct ≡ ok n
      → open_header P cmd_key authid nonce payct email ≡ ok req
      → read_sealed P cmd_key authid email (lenct ++ (nonce ++ (payct ++ rest))) ≡ ok (req, rest)
  unfolding read_sealed read_payload
  read_sealed-parts cmd_key authid email lenct nonce payct rest n req l m k o h =
      let input = lenct ++ (nonce ++ (payct ++ rest)) in
      let enough : ltb (length input) 26 ≡ false = ground (
        arith,
        l,
        m,
        length-append lenct (nonce ++ (payct ++ rest)),
        length-append nonce (payct ++ rest),
      ) in
      let front : take 18 input ≡ lenct = take_at 18 lenct (nonce ++ (payct ++ rest)) l in
      let behind : drop 18 input ≡ nonce ++ (payct ++ rest) =
        drop_at 18 lenct (nonce ++ (payct ++ rest)) l in
      let middle : take 8 (nonce ++ (payct ++ rest)) ≡ nonce = take_at 8 nonce (payct ++ rest) m in
      let back : drop 26 input ≡ payct ++ rest =
        ap (drop 26) (sym (append_assoc lenct nonce (payct ++ rest)))
        ∙ drop_at 26 (lenct ++ nonce) (payct ++ rest)
            (omega (arith, l, m, length-append lenct nonce)) in
      let full : ltb (length (payct ++ rest)) (n + 16) ≡ false =
        ground (arith, k, length-append payct rest) in
      rw
        (
          enough,
          front,
          behind,
          middle,
          o,
          back,
          read_payload,
          full,
          take_at (n + 16) payct rest k,
          behind,
          middle,
          h,
          back,
          drop_at (n + 16) payct rest k,
        )
        refl

  -- A sealed header is read as it is parsed, and what follows it is left.
  pub read_sealed-seal_header :
      (cmd_key authid nonce email header : List ℕ) (req : Request)
      → length nonce ≡ 8
      → length header < 65536
      → parse_header header ≡ ok req
      → (sealed : List ℕ) × (seal_header P cmd_key authid nonce header ≡ ok sealed)
        × ((rest : List ℕ)
            → read_sealed P cmd_key authid email (sealed ++ rest)
              ≡ ok (record req { email = email }, rest))
  read_sealed-seal_header cmd_key authid nonce email header req m short p =
      let paths = authid ∷ nonce ∷ [] in
      let (lenct, a) =
        aes128gcm_seal-IsSealed (header_key P cmd_key salt_hdr_len_key authid nonce)
          (header_iv P cmd_key salt_hdr_len_iv authid nonce) (put_u16 (length header)) authid
          (length-kdf16 cmd_key (salt_hdr_len_key ∷ paths)) (omega arith) in
      let (payct, b) =
        aes128gcm_seal-IsSealed (header_key P cmd_key salt_hdr_key authid nonce)
          (header_iv P cmd_key salt_hdr_iv authid nonce) header authid
          (length-kdf16 cmd_key (salt_hdr_key ∷ paths)) (omega (arith, short)) in
      (
        lenct ++ (nonce ++ payct),
        rw (a.sealed, seal_header, b.sealed) refl,
        λ rest.
            ap (λ t. read_sealed P cmd_key authid email t)
              (append_assoc lenct (nonce ++ payct) rest
                ∙ ap (λ t. lenct ++ t) (append_assoc nonce payct rest))
            ∙ read_sealed-parts cmd_key authid email lenct nonce payct rest (length header)
                (record req { email = email }) a.size m b.size
                (open_len-put_u16 cmd_key authid nonce lenct (length header) short a.opened)
                (open_header-parsed cmd_key authid nonce payct header email req b.opened p),
      )

  module _ (decrypt_block : (key block : List ℕ) → List ℕ) (crc32 : List ℕ → ℕ) where
    admitted_lem :
        (authid input : List ℕ) (t : Vmess) (m : VmessAuth) (end : Request × List ℕ)
        → read_sealed P m.cmd_key authid m.email input ≡ ok end
        → admitted P decrypt_block crc32 authid input (ok m, t) ≡ (ok end, t)
    unfolding admitted
    admitted_lem authid input t m end r = rw (r) refl

    -- A flow that is let in is read behind its authID.
    pub read_header-admitted :
        (authid input : List ℕ) (match_now replay_now : ℕ) (s t : Vmess) (m : VmessAuth)
        (end : Request × List ℕ)
        → length authid ≡ 16
        → authenticate decrypt_block crc32 authid match_now replay_now s ≡ (ok m, t)
        → read_sealed P m.cmd_key authid m.email input ≡ ok end
        → read_header P decrypt_block crc32 (authid ++ input) match_now replay_now s ≡ (ok end, t)
    unfolding read_header
    read_header-admitted authid input match_now replay_now s t m end n h r =
        let enough : ltb (length (authid ++ input)) 16 ≡ false =
          ground (arith, n, length-append authid input) in
        rw (enough, take_at 16 authid input n, drop_at 16 authid input n, h)
          (admitted_lem authid input t m end r)
