-- ===== src/Proxy/Shadowsocks/Flow.antt =====
-- proxy/src/shadowsocks.rs: a client's flow, from its salt to its end, through `decode` and the uplink.
use xray_rs.Base.{
  ℕ, suc, ◌+◌, ◌≤◌, ◌<◌, ◌≡◌, refl, ap, ◌∙◌, false, Option, none, some, List, ◌∷◌, ◌++◌, ltb,
  length, length-append, append_assoc, take, drop, take-append, drop-append, concat, All, inl, inr,
  arith,
}
use xray_rs.Base.Result.{ok, Result-cases}
use xray_rs.Kernel.Net.{put_u16, Address, tcp_destination, read, write, shadowsocks_codec}
use xray_rs.Kernel.Net.RoundTrip.{IsPlain, read_written}
use xray_rs.Proxy.Crypto.{
  AeadKind, key_size, nonce_size, Cipher, IsCipher, tag, open_sealed, new_nonce, nonce_bytes,
}
use xray_rs.Proxy.Framed.{up_loop, up, down, ended}
use xray_rs.Proxy.Framed.Codec.{sent-concat}
use xray_rs.Proxy.Shadowsocks.{
  SsUser, SsChunks, open_next, read_sized, u16_or_zero, write_piece, ss_read, ss_write, user_cipher,
  try_user, Decoded, decode_target, decode_flow, decode,
}
use xray_rs.Proxy.Shadowsocks.Chunks.{
  stepped, write_piece-IsSealedPiece, read_sized_lem, ss_read-ss_write,
}
use xray_rs.Proxy.Shadowsocks.Decode.{first_state, match_user-append}

module _ (hkdf : (master salt info : List ℕ) → (len : ℕ) → Option (List ℕ))
    (new_cipher : AeadKind → (key : List ℕ) → Option Cipher) (kind : AeadKind) where
  try_user-open_next :
      (salt lenct lenpt : List ℕ) (user : SsUser) (c : Cipher) (s : SsChunks)
      → user_cipher hkdf new_cipher kind user.master salt ≡ some c
      → open_next lenct (first_state hkdf new_cipher kind c) ≡ ok (lenpt, s)
      → try_user hkdf new_cipher kind salt lenct user ≡ some (lenpt, s)
  unfolding try_user open_next
  try_user-open_next salt lenct lenpt user c s key h =
      let n = nonce_bytes (new_nonce (nonce_size kind)) in
      elim (Result-cases (open_sealed c n lenct)) [
        | inr (e, q) ↦ absurd (cc (rw (q, open_next) at h))
        | inl (plain, q) ↦
            let text : plain ≡ lenpt = cc (rw (q, open_next) at h) in
            let state : stepped (first_state hkdf new_cipher kind c) ≡ s =
              cc (rw (q, open_next) at h) in
            rw (key, q, try_user, ← text, ← state) refl
      ]

  -- What a client is decoded to: its user and target, its data and its later chunks.
  abbrev pub decoded : SsUser → Address → ℕ → List ℕ → SsChunks → List ℕ → Decoded hkdf new_cipher
  decoded user a port payload s input = record {
    user = user;
    target = tcp_destination a port;
    leftover = payload;
    chunks_state = s;
    input = input;
  }

  module _ (before after : List SsUser) (user : SsUser) (c : Cipher) (salt : List ℕ)
      (key : user_cipher hkdf new_cipher kind user.master salt ≡ some c)
      (salted : length salt ≡ key_size kind) (a : Address) (port : ℕ) (head payload : List ℕ)
      (aimed : (rest : List ℕ) → read shadowsocks_codec (head ++ rest) ≡ ok ((a, port), rest))
      (short : length (head ++ payload) < 65536) where
    abbrev start : SsChunks
    start = first_state hkdf new_cipher kind c

    decode_parts :
        (lenct payct rest : List ℕ)
        → length lenct ≡ 18
        → open_next lenct start
          ≡ ok (put_u16 (u16_or_zero (length (head ++ payload))), stepped start)
        → read_sized
            (payct ++ rest)
            (put_u16 (u16_or_zero (length (head ++ payload))), stepped start)
          ≡ ok (head ++ payload, (rest, stepped (stepped start)))
        → All (λ u. try_user hkdf new_cipher kind salt lenct u ≡ none) before
        → decode hkdf new_cipher kind (before ++ user ∷ after) (salt ++ (lenct ++ (payct ++ rest)))
          ≡ ok (decoded user a port payload (stepped (stepped start)) rest)
    unfolding decode decode_flow decode_target
    decode_parts lenct payct rest n opened on others =
        let enough : ltb (length (salt ++ (lenct ++ (payct ++ rest)))) (key_size kind + (2 + tag))
            ≡ false =
          ground (
            arith,
            length-append salt (lenct ++ (payct ++ rest)),
            length-append lenct (payct ++ rest),
            n,
            salted,
          ) in
        let salt_off : take (key_size kind) (salt ++ (lenct ++ (payct ++ rest))) ≡ salt =
          rw (← salted) (take-append salt _) in
        let behind : drop (key_size kind) (salt ++ (lenct ++ (payct ++ rest)))
            ≡ lenct ++ (payct ++ rest) =
          rw (← salted) (drop-append salt _) in
        let front : take 18 (lenct ++ (payct ++ rest)) ≡ lenct =
          rw (← n) (take-append lenct (payct ++ rest)) in
        let back : drop 18 (lenct ++ (payct ++ rest)) ≡ payct ++ rest =
          rw (← n) (drop-append lenct (payct ++ rest)) in
        let m =
          match_user-append hkdf new_cipher kind salt lenct before after user _ others
            (try_user-open_next salt lenct _ user c (stepped start) key opened) in
        rw
          (
            enough,
            salt_off,
            behind,
            front,
            m,
            behind,
            back,
            decode_flow,
            on,
            decode_target,
            aimed payload,
          )
          refl

  -- The front of a client's flow is decoded to its user, target and data, whatever follows it.
  pub decode-write_piece :
      (before after : List SsUser) (user : SsUser) (c : Cipher) (salt : List ℕ)
      → user_cipher hkdf new_cipher kind user.master salt ≡ some c
      → length salt ≡ key_size kind
      → IsCipher c
      → (a : Address) (port : ℕ) (head payload wire : List ℕ) (t : SsChunks) → IsPlain a
      → port < 65536
      → write shadowsocks_codec a port ≡ ok head
      → length (head ++ payload) < 65536
      → write_piece (head ++ payload) (first_state hkdf new_cipher kind c) ≡ ok (wire, t)
      → All (λ u. try_user hkdf new_cipher kind salt (take 18 wire) u ≡ none) before
      → (rest : List ℕ)
      → decode hkdf new_cipher kind (before ++ user ∷ after) (salt ++ (wire ++ rest))
        ≡ ok (decoded user a port payload t rest)
  decode-write_piece before after user c salt key salted v a port head payload wire t plain p16 w
        short piece others rest =
      let start = first_state hkdf new_cipher kind c in
      let (_, p) = write_piece-IsSealedPiece start (head ++ payload) v (omega arith) in
      let state : stepped (stepped start) ≡ t = cc (p.written, piece) in
      let same : p.lenct ++ p.payct ≡ wire = cc (p.written, piece, p.parts) in
      let front : take 18 wire ≡ p.lenct =
        rw (← same, ← p.len_sealed.size) (take-append p.lenct p.payct) in
      rw (← same, append_assoc p.lenct p.payct rest, ← state)
        (decode_parts before after user c salt key salted a port head payload
          (λ left. read_written shadowsocks_codec a port head left plain p16 w) short p.lenct
          p.payct rest p.len_sealed.size p.len_sealed.opened
          (read_sized_lem (stepped start) (head ++ payload) p.payct rest p.text_sealed short)
          (rw (front) at others))

  write_piece-IsCipher :
      (s t : SsChunks) (piece wire : List ℕ)
      → IsCipher s.aead
      → length piece ≤ 65536
      → write_piece piece s ≡ ok (wire, t)
      → IsCipher t.aead
  write_piece-IsCipher s t piece wire v short h =
      let (_, p) = write_piece-IsSealedPiece s piece v short in
      let state : stepped (stepped s) ≡ t = cc (p.written, h) in rw (← state) v

  -- A client of a user of the table sends the salt, one chunk with the target and its first data, and
  -- then more data in pieces of any length. If the chunk opens under no earlier user's key, `decode`
  -- gives that user and that target, and the uplink behind it sends on the data, whole and in order,
  -- and ends where the connection ends. For an address that the codec carries as it is, a port of 16
  -- bits, a first chunk shorter than 65536 bytes, and a cipher that opens what it sealed.
  pub up-decode :
      (before after : List SsUser) (user : SsUser) (c : Cipher) (salt : List ℕ)
      → user_cipher hkdf new_cipher kind user.master salt ≡ some c
      → length salt ≡ key_size kind
      → IsCipher c
      → (a : Address) (port : ℕ) (head payload wire : List ℕ) (t : SsChunks) → IsPlain a
      → port < 65536
      → write shadowsocks_codec a port ≡ ok head
      → length (head ++ payload) < 65536
      → write_piece (head ++ payload) (first_state hkdf new_cipher kind c) ≡ ok (wire, t)
      → All (λ u. try_user hkdf new_cipher kind salt (take 18 wire) u ≡ none) before
      → (datas : List (List ℕ)) (extra : ℕ)
      → (more : List ℕ) × (f : SsChunks) × (d : Decoded hkdf new_cipher) × (down ss_write datas t
          ≡ ok (more, f))
        × (decode hkdf new_cipher kind (before ++ user ∷ after) (salt ++ (wire ++ more)) ≡ ok d)
        × (d.user ≡ user)
        × (d.target ≡ tcp_destination a port)
        × ((up ss_read (suc (length more) + extra) d.leftover d.input d.chunks_state).0 ≡ ended)
        × (concat (up ss_read (suc (length more) + extra) d.leftover d.input d.chunks_state).1
            ≡ payload ++ concat datas)
  unfolding up
  up-decode before after user c salt key salted v a port head payload wire t plain p16 w short piece
        others datas extra =
      let (more, f, sent_more, end, carried) =
        ss_read-ss_write t
          (write_piece-IsCipher (first_state hkdf new_cipher kind c) t (head ++ payload) wire v
            (omega arith) piece)
          datas extra in
      (
        more,
        f,
        decoded user a port payload t more,
        sent_more,
        decode-write_piece before after user c salt key salted v a port head payload wire t plain
            p16 w short piece others more,
        refl,
        refl,
        end,
        sent-concat ss_read ss_write payload (up_loop ss_read (suc (length more) + extra) more t).1
            ∙ ap (λ x. payload ++ x) carried,
      )
