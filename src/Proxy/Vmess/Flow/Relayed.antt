-- ===== src/Proxy/Vmess/Flow/Relayed.antt =====
-- proxy/src/vmess.rs: a client's flow, from its authID to its end, through `decode` and the uplink.
use xray_rs.Base.{
  ℕ, suc, ◌+◌, ◌<◌, ◌≡◌, refl, Bool, not, Option, some, List, [], ◌∷◌, ◌++◌, ◌==◌, length, take,
  concat, bit_and, arith,
}
use xray_rs.Base.Result.{ok}
use xray_rs.Kernel.Net.{put_u16, tcp, Address, write, vmess_codec}
use xray_rs.Kernel.Net.RoundTrip.{IsPlain}
use xray_rs.Proxy.Crypto.{AeadKind, Cipher}
use xray_rs.Proxy.Framed.{up_loop, down, ended}
use xray_rs.Proxy.Vmess.Users.{VmessAuth}
use xray_rs.Proxy.Vmess.Inbound.{Vmess, authenticate}
use xray_rs.Proxy.Vmess.Body.{Random, Body, new_body, body_read, body_write}
use xray_rs.Proxy.Vmess.Body.Frame.{IsSealer}
use xray_rs.Proxy.Vmess.Body.Chunks.{read_chunk-write_chunk}
use xray_rs.Proxy.Vmess.Kdf.{
  salt_resp_len_key, salt_resp_len_iv, salt_resp_key, salt_resp_iv, Primitives, ArePrimitives, kdf,
  kdf16,
}
use xray_rs.Proxy.Vmess.Header.{Request, network_of}
use xray_rs.Proxy.Vmess.Header.Encoded.{Fields, encode_header, meant, parse_header-encode_header}
use xray_rs.Proxy.Vmess.Flow.{
  opt_chunk_masking, opt_global_padding, relayed, read_header, response_keys, write_response_header,
  body_aead, body_codecs, decode,
}
use xray_rs.Proxy.Vmess.Flow.Sealed.{
  length-kdf16, aes128gcm_seal-IsSealed, seal_header, read_sealed-seal_header, read_header-admitted,
}

-- What the options of a header ask for.
abbrev pub masking : Fields → Bool
masking f = not (bit_and f.options opt_chunk_masking == 0)

abbrev pub global_padding : Fields → Bool
global_padding f = not (bit_and f.options opt_global_padding == 0)

abbrev pub security : Fields → ℕ
security f = bit_and f.padsec 0x0f

-- The request of a user for an address.
abbrev pub requested : Fields → Address → ℕ → (email : List ℕ) → Request
requested f a port email = record (meant f tcp a port) { email = email }

-- The body of the uplink, as both sides make it.
abbrev pub up_body : Option Cipher → Fields → Body
up_body aead f = new_body aead f.iv (masking f) (global_padding f)

module _ (P : Primitives) (L : ArePrimitives P) where
  write_response_header-ok :
      (resp_key resp_iv : List ℕ) (resp : ℕ)
      → (answer : List ℕ) × (write_response_header P resp_key resp_iv resp ≡ ok answer)
  unfolding write_response_header
  write_response_header-ok resp_key resp_iv resp =
      let (lenct, a) =
        aes128gcm_seal-IsSealed P L (kdf16 P resp_key (salt_resp_len_key ∷ []))
          (take 12 (kdf P resp_iv (salt_resp_len_iv ∷ []))) (put_u16 4) []
          (length-kdf16 P L resp_key (salt_resp_len_key ∷ [])) (omega arith) in
      let (payct, b) =
        aes128gcm_seal-IsSealed P L (kdf16 P resp_key (salt_resp_key ∷ []))
          (take 12 (kdf P resp_iv (salt_resp_iv ∷ []))) (resp ∷ 0 ∷ 0 ∷ 0 ∷ []) []
          (length-kdf16 P L resp_key (salt_resp_key ∷ [])) (omega arith) in
      (lenct ++ payct, rw (a.sealed, write_response_header, b.sealed) refl)

  module _ (new_cipher : AeadKind → (key : List ℕ) → Option Cipher) where
    -- The body of the downlink.
    abbrev pub down_body : Option Cipher → Fields → Body
    down_body aead f = new_body aead (take 16 (P.sha256 f.iv)) (masking f) (global_padding f)

    decode-requested :
        (f : Fields) (a : Address) (port : ℕ) (email : List ℕ) (up dn : Option Cipher)
        → body_aead P new_cipher (security f) f.key ≡ ok up
        → body_aead P new_cipher (security f) (take 16 (P.sha256 f.key)) ≡ ok dn
        → (answer : List ℕ) × (decode P new_cipher (requested f a port email) ≡ (
          answer,
          ok (
              relayed
                (record { network = tcp; address = a; port = port })
                (up_body up f)
                (down_body dn f)),
        ))
    unfolding decode response_keys body_codecs
    decode-requested f a port email up dn u d =
        let (answer, e) =
          write_response_header-ok (take 16 (P.sha256 f.key)) (take 16 (P.sha256 f.iv)) f.resp in
        (answer, rw (e, decode, u, body_codecs, d) refl)

module _ (P : Primitives) (L : ArePrimitives P) (decrypt_block : (key block : List ℕ) → List ℕ)
    (crc32 : List ℕ → ℕ) (new_cipher : AeadKind → (key : List ℕ) → Option Cipher)
    (xof : (seed : List ℕ) → (place : ℕ) → ℕ)
    (u16 : (seed : List ℕ) (place : ℕ) → xof seed place < 65536) (R : Random) where
  -- What comes of a flow: what the client sent, and what the inbound made of it.
  pub record IsRelayed (authid nonce : List ℕ) (match_now replay_now : ℕ) (s t : Vmess)
      (m : VmessAuth) (f : Fields) (a : Address) (port : ℕ) (header : List ℕ)
      (up dn : Option Cipher) (r : R.Rng) (datas : List (List ℕ)) (rest : List ℕ) : Type 0 where
    pub sealed : List ℕ
    pub wire : List ℕ
    pub after : Body × R.Rng
    pub answer : List ℕ
    pub sent_header : seal_header P m.cmd_key authid nonce header ≡ ok sealed
    pub sent_body : down (body_write xof R) datas (up_body up f, r) ≡ ok (wire, after)
    pub read :
        read_header P decrypt_block crc32
          (authid ++ (sealed ++ (wire ++ rest)))
          match_now
          replay_now
          s
        ≡ (ok (requested f a port m.email, wire ++ rest), t)
    pub decoded : decode P new_cipher (requested f a port m.email) ≡ (
      answer,
      ok (
          relayed
            (record { network = tcp; address = a; port = port })
            (up_body up f)
            (down_body P L new_cipher dn f)),
    )
    pub ends :
        (up_loop (body_read xof) (suc (length wire) + 0) (wire ++ rest) (up_body up f)).0 ≡ ended
    pub carried :
        concat (up_loop (body_read xof) (suc (length wire) + 0) (wire ++ rest) (up_body up f)).1
        ≡ concat datas

  -- A client that `authenticate` lets in sends its authID, a sealed header with a request over TCP for
  -- an address that the codec carries as it is, and then data in pieces of any length. The inbound
  -- reads the request as it was meant, for the user of the authID, answers and relays to the target;
  -- its uplink gives the data whole and in order and ends behind the client's last frame. This for a
  -- header shorter than 65536 bytes, a cipher that the header names and that opens what it sealed, and
  -- a mask stream of 16-bit words.
  pub decode-read_header :
      (authid nonce : List ℕ) (match_now replay_now : ℕ) (s t : Vmess) (m : VmessAuth)
      → length authid ≡ 16
      → length nonce ≡ 8
      → authenticate decrypt_block crc32 authid match_now replay_now s ≡ (ok m, t)
      → (f : Fields) (a : Address) (port : ℕ) (head padding : List ℕ) → length f.iv ≡ 16
      → length f.key ≡ 16
      → network_of f.cmd ≡ some tcp
      → IsPlain a
      → port < 65536
      → write vmess_codec a port ≡ ok head
      → length (encode_header f (head ++ padding)) < 65536
      → (up dn : Option Cipher) → body_aead P new_cipher (security f) f.key ≡ ok up
      → body_aead P new_cipher (security f) (take 16 (P.sha256 f.key)) ≡ ok dn
      → IsSealer up
      → (r : R.Rng) (datas : List (List ℕ)) (rest : List ℕ)
      → IsRelayed authid nonce match_now replay_now s t m f a port
          (encode_header f (head ++ padding))
          up
          dn
          r
          datas
          rest
  decode-read_header authid nonce match_now replay_now s t m n8 n o f a port head padding i k c
        plain p w short up dn u d v r datas rest =
      let header = encode_header f (head ++ padding) in
      let (sealed, sent, opened) =
        read_sealed-seal_header P L m.cmd_key authid nonce m.email header (meant f tcp a port) n
          short (parse_header-encode_header f tcp a port head padding i k c plain p w) in
      let (wire, g, written, ends, carried) =
        read_chunk-write_chunk xof u16 R up f.iv (masking f) (global_padding f) v datas r rest 0 in
      let (answer, e) = decode-requested P L new_cipher f a port m.email up dn u d in
      record {
        sealed = sealed;
        wire = wire;
        after = g;
        answer = answer;
        sent_header = sent;
        sent_body = written;
        read =
            read_header-admitted P L decrypt_block crc32 authid (sealed ++ (wire ++ rest)) match_now
              replay_now s t m (requested f a port m.email, wire ++ rest) n8 o
              (opened (wire ++ rest));
        decoded = e;
        ends = ends;
        carried = carried;
      }
