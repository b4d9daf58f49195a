-- ===== src/Proxy/Socks/Datagram.antt =====
-- proxy/src/socks.rs: what the relay sends a client as a datagram, a client reads as it was.
use xray_rs.Base.{ℕ, ◌<◌, ◌≡◌, refl, some, List, ◌∷◌, ◌++◌}
use xray_rs.Kernel.Net.{Destination, udp_destination, socks_codec}
use xray_rs.Kernel.Net.RoundTrip.{IsPlain, read-write}
use xray_rs.Proxy.Socks.{decode_socks_udp, encode_socks_udp}

-- A datagram that is encoded for a target, with a port of 16 bits and an address that the codec
-- carries as it is, decodes to that target over UDP and to the same payload.
pub decode_socks_udp-encode_socks_udp :
    (target : Destination) (data_bytes : List ℕ)
    → IsPlain target.address
    → target.port < 65536
    → (bs : List ℕ) × (encode_socks_udp target data_bytes ≡ some bs)
      × (decode_socks_udp bs ≡ some (udp_destination target.address target.port, data_bytes))
unfolding decode_socks_udp encode_socks_udp
decode_socks_udp-encode_socks_udp target d plain h =
    let (addr, w, r) = read-write socks_codec target.address target.port d plain h in
    (0 ∷ 0 ∷ 0 ∷ (addr ++ d), rw (w, encode_socks_udp) refl, rw (r, decode_socks_udp) refl)
