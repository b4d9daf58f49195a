-- ===== src/Proxy/Relay.antt =====
-- proxy/src/io.rs: the hash of a user, and the decisions of the decoders that do not depend on a stream.
use xray_rs.Base.{
  ℕ, ◌*◌, ◌%◌, ◌^◌, Bool, true, false, ◌&&◌, Option, none, some, List, [], ◌∷◌, bit_xor,
  if◌then◌else◌, replicate,
}
use xray_rs.Kernel.Net.{v4, ip, domain, is_ip, unknown, Destination}
use xray_rs.Kernel.Dispatch.{Ctx, ProxyDecision}
use xray_rs.Kernel.Route.Sniff.{SniffedProtocol, sniff}

-- The loop of `user_hash`, FNV-1a on 64 bits.
unfoldable pub hash_loop : ℕ → List ℕ → ℕ
hash_loop h [] = h
hash_loop h (b ∷ bs) = hash_loop ((bit_xor h b * 0x100000001b3) % 2 ^ 64) bs

unfoldable pub user_hash : List ℕ → ℕ
user_hash bs = hash_loop 0xcbf29ce484222325 bs

-- The decision for a flow that the decoder served itself.
abbrev pub noop_decision : Ctx → ProxyDecision
noop_decision ctx = record {
  target = record { network = unknown; address = ip (v4 (replicate 4 0)); port = 0 };
  ctx = ctx;
}

abbrev named : Destination → Option (SniffedProtocol × List ℕ) → Destination
named target none = target
named target (some (_, name)) = record target { address = domain name }

abbrev is_nonempty : List ℕ → Bool
is_nonempty [] = false
is_nonempty (_ ∷ _) = true

unfoldable pub sniff_override : Destination → (leftover : List ℕ) → Destination
sniff_override target leftover =
    if is_ip target.address && is_nonempty leftover then named target (sniff leftover) else target
