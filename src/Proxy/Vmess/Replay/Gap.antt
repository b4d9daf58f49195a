-- ===== src/Proxy/Vmess/Replay/Gap.antt =====
-- proxy/src/vmess.rs and vmess/user.rs: an authID stays fresh after the replay filter has let it go.
use xray_rs.Base.{
  ℕ, ◌+◌, ◌^◌, ◌≤◌, ◌<◌, ◌≡◌, refl, ap, Bool, true, false, List, [], ◌∷◌, ltb, take, eq_bytes_refl,
  arith,
}
use xray_rs.Proxy.Vmess.Users.{from_be_bytes, is_fresh}
use xray_rs.Proxy.Vmess.Replay.{
  ReplayFilter, empty_filter, forget, saturating_add, prune_queue, prune, remember, check_insert,
}

-- The filter that has let in `a` alone.
only : List ℕ → ℕ → ReplayFilter
only a e = record { seen = a ∷ []; order = (a, e) ∷ [] }

check_insert-empty :
    (a : List ℕ) (now : ℕ)
    → now + 120 < 2 ^ 64
    → check_insert a now empty_filter ≡ (true, only a (now + 120))
unfolding check_insert prune prune_queue remember only
check_insert-empty a now h =
    let e : saturating_add now 120 ≡ now + 120 = ground arith in
    ap (λ (t : ℕ). (true, record { seen = a ∷ []; order = (a, t) ∷ [] })) e

prune-only : (a : List ℕ) (e : ℕ) → prune e (only a e) ≡ empty_filter
unfolding prune prune_queue only forget
prune-only a e =
    let late : ltb e e ≡ false = ground arith in
    rw (late, prune_queue, eq_bytes_refl a, forget) refl

check_insert-only : (a : List ℕ) (e : ℕ) → (check_insert a e (only a e)).0 ≡ true
unfolding check_insert
check_insert-only a e = rw (prune-only a e, check_insert) refl

still_fresh :
    (decrypt_block : (k block : List ℕ) → List ℕ) (crc32 : List ℕ → ℕ) (plain : List ℕ) (now : ℕ)
    → is_fresh decrypt_block crc32 plain now ≡ true
    → now ≤ from_be_bytes 0 (take 8 plain)
    → is_fresh decrypt_block crc32 plain (now + 120) ≡ true
unfolding is_fresh
still_fresh decrypt_block crc32 plain now h le = ground arith

-- An authID that is fresh under the user's key, from a client whose clock is not behind the server's, is
-- let in by an empty filter; 120 seconds later, if no other authID was checked in between, it is still
-- fresh under the key and the filter lets it in again. For a time that does not overflow.
pub check_insert_again :
    (decrypt_block : (k block : List ℕ) → List ℕ) (crc32 : List ℕ → ℕ) (key a : List ℕ) (now : ℕ)
    → is_fresh decrypt_block crc32 (decrypt_block key a) now ≡ true
    → now ≤ from_be_bytes 0 (take 8 (decrypt_block key a))
    → now + 120 < 2 ^ 64
    → ((check_insert a now empty_filter).0 ≡ true)
      × (is_fresh decrypt_block crc32 (decrypt_block key a) (now + 120) ≡ true)
      × ((check_insert a (now + 120) (check_insert a now empty_filter).1).0 ≡ true)
check_insert_again decrypt_block crc32 key a now fresh le small = (
  ap (λ (r : Bool × ReplayFilter). r.0) (check_insert-empty a now small),
  still_fresh decrypt_block crc32 (decrypt_block key a) now fresh le,
  rw (check_insert-empty a now small) (check_insert-only a (now + 120)),
)
