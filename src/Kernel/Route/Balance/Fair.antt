-- ===== src/Kernel/Route/Balance/Fair.antt =====
-- The balancer: its picks are in range, and the round robin gives each tag its turn.
use xray_rs.Base.{
  ℕ, zero, suc, ◌+◌, ◌-◌, ◌*◌, ◌/◌, ◌%◌, ◌^◌, ◌<◌, ◌≡◌, refl, sym, ap, ◌∙◌, arith, false, Option,
  some, ◌==◌, inl, inr, Bool-cases, leb,
}
use xray_rs.Kernel.Route.Balance.{
  BalanceMode, random, round_robin, user_auth_hash, LoadBalancer, pick_in, pick, next_cursor,
}

pick_in-lt :
    (m : BalanceMode) (b : LoadBalancer) (r count : ℕ) (auth_hash : Option ℕ)
    → 0 < count
    → (pick_in m b r count auth_hash).0 < count
unfolding pick_in
pick_in-lt random b r count auth_hash h = omega arith
pick_in-lt round_robin b r count auth_hash h = omega arith
pick_in-lt user_auth_hash b r count auth_hash h = omega arith

pick_in-mode :
    (m : BalanceMode) (b : LoadBalancer) (r count : ℕ) (auth_hash : Option ℕ)
    → (pick_in m b r count auth_hash).1.mode ≡ b.mode
unfolding pick_in
pick_in-mode random b r count auth_hash = refl
pick_in-mode round_robin b r count auth_hash = refl
pick_in-mode user_auth_hash b r count auth_hash = refl

pub pick-pick_in :
    (b : LoadBalancer) (r count : ℕ) (auth_hash : Option ℕ)
    → 0 < count
    → pick b r count auth_hash
      ≡ (some (pick_in b.mode b r count auth_hash).0, (pick_in b.mode b r count auth_hash).1)
unfolding pick
pick-pick_in b r count auth_hash h =
    let e : (count == 0) ≡ false = ground arith in rw (e, pick) refl

-- In every mode, a pick among one tag or more is the index of one of them, and the mode stays.
pub pick_in_range :
    (b : LoadBalancer) (r count : ℕ) (auth_hash : Option ℕ)
    → 0 < count
    → (i : ℕ) × ((pick b r count auth_hash).0 ≡ some i)
      × (i < count)
      × ((pick b r count auth_hash).1.mode ≡ b.mode)
pick_in_range b r count auth_hash h = (
  (pick_in b.mode b r count auth_hash).0,
  ap (λ p. p.0) (pick-pick_in b r count auth_hash h),
  pick_in-lt b.mode b r count auth_hash h,
  ap (λ (p : Option ℕ × LoadBalancer). p.1.mode) (pick-pick_in b r count auth_hash h)
      ∙ pick_in-mode b.mode b r count auth_hash,
)

-- With a known user's hash, the pick is the same whatever was picked before and whatever is random.
pub pick_sticky :
    (b c : LoadBalancer) (r r' count : ℕ) (auth_hash : Option ℕ)
    → b.mode ≡ user_auth_hash
    → c.mode ≡ user_auth_hash
    → (pick b r count auth_hash).0 ≡ (pick c r' count auth_hash).0
unfolding pick pick_in
pick_sticky b c r r' zero auth_hash h k = refl
pick_sticky b c r r' (suc count) auth_hash h k =
    ap (λ (p : Option ℕ × LoadBalancer). p.0) (pick-pick_in b r (suc count) auth_hash (omega arith))
    ∙ simp (h, k, pick_in) refl
    ∙ sym (
        ap (λ (p : Option ℕ × LoadBalancer). p.0)
          (pick-pick_in c r' (suc count) auth_hash (omega arith)))

-- The balancer after `n` picks in a row, each with what is random and who asks at that time.
unfoldable pub after : ℕ → (ℕ → ℕ) → (count : ℕ) → (ℕ → Option ℕ) → LoadBalancer → LoadBalancer
after zero r count auth_hash b = b
after (suc n) r count auth_hash b = (pick (after n r count auth_hash b) (r n) count (auth_hash n)).1

after-round_robin :
    (n : ℕ) (r : ℕ → ℕ) (count : ℕ) (auth_hash : ℕ → Option ℕ) (b : LoadBalancer)
    → 0 < count
    → b.mode ≡ round_robin
    → b.cursor + n < 2 ^ 64
    → (after n r count auth_hash b ≡ record b { cursor = b.cursor + n })
unfolding after pick_in
after-round_robin zero r count auth_hash b h m k =
    let e : b.cursor ≡ b.cursor + 0 = omega arith in ap (λ (j : ℕ). record b { cursor = j }) e
after-round_robin (suc n) r count auth_hash b h m k =
    let e : next_cursor (b.cursor + n) ≡ b.cursor + suc n = omega arith in
    ap (λ (c : LoadBalancer). (pick c (r n) count (auth_hash n)).1)
      (after-round_robin n r count auth_hash b h m (omega arith))
    ∙ ap (λ (p : Option ℕ × LoadBalancer). p.1)
        (pick-pick_in (record b { cursor = b.cursor + n }) (r n) count (auth_hash n) h)
    ∙ rw m (ap (λ (j : ℕ). record { mode = round_robin; cursor = j }) e)

mod_lem : (q count i : ℕ) → i < count → (q * count + i) % count ≡ i
mod_lem q count i h = grind arith

-- How far the cursor is from the turn of `i`.
turn : (c count i : ℕ) → i < count → (n : ℕ) × (n < count) × ((c + n) % count ≡ i)
turn c count i h = elim (Bool-cases (leb (c % count) i)) [
  | inl le ↦
      let e : c + (i - c % count) ≡ c / count * count + i = grind arith in
      (i - c % count, ground arith, rw e (mod_lem (c / count) count i h))
  | inr gt ↦
      let e : c + (i + count - c % count) ≡ (c / count + 1) * count + i = grind arith in
      (i + count - c % count, grind arith, rw e (mod_lem (c / count + 1) count i h))
]

-- The round robin gives each of `count` tags its turn within any `count` picks in a row, as long as
-- its cursor does not wrap around.
pub round_robin_fair :
    (b : LoadBalancer) (r : ℕ → ℕ) (count : ℕ) (auth_hash : ℕ → Option ℕ) (i : ℕ)
    → b.mode ≡ round_robin
    → i < count
    → b.cursor + count < 2 ^ 64
    → (n : ℕ) × (n < count)
      × ((pick (after n r count auth_hash b) (r n) count (auth_hash n)).0 ≡ some i)
round_robin_fair b r count auth_hash i m h k =
    let (n, lt, e) = turn b.cursor count i h in
    (
      n,
      lt,
      ap (λ (c : LoadBalancer). (pick c (r n) count (auth_hash n)).0)
            (after-round_robin n r count auth_hash b (omega arith) m (omega arith))
          ∙ ap (λ (p : Option ℕ × LoadBalancer). p.0)
              (pick-pick_in (record b { cursor = b.cursor + n }) (r n) count (auth_hash n)
                (omega arith))
          ∙ unfold pick_in in rw m (ap some e),
    )
