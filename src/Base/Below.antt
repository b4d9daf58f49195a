-- ===== src/Base/Below.antt =====
-- Statements on all numbers below a bound, by a run of a test.
use Prim.Native.Nat.{ℕ, zero, suc, ◌<◌}
use mathlib.Core.Path.{◌≡◌}
use mathlib.Core.Logic.{◌⊎◌, inl, inr}
use mathlib.Core.Bool.{Bool, true, ◌&&◌}
use native.Mathlib.Omega.{arith}

unfoldable pub all_below : (ℕ → Bool) → ℕ → Bool
all_below p zero = true
all_below p (suc n) = p n && all_below p n

below-cases : (a n : ℕ) → a < suc n → (a ≡ n) ⊎ (a < n)
below-cases a n h = ground arith

pub all_below_lem : (p : ℕ → Bool) (n a : ℕ) → all_below p n ≡ true → a < n → p a ≡ true
unfolding all_below
all_below_lem p zero a h k = absurd (omega arith)
all_below_lem p (suc n) a h k = elim (below-cases a n k) [
  | inl e ↦ rw e (ground arith)
  | inr lt ↦ all_below_lem p n a (ground arith) lt
]
