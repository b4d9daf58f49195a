-- ===== src/Base/Xor.antt =====
-- Exclusive or at variables: by the lowest digit, its own inverse, and within the same bits.
use Prim.Native.Nat.{
  ℕ, zero, suc, ◌+◌, ◌*◌, ◌/◌, ◌%◌, ◌≤◌, ◌<◌, digits, differ, bit_xor, bit_xor-bitwise,
}
use mathlib.Core.Path.{◌≡◌, refl, ap, ◌∙◌}
use native.Mathlib.Omega.{arith}

abbrev by_digits : ℕ → ℕ → ℕ → ℕ
by_digits n a b = digits (λ y. y) differ n a b

by_digits_fuel : (n m a b : ℕ) → a ≤ n → a ≤ m → by_digits n a b ≡ by_digits m a b
by_digits_fuel zero zero a b p q = refl
by_digits_fuel zero (suc m) zero b p q = refl
by_digits_fuel zero (suc m) (suc a) b p q = absurd (omega arith)
by_digits_fuel (suc n) zero zero b p q = refl
by_digits_fuel (suc n) zero (suc a) b p q = absurd (omega arith)
by_digits_fuel (suc n) (suc m) zero b p q = refl
by_digits_fuel (suc n) (suc m) (suc a) b p q =
    rw (by_digits_fuel n m (suc a / 2) (b / 2) (omega arith) (omega arith)) refl

pub zero-bit_xor : (b : ℕ) → bit_xor 0 b ≡ b
zero-bit_xor b = bit_xor-bitwise 0 b

bit_xor_step : (a b : ℕ) → bit_xor a b ≡ bit_xor (a / 2) (b / 2) * 2 + differ (a % 2) (b % 2)
bit_xor_step zero b = omega (arith, zero-bit_xor b, zero-bit_xor (b / 2))
bit_xor_step (suc a) b = omega (
  arith,
  bit_xor-bitwise (suc a) b,
  bit_xor-bitwise (suc a / 2) (b / 2),
  by_digits_fuel a (suc a / 2) (suc a / 2) (b / 2) (omega arith) (omega arith),
)

differ_bit : (x y : ℕ) → x < 2 → y < 2 → differ x y < 2
differ_bit zero y p q = q
differ_bit (suc zero) zero p q = p
differ_bit (suc zero) (suc zero) p q = omega arith
differ_bit (suc zero) (suc (suc y)) p q = absurd (omega arith)
differ_bit (suc (suc x)) y p q = absurd (omega arith)

differ_twice : (x y : ℕ) → x < 2 → y < 2 → differ x (differ x y) ≡ y
differ_twice zero y p q = refl
differ_twice (suc zero) zero p q = refl
differ_twice (suc zero) (suc zero) p q = refl
differ_twice (suc zero) (suc (suc y)) p q = absurd (omega arith)
differ_twice (suc (suc x)) y p q = absurd (omega arith)

-- The two parts of a number by its lowest digit.
parts : (q d : ℕ) → d < 2 → ((q * 2 + d) / 2 ≡ q) × ((q * 2 + d) % 2 ≡ d)
parts q d h = (omega arith, omega arith)

twice_fuel : (n x y : ℕ) → x ≤ n → bit_xor x (bit_xor x y) ≡ y
twice_fuel n zero y h = omega (arith, zero-bit_xor y, zero-bit_xor (bit_xor 0 y))
twice_fuel zero (suc x) y h = absurd (omega arith)
twice_fuel (suc n) (suc x) y h =
    let a = suc x in
    let d = differ (a % 2) (y % 2) in
    let small : d < 2 = differ_bit (a % 2) (y % 2) (omega arith) (omega arith) in
    let (half, low) = parts (bit_xor (a / 2) (y / 2)) d small in
    bit_xor_step a (bit_xor a y)
    ∙ ap (λ r. bit_xor (a / 2) (r / 2) * 2 + differ (a % 2) (r % 2)) (bit_xor_step a y)
    ∙ ap (λ q. bit_xor (a / 2) q * 2 + differ (a % 2) ((bit_xor (a / 2) (y / 2) * 2 + d) % 2)) half
    ∙ ap (λ l. bit_xor (a / 2) (bit_xor (a / 2) (y / 2)) * 2 + differ (a % 2) l) low
    ∙ omega (
      arith,
      twice_fuel n (a / 2) (y / 2) (omega arith),
      differ_twice (a % 2) (y % 2) (omega arith) (omega arith),
    )

-- A mask that is put on twice is off.
pub bit_xor_twice : (x y : ℕ) → bit_xor x (bit_xor x y) ≡ y
bit_xor_twice x y = twice_fuel x x y (omega arith)

-- The numbers of `k` bits.
abbrev bits : ℕ → ℕ
bits zero = 1
bits (suc k) = bits k * 2

within : (k x y : ℕ) → x < bits k → y < bits k → bit_xor x y < bits k
within zero x y p q = let z : x ≡ 0 = omega arith in rw z (omega (arith, zero-bit_xor y))
within (suc k) x y p q = omega (
  arith,
  bit_xor_step x y,
  within k (x / 2) (y / 2) (omega arith) (omega arith),
  differ_bit (x % 2) (y % 2) (omega arith) (omega arith),
)

pub bit_xor_u16 : (x y : ℕ) → x < 65536 → y < 65536 → bit_xor x y < 65536
bit_xor_u16 x y p q = within 16 x y p q
