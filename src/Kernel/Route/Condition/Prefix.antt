-- ===== src/Kernel/Route/Condition/Prefix.antt =====
-- kernel/src/route/rule.rs, `prefix_match`: two addresses agree on their first bits.
use xray_rs.Base.{
  ℕ, zero, suc, ◌-◌, ◌*◌, ◌/◌, ◌%◌, ◌^◌, ◌≤◌, ◌<◌, ◌≡◌, refl, ap, ◌↔◌, arith, Bool, true, List, ◌∷◌,
  [], ◌++◌, ◌==◌, ==_iff, leb, inl, inr, Bool-cases, length, bit_and, IsByte, IsBytes, take,
}
use xray_rs.Base.Below.{all_below, all_below_lem}
use xray_rs.Kernel.Route.Condition.{mask, prefix_match}

-- The bits of a byte, the highest first.
abbrev bits_of : ℕ → List ℕ
bits_of a =
    (a / 128)
    ∷ (a / 64 % 2)
    ∷ (a / 32 % 2)
    ∷ (a / 16 % 2)
    ∷ (a / 8 % 2)
    ∷ (a / 4 % 2)
    ∷ (a / 2 % 2)
    ∷ (a % 2)
    ∷ []

abbrev pub address_bits : List ℕ → List ℕ
address_bits [] = []
address_bits (a ∷ s) = bits_of a ++ address_bits s

-- The mask keeps the value of the first bits.
masked_test : ℕ → Bool
masked_test a = all_below (λ n. bit_and a (mask n) == a / 2 ^ (8 - n) * 2 ^ (8 - n)) 8

masked_tests : all_below masked_test 256 ≡ true
unfolding masked_test all_below
masked_tests = refl

masked : (n a : ℕ) → n < 8 → IsByte a → bit_and a (mask n) ≡ a / 2 ^ (8 - n) * 2 ^ (8 - n)
unfolding masked_test
masked n a h b = (==_iff _ _).0 (
    all_below_lem (λ n. bit_and a (mask n) == a / 2 ^ (8 - n) * 2 ^ (8 - n)) 8 n
      (all_below_lem masked_test 256 a masked_tests b) h)

whole_iff : (a b : ℕ) (xs ys : List ℕ) → (bits_of a ++ xs ≡ bits_of b ++ ys) ↔ ((a ≡ b) × (xs ≡ ys))
whole_iff a b xs ys = ground arith

-- The first bits of a byte, as a number and as a list.
abbrev SameFront : ℕ → ℕ → List ℕ → ℕ → List ℕ → Type 0
SameFront n a xs b ys =
    (a / 2 ^ (8 - n) ≡ b / 2 ^ (8 - n)) ↔ (take n (bits_of a ++ xs) ≡ take n (bits_of b ++ ys))

part_iff : (n a b : ℕ) (xs ys : List ℕ) → n < 8 → IsByte a → IsByte b → SameFront n a xs b ys
part_iff zero a b xs ys h k l = ground arith
part_iff (suc zero) a b xs ys h k l = ground arith
part_iff (suc (suc zero)) a b xs ys h k l = ground arith
part_iff (suc (suc (suc zero))) a b xs ys h k l = ground arith
part_iff (suc (suc (suc (suc zero)))) a b xs ys h k l = ground arith
part_iff (suc (suc (suc (suc (suc zero))))) a b xs ys h k l = ground arith
part_iff (suc (suc (suc (suc (suc (suc zero)))))) a b xs ys h k l = ground arith
part_iff (suc (suc (suc (suc (suc (suc (suc zero))))))) a b xs ys h k l = ground arith
part_iff (suc (suc (suc (suc (suc (suc (suc (suc n)))))))) a b xs ys h k l = absurd (omega arith)

test_iff :
    (n a b : ℕ)
    → n < 8
    → IsByte a
    → IsByte b
    → ((bit_and a (mask n) == bit_and b (mask n)) ≡ true) ↔ (a / 2 ^ (8 - n) ≡ b / 2 ^ (8 - n))
test_iff zero a b h k l = ground (arith, masked 0 a h k, masked 0 b h l)
test_iff (suc zero) a b h k l = ground (arith, masked 1 a h k, masked 1 b h l)
test_iff (suc (suc zero)) a b h k l = ground (arith, masked 2 a h k, masked 2 b h l)
test_iff (suc (suc (suc zero))) a b h k l = ground (arith, masked 3 a h k, masked 3 b h l)
test_iff (suc (suc (suc (suc zero)))) a b h k l = ground (arith, masked 4 a h k, masked 4 b h l)
test_iff (suc (suc (suc (suc (suc zero))))) a b h k l =
    ground (arith, masked 5 a h k, masked 5 b h l)
test_iff (suc (suc (suc (suc (suc (suc zero)))))) a b h k l =
    ground (arith, masked 6 a h k, masked 6 b h l)
test_iff (suc (suc (suc (suc (suc (suc (suc zero))))))) a b h k l =
    ground (arith, masked 7 a h k, masked 7 b h l)
test_iff (suc (suc (suc (suc (suc (suc (suc (suc n)))))))) a b h k l = absurd (omega arith)

-- The last bits are compared under the mask.
prefix_match_part :
    (n a b : ℕ) (net ip : List ℕ)
    → n < 8
    → IsByte a
    → IsByte b
    → prefix_match (a ∷ net) (b ∷ ip) n ≡ (bit_and a (mask n) == bit_and b (mask n))
unfolding prefix_match
prefix_match_part zero a b net ip h k l = ground (arith, masked 0 a h k, masked 0 b h l)
prefix_match_part (suc n) a b net ip h k l = ground arith

take-bits :
    (n a : ℕ) (xs : List ℕ) → 8 ≤ n → take n (bits_of a ++ xs) ≡ bits_of a ++ take (n - 8) xs
take-bits (suc (suc (suc (suc (suc (suc (suc (suc n)))))))) a xs h =
    let e : n ≡ suc (suc (suc (suc (suc (suc (suc (suc n))))))) - 8 = omega arith in
    ap (λ (m : ℕ). bits_of a ++ take m xs) e
take-bits n a xs h = absurd (omega arith)

-- For two addresses of one kind, a prefix of `n` bits matches exactly if their first `n` bits are the
-- same.
pub prefix_match_iff :
    (net ip : List ℕ) (n : ℕ)
    → length net ≡ length ip
    → IsBytes net
    → IsBytes ip
    → (prefix_match net ip n ≡ true) ↔ (take n (address_bits net) ≡ take n (address_bits ip))
unfolding prefix_match
prefix_match_iff [] [] n e h k = ((λ _. refl), (λ _. refl))
prefix_match_iff [] (b ∷ ip) n e h k = absurd (omega arith)
prefix_match_iff (a ∷ net) [] n e h k = absurd (omega arith)
prefix_match_iff (a ∷ net) (b ∷ ip) n e (ha, h) (hb, k) = elim (Bool-cases (leb 8 n)) [
  | inl whole ↦
      rw
        (
          take-bits n a (address_bits net) (ground arith),
          take-bits n b (address_bits ip) (ground arith),
        )
        (ground (
          arith,
          whole_iff a b (take (n - 8) (address_bits net)) (take (n - 8) (address_bits ip)),
          ==_iff a b,
          prefix_match_iff net ip (n - 8) (omega arith) h k,
        ))
  | inr part ↦
      let small : n < 8 = ground arith in
      let same = part_iff n a b (address_bits net) (address_bits ip) small ha hb in
      let test = test_iff n a b small ha hb in
      rw (prefix_match_part n a b net ip small ha hb)
        (((λ e. same.0 (test.0 e)), (λ e. test.1 (same.1 e))))
]
