-- ===== src/Proxy/Crypto/Nonce.antt =====
-- proxy/src/crypto.rs: the counter in a nonce, and the length of a password's key.
use xray_rs.Base.{
  ℕ, zero, suc, ◌+◌, ◌*◌, ◌≤◌, ◌<◌, ◌≡◌, refl, ap, sym, ◌∙◌, Bool-cases, List, [], ◌∷◌, ◌++◌, ltb,
  leb, if◌then◌else◌, length, length-append, take, length-take, replicate, inl, inr, All, arith,
}
use mathlib.Core.Path.{subst}
use xray_rs.Proxy.Crypto.{
  NonceCtr, new_nonce, nonce_bytes, inc_bytes, inc, key_rounds, evp_bytes_to_key,
}

-- The number that bytes spell, the first one its lowest digit.
abbrev pub little_endian : List ℕ → ℕ
little_endian [] = 0
little_endian (b ∷ bs) = b + 256 * little_endian bs

-- The numbers that so many bytes spell.
abbrev pub radix : ℕ → ℕ
radix zero = 1
radix (suc n) = 256 * radix n

length-inc_bytes : (n : ℕ) (bs : List ℕ) → length (inc_bytes n bs) ≡ length bs
unfolding inc_bytes
length-inc_bytes zero bs = refl
length-inc_bytes (suc n) [] = refl
length-inc_bytes (suc n) (b ∷ bs) = elim (Bool-cases (leb 255 b)) [
  | inl e ↦ rw (e, inc_bytes, length-inc_bytes n bs) refl
  | inr e ↦ rw (e, inc_bytes) refl
]

-- Every element is a byte.
abbrev pub AreBytes : List ℕ → Type 0
AreBytes = All (λ b. b < 256)

inc_bytes-AreBytes : (n : ℕ) (bs : List ℕ) → AreBytes bs → AreBytes (inc_bytes n bs)
unfolding inc_bytes
inc_bytes-AreBytes zero bs a = a
inc_bytes-AreBytes (suc n) [] a = tt
inc_bytes-AreBytes (suc n) (b ∷ bs) (low, a) = elim (Bool-cases (leb 255 b)) [
  | inl e ↦ rw (e, inc_bytes) (omega arith, inc_bytes-AreBytes n bs a)
  | inr e ↦ rw (e, inc_bytes) (ground arith, a)
]

-- The loop adds one to the number that the first bytes spell, if that is not the last one.
little_endian-inc_bytes :
    (n : ℕ) (bs : List ℕ)
    → AreBytes bs
    → n ≤ length bs
    → little_endian (take n bs) + 1 < radix n
    → little_endian (take n (inc_bytes n bs)) ≡ little_endian (take n bs) + 1
unfolding inc_bytes
little_endian-inc_bytes zero bs a m h = absurd (omega (arith, h))
little_endian-inc_bytes (suc n) [] a m h = absurd (omega (arith, m))
little_endian-inc_bytes (suc n) (b ∷ bs) (low, a) m h = elim (Bool-cases (leb 255 b)) [
  | inl e ↦
      let top : b ≡ 255 = ground arith in
      let r = little_endian-inc_bytes n bs a (omega (arith, m)) (omega (arith, h, top)) in
      rw (e, inc_bytes, r) (omega (arith, top))
  | inr e ↦ rw (e, inc_bytes) (omega arith)
]

-- The nonce after so many uses.
abbrev pub after_uses : ℕ → ℕ → NonceCtr
after_uses size zero = new_nonce size
after_uses size (suc k) = inc (after_uses size k)

-- What holds of the nonce of a cipher from use to use.
record IsCounting (size : ℕ) (n : NonceCtr) : Type 0 where
  sized : n.size ≡ size
  whole : length n.buf ≡ 24
  are_bytes : AreBytes n.buf

zeros-AreBytes : (n : ℕ) → AreBytes (replicate n 0)
zeros-AreBytes zero = tt
zeros-AreBytes (suc n) = (omega arith, zeros-AreBytes n)

little_endian-zeros : (n m : ℕ) → little_endian (take n (replicate m 0)) ≡ 0
little_endian-zeros zero m = refl
little_endian-zeros (suc n) zero = refl
little_endian-zeros (suc n) (suc m) = rw (little_endian-zeros n m) refl

new_nonce-IsCounting : (size : ℕ) → size ≤ 24 → IsCounting size (new_nonce size)
new_nonce-IsCounting size h = record {
  sized = ground arith;
  whole = refl;
  are_bytes = zeros-AreBytes 24;
}

inc-IsCounting : (size : ℕ) (n : NonceCtr) → IsCounting size n → IsCounting size (inc n)
unfolding inc
inc-IsCounting size n c = record {
  sized = c.sized;
  whole = length-inc_bytes n.size n.buf ∙ c.whole;
  are_bytes = inc_bytes-AreBytes n.size n.buf c.are_bytes;
}

after_uses-IsCounting : (size k : ℕ) → size ≤ 24 → IsCounting size (after_uses size k)
after_uses-IsCounting size zero h = new_nonce-IsCounting size h
after_uses-IsCounting size (suc k) h =
    inc-IsCounting size (after_uses size k) (after_uses-IsCounting size k h)

little_endian-inc :
    (size : ℕ) (n : NonceCtr)
    → IsCounting size n
    → size ≤ 24
    → little_endian (nonce_bytes n) + 1 < radix size
    → little_endian (nonce_bytes (inc n)) ≡ little_endian (nonce_bytes n) + 1
unfolding inc
little_endian-inc size n c h r =
    little_endian-inc_bytes n.size n.buf c.are_bytes (omega (arith, h, c.sized, c.whole))
      (subst (λ s. little_endian (take n.size n.buf) + 1 < radix s) (sym c.sized) r)

-- A nonce counts its uses: after `k` of them it spells `k`, as long as the bytes can.
pub little_endian-nonce_bytes :
    (size k : ℕ) → size ≤ 24 → k < radix size → little_endian (nonce_bytes (after_uses size k)) ≡ k
little_endian-nonce_bytes size zero h r = little_endian-zeros (if ltb size 24 then size else 24) 24
little_endian-nonce_bytes size (suc k) h r =
    let before : little_endian (nonce_bytes (after_uses size k)) ≡ k =
      little_endian-nonce_bytes size k h (omega (arith, r)) in
    let next =
      little_endian-inc size (after_uses size k) (after_uses-IsCounting size k h) h
        (rw before (omega (arith, r))) in
    next ∙ ap (λ v. v + 1) before ∙ omega arith

-- No nonce of a cipher is used twice: two uses with one nonce are one use, if fewer uses came before
-- each than there are nonces of that size, 256 to the power of the size.
pub nonce_bytes-inj :
    (size i k : ℕ)
    → size ≤ 24
    → i < radix size
    → k < radix size
    → nonce_bytes (after_uses size i) ≡ nonce_bytes (after_uses size k)
    → i ≡ k
nonce_bytes-inj size i k h low high same =
    sym (little_endian-nonce_bytes size i h low)
    ∙ ap little_endian same
    ∙ little_endian-nonce_bytes size k h high

module _ (md5 : List ℕ → List ℕ) (sixteen : (bs : List ℕ) → length (md5 bs) ≡ 16) where
  -- Every round adds a digest, until the key is long enough.
  key_rounds-enough :
      (fuel : ℕ) (password : List ℕ) (key_len : ℕ) (key prev : List ℕ)
      → key_len ≤ length key + fuel
      → key_len ≤ length (key_rounds md5 fuel password key_len key prev)
  unfolding key_rounds
  key_rounds-enough zero password key_len key prev h = omega (arith, h)
  key_rounds-enough (suc fuel) password key_len key prev h =
      elim (Bool-cases (ltb (length key) key_len)) [
        | inl e ↦
            let digest = md5 (prev ++ password) in
            let longer : length (key ++ digest) ≡ length key + 16 =
              length-append key digest ∙ ap (λ n. length key + n) (sixteen (prev ++ password)) in
            rw (e, key_rounds)
              (key_rounds-enough fuel password key_len (key ++ digest) digest
                (omega (arith, h, longer)))
        | inr e ↦ rw (e, key_rounds) (ground arith)
      ]

  -- The key of a password has the length that is asked for.
  pub length-evp_bytes_to_key :
      (password : List ℕ) (key_len : ℕ) → length (evp_bytes_to_key md5 password key_len) ≡ key_len
  unfolding evp_bytes_to_key
  length-evp_bytes_to_key password key_len =
      length-take key_len (key_rounds md5 key_len password key_len [] [])
        (key_rounds-enough key_len password key_len [] [] (omega arith))
