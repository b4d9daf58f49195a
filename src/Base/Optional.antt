-- ===== src/Base/Optional.antt =====
-- `Option<T>` with its `?`, and the cuts of a slice that check its length.
use xray_rs.Base.Tests.{ltb, if◌then◌else◌}
use xray_rs.Base.Lists.{length, get_elem?, take, drop, take-append, drop-append, length-append}
use Prim.Native.Nat.{ℕ, ◌+◌, ◌*◌}
use mathlib.Core.Path.{◌≡◌, refl}
use mathlib.Core.Bool.{Bool, false}
use mathlib.Core.Option.{Option, none, some}
use mathlib.Core.List.{List, [], ◌∷◌, ◌++◌}
use native.Mathlib.Omega.{arith}

infixl 5 ◌>>=◌ ◌>>◌
abbrev pub ◌>>=◌ {ℓ κ} : {A : Type ℓ} {B : Type κ} → Option A → (A → Option B) → Option B
◌>>=◌ none f = none
◌>>=◌ (some a) f = f a

abbrev pub ◌>>◌ {ℓ κ} : {A : Type ℓ} {B : Type κ} → Option A → Option B → Option B
m >> k = m >>= λ _. k

-- A test that returns `None` where it fails.
abbrev pub ensure : Bool → Option (Unit {0})
ensure c = if c then some tt else none

-- `get(n..)`, `get(..n)` and `first`
module _ {A : Type 0} where
  unfoldable pub get_from : ℕ → List A → Option (List A)
  get_from n xs = if ltb (length xs) n then none else some (drop n xs)

  unfoldable pub get_to : ℕ → List A → Option (List A)
  get_to n xs = if ltb (length xs) n then none else some (take n xs)

  abbrev pub first : List A → Option A
  first [] = none
  first (a ∷ _) = some a

  -- A cut at a known front.
  pub get_from-append : (xs ys : List A) → get_from (length xs) (xs ++ ys) ≡ some ys
  unfolding get_from
  get_from-append xs ys =
      let e : ltb (length (xs ++ ys)) (length xs) ≡ false = ground (arith, length-append xs ys) in
      rw (e, drop-append xs ys) refl

  pub get_to-append : (xs ys : List A) → get_to (length xs) (xs ++ ys) ≡ some xs
  unfolding get_to
  get_to-append xs ys =
      let e : ltb (length (xs ++ ys)) (length xs) ≡ false = ground (arith, length-append xs ys) in
      rw (e, take-append xs ys) refl

  -- The same for a front of a known length.
  pub get_from_at :
      (n : ℕ) (xs ys zs : List A) → length xs ≡ n → xs ++ ys ≡ zs → get_from n zs ≡ some ys
  get_from_at n xs ys zs h e = rw (← h, ← e) (get_from-append xs ys)

  pub get_to_at :
      (n : ℕ) (xs ys zs : List A) → length xs ≡ n → xs ++ ys ≡ zs → get_to n zs ≡ some xs
  get_to_at n xs ys zs h e = rw (← h, ← e) (get_to-append xs ys)

  pub get_elem?_at :
      (xs : List A) (a : A) (ys : List A) → get_elem? (xs ++ a ∷ ys) (length xs) ≡ some a
  get_elem?_at [] a ys = refl
  get_elem?_at (x ∷ xs) a ys = get_elem?_at xs a ys

-- The big-endian `u16` at the front.
unfoldable pub read_u16 : List ℕ → Option ℕ
read_u16 (hi ∷ lo ∷ _) = some (hi * 256 + lo)
read_u16 _ = none
