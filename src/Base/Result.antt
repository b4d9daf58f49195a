-- ===== src/Base/Result.antt =====
-- `Result<T, E>` with its `?`, and a cursor over bytes that may fail: the `&mut Bytes` that the
-- decoders advance is the list that comes back beside the value.
use Prim.Native.Nat.{ℕ}
use mathlib.Core.Path.{◌≡◌, refl, sym, ap, ◌∙◌}
use mathlib.Core.Logic.{◌⊎◌, inl, inr}
use mathlib.Core.Option.{Option, none, some}
use mathlib.Core.List.{List}

pub data Result {ℓ κ} (E : Type ℓ) (A : Type κ) : Type (ℓ ⊔ κ) where
  ok : A → Result E A
  err : E → Result E A

-- `Result::ok`
abbrev pub ok? {ℓ κ} : {E : Type ℓ} {A : Type κ} → Result E A → Option A
ok? (ok a) = some a
ok? (err e) = none

-- `Option::ok_or`
abbrev pub ok_or {ℓ κ} : {E : Type ℓ} {A : Type κ} → Option A → E → Result E A
ok_or none e = err e
ok_or (some a) e = ok a

pub Result-cases {ℓ κ} :
    {E : Type ℓ} {A : Type κ} (r : Result E A) → ((a : A) × (r ≡ ok a)) ⊎ ((e : E) × (r ≡ err e))
Result-cases (ok a) = inl (a, refl)
Result-cases (err e) = inr (e, refl)

abbrev pub Parser : Type 0 → Type 0 → Type 0
Parser E A = List ℕ → Result E (A × List ℕ)

module _ {E A : Type 0} where
  abbrev pub pure : A → Parser E A
  pure a buf = ok (a, buf)

  abbrev pub fail : E → Parser E A
  fail e buf = err e

infixl 5 ◌>>=◌ ◌>>◌
abbrev pub ◌>>=◌ : {E A B : Type 0} → Parser E A → (A → Parser E B) → Parser E B
◌>>=◌ m f buf = elim (m buf) [ ok (a, rest) ↦ f a rest | err e ↦ err e ]

abbrev pub ◌>>◌ : {E A B : Type 0} → Parser E A → Parser E B → Parser E B
m >> k = m >>= λ _. k

-- A step that succeeds hands its value and the rest on; one that fails ends the chain.
module _ {E A B : Type 0} (m : Parser E A) (f : A → Parser E B) (buf : List ℕ) where
  pub >>=-ok : {a : A} {rest : List ℕ} → m buf ≡ ok (a, rest) → (m >>= f) buf ≡ f a rest
  >>=-ok h =
      ap (λ (r : Result E (A × List ℕ)). elim r [ ok (a, rest) ↦ f a rest | err e ↦ err e ]) h

  pub >>=-err : {e : E} → m buf ≡ err e → (m >>= f) buf ≡ err e
  >>=-err h =
      ap (λ (r : Result E (A × List ℕ)). elim r [ ok (a, rest) ↦ f a rest | err e ↦ err e ]) h

  -- Inversion of a chain that succeeded.
  pub >>=-inv :
      {b : B} {end : List ℕ}
      → (m >>= f) buf ≡ ok (b, end)
      → (a : A) × (rest : List ℕ) × (m buf ≡ ok (a, rest)) × (f a rest ≡ ok (b, end))
  >>=-inv h = elim (Result-cases (m buf)) [
    | inl ((a, rest), e) ↦ (a, rest, e, sym (>>=-ok e) ∙ h)
    | inr (e, q) ↦ cc (sym (>>=-err q) ∙ h)
  ]

  -- The same by a continuation, so that the parts are variables.
  pub >>=-elim {ℓ} :
      {C : Type ℓ} {b : B} {end : List ℕ}
      → (m >>= f) buf ≡ ok (b, end)
      → ((a : A) (rest : List ℕ) → m buf ≡ ok (a, rest) → f a rest ≡ ok (b, end) → C)
      → C
  >>=-elim h k = let (a, rest, e, r) = >>=-inv h in k a rest e r
