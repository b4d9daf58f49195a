-- ===== src/Kernel/Cursor.antt =====
-- kernel/src/net.rs, the readers at the end: a byte, a big-endian `u16` and a run of bytes off the
-- front of a `Bytes`, without a panic. And what makes a decoder fit for a stream.
use xray_rs.Base.{
  ℕ, ◌+◌, ◌*◌, ◌≤◌, ◌<◌, ◌≡◌, refl, ap, sym, ◌∙◌, Bool, true, false, List, [], ◌∷◌, ◌++◌, arith,
  append_assoc, inl, inr, ltb, if◌then◌else◌, length, take, drop, length-take, append-nil, ltb→le,
  ltb→lt, length-append, take-append-drop, take-append_le, drop-append_le, take-length, drop-length,
  Bool-cases,
}
use xray_rs.Base.Result.{Result, ok, err, Parser, pure, fail, ◌>>=◌, >>=-ok}
use mathlib.Core.Path.{subst}
use xray_rs.Kernel.Error.{Error, truncated, is_truncated}

abbrev pub Decoder : Type 0 → Type 0
Decoder = Parser Error

unfoldable pub take_u8 : Decoder ℕ
take_u8 [] = err (truncated 1 0)
take_u8 (b ∷ buf) = ok (b, buf)

unfoldable pub read_port : Decoder ℕ
read_port [] = err (truncated 2 0)
read_port (hi ∷ []) = err (truncated 2 1)
read_port (hi ∷ lo ∷ buf) = ok (hi * 256 + lo, buf)

-- `net::take`
unfoldable pub take_bytes : ℕ → Decoder (List ℕ)
take_bytes n buf =
    if ltb (length buf) n then err (truncated n (length buf)) else ok (take n buf, drop n buf)

-- What the answer `r` of `p` to a front `xs` of a stream says of its answer `r'` to `xs ++ ys`. A
-- value stays, what was taken is a front of `xs`, and that front alone gives the value; an error
-- stays, unless it asks for more bytes.
abbrev pub Kept :
    {A : Type 0} (p : Decoder A) (xs ys : List ℕ) (r r' : Result Error (A × List ℕ)) → Type 0
Kept p xs ys (ok (a, rest)) r' =
    (r' ≡ ok (a, rest ++ ys)) × (front : List ℕ) × (xs ≡ front ++ rest) × (p front ≡ ok (a, []))
Kept p xs ys (err e) r' = is_truncated e ≡ false → r' ≡ err e

-- A decoder that a stream may call again once more input has come.
pub record IsStream {A : Type 0} (p : Decoder A) : Type 0 where
  pub kept : (xs ys : List ℕ) → Kept p xs ys (p xs) (p (xs ++ ys))

-- The same of an answer that is known by an equation.
module _ {A : Type 0} {p : Decoder A} (s : IsStream p) (xs ys : List ℕ) where
  pub kept_ok :
      {a : A} {rest : List ℕ} → p xs ≡ ok (a, rest) → Kept p xs ys (ok (a, rest)) (p (xs ++ ys))
  kept_ok h = rw h at (s.kept xs ys)

  pub kept_err : {e : Error} → p xs ≡ err e → is_truncated e ≡ false → p (xs ++ ys) ≡ err e
  kept_err {e} h = subst (λ r. Kept p xs ys r (p (xs ++ ys))) h (s.kept xs ys)

pub pure-IsStream : {A : Type 0} (a : A) → IsStream (pure a)
pure-IsStream a = record { kept = λ xs ys. (refl, [], refl, refl) }

pub fail-IsStream : {A : Type 0} (e : Error) → IsStream {A = A} (fail e)
fail-IsStream e = record { kept = λ xs ys _. refl }

module _ {A B : Type 0} (m : Decoder A) (f : A → Decoder B) (hm : IsStream m) where
  bind-front :
      (a : A) (b : B) (front middle : List ℕ)
      → m front ≡ ok (a, [])
      → f a middle ≡ ok (b, [])
      → (m >>= f) (front ++ middle) ≡ ok (b, [])
  bind-front a b front middle h k = >>=-ok m f (front ++ middle) (kept_ok hm front middle h).0 ∙ k

  Kept-bind_ok :
      (a : A) (front xs rest ys : List ℕ) (r r' : Result Error (B × List ℕ))
      → xs ≡ front ++ rest
      → m front ≡ ok (a, [])
      → Kept (f a) rest ys r r'
      → Kept (m >>= f) xs ys r r'
  Kept-bind_ok a front xs rest ys (ok (b, end)) r' split h (e, middle, split', k) = (
    e,
    front ++ middle,
    split ∙ ap (λ t. front ++ t) split' ∙ sym (append_assoc front middle end),
    bind-front a b front middle h k,
  )
  Kept-bind_ok a front xs rest ys (err e) r' split h k = k

  Kept-bind :
      (xs ys : List ℕ) (r r' : Result Error (A × List ℕ))
      → Kept m xs ys r r'
      → ((a : A) → IsStream (f a))
      → Kept
          (m >>= f)
          xs
          ys
          (elim r [ ok (a, rest) ↦ f a rest | err e ↦ err e ])
          (elim r' [ ok (a, rest) ↦ f a rest | err e ↦ err e ])
  Kept-bind xs ys (ok (a, rest)) r' (e, front, split, h) hf =
      rw e (
        Kept-bind_ok a front xs rest ys (f a rest) (f a (rest ++ ys)) split h ((hf a).kept rest ys))
  Kept-bind xs ys (err e) r' k hf = λ t. rw (k t)

pub bind-IsStream :
    {A B : Type 0} {m : Decoder A} {f : A → Decoder B}
    → IsStream m
    → ((a : A) → IsStream (f a))
    → IsStream (m >>= f)
bind-IsStream {m} {f} hm hf = record {
  kept = λ xs ys. Kept-bind m f hm xs ys (m xs) (m (xs ++ ys)) (hm.kept xs ys) hf;
}

pub if-IsStream :
    {A : Type 0} (b : Bool) {p q : Decoder A}
    → IsStream p
    → IsStream q
    → IsStream (if b then p else q)
if-IsStream true h k = h
if-IsStream false h k = k

pub take_u8-IsStream : IsStream take_u8
unfolding take_u8
take_u8-IsStream = record { kept = kept }
  where
    kept : (xs ys : List ℕ) → Kept take_u8 xs ys (take_u8 xs) (take_u8 (xs ++ ys))
    kept [] ys = λ h. cc
    kept (b ∷ xs) ys = (refl, b ∷ [], refl, refl)

pub read_port-IsStream : IsStream read_port
unfolding read_port
read_port-IsStream = record { kept = kept }
  where
    kept : (xs ys : List ℕ) → Kept read_port xs ys (read_port xs) (read_port (xs ++ ys))
    kept [] ys = λ h. cc
    kept (hi ∷ []) ys = λ h. cc
    kept (hi ∷ lo ∷ xs) ys = (refl, hi ∷ lo ∷ [], refl, refl)

take_bytes-short :
    (n : ℕ) (xs : List ℕ) → length xs < n → take_bytes n xs ≡ err (truncated n (length xs))
unfolding take_bytes
take_bytes-short n xs h = ground arith

take_bytes-enough :
    (n : ℕ) (xs : List ℕ) → n ≤ length xs → take_bytes n xs ≡ ok (take n xs, drop n xs)
unfolding take_bytes
take_bytes-enough n xs h = ground arith

take_bytes-append :
    (n : ℕ) (xs ys : List ℕ)
    → n ≤ length xs
    → take_bytes n (xs ++ ys) ≡ ok (take n xs, drop n xs ++ ys)
take_bytes-append n xs ys h =
    take_bytes-enough n (xs ++ ys) (omega (arith, length-append xs ys))
    ∙ rw (take-append_le n xs ys h, drop-append_le n xs ys h)

-- A decoder reads back a run that stands at the front.
pub take_bytes-front : (xs ys : List ℕ) → take_bytes (length xs) (xs ++ ys) ≡ ok (xs, ys)
take_bytes-front xs ys =
    take_bytes-append (length xs) xs ys (omega arith) ∙ rw (take-length, drop-length)

take_bytes-take :
    (n : ℕ) (xs : List ℕ) → n ≤ length xs → take_bytes n (take n xs) ≡ ok (take n xs, [])
take_bytes-take n xs h =
    subst (λ (k : ℕ). take_bytes k (take n xs) ≡ ok (take n xs, [])) (length-take n xs h)
      (rw append-nil at (take_bytes-front (take n xs) []))

pub take_bytes-IsStream : (n : ℕ) → IsStream (take_bytes n)
take_bytes-IsStream n = record { kept = kept }
  where
    kept : (xs ys : List ℕ) → Kept (take_bytes n) xs ys (take_bytes n xs) (take_bytes n (xs ++ ys))
    kept xs ys = elim (Bool-cases (ltb (length xs) n)) [
      | inl short ↦ rw (take_bytes-short n xs (ground arith)) (λ h. cc)
      | inr enough ↦
          let le = ltb→le (length xs) n enough in
          subst (λ r. Kept (take_bytes n) xs ys r (take_bytes n (xs ++ ys)))
            (sym (take_bytes-enough n xs le))
            (
              take_bytes-append n xs ys le,
              take n xs,
              sym (take-append-drop n xs),
              take_bytes-take n xs le,
            )
    ]

pub ruleset stream_rules = (
  pure-IsStream, fail-IsStream, bind-IsStream, if-IsStream, take_u8-IsStream, read_port-IsStream,
  take_bytes-IsStream,
)

-- What a successful read says of its input.
pub take_u8-inv :
    (buf : List ℕ) {b : ℕ} {rest : List ℕ} → take_u8 buf ≡ ok (b, rest) → buf ≡ b ∷ rest
unfolding take_u8
take_u8-inv [] h = cc
take_u8-inv (b ∷ buf) h = cc

pub take_bytes-inv :
    (n : ℕ) (buf : List ℕ) {a rest : List ℕ}
    → take_bytes n buf ≡ ok (a, rest)
    → (buf ≡ a ++ rest) × (length a ≡ n)
take_bytes-inv n buf {a} {rest} h = elim (Bool-cases (ltb (length buf) n)) [
  | inl short ↦ cc (take_bytes-short n buf (ltb→lt (length buf) n short))
  | inr enough ↦
      let le = ltb→le (length buf) n enough in
      cut le (cc (take_bytes-enough n buf le)) (cc (take_bytes-enough n buf le))
]
  where
    cut : n ≤ length buf → take n buf ≡ a → drop n buf ≡ rest → (buf ≡ a ++ rest) × (length a ≡ n)
    cut le e k = (rw (← e, ← k) (sym (take-append-drop n buf)), rw (← e) (length-take n buf le))
