-- ===== src/Proxy/Mux/Demux/Ends.antt =====
-- proxy/src/mux.rs, `demux`: the loop ends.
use xray_rs.Base.{
  ℕ, zero, suc, ◌≤◌, ◌<◌, ◌≡◌, refl, ◌⊎◌, Option-cases, length-drop, ◌||◌, inl, inr, ◌==◌, some,
  List, [], ◌∷◌, ltb, arith, length, Bool-cases, bit_and,
}
use xray_rs.Base.Result.{Result, ok, err, Result-cases, Parser, ◌>>=◌, >>=-ok, >>=-err}
use xray_rs.Kernel.Error.{IoError}
use xray_rs.Kernel.Cursor.{take_bytes, read_port}
use xray_rs.Proxy.Mux.{parse_meta, max_meta, max_data, opt_data}
use xray_rs.Proxy.Mux.Demux.{
  State, take, u16, read_data, parsed, read_frame, Round, again, stop, round, demux, handle,
}

u16-shorter :
    (buf : List ℕ) {n : ℕ} {rest : List ℕ} → u16 buf ≡ ok (n, rest) → length rest < length buf
unfolding u16 read_port
u16-shorter [] h = cc
u16-shorter (hi ∷ []) h = cc
u16-shorter (hi ∷ lo ∷ buf) {rest} h = let e : buf ≡ rest = cc in rw (← e) (omega arith)

Round-cases :
    (r : Round)
    → ((x : Result IoError State) × (r ≡ stop x)) ⊎ ((p : State × List ℕ) × (r ≡ again p.0 p.1))
Round-cases (stop r) = inl (r, refl)
Round-cases (again s rest) = inr ((s, rest), refl)

-- What a step leaves is no longer than what it was given.
abbrev Within : {A : Type 0} → List ℕ → Result IoError (A × List ℕ) → Type 0
Within buf (ok (a, rest)) = length rest ≤ length buf
Within buf (err e) = Unit

within :
    {A : Type 0} (buf : List ℕ) {r : Result IoError (A × List ℕ)} {a : A} {rest : List ℕ}
    → r ≡ ok (a, rest)
    → Within buf r
    → length rest ≤ length buf
within buf h w = rw h at w

take-Within : (n : ℕ) (buf : List ℕ) → Within buf (take n buf)
unfolding take take_bytes
take-Within n buf = elim (Bool-cases (ltb (length buf) n)) [
  | inl e ↦ rw (e, Within) tt
  | inr e ↦ rw (e, Within) (omega (arith, length-drop n buf))
]

u16-Within : (buf : List ℕ) → Within buf (u16 buf)
unfolding u16 read_port
u16-Within [] = tt
u16-Within (hi ∷ []) = tt
u16-Within (hi ∷ lo ∷ buf) = omega arith

bind-Within :
    {A B : Type 0} (m : Parser IoError A) (f : A → Parser IoError B) (buf : List ℕ)
    → Within buf (m buf)
    → ((a : A) (rest : List ℕ) → Within rest (f a rest))
    → Within buf ((m >>= f) buf)
bind-Within m f buf h k = elim (Result-cases (m buf)) [
  | inl ((a, rest), e) ↦ rw (>>=-ok m f buf e) (further rest (f a rest) (k a rest) (within buf e h))
  | inr (x, e) ↦ rw (>>=-err m f buf e) tt
]
  where
    further :
        {B : Type 0} (rest : List ℕ) (r : Result IoError (B × List ℕ))
        → Within rest r
        → length rest ≤ length buf
        → Within buf r
    further rest (ok (b, end)) w le = omega arith
    further rest (err x) w le = tt

read_data-Within : (option : ℕ) (buf : List ℕ) → Within buf (read_data option buf)
unfolding read_data
read_data-Within option buf = elim (Bool-cases (bit_and option opt_data == 0)) [
  | inl e ↦ rw e (omega arith)
  | inr e ↦ rw e (
      bind-Within u16 _ buf (u16-Within buf) λ dlen rest. elim (Bool-cases (ltb max_data dlen)) [
        | inl big ↦ rw big tt
        | inr small ↦
            rw small (bind-Within (take dlen) _ rest (take-Within dlen rest) λ d more. omega arith)
      ])
]

parsed-Within : (meta_bytes : List ℕ) (buf : List ℕ) → Within buf (parsed meta_bytes buf)
unfolding parsed
parsed-Within meta_bytes buf = elim (Option-cases (parse_meta meta_bytes)) [
  | inl e ↦ rw (e, Within) tt
  | inr (m, e) ↦ rw (e, Within) (omega arith)
]

read_frame-Within : (n : ℕ) (buf : List ℕ) → Within buf (read_frame n buf)
unfolding read_frame
read_frame-Within n buf = elim (Bool-cases (n == 0 || ltb max_meta n)) [
  | inl e ↦ rw e tt
  | inr e ↦ rw e (
      bind-Within (take n) _ buf (take-Within n buf) λ b rest.
        bind-Within (parsed b) _ rest (parsed-Within b rest) λ m more.
          bind-Within (read_data m.option) _ more (read_data-Within m.option more)
            λ d end. omega arith)
]

round-shorter :
    (s t : State) (buf rest : List ℕ) → round s buf ≡ again t rest → length rest < length buf
unfolding round
round-shorter s t buf rest h = elim (Result-cases (u16 buf)) [
  | inr (x, e) ↦ cc (rw (e, round) at h)
  | inl ((n, body), e) ↦ elim (Result-cases (read_frame n body)) [
    | inr (x, q) ↦ cc (rw (e, q, round) at h)
    | inl (((m, d), more), q) ↦ elim (Result-cases (handle m d s)) [
      | inr (x, k) ↦ cc (rw (e, q, k, round) at h)
      | inl (s', k) ↦
          let same : more ≡ rest = cc (rw (e, q, k, round) at h) in
          rw (← same) (omega (arith, u16-shorter buf e, within body q (read_frame-Within n body)))
    ]
  ]
]

-- The loop comes to an end on every carrier: fuel of one more than its length is enough.
pub demux_total :
    (fuel : ℕ) (s : State) (buf : List ℕ)
    → length buf < fuel
    → (r : Result IoError State) × (demux fuel s buf ≡ some r)
unfolding demux
demux_total zero s buf h = absurd (omega arith)
demux_total (suc fuel) s buf h = elim (Round-cases (round s buf)) [
  | inl (r, e) ↦ (r, rw (e, demux))
  | inr ((t, rest), e) ↦
      rw (e, demux) (demux_total fuel t rest (omega (arith, round-shorter s t buf rest e)))
]
