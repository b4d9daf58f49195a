-- ===== src/Proxy/Socks/Handshake.antt =====
-- proxy/src/socks.rs: who the handshake lets in, and what it answers to a client that keeps the
-- protocol.
use xray_rs.Base.{
  ℕ, ◌≡◌, ◌≢◌, refl, sym, ap, ◌∙◌, inl, inr, Option, none, some, List, [], ◌∷◌, ◌++◌, ◌==◌, length,
  any, Bool-cases, append_assoc,
}
use xray_rs.Base.Result.{Result, ok, err, Result-cases}
use xray_rs.Kernel.Error.{IoError}
use xray_rs.Kernel.Cursor.{take_bytes, take_bytes-inv}
use xray_rs.Kernel.Net.{Address}
use xray_rs.Proxy.Socks.{
  SocksAccount, account_for, Conn, Step, next, ◌>>=◌, read_u8, read_exact, write_all,
  expected_method, auth_version, version5, admit, credentials, login, greeting, offer, handshake,
  choose_method,
}

pair : {A B : Type 0} {a a' : A} {b b' : B} → a ≡ a' → b ≡ b' → ◌≡◌ {A = A × B} (a, b) (a', b')
pair h k = rw (h, k) refl

-- A chain that succeeded: its parts.
>>=-elim :
    {A B : Type 0} {C : Type 0} (m : Step A) (f : A → Step B) (c : Conn) {b : B} {end : Conn}
    → (m >>= f) c ≡ (ok b, end)
    → ((a : A) (mid : Conn) → m c ≡ (ok a, mid) → f a mid ≡ (ok b, end) → C)
    → C
>>=-elim {A} {B} {C} m f c {b} {end} h k = go (m c).0 (m c).1 refl refl h
  where
    go :
        (r : Result IoError A) (mid : Conn)
        → (m c).0 ≡ r
        → (m c).1 ≡ mid
        → next f r mid ≡ (ok b, end)
        → C
    go (ok a) mid e e' h = k a mid (pair e e') h
    go (err x) mid e e' h = absurd (cc h)

read_u8-inv : (c d : Conn) {b : ℕ} → read_u8 c ≡ (ok b, d) → c.input ≡ b ∷ d.input
read_u8-inv c d {b} h = by_input c.input c.written h
  where
    by_input :
        (xs : List ℕ) (w : List (List ℕ))
        → read_u8 (record { input = xs; written = w }) ≡ (ok b, d)
        → xs ≡ b ∷ d.input
    by_input [] w h = unfold read_u8 in cc
    by_input (x ∷ xs) w h = unfold read_u8 in cc

read_exact-inv :
    (n : ℕ) (c d : Conn) {bs : List ℕ}
    → read_exact n c ≡ (ok bs, d)
    → (c.input ≡ bs ++ d.input) × (length bs ≡ n)
unfolding read_exact
read_exact-inv n c d {bs} h = elim (Result-cases (take_bytes n c.input)) [
  | inr (x, e) ↦ cc (rw (e, read_exact) at h)
  | inl ((a, rest), e) ↦
      let same : a ≡ bs = cc (rw (e, read_exact) at h) in
      let left : rest ≡ d.input = cc (rw (e, read_exact) at h) in
      rw (← same, ← left) (take_bytes-inv n c.input e)
]

-- Somewhere in the client's bytes stand a user and a password, each behind its length, of an account.
abbrev pub HasLogin : List SocksAccount → List ℕ → Type 0
HasLogin accounts input =
    (before : List ℕ) × (user : List ℕ) × (pass : List ℕ) × (behind : List ℕ) × (a : SocksAccount)
    × (input ≡ before ++ (length user ∷ (user ++ (length pass ∷ (pass ++ behind)))))
    × (account_for accounts user pass ≡ some a)

admit-inv :
    (o : Option SocksAccount) (c d : Conn)
    → admit o c ≡ (ok tt, d)
    → (a : SocksAccount) × (o ≡ some a)
unfolding admit write_all
admit-inv none c d h = cc
admit-inv (some a) c d h = (a, refl)

credentials-inv :
    (accounts : List SocksAccount) (c d : Conn)
    → credentials accounts c ≡ (ok tt, d)
    → HasLogin accounts c.input
unfolding credentials
credentials-inv accounts c d h = >>=-elim read_u8 _ c h λ ulen c1 e1 h1.
    >>=-elim (read_exact ulen) _ c1 h1 λ user c2 e2 h2. >>=-elim read_u8 _ c2 h2 λ plen c3 e3 h3.
      >>=-elim (read_exact plen) _ c3 h3 λ pass c4 e4 h4.
        let (a, known) = admit-inv (account_for accounts user pass) c4 d h4 in
        let (s2, l2) = read_exact-inv ulen c1 c2 e2 in
        let (s4, l4) = read_exact-inv plen c3 c4 e4 in
        ([], user, pass, c4.input, a, cc (read_u8-inv c c1 e1, read_u8-inv c2 c3 e3), known)

HasLogin-behind :
    (accounts : List SocksAccount) (front input : List ℕ)
    → HasLogin accounts input
    → HasLogin accounts (front ++ input)
HasLogin-behind accounts front input (before, user, pass, behind, a, e, k) = (
  front ++ before,
  user,
  pass,
  behind,
  a,
  ap (λ t. front ++ t) e ∙ sym (append_assoc front before _),
  k,
)

login-inv :
    (accounts : List SocksAccount) (c d : Conn)
    → login accounts c ≡ (ok tt, d)
    → HasLogin accounts c.input
unfolding login
login-inv accounts c d h = >>=-elim read_u8 _ c h λ uver c1 e1 h1.
    elim (Bool-cases (uver == auth_version)) [
      | inl v ↦ rw (read_u8-inv c c1 e1) (
          HasLogin-behind accounts (uver ∷ []) c1.input
            (credentials-inv accounts c1 d (rw v at h1)))
      | inr v ↦ cc (rw v at h1)
    ]

choose_method-inv :
    (m : ℕ) (ms : List ℕ) (c d : Conn) → choose_method m ms c ≡ (ok tt, d) → d.input ≡ c.input
unfolding choose_method write_all
choose_method-inv m ms c d h = elim (Bool-cases (any (λ x. x == m) ms)) [
  | inl e ↦ cc (rw (e, choose_method) at h)
  | inr e ↦ cc (rw (e, choose_method) at h)
]

-- The greeting takes bytes off the front.
greeting-inv :
    (accounts : List SocksAccount) (c d : Conn)
    → greeting accounts c ≡ (ok tt, d)
    → (front : List ℕ) × (c.input ≡ front ++ d.input)
unfolding greeting offer
greeting-inv accounts c d h = >>=-elim read_u8 _ c h λ ver c1 e1 h1.
    elim (Bool-cases (ver == version5)) [
      | inr v ↦ cc (rw v at h1)
      | inl v ↦ >>=-elim read_u8 _ c1 (rw v at h1) λ n c2 e2 h2.
          >>=-elim (read_exact n) _ c2 h2 λ ms c3 e3 h3. (
            ver ∷ n ∷ ms,
            cc (
              read_u8-inv c c1 e1,
              read_u8-inv c1 c2 e2,
              (read_exact-inv n c2 c3 e3).0,
              choose_method-inv (expected_method accounts) ms c3 d h3,
            ),
          )
    ]

-- With accounts set, whoever comes through the handshake sent the user and the password of one.
pub handshake_authenticated :
    (accounts : List SocksAccount) (c d : Conn) (r : ℕ × (Address × ℕ))
    → accounts ≢ []
    → handshake accounts c ≡ (ok r, d)
    → HasLogin accounts c.input
unfolding handshake
handshake_authenticated [] c d r ne h = absurd (ne refl)
handshake_authenticated (a ∷ accounts) c d r ne h =
    >>=-elim (greeting (a ∷ accounts)) _ c h λ _ c1 e1 h1.
      >>=-elim (login (a ∷ accounts)) _ c1 h1 λ _ c2 e2 h2.
        let (front, e) = greeting-inv (a ∷ accounts) c c1 e1 in
        rw e (HasLogin-behind (a ∷ accounts) front c1.input (login-inv (a ∷ accounts) c1 c2 e2))
