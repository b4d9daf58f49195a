-- ===== src/Kernel/Uuid/Text.antt =====
-- kernel/src/uuid.rs: the text of a UUID, printed and read back.
use xray_rs.Base.{
  length-cut, take-drop, ℕ, ◌+◌, ◌*◌, ◌<◌, ◌≤◌, ◌≡◌, refl, sym, ap, ◌∙◌, Bool, true, false, List,
  [], ◌∷◌, ◌++◌, length, append-nil, take, drop, take-append-drop, take-length, length-drop,
  All-take, All-drop, IsByte, IsBytes, arith,
}
use xray_rs.Base.Text.{between}
use xray_rs.Base.Result.{ok}
use xray_rs.Kernel.Uuid.{groups, parse_str, hex_text, display}
use xray_rs.Kernel.Uuid.Groups.{
  AreGroups, IsGroup, all_bytes, bit, bit-IsSmall, count, dashed, length-text, parse_groups-text,
  text,
}

-- Whether a dash stands before each group but the first.
abbrev pub Dashes : Type 0
Dashes = Bool × Bool × Bool × Bool

-- The bytes of a UUID in their groups.
pub split : Dashes → List ℕ → List (Bool × List ℕ)
split (b, c, d, e) u =
    (false, take 4 u)
    ∷ (b, take 2 (drop 4 u))
    ∷ (c, take 2 (drop 6 u))
    ∷ (d, take 2 (drop 8 u))
    ∷ (e, take 6 (drop 10 u))
    ∷ []

cut-IsGroup :
    (g n m : ℕ) (d : Bool) (u : List ℕ)
    → 0 < m
    → g ≡ 2 * m
    → n + m ≤ length u
    → IsBytes u
    → IsGroup g (d, take m (drop n u))
unfolding IsGroup
cut-IsGroup g n m d u some_byte q fits h =
    let l = length-cut n m u fits in
    (
      omega (arith, l, some_byte),
      omega (arith, l, q),
      All-take IsByte m (drop n u) (All-drop IsByte n u h),
    )

split-AreGroups :
    (d : Dashes) (u : List ℕ) → length u ≡ 16 → IsBytes u → AreGroups groups (split d u)
unfolding AreGroups split
split-AreGroups (b, c, d, e) u n h = (
  cut-IsGroup 8 0 4 false u (omega arith) refl (omega arith) h,
  (
    cut-IsGroup 4 4 2 b u (omega arith) refl (omega arith) h,
    (
      cut-IsGroup 4 6 2 c u (omega arith) refl (omega arith) h,
      (
        cut-IsGroup 4 8 2 d u (omega arith) refl (omega arith) h,
        (cut-IsGroup 12 10 6 e u (omega arith) refl (omega arith) h, tt),
      ),
    ),
  ),
)

last_cut : (u : List ℕ) → length u ≡ 16 → take 6 (drop 10 u) ≡ drop 10 u
last_cut u n =
    let l : length (drop 10 u) ≡ 6 = omega (arith, length-drop 10 u, n) in
    ap (λ k. take k (drop 10 u)) (sym l) ∙ take-length (drop 10 u)

all_bytes-split : (d : Dashes) (u : List ℕ) → length u ≡ 16 → all_bytes (split d u) ≡ u
unfolding all_bytes split
all_bytes-split (b, c, d, e) u n =
    ap (λ t. take 4 u ++ (take 2 (drop 4 u) ++ (take 2 (drop 6 u) ++ (take 2 (drop 8 u) ++ t))))
      (append-nil (take 6 (drop 10 u)) ∙ last_cut u n)
    ∙ ap (λ t. take 4 u ++ (take 2 (drop 4 u) ++ (take 2 (drop 6 u) ++ t))) (take-drop 8 2 u)
    ∙ ap (λ t. take 4 u ++ (take 2 (drop 4 u) ++ t)) (take-drop 6 2 u)
    ∙ ap (λ t. take 4 u ++ t) (take-drop 4 2 u)
    ∙ take-append-drop 4 u

-- The text of a UUID with or without each of its dashes.
unfoldable pub print : Dashes → List ℕ → List ℕ
print d u = text (split d u)

count-split : (d : Dashes) (u : List ℕ) → count (split d u) ≤ 4
unfolding count split
count-split (b, c, d, e) u =
    unfold bit in omega (arith, bit-IsSmall b, bit-IsSmall c, bit-IsSmall d, bit-IsSmall e)

print-IsLong : (d : Dashes) (u : List ℕ) → length u ≡ 16 → between 32 36 (length (print d u)) ≡ true
unfolding print
print-IsLong d u n =
    let m : length (all_bytes (split d u)) ≡ 16 = ap length (all_bytes-split d u n) ∙ n in
    let l = length-text (split d u) in
    let c = count-split d u in
    let low : 32 ≤ length (text (split d u)) = omega arith in
    let high : length (text (split d u)) ≤ 36 = omega arith in ground arith

parse_str-print :
    (sha1 : List ℕ → List ℕ) (d : Dashes) (u : List ℕ)
    → length u ≡ 16
    → IsBytes u
    → parse_str sha1 (print d u) ≡ ok u
unfolding parse_str print
parse_str-print sha1 d u n h =
    rw
      (
        print-IsLong d u n,
        parse_groups-text groups (split d u) (split-AreGroups d u n h),
        all_bytes-split d u n,
      )
      refl

-- What `Display` prints has all four dashes.
display-print : (u : List ℕ) → length u ≡ 16 → display u ≡ print (true, true, true, true) u
unfolding display text split dashed print
display-print u n = rw (append-nil (hex_text (take 6 (drop 10 u))), last_cut u n) refl

-- A UUID is read back from what `Display` prints, and from its 32 digits with or without each of the
-- four dashes.
pub parse_str-display :
    (sha1 : List ℕ → List ℕ) (d : Dashes) (u : List ℕ)
    → length u ≡ 16
    → IsBytes u
    → (parse_str sha1 (display u) ≡ ok u) × (parse_str sha1 (print d u) ≡ ok u)
parse_str-display sha1 d u n h = (
  rw (display-print u n) (parse_str-print sha1 (true, true, true, true) u n h),
  parse_str-print sha1 d u n h,
)
