-- ===== src/Kernel/Route/Condition/Domain.antt =====
-- kernel/src/route/rule.rs, `domain_suffix_match`: a suffix of whole labels.
use xray_rs.Base.{
  ℕ, zero, suc, ◌-◌, ◌≡◌, refl, sym, ap, ◌∙◌, ◌↔◌, ◌⊎◌, arith, true, some, List, ◌∷◌, [], ◌++◌,
  ==_iff, ltb, inl, inr, Bool-cases, length, length-append, drop, get_elem?, eq_bytes_iff,
}
use xray_rs.Base.Text.{to_ascii_lowercase, lower, eq_ignore_ascii_case}
use xray_rs.Kernel.Route.Condition.{starts_char, is_dot, dot_suffix, domain_suffix_match}

eq_ignore_ascii_case_iff :
    (a b : List ℕ)
    → (eq_ignore_ascii_case a b ≡ true) ↔ (to_ascii_lowercase a ≡ to_ascii_lowercase b)
unfolding eq_ignore_ascii_case
eq_ignore_ascii_case_iff a b = eq_bytes_iff (to_ascii_lowercase a) (to_ascii_lowercase b)

-- A domain that stands behind a dot in another one, up to the case of letters.
abbrev pub IsSubdomain : (d suffix : List ℕ) → Type 0
IsSubdomain d suffix =
    (front tail : List ℕ) × (d ≡ front ++ (b'.' ∷ tail))
    × (to_ascii_lowercase tail ≡ to_ascii_lowercase suffix)

length-lowercase : (s : List ℕ) → length (to_ascii_lowercase s) ≡ length s
unfolding to_ascii_lowercase
length-lowercase [] = refl
length-lowercase (c ∷ s) = ap suc (length-lowercase s)

same_length : (a b : List ℕ) → to_ascii_lowercase a ≡ to_ascii_lowercase b → length a ≡ length b
same_length a b h = sym (length-lowercase a) ∙ ap length h ∙ length-lowercase b

-- A text begins with a character if a text that differs in case only does.
starts_char-lowercase :
    (a b : List ℕ)
    → to_ascii_lowercase a ≡ to_ascii_lowercase b
    → starts_char b ≡ true
    → starts_char a ≡ true
unfolding to_ascii_lowercase lower
starts_char-lowercase [] b e h = refl
starts_char-lowercase (c ∷ a) [] e h = cc
starts_char-lowercase (c ∷ a) (d ∷ b) e h = ground arith

-- A dot stands before the last `length tail` bytes.
split_at_dot :
    (d : List ℕ) (j : ℕ)
    → is_dot (get_elem? d j) ≡ true
    → (front : List ℕ) × (d ≡ front ++ (b'.' ∷ drop (suc j) d))
split_at_dot [] j h = cc
split_at_dot (c ∷ d) zero h = ([], ap (λ x. x ∷ d) (ground (arith, ==_iff c b'.')))
split_at_dot (c ∷ d) (suc j) h =
    let (front, q) = split_at_dot d j h in (c ∷ front, ap (λ t. c ∷ t) q)

drop-front :
    (front tail : List ℕ)
    → (drop (suc (length front)) (front ++ (b'.' ∷ tail)) ≡ tail)
      × (get_elem? (front ++ (b'.' ∷ tail)) (length front) ≡ some b'.')
drop-front [] tail = (refl, refl)
drop-front (c ∷ front) tail = drop-front front tail

dot_suffix-IsSubdomain : (d suffix : List ℕ) → dot_suffix d suffix ≡ true → IsSubdomain d suffix
unfolding dot_suffix
dot_suffix-IsSubdomain d suffix h =
    let j = length d - length suffix - 1 in
    let i : length d - length suffix ≡ suc j = ground arith in
    let (front, e) = split_at_dot d j (ground arith) in
    let tail_match : eq_ignore_ascii_case (drop (length d - length suffix) d) suffix ≡ true =
      ground arith in
    (
      front,
      drop (suc j) d,
      e,
      (eq_ignore_ascii_case_iff (drop (suc j) d) suffix).0 (rw i at tail_match),
    )

subdomain-dot_suffix :
    (d suffix front tail : List ℕ)
    → d ≡ front ++ (b'.' ∷ tail)
    → to_ascii_lowercase tail ≡ to_ascii_lowercase suffix
    → starts_char suffix ≡ true
    → dot_suffix d suffix ≡ true
unfolding dot_suffix
subdomain-dot_suffix d suffix front tail e h k =
    let i : length d - length suffix ≡ suc (length front) =
      omega (arith, same_length tail suffix h, ap length e, length-append front (b'.' ∷ tail)) in
    let lt : ltb (length suffix) (length d) ≡ true =
      ground (arith, same_length tail suffix h, ap length e, length-append front (b'.' ∷ tail)) in
    let j : suc (length front) - 1 ≡ length front = omega arith in
    rw
      (
        lt,
        i,
        j,
        e,
        (drop-front front tail).0,
        (drop-front front tail).1,
        starts_char-lowercase tail suffix h k,
      )
      ((eq_ignore_ascii_case_iff tail suffix).1 h)

-- A domain matches a suffix exactly if it is that suffix, or ends with it behind a dot, up to the
-- case of letters.
pub domain_suffix_match_iff :
    (d suffix : List ℕ)
    → starts_char suffix ≡ true
    → (domain_suffix_match d suffix ≡ true)
      ↔ ((to_ascii_lowercase d ≡ to_ascii_lowercase suffix) ⊎ IsSubdomain d suffix)
unfolding domain_suffix_match
domain_suffix_match_iff d suffix h = elim (Bool-cases (eq_ignore_ascii_case d suffix)) [
  | inl same ↦
      rw (same, domain_suffix_match)
        ((λ _. inl ((eq_ignore_ascii_case_iff d suffix).0 same)), (λ _. refl))
  | inr other ↦
      rw (other, domain_suffix_match)
        (
          (λ e. inr (dot_suffix-IsSubdomain d suffix e)),
          (λ s. elim s [
            | inl same ↦ cc ((eq_ignore_ascii_case_iff d suffix).1 same)
            | inr (front, tail, e, k) ↦ subdomain-dot_suffix d suffix front tail e k h
          ]),
        )
]
