-- ===== src/Saas/Egress/Tags.antt =====
-- saas/src/egress_compile.rs: the tags of the routes are all different.
use xray_rs.Base.{
  ℕ, zero, suc, ◌+◌, ◌-◌, ◌*◌, ◌/◌, ◌%◌, ◌≤◌, ◌≡◌, refl, ap, sym, ◌∙◌, Bool-cases, inl, inr, List,
  [], ◌∷◌, ◌++◌, ltb, length, replicate, arith,
}
use xray_rs.Base.Text.{bytes}
use xray_rs.Saas.Egress.{decimal, index_tag}

-- The number that digits spell behind those that spelled `value`.
abbrev pub spelled : ℕ → List ℕ → ℕ
spelled value [] = value
spelled value (c ∷ s) = spelled (value * 10 + (c - b'0')) s

spelled-append : (value : ℕ) (s t : List ℕ) → spelled value (s ++ t) ≡ spelled (spelled value s) t
spelled-append value [] t = refl
spelled-append value (c ∷ s) t = spelled-append (value * 10 + (c - b'0')) s t

spelled-decimal : (fuel n : ℕ) → n ≤ fuel → spelled 0 (decimal fuel n) ≡ n
unfolding decimal
spelled-decimal zero n h = omega (arith, h)
spelled-decimal (suc fuel) n h = elim (Bool-cases (ltb n 10)) [
  | inl e ↦ rw (e, decimal) (omega arith)
  | inr e ↦
      let big : 10 ≤ n = ground arith in
      let front = spelled-decimal fuel (n / 10) (omega (arith, h, big)) in
      rw (e, decimal, spelled-append 0 (decimal fuel (n / 10)) ((b'0' + n % 10) ∷ []), front)
        (omega arith)
]

spelled-zeros : (k : ℕ) (s : List ℕ) → spelled 0 (replicate k b'0' ++ s) ≡ spelled 0 s
spelled-zeros zero s = refl
spelled-zeros (suc k) s = spelled-zeros k s

-- The number in a tag is that of its route.
pub spelled-index_tag :
    (idx : ℕ) → (s : List ℕ) × (index_tag idx ≡ bytes "route-" ++ s) × (spelled 0 s ≡ idx)
unfolding index_tag
spelled-index_tag idx =
    let digits = decimal idx idx in
    (
      replicate (3 - length digits) b'0' ++ digits,
      refl,
      spelled-zeros (3 - length digits) digits ∙ spelled-decimal idx idx (omega arith),
    )

abbrev after_six : List ℕ → List ℕ
after_six (_ ∷ _ ∷ _ ∷ _ ∷ _ ∷ _ ∷ s) = s
after_six s = s

-- Two routes with one tag are one route.
pub index_tag-inj : (i j : ℕ) → index_tag i ≡ index_tag j → i ≡ j
index_tag-inj i j h =
    let (s, a, p) = spelled-index_tag i in
    let (t, b, q) = spelled-index_tag j in
    let same : s ≡ t = ap after_six (sym a ∙ h ∙ b) in sym p ∙ ap (spelled 0) same ∙ q
