-- ===== src/Kernel/Uuid/Derived.antt =====
-- kernel/src/uuid.rs: the UUID of a short name.
use xray_rs.Base.{
  ℕ, zero, suc, ◌<◌, ◌≤◌, ◌≡◌, ◌≢◌, refl, ap, ◌∙◌, true, false, ◌||◌, some, List, [], ◌∷◌, ◌++◌,
  ltb, ◌==◌, length, take, replicate, get_elem?, length-take, All-take, IsByte, IsBytes, arith,
}
use xray_rs.Base.Text.{between}
use xray_rs.Base.Below.{all_below, all_below_lem}
use xray_rs.Base.Result.{ok}
use xray_rs.Kernel.Uuid.{update, version, variant, marked, derive, parse_str}

length-update : (i : ℕ) (f : ℕ → ℕ) (bs : List ℕ) → length (update i f bs) ≡ length bs
unfolding update
length-update i f [] = refl
length-update zero f (b ∷ bs) = refl
length-update (suc i) f (b ∷ bs) = ap suc (length-update i f bs)

get_elem?-update :
    (i : ℕ) (f : ℕ → ℕ) (bs : List ℕ) (b : ℕ)
    → get_elem? bs i ≡ some b
    → get_elem? (update i f bs) i ≡ some (f b)
unfolding update
get_elem?-update i f [] b h = absurd (cc h)
get_elem?-update zero f (c ∷ bs) b h = let same : c ≡ b = cc in ap (λ t. some (f t)) same
get_elem?-update (suc i) f (c ∷ bs) b h = get_elem?-update i f bs b h

get_elem?-update_ne :
    (i j : ℕ) (f : ℕ → ℕ) (bs : List ℕ) → j ≢ i → get_elem? (update i f bs) j ≡ get_elem? bs j
unfolding update
get_elem?-update_ne i j f [] ne = refl
get_elem?-update_ne zero zero f (c ∷ bs) ne = absurd (ne refl)
get_elem?-update_ne zero (suc j) f (c ∷ bs) ne = refl
get_elem?-update_ne (suc i) zero f (c ∷ bs) ne = refl
get_elem?-update_ne (suc i) (suc j) f (c ∷ bs) ne =
    get_elem?-update_ne i j f bs (λ e. ne (ap suc e))

byte_at :
    (i : ℕ) (bs : List ℕ)
    → i < length bs
    → IsBytes bs
    → (b : ℕ) × (get_elem? bs i ≡ some b) × (b < 256)
byte_at i [] lt h = absurd (omega arith)
byte_at zero (b ∷ bs) lt (p, h) = (b, refl, p)
byte_at (suc i) (b ∷ bs) lt (p, h) = byte_at i bs (omega arith) h

version_table : all_below (λ b. between 0x50 0x5f (version b)) 256 ≡ true
unfolding all_below version
version_table = refl

variant_table : all_below (λ b. between 0x80 0xbf (variant b)) 256 ≡ true
unfolding all_below variant
variant_table = refl

-- The 16 bytes are those of `bs` but for the version 5 in byte 6 and the variant in byte 8.
pub record IsMarked (bs u : List ℕ) : Type 0 where
  pub size : length u ≡ 16
  pub version5 : (b : ℕ) × (get_elem? u 6 ≡ some b) × (between 0x50 0x5f b ≡ true)
  pub variant1 : (b : ℕ) × (get_elem? u 8 ≡ some b) × (between 0x80 0xbf b ≡ true)
  pub others : (i : ℕ) → i ≢ 6 → i ≢ 8 → get_elem? u i ≡ get_elem? bs i

marked-IsMarked : (bs : List ℕ) → length bs ≡ 16 → IsBytes bs → IsMarked bs (marked bs)
unfolding marked
marked-IsMarked bs n h =
    let (b, g, p) = byte_at 6 bs (omega arith) h in
    let (c, k, q) = byte_at 8 bs (omega arith) h in
    let inner = update 6 version bs in
    record {
      size = length-update 8 variant inner ∙ length-update 6 version bs ∙ n;
      version5 = (
        version b,
        get_elem?-update_ne 8 6 variant inner (λ e. absurd (omega (arith, e)))
            ∙ get_elem?-update 6 version bs b g,
        all_below_lem _ 256 b version_table p,
      );
      variant1 = (
        variant c,
        get_elem?-update 8 variant inner c
            (get_elem?-update_ne 6 8 version bs (λ e. absurd (omega (arith, e))) ∙ k),
        all_below_lem _ 256 c variant_table q,
      );
      others = λ i ne6 ne8.
          get_elem?-update_ne 8 i variant inner ne8 ∙ get_elem?-update_ne 6 i version bs ne6;
    }

-- A name of 1 to 30 bytes becomes the first 16 bytes of its digest behind 16 zero bytes, but for the
-- version 5 in byte 6 and the variant in byte 8. Every digest has 20 bytes.
pub parse_str-IsMarked :
    (sha1 : List ℕ → List ℕ) (name : List ℕ)
    → ((t : List ℕ) → (length (sha1 t) ≡ 20) × IsBytes (sha1 t))
    → 0 < length name
    → length name ≤ 30
    → (u : List ℕ) × (parse_str sha1 name ≡ ok u)
      × IsMarked (take 16 (sha1 (replicate 16 0 ++ name))) u
unfolding parse_str derive
parse_str-IsMarked sha1 name digest low high =
    let short : between 32 36 (length name) ≡ false = ground (arith, low, high) in
    let fits : (length name == 0 || ltb 30 (length name)) ≡ false = ground (arith, low, high) in
    let (l, h) = digest (replicate 16 0 ++ name) in
    let long : ltb (length (sha1 (replicate 16 0 ++ name))) 16 ≡ false = ground (arith, l) in
    let front = take 16 (sha1 (replicate 16 0 ++ name)) in
    (
      marked front,
      rw (short, fits, long, derive) refl,
      marked-IsMarked front (length-take 16 _ (omega (arith, l))) (All-take IsByte 16 _ h),
    )
