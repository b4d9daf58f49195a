-- ===== src/Kernel/Stats/Active.antt =====
-- kernel/src/stats.rs: a report misses no counter.
use xray_rs.Base.{
  ℕ, zero, suc, ◌≡◌, ◌≢◌, refl, sym, ap, ◌∙◌, ◌⊎◌, inl, inr, Bool, true, false, ◌||◌, some, List,
  [], ◌∷◌, ◌++◌, append-nil, ltb, ◌==◌, get_elem?, set, any, eq_bytes, eq_bytes_iff, arith,
  Bool-cases, Option-cases,
}
use mathlib.Core.Path.{subst}
use xray_rs.Base.Eq.{bytes_eq}
use xray_rs.Base.Dict.{lookup}
use xray_rs.Kernel.Stats.{
  Counter, Stats, insert_tag, mark_active, mark_if, put, touch, count_up, count_down,
}

-- The tag is in the set.
abbrev pub IsActive : List ℕ → List (List ℕ) → Type 0
IsActive tag set = any (eq_bytes tag) set ≡ true

-- A counter with traffic that no report has taken is dirty.
abbrev pub IsMarked : Counter → Type 0
IsMarked c = (c.dirty ≡ 0) → (c.up ≡ 0) × (c.down ≡ 0)

-- Every counter is known, and queued if there is something to take.
pub record IsQueued (queue : List (List ℕ)) (s : Stats) : Type 0 where
  -- The registry knows a counter by its own tag.
  pub known :
      (tag : List ℕ) (id : ℕ)
      → lookup tag s.users ≡ some id
      → (c : Counter) × (get_elem? s.counters id ≡ some c) × (c.tag ≡ tag)
  pub marked : (id : ℕ) (c : Counter) → get_elem? s.counters id ≡ some c → IsMarked c
  -- A registered counter that is dirty is in the queue.
  pub queued :
      (tag : List ℕ) (id : ℕ) (c : Counter)
      → lookup tag s.users ≡ some id
      → get_elem? s.counters id ≡ some c
      → c.dirty ≢ 0
      → IsActive tag queue

-- The queue is the set of active tags.
abbrev pub IsValid : Stats → Type 0
IsValid s = IsQueued s.active s

pub get_elem?-set :
    {A : Type 0} (xs : List A) (i j : ℕ) (a : A) {b : A}
    → get_elem? (set xs i a) j ≡ some b
    → ((j ≡ i) × (b ≡ a)) ⊎ ((j ≢ i) × (get_elem? xs j ≡ some b))
get_elem?-set [] i j a h = cc
get_elem?-set (x ∷ xs) zero zero a h = inl (refl, cc)
get_elem?-set (x ∷ xs) zero (suc j) a h = inr ((λ e. absurd (omega arith)), h)
get_elem?-set (x ∷ xs) (suc i) zero a h = inr ((λ e. absurd (omega arith)), h)
get_elem?-set (x ∷ xs) (suc i) (suc j) a h = elim (get_elem?-set xs i j a h) [
  | inl (e, k) ↦ inl (ap suc e, k)
  | inr (ne, k) ↦ inr ((λ e. ne (omega arith)), k)
]

pub get_elem?-set_self :
    {A : Type 0} (xs : List A) (i : ℕ) (a : A) {b : A}
    → get_elem? xs i ≡ some b
    → get_elem? (set xs i a) i ≡ some a
get_elem?-set_self [] i a h = cc
get_elem?-set_self (x ∷ xs) zero a h = refl
get_elem?-set_self (x ∷ xs) (suc i) a h = get_elem?-set_self xs i a h

pub get_elem?-set_ne :
    {A : Type 0} (xs : List A) (i j : ℕ) (a : A) → j ≢ i → get_elem? (set xs i a) j ≡ get_elem? xs j
get_elem?-set_ne [] i j a ne = refl
get_elem?-set_ne (x ∷ xs) zero zero a ne = absurd (ne refl)
get_elem?-set_ne (x ∷ xs) zero (suc j) a ne = refl
get_elem?-set_ne (x ∷ xs) (suc i) zero a ne = refl
get_elem?-set_ne (x ∷ xs) (suc i) (suc j) a ne = get_elem?-set_ne xs i j a (λ e. ne (ap suc e))

any-insert_tag_self : (tag : List ℕ) (set : List (List ℕ)) → IsActive tag (insert_tag tag set)
unfolding insert_tag
any-insert_tag_self tag set = ground (arith, eq_bytes_iff tag tag)

any-insert_tag :
    (tag t : List ℕ) (set : List (List ℕ)) → IsActive t set → IsActive t (insert_tag tag set)
unfolding insert_tag
any-insert_tag tag t set h = ground arith

-- What the mark does: the counter keeps its tag and its numbers, the set only grows, and a counter
-- that is dirty afterwards was dirty before or is in the set.
record IsMark (traffic : Bool) (c : Counter) (active : List (List ℕ)) (r : Counter × List (List ℕ))
    : Type 0 where
  same_tag : r.0.tag ≡ c.tag
  same_up : r.0.up ≡ c.up
  same_down : r.0.down ≡ c.down
  grows : (t : List ℕ) → IsActive t active → IsActive t r.1
  dirty_or_in : r.0.dirty ≢ 0 → (c.dirty ≢ 0) ⊎ IsActive c.tag r.1
  clean : r.0.dirty ≡ 0 → (traffic ≡ false) × (c.dirty ≡ 0)

mark_if-IsMark :
    (traffic : Bool) (c : Counter) (active : List (List ℕ))
    → IsMark traffic c active (mark_if traffic c active)
unfolding mark_if mark_active
mark_if-IsMark false c active = record {
  same_tag = refl;
  same_up = refl;
  same_down = refl;
  grows = λ t h. h;
  dirty_or_in = inl;
  clean = λ h. (refl, h);
}
mark_if-IsMark true c active = elim (Bool-cases (c.dirty == 0)) [
  | inl e ↦
      rw (e, mark_active)
        (record {
          same_tag = refl;
          same_up = refl;
          same_down = refl;
          grows = λ t h. any-insert_tag c.tag t active h;
          dirty_or_in = λ _. inr (any-insert_tag_self c.tag active);
          clean = λ h. absurd (omega arith);
        })
  | inr e ↦
      rw (e, mark_active)
        (record {
          same_tag = refl;
          same_up = refl;
          same_down = refl;
          grows = λ t h. h;
          dirty_or_in = inl;
          clean = λ h. ground arith;
        })
]

-- A change of numbers that only traffic makes from nothing.
pub record IsCount (traffic : Bool) (f : Counter → Counter) : Type 0 where
  same_tag : (c : Counter) → (f c).tag ≡ c.tag
  same_dirty : (c : Counter) → (f c).dirty ≡ c.dirty
  none_stays :
      traffic ≡ false → (c : Counter) → c.up ≡ 0 → c.down ≡ 0 → ((f c).up ≡ 0) × ((f c).down ≡ 0)

-- A queue with more behind it.
any-append :
    (t : List ℕ) (xs ys : List (List ℕ)) → IsActive t (xs ++ ys) → IsActive t xs ⊎ IsActive t ys
any-append t [] ys h = inr h
any-append t (x ∷ xs) ys h = elim (Bool-cases (eq_bytes t x)) [
  | inl e ↦ inl (rw e refl)
  | inr e ↦ elim (any-append t xs ys (rw e at h)) [ inl k ↦ inl (rw e k) | inr k ↦ inr k ]
]

any-append_back : (t : List ℕ) (xs ys : List (List ℕ)) → IsActive t ys → IsActive t (xs ++ ys)
any-append_back t [] ys h = h
any-append_back t (x ∷ xs) ys h = ground (arith, any-append_back t xs ys h)

any-append_front : (t : List ℕ) (xs ys : List (List ℕ)) → IsActive t xs → IsActive t (xs ++ ys)
any-append_front t [] ys h = absurd (cc h)
any-append_front t (x ∷ xs) ys h = elim (Bool-cases (eq_bytes t x)) [
  | inl e ↦ rw e refl
  | inr e ↦ rw e (any-append_front t xs ys (rw e at h))
]

grow_front :
    (t : List ℕ) (xs ys extra : List (List ℕ))
    → (IsActive t xs → IsActive t ys)
    → IsActive t (xs ++ extra)
    → IsActive t (ys ++ extra)
grow_front t xs ys extra g h = elim (any-append t xs extra h) [
  | inl k ↦ any-append_front t ys extra (g k)
  | inr k ↦ any-append_back t ys extra k
]

pub touch-IsQueued :
    (extra : List (List ℕ)) (id : ℕ) (traffic : Bool) (f : Counter → Counter) (s : Stats)
    → IsCount traffic f
    → IsQueued (s.active ++ extra) s
    → IsQueued ((touch id traffic f s).active ++ extra) (touch id traffic f s)
unfolding touch
touch-IsQueued extra id traffic f s k v = elim (Option-cases (get_elem? s.counters id)) [
  | inl e ↦ rw (e, touch) v
  | inr (c, e) ↦
      rw (e, touch) (by_mark c e (mark_if traffic c s.active) (mark_if-IsMark traffic c s.active))
]
  where
    by_mark :
        (c : Counter)
        → get_elem? s.counters id ≡ some c
        → (r : Counter × List (List ℕ)) → IsMark traffic c s.active r
        → IsQueued (r.1 ++ extra) (put id (f r.0, r.1) s)
    by_mark c e r m = record {
      known = λ tag i h.
          let (c0, g, t) = v.known tag i h in
          elim (Bool-cases (i == id)) [
            | inl same ↦
                let q : i ≡ id = ground arith in
                let w : c0 ≡ c = cc in
                (
                  f r.0,
                  rw q (get_elem?-set_self s.counters id (f r.0) e),
                  k.same_tag r.0 ∙ m.same_tag ∙ rw (← w) t,
                )
            | inr other ↦ (c0, get_elem?-set_ne s.counters id i (f r.0) (ground arith) ∙ g, t)
          ];
      marked = λ i d h z. elim (get_elem?-set s.counters id i (f r.0) h) [
        | inr (ne, g) ↦ v.marked i d g z
        | inl (_, w) ↦
            let (t, cz) = m.clean (sym (k.same_dirty r.0) ∙ rw (← w) z) in
            let (up, down) = v.marked id c e cz in
            rw w (k.none_stays t r.0 (m.same_up ∙ up) (m.same_down ∙ down))
      ];
      queued = λ tag i d h g ne. elim (get_elem?-set s.counters id i (f r.0) g) [
        | inr (_, g') ↦ grow_front tag s.active r.1 extra (m.grows tag) (v.queued tag i d h g' ne)
        | inl (q, w) ↦ elim (m.dirty_or_in (λ z. ne (rw w (k.same_dirty r.0 ∙ z)))) [
          | inl dirty ↦
              grow_front tag s.active r.1 extra (m.grows tag) (v.queued tag i c h (rw q e) dirty)
          | inr here ↦
              let (c0, g0, t) = v.known tag i h in
              let same : c0 ≡ c = cc in
              let tags : c.tag ≡ tag = rw (← same) t in
              any-append_front tag r.1 extra (rw (← tags) here)
        ]
      ];
    }

pub touch-IsValid :
    (id : ℕ) (traffic : Bool) (f : Counter → Counter) (s : Stats)
    → IsCount traffic f
    → IsValid s
    → IsValid (touch id traffic f s)
touch-IsValid id traffic f s k v =
    let v' : IsQueued (s.active ++ []) s =
      subst (λ q. IsQueued q s) (sym (append-nil s.active)) v in
    let r = touch-IsQueued [] id traffic f s k v' in
    subst (λ q. IsQueued q (touch id traffic f s)) (append-nil (touch id traffic f s).active) r

-- What a touch leaves of another counter, and what it makes of its own.
pub touch-other :
    (id i : ℕ) (traffic : Bool) (f : Counter → Counter) (s : Stats)
    → i ≢ id
    → get_elem? (touch id traffic f s).counters i ≡ get_elem? s.counters i
unfolding touch
touch-other id i traffic f s ne = elim (Option-cases (get_elem? s.counters id)) [
  | inl e ↦ rw (e, touch) refl
  | inr (c, e) ↦
      rw (e, touch) (get_elem?-set_ne s.counters id i (f (mark_if traffic c s.active).0) ne)
]

pub touch_self :
    (id : ℕ) (traffic : Bool) (f : Counter → Counter) (s : Stats) (c : Counter)
    → get_elem? s.counters id ≡ some c
    → (d : Counter) × (d.up ≡ c.up)
      × (d.down ≡ c.down)
      × (get_elem? (touch id traffic f s).counters id ≡ some (f d))
unfolding touch
touch_self id traffic f s c e =
    let d = (mark_if traffic c s.active).0 in
    let m = mark_if-IsMark traffic c s.active in
    (d, m.same_up, m.same_down, rw (e, touch) (get_elem?-set_self s.counters id (f d) e))

pub touch-users :
    (id : ℕ) (traffic : Bool) (f : Counter → Counter) (s : Stats)
    → (touch id traffic f s).users ≡ s.users
unfolding touch
touch-users id traffic f s = elim (Option-cases (get_elem? s.counters id)) [
  | inl e ↦ rw (e, touch) refl
  | inr (c, e) ↦ rw (e, touch) refl
]

pub count_up-IsCount : (n : ℕ) → IsCount (ltb 0 n) (count_up n)
unfolding count_up
count_up-IsCount n = record {
  same_tag = λ c. refl;
  same_dirty = λ c. refl;
  none_stays = λ e c u d. (ground arith, d);
}

pub count_down-IsCount : (n : ℕ) → IsCount (ltb 0 n) (count_down n)
unfolding count_down
count_down-IsCount n = record {
  same_tag = λ c. refl;
  same_dirty = λ c. refl;
  none_stays = λ e c u d. (u, ground arith);
}

pub restore-IsCount :
    (up down : ℕ) → IsCount (ltb 0 up || ltb 0 down) (λ c. count_down down (count_up up c))
unfolding count_up count_down
restore-IsCount up down = record {
  same_tag = λ c. refl;
  same_dirty = λ c. refl;
  none_stays = λ e c u d. (ground arith, ground arith);
}
