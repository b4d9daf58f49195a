-- ===== src/Kernel/Stats/Steps.antt =====
-- kernel/src/stats.rs: taking a counter, opening one and removing a user keep the registry valid.
use xray_rs.Base.{
  ℕ, zero, suc, ◌≡◌, ◌≢◌, refl, sym, ap, ◌∙◌, ◌⊎◌, inl, inr, none, some, List, [], ◌∷◌, ◌++◌, ◌==◌,
  length, get_elem?, eq_bytes, eq_bytes_iff, arith, Bool-cases, Option-cases,
}
use xray_rs.Base.Eq.{bytes_eq}
use xray_rs.Base.Dict.{lookup, insert, remove, lookup-insert, lookup-remove}
use xray_rs.Kernel.Stats.{
  Counter, Stats, remove_tag, put, take, fresh_counter, counter, remove_user,
}
use xray_rs.Kernel.Stats.Active.{
  IsActive, IsQueued, IsValid, get_elem?-set, get_elem?-set_self, get_elem?-set_ne,
}

-- A counter without traffic, its mark cleared.
abbrev pub cleared : Counter → Counter
cleared c = record c { up = 0; down = 0; dirty = 0 }

-- What taking a counter changes: only this one, which is cleared.
pub take-state :
    (id : ℕ) (s : Stats) (c : Counter)
    → get_elem? s.counters id ≡ some c
    → take id s ≡ ((c.up, c.down), put id (cleared c, s.active) s)
unfolding take
take-state id s c e = rw (e, take) refl

pub take-none : (id : ℕ) (s : Stats) → get_elem? s.counters id ≡ none → take id s ≡ ((0, 0), s)
unfolding take
take-none id s e = rw (e, take) refl

pub take-IsQueued :
    (queue : List (List ℕ)) (id : ℕ) (s : Stats) → IsQueued queue s → IsQueued queue (take id s).1
take-IsQueued queue id s v = elim (Option-cases (get_elem? s.counters id)) [
  | inl e ↦ rw (take-none id s e) v
  | inr (c, e) ↦ rw (take-state id s c e) (by_clear c e)
]
  where
    by_clear :
        (c : Counter)
        → get_elem? s.counters id ≡ some c
        → IsQueued queue (put id (cleared c, s.active) s)
    by_clear c e = record {
      known = λ tag i h.
          let (c0, g, t) = v.known tag i h in
          elim (Bool-cases (i == id)) [
            | inl same ↦
                let q : i ≡ id = ground arith in
                let w : c0 ≡ c = cc in
                (cleared c, rw q (get_elem?-set_self s.counters id (cleared c) e), rw (← w) t)
            | inr other ↦ (c0, get_elem?-set_ne s.counters id i (cleared c) (ground arith) ∙ g, t)
          ];
      marked = λ i d h z. elim (get_elem?-set s.counters id i (cleared c) h) [
        | inr (ne, g) ↦ v.marked i d g z
        | inl (_, w) ↦ rw w (refl, refl)
      ];
      queued = λ tag i d h g ne. elim (get_elem?-set s.counters id i (cleared c) g) [
        | inr (_, g') ↦ v.queued tag i d h g' ne
        | inl (_, w) ↦ absurd (ne (rw w refl))
      ];
    }

get_elem?-append :
    (xs : List Counter) (x : Counter) (i : ℕ) {c : Counter}
    → get_elem? (xs ++ (x ∷ [])) i ≡ some c
    → (get_elem? xs i ≡ some c) ⊎ ((i ≡ length xs) × (c ≡ x))
get_elem?-append [] x zero h = inr (refl, cc)
get_elem?-append [] x (suc i) h = absurd (cc h)
get_elem?-append (y ∷ xs) x zero h = inl h
get_elem?-append (y ∷ xs) x (suc i) h = elim (get_elem?-append xs x i h) [
  | inl e ↦ inl e
  | inr (e, k) ↦ inr (ap suc e, k)
]

get_elem?-append_front :
    (xs : List Counter) (x : Counter) (i : ℕ) {c : Counter}
    → get_elem? xs i ≡ some c
    → get_elem? (xs ++ (x ∷ [])) i ≡ some c
get_elem?-append_front [] x i h = cc
get_elem?-append_front (y ∷ xs) x zero h = h
get_elem?-append_front (y ∷ xs) x (suc i) h = get_elem?-append_front xs x i h

get_elem?-append_last :
    (xs : List Counter) (x : Counter) → get_elem? (xs ++ (x ∷ [])) (length xs) ≡ some x
get_elem?-append_last [] x = refl
get_elem?-append_last (y ∷ xs) x = get_elem?-append_last xs x

pub remove_user-IsValid : (tag : List ℕ) (s : Stats) → IsValid s → IsValid (remove_user tag s)
unfolding remove_user
remove_user-IsValid tag s v = record {
  known = λ t i h. v.known t i (kept t i h).1;
  marked = v.marked;
  queued = λ t i c h g ne. stays t (kept t i h).0 s.active (v.queued t i c (kept t i h).1 g ne);
}
  where
    kept :
        (t : List ℕ) (i : ℕ)
        → lookup t (remove tag s.users) ≡ some i
        → (t ≢ tag) × (lookup t s.users ≡ some i)
    kept t i h = elim (Bool-cases (eq_bytes t tag)) [
      | inl e ↦ cc (lookup-remove tag t s.users)
      | inr e ↦
          ((λ q. cc ((eq_bytes_iff t tag).1 q)), sym (rw e at (lookup-remove tag t s.users)) ∙ h)
    ]

    stays_next :
        (t : List ℕ)
        → t ≢ tag
        → (u : List ℕ) (active : List (List ℕ)) → IsActive t (u ∷ active)
        → (IsActive t active → IsActive t (remove_tag tag active))
        → IsActive t (remove_tag tag (u ∷ active))
    stays_next t ne u active h k =
        unfold remove_tag in ground (arith, eq_bytes_iff tag u, eq_bytes_iff t u, k)

    stays :
        (t : List ℕ)
        → t ≢ tag
        → (active : List (List ℕ)) → IsActive t active
        → IsActive t (remove_tag tag active)
    stays t ne [] h = unfold remove_tag in h
    stays t ne (u ∷ active) h = stays_next t ne u active h (stays t ne active)

pub counter-IsValid : (tag : List ℕ) (s : Stats) → IsValid s → IsValid (counter tag s).1
unfolding counter
counter-IsValid tag s v = elim (Option-cases (lookup tag s.users)) [
  | inr (id, e) ↦ rw (e, counter) v
  | inl e ↦
      rw (e, counter)
        (record {
          known = λ t i h. elim (found t i h) [
            | inl (q, w) ↦ (
              fresh_counter tag,
              rw w (get_elem?-append_last s.counters (fresh_counter tag)),
              sym q,
            )
            | inr k ↦
                let (c, g, u) = v.known t i k in
                (c, get_elem?-append_front s.counters (fresh_counter tag) i g, u)
          ];
          marked = λ i c g z. elim (get_elem?-append s.counters (fresh_counter tag) i g) [
            | inl g' ↦ v.marked i c g' z
            | inr (_, w) ↦ rw w (refl, refl)
          ];
          queued = λ t i c h g ne. elim (get_elem?-append s.counters (fresh_counter tag) i g) [
            | inr (_, w) ↦ absurd (ne (rw w refl))
            | inl g' ↦ elim (found t i h) [
              | inr k ↦ v.queued t i c k g' ne
              | inl (q, w) ↦ absurd (cc (beyond s.counters, rw w at g'))
            ]
          ];
        })
]
  where
    found :
        (t : List ℕ) (i : ℕ)
        → lookup t (insert tag (length s.counters) s.users) ≡ some i
        → ((t ≡ tag) × (i ≡ length s.counters)) ⊎ (lookup t s.users ≡ some i)
    found t i h = elim (Bool-cases (eq_bytes t tag)) [
      | inl e ↦
          inl (
            (eq_bytes_iff t tag).0 e,
            cc (rw e at (lookup-insert tag t (length s.counters) s.users)),
          )
      | inr e ↦ inr (sym (rw e at (lookup-insert tag t (length s.counters) s.users)) ∙ h)
    ]

    beyond : (xs : List Counter) → get_elem? xs (length xs) ≡ none
    beyond [] = refl
    beyond (x ∷ xs) = beyond xs
