-- ===== src/Kernel/Stats/Loop.antt =====
-- saas/src/controller.rs with kernel/src/stats.rs: the loop over the active counters keeps the registry
-- valid, and what it does to a counter.
use xray_rs.Base.{
  ℕ, ◌≡◌, ◌≢◌, refl, ◌∙◌, inl, inr, Bool, true, false, ◌&&◌, ◌||◌, none, some, List, [], ◌∷◌, ◌++◌,
  append-nil, ltb, ◌==◌, get_elem?, eq_bytes, eq_bytes_iff, Bool-cases, Option-cases,
}
use mathlib.Core.Path.{subst}
use xray_rs.Base.Eq.{bytes_eq}
use xray_rs.Base.Dict.{Dict, lookup}
use xray_rs.Kernel.Stats.{
  Counter, Stats, UserTraffic, Taken, take, restore, registered, active_counters, parse_user_tag,
  take_one, take_all, collect, restore_all, settle, report_traffic,
}
use xray_rs.Kernel.Stats.Steps.{cleared, take-state, take-none, take-IsQueued}
use xray_rs.Kernel.Stats.Active.{
  IsActive, IsQueued, IsValid, get_elem?-set_self, get_elem?-set_ne, touch-IsQueued, touch-IsValid,
  touch-other, touch-users, restore-IsCount,
}

abbrev pub tags_of : List (List ℕ × ℕ) → List (List ℕ)
tags_of [] = []
tags_of ((tag, id) ∷ ps) = tag ∷ tags_of ps

-- The pairs of a list stand in the registry.
abbrev pub IsListed : List (List ℕ × ℕ) → Dict (List ℕ) ℕ → Type 0
IsListed [] users = Unit
IsListed ((tag, id) ∷ ps) users = (lookup tag users ≡ some id) × IsListed ps users

pub take-same :
    (id : ℕ) (s : Stats) → ((take id s).1.active ≡ s.active) × ((take id s).1.users ≡ s.users)
take-same id s = elim (Option-cases (get_elem? s.counters id)) [
  | inl e ↦ rw (take-none id s e) (refl, refl)
  | inr (c, e) ↦ rw (take-state id s c e) (refl, refl)
]

-- What a take leaves of another counter, and what it makes of its own.
pub take-other :
    (id i : ℕ) (s : Stats) → i ≢ id → get_elem? (take id s).1.counters i ≡ get_elem? s.counters i
take-other id i s ne = elim (Option-cases (get_elem? s.counters id)) [
  | inl e ↦ rw (take-none id s e) refl
  | inr (c, e) ↦ rw (take-state id s c e) (get_elem?-set_ne s.counters id i (cleared c) ne)
]

pub take_self :
    (id : ℕ) (s : Stats) (c : Counter)
    → get_elem? s.counters id ≡ some c
    → get_elem? (take id s).1.counters id ≡ some (cleared c)
take_self id s c e = rw (take-state id s c e) (get_elem?-set_self s.counters id (cleared c) e)

any-remove :
    (t u : List ℕ) (xs ys : List (List ℕ))
    → eq_bytes t u ≡ false
    → IsActive t (xs ++ (u ∷ ys))
    → IsActive t (xs ++ ys)
any-remove t u [] ys e h = (rw e at h)
any-remove t u (x ∷ xs) ys e h = elim (Bool-cases (eq_bytes t x)) [
  | inl k ↦ rw k refl
  | inr k ↦ rw k (any-remove t u xs ys e (rw k at h))
]

-- A registered counter that is taken waits no more.
take-unqueued :
    (tag : List ℕ) (id : ℕ) (rest : List (List ℕ)) (s : Stats)
    → lookup tag s.users ≡ some id
    → IsQueued (s.active ++ (tag ∷ rest)) s
    → IsQueued ((take id s).1.active ++ rest) (take id s).1
take-unqueued tag id rest s l v =
    let w = take-IsQueued (s.active ++ (tag ∷ rest)) id s v in
    let (active, users) = take-same id s in
    record {
      known = w.known;
      marked = w.marked;
      queued = λ t i d h g ne. elim (Bool-cases (eq_bytes t tag)) [
        | inr e ↦ rw active (any-remove t tag s.active rest e (w.queued t i d h g ne))
        | inl e ↦
            let same : t ≡ tag = (eq_bytes_iff t tag).0 e in
            let h' : lookup tag s.users ≡ some i = rw (← same, ← users) h in
            let at : i ≡ id = cc (h', l) in
            let (c, g0, _) = v.known tag id l in
            let g' : get_elem? (take id s).1.counters id ≡ some d =
              subst (λ j. get_elem? (take id s).1.counters j ≡ some d) at g in
            let clear : cleared c ≡ d = cc (take_self id s c g0, g') in
            absurd (ne (rw (← clear) refl))
      ];
    }

module _ (node_tag : List ℕ) where
  pub take_one-none :
      (tag : List ℕ) (id : ℕ) (s : Stats)
      → ((take id s).0.0 == 0 && (take id s).0.1 == 0) ≡ true
      → take_one node_tag tag id s ≡ (none, (take id s).1)
  unfolding take_one
  take_one-none tag id s e = rw (e, take_one) refl

  pub take_one-back :
      (tag : List ℕ) (id : ℕ) (s : Stats)
      → ((take id s).0.0 == 0 && (take id s).0.1 == 0) ≡ false
      → parse_user_tag node_tag tag ≡ none
      → take_one node_tag tag id s
        ≡ (none, restore id (take id s).0.0 (take id s).0.1 (take id s).1)
  unfolding take_one
  take_one-back tag id s e p = rw (e, p, take_one) refl

  -- Some change of the counters that a report makes: none but the take, or a giving back behind it.
  take_one-cases :
      (P : Stats → Type 0) (tag : List ℕ) (id : ℕ) (s : Stats)
      → P (take id s).1
      → P (restore id (take id s).0.0 (take id s).0.1 (take id s).1)
      → P (take_one node_tag tag id s).1
  unfolding take_one
  take_one-cases P tag id s a b = elim (Bool-cases ((take id s).0.0 == 0 && (take id s).0.1 == 0)) [
    | inl e ↦ rw (e, take_one) a
    | inr e ↦ elim (Option-cases (parse_user_tag node_tag tag)) [
      | inl p ↦ rw (e, p, take_one) b
      | inr (u, p) ↦ rw (e, p, take_one) a
    ]
  ]

  pub take_one-other :
      (tag : List ℕ) (id i : ℕ) (s : Stats)
      → i ≢ id
      → get_elem? (take_one node_tag tag id s).1.counters i ≡ get_elem? s.counters i
  unfolding restore
  take_one-other tag id i s ne =
      take_one-cases (λ t. get_elem? t.counters i ≡ get_elem? s.counters i) tag id s
        (take-other id i s ne) (touch-other id i _ _ (take id s).1 ne ∙ take-other id i s ne)

  pub take_one-users :
      (tag : List ℕ) (id : ℕ) (s : Stats) → (take_one node_tag tag id s).1.users ≡ s.users
  unfolding restore
  take_one-users tag id s =
      take_one-cases (λ t. t.users ≡ s.users) tag id s (take-same id s).1
        (touch-users id _ _ (take id s).1 ∙ (take-same id s).1)

  pub take_one-IsQueued :
      (tag : List ℕ) (id : ℕ) (rest : List (List ℕ)) (s : Stats)
      → lookup tag s.users ≡ some id
      → IsQueued (s.active ++ (tag ∷ rest)) s
      → IsQueued ((take_one node_tag tag id s).1.active ++ rest) (take_one node_tag tag id s).1
  unfolding restore
  take_one-IsQueued tag id rest s l v =
      let w = take-unqueued tag id rest s l v in
      take_one-cases (λ t. IsQueued (t.active ++ rest) t) tag id s w
        (touch-IsQueued rest id _ _ (take id s).1 (restore-IsCount _ _) w)

  -- The registry in the loop: valid but for the pairs to come, which stand in it.
  pub record IsRunning (ps : List (List ℕ × ℕ)) (s : Stats) : Type 0 where
    pub queue : IsQueued (s.active ++ tags_of ps) s
    pub listed : IsListed ps s.users

  pub take_one-IsRunning :
      (tag : List ℕ) (id : ℕ) (ps : List (List ℕ × ℕ)) (s : Stats)
      → IsRunning ((tag, id) ∷ ps) s
      → IsRunning ps (take_one node_tag tag id s).1
  take_one-IsRunning tag id ps s v =
      let (l, ls) = v.listed in
      record {
        queue = take_one-IsQueued tag id (tags_of ps) s l v.queue;
        listed = rw (take_one-users tag id s) ls;
      }

  take_all-IsValid :
      (ps : List (List ℕ × ℕ)) (s : Stats) → IsRunning ps s → IsValid (take_all node_tag ps s).1
  unfolding take_all
  take_all-IsValid [] s v = subst (λ q. IsQueued q s) (append-nil s.active) v.queue
  take_all-IsValid ((tag, id) ∷ ps) s v =
      take_all-IsValid ps (take_one node_tag tag id s).1 (take_one-IsRunning tag id ps s v)

  pub take_all-users :
      (ps : List (List ℕ × ℕ)) (s : Stats) → (take_all node_tag ps s).1.users ≡ s.users
  unfolding take_all
  take_all-users [] s = refl
  take_all-users ((tag, id) ∷ ps) s =
      take_all-users ps (take_one node_tag tag id s).1 ∙ take_one-users tag id s

  pub registered-IsListed :
      (users : Dict (List ℕ) ℕ) (tags : List (List ℕ)) → IsListed (registered users tags) users
  unfolding registered
  registered-IsListed users [] = tt
  registered-IsListed users (t ∷ tags) = elim (Option-cases (lookup t users)) [
    | inl e ↦ rw (e, registered) (registered-IsListed users tags)
    | inr (i, e) ↦ rw (e, registered) (e, registered-IsListed users tags)
  ]

  pub registered-IsActive :
      (users : Dict (List ℕ) ℕ) (tags : List (List ℕ)) (tag : List ℕ) (id : ℕ)
      → lookup tag users ≡ some id
      → IsActive tag tags
      → IsActive tag (tags_of (registered users tags))
  unfolding registered
  registered-IsActive users [] tag id l a = a
  registered-IsActive users (t ∷ tags) tag id l a = elim (Bool-cases (eq_bytes tag t)) [
    | inl e ↦
        let same : tag ≡ t = (eq_bytes_iff tag t).0 e in
        let l' : lookup t users ≡ some id = rw (← same) l in rw (l', registered, e) refl
    | inr e ↦
        let k = registered-IsActive users tags tag id l (rw e at a) in
        elim (Option-cases (lookup t users)) [
          | inl f ↦ rw (f, registered) k
          | inr (i, f) ↦ rw (f, registered, e) k
        ]
  ]

  abbrev pub drained : Stats → Stats
  drained s = record s { active = [] }

  pub drained-IsRunning :
      (s : Stats) → IsValid s → IsRunning (registered s.users s.active) (drained s)
  drained-IsRunning s v = record {
    queue = record {
      known = v.known;
      marked = v.marked;
      queued = λ tag id c h g ne.
          registered-IsActive s.users s.active tag id h (v.queued tag id c h g ne);
    };
    listed = registered-IsListed s.users s.active;
  }

  pub collect-IsValid : (s : Stats) → IsValid s → IsValid (collect node_tag s).1
  unfolding collect active_counters
  collect-IsValid s v =
      take_all-IsValid (registered s.users s.active) (drained s) (drained-IsRunning s v)

  restore_all-IsValid : (taken : List Taken) (s : Stats) → IsValid s → IsValid (restore_all taken s)
  unfolding restore_all restore
  restore_all-IsValid [] s v = v
  restore_all-IsValid ((id, up, down) ∷ taken) s v =
      restore_all-IsValid taken (restore id up down s)
        (touch-IsValid id (ltb 0 up || ltb 0 down) _ s (restore-IsCount up down) v)

  settle-IsValid :
      (disabled sent : Bool) (r : List UserTraffic × List Taken) (s : Stats)
      → IsValid s
      → IsValid (settle disabled sent r s)
  settle-IsValid disabled sent ([], taken) s v = v
  settle-IsValid disabled sent (u ∷ traffic, taken) s v = elim (Bool-cases (disabled || sent)) [
    | inl e ↦ rw e v
    | inr e ↦ rw e (restore_all-IsValid taken s v)
  ]

  pub report_traffic-IsValid :
      (disabled sent : Bool) (s : Stats)
      → IsValid s
      → IsValid (report_traffic node_tag disabled sent s)
  unfolding report_traffic
  report_traffic-IsValid disabled sent s v =
      settle-IsValid disabled sent (collect node_tag s).0 (collect node_tag s).1
        (collect-IsValid s v)
