-- ===== src/Kernel/Stats/Report.antt =====
-- saas/src/controller.rs with kernel/src/stats.rs: what a report says of a counter, and what it leaves.
use xray_rs.Base.{
  ℕ, suc, ◌+◌, ◌^◌, ◌<◌, ◌≡◌, ◌≢◌, ◌⊎◌, refl, sym, ap, ◌∙◌, inl, inr, true, false, ◌&&◌, Option,
  none, some, List, [], ◌∷◌, ◌==◌, get_elem?, eq_bytes, eq_bytes_iff, arith, Bool-cases,
  Option-cases,
}
use mathlib.Core.Path.{subst}
use xray_rs.Base.Eq.{bytes_eq}
use xray_rs.Base.Int.{ℤ, i64_or_max}
use xray_rs.Base.Dict.{lookup}
use xray_rs.Kernel.Stats.{
  Counter, Stats, UserTraffic, Taken, take, restore, count_up, count_down, registered,
  active_counters, parse_user_tag, take_one, take_all, push, collect,
}
use xray_rs.Kernel.Stats.Steps.{cleared, take-state}
use xray_rs.Kernel.Stats.Active.{IsActive, IsValid, touch_self}
use xray_rs.Kernel.Stats.Loop.{
  tags_of, IsRunning, drained, drained-IsRunning, registered-IsActive, take_self, take_one-none,
  take_one-back, take_one-other, take_one-users, take_all-users, take_one-IsRunning,
  collect-IsValid,
}

abbrev pub Report : Type 0
Report = (List UserTraffic × List Taken) × Stats

-- What was taken is in the report, under the user of the tag; the numbers are kept beside it to be
-- given back, and the counter has nothing left.
pub record IsReported (user : ℤ × List ℕ) (id : ℕ) (c : Counter) (r : Report) : Type 0 where
  pub place : ℕ
  pub sent :
      get_elem? r.0.0 place
      ≡ some (record {
        uid = user.0;
        email = user.1;
        upload = i64_or_max c.up;
        download = i64_or_max c.down;
      })
  pub kept : get_elem? r.0.1 place ≡ some (id, c.up, c.down)
  pub left : get_elem? r.1.counters id ≡ some (record { up = 0; down = 0; dirty = 0; tag = c.tag })

-- The counter has what it had.
pub record IsKept (id : ℕ) (c : Counter) (s : Stats) : Type 0 where
  pub after : Counter
  pub found : get_elem? s.counters id ≡ some after
  pub same_up : after.up ≡ c.up
  pub same_down : after.down ≡ c.down

-- A registered counter has one tag.
same_tag :
    (node_tag t tag : List ℕ) (i id : ℕ) (ps : List (List ℕ × ℕ)) (s : Stats)
    → IsRunning node_tag ((t, i) ∷ ps) s
    → lookup tag s.users ≡ some id
    → i ≡ id
    → t ≡ tag
same_tag node_tag t tag i id ps s v l e =
    let (d, h, w) = v.queue.known t i v.listed.0 in
    let (d', h', w') = v.queue.known tag id l in
    let h'' : get_elem? s.counters i ≡ some d' =
      subst (λ j. get_elem? s.counters j ≡ some d') (sym e) h' in
    let same : d ≡ d' = cc (h, h'') in sym w ∙ ap (λ (x : Counter). x.tag) same ∙ w'

module _ (node_tag : List ℕ) where
  -- A counter without traffic stays as it is.
  take_one-cleared :
      (t : List ℕ) (i id : ℕ) (s : Stats) (c : Counter)
      → get_elem? s.counters id ≡ some (cleared c)
      → get_elem? (take_one node_tag t i s).1.counters id ≡ some (cleared c)
  take_one-cleared t i id s c g = elim (Bool-cases (id == i)) [
    | inr e ↦ take_one-other node_tag t i id s (ground (arith, e)) ∙ g
    | inl e ↦
        let same : id ≡ i = ground (arith, e) in
        let g' : get_elem? s.counters i ≡ some (cleared c) =
          subst (λ j. get_elem? s.counters j ≡ some (cleared c)) same g in
        let none_left : ((take i s).0.0 == 0 && (take i s).0.1 == 0) ≡ true =
          rw (take-state i s (cleared c) g') refl in
        subst (λ j. get_elem? (take_one node_tag t i s).1.counters j ≡ some (cleared c)) (sym same)
          (rw (take_one-none node_tag t i s none_left) (take_self i s (cleared c) g'))
  ]

  take_all-cleared :
      (ps : List (List ℕ × ℕ)) (id : ℕ) (s : Stats) (c : Counter)
      → get_elem? s.counters id ≡ some (cleared c)
      → get_elem? (take_all node_tag ps s).1.counters id ≡ some (cleared c)
  unfolding take_all
  take_all-cleared [] id s c g = g
  take_all-cleared ((t, i) ∷ ps) id s c g =
      take_all-cleared ps id (take_one node_tag t i s).1 c (take_one-cleared t i id s c g)

  -- What is taken of a tag that is not the node's is given back.
  given_back :
      (id : ℕ) (s : Stats) (c : Counter)
      → get_elem? s.counters id ≡ some c
      → c.up < 2 ^ 64
      → c.down < 2 ^ 64
      → IsKept id c (restore id (take id s).0.0 (take id s).0.1 (take id s).1)
  unfolding restore count_up count_down
  given_back id s c g u d =
      let ups : (take id s).0.0 ≡ c.up = rw (take-state id s c g) refl in
      let downs : (take id s).0.1 ≡ c.down = rw (take-state id s c g) refl in
      let (m, mu, md, e) =
        touch_self id _ (λ x. count_down (take id s).0.1 (count_up (take id s).0.0 x)) (take id s).1
          (cleared c) (take_self id s c g) in
      record {
        after = count_down (take id s).0.1 (count_up (take id s).0.0 m);
        found = e;
        same_up = rw (mu, ups) (ground (arith, u));
        same_down = rw (md, downs) (ground (arith, d));
      }

  take_one-IsKept :
      (t : List ℕ) (i id : ℕ) (s : Stats) (c : Counter)
      → get_elem? s.counters id ≡ some c
      → c.up < 2 ^ 64
      → c.down < 2 ^ 64
      → (i ≡ id → parse_user_tag node_tag t ≡ none)
      → IsKept id c (take_one node_tag t i s).1
  take_one-IsKept t i id s c g u d p = elim (Bool-cases (i == id)) [
    | inr e ↦ record {
      after = c;
      found = take_one-other node_tag t i id s (ground (arith, e)) ∙ g;
      same_up = refl;
      same_down = refl;
    }
    | inl e ↦
        let same : i ≡ id = ground (arith, e) in
        let g' : get_elem? s.counters i ≡ some c =
          subst (λ j. get_elem? s.counters j ≡ some c) (sym same) g in
        subst (λ j. IsKept j c (take_one node_tag t i s).1) same
          (elim (Bool-cases ((take i s).0.0 == 0 && (take i s).0.1 == 0)) [
            | inr f ↦ rw (take_one-back node_tag t i s f (p same)) (given_back i s c g' u d)
            | inl f ↦
                let f' : (c.up == 0 && c.down == 0) ≡ true = (rw (take-state i s c g') at f) in
                rw (take_one-none node_tag t i s f) (record {
                  after = cleared c;
                  found = take_self i s c g';
                  same_up = ground (arith, f');
                  same_down = ground (arith, f');
                })
          ])
  ]

  take_all-IsKept :
      (ps : List (List ℕ × ℕ)) (tag : List ℕ) (id : ℕ) (s : Stats) (c : Counter)
      → IsRunning node_tag ps s
      → lookup tag s.users ≡ some id
      → get_elem? s.counters id ≡ some c
      → c.up < 2 ^ 64
      → c.down < 2 ^ 64
      → parse_user_tag node_tag tag ≡ none
      → IsKept id c (take_all node_tag ps s).1
  unfolding take_all
  take_all-IsKept [] tag id s c v l g u d p = record {
    after = c;
    found = g;
    same_up = refl;
    same_down = refl;
  }
  take_all-IsKept ((t, i) ∷ ps) tag id s c v l g u d p =
      let k =
        take_one-IsKept t i id s c g u d
          (λ e. ap (parse_user_tag node_tag) (same_tag node_tag t tag i id ps s v l e) ∙ p) in
      let next = (take_one node_tag t i s).1 in
      let r =
        take_all-IsKept ps tag id next k.after (take_one-IsRunning node_tag t i ps s v)
          (rw (take_one-users node_tag t i s) l) k.found (rw (k.same_up) u) (rw (k.same_down) d)
          p in
      record {
        after = r.after;
        found = r.found;
        same_up = r.same_up ∙ k.same_up;
        same_down = r.same_down ∙ k.same_down;
      }

  -- One more counter in front of a report.
  push-IsReported :
      (o : Option (UserTraffic × Taken)) (r : List UserTraffic × List Taken) (s : Stats)
      (user : ℤ × List ℕ) (id : ℕ) (c : Counter)
      → IsReported user id c (r, s)
      → IsReported user id c (push o r, s)
  push-IsReported none r s user id c v = v
  push-IsReported (some (t, k)) r s user id c v = record {
    place = suc v.place;
    sent = v.sent;
    kept = v.kept;
    left = v.left;
  }

  -- The counter itself.
  take_one-reported :
      (tag : List ℕ) (id : ℕ) (s : Stats) (c : Counter) (user : ℤ × List ℕ)
      → get_elem? s.counters id ≡ some c
      → 0 < c.up + c.down
      → parse_user_tag node_tag tag ≡ some user
      → take_one node_tag tag id s ≡ (
        some (
          record {
            uid = user.0;
            email = user.1;
            upload = i64_or_max c.up;
            download = i64_or_max c.down;
          },
          (id, c.up, c.down),
        ),
        (take id s).1,
      )
  unfolding take_one
  take_one-reported tag id s c user g traffic p =
      let ups : (take id s).0.0 ≡ c.up = rw (take-state id s c g) refl in
      let downs : (take id s).0.1 ≡ c.down = rw (take-state id s c g) refl in
      let some_left : ((take id s).0.0 == 0 && (take id s).0.1 == 0) ≡ false =
        rw (ups, downs) (ground (arith, traffic)) in
      rw (some_left, p, take_one, ups, downs) refl

  take_all-IsReported :
      (ps : List (List ℕ × ℕ)) (tag : List ℕ) (id : ℕ) (s : Stats) (c : Counter) (user : ℤ × List ℕ)
      → IsRunning node_tag ps s
      → IsActive tag (tags_of ps)
      → lookup tag s.users ≡ some id
      → get_elem? s.counters id ≡ some c
      → 0 < c.up + c.down
      → parse_user_tag node_tag tag ≡ some user
      → IsReported user id c (take_all node_tag ps s)
  unfolding take_all
  take_all-IsReported [] tag id s c user v a l g traffic p = absurd (cc a)
  take_all-IsReported ((t, i) ∷ ps) tag id s c user v a l g traffic p =
      elim (Bool-cases (i == id)) [
        | inl e ↦
            let same : i ≡ id = ground (arith, e) in
            let tags = same_tag node_tag t tag i id ps s v l same in
            let now = take_one-reported tag id s c user g traffic p in
            rw (same, tags, now)
              (record {
                place = 0;
                sent = refl;
                kept = refl;
                left = take_all-cleared ps id (take id s).1 c (take_self id s c g);
              })
        | inr e ↦
            let next = (take_one node_tag t i s).1 in
            let other : id ≢ i = ground (arith, e) in
            let behind : eq_bytes tag t ≡ false = elim (Bool-cases (eq_bytes tag t)) [
              | inr f ↦ f
              | inl f ↦
                  let tags : tag ≡ t = (eq_bytes_iff tag t).0 f in
                  let l' : lookup t s.users ≡ some id = rw (← tags) l in
                  absurd (other (cc (v.listed.0, l')))
            ] in
            push-IsReported (take_one node_tag t i s).0 (take_all node_tag ps next).0
              (take_all node_tag ps next).1 user id c
              (take_all-IsReported ps tag id next c user (take_one-IsRunning node_tag t i ps s v)
                (rw behind at a) (rw (take_one-users node_tag t i s) l)
                (take_one-other node_tag t i id s other ∙ g) traffic p)
      ]

  pub collect-users : (s : Stats) → (collect node_tag s).1.users ≡ s.users
  unfolding collect active_counters
  collect-users s = take_all-users node_tag (registered s.users s.active) (drained node_tag s)

  -- A counter that has traffic after a report is in the queue of the next one.
  waits :
      (s : Stats) (tag : List ℕ) (id : ℕ) (c : Counter)
      → IsValid s
      → lookup tag s.users ≡ some id
      → 0 < c.up + c.down
      → IsKept id c (collect node_tag s).1
      → IsActive tag (collect node_tag s).1.active
  waits s tag id c v l traffic k =
      let w = collect-IsValid node_tag s v in
      w.queued tag id k.after (rw (collect-users s) l) k.found (λ z. absurd (
        omega (
          arith,
          traffic,
          k.same_up,
          k.same_down,
          (w.marked id k.after k.found z).0,
          (w.marked id k.after k.found z).1,
        )))

  -- In a valid registry, what a report does of a registered counter with traffic, whose numbers are of
  -- 64 bits. If its tag is of a user of the node, the report has the user with all that was counted, up
  -- to what an i64 holds, the numbers are kept to be given back, and the counter has nothing left, no
  -- upload, no download and no mark. If its tag is not the node's, the counter still has what it had,
  -- and waits for the next report.
  pub collect-IsReported :
      (s : Stats) (tag : List ℕ) (id : ℕ) (c : Counter)
      → IsValid s
      → lookup tag s.users ≡ some id
      → get_elem? s.counters id ≡ some c
      → 0 < c.up + c.down
      → c.up < 2 ^ 64
      → c.down < 2 ^ 64
      → ((user : ℤ × List ℕ) × (parse_user_tag node_tag tag ≡ some user)
          × IsReported user id c (collect node_tag s))
        ⊎ ((parse_user_tag node_tag tag ≡ none)
            × IsKept id c (collect node_tag s).1
            × IsActive tag (collect node_tag s).1.active)
  collect-IsReported s tag id c v l g traffic u d =
      elim (Option-cases (parse_user_tag node_tag tag)) [
        | inr (user, p) ↦
            let dirty : c.dirty ≢ 0 =
              λ z. absurd (omega (arith, traffic, (v.marked id c g z).0, (v.marked id c g z).1)) in
            inl (
              user,
              p,
              unfold collect active_counters in
                  take_all-IsReported (registered s.users s.active) tag id (drained node_tag s) c
                    user (drained-IsRunning node_tag s v)
                    (registered-IsActive node_tag s.users s.active tag id l
                      (v.queued tag id c l g dirty))
                    l g traffic p,
            )
        | inl p ↦
            let k : IsKept id c (collect node_tag s).1 =
              unfold collect active_counters in
              take_all-IsKept (registered s.users s.active) tag id (drained node_tag s) c
                (drained-IsRunning node_tag s v) l g u d p in
            inr (p, k, waits s tag id c v l traffic k)
      ]
