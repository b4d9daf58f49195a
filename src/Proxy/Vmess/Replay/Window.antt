-- ===== src/Proxy/Vmess/Replay/Window.antt =====
-- proxy/src/vmess.rs, `ReplayFilter`: how long an authID is refused.
use xray_rs.Base.{
  ℕ, ◌+◌, ◌^◌, ◌≤◌, ◌<◌, ◌≡◌, ◌≢◌, refl, sym, ap, inl, inr, Bool, true, false, ◌||◌, List, [], ◌∷◌,
  ltb, leb, length, eq_bytes_refl, All, All-append, arith, Bool-cases,
}
use xray_rs.Proxy.Vmess.Replay.{
  vmess_auth_replay_max, ReplayFilter, empty_filter, is_seen, forget, prune_queue, prune, remember,
  check_insert, after,
}
use xray_rs.Proxy.Vmess.Replay.Queue.{
  IsDistinct, IsValid, is_seen-forget, not_queued, prune_queue-IsValid, remember-IsValid,
}

-- `a` is seen, and no entry of the queue lets it go before `e`.
pub record IsHeld (a : List ℕ) (e : ℕ) (f : ReplayFilter) : Type 0 where
  pub held : is_seen a f.seen ≡ true
  pub until : All (λ (p : List ℕ × ℕ). p.0 ≡ a → e ≤ p.1) f.order

prune_queue-IsHeld :
    (a : List ℕ) (e now : ℕ) (seen : List (List ℕ)) (order : List (List ℕ × ℕ))
    → now < e
    → is_seen a seen ≡ true
    → All (λ (p : List ℕ × ℕ). p.0 ≡ a → e ≤ p.1) order
    → IsHeld a e (prune_queue now seen order)
unfolding prune_queue
prune_queue-IsHeld a e now seen [] lt s h = record { held = s; until = tt }
prune_queue-IsHeld a e now seen ((b, x) ∷ order) lt s (k, h) = elim (Bool-cases (ltb now x)) [
  | inl q ↦ rw (q, prune_queue) (record { held = s; until = (k, h) })
  | inr q ↦
      rw (q, prune_queue)
        (prune_queue-IsHeld a e now (forget b seen) order lt
          (is_seen-forget a b seen (λ same. absurd (let late = k (sym same) in ground arith)) s) h)
]

-- Whether a check is refused.
refused : List ℕ → ℕ → ReplayFilter → Bool
refused a now f =
    is_seen a (prune now f).seen || leb vmess_auth_replay_max (length (prune now f).seen)

check_insert-refused :
    (a : List ℕ) (now : ℕ) (f : ReplayFilter)
    → refused a now f ≡ true
    → check_insert a now f ≡ (false, prune now f)
unfolding check_insert refused
check_insert-refused a now f h = rw (h, check_insert) refl

check_insert-not_refused :
    (a : List ℕ) (now : ℕ) (f : ReplayFilter)
    → refused a now f ≡ false
    → check_insert a now f ≡ (true, remember a now (prune now f))
unfolding check_insert refused
check_insert-not_refused a now f h = rw (h, check_insert) refl

accepted-unseen :
    (a : List ℕ) (now : ℕ) (f : ReplayFilter)
    → refused a now f ≡ false
    → is_seen a (prune now f).seen ≡ false
unfolding refused
accepted-unseen a now f h = ground arith

seen-refused :
    (a : List ℕ) (now : ℕ) (f : ReplayFilter)
    → is_seen a (prune now f).seen ≡ true
    → refused a now f ≡ true
unfolding refused
seen-refused a now f h = ground arith

prune-IsHeld :
    (a : List ℕ) (e now : ℕ) (f : ReplayFilter) → now < e → IsHeld a e f → IsHeld a e (prune now f)
unfolding prune
prune-IsHeld a e now f lt h = prune_queue-IsHeld a e now f.seen f.order lt h.held h.until

prune-IsValid : (now : ℕ) (f : ReplayFilter) → IsValid f → IsValid (prune now f)
unfolding prune
prune-IsValid now f v = prune_queue-IsValid now f.seen f.order v.distinct v.all_seen

check_insert-IsValid :
    (a : List ℕ) (now : ℕ) (f : ReplayFilter) → IsValid f → IsValid (check_insert a now f).1
check_insert-IsValid a now f v = elim (Bool-cases (refused a now f)) [
  | inl h ↦ rw (check_insert-refused a now f h) (prune-IsValid now f v)
  | inr h ↦
      rw (check_insert-not_refused a now f h)
        (remember-IsValid a now (prune now f) (accepted-unseen a now f h) (prune-IsValid now f v))
]

after-IsValid : (calls : List (List ℕ × ℕ)) (f : ReplayFilter) → IsValid f → IsValid (after calls f)
unfolding after
after-IsValid [] f v = v
after-IsValid ((a, now) ∷ calls) f v =
    after-IsValid calls (check_insert a now f).1 (check_insert-IsValid a now f v)

remember-IsHeld :
    (a b : List ℕ) (e now : ℕ) (f : ReplayFilter)
    → b ≢ a
    → IsHeld a e f
    → IsHeld a e (remember b now f)
unfolding remember
remember-IsHeld a b e now f ne h = record {
  held = ground (arith, h.held);
  until =
      All-append (λ (p : List ℕ × ℕ). p.0 ≡ a → e ≤ p.1) f.order _ h.until
        ((λ same. absurd (ne same)), tt);
}

check_insert-IsHeld :
    (a b : List ℕ) (e now : ℕ) (f : ReplayFilter)
    → now < e
    → IsHeld a e f
    → IsHeld a e (check_insert b now f).1
check_insert-IsHeld a b e now f lt h =
    let k = prune-IsHeld a e now f lt h in
    elim (Bool-cases (refused b now f)) [
      | inl q ↦ rw (check_insert-refused b now f q) k
      | inr q ↦ rw (check_insert-not_refused b now f q) (
          remember-IsHeld a b e now (prune now f)
            (λ same.
              cc (k.held, accepted-unseen b now f q, ap (λ t. is_seen t (prune now f).seen) same))
            k)
    ]

after-IsHeld :
    (a : List ℕ) (e : ℕ) (calls : List (List ℕ × ℕ)) (f : ReplayFilter)
    → All (λ (p : List ℕ × ℕ). p.1 < e) calls
    → IsHeld a e f
    → IsHeld a e (after calls f)
unfolding after
after-IsHeld a e [] f lt h = h
after-IsHeld a e ((b, now) ∷ calls) f (first, lt) h =
    after-IsHeld a e calls (check_insert b now f).1 lt (check_insert-IsHeld a b e now f first h)

-- An entry for another authID lets this one stay for ever.
others-until :
    (a : List ℕ) (e : ℕ) (order : List (List ℕ × ℕ))
    → All (λ (p : List ℕ × ℕ). p.0 ≢ a) order
    → All (λ (p : List ℕ × ℕ). p.0 ≡ a → e ≤ p.1) order
others-until a e [] h = tt
others-until a e (p ∷ order) (ne, h) = ((λ same. absurd (ne same)), others-until a e order h)

accepted-IsHeld :
    (a : List ℕ) (now : ℕ) (f : ReplayFilter)
    → IsValid f
    → now + 120 < 2 ^ 64
    → is_seen a f.seen ≡ false
    → IsHeld a (now + 120) (remember a now f)
unfolding remember
accepted-IsHeld a now f v small h = record {
  held = ground (arith, eq_bytes_refl a);
  until =
      All-append (λ (p : List ℕ × ℕ). p.0 ≡ a → now + 120 ≤ p.1) f.order _
        (others-until a (now + 120) f.order (not_queued a f.seen f.order h v.all_seen))
        ((λ same. ground arith), tt);
}

-- An authID that is accepted is refused at every check of the next 120 seconds, whatever was checked
-- before and whatever is checked in between.
pub check_insert_once :
    (earlier calls : List (List ℕ × ℕ)) (a : List ℕ) (now later : ℕ)
    → (check_insert a now (after earlier empty_filter)).0 ≡ true
    → All (λ (p : List ℕ × ℕ). p.1 < now + 120) calls
    → later < now + 120
    → now + 120 < 2 ^ 64
    → (check_insert a later (after calls (check_insert a now (after earlier empty_filter)).1)).0
      ≡ false
check_insert_once earlier calls a now later ok_now times soon small =
    elim (Bool-cases (refused a now f)) [
      | inl q ↦ cc (ap (λ (r : Bool × ReplayFilter). r.0) (check_insert-refused a now f q))
      | inr q ↦
          let g = prune-IsValid now f (after-IsValid earlier empty_filter start) in
          let held = accepted-IsHeld a now (prune now f) g small (accepted-unseen a now f q) in
          rw (check_insert-not_refused a now f q) (
            ap (λ (r : Bool × ReplayFilter). r.0)
              (check_insert-refused a later (after calls (remember a now (prune now f))) (
                seen-refused a later _
                  (prune-IsHeld a (now + 120) later _ soon
                    (after-IsHeld a (now + 120) calls _ times held)).held)))
    ]
  where
    f : ReplayFilter
    f = after earlier empty_filter

    start : IsValid empty_filter
    start = unfold IsDistinct in record { distinct = tt; all_seen = tt }
