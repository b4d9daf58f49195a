-- ===== src/Proxy/Vmess/Replay/Queue.antt =====
-- proxy/src/vmess.rs, `ReplayFilter`: what the queue and the set keep of each other.
use xray_rs.Base.{
  ℕ, ◌≡◌, ◌≢◌, sym, ap, inl, inr, true, false, List, [], ◌∷◌, ◌++◌, ltb, eq_bytes_iff,
  eq_bytes_refl, All, All-append, arith, Bool-cases,
}
use xray_rs.Proxy.Vmess.Replay.{ReplayFilter, is_seen, forget, prune_queue, remember}

pub is_seen-forget :
    (a b : List ℕ) (set : List (List ℕ))
    → a ≢ b
    → is_seen a set ≡ true
    → is_seen a (forget b set) ≡ true
unfolding forget
is_seen-forget a b [] ne h = h
is_seen-forget a b (c ∷ set) ne h =
    ground (arith, eq_bytes_iff a c, eq_bytes_iff b c, is_seen-forget a b set ne)

-- The queue has each authID once, and what it has is seen.
unfoldable pub IsDistinct : List (List ℕ × ℕ) → Type 0
IsDistinct [] = Unit
IsDistinct ((a, x) ∷ order) = All (λ (p : List ℕ × ℕ). p.0 ≢ a) order × IsDistinct order

abbrev pub IsSeen : List (List ℕ) → List ℕ × ℕ → Type 0
IsSeen seen p = is_seen p.0 seen ≡ true

pub record IsValid (f : ReplayFilter) : Type 0 where
  pub distinct : IsDistinct f.order
  pub all_seen : All (IsSeen f.seen) f.order

IsSeen-forget :
    (a : List ℕ) (seen : List (List ℕ)) (order : List (List ℕ × ℕ))
    → All (λ (p : List ℕ × ℕ). p.0 ≢ a) order
    → All (IsSeen seen) order
    → All (IsSeen (forget a seen)) order
IsSeen-forget a seen [] h k = tt
IsSeen-forget a seen ((b, x) ∷ order) (ne, h) (s, k) =
    (is_seen-forget b a seen ne s, IsSeen-forget a seen order h k)

pub prune_queue-IsValid :
    (now : ℕ) (seen : List (List ℕ)) (order : List (List ℕ × ℕ))
    → IsDistinct order
    → All (IsSeen seen) order
    → IsValid (prune_queue now seen order)
unfolding prune_queue IsDistinct
prune_queue-IsValid now seen [] d h = record { distinct = tt; all_seen = tt }
prune_queue-IsValid now seen ((a, x) ∷ order) (ne, d) (s, h) = elim (Bool-cases (ltb now x)) [
  | inl e ↦ rw (e, prune_queue) (record { distinct = (ne, d); all_seen = (s, h) })
  | inr e ↦
      rw (e, prune_queue)
        (prune_queue-IsValid now (forget a seen) order d (IsSeen-forget a seen order ne h))
]

-- An authID that is not seen is not in the queue.
pub not_queued :
    (a : List ℕ) (seen : List (List ℕ)) (order : List (List ℕ × ℕ))
    → is_seen a seen ≡ false
    → All (IsSeen seen) order
    → All (λ (p : List ℕ × ℕ). p.0 ≢ a) order
not_queued a seen [] h k = tt
not_queued a seen ((b, x) ∷ order) h (s, k) =
    ((λ e. cc (ap (λ t. is_seen t seen) e)), not_queued a seen order h k)

IsDistinct-append :
    (order : List (List ℕ × ℕ)) (a : List ℕ) (x : ℕ)
    → All (λ (p : List ℕ × ℕ). p.0 ≢ a) order
    → IsDistinct order
    → IsDistinct (order ++ ((a, x) ∷ []))
unfolding IsDistinct
IsDistinct-append [] a x h d = (tt, tt)
IsDistinct-append ((b, y) ∷ order) a x (ne, h) (first, d) = (
  All-append (λ (p : List ℕ × ℕ). p.0 ≢ b) order ((a, x) ∷ []) first ((λ e. ne (sym e)), tt),
  IsDistinct-append order a x h d,
)

IsSeen-more :
    (a : List ℕ) (seen : List (List ℕ)) (order : List (List ℕ × ℕ))
    → All (IsSeen seen) order
    → All (IsSeen (a ∷ seen)) order
IsSeen-more a seen [] h = tt
IsSeen-more a seen ((b, x) ∷ order) (s, h) = (ground arith, IsSeen-more a seen order h)

pub remember-IsValid :
    (a : List ℕ) (now : ℕ) (f : ReplayFilter)
    → is_seen a f.seen ≡ false
    → IsValid f
    → IsValid (remember a now f)
unfolding remember
remember-IsValid a now f h v = record {
  distinct = IsDistinct-append f.order a _ (not_queued a f.seen f.order h v.all_seen) v.distinct;
  all_seen =
      All-append (IsSeen (a ∷ f.seen)) f.order _ (IsSeen-more a f.seen f.order v.all_seen)
        (ground (arith, eq_bytes_refl a), tt);
}
