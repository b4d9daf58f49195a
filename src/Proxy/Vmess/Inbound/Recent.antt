-- ===== src/Proxy/Vmess/Inbound/Recent.antt =====
-- proxy/src/vmess.rs: the list of active users, and the counts of the flows.
use xray_rs.Base.{
  ℕ, zero, suc, ◌-◌, ◌≤◌, ◌≡◌, ◌≢◌, refl, inl, inr, Bool, true, false, List, [], ◌∷◌, ltb, ◌==◌,
  length, take, length-take, All, All-take, arith, Bool-cases, Option-cases,
}
use xray_rs.Proxy.Vmess.Users.{VmessUser, VmessAuth, VmessAuthKind, active, fallback, match_user}
use xray_rs.Proxy.Vmess.Replay.{ReplayFilter, check_insert}
use xray_rs.Proxy.Vmess.Inbound.{
  Vmess, new, set_users, remove_index, pop_long, remember_active_user, record_auth_hit, failed,
  let_in, admit, authenticate, Step, flow, swap, step, run,
}

NotAmong : ℕ → List ℕ → Type 0
NotAmong i is = All (λ (j : ℕ). j ≢ i) is

unfoldable pub IsDistinct : List ℕ → Type 0
unfolding NotAmong
IsDistinct [] = Unit
IsDistinct (i ∷ is) = NotAmong i is × IsDistinct is

-- No user stands twice in the list, and it has 1024 at most.
pub record IsRecent (is : List ℕ) : Type 0 where
  pub distinct : IsDistinct is
  pub short : length is ≤ 1024

NotAmong-remove_index : (i j : ℕ) (is : List ℕ) → NotAmong i is → NotAmong i (remove_index j is)
unfolding NotAmong remove_index
NotAmong-remove_index i j [] h = tt
NotAmong-remove_index i j (k ∷ is) (ne, h) = elim (Bool-cases (k == j)) [
  | inl e ↦ rw (e, remove_index) h
  | inr e ↦ rw (e, remove_index) (ne, NotAmong-remove_index i j is h)
]

remove_index-IsDistinct :
    (j : ℕ) (is : List ℕ)
    → IsDistinct is
    → NotAmong j (remove_index j is) × IsDistinct (remove_index j is)
unfolding NotAmong remove_index IsDistinct
remove_index-IsDistinct j [] d = (tt, tt)
remove_index-IsDistinct j (k ∷ is) (h, d) = elim (Bool-cases (k == j)) [
  | inl e ↦ let same : k ≡ j = ground arith in rw (e, remove_index) (rw same at h, d)
  | inr e ↦
      let (m, n) = remove_index-IsDistinct j is d in
      rw (e, remove_index)
        (((λ q. absurd (ground (arith, q))), m), (NotAmong-remove_index k j is h, n))
]

length-remove_index : (j : ℕ) (is : List ℕ) → length (remove_index j is) ≤ length is
unfolding remove_index
length-remove_index j [] = omega arith
length-remove_index j (k ∷ is) = ground (arith, length-remove_index j is)

take-IsDistinct : (n : ℕ) (is : List ℕ) → IsDistinct is → IsDistinct (take n is)
unfolding IsDistinct NotAmong
take-IsDistinct zero is d = tt
take-IsDistinct (suc n) [] d = tt
take-IsDistinct (suc n) (i ∷ is) (h, d) =
    (All-take (λ (j : ℕ). j ≢ i) n is h, take-IsDistinct n is d)

-- One index more, and the last one dropped where that is too long.
pop_long-IsRecent : (is : List ℕ) → IsDistinct is → length is ≤ 1025 → IsRecent (pop_long is)
unfolding pop_long
pop_long-IsRecent is d h = elim (Bool-cases (ltb 1024 (length is))) [
  | inl e ↦ rw e (record {
    distinct = take-IsDistinct (length is - 1) is d;
    short = omega (arith, length-take (length is - 1) is (omega arith), h);
  })
  | inr e ↦ rw e (record { distinct = d; short = ground arith })
]

remember_active_user-IsRecent :
    (i : ℕ) (is : List ℕ) → IsRecent is → IsRecent (remember_active_user i is)
unfolding remember_active_user IsDistinct
remember_active_user-IsRecent i is r =
    pop_long-IsRecent (i ∷ remove_index i is) (remove_index-IsDistinct i is r.distinct)
      (omega (arith, length-remove_index i is, r.short))

record_auth_hit-active_users :
    (k : VmessAuthKind) (s : Vmess) → (record_auth_hit k s).active_users ≡ s.active_users
unfolding record_auth_hit
record_auth_hit-active_users active s = refl
record_auth_hit-active_users fallback s = refl

admit-IsRecent :
    (m : VmessAuth) (r : Bool × ReplayFilter) (s : Vmess)
    → IsRecent s.active_users
    → IsRecent (admit m r s).1.active_users
unfolding admit failed let_in
admit-IsRecent m (false, f) s h = h
admit-IsRecent m (true, f) s h =
    remember_active_user-IsRecent m.index _
      (rw (record_auth_hit-active_users m.kind (record s { replay_filter = f })) h)

module _ (decrypt_block : (key block : List ℕ) → List ℕ) (crc32 : List ℕ → ℕ) where
  step-IsRecent :
      (e : Step) (s : Vmess)
      → IsRecent s.active_users
      → IsRecent (step decrypt_block crc32 e s).active_users
  unfolding step set_users authenticate failed
  step-IsRecent (swap users) s h =
      unfold IsDistinct in record { distinct = tt; short = omega arith }
  step-IsRecent (flow a m_now now) s h =
      elim (Option-cases (match_user decrypt_block crc32 s.users a m_now s.active_users)) [
        | inl q ↦ rw (q, authenticate, step) h
        | inr (m, q) ↦
            rw (q, authenticate, step) (admit-IsRecent m (check_insert a now s.replay_filter) s h)
      ]

  run-kept :
      (es : List Step) (s : Vmess)
      → IsRecent s.active_users
      → IsRecent (run decrypt_block crc32 es s).active_users
  unfolding run
  run-kept [] s h = h
  run-kept (e ∷ es) s h = run-kept es (step decrypt_block crc32 e s) (step-IsRecent e s h)

  -- After any run of flows and changes of the table, no user stands twice in the list of active users,
  -- and it has 1024 at most.
  pub run-IsRecent :
      (users : List VmessUser) (es : List Step)
      → IsRecent (run decrypt_block crc32 es (new users)).active_users
  run-IsRecent users es =
      run-kept es (new users) (unfold IsDistinct in record { distinct = tt; short = omega arith })
