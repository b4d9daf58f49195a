-- ===== src/Proxy/Vmess/Inbound/Once.antt =====
-- proxy/src/vmess.rs: an authID lets one flow in.
use xray_rs.Base.{
  ℕ, ◌+◌, ◌^◌, ◌<◌, ◌≡◌, ◌≢◌, refl, ap, ◌∙◌, inl, inr, Bool, true, false, none, some, List, [], ◌∷◌,
  ◌++◌, All, All-append, Option-cases,
}
use xray_rs.Base.Result.{Result, ok, err}
use xray_rs.Kernel.Error.{IoError, message, invalid_data}
use xray_rs.Proxy.Vmess.Users.{VmessUser, VmessAuth, VmessAuthKind, active, fallback, match_user}
use xray_rs.Proxy.Vmess.Users.Match.{IsMatch, match_user_lem}
use xray_rs.Proxy.Vmess.Replay.{ReplayFilter, empty_filter, check_insert, after}
use xray_rs.Proxy.Vmess.Replay.Window.{check_insert_once}
use xray_rs.Proxy.Vmess.Inbound.{
  Vmess, new, set_users, record_auth_hit, failed, let_in, admit, authenticate, Step, flow, swap,
  step, run,
}

-- The replay filter's time of a step is before `e`.
abbrev pub IsBefore : ℕ → Step → Type 0
IsBefore e (flow authid match_now replay_now) = replay_now < e
IsBefore e (swap users) = Unit

record_auth_hit-filter :
    (k : VmessAuthKind) (s : Vmess) → (record_auth_hit k s).replay_filter ≡ s.replay_filter
unfolding record_auth_hit
record_auth_hit-filter active s = refl
record_auth_hit-filter fallback s = refl

let_in-filter : (m : VmessAuth) (s : Vmess) → (let_in m s).replay_filter ≡ s.replay_filter
unfolding let_in
let_in-filter m s = record_auth_hit-filter m.kind s

admit-filter :
    (m : VmessAuth) (r : Bool × ReplayFilter) (s : Vmess) → (admit m r s).1.replay_filter ≡ r.1
unfolding admit failed
admit-filter m (true, f) s = let_in-filter m (record s { replay_filter = f })
admit-filter m (false, f) s = refl

admit-ok :
    (m n : VmessAuth) (r : Bool × ReplayFilter) (s : Vmess)
    → (admit m r s).0 ≡ ok n
    → (r.0 ≡ true) × (m ≡ n)
unfolding admit
admit-ok m n (true, f) s h = (refl, cc h)
admit-ok m n (false, f) s h = absurd (cc h)

admit-refused :
    (m : VmessAuth) (r : Bool × ReplayFilter) (s : Vmess)
    → r.0 ≡ false
    → (n : VmessAuth) → (admit m r s).0 ≢ ok n
admit-refused m r s h n e = cc (h, (admit-ok m n r s e).0)

-- The calls that a run makes to the filter, in order.
IsCalls : List (List ℕ × ℕ) → List Step → Type 0
IsCalls cs es = (t : ℕ) → All (IsBefore t) es → All (λ (p : List ℕ × ℕ). p.1 < t) cs

module _ (decrypt_block : (key block : List ℕ) → List ℕ) (crc32 : List ℕ → ℕ) where
  authenticate-none :
      (a : List ℕ) (m_now now : ℕ) (s : Vmess)
      → match_user decrypt_block crc32 s.users a m_now s.active_users ≡ none
      → authenticate decrypt_block crc32 a m_now now s
        ≡ (err (message invalid_data "vmess auth"), failed s)
  unfolding authenticate
  authenticate-none a m_now now s q = rw (q, authenticate) refl

  authenticate-some :
      (a : List ℕ) (m_now now : ℕ) (s : Vmess) (m : VmessAuth)
      → match_user decrypt_block crc32 s.users a m_now s.active_users ≡ some m
      → authenticate decrypt_block crc32 a m_now now s
        ≡ admit m (check_insert a now s.replay_filter) s
  unfolding authenticate
  authenticate-some a m_now now s m q = rw (q, authenticate) refl

  -- A step checks one authID in the filter, or none.
  step-filter :
      (e : Step) (s : Vmess)
      → (cs : List (List ℕ × ℕ)) × ((step decrypt_block crc32 e s).replay_filter
          ≡ after cs s.replay_filter)
        × ((t : ℕ) → IsBefore t e → All (λ (p : List ℕ × ℕ). p.1 < t) cs)
  unfolding step set_users after
  step-filter (swap users) s = ([], refl, (λ t h. tt))
  step-filter (flow a m_now now) s =
      elim (Option-cases (match_user decrypt_block crc32 s.users a m_now s.active_users)) [
        | inl q ↦
            ([], rw (authenticate-none a m_now now s q, step) (unfold failed in refl), (λ t h. tt))
        | inr (m, q) ↦ (
          (a, now) ∷ [],
          rw (authenticate-some a m_now now s m q, step)
              (admit-filter m (check_insert a now s.replay_filter) s),
          (λ t h. (h, tt)),
        )
      ]

  after-append :
      (cs ds : List (List ℕ × ℕ)) (f : ReplayFilter) → after ds (after cs f) ≡ after (cs ++ ds) f
  unfolding after
  after-append [] ds f = refl
  after-append ((a, now) ∷ cs) ds f = after-append cs ds (check_insert a now f).1

  run-filter :
      (es : List Step) (s : Vmess)
      → (cs : List (List ℕ × ℕ)) × ((run decrypt_block crc32 es s).replay_filter
          ≡ after cs s.replay_filter)
        × IsCalls cs es
  unfolding run IsCalls after
  run-filter [] s = ([], refl, (λ t h. tt))
  run-filter (e ∷ es) s =
      let (cs, q, h) = step-filter e s in
      let (ds, r, k) = run-filter es (step decrypt_block crc32 e s) in
      (
        cs ++ ds,
        r ∙ ap (after ds) q ∙ after-append cs ds s.replay_filter,
        (λ t (first, rest). All-append (λ (p : List ℕ × ℕ). p.1 < t) cs ds (h t first) (k t rest)),
      )

  -- A flow that is let in was let in by the filter, and one that the filter refuses is not let in.
  authenticate-check :
      (a : List ℕ) (m_now now : ℕ) (s : Vmess) (m : VmessAuth)
      → (authenticate decrypt_block crc32 a m_now now s).0 ≡ ok m
      → ((check_insert a now s.replay_filter).0 ≡ true)
        × ((authenticate decrypt_block crc32 a m_now now s).1.replay_filter
            ≡ (check_insert a now s.replay_filter).1)
        × (match_user decrypt_block crc32 s.users a m_now s.active_users ≡ some m)
  authenticate-check a m_now now s m h =
      elim (Option-cases (match_user decrypt_block crc32 s.users a m_now s.active_users)) [
        | inl q ↦ absurd (
            cc (
              h,
              ap (λ (r : Result IoError VmessAuth × Vmess). r.0)
                  (authenticate-none a m_now now s q),
            ))
        | inr (n, q) ↦
            let (t, same) =
              admit-ok n m (check_insert a now s.replay_filter) s
                (rw (authenticate-some a m_now now s n q) at h) in
            (
              t,
              rw (authenticate-some a m_now now s n q)
                  (admit-filter n (check_insert a now s.replay_filter) s),
              q ∙ ap some same,
            )
      ]

  -- Whoever is let in has an authID that a user of the table owns, and for 120 seconds of the replay
  -- filter's clock no other flow is let in with that authID, whatever flows and changes of the table
  -- came before and come in between, and whatever the clock of the match says.
  pub authenticate_once :
      (users : List VmessUser) (earlier between : List Step) (a : List ℕ)
      (m_now now m_later later : ℕ) (m : VmessAuth)
      → (authenticate decrypt_block crc32 a m_now now
          (run decrypt_block crc32 earlier (new users))).0
        ≡ ok m
      → All (IsBefore (now + 120)) between
      → later < now + 120
      → now + 120 < 2 ^ 64
      → IsMatch decrypt_block crc32 (run decrypt_block crc32 earlier (new users)).users a m_now m
        × ((n : VmessAuth)
            → (authenticate decrypt_block crc32 a m_later later (
                run decrypt_block crc32 between
                  (authenticate decrypt_block crc32 a m_now now
                    (run decrypt_block crc32 earlier (new users))).1)).0
              ≢ ok n)
  unfolding IsCalls
  authenticate_once users earlier between a m_now now m_later later m h times soon small =
      let s = run decrypt_block crc32 earlier (new users) in
      let (t, q, found) = authenticate-check a m_now now s m h in
      let (cs, r, _) = run-filter earlier (new users) in
      let (ds, u, k) = run-filter between (authenticate decrypt_block crc32 a m_now now s).1 in
      let first : (check_insert a now (after cs empty_filter)).0 ≡ true = rw (← r) t in
      let once = check_insert_once cs ds a now later first (k (now + 120) times) soon small in
      let filter = u ∙ ap (after ds) q ∙ ap (λ f. after ds (check_insert a now f).1) r in
      (
        (match_user_lem decrypt_block crc32 s.users a m_now s.active_users).0 m found,
        (λ n g.
            let (again, _, _) = authenticate-check a m_later later _ n g in
            cc (once, again, ap (λ f. (check_insert a later f).0) filter)),
      )
