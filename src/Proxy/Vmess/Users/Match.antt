-- ===== src/Proxy/Vmess/Users/Match.antt =====
-- proxy/src/vmess/user.rs: the two passes find a user exactly if some user matches.
use xray_rs.Base.{
  ℕ, zero, suc, ◌+◌, ◌≡◌, refl, ap, ◌∙◌, ◌⊎◌, inl, inr, Bool, true, false, not, Option, none, some,
  List, [], ◌∷◌, length, replicate, get_elem?, set, arith, Bool-cases, Option-cases,
}
use xray_rs.Proxy.Vmess.Users.{
  VmessUser, VmessAuth, VmessAuthKind, active, fallback, TriedSet, new_tried, mark, contains,
  is_empty, is_fresh, match_one, active_pass, full_scan, match_user,
}

contains-new_tried : (b : Bool) (n i : ℕ) → contains i (new_tried b n) ≡ false
unfolding contains new_tried
contains-new_tried false n i = refl
contains-new_tried true n i = slots n i
  where
    slots : (n i : ℕ) → contains i (some (replicate n false)) ≡ false
    slots zero i = refl
    slots (suc n) zero = refl
    slots (suc n) (suc i) = slots n i

contains-mark :
    (i j : ℕ) (t : TriedSet) → contains j (mark i t) ≡ true → (contains j t ≡ true) ⊎ (j ≡ i)
unfolding contains mark
contains-mark i j none h = cc
contains-mark i j (some slots) h = go slots i j h
  where
    go :
        (slots : List Bool) (i j : ℕ)
        → contains j (some (set slots i true)) ≡ true
        → (contains j (some slots) ≡ true) ⊎ (j ≡ i)
    go [] i j h = inl h
    go (s ∷ slots) zero zero h = inr refl
    go (s ∷ slots) zero (suc j) h = inl h
    go (s ∷ slots) (suc i) zero h = inl h
    go (s ∷ slots) (suc i) (suc j) h = elim (go slots i j h) [
      | inl e ↦ inl e
      | inr e ↦ inr (ap suc e)
    ]

module _ (decrypt_block : (key block : List ℕ) → List ℕ) (crc32 : List ℕ → ℕ)
    (users : List VmessUser) (authid : List ℕ) (now : ℕ) where
  -- The user of `index` owns the authID.
  abbrev pub Owns : ℕ → VmessUser → Type 0
  Owns index user =
      (get_elem? users index ≡ some user)
      × (is_fresh decrypt_block crc32 (decrypt_block user.authid_key authid) now ≡ true)

  -- The user of `index`, if there is one, does not.
  abbrev pub NotOwner : ℕ → Type 0
  NotOwner index =
      (user : VmessUser)
      → get_elem? users index ≡ some user
      → is_fresh decrypt_block crc32 (decrypt_block user.authid_key authid) now ≡ false

  -- What a match tells.
  abbrev pub IsMatch : VmessAuth → Type 0
  IsMatch m =
      (user : VmessUser) × Owns m.index user × (m.cmd_key ≡ user.cmd_key) × (m.email ≡ user.email)

  match_one-inv :
      (i : ℕ) (user : VmessUser) (k : VmessAuthKind) (m : VmessAuth)
      → get_elem? users i ≡ some user
      → match_one decrypt_block crc32 i user authid now k ≡ some m
      → IsMatch m
  unfolding match_one
  match_one-inv i user k m h e =
      elim (Bool-cases (is_fresh decrypt_block crc32 (decrypt_block user.authid_key authid) now)) [
        | inl fresh ↦
            let same : record { index = i; cmd_key = user.cmd_key; email = user.email; kind = k }
                ≡ m =
              cc (rw (fresh, match_one) at e) in
            rw (← same) (user, (h, fresh), refl, refl)
        | inr stale ↦ cc (rw (stale, match_one) at e)
      ]

  match_one-none :
      (i : ℕ) (user : VmessUser) (k : VmessAuthKind)
      → match_one decrypt_block crc32 i user authid now k ≡ none
      → is_fresh decrypt_block crc32 (decrypt_block user.authid_key authid) now ≡ false
  unfolding match_one
  match_one-none i user k e = ground arith

  -- Only users who do not own the authID are marked as tried.
  Tried : TriedSet → Type 0
  Tried t = (i : ℕ) → contains i t ≡ true → NotOwner i

  Passed : Option VmessAuth × TriedSet → Type 0
  Passed (some m, t) = IsMatch m
  Passed (none, t) = Tried t

  NotOwner_lem :
      (i : ℕ) (user : VmessUser)
      → get_elem? users i ≡ some user
      → is_fresh decrypt_block crc32 (decrypt_block user.authid_key authid) now ≡ false
      → NotOwner i
  NotOwner_lem i user h stale u k = let same : user ≡ u = cc in rw (← same) stale

  Tried-mark : (i : ℕ) (t : TriedSet) → NotOwner i → Tried t → Tried (mark i t)
  unfolding Tried
  Tried-mark i t other h j c = elim (contains-mark i j t c) [ inl e ↦ h j e | inr e ↦ rw e other ]

  active_pass_lem :
      (indices : List ℕ) (t : TriedSet)
      → Tried t
      → Passed (active_pass decrypt_block crc32 users authid now indices t)
  unfolding active_pass Passed
  active_pass_lem [] t h = h
  active_pass_lem (i ∷ indices) t h = elim (Bool-cases (contains i t)) [
    | inl e ↦ rw (e, active_pass) (active_pass_lem indices t h)
    | inr e ↦ elim (Option-cases (get_elem? users i)) [
      | inl f ↦ rw (e, f, active_pass) (active_pass_lem indices t h)
      | inr (user, f) ↦
          elim (Option-cases (match_one decrypt_block crc32 i user authid now active)) [
            | inl g ↦
                rw (e, f, g, active_pass)
                  (active_pass_lem indices (mark i t)
                    (Tried-mark i t (NotOwner_lem i user f (match_one-none i user active g)) h))
            | inr (m, g) ↦ rw (e, f, g, active_pass) (match_one-inv i user active m f g)
          ]
    ]
  ]

  Scanned : ℕ → Option VmessAuth → Type 0
  Scanned index (some m) = IsMatch m
  Scanned index none = (j : ℕ) → NotOwner (index + j)

  -- The users from `index` on are `rest`.
  From : ℕ → List VmessUser → Type 0
  From index rest = (j : ℕ) → get_elem? users (index + j) ≡ get_elem? rest j

  From-next :
      (index : ℕ) (user : VmessUser) (rest : List VmessUser)
      → From index (user ∷ rest)
      → From (index + 1) rest
  unfolding From
  From-next index user rest h j =
      let e : index + 1 + j ≡ index + suc j = omega arith in rw e (h (suc j))

  From-here :
      (index : ℕ) (user : VmessUser) (rest : List VmessUser)
      → From index (user ∷ rest)
      → get_elem? users index ≡ some user
  unfolding From
  From-here index user rest h =
      let e : index ≡ index + 0 = omega arith in ap (get_elem? users) e ∙ h 0

  Scanned-next :
      (index : ℕ) (o : Option VmessAuth) → NotOwner index → Scanned (index + 1) o → Scanned index o
  unfolding Scanned
  Scanned-next index (some m) other h = h
  Scanned-next index none other h = at
    where
      at : (j : ℕ) → NotOwner (index + j)
      at zero = let e : index + 0 ≡ index = omega arith in rw e other
      at (suc j) = let e : index + suc j ≡ index + 1 + j = omega arith in rw e (h j)

  full_scan_lem :
      (t : TriedSet) (index : ℕ) (rest : List VmessUser)
      → Tried t
      → From index rest
      → Scanned index (full_scan decrypt_block crc32 authid now t index rest)
  full_scan_lem t index [] h from =
      unfold full_scan Scanned in λ j user e. absurd (unfold From in cc (from j))
  full_scan_lem t index (user ∷ rest) h from = elim (Bool-cases (contains index t)) [
    | inl e ↦ skip e (
        Scanned-next index _ (unfold Tried in h index e)
          (full_scan_lem t (index + 1) rest h (From-next index user rest from)))
    | inr e ↦ elim (Option-cases (match_one decrypt_block crc32 index user authid now fallback)) [
      | inl g ↦ miss e g (
          Scanned-next index _
            (NotOwner_lem index user (From-here index user rest from)
              (match_one-none index user fallback g))
            (full_scan_lem t (index + 1) rest h (From-next index user rest from)))
      | inr (m, g) ↦
          unfold full_scan Scanned in
          rw (e, g, full_scan)
            (match_one-inv index user fallback m (From-here index user rest from) g)
    ]
  ]
    where
      skip :
          contains index t ≡ true
          → Scanned index (full_scan decrypt_block crc32 authid now t (index + 1) rest)
          → Scanned index (full_scan decrypt_block crc32 authid now t index (user ∷ rest))
      skip e s = unfold full_scan in rw (e, full_scan) s

      miss :
          contains index t ≡ false
          → match_one decrypt_block crc32 index user authid now fallback ≡ none
          → Scanned index (full_scan decrypt_block crc32 authid now t (index + 1) rest)
          → Scanned index (full_scan decrypt_block crc32 authid now t index (user ∷ rest))
      miss e g s = unfold full_scan in rw (e, g, full_scan) s

  Found : Option VmessAuth → Type 0
  Found (some m) = IsMatch m
  Found none = (i : ℕ) → NotOwner i

  Scanned-Found : (o : Option VmessAuth) → Scanned 0 o → Found o
  unfolding Scanned Found
  Scanned-Found (some m) h = h
  Scanned-Found none h = λ i. let e : i ≡ 0 + i = omega arith in rw e (h i)

  match_user-Found :
      (indices : List ℕ) → Found (match_user decrypt_block crc32 users authid now indices)
  unfolding match_user Found
  match_user-Found indices =
      by_pass (active_pass decrypt_block crc32 users authid now indices start)
        (active_pass_lem indices start start_tried)
    where
      start : TriedSet
      start = new_tried (not (is_empty indices)) (length users)

      start_tried : Tried start
      start_tried =
          unfold Tried in λ i e. cc (contains-new_tried (not (is_empty indices)) (length users) i)

      by_pass :
          (r : Option VmessAuth × TriedSet)
          → Passed r
          → Found (elim r.0 [
            | some m ↦ some m
            | none ↦ full_scan decrypt_block crc32 authid now r.1 0 users
          ])
      by_pass (some m, t) h = unfold Passed in h
      by_pass (none, t) h = Scanned-Found (full_scan decrypt_block crc32 authid now t 0 users) (
          full_scan_lem t 0 users (unfold Passed in h)
            (unfold From in λ j. let e : 0 + j ≡ j = omega arith in ap (get_elem? users) e))

  -- The user that is found owns the authID, and the answer carries this user's key and email. If none
  -- is found, no user owns it. Both whatever the list of active users says.
  pub match_user_lem :
      (indices : List ℕ)
      → ((m : VmessAuth)
          → match_user decrypt_block crc32 users authid now indices ≡ some m
          → IsMatch m)
        × (match_user decrypt_block crc32 users authid now indices ≡ none → (i : ℕ) → NotOwner i)
  match_user_lem indices = (
    (λ m e. unfold Found in rw e at (match_user-Found indices)),
    (λ e. unfold Found in rw e at (match_user-Found indices)),
  )
