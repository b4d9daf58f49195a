-- ===== src/Proxy/Mux/Demux/Sessions.antt =====
-- proxy/src/mux.rs, `demux`: what the handlers keep of the sessions and their channels.
use xray_rs.Base.{
  ℕ, ◌≤◌, ◌≡◌, ◌≢◌, refl, ap, sym, ◌∙◌, ◌⊎◌, inl, inr, ◌==◌, ==_iff, Option, none, some, List, [],
  ◌∷◌, arith, Option-cases, Bool-cases, if◌then◌else◌,
}
use mathlib.Core.Path.{subst}
use xray_rs.Base.Eq.{nat_eq}
use xray_rs.Base.Dict.{Dict, lookup, insert, remove, lookup-insert, lookup-remove}
use xray_rs.Base.Result.{Result, ok, Result-cases}
use xray_rs.Kernel.Error.{IoError}
use xray_rs.Kernel.Net.{Network, Destination}
use xray_rs.Proxy.Mux.{Meta, st_new, st_keep, st_end, st_keepalive}
use xray_rs.Proxy.Mux.Demux.{
  Sub, tcp, udp, Effect, open_tcp, open_udp, send_tcp, send_udp, close, State, channel_of, act,
  drop_sender, register, opened, first_packet, first_chunk, open_session, handle_new, handle_keep,
  handle_end, kept, handle, again, round, u16, read_frame, start,
}

abbrev pub network_of : Sub → Network
network_of (tcp c) = Network.tcp
network_of (udp c) = Network.udp

-- What channel `c` is after the effects `es`: the kind it was opened as, if nothing closed it since.
unfoldable pub open_as : ℕ → List Effect → Option Network
open_as c [] = none
open_as c (open_tcp k sid t ∷ es) = if c == k then some Network.tcp else open_as c es
open_as c (open_udp k sid t ∷ es) = if c == k then some Network.udp else open_as c es
open_as c (send_tcp k d ∷ es) = open_as c es
open_as c (send_udp k d t ∷ es) = open_as c es
open_as c (close k ∷ es) = if c == k then none else open_as c es

-- An effect that may follow `es`.
abbrev pub MayFollow : Effect → List Effect → Type 0
MayFollow (open_tcp c sid t) es = open_as c es ≡ none
MayFollow (open_udp c sid t) es = open_as c es ≡ none
MayFollow (send_tcp c d) es = open_as c es ≡ some Network.tcp
MayFollow (send_udp c d t) es = open_as c es ≡ some Network.udp
MayFollow (close c) es = open_as c es ≢ none

-- Each effect may follow those before it.
abbrev pub IsLawful : List Effect → Type 0
IsLawful [] = Unit
IsLawful (e ∷ es) = MayFollow e es × IsLawful es

pub record IsValid (s : State) : Type 0 where
  pub lawful : IsLawful s.effects
  -- The number of the next channel is not in use.
  pub fresh : (c : ℕ) → s.next_channel ≤ c → open_as c s.effects ≡ none
  -- A session's channel is open, as the kind the map says.
  pub held :
      (sid : ℕ) (sub : Sub)
      → lookup sid s.sessions ≡ some sub
      → open_as (channel_of sub) s.effects ≡ some (network_of sub)
  -- No two sessions share a channel.
  pub once :
      (i j : ℕ) (a b : Sub)
      → lookup i s.sessions ≡ some a
      → lookup j s.sessions ≡ some b
      → channel_of a ≡ channel_of b
      → i ≡ j

-- A state's parts without a session, and what became of its channel.
open_as-drop_sender :
    (c : ℕ) (o : Option Sub) (es : List Effect)
    → ((b : Sub) → o ≡ some b → channel_of b ≢ c)
    → open_as c (drop_sender o es) ≡ open_as c es
unfolding open_as
open_as-drop_sender c none es h = refl
open_as-drop_sender c (some b) es h = ground (arith, h b refl)

open_as-drop_sender-none :
    (c : ℕ) (o : Option Sub) (es : List Effect)
    → open_as c es ≡ none
    → open_as c (drop_sender o es) ≡ none
unfolding open_as
open_as-drop_sender-none c none es h = h
open_as-drop_sender-none c (some b) es h = ground arith

IsLawful-drop_sender :
    (o : Option Sub) (es : List Effect)
    → ((b : Sub) → o ≡ some b → open_as (channel_of b) es ≡ some (network_of b))
    → IsLawful es
    → IsLawful (drop_sender o es)
IsLawful-drop_sender none es h l = l
IsLawful-drop_sender (some b) es h l = ((λ e. cc (h b refl)), l)

remove-inv :
    (sid j : ℕ) (d : Dict ℕ Sub) {sub : Sub}
    → lookup j (remove sid d) ≡ some sub
    → (j ≢ sid) × (lookup j d ≡ some sub)
remove-inv sid j d h = elim (Bool-cases (j == sid)) [
  | inl e ↦ ground (arith, lookup-remove sid j d)
  | inr e ↦ (ground (arith, ==_iff j sid), ground (arith, lookup-remove sid j d))
]

insert-inv :
    (sid j : ℕ) (sub : Sub) (d : Dict ℕ Sub) {b : Sub}
    → lookup j (insert sid sub d) ≡ some b
    → ((j ≡ sid) × (b ≡ sub)) ⊎ ((j ≢ sid) × (lookup j d ≡ some b))
insert-inv sid j sub d h = elim (Bool-cases (j == sid)) [
  | inl e ↦ inl (ground (arith, ==_iff j sid), ground (arith, lookup-insert sid j sub d))
  | inr e ↦ inr (ground (arith, ==_iff j sid), ground (arith, lookup-insert sid j sub d))
]

handle_end-IsValid : (sid : ℕ) (s : State) → IsValid s → IsValid (handle_end sid s)
unfolding handle_end
handle_end-IsValid sid s v = record {
  lawful = IsLawful-drop_sender (lookup sid s.sessions) s.effects (λ b e. v.held sid b e) v.lawful;
  fresh = λ c h. open_as-drop_sender-none c (lookup sid s.sessions) s.effects (v.fresh c h);
  held = λ j sub e.
      let (ne, k) = remove-inv sid j s.sessions e in
      open_as-drop_sender (channel_of sub) (lookup sid s.sessions) s.effects
        (λ b f same. ne (v.once j sid sub b k f (sym same)))
      ∙ v.held j sub k;
  once = λ i j a b e f h.
      v.once i j a b (remove-inv sid i s.sessions e).1 (remove-inv sid j s.sessions f).1 h;
}

act-IsValid :
    (e : Effect) (s : State)
    → MayFollow e s.effects
    → ((c : ℕ) → open_as c (e ∷ s.effects) ≡ open_as c s.effects)
    → IsValid s
    → IsValid (act e s)
act-IsValid e s m h v = record {
  lawful = (m, v.lawful);
  fresh = λ c k. h c ∙ v.fresh c k;
  held = λ j sub k. h (channel_of sub) ∙ v.held j sub k;
  once = v.once;
}

send_tcp-IsValid :
    (c : ℕ) (d : List ℕ) (s : State)
    → open_as c s.effects ≡ some Network.tcp
    → IsValid s
    → IsValid (act (send_tcp c d) s)
unfolding open_as
send_tcp-IsValid c d s h v = act-IsValid (send_tcp c d) s h (λ k. refl) v

send_udp-IsValid :
    (c : ℕ) (d : List ℕ) (t : Destination) (s : State)
    → open_as c s.effects ≡ some Network.udp
    → IsValid s
    → IsValid (act (send_udp c d t) s)
unfolding open_as
send_udp-IsValid c d t s h v = act-IsValid (send_udp c d t) s h (λ k. refl) v

handle_keep-IsValid :
    (meta : Meta) (d : List ℕ) (s : State) → IsValid s → IsValid (handle_keep meta d s)
unfolding handle_keep
handle_keep-IsValid meta d s v = elim (Option-cases (lookup meta.sid s.sessions)) [
  | inl e ↦ rw (e, handle_keep) v
  | inr (tcp c, e) ↦ rw (e, handle_keep) (send_tcp-IsValid c d s (v.held meta.sid (tcp c) e) v)
  | inr (udp c, e) ↦ elim (Option-cases meta.target) [
    | inl f ↦ rw (e, f, handle_keep) v
    | inr (t, f) ↦ rw (e, f, handle_keep) (send_udp-IsValid c d t s (v.held meta.sid (udp c) e) v)
  ]
]

-- Channel `c` is open as `n` and no session has it yet.
record IsReady (c : ℕ) (n : Network) (s : State) : Type 0 where
  valid : IsValid s
  ready : open_as c s.effects ≡ some n
  free : (j : ℕ) (b : Sub) → lookup j s.sessions ≡ some b → channel_of b ≢ c

register-IsValid :
    (sid : ℕ) (sub : Sub) (s : State)
    → IsReady (channel_of sub) (network_of sub) s
    → IsValid (register sid sub s)
unfolding register
register-IsValid sid sub s r = record {
  lawful =
      IsLawful-drop_sender (lookup sid s.sessions) s.effects (λ b e. r.valid.held sid b e)
        r.valid.lawful;
  fresh = λ c h. open_as-drop_sender-none c (lookup sid s.sessions) s.effects (r.valid.fresh c h);
  held = λ j b e. elim (insert-inv sid j sub s.sessions e) [
    | inl (same, q) ↦ rw q (
        open_as-drop_sender (channel_of sub) (lookup sid s.sessions) s.effects
          (λ x f. r.free sid x f)
        ∙ r.ready)
    | inr (ne, k) ↦
        open_as-drop_sender (channel_of b) (lookup sid s.sessions) s.effects
          (λ x f same. ne (r.valid.once j sid b x k f (sym same)))
        ∙ r.valid.held j b k
  ];
  once = λ i j a b e f h. elim (insert-inv sid i sub s.sessions e) [
    | inl (p, q) ↦ elim (insert-inv sid j sub s.sessions f) [
      | inl (p', q') ↦ p ∙ sym p'
      | inr (ne, k) ↦ absurd (r.free j b k cc)
    ]
    | inr (ne, k) ↦ elim (insert-inv sid j sub s.sessions f) [
      | inl (p', q') ↦ absurd (r.free i a k cc)
      | inr (ne', k') ↦ r.valid.once i j a b k k' h
    ]
  ];
}

opened-IsReady :
    (e : Effect) (n : Network) (s : State)
    → MayFollow e s.effects
    → open_as s.next_channel (e ∷ s.effects) ≡ some n
    → ((c : ℕ) → c ≢ s.next_channel → open_as c (e ∷ s.effects) ≡ open_as c s.effects)
    → IsValid s
    → IsReady s.next_channel n (opened e s)
opened-IsReady e n s m h k v = record {
  valid = record {
    lawful = (m, v.lawful);
    fresh = λ c le. k c (λ q. absurd (omega arith)) ∙ v.fresh c (omega arith);
    held = λ j b q. k (channel_of b) (unused j b q) ∙ v.held j b q;
    once = v.once;
  };
  ready = h;
  free = unused;
}
  where
    unused : (j : ℕ) (b : Sub) → lookup j s.sessions ≡ some b → channel_of b ≢ s.next_channel
    unused j b q same = cc (v.held j b q, v.fresh (channel_of b) (rw same (omega arith)))

first_packet-IsReady :
    (c : ℕ) (t : Destination) (d : Option (List ℕ)) (s : State)
    → IsReady c Network.udp s
    → IsReady c Network.udp (first_packet c t d s)
unfolding open_as
first_packet-IsReady c t none s r = r
first_packet-IsReady c t (some d) s r = record {
  valid = send_udp-IsValid c d t s r.ready r.valid;
  ready = r.ready;
  free = r.free;
}

first_chunk-IsReady :
    (c : ℕ) (d : Option (List ℕ)) (s : State)
    → IsReady c Network.tcp s
    → IsReady c Network.tcp (first_chunk c d s)
unfolding open_as
first_chunk-IsReady c none s r = r
first_chunk-IsReady c (some []) s r = r
first_chunk-IsReady c (some (b ∷ d)) s r = record {
  valid = send_tcp-IsValid c (b ∷ d) s r.ready r.valid;
  ready = r.ready;
  free = r.free;
}

open_tcp-IsReady :
    (sid : ℕ) (t : Destination) (s : State)
    → IsValid s
    → IsReady s.next_channel Network.tcp (opened (open_tcp s.next_channel sid t) s)
unfolding open_as
open_tcp-IsReady sid t s v =
    opened-IsReady _ _ s (v.fresh s.next_channel (omega arith)) (ground arith)
      (λ c ne. ground (arith, ==_iff c s.next_channel)) v

open_udp-IsReady :
    (sid : ℕ) (t : Destination) (s : State)
    → IsValid s
    → IsReady s.next_channel Network.udp (opened (open_udp s.next_channel sid t) s)
unfolding open_as
open_udp-IsReady sid t s v =
    opened-IsReady _ _ s (v.fresh s.next_channel (omega arith)) (ground arith)
      (λ c ne. ground (arith, ==_iff c s.next_channel)) v

new_tcp-IsValid :
    (sid : ℕ) (t : Destination) (d : Option (List ℕ)) (s : State)
    → IsValid s
    → IsValid (
        register sid
          (tcp s.next_channel)
          (first_chunk s.next_channel d (opened (open_tcp s.next_channel sid t) s)))
new_tcp-IsValid sid t d s v =
    register-IsValid sid (tcp s.next_channel) _
      (first_chunk-IsReady s.next_channel d _ (open_tcp-IsReady sid t s v))

new_udp-IsValid :
    (sid : ℕ) (t : Destination) (d : Option (List ℕ)) (s : State)
    → IsValid s
    → IsValid (
        register sid
          (udp s.next_channel)
          (first_packet s.next_channel t d (opened (open_udp s.next_channel sid t) s)))
new_udp-IsValid sid t d s v =
    register-IsValid sid (udp s.next_channel) _
      (first_packet-IsReady s.next_channel t d _ (open_udp-IsReady sid t s v))

open_session-IsValid :
    (sid : ℕ) (t : Destination) (d : Option (List ℕ)) (s : State)
    → IsValid s
    → IsValid (open_session sid t d s)
unfolding open_session
open_session-IsValid sid t d s v = by_network t.network refl
  where
    by_network : (n : Network) → t.network ≡ n → IsValid (open_session sid t d s)
    by_network Network.udp e = rw (e, open_session) (new_udp-IsValid sid t d s v)
    by_network Network.tcp e = rw (e, open_session) (new_tcp-IsValid sid t d s v)
    by_network Network.unix e = rw (e, open_session) (new_tcp-IsValid sid t d s v)
    by_network Network.unknown e = rw (e, open_session) (new_tcp-IsValid sid t d s v)

handle_new-IsValid :
    (meta : Meta) (d : Option (List ℕ)) (s : State) → IsValid s → IsValid (handle_new meta d s)
unfolding handle_new
handle_new-IsValid meta d s v = elim (Option-cases meta.target) [
  | inl e ↦ rw (e, handle_new) v
  | inr (t, e) ↦ rw (e, handle_new) (open_session-IsValid meta.sid t d s v)
]

kept-IsValid : (meta : Meta) (d : Option (List ℕ)) (s : State) → IsValid s → IsValid (kept meta d s)
kept-IsValid meta none s v = v
kept-IsValid meta (some d) s v = handle_keep-IsValid meta d s v

-- Whatever frame comes, its handler keeps the state valid.
pub handle-IsValid :
    (meta : Meta) (d : Option (List ℕ)) (s t : State)
    → IsValid s
    → handle meta d s ≡ ok t
    → IsValid t
unfolding handle
handle-IsValid meta d s t v h = elim (Bool-cases (meta.status == st_new)) [
  | inl e ↦ become (handle_new-IsValid meta d s v) (rw (e, handle) at h)
  | inr e ↦ elim (Bool-cases (meta.status == st_keep)) [
    | inl f ↦ become (kept-IsValid meta d s v) (rw (e, f, handle) at h)
    | inr f ↦ elim (Bool-cases (meta.status == st_end)) [
      | inl g ↦ become (handle_end-IsValid meta.sid s v) (rw (e, f, g, handle) at h)
      | inr g ↦ elim (Bool-cases (meta.status == st_keepalive)) [
        | inl k ↦ become v (rw (e, f, g, k, handle) at h)
        | inr k ↦ cc (rw (e, f, g, k, handle) at h)
      ]
    ]
  ]
]
  where
    become : {u : State} → IsValid u → ◌≡◌ {A = Result IoError State} (ok u) (ok t) → IsValid t
    become {u} w q = let e : u ≡ t = cc in subst IsValid e w

-- What a carrier's bytes can lead to.
pub data Reaches (s : State) (buf : List ℕ) : State → List ℕ → Type 0 where
  here : Reaches s buf s buf
  step :
      {t u : State} {mid rest : List ℕ}
      → Reaches s buf t mid
      → round t mid ≡ again u rest
      → Reaches s buf u rest

round-IsValid :
    (s t : State) (buf rest : List ℕ) → IsValid s → round s buf ≡ again t rest → IsValid t
unfolding round
round-IsValid s t buf rest v h = elim (Result-cases (u16 buf)) [
  | inr (x, e) ↦ cc (rw (e, round) at h)
  | inl ((n, body), e) ↦ elim (Result-cases (read_frame n body)) [
    | inr (x, q) ↦ cc (rw (e, q, round) at h)
    | inl (((m, d), more), q) ↦ elim (Result-cases (handle m d s)) [
      | inr (x, k) ↦ cc (rw (e, q, k, round) at h)
      | inl (u, k) ↦
          let same : u ≡ t = cc (rw (e, q, k, round) at h) in
          handle-IsValid m d s t v (k ∙ ap ok same)
    ]
  ]
]

start-IsValid : IsValid start
unfolding open_as
start-IsValid = record {
  lawful = tt;
  fresh = λ c h. refl;
  held = λ sid sub h. unfold lookup in absurd (none-some h);
  once = λ i j a b h. unfold lookup in absurd (none-some h);
}
  where
    none-some : {b : Sub} → none ≡ some b → ⊥
    none-some h = cc

-- Whatever bytes a client sends, at every round of the loop: data goes only to a channel that was
-- opened and not closed since, as the kind it was opened as; no channel is closed twice; a session in
-- the map has an open channel of its kind; no two sessions share one.
pub reached-IsValid : (buf rest : List ℕ) (t : State) → Reaches start buf t rest → IsValid t
reached-IsValid buf _ _ here = start-IsValid
reached-IsValid buf rest u (step {t} {mid} r e) =
    round-IsValid t u mid rest (reached-IsValid buf mid t r) e
