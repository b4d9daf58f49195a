-- ===== src/Kernel/Service/Swap.antt =====
-- kernel/src/runtime/service/mod.rs: what a swap does to a handle and to its consumers.
use xray_rs.Base.{ℕ, ◌+◌, suc, ◌≡◌, refl, ◌∙◌, ◌⊎◌, inl, inr, List, ◌∷◌, true, false, Bool-cases}
use xray_rs.Base.Result.{Result, err}
use xray_rs.Kernel.Service.Watch.{
  Slot, updating, ready, Polled, item, closed, nothing, WatchChannel, IsLawful,
}
use xray_rs.Kernel.Service.{
  UpdatePolicy, abort, drain, Poll, pending, SwappableService, SwapHandle, service_of, drain_slots,
  poll_ready, call, cancels, publish, update,
}

module _ {S : Type 0} (W : WatchChannel S) (L : IsLawful W) where
  -- The new service is out, in a new generation; a policy that aborts cancels the old one's token.
  pub record IsSwapped (new : S) (h k : SwapHandle W) : Type 0 where
    pub published : W.latest k.tx ≡ ready new
    pub token : k.token ≡ h.token + 1
    pub cancelled :
        ((h.policy ≡ abort) × (k.cancelled ≡ h.token ∷ h.cancelled))
        ⊎ ((h.policy ≡ drain) × (k.cancelled ≡ h.cancelled))
    pub has_receiver : W.has_receiver k.tx ≡ true
    pub policy : k.policy ≡ h.policy

  cancels_lem :
      (p : UpdatePolicy) (token : ℕ) (cancelled : List ℕ)
      → ((p ≡ abort) × (cancels W p token cancelled ≡ token ∷ cancelled))
        ⊎ ((p ≡ drain) × (cancels W p token cancelled ≡ cancelled))
  cancels_lem abort token cancelled = inl (refl, refl)
  cancels_lem drain token cancelled = inr (refl, refl)

  pub update_works :
      (new : S) (h : SwapHandle W)
      → W.has_receiver h.tx ≡ true
      → ((update W new h).0 ≡ true) × IsSwapped new h (update W new h).1
  unfolding update publish
  update_works new h r =
      let sent = L.send_works updating h.tx r in
      let r2 : W.has_receiver (W.send updating h.tx).1 ≡ true =
        L.has_receiver-send updating h.tx ∙ r in
      rw sent (
        L.send_works (ready new) (W.send updating h.tx).1 r2,
        record {
          published = L.latest-send (ready new) (W.send updating h.tx).1 r2;
          token = refl;
          cancelled = cancels_lem h.policy h.token h.cancelled;
          has_receiver = L.has_receiver-send (ready new) (W.send updating h.tx).1 ∙ r2;
          policy = refl;
        },
      )

  update_fails :
      (new : S) (h : SwapHandle W) → W.has_receiver h.tx ≡ false → update W new h ≡ (false, h)
  unfolding update
  update_fails new h r = rw (L.send_fails updating h.tx r) refl

  -- With a consumer a swap succeeds and publishes the new service in a new generation, whose start
  -- cancels the old token exactly if the policy aborts. Without one it fails and changes nothing.
  pub update_lem :
      (new : S) (h : SwapHandle W)
      → ((W.has_receiver h.tx ≡ true)
          × ((update W new h).0 ≡ true)
          × IsSwapped new h (update W new h).1)
        ⊎ ((W.has_receiver h.tx ≡ false) × (update W new h ≡ (false, h)))
  update_lem new h = elim (Bool-cases (W.has_receiver h.tx)) [
    | inl r ↦ let (a, b) = update_works new h r in inl (r, a, b)
    | inr r ↦ inr (r, update_fails new h r)
  ]

  -- What is polled is what the stream has not seen.
  drain_seen :
      (fuel : ℕ) (tx : W.Sender) (s : SwappableService W)
      → W.is_behind tx s.stream ≡ false
      → (drain_slots W (suc fuel) tx s).ready_service ≡ s.ready_service
  unfolding drain_slots
  drain_seen fuel tx s h = by_polled (W.poll_next tx s.stream).0 refl
    where
      by_polled :
          (p : Polled S)
          → (W.poll_next tx s.stream).0 ≡ p
          → (drain_slots W (suc fuel) tx s).ready_service ≡ s.ready_service
      by_polled (item v) e = absurd (L.poll_seen tx s.stream v h e)
      by_polled closed e = rw (e, drain_slots) refl
      by_polled nothing e = rw (e, drain_slots) refl

  drain_behind :
      (tx : W.Sender) (s : SwappableService W)
      → W.is_behind tx s.stream ≡ true
      → (drain_slots W 2 tx s).ready_service ≡ service_of W (W.latest tx)
  drain_behind tx s h = rw (drain_step tx s h) (drain_seen 0 tx _ (L.poll_behind tx s.stream h).1)
    where
      drain_step :
          (tx : W.Sender) (s : SwappableService W)
          → W.is_behind tx s.stream ≡ true
          → drain_slots W 2 tx s
            ≡ drain_slots W 1 tx (record s {
              stream = (W.poll_next tx s.stream).1;
              ready_service = service_of W (W.latest tx);
            })
      drain_step tx s h =
          unfold drain_slots in rw ((L.poll_behind tx s.stream h).0, drain_slots) refl

  -- What a slot makes of a poll and of a call.
  abbrev pub polled_by : {E : Type 0} → (S → Poll E) → Slot S → Poll E
  polled_by polls updating = pending
  polled_by polls (ready i) = polls i

  abbrev pub called_by : {E Q R : Type 0} → (S → Q → Result E R) → E → Q → Slot S → Result E R
  called_by calls not_ready q updating = err not_ready
  called_by calls not_ready q (ready i) = calls i q

  -- A consumer that has not seen the last slot polls its service and then calls that one; while a
  -- swap is under way it is not ready, and a call says so.
  pub poll_ready_latest :
      {E Q R : Type 0} (polls : S → Poll E) (calls : S → Q → Result E R) (not_ready : E) (q : Q)
      (tx : W.Sender) (s : SwappableService W)
      → W.is_behind tx s.stream ≡ true
      → ((poll_ready W polls tx s).0 ≡ polled_by polls (W.latest tx))
        × (call W calls not_ready q (poll_ready W polls tx s).1
            ≡ called_by calls not_ready q (W.latest tx))
  unfolding poll_ready call
  poll_ready_latest {E} {Q} {R} polls calls not_ready q tx s h =
      by_slot (W.latest tx) (drain_behind tx s h)
    where
      by_slot :
          (v : Slot S)
          → (drain_slots W 2 tx s).ready_service ≡ service_of W v
          → ((poll_ready W polls tx s).0 ≡ polled_by polls v)
            × (call W calls not_ready q (poll_ready W polls tx s).1 ≡ called_by calls not_ready q v)
      by_slot updating e = (rw (e, poll_ready) refl, rw (e, poll_ready, call) refl)
      by_slot (ready i) e = (rw (e, poll_ready) refl, rw (e, poll_ready, call) refl)
