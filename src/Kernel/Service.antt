-- ===== src/Kernel/Service.antt =====
-- kernel/src/runtime/service/mod.rs: services that are swapped while they run, nodes that swap only
-- when their configuration changes, and trees of nodes by key. The watch channel is an interface; a
-- cancellation token is a number, and a handle keeps the numbers that it cancelled.
pub mod Watch
pub mod Swap
pub mod Keyed
pub mod Refines
pub mod Stale
mod Tests
use xray_rs.Base.{
  ℕ, zero, suc, ◌+◌, Bool, true, false, not, Option, none, some, List, [], ◌∷◌, ◌++◌, if◌then◌else◌,
  any, eq_bytes,
}
use xray_rs.Base.Eq.{Eq, bytes_eq}
use xray_rs.Base.Dict.{Dict, lookup, insert, remove}
use xray_rs.Base.Result.{Result, ok, err}
use xray_rs.Kernel.Service.Watch.{
  Slot, updating, ready, Polled, item, closed, nothing, WatchChannel,
}

pub data UpdatePolicy : Type 0 where
  abort drain : UpdatePolicy

-- What `poll_ready` says.
pub data Poll (E : Type 0) : Type 0 where
  pending done : Poll E
  failed : E → Poll E

module _ {S : Type 0} (W : WatchChannel S) where
  -- The consumer's side: the stream of the slots, and the service that it saw last.
  pub record SwappableService : Type 0 where
    pub rx : W.Receiver
    pub stream : W.Stream
    pub ready_service : Option S

  -- `SwappableService::from_receiver`
  unfoldable pub from_receiver : W.Receiver → SwappableService
  from_receiver rx = record { rx = rx; stream = W.subscribe rx; ready_service = none }

  -- `Clone for SwappableService`
  unfoldable pub clone : SwappableService → SwappableService
  clone s = from_receiver s.rx

  -- The controller's side.
  pub record SwapHandle : Type 0 where
    pub tx : W.Sender
    pub policy : UpdatePolicy
    pub token : ℕ
    pub cancelled : List ℕ

module _ {S : Type 0} (W : WatchChannel S) where
  -- What a slot leaves for `ready`.
  abbrev pub service_of : Slot S → Option S
  service_of updating = none
  service_of (ready s) = some s

  -- The loop of `poll_ready` over the slots that the stream has.
  unfoldable pub drain_slots : ℕ → W.Sender → SwappableService W → SwappableService W
  drain_slots zero tx s = s
  drain_slots (suc fuel) tx s =
      let (polled, stream) = W.poll_next tx s.stream in
      elim polled [
        | item slot ↦
            drain_slots fuel tx (record s { stream = stream; ready_service = service_of slot })
        | closed ↦ record s { stream = stream }
        | nothing ↦ record s { stream = stream }
      ]

  -- `poll_ready`, over that of the service itself.
  unfoldable pub poll_ready :
      {E : Type 0}
      → (inner : S → Poll E) → W.Sender
      → SwappableService W
      → Poll E × SwappableService W
  poll_ready inner tx s =
      let t = drain_slots 2 tx s in (elim t.ready_service [ none ↦ pending | some i ↦ inner i ], t)

  -- `call`
  unfoldable pub call :
      {E Q R : Type 0}
      → (inner : S → Q → Result E R) → (not_ready : E) → Q
      → SwappableService W
      → Result E R
  call inner not_ready req s = elim s.ready_service [ none ↦ err not_ready | some i ↦ inner i req ]

  -- `SwapHandle::new`
  unfoldable pub new_handle : S → UpdatePolicy → SwapHandle W × SwappableService W
  new_handle initial policy =
      let (tx, rx) = W.channel (ready initial) in
      (record { tx = tx; policy = policy; token = 0; cancelled = [] }, from_receiver W rx)

  -- What a policy cancels when a generation ends.
  abbrev pub cancels : UpdatePolicy → ℕ → List ℕ → List ℕ
  cancels abort token cancelled = token ∷ cancelled
  cancels drain token cancelled = cancelled

  -- The new generation, behind the slot `Updating`.
  unfoldable pub publish : S → SwapHandle W → Bool × SwapHandle W
  publish new h =
      let (sent, tx) = W.send (ready new) h.tx in
      (
        sent,
        record h { tx = tx; token = h.token + 1; cancelled = cancels h.policy h.token h.cancelled },
      )

  -- `SwapHandle::update`
  unfoldable pub update : S → SwapHandle W → Bool × SwapHandle W
  update new h =
      let (sent, tx) = W.send updating h.tx in
      if sent then publish new (record h { tx = tx }) else (false, record h { tx = tx })

module _ (C : Type 0) {S : Type 0} (W : WatchChannel S) where
  pub record Node : Type 0 where
    pub config : C
    pub handle : SwapHandle W

module _ {C S : Type 0} ⦃e : Eq C⦄ (W : WatchChannel S) where
  -- `Node::new`
  unfoldable pub new_node : (build : C → S) → C → UpdatePolicy → Node C W × SwappableService W
  new_node build config policy =
      let (handle, service) = new_handle W (build config) policy in
      (record { config = config; handle = handle }, service)

  -- `Node::reconfigure`
  unfoldable pub reconfigure : (build : C → S) → C → Node C W → Bool × Node C W
  reconfigure build new n =
      let (sent, handle) = update W (build new) n.handle in
      if e.beq n.config new then (false, n) else (sent, record { config = new; handle = handle })

-- What became of each key.
pub record Reconcile : Type 0 where
  pub added : List (List ℕ)
  pub updated : List (List ℕ)
  pub removed : List (List ℕ)
  pub unchanged : List (List ℕ)

abbrev pub empty_report : Reconcile
empty_report = record { added = []; updated = []; removed = []; unchanged = [] }

module _ (C : Type 0) {S : Type 0} (W : WatchChannel S) where
  pub record KeyedTree : Type 0 where
    pub nodes : Dict (List ℕ) (Node C W)
    pub services : Dict (List ℕ) (SwappableService W)
    pub tree_policy : UpdatePolicy

  abbrev pub new_tree : UpdatePolicy → KeyedTree
  new_tree policy = record { nodes = []; services = []; tree_policy = policy }

  -- `KeyedTree::service`: a clone, which subscribes again.
  unfoldable pub service : List ℕ → KeyedTree → Option (SwappableService W)
  service key t = elim (lookup key t.services) [ none ↦ none | some s ↦ some (clone W s) ]

module _ {C S : Type 0} ⦃e : Eq C⦄ (W : WatchChannel S) (build : List ℕ → C → S) where
  -- One entry of the new configuration.
  unfoldable pub reconcile_node :
      List ℕ → C → Node C W → KeyedTree C W × Reconcile → KeyedTree C W × Reconcile
  reconcile_node key config n (t, report) =
      let (swapped, m) = reconfigure W (build key) config n in
      (
        record t { nodes = insert key m t.nodes },
        if swapped
            then record report { updated = report.updated ++ (key ∷ []) }
            else record report { unchanged = report.unchanged ++ (key ∷ []) },
      )

  unfoldable pub add_node : List ℕ → C → KeyedTree C W × Reconcile → KeyedTree C W × Reconcile
  add_node key config (t, report) =
      let (n, s) = new_node W (build key) config t.tree_policy in
      (
        record t { nodes = insert key n t.nodes; services = insert key s t.services },
        record report { added = report.added ++ (key ∷ []) },
      )

  unfoldable pub reconcile_entry :
      List ℕ → C → KeyedTree C W × Reconcile → KeyedTree C W × Reconcile
  reconcile_entry key config st = elim (lookup key st.0.nodes) [
    | some n ↦ reconcile_node key config n st
    | none ↦ add_node key config st
  ]

  unfoldable pub reconcile_entries :
      List (List ℕ × C) → KeyedTree C W × Reconcile → KeyedTree C W × Reconcile
  reconcile_entries [] st = st
  reconcile_entries ((key, config) ∷ configs) st =
      reconcile_entries configs (reconcile_entry key config st)

  -- The keys of the tree that the new configuration does not have.
  unfoldable pub stale_keys : List (List ℕ × C) → Dict (List ℕ) (Node C W) → List (List ℕ)
  stale_keys configs [] = []
  stale_keys configs ((key, n) ∷ nodes) =
      let rest = stale_keys configs nodes in
      if any (λ (p : List ℕ × C). eq_bytes key p.0) configs then rest else key ∷ rest

  unfoldable pub drop_keys : List (List ℕ) → KeyedTree C W × Reconcile → KeyedTree C W × Reconcile
  drop_keys [] st = st
  drop_keys (key ∷ keys) (t, report) = drop_keys keys (
    record t { nodes = remove key t.nodes; services = remove key t.services },
    record report { removed = report.removed ++ (key ∷ []) },
  )

  -- `KeyedTree::reconcile`
  unfoldable pub reconcile : List (List ℕ × C) → KeyedTree C W → KeyedTree C W × Reconcile
  reconcile configs t =
      let st = reconcile_entries configs (t, empty_report) in
      drop_keys (stale_keys configs st.0.nodes) st
