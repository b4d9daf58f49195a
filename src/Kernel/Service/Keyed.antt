-- ===== src/Kernel/Service/Keyed.antt =====
-- kernel/src/runtime/service/mod.rs: a tree of nodes by key follows the wanted configuration.
use xray_rs.Base.{
  ℕ, ◌≡◌, ◌≢◌, refl, ap, ◌∙◌, sym, ◌⊎◌, inl, inr, true, false, Option, none, some, List, [], ◌∷◌,
  if◌then◌else◌, Bool-cases, Option-cases, eq_bytes, eq_bytes_iff, eq_bytes_refl,
}
use xray_rs.Base.Eq.{Eq, bytes_eq}
use xray_rs.Base.Dict.{lookup, lookup-insert}
use xray_rs.Kernel.Service.Watch.{ready, WatchChannel, IsLawful}
use xray_rs.Kernel.Service.{
  UpdatePolicy, SwappableService, new_handle, Node, new_node, reconfigure, Reconcile, KeyedTree,
  new_tree, reconcile_node, add_node, reconcile_entry,
}
use xray_rs.Kernel.Service.Swap.{IsSwapped, update_works}

-- The configuration that a list of entries wants for a key: that of its last entry.
unfoldable pub wanted : {C : Type 0} → List ℕ → List (List ℕ × C) → Option C
wanted key [] = none
wanted key ((k, c) ∷ configs) = elim (wanted key configs) [
  | some d ↦ some d
  | none ↦ if eq_bytes key k then some c else none
]

module _ {C S : Type 0} ⦃e : Eq C⦄ (W : WatchChannel S) (L : IsLawful W)
    (build : List ℕ → C → S) where
  -- The node's channel has a receiver, and the service that is out is that of the node's configuration.
  pub record IsServing (key : List ℕ) (n : Node C W) : Type 0 where
    pub has_receiver : W.has_receiver n.handle.tx ≡ true
    pub serves : W.latest n.handle.tx ≡ ready (build key n.config)

  new_node-IsServing :
      (key : List ℕ) (c : C) (policy : UpdatePolicy)
      → IsServing key (new_node W (build key) c policy).0
  unfolding new_node new_handle
  new_node-IsServing key c policy = record {
    has_receiver = L.has_receiver-channel (ready (build key c));
    serves = L.latest-channel (ready (build key c));
  }

  -- A node with this configuration is left alone; any other is swapped.
  pub reconfigure_lem :
      (key : List ℕ) (c : C) (n : Node C W)
      → IsServing key n
      → ((n.config ≡ c) × (reconfigure W (build key) c n ≡ (false, n)))
        ⊎ ((n.config ≢ c)
            × ((reconfigure W (build key) c n).0 ≡ true)
            × ((reconfigure W (build key) c n).1.config ≡ c)
            × IsSwapped W L (build key c) n.handle (reconfigure W (build key) c n).1.handle)
  unfolding reconfigure
  reconfigure_lem key c n s = elim (Bool-cases (e.beq n.config c)) [
    | inl q ↦ inl ((e.beq_iff n.config c).0 q, rw (q, reconfigure) refl)
    | inr q ↦
        let (sent, swapped) = update_works W L (build key c) n.handle s.has_receiver in
        inr (
          (λ same. cc (q, (e.beq_iff n.config c).1 same)),
          rw (q, reconfigure) sent,
          rw (q, reconfigure) refl,
          rw (q, reconfigure) swapped,
        )
  ]

  pub reconfigure-IsServing :
      (key : List ℕ) (c : C) (n : Node C W)
      → IsServing key n
      → IsServing key (reconfigure W (build key) c n).1
        × ((reconfigure W (build key) c n).1.config ≡ c)
  reconfigure-IsServing key c n s = elim (reconfigure_lem key c n s) [
    | inl (same, q) ↦ rw q (s, same)
    | inr (_, _, config, swapped) ↦ (
      record {
        has_receiver = swapped.has_receiver;
        serves = swapped.published ∙ ap (λ d. ready (build key d)) (sym config);
      },
      config,
    )
  ]

  -- Each node serves its own configuration, and has its consumer beside it.
  pub record IsValid (t : KeyedTree C W) : Type 0 where
    pub serving : (key : List ℕ) (n : Node C W) → lookup key t.nodes ≡ some n → IsServing key n
    pub paired : (key : List ℕ) → (lookup key t.nodes ≡ none → lookup key t.services ≡ none)
    pub served :
        (key : List ℕ) (n : Node C W)
        → lookup key t.nodes ≡ some n
        → (s : SwappableService W) × (lookup key t.services ≡ some s)

  -- The node of a key after its entry.
  unfoldable pub entry_node : List ℕ → C → KeyedTree C W → Node C W
  entry_node key c t = elim (lookup key t.nodes) [
    | some n ↦ (reconfigure W (build key) c n).1
    | none ↦ (new_node W (build key) c t.tree_policy).0
  ]

  entry-some :
      (key : List ℕ) (c : C) (t : KeyedTree C W) (r : Reconcile) (n : Node C W)
      → lookup key t.nodes ≡ some n
      → reconcile_entry W build key c (t, r) ≡ reconcile_node W build key c n (t, r)
  unfolding reconcile_entry
  entry-some key c t r n h = rw (h, reconcile_entry) refl

  entry-none :
      (key : List ℕ) (c : C) (t : KeyedTree C W) (r : Reconcile)
      → lookup key t.nodes ≡ none
      → reconcile_entry W build key c (t, r) ≡ add_node W build key c (t, r)
  unfolding reconcile_entry
  entry-none key c t r h = rw (h, reconcile_entry) refl

  lookup-entry :
      (j key : List ℕ) (c : C) (t : KeyedTree C W) (r : Reconcile)
      → lookup j (reconcile_entry W build key c (t, r)).0.nodes
        ≡ (if eq_bytes j key then some (entry_node key c t) else lookup j t.nodes)
  unfolding entry_node reconcile_node add_node
  lookup-entry j key c t r = elim (Option-cases (lookup key t.nodes)) [
    | inl h ↦ rw (entry-none key c t r h) (
        rw (h, entry_node) (lookup-insert key j (new_node W (build key) c t.tree_policy).0 t.nodes))
    | inr (n, h) ↦
        rw (entry-some key c t r n h)
          (rw (h, entry_node) (lookup-insert key j (reconfigure W (build key) c n).1 t.nodes))
  ]

  pub entry_node-IsServing :
      (key : List ℕ) (c : C) (t : KeyedTree C W)
      → IsValid t
      → IsServing key (entry_node key c t) × ((entry_node key c t).config ≡ c)
  unfolding entry_node new_node
  entry_node-IsServing key c t v = elim (Option-cases (lookup key t.nodes)) [
    | inl h ↦ rw (h, entry_node) (new_node-IsServing key c t.tree_policy, refl)
    | inr (n, h) ↦ rw (h, entry_node) (reconfigure-IsServing key c n (v.serving key n h))
  ]

  -- The consumers after an entry.
  services-entry :
      (j key : List ℕ) (c : C) (t : KeyedTree C W) (r : Reconcile)
      → IsValid t
      → ((j ≢ key)
          × (lookup j (reconcile_entry W build key c (t, r)).0.services ≡ lookup j t.services))
        ⊎ ((j ≡ key)
            × (s : SwappableService W) × (lookup j (reconcile_entry W build key c (t, r)).0.services
                ≡ some s))
  unfolding reconcile_node add_node
  services-entry j key c t r v = elim (Bool-cases (eq_bytes j key)) [
    | inl same ↦
        let q : j ≡ key = (eq_bytes_iff j key).0 same in
        elim (Option-cases (lookup key t.nodes)) [
          | inl h ↦ inr (
            q,
            (new_node W (build key) c t.tree_policy).1,
            rw (entry-none key c t r h) (
                rw (lookup-insert key j (new_node W (build key) c t.tree_policy).1 t.services, same)
                  refl),
          )
          | inr (n, h) ↦
              let (s, w) = v.served key n h in inr (q, s, rw (entry-some key c t r n h) (rw q w))
        ]
    | inr other ↦
        let ne : j ≢ key = λ q. cc (other, (eq_bytes_iff j key).1 q) in
        elim (Option-cases (lookup key t.nodes)) [
          | inl h ↦ inl (
            ne,
            rw (entry-none key c t r h) (
                rw
                  (lookup-insert key j (new_node W (build key) c t.tree_policy).1 t.services, other)
                  refl),
          )
          | inr (n, h) ↦ inl (ne, rw (entry-some key c t r n h) refl)
        ]
  ]

  pub lookup-entry_ne :
      (j key : List ℕ) (c : C) (t : KeyedTree C W) (r : Reconcile)
      → j ≢ key
      → lookup j (reconcile_entry W build key c (t, r)).0.nodes ≡ lookup j t.nodes
  lookup-entry_ne j key c t r ne = elim (Bool-cases (eq_bytes j key)) [
    | inl same ↦ absurd (ne ((eq_bytes_iff j key).0 same))
    | inr other ↦ lookup-entry j key c t r ∙ rw other refl
  ]

  pub lookup-entry_self :
      (key : List ℕ) (c : C) (t : KeyedTree C W) (r : Reconcile)
      → lookup key (reconcile_entry W build key c (t, r)).0.nodes ≡ some (entry_node key c t)
  lookup-entry_self key c t r = lookup-entry key key c t r ∙ rw (eq_bytes_refl key) refl

  pub entry-IsValid :
      (key : List ℕ) (c : C) (t : KeyedTree C W) (r : Reconcile)
      → IsValid t
      → IsValid (reconcile_entry W build key c (t, r)).0
  entry-IsValid key c t r v = record {
    serving = λ j n h. elim (services-entry j key c t r v) [
      | inl (ne, _) ↦ v.serving j n (sym (lookup-entry_ne j key c t r ne) ∙ h)
      | inr (q, _, _) ↦
          let w : entry_node key c t ≡ n = cc (
            lookup-entry_self key c t r,
            h,
            ap (λ k. lookup k (reconcile_entry W build key c (t, r)).0.nodes) q,
          ) in
          rw (q, ← w) (entry_node-IsServing key c t v).0
    ];
    paired = λ j h. elim (services-entry j key c t r v) [
      | inl (ne, k) ↦ k ∙ v.paired j (sym (lookup-entry_ne j key c t r ne) ∙ h)
      | inr (q, _, _) ↦ absurd (
          cc (
            lookup-entry_self key c t r,
            h,
            ap (λ k. lookup k (reconcile_entry W build key c (t, r)).0.nodes) q,
          ))
    ];
    served = λ j n h. elim (services-entry j key c t r v) [
      | inl (ne, k) ↦
          let (s, w) = v.served j n (sym (lookup-entry_ne j key c t r ne) ∙ h) in (s, k ∙ w)
      | inr (_, s, k) ↦ (s, k)
    ];
  }

  pub new_tree-IsValid : (policy : UpdatePolicy) → IsValid (new_tree C W policy)
  unfolding lookup
  new_tree-IsValid policy = record {
    serving = λ key n h. absurd (cc h);
    paired = λ key h. refl;
    served = λ key n h. absurd (cc h);
  }
