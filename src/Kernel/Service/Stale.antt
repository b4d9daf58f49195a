-- ===== src/Kernel/Service/Stale.antt =====
-- kernel/src/runtime/service/mod.rs: the keys that a new configuration drops, and the whole of `reconcile`.
use xray_rs.Base.{
  ℕ, ◌≡◌, refl, ap, ◌∙◌, sym, inl, inr, Bool, true, false, ◌||◌, none, some, List, [], ◌∷◌, ◌++◌,
  if◌then◌else◌, Bool-cases, Option-cases, any, eq_bytes, eq_bytes_iff, All, arith,
}
use xray_rs.Base.Eq.{Eq, bytes_eq}
use xray_rs.Base.Dict.{Dict, lookup, remove, lookup-remove}
use xray_rs.Kernel.Service.Watch.{WatchChannel, IsLawful}
use xray_rs.Kernel.Service.{
  Node, Reconcile, empty_report, KeyedTree, reconcile_entries, stale_keys, drop_keys, reconcile,
}
use xray_rs.Kernel.Service.Keyed.{wanted, IsValid}
use xray_rs.Kernel.Service.Refines.{config_of, configured, entries_lem, kept-entries}

-- Whether a configuration names a key.
abbrev names : {C : Type 0} → List ℕ → List (List ℕ × C) → Bool
names {C} key configs = any (λ (p : List ℕ × C). eq_bytes key p.0) configs

names-wanted :
    {C : Type 0} (key : List ℕ) (configs : List (List ℕ × C))
    → names key configs ≡ false
    → wanted key configs ≡ none
unfolding wanted
names-wanted key [] h = refl
names-wanted key ((k, c) ∷ configs) h =
    let here : eq_bytes key k ≡ false = ground arith in
    rw (names-wanted key configs (ground arith), here, wanted) refl

wanted-names :
    {C : Type 0} (key : List ℕ) (configs : List (List ℕ × C))
    → names key configs ≡ true
    → (c : C) × (wanted key configs ≡ some c)
unfolding wanted
wanted-names key [] h = absurd (cc h)
wanted-names key ((k, c) ∷ configs) h = elim (Option-cases (wanted key configs)) [
  | inr (d, e) ↦ (d, rw (e, wanted) refl)
  | inl e ↦ elim (Bool-cases (eq_bytes key k)) [
    | inl here ↦ (c, rw (e, here, wanted) refl)
    | inr other ↦ let (d, q) = wanted-names key configs (ground arith) in absurd (cc (q, e))
  ]
]

module _ {C S : Type 0} ⦃e : Eq C⦄ (W : WatchChannel S) (L : IsLawful W)
    (build : List ℕ → C → S) where
  -- A key that the configuration names is not stale, and one of the tree that it does not name is.
  stale_named :
      (j : List ℕ) (configs : List (List ℕ × C)) (nodes : Dict (List ℕ) (Node C W))
      → names j configs ≡ true
      → any (eq_bytes j) (stale_keys W build configs nodes) ≡ false
  unfolding stale_keys
  stale_named j configs [] h = refl
  stale_named j configs ((key, n) ∷ nodes) h = elim (Bool-cases (names key configs)) [
    | inl k ↦ rw (k, stale_keys) (stale_named j configs nodes h)
    | inr k ↦ elim (Bool-cases (eq_bytes j key)) [
      | inl same ↦ absurd (cc (h, k, ap (λ i. names i configs) ((eq_bytes_iff j key).0 same)))
      | inr other ↦ rw (k, stale_keys, other) (stale_named j configs nodes h)
    ]
  ]

  stale_unnamed :
      (j : List ℕ) (configs : List (List ℕ × C)) (nodes : Dict (List ℕ) (Node C W)) (n : Node C W)
      → names j configs ≡ false
      → lookup j nodes ≡ some n
      → any (eq_bytes j) (stale_keys W build configs nodes) ≡ true
  unfolding stale_keys lookup
  stale_unnamed j configs [] n h l = absurd (cc l)
  stale_unnamed j configs ((key, m) ∷ nodes) n h l = elim (Bool-cases (eq_bytes j key)) [
    | inl same ↦
        let k : names key configs ≡ false =
          cc (h, ap (λ i. names i configs) ((eq_bytes_iff j key).0 same)) in
        rw (k, stale_keys, same) refl
    | inr other ↦
        let rest = stale_unnamed j configs nodes n h (rw (other, lookup) at l) in
        elim (Bool-cases (names key configs)) [
          | inl k ↦ rw (k, stale_keys) rest
          | inr k ↦ rw (k, stale_keys, other) rest
        ]
  ]

  removed_step :
      {V : Type 0} (j key : List ℕ) (b : Bool) (d : Dict (List ℕ) V)
      → (if b then none else lookup j (remove key d))
        ≡ (if eq_bytes j key || b then none else lookup j d)
  removed_step j key true d = elim (Bool-cases (eq_bytes j key)) [
    | inl q ↦ rw q refl
    | inr q ↦ rw q refl
  ]
  removed_step j key false d = elim (Bool-cases (eq_bytes j key)) [
    | inl q ↦ rw (lookup-remove key j d, q) refl
    | inr q ↦ rw (lookup-remove key j d, q) refl
  ]

  drop_lem :
      (keys : List (List ℕ)) (t : KeyedTree C W) (r : Reconcile) (j : List ℕ)
      → (lookup j (drop_keys W build keys (t, r)).0.nodes
          ≡ (if any (eq_bytes j) keys then none else lookup j t.nodes))
        × (lookup j (drop_keys W build keys (t, r)).0.services
            ≡ (if any (eq_bytes j) keys then none else lookup j t.services))
  unfolding drop_keys
  drop_lem [] t r j = (refl, refl)
  drop_lem (key ∷ keys) t r j =
      let (a, b) =
        drop_lem keys (record t { nodes = remove key t.nodes; services = remove key t.services })
          (record r { removed = r.removed ++ (key ∷ []) }) j in
      (
        a ∙ removed_step j key (any (eq_bytes j) keys) t.nodes,
        b ∙ removed_step j key (any (eq_bytes j) keys) t.services,
      )

  -- After the drop, a key of the tree is one that the configuration names.
  dropped :
      {V : Type 0} (j : List ℕ) (configs : List (List ℕ × C)) (nodes : Dict (List ℕ) (Node C W))
      (d : Dict (List ℕ) V)
      → (lookup j nodes ≡ none → lookup j d ≡ none)
      → (if any (eq_bytes j) (stale_keys W build configs nodes) then none else lookup j d)
        ≡ (if names j configs then lookup j d else none)
  dropped j configs nodes d paired = elim (Bool-cases (names j configs)) [
    | inl h ↦ rw (h, stale_named j configs nodes h) refl
    | inr h ↦ elim (Option-cases (lookup j nodes)) [
      | inr (n, l) ↦ rw (h, stale_unnamed j configs nodes n h l) refl
      | inl l ↦
          rw (h, paired l)
            (elim (Bool-cases (any (eq_bytes j) (stale_keys W build configs nodes))) [
              | inl q ↦ rw q refl
              | inr q ↦ rw q refl
            ])
    ]
  ]

  -- The nodes and the consumers after `reconcile`, by those after its entries.
  after_drop :
      (configs : List (List ℕ × C)) (t : KeyedTree C W) (j : List ℕ)
      → IsValid W L build (reconcile_entries W build configs (t, empty_report)).0
      → let u = (reconcile_entries W build configs (t, empty_report)).0 in
        (lookup j (reconcile W build configs t).0.nodes
          ≡ (if names j configs then lookup j u.nodes else none))
        × (lookup j (reconcile W build configs t).0.services
            ≡ (if names j configs then lookup j u.services else none))
  unfolding reconcile
  after_drop configs t j v =
      let st = reconcile_entries W build configs (t, empty_report) in
      let (a, b) = drop_lem (stale_keys W build configs st.0.nodes) st.0 st.1 j in
      (
        a ∙ dropped j configs st.0.nodes st.0.nodes (λ h. h),
        b ∙ dropped j configs st.0.nodes st.0.services (v.paired j),
      )

  module _ (configs : List (List ℕ × C)) (t : KeyedTree C W) (v : IsValid W L build t) where
    mid : KeyedTree C W
    mid = (reconcile_entries W build configs (t, empty_report)).0

    mid-IsValid : IsValid W L build mid
    unfolding mid
    mid-IsValid = (entries_lem W L build configs t empty_report v).0

    nodes_named :
        (j : List ℕ)
        → names j configs ≡ true
        → (lookup j (reconcile W build configs t).0.nodes ≡ lookup j mid.nodes)
          × (lookup j (reconcile W build configs t).0.services ≡ lookup j mid.services)
    unfolding mid
    nodes_named j h =
        let (a, b) = after_drop configs t j mid-IsValid in (a ∙ rw h refl, b ∙ rw h refl)

    nodes_unnamed :
        (j : List ℕ)
        → names j configs ≡ false
        → (lookup j (reconcile W build configs t).0.nodes ≡ none)
          × (lookup j (reconcile W build configs t).0.services ≡ none)
    unfolding mid
    nodes_unnamed j h =
        let (a, b) = after_drop configs t j mid-IsValid in (a ∙ rw h refl, b ∙ rw h refl)

    reconcile-IsValid : IsValid W L build (reconcile W build configs t).0
    reconcile-IsValid = record {
      serving = λ j n h. elim (Bool-cases (names j configs)) [
        | inl k ↦ mid-IsValid.serving j n (sym (nodes_named j k).0 ∙ h)
        | inr k ↦ absurd (cc ((nodes_unnamed j k).0, h))
      ];
      paired = λ j h. elim (Bool-cases (names j configs)) [
        | inl k ↦ (nodes_named j k).1 ∙ mid-IsValid.paired j (sym (nodes_named j k).0 ∙ h)
        | inr k ↦ (nodes_unnamed j k).1
      ];
      served = λ j n h. elim (Bool-cases (names j configs)) [
        | inl k ↦
            let (s, w) = mid-IsValid.served j n (sym (nodes_named j k).0 ∙ h) in
            (s, (nodes_named j k).1 ∙ w)
        | inr k ↦ absurd (cc ((nodes_unnamed j k).0, h))
      ];
    }

    configured-reconcile :
        (j : List ℕ) → configured W L build j (reconcile W build configs t).0 ≡ wanted j configs
    unfolding mid
    configured-reconcile j = elim (Bool-cases (names j configs)) [
      | inr k ↦ rw ((nodes_unnamed j k).0, names-wanted j configs k) refl
      | inl k ↦
          let (c, w) = wanted-names j configs k in
          ap (config_of W L build) (nodes_named j k).0
          ∙ (entries_lem W L build configs t empty_report v).1 j
          ∙ rw w refl
    ]

    -- Reconciled, a tree has for each key the configuration that the new ones want, and no other key;
    -- each node has a consumer and its channel has the service of this configuration.
    pub reconcile_lem :
        IsValid W L build (reconcile W build configs t).0
        × ((j : List ℕ) → configured W L build j (reconcile W build configs t).0 ≡ wanted j configs)
    reconcile_lem = (reconcile-IsValid, configured-reconcile)

    -- In a valid tree over a lawful channel, a node whose key the entries name, every time with the
    -- configuration that the node has, is the node that it was: no swap, the same token.
    pub reconcile_keeps :
        (j : List ℕ) (n : Node C W)
        → lookup j t.nodes ≡ some n
        → wanted j configs ≡ some n.config
        → All (λ (p : List ℕ × C). p.0 ≡ j → p.1 ≡ n.config) configs
        → lookup j (reconcile W build configs t).0.nodes ≡ some n
    unfolding mid
    reconcile_keeps j n l w same = elim (Bool-cases (names j configs)) [
      | inl k ↦ (nodes_named j k).0 ∙ kept-entries W L build configs t empty_report j n v l same
      | inr k ↦ absurd (cc (w, names-wanted j configs k))
    ]
