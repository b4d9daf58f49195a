-- ===== src/Kernel/Service/Refines.antt =====
-- kernel/src/runtime/service/mod.rs: `reconcile` implements the map from keys to configurations.
use xray_rs.Base.{
  ℕ, ◌≡◌, refl, ap, ◌∙◌, sym, inl, inr, Bool, Option, none, some, List, [], ◌∷◌, if◌then◌else◌,
  Bool-cases, Option-cases, eq_bytes, eq_bytes_iff, All,
}
use xray_rs.Base.Eq.{Eq, bytes_eq}
use xray_rs.Base.Dict.{lookup}
use xray_rs.Kernel.Service.Watch.{WatchChannel, IsLawful}
use xray_rs.Kernel.Service.{Node, Reconcile, KeyedTree, reconcile_entry, reconcile_entries}
use xray_rs.Kernel.Service.Keyed.{
  wanted, IsValid, entry_node, entry_node-IsServing, entry-IsValid, lookup-entry_ne,
  lookup-entry_self, reconfigure_lem,
}

module _ {C S : Type 0} ⦃e : Eq C⦄ (W : WatchChannel S) (L : IsLawful W)
    (build : List ℕ → C → S) where
  abbrev pub config_of : Option (Node C W) → Option C
  config_of none = none
  config_of (some n) = some n.config

  -- The configuration of a key, in the tree.
  abbrev pub configured : List ℕ → KeyedTree C W → Option C
  configured key t = config_of (lookup key t.nodes)

  -- What an entry does to the configuration of a key.
  configured-entry :
      (j key : List ℕ) (c : C) (t : KeyedTree C W) (r : Reconcile)
      → IsValid W L build t
      → configured j (reconcile_entry W build key c (t, r)).0
        ≡ (if eq_bytes j key then some c else configured j t)
  configured-entry j key c t r v = elim (Bool-cases (eq_bytes j key)) [
    | inl same ↦
        let q : j ≡ key = (eq_bytes_iff j key).0 same in
        rw same (
          rw (q, lookup-entry_self W L build key c t r)
            (ap some (entry_node-IsServing W L build key c t v).1))
    | inr other ↦ rw other (
        ap config_of
          (lookup-entry_ne W L build j key c t r (λ q. cc (other, (eq_bytes_iff j key).1 q))))
  ]

  abbrev pub or_else : {A : Type 0} → Option A → Option A → Option A
  or_else none b = b
  or_else (some a) b = some a

  wanted_step :
      (j key : List ℕ) (c : C) (configs : List (List ℕ × C)) (d : Option C)
      → or_else (wanted j configs) (if eq_bytes j key then some c else d)
        ≡ or_else (wanted j ((key, c) ∷ configs)) d
  unfolding wanted
  wanted_step j key c configs d = elim (Option-cases (wanted j configs)) [
    | inl h ↦
        rw (h, wanted)
          (elim (Bool-cases (eq_bytes j key)) [ inl f ↦ rw f refl | inr f ↦ rw f refl ])
    | inr (x, h) ↦ rw (h, wanted) refl
  ]

  pub entries_lem :
      (configs : List (List ℕ × C)) (t : KeyedTree C W) (r : Reconcile)
      → IsValid W L build t
      → IsValid W L build (reconcile_entries W build configs (t, r)).0
        × ((j : List ℕ)
            → configured j (reconcile_entries W build configs (t, r)).0
              ≡ or_else (wanted j configs) (configured j t))
  unfolding reconcile_entries
  entries_lem [] t r v = (v, (λ j. unfold wanted in refl))
  entries_lem ((key, c) ∷ configs) t r v =
      let st = reconcile_entry W build key c (t, r) in
      let (w, h) = entries_lem configs st.0 st.1 (entry-IsValid W L build key c t r v) in
      (
        w,
        (λ j.
            h j
            ∙ ap (or_else (wanted j configs)) (configured-entry j key c t r v)
            ∙ wanted_step j key c configs (configured j t)),
      )

  -- An entry that wants for `j` what its node has leaves this node alone.
  kept-entry :
      (j key : List ℕ) (c : C) (t : KeyedTree C W) (r : Reconcile) (n : Node C W)
      → IsValid W L build t
      → lookup j t.nodes ≡ some n
      → (key ≡ j → c ≡ n.config)
      → lookup j (reconcile_entry W build key c (t, r)).0.nodes ≡ some n
  unfolding entry_node
  kept-entry j key c t r n v h same = elim (Bool-cases (eq_bytes j key)) [
    | inr other ↦
        lookup-entry_ne W L build j key c t r (λ q. cc (other, (eq_bytes_iff j key).1 q)) ∙ h
    | inl here ↦
        let q : j ≡ key = (eq_bytes_iff j key).0 here in
        let k : lookup key t.nodes ≡ some n = rw (← q) h in
        rw q (
          lookup-entry_self W L build key c t r
          ∙ rw (k, entry_node)
              (elim (reconfigure_lem W L build key c n (v.serving key n k)) [
                | inl (_, u) ↦ ap (λ (p : Bool × Node C W). some p.1) u
                | inr (ne, _, _, _) ↦ absurd (ne (sym (same (sym q))))
              ]))
  ]

  pub kept-entries :
      (configs : List (List ℕ × C)) (t : KeyedTree C W) (r : Reconcile) (j : List ℕ) (n : Node C W)
      → IsValid W L build t
      → lookup j t.nodes ≡ some n
      → All (λ (p : List ℕ × C). p.0 ≡ j → p.1 ≡ n.config) configs
      → lookup j (reconcile_entries W build configs (t, r)).0.nodes ≡ some n
  unfolding reconcile_entries
  kept-entries [] t r j n v h a = h
  kept-entries ((key, c) ∷ configs) t r j n v h (same, a) =
      let st = reconcile_entry W build key c (t, r) in
      kept-entries configs st.0 st.1 j n (entry-IsValid W L build key c t r v)
        (kept-entry j key c t r n v h same) a
