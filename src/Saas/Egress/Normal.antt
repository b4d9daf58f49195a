-- ===== src/Saas/Egress/Normal.antt =====
-- saas/src/egress_compile.rs: the runs of the normalizer, the tags that they give and the rules that
-- they compile to.
use xray_rs.Base.{
  ℕ, suc, ◌≤◌, ◌≡◌, ◌≢◌, ◌⊎◌, refl, ap, sym, ◌∙◌, inl, inr, List, [], ◌∷◌, ◌++◌, All, arith,
}
use mathlib.Core.Path.{subst}
use xray_rs.Base.Text.{bytes}
use xray_rs.Base.Eq.{bytes_eq}
use xray_rs.Base.Dict.{lookup, insert, lookup-insert_ne}
use xray_rs.Base.Result.{ok, Result-cases}
use xray_rs.Kernel.Dispatch.{OutboundList, build_on}
use xray_rs.Kernel.Route.Condition.{Condition}
use xray_rs.Kernel.Route.Balance.{random}
use xray_rs.Kernel.Route.Table.{new_rule}
use xray_rs.Proxy.Outbound.{Outbound}
use xray_rs.Saas.Egress.{
  OutSpec, RouteBlock, RuleExpr, NormalizedRoute, NamedOutbound, parse_rules, index_tag,
  default_direct, only_out, normalize_routes, rule_conditions, compile_rules,
}
use xray_rs.Saas.Egress.Tags.{spelled-index_tag, index_tag-inj}

-- What a run of the normalizer means: a route without effective rules is skipped, and any other one
-- has one outbound.
pub data IsNormal : ℕ → List RouteBlock → List NormalizedRoute → List NamedOutbound → Type 0 where
  done : {idx : ℕ} → IsNormal idx [] [] []
  skipped :
      {idx : ℕ} {block : RouteBlock} {blocks : List RouteBlock} {ns : List NormalizedRoute}
      {os : List NamedOutbound}
      → parse_rules block.rules ≡ []
      → IsNormal (suc idx) blocks ns os
      → IsNormal idx (block ∷ blocks) ns os
  kept :
      {idx : ℕ} {block : RouteBlock} {blocks : List RouteBlock} {ns : List NormalizedRoute}
      {os : List NamedOutbound} {rule : RuleExpr} {rules : List RuleExpr} {spec : OutSpec}
      → parse_rules block.rules ≡ rule ∷ rules
      → block.outs ≡ spec ∷ []
      → IsNormal (suc idx) blocks ns os
      → IsNormal idx
          (block ∷ blocks)
          (record { tag = index_tag idx; rules = rule ∷ rules } ∷ ns)
          (record { tag = index_tag idx; spec = spec } ∷ os)

only_out-inv :
    (tag : List ℕ) (outs : List OutSpec) (spec : OutSpec)
    → only_out tag outs ≡ ok spec
    → outs ≡ spec ∷ []
unfolding only_out
only_out-inv tag [] spec h = cc h
only_out-inv tag (s ∷ []) spec h = cc h
only_out-inv tag (s ∷ t ∷ outs) spec h = cc h

pub List-cases : {A : Type 0} (xs : List A) → (xs ≡ []) ⊎ ((x : A) × (ys : List A) × (xs ≡ x ∷ ys))
List-cases [] = inl refl
List-cases (x ∷ xs) = inr (x, xs, refl)

pub normalize_routes-IsNormal :
    (idx : ℕ) (blocks : List RouteBlock) (ns : List NormalizedRoute) (os : List NamedOutbound)
    → normalize_routes idx blocks ≡ ok (ns, os)
    → IsNormal idx blocks ns os
unfolding normalize_routes
normalize_routes-IsNormal idx [] ns os h =
    let n : [] ≡ ns = cc h in
    let o : [] ≡ os = cc h in
    subst (λ x. IsNormal idx [] x os) n (subst (λ y. IsNormal idx [] [] y) o done)
normalize_routes-IsNormal idx (block ∷ blocks) ns os h =
    elim (List-cases (parse_rules block.rules)) [
      | inl e ↦
          skipped e
            (normalize_routes-IsNormal (suc idx) blocks ns os (rw (e, normalize_routes) at h))
      | inr (rule, rules, e) ↦ elim (Result-cases (only_out (index_tag idx) block.outs)) [
        | inr (x, q) ↦ absurd (cc (rw (e, normalize_routes, q) at h))
        | inl (spec, q) ↦ elim (Result-cases (normalize_routes (suc idx) blocks)) [
          | inr (x, p) ↦ absurd (cc (rw (e, normalize_routes, q, p) at h))
          | inl ((ms, ps), p) ↦
              let n : record { tag = index_tag idx; rules = rule ∷ rules } ∷ ms ≡ ns =
                cc (rw (e, normalize_routes, q, p) at h) in
              let o : record { tag = index_tag idx; spec = spec } ∷ ps ≡ os =
                cc (rw (e, normalize_routes, q, p) at h) in
              subst (λ x. IsNormal idx (block ∷ blocks) x os) n
                (subst
                  (λ y.
                    IsNormal idx (block ∷ blocks)
                      (record { tag = index_tag idx; rules = rule ∷ rules } ∷ ms) y)
                  o
                  (kept e (only_out-inv (index_tag idx) block.outs spec q)
                    (normalize_routes-IsNormal (suc idx) blocks ms ps p)))
        ]
      ]
    ]

-- The tags that can come at or behind a route.
abbrev pub IsFrom : ℕ → List ℕ → Type 0
IsFrom idx t = (t ≡ default_direct) ⊎ ((j : ℕ) × (idx ≤ j) × (t ≡ index_tag j))

-- The first byte, 0 if there is none.
abbrev initial : List ℕ → ℕ
initial [] = 0
initial (c ∷ s) = c

pub index_tag-other : (idx : ℕ) (t : List ℕ) → IsFrom (suc idx) t → index_tag idx ≢ t
index_tag-other idx t (inl e) h =
    let (s, q, _) = spelled-index_tag idx in
    let same : bytes "route-" ++ s ≡ default_direct = sym q ∙ h ∙ e in
    let initials : 114 ≡ 100 = ap initial same in omega (arith, initials)
index_tag-other idx t (inr (j, l, e)) h =
    let same : idx ≡ j = index_tag-inj idx j (h ∙ e) in omega (arith, l, same)

pub IsFrom-weaken : (idx : ℕ) (t : List ℕ) → IsFrom (suc idx) t → IsFrom idx t
IsFrom-weaken idx t (inl e) = inl e
IsFrom-weaken idx t (inr (j, l, e)) = inr (j, omega (arith, l), e)

-- A tag that no later pair has keeps its outbound.
pub get-build_on :
    (t : List ℕ) (items : List (List ℕ × Outbound)) (acc : OutboundList Outbound)
    → All (λ (p : List ℕ × Outbound). t ≢ p.0) items
    → lookup t (build_on items acc) ≡ lookup t acc
unfolding build_on
get-build_on t [] acc a = refl
get-build_on t ((u, o) ∷ items) acc (h, a) =
    get-build_on t items (insert u o acc) a ∙ lookup-insert_ne u t o acc h

pub compile_rules-none :
    (n : NormalizedRoute) (ns : List NormalizedRoute)
    → rule_conditions n.rules ≡ []
    → compile_rules (n ∷ ns) ≡ compile_rules ns
unfolding compile_rules
compile_rules-none n ns e = rw (e, compile_rules) refl

pub compile_rules-rule :
    (n : NormalizedRoute) (ns : List NormalizedRoute) (c : Condition) (cs : List Condition)
    → rule_conditions n.rules ≡ c ∷ cs
    → compile_rules (n ∷ ns) ≡ new_rule (c ∷ cs) (n.tag ∷ []) random ∷ compile_rules ns
unfolding compile_rules
compile_rules-rule n ns c cs e = rw (e, compile_rules) refl
