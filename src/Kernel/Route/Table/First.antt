-- ===== src/Kernel/Route/Table/First.antt =====
-- kernel/src/route/rule.rs: the first rule that matches decides, for one of its tags.
use xray_rs.Base.{
  ℕ, zero, suc, ◌<◌, ◌≡◌, refl, sym, ap, ◌∙◌, ◌⊎◌, arith, true, false, some, List, ◌∷◌, [], ◌++◌,
  inl, inr, Bool-cases, All, length, get_elem?,
}
use xray_rs.Kernel.Route.Balance.{LoadBalancer}
use xray_rs.Kernel.Route.Balance.Fair.{pick_in_range}
use xray_rs.Kernel.Route.Condition.{GeoMatcher, RouteQuery}
use xray_rs.Kernel.Route.Table.{
  RouteDecision, outbound, blackhole, MatchRule, rule_matches, picked, decide_among, decide,
  RouteTable, route_rules, route,
}
use mathlib.Core.Path.{subst}

-- No rule of `rules` matches.
abbrev pub NoneMatches : GeoMatcher → RouteQuery → List MatchRule → Type 0
NoneMatches geo q = All (λ rule. rule_matches geo q rule ≡ false)

-- `rule` is the first of `rules` that matches: those of `before` do not.
pub record IsFirst (geo : GeoMatcher) (q : RouteQuery) (rules before : List MatchRule)
    (rule : MatchRule) (behind : List MatchRule) : Type 0 where
  pub split : rules ≡ before ++ (rule ∷ behind)
  pub others : NoneMatches geo q before
  pub matched : rule_matches geo q rule ≡ true

module _ (geo : GeoMatcher) (r : ℕ) (q : RouteQuery) (default : RouteDecision) where
  -- Either no rule matches, the default decides and nothing changes; or the first that matches
  -- decides, and only its own balancer can have changed.
  Outcome : List MatchRule → RouteDecision × List MatchRule → Type 0
  Outcome rules (d, after) =
      (NoneMatches geo q rules × (d ≡ default) × (after ≡ rules))
      ⊎ ((before : List MatchRule) × (rule : MatchRule) × (behind : List MatchRule) × IsFirst geo q
            rules before rule behind
          × (d ≡ (decide rule r q).0)
          × (after ≡ before ++ ((decide rule r q).1 ∷ behind)))

  pub route_rules-match :
      (rule : MatchRule) (rules : List MatchRule)
      → rule_matches geo q rule ≡ true
      → route_rules geo r q default (rule ∷ rules)
        ≡ ((decide rule r q).0, (decide rule r q).1 ∷ rules)
  unfolding route_rules
  route_rules-match rule rules e = rw (e, route_rules) refl

  pub route_rules-skip :
      (rule : MatchRule) (rules : List MatchRule)
      → rule_matches geo q rule ≡ false
      → route_rules geo r q default (rule ∷ rules)
        ≡ ((route_rules geo r q default rules).0, rule ∷ (route_rules geo r q default rules).1)
  unfolding route_rules
  route_rules-skip rule rules e = rw (e, route_rules) refl

  Outcome-skip :
      (rule : MatchRule) (rules : List MatchRule) (o : RouteDecision × List MatchRule)
      → rule_matches geo q rule ≡ false
      → Outcome rules o
      → Outcome (rule ∷ rules) (o.0, rule ∷ o.1)
  unfolding Outcome
  Outcome-skip rule rules (d, after) e (inl (h, k, l)) = inl ((e, h), k, ap (λ t. rule ∷ t) l)
  Outcome-skip rule rules (d, after) e (inr (before, first, behind, f, k, l)) = inr (
    rule ∷ before,
    first,
    behind,
    record { split = ap (λ t. rule ∷ t) f.split; others = (e, f.others); matched = f.matched },
    k,
    ap (λ t. rule ∷ t) l,
  )

  route_rules_lem : (rules : List MatchRule) → Outcome rules (route_rules geo r q default rules)
  route_rules_lem [] = unfold route_rules Outcome in inl (tt, refl, refl)
  route_rules_lem (rule ∷ rules) = elim (Bool-cases (rule_matches geo q rule)) [
    | inl e ↦ subst (Outcome (rule ∷ rules)) (sym (route_rules-match rule rules e)) (
        unfold Outcome in
        inr ([], rule, rules, record { split = refl; others = tt; matched = e }, refl, refl))
    | inr e ↦
        subst (Outcome (rule ∷ rules)) (sym (route_rules-skip rule rules e))
          (Outcome-skip rule rules (route_rules geo r q default rules) e (route_rules_lem rules))
  ]

-- A flow that no rule matches goes where the default says and changes nothing. Any other flow goes
-- where the first rule that matches sends it, and only that rule's balancer can change.
pub route-IsFirst :
    (geo : GeoMatcher) (r : ℕ) (q : RouteQuery) (table : RouteTable)
    → (NoneMatches geo q table.rules × (route geo r q table ≡ (table.default, table)))
      ⊎ ((before : List MatchRule) × (rule : MatchRule) × (behind : List MatchRule) × IsFirst geo q
            table.rules before rule behind
          × (route geo r q table ≡ (
            (decide rule r q).0,
            record table { rules = before ++ ((decide rule r q).1 ∷ behind) },
          )))
unfolding route Outcome
route-IsFirst geo r q table = elim (route_rules_lem geo r q table.default table.rules) [
  | inl (h, k, l) ↦ inl (h, pair k l)
  | inr (before, rule, behind, f, k, l) ↦ inr (before, rule, behind, f, pair k l)
]
  where
    pair :
        {d d' : RouteDecision} {t t' : List MatchRule}
        → d ≡ d'
        → t ≡ t'
        → ◌≡◌ {A = RouteDecision × RouteTable}
            (d, record table { rules = t })
            (d', record table { rules = t' })
    pair h k = rw (h, k) refl

picked-outbound :
    (outs : List (List ℕ)) (i : ℕ)
    → i < length outs
    → (j : ℕ) × (t : List ℕ) × (get_elem? outs j ≡ some t) × (picked outs (some i) ≡ outbound t)
unfolding picked
picked-outbound outs i h = let (t, e) = get_elem?_some outs i h in (i, t, e, rw (e, picked) refl)
  where
    get_elem?_some :
        (xs : List (List ℕ)) (i : ℕ) → i < length xs → (t : List ℕ) × (get_elem? xs i ≡ some t)
    get_elem?_some [] i h = absurd (omega arith)
    get_elem?_some (x ∷ xs) zero h = (x, refl)
    get_elem?_some (x ∷ xs) (suc i) h = get_elem?_some xs i (omega arith)

-- A rule with tags sends each flow to one of its tags, whatever its mode; one without drops it.
pub decide_tag :
    (rule : MatchRule) (r : ℕ) (q : RouteQuery)
    → ((rule.outs ≡ []) × ((decide rule r q).0 ≡ blackhole))
      ⊎ ((i : ℕ) × (t : List ℕ) × (get_elem? rule.outs i ≡ some t)
          × ((decide rule r q).0 ≡ outbound t))
unfolding decide
decide_tag rule r q = among rule.outs rule.balancer
  where
    among :
        (outs : List (List ℕ)) (b : LoadBalancer)
        → ((outs ≡ []) × ((decide_among outs b r q.auth_hash).0 ≡ blackhole))
          ⊎ ((i : ℕ) × (t : List ℕ) × (get_elem? outs i ≡ some t)
              × ((decide_among outs b r q.auth_hash).0 ≡ outbound t))
    among [] b = unfold decide_among in inl (refl, refl)
    among (t ∷ []) b = unfold decide_among in inr (0, t, refl, refl)
    among (t ∷ u ∷ outs) b =
        let (i, e, lt, _) = pick_in_range b r (length (t ∷ u ∷ outs)) q.auth_hash (omega arith) in
        let (j, v, f, g) = picked-outbound (t ∷ u ∷ outs) i lt in
        unfold decide_among in inr (j, v, f, ap (picked (t ∷ u ∷ outs)) e ∙ g)
