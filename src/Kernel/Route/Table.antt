-- ===== src/Kernel/Route/Table.antt =====
-- kernel/src/route/rule.rs: the rules and their table. A rule's balancer changes when it picks, so a
-- route gives the table back.
pub mod First
use xray_rs.Base.{
  ℕ, zero, suc, Bool, Option, none, some, List, [], ◌∷◌, any, length, get_elem?, if◌then◌else◌,
}
use xray_rs.Kernel.Route.Balance.{BalanceMode, LoadBalancer, new, pick}
use xray_rs.Kernel.Route.Condition.{GeoMatcher, Condition, RouteQuery, matches}

pub data RouteDecision : Type 0 where
  outbound : (tag : List ℕ) → RouteDecision
  freedom blackhole : RouteDecision

pub record MatchRule : Type 0 where
  pub conditions : List Condition
  pub outs : List (List ℕ)
  pub balancer : LoadBalancer

-- `MatchRule::new`
unfoldable pub new_rule : List Condition → List (List ℕ) → BalanceMode → MatchRule
new_rule conditions outs mode = record { conditions = conditions; outs = outs; balancer = new mode }

-- `MatchRule::matches`
unfoldable pub rule_matches : GeoMatcher → RouteQuery → MatchRule → Bool
rule_matches geo q rule = any (matches geo q) rule.conditions

-- The tag that a pick stands for.
unfoldable pub picked : List (List ℕ) → Option ℕ → RouteDecision
picked outs none = blackhole
picked outs (some i) = elim (get_elem? outs i) [ none ↦ blackhole | some t ↦ outbound t ]

-- The decision over the tags `outs`, and the balancer after it. `r` is the random number.
unfoldable pub decide_among :
    (outs : List (List ℕ)) → LoadBalancer → ℕ → Option ℕ → RouteDecision × LoadBalancer
decide_among [] b r auth_hash = (blackhole, b)
decide_among (t ∷ []) b r auth_hash = (outbound t, b)
decide_among (t ∷ u ∷ outs) b r auth_hash =
    let (i, c) = pick b r (length (t ∷ u ∷ outs)) auth_hash in (picked (t ∷ u ∷ outs) i, c)

-- `MatchRule::decide`
unfoldable pub decide : MatchRule → ℕ → RouteQuery → RouteDecision × MatchRule
decide rule r q =
    let (d, b) = decide_among rule.outs rule.balancer r q.auth_hash in
    (d, record rule { balancer = b })

pub record RouteTable : Type 0 where
  pub rules : List MatchRule
  pub default : RouteDecision

-- `RouteTable::new`
unfoldable pub new_table : List MatchRule → Option RouteDecision → RouteTable
new_table rules none = record { rules = rules; default = freedom }
new_table rules (some d) = record { rules = rules; default = d }

-- The loop over the rules.
unfoldable pub route_rules :
    GeoMatcher → ℕ → RouteQuery → RouteDecision → List MatchRule → RouteDecision × List MatchRule
route_rules geo r q default [] = (default, [])
route_rules geo r q default (rule ∷ rules) =
    let (d, rest) = route_rules geo r q default rules in
    let (e, used) = decide rule r q in
    if rule_matches geo q rule then (e, used ∷ rules) else (d, rule ∷ rest)

-- `RouteTable::route`
unfoldable pub route : GeoMatcher → ℕ → RouteQuery → RouteTable → RouteDecision × RouteTable
route geo r q table =
    let (d, rules) = route_rules geo r q table.default table.rules in
    (d, record table { rules = rules })
