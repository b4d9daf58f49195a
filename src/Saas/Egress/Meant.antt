-- ===== src/Saas/Egress/Meant.antt =====
-- What an egress configuration means, apart from its compilation.
use xray_rs.Base.{List, [], ◌∷◌, any, if◌then◌else◌}
use xray_rs.Kernel.Route.Condition.{GeoMatcher, RouteQuery, matches}
use xray_rs.Saas.Egress.{OutSpec, direct, RouteBlock, EgressConfig, parse_rules, rule_conditions}

-- The outbound that a configuration means for a flow: that of the first route with a condition that
-- matches, and the direct one if there is none.
module _ (geo : GeoMatcher) (q : RouteQuery) where
  abbrev pub first_out : List OutSpec → OutSpec
  first_out [] = direct
  first_out (spec ∷ _) = spec

  unfoldable pub chosen : List RouteBlock → OutSpec
  chosen [] = direct
  chosen (block ∷ blocks) =
      let rest = chosen blocks in
      if any (matches geo q) (rule_conditions (parse_rules block.rules))
      then first_out block.outs
      else rest

  unfoldable pub meant : EgressConfig → OutSpec
  meant cfg = if cfg.enable then chosen cfg.routes else direct
