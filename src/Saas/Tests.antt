-- ===== src/Saas/Tests.antt =====
-- The egress configuration at a concrete one.
use xray_rs.Base.{ℕ, ◌≡◌, refl, true, Option, none, some, List, [], ◌∷◌}
use xray_rs.Base.Text.{bytes}
use xray_rs.Base.Result.{ok}
use xray_rs.Kernel.Net.{tcp_destination, domain}
use xray_rs.Kernel.Dispatch.{build, dispatch}
use xray_rs.Kernel.Route.Balance.{random}
use xray_rs.Kernel.Route.Condition.{domain_suffix, no_geo, RouteQuery}
use xray_rs.Kernel.Route.Table.{new_rule, new_table, route}
use xray_rs.Proxy.Outbound.{Outbound}
use xray_rs.Saas.Egress.{
  OutSpec, direct, block, RouteBlock, EgressConfig, CompiledEgress, default_direct, compile,
  compile_outbound,
}
use xray_rs.Saas.Egress.Compiled.{compile-dispatch}
use xray_rs.Saas.Egress.Meant.{meant}

abbrev toy_md5 : List ℕ → List ℕ
toy_md5 xs = xs

abbrev test_config : EgressConfig
test_config = record {
  enable = true;
  routes =
      record { rules = bytes "#label" ∷ []; outs = [] }
      ∷ record { rules = bytes " domain:A.com " ∷ bytes "keyword:b" ∷ []; outs = block ∷ [] }
      ∷ record { rules = bytes "keyword:b" ∷ []; outs = direct ∷ [] }
      ∷ [];
}

abbrev test_compiled : CompiledEgress
test_compiled = record {
  freedom_tag = some default_direct;
  route_table =
      new_table (new_rule (domain_suffix (bytes "a.com") ∷ []) (bytes "route-001" ∷ []) random ∷ [])
        none;
  outbounds =
      (bytes "route-001", Outbound.blackhole)
      ∷ (bytes "route-002", Outbound.freedom)
      ∷ (default_direct, Outbound.freedom)
      ∷ [];
}

abbrev test_query : RouteQuery
test_query = record {
  target = tcp_destination (domain (bytes "www.a.com")) 80;
  sniffed_domain = none;
  auth_hash = none;
}

test_compiled-compile : compile toy_md5 test_config ≡ ok test_compiled
unfolding compile xray_rs.Saas.Egress.normalize xray_rs.Saas.Egress.normalize_routes
    xray_rs.Saas.Egress.parse_rules xray_rs.Saas.Egress.parse_rule_expr
    xray_rs.Saas.Egress.trimmed_rule xray_rs.Base.Trim.trim xray_rs.Base.eq_bytes
    xray_rs.Saas.Egress.prefixed xray_rs.Base.Text.strip_prefix xray_rs.Saas.Egress.nonempty
    xray_rs.Saas.Egress.only_out xray_rs.Saas.Egress.compile_normalized
    xray_rs.Saas.Egress.compile_outbounds compile_outbound xray_rs.Saas.Egress.compile_rules
    xray_rs.Saas.Egress.index_tag xray_rs.Saas.Egress.rule_conditions xray_rs.Saas.Egress.decimal
    xray_rs.Base.Text.to_ascii_lowercase
test_compiled-compile = refl

compile-dispatch_example :
    (o : Outbound) × (compile_outbound toy_md5 (meant no_geo test_query test_config) ≡ ok o)
    × (dispatch
          (build test_compiled.outbounds)
          test_compiled.freedom_tag
          (route no_geo 0 test_query test_compiled.route_table).0
        ≡ some o)
compile-dispatch_example =
    compile-dispatch toy_md5 no_geo test_query 0 test_config test_compiled test_compiled-compile

-- What it means there.
meant_test : meant no_geo test_query test_config ≡ block
unfolding meant xray_rs.Saas.Egress.Meant.chosen xray_rs.Saas.Egress.rule_conditions
    xray_rs.Saas.Egress.parse_rules xray_rs.Saas.Egress.parse_rule_expr
    xray_rs.Saas.Egress.trimmed_rule xray_rs.Base.Trim.trim xray_rs.Base.eq_bytes
    xray_rs.Saas.Egress.prefixed xray_rs.Base.Text.strip_prefix xray_rs.Saas.Egress.nonempty
    xray_rs.Kernel.Route.Condition.matches xray_rs.Kernel.Route.Condition.domain_of tcp_destination
    xray_rs.Kernel.Route.Condition.domain_suffix_match xray_rs.Base.Text.eq_ignore_ascii_case
    xray_rs.Kernel.Route.Condition.dot_suffix
meant_test = refl
