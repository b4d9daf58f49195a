-- ===== src/Saas/Egress.antt =====
-- saas/src/egress_config.rs and egress_compile.rs: the egress configuration, and its table of routes
-- and list of outbounds. A configuration is the value that the TOML library makes of the file.
pub mod Tags
pub mod Normal
pub mod Meant
pub mod Compiled
use xray_rs.Base.{
  ℕ, zero, suc, ◌+◌, ◌-◌, ◌/◌, ◌%◌, Bool, true, false, ◌||◌, Option, none, some, List, [], ◌∷◌,
  ◌++◌, String, ltb, ◌==◌, if◌then◌else◌, length, replicate, eq_bytes,
}
use xray_rs.Base.Text.{bytes, strip_prefix, to_ascii_lowercase}
use xray_rs.Base.Trim.{trim}
use xray_rs.Base.Result.{Result, ok, err}
use xray_rs.Kernel.Net.{parse_address}
use xray_rs.Kernel.Route.Balance.{random}
use xray_rs.Kernel.Route.Condition.{Condition, any, domain_suffix, geo_site, geo_ip}
use xray_rs.Kernel.Route.Table.{MatchRule, new_rule, RouteTable, new_table}
use xray_rs.Proxy.Outbound.{Outbound, freedom, blackhole, shadowsocks, socks, new_ss, new_socks}

pub data OutSpec : Type 0 where
  direct block : OutSpec
  ss : (listen server : List ℕ) → (port : ℕ) → (password cipher : List ℕ) → OutSpec
  socks5 : (listen server : List ℕ) → (port : ℕ) → (username password : List ℕ) → OutSpec

pub record RouteBlock : Type 0 where
  pub rules : List (List ℕ)
  pub outs : List OutSpec

pub record EgressConfig : Type 0 where
  pub enable : Bool
  pub routes : List RouteBlock

pub data RuleExpr : Type 0 where
  domain_suffix_rule domain_full domain_keyword geo_site_rule geo_ip_rule : List ℕ → RuleExpr
  catch_all : RuleExpr

pub record NormalizedRoute : Type 0 where
  pub tag : List ℕ
  pub rules : List RuleExpr

pub record NamedOutbound : Type 0 where
  pub tag : List ℕ
  pub spec : OutSpec

pub record NormalizedEgress : Type 0 where
  pub default_tag : List ℕ
  pub routes : List NormalizedRoute
  pub outbounds : List NamedOutbound

pub record CompiledEgress : Type 0 where
  pub freedom_tag : Option (List ℕ)
  pub route_table : RouteTable
  pub outbounds : List (List ℕ × Outbound)

-- The errors that the compiler reports.
pub data EgressError : Type 0 where
  not_one_out : (tag : List ℕ) → (outs : ℕ) → EgressError
  bad_outbound : String → EgressError

abbrev is_empty_bytes : List ℕ → Bool
is_empty_bytes [] = true
is_empty_bytes (_ ∷ _) = false

unfoldable pub nonempty : List ℕ → Option (List ℕ)
nonempty s = if is_empty_bytes (trim s) then none else some (trim s)

abbrev of_kind : (List ℕ → RuleExpr) → List ℕ → Option RuleExpr
of_kind kind rest = elim (nonempty rest) [ none ↦ none | some s ↦ some (kind s) ]

-- The prefixes that are tried in turn.
unfoldable pub prefixed : List (List ℕ × (List ℕ → RuleExpr)) → List ℕ → Option RuleExpr
prefixed [] s = of_kind domain_suffix_rule s
prefixed ((name, kind) ∷ kinds) s =
    let other = prefixed kinds s in
    elim (strip_prefix name s) [ some rest ↦ of_kind kind rest | none ↦ other ]

abbrev pub rule_kinds : List (List ℕ × (List ℕ → RuleExpr))
rule_kinds =
    (bytes "domain:", domain_suffix_rule)
    ∷ (bytes "suffix:", domain_suffix_rule)
    ∷ (bytes "full:", domain_full)
    ∷ (bytes "keyword:", domain_keyword)
    ∷ (bytes "geosite:", geo_site_rule)
    ∷ (bytes "geoip:", geo_ip_rule)
    ∷ []

-- A trimmed rule.
unfoldable pub trimmed_rule : List ℕ → Option RuleExpr
trimmed_rule [] = none
trimmed_rule (c ∷ s) =
    if c == b'#'
    then none
    else if eq_bytes (c ∷ s) (bytes "*")
    then some catch_all
    else prefixed rule_kinds (c ∷ s)

unfoldable pub parse_rule_expr : List ℕ → Option RuleExpr
parse_rule_expr raw = trimmed_rule (trim raw)

-- `filter_map` of the rules.
unfoldable pub parse_rules : List (List ℕ) → List RuleExpr
parse_rules [] = []
parse_rules (raw ∷ raws) = elim (parse_rule_expr raw) [
  | none ↦ parse_rules raws
  | some rule ↦ rule ∷ parse_rules raws
]

-- The decimal digits of a number, by fuel that the number itself is enough of.
unfoldable pub decimal : ℕ → ℕ → List ℕ
decimal zero n = (b'0' + n % 10) ∷ []
decimal (suc fuel) n =
    let front = decimal fuel (n / 10) in
    if ltb n 10 then (b'0' + n) ∷ [] else front ++ ((b'0' + n % 10) ∷ [])

-- `format!("route-{idx:03}")`
unfoldable pub index_tag : ℕ → List ℕ
index_tag idx =
    let digits = decimal idx idx in bytes "route-" ++ (replicate (3 - length digits) b'0' ++ digits)

abbrev pub default_direct : List ℕ
default_direct = bytes "default-direct"

-- A route with effective rules needs one outbound.
unfoldable pub only_out : (tag : List ℕ) → List OutSpec → Result EgressError OutSpec
only_out tag (spec ∷ []) = ok spec
only_out tag outs = err (not_one_out tag (length outs))

-- The loop of `normalize`.
unfoldable pub normalize_routes :
    ℕ → List RouteBlock → Result EgressError (List NormalizedRoute × List NamedOutbound)
normalize_routes idx [] = ok ([], [])
normalize_routes idx (route ∷ routes) =
    let rest = normalize_routes (suc idx) routes in
    elim (parse_rules route.rules) [
      | [] ↦ rest
      | rule ∷ rules ↦ elim (only_out (index_tag idx) route.outs) [
        | err e ↦ err e
        | ok spec ↦ elim rest [
          | err e ↦ err e
          | ok (normalized, outbounds) ↦ ok (
            record { tag = index_tag idx; rules = rule ∷ rules } ∷ normalized,
            record { tag = index_tag idx; spec = spec } ∷ outbounds,
          )
        ]
      ]
    ]

unfoldable pub normalize : EgressConfig → Result EgressError NormalizedEgress
normalize cfg = elim (normalize_routes 0 cfg.routes) [
  | err e ↦ err e
  | ok (routes, outbounds) ↦ ok (record {
    default_tag = default_direct;
    routes = routes;
    outbounds = outbounds ++ (record { tag = default_direct; spec = direct } ∷ []);
  })
]

unfoldable pub rule_conditions : List RuleExpr → List Condition
rule_conditions [] = []
rule_conditions (domain_suffix_rule s ∷ exprs) =
    domain_suffix (to_ascii_lowercase s) ∷ rule_conditions exprs
rule_conditions (domain_full s ∷ exprs) =
    domain_suffix (to_ascii_lowercase s) ∷ rule_conditions exprs
rule_conditions (domain_keyword s ∷ exprs) = rule_conditions exprs
rule_conditions (geo_site_rule s ∷ exprs) = geo_site s ∷ rule_conditions exprs
rule_conditions (geo_ip_rule s ∷ exprs) = geo_ip s ∷ rule_conditions exprs
rule_conditions (catch_all ∷ exprs) = any ∷ rule_conditions exprs

-- The loop over the routes of `compile_normalized`.
unfoldable pub compile_rules : List NormalizedRoute → List MatchRule
compile_rules [] = []
compile_rules (route ∷ routes) = elim (rule_conditions route.rules) [
  | [] ↦ compile_rules routes
  | cond ∷ conds ↦ new_rule (cond ∷ conds) (route.tag ∷ []) random ∷ compile_rules routes
]

module _ (md5 : List ℕ → List ℕ) where
  unfoldable pub compile_outbound : OutSpec → Result EgressError Outbound
  compile_outbound direct = ok freedom
  compile_outbound block = ok blackhole
  compile_outbound (ss listen server port password cipher) =
      elim (new_ss md5 (parse_address server) port password cipher) [
        | err e ↦ err (bad_outbound e)
        | ok ob ↦ ok (shadowsocks ob)
      ]
  compile_outbound (socks5 listen server port username password) =
      ok (socks (new_socks (parse_address server) port username password))

  unfoldable pub compile_outbounds :
      List NamedOutbound → Result EgressError (List (List ℕ × Outbound))
  compile_outbounds [] = ok []
  compile_outbounds (named ∷ outbounds) = elim (compile_outbound named.spec) [
    | err e ↦ err e
    | ok o ↦ elim (compile_outbounds outbounds) [
      | err e ↦ err e
      | ok rest ↦ ok ((named.tag, o) ∷ rest)
    ]
  ]

  unfoldable pub compile_normalized : NormalizedEgress → Result EgressError CompiledEgress
  compile_normalized n = elim (compile_outbounds n.outbounds) [
    | err e ↦ err e
    | ok outbounds ↦ ok (record {
      freedom_tag = some n.default_tag;
      route_table = new_table (compile_rules n.routes) none;
      outbounds = outbounds;
    })
  ]

  unfoldable pub compile : EgressConfig → Result EgressError CompiledEgress
  compile cfg =
      if cfg.enable
      then elim (normalize cfg) [ err e ↦ err e | ok n ↦ compile_normalized n ]
      else ok (record {
        freedom_tag = some default_direct;
        route_table = new_table [] none;
        outbounds = (default_direct, freedom) ∷ [];
      })
