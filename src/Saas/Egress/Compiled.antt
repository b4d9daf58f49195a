-- ===== src/Saas/Egress/Compiled.antt =====
-- saas/src/egress_compile.rs: what becomes of a flow under a compiled configuration.
use xray_rs.Base.{
  ℕ, suc, ◌≡◌, ◌≢◌, refl, ap, sym, ◌∙◌, true, false, Bool-cases, inl, inr, none, some, List, [],
  ◌∷◌, ◌++◌, any, All, arith,
}
use mathlib.Core.Path.{subst}
use xray_rs.Base.Eq.{bytes_eq}
use xray_rs.Base.Dict.{insert, lookup-insert_self}
use xray_rs.Base.Result.{ok, err, Result-cases}
use xray_rs.Kernel.Dispatch.{OutboundList, build_on, build, dispatch}
use xray_rs.Kernel.Route.Condition.{GeoMatcher, RouteQuery, matches}
use xray_rs.Kernel.Route.Balance.{random}
use xray_rs.Kernel.Route.Table.{
  RouteDecision, outbound, freedom, MatchRule, new_rule, rule_matches, decide_among, decide,
  new_table, route_rules, route,
}
use xray_rs.Kernel.Route.Table.First.{route_rules-match, route_rules-skip}
use xray_rs.Proxy.Outbound.{Outbound}
use xray_rs.Saas.Egress.{
  OutSpec, direct, RouteBlock, EgressConfig, NormalizedRoute, NamedOutbound, CompiledEgress,
  EgressError, parse_rules, index_tag, default_direct, normalize_routes, normalize, rule_conditions,
  compile_rules, compile_outbound, compile_outbounds, compile_normalized, compile,
}
use xray_rs.Saas.Egress.Meant.{chosen, meant}
use xray_rs.Saas.Egress.Normal.{
  IsNormal, done, skipped, kept, List-cases, normalize_routes-IsNormal, IsFrom, IsFrom-weaken,
  index_tag-other, get-build_on, compile_rules-none, compile_rules-rule,
}

module _ (md5 : List ℕ → List ℕ) where
  -- The parts of a list of outbounds that compiled.
  record IsCompiled (named : NamedOutbound) (more : List NamedOutbound)
      (all : List (List ℕ × Outbound)) : Type 0 where
    o : Outbound
    rest : List (List ℕ × Outbound)
    this : compile_outbound md5 named.spec ≡ ok o
    others : compile_outbounds md5 more ≡ ok rest
    whole : (named.tag, o) ∷ rest ≡ all

  compile_outbounds-IsCompiled :
      (named : NamedOutbound) (more : List NamedOutbound) (all : List (List ℕ × Outbound))
      → compile_outbounds md5 (named ∷ more) ≡ ok all
      → IsCompiled named more all
  unfolding compile_outbounds
  compile_outbounds-IsCompiled named more all h =
      elim (Result-cases (compile_outbound md5 named.spec)) [
        | inr (x, q) ↦ absurd (cc (rw (q, compile_outbounds) at h))
        | inl (o, q) ↦ elim (Result-cases (compile_outbounds md5 more)) [
          | inr (x, p) ↦ absurd (cc (rw (q, compile_outbounds, p) at h))
          | inl (rest, p) ↦ record {
            o = o;
            rest = rest;
            this = q;
            others = p;
            whole = cc (rw (q, compile_outbounds, p) at h);
          }
        ]
      ]

  -- The outbound of the default behind those of the routes.
  abbrev with_default : List NamedOutbound → List NamedOutbound
  with_default os = os ++ (record { tag = default_direct; spec = direct } ∷ [])

  IsFrom-weaken-All :
      (idx : ℕ) (all : List (List ℕ × Outbound))
      → All (λ (p : List ℕ × Outbound). IsFrom (suc idx) p.0) all
      → All (λ (p : List ℕ × Outbound). IsFrom idx p.0) all
  IsFrom-weaken-All idx [] a = tt
  IsFrom-weaken-All idx ((t, o) ∷ all) (f, a) = (IsFrom-weaken idx t f, IsFrom-weaken-All idx all a)

  compile_outbounds-IsFrom :
      {idx : ℕ} {blocks : List RouteBlock} {ns : List NormalizedRoute} {os : List NamedOutbound}
      (all : List (List ℕ × Outbound))
      → IsNormal idx blocks ns os
      → compile_outbounds md5 (with_default os) ≡ ok all
      → All (λ (p : List ℕ × Outbound). IsFrom idx p.0) all
  unfolding compile_outbounds compile_outbound
  compile_outbounds-IsFrom {idx} all done h =
      let e : (default_direct, Outbound.freedom) ∷ [] ≡ all = cc h in
      subst (All (λ (p : List ℕ × Outbound). IsFrom idx p.0)) e (inl refl, tt)
  compile_outbounds-IsFrom {idx} all (skipped e n) h =
      IsFrom-weaken-All idx all (compile_outbounds-IsFrom all n h)
  compile_outbounds-IsFrom {idx} all (kept {os = os} {spec = spec} e q n) h =
      let c =
        compile_outbounds-IsCompiled (record { tag = index_tag idx; spec = spec }) (with_default os)
          all h in
      subst (All (λ (p : List ℕ × Outbound). IsFrom idx p.0)) c.whole (
        inr (idx, omega arith, refl),
        IsFrom-weaken-All idx c.rest (compile_outbounds-IsFrom c.rest n c.others),
      )

  -- The configuration that the parts compile to.
  abbrev compiled : List NormalizedRoute → List (List ℕ × Outbound) → CompiledEgress
  compiled ns all = record {
    freedom_tag = some default_direct;
    route_table = new_table (compile_rules ns) none;
    outbounds = all;
  }

  compile-disabled :
      (cfg : EgressConfig)
      → cfg.enable ≡ false
      → compile md5 cfg ≡ ok (compiled [] ((default_direct, Outbound.freedom) ∷ []))
  unfolding compile compile_rules
  compile-disabled cfg e = rw (e, compile) refl

  compile-enabled :
      (cfg : EgressConfig) (ns : List NormalizedRoute) (os : List NamedOutbound)
      (all : List (List ℕ × Outbound))
      → cfg.enable ≡ true
      → normalize_routes 0 cfg.routes ≡ ok (ns, os)
      → compile_outbounds md5 (with_default os) ≡ ok all
      → compile md5 cfg ≡ ok (compiled ns all)
  unfolding compile normalize compile_normalized
  compile-enabled cfg ns os all e n k = rw (e, compile, n, normalize, compile_normalized, k) refl

  compile-unnormal :
      (cfg : EgressConfig) (x : EgressError)
      → cfg.enable ≡ true
      → normalize_routes 0 cfg.routes ≡ err x
      → compile md5 cfg ≡ err x
  unfolding compile normalize
  compile-unnormal cfg x e n = rw (e, compile, n, normalize) refl

  compile-bad :
      (cfg : EgressConfig) (ns : List NormalizedRoute) (os : List NamedOutbound) (x : EgressError)
      → cfg.enable ≡ true
      → normalize_routes 0 cfg.routes ≡ ok (ns, os)
      → compile_outbounds md5 (with_default os) ≡ err x
      → compile md5 cfg ≡ err x
  unfolding compile normalize compile_normalized
  compile-bad cfg ns os x e n k = rw (e, compile, n, normalize, compile_normalized, k) refl

  module _ (geo : GeoMatcher) (q : RouteQuery) where
    -- The outbound of a specification is the one that a decision comes to.
    abbrev IsMeant :
        OutSpec → List (List ℕ × Outbound) → OutboundList Outbound → RouteDecision → Type 0
    IsMeant spec all acc decision =
        (o : Outbound) × (compile_outbound md5 spec ≡ ok o)
        × (dispatch (build_on all acc) (some default_direct) decision ≡ some o)

    module _ (r : ℕ) where
      abbrev decided : List NormalizedRoute → RouteDecision
      decided ns = (route_rules geo r q freedom (compile_rules ns)).0

      -- A route whose conditions do not match.
      decided-skip :
          (n : NormalizedRoute) (ns : List NormalizedRoute)
          → any (matches geo q) (rule_conditions n.rules) ≡ false
          → decided (n ∷ ns) ≡ decided ns
      unfolding rule_matches new_rule
      decided-skip n ns h = elim (List-cases (rule_conditions n.rules)) [
        | inl e ↦ ap (λ rules. (route_rules geo r q freedom rules).0) (compile_rules-none n ns e)
        | inr (c, cs, e) ↦
            let miss : any (matches geo q) (c ∷ cs) ≡ false = (rw (e) at h) in
            let rule = new_rule (c ∷ cs) (n.tag ∷ []) random in
            ap (λ rules. (route_rules geo r q freedom rules).0) (compile_rules-rule n ns c cs e)
            ∙ ap (λ (p : RouteDecision × List MatchRule). p.0)
                (route_rules-skip geo r q freedom rule (compile_rules ns) miss)
      ]

      -- A route of which one does.
      decided-match :
          (n : NormalizedRoute) (ns : List NormalizedRoute)
          → any (matches geo q) (rule_conditions n.rules) ≡ true
          → decided (n ∷ ns) ≡ outbound n.tag
      unfolding rule_matches new_rule decide decide_among
      decided-match n ns h = elim (List-cases (rule_conditions n.rules)) [
        | inl e ↦ absurd (cc (rw (e) at h))
        | inr (c, cs, e) ↦
            let hit : any (matches geo q) (c ∷ cs) ≡ true = (rw (e) at h) in
            let rule = new_rule (c ∷ cs) (n.tag ∷ []) random in
            ap (λ rules. (route_rules geo r q freedom rules).0) (compile_rules-rule n ns c cs e)
            ∙ ap (λ (p : RouteDecision × List MatchRule). p.0)
                (route_rules-match geo r q freedom rule (compile_rules ns) hit)
      ]

      dispatch-tag :
          (t : List ℕ) (o : Outbound) (rest : List (List ℕ × Outbound))
          (acc : OutboundList Outbound)
          → All (λ (p : List ℕ × Outbound). t ≢ p.0) rest
          → dispatch (build_on ((t, o) ∷ rest) acc) (some default_direct) (outbound t) ≡ some o
      unfolding dispatch build_on
      dispatch-tag t o rest acc a =
          get-build_on t rest (insert t o acc) a ∙ lookup-insert_self t o acc

      others_differ :
          (idx : ℕ) (all : List (List ℕ × Outbound))
          → All (λ (p : List ℕ × Outbound). IsFrom (suc idx) p.0) all
          → All (λ (p : List ℕ × Outbound). index_tag idx ≢ p.0) all
      others_differ idx [] a = tt
      others_differ idx ((t, o) ∷ all) (f, a) = (index_tag-other idx t f, others_differ idx all a)

      chosen-skip :
          (block : RouteBlock) (blocks : List RouteBlock)
          → any (matches geo q) (rule_conditions (parse_rules block.rules)) ≡ false
          → chosen geo q (block ∷ blocks) ≡ chosen geo q blocks
      unfolding chosen
      chosen-skip block blocks e = rw (e, chosen) refl

      chosen-match :
          (block : RouteBlock) (blocks : List RouteBlock) (spec : OutSpec)
          → any (matches geo q) (rule_conditions (parse_rules block.rules)) ≡ true
          → block.outs ≡ spec ∷ []
          → chosen geo q (block ∷ blocks) ≡ spec
      unfolding chosen
      chosen-match block blocks spec e o = rw (e, chosen, o) refl

      IsMeant-subst :
          {spec spec' : OutSpec} {all all' : List (List ℕ × Outbound)} {d d' : RouteDecision}
          (acc : OutboundList Outbound)
          → spec ≡ spec'
          → all ≡ all'
          → d ≡ d'
          → IsMeant spec all acc d
          → IsMeant spec' all' acc d'
      IsMeant-subst acc a b c m = rw (← a, ← b, ← c) m

      IsMeant-earlier :
          (t : List ℕ) (o : Outbound) (spec : OutSpec) (rest : List (List ℕ × Outbound))
          (acc : OutboundList Outbound) (d : RouteDecision)
          → IsMeant spec rest (insert t o acc) d
          → IsMeant spec ((t, o) ∷ rest) acc d
      unfolding build_on
      IsMeant-earlier t o spec rest acc d m = m

      -- The routes from `idx` on, in a list of outbounds to which those before were added.
      dispatch_lem :
          {idx : ℕ} {blocks : List RouteBlock} {ns : List NormalizedRoute} {os : List NamedOutbound}
          (all : List (List ℕ × Outbound)) (acc : OutboundList Outbound)
          → IsNormal idx blocks ns os
          → compile_outbounds md5 (with_default os) ≡ ok all
          → IsMeant (chosen geo q blocks) all acc (decided ns)
      unfolding compile_outbounds compile_outbound chosen compile_rules route_rules build_on
          dispatch rule_conditions
      dispatch_lem all acc done h =
          let e : (default_direct, Outbound.freedom) ∷ [] ≡ all = cc h in
          subst (λ a. IsMeant direct a acc freedom) e
            (Outbound.freedom, refl, lookup-insert_self default_direct Outbound.freedom acc)
      dispatch_lem all acc (skipped {block = block} {blocks = blocks} {ns = ns} e n) h =
          let miss : any (matches geo q) (rule_conditions (parse_rules block.rules)) ≡ false =
            ap (λ rules. any (matches geo q) (rule_conditions rules)) e in
          subst (λ spec. IsMeant spec all acc (decided ns)) (sym (chosen-skip block blocks miss))
            (dispatch_lem all acc n h)
      dispatch_lem {idx} all acc
            (kept {block = block} {blocks = blocks} {ns = ns} {os = os} {rule = rule}
              {rules = rules} {spec = spec} e o n)
            h =
          let route : NormalizedRoute = record { tag = index_tag idx; rules = rule ∷ rules } in
          let c =
            compile_outbounds-IsCompiled (record { tag = index_tag idx; spec = spec })
              (with_default os) all h in
          let same : any (matches geo q) (rule_conditions (parse_rules block.rules))
              ≡ any (matches geo q) (rule_conditions (rule ∷ rules)) =
            ap (λ rules. any (matches geo q) (rule_conditions rules)) e in
          elim (Bool-cases (any (matches geo q) (rule_conditions (rule ∷ rules)))) [
            | inl hit ↦
                IsMeant-subst acc (sym (chosen-match block blocks spec (same ∙ hit) o)) c.whole
                  (sym (decided-match route ns hit))
                  (
                    c.o,
                    c.this,
                    dispatch-tag (index_tag idx) c.o c.rest acc
                        (others_differ idx c.rest (compile_outbounds-IsFrom c.rest n c.others)),
                  )
            | inr miss ↦
                IsMeant-subst acc (sym (chosen-skip block blocks (same ∙ miss))) c.whole
                  (sym (decided-skip route ns miss))
                  (IsMeant-earlier (index_tag idx) c.o (chosen geo q blocks) c.rest acc (decided ns)
                    (dispatch_lem c.rest (insert (index_tag idx) c.o acc) n c.others))
          ]

      -- What a compiled configuration promises.
      Promises : EgressConfig → CompiledEgress → Type 0
      Promises cfg c =
          (o : Outbound) × (compile_outbound md5 (meant geo q cfg) ≡ ok o)
          × (dispatch (build c.outbounds) c.freedom_tag (route geo r q c.route_table).0 ≡ some o)

      Promises-disabled :
          (cfg : EgressConfig)
          → cfg.enable ≡ false
          → Promises cfg (compiled [] ((default_direct, Outbound.freedom) ∷ []))
      unfolding Promises meant compile_outbound route route_rules new_table build build_on dispatch
          compile_rules
      Promises-disabled cfg e =
          (Outbound.freedom, rw e refl, lookup-insert_self default_direct Outbound.freedom [])

      Promises-enabled :
          (cfg : EgressConfig) (ns : List NormalizedRoute) (all : List (List ℕ × Outbound))
          → cfg.enable ≡ true
          → IsMeant (chosen geo q cfg.routes) all [] (decided ns)
          → Promises cfg (compiled ns all)
      unfolding Promises meant route new_table build
      Promises-enabled cfg ns all e m = rw e m

      -- A flow under a configuration that compiles runs through the outbound that the configuration
      -- means: that of the first route with a condition that matches the flow, and the direct one if no
      -- route has one or the configuration is not enabled. No flow is dropped for a tag that is not in
      -- the list.
      pub compile-dispatch :
          (cfg : EgressConfig) (c : CompiledEgress)
          → compile md5 cfg ≡ ok c
          → (o : Outbound) × (compile_outbound md5 (meant geo q cfg) ≡ ok o)
            × (dispatch (build c.outbounds) c.freedom_tag (route geo r q c.route_table).0 ≡ some o)
      unfolding Promises
      compile-dispatch cfg c h = elim (Bool-cases cfg.enable) [
        | inr e ↦
            let same : compiled [] ((default_direct, Outbound.freedom) ∷ []) ≡ c =
              cc (compile-disabled cfg e, h) in
            subst (Promises cfg) same (Promises-disabled cfg e)
        | inl e ↦ elim (Result-cases (normalize_routes 0 cfg.routes)) [
          | inr (x, n) ↦ absurd (cc (compile-unnormal cfg x e n, h))
          | inl ((ns, os), n) ↦ elim (Result-cases (compile_outbounds md5 (with_default os))) [
            | inr (x, k) ↦ absurd (cc (compile-bad cfg ns os x e n k, h))
            | inl (all, k) ↦
                let same : compiled ns all ≡ c = cc (compile-enabled cfg ns os all e n k, h) in
                subst (Promises cfg) same (
                  Promises-enabled cfg ns all e
                    (dispatch_lem all [] (normalize_routes-IsNormal 0 cfg.routes ns os n) k))
          ]
        ]
      ]
