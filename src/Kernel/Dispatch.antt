-- ===== src/Kernel/Dispatch.antt =====
-- kernel/src/pipe/outbound.rs and kernel/src/runtime/tree.rs: outbounds by tag, and what becomes of a
-- flow that is decoded. A snapshot of the list is the list itself; the outbound that is picked and the
-- target that it is given stand for its run.
use xray_rs.Base.{ℕ, Option, none, some, List, [], ◌∷◌}
use xray_rs.Base.Eq.{bytes_eq}
use xray_rs.Base.Dict.{Dict, lookup, insert}
use xray_rs.Base.Result.{Result, ok, err}
use xray_rs.Kernel.Error.{IoError}
use xray_rs.Kernel.Net.{Destination}
use xray_rs.Kernel.Route.Condition.{GeoMatcher, RouteQuery}
use xray_rs.Kernel.Route.Table.{RouteDecision, outbound, freedom, blackhole, RouteTable, route}

-- `OutboundList`, whose map is built from pairs; a later one of the same tag replaces an earlier one.
abbrev pub OutboundList : Type 0 → Type 0
OutboundList O = Dict (List ℕ) O

-- The tag of a decision.
abbrev pub tag_of : Option (List ℕ) → RouteDecision → Option (List ℕ)
tag_of freedom_tag (outbound t) = some t
tag_of freedom_tag freedom = freedom_tag
tag_of freedom_tag blackhole = none

module _ {O : Type 0} where
  unfoldable pub build_on : List (List ℕ × O) → OutboundList O → OutboundList O
  build_on [] outbounds = outbounds
  build_on ((tag, o) ∷ items) outbounds = build_on items (insert tag o outbounds)

  -- `OutboundList::build`
  unfoldable pub build : List (List ℕ × O) → OutboundList O
  build items = build_on items []

  -- `OutboundList::get`
  abbrev pub get : List ℕ → OutboundList O → Option O
  get tag outbounds = lookup tag outbounds

  -- `OutboundDispatch::call`: the outbound that runs, none if the link is dropped.
  unfoldable pub dispatch :
      OutboundList O → (freedom_tag : Option (List ℕ)) → RouteDecision → Option O
  dispatch outbounds freedom_tag decision = elim (tag_of freedom_tag decision) [
    | none ↦ none
    | some tag ↦ get tag outbounds
  ]

-- Of a connection's context, the user that a proxy sets.
pub record Ctx : Type 0 where
  pub user_email : Option (List ℕ)
  pub user_auth_hash : Option ℕ

-- `Ctx::with_user`
abbrev pub with_user : List ℕ → ℕ → Ctx → Ctx
with_user email auth_hash ctx = record { user_email = some email; user_auth_hash = some auth_hash }

-- What a proxy learned; the link is left out.
pub record ProxyDecision : Type 0 where
  pub target : Destination
  pub ctx : Ctx

-- The request to the route child; nothing is sniffed here.
abbrev pub route_request : ProxyDecision → RouteQuery
route_request d = record {
  target = d.target;
  sniffed_domain = none;
  auth_hash = d.ctx.user_auth_hash;
}

-- `ProxyService::call` with its two children, whose table and list are the current ones.
unfoldable pub proxy_call :
    {O : Type 0}
    → GeoMatcher
    → ℕ
    → OutboundList O
    → (freedom_tag : Option (List ℕ)) → Result IoError ProxyDecision
    → RouteTable
    → Result IoError (Option (O × Destination)) × RouteTable
proxy_call geo r outbounds freedom_tag (err e) table = (err e, table)
proxy_call geo r outbounds freedom_tag (ok d) table =
    let (decision, after) = route geo r (route_request d) table in
    (
      ok (elim (dispatch outbounds freedom_tag decision) [
        | none ↦ none
        | some o ↦ some (o, d.target)
      ]),
      after,
    )
