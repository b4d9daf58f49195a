-- ===== src/Proxy/Http/Authorized.antt =====
-- proxy/src/http.rs: whom the inbound serves, and what it passes on of their requests.
use xray_rs.Base.{ℕ, ◌≡◌, true, ◌⊎◌, Option, some, List, [], ◌∷◌, ◌++◌, take, drop}
use xray_rs.Base.Text.{bytes, eq_ignore_ascii_case}
use xray_rs.Base.Trim.{trim}
use xray_rs.Kernel.Dispatch.{Ctx, with_user}
use xray_rs.Proxy.Relay.{user_hash, noop_decision}
use xray_rs.Proxy.Http.Forwarded.{IsForwarded}
use xray_rs.Proxy.Http.{HttpAccount, headers_of, header_value, HttpFlow, auth_required}

-- One of the accounts has these credentials.
abbrev pub IsAccount : List HttpAccount → (user pass : List ℕ) → Type 0
IsAccount accounts user pass =
    (before : List HttpAccount) × (a : HttpAccount) × (behind : List HttpAccount) × (accounts
      ≡ before ++ (a ∷ behind))
    × (a.username ≡ user)
    × (a.password ≡ pass)

module _ (base64_decode : List ℕ → Option (List ℕ)) where
  -- The headers carry a user and a password of an account, by the scheme Basic.
  abbrev pub HasCredentials :
      List HttpAccount → (headers : List (List ℕ)) → (user : List ℕ) → Type 0
  HasCredentials accounts headers user =
      (value : List ℕ) × (pass : List ℕ) × (header_value headers (bytes "proxy-authorization")
        ≡ some value)
      × (eq_ignore_ascii_case (take 6 value) (bytes "Basic ") ≡ true)
      × (base64_decode (trim (drop 6 value)) ≡ some (user ++ (b':' ∷ pass)))
      × IsAccount accounts user pass

  module _ (accounts : List HttpAccount) where
    -- A flow that was let in with the credentials of an account, or was refused.
    abbrev pub IsLetIn : Ctx → (lines : List (List ℕ)) → (body written : List ℕ) → HttpFlow → Type 0
    IsLetIn ctx lines body written flow =
        ((written ≡ auth_required) × (flow.decision ≡ noop_decision ctx) × (flow.leftover ≡ []))
        ⊎ ((user : List ℕ) × HasCredentials accounts (headers_of (drop 1 lines)) user
            × (flow.decision.ctx ≡ with_user user (user_hash user) ctx)
            × (request_line : List ℕ) × (rest : List (List ℕ)) × (lines ≡ request_line ∷ rest)
            × IsForwarded request_line (headers_of rest) body flow.leftover)
