-- ===== src/Auth/Tenants.antt =====
-- pkg/auth/verifier.go and multi_tenant_verifier.go. A verifier is a function from the text of a
-- token; those of JSON web tokens are the library's.
use piko.Prelude.{
  Result, ok, err, Result-cases, ℕ, String, ◌≡◌, List-cases, ◌≢◌, inl, inr, Bool, true, false, none,
  some, List, [], ◌∷◌, Map, lookup, Option-cases, same, ite, arith,
}

pub record Token : Type 0 where
  pub expiry : ℕ
  pub endpoints : List String
  pub tenant_id : String

pub data Error : Type 0 where
  invalid_token expired_token unknown_tenant missing_endpoints : Error
  other : String → Error

abbrev pub Verifier : Type 0
Verifier = String → Result Error Token

unfoldable pub contains : String → List String → Bool
contains id [] = false
contains id (e ∷ es) = let rest = contains id es in ite (same e id) true rest

-- `EndpointPermitted`
unfoldable pub endpoint_permitted : Token → String → Bool
unfolding contains
endpoint_permitted t id = elim t.endpoints [ [] ↦ true | e ∷ es ↦ contains id (e ∷ es) ]

-- `MultiTenantVerifier`; a nil map has no tenants.
pub record MultiTenantVerifier : Type 0 where
  pub default_verifier : Verifier
  pub tenant_verifiers : Map Verifier

-- The token of a tenant's verifier, with the tenant's name put in.
unfoldable pub with_tenant : String → Result Error Token → Result Error Token
with_tenant id (ok t) = ok (record t { tenant_id = id })
with_tenant id (err e) = err e

unfoldable pub verify_default : String → MultiTenantVerifier → Result Error Token
verify_default token v = elim v.tenant_verifiers [
  | [] ↦ v.default_verifier token
  | w ∷ ws ↦ err unknown_tenant
]

-- `Verify`
unfoldable pub verify : String → String → MultiTenantVerifier → Result Error Token
unfolding lookup with_tenant verify_default
verify token tenant_id v =
    ite (same tenant_id "") (verify_default token v) (elim (lookup tenant_id v.tenant_verifiers) [
      | none ↦ err unknown_tenant
      | some w ↦ with_tenant tenant_id (w token)
    ])

-- Who has granted a token: the default verifier, where there are no tenants and none is named; or
-- the verifier of the named tenant, and the token is that tenant's.
pub data Granted (v : MultiTenantVerifier) (token tenant_id : String) (t : Token) : Type 0 where
  by_default :
      tenant_id ≡ ""
      → v.tenant_verifiers ≡ []
      → v.default_verifier token ≡ ok t
      → Granted v token tenant_id t
  by_tenant :
      (w : Verifier) (u : Token)
      → tenant_id ≢ ""
      → lookup tenant_id v.tenant_verifiers ≡ some w
      → w token ≡ ok u
      → t ≡ record u { tenant_id = tenant_id }
      → Granted v token tenant_id t

Granted-by_tenant :
    (v : MultiTenantVerifier) (token tenant_id : String) (t : Token) (w : Verifier)
    → tenant_id ≢ ""
    → lookup tenant_id v.tenant_verifiers ≡ some w
    → with_tenant tenant_id (w token) ≡ ok t
    → Granted v token tenant_id t
unfolding with_tenant
Granted-by_tenant v token tenant_id t w n e h = elim (Result-cases (w token)) [
  | inl (u, g) ↦ by_tenant w u n e g (ground arith)
  | inr (x, g) ↦ absurd (ground arith)
]

Granted-by_default :
    (v : MultiTenantVerifier) (token tenant_id : String) (t : Token)
    → tenant_id ≡ ""
    → verify_default token v ≡ ok t
    → Granted v token tenant_id t
unfolding verify_default
Granted-by_default v token tenant_id t p h = elim (List-cases v.tenant_verifiers) [
  | inl e ↦ by_default p e (ground arith)
  | inr (w, ws, e) ↦ absurd (ground arith)
]

-- A verified token has been granted by the verifier of the tenant that was named, and carries that
-- tenant's name; the default verifier grants only where no tenants are configured and none is named.
pub verify-Granted :
    (v : MultiTenantVerifier) (token tenant_id : String) (t : Token)
    → verify token tenant_id v ≡ ok t
    → Granted v token tenant_id t
unfolding verify
verify-Granted v token tenant_id t h = elim (same tenant_id "") [
  | yes p ↦ Granted-by_default v token tenant_id t p (ground arith)
  | no n ↦ elim (Option-cases (lookup tenant_id v.tenant_verifiers)) [
    | inl e ↦ absurd (ground arith)
    | inr (w, e) ↦ Granted-by_tenant v token tenant_id t w n e (ground arith)
  ]
]
