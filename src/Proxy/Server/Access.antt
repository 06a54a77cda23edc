-- ===== src/Proxy/Server/Access.antt =====
-- server/proxy/server.go and pkg/middleware/auth.go: who reaches an upstream.
use piko.Prelude.{
  ℕ, String, ◌≡◌, refl, ◌∙◌, ◌≢◌, ◌⊎◌, Bool, true, Bool-cases, Option, some, [], inl, inr, same,
  Result, ok, Result-cases, arith,
}
use piko.Auth.Tenants.{Token, MultiTenantVerifier, verify, endpoint_permitted}
use piko.Upstream.Balancer.{Conn}
use piko.Upstream.Manager.{Manager}
use piko.Proxy.Request.{
  Request, Response, respond, parse_token, parse_tenant, authenticate, endpoint_id_from_request,
}
use piko.Proxy.Http.{Handled, SessionError, response, serve_http, serve_tcp}
use piko.Proxy.Server.{if_permitted, http_route, tcp_route, behind_auth}

-- A request's bearer token is verified by its tenant's verifier and permits an endpoint.
unfoldable pub MayUse : MultiTenantVerifier → Request → String → Type 0
MayUse v r id =
    (s : String) × (t : Token) × (parse_token r ≡ ok s)
    × (verify s (parse_tenant r) v ≡ ok t)
    × (endpoint_permitted t id ≡ true)

-- The server answered by itself and left the state of the manager as it was.
unfoldable pub Refused : {C : Type 0} → Manager → Handled C → Type 0
Refused m h = (a : Response) × (h ≡ some (response a, m, []))

pub authenticate-ok :
    (v : MultiTenantVerifier) (r : Request) (t : Token)
    → authenticate v r ≡ ok t
    → (s : String) × (parse_token r ≡ ok s) × (verify s (parse_tenant r) v ≡ ok t)
unfolding authenticate
authenticate-ok v r t h = elim (Result-cases (parse_token r)) [
  | inr (x, e) ↦ absurd (ground arith)
  | inl (s, e) ↦ elim (Result-cases (verify s (parse_tenant r) v)) [
    | inr (x, f) ↦ absurd (ground arith)
    | inl (u, f) ↦ (s, e, ground arith)
  ]
]

if_permitted-cases :
    {C : Type 0} (t : Token) (id : String) (m : Manager) (serve : Handled C)
    → (Refused m (if_permitted (some t) id m serve))
      ⊎ ((endpoint_permitted t id ≡ true) × (if_permitted (some t) id m serve ≡ serve))
unfolding if_permitted Refused
if_permitted-cases t id m serve = elim (Bool-cases (endpoint_permitted t id)) [
  | inl y ↦ inr (y, rw y refl)
  | inr n ↦ inl (respond 401 "endpoint not permitted", rw n refl)
]

behind_auth-ok :
    {C : Type 0} (route : Request → Option Token → Manager → Handled C) (v : MultiTenantVerifier)
    (r : Request) (m : Manager) (t : Token)
    → authenticate v r ≡ ok t
    → behind_auth route (some v) r m ≡ route r (some t) m
unfolding behind_auth
behind_auth-ok route v r m t e = ground arith

behind_auth-Refused :
    {C : Type 0} (route : Request → Option Token → Manager → Handled C) (v : MultiTenantVerifier)
    (r : Request) (m : Manager)
    → ((t : Token) → Refused m (route r (some t) m))
    → Refused m (behind_auth route (some v) r m)
unfolding behind_auth Refused
behind_auth-Refused route v r m routed = elim (Result-cases (authenticate v r)) [
  | inr (a, e) ↦ (a, ground arith)
  | inl (t, e) ↦ let (a, x) = routed t in (a, behind_auth-ok route v r m t e ∙ x)
]

-- A route behind the middleware, where what the route does with a verified token has two cases.
behind_auth-cases :
    {C : Type 0} (route : Request → Option Token → Manager → Handled C) (v : MultiTenantVerifier)
    (r : Request) (m : Manager) (id : String) (serve : Handled C)
    → ((t : Token)
        → Refused m (route r (some t) m)
          ⊎ ((endpoint_permitted t id ≡ true) × (route r (some t) m ≡ serve)))
    → Refused m (behind_auth route (some v) r m)
      ⊎ (MayUse v r id × (behind_auth route (some v) r m ≡ serve))
unfolding behind_auth MayUse Refused
behind_auth-cases route v r m id serve routed = elim (Result-cases (authenticate v r)) [
  | inr (a, e) ↦ inl (a, ground arith)
  | inl (t, e) ↦
      let (s, parsed, verified) = authenticate-ok v r t e in
      elim (routed t) [
        | inl (a, x) ↦ inl (a, behind_auth-ok route v r m t e ∙ x)
        | inr (permitted, x) ↦
            inr ((s, t, parsed, verified, permitted), behind_auth-ok route v r m t e ∙ x)
      ]
]

-- Where a verifier is configured, on the TCP route: either the server answers the request itself and
-- leaves the manager as it was, or the request's bearer token is verified by its tenant's verifier
-- and permits the endpoint of the path, and the TCP proxy handles the request for that endpoint.
pub tcp_route-MayUse :
    {C : Type 0} (open_stream : Conn → Result SessionError C) (upgrades : Bool) (timeout : ℕ)
    (v : MultiTenantVerifier) (r : Request) (m : Manager)
    → Refused m (behind_auth (tcp_route open_stream upgrades timeout) (some v) r m)
      ⊎ (MayUse v r r.param
          × (behind_auth (tcp_route open_stream upgrades timeout) (some v) r m
              ≡ serve_tcp open_stream upgrades timeout r r.param m))
unfolding tcp_route
tcp_route-MayUse open_stream upgrades timeout v r m =
    let serve = serve_tcp open_stream upgrades timeout r r.param m in
    behind_auth-cases (tcp_route open_stream upgrades timeout) v r m r.param serve
      (λ t. if_permitted-cases t r.param m serve)

-- Where a verifier is configured, on the HTTP route: either the server answers the request itself
-- and leaves the manager as it was, or the request names an endpoint, its bearer token is verified
-- by its tenant's verifier and permits that endpoint, and the HTTP proxy handles the request for it.
pub http_route-MayUse :
    {C : Type 0} (split_host_port : String → Option (String × String)) (is_ip : String → Bool)
    (timeout : ℕ) (v : MultiTenantVerifier) (r : Request) (m : Manager)
    → Refused m (behind_auth {C = C} (http_route split_host_port is_ip timeout) (some v) r m)
      ⊎ ((endpoint_id_from_request split_host_port is_ip r ≢ "")
          × MayUse v r (endpoint_id_from_request split_host_port is_ip r)
          × (behind_auth {C = C} (http_route split_host_port is_ip timeout) (some v) r m
              ≡ serve_http timeout r (endpoint_id_from_request split_host_port is_ip r) m))
unfolding http_route Refused
http_route-MayUse {C} split_host_port is_ip timeout v r m =
    let id = endpoint_id_from_request split_host_port is_ip r in
    let serve : Handled C = serve_http timeout r id m in
    let route = http_route {C = C} split_host_port is_ip timeout in
    elim (same id "") [
      | yes missing ↦
          inl (
            behind_auth-Refused route v r m
              (λ t. (respond 400 "missing endpoint id", ground arith)))
      | no given ↦
          elim (behind_auth-cases route v r m id serve (λ t.
            elim (if_permitted-cases t id m serve) [
              | inl (a, x) ↦ inl (a, ground arith)
              | inr (permitted, x) ↦ inr (permitted, ground arith)
            ])) [ inl refused ↦ inl refused | inr passed ↦ inr (given, passed.0, passed.1) ]
    ]
