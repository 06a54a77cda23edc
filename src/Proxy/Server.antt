-- ===== src/Proxy/Server.antt =====
-- server/proxy/server.go: the routes, behind the middleware that verifies tokens. `none` is a
-- panic, which the router answers with status 500.
pub mod Access
use piko.Prelude.{
  ℕ, String, Bool, true, false, Option, none, some, List, [], same, ite, if◌then◌else◌, Result, ok,
  err,
}
use piko.Auth.Tenants.{Token, MultiTenantVerifier, endpoint_permitted}
use piko.Upstream.Balancer.{Conn}
use piko.Upstream.Manager.{Manager}
use piko.Proxy.Request.{Request, respond, authenticate, endpoint_id_from_request}
use piko.Proxy.Http.{Handled, SessionError, response, serve_http, serve_tcp}

-- A route's check of the token in the context, if there is one.
unfoldable pub if_permitted : {C : Type 0} → Option Token → String → Manager → Handled C → Handled C
unfolding endpoint_permitted respond
if_permitted none id m serve = serve
if_permitted (some t) id m serve =
    if endpoint_permitted t id
    then serve
    else some (response (respond 401 "endpoint not permitted"), m, [])

-- `proxyHTTPRoute`
unfoldable pub http_route :
    {C : Type 0}
    → (String → Option (String × String))
    → (String → Bool)
    → ℕ
    → Request
    → Option Token
    → Manager
    → Handled C
unfolding endpoint_id_from_request if_permitted serve_http
http_route split_host_port is_ip timeout r token m =
    let id = endpoint_id_from_request split_host_port is_ip r in
    ite (same id "") (some (response (respond 400 "missing endpoint id"), m, []))
      (if_permitted token id m (serve_http timeout r id m))

-- `proxyTCPRoute`
unfoldable pub tcp_route :
    {C : Type 0}
    → (Conn → Result SessionError C)
    → Bool
    → ℕ
    → Request
    → Option Token
    → Manager
    → Handled C
unfolding if_permitted serve_tcp
tcp_route open_stream upgrades timeout r token m =
    if_permitted token r.param m (serve_tcp open_stream upgrades timeout r r.param m)

-- A route behind the middleware, which there is where a verifier is configured.
unfoldable pub behind_auth :
    {C : Type 0}
    → (Request → Option Token → Manager → Handled C)
    → Option MultiTenantVerifier
    → Request
    → Manager
    → Handled C
unfolding authenticate
behind_auth route none r m = route r none m
behind_auth route (some v) r m = elim (authenticate v r) [
  | err e ↦ some (response e, m, [])
  | ok t ↦ route r (some t) m
]
