-- ===== src/Proxy/Examples.antt =====
-- A node with a listener of the endpoint "web", and requests for it.
use piko.Prelude.{
  ℕ,
  String,
  ◌≡◌,
  refl,
  ◌≢◌,
  ◌⊎◌,
  Bool,
  false,
  Option,
  none,
  some,
  [],
  ◌∷◌,
  lookup,
  insert,
  same,
  differ,
  ok,
  Text.{contains_code, cut_at},
}
use piko.Auth.Tenants.{MultiTenantVerifier}
use piko.Auth.Claims.{endpoint_id_from_claim}
use piko.Upstream.Balancer.{Conn, conn, forward}
use piko.Upstream.Manager.{Manager, select}
use piko.Proxy.Request.{Request, get, host_of, bottom_level, endpoint_id_from_request}
use piko.Proxy.Request.Host.{endpoint_id_from_request-claim}
use piko.Proxy.Http.{Proxied, reverse_proxy, serve_http, serve_with_upstream, is_forwarded}
use piko.Proxy.Http.Hops.{Serves, by_http, Serves-once}
use piko.Proxy.Server.{http_route, behind_auth}
use piko.Proxy.Server.Access.{Refused, MayUse, http_route-MayUse}

abbrev listener : Conn
listener = record {
  pointer = 1;
  endpoint_id = "web";
  name = "";
  addr = "10.0.0.9";
  connected_at = 0;
}

abbrev manager : Manager
manager = record {
  local_upstreams = ("web", record { upstreams = listener ∷ []; next_index = 0 }) ∷ [];
  cluster = record { local_id = "a"; nodes = []; local_subscribers = []; remote_subscribers = [] };
}

abbrev request : Request
request = record {
  host = "web.example.com";
  headers = ("authorization", "Bearer abc") ∷ [];
  param = "";
}

abbrev no_port : String → Option (String × String)
no_port s = none

abbrev no_ip : String → Bool
no_ip s = false

endpoint_id_from_request-claim_example :
    endpoint_id_from_request no_port no_ip request
    ≡ endpoint_id_from_claim (host_of no_port "web.example.com")
unfolding get lookup same host_of contains_code bottom_level cut_at
endpoint_id_from_request-claim_example =
    endpoint_id_from_request-claim no_port no_ip request refl refl refl (differ _ _ refl)

abbrev proxied : Proxied
proxied = serve_with_upstream 0 request "web" (conn listener)

first_hop : Serves ℕ request (reverse_proxy proxied)
unfolding serve_http select lookup insert same is_forwarded get
first_hop = by_http 0 "web" manager manager _ refl

-- The request arrives as it was proxied, and is proxied again.
abbrev proxied_again : Proxied
proxied_again = serve_with_upstream 0 proxied.request "web" (conn listener)

second_hop : Serves ℕ proxied.request (reverse_proxy proxied_again)
unfolding serve_http select lookup insert same is_forwarded get serve_with_upstream
second_hop = by_http 0 "web" manager manager _ refl

Serves-once_example : forward proxied_again.upstream ≡ false
Serves-once_example =
    Serves-once ℕ request proxied.request proxied proxied_again first_hop refl second_hop

abbrev verifier : MultiTenantVerifier
verifier = record {
  default_verifier = λ s. ok (record { expiry = 0; endpoints = "web" ∷ []; tenant_id = "" });
  tenant_verifiers = [];
}

http_route-MayUse_example :
    Refused manager
      (behind_auth {C = ℕ} (http_route no_port no_ip 0) (some verifier) request manager)
    ⊎ ((endpoint_id_from_request no_port no_ip request ≢ "")
        × MayUse verifier request (endpoint_id_from_request no_port no_ip request)
        × (behind_auth {C = ℕ} (http_route no_port no_ip 0) (some verifier) request manager
            ≡ serve_http 0 request (endpoint_id_from_request no_port no_ip request) manager))
http_route-MayUse_example = http_route-MayUse no_port no_ip 0 verifier request manager
