-- ===== src/Admin/Examples.antt =====
-- Two nodes with one password, and requests to them.
use Prim.Native.String
use piko.Prelude.{
  String,
  ◌≡◌,
  refl,
  ◌⊎◌,
  false,
  none,
  some,
  [],
  Map,
  lookup,
  same,
  differ,
  arith,
  Text.{contains_code},
}
use piko.Auth.Tenants.{MultiTenantVerifier, invalid_token}
use piko.Prelude.{err}
use piko.Proxy.Request.{Response, get}
use piko.Admin.Login.{AdminRequest, plain}
use piko.Admin.Server.{
  AdminServer, gated, login, answered, has_token, after_auth, new_server, serve,
}
use piko.Admin.Server.Access.{Admitted, serve-Admitted}
use piko.Admin.Server.Sessions.{session, granted, login-opens}

-- In place of the library's.
hmac : String → String → String
hmac key message = String.◌++◌ key message

hex : String → String
hex bytes = "0a1b"

abbrev headers_of : Map String → AdminRequest
headers_of headers = record {
  request = record { host = "10.0.0.1:8002"; headers = headers; param = "" };
  is_tls = false;
  cookie = none;
  forward = none;
  password = none;
}

abbrev with_password : AdminRequest
with_password = record (headers_of []) { password = some "secret" }

abbrev with_session : AdminRequest
with_session = record (headers_of []) { cookie = some (session hmac hex "secret" "xyz" 5000000000) }

abbrev tokens : MultiTenantVerifier
tokens = record { default_verifier = λ t. err invalid_token; tenant_verifiers = [] }

abbrev first_node : AdminServer
first_node = new_server hmac hex none none "secret"

abbrev second_node : AdminServer
second_node = new_server hmac hex none (some tokens) "secret"

login-opens_example :
    (serve hmac hex first_node 5000000000 (some "xyz") login with_password
      ≡ answered (granted hmac hex with_password "secret" "xyz" 5000000000))
    × (serve hmac hex second_node 9000000000 none gated with_session
        ≡ after_auth second_node with_session)
unfolding hex contains_code has_token get lookup same
login-opens_example =
    login-opens hmac hex none none none (some tokens) "secret" "xyz" 5000000000 9000000000 none
      with_password with_session (differ _ _ refl) refl (omega arith) (omega arith) refl refl refl

serve-Admitted_example :
    ((a : Response) × (serve hmac hex second_node 9000000000 none gated with_session
        ≡ answered (plain a)))
    ⊎ (Admitted hmac hex second_node 9000000000 with_session
        × (serve hmac hex second_node 9000000000 none gated with_session
            ≡ after_auth second_node with_session))
serve-Admitted_example = serve-Admitted hmac hex second_node 9000000000 none with_session
