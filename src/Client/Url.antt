-- ===== src/Client/Url.antt =====
-- client/upstream.go and client/dialer.go: the address of an endpoint at the server.
use Prim.Native.String
use piko.Prelude.{String, Option, none, some, same, ite}

-- What the client reads and writes of a url.URL.
pub record Url : Type 0 where
  pub scheme : String
  pub host : String
  pub path : String
  pub raw_query : String

unfoldable pub local_url : String → Url
local_url host = record { scheme = "http"; host = host; path = ""; raw_query = "" }

-- The scheme of a WebSocket in place of that of HTTP; both tests are made, one after the other.
unfoldable pub web_socket : Url → Url
web_socket u =
    let v = ite (same u.scheme "http") (record u { scheme = "ws" }) u in
    ite (same v.scheme "https") (record v { scheme = "wss" }) v

-- The URL of the configuration, or the default one, with a path added.
unfoldable pub at_path : Option Url → String → String → Url
unfolding local_url
at_path configured host path =
    let u : Url = elim configured [ none ↦ local_url host | some u ↦ u ] in
    record u { path = String.◌++◌ u.path path }

-- `listenURL`; `set_name` is the library's, which parses a query, sets its name and encodes it.
unfoldable pub listen_url : (String → String → String) → Option Url → String → String → Url
unfolding at_path web_socket
listen_url set_name configured name endpoint_id =
    let u = at_path configured "localhost:8001" (String.◌++◌ "/piko/v1/upstream/" endpoint_id) in
    web_socket (ite (same name "") u (record u { raw_query = set_name u.raw_query name }))

-- `dialURL`
unfoldable pub dial_url : Option Url → String → Url
unfolding at_path web_socket
dial_url configured endpoint_id =
    web_socket (at_path configured "localhost:8000" (String.◌++◌ "/_piko/v1/tcp/" endpoint_id))
