-- ===== src/Client/Dialer.antt =====
-- client/dialer.go: a connection to an endpoint.
use piko.Prelude.{String, Option, List, [], ◌∷◌, Result}
use piko.Wire.WebSocket.Dial.{Error, Dialer, Response, token_option, tls_config_option, dial}
use piko.Client.Url.{Url, dial_url}
use piko.Client.Upstream.{Library}

-- `Dialer`
pub record EndpointDialer (Tls : Type 0) : Type 0 where
  pub url : Option Url
  pub token : String
  pub tls_config : Option Tls

-- `Dial`
unfoldable pub dial_endpoint :
    {Tls Conn : Type 0}
    → Library
    → (Dialer Tls Url → String → List (String × String) → Result (Option Response × String) Conn)
    → EndpointDialer Tls
    → String
    → Result Error Conn
unfolding dial dial_url
dial_endpoint lib dial_context d endpoint_id =
    dial dial_context lib.decode (lib.print (dial_url d.url endpoint_id))
      (token_option d.token ∷ tls_config_option d.tls_config ∷ [])
