-- ===== src/Proxy/Http.antt =====
-- server/proxy/httpproxy.go and tcpproxy.go, and the dialing of server/upstream/upstream.go. `none`
-- is a panic. The reverse proxy, the sessions and the dialer of other nodes are the libraries'.
pub mod Hops
use mathlib.Core.Option
use piko.Prelude.{
  ℕ, String, Bool, true, false, not, ◌&&◌, ◌==◌, Option, none, some, List, [], ◌∷◌, ◌++◌, same,
  if◌then◌else◌, Result, ok, err,
}
use piko.Cluster.State.{Node}
use piko.Upstream.Balancer.{Conn, Upstream, conn, remote, forward}
use piko.Upstream.Manager.{Manager, Effects, select, remove_conn}
use piko.Proxy.Request.{Request, Response, get, set, respond}

-- What `ServeHTTPWithUpstream` gives the reverse proxy: the request, the upstream and the endpoint
-- of its context, and the timeout of the request in nanoseconds, if it has one.
pub record Proxied : Type 0 where
  pub request : Request
  pub upstream : Upstream
  pub endpoint : String
  pub timeout : Option ℕ

-- How a request ends: with a response of the server, with the reverse proxy, with a tunnel between
-- the client and a connection to a listener, or with the response of the WebSocket upgrader.
pub data Outcome (C : Type 0) : Type 0 where
  response : Response → Outcome C
  reverse_proxy : Proxied → Outcome C
  tunnel : C → Outcome C
  upgrade_failed : Outcome C

-- What a handler leaves.
abbrev pub Handled : Type 0 → Type 0
Handled C = Option (Outcome C × Manager × Effects)

-- r.Header.Get("x-piko-forward") == "true"
unfoldable pub is_forwarded : Request → Bool
unfolding get
is_forwarded r = elim (same (get "x-piko-forward" r) "true") [ yes p ↦ true | no n ↦ false ]

unfoldable pub is_websocket : Request → Bool
unfolding get
is_websocket r = elim (same (get "upgrade" r) "websocket") [ yes p ↦ true | no n ↦ false ]

-- `ServeHTTPWithUpstream`
unfoldable pub serve_with_upstream : ℕ → Request → String → Upstream → Proxied
unfolding set is_websocket
serve_with_upstream timeout r id u = record {
  request = set "x-piko-forward" "true" r;
  upstream = u;
  endpoint = id;
  timeout = if not (timeout == 0) && not (is_websocket r) then some timeout else none;
}

abbrev pub no_upstreams : {C : Type 0} → Outcome C
no_upstreams = response (record { status = 502; message = some "no available upstreams" })

abbrev pub unreachable : {C : Type 0} → Outcome C
unreachable = response (record { status = 502; message = some "upstream unreachable" })

-- What a handler does with the result of `Select`. A nil upstream with ok is dereferenced.
unfoldable pub with_selected :
    {C : Type 0}
    → (Upstream → Manager → Effects → Handled C)
    → Option (Option Upstream × Bool × Manager × Effects)
    → Handled C
with_selected use_it none = none
with_selected use_it (some (u, false, m, e)) = some (no_upstreams, m, e)
with_selected use_it (some (none, true, m, e)) = none
with_selected use_it (some (some u, true, m, e)) = use_it u m e

-- `ServeHTTP` of `HTTPProxy`
unfoldable pub serve_http : {C : Type 0} → ℕ → Request → String → Manager → Handled C
unfolding select is_forwarded serve_with_upstream with_selected
serve_http timeout r id m =
    with_selected (λ u n e. some (reverse_proxy (serve_with_upstream timeout r id u), n, e))
      (select id (not (is_forwarded r)) m)

-- How a session or a dial fails.
pub data SessionError : Type 0 where
  remote_go_away : SessionError
  session_error : String → SessionError

pub data DialError : Type 0 where
  gone : DialError
  failed : String → DialError

-- `Dial` of a `ConnUpstream`; `open_stream` is the session's.
unfoldable pub dial_conn : {C : Type 0} → (Conn → Result SessionError C) → Conn → Result DialError C
dial_conn open_stream c = elim (open_stream c) [
  | ok s ↦ ok s
  | err remote_go_away ↦ err gone
  | err (session_error e) ↦ err (failed e)
]

-- The removal that follows a failed dial of a listener.
unfoldable pub after_dial :
    {C : Type 0}
    → Result DialError C
    → Conn
    → Manager
    → Option (Result DialError C × Manager × Effects)
unfolding remove_conn
after_dial (ok s) c m = some (ok s, m, [])
after_dial (err (failed e)) c m = some (err (failed e), m, [])
after_dial (err gone) c m = Option.map (λ r. (err gone, r.0, r.1)) (remove_conn c m)

-- `dialUpstream`, which the reverse proxy calls; a dial of another node is never `ErrGone`.
unfoldable pub dial_upstream :
    {C : Type 0}
    → (Conn → Result SessionError C)
    → (Node → Result String C)
    → Upstream
    → Manager
    → Option (Result DialError C × Manager × Effects)
unfolding dial_conn after_dial
dial_upstream open_stream dial_node (conn c) m = after_dial (dial_conn open_stream c) c m
dial_upstream open_stream dial_node (remote id n) m =
    some (elim (dial_node n) [ ok s ↦ ok s | err e ↦ err (failed e) ], m, [])

-- `errorHandler`, of the reverse proxy's error: whether the deadline of the request has passed.
unfoldable pub error_handler : Bool → Response
unfolding respond
error_handler true = respond 504 "upstream timeout"
error_handler false = respond 502 "upstream unreachable"

-- `ServeHTTP` of `TCPProxy` for a listener: the dial, and then the upgrade of the client.
unfoldable pub serve_conn :
    {C : Type 0} → (Conn → Result SessionError C) → Bool → Conn → Manager → Effects → Handled C
unfolding dial_conn after_dial
serve_conn open_stream upgrades c m e = elim (after_dial (dial_conn open_stream c) c m) [
  | none ↦ none
  | some (ok s, n, f) ↦ some ((if upgrades then tunnel s else upgrade_failed), n, e ++ f)
  | some (err x, n, f) ↦ some (unreachable, n, e ++ f)
]

unfoldable pub serve_selected :
    {C : Type 0}
    → (Conn → Result SessionError C)
    → Bool
    → ℕ
    → Request
    → String
    → Upstream
    → Manager
    → Effects
    → Handled C
unfolding serve_with_upstream serve_conn
serve_selected open_stream upgrades timeout r id (remote i n) m e =
    some (reverse_proxy (serve_with_upstream timeout r id (remote i n)), m, e)
serve_selected open_stream upgrades timeout r id (conn c) m e =
    serve_conn open_stream upgrades c m e

-- `ServeHTTP` of `TCPProxy`; `upgrades` is whether the upgrade of the client succeeds.
unfoldable pub serve_tcp :
    {C : Type 0}
    → (Conn → Result SessionError C)
    → Bool
    → ℕ
    → Request
    → String
    → Manager
    → Handled C
unfolding select is_forwarded serve_selected with_selected
serve_tcp open_stream upgrades timeout r id m =
    with_selected (serve_selected open_stream upgrades timeout r id)
      (select id (not (is_forwarded r)) m)
