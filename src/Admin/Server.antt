-- ===== src/Admin/Server.antt =====
-- server/admin/server.go, web.go and reverseproxy.go: the routes and what stands before them. The
-- router, which finds the route of a request, is the library's.
pub mod Access
pub mod Sessions
use piko.Prelude.{
  ℕ, ◌||◌, not, String, Bool, true, false, Option, none, some, same, ite, if◌then◌else◌, Result, ok,
  err,
}
use piko.Auth.Tenants.{MultiTenantVerifier}
use piko.Cluster.State
use piko.Cluster.State.{State, node}
use piko.Proxy.Request.{Request, Response, respond, get, authenticate}
use piko.Admin.Password.{PasswordAuth, new_password_auth}
use piko.Admin.Login.{AdminRequest, Reply, plain, login_route, logout_route, verify_session}

-- The routes that `NewServer` registers before the middleware, and all others, those of no handler
-- too.
pub data Route : Type 0 where
  health ready panel login logout gated : Route

-- What happens with a request: the server answers, shows the panel, lets a handler of the node answer,
-- or passes it to another node.
pub data Outcome : Type 0 where
  answered : Reply → Outcome
  shown : Outcome
  handled : Outcome
  forwarded : String → Outcome

-- `Server`, as `NewServer` sets it up.
pub record AdminServer : Type 0 where
  pub cluster_state : Option State
  pub ready : Bool
  pub verifier : Option MultiTenantVerifier
  pub passwords : Option PasswordAuth

-- `SetReady`
unfoldable pub set_ready : Bool → AdminServer → AdminServer
set_ready b s = record s { ready = b }

-- `readyRoute`
unfoldable pub ready_route : AdminServer → Outcome
unfolding plain
ready_route s = answered (plain (record { status = if s.ready then 200 else 503; message = none }))

-- `forwardInterceptor`
unfoldable pub forward_interceptor : State → AdminRequest → Outcome
unfolding node plain
forward_interceptor c r = elim r.forward [
  | none ↦ handled
  | some id ↦ ite (same id c.local_id) handled (elim (node c id) [
    | none ↦ answered (plain (record { status = 404; message = none }))
    | some n ↦ forwarded n.admin_addr
  ])
]

-- The response of `errorHandler` where the other node does not answer, in time or at all.
unfoldable pub proxy_error : Bool → Response
unfolding respond
proxy_error is_deadline =
    if is_deadline then respond 504 "upstream timeout" else respond 502 "upstream unreachable"

-- A check of a token: whether the request goes on.
unfoldable pub verify_token : MultiTenantVerifier → AdminRequest → Option Response
unfolding authenticate
verify_token v r = elim (authenticate v r.request) [ ok t ↦ none | err a ↦ some a ]

-- Whether the request has a header for a token.
unfoldable pub has_token : AdminRequest → Bool
unfolding get
has_token r =
    ite (same (get "authorization" r.request) "")
      (ite (same (get "x-piko-authorization" r.request) "") false true) true

-- The routes that follow the middleware.
unfoldable pub after_auth : AdminServer → AdminRequest → Outcome
unfolding forward_interceptor
after_auth s r = elim s.cluster_state [ none ↦ handled | some c ↦ forward_interceptor c r ]

module _ (hmac : String → String → String) (hex : String → String) where
  -- `NewServer`: no password is the empty password.
  unfoldable pub new_server : Option State → Option MultiTenantVerifier → String → AdminServer
  unfolding new_password_auth
  new_server cluster_state verifier password = record {
    cluster_state = cluster_state;
    ready = false;
    verifier = verifier;
    passwords = ite (same password "") none (some (new_password_auth hmac hex password));
  }

  -- The middleware that `NewServer` chooses: the response of a request that does not go on.
  unfoldable pub guard : AdminServer → ℕ → AdminRequest → Option Response
  unfolding verify_token has_token verify_session
  guard s now r = elim s.verifier [
    | none ↦ elim s.passwords [ none ↦ none | some a ↦ verify_session hmac hex a now r ]
    | some v ↦ elim s.passwords [
      | none ↦ verify_token v r
      | some a ↦ if has_token r then verify_token v r else verify_session hmac hex a now r
    ]
  ]

  -- The handler of POST /login.
  unfoldable pub login_handler : AdminServer → ℕ → Option String → AdminRequest → Reply
  unfolding login_route plain respond
  login_handler s now random r = elim s.passwords [
    | none ↦ plain (respond 404 "password login not enabled")
    | some a ↦ login_route hmac hex a now random r
  ]

  -- The handler of POST /logout.
  unfoldable pub logout_handler : AdminServer → AdminRequest → Reply
  unfolding logout_route plain
  logout_handler s r = elim s.passwords [
    | none ↦ plain (record { status = 204; message = none })
    | some a ↦ logout_route r
  ]

  -- A request at a time, on the route that was found for it.
  unfoldable pub serve : AdminServer → ℕ → Option String → Route → AdminRequest → Outcome
  unfolding plain ready_route login_handler logout_handler guard after_auth
  serve s now random health r = answered (plain (record { status = 200; message = none }))
  serve s now random ready r = ready_route s
  serve s now random panel r = shown
  serve s now random login r = answered (login_handler s now random r)
  serve s now random logout r = answered (logout_handler s r)
  serve s now random gated r = elim (guard s now r) [
    | some a ↦ answered (plain a)
    | none ↦ after_auth s r
  ]
