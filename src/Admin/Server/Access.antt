-- ===== src/Admin/Server/Access.antt =====
-- server/admin: who gets past the middleware, at any node of the cluster.
use piko.Prelude.{
  ℕ,
  ◌≢◌,
  ◌⊎◌,
  String,
  ◌≡◌,
  refl,
  sym,
  ◌∙◌,
  Bool-cases,
  Option,
  Option-cases,
  none,
  some,
  inl,
  inr,
  same,
  ok,
  Result-cases,
  arith,
  Text.{},
}
use piko.Auth.Tenants.{Token, MultiTenantVerifier, verify}
use piko.Cluster.State.{State, Node, node}
use piko.Proxy.Request.{Response, parse_token, parse_tenant, authenticate}
use piko.Proxy.Server.Access.{authenticate-ok}
use piko.Admin.Password.{PasswordAuth}
use piko.Admin.Password.Signed.{IsSession, valid-IsSession}
use piko.Admin.Login.{AdminRequest, plain, verify_session}
use piko.Admin.Server.{
  AdminServer, Route, health, ready, panel, login, logout, gated, ready_route, answered, forwarded,
  forward_interceptor, verify_token, has_token, after_auth, guard, serve,
}

module _ (hmac : String → String → String) (hex : String → String) where
  -- Why a request goes on: nothing is configured to stop it, its token is verified, or it has a
  -- session that the password signed.
  pub data Admitted (s : AdminServer) (now : ℕ) (r : AdminRequest) : Type 0 where
    unprotected : s.verifier ≡ none → s.passwords ≡ none → Admitted s now r
    by_token :
        (v : MultiTenantVerifier) (text : String) (t : Token)
        → s.verifier ≡ some v
        → parse_token r.request ≡ ok text
        → verify text (parse_tenant r.request) v ≡ ok t
        → Admitted s now r
    by_session :
        (a : PasswordAuth) (token : String)
        → s.passwords ≡ some a
        → r.cookie ≡ some token
        → IsSession hmac hex a now token
        → Admitted s now r

  verify_token-ok :
      (s : AdminServer) (now : ℕ) (r : AdminRequest) (v : MultiTenantVerifier)
      → s.verifier ≡ some v
      → verify_token v r ≡ none
      → Admitted s now r
  unfolding verify_token
  verify_token-ok s now r v e h = elim (Result-cases (authenticate v r.request)) [
    | inl (t, f) ↦ let (text, p, q) = authenticate-ok v r.request t f in by_token v text t e p q
    | inr (x, f) ↦ absurd (ground arith)
  ]

  verify_session-ok :
      (s : AdminServer) (now : ℕ) (r : AdminRequest) (a : PasswordAuth)
      → s.passwords ≡ some a
      → verify_session hmac hex a now r ≡ none
      → Admitted s now r
  unfolding verify_session
  verify_session-ok s now r a e h = elim (Option-cases r.cookie) [
    | inl f ↦ absurd (ground arith)
    | inr (token, f) ↦ by_session a token e f (valid-IsSession hmac hex a now token (ground arith))
  ]

  guard-Admitted :
      (s : AdminServer) (now : ℕ) (r : AdminRequest)
      → guard hmac hex s now r ≡ none
      → Admitted s now r
  unfolding guard
  guard-Admitted s now r h = elim (Option-cases s.verifier) [
    | inl e ↦ elim (Option-cases s.passwords) [
      | inl f ↦ unprotected e f
      | inr (a, f) ↦ verify_session-ok s now r a f (ground arith)
    ]
    | inr (v, e) ↦ elim (Option-cases s.passwords) [
      | inl f ↦ verify_token-ok s now r v e (ground arith)
      | inr (a, f) ↦ elim (Bool-cases (has_token r)) [
        | inl t ↦ verify_token-ok s now r v e (ground arith)
        | inr t ↦ verify_session-ok s now r a f (ground arith)
      ]
    ]
  ]

  -- What follows the middleware is reached only past it: on any route of the node beside the
  -- probes, the panel, the login and the logout, the server either answers by itself, or the request is
  -- admitted and goes on.
  pub serve-Admitted :
      (s : AdminServer) (now : ℕ) (random : Option String) (r : AdminRequest)
      → ((a : Response) × (serve hmac hex s now random gated r ≡ answered (plain a)))
        ⊎ (Admitted s now r × (serve hmac hex s now random gated r ≡ after_auth s r))
  unfolding serve
  serve-Admitted s now random r = elim (Option-cases (guard hmac hex s now r)) [
    | inl e ↦ inr (guard-Admitted s now r e, ground arith)
    | inr (a, e) ↦ inl (a, ground arith)
  ]

  -- What a request needs to be passed on to another node.
  pub record Passed (s : AdminServer) (now : ℕ) (route : Route) (r : AdminRequest) (addr : String)
      : Type 0 where
    pub on_gated : route ≡ gated
    pub admitted : Admitted s now r
    pub cluster : State
    pub id : String
    pub known : Node
    pub of_server : s.cluster_state ≡ some cluster
    pub named : r.forward ≡ some id
    pub other : id ≢ cluster.local_id
    pub found : node cluster id ≡ some known
    pub at : known.admin_addr ≡ addr

  interceptor-cases :
      (c : State) (r : AdminRequest) (addr : String)
      → forward_interceptor c r ≡ forwarded addr
      → (id : String) × (n : Node) × (r.forward ≡ some id)
        × (id ≢ c.local_id)
        × (node c id ≡ some n)
        × (n.admin_addr ≡ addr)
  unfolding forward_interceptor
  interceptor-cases c r addr h = elim (Option-cases r.forward) [
    | inl e ↦ absurd (ground arith)
    | inr (id, e) ↦ elim (same id c.local_id) [
      | yes p ↦ absurd (ground arith)
      | no n ↦ elim (Option-cases (node c id)) [
        | inl f ↦ absurd (ground arith)
        | inr (m, f) ↦ (id, m, e, n, f, ground arith)
      ]
    ]
  ]

  after_auth-cases :
      (s : AdminServer) (r : AdminRequest) (addr : String)
      → after_auth s r ≡ forwarded addr
      → (c : State) × (s.cluster_state ≡ some c) × (forward_interceptor c r ≡ forwarded addr)
  unfolding after_auth
  after_auth-cases s r addr h = elim (Option-cases s.cluster_state) [
    | inl e ↦ absurd (ground arith)
    | inr (c, e) ↦ (c, e, ground arith)
  ]

  gated-Passed :
      (s : AdminServer) (now : ℕ) (random : Option String) (r : AdminRequest) (addr : String)
      → serve hmac hex s now random gated r ≡ forwarded addr
      → Passed s now gated r addr
  gated-Passed s now random r addr h = elim (serve-Admitted s now random r) [
    | inl (a, e) ↦ absurd (ground (arith, e))
    | inr (w, e) ↦
        let (c, f, g) = after_auth-cases s r addr (sym e ∙ h) in
        let (id, n, p, q, t, u) = interceptor-cases c r addr g in
        record {
          on_gated = refl;
          admitted = w;
          cluster = c;
          id = id;
          known = n;
          of_server = f;
          named = p;
          other = q;
          found = t;
          at = u;
        }
  ]

  -- A request leaves the node only from behind the middleware, admitted, and where its query names
  -- another node that the cluster state has; then it goes to the admin address of that node.
  pub serve-Passed :
      (s : AdminServer) (now : ℕ) (random : Option String) (route : Route) (r : AdminRequest)
      (addr : String)
      → serve hmac hex s now random route r ≡ forwarded addr
      → Passed s now route r addr
  unfolding serve ready_route
  serve-Passed s now random health r addr h = absurd (ground arith)
  serve-Passed s now random ready r addr h = absurd (ground arith)
  serve-Passed s now random panel r addr h = absurd (ground arith)
  serve-Passed s now random login r addr h = absurd (ground arith)
  serve-Passed s now random logout r addr h = absurd (ground arith)
  serve-Passed s now random gated r addr h = gated-Passed s now random r addr h
