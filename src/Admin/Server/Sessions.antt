-- ===== src/Admin/Server/Sessions.antt =====
-- server/admin: a session that one node of the cluster gave opens the others.
use piko.Prelude.{
  ℕ,
  ◌+◌,
  ◌*◌,
  ◌/◌,
  ◌≤◌,
  ◌≢◌,
  String,
  ◌≡◌,
  true,
  false,
  Option,
  none,
  some,
  arith,
  Text.{contains_code},
}
use piko.Prelude.Int.{pos, max_int, add_int-pos}
use piko.Auth.Tenants.{MultiTenantVerifier}
use piko.Cluster.State.{State}
use piko.Admin.Password.{
  second, session_ttl, unix_to_internal, is_after, new_password_auth, sign, new_session, valid,
}
use piko.Admin.Password.Signed.{valid-sign}
use piko.Admin.Login.{AdminRequest, Reply, set_cookie, grant, login_route, verify_session}
use piko.Admin.Server.{
  gated, login, answered, has_token, after_auth, new_server, guard, login_handler, serve,
}

-- The expiry of a session that is given at a time.
abbrev pub expiry_of : ℕ → ℕ
expiry_of now = (now + session_ttl * second) / second

not_after :
    (later n : ℕ)
    → n + unix_to_internal ≤ max_int
    → later ≤ n * second
    → is_after later (pos n) ≡ false
unfolding is_after
not_after later n m l = rw (add_int-pos n unix_to_internal m, is_after) (ground arith)

module _ (hmac : String → String → String) (hex : String → String) where
  -- The session that a login at a time gives.
  abbrev pub session : String → String → ℕ → String
  session password bytes now =
      sign hmac hex (new_password_auth hmac hex password) (hex bytes) (pos (expiry_of now))

  abbrev pub granted : AdminRequest → String → String → ℕ → Reply
  granted r password bytes now = record {
    response = record { status = 200; message = none };
    expires_at = some (pos (expiry_of now));
    cookie = some (set_cookie r (session password bytes now) (pos session_ttl));
    delay = 0;
  }

  login-granted :
      (c : Option State) (v : Option MultiTenantVerifier) (password bytes : String) (now : ℕ)
      (r : AdminRequest)
      → password ≢ ""
      → r.password ≡ some password
      → serve hmac hex (new_server hmac hex c v password) now (some bytes) login r
        ≡ answered (granted r password bytes now)
  unfolding serve login_handler login_route new_server new_password_auth new_session grant
  login-granted c v password bytes now r n p = ground arith

  session-opens :
      (c : Option State) (v : Option MultiTenantVerifier) (password token : String) (later : ℕ)
      (random : Option String) (r : AdminRequest)
      → password ≢ ""
      → r.cookie ≡ some token
      → valid hmac hex (new_password_auth hmac hex password) later token ≡ true
      → has_token r ≡ false
      → let s = new_server hmac hex c v password in
        serve hmac hex s later random gated r ≡ after_auth s r
  unfolding serve guard new_server verify_session
  session-opens c v password token later random r n p h t = ground arith

  -- Where a password is configured: a login with it is answered with a session, and until the session's
  -- expiry a request with the session as its cookie, and without a header for a token, gets past the
  -- middleware of every node with the same password, whatever else that node has. The hexadecimal
  -- text of the session's name has no dot, and the expiry fits a time.
  pub login-opens :
      (c c' : Option State) (v v' : Option MultiTenantVerifier) (password bytes : String)
      (now later : ℕ) (random : Option String) (r r' : AdminRequest)
      → password ≢ ""
      → contains_code b'.' (hex bytes) ≡ false
      → expiry_of now + unix_to_internal ≤ max_int
      → later ≤ expiry_of now * second
      → r.password ≡ some password
      → r'.cookie ≡ some (session password bytes now)
      → has_token r' ≡ false
      → let s = new_server hmac hex c v password in
        let s' = new_server hmac hex c' v' password in
        (serve hmac hex s now (some bytes) login r ≡ answered (granted r password bytes now))
        × (serve hmac hex s' later random gated r' ≡ after_auth s' r')
  login-opens c c' v v' password bytes now later random r r' n dotless fits l p k t =
      let a = new_password_auth hmac hex password in
      let n' = expiry_of now in
      let ok_now =
        valid-sign hmac hex a later n' (hex bytes) dotless (omega (arith, fits))
          (not_after later n' fits l) in
      (
        login-granted c v password bytes now r n p,
        session-opens c' v' password (session password bytes now) later random r' n k ok_now t,
      )
