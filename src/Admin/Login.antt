-- ===== src/Admin/Login.antt =====
-- server/admin/password.go: the handlers of the login and of the logout, and the middleware that
-- wants a session.
use Prim.Native.Char.{code}
use piko.Prelude.{
  ℕ, ◌+◌, ◌*◌, ◌/◌, leb, ◌==◌, ◌&&◌, ◌||◌, String, Bool, true, false, Option, none, some, same, ite,
  if◌then◌else◌,
}
use piko.Prelude.Int.{ℤ, pos, negsuc}
use piko.Proxy.Request.{Request, Response, respond, get}
use piko.Admin.Password.{
  PasswordAuth, Cookie, second, session_ttl, failed_login_delay, new_session, valid,
}

-- A request: its headers, the session cookie, the `forward` query and the password of a JSON body,
-- which is `none` where the body is not of its form.
pub record AdminRequest : Type 0 where
  pub request : Request
  pub is_tls : Bool
  pub cookie : Option String
  pub forward : Option String
  pub password : Option String

-- What a handler answers, after how many nanoseconds of sleep.
pub record Reply : Type 0 where
  pub response : Response
  pub expires_at : Option ℤ
  pub cookie : Option Cookie
  pub delay : ℕ

unfoldable pub plain : Response → Reply
plain a = record { response = a; expires_at = none; cookie = none; delay = 0 }

-- A character's code, with the letters of one fold made one. The long s folds with s.
fold_code : ℕ → ℕ
fold_code c = if leb b'A' c && leb c b'Z' then c + 32 else if c == 383 then b's' else c

-- strings.EqualFold, where one text is of lower-case letters other than k.
unfoldable pub equal_fold : String → String → Bool
unfolding fold_code
equal_fold String.[] String.[] = true
equal_fold String.[] (String.◌∷◌ d t) = false
equal_fold (String.◌∷◌ c s) String.[] = false
equal_fold (String.◌∷◌ c s) (String.◌∷◌ d t) =
    (fold_code (code c) == fold_code (code d)) && equal_fold s t

-- `setCookie`
unfoldable pub set_cookie : AdminRequest → String → ℤ → Cookie
unfolding equal_fold get
set_cookie r value max_age = record {
  value = value;
  max_age = max_age;
  secure = r.is_tls || equal_fold (get "x-forwarded-proto" r.request) "https";
}

-- `logoutRoute`
unfoldable pub logout_route : AdminRequest → Reply
unfolding set_cookie
logout_route r = record {
  response = record { status = 204; message = none };
  expires_at = none;
  cookie = some (set_cookie r "" (negsuc 0));
  delay = 0;
}

module _ (hmac : String → String → String) (hex : String → String) where
  -- The end of `loginRoute`, with a session or the error of its making.
  unfoldable pub grant : AdminRequest → ℤ → Option String → Reply
  unfolding set_cookie plain
  grant r expiry none = plain (record { status = 500; message = none })
  grant r expiry (some session) = record {
    response = record { status = 200; message = none };
    expires_at = some expiry;
    cookie = some (set_cookie r session (pos session_ttl));
    delay = 0;
  }

  -- `loginRoute`, at a time, where rand.Read gives some bytes or fails.
  unfoldable pub login_route : PasswordAuth → ℕ → Option String → AdminRequest → Reply
  unfolding plain respond grant new_session
  login_route a now random r = elim r.password [
    | none ↦ plain (respond 400 "invalid request")
    | some given ↦
        let expiry = pos ((now + session_ttl * second) / second) in
        ite (same given a.password) (grant r expiry (new_session hmac hex a random expiry))
          (record (plain (respond 401 "incorrect password")) { delay = failed_login_delay })
  ]

  -- `Verify`: whether the request goes on.
  unfoldable pub verify_session : PasswordAuth → ℕ → AdminRequest → Option Response
  unfolding respond valid
  verify_session a now r = elim r.cookie [
    | none ↦ some (respond 401 "missing authorization")
    | some token ↦
        if valid hmac hex a now token then none else some (respond 401 "missing authorization")
  ]
