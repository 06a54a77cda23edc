-- ===== src/Proxy/Request.antt =====
-- What the proxy reads of a request: pkg/middleware/auth.go, and `EndpointIDFromRequest` of
-- server/proxy/server.go. The names of headers are in lower case, as every spelling of one names
-- the same; net.SplitHostPort and net.ParseIP are parameters.
pub mod Host
use piko.Prelude.{
  ℕ,
  String,
  Bool,
  true,
  false,
  Option,
  none,
  some,
  List,
  [],
  ◌∷◌,
  Map,
  lookup,
  insert,
  same,
  ite,
  if◌then◌else◌,
  Result,
  ok,
  err,
  Text.{cut_at, contains_code},
}
use piko.Auth.Tenants.{
  Token, Error, MultiTenantVerifier, invalid_token, expired_token, missing_endpoints,
  unknown_tenant, other, verify,
}

pub record Request : Type 0 where
  pub host : String
  pub headers : Map String
  -- the part of the path that a route names
  pub param : String

-- A response of the server's own: its status and its error message, if it has a body.
pub record Response : Type 0 where
  pub status : ℕ
  pub message : Option String

unfoldable pub respond : ℕ → String → Response
respond code message = record { status = code; message = some message }

-- Header.Get
unfoldable pub get : String → Request → String
unfolding lookup
get name r = elim (lookup name r.headers) [ none ↦ "" | some v ↦ v ]

-- Header.Set
unfoldable pub set : String → String → Request → Request
unfolding insert
set name value r = record r { headers = insert name value r.headers }

unfoldable pub first_given : String → String → String
first_given a b = ite (same a "") b a

-- `parseToken`
unfoldable pub parse_token : Request → Result Response String
unfolding get first_given respond cut_at
parse_token r =
    let authorization = first_given (get "x-piko-authorization" r) (get "authorization" r) in
    ite (same authorization "") (err (respond 401 "missing authorization"))
      (elim (cut_at b' ' authorization) [
        | none ↦ err (respond 401 "invalid authorization")
        | some (auth_type, token) ↦
            ite (same auth_type "Bearer") (ok token) (err (respond 401 "unsupported auth type"))
      ])

-- `parseTenant`
unfoldable pub parse_tenant : Request → String
unfolding get
parse_tenant r = get "x-piko-tenant-id" r

-- The response to a token that is not verified.
unfoldable pub refusal : Error → Response
unfolding respond
refusal invalid_token = respond 401 "invalid token"
refusal expired_token = respond 401 "expired token"
refusal missing_endpoints = respond 401 "token missing endpoints"
refusal unknown_tenant = respond 401 "unknown tenant"
refusal (other e) = record { status = 500; message = none }

-- `Verify` of the middleware: the token that it puts in the context.
unfoldable pub authenticate : MultiTenantVerifier → Request → Result Response Token
unfolding parse_token parse_tenant refusal verify
authenticate v r = elim (parse_token r) [
  | err e ↦ err e
  | ok s ↦ elim (verify s (parse_tenant r) v) [ err e ↦ err (refusal e) | ok t ↦ ok t ]
]

-- strings.Split(s, ".")[0]
unfoldable pub bottom_level : String → String
unfolding cut_at
bottom_level s = elim (cut_at b'.' s) [ none ↦ s | some (name, rest) ↦ name ]

-- The host without the port, if it has one.
unfoldable pub host_of : (String → Option (String × String)) → String → String
host_of split_host_port h = elim (split_host_port h) [ none ↦ h | some (name, port) ↦ name ]

module _ (split_host_port : String → Option (String × String)) (is_ip : String → Bool) where
  -- `EndpointIDFromRequest`
  unfoldable pub endpoint_id_from_request : Request → String
  unfolding get host_of contains_code bottom_level
  endpoint_id_from_request r =
      let id = get "x-piko-endpoint" r in
      let host = host_of split_host_port r.host in
      ite (same id "")
        (ite (same host "") ""
          (if is_ip host then "" else if contains_code b'.' host then bottom_level host else ""))
        id
