-- ===== src/Auth/Claims/Jwt.antt =====
-- pkg/auth/jwtverifier.go: `JWTVerifier`. The JWT library, its tokens and the public keys are
-- parameters.
pub mod Scope
use Prim.Native.String
use piko.Prelude.{
  ℕ, String, Bool, true, false, Option, none, some, List, [], ◌∷◌, ◌++◌, ◌&&◌, same, ite,
  if◌then◌else◌, Result, ok, err,
}
use piko.Auth.Tenants.{
  Token, Error, Verifier, contains, invalid_token, expired_token, missing_endpoints,
}
use piko.Auth.Claims.{Claims, extract_endpoints}

-- What a token may be verified by: the keys of the configuration, which may be absent, or one of
-- JWKS.
pub data Key (P : Type 0) : Type 0 where
  hmac_key : List ℕ → Key P
  rsa_key ecdsa_key : Option P → Key P
  jwk : P → Key P

pub data ParseFailure : Type 0 where
  token_expired parse_failed : ParseFailure

-- The JWT library: the algorithm of a token, the parser, given the valid methods (any, where there are
-- none), the audience and
-- the issuer to check, if any, and the function from a token to its key, and the claim `exp`. A
-- parsed token is returned as whether it is valid, and its claims.
pub record Library (Jwt P : Type 0) : Type 0 where
  pub algorithm : Jwt → String
  pub parse :
      List String
      → Option String
      → Option String
      → (Jwt → Result String (Key P))
      → String
      → Result ParseFailure (Bool × Claims)
  pub expiration_time : Claims → Option ℕ

-- `LoadedConfig`, less the tenants
pub record LoadedConfig (Jwt P : Type 0) : Type 0 where
  pub hmac_secret_key : List ℕ
  pub rsa_public_key : Option P
  pub ecdsa_public_key : Option P
  pub jwks : Option (Jwt → Result String P)
  pub audience : String
  pub issuer : String
  pub disable_disconnect_on_expiry : Bool
  pub require_endpoints : Bool
  pub endpoints_claim : List String

-- `JWTVerifier`
pub record JwtVerifier (Jwt P : Type 0) : Type 0 where
  pub hmac_secret_key : List ℕ
  pub rsa_public_key : Option P
  pub ecdsa_public_key : Option P
  pub key_func : Option (Jwt → Result String P)
  pub audience : String
  pub issuer : String
  pub disable_disconnect_on_expiry : Bool
  pub require_endpoints : Bool
  pub endpoints_claim : List String
  pub methods : List String

-- `DefaultEndpointsClaim`
abbrev pub default_endpoints_claim : List String
default_endpoints_claim = "piko.endpoints" ∷ []

abbrev pub hmac_methods : List String
hmac_methods = "HS256" ∷ "HS384" ∷ "HS512" ∷ []

abbrev pub rsa_methods : List String
rsa_methods = "RS256" ∷ "RS384" ∷ "RS512" ∷ []

abbrev pub ecdsa_methods : List String
ecdsa_methods = "ES256" ∷ "ES384" ∷ "ES512" ∷ []

unfoldable pub if_some : {P : Type 0} → Option P → List String → List String
if_some none l = []
if_some (some p) l = l

-- `NewJWTVerifier`. Where it has no key but those of a key set, or none at all, the list of methods is
-- empty, Go's nil slice: the library, given that, checks no algorithm.
unfoldable pub new_jwt_verifier : {Jwt P : Type 0} → LoadedConfig Jwt P → JwtVerifier Jwt P
unfolding if_some
new_jwt_verifier conf = record {
  hmac_secret_key = conf.hmac_secret_key;
  rsa_public_key = conf.rsa_public_key;
  ecdsa_public_key = conf.ecdsa_public_key;
  key_func = conf.jwks;
  audience = conf.audience;
  issuer = conf.issuer;
  disable_disconnect_on_expiry = conf.disable_disconnect_on_expiry;
  require_endpoints = conf.require_endpoints;
  endpoints_claim = elim conf.endpoints_claim [ [] ↦ default_endpoints_claim | c ∷ cs ↦ c ∷ cs ];
  methods =
      (elim conf.hmac_secret_key [ [] ↦ [] | b ∷ bs ↦ hmac_methods ])
      ++ if_some conf.rsa_public_key rsa_methods
      ++ if_some conf.ecdsa_public_key ecdsa_methods;
}

-- The function that `Verify` gives the parser.
unfoldable pub key_for :
    {Jwt P : Type 0} → Library Jwt P → JwtVerifier Jwt P → Jwt → Result String (Key P)
unfolding contains
key_for lib v t = elim v.key_func [
  | some f ↦ elim (f t) [ err e ↦ err e | ok k ↦ ok (jwk k) ]
  | none ↦
      if contains (lib.algorithm t) hmac_methods
      then ok (hmac_key v.hmac_secret_key)
      else if contains (lib.algorithm t) rsa_methods
      then ok (rsa_key v.rsa_public_key)
      else if contains (lib.algorithm t) ecdsa_methods
      then ok (ecdsa_key v.ecdsa_public_key)
      else err (String.◌++◌ "unsupported algorithm: " (lib.algorithm t))
]

unfoldable pub if_given : String → Option String
if_given s = ite (same s "") none (some s)

-- The endpoints, each added that is not yet there.
unfoldable pub add_new : List String → List String → List String
unfolding contains
add_new have [] = have
add_new have (e ∷ es) = add_new (if contains e have then have else have ++ e ∷ []) es

unfoldable pub combine : Claims → List String → List String → List String
unfolding add_new extract_endpoints
combine fields have [] = have
combine fields have (path ∷ paths) =
    combine fields (add_new have (extract_endpoints fields path)) paths

unfoldable pub is_empty : List String → Bool
is_empty [] = true
is_empty (e ∷ es) = false

-- `Verify` of the claims of a valid token; no expiry is the time zero.
unfoldable pub token_of :
    {Jwt P : Type 0} → Library Jwt P → JwtVerifier Jwt P → Claims → Result Error Token
unfolding combine is_empty
token_of lib v fields =
    let endpoints = combine fields [] v.endpoints_claim in
    if v.require_endpoints && is_empty endpoints
    then err missing_endpoints
    else ok (record {
      expiry =
          if v.disable_disconnect_on_expiry
          then 0
          else elim (lib.expiration_time fields) [ none ↦ 0 | some t ↦ t ];
      endpoints = endpoints;
      tenant_id = "";
    })

-- `Verify`
unfoldable pub verify_jwt : {Jwt P : Type 0} → Library Jwt P → JwtVerifier Jwt P → Verifier
unfolding key_for if_given token_of
verify_jwt lib v token_string =
    elim (lib.parse v.methods (if_given v.audience) (if_given v.issuer) (key_for lib v)
      token_string) [
        | err token_expired ↦ err expired_token
        | err parse_failed ↦ err invalid_token
        | ok (valid, fields) ↦ if valid then token_of lib v fields else err invalid_token
      ]
