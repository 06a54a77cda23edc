-- ===== src/Auth/Config.antt =====
-- pkg/auth/config.go: the configuration of the verification of tokens, and its loading. The parsers
-- of keys and the loading of a key set are parameters.
pub mod Keys
use piko.Prelude.{
  ℕ, String, ◌≡◌, Bool, true, false, not, ◌||◌, Option, none, some, List, [], ◌∷◌, same, ite,
  if◌then◌else◌, Result, ok, err, ◌>>=◌,
}
use piko.Auth.Claims.Jwt.{LoadedConfig}

-- `Config`; of the key set only its endpoint is looked at here.
pub record Config : Type 0 where
  pub hmac_secret_key : String
  pub rsa_public_key : String
  pub ecdsa_public_key : String
  pub audience : String
  pub issuer : String
  pub disable_disconnect_on_expiry : Bool
  pub endpoints_claim : List String
  pub require_endpoints : Bool
  pub jwks_endpoint : String

-- s != ""
unfoldable pub is_given : String → Bool
is_given s = elim (same s "") [ yes p ↦ false | no n ↦ true ]

-- `Enabled`
unfoldable pub enabled : Config → Bool
unfolding is_given
enabled c =
    is_given c.hmac_secret_key
    || (is_given c.rsa_public_key || (is_given c.ecdsa_public_key || is_given c.jwks_endpoint))

pub data LoadError : Type 0 where
  parse_rsa parse_ecdsa load_jwks other_key_with_jwks : LoadError

-- A key that is parsed if it is given.
unfoldable pub parse_given :
    {P : Type 0} → (String → Option P) → LoadError → String → Result LoadError (Option P)
unfolding is_given
parse_given parse e s =
    if is_given s then (elim (parse s) [ none ↦ err e | some p ↦ ok (some p) ]) else ok none

-- The libraries that `Load` calls: the bytes of a text, the parsers, and the key set of an endpoint.
pub record Loader (Jwt P : Type 0) : Type 0 where
  pub bytes_of : String → List ℕ
  pub parse_rsa_key : String → Option P
  pub parse_ecdsa_key : String → Option P
  pub load_key_set : Config → Option (Jwt → Result String P)

-- The key set, where its endpoint is given; it may not be set together with another key.
unfoldable pub load_jwks_given :
    {Jwt P : Type 0} → Loader Jwt P → Config → Result LoadError (Option (Jwt → Result String P))
unfolding is_given
load_jwks_given l c =
    if is_given c.jwks_endpoint
    then (elim (l.load_key_set c) [
      | none ↦ err load_jwks
      | some f ↦
          if is_given c.hmac_secret_key
            || (is_given c.rsa_public_key || is_given c.ecdsa_public_key)
          then err other_key_with_jwks
          else ok (some f)
    ])
    else ok none

-- `Load`
unfoldable pub load :
    {Jwt P : Type 0} → Loader Jwt P → Config → Result LoadError (LoadedConfig Jwt P)
unfolding parse_given load_jwks_given
load l c = parse_given l.parse_rsa_key parse_rsa c.rsa_public_key >>= λ rsa.
    parse_given l.parse_ecdsa_key parse_ecdsa c.ecdsa_public_key >>= λ ecdsa.
    load_jwks_given l c >>= λ set. ok (record {
      hmac_secret_key = l.bytes_of c.hmac_secret_key;
      rsa_public_key = rsa;
      ecdsa_public_key = ecdsa;
      jwks = set;
      audience = c.audience;
      issuer = c.issuer;
      disable_disconnect_on_expiry = c.disable_disconnect_on_expiry;
      require_endpoints = c.require_endpoints;
      endpoints_claim = c.endpoints_claim;
    })
