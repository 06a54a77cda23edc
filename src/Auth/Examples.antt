-- ===== src/Auth/Examples.antt =====
-- A verifier of tokens with claims.
use Prim.Native.Char.{code}
use piko.Auth.Config.{Config, Loader, load, is_given, enabled}
use piko.Auth.Config.Keys.{given_methods, load-given_methods}
use piko.Prelude.{
  if◌then◌else◌, ◌≢◌, ◌⊎◌, List, ℕ, ◌≡◌, true, false, none, some, ok, String, refl, [], ◌∷◌, same,
}
use piko.Auth.Claims.{Claims, text, array, object, claim, no_claims, item, no_items}
use piko.Auth.Claims.Jwt.{
  LoadedConfig, Library, JwtVerifier, new_jwt_verifier, if_given, key_for, verify_jwt,
}
use piko.Auth.Claims.Jwt.Scope.{IsScoped, verify_jwt-IsScoped}
use piko.Auth.Tenants.{Token}

-- A token with the endpoint "web" by its host name, and by itself.
abbrev claims_of_web : Claims
claims_of_web =
    claim "piko"
      (object (
        claim "endpoints" (array (item (text "web.example.com") (item (text "web") no_items)))
          no_claims))
      no_claims

-- A library that parses every text as such a token, and keys as numbers.
abbrev library : Library ℕ ℕ
library = record {
  algorithm = λ t. "HS256";
  parse = λ methods audience issuer key_of s. ok (true, claims_of_web);
  expiration_time = λ c. some 100;
}

unfoldable verifier : JwtVerifier ℕ ℕ
unfolding new_jwt_verifier
verifier = new_jwt_verifier (record {
  hmac_secret_key = 1 ∷ 2 ∷ [];
  rsa_public_key = none;
  ecdsa_public_key = none;
  jwks = none;
  audience = "";
  issuer = "";
  disable_disconnect_on_expiry = false;
  require_endpoints = true;
  endpoints_claim = [];
})

abbrev web_token : Token
web_token = record { expiry = 100; endpoints = "web" ∷ []; tenant_id = "" }

verify_jwt-IsScoped_example :
    (fields : Claims) × (library.parse verifier.methods
        (if_given verifier.audience)
        (if_given verifier.issuer)
        (key_for library verifier)
        "abc"
      ≡ ok (true, fields))
    × IsScoped verifier fields web_token
unfolding verify_jwt verifier same
verify_jwt-IsScoped_example = verify_jwt-IsScoped library verifier "abc" web_token refl

-- A configuration with an HMAC key alone.
abbrev hmac_config : Config
hmac_config = record {
  hmac_secret_key = "secret";
  rsa_public_key = "";
  ecdsa_public_key = "";
  audience = "";
  issuer = "";
  disable_disconnect_on_expiry = false;
  endpoints_claim = [];
  require_endpoints = false;
  jwks_endpoint = "";
}

codes : String → List ℕ
codes String.[] = []
codes (String.◌∷◌ c s) = code c ∷ codes s

codes-some : (s : String) → s ≢ "" → codes s ≢ []
unfolding codes
codes-some String.[] n = absurd (n refl)
codes-some (String.◌∷◌ c s) n = λ e. cc

abbrev loader : Loader ℕ ℕ
loader = record {
  bytes_of = codes;
  parse_rsa_key = λ s. none;
  parse_ecdsa_key = λ s. none;
  load_key_set = λ c. none;
}

abbrev hmac_loaded : LoadedConfig ℕ ℕ
hmac_loaded = record {
  hmac_secret_key = codes "secret";
  rsa_public_key = none;
  ecdsa_public_key = none;
  jwks = none;
  audience = "";
  issuer = "";
  disable_disconnect_on_expiry = false;
  require_endpoints = false;
  endpoints_claim = [];
}

load-given_methods_example :
    ((new_jwt_verifier hmac_loaded).methods ≡ given_methods hmac_config)
    × ((new_jwt_verifier hmac_loaded).key_func
        ≡ (if is_given "" then loader.load_key_set hmac_config else none))
    × (is_given "" ≡ true → (new_jwt_verifier hmac_loaded).methods ≡ [])
    × (enabled hmac_config ≡ true
        → ((new_jwt_verifier hmac_loaded).methods ≢ [])
          ⊎ ((new_jwt_verifier hmac_loaded).key_func ≢ none))
unfolding load same is_given codes
load-given_methods_example = load-given_methods loader hmac_config hmac_loaded refl codes-some refl
