-- ===== src/Lifecycle/Examples.antt =====
-- A node that starts in a cluster of three, and stops; and one with two tenants.
use piko.Prelude.{ℕ, refl, true, false, none, some, ok, List, [], ◌∷◌, lookup, insert, same}
use piko.Auth.Tenants.{Token, Verifier, MultiTenantVerifier, verify, with_tenant}
use piko.Auth.Config.{Config, Loader, enabled, load, is_given}
use piko.Auth.Claims.{no_claims}
use piko.Auth.Claims.Jwt.{Library, verify_jwt, new_jwt_verifier, token_of}
use piko.Config.{TenantConfig}
use piko.Lifecycle.Verifiers.{
  verifier_of, tenant_verifiers, both_verifiers, has_tenants, upstream_verifier,
}
use piko.Lifecycle.Verifiers.Keys.{OwnKeys, upstream_verifier-OwnKeys}
use piko.Sync.Startup.{joining}
use piko.Lifecycle.{Setting, Closing, Server, upstream}

abbrev third_node : Setting
third_node = record {
  stream_error = none;
  packet_error = none;
  on_boot = "a" ∷ "b" ∷ [];
  on_startup = joining;
  abort_if_join_fails = true;
  rebalances = true;
}

-- The proxy cannot be drained in time.
abbrev late_closing : Closing
late_closing = record {
  upstream_stops = true;
  proxy_stops = false;
  leaves = true;
  admin_stops = true;
}

-- The upstream server ends once the node is ready.
abbrev ends : List (List Server)
ends = [] ∷ [] ∷ [] ∷ [] ∷ [] ∷ [] ∷ [] ∷ (upstream ∷ []) ∷ []

-- A library that parses every text, and takes no keys but secrets.
abbrev library : Library ℕ ℕ
library = record {
  algorithm = λ t. "HS256";
  parse = λ methods audience issuer key_of s. ok (true, no_claims);
  expiration_time = λ c. some 100;
}

abbrev loader : Loader ℕ ℕ
loader = record {
  bytes_of = λ s. 1 ∷ [];
  parse_rsa_key = λ s. none;
  parse_ecdsa_key = λ s. none;
  load_key_set = λ c. none;
}

abbrev keys : Config
keys = record {
  hmac_secret_key = "secret";
  rsa_public_key = "";
  ecdsa_public_key = "";
  audience = "";
  issuer = "";
  disable_disconnect_on_expiry = false;
  endpoints_claim = [];
  require_endpoints = false;
  jwks_endpoint = "";
}

abbrev two_tenants : List TenantConfig
two_tenants = record { id = "one"; auth = keys } ∷ record { id = "two"; auth = keys } ∷ []

abbrev secret : Verifier
secret = verify_jwt library (
    new_jwt_verifier (record {
      hmac_secret_key = 1 ∷ [];
      rsa_public_key = none;
      ecdsa_public_key = none;
      jwks = none;
      audience = "";
      issuer = "";
      disable_disconnect_on_expiry = false;
      require_endpoints = false;
      endpoints_claim = [];
    }))

abbrev of_tenants : MultiTenantVerifier
of_tenants = record {
  default_verifier = secret;
  tenant_verifiers = ("one", secret) ∷ ("two", secret) ∷ [];
}

abbrev of_two : Token
of_two = record { expiry = 100; endpoints = []; tenant_id = "two" }

upstream_verifier-OwnKeys_example : OwnKeys library loader keys two_tenants "abc" "two" of_two
unfolding upstream_verifier both_verifiers verifier_of tenant_verifiers has_tenants enabled load
    is_given same insert lookup verify with_tenant verify_jwt new_jwt_verifier token_of
upstream_verifier-OwnKeys_example =
    upstream_verifier-OwnKeys library loader keys two_tenants of_tenants "abc" "two" of_two refl
      refl
