-- ===== src/Lifecycle/Verifiers.antt =====
-- server/server.go: the verifiers of tokens that `NewServer` makes of the configuration of its three
-- servers.
pub mod Keys
use piko.Prelude.{
  String, Bool, ◌||◌, Option, none, some, List, [], ◌∷◌, Map, insert, if◌then◌else◌, true, false,
  Result, ok, err, ◌>>=◌,
}
use piko.Auth.Tenants.{Verifier, MultiTenantVerifier}
use piko.Auth.Config
use piko.Auth.Config.{Config, LoadError, Loader, enabled, load}
use piko.Auth.Claims.Jwt.{Library, new_jwt_verifier, verify_jwt}
use piko.Config.{TenantConfig}

unfoldable pub has_tenants : List TenantConfig → Bool
has_tenants [] = false
has_tenants (t ∷ ts) = true

module _ {Jwt P : Type 0} (lib : Library Jwt P) (loader : Loader Jwt P) where
  -- A verifier with the keys of a configuration.
  unfoldable pub verifier_of : Config → Result LoadError Verifier
  unfolding load new_jwt_verifier verify_jwt
  verifier_of c = load loader c >>= λ loaded. ok (verify_jwt lib (new_jwt_verifier loaded))

  -- The verifier of the proxy and of the admin server, if there is one.
  unfoldable pub single_verifier : Config → Result LoadError (Option MultiTenantVerifier)
  unfolding verifier_of enabled
  single_verifier c =
      if enabled c
      then (verifier_of c >>= λ v.
          ok (some (record { default_verifier = v; tenant_verifiers = [] })))
      else ok none

  -- The loop over the tenants: of two with one name, the later one counts.
  unfoldable pub tenant_verifiers :
      List TenantConfig → Map Verifier → Result LoadError (Map Verifier)
  unfolding verifier_of insert
  tenant_verifiers [] m = ok m
  tenant_verifiers (t ∷ ts) m = verifier_of t.auth >>= λ v. tenant_verifiers ts (insert t.id v m)

  -- The verifier of the upstream server where it has one.
  unfoldable pub both_verifiers :
      Config → List TenantConfig → Result LoadError (Option MultiTenantVerifier)
  unfolding verifier_of tenant_verifiers
  both_verifiers c ts = verifier_of c >>= λ v. tenant_verifiers ts [] >>= λ m.
      ok (some (record { default_verifier = v; tenant_verifiers = m }))

  -- The verifier of the upstream server, if there is one.
  unfoldable pub upstream_verifier :
      Config → List TenantConfig → Result LoadError (Option MultiTenantVerifier)
  unfolding enabled has_tenants both_verifiers
  upstream_verifier c ts = if enabled c || has_tenants ts then both_verifiers c ts else ok none
