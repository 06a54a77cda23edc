-- ===== src/Lifecycle/Verifiers/Keys.antt =====
-- server/server.go: whose keys verify the token of an upstream.
use piko.Prelude.{
  String, ◌≡◌, ◌≢◌, ◌⊎◌, refl, ap, ◌∙◌, inl, inr, same, Bool-cases, Option, none, some, List, [],
  ◌∷◌, Map, insert, lookup, lookup-insert, Result, ok, >>=-eq-ok, ◌||◌, arith,
}
use piko.Auth.Tenants.{
  Token, Verifier, MultiTenantVerifier, verify, Granted, by_default, by_tenant, verify-Granted,
}
use piko.Auth.Config.{Config, Loader, enabled, load}
use piko.Auth.Claims.Jwt.{Library, LoadedConfig, new_jwt_verifier, verify_jwt}
use piko.Config.{TenantConfig}
use piko.Lifecycle.Verifiers.{
  verifier_of, tenant_verifiers, has_tenants, both_verifiers, upstream_verifier,
}

abbrev pub IsTenant : TenantConfig → List TenantConfig → Type 0
IsTenant c [] = ⊥
IsTenant c (t ∷ ts) = (t ≡ c) ⊎ IsTenant c ts

ok-inj : {E A : Type 0} {a b : A} → ◌≡◌ {A = Result E A} (ok a) (ok b) → a ≡ b
ok-inj h = cc

default-eq :
    {w : Verifier} {m : Map Verifier} {v : MultiTenantVerifier}
    → some (record { default_verifier = w; tenant_verifiers = m }) ≡ some v
    → w ≡ v.default_verifier
default-eq h = cc

tenants-eq :
    {w : Verifier} {m : Map Verifier} {v : MultiTenantVerifier}
    → some (record { default_verifier = w; tenant_verifiers = m }) ≡ some v
    → m ≡ v.tenant_verifiers
tenants-eq h = cc

none-made : {E A : Type 0} {a : A} → ◌≡◌ {A = Result E (Option A)} (ok none) (ok (some a)) → ⊥
none-made h = cc

module _ {Jwt P : Type 0} (lib : Library Jwt P) (loader : Loader Jwt P) where
  -- A verifier has the keys of a configuration.
  abbrev pub HasKeys : Config → Verifier → Type 0
  HasKeys c w =
      (loaded : LoadedConfig Jwt P) × (load loader c ≡ ok loaded)
      × (verify_jwt lib (new_jwt_verifier loaded) ≡ w)

  verifier_of-HasKeys : (c : Config) (w : Verifier) → verifier_of lib loader c ≡ ok w → HasKeys c w
  unfolding verifier_of
  verifier_of-HasKeys c w h =
      let (loaded, e, f) = >>=-eq-ok (load loader c) _ h in (loaded, e, ok-inj f)

  tenant_verifiers-IsTenant :
      (ts : List TenantConfig) (m n : Map Verifier) (id : String) (w : Verifier)
      → tenant_verifiers lib loader ts m ≡ ok n
      → lookup id n ≡ some w
      → (lookup id m ≡ some w)
        ⊎ ((c : TenantConfig) × IsTenant c ts × (c.id ≡ id) × HasKeys c.auth w)
  unfolding tenant_verifiers
  tenant_verifiers-IsTenant [] m n id w h g =
      let same_map : m ≡ n = ok-inj h in inl (ap (lookup id) same_map ∙ g)
  tenant_verifiers-IsTenant (t ∷ ts) m n id w h g =
      let (v, p, q) = >>=-eq-ok (verifier_of lib loader t.auth) _ h in
      elim (tenant_verifiers-IsTenant ts (insert t.id v m) n id w q g) [
        | inr (c, i, e, k) ↦ inr (c, inr i, e, k)
        | inl f ↦ elim (same t.id id) [
          | yes e ↦
              let one : some v ≡ some w = ground (arith, lookup-insert t.id id v m) in
              let same_verifier : v ≡ w = cc in
              inr (t, inl refl, e, verifier_of-HasKeys t.auth w (p ∙ ap ok same_verifier))
          | no d ↦ inl (ground (arith, lookup-insert t.id id v m))
        ]
      ]

  both-parts :
      (c : Config) (ts : List TenantConfig) (v : MultiTenantVerifier)
      → both_verifiers lib loader c ts ≡ ok (some v)
      → (verifier_of lib loader c ≡ ok v.default_verifier)
        × (tenant_verifiers lib loader ts [] ≡ ok v.tenant_verifiers)
  unfolding both_verifiers
  both-parts c ts v h =
      let (w, p, q) = >>=-eq-ok (verifier_of lib loader c) _ h in
      let (m, r, s) = >>=-eq-ok (tenant_verifiers lib loader ts []) _ q in
      let made : some (record { default_verifier = w; tenant_verifiers = m }) ≡ some v = ok-inj s in
      (p ∙ ap ok (default-eq made), r ∙ ap ok (tenants-eq made))

  upstream-parts :
      (c : Config) (ts : List TenantConfig) (v : MultiTenantVerifier)
      → upstream_verifier lib loader c ts ≡ ok (some v)
      → both_verifiers lib loader c ts ≡ ok (some v)
  unfolding upstream_verifier
  upstream-parts c ts v h = elim (Bool-cases (enabled c || has_tenants ts)) [
    | inr off ↦ absurd (ground (arith, off))
    | inl on ↦ ground (arith, on)
  ]

  -- Whose keys verified a token: those of the upstream server's own configuration, just where no tenant
  -- is named, or else those of a tenant of the name, which the token carries.
  pub data OwnKeys (c : Config) (ts : List TenantConfig) (token id : String) (t : Token)
      : Type 0 where
    by_server : (w : Verifier) → id ≡ "" → HasKeys c w → w token ≡ ok t → OwnKeys c ts token id t
    by_own :
        (d : TenantConfig) (w : Verifier) (u : Token)
        → id ≢ ""
        → IsTenant d ts
        → d.id ≡ id
        → HasKeys d.auth w
        → w token ≡ ok u
        → t ≡ record u { tenant_id = id }
        → OwnKeys c ts token id t

  Granted-OwnKeys :
      (c : Config) (ts : List TenantConfig) (v : MultiTenantVerifier) (token id : String)
      (t : Token)
      → verifier_of lib loader c ≡ ok v.default_verifier
      → tenant_verifiers lib loader ts [] ≡ ok v.tenant_verifiers
      → Granted v token id t
      → OwnKeys c ts token id t
  unfolding lookup
  Granted-OwnKeys c ts v token id t p q (by_default e f g) =
      by_server v.default_verifier e (verifier_of-HasKeys c v.default_verifier p) g
  Granted-OwnKeys c ts v token id t p q (by_tenant w u n e g h) =
      elim (tenant_verifiers-IsTenant ts [] v.tenant_verifiers id w q e) [
        | inl f ↦ absurd (ground arith)
        | inr (d, i, f, k) ↦ by_own d w u n i f k g h
      ]

  -- A token that the upstream server's verifier accepts for a tenant that is named has been verified with the keys
  -- of a tenant of that name in the configuration, and carries the name; one that names no tenant has
  -- been verified with the keys of the server's own configuration.
  pub upstream_verifier-OwnKeys :
      (c : Config) (ts : List TenantConfig) (v : MultiTenantVerifier) (token id : String)
      (t : Token)
      → upstream_verifier lib loader c ts ≡ ok (some v)
      → verify token id v ≡ ok t
      → OwnKeys c ts token id t
  upstream_verifier-OwnKeys c ts v token id t h g =
      let (p, q) = both-parts c ts v (upstream-parts c ts v h) in
      Granted-OwnKeys c ts v token id t p q (verify-Granted v token id t g)
