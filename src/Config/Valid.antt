-- ===== src/Config/Valid.antt =====
-- server/config: what the validation of a configuration is worth.
use piko.Prelude.{
  ◌≤◌, String, ◌≡◌, refl, ◌≢◌, ◌⊎◌, Bool, true, false, not, ltb, inl, inr, same, Option, none, some,
  List, [], ◌∷◌, arith,
}
use piko.Prelude.Int.{ℤ, pos, is_zero}
use piko.Auth.Config
use piko.Auth.Config.{is_given}
use piko.Config.{
  fails_if, ◌or_else◌, within, TlsConfig, tls_enabled, validate_tls, TenantConfig, validate_tenant,
  validate_tenants, Fractions, validate_rebalance, validate_gossip, validate_cluster,
  validate_upstream, validate_proxy, validate_admin, validate_stream, validate_log, ServerConfig,
  validate, min_stream_window_size,
}

pub or_else-none : (a b : Option String) → (a or_else b) ≡ none → (a ≡ none) × (b ≡ none)
unfolding ◌or_else◌
or_else-none none b h = (refl, h)
or_else-none (some e) b h = cc

pub within-none : (name : String) (o : Option String) → within name o ≡ none → o ≡ none
unfolding within
within-none name none h = refl
within-none name (some e) h = cc

pub fails_if-none : (b : Bool) (e : String) → fails_if b e ≡ none → b ≡ false
unfolding fails_if
fails_if-none true e h = cc
fails_if-none false e h = refl

pub given : (s : String) → not (is_given s) ≡ false → s ≢ ""
unfolding is_given
given s h e = ground arith

pub nonzero : (z : ℤ) → is_zero z ≡ false → z ≢ pos 0
unfolding is_zero
nonzero z h e = ground arith

-- A certificate and its key are given together or not at all.
unfoldable pub IsPaired : TlsConfig → Type 0
IsPaired c = ((c.cert ≢ "") × (c.key ≢ "")) ⊎ ((c.cert ≡ "") × (c.key ≡ ""))

validate_tls-IsPaired : (c : TlsConfig) → validate_tls c ≡ none → IsPaired c
unfolding validate_tls tls_enabled fails_if ◌or_else◌ is_given IsPaired
validate_tls-IsPaired c h = elim (same c.cert "") [
  | no y ↦ elim (same c.key "") [ no z ↦ inl (y, z) | yes z ↦ absurd (ground arith) ]
  | yes y ↦ elim (same c.key "") [ no z ↦ absurd (ground arith) | yes z ↦ inr (y, z) ]
]

-- A configuration of tokens has a key, or the endpoint of a key set.
pub data HasKey (c : Config.Config) : Type 0 where
  hmac : c.hmac_secret_key ≢ "" → HasKey c
  rsa : c.rsa_public_key ≢ "" → HasKey c
  ecdsa : c.ecdsa_public_key ≢ "" → HasKey c
  jwks : c.jwks_endpoint ≢ "" → HasKey c

enabled-HasKey : (c : Config.Config) → Config.enabled c ≡ true → HasKey c
unfolding Config.enabled is_given
enabled-HasKey c h = elim (same c.hmac_secret_key "") [
  | no n ↦ hmac n
  | yes p ↦ elim (same c.rsa_public_key "") [
    | no n ↦ rsa n
    | yes q ↦ elim (same c.ecdsa_public_key "") [
      | no n ↦ ecdsa n
      | yes r ↦ jwks (λ z. ground arith)
    ]
  ]
]

-- Every tenant has a name and a key, or a key set, to verify its tokens by.
unfoldable pub AllVerified : List TenantConfig → Type 0
AllVerified [] = Unit {0}
AllVerified (t ∷ ts) = (t.id ≢ "") × HasKey t.auth × AllVerified ts

validate_tenants-AllVerified :
    (ts : List TenantConfig) → validate_tenants ts ≡ none → AllVerified ts
unfolding validate_tenants validate_tenant AllVerified
validate_tenants-AllVerified [] h = tt
validate_tenants-AllVerified (t ∷ ts) h =
    let (first, rest) =
      or_else-none (within "tenant" (validate_tenant t)) (validate_tenants ts) h in
    let (named, verified) = or_else-none _ _ (within-none "tenant" (validate_tenant t) first) in
    (
      given t.id (fails_if-none _ _ named),
      (let off = fails_if-none (not (Config.enabled t.auth)) _ verified in
          enabled-HasKey t.auth (ground arith)),
      validate_tenants-AllVerified ts rest,
    )

pub within-then :
    (name : String) (a : Option String) {b : Option String}
    → (within name a or_else b) ≡ none
    → (a ≡ none) × (b ≡ none)
unfolding within ◌or_else◌
within-then name none h = (refl, h)
within-then name (some e) h = cc

pub fails_if-then :
    (b : Bool) (e : String) {o : Option String}
    → (fails_if b e or_else o) ≡ none
    → (b ≡ false) × (o ≡ none)
unfolding fails_if ◌or_else◌
fails_if-then true e h = cc
fails_if-then false e h = (refl, h)

-- What holds of a configuration that is valid.
pub record IsValid {F : Type 0} (fr : Fractions F) (c : ServerConfig F) : Type 0 where
  pub node_id : c.cluster.node_id ≢ ""
  pub join_timeout : c.cluster.join_timeout ≢ pos 0
  pub gossip_addr : c.cluster.gossip.bind_addr ≢ ""
  pub gossip_interval : c.cluster.gossip.interval ≢ pos 0
  pub packet_size : c.cluster.gossip.max_packet_size ≢ pos 0
  pub proxy_addr : c.proxy.bind_addr ≢ ""
  pub upstream_addr : c.upstream.bind_addr ≢ ""
  pub admin_addr : c.admin.bind_addr ≢ ""
  pub proxy_tls : IsPaired c.proxy.tls
  pub upstream_tls : IsPaired c.upstream.tls
  pub admin_tls : IsPaired c.admin.tls
  pub threshold : fr.is_negative c.upstream.rebalance.threshold ≡ false
  pub shed_rate_low : fr.is_negative c.upstream.rebalance.shed_rate ≡ false
  pub shed_rate_high : fr.exceeds_one c.upstream.rebalance.shed_rate ≡ false
  pub tenants : AllVerified c.upstream.tenants
  pub window : 262144 ≤ c.max_window_size
  pub grace_period : c.grace_period ≢ pos 0

-- A configuration without an error has a node id and addresses to bind to; the join timeout, the gossip
-- interval, the grace period and the packet size are not 0, though they may be negative; on each of
-- the three servers a certificate and its key are given together or not at all; the threshold of the
-- rebalancing and its shed rate are not found to be below 0, nor the shed rate to be above 1, by
-- tests that find no such thing of a NaN; the window has 256 KiB at least; and every tenant has a
-- name and an HMAC, RSA or ECDSA key or the endpoint of a key set.
pub validate-IsValid :
    {F : Type 0} (fr : Fractions F) (c : ServerConfig F) → validate fr c ≡ none → IsValid fr c
unfolding validate validate_cluster validate_gossip validate_proxy validate_upstream validate_admin
    validate_rebalance validate_stream
validate-IsValid fr c h =
    let (cluster, h1) = within-then "cluster" (validate_cluster c.cluster) h in
    let (proxy, h2) = within-then "proxy" (validate_proxy c.proxy) h1 in
    let (upstream, h3) = within-then "upstream" (validate_upstream fr c.upstream) h2 in
    let (stream, h4) = within-then "stream" (validate_stream c.max_window_size) h3 in
    let (admin, h5) = within-then "admin" (validate_admin c.admin) h4 in
    let (log, grace) = within-then "log" (validate_log c.log) h5 in
    let (node, c1) = fails_if-then (not (is_given c.cluster.node_id)) _ cluster in
    let (timeout, c2) = fails_if-then (is_zero c.cluster.join_timeout) _ c1 in
    let gossip = within-none "gossip" (validate_gossip c.cluster.gossip) c2 in
    let (addr, g1) = fails_if-then (not (is_given c.cluster.gossip.bind_addr)) _ gossip in
    let (interval, g2) = fails_if-then (is_zero c.cluster.gossip.interval) _ g1 in
    let (p_addr, p1) = fails_if-then (not (is_given c.proxy.bind_addr)) _ proxy in
    let (p_tls, p_log) = within-then "tls" (validate_tls c.proxy.tls) p1 in
    let (u_addr, u1) = fails_if-then (not (is_given c.upstream.bind_addr)) _ upstream in
    let (rebalance, u2) = within-then "rebalance" (validate_rebalance fr c.upstream.rebalance) u1 in
    let (u_tls, tenants) = within-then "tls" (validate_tls c.upstream.tls) u2 in
    let (low, r1) = fails_if-then (fr.is_negative c.upstream.rebalance.threshold) _ rebalance in
    let (rate_low, r2) = fails_if-then (fr.is_negative c.upstream.rebalance.shed_rate) _ r1 in
    let (a_addr, a1) = fails_if-then (not (is_given c.admin.bind_addr)) _ admin in
    let no_grace = fails_if-none (is_zero c.grace_period) _ grace in
    let no_size = fails_if-none (is_zero c.cluster.gossip.max_packet_size) _ g2 in
    let no_less = fails_if-none (ltb c.max_window_size min_stream_window_size) _ stream in
    record {
      node_id = given c.cluster.node_id node;
      join_timeout = nonzero c.cluster.join_timeout timeout;
      gossip_addr = given c.cluster.gossip.bind_addr addr;
      gossip_interval = nonzero c.cluster.gossip.interval interval;
      packet_size = nonzero c.cluster.gossip.max_packet_size no_size;
      proxy_addr = given c.proxy.bind_addr p_addr;
      upstream_addr = given c.upstream.bind_addr u_addr;
      admin_addr = given c.admin.bind_addr a_addr;
      proxy_tls = validate_tls-IsPaired c.proxy.tls p_tls;
      upstream_tls = validate_tls-IsPaired c.upstream.tls u_tls;
      admin_tls =
          validate_tls-IsPaired c.admin.tls (within-none "tls" (validate_tls c.admin.tls) a1);
      threshold = low;
      shed_rate_low = rate_low;
      shed_rate_high = fails_if-none (fr.exceeds_one c.upstream.rebalance.shed_rate) _ r2;
      tenants = validate_tenants-AllVerified c.upstream.tenants tenants;
      window = ground arith;
      grace_period = nonzero c.grace_period no_grace;
    }
