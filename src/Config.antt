-- ===== src/Config.antt =====
-- server/config/config.go and tls.go, with pkg/log/config.go and pkg/gossip/config.go: the
-- configuration of a server node, and its validation. The tests of float64 are parameters; a
-- duration is an int64, a number of nanoseconds, and an error its text. What only the flags or other parts of
-- the program read is left out of the records.
pub mod Valid
pub mod Agent
pub mod Forward
mod Examples
use mathlib.Core.Option
use Prim.Native.String
use piko.Prelude.{
  ℕ, ◌*◌, ltb, not, ◌&&◌, ◌||◌, Bool, true, false, Option, none, some, List, [], ◌∷◌, String, same,
  if◌then◌else◌,
}
use piko.Prelude.Int.{ℤ, is_zero}
use piko.Auth.Config
use piko.Auth.Config.{is_given}

-- An error if a condition holds.
unfoldable pub fails_if : Bool → String → Option String
fails_if b e = if b then some e else none

-- The first error of two checks.
infixr 4 ◌or_else◌
unfoldable pub ◌or_else◌ : Option String → Option String → Option String
some e or_else o = some e
none or_else o = o

-- fmt.Errorf("name: %w", err)
unfoldable pub within : String → Option String → Option String
within name o = Option.map (λ e. String.◌++◌ name (String.◌++◌ ": " e)) o

-- `log.Config`
pub record LogConfig : Type 0 where
  pub level : String
  pub subsystems : List String

unfoldable pub is_level : String → String → Bool
is_level s t = elim (same s t) [ yes p ↦ true | no n ↦ false ]

-- `ZapLevelFromString`: the error of an unknown level.
unfoldable pub level_error : String → Option String
unfolding fails_if is_level
level_error s =
    fails_if
      (not (is_level s "debug")
        && not (is_level s "info")
        && not (is_level s "warn")
        && not (is_level s "error"))
      (String.◌++◌ "unsupported level: " s)

-- `Validate` of `log.Config`
unfoldable pub validate_log : LogConfig → Option String
unfolding level_error fails_if ◌or_else◌
validate_log c = fails_if (not (is_given c.level)) "missing level" or_else level_error c.level

-- `AccessLogHeaderConfig`
pub record HeaderConfig : Type 0 where
  pub block_list : List String
  pub allow_list : List String

unfoldable pub has_any : List String → Bool
has_any [] = false
has_any (s ∷ ss) = true

unfoldable pub validate_headers : HeaderConfig → Option String
unfolding fails_if has_any
validate_headers c =
    fails_if (has_any c.allow_list && has_any c.block_list)
      "cannot define both allow list and block list"

pub record AccessLogConfig : Type 0 where
  pub level : String
  pub request_headers : HeaderConfig
  pub response_headers : HeaderConfig
  pub disable : Bool

unfoldable pub validate_access_log : AccessLogConfig → Option String
unfolding fails_if level_error validate_headers within ◌or_else◌
validate_access_log c =
    if c.disable
    then none
    else fails_if (not (is_given c.level)) "missing level"
      or_else level_error c.level
      or_else within "request headers" (validate_headers c.request_headers)
      or_else within "response headers" (validate_headers c.response_headers)

-- `gossip.Config`
pub record GossipConfig : Type 0 where
  pub bind_addr : String
  pub advertise_addr : String
  pub interval : ℤ
  pub max_packet_size : ℤ

unfoldable pub validate_gossip : GossipConfig → Option String
unfolding fails_if ◌or_else◌ is_zero
validate_gossip c =
    fails_if (not (is_given c.bind_addr)) "missing bind addr"
    or_else fails_if (is_zero c.interval) "missing interval"
    or_else fails_if (is_zero c.max_packet_size) "missing max packet size"

-- `TLSConfig`, of the server's side; that of the client is not validated.
pub record TlsConfig : Type 0 where
  pub cert : String
  pub key : String
  pub client_cas : String

unfoldable pub tls_enabled : TlsConfig → Bool
tls_enabled c = is_given c.cert || is_given c.key

unfoldable pub validate_tls : TlsConfig → Option String
unfolding fails_if tls_enabled ◌or_else◌
validate_tls c =
    if not (tls_enabled c)
    then none
    else fails_if (not (is_given c.cert)) "missing cert"
      or_else fails_if (not (is_given c.key)) "missing key"

-- The tests of a float64 that `RebalanceConfig` uses, `x < 0` and `x > 1`: both are false of a NaN.
pub record Fractions (F : Type 0) : Type 0 where
  pub is_negative : F → Bool
  pub exceeds_one : F → Bool

pub record Rebalance (F : Type 0) : Type 0 where
  pub threshold : F
  pub shed_rate : F
  pub min_conns : ℕ

unfoldable pub validate_rebalance : {F : Type 0} → Fractions F → Rebalance F → Option String
unfolding fails_if ◌or_else◌
validate_rebalance fr c =
    fails_if (fr.is_negative c.threshold) "threshold cannot be negative"
    or_else fails_if (fr.is_negative c.shed_rate) "shed-rate cannot be negative"
    or_else fails_if (fr.exceeds_one c.shed_rate) "shed-rate cannot exceed 1"

abbrev pub min_stream_window_size : ℕ
min_stream_window_size = 256 * 1024

-- `Validate` of `StreamConfig`
unfoldable pub validate_stream : ℕ → Option String
unfolding fails_if
validate_stream max_window_size =
    fails_if (ltb max_window_size min_stream_window_size) "max-window-size must be >= 262144"

pub record TenantConfig : Type 0 where
  pub id : String
  pub auth : Config.Config

unfoldable pub validate_tenant : TenantConfig → Option String
unfolding fails_if Config.enabled ◌or_else◌
validate_tenant c =
    fails_if (not (is_given c.id)) "missing tenant id"
    or_else fails_if (not (Config.enabled c.auth)) "tenant auth disabled"

unfoldable pub validate_tenants : List TenantConfig → Option String
unfolding validate_tenant within ◌or_else◌
validate_tenants [] = none
validate_tenants (t ∷ ts) = within "tenant" (validate_tenant t) or_else validate_tenants ts

pub record ProxyConfig : Type 0 where
  pub bind_addr : String
  pub access_log : AccessLogConfig
  pub tls : TlsConfig

unfoldable pub validate_proxy : ProxyConfig → Option String
unfolding fails_if validate_tls validate_access_log within ◌or_else◌
validate_proxy c =
    fails_if (not (is_given c.bind_addr)) "missing bind addr"
    or_else within "tls" (validate_tls c.tls)
    or_else within "access log" (validate_access_log c.access_log)

pub record UpstreamConfig (F : Type 0) : Type 0 where
  pub bind_addr : String
  pub rebalance : Rebalance F
  pub tls : TlsConfig
  pub tenants : List TenantConfig

unfoldable pub validate_upstream : {F : Type 0} → Fractions F → UpstreamConfig F → Option String
unfolding fails_if validate_rebalance validate_tls validate_tenants within ◌or_else◌
validate_upstream fr c =
    fails_if (not (is_given c.bind_addr)) "missing bind addr"
    or_else within "rebalance" (validate_rebalance fr c.rebalance)
    or_else within "tls" (validate_tls c.tls)
    or_else validate_tenants c.tenants

pub record AdminConfig : Type 0 where
  pub bind_addr : String
  pub tls : TlsConfig

unfoldable pub validate_admin : AdminConfig → Option String
unfolding fails_if validate_tls within ◌or_else◌
validate_admin c =
    fails_if (not (is_given c.bind_addr)) "missing bind addr"
    or_else within "tls" (validate_tls c.tls)

pub record ClusterConfig : Type 0 where
  pub node_id : String
  pub join_timeout : ℤ
  pub gossip : GossipConfig

unfoldable pub validate_cluster : ClusterConfig → Option String
unfolding fails_if validate_gossip within ◌or_else◌ is_zero
validate_cluster c =
    fails_if (not (is_given c.node_id)) "missing node id"
    or_else fails_if (is_zero c.join_timeout) "missing join timeout"
    or_else within "gossip" (validate_gossip c.gossip)

-- `Config`
pub record ServerConfig (F : Type 0) : Type 0 where
  pub proxy : ProxyConfig
  pub upstream : UpstreamConfig F
  pub max_window_size : ℕ
  pub admin : AdminConfig
  pub cluster : ClusterConfig
  pub log : LogConfig
  pub grace_period : ℤ

-- `Validate`
unfoldable pub validate : {F : Type 0} → Fractions F → ServerConfig F → Option String
unfolding validate_cluster validate_proxy validate_upstream validate_stream validate_admin
    validate_log fails_if within ◌or_else◌ is_zero
validate fr c =
    within "cluster" (validate_cluster c.cluster)
    or_else within "proxy" (validate_proxy c.proxy)
    or_else within "upstream" (validate_upstream fr c.upstream)
    or_else within "stream" (validate_stream c.max_window_size)
    or_else within "admin" (validate_admin c.admin)
    or_else within "log" (validate_log c.log)
    or_else fails_if (is_zero c.grace_period) "missing grace period"
