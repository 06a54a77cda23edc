-- ===== src/Config/Forward.antt =====
-- forward/config/config.go: the validation of the forwarder's configuration.
use piko.Prelude.{if◌then◌else◌, not, Option, none, List, [], ◌∷◌, String}
use piko.Prelude.Int.{ℤ, is_zero}
use piko.Auth.Config.{is_given}
use piko.Config.{fails_if, ◌or_else◌, within, LogConfig, validate_log}
use piko.Config.Agent.{Library, TlsConfig, host, is_none, error_of, validate_tls}

pub record PortConfig : Type 0 where
  pub addr : String
  pub endpoint_id : String

-- `Validate` of `PortConfig`
unfoldable pub validate_port : Library → PortConfig → Option String
unfolding fails_if is_given is_none host ◌or_else◌
validate_port lib c =
    fails_if (not (is_given c.addr)) "missing addr"
    or_else fails_if (is_none (host lib c.addr)) "invalid addr"
    or_else fails_if (not (is_given c.endpoint_id)) "missing endpoint id"

-- `ConnectConfig`
pub record ConnectConfig : Type 0 where
  pub url : String
  pub token : String
  pub timeout : ℤ
  pub tls : TlsConfig

-- `Validate` of `ConnectConfig`
unfoldable pub validate_connect : Library → ConnectConfig → Option String
unfolding fails_if is_given error_of validate_tls is_zero within ◌or_else◌
validate_connect lib c =
    fails_if (not (is_given c.url)) "missing url"
    or_else within "invalid url" (error_of (lib.parse_url c.url))
    or_else fails_if (is_zero c.timeout) "missing timeout"
    or_else within "tls" (validate_tls lib c.tls)

-- `Config`
pub record ForwardConfig : Type 0 where
  pub ports : List PortConfig
  pub connect : ConnectConfig
  pub log : LogConfig

-- The error of a port, with its endpoint if it has one.
unfoldable pub validate_named : Library → PortConfig → Option String
unfolding validate_port is_given within
validate_named lib c = within "port" (
    if is_given c.endpoint_id
    then within c.endpoint_id (validate_port lib c)
    else validate_port lib c)

unfoldable pub validate_ports : Library → List PortConfig → Option String
unfolding validate_named ◌or_else◌
validate_ports lib [] = none
validate_ports lib (c ∷ cs) = validate_named lib c or_else validate_ports lib cs

-- `Validate`
unfoldable pub validate : Library → ForwardConfig → Option String
unfolding validate_ports validate_connect validate_log within ◌or_else◌
validate lib c =
    validate_ports lib c.ports
    or_else within "connect" (validate_connect lib c.connect)
    or_else within "log" (validate_log c.log)
