-- ===== src/Config/Agent.antt =====
-- agent/config/config.go: the validation of the agent's configuration, and the addresses that it
-- forwards to. The parsing of URLs and of hosts with ports, and the reading of certificates, are
-- parameters. An error is its text.
pub mod Ports
pub mod Accepted
use Prim.Native.String
use piko.Prelude.{
  ℕ, ltb, not, ◌&&◌, ◌||◌, Bool, true, false, Option, none, some, List, [], ◌∷◌, String, same, ite,
  if◌then◌else◌, Result, ok, err,
}
use piko.Prelude.Int.{ℤ, pos, negsuc, is_zero}
use piko.Prelude.Text.{atoi}
use piko.Auth.Config.{is_given}
use piko.Config.{
  fails_if, ◌or_else◌, within, LogConfig, AccessLogConfig, validate_log, validate_access_log,
  validate_stream,
}

pub record Url : Type 0 where
  pub scheme : String
  pub host : String

-- The libraries' part: url.Parse, net.SplitHostPort, net.JoinHostPort, tls.LoadX509KeyPair with its
-- error if there is one, os.ReadFile, and whether a pool takes a text of certificates.
pub record Library : Type 0 where
  pub parse_url : String → Result String Url
  pub split_host_port : String → Option (String × String)
  pub join_host_port : String → String → String
  pub load_key_pair : String → String → Option String
  pub read_file : String → Result String String
  pub has_certificates : String → Bool

-- A port alone: the test port >= 0 && port < 0xffff.
unfoldable pub is_port : Option ℤ → Bool
is_port none = false
is_port (some (pos n)) = ltb n 65535
is_port (some (negsuc n)) = false

-- `Host`
unfoldable pub host : Library → String → Option String
unfolding is_port atoi
host lib addr =
    if is_port (atoi addr)
    then some (String.◌++◌ "localhost:" addr)
    else elim (lib.split_host_port addr) [ none ↦ none | some parts ↦ some addr ]

-- A host and a port, as a URL.
unfoldable pub url_of_host : Library → String → Option Url
url_of_host lib addr = elim (lib.split_host_port addr) [
  | none ↦ none
  | some (h, port) ↦ some (record { scheme = "http"; host = lib.join_host_port h port })
]

-- `URL`
unfoldable pub url : Library → String → Option Url
unfolding is_port atoi url_of_host is_given
url lib addr =
    if is_port (atoi addr)
    then some (record { scheme = "http"; host = String.◌++◌ "localhost:" addr })
    else elim (lib.parse_url addr) [
      | err e ↦ url_of_host lib addr
      | ok u ↦ if is_given u.scheme && is_given u.host then some u else url_of_host lib addr
    ]

-- `TLSConfig`
pub record TlsConfig : Type 0 where
  pub cert : String
  pub key : String
  pub root_cas : String
  pub insecure_skip_verify : Bool

-- The tls.Config of `Load`: the pair of a certificate and its key, and the text of the certificates
-- of the pool.
pub record TlsSettings : Type 0 where
  pub key_pair : Option (String × String)
  pub root_cas : Option String
  pub insecure_skip_verify : Bool

unfoldable pub load_pair : Library → TlsConfig → Result String (Option (String × String))
unfolding is_given
load_pair lib c =
    if is_given c.cert
    then elim (lib.load_key_pair c.cert c.key) [
      | some e ↦ err (String.◌++◌ "load key pair: " e)
      | none ↦ ok (some (c.cert, c.key))
    ]
    else ok none

-- An error of parsing prints the error of the file, which is nil.
unfoldable pub load_pool : Library → TlsConfig → Result String (Option String)
unfolding is_given
load_pool lib c =
    if is_given c.root_cas
    then elim (lib.read_file c.root_cas) [
      | err e ↦ err (String.◌++◌ "open root cas: " (String.◌++◌ c.root_cas (String.◌++◌ ": " e)))
      | ok text ↦
          if lib.has_certificates text
          then ok (some text)
          else err (String.◌++◌ "parse root cas: " (String.◌++◌ c.root_cas ": %!w(<nil>)"))
    ]
    else ok none

-- `Load`
unfoldable pub load : Library → TlsConfig → Result String TlsSettings
unfolding load_pair load_pool
load lib c = elim (load_pair lib c) [
  | err e ↦ err e
  | ok pair ↦ elim (load_pool lib c) [
    | err e ↦ err e
    | ok pool ↦
        ok (record {
          key_pair = pair;
          root_cas = pool;
          insecure_skip_verify = c.insecure_skip_verify;
        })
  ]
]

unfoldable pub error_of : {A : Type 0} → Result String A → Option String
error_of (err e) = some e
error_of (ok a) = none

-- `Validate` of `TLSConfig`
unfoldable pub validate_tls : Library → TlsConfig → Option String
unfolding fails_if is_given load error_of ◌or_else◌
validate_tls lib c =
    fails_if (is_given c.cert && not (is_given c.key)) "missing key" or_else error_of (load lib c)

-- `ListenerConfig`
pub record ListenerConfig : Type 0 where
  pub endpoint_id : String
  pub addr : String
  pub protocol : String
  pub access_log : AccessLogConfig
  pub timeout : ℤ
  pub tls : TlsConfig

unfoldable pub is_none : {A : Type 0} → Option A → Bool
is_none none = true
is_none (some a) = false

-- The address, by its protocol.
unfoldable pub validate_addr : Library → ListenerConfig → Option String
unfolding fails_if is_none url host
validate_addr lib c =
    let http = fails_if (is_none (url lib c.addr)) "invalid addr" in
    ite (same c.protocol "") http (
      ite (same c.protocol "http") http (
        ite (same c.protocol "tcp") (fails_if (is_none (host lib c.addr)) "invalid addr")
          (some "unsupported protocol")))

-- `Validate` of `ListenerConfig`
unfoldable pub validate_listener : Library → ListenerConfig → Option String
unfolding fails_if is_given validate_addr validate_tls validate_access_log is_zero within ◌or_else◌
validate_listener lib c =
    fails_if (not (is_given c.endpoint_id)) "missing endpoint id"
    or_else fails_if (not (is_given c.addr)) "missing addr"
    or_else validate_addr lib c
    or_else fails_if (is_zero c.timeout) "missing timeout"
    or_else within "tls" (validate_tls lib c.tls)
    or_else within "access log" (validate_access_log c.access_log)

-- `ConnectConfig`
pub record ConnectConfig : Type 0 where
  pub url : String
  pub token : String
  pub tenant_id : String
  pub timeout : ℤ
  pub tls : TlsConfig
  pub proxy_url : String

-- `Validate` of `ConnectConfig`
unfoldable pub validate_connect : Library → ConnectConfig → Option String
unfolding fails_if is_given error_of validate_tls is_zero within ◌or_else◌
validate_connect lib c =
    fails_if (not (is_given c.url)) "missing url"
    or_else within "invalid url" (error_of (lib.parse_url c.url))
    or_else (if is_given c.proxy_url
        then within "invalid proxy url" (error_of (lib.parse_url c.proxy_url))
        else none)
    or_else fails_if (is_zero c.timeout) "missing timeout"
    or_else within "tls" (validate_tls lib c.tls)

-- `ServerConfig`
pub record ServerConfig : Type 0 where
  pub enabled : Bool
  pub bind_addr : String

unfoldable pub validate_server : ServerConfig → Option String
unfolding fails_if is_given
validate_server c =
    if c.enabled then fails_if (not (is_given c.bind_addr)) "missing bind addr" else none

-- `Config`
pub record AgentConfig : Type 0 where
  pub name : String
  pub listeners : List ListenerConfig
  pub connect : ConnectConfig
  pub max_window_size : ℕ
  pub server : ServerConfig
  pub log : LogConfig
  pub grace_period : ℤ

-- The error of a listener, with its endpoint if it has one.
unfoldable pub validate_named : Library → ListenerConfig → Option String
unfolding validate_listener is_given within
validate_named lib c = within "listener" (
    if is_given c.endpoint_id
    then within c.endpoint_id (validate_listener lib c)
    else validate_listener lib c)

unfoldable pub validate_listeners : Library → List ListenerConfig → Option String
unfolding validate_named ◌or_else◌
validate_listeners lib [] = none
validate_listeners lib (c ∷ cs) = validate_named lib c or_else validate_listeners lib cs

-- `Validate`
unfoldable pub validate : Library → AgentConfig → Option String
unfolding validate_listeners validate_connect validate_server validate_stream validate_log is_zero
    fails_if within ◌or_else◌
validate lib c =
    validate_listeners lib c.listeners
    or_else within "connect" (validate_connect lib c.connect)
    or_else within "stream" (validate_stream c.max_window_size)
    or_else within "server" (validate_server c.server)
    or_else within "log" (validate_log c.log)
    or_else fails_if (is_zero c.grace_period) "missing grace period"
