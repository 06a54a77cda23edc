-- ===== src/Client/Upstream.antt =====
-- client/upstream.go: connecting to the server, again and again. The dialer of each attempt and the
-- printing of a URL are parameters; a connection made is a session of it.
pub mod Persists
use piko.Prelude.{
  ℕ, ◌*◌, ◌==◌, String, Bool, Option, none, some, List, [], ◌∷◌, if◌then◌else◌, Result, ok, err,
}
use piko.Prelude.Int.{ℤ, pos, is_zero}
use piko.Backoff.{Backoff, new_backoff, back_off}
use piko.Wire.WebSocket.Dial.{
  Error, retryable, plain, Dialer, DialOption, Response, token_option, tenant_id_option,
  tls_config_option, proxy_url_option, compression_option, dial,
}
use piko.Client.Url.{Url, listen_url}

-- `Upstream`: its settings, where 0 is for a default.
pub record Upstream (Tls : Type 0) : Type 0 where
  pub url : Option Url
  pub token : String
  pub tenant_id : String
  pub name : String
  pub tls_config : Option Tls
  pub proxy_url : Option Url
  pub min_reconnect_backoff : ℤ
  pub max_reconnect_backoff : ℤ
  pub max_window_size : ℕ
  pub compression : Bool

abbrev pub millisecond : ℕ
millisecond = 1000000

-- `defaultMaxWindowSize`
abbrev pub default_max_window_size : ℕ
default_max_window_size = 256 * 1024

unfoldable pub or_default : ℕ → ℕ → ℕ
or_default value default = if value == 0 then default else value

-- The same of a duration, an int64.
unfoldable pub or_default_duration : ℤ → ℕ → ℤ
unfolding is_zero
or_default_duration value default = if is_zero value then pos default else value

-- The library's part: the printing of a URL, the query with a name, and the decoder of an error.
pub record Library : Type 0 where
  pub print : Url → String
  pub set_name : String → String → String
  pub decode : String → Option String

-- What one attempt meets: the network, whether the context is done when the dial has failed, and
-- whether it is done before the wait that follows is over.
pub record Attempt (Tls Conn : Type 0) : Type 0 where
  pub dial_context :
      Dialer Tls Url → String → List (String × String) → Result (Option Response × String) Conn
  pub is_done : Bool
  pub is_done_waiting : Bool

-- A session over a connection, with its window.
pub record Session (Conn : Type 0) : Type 0 where
  pub conn : Conn
  pub max_window_size : ℕ

-- Where a connect has got to: a session, the context's error, an error that is not retried, or
-- another attempt.
pub data Outcome (Conn : Type 0) : Type 0 where
  connected : Session Conn → Outcome Conn
  cancelled : Outcome Conn
  failed : Error → Outcome Conn
  trying : Outcome Conn

-- The bounds of the backoff that `connect` takes.
unfoldable pub least_backoff : {Tls : Type 0} → Upstream Tls → ℤ
unfolding or_default_duration
least_backoff u = or_default_duration u.min_reconnect_backoff (100 * millisecond)

unfoldable pub greatest_backoff : {Tls : Type 0} → Upstream Tls → ℤ
unfolding or_default_duration
greatest_backoff u = or_default_duration u.max_reconnect_backoff (15000 * millisecond)

unfoldable pub session_of : {Tls Conn : Type 0} → Upstream Tls → Conn → Session Conn
unfolding or_default
session_of u c = record {
  conn = c;
  max_window_size = or_default u.max_window_size default_max_window_size;
}

-- The end of a round that has failed but may be retried: what comes after the wait.
unfoldable pub after_wait :
    {Conn : Type 0}
    → Bool
    → Option ℤ
    → Outcome Conn × List (Option ℤ)
    → Outcome Conn × List (Option ℤ)
after_wait is_done wait rest = if is_done then (cancelled, wait ∷ []) else (rest.0, wait ∷ rest.1)

module _ {Tls Conn : Type 0} (lib : Library) (jitter : ℤ → ℤ) (u : Upstream Tls)
    (endpoint_id : String) where
  -- One dial.
  unfoldable pub attempt : Attempt Tls Conn → Result Error Conn
  unfolding dial listen_url
  attempt a =
      dial a.dial_context lib.decode (lib.print (listen_url lib.set_name u.url u.name endpoint_id))
        (token_option u.token
          ∷ tenant_id_option u.tenant_id
          ∷ tls_config_option u.tls_config
          ∷ proxy_url_option u.proxy_url
          ∷ compression_option u.compression
          ∷ [])

  -- The loop of `connect` over the attempts to come, with the waits between them. The loop takes the
  -- wait of the backoff even where that is `none`, as 0.
  unfoldable pub connect_loop : List (Attempt Tls Conn) → Backoff → Outcome Conn × List (Option ℤ)
  unfolding attempt session_of after_wait back_off
  connect_loop [] b = (trying, [])
  connect_loop (a ∷ more) b =
      let next = back_off jitter b in
      let rest = connect_loop more next.1 in
      elim (attempt a) [
        | ok c ↦ (connected (session_of u c), [])
        | err e ↦ if a.is_done then (cancelled, []) else elim e [
          | plain m ↦ (failed (plain m), [])
          | retryable m ↦ after_wait a.is_done_waiting next.0 rest
        ]
      ]

  -- `connect`
  unfoldable pub connect : List (Attempt Tls Conn) → Outcome Conn × List (Option ℤ)
  unfolding connect_loop new_backoff least_backoff greatest_backoff
  connect attempts = connect_loop attempts (new_backoff 0 (least_backoff u) (greatest_backoff u))
