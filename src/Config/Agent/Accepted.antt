-- ===== src/Config/Agent/Accepted.antt =====
-- agent/config/config.go: what the validation of an agent's configuration is worth.
use piko.Prelude.{
  ◌≤◌, String, ◌≡◌, refl, ◌≢◌, ◌⊎◌, false, not, ltb, Bool-cases, inl, inr, Option, none, some, List,
  [], ◌∷◌, same, arith,
}
use piko.Prelude.Int.{pos, is_zero}
use piko.Auth.Config.{is_given}
use piko.Config.{validate_stream, min_stream_window_size, validate_log}
use piko.Config.Valid.{
  within-none, fails_if-none, given, nonzero, within-then, fails_if-then, or_else-none,
}
use piko.Config.Agent.{
  Library, Url, url, host, ListenerConfig, AgentConfig, is_none, error_of, validate_addr,
  validate_listener, validate_named, validate_listeners, validate_connect, validate_server,
  validate,
}

-- The address that a listener forwards to, by its protocol.
pub data HasAddr (lib : Library) (c : ListenerConfig) : Type 0 where
  http :
      (u : Url)
      → (c.protocol ≡ "") ⊎ (c.protocol ≡ "http")
      → url lib c.addr ≡ some u
      → HasAddr lib c
  tcp : (h : String) → c.protocol ≡ "tcp" → host lib c.addr ≡ some h → HasAddr lib c

-- A listener that can be served.
pub record IsServed (lib : Library) (c : ListenerConfig) : Type 0 where
  pub endpoint : c.endpoint_id ≢ ""
  pub addr : HasAddr lib c
  pub timeout : c.timeout ≢ pos 0

is_none-false : {A : Type 0} (o : Option A) → is_none o ≡ false → (a : A) × (o ≡ some a)
unfolding is_none
is_none-false none h = cc
is_none-false (some a) h = (a, refl)

validate_addr-HasAddr :
    (lib : Library) (c : ListenerConfig) → validate_addr lib c ≡ none → HasAddr lib c
unfolding validate_addr
validate_addr-HasAddr lib c h = elim (same c.protocol "") [
  | yes p ↦
      let (u, e) = is_none-false (url lib c.addr) (fails_if-none _ "invalid addr" (ground arith)) in
      http u (inl p) e
  | no n ↦ elim (same c.protocol "http") [
    | yes p ↦
        let (u, e) =
          is_none-false (url lib c.addr) (fails_if-none _ "invalid addr" (ground arith)) in
        http u (inr p) e
    | no m ↦ elim (same c.protocol "tcp") [
      | yes p ↦
          let (u, e) =
            is_none-false (host lib c.addr) (fails_if-none _ "invalid addr" (ground arith)) in
          tcp u p e
      | no k ↦ absurd (ground arith)
    ]
  ]
]

validate_listener-IsServed :
    (lib : Library) (c : ListenerConfig) → validate_listener lib c ≡ none → IsServed lib c
unfolding validate_listener
validate_listener-IsServed lib c h =
    let (named, h₁) = fails_if-then (not (is_given c.endpoint_id)) _ h in
    let (addressed, h₂) = fails_if-then (not (is_given c.addr)) _ h₁ in
    let (valid, h₃) = or_else-none (validate_addr lib c) _ h₂ in
    let (timed, h₄) = fails_if-then (is_zero c.timeout) _ h₃ in
    record {
      endpoint = given c.endpoint_id named;
      addr = validate_addr-HasAddr lib c valid;
      timeout = nonzero c.timeout timed;
    }

validate_named-none :
    (lib : Library) (c : ListenerConfig)
    → validate_named lib c ≡ none
    → validate_listener lib c ≡ none
unfolding validate_named
validate_named-none lib c h =
    let inner = within-none "listener" _ h in
    elim (Bool-cases (is_given c.endpoint_id)) [
      | inl y ↦ within-none c.endpoint_id (validate_listener lib c) (ground arith)
      | inr n ↦ ground arith
    ]

abbrev pub AllServed : Library → List ListenerConfig → Type 0
AllServed lib [] = Unit {0}
AllServed lib (c ∷ cs) = IsServed lib c × AllServed lib cs

validate_listeners-AllServed :
    (lib : Library) (cs : List ListenerConfig) → validate_listeners lib cs ≡ none → AllServed lib cs
unfolding validate_listeners
validate_listeners-AllServed lib [] h = tt
validate_listeners-AllServed lib (c ∷ cs) h =
    let (first, rest) = or_else-none (validate_named lib c) (validate_listeners lib cs) h in
    (
      validate_listener-IsServed lib c (validate_named-none lib c first),
      validate_listeners-AllServed lib cs rest,
    )

-- What holds of an agent's configuration that is accepted.
pub record IsAccepted (lib : Library) (c : AgentConfig) : Type 0 where
  pub listeners : AllServed lib c.listeners
  pub server_url : c.connect.url ≢ ""
  pub connect_timeout : c.connect.timeout ≢ pos 0
  pub window : 262144 ≤ c.max_window_size
  pub grace_period : c.grace_period ≢ pos 0

-- An agent's configuration without an error: each listener has an endpoint, a timeout other than 0 and an
-- address of its protocol, which is "http", "tcp" or none for "http"; there is a URL of the server;
-- the timeout to connect to it and the grace period are not 0; and the window has 256 KiB at least.
pub validate-IsAccepted :
    (lib : Library) (c : AgentConfig) → validate lib c ≡ none → IsAccepted lib c
unfolding validate validate_connect validate_stream
validate-IsAccepted lib c h =
    let (ls, h₁) = or_else-none (validate_listeners lib c.listeners) _ h in
    let (connect, h₂) = within-then "connect" (validate_connect lib c.connect) h₁ in
    let (stream, h₃) = within-then "stream" (validate_stream c.max_window_size) h₂ in
    let (server, h₄) = within-then "server" (validate_server c.server) h₃ in
    let (log, grace) = within-then "log" (validate_log c.log) h₄ in
    let (url_given, c₁) = fails_if-then (not (is_given c.connect.url)) _ connect in
    let (parsed, c₂) = within-then "invalid url" (error_of (lib.parse_url c.connect.url)) c₁ in
    let (proxied, c₃) = or_else-none _ _ c₂ in
    let (timed, c₄) = fails_if-then (is_zero c.connect.timeout) _ c₃ in
    let wide = fails_if-none (ltb c.max_window_size min_stream_window_size) _ stream in
    let no_grace = fails_if-none (is_zero c.grace_period) _ grace in
    record {
      listeners = validate_listeners-AllServed lib c.listeners ls;
      server_url = given c.connect.url url_given;
      connect_timeout = nonzero c.connect.timeout timed;
      window = ground arith;
      grace_period = nonzero c.grace_period no_grace;
    }
