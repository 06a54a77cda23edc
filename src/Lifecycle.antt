-- ===== src/Lifecycle.antt =====
-- server/server.go: the start and the shutdown of a node, as the parts that they start and stop in
-- order, and the addresses that a node advertises. What the network and the cluster answer is a
-- parameter.
pub mod State
pub mod Ended
pub mod Order
pub mod Verifiers
mod Examples
use Prim.Native.String
use piko.Prelude.{
  ℕ, String, Bool, true, false, not, ◌&&◌, ◌||◌, Option, none, some, List, [], ◌∷◌, ◌++◌, same, ite,
  if◌then◌else◌, Result, ok, err,
}
use piko.Prelude.Text.{cut_prefix}
use piko.Sync.Startup.{Startup, joined, gave_up, joining}

-- The HTTP servers of a node.
pub data Server : Type 0 where
  admin upstream proxy : Server

-- What happens at a node, one at a time: what it does of itself, with whether Shutdown of a server
-- and Leave return without an error; and a server that ends, where Serve returns of itself.
pub data Event : Type 0 where
  begin_shutdown stop_jwks : Event
  serve : Server → Event
  stop : Server → Bool → Event
  ended : Server → Event
  open_gossip close_gossip join_cluster : Event
  leave_cluster : Bool → Event
  rebalance stop_rebalance : Event
  set_ready unset_ready : Event

abbrev pub Events : Type 0
Events = List Event

-- `startGossip`: the errors of its two listens.
unfoldable pub start_gossip : Option String → Option String → Option String × Events
start_gossip (some e) packet = (some e, [])
start_gossip none (some e) = (some e, [])
start_gossip none none = (none, open_gossip ∷ [])

-- `startUpstreamServer`, with whether the threshold of the rebalancing is not 0.
unfoldable pub start_upstream_server : Bool → Events
start_upstream_server rebalances = serve upstream ∷ (if rebalances then rebalance ∷ [] else [])

-- `shutdownUpstreamServer`, with whether Shutdown returns without an error, which is only logged.
unfoldable pub shutdown_upstream_server : Bool → Events
shutdown_upstream_server stops = stop_rebalance ∷ stop upstream stops ∷ []

-- What a start meets: the errors of the listens, the nodes that JoinOnBoot returns, and what
-- JoinOnStartup comes to; and of the configuration, whether a failed join aborts the start and
-- whether connections are rebalanced.
pub record Setting : Type 0 where
  pub stream_error : Option String
  pub packet_error : Option String
  pub on_boot : List String
  pub on_startup : Startup
  pub abort_if_join_fails : Bool
  pub rebalances : Bool

-- The second join: the error of the start, or `none` in the outer place where it does not return.
unfoldable pub join_again : Setting → Option (Option String)
join_again c = elim c.on_boot [
  | id ∷ ids ↦ some none
  | [] ↦ elim c.on_startup [
    | joined ids ↦ some none
    | gave_up none ↦ some none
    | gave_up (some e) ↦
        some (if c.abort_if_join_fails then some (String.◌++◌ "cluster join: " e) else none)
    | joining ↦ none
  ]
]

-- `Start`, up to its end or to the join that it waits for: its error, if it has returned, and what it
-- does.
unfoldable pub start : Setting → Option (Option String) × Events
unfolding start_gossip start_upstream_server join_again
start c =
    let (e, opened) = start_gossip c.stream_error c.packet_error in
    elim e [
      | some text ↦ (some (some (String.◌++◌ "gossip: " text)), serve admin ∷ opened)
      | none ↦ (
        join_again c,
        serve admin ∷ opened
            ++ join_cluster ∷ start_upstream_server c.rebalances
            ++ serve proxy
              ∷ set_ready
              ∷ (elim c.on_boot [ [] ↦ join_cluster ∷ [] | id ∷ ids ↦ [] ]),
      )
    ]

-- What a shutdown meets: whether Shutdown of each server, and Leave, return without an error. None of
-- the errors stops the shutdown.
pub record Closing : Type 0 where
  pub upstream_stops : Bool
  pub proxy_stops : Bool
  pub leaves : Bool
  pub admin_stops : Bool

-- `Shutdown`
unfoldable pub shutdown : Closing → Events
unfolding shutdown_upstream_server
shutdown c =
    begin_shutdown ∷ stop_jwks ∷ unset_ready ∷ shutdown_upstream_server c.upstream_stops
    ++ stop proxy c.proxy_stops
      ∷ leave_cluster c.leaves
      ∷ close_gossip
      ∷ stop admin c.admin_stops
      ∷ []

-- What a node does under the command `server`: a start that returns no error is followed by a wait,
-- which ends, by a signal or by a fatal error, in the shutdown; after an error the process exits.
unfoldable pub calls : Setting → Closing → Events
unfolding start shutdown
calls c d = elim (start c).0 [
  | none ↦ (start c).1
  | some (some e) ↦ (start c).1
  | some none ↦ (start c).1 ++ shutdown d
]

abbrev all_ended : List Server → Events → Events
all_ended [] es = es
all_ended (s ∷ ss) es = ended s ∷ all_ended ss es

-- Events with servers that end before each of the first ones.
unfoldable pub weave : List (List Server) → Events → Events
weave [] es = es
weave (ss ∷ more) [] = all_ended ss []
weave (ss ∷ more) (e ∷ es) = all_ended ss (e ∷ weave more es)

-- The life of a node, with the servers that end of themselves anywhere in it. One that ends before
-- the shutdown is a fatal error, of which the node hears once it waits.
unfoldable pub lifetime : List (List Server) → Setting → Closing → Events
unfolding calls weave
lifetime ends c d = weave ends (calls c d)

-- Whether a goroutine of the node that ends is taken for a fatal error, `runGoroutine`.
unfoldable pub is_fatal : Bool → Bool
is_fatal is_shutdown = not is_shutdown

-- `advertiseAddrFromListenAddr`, with the splitting of a host and port and the private address of the
-- machine as parameters.
unfoldable pub advertise_addr :
    (String → Result String (String × String))
    → Result String String
    → String
    → Result String String
unfolding cut_prefix
advertise_addr split_host_port private_ip bind_addr =
    let addr : String = elim (cut_prefix ":" bind_addr) [
      | none ↦ bind_addr
      | some rest ↦ String.◌++◌ "0.0.0.0" bind_addr
    ] in
    elim (split_host_port addr) [
      | err e ↦ err (String.◌++◌ "invalid bind addr: " (String.◌++◌ addr (String.◌++◌ ": " e)))
      | ok (host, port) ↦
          let private : Result String String = elim private_ip [
            | err e ↦ err (String.◌++◌ "get interface addr: " e)
            | ok ip ↦
                ite (same ip "") (err "no private ip found")
                  (ok (String.◌++◌ ip (String.◌++◌ ":" port)))
          ] in
          ite (same host "0.0.0.0") private (ite (same host "::") private (ok addr))
    ]

-- What proxyListen, upstreamListen and adminListen leave of an advertised address: the one that is
-- configured, or the one of the listener; `none` is a panic.
unfoldable pub advertised : Result String String → String → Option String
advertised of_listener configured =
    ite (same configured "") (elim of_listener [ err e ↦ none | ok addr ↦ some addr ])
      (some configured)
