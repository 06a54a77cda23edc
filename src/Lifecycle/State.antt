-- ===== src/Lifecycle/State.antt =====
-- server/server.go: what a node has open, after each of its events.
use piko.Prelude.{Bool, true, false, not, ◌&&◌, ◌||◌, [], ◌∷◌}
use piko.Lifecycle.{
  Server, admin, upstream, proxy, Event, Events, begin_shutdown, stop_jwks, serve, stop, ended,
  open_gossip, close_gossip, join_cluster, leave_cluster, rebalance, stop_rebalance, set_ready,
  unset_ready,
}

-- What a node has open: its servers, those that accept connections, and its gossip; and whether a
-- server has ended of itself. A server accepts none once its Shutdown has been called, which closes
-- the listener before it waits for the requests under way, and whether it returns an error or not.
pub record Running : Type 0 where
  pub is_shutdown : Bool
  pub admin : Bool
  pub gossip : Bool
  pub upstream : Bool
  pub rebalancing : Bool
  pub proxy : Bool
  pub ready : Bool
  pub left : Bool
  pub failed : Bool

abbrev pub stopped : Running
stopped = record {
  is_shutdown = false;
  admin = false;
  gossip = false;
  upstream = false;
  rebalancing = false;
  proxy = false;
  ready = false;
  left = false;
  failed = false;
}

unfoldable pub accepts : Server → Bool → Running → Running
accepts admin b n = record n { admin = b }
accepts upstream b n = record n { upstream = b }
accepts proxy b n = record n { proxy = b }

unfoldable pub after : Event → Running → Running
unfolding accepts
after begin_shutdown n = record n { is_shutdown = true }
after stop_jwks n = n
after (serve s) n = accepts s true n
after (stop s stops) n = accepts s false n
after (ended s) n = record (accepts s false n) { failed = true }
after open_gossip n = record n { gossip = true }
after close_gossip n = record n { gossip = false }
after join_cluster n = n
after (leave_cluster leaves) n = record n { left = true }
after rebalance n = record n { rebalancing = true }
after stop_rebalance n = record n { rebalancing = false }
after set_ready n = record n { ready = true }
after unset_ready n = record n { ready = false }

-- Whether an event is a call that stops a part of the node.
unfoldable pub is_stop : Event → Bool
is_stop (stop s stops) = true
is_stop close_gossip = true
is_stop stop_rebalance = true
is_stop e = false

-- A node that is ready has not left, has gossip, and has all its servers open unless one has ended of
-- itself. Upstreams can connect only while the node has gossip and has not left; sessions are
-- rebalanced only while they can connect, unless a server has ended of itself. The proxy is open only
-- while the node has gossip and has not left, and the admin server is open, unless one has ended.
unfoldable pub is_safe : Running → Bool
is_safe n =
    (not n.ready || (n.gossip && not n.left && (n.failed || (n.admin && n.upstream && n.proxy))))
    && (not n.upstream || (n.gossip && not n.left))
    && (not n.rebalancing || (n.failed || n.upstream))
    && (not n.proxy || (n.gossip && not n.left && (n.failed || n.admin)))

-- A node is safe all along some events, and stops a part only after its shutdown has begun.
unfoldable pub all_safe : Events → Running → Bool
unfolding is_stop is_safe after
all_safe [] n = is_safe n
all_safe (e ∷ es) n =
    let rest = all_safe es (after e n) in is_safe n && (not (is_stop e) || n.is_shutdown) && rest

unfoldable pub run : Events → Running → Running
unfolding after
run [] n = n
run (e ∷ es) n = run es (after e n)
