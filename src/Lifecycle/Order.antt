-- ===== src/Lifecycle/Order.antt =====
-- server/server.go: in what order the parts of a node start and stop.
use piko.Prelude.{String, ◌≡◌, refl, Bool, true, false, Option, none, some, List, [], ◌∷◌}
use piko.Sync.Startup.{Startup, joined, gave_up, joining}
use piko.Lifecycle.{
  start_gossip, start_upstream_server, shutdown_upstream_server, Setting, Closing, join_again,
  start, shutdown, calls,
}
use piko.Lifecycle.State.{Running, stopped, accepts, after, run}

abbrev setting : Option String → Option String → List String → Startup → Bool → Bool → Setting
setting stream packet boot startup abort rebalances = record {
  stream_error = stream;
  packet_error = packet;
  on_boot = boot;
  on_startup = startup;
  abort_if_join_fails = abort;
  rebalances = rebalances;
}

abbrev pub gone : Running
gone = record stopped { is_shutdown = true; left = true }

each-gone :
    (stream packet : Option String) (boot : List String) (startup : Startup)
    (abort rebalances : Bool) (d : Closing)
    → (start (setting stream packet boot startup abort rebalances)).0 ≡ some none
    → run (calls (setting stream packet boot startup abort rebalances) d) stopped ≡ gone
unfolding calls run start start_gossip start_upstream_server join_again shutdown
    shutdown_upstream_server after accepts
each-gone (some e) packet boot startup abort rebalances d h = cc
each-gone none (some e) boot startup abort rebalances d h = cc
each-gone none none (id ∷ ids) startup abort true d h = refl
each-gone none none [] (joined ids) abort true d h = refl
each-gone none none [] (gave_up none) abort true d h = refl
each-gone none none [] (gave_up (some e)) true true d h = cc
each-gone none none [] (gave_up (some e)) false true d h = refl
each-gone none none [] joining abort true d h = cc
each-gone none none (id ∷ ids) startup abort false d h = refl
each-gone none none [] (joined ids) abort false d h = refl
each-gone none none [] (gave_up none) abort false d h = refl
each-gone none none [] (gave_up (some e)) true false d h = cc
each-gone none none [] (gave_up (some e)) false false d h = refl
each-gone none none [] joining abort false d h = cc

-- Where a node has started without an error, none of its parts is open after its shutdown, and it has
-- left, whether the calls of the shutdown fail or not.
pub calls-gone :
    (c : Setting) (d : Closing) → (start c).0 ≡ some none → run (calls c d) stopped ≡ gone
calls-gone c d =
    each-gone c.stream_error c.packet_error c.on_boot c.on_startup c.abort_if_join_fails
      c.rebalances d
