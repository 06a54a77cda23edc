-- ===== src/Sync/Examples.antt =====
-- A concrete sequence of calls of the watcher.
use piko.Prelude.{String, ◌≡◌, refl, some, ℕ, same, ite, differ, lookup, arith, List, [], ◌∷◌}
use piko.Prelude.Int.{pos}
use piko.Gossip.State as Gossip
use piko.Cluster.State
use piko.Cluster.State.{Node, State, active}
use piko.Sync.Syncer.{Syncer, Publish, new_syncer, on_local_update}
use piko.Sync.Syncer.Published.{Received, receive, published-Received}
use piko.Cluster.State.Counts.{Counts}
use piko.Sync.Syncer.Watch.{watch_all}
use piko.Sync.Syncer.Pending.{Good}
use piko.Sync.Syncer.Watched.{watched-Good}

abbrev node_of : String → Node
node_of id = record {
  id = id;
  status = active;
  proxy_addr = "10.0.0.1:8000";
  admin_addr = "10.0.0.1:8002";
  endpoints = ("web", pos 1) ∷ [];
}

abbrev cluster : State
cluster = record {
  local_id = "a";
  nodes = ("a", node_of "a") ∷ [];
  local_subscribers = [];
  remote_subscribers = [];
}

abbrev calls : List Gossip.Effect
calls =
    Gossip.on_join "b"
    ∷ Gossip.on_upsert_key "b" "proxy_addr" "10.0.0.2:8000"
    ∷ Gossip.on_unreachable "b"
    ∷ Gossip.on_upsert_key "b" "endpoint:web" "2"
    ∷ Gossip.on_upsert_key "b" "admin_addr" "10.0.0.2:8002"
    ∷ Gossip.on_leave "b"
    ∷ []

watched-Good_example : Good (new_syncer cluster) (watch_all calls (new_syncer cluster)).0
watched-Good_example = watched-Good cluster calls

-- Node "b", which knows "a" with no endpoint.
abbrev other : Syncer
other = new_syncer (record {
  local_id = "b";
  nodes = ("b", node_of "b") ∷ ("a", record (node_of "a") { endpoints = [] }) ∷ [];
  local_subscribers = [];
  remote_subscribers = [];
})

abbrev one_web : String → ℕ
one_web id = ite (same "web" id) 1 0

cluster-Counts : Counts one_web cluster
unfolding lookup State.listeners same
cluster-Counts = record { node = node_of "a"; here = refl; listens = λ id. ground arith }

published-Received_example :
    (p : Publish) × (on_local_update "web" (new_syncer cluster) ≡ some p)
    × Received "a" "web" 1 (record (node_of "a") { endpoints = [] }) (receive "a" p other).0
unfolding lookup same new_syncer
published-Received_example =
    published-Received "a" "web" one_web (new_syncer cluster) other
      (record (node_of "a") { endpoints = [] }) cluster-Counts (omega arith) (differ _ _ refl) refl
