-- ===== src/Cluster/Examples.antt =====
-- Concrete cluster states.
use piko.Prelude.{ℕ, same, ite, differ, String, ◌≡◌, refl, some, [], ◌∷◌, Map, lookup, IsMap, arith}
use piko.Prelude.Int.{ℤ, pos}
use piko.Cluster.State
use piko.Cluster.State.{State, Node, Effects, active, unreachable}
use piko.Cluster.State.Endpoints.{Answer, lookup_endpoint_lem}
use piko.Cluster.State.Counts.{
  Counts, more, fewer, add_local_endpoint-Counts, remove_local_endpoint-Counts,
}
use piko.Cluster.State.Remote.{Update, remote_updates}

abbrev node_of : String → Map ℤ → Node
node_of id m = record {
  id = id;
  status = active;
  proxy_addr = "10.0.0.1:8000";
  admin_addr = "10.0.0.1:8002";
  endpoints = m;
}

abbrev two_nodes : State
two_nodes = record {
  local_id = "a";
  nodes = ("a", node_of "a" (("web", pos 1) ∷ [])) ∷ ("b", node_of "b" (("web", pos 2) ∷ [])) ∷ [];
  local_subscribers = [];
  remote_subscribers = 1 ∷ [];
}

abbrev one_web : String → ℕ
one_web id = ite (same "web" id) 1 0

two_nodes-IsMap : IsMap two_nodes.nodes
two_nodes-IsMap = ((differ "b" "a" refl, tt), (tt, tt))

two_nodes-Counts : Counts one_web two_nodes
unfolding lookup State.listeners same
two_nodes-Counts = record {
  node = node_of "a" (("web", pos 1) ∷ []);
  here = refl;
  listens = λ id. ground arith;
}

lookup_endpoint_lem_example : Answer "web" two_nodes (State.lookup_endpoint "web" two_nodes)
lookup_endpoint_lem_example = lookup_endpoint_lem "web" two_nodes two_nodes-IsMap

add_local_endpoint-Counts_example :
    (r : State × Effects) × (State.add_local_endpoint "web" two_nodes ≡ some r)
    × Counts (more "web" one_web) r.0
unfolding same
add_local_endpoint-Counts_example =
    add_local_endpoint-Counts "web" one_web two_nodes two_nodes-Counts (omega arith)

remove_local_endpoint-Counts_example :
    (r : State × Effects) × (State.remove_local_endpoint "web" two_nodes ≡ some r)
    × Counts (fewer "web" one_web) r.0
remove_local_endpoint-Counts_example =
    remove_local_endpoint-Counts "web" one_web two_nodes two_nodes-Counts

remote_updates_example :
    Update "b" two_nodes (State.update_remote_status "b" unreachable two_nodes)
    × Update "b" two_nodes (State.remove_node "b" two_nodes)
    × Update "b" two_nodes (State.update_remote_endpoint "b" "web" (pos 3) two_nodes)
    × Update "b" two_nodes (State.remove_remote_endpoint "b" "web" two_nodes)
remote_updates_example = remote_updates "b" "web" unreachable (pos 3) two_nodes
