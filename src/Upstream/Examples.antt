-- ===== src/Upstream/Examples.antt =====
-- Concrete managers and balancers.
use piko.Upstream.Server.{shed_sessions}
use piko.Upstream.Server.Shedding.{closed, shed_sessions-closed}
use piko.Prelude.{
  length, List, ◌++◌, same, ℕ, ◌≡◌, refl, Bool, true, Option, some, [], ◌∷◌, lookup, arith,
}
use piko.Prelude.Int.{pos}
use piko.Cluster.State
use piko.Cluster.State.{State, Node, active}
use piko.Upstream.Balancer.{remove_first, Conn, LoadBalancer, Upstream}
use piko.Upstream.Balancer.Rotation.{next_times, turns, next_times_lem}
use piko.Upstream.Manager.{Manager, Effects, add_conn, remove_conn, select}
use piko.Upstream.Manager.Agreement.{
  Agrees, connected, add_conn-Agrees, remove_conn-Agrees, remove_conn_unregistered, select-Agrees,
}

abbrev conn_of : ℕ → Conn
conn_of p = record {
  pointer = p;
  endpoint_id = "web";
  name = "one";
  addr = "10.0.0.1:1";
  connected_at = 0;
}

abbrev local : Node
local = record {
  id = "a";
  status = active;
  proxy_addr = "10.0.0.1:8000";
  admin_addr = "10.0.0.1:8002";
  endpoints = ("web", pos 2) ∷ [];
}

abbrev web : LoadBalancer
web = record { upstreams = conn_of 1 ∷ conn_of 2 ∷ []; next_index = 1 }

abbrev manager : Manager
manager = record {
  local_upstreams = ("web", web) ∷ [];
  cluster = record {
    local_id = "a";
    nodes = ("a", local) ∷ [];
    local_subscribers = 7 ∷ [];
    remote_subscribers = [];
  };
}

manager-Agrees : Agrees manager
unfolding lookup connected State.listeners same
manager-Agrees = record {
  ready = λ id lb h. ground arith;
  counts = record { node = local; here = refl; listens = λ id. ground arith };
}

add_conn-Agrees_example :
    (r : Manager × Effects) × (add_conn (conn_of 3) manager ≡ some r) × Agrees r.0
unfolding connected lookup same
add_conn-Agrees_example = add_conn-Agrees (conn_of 3) manager manager-Agrees (omega arith)

remove_conn-Agrees_example :
    (r : Manager × Effects) × (remove_conn (conn_of 1) manager ≡ some r) × Agrees r.0
unfolding lookup remove_first same
remove_conn-Agrees_example =
    remove_conn-Agrees (conn_of 1) manager web manager-Agrees refl (conn_of 2 ∷ []) refl

remove_conn_unregistered_example :
    (r : Manager × Effects) × (remove_conn (conn_of 3) manager ≡ some r)
    × (connected r.0 "web" ≡ 2)
    × (State.local_endpoint_listeners "web" r.0.cluster ≡ some (pos 1))
unfolding lookup remove_first same
remove_conn_unregistered_example =
    remove_conn_unregistered (conn_of 3) manager web manager-Agrees refl refl

select-Agrees_example :
    (r : Option Upstream × Bool × Manager × Effects) × (select "web" true manager ≡ some r)
    × Agrees r.2
select-Agrees_example = select-Agrees "web" true manager manager-Agrees

next_times_lem_example :
    next_times 3 web
    ≡ some
        (some (conn_of 2) ∷ some (conn_of 1) ∷ some (conn_of 2) ∷ [], record web { next_index = 0 })
unfolding turns
next_times_lem_example = next_times_lem (conn_of 1 ∷ conn_of 2 ∷ []) 3 1 (omega arith)

abbrev three_sessions : List ℕ
three_sessions = 1 ∷ 2 ∷ 3 ∷ []

-- With a shed rate of zero, one session of three is closed all the same.
shed_sessions-closed_example :
    (length (shed_sessions (pos 0) three_sessions) ≡ closed (pos 0) (length three_sessions))
    × ((rest : List ℕ) × (shed_sessions (pos 0) three_sessions ++ rest ≡ three_sessions))
shed_sessions-closed_example = shed_sessions-closed (pos 0) three_sessions
