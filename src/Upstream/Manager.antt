-- ===== src/Upstream/Manager.antt =====
-- server/upstream/manager.go: `LoadBalancedManager`. `none` is a panic, of a balancer or of a
-- cluster state without its local node.
pub mod Agreement
use mathlib.Core.Option
use piko.Prelude.{
  ℕ, String, Bool, true, false, Option, none, some, List, [], ◌∷◌, ◌++◌, map, Map, lookup, insert,
  remove, length, if◌then◌else◌, ◌/◌,
}
use piko.Cluster.State
use piko.Cluster.State.{State, Node}
use piko.Upstream.Balancer
use piko.Upstream.Balancer.{Conn, Upstream, LoadBalancer, conn, remote, new_balancer}

pub record Manager : Type 0 where
  pub local_upstreams : Map LoadBalancer
  pub cluster : State

-- The metrics that the manager counts, and what its cluster state does.
pub data Effect : Type 0 where
  registered_inc registered_dec connected_inc connected_dec upstream_request : Effect
  remote_request : String → Effect
  of_cluster : State.Effect → Effect

abbrev pub Effects : Type 0
Effects = List Effect

-- `NewLoadBalancedManager`
unfoldable pub new_manager : State → Manager
new_manager c = record { local_upstreams = []; cluster = c }

-- The choice of `Select` among the other nodes.
unfoldable pub select_remote : String → Manager → Option Upstream × Effects
unfolding State.lookup_endpoint
select_remote id m = elim (State.lookup_endpoint id m.cluster) [
  | none ↦ (none, [])
  | some n ↦ (some (remote id n), remote_request n.id ∷ [])
]

unfoldable pub is_some : Option Upstream → Bool
is_some none = false
is_some (some u) = true

-- `Select`: the result is nil where there is none.
unfoldable pub select :
    String → Bool → Manager → Option (Option Upstream × Bool × Manager × Effects)
unfolding lookup insert Balancer.next select_remote is_some
select id allow_remote m = elim (lookup id m.local_upstreams) [
  | some lb ↦
      Option.map
        (λ r. (
          Option.map conn r.0,
          true,
          record m { local_upstreams = insert id r.1 m.local_upstreams },
          upstream_request ∷ [],
        ))
        (Balancer.next lb)
  | none ↦
      if allow_remote
      then (let r : Option Upstream × Effects = select_remote id m in
          some (r.0, is_some r.0, m, r.1))
      else some (none, false, m, [])
]

-- The balancer of an endpoint, a new one where there is none, and whether it is new.
unfoldable pub balancer : String → Map LoadBalancer → LoadBalancer × Effects
unfolding lookup
balancer id m = elim (lookup id m) [
  | none ↦ (new_balancer, registered_inc ∷ [])
  | some lb ↦ (lb, [])
]

-- `AddConn`
unfoldable pub add_conn : Conn → Manager → Option (Manager × Effects)
unfolding balancer insert Balancer.add State.add_local_endpoint
add_conn u m =
    let b : LoadBalancer × Effects = balancer u.endpoint_id m.local_upstreams in
    Option.map
      (λ c. (
        record {
          local_upstreams = insert u.endpoint_id (Balancer.add u b.0) m.local_upstreams;
          cluster = c.0;
        },
        b.1 ++ map of_cluster c.1 ++ connected_inc ∷ [],
      ))
      (State.add_local_endpoint u.endpoint_id m.cluster)

-- The balancers after a removal, and the gauge of endpoints.
unfoldable pub put_balancer :
    String → Bool × LoadBalancer → Map LoadBalancer → Map LoadBalancer × Effects
unfolding insert remove
put_balancer id (empty, lb) m =
    if empty then (remove id m, registered_dec ∷ []) else (insert id lb m, [])

-- `RemoveConn`
unfoldable pub remove_conn : Conn → Manager → Option (Manager × Effects)
unfolding lookup put_balancer Balancer.remove State.remove_local_endpoint
remove_conn u m = elim (lookup u.endpoint_id m.local_upstreams) [
  | none ↦ some (m, [])
  | some lb ↦
      let b : Map LoadBalancer × Effects =
        put_balancer u.endpoint_id (Balancer.remove u lb) m.local_upstreams in
      Option.map
        (λ c. (
          record { local_upstreams = b.0; cluster = c.0 },
          b.1 ++ map of_cluster c.1 ++ connected_dec ∷ [],
        ))
        (State.remove_local_endpoint u.endpoint_id m.cluster)
]

-- `Endpoints`
unfoldable pub endpoints : Manager → Map ℕ
endpoints m = map (λ e. (e.0, length e.1.upstreams)) m.local_upstreams

-- `ConnMetadata`, and `ConnUpstream.Metadata`; UnixMilli of a time in nanoseconds.
pub record ConnMetadata : Type 0 where
  pub name : String
  pub addr : String
  pub connected_at : ℕ

unfoldable pub metadata : Conn → ConnMetadata
metadata c = record { name = c.name; addr = c.addr; connected_at = c.connected_at / 1000000 }

-- `Upstreams`: every local upstream is a `ConnUpstream`.
unfoldable pub upstreams : String → Manager → List ConnMetadata
unfolding lookup metadata
upstreams id m = elim (lookup id m.local_upstreams) [
  | none ↦ []
  | some lb ↦ map metadata lb.upstreams
]
