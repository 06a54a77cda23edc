-- ===== src/Cluster/State.antt =====
-- server/cluster/node.go and state.go. `none` is the panic of a state without its local node.
pub mod Endpoints
pub mod Remote
pub mod Counts
use mathlib.Core.Option
use piko.Prelude.{
  ℕ, zero, suc, ◌+◌, String, Bool, true, false, not, ◌&&◌, Option, none, some, List, [], ◌∷◌, ◌++◌,
  map, Map, lookup, insert, remove, values, length, same, ite, if◌then◌else◌,
}
use piko.Prelude.Int.{ℤ, pos, inc_int, dec_int, add_int, quot, above, is_zero}

-- `NodeStatus`; `unset` is the zero value, the empty text.
pub data NodeStatus : Type 0 where
  unset active unreachable left : NodeStatus

-- `Node`; a nil map of endpoints is the empty map.
pub record Node : Type 0 where
  pub id : String
  pub status : NodeStatus
  pub proxy_addr : String
  pub admin_addr : String
  pub endpoints : Map ℤ

pub record NodeMetadata : Type 0 where
  pub id : String
  pub status : NodeStatus
  pub proxy_addr : String
  pub admin_addr : String
  pub endpoints : ℕ
  pub upstreams : ℤ

-- The sum of the listeners, as a loop from a first value.
unfoldable pub sum_from : ℤ → List ℤ → ℤ
sum_from total [] = total
sum_from total (n ∷ ns) = sum_from (add_int total n) ns

-- `Node.Metadata`
unfoldable pub metadata : Node → NodeMetadata
unfolding sum_from
metadata n = record {
  id = n.id;
  status = n.status;
  proxy_addr = n.proxy_addr;
  admin_addr = n.admin_addr;
  endpoints = length n.endpoints;
  upstreams = sum_from (pos 0) (values n.endpoints);
}

-- `State`; a subscriber is named by a number.
pub record State : Type 0 where
  pub local_id : String
  pub nodes : Map Node
  pub local_subscribers : List ℕ
  pub remote_subscribers : List ℕ

-- The calls of the subscribers and of the gauge of nodes, in order.
pub data Effect : Type 0 where
  local_update : ℕ → String → Effect
  remote_update : ℕ → String → String → Effect
  nodes_inc nodes_dec : NodeStatus → Effect

abbrev pub Effects : Type 0
Effects = List Effect

-- `NewState`
unfoldable pub new_state : Node → State × Effects
unfolding insert
new_state n = (
  record {
    local_id = n.id;
    nodes = insert n.id (record n { status = active }) [];
    local_subscribers = [];
    remote_subscribers = [];
  },
  nodes_inc active ∷ [],
)

-- `State.Node`
unfoldable pub node : State → String → Option Node
unfolding lookup
node s id = lookup id s.nodes

-- `LocalNode`
unfoldable pub local_node : State → Option Node
unfolding lookup
local_node s = lookup s.local_id s.nodes

-- `Nodes`
unfoldable pub nodes : State → List Node
nodes s = values s.nodes

-- `NodesMetadata`
unfoldable pub nodes_metadata : State → List NodeMetadata
unfolding metadata
nodes_metadata s = map metadata (values s.nodes)

unfoldable pub is_active : NodeStatus → Bool
is_active active = true
is_active _ = false

-- The listeners of an endpoint; a missing one has 0.
unfoldable pub listeners : String → Map ℤ → ℤ
unfolding lookup
listeners id m = elim (lookup id m) [ none ↦ pos 0 | some n ↦ n ]

-- `listeners, ok := node.Endpoints[endpointID]; ok && listeners > 0`
unfoldable pub serves : String → Node → Bool
unfolding lookup above
serves id n = elim (lookup id n.endpoints) [ none ↦ false | some k ↦ above k 0 ]

-- What `LookupEndpoint` does not pass over.
unfoldable pub is_candidate : String → String → Node → Bool
unfolding is_active serves
is_candidate local_id id n = ite (same n.id local_id) false (is_active n.status && serves id n)

unfoldable pub find_candidate : String → String → List Node → Option Node
unfolding is_candidate
find_candidate local_id id [] = none
find_candidate local_id id (n ∷ ns) =
    if is_candidate local_id id n then some n else find_candidate local_id id ns

-- `LookupEndpoint`
unfoldable pub lookup_endpoint : String → State → Option Node
unfolding find_candidate
lookup_endpoint id s = find_candidate s.local_id id (values s.nodes)

-- The calls of the subscribers.
unfoldable pub notify_local : State → String → Effects
notify_local s id = map (λ f. local_update f id) s.local_subscribers

unfoldable pub notify_remote : State → String → String → Effects
notify_remote s node_id id = map (λ f. remote_update f node_id id) s.remote_subscribers

unfoldable pub set_endpoints : Node → Map ℤ → State → State
unfolding insert
set_endpoints n m s = record s { nodes = insert s.local_id (record n { endpoints = m }) s.nodes }

-- `AddLocalEndpoint`
unfoldable pub add_local_endpoint : String → State → Option (State × Effects)
unfolding lookup insert listeners inc_int set_endpoints notify_local
add_local_endpoint id s = elim (lookup s.local_id s.nodes) [
  | none ↦ none
  | some n ↦ some (
    set_endpoints n (insert id (inc_int (listeners id n.endpoints)) n.endpoints) s,
    notify_local s id,
  )
]

-- The endpoints with one listener less.
unfoldable pub drop_listener : String → ℤ → Map ℤ → Map ℤ
unfolding insert remove dec_int above
drop_listener id n m = if above n 1 then insert id (dec_int n) m else remove id m

-- The test `!ok || listeners == 0`.
unfoldable pub is_missing : Option ℤ → Bool
unfolding is_zero
is_missing none = true
is_missing (some n) = is_zero n

-- `RemoveLocalEndpoint`
unfoldable pub remove_local_endpoint : String → State → Option (State × Effects)
unfolding lookup listeners drop_listener is_missing set_endpoints notify_local
remove_local_endpoint id s = elim (lookup s.local_id s.nodes) [
  | none ↦ none
  | some n ↦
      if is_missing (lookup id n.endpoints)
      then some (s, [])
      else some (
        set_endpoints n (drop_listener id (listeners id n.endpoints) n.endpoints) s,
        notify_local s id,
      )
]

-- `LocalEndpointListeners`
unfoldable pub local_endpoint_listeners : String → State → Option ℤ
unfolding lookup listeners
local_endpoint_listeners id s =
    Option.map (λ n. listeners id n.endpoints) (lookup s.local_id s.nodes)

-- `OnLocalEndpointUpdate`
unfoldable pub on_local_endpoint_update : ℕ → State → State
on_local_endpoint_update f s = record s { local_subscribers = s.local_subscribers ++ f ∷ [] }

-- `OnRemoteEndpointUpdate`
unfoldable pub on_remote_endpoint_update : ℕ → State → State
on_remote_endpoint_update f s = record s { remote_subscribers = s.remote_subscribers ++ f ∷ [] }

-- `AddNode`
unfoldable pub add_node : Node → State → State × Effects
unfolding insert
add_node n s =
    ite (same n.id s.local_id) (s, [])
      (record s { nodes = insert n.id n s.nodes }, nodes_inc n.status ∷ [])

-- `RemoveNode`
unfoldable pub remove_node : String → State → Bool × State × Effects
unfolding lookup remove
remove_node id s =
    ite (same id s.local_id) (false, s, [])
      (elim (lookup id s.nodes) [
        | none ↦ (false, s, [])
        | some n ↦ (true, record s { nodes = remove id s.nodes }, nodes_dec n.status ∷ [])
      ])

-- `UpdateRemoteStatus`
unfoldable pub update_remote_status : String → NodeStatus → State → Bool × State × Effects
unfolding lookup insert
update_remote_status id status s =
    ite (same id s.local_id) (false, s, [])
      (elim (lookup id s.nodes) [
        | none ↦ (false, s, [])
        | some n ↦ (
          true,
          record s { nodes = insert id (record n { status = status }) s.nodes },
          nodes_dec n.status ∷ nodes_inc status ∷ [],
        )
      ])

-- `updateRemoteEndpointLocked` and `removeRemoteEndpointLocked`, by the change of the endpoints.
unfoldable pub change_remote_endpoints : String → (Map ℤ → Map ℤ) → State → Bool × State
unfolding lookup insert
change_remote_endpoints id change s =
    ite (same id s.local_id) (false, s)
      (elim (lookup id s.nodes) [
        | none ↦ (false, s)
        | some n ↦ (
          true,
          record s { nodes = insert id (record n { endpoints = change n.endpoints }) s.nodes },
        )
      ])

unfoldable pub notify_if : State → String → String → Bool × State → Bool × State × Effects
unfolding notify_remote
notify_if s node_id id (changed, s') =
    if changed then (true, s', notify_remote s node_id id) else (false, s, [])

-- `UpdateRemoteEndpoint`
unfoldable pub update_remote_endpoint : String → String → ℤ → State → Bool × State × Effects
unfolding change_remote_endpoints notify_if insert
update_remote_endpoint node_id id n s =
    notify_if s node_id id (change_remote_endpoints node_id (insert id n) s)

-- `RemoveRemoteEndpoint`
unfoldable pub remove_remote_endpoint : String → String → State → Bool × State × Effects
unfolding change_remote_endpoints notify_if remove
remove_remote_endpoint node_id id s =
    notify_if s node_id id (change_remote_endpoints node_id (remove id) s)

-- The loop of `AvgConns`: the connections and the number of the active nodes.
unfoldable pub count_conns : List Node → ℤ → ℕ → ℤ × ℕ
unfolding is_active sum_from
count_conns [] total count = (total, count)
count_conns (n ∷ ns) total count =
    let hit = is_active n.status in
    count_conns ns (if hit then sum_from total (values n.endpoints) else total)
      (if hit then count + 1 else count)

-- `AvgConns`; `none` is a division by zero.
unfoldable pub avg_conns : State → Option ℤ
unfolding count_conns quot
avg_conns s =
    let (total, count) = count_conns (values s.nodes) (pos 0) 0 in
    elim count [ zero ↦ none | suc k ↦ some (quot total (suc k)) ]
