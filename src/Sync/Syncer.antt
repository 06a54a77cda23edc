-- ===== src/Sync/Syncer.antt =====
-- server/gossip/syncer.go: the watcher of the gossip state, and the publisher of the local node.
-- A call of the gossiper is an effect; the log lines are left out.
pub mod Watch
pub mod Pending
pub mod Watched
pub mod Published
use Prim.Native.String
use mathlib.Core.Option
use piko.Prelude.{
  ℕ, String, Bool, true, false, not, ◌&&◌, ◌||◌, Option, none, some, List, [], ◌∷◌, ◌++◌, map, Map,
  lookup, insert, remove, same, ite, if◌then◌else◌,
}
use piko.Prelude.Int.{ℤ, above}
use piko.Prelude.Text.{cut_prefix, itoa, atoi}
use piko.Cluster.State
use piko.Cluster.State.{State, Node, NodeStatus, unset, active, unreachable, left, Effects}

pub record Syncer : Type 0 where
  pub pending_nodes : Map Node
  pub cluster : State

-- The calls of the gossiper.
pub data Publish : Type 0 where
  upsert_local : String → String → Publish
  delete_local : String → Publish

abbrev pub proxy_addr_key : String
proxy_addr_key = "proxy_addr"

abbrev pub admin_addr_key : String
admin_addr_key = "admin_addr"

abbrev pub endpoint_prefix : String
endpoint_prefix = "endpoint:"

unfoldable pub endpoint_key : String → String
endpoint_key id = String.◌++◌ endpoint_prefix id

-- `newSyncer`
unfoldable pub new_syncer : State → Syncer
new_syncer c = record { pending_nodes = []; cluster = c }

unfoldable pub publish_endpoints : Map ℤ → List Publish
unfolding endpoint_key
publish_endpoints [] = []
publish_endpoints ((id, n) ∷ m) = upsert_local (endpoint_key id) (itoa n) ∷ publish_endpoints m

-- `Sync`; the syncer subscribes under this number, and `none` is the panic of `LocalNode`.
unfoldable pub sync : ℕ → Syncer → Option (Syncer × List Publish)
unfolding State.on_local_endpoint_update State.local_node publish_endpoints
sync f s =
    Option.map
      (λ n. (
        record s { cluster = State.on_local_endpoint_update f s.cluster },
        upsert_local proxy_addr_key n.proxy_addr
            ∷ upsert_local admin_addr_key n.admin_addr
            ∷ publish_endpoints n.endpoints,
      ))
      (State.local_node s.cluster)

-- `onLocalEndpointUpdate`
unfoldable pub publish_endpoint : String → ℤ → Publish
unfolding endpoint_key above
publish_endpoint id n =
    if above n 0 then upsert_local (endpoint_key id) (itoa n) else delete_local (endpoint_key id)

unfoldable pub on_local_update : String → Syncer → Option Publish
unfolding State.local_endpoint_listeners publish_endpoint
on_local_update id s =
    Option.map (publish_endpoint id) (State.local_endpoint_listeners id s.cluster)

-- A node of which only the name is known.
unfoldable pub pending_node : String → Node
pending_node id = record {
  id = id;
  status = unset;
  proxy_addr = "";
  admin_addr = "";
  endpoints = [];
}

-- `OnJoin`
unfoldable pub on_join : String → Syncer → Syncer
unfolding State.node lookup insert pending_node
on_join id s = ite (same id s.cluster.local_id) s (elim (State.node s.cluster id) [
  | some n ↦ s
  | none ↦ elim (lookup id s.pending_nodes) [
    | some n ↦ s
    | none ↦ record s { pending_nodes = insert id (pending_node id) s.pending_nodes }
  ]
])

-- What a handler leaves where the cluster state has made a change or not.
unfoldable pub with_cluster : Syncer → Bool × State × Effects → (Syncer → Syncer) → Syncer × Effects
with_cluster s (changed, c, fx) otherwise =
    if changed then (record s { cluster = c }, fx) else (otherwise s, [])

unfoldable pub drop_pending : String → Syncer → Syncer
unfolding remove
drop_pending id s = record s { pending_nodes = remove id s.pending_nodes }

-- A change of a pending node; one that is unknown is logged.
unfoldable pub change_pending : String → (Node → Node) → Syncer → Syncer
unfolding lookup insert
change_pending id change s = elim (lookup id s.pending_nodes) [
  | none ↦ s
  | some n ↦ record s { pending_nodes = insert id (change n) s.pending_nodes }
]

-- `OnLeave`
unfoldable pub on_leave : String → Syncer → Syncer × Effects
unfolding with_cluster drop_pending State.update_remote_status
on_leave id s =
    ite (same id s.cluster.local_id) (s, [])
      (with_cluster s (State.update_remote_status id left s.cluster) (drop_pending id))

-- `OnReachable`
unfoldable pub on_reachable : String → Syncer → Syncer × Effects
unfolding with_cluster change_pending State.update_remote_status
on_reachable id s =
    ite (same id s.cluster.local_id) (s, [])
      (with_cluster s (State.update_remote_status id active s.cluster)
        (change_pending id (λ n. record n { status = active })))

-- `OnUnreachable`
unfoldable pub on_unreachable : String → Syncer → Syncer × Effects
unfolding with_cluster change_pending State.update_remote_status
on_unreachable id s =
    ite (same id s.cluster.local_id) (s, [])
      (with_cluster s (State.update_remote_status id unreachable s.cluster)
        (change_pending id (λ n. record n { status = unreachable })))

-- `OnExpired`
unfoldable pub on_expired : String → Syncer → Syncer × Effects
unfolding with_cluster drop_pending State.remove_node
on_expired id s =
    ite (same id s.cluster.local_id) (s, [])
      (with_cluster s (State.remove_node id s.cluster) (drop_pending id))

-- The update of a pending node by a key: `none` is an error that ends the handler.
unfoldable pub set_endpoint : String → Option ℤ → Node → Option Node
unfolding insert
set_endpoint id none n = none
set_endpoint id (some k) n = some (record n { endpoints = insert id k n.endpoints })

unfoldable pub set_key : String → String → Node → Option Node
unfolding set_endpoint
set_key key value n = ite (same key proxy_addr_key) (some (record n { proxy_addr = value })) (
    ite (same key admin_addr_key) (some (record n { admin_addr = value }))
      (elim (cut_prefix endpoint_prefix key) [
        | some id ↦ set_endpoint id (atoi value) n
        | none ↦ none
      ]))

-- Both addresses are there.
unfoldable pub is_complete : Node → Bool
is_complete n = ite (same n.proxy_addr "") false (ite (same n.admin_addr "") false true)

unfoldable pub activate : Node → Node
activate n = elim n.status [ unset ↦ record n { status = active } | _ ↦ n ]

-- The end of `OnUpsertKey`: a complete node goes over into the cluster.
unfoldable pub settle : String → Node → Syncer → Syncer × Effects
unfolding remove insert
settle id n s =
    if is_complete n
    then (let r : State × Effects = State.add_node (activate n) s.cluster in
        (record { pending_nodes = remove n.id s.pending_nodes; cluster = r.0 }, r.1))
    else (record s { pending_nodes = insert id n s.pending_nodes }, [])

-- The second half of `OnUpsertKey`, on the pending nodes.
unfoldable pub upsert_pending : String → String → String → Syncer → Syncer × Effects
unfolding lookup set_key settle
upsert_pending id key value s = elim (lookup id s.pending_nodes) [
  | none ↦ (s, [])
  | some n ↦ elim (set_key key value n) [ none ↦ (s, []) | some n' ↦ settle id n' s ]
]

-- The first half, on the cluster; `none` where the handler goes on with the pending nodes.
unfoldable pub is_known : Option Node → Bool
is_known none = false
is_known (some n) = true

unfoldable pub is_address_key : String → Bool
is_address_key key = ite (same key proxy_addr_key) true (ite (same key admin_addr_key) true false)

unfoldable pub upsert_endpoint :
    String → String → Option ℤ → String → String → Syncer → Syncer × Effects
unfolding with_cluster State.update_remote_endpoint upsert_pending
upsert_endpoint id endpoint_id none key value s = (s, [])
upsert_endpoint id endpoint_id (some n) key value s =
    let r : Bool × State × Effects = State.update_remote_endpoint id endpoint_id n s.cluster in
    if r.0 then (record s { cluster = r.1 }, r.2) else upsert_pending id key value s

-- `OnUpsertKey`
unfoldable pub on_upsert_key : String → String → String → Syncer → Syncer × Effects
unfolding is_address_key is_known State.node upsert_endpoint upsert_pending
on_upsert_key id key value s =
    ite (same id s.cluster.local_id) (s, [])
      (if is_address_key key && is_known (State.node s.cluster id)
        then (s, [])
        else elim (cut_prefix endpoint_prefix key) [
          | some endpoint_id ↦ upsert_endpoint id endpoint_id (atoi value) key value s
          | none ↦ upsert_pending id key value s
        ])

-- `OnDeleteKey`
unfoldable pub drop_endpoint : String → Node → Node
unfolding remove
drop_endpoint id n = record n { endpoints = remove id n.endpoints }

unfoldable pub on_delete_key : String → String → Syncer → Syncer × Effects
unfolding with_cluster change_pending drop_endpoint State.remove_remote_endpoint
on_delete_key id key s =
    ite (same id s.cluster.local_id) (s, [])
      (elim (cut_prefix endpoint_prefix key) [
        | none ↦ (s, [])
        | some endpoint_id ↦
            with_cluster s (State.remove_remote_endpoint id endpoint_id s.cluster)
              (change_pending id (drop_endpoint endpoint_id))
      ])
