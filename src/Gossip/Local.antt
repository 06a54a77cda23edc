-- ===== src/Gossip/Local.antt =====
-- pkg/gossip/state.go: the queries of the cluster state and the updates of the local node.
-- `none` is a panic: a nil dereference or an index out of range.
use mathlib.Core.Option
pub mod Deleted
use piko.Prelude.{
  ℕ, zero, suc, ◌+◌, String, Bool, true, false, not, ◌&&◌, ◌||◌, Option, none, some, List, [], ◌∷◌,
  ◌++◌, map, Map, lookup, insert, values, length, keep, ltb, leb, same, ite, if◌then◌else◌,
}
use piko.Prelude.Text.{format_uint}
use piko.Gossip.State.{
  Entry, NodeMetadata, NodeState, NodeView, ClusterState, Effect, Effects, gauge_clear, left_key,
  compact_key, entry_at, bump, metrics_add_entry, metrics_upsert_entry, sort_by_version,
  to_node_state,
}

-- The equality of texts as a test.
abbrev pub is_same : String → String → Bool
is_same s t = ite (same s t) true false

-- `Node`
unfoldable pub node : ClusterState → String → Option NodeView
unfolding lookup to_node_state
node s id = Option.map to_node_state (lookup id s.nodes)

-- `LocalNodeMetadata`
unfoldable pub local_node_metadata : ClusterState → Option NodeMetadata
unfolding lookup
local_node_metadata s = Option.map (λ n. n.metadata) (lookup s.local_id s.nodes)

-- `LocalNode`
unfoldable pub local_node : ClusterState → Option NodeView
unfolding lookup to_node_state
local_node s = Option.map to_node_state (lookup s.local_id s.nodes)

-- `Nodes`
unfoldable pub nodes : ClusterState → List NodeMetadata
nodes s = map (λ n. n.metadata) (values s.nodes)

-- The tests of the loops of `LiveNodes` and `UnreachableNodes`.
unfoldable pub is_live : String → NodeState → Bool
is_live local_id n =
    not (is_same n.metadata.id local_id) && not (n.metadata.unreachable || n.metadata.left)

unfoldable pub is_unreachable : String → NodeState → Bool
is_unreachable local_id n = not (is_same n.metadata.id local_id) && n.metadata.unreachable

-- `LiveNodes`
unfoldable pub live_nodes : ClusterState → List NodeMetadata
unfolding is_live
live_nodes s = map (λ n. n.metadata) (keep (is_live s.local_id) (values s.nodes))

-- `UnreachableNodes`
unfoldable pub unreachable_nodes : ClusterState → List NodeMetadata
unfolding is_unreachable
unreachable_nodes s = map (λ n. n.metadata) (keep (is_unreachable s.local_id) (values s.nodes))

-- Runs a body on the local node, which it replaces.
unfoldable pub on_local :
    (NodeState → Option (NodeState × Effects)) → ClusterState → Option (ClusterState × Effects)
unfolding lookup insert
on_local body s = elim (lookup s.local_id s.nodes) [
  | none ↦ none
  | some n ↦ Option.map (λ r. (record s { nodes = insert s.local_id r.0 s.nodes }, r.1)) (body n)
]

-- The new entry of the node, under its next version.
unfoldable pub put_entry : NodeState → Entry → NodeState
unfolding insert
put_entry n e = record n {
  metadata = record n.metadata { version = e.version };
  entries = insert e.key e n.entries;
}

unfoldable pub write_entry : NodeState → Entry → NodeState × Effects
unfolding put_entry metrics_upsert_entry entry_at
write_entry n e = (put_entry n e, metrics_upsert_entry n.metadata.id e (entry_at e.key n.entries))

-- The body of `UpsertLocal`.
unfoldable pub upsert_node : String → String → NodeState → NodeState × Effects
unfolding write_entry bump lookup
upsert_node key value n =
    let new : Entry = record {
      key = key;
      value = value;
      version = bump n.metadata.version;
      internal = false;
      deleted = false;
    } in
    elim (lookup key n.entries) [
      | none ↦ write_entry n new
      | some existing ↦ ite (same existing.value value) (n, []) (write_entry n new)
    ]

-- `UpsertLocal`
unfoldable pub upsert_local : String → String → ClusterState → Option (ClusterState × Effects)
unfolding on_local upsert_node
upsert_local key value = on_local (λ n. some (upsert_node key value n))

-- The body of `DeleteLocal`. The new entry is stored under the key of the call and has the key of
-- the existing entry.
unfoldable pub delete_node : String → NodeState → NodeState × Effects
unfolding insert bump lookup metrics_upsert_entry
delete_node key n = elim (lookup key n.entries) [
  | none ↦ (n, [])
  | some existing ↦
      let new : Entry = record {
        key = existing.key;
        value = "";
        version = bump n.metadata.version;
        internal = existing.internal;
        deleted = true;
      } in
      if existing.deleted then (n, []) else (
        record n {
          metadata = record n.metadata { version = new.version };
          entries = insert key new n.entries;
        },
        metrics_upsert_entry n.metadata.id new existing,
      )
]

-- `DeleteLocal`
unfoldable pub delete_local : String → ClusterState → Option (ClusterState × Effects)
unfolding on_local delete_node
delete_local key = on_local (λ n. some (delete_node key n))

-- The body of `LeaveLocal`.
unfoldable pub leave_node : NodeState → NodeState × Effects
unfolding insert bump metrics_add_entry
leave_node n =
    let new : Entry = record {
      key = left_key;
      value = "";
      version = bump n.metadata.version;
      internal = true;
      deleted = false;
    } in
    if n.metadata.left then (n, []) else (
      record {
        metadata = record n.metadata { left = true; version = new.version };
        entries = insert left_key new n.entries;
      },
      metrics_add_entry n.metadata.id new,
    )

-- `LeaveLocal`
unfoldable pub leave_local : ClusterState → Option (ClusterState × Effects)
unfolding on_local leave_node
leave_local = on_local (λ n. some (leave_node n))
