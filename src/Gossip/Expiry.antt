-- ===== src/Gossip/Expiry.antt =====
-- pkg/gossip/state.go: the removal of expired nodes, and the liveness of nodes.
pub mod Removal
use piko.Prelude.{
  ℕ, ◌+◌, String, Bool, true, false, not, ◌&&◌, ◌||◌, List, [], ◌∷◌, ◌++◌, map, Map, insert, remove,
  values, keep, ltb, ◌==◌, if◌then◌else◌,
}
use piko.Gossip.State.{
  NodeState, ClusterState, Effect, Effects, on_expired, on_reachable, on_unreachable, gauge_clear,
  detector_remove, node_expiry, node_tombstone_expiry,
}
use piko.Gossip.Local.{is_same}

-- The tombstones that stay: those not older than their expiry.
unfoldable pub keep_tombstones : ℕ → Map ℕ → Map ℕ
keep_tombstones t = keep (λ e. not (ltb (e.1 + node_tombstone_expiry) t))

-- `!state.Expiry.IsZero() && t.After(state.Expiry)`
unfoldable pub is_expired : ℕ → NodeState → Bool
is_expired t n = not (n.metadata.expiry == 0) && ltb n.metadata.expiry t

unfoldable pub expired_ids : ℕ → Map NodeState → List String
unfolding is_expired
expired_ids t m = map (λ n. n.metadata.id) (keep (is_expired t) (values m))

-- The loop over the nodes to remove.
unfoldable pub expire : ℕ → List String → ClusterState → ClusterState × Effects
unfolding remove insert
expire t [] s = (s, [])
expire t (id ∷ ids) s =
    let r : ClusterState × Effects =
      expire t ids
        (record s { nodes = remove id s.nodes; tombstones = insert id t s.tombstones }) in
    (r.0, gauge_clear id ∷ on_expired id ∷ detector_remove id ∷ r.1)

-- `RemoveExpiredAt`; `RemoveExpired` is this at the time of the clock.
unfoldable pub remove_expired_at : ℕ → ClusterState → ClusterState × Effects
unfolding keep_tombstones expired_ids expire
remove_expired_at t s =
    expire t (expired_ids t s.nodes) (record s { tombstones = keep_tombstones t s.tombstones })

-- The body of the loop of `UpdateLiveness`, given whether the failure detector's level for the node
-- is above the threshold.
unfoldable pub update_node : String → (String → Bool) → ℕ → NodeState → NodeState × Effects
update_node local_id suspicious now n =
    if is_same n.metadata.id local_id || n.metadata.left
    then (n, [])
    else if suspicious n.metadata.id
    then (if n.metadata.unreachable then (n, []) else (
      record n { metadata = record n.metadata { unreachable = true; expiry = now + node_expiry } },
      on_unreachable n.metadata.id ∷ [],
    ))
    else if n.metadata.unreachable
    then (
      record n { metadata = record n.metadata { unreachable = false; expiry = 0 } },
      on_reachable n.metadata.id ∷ [],
    )
    else (n, [])

unfoldable pub update_nodes : String → (String → Bool) → ℕ → Map NodeState → Map NodeState × Effects
unfolding update_node
update_nodes local_id suspicious now [] = ([], [])
update_nodes local_id suspicious now ((k, n) ∷ m) =
    let r : NodeState × Effects = update_node local_id suspicious now n in
    let rest : Map NodeState × Effects = update_nodes local_id suspicious now m in
    ((k, r.0) ∷ rest.0, r.1 ++ rest.1)

-- `UpdateLiveness`
unfoldable pub update_liveness : (String → Bool) → ℕ → ClusterState → ClusterState × Effects
unfolding update_nodes
update_liveness suspicious now s =
    let r : Map NodeState × Effects = update_nodes s.local_id suspicious now s.nodes in
    (record s { nodes = r.0 }, r.1)
