-- ===== src/Gossip/Remote.antt =====
-- pkg/gossip/state.go: what a node learns of other nodes, `ApplyDigest` and `ApplyDelta`.
-- `now` is the clock, read once in a call.
pub mod Safety
pub mod Versions
pub mod Tombstones
pub mod Rediscovery
use piko.Prelude.{
  ℕ, ◌+◌, String, Bool, true, false, Option, none, some, List, [], ◌∷◌, ◌++◌, Map, lookup, insert,
  remove, values, leb, same, ite, if◌then◌else◌,
}
use piko.Prelude.Text.{parse_uint}
use piko.Gossip.State.{
  Entry, NodeState, DigestEntry, DeltaEntry, ClusterState, Effect, Effects, on_join, on_leave,
  on_upsert_key, on_delete_key, left_key, compact_key, node_expiry, new_node, entry_at,
  metrics_delete_entry, metrics_upsert_entry,
}
use piko.Gossip.Local.{put_entry}

-- `tombstoned`: whether the node must not be rediscovered from this sender. A node discards its own
-- tombstone.
unfoldable pub tombstoned : ClusterState → String → String → Bool × ClusterState
unfolding lookup remove
tombstoned s node_id sender_id = elim (lookup node_id s.tombstones) [
  | none ↦ (false, s)
  | some removed_at ↦
      ite (same node_id sender_id) (false, record s { tombstones = remove node_id s.tombstones })
        (true, s)
]

-- Adds a node with no entries, and tells the watcher.
unfoldable pub discover : String → String → ClusterState → ClusterState
unfolding insert new_node
discover id addr s = record s { nodes = insert id (new_node id addr) s.nodes }

-- A round of the loop of `ApplyDigest`.
unfoldable pub apply_digest_entry : String → DigestEntry → ClusterState → ClusterState × Effects
unfolding tombstoned discover lookup
apply_digest_entry sender_id e s = elim (lookup e.id s.nodes) [
  | some known ↦ (s, [])
  | none ↦
      if e.left
      then (s, [])
      else (let t : Bool × ClusterState = tombstoned s e.id sender_id in
          if t.0 then (t.1, []) else (discover e.id e.addr t.1, on_join e.id ∷ []))
]

-- `ApplyDigest`
unfoldable pub apply_digest : String → List DigestEntry → ClusterState → ClusterState × Effects
unfolding apply_digest_entry
apply_digest sender_id [] s = (s, [])
apply_digest sender_id (e ∷ d) s =
    let (s', fx) = apply_digest_entry sender_id e s in
    let (s'', gx) = apply_digest sender_id d s' in (s'', fx ++ gx)

-- The loop of a compaction, over the entries of the node.
unfoldable pub notify_dropped : String → Entry → Effects
notify_dropped id e = if e.deleted then [] else on_delete_key id e.key ∷ []

unfoldable pub drop_compacted : String → String → ℕ → List Entry → Map Entry → Map Entry × Effects
unfolding remove metrics_delete_entry notify_dropped
drop_compacted id state_id v [] m = (m, [])
drop_compacted id state_id v (e ∷ es) m = elim (leb e.version v) [
  | true ↦
      let r : Map Entry × Effects = drop_compacted id state_id v es (remove e.key m) in
      (r.0, metrics_delete_entry state_id e ++ notify_dropped id e ++ r.1)
  | false ↦ drop_compacted id state_id v es m
]

-- What a round of the loop of `applyDeltaEntry` leaves; `stop` is an early return.
pub record Applied : Type 0 where
  pub state : NodeState
  pub effects : Effects
  pub stop : Bool

-- The node left.
unfoldable pub apply_left : String → ℕ → NodeState → Effects → Applied
apply_left id now n fx = record {
  state = record n { metadata = record n.metadata { left = true; expiry = now + node_expiry } };
  effects = fx ++ on_leave id ∷ [];
  stop = false;
}

-- The node compacted its entries up to the version in the value.
unfoldable pub apply_compact : String → Option ℕ → NodeState → Effects → Applied
unfolding drop_compacted
apply_compact id none n fx = record { state = n; effects = fx; stop = true }
apply_compact id (some v) n fx =
    let r : Map Entry × Effects = drop_compacted id n.metadata.id v (values n.entries) n.entries in
    record { state = record n { entries = r.0 }; effects = fx ++ r.1; stop = false }

-- What follows the write of an entry.
unfoldable pub apply_kind : String → ℕ → Entry → NodeState → Effects → Applied
unfolding apply_left apply_compact
apply_kind id now e n fx =
    if e.internal
    then ite (same e.key left_key) (apply_left id now n fx) (
        ite (same e.key compact_key) (apply_compact id (parse_uint e.value) n fx)
          (record { state = n; effects = fx; stop = false }))
    else if e.deleted
    then record { state = n; effects = fx ++ on_delete_key id e.key ∷ []; stop = false }
    else record { state = n; effects = fx ++ on_upsert_key id e.key e.value ∷ []; stop = false }

-- A round of the loop: an entry of a version that is not newer is discarded.
unfoldable pub apply_entry : String → ℕ → Entry → NodeState → Applied
unfolding put_entry apply_kind entry_at metrics_upsert_entry
apply_entry id now e n =
    if leb e.version n.metadata.version
    then record { state = n; effects = []; stop = false }
    else apply_kind id now e (put_entry n e)
        (metrics_upsert_entry n.metadata.id e (entry_at e.key n.entries))

unfoldable pub apply_entries : String → ℕ → List Entry → NodeState → NodeState × Effects
unfolding apply_entry
apply_entries id now [] n = (n, [])
apply_entries id now (e ∷ es) n =
    let a : Applied = apply_entry id now e n in
    elim a.stop [
      | true ↦ (a.state, a.effects)
      | false ↦
          let r : NodeState × Effects = apply_entries id now es a.state in (r.0, a.effects ++ r.1)
    ]

-- The end of `applyDeltaEntry`, on the state of the node.
unfoldable pub apply_to : ℕ → DeltaEntry → NodeState → ClusterState → ClusterState × Effects
unfolding apply_entries insert
apply_to now d n s =
    let r : NodeState × Effects = apply_entries d.id now d.entries n in
    (record s { nodes = insert d.id r.0 s.nodes }, r.1)

-- `applyDeltaEntry`
unfoldable pub apply_delta_entry : String → ℕ → DeltaEntry → ClusterState → ClusterState × Effects
unfolding apply_to tombstoned discover lookup new_node
apply_delta_entry sender_id now d s =
    ite (same d.id s.local_id) (s, [])
      (elim (lookup d.id s.nodes) [
        | some n ↦ apply_to now d n s
        | none ↦
            let t : Bool × ClusterState = tombstoned s d.id sender_id in
            if t.0
            then (t.1, [])
            else (let r : ClusterState × Effects =
                  apply_to now d (new_node d.id d.addr) (discover d.id d.addr t.1) in
                (r.0, on_join d.id ∷ r.1))
      ])

-- `ApplyDelta`
unfoldable pub apply_delta : String → ℕ → List DeltaEntry → ClusterState → ClusterState × Effects
unfolding apply_delta_entry
apply_delta sender_id now [] s = (s, [])
apply_delta sender_id now (e ∷ d) s =
    let (s', fx) = apply_delta_entry sender_id now e s in
    let (s'', gx) = apply_delta sender_id now d s' in (s'', fx ++ gx)
