-- ===== src/Gossip/State.antt =====
-- pkg/gossip/state.go: the types, the effects on other parts, and the entry helpers.
use piko.Prelude.{
  ℕ, ◌+◌, ◌*◌, ◌%◌, ◌^◌, String, Bool, false, none, some, List, [], ◌∷◌, ◌++◌, Map, lookup, insert,
  values, length, leb, same, ite, if◌then◌else◌,
}

abbrev pub left_key : String
left_key = "_internal:left"

abbrev pub compact_key : String
compact_key = "_internal:compact"

-- Times and durations are in nanoseconds; time 0 is the zero time, which no clock shows.
abbrev pub node_expiry : ℕ
node_expiry = 60 * 1000000000

abbrev pub node_tombstone_expiry : ℕ
node_tombstone_expiry = node_expiry * 2

pub record Entry : Type 0 where
  pub key : String
  pub value : String
  pub version : ℕ
  pub internal : Bool
  pub deleted : Bool

abbrev pub zero_entry : Entry
zero_entry = record { key = ""; value = ""; version = 0; internal = false; deleted = false }

pub record NodeMetadata : Type 0 where
  pub id : String
  pub addr : String
  pub version : ℕ
  pub left : Bool
  pub unreachable : Bool
  pub expiry : ℕ

-- `nodeState`; its entries are keyed by the entry's key.
pub record NodeState : Type 0 where
  pub metadata : NodeMetadata
  pub entries : Map Entry

-- `NodeState`, the exported form, whose entries are in order of version.
pub record NodeView : Type 0 where
  pub metadata : NodeMetadata
  pub entries : List Entry

pub record DigestEntry : Type 0 where
  pub id : String
  pub addr : String
  pub version : ℕ
  pub left : Bool

pub record DeltaEntry : Type 0 where
  pub id : String
  pub addr : String
  pub entries : List Entry

-- `delta.EntriesTotal`
unfoldable pub entries_total : List DeltaEntry → ℕ
entries_total [] = 0
entries_total (e ∷ d) = length e.entries + entries_total d

-- `clusterState`. The watcher, the metrics and the failure detector are reached by effects.
pub record ClusterState : Type 0 where
  pub local_id : String
  pub nodes : Map NodeState
  pub tombstones : Map ℕ

-- The calls that the state makes of the watcher, of the entry gauge and of the failure detector, in
-- order. A gauge is named by its labels: node, internal, deleted.
pub data Effect : Type 0 where
  on_join on_leave on_reachable on_unreachable on_expired : String → Effect
  on_upsert_key : String → String → String → Effect
  on_delete_key : String → String → Effect
  gauge_inc gauge_dec : String → Bool → Bool → Effect
  gauge_clear : String → Effect
  detector_remove : String → Effect

-- A method that returns the new state with its effects.
abbrev pub Effects : Type 0
Effects = List Effect

-- A node that has just been discovered.
unfoldable pub new_node : String → String → NodeState
new_node id addr = record {
  metadata = record {
    id = id;
    addr = addr;
    version = 0;
    left = false;
    unreachable = false;
    expiry = 0;
  };
  entries = [];
}

-- `newClusterState`
unfoldable pub new_cluster_state : String → String → ClusterState
unfolding insert new_node
new_cluster_state local_id local_addr = record {
  local_id = local_id;
  nodes = insert local_id (new_node local_id local_addr) [];
  tombstones = [];
}

-- The entry of a key, or the zero entry.
unfoldable pub entry_at : String → Map Entry → Entry
entry_at k m = elim (lookup k m) [ none ↦ zero_entry | some e ↦ e ]

-- version++ in uint64
unfoldable pub bump : ℕ → ℕ
bump v = (v + 1) % 2 ^ 64

-- `metricsAddEntry`, `metricsDeleteEntry` and `metricsUpsertEntry`
unfoldable pub metrics_add_entry : String → Entry → Effects
metrics_add_entry id e = gauge_inc id e.internal e.deleted ∷ []

unfoldable pub metrics_delete_entry : String → Entry → Effects
metrics_delete_entry id e = gauge_dec id e.internal e.deleted ∷ []

unfoldable pub metrics_upsert_entry : String → Entry → Entry → Effects
unfolding metrics_add_entry metrics_delete_entry
metrics_upsert_entry id e existing =
    ite (same existing.key "") [] (metrics_delete_entry id existing) ++ metrics_add_entry id e

-- sort.Slice by version. It is not stable, which shows only between entries of one version.
unfoldable pub insert_by_version : Entry → List Entry → List Entry
insert_by_version e [] = e ∷ []
insert_by_version e (x ∷ xs) =
    if leb e.version x.version then e ∷ x ∷ xs else x ∷ insert_by_version e xs

unfoldable pub sort_by_version : List Entry → List Entry
unfolding insert_by_version
sort_by_version [] = []
sort_by_version (e ∷ es) = insert_by_version e (sort_by_version es)

-- `ToNodeState`
unfoldable pub to_node_state : NodeState → NodeView
unfolding sort_by_version
to_node_state s = record { metadata = s.metadata; entries = sort_by_version (values s.entries) }
