-- ===== src/Gossip/Compact.antt =====
-- pkg/gossip/state.go: `CompactLocal`. `none` is a panic, the index of an empty list of entries.
use mathlib.Core.Option
use piko.Prelude.{
  ℕ, String, Bool, true, false, ◌&&◌, ◌||◌, Option, none, some, List, [], ◌∷◌, ◌++◌, Map, insert,
  values, length, keep, ltb, if◌then◌else◌,
}
use piko.Prelude.Text.{format_uint}
use piko.Gossip.State.{
  Entry, NodeState, ClusterState, Effects, gauge_clear, compact_key, bump, metrics_add_entry,
  sort_by_version,
}
use piko.Gossip.Local.{is_same, on_local}

-- `entries[len(entries)-1]`
unfoldable pub last : List Entry → Option Entry
last [] = none
last (e ∷ []) = some e
last (e ∷ x ∷ xs) = last (x ∷ xs)

-- The number of deleted entries.
unfoldable pub deleted_total : List Entry → ℕ
deleted_total es = length (keep (λ e. e.deleted) es)

-- The entries that a compaction drops: deleted keys and earlier compactions.
unfoldable pub is_discarded : Entry → Bool
is_discarded e = e.deleted || (e.internal && is_same e.key compact_key)

-- The re-versioning loop, from the version and the entries so far.
unfoldable pub reversion : String → List Entry → ℕ → Map Entry → ℕ × Map Entry × Effects
unfolding is_discarded bump insert metrics_add_entry
reversion id [] v m = (v, m, [])
reversion id (e ∷ es) v m = elim (is_discarded e) [
  | true ↦ reversion id es v m
  | false ↦
      let e' : Entry = record e { version = bump v } in
      let r : ℕ × Map Entry × Effects = reversion id es (bump v) (insert e.key e' m) in
      (r.0, r.1, metrics_add_entry id e' ++ r.2)
]

-- The entry that tells other nodes what they may drop.
unfoldable pub compact_entry : ℕ → ℕ → Entry
compact_entry compact_version v = record {
  key = compact_key;
  value = format_uint compact_version;
  version = v;
  internal = true;
  deleted = false;
}

-- The body of `CompactLocal` once the threshold is met, with the last version before it.
unfoldable pub compact_from : NodeState → List Entry → ℕ → NodeState × Effects
unfolding reversion compact_entry
compact_from n es compact_version =
    let r : ℕ × Map Entry × Effects = reversion n.metadata.id es n.metadata.version [] in
    let c : Entry = compact_entry compact_version (bump r.0) in
    (
      record {
        metadata = record n.metadata { version = c.version };
        entries = insert compact_key c r.1;
      },
      gauge_clear n.metadata.id ∷ r.2 ++ metrics_add_entry n.metadata.id c,
    )

unfoldable pub compact_node : ℕ → NodeState → Option (NodeState × Effects)
unfolding last deleted_total compact_from sort_by_version
compact_node threshold n =
    let es : List Entry = sort_by_version (values n.entries) in
    if ltb (deleted_total (values n.entries)) threshold
    then some (n, [])
    else Option.map (λ e. compact_from n es e.version) (last es)

-- `CompactLocal`
unfoldable pub compact_local : ℕ → ClusterState → Option (ClusterState × Effects)
unfolding on_local compact_node
compact_local threshold = on_local (compact_node threshold)
