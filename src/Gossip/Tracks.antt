-- ===== src/Gossip/Tracks.antt =====
-- When a node's copy of another node's state is a consistent snapshot of it, and what the owner
-- keeps of its own state.
pub mod Drop
pub mod Apply
pub mod Converge
use piko.Prelude.{ℕ, ◌≤◌, ◌<◌, String, ◌≡◌, ◌≢◌, ◌⊎◌, true, none, some, Map, lookup, IsMap}
use piko.Prelude.Text.{parse_uint}
use piko.Gossip.State.{Entry, NodeState, compact_key}
use piko.Gossip.Order.{Keyed, DistinctVersions}

-- The entry of a compaction: every other entry is newer than the version in its value.
pub record IsCompaction (m : Map Entry) (c : Entry) : Type 0 where
  pub discarded : ℕ
  pub internal : c.internal ≡ true
  pub reads : parse_uint c.value ≡ some discarded
  pub older : discarded < c.version
  pub others :
      (k : String) (e : Entry) → k ≢ compact_key → lookup k m ≡ some e → discarded < e.version

-- The state that a node has of itself.
pub record IsOwned (s : NodeState) : Type 0 where
  pub is_map : IsMap s.entries
  pub keyed : Keyed s.entries
  pub positive : (k : String) (e : Entry) → lookup k s.entries ≡ some e → 0 < e.version
  pub bounded :
      (k : String) (e : Entry) → lookup k s.entries ≡ some e → e.version ≤ s.metadata.version
  pub distinct : DistinctVersions s.entries
  pub latest :
      (s.metadata.version ≡ 0)
      ⊎ ((k : String) × (e : Entry) × (lookup k s.entries ≡ some e)
          × (e.version ≡ s.metadata.version))
  pub compacted : (c : Entry) → lookup compact_key s.entries ≡ some c → IsCompaction s.entries c

-- Why a copy may hold an entry: its owner has it too, has overwritten it since, or has dropped it in
-- a compaction since.
pub data Stale (s : NodeState) (v : ℕ) (k : String) (a : Entry) : Type 0 where
  current : lookup k s.entries ≡ some a → Stale s v k a
  overwritten : (e : Entry) → lookup k s.entries ≡ some e → v < e.version → Stale s v k a
  dropped :
      (c : Entry) (d : ℕ)
      → lookup compact_key s.entries ≡ some c
      → parse_uint c.value ≡ some d
      → v < c.version
      → a.version ≤ d
      → Stale s v k a

-- The copy `r` has all that its owner has up to the copy's version, and nothing else without reason.
pub record Tracks (r s : NodeState) : Type 0 where
  pub is_map : IsMap r.entries
  pub keyed : Keyed r.entries
  pub behind : r.metadata.version ≤ s.metadata.version
  pub has :
      (k : String) (e : Entry)
      → lookup k s.entries ≡ some e
      → e.version ≤ r.metadata.version
      → lookup k r.entries ≡ some e
  pub bounded :
      (k : String) (a : Entry) → lookup k r.entries ≡ some a → a.version ≤ r.metadata.version
  pub stale :
      (k : String) (a : Entry) → lookup k r.entries ≡ some a → Stale s r.metadata.version k a
