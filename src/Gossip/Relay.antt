-- ===== src/Gossip/Relay.antt =====
-- Copies of one owner's state that also pass on to each other what they know of it.
pub mod Next
pub mod Apply
pub mod Whole
pub mod Grows
pub mod Net
use piko.Prelude.{ℕ, ◌≤◌, ◌<◌, String, ◌≡◌, ◌⊎◌, true, some, List, lookup}
use piko.Prelude.Text.{parse_uint}
use piko.Gossip.State.{Entry, NodeState, compact_key}
use piko.Gossip.Order.{In, Ascending, DistinctVersions}
use piko.Gossip.Tracks.{Tracks, Stale}

-- A compaction of the owner, its last one or one before that.
pub record IsMarker (s : NodeState) (v : ℕ) (e : Entry) : Type 0 where
  pub discarded : ℕ
  pub internal : e.internal ≡ true
  pub reads : parse_uint e.value ≡ some discarded
  pub older : discarded < e.version
  pub place :
      (lookup compact_key s.entries ≡ some e)
      ⊎ ((c : Entry) × (d : ℕ) × (lookup compact_key s.entries ≡ some c)
          × (parse_uint c.value ≡ some d)
          × (v < c.version)
          × (e.version ≤ d))

-- An entry that the owner had at its version `v`, or dropped or overwrote later.
pub record Known (s : NodeState) (v : ℕ) (e : Entry) : Type 0 where
  pub stale : Stale s v e.key e
  pub marker : e.key ≡ compact_key → IsMarker s v e

-- A copy that others may be told of: a snapshot, with a compaction as the owner made it, and with the
-- entry of its own version.
pub record IsCopy (r s : NodeState) : Type 0 where
  pub tracks : Tracks r s
  pub distinct : DistinctVersions r.entries
  pub marked : (a : Entry) → lookup compact_key r.entries ≡ some a → IsMarker s r.metadata.version a
  pub latest :
      (r.metadata.version ≡ 0)
      ⊎ ((k : String) × (a : Entry) × (lookup k r.entries ≡ some a)
          × (a.version ≡ r.metadata.version))

-- Entries that hold all that the owner has from one version to another, and the entry of the latter.
pub record Parcel (s : NodeState) (from upto : ℕ) (es : List Entry) : Type 0 where
  pub ascending : Ascending from es
  pub known : (e : Entry) → In e es → Known s upto e
  pub bounded : (e : Entry) → In e es → e.version ≤ upto
  pub complete :
      (k : String) (e : Entry)
      → lookup k s.entries ≡ some e
      → from < e.version
      → e.version ≤ upto
      → In e es
  pub behind : upto ≤ s.metadata.version
  pub tip : (upto ≤ from) ⊎ ((e : Entry) × In e es × (e.version ≡ upto))
