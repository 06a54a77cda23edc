-- ===== src/Gossip/Remote/Versions.antt =====
-- Versions only grow, and what is not newer changes nothing.
use piko.Prelude.{ℕ, ◌≤◌, String, ◌≡◌, refl, Option, none, some, List, [], ◌∷◌, arith}
use piko.Gossip.State.{Entry, NodeState, Effects, entry_at, metrics_upsert_entry}
use piko.Prelude.Text.{parse_uint}
use piko.Gossip.Local.{put_entry}
use piko.Gossip.Remote.{apply_kind, apply_compact, apply_entry, apply_entries}

version-apply_compact :
    (id : String) (v : Option ℕ) (n : NodeState) (fx : Effects)
    → (apply_compact id v n fx).state.metadata.version ≡ n.metadata.version
unfolding apply_compact
version-apply_compact id none n fx = refl
version-apply_compact id (some v) n fx = refl

pub version-apply_kind :
    (id : String) (now : ℕ) (e : Entry) (n : NodeState) (fx : Effects)
    → (apply_kind id now e n fx).state.metadata.version ≡ n.metadata.version
unfolding apply_kind
version-apply_kind id now e n fx =
    ground (arith, version-apply_compact id (parse_uint e.value) n fx)

version-apply_entry :
    (id : String) (now : ℕ) (e : Entry) (n : NodeState)
    → n.metadata.version ≤ (apply_entry id now e n).state.metadata.version
unfolding apply_entry put_entry
version-apply_entry id now e n = ground (
  arith,
  version-apply_kind id now e (put_entry n e)
      (metrics_upsert_entry n.metadata.id e (entry_at e.key n.entries)),
)

-- Whatever entries a message holds, the version of a node does not fall.
pub version-apply_entries :
    (id : String) (now : ℕ) (es : List Entry) (n : NodeState)
    → n.metadata.version ≤ (apply_entries id now es n).0.metadata.version
unfolding apply_entries
version-apply_entries id now [] n = omega arith
version-apply_entries id now (e ∷ es) n = ground (
  arith,
  version-apply_entry id now e n,
  version-apply_entries id now es (apply_entry id now e n).state,
)

abbrev pub AllOld : ℕ → List Entry → Type 0
AllOld v [] = Unit {0}
AllOld v (e ∷ es) = (e.version ≤ v) × AllOld v es

-- Entries that are not newer than the copy, such as those of a packet that comes twice, change
-- nothing and tell the watcher nothing.
pub apply_entries-old :
    (id : String) (now : ℕ) (es : List Entry) (n : NodeState)
    → AllOld n.metadata.version es
    → apply_entries id now es n ≡ (n, [])
unfolding apply_entries
apply_entries-old id now [] n h = refl
apply_entries-old id now (e ∷ es) n h = ground (arith, h.0, apply_entries-old id now es n h.1)
