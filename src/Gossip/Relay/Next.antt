-- ===== src/Gossip/Relay/Next.antt =====
-- The next entry of a delta that a copy passed on, and what is known of it at an earlier version.
use piko.Prelude.{ℕ, ◌≤◌, ◌<◌, String, ◌≡◌, ◌⊎◌, inl, inr, some, lookup, arith}
use piko.Gossip.State.{Entry, NodeState}
use piko.Gossip.Tracks.{Stale, current, overwritten, dropped}
use piko.Gossip.Relay.{IsMarker}

-- No entry of the owner lies between the copy's version and that of `e`.
pub record IsNextOf (r s : NodeState) (e : Entry) : Type 0 where
  pub newer : r.metadata.version < e.version
  pub first :
      (j : String) (a : Entry)
      → lookup j s.entries ≡ some a
      → r.metadata.version < a.version
      → (e ≡ a) ⊎ (e.version < a.version)

pub Stale-lower :
    (s : NodeState) (v w : ℕ) (k : String) (a : Entry) → v ≤ w → Stale s w k a → Stale s v k a
Stale-lower s v w k a l (current h) = current h
Stale-lower s v w k a l (overwritten x h m) = overwritten x h (omega arith)
Stale-lower s v w k a l (dropped c d h p m o) = dropped c d h p (omega arith) o

pub IsMarker-lower : (s : NodeState) (v w : ℕ) (a : Entry) → v ≤ w → IsMarker s w a → IsMarker s v a
IsMarker-lower s v w a l m = record {
  discarded = m.discarded;
  internal = m.internal;
  reads = m.reads;
  older = m.older;
  place = elim m.place [
    | inl h ↦ inl h
    | inr (c, d, h, p, q, o) ↦ inr (c, d, h, p, omega arith, o)
  ];
}
