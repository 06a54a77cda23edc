-- ===== src/Gossip/Relay/Grows.antt =====
-- The owner's own updates: what a copy holds of its state, and what is on its way, stays good.
use piko.Prelude.{ℕ, ◌+◌, ◌≤◌, String, ◌≡◌, inl, inr, some, List, lookup, values, length, arith}
use piko.Gossip.State.{Entry, NodeState, Effects, compact_key, sort_by_version}
use piko.Gossip.Compact.{compact_node}
use piko.Gossip.Tracks.{IsOwned, Tracks, Stale, dropped}
use piko.Gossip.Owner.Write.{
  Room, Writes, Changes, at_key, write-IsOwned, write-Stale, write-Tracks,
}
use piko.Gossip.Owner.Compaction.{Keeps, Compacted, compact_node-Keeps, compact_node-Compacted}
use piko.Gossip.Relay.{IsMarker, IsCopy, Parcel}

-- The owner went from `s` to `t`: what is known of `s` is known of `t`.
pub record Grows (s t : NodeState) : Type 0 where
  pub owned : IsOwned t
  pub forward : s.metadata.version ≤ t.metadata.version
  pub tracks : (r : NodeState) → Tracks r s → Tracks r t
  pub stale :
      (v : ℕ) (k : String) (a : Entry)
      → v ≤ s.metadata.version
      → a.version ≤ v
      → Stale s v k a
      → Stale t v k a
  pub marker :
      (v : ℕ) (a : Entry) → v ≤ s.metadata.version → a.version ≤ v → IsMarker s v a → IsMarker t v a
  pub old :
      (k : String) (x : Entry)
      → lookup k t.entries ≡ some x
      → x.version ≤ s.metadata.version
      → lookup k s.entries ≡ some x

pub same-Grows : (s : NodeState) → IsOwned s → Grows s s
same-Grows s own = record {
  owned = own;
  forward = omega arith;
  tracks = λ r h. h;
  stale = λ v k a l m h. h;
  marker = λ v a l m h. h;
  old = λ k x h l. h;
}

module _ (s t : NodeState) (g : Grows s t) where
  pub Grows-IsCopy : (r : NodeState) → IsCopy r s → IsCopy r t
  Grows-IsCopy r c = record {
    tracks = g.tracks r c.tracks;
    distinct = c.distinct;
    marked = λ a h.
        g.marker r.metadata.version a c.tracks.behind (c.tracks.bounded compact_key a h)
          (c.marked a h);
    latest = c.latest;
  }

  pub Grows-Parcel :
      (from upto : ℕ) (es : List Entry) → Parcel s from upto es → Parcel t from upto es
  Grows-Parcel from upto es p = record {
    ascending = p.ascending;
    known = λ e i.
        let k = p.known e i in
        record {
          stale = g.stale upto e.key e p.behind (p.bounded e i) k.stale;
          marker = λ q. g.marker upto e p.behind (p.bounded e i) (k.marker q);
        };
    bounded = p.bounded;
    complete = λ k e h l m. p.complete k e (g.old k e h (omega (arith, p.behind))) l m;
    behind = omega (arith, p.behind, g.forward);
    tip = p.tip;
  }

module _ (s t : NodeState) (own : IsOwned s) (e : Entry) (w : Writes s t e) where
  write-Grows : Grows s t
  write-Grows = record {
    owned = write-IsOwned s t own e w;
    forward = omega (arith, w.moved, w.next);
    tracks = write-Tracks s t own e w;
    stale = λ v k a l m. write-Stale s t own e w v k a (omega (arith, w.next));
    marker = λ v a l m h. record {
      discarded = h.discarded;
      internal = h.internal;
      reads = h.reads;
      older = h.older;
      place = elim h.place [
        | inl p ↦ inl (unchanged a p)
        | inr (c, d, p, q, n, o) ↦ inr (c, d, unchanged c p, q, n, o)
      ];
    };
    old = λ k x h l. ground (arith, at_key s t own e w k, w.next);
  }
    where
      unchanged :
          (c : Entry)
          → lookup compact_key s.entries ≡ some c
          → lookup compact_key t.entries ≡ some c
      unchanged c h = ground (arith, at_key s t own e w compact_key, w.plain)

pub Changes-Grows : (s t : NodeState) → IsOwned s → Changes s t → Grows s t
Changes-Grows s t own (inl p) = rw p (same-Grows s own)
Changes-Grows s t own (inr (e, w)) = write-Grows s t own e w

Compacted-Grows : (s t : NodeState) → IsOwned s → Keeps s t → Compacted s t → Grows s t
Compacted-Grows s t own k c = record {
  owned = k.owned;
  forward = c.forward;
  tracks = k.tracks;
  stale = λ v j a l m h.
      dropped c.marker s.metadata.version c.at c.reads (omega (arith, c.newer)) (omega arith);
  marker = λ v a l m h. record {
    discarded = h.discarded;
    internal = h.internal;
    reads = h.reads;
    older = h.older;
    place = inr (c.marker, s.metadata.version, c.at, c.reads, omega (arith, c.newer), omega arith);
  };
  old = λ j x h l. absurd (omega (arith, c.after j x h));
}

pub compact_node-Grows :
    (threshold : ℕ) (s t : NodeState) (fx : Effects)
    → IsOwned s
    → Room (length (sort_by_version (values s.entries)) + 1) s
    → compact_node threshold s ≡ some (t, fx)
    → Grows s t
compact_node-Grows threshold s t fx own room h =
    elim (compact_node-Compacted threshold s t fx own room h) [
      | inl p ↦ rw p (same-Grows s own)
      | inr c ↦ Compacted-Grows s t own (compact_node-Keeps threshold s t fx own room h) c
    ]
