-- ===== src/Gossip/Owner/History.antt =====
-- Eventual consistency: the histories of an owner and of one copy of its state.
use piko.Prelude.{
  ℕ, ◌+◌, String, ◌≡◌, refl, ◌≢◌, inl, inr, some, List, ◌++◌, values, length, lookup, arith,
}
use piko.Gossip.State.{Entry, NodeState, Effects, compact_key, sort_by_version, new_node}
use piko.Gossip.Local.{upsert_node, delete_node, leave_node}
use piko.Gossip.Compact.{compact_node}
use piko.Gossip.Exchange.{entries_after}
use piko.Gossip.Remote.{apply_entries}
use piko.Gossip.Tracks.{IsOwned, Tracks}
use piko.Gossip.Tracks.Converge.{
  InSync, apply_entries-Tracks, entries_after-Pending, apply_entries-InSync,
}
use piko.Gossip.Owner.Write.{
  Room, Changes, write-IsOwned, write-Tracks, upsert_node-Changes, delete_node-Changes,
  leave_node-Changes,
}
use piko.Gossip.Owner.Compaction.{compact_node-Keeps}

-- A copy and its owner. Only the owner's own updates change the owner. Packets may be lost, and a
-- delta may be cut off behind any entry; it is made of the owner's state at the time it arrives. The keys of the program's own entries are not
-- `compact_key`, and the versions stay below 2 ^ 64.
pub data Step : NodeState × NodeState → NodeState × NodeState → Type 0 where
  upsert :
      (r s : NodeState) (key value : String)
      → key ≢ compact_key
      → Room 1 s
      → Step (r, s) (r, (upsert_node key value s).0)
  delete :
      (r s : NodeState) (key : String)
      → key ≢ compact_key
      → Room 1 s
      → Step (r, s) (r, (delete_node key s).0)
  leave : (r s : NodeState) → Room 1 s → Step (r, s) (r, (leave_node s).0)
  compact :
      (r s t : NodeState) (threshold : ℕ) (fx : Effects)
      → Room (length (sort_by_version (values s.entries)) + 1) s
      → compact_node threshold s ≡ some (t, fx)
      → Step (r, s) (r, t)
  deliver :
      (r s : NodeState) (id : String) (now : ℕ) (es rest : List Entry)
      → entries_after s r.metadata.version ≡ es ++ rest
      → Step (r, s) ((apply_entries id now es r).0, s)

pub data History (r₀ s₀ : NodeState) : NodeState × NodeState → Type 0 where
  start : History r₀ s₀ (r₀, s₀)
  more : {p q : NodeState × NodeState} → History r₀ s₀ p → Step p q → History r₀ s₀ q

abbrev pub Consistent : NodeState × NodeState → Type 0
Consistent (r, s) = IsOwned s × Tracks r s

Changes-Consistent : (r s t : NodeState) → Changes s t → Consistent (r, s) → Consistent (r, t)
Changes-Consistent r s t (inl p) (own, tr) = rw p (own, tr)
Changes-Consistent r s t (inr (e, w)) (own, tr) =
    (write-IsOwned s t own e w, write-Tracks s t own e w r tr)

Step-Consistent : {p q : NodeState × NodeState} → Step p q → Consistent p → Consistent q
Step-Consistent (upsert r s key value n room) (own, t) =
    Changes-Consistent r s _ (upsert_node-Changes s own room key value n) (own, t)
Step-Consistent (delete r s key n room) (own, t) =
    Changes-Consistent r s _ (delete_node-Changes s own room key n) (own, t)
Step-Consistent (leave r s room) (own, t) =
    Changes-Consistent r s _ (leave_node-Changes s own room) (own, t)
Step-Consistent (compact r s t threshold fx room h) (own, tr) =
    let k = compact_node-Keeps threshold s t fx own room h in (k.owned, k.tracks r tr)
Step-Consistent (deliver r s id now es rest h) (own, t) = (
  own,
  (apply_entries-Tracks s own id now es rest r t (rw h at (entries_after-Pending s own r))).0,
)

pub new-Consistent : (id addr addr' : String) → Consistent (new_node id addr, new_node id addr')
unfolding new_node lookup
new-Consistent id addr addr' = (
  record {
    is_map = tt;
    keyed = λ k e h. cc;
    positive = λ k e h. cc;
    bounded = λ k e h. cc;
    distinct = λ j k a b g h v. cc;
    latest = inl refl;
    compacted = λ c h. cc;
  },
  record {
    is_map = tt;
    keyed = λ k e h. cc;
    behind = omega arith;
    has = λ k e h l. cc;
    bounded = λ k e h. cc;
    stale = λ k a h. cc;
  },
)

pub History-Consistent :
    (id addr addr' : String) {p : NodeState × NodeState}
    → History (new_node id addr) (new_node id addr') p
    → Consistent p
History-Consistent id addr addr' start = new-Consistent id addr addr'
History-Consistent id addr addr' (more h st) =
    Step-Consistent st (History-Consistent id addr addr' h)

-- Whatever a node has done since it started, and whatever packets a peer has had of it, in whole or
-- in part: one whole answer to the version that the peer has leaves the peer with the version and
-- with exactly the entries of the node. Updates use keys other than the compaction key, and no
-- version passes 2 ^ 64.
pub history_converges :
    (id addr addr' : String) (r s : NodeState) (now : ℕ)
    → History (new_node id addr) (new_node id addr') (r, s)
    → InSync (apply_entries id now (entries_after s r.metadata.version) r).0 s
history_converges id addr addr' r s now h =
    let (own, t) = History-Consistent id addr addr' h in apply_entries-InSync s own id now r t
