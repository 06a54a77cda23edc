-- ===== src/Gossip/Examples.antt =====
-- Concrete nodes, cluster states and messages.
use piko.Prelude.{
  ℕ, String, ◌≡◌, refl, inr, true, false, some, List, [], ◌∷◌, lookup, values, same, differ, arith,
}
use piko.Gossip.State.{
  Entry, NodeState, DigestEntry, DeltaEntry, ClusterState, new_node, sort_by_version,
}
use piko.Gossip.Local.{upsert_node, delete_node}
use piko.Gossip.Local.Deleted.{delete-upsert_empty}
use piko.Gossip.Compact.{compact_from, compact_node}
use piko.Gossip.Exchange.{delta_entry, entries_after}
use piko.Gossip.Remote.{apply_entries, apply_digest, apply_delta, apply_delta_entry}
use piko.Gossip.Remote.Safety.{KeepsNode, apply_delta-KeepsNode}
use piko.Gossip.Remote.Rediscovery.{Lost, apply_delta_entry-gap}
use piko.Gossip.Remote.Tombstones.{IsBuried, IsBuried-stays}
use piko.Gossip.Expiry.{remove_expired_at}
use piko.Gossip.Expiry.Removal.{Outcome, remove_expired_at-Outcome}
use piko.Gossip.Owner.Compaction.{Keeps, compact_node-Keeps}
use piko.Gossip.Owner.History.{
  History, upsert, delete, compact, deliver, start, more, Consistent, History-Consistent,
}

abbrev pub fresh : NodeState
fresh = new_node "b" "10.0.0.2:8003"

abbrev with_key : NodeState
with_key = (upsert_node "proxy_addr" "10.0.0.2:8000" fresh).0

abbrev pub two_keys : NodeState
two_keys = (upsert_node "endpoint:web" "2" with_key).0

abbrev one_deleted : NodeState
one_deleted = (delete_node "endpoint:web" two_keys).0

entry : String → String → ℕ → Entry
entry key value version = record {
  key = key;
  value = value;
  version = version;
  internal = false;
  deleted = false;
}

-- The node without its deleted key, in a new numbering.
abbrev pub compacted : NodeState
compacted = (compact_from one_deleted (sort_by_version (values one_deleted.entries)) 3).0

-- The peer, which had the two keys before.
abbrev pub behind : NodeState
behind = (apply_entries "b" 4 (entries_after two_keys 0) fresh).0

-- The node sets two keys, the peer gets them, then the node deletes one.
behind_deleted : History fresh fresh (behind, one_deleted)
unfolding upsert_node delete_node new_node same entries_after sort_by_version
behind_deleted =
    let one =
      more start
        (upsert fresh fresh "proxy_addr" "10.0.0.2:8000" (differ _ _ refl) (omega arith)) in
    let two = more one (upsert fresh with_key "endpoint:web" "2" (differ _ _ refl) (omega arith)) in
    let three = more two (deliver fresh two_keys "b" 4 (entries_after two_keys 0) [] refl) in
    more three (delete behind two_keys "endpoint:web" (differ _ _ refl) (omega arith))

-- Then it compacts its state.
far_behind : History fresh fresh (behind, compacted)
unfolding upsert_node delete_node new_node same sort_by_version compact_node compact_from
far_behind = more behind_deleted (compact behind one_deleted compacted 1 _ (omega arith) refl)

pub far_behind-Consistent : Consistent (behind, compacted)
far_behind-Consistent = History-Consistent "b" "10.0.0.2:8003" "10.0.0.2:8003" far_behind

compact_node-Keeps_example : Keeps one_deleted compacted
unfolding upsert_node delete_node new_node same sort_by_version compact_node compact_from
compact_node-Keeps_example =
    compact_node-Keeps 1 one_deleted compacted
      (compact_from one_deleted (sort_by_version (values one_deleted.entries)) 3).1
      (History-Consistent "b" "10.0.0.2:8003" "10.0.0.2:8003" behind_deleted).0 (omega arith) refl

-- A node "a" that knows "b", which expires at 100, and has buried "c".
abbrev pub local : NodeState
local = record {
  metadata = record fresh.metadata { id = "a"; addr = "10.0.0.1:8003" };
  entries = [];
}

abbrev leaving : NodeState
leaving = record two_keys { metadata = record two_keys.metadata { left = true; expiry = 100 } }

abbrev state : ClusterState
state = record {
  local_id = "a";
  nodes = ("a", local) ∷ ("b", leaving) ∷ [];
  tombstones = ("c", 50) ∷ [];
}

abbrev digest_of_c : List DigestEntry
digest_of_c = record { id = "c"; addr = "10.0.0.3:8003"; version = 4; left = false } ∷ []

abbrev delta_of_c : List DeltaEntry
delta_of_c =
    record { id = "c"; addr = "10.0.0.3:8003"; entries = entry "proxy_addr" "x" 1 ∷ [] } ∷ []

IsBuried-stays_example :
    IsBuried "c" 50 (apply_digest "b" digest_of_c state).0
    × IsBuried "c" 50 (apply_delta "b" 60 delta_of_c state).0
unfolding lookup same
IsBuried-stays_example =
    IsBuried-stays "c" "b" 50 60 digest_of_c delta_of_c state (differ _ _ refl)
      (record { absent = refl; tombstone = refl })

apply_delta-KeepsNode_example : KeepsNode "b" state (apply_delta "c" 60 delta_of_c state).0
apply_delta-KeepsNode_example =
    apply_delta-KeepsNode "b" "c" 60 delta_of_c state (inr (differ _ _ refl, tt))

remove_expired_at-Outcome_example : Outcome 101 "b" leaving (remove_expired_at 101 state).0
unfolding lookup same new_node upsert_node
remove_expired_at-Outcome_example =
    remove_expired_at-Outcome 101 "b" leaving state ((differ _ _ refl, tt), (tt, tt))
      (λ id n h. ground arith) refl

delete-upsert_empty_example :
    (upsert_node "endpoint:web" "" (delete_node "endpoint:web" two_keys).0
      ≡ ((delete_node "endpoint:web" two_keys).0, []))
    × ((d : Entry) × (lookup "endpoint:web" (delete_node "endpoint:web" two_keys).0.entries
          ≡ some d)
        × (d.deleted ≡ true))
unfolding lookup same new_node upsert_node entry
delete-upsert_empty_example =
    delete-upsert_empty "endpoint:web" two_keys (entry "endpoint:web" "2" 2) refl refl

-- The node "b" with two keys, whose first key "a" had when it forgot "b".
two_keys-Consistent : Consistent (fresh, two_keys)
unfolding upsert_node new_node same
two_keys-Consistent =
    let one =
      more start
        (upsert fresh fresh "proxy_addr" "10.0.0.2:8000" (differ _ _ refl) (omega arith)) in
    History-Consistent "b" "10.0.0.2:8003" "10.0.0.2:8003"
      (more one (upsert fresh with_key "endpoint:web" "2" (differ _ _ refl) (omega arith)))

abbrev forgetful : ClusterState
forgetful = record state { nodes = ("a", local) ∷ []; tombstones = ("b", 50) ∷ [] }

apply_delta_entry-gap_example :
    (n : NodeState) × (lookup "b"
        (apply_delta_entry "b" 60 (delta_entry two_keys 1) forgetful).0.nodes
      ≡ some n)
    × Lost "proxy_addr" (entry "proxy_addr" "10.0.0.2:8000" 1) two_keys n
unfolding lookup same new_node upsert_node entry
apply_delta_entry-gap_example =
    apply_delta_entry-gap forgetful two_keys 1 60 "proxy_addr" "endpoint:web"
      (entry "proxy_addr" "10.0.0.2:8000" 1) (entry "endpoint:web" "2" 2) two_keys-Consistent.0
      (differ _ _ refl) refl refl (omega arith) refl (omega arith)
