-- ===== src/Gossip/Local/Deleted.antt =====
-- What `UpsertLocal` does to a deleted key.
use piko.Prelude.{String, ◌≡◌, refl, true, false, some, [], lookup, lookup-insert, arith}
use piko.Gossip.State.{Entry, NodeState, bump}
use piko.Gossip.Local.{upsert_node, delete_node}

-- A deleted key stays deleted when it is set to the empty text after `DeleteLocal`: the entry of the
-- deletion is taken for the value, and nothing is written.
pub delete-upsert_empty :
    (key : String) (n : NodeState) (e : Entry)
    → lookup key n.entries ≡ some e
    → e.deleted ≡ false
    → (upsert_node key "" (delete_node key n).0 ≡ ((delete_node key n).0, []))
      × ((d : Entry) × (lookup key (delete_node key n).0.entries ≡ some d) × (d.deleted ≡ true))
unfolding upsert_node delete_node
delete-upsert_empty key n e h g =
    let m : NodeState = (delete_node key n).0 in
    let d : Entry = record {
      key = e.key;
      value = "";
      version = bump n.metadata.version;
      internal = e.internal;
      deleted = true;
    } in
    let at : lookup key m.entries ≡ some d =
      rw (h, delete_node, g) (ground (arith, lookup-insert key key d n.entries)) in
    (rw (at, upsert_node) (ground arith), (d, at, refl))
