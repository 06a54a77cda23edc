-- ===== src/Gossip/Relay/Net/Examples.antt =====
-- A node and its peers: one hears of the node itself, the next one of the first.
use native.Mathlib.Decide.{ℕ_discrete}
use piko.Prelude.{refl, inl, inr, List, [], ◌∷◌, values, differ, same, arith}
use piko.Gossip.State.{NodeState, new_node, sort_by_version}
use piko.Gossip.Local.{upsert_node, delete_node}
use piko.Gossip.Compact.{compact_node, compact_from}
use piko.Gossip.Exchange.{entries_after}
use piko.Gossip.Remote.{apply_entries}
use piko.Gossip.Tracks.Converge.{InSync}
use piko.Gossip.Relay.Net.{
  Packet, Digest, Net, update, upsert, delete, compact, ask, answer, relay, receive, IsFresh, Reach,
  start, later,
}
use piko.Gossip.Relay.Net.Safety.{Relayed, net_converges, net_relays}

abbrev fresh : NodeState
fresh = new_node "b" "10.0.0.2:8003"

abbrev quiet : Net
quiet = record { owner = fresh; copies = λ _. fresh; digests = []; flight = [] }

quiet-IsFresh : IsFresh quiet
unfolding new_node
quiet-IsFresh = record {
  id = "b";
  addr = "10.0.0.2:8003";
  owner = refl;
  copies = λ i. refl;
  versions = λ i. refl;
  digests = refl;
  flight = refl;
}

abbrev with_key : NodeState
with_key = (upsert_node "endpoint:web" "2" fresh).0

abbrev two_keys : NodeState
two_keys = (upsert_node "proxy_addr" "10.0.0.2:8000" with_key).0

-- Peers 1 and 0 have sent a digest, and the node has answered that of peer 0.
abbrev asked : List Digest
asked = record { sender = 0; version = 0 } ∷ record { sender = 1; version = 0 } ∷ []

abbrev sent : Net
sent = record {
  owner = two_keys;
  copies = λ _. fresh;
  digests = asked;
  flight = record { to = 0; entries = entries_after two_keys 0 } ∷ [];
}

sent_lem : Reach quiet sent
unfolding upsert_node new_node same
sent_lem =
    let one = later start (upsert quiet "endpoint:web" "2" (differ _ _ refl) (omega arith)) in
    let two = later one (
      upsert (record quiet { owner = with_key }) "proxy_addr" "10.0.0.2:8000" (differ _ _ refl)
        (omega arith)) in
    let three = later two (ask (record quiet { owner = two_keys }) 1 0 (omega arith)) in
    let first : List Digest = record { sender = 1; version = 0 } ∷ [] in
    let four =
      later three (ask (record quiet { owner = two_keys; digests = first }) 0 0 (omega arith)) in
    later four (
      answer (record quiet { owner = two_keys; digests = asked })
        (record { sender = 0; version = 0 }) (inl refl))

abbrev first_told : NodeState
first_told = (apply_entries "b" 4 (entries_after two_keys 0) fresh).0

-- Peer 0 has heard of the node, and passes it on to peer 1.
abbrev passed_on : Net
passed_on = record {
  owner = two_keys;
  copies = update sent.copies 0 first_told;
  digests = asked;
  flight = record { to = 1; entries = entries_after first_told 0 } ∷ sent.flight;
}

passed_on_lem : Reach quiet passed_on
unfolding new_node apply_entries entries_after sort_by_version upsert_node same ℕ_discrete
passed_on_lem =
    let p : Packet = record { to = 0; entries = entries_after two_keys 0 } in
    let heard =
      later sent_lem (receive sent p "b" 4 (entries_after two_keys 0) [] (inl refl) refl) in
    later heard (
      relay (record sent { copies = update sent.copies 0 first_told }) 0
        (record { sender = 1; version = 0 }) (inr (inl refl)))

abbrev one_deleted : NodeState
one_deleted = (delete_node "endpoint:web" two_keys).0

abbrev compacted : NodeState
compacted = (compact_from one_deleted (sort_by_version (values one_deleted.entries)) 3).0

abbrev second_told : NodeState
second_told = (apply_entries "b" 6 (entries_after first_told 0) fresh).0

-- The node has deleted a key and compacted its state when peer 1 gets what peer 0 knew.
abbrev late : Net
late = record {
  owner = compacted;
  copies = update passed_on.copies 1 second_told;
  digests = asked;
  flight = passed_on.flight;
}

late_lem : Reach quiet late
unfolding upsert_node delete_node new_node same sort_by_version compact_node compact_from
    entries_after apply_entries ℕ_discrete
late_lem =
    let one =
      later passed_on_lem (delete passed_on "endpoint:web" (differ _ _ refl) (omega arith)) in
    let two =
      later one
        (compact (record passed_on { owner = one_deleted }) 1 compacted _ (omega arith) refl) in
    let p : Packet = record { to = 1; entries = entries_after first_told 0 } in
    later two (
      receive (record passed_on { owner = compacted }) p "b" 6 (entries_after first_told 0) []
        (inl refl) refl)

net_converges_example :
    InSync
      (apply_entries "b" 7
        (entries_after compacted (late.copies 1).metadata.version)
        (late.copies 1)).0
      compacted
net_converges_example = net_converges quiet late "b" 1 7 quiet-IsFresh late_lem

net_relays_example :
    Relayed
      (late.copies 0)
      (apply_entries "b" 7
        (entries_after (late.copies 0) (late.copies 2).metadata.version)
        (late.copies 2)).0
      compacted
net_relays_example = net_relays quiet late "b" 2 0 7 quiet-IsFresh late_lem
