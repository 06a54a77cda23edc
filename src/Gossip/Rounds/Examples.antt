-- ===== src/Gossip/Rounds/Examples.antt =====
-- A packet that a node takes, and nodes that a node tells of its leaving.
use native.Mathlib.Decide.{ℕ_discrete}
use piko.Prelude.{
  String,
  ◌≡◌,
  refl,
  true,
  none,
  some,
  Option,
  ite,
  List,
  [],
  ◌∷◌,
  length,
  lookup,
  same,
  differ,
  ok,
  ◌>>=◌,
  Int.{pos},
}
use piko.Prelude.Text.{format_uint}
use piko.Gossip.State.{Entry, NodeMetadata, ClusterState, new_node}
use piko.Gossip.Exchange.{delta_entry}
use piko.Gossip.Local.{upsert_node, delete_node}
use piko.Gossip.Compact.{compact_from}
use piko.Gossip.Remote.{apply_entries}
use piko.Gossip.Examples.{local, behind, compacted, far_behind-Consistent}
use piko.Gossip.Protocol.{Bytes, Error, panic, DeltaHeader, encode_delta, encode_digest}
use piko.Gossip.Protocol.Cut.{Faithful}
use piko.Gossip.Protocol.Examples.{
  no_codec, table_codec, table_codec-Faithful, dec_delta_header, dec_entry, index, codecs,
  entry_of_b, entry_of_c,
}
use piko.Gossip.Listener.{Environment, on_delta}
use piko.Gossip.Listener.Snapshot.{Delivered, on_delta-Delivered}
use piko.Gossip.Rounds.{leave_nodes, gossip_packet}
use piko.Gossip.Rounds.Packet.{gossip_packet-encode_digest}
use piko.Gossip.Rounds.Leave.{hearers, first_ids, last_failure, error_of, leave_nodes-told}

abbrev header : DeltaHeader
header = record { node_id = "b"; addr = "10.0.0.2:8003"; entries = pos 0 }

abbrev sent_entries : List Entry
sent_entries = (delta_entry compacted behind.metadata.version).entries

abbrev headers : List DeltaHeader
headers =
    header
    ∷ record { node_id = "b"; addr = "10.0.0.2:8003"; entries = pos (length sent_entries) }
    ∷ []

-- A node whose packets hold five bytes.
unfoldable environment : Environment
unfolding table_codec
environment = record {
  codecs = record {
    digest_header = no_codec;
    digest_entry = no_codec;
    delta_header = table_codec dec_delta_header headers;
    entry = table_codec dec_entry sent_entries;
    join_header = no_codec;
    digest = no_codec;
    delta = no_codec;
  };
  max_packet_size = 5;
  resolves = λ a. true;
  writes = λ a b. true;
  flushes = λ b. true;
  shuffle = λ d. d;
}

header-Faithful : Faithful environment.codecs.delta_header
unfolding environment
header-Faithful = table_codec-Faithful dec_delta_header headers

entry-Faithful : Faithful environment.codecs.entry
unfolding environment
entry-Faithful = table_codec-Faithful dec_entry sent_entries

abbrev state : ClusterState
state = record { local_id = "a"; nodes = ("a", local) ∷ ("b", behind) ∷ []; tombstones = [] }

abbrev packet : Bytes
packet = 2 ∷ 0 ∷ 0 ∷ 1 ∷ 0 ∷ []

packet-encode :
    encode_delta environment.codecs header (delta_entry compacted behind.metadata.version ∷ []) 5
    ≡ ok packet
unfolding environment encode_delta dec_delta_header dec_entry index same ℕ_discrete delta_entry
    compact_from delete_node upsert_node apply_entries new_node format_uint
packet-encode = refl

on_delta-Delivered_example :
    ((on_delta environment 60 packet state).2 ≡ none)
    × Delivered "b" compacted behind state (on_delta environment 60 packet state).0
unfolding environment lookup same new_node compact_from delete_node upsert_node apply_entries
on_delta-Delivered_example =
    on_delta-Delivered environment header compacted behind state 60 packet header-Faithful
      entry-Faithful far_behind-Consistent.0 far_behind-Consistent.1 (differ _ _ refl) refl
      packet-encode

abbrev node : String → NodeMetadata
node id = record local.metadata { id = id }

-- Node "b" has left, and "c" cannot be told.
abbrev some_nodes : List NodeMetadata
some_nodes = node "a" ∷ record (node "b") { left = true } ∷ node "c" ∷ node "d" ∷ []

abbrev tell_but_c : NodeMetadata → Option Error
tell_but_c n = ite (same n.id "c") (some panic) none

leave_nodes-told_example :
    ((leave_nodes tell_but_c "a" some_nodes).0 ≡ first_ids 4 (hearers tell_but_c "a" some_nodes))
    × ((leave_nodes tell_but_c "a" some_nodes).1
        ≡ error_of
            (leave_nodes tell_but_c "a" some_nodes).0
            (last_failure tell_but_c "a" some_nodes none))
leave_nodes-told_example = leave_nodes-told tell_but_c "a" some_nodes

-- The packet holds one of the two entries.
abbrev round_environment : Environment
round_environment = record {
  codecs = codecs;
  max_packet_size = 4;
  resolves = λ a. true;
  writes = λ a b. true;
  flushes = λ b. true;
  shuffle = λ d. d;
}

gossip_packet-encode_digest_example :
    (gossip_packet round_environment (node "a") (entry_of_b ∷ entry_of_c ∷ []) >>= λ r. ok r.0)
    ≡ encode_digest codecs
        (record { node_id = "a"; addr = "10.0.0.1:8003"; request = true })
        (entry_of_b ∷ entry_of_c ∷ [])
        4
gossip_packet-encode_digest_example =
    gossip_packet-encode_digest round_environment (node "a") (entry_of_b ∷ entry_of_c ∷ [])
