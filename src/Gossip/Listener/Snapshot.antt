-- ===== src/Gossip/Listener/Snapshot.antt =====
-- A packet with a delta of a node, whole or cut off at the packet size, takes another node from one
-- consistent copy of the node's state to a later one.
use mathlib.Core.List.{append-nil}
use piko.Prelude.{
  ℕ, ◌≤◌, String, ◌≡◌, refl, sym, ◌≢◌, ◌⊎◌, inl, inr, none, some, List, [], ◌∷◌, ◌++◌, lookup,
  lookup-insert, arith, ok,
}
use piko.Gossip.State.{Entry, NodeState, DeltaEntry, ClusterState}
use piko.Gossip.Exchange.{entries_after, delta_entry}
use piko.Gossip.Remote.{apply_entries, apply_to, apply_delta_entry, apply_delta}
use piko.Gossip.Remote.Versions.{version-apply_entries}
use piko.Gossip.Tracks.{IsOwned, Tracks}
use piko.Gossip.Tracks.Converge.{apply_entries-Tracks, entries_after-Pending}
use piko.Gossip.Protocol.{Bytes, DeltaHeader, encode_delta}
use piko.Gossip.Protocol.Cut.{Faithful, IsCut, nothing, part, whole}
use piko.Gossip.Protocol.Packets.{decode-encode_delta}
use piko.Gossip.Listener.{Environment, on_delta}

-- One delta up to some entry is nothing, or that delta with its first entries.
IsCut-one :
    (d : DeltaEntry) (cs : List DeltaEntry)
    → IsCut (d ∷ []) cs
    → (cs ≡ [])
      ⊎ ((es : List Entry) × (rest : List Entry) × (d.entries ≡ es ++ rest)
          × (cs ≡ record d { entries = es } ∷ []))
IsCut-one d cs (nothing _) = inl refl
IsCut-one d cs (part _ es rest _ p) = inr (es, rest, p, refl)
IsCut-one d cs (whole _ _ _ (nothing _)) = inr (d.entries, [], sym (append-nil d.entries), refl)

-- The node's copy of the owner `s` under a name, before and after.
pub record Delivered (id : String) (s r : NodeState) (c c' : ClusterState) : Type 0 where
  pub copy : NodeState
  pub at : lookup id c'.nodes ≡ some copy
  pub tracks : Tracks copy s
  pub version : r.metadata.version ≤ copy.metadata.version
  pub others : (j : String) → id ≢ j → lookup j c'.nodes ≡ lookup j c.nodes

module _ (id : String) (s r : NodeState) (c : ClusterState) (own : IsOwned s) (t : Tracks r s)
    (remote : id ≢ c.local_id) (known : lookup id c.nodes ≡ some r) where
  nothing-Delivered : Delivered id s r c c
  nothing-Delivered = record {
    copy = r;
    at = known;
    tracks = t;
    version = omega arith;
    others = λ j n. refl;
  }

  entries-Delivered :
      (sender addr : String) (now : ℕ) (es rest : List Entry)
      → entries_after s r.metadata.version ≡ es ++ rest
      → Delivered id s r c
          (apply_delta sender now (record { id = id; addr = addr; entries = es } ∷ []) c).0
  unfolding apply_delta apply_delta_entry apply_to
  entries-Delivered sender addr now es rest p =
      let r' = (apply_entries id now es r).0 in
      record {
        copy = r';
        at = ground (arith, lookup-insert id id r' c.nodes);
        tracks =
            (apply_entries-Tracks s own id now es rest r t
              (rw p at (entries_after-Pending s own r))).0;
        version = version-apply_entries id now es r;
        others = λ j n. ground (arith, lookup-insert id j r' c.nodes);
      }

-- A node that has a consistent copy of an owner's state gets a packet with the owner's delta from
-- the version of the copy, cut off at whatever packet size: it takes the packet with no error, its
-- copy is consistent again and of no lower version, and every other node is as it was; where the
-- codec reads values back as it writes them.
pub on_delta-Delivered :
    (env : Environment) (header : DeltaHeader) (s r : NodeState) (c : ClusterState) (now : ℕ)
    (x : Bytes)
    → Faithful env.codecs.delta_header
    → Faithful env.codecs.entry
    → IsOwned s
    → Tracks r s
    → s.metadata.id ≢ c.local_id
    → lookup s.metadata.id c.nodes ≡ some r
    → encode_delta env.codecs header (delta_entry s r.metadata.version ∷ []) env.max_packet_size
      ≡ ok x
    → ((on_delta env now x c).2 ≡ none) × Delivered s.metadata.id s r c (on_delta env now x c).0
unfolding on_delta delta_entry apply_delta
on_delta-Delivered env header s r c now x fh fe own t remote known h =
    let (cs, cut, e) =
      decode-encode_delta env.codecs header (delta_entry s r.metadata.version ∷ [])
        env.max_packet_size x fh fe h in
    elim (IsCut-one (delta_entry s r.metadata.version) cs cut) [
      | inl p ↦ rw (e, on_delta, p) (refl, nothing-Delivered s.metadata.id s r c own t remote known)
      | inr (es, rest, q, p) ↦
          rw (e, on_delta, p)
            (
              refl,
              entries-Delivered s.metadata.id s r c own t remote known header.node_id
                  s.metadata.addr now es rest q,
            )
    ]
