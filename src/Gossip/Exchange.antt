-- ===== src/Gossip/Exchange.antt =====
-- pkg/gossip/state.go: digests, and the deltas that answer them.
use mathlib.Core.Option
use piko.Prelude.{
  ℕ, String, Bool, false, ◌||◌, Option, none, some, List, [], ◌∷◌, ◌++◌, map, Map, lookup, values,
  keep, ltb, if◌then◌else◌,
}
use piko.Gossip.State.{Entry, NodeState, DigestEntry, DeltaEntry, ClusterState, sort_by_version}
use piko.Gossip.Local.{is_same}

-- `Digest`
unfoldable pub digest_entry : NodeState → DigestEntry
digest_entry n = record {
  id = n.metadata.id;
  addr = n.metadata.addr;
  version = n.metadata.version;
  left = n.metadata.left;
}

unfoldable pub digest : ClusterState → List DigestEntry
unfolding digest_entry
digest s = map digest_entry (values s.nodes)

-- `deltaEntry`, of the node's state: the entries after a version, in order of version.
unfoldable pub entries_after : NodeState → ℕ → List Entry
unfolding sort_by_version
entries_after n from = sort_by_version (keep (λ e. ltb from e.version) (values n.entries))

unfoldable pub delta_entry : NodeState → ℕ → DeltaEntry
unfolding entries_after
delta_entry n from = record {
  id = n.metadata.id;
  addr = n.metadata.addr;
  entries = entries_after n from;
}

-- The first loop of `Delta`: an answer for each node of the digest that we know more of.
unfoldable pub add_known : DeltaEntry → List DeltaEntry → List DeltaEntry
add_known d rest = elim d.entries [ [] ↦ rest | e ∷ es ↦ d ∷ rest ]

unfoldable pub delta_known : Map NodeState → List DigestEntry → List DeltaEntry
unfolding add_known delta_entry lookup
delta_known nodes [] = []
delta_known nodes (e ∷ es) =
    let rest = delta_known nodes es in
    elim (lookup e.id nodes) [ none ↦ rest | some n ↦ add_known (delta_entry n e.version) rest ]

unfoldable pub in_digest : String → List DigestEntry → Bool
in_digest id [] = false
in_digest id (e ∷ es) = is_same e.id id || in_digest id es

-- The second loop, over the nodes that the digest does not have.
unfoldable pub delta_unknown : Map NodeState → List DigestEntry → List DeltaEntry
unfolding in_digest delta_entry
delta_unknown [] d = []
delta_unknown ((id, n) ∷ nodes) d =
    let rest = delta_unknown nodes d in if in_digest id d then rest else delta_entry n 0 ∷ rest

-- `Delta`
unfoldable pub delta : ClusterState → List DigestEntry → Bool → List DeltaEntry
unfolding delta_known delta_unknown
delta s d full_digest =
    delta_known s.nodes d ++ (if full_digest then delta_unknown s.nodes d else [])

-- `LocalDelta`; `none` is the nil dereference where the local node is missing.
unfoldable pub local_delta : ClusterState → Option (List DeltaEntry)
unfolding delta_entry lookup
local_delta s = Option.map (λ n. delta_entry n 0 ∷ []) (lookup s.local_id s.nodes)
