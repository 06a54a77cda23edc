-- ===== src/Gossip/Remote/Safety.antt =====
-- What messages of other nodes, well formed or not, cannot do.
use piko.Prelude.{
  ℕ, String, ◌≡◌, refl, sym, ◌∙◌, ◌≢◌, ◌⊎◌, inl, inr, some, List, [], ◌∷◌, lookup, lookup-insert,
  Option-cases, arith,
}
use piko.Gossip.State.{NodeState, DigestEntry, DeltaEntry, ClusterState, new_node}
use piko.Gossip.Remote.{
  tombstoned, discover, apply_digest_entry, apply_digest, apply_entries, apply_to,
  apply_delta_entry, apply_delta,
}

-- What a step from `s` to `t` keeps of one node: its state and the name of the local node.
pub record KeepsNode (id : String) (s t : ClusterState) : Type 0 where
  pub local_id : t.local_id ≡ s.local_id
  pub node : lookup id t.nodes ≡ lookup id s.nodes

KeepsNode-trans :
    {id : String} {s t u : ClusterState} → KeepsNode id s t → KeepsNode id t u → KeepsNode id s u
KeepsNode-trans h k = record { local_id = k.local_id ∙ h.local_id; node = k.node ∙ h.node }

pub tombstoned-nodes :
    (s : ClusterState) (id sender : String)
    → ((tombstoned s id sender).1.nodes ≡ s.nodes)
      × ((tombstoned s id sender).1.local_id ≡ s.local_id)
unfolding tombstoned
tombstoned-nodes s id sender = ground arith

apply_digest_entry-KeepsNode :
    (id sender : String) (e : DigestEntry) (s : ClusterState) (n : NodeState)
    → lookup id s.nodes ≡ some n
    → KeepsNode id s (apply_digest_entry sender e s).0
unfolding apply_digest_entry
apply_digest_entry-KeepsNode id sender e s n h =
    ground
      (arith, tombstoned-nodes s e.id sender, lookup-insert e.id id (new_node e.id e.addr) s.nodes)

-- A digest, from whatever sender, changes no node that is known already, and never renames the
-- local node.
pub apply_digest-KeepsNode :
    (id sender : String) (d : List DigestEntry) (s : ClusterState) (n : NodeState)
    → lookup id s.nodes ≡ some n
    → KeepsNode id s (apply_digest sender d s).0
unfolding apply_digest
apply_digest-KeepsNode id sender [] s n h = record { local_id = refl; node = refl }
apply_digest-KeepsNode id sender (e ∷ d) s n h =
    let first = apply_digest_entry-KeepsNode id sender e s n h in
    KeepsNode-trans first (apply_digest-KeepsNode id sender d _ n (first.node ∙ h))

pub apply_to-KeepsNode :
    (id : String) (now : ℕ) (d : DeltaEntry) (n : NodeState) (s : ClusterState)
    → d.id ≢ id
    → KeepsNode id s (apply_to now d n s).0
unfolding apply_to
apply_to-KeepsNode id now d n s h = record {
  local_id = refl;
  node = ground (arith, lookup-insert d.id id (apply_entries d.id now d.entries n).0 s.nodes);
}

pub discover-KeepsNode :
    (id j addr : String) (s : ClusterState) → j ≢ id → KeepsNode id s (discover j addr s)
unfolding discover
discover-KeepsNode id j addr s h = record {
  local_id = refl;
  node = ground (arith, lookup-insert j id (new_node j addr) s.nodes);
}

pub apply_delta_entry-KeepsNode :
    (id sender : String) (now : ℕ) (d : DeltaEntry) (s : ClusterState)
    → (id ≡ s.local_id) ⊎ (d.id ≢ id)
    → KeepsNode id s (apply_delta_entry sender now d s).0
unfolding apply_delta_entry
apply_delta_entry-KeepsNode id sender now d s h =
    let t = (tombstoned s d.id sender).1 in
    elim (Option-cases (lookup d.id s.nodes)) [
      | inl e ↦ ground (
        arith,
        tombstoned-nodes s d.id sender,
        discover-KeepsNode id d.id d.addr t,
        apply_to-KeepsNode id now d (new_node d.id d.addr) (discover d.id d.addr t),
      )
      | inr (n, e) ↦ ground (arith, apply_to-KeepsNode id now d n s)
    ]

-- No entry of the delta is about this node.
abbrev pub Unnamed : String → List DeltaEntry → Type 0
Unnamed id [] = Unit {0}
Unnamed id (e ∷ d) = (e.id ≢ id) × Unnamed id d

apply_delta-keeps_other :
    (id sender : String) (now : ℕ) (d : List DeltaEntry) (s : ClusterState)
    → Unnamed id d
    → KeepsNode id s (apply_delta sender now d s).0
unfolding apply_delta
apply_delta-keeps_other id sender now [] s u = record { local_id = refl; node = refl }
apply_delta-keeps_other id sender now (e ∷ d) s u =
    KeepsNode-trans (apply_delta_entry-KeepsNode id sender now e s (inr u.0))
      (apply_delta-keeps_other id sender now d _ u.1)

apply_delta-keeps_local :
    (id sender : String) (now : ℕ) (d : List DeltaEntry) (s : ClusterState)
    → id ≡ s.local_id
    → KeepsNode id s (apply_delta sender now d s).0
unfolding apply_delta
apply_delta-keeps_local id sender now [] s p = record { local_id = refl; node = refl }
apply_delta-keeps_local id sender now (e ∷ d) s p =
    let first = apply_delta_entry-KeepsNode id sender now e s (inl p) in
    KeepsNode-trans first (apply_delta-keeps_local id sender now d _ (p ∙ sym first.local_id))

-- A delta, from whatever sender, changes neither the local node nor a node that it does not name.
pub apply_delta-KeepsNode :
    (id sender : String) (now : ℕ) (d : List DeltaEntry) (s : ClusterState)
    → (id ≡ s.local_id) ⊎ Unnamed id d
    → KeepsNode id s (apply_delta sender now d s).0
apply_delta-KeepsNode id sender now d s (inl p) = apply_delta-keeps_local id sender now d s p
apply_delta-KeepsNode id sender now d s (inr u) = apply_delta-keeps_other id sender now d s u
