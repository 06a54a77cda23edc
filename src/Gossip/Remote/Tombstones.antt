-- ===== src/Gossip/Remote/Tombstones.antt =====
-- A node that has been removed as expired is not rediscovered from another node.
use piko.Prelude.{
  ℕ, String, ◌≡◌, refl, ap, ◌∙◌, ◌≢◌, inl, inr, true, none, some, List, [], ◌∷◌, lookup,
  lookup-insert, lookup-remove, Option-cases, same, arith,
}
use piko.Gossip.State.{NodeState, DigestEntry, DeltaEntry, ClusterState, new_node}
use piko.Gossip.Remote.{
  tombstoned, discover, apply_digest_entry, apply_digest, apply_to, apply_delta_entry, apply_delta,
}
use piko.Gossip.Remote.Safety.{apply_delta_entry-KeepsNode}

-- A node whose tombstone, of the time of its removal, stands.
pub record IsBuried (id : String) (removed_at : ℕ) (s : ClusterState) : Type 0 where
  pub absent : lookup id s.nodes ≡ none
  pub tombstone : lookup id s.tombstones ≡ some removed_at

digest_entry-IsBuried :
    (id sender : String) (removed_at : ℕ) (e : DigestEntry) (s : ClusterState)
    → sender ≢ id
    → IsBuried id removed_at s
    → IsBuried id removed_at (apply_digest_entry sender e s).0
unfolding apply_digest_entry tombstoned discover
digest_entry-IsBuried id sender removed_at e s n b = record {
  absent = ground (
    arith,
    b.absent,
    b.tombstone,
    lookup-insert e.id id (new_node e.id e.addr) s.nodes,
    lookup-insert e.id id (new_node e.id e.addr) (tombstoned s e.id sender).1.nodes,
  );
  tombstone = ground (arith, b.absent, b.tombstone, lookup-remove e.id id s.tombstones);
}

tombstones-apply_to :
    (now : ℕ) (d : DeltaEntry) (n : NodeState) (s : ClusterState)
    → (apply_to now d n s).0.tombstones ≡ s.tombstones
unfolding apply_to
tombstones-apply_to now d n s = refl

tombstones-discover :
    (id addr : String) (s : ClusterState) → (discover id addr s).tombstones ≡ s.tombstones
unfolding discover
tombstones-discover id addr s = refl

-- A tombstone of another node than the sender stays and is heeded.
tombstoned-other :
    (s : ClusterState) (id j sender : String) (t : ℕ)
    → sender ≢ id
    → lookup id s.tombstones ≡ some t
    → lookup id (tombstoned s j sender).1.tombstones ≡ some t
unfolding tombstoned
tombstoned-other s id j sender t n h = ground (arith, lookup-remove j id s.tombstones)

tombstoned-true :
    (s : ClusterState) (id sender : String) (t : ℕ)
    → sender ≢ id
    → lookup id s.tombstones ≡ some t
    → tombstoned s id sender ≡ (true, s)
unfolding tombstoned
tombstoned-true s id sender t n h = ground (arith, h)

module _ (id sender : String) (removed_at now : ℕ) (n : sender ≢ id) where
  ignored :
      (d : DeltaEntry) (s : ClusterState)
      → IsBuried id removed_at s
      → d.id ≡ id
      → (apply_delta_entry sender now d s).0 ≡ s
  unfolding apply_delta_entry
  ignored d s b p =
      let none_here : lookup d.id s.nodes ≡ none = ap (λ i. lookup i s.nodes) p ∙ b.absent in
      let stands : tombstoned s d.id sender ≡ (true, s) =
        ap (λ i. tombstoned s i sender) p ∙ tombstoned-true s id sender removed_at n b.tombstone in
      ground (arith, none_here, stands)

  tombstone_stays :
      (d : DeltaEntry) (s : ClusterState) (t : ℕ)
      → lookup id s.tombstones ≡ some t
      → lookup id (apply_delta_entry sender now d s).0.tombstones ≡ some t
  unfolding apply_delta_entry
  tombstone_stays d s t h =
      let s' = (tombstoned s d.id sender).1 in
      elim (Option-cases (lookup d.id s.nodes)) [
        | inl e ↦ ground (
          arith,
          h,
          tombstoned-other s id d.id sender t n h,
          tombstones-discover d.id d.addr s',
          tombstones-apply_to now d (new_node d.id d.addr) (discover d.id d.addr s'),
        )
        | inr (m, e) ↦ ground (arith, h, tombstones-apply_to now d m s)
      ]

  delta_entry-IsBuried :
      (d : DeltaEntry) (s : ClusterState)
      → IsBuried id removed_at s
      → IsBuried id removed_at (apply_delta_entry sender now d s).0
  delta_entry-IsBuried d s b = elim (same d.id id) [
    | yes p ↦ rw (ignored d s b p) b
    | no p ↦ record {
      absent = (apply_delta_entry-KeepsNode id sender now d s (inr p)).node ∙ b.absent;
      tombstone = tombstone_stays d s removed_at b.tombstone;
    }
  ]

  apply_digest-IsBuried :
      (d : List DigestEntry) (s : ClusterState)
      → IsBuried id removed_at s
      → IsBuried id removed_at (apply_digest sender d s).0
  unfolding apply_digest
  apply_digest-IsBuried [] s b = b
  apply_digest-IsBuried (e ∷ d) s b =
      apply_digest-IsBuried d _ (digest_entry-IsBuried id sender removed_at e s n b)

  apply_delta-IsBuried :
      (d : List DeltaEntry) (s : ClusterState)
      → IsBuried id removed_at s
      → IsBuried id removed_at (apply_delta sender now d s).0
  unfolding apply_delta
  apply_delta-IsBuried [] s b = b
  apply_delta-IsBuried (e ∷ d) s b = apply_delta-IsBuried d _ (delta_entry-IsBuried e s b)

-- While the tombstone of a removed node stands, neither a digest nor a delta of another sender
-- brings the node back, and the tombstone stays, with the time that it has.
pub IsBuried-stays :
    (id sender : String) (removed_at now : ℕ) (ds : List DigestEntry) (d : List DeltaEntry)
    (s : ClusterState)
    → sender ≢ id
    → IsBuried id removed_at s
    → IsBuried id removed_at (apply_digest sender ds s).0
      × IsBuried id removed_at (apply_delta sender now d s).0
IsBuried-stays id sender removed_at now ds d s n b = (
  apply_digest-IsBuried id sender removed_at now n ds s b,
  apply_delta-IsBuried id sender removed_at now n d s b,
)
