-- ===== src/Sync/Syncer/Pending.antt =====
-- Pending nodes: never the local node, never in the cluster, and never complete.
use piko.Prelude.{
  String, ◌≡◌, refl, ◌≢◌, Bool, true, false, ◌&&◌, Option, none, some, [], lookup, insert, remove,
  lookup-insert, lookup-remove, Option-cases, Bool-cases, inl, inr, same, ite, arith,
}
use piko.Prelude.Int.{ℤ, pos}
use piko.Prelude.Text.{cut_prefix, atoi}
use piko.Cluster.State
use piko.Cluster.State.{State, Node, NodeStatus, unset, active, unreachable, left, Effects}
use piko.Cluster.State.Remote.{Change, Update, remote_updates}
use piko.Sync.Syncer.{
  Syncer, pending_node, with_cluster, drop_pending, change_pending, set_endpoint, set_key,
  is_complete, activate, settle, upsert_pending, is_known, is_address_key, upsert_endpoint,
  drop_endpoint, endpoint_prefix, on_join, on_leave, on_reachable, on_unreachable, on_expired,
  on_upsert_key, on_delete_key,
}

-- What holds of a node that is pending under a name.
pub record IsPending (local_id id : String) (known : Option Node) (n : Node) : Type 0 where
  pub named : n.id ≡ id
  pub remote : id ≢ local_id
  pub unknown : known ≡ none
  pub incomplete : is_complete n ≡ false

abbrev pub PendingAt : String → String → Option Node → Option Node → Type 0
PendingAt local_id id none known = Unit {0}
PendingAt local_id id (some n) known = IsPending local_id id known n

abbrev pub WellFormed : Syncer → Type 0
WellFormed s =
    (id : String)
    → PendingAt s.cluster.local_id id (lookup id s.pending_nodes) (lookup id s.cluster.nodes)

-- The syncer after a handler: still well formed, and the local node as it was.
pub record Good (s t : Syncer) : Type 0 where
  pub well_formed : WellFormed t
  pub local_id : t.cluster.local_id ≡ s.cluster.local_id
  pub local_node :
      lookup s.cluster.local_id t.cluster.nodes ≡ lookup s.cluster.local_id s.cluster.nodes

id-activate : (n : Node) → (activate n).id ≡ n.id
unfolding activate
id-activate n = ground arith

id-set_key : (key value : String) (n n' : Node) → set_key key value n ≡ some n' → n'.id ≡ n.id
unfolding set_key set_endpoint
id-set_key key value n n' h = ground arith

module _ (s : Syncer) (w : WellFormed s) where
  pub unchanged : Good s s
  unchanged = record { well_formed = w; local_id = refl; local_node = refl }

  pub on_join-Good : (id : String) → Good s (on_join id s)
  unfolding on_join pending_node is_complete State.node
  on_join-Good id = record {
    well_formed = λ j. ground (arith, w j, lookup-insert id j (pending_node id) s.pending_nodes);
    local_id = ground arith;
    local_node = ground arith;
  }

  -- The cluster state has changed a node that it knows.
  cluster-Good :
      (id : String) (c : State) → Change id s.cluster c → Good s (record s { cluster = c })
  cluster-Good id c h = record {
    well_formed = λ j. ground (arith, w j, w id, h.known, h.others j, h.local_id);
    local_id = h.local_id;
    local_node = h.others s.cluster.local_id h.remote;
  }

  drop_pending-Good : (id : String) → Good s (drop_pending id s)
  unfolding drop_pending
  drop_pending-Good id = record {
    well_formed = λ j. ground (arith, w j, lookup-remove id j s.pending_nodes);
    local_id = refl;
    local_node = refl;
  }

  change_pending-Good :
      (id : String) (change : Node → Node)
      → ((n : Node) → (change n).id ≡ n.id)
      → ((n : Node) → is_complete (change n) ≡ is_complete n)
      → Good s (change_pending id change s)
  unfolding change_pending
  change_pending-Good id change keeps_id keeps = elim (Option-cases (lookup id s.pending_nodes)) [
    | inl e ↦ rw (e, change_pending) unchanged
    | inr (n, e) ↦
        rw (e, change_pending)
          (record {
            well_formed = λ j. ground (
              arith,
              w j,
              w id,
              keeps_id n,
              keeps n,
              lookup-insert id j (change n) s.pending_nodes,
            );
            local_id = refl;
            local_node = refl;
          })
  ]

  with_cluster-Good :
      (id : String) (r : Bool × State × Effects) (otherwise : Syncer → Syncer)
      → Update id s.cluster r
      → Good s (otherwise s)
      → Good s (with_cluster s r otherwise).0
  unfolding with_cluster
  with_cluster-Good id (true, c, fx) otherwise u g = cluster-Good id c (u.succeeds refl)
  with_cluster-Good id (false, c, fx) otherwise u g = g

  guarded-Good :
      (id : String) (t : Syncer × Effects)
      → Good s t.0
      → Good s (ite (same id s.cluster.local_id) (s, []) t).0
  guarded-Good id t g = elim (same id s.cluster.local_id) [
    | yes p ↦
        let e : ite (same id s.cluster.local_id) (s, []) t ≡ (s, []) = ground arith in
        rw e unchanged
    | no p ↦ let e : ite (same id s.cluster.local_id) (s, []) t ≡ t = ground arith in rw e g
  ]

  -- A pending node with a new field, which may be complete now.
  module _ (id : String) (n n' : Node) (h : lookup id s.pending_nodes ≡ some n)
      (p : n'.id ≡ n.id) where
    pending : IsPending s.cluster.local_id id (lookup id s.cluster.nodes) n
    pending = ground (arith, w id, h)

    abbrev entered : Syncer
    entered = record {
      pending_nodes = remove id s.pending_nodes;
      cluster = record s.cluster { nodes = insert id (activate n') s.cluster.nodes };
    }

    settle_complete : is_complete n' ≡ true → (settle id n' s).0 ≡ entered
    unfolding settle State.add_node
    settle_complete c = ground (arith, c, p, pending, id-activate n')

    settle_incomplete :
        is_complete n' ≡ false
        → (settle id n' s).0 ≡ record s { pending_nodes = insert id n' s.pending_nodes }
    unfolding settle
    settle_incomplete c = ground (arith, c)

    settle-Good : Good s (settle id n' s).0
    settle-Good = elim (Bool-cases (is_complete n')) [
      | inl c ↦ rw (settle_complete c) (record {
        well_formed = λ j. ground (
          arith,
          w j,
          lookup-remove id j s.pending_nodes,
          lookup-insert id j (activate n') s.cluster.nodes,
        );
        local_id = refl;
        local_node =
            ground
              (arith, pending, lookup-insert id s.cluster.local_id (activate n') s.cluster.nodes);
      })
      | inr c ↦ rw (settle_incomplete c) (record {
        well_formed =
            λ j. ground (arith, w j, w id, h, p, c, lookup-insert id j n' s.pending_nodes);
        local_id = refl;
        local_node = refl;
      })
    ]

  upsert_pending-Good : (id key value : String) → Good s (upsert_pending id key value s).0
  unfolding upsert_pending
  upsert_pending-Good id key value = elim (Option-cases (lookup id s.pending_nodes)) [
    | inl e ↦ rw (e, upsert_pending) unchanged
    | inr (n, e) ↦ elim (Option-cases (set_key key value n)) [
      | inl f ↦ rw (e, upsert_pending, f) unchanged
      | inr (n', f) ↦
          rw (e, upsert_pending, f) (settle-Good id n n' e (id-set_key key value n n' f))
    ]
  ]

  upsert_endpoint-Good :
      (id endpoint_id : String) (k : Option ℤ) (key value : String)
      → Good s (upsert_endpoint id endpoint_id k key value s).0
  unfolding upsert_endpoint
  upsert_endpoint-Good id endpoint_id none key value = unchanged
  upsert_endpoint-Good id endpoint_id (some k) key value =
      let r = State.update_remote_endpoint id endpoint_id k s.cluster in
      elim (Bool-cases r.0) [
        | inl e ↦
            rw (e, upsert_endpoint)
              (cluster-Good id r.1
                ((remote_updates id endpoint_id active k s.cluster).2.succeeds e))
        | inr e ↦ rw (e, upsert_endpoint) (upsert_pending-Good id key value)
      ]

  pub on_upsert_key-Good : (id key value : String) → Good s (on_upsert_key id key value s).0
  unfolding on_upsert_key
  on_upsert_key-Good id key value =
      guarded-Good id _
        (elim (Bool-cases (is_address_key key && is_known (State.node s.cluster id))) [
          | inl e ↦ rw e unchanged
          | inr e ↦ rw e (elim (Option-cases (cut_prefix endpoint_prefix key)) [
            | inl f ↦ rw f (upsert_pending-Good id key value)
            | inr (j, f) ↦ rw f (upsert_endpoint-Good id j (atoi value) key value)
          ])
        ])

  pub on_leave-Good : (id : String) → Good s (on_leave id s).0
  unfolding on_leave
  on_leave-Good id = guarded-Good id _ (
      with_cluster-Good id _ (drop_pending id) (remote_updates id "" left (pos 0) s.cluster).0
        (drop_pending-Good id))

  pub on_expired-Good : (id : String) → Good s (on_expired id s).0
  unfolding on_expired
  on_expired-Good id = guarded-Good id _ (
      with_cluster-Good id _ (drop_pending id) (remote_updates id "" left (pos 0) s.cluster).1
        (drop_pending-Good id))

  pub on_reachable-Good : (id : String) → Good s (on_reachable id s).0
  unfolding on_reachable is_complete
  on_reachable-Good id = guarded-Good id _ (
      with_cluster-Good id _ (change_pending id (λ n. record n { status = active }))
        (remote_updates id "" active (pos 0) s.cluster).0
        (change_pending-Good id (λ n. record n { status = active }) (λ n. refl) (λ n. refl)))

  pub on_unreachable-Good : (id : String) → Good s (on_unreachable id s).0
  unfolding on_unreachable is_complete
  on_unreachable-Good id = guarded-Good id _ (
      with_cluster-Good id _ (change_pending id (λ n. record n { status = unreachable }))
        (remote_updates id "" unreachable (pos 0) s.cluster).0
        (change_pending-Good id (λ n. record n { status = unreachable }) (λ n. refl) (λ n. refl)))

  pub on_delete_key-Good : (id key : String) → Good s (on_delete_key id key s).0
  unfolding on_delete_key is_complete
  on_delete_key-Good id key =
      guarded-Good id _ (elim (Option-cases (cut_prefix endpoint_prefix key)) [
        | inl f ↦ rw f unchanged
        | inr (j, f) ↦ rw f (
            with_cluster-Good id _ (change_pending id (drop_endpoint j))
              (remote_updates id j active (pos 0) s.cluster).3
              (change_pending-Good id (drop_endpoint j) (λ n. refl) (λ n. refl)))
      ])
