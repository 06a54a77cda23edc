-- ===== src/Cluster/State/Remote.antt =====
-- The updates of remote nodes change one node, which is known and not the local one, or nothing.
use piko.Prelude.{
  String, ◌≡◌, refl, sym, true≢false, [], ◌∷◌, ◌≢◌, Bool, true, false, none, some, Map, lookup,
  insert, remove, lookup-insert, lookup-remove, Option-cases, inl, inr, same, ite, arith,
}
use piko.Prelude.Int.{ℤ}
use piko.Cluster.State.{
  Node, NodeStatus, State, Effects, nodes_dec, nodes_inc, notify_remote, change_remote_endpoints,
  notify_if, remove_node, update_remote_status, update_remote_endpoint, remove_remote_endpoint,
}

-- What a successful update of the node of this name has found and has left alone.
pub record Change (id : String) (s t : State) : Type 0 where
  pub node : Node
  pub known : lookup id s.nodes ≡ some node
  pub remote : id ≢ s.local_id
  pub local_id : t.local_id ≡ s.local_id
  pub others : (j : String) → id ≢ j → lookup j t.nodes ≡ lookup j s.nodes

-- An update succeeds with such a change, or fails and leaves the state as it was.
pub record Update (id : String) (s : State) (r : Bool × State × Effects) : Type 0 where
  pub succeeds : r.0 ≡ true → Change id s r.1
  pub fails : r.0 ≡ false → r.1 ≡ s

Change-insert :
    (id : String) (s : State) (n n' : Node) (known : lookup id s.nodes ≡ some n)
    → id ≢ s.local_id
    → Change id s (record s { nodes = insert id n' s.nodes })
Change-insert id s n n' known r = record {
  node = n;
  known = known;
  remote = r;
  local_id = refl;
  others = λ j ne. ground (arith, lookup-insert id j n' s.nodes);
}

Change-remove :
    (id : String) (s : State) (n : Node) (known : lookup id s.nodes ≡ some n)
    → id ≢ s.local_id
    → Change id s (record s { nodes = remove id s.nodes })
Change-remove id s n known r = record {
  node = n;
  known = known;
  remote = r;
  local_id = refl;
  others = λ j ne. ground (arith, lookup-remove id j s.nodes);
}

failed : (id : String) (s : State) → Update id s (false, s, [])
failed id s = record { succeeds = λ e. absurd (true≢false (sym e)); fails = λ e. refl }

succeeded : (id : String) (s t : State) (fx : Effects) → Change id s t → Update id s (true, t, fx)
succeeded id s t fx c = record { succeeds = λ e. c; fails = λ e. absurd (true≢false e) }

-- The guards that the updates share.
abbrev guarded : String → State → (Node → State × Effects) → Bool × State × Effects
guarded id s body =
    ite (same id s.local_id) (false, s, [])
      (elim (lookup id s.nodes) [ none ↦ (false, s, []) | some n ↦ (true, (body n).0, (body n).1) ])

guarded-Update :
    (id : String) (s : State) (body : Node → State × Effects)
    → ((n : Node) → lookup id s.nodes ≡ some n → id ≢ s.local_id → Change id s (body n).0)
    → Update id s (guarded id s body)
guarded-Update id s body ok = elim (same id s.local_id) [
  | yes p ↦ let e : guarded id s body ≡ (false, s, []) = ground arith in rw e (failed id s)
  | no p ↦ elim (Option-cases (lookup id s.nodes)) [
    | inl m ↦ let e : guarded id s body ≡ (false, s, []) = ground arith in rw e (failed id s)
    | inr (n, m) ↦
        let e : guarded id s body ≡ (true, (body n).0, (body n).1) = ground arith in
        rw e (succeeded id s (body n).0 (body n).1 (ok n m p))
  ]
]

status-Update :
    (id : String) (status : NodeStatus) (s : State) → Update id s (update_remote_status id status s)
unfolding update_remote_status
status-Update id status s =
    guarded-Update id s
      (λ n. (
        record s { nodes = insert id (record n { status = status }) s.nodes },
        nodes_dec n.status ∷ nodes_inc status ∷ [],
      ))
      (λ n k r. Change-insert id s n (record n { status = status }) k r)

remove-Update : (id : String) (s : State) → Update id s (remove_node id s)
unfolding remove_node
remove-Update id s =
    guarded-Update id s (λ n. (record s { nodes = remove id s.nodes }, nodes_dec n.status ∷ []))
      (λ n k r. Change-remove id s n k r)

module _ (id : String) (change : Map ℤ → Map ℤ) (endpoint_id : String) (s : State) where
  endpoints-Update : Update id s (notify_if s id endpoint_id (change_remote_endpoints id change s))
  unfolding change_remote_endpoints notify_if
  endpoints-Update = elim (same id s.local_id) [
    | yes p ↦
        let e : change_remote_endpoints id change s ≡ (false, s) = ground arith in
        rw e (failed id s)
    | no p ↦ elim (Option-cases (lookup id s.nodes)) [
      | inl m ↦
          let e : change_remote_endpoints id change s ≡ (false, s) = ground arith in
          rw e (failed id s)
      | inr (n, m) ↦
          let n' : Node = record n { endpoints = change n.endpoints } in
          let e : change_remote_endpoints id change s
              ≡ (true, record s { nodes = insert id n' s.nodes }) =
            ground arith in
          rw e (
            succeeded id s (record s { nodes = insert id n' s.nodes })
              (notify_remote s id endpoint_id) (Change-insert id s n n' m p))
    ]
  ]

-- Each of the four updates of a remote node succeeds only where the node is known and is not the
-- local node, and then leaves every other node alone; or it fails and changes nothing.
pub remote_updates :
    (id endpoint_id : String) (status : NodeStatus) (k : ℤ) (s : State)
    → Update id s (update_remote_status id status s)
      × Update id s (remove_node id s)
      × Update id s (update_remote_endpoint id endpoint_id k s)
      × Update id s (remove_remote_endpoint id endpoint_id s)
unfolding update_remote_endpoint remove_remote_endpoint
remote_updates id endpoint_id status k s = (
  status-Update id status s,
  remove-Update id s,
  endpoints-Update id (insert endpoint_id k) endpoint_id s,
  endpoints-Update id (remove endpoint_id) endpoint_id s,
)
