-- ===== src/Cluster/State/Endpoints.antt =====
-- Which node an endpoint is routed to, and the count of the local listeners.
use piko.Prelude.{
  String, ◌≡◌, ◌≢◌, inl, inr, true, false, Option, none, some, [], ◌∷◌, Map, lookup, values, IsMap,
  lookup-Absent, Option-cases, Bool-cases, arith,
}
use piko.Prelude.Int.{ℤ, above}
use piko.Cluster.State.{Node, State, active, is_candidate, find_candidate, lookup_endpoint}

-- Another node, active, that has listeners for the endpoint.
pub record Routes (local_id id : String) (n : Node) : Type 0 where
  pub remote : n.id ≢ local_id
  pub active : n.status ≡ active
  pub listeners : (k : ℤ) × (lookup id n.endpoints ≡ some k) × (above k 0 ≡ true)

candidate-Routes :
    (local_id id : String) (n : Node) → is_candidate local_id id n ≡ true → Routes local_id id n
unfolding is_candidate
candidate-Routes local_id id n h = elim (Option-cases (lookup id n.endpoints)) [
  | inl e ↦ absurd (ground arith)
  | inr (k, e) ↦ record {
    remote = ground arith;
    active = ground arith;
    listeners = (k, e, ground arith);
  }
]

Routes-candidate :
    (local_id id : String) (n : Node) → Routes local_id id n → is_candidate local_id id n ≡ true
unfolding is_candidate
Routes-candidate local_id id n r = ground (arith, r.remote, r.active, r.listeners)

module _ (local_id id : String) where
  find-some :
      (m : Map Node) (n : Node)
      → IsMap m
      → find_candidate local_id id (values m) ≡ some n
      → (k : String) × (lookup k m ≡ some n) × (is_candidate local_id id n ≡ true)
  unfolding find_candidate lookup
  find-some [] n i h = absurd (cc)
  find-some ((j, x) ∷ m) n i h = elim (Bool-cases (is_candidate local_id id x)) [
    | inl e ↦ (j, ground arith, ground arith)
    | inr e ↦
        let (k, f, c) = find-some m n i.1 (ground arith) in
        (k, ground (arith, lookup-Absent j m i.0, f), c)
  ]

  find-none :
      (m : Map Node) (k : String) (n : Node)
      → find_candidate local_id id (values m) ≡ none
      → lookup k m ≡ some n
      → is_candidate local_id id n ≡ false
  unfolding find_candidate lookup
  find-none [] k n h g = absurd (cc)
  find-none ((j, x) ∷ m) k n h g = ground (arith, find-none m k n)

-- A right answer to where an endpoint is to be routed: a known node that serves it, or nothing where
-- no known node does.
abbrev pub Answer : String → State → Option Node → Type 0
Answer id s (some n) = (k : String) × (lookup k s.nodes ≡ some n) × Routes s.local_id id n
Answer id s none = (k : String) (n : Node) → lookup k s.nodes ≡ some n → ¬ Routes s.local_id id n

-- The node that `LookupEndpoint` finds is another active node with listeners for the endpoint; and
-- if it finds none there is no such node.
pub lookup_endpoint_lem :
    (id : String) (s : State) → IsMap s.nodes → Answer id s (lookup_endpoint id s)
unfolding lookup_endpoint
lookup_endpoint_lem id s i = elim (Option-cases (find_candidate s.local_id id (values s.nodes))) [
  | inr (n, h) ↦
      let (k, f, c) = find-some s.local_id id s.nodes n i h in
      rw h (k, f, candidate-Routes s.local_id id n c)
  | inl h ↦
      rw h (λ k n f r.
        cc (find-none s.local_id id s.nodes k n h f, Routes-candidate s.local_id id n r))
]
