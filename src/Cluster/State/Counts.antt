-- ===== src/Cluster/State/Counts.antt =====
-- The counts of the local listeners, by which the cluster state and the upstreams agree.
use piko.Prelude.{
  ℕ, zero, suc, ◌+◌, ◌-◌, ◌<◌, String, ◌≡◌, refl, ap, true, some, [], Map, lookup, insert, remove,
  lookup-insert, lookup-remove, Bool-cases, inl, inr, same, ite, arith,
}
use piko.Prelude.Int.{ℤ, pos, above, inc_int, dec_int, is_zero, max_int}
use piko.Cluster.State.{
  Node, State, Effects, listeners, add_local_endpoint, remove_local_endpoint,
  local_endpoint_listeners, set_endpoints, drop_listener, is_missing, notify_local,
}

-- The local node is there and has these listeners.
pub record Counts (f : String → ℕ) (s : State) : Type 0 where
  pub node : Node
  pub here : lookup s.local_id s.nodes ≡ some node
  pub listens : (id : String) → listeners id node.endpoints ≡ pos (f id)

-- One more, and one fewer, at one endpoint.
abbrev pub more : String → (String → ℕ) → String → ℕ
more id f j = ite (same id j) (f j + 1) (f j)

abbrev pub fewer : String → (String → ℕ) → String → ℕ
fewer id f j = ite (same id j) (f j - 1) (f j)

pub listeners-insert :
    (id j : String) (v : ℤ) (m : Map ℤ)
    → listeners j (insert id v m) ≡ ite (same id j) v (listeners j m)
unfolding listeners
listeners-insert id j v m = ground (arith, lookup-insert id j v m)

pub listeners-remove :
    (id j : String) (m : Map ℤ)
    → listeners j (remove id m) ≡ ite (same id j) (pos 0) (listeners j m)
unfolding listeners
listeners-remove id j m = ground (arith, lookup-remove id j m)

set_endpoints-Counts :
    (g : String → ℕ) (n : Node) (m : Map ℤ) (s : State)
    → ((j : String) → listeners j m ≡ pos (g j))
    → Counts g (set_endpoints n m s)
unfolding set_endpoints
set_endpoints-Counts g n m s h = record {
  node = record n { endpoints = m };
  here = ground (arith, lookup-insert s.local_id s.local_id (record n { endpoints = m }) s.nodes);
  listens = h;
}

-- `AddLocalEndpoint` does not panic, and counts one listener more at its endpoint alone.
pub add_local_endpoint-Counts :
    (id : String) (f : String → ℕ) (s : State)
    → Counts f s
    → f id < max_int
    → (r : State × Effects) × (add_local_endpoint id s ≡ some r) × Counts (more id f) r.0
unfolding add_local_endpoint inc_int
add_local_endpoint-Counts id f s c l =
    let v = inc_int (listeners id c.node.endpoints) in
    let e : v ≡ pos (f id + 1) = ground (arith, c.listens id) in
    let m = insert id v c.node.endpoints in
    (
      (set_endpoints c.node m s, notify_local s id),
      rw (c.here, add_local_endpoint) refl,
      set_endpoints-Counts (more id f) c.node m s
          λ j. ground (arith, listeners-insert id j v c.node.endpoints, c.listens j, e),
    )

-- A listener is missing where its count is none.
missing-zero :
    (id : String) (m : Map ℤ) (k : ℕ)
    → listeners id m ≡ pos k
    → is_missing (lookup id m) ≡ true
    → k ≡ 0
unfolding listeners is_missing is_zero
missing-zero id m k h e = ground arith

listeners-drop :
    (id j : String) (m : Map ℤ) (k : ℕ)
    → listeners id m ≡ pos k
    → listeners j (drop_listener id (pos k) m) ≡ ite (same id j) (pos (k - 1)) (listeners j m)
unfolding drop_listener above dec_int
listeners-drop id j m zero h = ground (arith, listeners-remove id j m)
listeners-drop id j m (suc zero) h = ground (arith, listeners-remove id j m)
listeners-drop id j m (suc (suc k)) h = ground (arith, listeners-insert id j (pos (suc k)) m)

-- `RemoveLocalEndpoint` does not panic, and counts one listener fewer at its endpoint alone, but no
-- fewer than none.
pub remove_local_endpoint-Counts :
    (id : String) (f : String → ℕ) (s : State)
    → Counts f s
    → (r : State × Effects) × (remove_local_endpoint id s ≡ some r) × Counts (fewer id f) r.0
unfolding remove_local_endpoint
remove_local_endpoint-Counts id f s c =
    let n = c.node in
    elim (Bool-cases (is_missing (lookup id n.endpoints))) [
      | inl m ↦
          let z : f id ≡ 0 = missing-zero id n.endpoints (f id) (c.listens id) m in
          (
            (s, []),
            rw (c.here, remove_local_endpoint, m) refl,
            record { node = n; here = c.here; listens = λ j. ground (arith, z, c.listens j) },
          )
      | inr m ↦
          let e = drop_listener id (listeners id n.endpoints) n.endpoints in
          (
            (set_endpoints n e s, notify_local s id),
            rw (c.here, remove_local_endpoint, m) refl,
            set_endpoints-Counts (fewer id f) n e s λ j. ground (
              arith,
              ap (λ (v : ℤ). listeners j (drop_listener id v n.endpoints)) (c.listens id),
              listeners-drop id j n.endpoints (f id) (c.listens id),
              c.listens j,
            ),
          )
    ]

-- The counts are what `LocalEndpointListeners` returns.
pub Counts-listeners :
    (id : String) (f : String → ℕ) (s : State)
    → Counts f s
    → local_endpoint_listeners id s ≡ some (pos (f id))
unfolding local_endpoint_listeners
Counts-listeners id f s c = rw c.here (ap some (c.listens id))
