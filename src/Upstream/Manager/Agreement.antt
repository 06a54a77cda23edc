-- ===== src/Upstream/Manager/Agreement.antt =====
-- The upstreams of the manager and the counts of its cluster state agree, and no balancer panics.
use piko.Prelude.{
  ℕ, suc, ◌+◌, ◌-◌, ◌%◌, ◌<◌, String, ◌≡◌, refl, sym, ap, subst, ◌∙◌, ◌≢◌, Bool, true, false,
  Option, none, some, List, [], ◌∷◌, ◌++◌, map, Map, lookup, insert, remove, length, length-append,
  lookup-insert, lookup-remove, Option-cases, inl, inr, same, ite, arith,
}
use piko.Prelude.Int.{pos, max_int}
use piko.Cluster.State
use piko.Cluster.State.{State}
use piko.Cluster.State.Counts.{
  Counts, more, fewer, add_local_endpoint-Counts, remove_local_endpoint-Counts, Counts-listeners,
}
use piko.Upstream.Balancer
use piko.Upstream.Balancer.{Conn, Upstream, LoadBalancer, remove_first, new_balancer, conn}
use piko.Upstream.Balancer.Rotation.{IsReady, next_lem, mod_in_range}
use piko.Upstream.Manager.{
  Manager, Effects, of_cluster, connected_inc, connected_dec, upstream_request, balancer, add_conn,
  put_balancer, remove_conn, select, select_remote, is_some,
}

-- The number of the local upstreams of an endpoint.
unfoldable pub connected : Manager → String → ℕ
connected m id = elim (lookup id m.local_upstreams) [ none ↦ 0 | some lb ↦ length lb.upstreams ]

-- Each balancer can serve, and the cluster state counts the upstreams of each endpoint.
pub record Agrees (m : Manager) : Type 0 where
  pub ready : (id : String) (lb : LoadBalancer) → lookup id m.local_upstreams ≡ some lb → IsReady lb
  pub counts : Counts (connected m) m.cluster

Counts-ext :
    (f g : String → ℕ) (s : State) → ((id : String) → f id ≡ g id) → Counts f s → Counts g s
Counts-ext f g s e c = record {
  node = c.node;
  here = c.here;
  listens = λ id. c.listens id ∙ ap pos (e id);
}

module _ (m : Manager) (id : String) (c : State) where
  abbrev with_balancer : LoadBalancer → Manager
  with_balancer lb = record { local_upstreams = insert id lb m.local_upstreams; cluster = c }

  abbrev without_balancer : Manager
  without_balancer = record { local_upstreams = remove id m.local_upstreams; cluster = c }

  connected-insert :
      (lb : LoadBalancer) (j : String)
      → connected (with_balancer lb) j ≡ ite (same id j) (length lb.upstreams) (connected m j)
  unfolding connected
  connected-insert lb j = ground (arith, lookup-insert id j lb m.local_upstreams)

  connected-remove : (j : String) → connected without_balancer j ≡ ite (same id j) 0 (connected m j)
  unfolding connected
  connected-remove j = ground (arith, lookup-remove id j m.local_upstreams)

  module _ (a : Agrees m) where
    -- The balancers with one put in place agree with counts that differ at its endpoint alone.
    with_balancer-Agrees :
        (lb : LoadBalancer) (f : String → ℕ)
        → IsReady lb
        → ((j : String) → f j ≡ ite (same id j) (length lb.upstreams) (connected m j))
        → Counts f c
        → Agrees (with_balancer lb)
    with_balancer-Agrees lb f r e k = record {
      ready = λ j x h. elim (same id j) [
        | yes p ↦
            let one : lb ≡ x = ground (arith, lookup-insert id j lb m.local_upstreams, p) in
            subst IsReady one r
        | no n ↦ a.ready j x (ground (arith, lookup-insert id j lb m.local_upstreams, n))
      ];
      counts =
          Counts-ext f (connected (with_balancer lb)) c (λ j. e j ∙ sym (connected-insert lb j)) k;
    }

    without_balancer-Agrees :
        (f : String → ℕ)
        → ((j : String) → f j ≡ ite (same id j) 0 (connected m j))
        → Counts f c
        → Agrees without_balancer
    without_balancer-Agrees f e k = record {
      ready = λ j x h. a.ready j x (ground (arith, lookup-remove id j m.local_upstreams));
      counts = Counts-ext f (connected without_balancer) c (λ j. e j ∙ sym (connected-remove j)) k;
    }

connected_here :
    (m : Manager) (id : String) (lb : LoadBalancer)
    → lookup id m.local_upstreams ≡ some lb
    → connected m id ≡ length lb.upstreams
unfolding connected
connected_here m id lb e = rw (e, connected) refl

balancer-length :
    (m : Manager) (id : String)
    → length (balancer id m.local_upstreams).0.upstreams ≡ connected m id
unfolding balancer connected
balancer-length m id = ground arith

add-IsReady :
    (u : Conn) (m : Manager)
    → Agrees m
    → IsReady (Balancer.add u (balancer u.endpoint_id m.local_upstreams).0)
unfolding Balancer.add balancer
add-IsReady u m a = elim (Option-cases (lookup u.endpoint_id m.local_upstreams)) [
  | inl e ↦ rw (e, balancer) (record { in_range = omega arith })
  | inr (lb, e) ↦
      rw (e, balancer)
        (record {
          in_range = omega (
            arith,
            (a.ready u.endpoint_id lb e).in_range,
            length-append {0} lb.upstreams (u ∷ []),
          );
        })
]

length-add :
    (u : Conn) (m : Manager)
    → length (Balancer.add u (balancer u.endpoint_id m.local_upstreams).0).upstreams
      ≡ connected m u.endpoint_id + 1
unfolding Balancer.add
length-add u m = omega (
  arith,
  balancer-length m u.endpoint_id,
  length-append {0} (balancer u.endpoint_id m.local_upstreams).0.upstreams (u ∷ []),
)

-- Adding a connection does not panic, and the balancers and the counts still agree, while the count
-- of the endpoint is below the largest int.
pub add_conn-Agrees :
    (u : Conn) (m : Manager)
    → Agrees m
    → connected m u.endpoint_id < max_int
    → (r : Manager × Effects) × (add_conn u m ≡ some r) × Agrees r.0
unfolding add_conn
add_conn-Agrees u m a l =
    let id = u.endpoint_id in
    let (c, e, k) = add_local_endpoint-Counts id (connected m) m.cluster a.counts l in
    let b = balancer id m.local_upstreams in
    let lb = Balancer.add u b.0 in
    (
      (with_balancer m id c.0 lb, b.1 ++ map of_cluster c.1 ++ connected_inc ∷ []),
      rw (e, add_conn) refl,
      with_balancer-Agrees m id c.0 a lb (more id (connected m)) (add-IsReady u m a)
          (λ j. ground (arith, length-add u m)) k,
    )

length-remove_first :
    (p : ℕ) (us rest : List Conn) → remove_first p us ≡ some rest → length us ≡ suc (length rest)
unfolding remove_first
length-remove_first p [] rest h = cc
length-remove_first p (u ∷ us) rest h = elim (Option-cases (remove_first p us)) [
  | inl e ↦ ground arith
  | inr (r, e) ↦ ground (arith, length-remove_first p us r e)
]

-- The balancers without a connection of this endpoint.
module _ (u : Conn) (m : Manager) (lb : LoadBalancer) (a : Agrees m)
    (here : lookup u.endpoint_id m.local_upstreams ≡ some lb) where
  here_connected : connected m u.endpoint_id ≡ length lb.upstreams
  unfolding connected
  here_connected = rw (here, connected) refl

  abbrev left_over : Map LoadBalancer × Effects
  left_over = put_balancer u.endpoint_id (Balancer.remove u lb) m.local_upstreams

  remove_conn_lem :
      (c : State × List State.Effect)
      → State.remove_local_endpoint u.endpoint_id m.cluster ≡ some c
      → remove_conn u m
        ≡ some (
          record { local_upstreams = left_over.0; cluster = c.0 },
          left_over.1 ++ map of_cluster c.1 ++ connected_dec ∷ [],
        )
  unfolding remove_conn put_balancer
  remove_conn_lem c e = rw (here, remove_conn, e) refl

  left_over-nil :
      remove_first u.pointer lb.upstreams ≡ some []
      → left_over.0 ≡ remove u.endpoint_id m.local_upstreams
  unfolding put_balancer Balancer.remove
  left_over-nil g = rw (g, Balancer.remove) refl

  left_over-cons :
      (x : Conn) (xs : List Conn)
      → remove_first u.pointer lb.upstreams ≡ some (x ∷ xs)
      → left_over.0
        ≡ insert u.endpoint_id
            (record { upstreams = x ∷ xs; next_index = lb.next_index % length (x ∷ xs) })
            m.local_upstreams
  unfolding put_balancer Balancer.remove
  left_over-cons x xs g = rw (g, Balancer.remove) refl

  kept-Agrees :
      (rest : List Conn) (c : State)
      → remove_first u.pointer lb.upstreams ≡ some rest
      → Counts (fewer u.endpoint_id (connected m)) c
      → Agrees (record { local_upstreams = left_over.0; cluster = c })
  kept-Agrees [] c g k =
      let n = length-remove_first u.pointer lb.upstreams [] g in
      rw (left_over-nil g) (
        without_balancer-Agrees m u.endpoint_id c a (fewer u.endpoint_id (connected m))
          (λ j. ground (arith, here_connected, n)) k)
  kept-Agrees (x ∷ xs) c g k =
      let n = length-remove_first u.pointer lb.upstreams (x ∷ xs) g in
      rw (left_over-cons x xs g) (
        with_balancer-Agrees m u.endpoint_id c a _ (fewer u.endpoint_id (connected m))
          (record { in_range = mod_in_range lb.next_index (length (x ∷ xs)) (omega arith) })
          (λ j. ground (arith, here_connected, n)) k)

  -- Removing a connection that is registered does not panic, and the balancers and the counts still
  -- agree: the endpoint of the last connection is dropped from both.
  pub remove_conn-Agrees :
      (rest : List Conn)
      → remove_first u.pointer lb.upstreams ≡ some rest
      → (r : Manager × Effects) × (remove_conn u m ≡ some r) × Agrees r.0
  remove_conn-Agrees rest g =
      let (c, e, k) = remove_local_endpoint-Counts u.endpoint_id (connected m) m.cluster a.counts in
      (
        (
          record { local_upstreams = left_over.0; cluster = c.0 },
          left_over.1 ++ map of_cluster c.1 ++ connected_dec ∷ [],
        ),
        remove_conn_lem c e,
        kept-Agrees rest c.0 g k,
      )

  left_over-none :
      remove_first u.pointer lb.upstreams ≡ none
      → lb.upstreams ≢ []
      → left_over.0 ≡ insert u.endpoint_id lb m.local_upstreams
  unfolding put_balancer Balancer.remove Balancer.is_empty
  left_over-none g n = rw (g, Balancer.remove) (ground arith)

  -- Removing a connection of a known endpoint that is not registered there, as a second removal
  -- would be, takes one listener of the endpoint from the cluster state although every upstream
  -- stays connected.
  pub remove_conn_unregistered :
      remove_first u.pointer lb.upstreams ≡ none
      → (r : Manager × Effects) × (remove_conn u m ≡ some r)
        × (connected r.0 u.endpoint_id ≡ length lb.upstreams)
        × (State.local_endpoint_listeners u.endpoint_id r.0.cluster
            ≡ some (pos (length lb.upstreams - 1)))
  remove_conn_unregistered g =
      let (c, e, k) = remove_local_endpoint-Counts u.endpoint_id (connected m) m.cluster a.counts in
      let r : Manager = record { local_upstreams = left_over.0; cluster = c.0 } in
      let ne : lb.upstreams ≢ [] =
        λ p. omega (arith, (a.ready u.endpoint_id lb here).in_range, ap length p) in
      (
        (r, left_over.1 ++ map of_cluster c.1 ++ connected_dec ∷ []),
        remove_conn_lem c e,
        rw (left_over-none g ne)
            (ground (arith, connected-insert m u.endpoint_id c.0 lb u.endpoint_id)),
        Counts-listeners u.endpoint_id _ c.0 k ∙ ground (arith, here_connected),
      )

-- Selecting does not panic, and the balancers and the counts still agree.
pub select-Agrees :
    (id : String) (allow_remote : Bool) (m : Manager)
    → Agrees m
    → (r : Option Upstream × Bool × Manager × Effects) × (select id allow_remote m ≡ some r)
      × Agrees r.2
unfolding select
select-Agrees id allow_remote m a = elim (Option-cases (lookup id m.local_upstreams)) [
  | inl e ↦
      elim allow_remote
        as (λ b.
          (r : Option Upstream × Bool × Manager × Effects) × (select id b m ≡ some r)
          × Agrees r.2) [
            | true ↦ (
              ((select_remote id m).0, is_some (select_remote id m).0, m, (select_remote id m).1),
              rw (e, select) refl,
              a,
            )
            | false ↦ ((none, false, m, []), rw (e, select) refl, a)
          ]
  | inr (lb, e) ↦
      let (u, g, r) = next_lem lb (a.ready id lb e) in
      let lb' : LoadBalancer = record lb {
        next_index = (lb.next_index + 1) % length lb.upstreams;
      } in
      (
        (some (conn u), true, with_balancer m id m.cluster lb', upstream_request ∷ []),
        rw (e, select, g) refl,
        with_balancer-Agrees m id m.cluster a lb' (connected m) r
            (λ j. ground (arith, connected_here m id lb e)) a.counts,
      )
]
