-- ===== src/Upstream/Balancer.antt =====
-- server/upstream/upstream.go, and the load balancer of server/upstream/manager.go.
pub mod Rotation
use mathlib.Core.Option
use piko.Prelude.{
  ℕ, zero, suc, ◌+◌, ◌%◌, String, Bool, true, false, Option, none, some, List, [], ◌∷◌, ◌++◌,
  length, get_elem?, ◌==◌, if◌then◌else◌,
}
use piko.Cluster.State.{Node}

-- `ConnUpstream`: the pointer, by which upstreams are compared, and the fields. The time is in
-- nanoseconds; the session is the library's.
pub record Conn : Type 0 where
  pub pointer : ℕ
  pub endpoint_id : String
  pub name : String
  pub addr : String
  pub connected_at : ℕ

-- The implementations of `Upstream`: `ConnUpstream` and `NodeUpstream`.
pub data Upstream : Type 0 where
  conn : Conn → Upstream
  remote : String → Node → Upstream

-- `EndpointID`
unfoldable pub endpoint_id : Upstream → String
endpoint_id (conn c) = c.endpoint_id
endpoint_id (remote id n) = id

-- `Forward`
unfoldable pub forward : Upstream → Bool
forward (conn c) = false
forward (remote id n) = true

-- `loadBalancer`
pub record LoadBalancer : Type 0 where
  pub upstreams : List Conn
  pub next_index : ℕ

abbrev pub new_balancer : LoadBalancer
new_balancer = record { upstreams = []; next_index = 0 }

-- `Add`
unfoldable pub add : Conn → LoadBalancer → LoadBalancer
add u lb = record lb { upstreams = lb.upstreams ++ u ∷ [] }

-- The list without the first element of this pointer; `none` if there is none.
unfoldable pub remove_first : ℕ → List Conn → Option (List Conn)
remove_first p [] = none
remove_first p (u ∷ us) =
    if u.pointer == p then some us else Option.map (λ rest. u ∷ rest) (remove_first p us)

unfoldable pub is_empty : List Conn → Bool
is_empty [] = true
is_empty (u ∷ us) = false

-- `Remove`: whether the balancer is left empty, and the balancer.
unfoldable pub remove : Conn → LoadBalancer → Bool × LoadBalancer
unfolding remove_first is_empty
remove u lb = elim (remove_first u.pointer lb.upstreams) [
  | none ↦ (is_empty lb.upstreams, lb)
  | some [] ↦ (true, record lb { upstreams = [] })
  | some (x ∷ xs) ↦
      (false, record { upstreams = x ∷ xs; next_index = lb.next_index % length (x ∷ xs) })
]

-- `Next`: a nil upstream where there is none, and `none` for an index out of range.
unfoldable pub next : LoadBalancer → Option (Option Conn × LoadBalancer)
next lb = elim lb.upstreams [
  | [] ↦ some (none, lb)
  | x ∷ xs ↦
      Option.map
        (λ u. (some u, record lb { next_index = (lb.next_index + 1) % length lb.upstreams }))
        (get_elem? lb.upstreams lb.next_index)
]
