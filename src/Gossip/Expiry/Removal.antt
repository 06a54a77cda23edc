-- ===== src/Gossip/Expiry/Removal.antt =====
-- `RemoveExpiredAt` removes exactly the nodes whose expiry has passed, and buries them.
use piko.Prelude.{
  ℕ, ◌≤◌, ◌<◌, String, ◌≡◌, refl, sym, ap, ◌∙◌, ◌≢◌, ◌⊎◌, inl, inr, true, false, none, some, List,
  [], ◌∷◌, Map, lookup, insert, remove, lookup-insert, lookup-remove, Bool-cases, IsMap,
  lookup-Absent, same, arith,
}
use piko.Gossip.State.{NodeState, ClusterState}
use piko.Gossip.Expiry.{keep_tombstones, is_expired, expired_ids, expire, remove_expired_at}

abbrev pub Among : String → List String → Type 0
Among id [] = ⊥
Among id (i ∷ ids) = (i ≡ id) ⊎ Among id ids

among? : (id : String) (ids : List String) → Dec (Among id ids)
among? id [] = no (λ h. h)
among? id (i ∷ ids) = elim (same i id) [
  | yes p ↦ yes (inl p)
  | no n ↦ elim (among? id ids) [
    | yes p ↦ yes (inr p)
    | no m ↦ no (λ h. elim h [ inl p ↦ n p | inr p ↦ m p ])
  ]
]

module _ (t : ℕ) (id : String) where
  expire-other :
      (ids : List String) (s : ClusterState)
      → ¬ Among id ids
      → (lookup id (expire t ids s).0.nodes ≡ lookup id s.nodes)
        × (lookup id (expire t ids s).0.tombstones ≡ lookup id s.tombstones)
  unfolding expire
  expire-other [] s n = (refl, refl)
  expire-other (i ∷ ids) s n =
      let s' : ClusterState = record s {
        nodes = remove i s.nodes;
        tombstones = insert i t s.tombstones;
      } in
      let rest = expire-other ids s' (λ h. n (inr h)) in
      let ne : i ≢ id = λ p. n (inl p) in
      ground (arith, rest, ne, lookup-remove i id s.nodes, lookup-insert i id t s.tombstones)

  -- Once it is gone it stays so, with its tombstone.
  expire-kept :
      (ids : List String) (s : ClusterState)
      → lookup id s.nodes ≡ none
      → lookup id s.tombstones ≡ some t
      → (lookup id (expire t ids s).0.nodes ≡ none)
        × (lookup id (expire t ids s).0.tombstones ≡ some t)
  unfolding expire
  expire-kept [] s h g = (h, g)
  expire-kept (i ∷ ids) s h g =
      expire-kept ids (record s { nodes = remove i s.nodes; tombstones = insert i t s.tombstones })
        (ground (arith, lookup-remove i id s.nodes))
        (ground (arith, lookup-insert i id t s.tombstones))

  expire-Among :
      (ids : List String) (s : ClusterState)
      → Among id ids
      → (lookup id (expire t ids s).0.nodes ≡ none)
        × (lookup id (expire t ids s).0.tombstones ≡ some t)
  unfolding expire
  expire-Among [] s h = absurd h
  expire-Among (i ∷ ids) s (inl p) =
      expire-kept ids (record s { nodes = remove i s.nodes; tombstones = insert i t s.tombstones })
        (ground (arith, lookup-remove i id s.nodes))
        (ground (arith, lookup-insert i id t s.tombstones))
  expire-Among (i ∷ ids) s (inr h) = expire-Among ids _ h

local_id-expire :
    (t : ℕ) (ids : List String) (s : ClusterState) → (expire t ids s).0.local_id ≡ s.local_id
unfolding expire
local_id-expire t [] s = refl
local_id-expire t (i ∷ ids) s = local_id-expire t ids _

-- Each node of the map is stored under its own name.
abbrev pub NamedNodes : Map NodeState → Type 0
NamedNodes m = (id : String) (n : NodeState) → lookup id m ≡ some n → n.metadata.id ≡ id

module _ (t : ℕ) (id : String) (n : NodeState) where
  expired-Among :
      (m : Map NodeState)
      → lookup id m ≡ some n
      → n.metadata.id ≡ id
      → is_expired t n ≡ true
      → Among id (expired_ids t m)
  unfolding lookup expired_ids
  expired-Among [] h p e = cc
  expired-Among ((k, x) ∷ m) h p e = ground (arith, expired-Among m)

Among-lookup :
    (t : ℕ) (id : String) (m : Map NodeState)
    → IsMap m
    → Among id (expired_ids t m)
    → (k : String) × (x : NodeState) × (lookup k m ≡ some x)
      × (x.metadata.id ≡ id)
      × (is_expired t x ≡ true)
unfolding lookup expired_ids
Among-lookup t id [] i a = absurd a
Among-lookup t id ((j, y) ∷ m) i a = elim (Bool-cases (is_expired t y)) [
  | inr e ↦
      let (k, x, h, p, q) = Among-lookup t id m i.1 (rw e at a) in
      (k, x, ground (arith, lookup-Absent j m i.0, h), p, q)
  | inl e ↦
      elim (rw e at a)
        as (λ _.
          (k : String) × (x : NodeState) × (lookup k ((j, y) ∷ m) ≡ some x)
          × (x.metadata.id ≡ id)
          × (is_expired t x ≡ true)) [
            | inl p ↦ (j, y, ground arith, p, e)
            | inr b ↦
                let (k, x, h, p, q) = Among-lookup t id m i.1 b in
                (k, x, ground (arith, lookup-Absent j m i.0, h), p, q)
          ]
]

-- What a removal at time `t` leaves of a node that was there, by its expiry, which is 0 where it is
-- not set: an expired node is gone and has its tombstone, any other node is as it was.
pub record Outcome (t : ℕ) (id : String) (n : NodeState) (s : ClusterState) : Type 0 where
  pub expired :
      n.metadata.expiry ≢ 0
      → n.metadata.expiry < t
      → (lookup id s.nodes ≡ none) × (lookup id s.tombstones ≡ some t)
  pub unset : n.metadata.expiry ≡ 0 → lookup id s.nodes ≡ some n
  pub pending : t ≤ n.metadata.expiry → lookup id s.nodes ≡ some n

is_expired-true :
    (t : ℕ) (n : NodeState) → n.metadata.expiry ≢ 0 → n.metadata.expiry < t → is_expired t n ≡ true
unfolding is_expired
is_expired-true t n set past = ground arith

is_expired-unset : (t : ℕ) (n : NodeState) → n.metadata.expiry ≡ 0 → is_expired t n ≡ false
unfolding is_expired
is_expired-unset t n h = ground arith

is_expired-pending : (t : ℕ) (n : NodeState) → t ≤ n.metadata.expiry → is_expired t n ≡ false
unfolding is_expired
is_expired-pending t n h = ground arith

module _ (t : ℕ) (id : String) (n : NodeState) (s : ClusterState) (i : IsMap s.nodes)
    (nm : NamedNodes s.nodes) (h : lookup id s.nodes ≡ some n) where
  abbrev swept : ClusterState
  swept = record s { tombstones = keep_tombstones t s.tombstones }

  removed :
      is_expired t n ≡ true
      → (lookup id (remove_expired_at t s).0.nodes ≡ none)
        × (lookup id (remove_expired_at t s).0.tombstones ≡ some t)
  unfolding remove_expired_at
  removed e =
      expire-Among t id (expired_ids t s.nodes) swept (expired-Among t id n s.nodes h (nm id n h) e)

  kept : is_expired t n ≡ false → lookup id (remove_expired_at t s).0.nodes ≡ some n
  unfolding remove_expired_at
  kept e =
      (expire-other t id (expired_ids t s.nodes) swept λ a.
        let (k, x, g, p, q) = Among-lookup t id s.nodes i a in
        let at : lookup id s.nodes ≡ some x = ap (λ j. lookup j s.nodes) (sym p ∙ nm k x g) ∙ g in
        ground (arith, at, h, e, q)).0
      ∙ h

-- A removal drops each node whose expiry is set and before its time, and leaves its tombstone at the
-- time; it keeps as it is each node whose expiry is not set, or not before the time. The nodes stand
-- under their own names.
pub remove_expired_at-Outcome :
    (t : ℕ) (id : String) (n : NodeState) (s : ClusterState)
    → IsMap s.nodes
    → NamedNodes s.nodes
    → lookup id s.nodes ≡ some n
    → Outcome t id n (remove_expired_at t s).0
remove_expired_at-Outcome t id n s i nm h = record {
  expired = λ set past. removed t id n s i nm h (is_expired-true t n set past);
  unset = λ e. kept t id n s i nm h (is_expired-unset t n e);
  pending = λ e. kept t id n s i nm h (is_expired-pending t n e);
}
