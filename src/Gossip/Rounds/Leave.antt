-- ===== src/Gossip/Rounds/Leave.antt =====
-- Which nodes `Leave` tells.
use piko.Prelude.{
  ℕ, zero, suc, ◌+◌, String, ◌≡◌, ◌≢◌, refl, Bool, true, false, not, ◌&&◌, Option, none, some, List,
  [], ◌∷◌, keep, if◌then◌else◌, same, Bool-cases, Option-cases, inl, inr, arith,
}
use piko.Gossip.State.{NodeMetadata}
use piko.Gossip.Protocol.{Error}
use piko.Gossip.Rounds.{is_skipped, leave_loop, leave_nodes}

-- Whether a node may be told: another one, which has not left and is not unreachable.
unfoldable pub may_tell : String → NodeMetadata → Bool
may_tell local_id n = elim (same n.id local_id) [
  | yes p ↦ false
  | no p ↦ not n.left && not n.unreachable
]

abbrev is_none : Option Error → Bool
is_none none = true
is_none (some e) = false

-- The nodes that may be told, and that hear of it.
unfoldable pub hearers :
    (NodeMetadata → Option Error) → String → List NodeMetadata → List NodeMetadata
unfolding may_tell
hearers tell local_id = keep (λ n. may_tell local_id n && is_none (tell n))

-- Up to `k` of the names of some nodes, from the first on.
unfoldable pub first_ids : ℕ → List NodeMetadata → List String
first_ids zero ns = []
first_ids (suc k) [] = []
first_ids (suc k) (n ∷ ns) = n.id ∷ first_ids k ns

-- The error of the last node that may be told and does not hear of it, after an earlier error.
unfoldable pub last_failure :
    (NodeMetadata → Option Error) → String → List NodeMetadata → Option Error → Option Error
unfolding may_tell
last_failure tell local_id [] e = e
last_failure tell local_id (n ∷ ns) e =
    let a : Option Error = last_failure tell local_id ns (tell n) in
    let b : Option Error = last_failure tell local_id ns e in
    if may_tell local_id n && not (is_none (tell n)) then a else b

-- The error of a `Leave` that told some nodes.
unfoldable pub error_of : List String → Option Error → Option Error
error_of [] e = e
error_of (id ∷ ids) e = none

may_tell_lem :
    (local_id : String) (n : NodeMetadata) → is_skipped local_id n ≡ not (may_tell local_id n)
unfolding is_skipped may_tell
may_tell_lem local_id n = ground arith

-- A node that is told is the next of them, and the last one where there is room for no other.
told_next :
    (tell : NodeMetadata → Option Error) (local_id : String) (n : NodeMetadata)
    (ns : List NodeMetadata) (k m : ℕ) (e : Option Error)
    → k + m ≡ 3
    → may_tell local_id n ≡ true
    → tell n ≡ none
    → ((m' : ℕ) (e' : Option Error)
        → k + 1 + m' ≡ 3
        → (leave_loop tell local_id ns (k + 1) e').0
          ≡ first_ids (suc m') (hearers tell local_id ns))
    → (leave_loop tell local_id (n ∷ ns) k e).0 ≡ first_ids (suc m) (hearers tell local_id (n ∷ ns))
unfolding leave_loop hearers first_ids
told_next tell local_id n ns k zero e l s f ih = ground (arith, may_tell_lem local_id n)
told_next tell local_id n ns k (suc m) e l s f ih =
    ground (arith, may_tell_lem local_id n, ih m e (omega (arith, l)))

-- The loop with room for `m` more nodes after the next one.
leave_loop-hearers :
    (tell : NodeMetadata → Option Error) (local_id : String) (ns : List NodeMetadata) (k m : ℕ)
    (e : Option Error)
    → k + m ≡ 3
    → (leave_loop tell local_id ns k e).0 ≡ first_ids (suc m) (hearers tell local_id ns)
unfolding leave_loop hearers first_ids
leave_loop-hearers tell local_id [] k m e l = refl
leave_loop-hearers tell local_id (n ∷ ns) k m e l = elim (Bool-cases (may_tell local_id n)) [
  | inr s ↦ ground (arith, may_tell_lem local_id n, leave_loop-hearers tell local_id ns k m e l)
  | inl s ↦ elim (Option-cases (tell n)) [
    | inr (x, f) ↦
        ground (arith, may_tell_lem local_id n, leave_loop-hearers tell local_id ns k m (some x) l)
    | inl f ↦ told_next tell local_id n ns k m e l s f (leave_loop-hearers tell local_id ns (k + 1))
  ]
]

leave_loop-told :
    (tell : NodeMetadata → Option Error) (local_id : String) (ns : List NodeMetadata) (k : ℕ)
    (e : Option Error)
    → k ≢ 0
    → (leave_loop tell local_id ns k e).1 ≡ none
unfolding leave_loop
leave_loop-told tell local_id [] k e l = ground arith
leave_loop-told tell local_id (n ∷ ns) k e l = elim (Bool-cases (is_skipped local_id n)) [
  | inl s ↦ ground (arith, leave_loop-told tell local_id ns k e l)
  | inr s ↦ elim (Option-cases (tell n)) [
    | inr (x, f) ↦ ground (arith, leave_loop-told tell local_id ns k (some x) l)
    | inl f ↦ ground (arith, leave_loop-told tell local_id ns (k + 1) e)
  ]
]

leave_loop-error :
    (tell : NodeMetadata → Option Error) (local_id : String) (ns : List NodeMetadata)
    (e : Option Error)
    → (leave_loop tell local_id ns 0 e).1
      ≡ error_of (leave_loop tell local_id ns 0 e).0 (last_failure tell local_id ns e)
unfolding leave_loop last_failure error_of
leave_loop-error tell local_id [] e = ground arith
leave_loop-error tell local_id (n ∷ ns) e = elim (Bool-cases (may_tell local_id n)) [
  | inr s ↦ ground (arith, may_tell_lem local_id n, leave_loop-error tell local_id ns e)
  | inl s ↦ elim (Option-cases (tell n)) [
    | inr (x, f) ↦
        ground (arith, may_tell_lem local_id n, leave_loop-error tell local_id ns (some x))
    | inl f ↦ ground (arith, may_tell_lem local_id n, leave_loop-told tell local_id ns 1 e)
  ]
]

-- `Leave` tells the first four, in the order of the shuffle, of the nodes that are not the local one,
-- have not left, are not unreachable and can be told, and passes over the others. It returns no
-- error where it told a node, and else the error of the last node that it failed to tell, if any.
pub leave_nodes-told :
    (tell : NodeMetadata → Option Error) (local_id : String) (ns : List NodeMetadata)
    → let r = leave_nodes tell local_id ns in
      (r.0 ≡ first_ids 4 (hearers tell local_id ns))
      × (r.1 ≡ error_of r.0 (last_failure tell local_id ns none))
unfolding leave_nodes
leave_nodes-told tell local_id ns =
    (leave_loop-hearers tell local_id ns 0 3 none refl, leave_loop-error tell local_id ns none)
