-- ===== src/Upstream/Balancer/Rotation.antt =====
-- The load balancer serves its upstreams in turn.
use piko.Prelude.{
  ℕ, zero, suc, ◌+◌, ◌%◌, ◌<◌, ◌≡◌, refl, sym, ap, ◌∙◌, Option, none, some, List, [], ◌∷◌, length,
  get_elem?, arith,
}
use native.Mathlib.Nat.{mod-add-mod, mod-mod, mod-eq_of_lt}
use piko.Upstream.Balancer.{Conn, LoadBalancer, next}

-- The index points at an upstream.
pub record IsReady (lb : LoadBalancer) : Type 0 where
  pub in_range : lb.next_index < length lb.upstreams

get_elem?-total :
    {A : Type 0} (xs : List A) (i : ℕ) → i < length xs → (x : A) × (get_elem? xs i ≡ some x)
get_elem?-total [] i h = absurd (omega arith)
get_elem?-total (x ∷ xs) zero h = (x, refl)
get_elem?-total (x ∷ xs) (suc i) h = get_elem?-total xs i (omega arith)

next_at :
    (xs : List Conn) (i : ℕ) (u : Conn)
    → get_elem? xs i ≡ some u
    → next (record { upstreams = xs; next_index = i })
      ≡ some (some u, record { upstreams = xs; next_index = (i + 1) % length xs })
unfolding next
next_at [] i u e = cc
next_at (x ∷ xs) i u e = rw e refl

mod_step : (i j n : ℕ) → i % n ≡ j % n → (i + 1) % n ≡ (j + 1) % n
mod_step i j n h = sym (mod-add-mod i n 1) ∙ ap (λ t. (t + 1) % n) h ∙ mod-add-mod j n 1

mod_small : (i n : ℕ) → i < n → (i + 0) % n ≡ i
mod_small i n h = grind arith

pub mod_in_range : (i n : ℕ) → 0 < n → i % n < n
mod_in_range i n h = grind arith

-- The upstreams in turn from an index, round the end of the list.
unfoldable pub turns : List Conn → ℕ → ℕ → List (Option Conn)
turns us i zero = []
turns us i (suc k) = get_elem? us (i % length us) ∷ turns us (i + 1) k

-- A ready balancer returns the upstream at its index, moves the index on by one, round the end, and
-- stays ready.
pub next_lem :
    (lb : LoadBalancer)
    → IsReady lb
    → (u : Conn) × (next lb
        ≡ some (some u, record lb { next_index = (lb.next_index + 1) % length lb.upstreams }))
      × IsReady (record lb { next_index = (lb.next_index + 1) % length lb.upstreams })
next_lem lb r =
    let (u, e) = get_elem?-total lb.upstreams lb.next_index r.in_range in
    (
      u,
      next_at lb.upstreams lb.next_index u e,
      record {
        in_range =
            mod_in_range (lb.next_index + 1) (length lb.upstreams) (omega (arith, r.in_range));
      },
    )

-- The balancer after some calls of `Next`, with the upstreams that they returned.
unfoldable pub next_times : ℕ → LoadBalancer → Option (List (Option Conn) × LoadBalancer)
next_times zero lb = some ([], lb)
next_times (suc n) lb = elim (next lb) [
  | none ↦ none
  | some (u, lb') ↦ elim (next_times n lb') [ none ↦ none | some (us, lb'') ↦ some (u ∷ us, lb'') ]
]

module _ (us : List Conn) where
  abbrev at : ℕ → LoadBalancer
  at i = record { upstreams = us; next_index = i }

  turns_mod : (i j k : ℕ) → i % length us ≡ j % length us → turns us i k ≡ turns us j k
  unfolding turns
  turns_mod i j zero h = refl
  turns_mod i j (suc k) h =
      let tail : turns us (i + 1) k ≡ turns us (j + 1) k =
        turns_mod (i + 1) (j + 1) k (mod_step i j (length us) h) in
      cc (tail)

  -- Any number of calls of `Next` on a ready balancer succeed and return the upstreams in turn, from
  -- the index on, and leave the index that many further, round the end of the list.
  pub next_times_lem :
      (k i : ℕ)
      → i < length us
      → next_times k (at i) ≡ some (turns us i k, at ((i + k) % length us))
  unfolding next_times turns next
  next_times_lem zero i h = rw (mod_small i (length us) h)
  next_times_lem (suc k) i h =
      let n : ℕ = length us in
      let (u, e) = get_elem?-total us i h in
      let rest = next_times_lem k ((i + 1) % n) (mod_in_range (i + 1) n (omega arith)) in
      let same_turns = turns_mod ((i + 1) % n) (i + 1) k (mod-mod (i + 1) n) in
      let last : ((i + 1) % n + k) % n ≡ (i + suc k) % n =
        mod-add-mod (i + 1) n k ∙ ap (λ t. t % n) (omega arith) in
      rw (next_at us i u e, rest, same_turns, last, mod-eq_of_lt h, e) refl
