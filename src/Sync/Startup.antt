-- ===== src/Sync/Startup.antt =====
-- server/gossip/gossip.go: joining a cluster when a node starts. An error is a text.
use piko.Prelude.{
  ℕ, ◌+◌, ◌*◌, ◌≤◌, ◌≡◌, ◌≢◌, String, Bool, Bool-cases, Result-cases, Option-cases, Option, none,
  some, List, [], ◌∷◌, length, if◌then◌else◌, Result, ok, err, inl, inr, arith,
}
use piko.Prelude.Int.{ℤ, pos}
use piko.Backoff.{Backoff, new_backoff, back_off}

abbrev pub second : ℕ
second = 1000000000

-- What a round of the loop meets: what Join returns, and whether the context is done before the wait
-- that follows a failure is over.
pub record Round : Type 0 where
  pub joined : Result String (List String)
  pub is_done : Bool

-- Where the loop has got to: the nodes, an error if there is one, or another round.
pub data Startup : Type 0 where
  joined : List String → Startup
  gave_up : Option String → Startup
  joining : Startup

-- The loop of `JoinOnStartup` over the rounds to come. The error that it returns when it stops
-- retrying is the one of the round before.
unfoldable pub join_loop : (ℤ → ℤ) → List Round → Backoff → Option String → Startup
unfolding back_off
join_loop jitter [] b last = joining
join_loop jitter (r ∷ rounds) b last =
    let next = back_off jitter b in
    elim r.joined [
      | ok ids ↦ joined ids
      | err e ↦
          let rest = join_loop jitter rounds next.1 (some e) in
          elim next.0 [
            | none ↦ gave_up last
            | some wait ↦ if r.is_done then gave_up (some e) else rest
          ]
    ]

-- `JoinOnStartup`
unfoldable pub join_on_startup : (ℤ → ℤ) → List Round → Startup
unfolding join_loop new_backoff
join_on_startup jitter rounds =
    join_loop jitter rounds (new_backoff 5 (pos second) (pos (60 * second))) none

granted-attempts :
    (jitter : ℤ → ℤ) (b : Backoff) (wait : ℤ)
    → b.retries ≢ 0
    → b.attempts ≤ b.retries + 1
    → (back_off jitter b).0 ≡ some wait
    → ((back_off jitter b).1.attempts ≡ b.attempts + 1)
      × ((back_off jitter b).1.retries ≡ b.retries)
      × (b.attempts ≤ b.retries)
unfolding back_off
granted-attempts jitter b wait n l h = ground arith

joining-ids : (ids : List String) → joined ids ≢ joining
joining-ids ids h = ground (arith, h)

joining-error : (e : Option String) → gave_up e ≢ joining
joining-error e h = ground (arith, h)

join_loop-ends :
    (jitter : ℤ → ℤ) (rounds : List Round) (b : Backoff) (last : Option String)
    → b.retries ≢ 0
    → b.attempts ≤ b.retries + 1
    → b.retries + 2 ≤ length rounds + b.attempts
    → join_loop jitter rounds b last ≢ joining
unfolding join_loop
join_loop-ends jitter [] b last n l m = absurd (omega arith)
join_loop-ends jitter (r ∷ rounds) b last n l m = elim (Result-cases r.joined) [
  | inl (ids, p) ↦ rw (p, join_loop) (joining-ids ids)
  | inr (e, p) ↦ elim (Option-cases (back_off jitter b).0) [
    | inl q ↦ rw (p, join_loop, q) (joining-error last)
    | inr (wait, q) ↦ elim (Bool-cases r.is_done) [
      | inl d ↦ rw (p, join_loop, q, d) (joining-error (some e))
      | inr d ↦
          let (a, k, few) = granted-attempts jitter b wait n l q in
          rw (p, join_loop, q, d)
            (join_loop-ends jitter rounds (back_off jitter b).1 (some e) (rw k n)
              (omega (arith, a, k, few)) (omega (arith, a, k, m)))
    ]
  ]
]

-- Joining on startup comes to an end: of seven rounds, each with whatever Join returns and however
-- the context is, none is left to come.
pub join_on_startup-ends :
    (jitter : ℤ → ℤ) (rounds : List Round)
    → 7 ≤ length rounds
    → join_on_startup jitter rounds ≢ joining
unfolding join_on_startup new_backoff
join_on_startup-ends jitter rounds h =
    join_loop-ends jitter rounds (new_backoff 5 (pos second) (pos (60 * second))) none (omega arith)
      (omega arith) (omega arith)
