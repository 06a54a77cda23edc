-- ===== src/Backoff/Attempts.antt =====
-- pkg/backoff/backoff.go: how often a caller may try.
use piko.Prelude.Int.{ℤ}
use piko.Prelude.{
  ℕ, zero, suc, ◌+◌, ◌-◌, ◌≤◌, ◌≡◌, refl, ap, ◌∙◌, ◌==◌, ltb, Bool-cases, Option, none, some, List,
  [], ◌∷◌, if◌then◌else◌, ◌≢◌, inl, inr, arith,
}
use piko.Backoff.{Backoff, new_backoff, back_off, next_wait, calls}

-- The calls that let the caller try again.
unfoldable pub granted : List (Option ℤ) → ℕ
granted [] = 0
granted (none ∷ rs) = granted rs
granted (some w ∷ rs) = suc (granted rs)

unfoldable pub lesser : ℕ → ℕ → ℕ
lesser a b = if ltb a b then a else b

calls-granted_from :
    (jitter : ℤ → ℤ) (n : ℕ) (b : Backoff)
    → b.retries ≢ 0
    → b.attempts ≤ b.retries + 1
    → granted (calls jitter n b) ≡ lesser n (b.retries + 1 - b.attempts)
unfolding granted calls back_off lesser
calls-granted_from jitter zero b given within = ground arith
calls-granted_from jitter (suc n) b given within = elim (Bool-cases (ltb b.retries b.attempts)) [
  | inl over ↦ ground (arith, calls-granted_from jitter n b given within)
  | inr more ↦
      let next : Backoff = record b {
        attempts = b.attempts + 1;
        last_backoff = next_wait jitter b;
      } in
      ground (arith, calls-granted_from jitter n next given (ground arith))
]

calls-granted_forever :
    (jitter : ℤ → ℤ) (n : ℕ) (b : Backoff) → b.retries ≡ 0 → granted (calls jitter n b) ≡ n
unfolding granted calls back_off
calls-granted_forever jitter zero b none_given = refl
calls-granted_forever jitter (suc n) b none_given =
    let next : Backoff = record b {
      attempts = b.attempts + 1;
      last_backoff = next_wait jitter b;
    } in
    ground (arith, calls-granted_forever jitter n next none_given)

-- Of any number of calls on a new backoff: where the number of retries is not zero, the first calls
-- grant another try, one more of them than that number, and the others abort; where it is zero,
-- every call grants one.
pub calls-granted :
    (jitter : ℤ → ℤ) (retries : ℕ) (low high : ℤ) (n : ℕ)
    → granted (calls jitter n (new_backoff retries low high))
      ≡ (if retries == 0 then n else lesser n (retries + 1))
unfolding new_backoff
calls-granted jitter retries low high n = elim (Bool-cases (retries == 0)) [
  | inl forever ↦
      rw forever (calls-granted_forever jitter n (new_backoff retries low high) (ground arith))
  | inr given ↦ rw given (
      calls-granted_from jitter n (new_backoff retries low high) (ground arith) (omega arith)
      ∙ ap (lesser n) (omega arith))
]
