-- ===== src/Backoff.antt =====
-- pkg/backoff/backoff.go: exponential backoff with jitter. Waits are int64 nanoseconds, of
-- which a sum wraps; the random multiplication of a wait, through a float64, is a parameter. The
-- counts are those that are not negative.
pub mod Attempts
pub mod Waits
use piko.Prelude.Int.{ℤ, pos, is_zero, add_int, exceeds}
use piko.Prelude.{
  ℕ, zero, suc, ◌+◌, ◌==◌, not, ◌&&◌, ltb, Bool, Option, none, some, List, [], ◌∷◌, if◌then◌else◌,
}

-- `Backoff`
pub record Backoff : Type 0 where
  pub retries : ℕ
  pub min_backoff : ℤ
  pub max_backoff : ℤ
  pub attempts : ℕ
  pub last_backoff : ℤ

-- `New`
unfoldable pub new_backoff : ℕ → ℤ → ℤ → Backoff
new_backoff retries low high = record {
  retries = retries;
  min_backoff = low;
  max_backoff = high;
  attempts = 0;
  last_backoff = pos 0;
}

-- The wait after another, of which 0 is none; twice a wait is its sum with itself.
unfoldable pub next_after : ℤ → ℤ → ℤ
unfolding is_zero add_int
next_after low last = if is_zero last then low else add_int last last

unfoldable pub capped : ℤ → ℤ → ℤ
unfolding exceeds
capped high wait = if exceeds wait high then high else wait

-- `nextWait` before the jitter.
unfoldable pub doubled : Backoff → ℤ
unfolding next_after capped
doubled b = capped b.max_backoff (next_after b.min_backoff b.last_backoff)

-- `nextWait`
unfoldable pub next_wait : (ℤ → ℤ) → Backoff → ℤ
unfolding doubled
next_wait jitter b = jitter (doubled b)

-- `Backoff`: how long to wait, or `none` to abort.
unfoldable pub back_off : (ℤ → ℤ) → Backoff → Option ℤ × Backoff
unfolding next_wait
back_off jitter b = if not (b.retries == 0) && ltb b.retries b.attempts then (none, b) else (
  some (next_wait jitter b),
  record b { attempts = b.attempts + 1; last_backoff = next_wait jitter b },
)

-- The results of some calls one after the other.
unfoldable pub calls : (ℤ → ℤ) → ℕ → Backoff → List (Option ℤ)
unfolding back_off
calls jitter zero b = []
calls jitter (suc n) b = let r = back_off jitter b in r.0 ∷ calls jitter n r.1
