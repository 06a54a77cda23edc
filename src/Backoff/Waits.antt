-- ===== src/Backoff/Waits.antt =====
-- pkg/backoff/backoff.go: how long a caller waits.
use piko.Prelude.{
  ℕ, zero, suc, ◌+◌, ◌/◌, ◌^◌, ◌≤◌, ◌<◌, ◌≡◌, refl, not, ◌&&◌, ◌==◌, ltb, Bool-cases, Option, none,
  some, List, [], ◌∷◌, ◌≢◌, inl, inr, ap, ◌∙◌, arith,
}
use piko.Prelude.Int.{ℤ, pos, negsuc, add_int-pos, is_zero, exceeds}
use piko.Backoff.{Backoff, new_backoff, next_after, capped, doubled, next_wait, back_off, calls}
use piko.Backoff.Attempts.{lesser}

-- Every wait that is granted lies between the two.
unfoldable pub Within : ℕ → ℕ → List (Option ℤ) → Type 0
Within a b [] = Unit {0}
Within a b (none ∷ rs) = Within a b rs
Within a b (some (pos w) ∷ rs) = (a ≤ w) × (w ≤ b) × Within a b rs
Within a b (some (negsuc w) ∷ rs) = ⊥

-- A wait with its tenth, rounded up.
abbrev pub with_tenth : ℕ → ℕ
with_tenth w = w + w / 10 + 1

-- A jitter of up to a tenth, on waits that a float64 has room for with some bits to spare: a product
-- with a number from 1.0 up to 1.1, rounded, is no less than the wait, and below the next number
-- after its tenth.
abbrev pub IsTenth : (ℤ → ℤ) → Type 0
IsTenth jitter =
    (w : ℕ) → w < 2 ^ 50 → (x : ℕ) × (jitter (pos w) ≡ pos x) × (w ≤ x) × (x ≤ with_tenth w)

-- The bounds of a backoff, and its last wait: none, or one between them.
record Fits (low high : ℕ) (b : Backoff) : Type 0 where
  least : b.min_backoff ≡ pos low
  greatest : b.max_backoff ≡ pos high
  last : ℕ
  at : b.last_backoff ≡ pos last
  from : last ≢ 0 → lesser low high ≤ last
  upto : last ≤ with_tenth high

capped-lesser : (high wait : ℕ) → capped (pos high) (pos wait) ≡ pos (lesser wait high)
unfolding capped exceeds lesser
capped-lesser high wait = ground arith

next_after-first : (low last : ℕ) → last ≡ 0 → next_after (pos low) (pos last) ≡ pos low
unfolding next_after is_zero
next_after-first low last h = ground arith

next_after-twice :
    (low last : ℕ) → last ≢ 0 → last < 2 ^ 60 → next_after (pos low) (pos last) ≡ pos (last + last)
unfolding next_after is_zero
next_after-twice low last h l = ground (arith, add_int-pos last last (omega (arith, l)))

-- The next wait before the jitter, which does not wrap.
next_within :
    (low high last : ℕ)
    → high < 2 ^ 50
    → (last ≢ 0 → lesser low high ≤ last)
    → last ≤ with_tenth high
    → (d : ℕ) × (capped (pos high) (next_after (pos low) (pos last)) ≡ pos d)
      × (lesser low high ≤ d)
      × (d ≤ high)
unfolding lesser
next_within low high last small from upto = elim (Bool-cases (last == 0)) [
  | inl z ↦ (
    lesser low high,
    ap (capped (pos high)) (next_after-first low last (ground arith)) ∙ capped-lesser high low,
    omega arith,
    ground arith,
  )
  | inr z ↦ (
    lesser (last + last) high,
    ap (capped (pos high)) (next_after-twice low last (ground arith) (omega (arith, small, upto)))
        ∙ capped-lesser high (last + last),
    (let at_least = from (ground arith) in ground arith),
    ground arith,
  )
]

calls-Within_from :
    (jitter : ℤ → ℤ) (low high n : ℕ) (b : Backoff)
    → high < 2 ^ 50
    → IsTenth jitter
    → Fits low high b
    → Within (lesser low high) (with_tenth high) (calls jitter n b)
unfolding calls back_off next_wait doubled Within
calls-Within_from jitter low high zero b small tenth f = tt
calls-Within_from jitter low high (suc n) b small tenth f =
    let (d, e, above, below) = next_within low high f.last small f.from f.upto in
    let (x, q, up, down) = tenth d (omega (arith, small, below)) in
    let wait : next_wait jitter b ≡ pos x = rw (f.least, f.greatest, f.at, e) q in
    let next : Backoff = record b { attempts = b.attempts + 1; last_backoff = pos x } in
    let still : Fits low high next = record {
      least = f.least;
      greatest = f.greatest;
      last = x;
      at = refl;
      from = λ given. omega (arith, above, up);
      upto = omega (arith, down, below);
    } in
    elim (Bool-cases (not (b.retries == 0) && ltb b.retries b.attempts)) [
      | inl aborts ↦ rw aborts (calls-Within_from jitter low high n b small tenth f)
      | inr goes_on ↦
          rw (goes_on, wait)
            (
              omega (arith, above, up),
              omega (arith, down, below),
              calls-Within_from jitter low high n next small tenth still,
            )
    ]

-- With a jitter of up to a tenth, and bounds of which the greater is below 2 ^ 50 nanoseconds: every
-- wait is at least the smaller of the least and the greatest backoff, and at most the greatest with
-- its tenth, rounded up.
pub calls-Within :
    (jitter : ℤ → ℤ) (retries low high n : ℕ)
    → high < 2 ^ 50
    → IsTenth jitter
    → Within
        (lesser low high)
        (with_tenth high)
        (calls jitter n (new_backoff retries (pos low) (pos high)))
unfolding new_backoff
calls-Within jitter retries low high n small tenth =
    calls-Within_from jitter low high n (new_backoff retries (pos low) (pos high)) small tenth
      (record {
        least = refl;
        greatest = refl;
        last = 0;
        at = refl;
        from = λ given. absurd (given refl);
        upto = omega arith;
      })
