-- ===== src/Upstream/Server/Shedding.antt =====
-- server/upstream/server.go: how many sessions a rebalance closes.
use piko.Prelude.{
  ℕ,
  zero,
  suc,
  ◌+◌,
  ◌-◌,
  ◌≤◌,
  ◌≡◌,
  refl,
  ap,
  ◌==◌,
  ltb,
  leb,
  Bool-cases,
  List,
  [],
  ◌∷◌,
  ◌++◌,
  length,
  if◌then◌else◌,
  inl,
  inr,
  arith,
  Int.{ℤ, pos, negsuc},
}
use piko.Upstream.Server.{reached, shed_from, shed_sessions}

-- How many sessions are closed of so many, where n are to be: one at least.
unfoldable pub closed : ℤ → ℕ → ℕ
closed (pos zero) open_sessions = if open_sessions == 0 then 0 else 1
closed (pos (suc n)) open_sessions = if ltb open_sessions (suc n) then open_sessions else suc n
closed (negsuc n) open_sessions = if open_sessions == 0 then 0 else 1

-- The rest of the loop, where more than k are to be closed.
length-shed_from :
    (n k : ℕ) (ss : List ℕ)
    → suc k ≤ n
    → length (shed_from (pos n) k ss) ≡ (if ltb (length ss) (n - k) then length ss else n - k)
unfolding shed_from reached
length-shed_from n k [] h = ground arith
length-shed_from n k (s ∷ ss) h = elim (Bool-cases (leb n (k + 1))) [
  | inl last ↦ ground arith
  | inr more ↦ ground (arith, length-shed_from n (k + 1) ss (ground arith))
]

-- The sessions that are closed come first in the order of the range.
shed_from-prefix : (n : ℤ) (k : ℕ) (ss : List ℕ) → (rest : List ℕ) × (shed_from n k ss ++ rest ≡ ss)
unfolding shed_from
shed_from-prefix n k [] = ([], refl)
shed_from-prefix n k (s ∷ ss) = elim (Bool-cases (reached n (k + 1))) [
  | inl last ↦ (ss, rw last refl)
  | inr more ↦ let (rest, e) = shed_from-prefix n (k + 1) ss in (rest, rw more (ap (λ x. s ∷ x) e))
]

length-shed_sessions : (n : ℤ) (ss : List ℕ) → length (shed_sessions n ss) ≡ closed n (length ss)
unfolding shed_sessions shed_from reached closed
length-shed_sessions (pos zero) [] = refl
length-shed_sessions (pos zero) (s ∷ ss) = ground arith
length-shed_sessions (pos (suc n)) ss = ground (arith, length-shed_from (suc n) 0 ss (omega arith))
length-shed_sessions (negsuc n) [] = refl
length-shed_sessions (negsuc n) (s ∷ ss) = ground arith

-- Where n sessions are to be shed, open sessions are closed, each once, in the order of a range:
-- all of them, or n, whichever is less; but one, if any is open, where n is zero or negative.
pub shed_sessions-closed :
    (n : ℤ) (ss : List ℕ)
    → (length (shed_sessions n ss) ≡ closed n (length ss))
      × ((rest : List ℕ) × (shed_sessions n ss ++ rest ≡ ss))
unfolding shed_sessions
shed_sessions-closed n ss = (length-shed_sessions n ss, shed_from-prefix n 0 ss)
