-- ===== src/Prelude/Results.antt =====
-- Go's pair of a value and an error.
use mathlib.Core.Path.{◌≡◌, refl, ap, ◌∙◌, sym}
use mathlib.Core.Logic.{◌⊎◌, inl, inr}
use native.Mathlib.Omega.{arith}

pub data Result (E A : Type 0) : Type 0 where
  err : E → Result E A
  ok : A → Result E A

module _ {E A : Type 0} where
  -- To split on what a call returned and keep the equation.
  pub Result-cases : (r : Result E A) → ((v : A) × (r ≡ ok v)) ⊎ ((e : E) × (r ≡ err e))
  Result-cases (err e) = inr (e, refl)
  Result-cases (ok v) = inl (v, refl)

  infixl 5 ◌>>=◌
  abbrev pub ◌>>=◌ : {B : Type 0} → Result E A → (A → Result E B) → Result E B
  err e >>= next = err e
  ok v >>= next = next v

  -- Two steps that succeed: the first has a value, and the second succeeds on it.
  module _ (first : Result E A) {B : Type 0} (next : A → Result E B) where
    pub >>=-eq-ok : {w : B} → (first >>= next) ≡ ok w → (v : A) × (first ≡ ok v) × (next v ≡ ok w)
    >>=-eq-ok done = elim (Result-cases first) [
      | inl (v, e) ↦ (v, e, sym (ap (λ r. r >>= next) e) ∙ done)
      | inr (x, e) ↦ absurd (ground (arith, sym (ap (λ r. r >>= next) e) ∙ done))
    ]
