-- ===== src/Prelude/Text/Cut.antt =====
-- What strings.Cut finds at a dot.
use Prim.Native.Char.{Char, code}
use Prim.Native.String.{String}
use Prim.Native.String
use Prim.Native.String.append
use mathlib.Core.Bool.{false}
use mathlib.Core.Logic.{inl, inr}
use mathlib.Core.Path.{◌≡◌, refl, ap, ◌∙◌, subst}
use mathlib.Core.Option.{some}
use native.Mathlib.Omega.{arith}
use piko.Prelude.Tests.{Bool-cases, Option-cases, ◌==◌}
use piko.Prelude.Text.{cut_at, contains_code}

abbrev dot : Char
dot = "."

dot-append : (r : String) → String.◌++◌ "." r ≡ String.◌∷◌ dot r
dot-append r = append.cons dot "" r ∙ ap (String.◌∷◌ dot) (append.nil r)

step :
    (c : Char) (s x y : String)
    → (code c == b'.') ≡ false
    → cut_at b'.' s ≡ some (x, y)
    → cut_at b'.' (String.◌∷◌ c s) ≡ some (String.◌∷◌ c x, y)
unfolding cut_at
step c s x y n h = rw (n, h) refl

pub cut_at-append :
    (s r : String)
    → contains_code b'.' s ≡ false
    → cut_at b'.' (String.◌++◌ s (String.◌++◌ "." r)) ≡ some (s, r)
unfolding cut_at contains_code
cut_at-append String.[] r h = rw (append.nil (String.◌++◌ "." r), dot-append r) refl
cut_at-append (String.◌∷◌ c s) r h = rw (append.cons c s (String.◌++◌ "." r)) (
    step c (String.◌++◌ s (String.◌++◌ "." r)) s r (ground arith)
      (cut_at-append s r (ground arith)))

-- No dot stands before the first dot.
pub cut_at-before : (s x y : String) → cut_at b'.' s ≡ some (x, y) → contains_code b'.' x ≡ false
unfolding cut_at contains_code
cut_at-before String.[] x y h = cc
cut_at-before (String.◌∷◌ c s) x y h = elim (Bool-cases (code c == b'.')) [
  | inl e ↦ let p : "" ≡ x = ground arith in subst (λ z. contains_code b'.' z ≡ false) p refl
  | inr e ↦ elim (Option-cases (cut_at b'.' s)) [
    | inl g ↦ absurd (ground arith)
    | inr (u, g) ↦
        let r = cut_at-before s u.0 u.1 g in
        let q : contains_code b'.' (String.◌∷◌ c u.0) ≡ false = rw e r in
        let p : String.◌∷◌ c u.0 ≡ x = ground arith in subst (λ z. contains_code b'.' z ≡ false) p q
  ]
]
