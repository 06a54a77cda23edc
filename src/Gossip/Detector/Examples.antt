-- ===== src/Gossip/Detector/Examples.antt =====
-- A buffer of three intervals, over numbers in place of floats.
use piko.Prelude.{some, [], ◌∷◌, ◌≡◌, arith}
use piko.Prelude.Int.{ℤ, pos, negsuc, above, quot}
use piko.Gossip.Detector.{Floats, Intervals, new_intervals}
use piko.Gossip.Detector.Sum.{Sums, add_intervals, new_intervals-Sums}

divide : ℤ → ℤ → ℤ
divide a (pos n) = quot a n
divide a (negsuc n) = pos 0

abbrev whole : Floats ℤ
whole = record {
  zero_float = pos 0;
  of_int = λ n. n;
  quotient = divide;
  is_positive = λ n. above n 0;
}

new_intervals-Sums_example :
    (i : Intervals ℤ) × (add_intervals whole (5 ∷ 6 ∷ 7 ∷ 8 ∷ 9 ∷ []) (new_intervals whole 3)
      ≡ some i)
    × Sums 9 i
new_intervals-Sums_example =
    new_intervals-Sums whole 9 3 (5 ∷ 6 ∷ 7 ∷ 8 ∷ 9 ∷ []) (omega arith) (omega arith)
      (omega arith, (omega arith, (omega arith, (omega arith, (omega arith, tt)))))
