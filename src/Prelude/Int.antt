-- ===== src/Prelude/Int.antt =====
-- Signed 64-bit integers (Go's int), by their mathematical value; `negsuc n` is -(n + 1).
use Prim.Native.Nat.{ℕ, zero, suc, ◌+◌, ◌-◌, ◌/◌, ◌%◌, ◌^◌, ◌≤◌}
use mathlib.Core.Bool.{Bool, true, false}
use mathlib.Core.Path.{◌≡◌}
use native.Mathlib.Omega.{arith}
use piko.Prelude.Tests.{ltb, leb, ◌==◌, if◌then◌else◌}

pub data ℤ : Type 0 where
  pos : ℕ → ℤ
  negsuc : ℕ → ℤ

abbrev pub max_int : ℕ
max_int = 2 ^ 63 - 1

-- x + 1, which wraps at the largest int
unfoldable pub inc_int : ℤ → ℤ
inc_int (pos n) = if n == max_int then negsuc max_int else pos (n + 1)
inc_int (negsuc zero) = pos 0
inc_int (negsuc (suc n)) = negsuc n

-- x > n
unfoldable pub above : ℤ → ℕ → Bool
above (pos m) n = ltb n m
above (negsuc m) n = false

-- x == 0
unfoldable pub is_zero : ℤ → Bool
is_zero (pos n) = n == 0
is_zero (negsuc n) = false

-- x > y
unfoldable pub exceeds : ℤ → ℤ → Bool
exceeds (pos m) (pos n) = ltb n m
exceeds (pos m) (negsuc n) = true
exceeds (negsuc m) (pos n) = false
exceeds (negsuc m) (negsuc n) = ltb m n

-- x - 1, which wraps at the smallest int
unfoldable pub dec_int : ℤ → ℤ
dec_int (pos zero) = negsuc 0
dec_int (pos (suc n)) = pos n
dec_int (negsuc n) = if n == max_int then pos max_int else negsuc (n + 1)

-- A sum of two, brought into the range of int.
wrap : ℤ → ℤ
wrap (pos n) = let m = n % 2 ^ 64 in if leb m max_int then pos m else negsuc (2 ^ 64 - 1 - m)
wrap (negsuc n) = let m = n % 2 ^ 64 in if leb m max_int then negsuc m else pos (2 ^ 64 - 1 - m)

pos_part : ℤ → ℕ
pos_part (pos n) = n
pos_part (negsuc n) = 0

neg_part : ℤ → ℕ
neg_part (pos n) = 0
neg_part (negsuc n) = suc n

unfoldable pub diff : ℕ → ℕ → ℤ
diff a b = if leb b a then pos (a - b) else negsuc (b - a - 1)

unfoldable pub add_int : ℤ → ℤ → ℤ
unfolding wrap pos_part neg_part diff
add_int a b = wrap (diff (pos_part a + pos_part b) (neg_part a + neg_part b))

-- x / n, towards 0, for n above 0
unfoldable pub quot : ℤ → ℕ → ℤ
unfolding diff
quot (pos n) d = pos (n / d)
quot (negsuc n) d = diff 0 ((n + 1) / d)

pub add_int-pos : (a b : ℕ) → a + b ≤ max_int → add_int (pos a) (pos b) ≡ pos (a + b)
unfolding add_int
add_int-pos a b h = ground arith

unfoldable pub sub_int : ℤ → ℤ → ℤ
unfolding wrap pos_part neg_part diff
sub_int a b = wrap (diff (pos_part a + neg_part b) (neg_part a + pos_part b))

pub sub_int-pos : (a b : ℕ) → b ≤ a → a ≤ max_int → sub_int (pos a) (pos b) ≡ pos (a - b)
unfolding sub_int
sub_int-pos a b h l = ground arith
