-- ===== src/Prelude/Text.antt =====
-- What the program uses of the packages strconv and strings, over the native texts.
pub mod Cut
use Prim.Native.Nat.{ℕ, zero, suc, ◌+◌, ◌-◌, ◌*◌, ◌/◌, ◌%◌, ◌^◌, ◌≤◌, ◌<◌}
use Prim.Native.Char.{Char, code}
use Prim.Native.String.{String}
use Prim.Native.String
use Prim.Native.String.append
use mathlib.Core.Bool.{Bool, true, false, ◌||◌}
use mathlib.Core.Path.{◌≡◌, refl, ◌∙◌, ap}
use mathlib.Core.Logic.{inl, inr}
use mathlib.Core.Option
use mathlib.Core.Option.{Option, none, some}
use native.Mathlib.Omega.{arith}
use piko.Prelude.Tests.{Bool-cases, ltb, ◌==◌, if◌then◌else◌}
use piko.Prelude.Int.{ℤ, pos, negsuc, max_int}

-- strings.CutPrefix; `none` is a text without the prefix
unfoldable pub cut_prefix : String → String → Option String
cut_prefix String.[] s = some s
cut_prefix (String.◌∷◌ c p) String.[] = none
cut_prefix (String.◌∷◌ c p) (String.◌∷◌ d s) = if code c == code d then cut_prefix p s else none

-- Whether a character of this code occurs.
unfoldable pub contains_code : ℕ → String → Bool
contains_code b String.[] = false
contains_code b (String.◌∷◌ c s) =
    let rest = contains_code b s in if code c == b then true else rest

-- strings.Cut at the character of this code; `none` is a text without it.
unfoldable pub cut_at : ℕ → String → Option (String × String)
cut_at b String.[] = none
cut_at b (String.◌∷◌ c s) =
    let rest = Option.map (λ r. (String.◌∷◌ c r.0, r.1)) (cut_at b s) in
    if code c == b then some ("", s) else rest

eq_self : (n : ℕ) → (n == n) ≡ true
eq_self n = ground arith

pub cut_prefix-append : (p s : String) → cut_prefix p (String.◌++◌ p s) ≡ some s
unfolding cut_prefix
cut_prefix-append String.[] s = ap some (append.nil s)
cut_prefix-append (String.◌∷◌ c p) s = simp (append.cons c p s, eq_self) (cut_prefix-append p s)

digit : ℕ → Char
digit zero = "0"
digit (suc zero) = "1"
digit (suc (suc zero)) = "2"
digit (suc (suc (suc zero))) = "3"
digit (suc (suc (suc (suc zero)))) = "4"
digit (suc (suc (suc (suc (suc zero))))) = "5"
digit (suc (suc (suc (suc (suc (suc zero)))))) = "6"
digit (suc (suc (suc (suc (suc (suc (suc zero))))))) = "7"
digit (suc (suc (suc (suc (suc (suc (suc (suc zero)))))))) = "8"
digit _ = "9"

-- The digits of a number in front of a text; the fuel is above the number.
digits : ℕ → ℕ → String → String
digits zero n out = out
digits (suc f) n out =
    let rest = digits f (n / 10) (String.◌∷◌ (digit (n % 10)) out) in
    if ltb n 10 then String.◌∷◌ (digit n) out else rest

-- strconv.FormatUint(n, 10)
unfoldable pub format_uint : ℕ → String
unfolding digits digit
format_uint n = digits (suc n) n ""

-- One more digit, refused if it is none or leads above the largest value.
push : ℕ → ℕ → ℕ → Option ℕ
push most c n =
    let next = n * 10 + (c - b'0') in
    if ltb c b'0' || ltb b'9' c || ltb most next then none else some next

scan : ℕ → String → ℕ → Option ℕ
unfolding push
scan most String.[] n = some n
scan most (String.◌∷◌ c s) n = elim (push most (code c) n) [ none ↦ none | some m ↦ scan most s m ]

is_empty : String → Bool
is_empty String.[] = true
is_empty (String.◌∷◌ c s) = false

unsigned : ℕ → String → Option ℕ
unfolding scan is_empty
unsigned most s = if is_empty s then none else scan most s 0

-- strconv.ParseUint(s, 10, 64)
unfoldable pub parse_uint : String → Option ℕ
unfolding unsigned
parse_uint s = unsigned (2 ^ 64 - 1) s

negate : ℕ → ℤ
negate zero = pos 0
negate (suc n) = negsuc n

-- The text begins with the character of this code.
leads : ℕ → String → Bool
leads b String.[] = false
leads b (String.◌∷◌ c s) = code c == b

after_first : String → String
after_first String.[] = ""
after_first (String.◌∷◌ c s) = s

-- strconv.Atoi
unfoldable pub atoi : String → Option ℤ
unfolding unsigned negate leads after_first
atoi s =
    if leads b'-' s
    then Option.map negate (unsigned (max_int + 1) (after_first s))
    else if leads b'+' s
    then Option.map pos (unsigned max_int (after_first s))
    else Option.map pos (unsigned max_int s)

-- strconv.Itoa
unfoldable pub itoa : ℤ → String
unfolding format_uint
itoa (pos n) = format_uint n
itoa (negsuc n) = String.◌∷◌ "-" (format_uint (n + 1))

code-digit : (d : ℕ) → d < 10 → code (digit d) ≡ 48 + d
unfolding digit
code-digit zero h = refl
code-digit (suc zero) h = refl
code-digit (suc (suc zero)) h = refl
code-digit (suc (suc (suc zero))) h = refl
code-digit (suc (suc (suc (suc zero)))) h = refl
code-digit (suc (suc (suc (suc (suc zero))))) h = refl
code-digit (suc (suc (suc (suc (suc (suc zero)))))) h = refl
code-digit (suc (suc (suc (suc (suc (suc (suc zero))))))) h = refl
code-digit (suc (suc (suc (suc (suc (suc (suc (suc zero)))))))) h = refl
code-digit (suc (suc (suc (suc (suc (suc (suc (suc (suc zero))))))))) h = refl
code-digit (suc (suc (suc (suc (suc (suc (suc (suc (suc (suc d)))))))))) h = absurd (omega arith)

push_digit : (most d n : ℕ) → d < 10 → n * 10 + d ≤ most → push most (48 + d) n ≡ some (n * 10 + d)
unfolding push
push_digit most d n h m = ground arith

-- One digit is read as it was written.
scan-digit :
    (most d n : ℕ) (s : String)
    → d < 10
    → n * 10 + d ≤ most
    → scan most (String.◌∷◌ (digit d) s) n ≡ scan most s (n * 10 + d)
unfolding scan
scan-digit most d n s h m =
    rw (ap (λ c. push most c n) (code-digit d h) ∙ push_digit most d n h m, scan)

scan-digits :
    (most f n : ℕ) (out : String)
    → n < f
    → n ≤ most
    → scan most (digits f n out) 0 ≡ scan most out n
unfolding digits
scan-digits most zero n out h m = absurd (omega arith)
scan-digits most (suc f) n out h m = elim (Bool-cases (ltb n 10)) [
  | inl e ↦
      rw e
        (scan-digit most n 0 out (ground arith) (ground arith) ∙ ap (scan most out) (omega arith))
  | inr e ↦ rw e (
      scan-digits most f (n / 10) (String.◌∷◌ (digit (n % 10)) out) (ground arith) (ground arith)
      ∙ scan-digit most (n % 10) (n / 10) out (ground arith) (ground arith)
      ∙ ap (scan most out) (omega arith))
]

is_empty-digits :
    (f n : ℕ) (c : Char) (out : String) → is_empty (digits f n (String.◌∷◌ c out)) ≡ false
unfolding digits is_empty
is_empty-digits zero n c out = refl
is_empty-digits (suc f) n c out =
    ground (arith, is_empty-digits f (n / 10) (digit (n % 10)) (String.◌∷◌ c out))

is_empty-format : (n : ℕ) → is_empty (format_uint n) ≡ false
unfolding format_uint is_empty
is_empty-format n = ground (arith, is_empty-digits n (n / 10) (digit (n % 10)) "")

unsigned-format : (most n : ℕ) → n ≤ most → unsigned most (format_uint n) ≡ some n
unfolding unsigned
unsigned-format most n h =
    rw (is_empty-format n) (unfold format_uint in scan-digits most (suc n) n "" (omega arith) h)

-- Every 64-bit number is read back as it was written.
pub parse_uint-format_uint : (n : ℕ) → n < 2 ^ 64 → parse_uint (format_uint n) ≡ some n
unfolding parse_uint
parse_uint-format_uint n h = unsigned-format (2 ^ 64 - 1) n (omega arith)

leads-digits :
    (b f n : ℕ) (out : String) → b < 48 → leads b out ≡ false → leads b (digits f n out) ≡ false
unfolding leads digits
leads-digits b zero n out h e = e
leads-digits b (suc f) n out h e = ground (
  arith,
  code-digit n,
  code-digit (n % 10),
  leads-digits b f (n / 10) (String.◌∷◌ (digit (n % 10)) out),
)

leads-format : (b n : ℕ) → b < 48 → leads b (format_uint n) ≡ false
unfolding format_uint leads
leads-format b n h = leads-digits b (suc n) n "" h refl

atoi-format : (n : ℕ) → n ≤ max_int → atoi (format_uint n) ≡ some (pos n)
unfolding atoi
atoi-format n h = ground (
  arith,
  leads-format b'-' n (omega arith),
  leads-format b'+' n (omega arith),
  unsigned-format max_int n h,
)

-- A count of listeners is read back as it was written.
pub atoi-itoa : (n : ℕ) → n ≤ max_int → atoi (itoa (pos n)) ≡ some (pos n)
unfolding itoa
atoi-itoa n h = atoi-format n h

contains-digits :
    (b f n : ℕ) (out : String)
    → b < 48
    → contains_code b out ≡ false
    → contains_code b (digits f n out) ≡ false
unfolding contains_code digits
contains-digits b zero n out h e = e
contains-digits b (suc f) n out h e = ground (
  arith,
  code-digit n,
  code-digit (n % 10),
  contains-digits b f (n / 10) (String.◌∷◌ (digit (n % 10)) out),
)

-- A number is written in digits alone.
pub contains-itoa : (b n : ℕ) → b < 48 → contains_code b (itoa (pos n)) ≡ false
unfolding itoa format_uint contains_code
contains-itoa b n h = contains-digits b (suc n) n "" h refl
