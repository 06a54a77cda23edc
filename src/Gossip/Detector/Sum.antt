-- ===== src/Gossip/Detector/Sum.antt =====
-- The running sum of the circular buffer.
use mathlib.Core.Option
use piko.Prelude.{
  ℕ, zero, suc, ◌+◌, ◌*◌, ◌-◌, ◌≤◌, ◌<◌, ◌≡◌, refl, sym, ap, subst, ◌∙◌, Bool, true, false, Option,
  none, some, List, [], ◌∷◌, map, length, get_elem?, Bool-cases, inl, inr, ◌==◌, if◌then◌else◌,
  arith,
}
use piko.Prelude.Int.{pos, max_int, sub_int, add_int-pos, sub_int-pos}
use piko.Gossip.Detector.{
  Floats, Intervals, zeros, set_elem, put_interval, add_interval, new_intervals,
}

abbrev pub total : List ℕ → ℕ
total [] = 0
total (n ∷ ns) = n + total ns

abbrev pub AllUpTo : ℕ → List ℕ → Type 0
AllUpTo b [] = Unit {0}
AllUpTo b (n ∷ ns) = (n ≤ b) × AllUpTo b ns

-- The places from an index on have not been used.
abbrev pub Unused : ℕ → List ℕ → Type 0
Unused k [] = Unit {0}
Unused zero (n ∷ ns) = (n ≡ 0) × Unused zero ns
Unused (suc k) (n ∷ ns) = Unused k ns

abbrev pub Fills : Bool → ℕ → List ℕ → Type 0
Fills true index ns = Unit {0}
Fills false index ns = Unused index ns

-- The buffer holds intervals of at most `b`, and its sum is theirs.
pub record Sums {F : Type 0} (b : ℕ) (i : Intervals F) : Type 0 where
  pub samples : List ℕ
  pub holds : i.intervals ≡ map pos samples
  pub sum : i.sum ≡ pos (total samples)
  pub small : AllUpTo b samples
  pub room : 0 < length samples
  pub in_range : i.index ≤ length samples
  pub bound : b * length samples ≤ max_int
  pub fills : Fills i.is_full i.index samples

total-le : (b : ℕ) (ns : List ℕ) → AllUpTo b ns → total ns ≤ b * length ns
total-le b [] a = omega arith
total-le b (n ∷ ns) (l, a) = grind (arith, total-le b ns a)

length-map_pos : (ns : List ℕ) → length (map pos ns) ≡ length ns
length-map_pos [] = refl
length-map_pos (n ∷ ns) = ap suc (length-map_pos ns)

get_elem?-map_pos :
    (k : ℕ) (ns : List ℕ)
    → k < length ns
    → (old : ℕ) × (get_elem? ns k ≡ some old) × (get_elem? (map pos ns) k ≡ some (pos old))
get_elem?-map_pos k [] l = absurd (omega arith)
get_elem?-map_pos zero (n ∷ ns) l = (n, refl, refl)
get_elem?-map_pos (suc k) (n ∷ ns) l = get_elem?-map_pos k ns (omega arith)

set_elem-map_pos :
    (k x : ℕ) (ns : List ℕ) → set_elem k (pos x) (map pos ns) ≡ map pos (set_elem k x ns)
unfolding set_elem
set_elem-map_pos k x [] = refl
set_elem-map_pos zero x (n ∷ ns) = refl
set_elem-map_pos (suc k) x (n ∷ ns) = ap (λ t. pos n ∷ t) (set_elem-map_pos k x ns)

length-set_elem : (k x : ℕ) (ns : List ℕ) → length (set_elem k x ns) ≡ length ns
unfolding set_elem
length-set_elem k x [] = refl
length-set_elem zero x (n ∷ ns) = refl
length-set_elem (suc k) x (n ∷ ns) = ap suc (length-set_elem k x ns)

total-set_elem :
    (k x old : ℕ) (ns : List ℕ)
    → get_elem? ns k ≡ some old
    → total (set_elem k x ns) + old ≡ total ns + x
unfolding set_elem
total-set_elem k x old [] h = cc
total-set_elem zero x old (n ∷ ns) h = ground arith
total-set_elem (suc k) x old (n ∷ ns) h = omega (arith, total-set_elem k x old ns h)

AllUpTo-set_elem : (b k x : ℕ) (ns : List ℕ) → x ≤ b → AllUpTo b ns → AllUpTo b (set_elem k x ns)
unfolding set_elem
AllUpTo-set_elem b k x [] l a = tt
AllUpTo-set_elem b zero x (n ∷ ns) l (m, a) = (l, a)
AllUpTo-set_elem b (suc k) x (n ∷ ns) l (m, a) = (m, AllUpTo-set_elem b k x ns l a)

Unused-old : (k old : ℕ) (ns : List ℕ) → Unused k ns → get_elem? ns k ≡ some old → old ≡ 0
Unused-old k old [] u h = cc
Unused-old zero old (n ∷ ns) (z, u) h = ground arith
Unused-old (suc k) old (n ∷ ns) u h = Unused-old k old ns u h

Unused-set_elem : (k x : ℕ) (ns : List ℕ) → Unused k ns → Unused (suc k) (set_elem k x ns)
unfolding set_elem
Unused-set_elem k x [] u = tt
Unused-set_elem zero x (n ∷ ns) (z, u) = u
Unused-set_elem (suc k) x (n ∷ ns) u = Unused-set_elem k x ns u

Fills-set_elem :
    (full : Bool) (k x : ℕ) (ns : List ℕ) → Fills full k ns → Fills full (k + 1) (set_elem k x ns)
Fills-set_elem true k x ns f = tt
Fills-set_elem false k x ns f =
    let e : suc k ≡ k + 1 = omega arith in
    subst (λ j. Unused j (set_elem k x ns)) e (Unused-set_elem k x ns f)

-- The sum without the interval that a new one takes the place of.
sum_without :
    (full : Bool) (k old t : ℕ) (ns : List ℕ)
    → Fills full k ns
    → get_elem? ns k ≡ some old
    → old ≤ t
    → t ≤ max_int
    → (if full then sub_int (pos t) (pos old) else pos t) ≡ pos (t - old)
sum_without true k old t ns f h l m = sub_int-pos t old l m
sum_without false k old t ns f h l m = ap pos (omega (arith, Unused-old k old ns f h))

old-le : (k old : ℕ) (ns : List ℕ) → get_elem? ns k ≡ some old → old ≤ total ns
old-le k old [] h = cc
old-le zero old (n ∷ ns) h = ground arith
old-le (suc k) old (n ∷ ns) h = omega (arith, old-le k old ns h)

-- The buffer after some intervals.
unfoldable pub add_intervals : {F : Type 0} → Floats F → List ℕ → Intervals F → Option (Intervals F)
add_intervals fl [] i = some i
add_intervals fl (x ∷ xs) i = elim (add_interval fl (pos x) i) [
  | none ↦ none
  | some i' ↦ add_intervals fl xs i'
]

module _ {F : Type 0} (fl : Floats F) (b : ℕ) where
  put_interval-Sums :
      (x k old : ℕ) (full : Bool) (i : Intervals F) (s : Sums b i)
      → x ≤ b
      → k < length s.samples
      → Fills full k s.samples
      → get_elem? s.samples k ≡ some old
      → Sums b (put_interval fl (pos x) k full (pos old) i)
  unfolding put_interval
  put_interval-Sums x k old full i s l r f g =
      let ns = set_elem k x s.samples in
      let t = total-set_elem k x old s.samples g in
      let le = old-le k old s.samples g in
      let few = total-le b s.samples s.small in
      let few' = total-le b ns (AllUpTo-set_elem b k x s.samples l s.small) in
      let n = length-set_elem k x s.samples in
      let bound : b * length ns ≤ max_int = rw n s.bound in
      let w =
        sum_without full k old (total s.samples) s.samples f g le (omega (arith, few, s.bound)) in
      record {
        samples = ns;
        holds = ap (set_elem k (pos x)) s.holds ∙ set_elem-map_pos k x s.samples;
        sum =
            rw (s.sum, w)
              (add_int-pos (total s.samples - old) x (omega (arith, t, le, few', bound))
                ∙ ap pos (omega (arith, t, le)));
        small = AllUpTo-set_elem b k x s.samples l s.small;
        room = omega (arith, n, s.room);
        in_range = omega (arith, n);
        bound = bound;
        fills = Fills-set_elem full k x s.samples f;
      }

  put_at :
      (x k : ℕ) (full : Bool) (i : Intervals F) (s : Sums b i)
      → x ≤ b
      → k < length s.samples
      → Fills full k s.samples
      → (i' : Intervals F) × (Option.map
            (λ old. put_interval fl (pos x) k full old i)
            (get_elem? i.intervals k)
          ≡ some i')
        × Sums b i'
  put_at x k full i s l r f =
      let (old, g, h) = get_elem?-map_pos k s.samples r in
      let at : get_elem? i.intervals k ≡ some (pos old) = ap (λ xs. get_elem? xs k) s.holds ∙ h in
      (
        put_interval fl (pos x) k full (pos old) i,
        rw at refl,
        put_interval-Sums x k old full i s l r f g,
      )

  -- A new interval of at most `b` has its place, and the sum stays that of the buffer.
  add_interval-Sums :
      (x : ℕ) (i : Intervals F) (s : Sums b i)
      → x ≤ b
      → (i' : Intervals F) × (add_interval fl (pos x) i ≡ some i') × Sums b i'
  unfolding add_interval
  add_interval-Sums x i s l =
      let n : length i.intervals ≡ length s.samples =
        ap length s.holds ∙ length-map_pos s.samples in
      elim (Bool-cases (i.index == length i.intervals)) [
        | inl e ↦ rw e (put_at x 0 true i s l s.room tt)
        | inr e ↦
            let r : i.index < length s.samples = ground (arith, n, s.in_range, e) in
            rw e (put_at x i.index i.is_full i s l r s.fills)
      ]

  add_intervals-Sums :
      (xs : List ℕ) (i : Intervals F)
      → Sums b i
      → AllUpTo b xs
      → (i' : Intervals F) × (add_intervals fl xs i ≡ some i') × Sums b i'
  unfolding add_intervals
  add_intervals-Sums [] i s a = (i, refl, s)
  add_intervals-Sums (x ∷ xs) i s (l, a) =
      let (i', e, s') = add_interval-Sums x i s l in
      let (i'', e', s'') = add_intervals-Sums xs i' s' a in (i'', rw (e, add_intervals) e', s'')

  zero_samples : ℕ → List ℕ
  zero_samples zero = []
  zero_samples (suc n) = 0 ∷ zero_samples n

  zeros_facts :
      (n : ℕ)
      → (zeros n ≡ map pos (zero_samples n))
        × (length (zero_samples n) ≡ n)
        × (total (zero_samples n) ≡ 0)
        × AllUpTo b (zero_samples n)
        × Unused 0 (zero_samples n)
  unfolding zeros zero_samples
  zeros_facts zero = (refl, refl, refl, tt, tt)
  zeros_facts (suc n) =
      let (h, l, t, a, u) = zeros_facts n in
      (ap (λ xs. pos 0 ∷ xs) h, ap suc l, omega (arith, t), (omega arith, a), (refl, u))

  -- Whatever intervals of at most `b` are added to a new buffer of `n` places, no index is out of
  -- range, and the running sum is the sum of the intervals that the buffer holds; where `n` is not 0
  -- and `n` intervals of `b` have a sum within an int64.
  pub new_intervals-Sums :
      (n : ℕ) (xs : List ℕ)
      → 0 < n
      → b * n ≤ max_int
      → AllUpTo b xs
      → (i : Intervals F) × (add_intervals fl xs (new_intervals fl n) ≡ some i) × Sums b i
  unfolding new_intervals
  new_intervals-Sums n xs p q a =
      let (h, l, t, small, u) = zeros_facts n in
      add_intervals-Sums xs (new_intervals fl n)
        (record {
          samples = zero_samples n;
          holds = h;
          sum = ap pos (sym t);
          small = small;
          room = omega (arith, l);
          in_range = omega arith;
          bound = rw l q;
          fills = u;
        })
        a
