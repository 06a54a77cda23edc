-- ===== src/Gossip/Order.antt =====
-- Lists of entries in order of version: what sort.Slice gives where no two versions are equal.
use piko.Prelude.{
  ℕ, ◌<◌, String, ◌≡◌, refl, ap, ◌≢◌, ◌⊎◌, inl, inr, Bool, some, List, [], ◌∷◌, Map, lookup, values,
  IsMap, Absent, lookup-Absent, keep, ltb, arith,
}
use piko.Gossip.State.{Entry, NodeState, insert_by_version, sort_by_version}
use piko.Gossip.Exchange.{entries_after}

abbrev pub In : Entry → List Entry → Type 0
In a [] = ⊥
In a (x ∷ xs) = (x ≡ a) ⊎ In a xs

-- No element has this version.
abbrev pub Fresh : ℕ → List Entry → Type 0
Fresh v [] = Unit {0}
Fresh v (x ∷ xs) = (x.version ≢ v) × Fresh v xs

abbrev pub Distinct : List Entry → Type 0
Distinct [] = Unit {0}
Distinct (x ∷ xs) = Fresh x.version xs × Distinct xs

-- The versions grow along the list, from above `v`.
abbrev pub Ascending : ℕ → List Entry → Type 0
Ascending v [] = Unit {0}
Ascending v (x ∷ xs) = (v < x.version) × Ascending x.version xs

In-insert_by_version :
    (e a : Entry) (xs : List Entry) → In e (insert_by_version a xs) → (a ≡ e) ⊎ In e xs
unfolding insert_by_version
In-insert_by_version e a [] h = h
In-insert_by_version e a (x ∷ xs) h = ground (arith, In-insert_by_version e a xs)

insert_by_version-In :
    (e a : Entry) (xs : List Entry) → (a ≡ e) ⊎ In e xs → In e (insert_by_version a xs)
unfolding insert_by_version
insert_by_version-In e a [] h = h
insert_by_version-In e a (x ∷ xs) h = ground (arith, insert_by_version-In e a xs)

insert_by_version-Ascending :
    (v : ℕ) (a : Entry) (xs : List Entry)
    → v < a.version
    → Fresh a.version xs
    → Ascending v xs
    → Ascending v (insert_by_version a xs)
unfolding insert_by_version
insert_by_version-Ascending v a [] l f h = (l, tt)
insert_by_version-Ascending v a (x ∷ xs) l f h =
    ground (arith, f.0, h.0, insert_by_version-Ascending x.version a xs)

Fresh-insert_by_version :
    (v : ℕ) (a : Entry) (xs : List Entry)
    → a.version ≢ v
    → Fresh v xs
    → Fresh v (insert_by_version a xs)
unfolding insert_by_version
Fresh-insert_by_version v a [] n f = (n, tt)
Fresh-insert_by_version v a (x ∷ xs) n f = ground (arith, f.0, Fresh-insert_by_version v a xs n f.1)

Fresh-sort : (v : ℕ) (xs : List Entry) → Fresh v xs → Fresh v (sort_by_version xs)
unfolding sort_by_version
Fresh-sort v [] f = tt
Fresh-sort v (x ∷ xs) f = Fresh-insert_by_version v x _ f.0 (Fresh-sort v xs f.1)

-- Every version is above `v`.
abbrev pub AllAbove : ℕ → List Entry → Type 0
AllAbove v [] = Unit {0}
AllAbove v (x ∷ xs) = (v < x.version) × AllAbove v xs

pub AllAbove-In :
    (v : ℕ) (es : List Entry) → ((e : Entry) → In e es → v < e.version) → AllAbove v es
AllAbove-In v [] h = tt
AllAbove-In v (e ∷ es) h = (h e (inl refl), AllAbove-In v es λ a i. h a (inr i))

-- Entries of distinct versions are put in strict order.
pub sort-Ascending :
    (v : ℕ) (xs : List Entry) → AllAbove v xs → Distinct xs → Ascending v (sort_by_version xs)
unfolding sort_by_version
sort-Ascending v [] l d = tt
sort-Ascending v (x ∷ xs) l d =
    insert_by_version-Ascending v x _ l.0 (Fresh-sort x.version xs d.0)
      (sort-Ascending v xs l.1 d.1)

-- Sorting keeps the elements.
pub In-sort : (e : Entry) (xs : List Entry) → In e (sort_by_version xs) → In e xs
unfolding sort_by_version
In-sort e [] h = h
In-sort e (x ∷ xs) h = elim (In-insert_by_version e x (sort_by_version xs) h) [
  | inl p ↦ inl p
  | inr p ↦ inr (In-sort e xs p)
]

pub sort-In : (e : Entry) (xs : List Entry) → In e xs → In e (sort_by_version xs)
unfolding sort_by_version
sort-In e [] h = h
sort-In e (x ∷ xs) (inl p) = insert_by_version-In e x _ (inl p)
sort-In e (x ∷ xs) (inr p) = insert_by_version-In e x _ (inr (sort-In e xs p))

module _ (v : ℕ) where
  abbrev newer : Entry → Bool
  newer e = ltb v e.version

  In-keep : (e : Entry) (xs : List Entry) → In e (keep newer xs) → In e xs × (v < e.version)
  In-keep e [] h = absurd h
  In-keep e (x ∷ xs) h = ground (arith, In-keep e xs)

  keep-In : (e : Entry) (xs : List Entry) → v < e.version → In e xs → In e (keep newer xs)
  keep-In e [] l h = absurd h
  keep-In e (x ∷ xs) l h = ground (arith, keep-In e xs l)

  AllAbove-keep : (xs : List Entry) → AllAbove v (keep newer xs)
  AllAbove-keep [] = tt
  AllAbove-keep (x ∷ xs) = ground (arith, AllAbove-keep xs)

  Fresh-keep : (w : ℕ) (xs : List Entry) → Fresh w xs → Fresh w (keep newer xs)
  Fresh-keep w [] f = tt
  Fresh-keep w (x ∷ xs) f = ground (arith, f.0, Fresh-keep w xs f.1)

  Distinct-keep : (xs : List Entry) → Distinct xs → Distinct (keep newer xs)
  Distinct-keep [] d = tt
  Distinct-keep (x ∷ xs) d = ground (arith, Fresh-keep x.version xs d.0, Distinct-keep xs d.1)

-- The values of a map are what its keys look up.
pub lookup-In : (k : String) (e : Entry) (m : Map Entry) → lookup k m ≡ some e → In e (values m)
unfolding lookup
lookup-In k e [] h = cc
lookup-In k e ((j, x) ∷ m) h = ground (arith, lookup-In k e m)

-- Each value of a map with the entries' own keys is found under its key.
abbrev pub Keyed : Map Entry → Type 0
Keyed m = (k : String) (e : Entry) → lookup k m ≡ some e → e.key ≡ k

pub In-lookup :
    (e : Entry) (m : Map Entry) → IsMap m → In e (values m) → (k : String) × (lookup k m ≡ some e)
unfolding lookup
In-lookup e [] i h = absurd h
In-lookup e ((j, x) ∷ m) i (inl p) = (j, ground arith)
In-lookup e ((j, x) ∷ m) i (inr p) =
    let (k, q) = In-lookup e m i.1 p in (k, ground (arith, lookup-Absent j m i.0))

-- No two keys of the map have entries of one version.
abbrev pub DistinctVersions : Map Entry → Type 0
DistinctVersions m =
    (j k : String) (a b : Entry)
    → lookup j m ≡ some a
    → lookup k m ≡ some b
    → a.version ≡ b.version
    → j ≡ k

lookup-tail :
    (i k : String) (y e : Entry) (m : Map Entry)
    → Absent i m
    → lookup k m ≡ some e
    → lookup k ((i, y) ∷ m) ≡ some e
unfolding lookup
lookup-tail i k y e m n h = ground (arith, lookup-Absent i m n)

Fresh-values :
    (v : ℕ) (m : Map Entry)
    → IsMap m
    → ((k : String) (e : Entry) → lookup k m ≡ some e → e.version ≢ v)
    → Fresh v (values m)
unfolding lookup
Fresh-values v [] i h = tt
Fresh-values v ((j, x) ∷ m) i h =
    (h j x (ground arith), Fresh-values v m i.1 λ k e p. h k e (lookup-tail j k x e m i.0 p))

first : (j : String) (x : Entry) (m : Map Entry) → lookup j ((j, x) ∷ m) ≡ some x
unfolding lookup
first j x m = ground arith

lookup-present :
    (j k : String) (e : Entry) (m : Map Entry) → Absent j m → lookup k m ≡ some e → k ≢ j
lookup-present j k e m n h p = cc (lookup-Absent j m n, h, ap (λ i. lookup i m) p)

pub Distinct-values : (m : Map Entry) → IsMap m → DistinctVersions m → Distinct (values m)
Distinct-values [] i d = tt
Distinct-values ((j, x) ∷ m) i d = (
  Fresh-values x.version m i.1 (λ k e p q.
      lookup-present j k e m i.0 p (d k j e x (lookup-tail j k x e m i.0 p) (first j x m) q)),
  Distinct-values m i.1
      (λ k l a b p q. d k l a b (lookup-tail j k x a m i.0 p) (lookup-tail j l x b m i.0 q)),
)

module _ (n : NodeState) (from : ℕ) (is_map : IsMap n.entries) where
  -- What a delta holds of a node: the entries after the version, each in its place.
  pub entries_after-Ascending : DistinctVersions n.entries → Ascending from (entries_after n from)
  unfolding entries_after
  entries_after-Ascending d =
      sort-Ascending from _ (AllAbove-keep from (values n.entries))
        (Distinct-keep from _ (Distinct-values n.entries is_map d))

  pub In-entries_after :
      (e : Entry)
      → In e (entries_after n from)
      → (k : String) × (lookup k n.entries ≡ some e) × (from < e.version)
  unfolding entries_after
  In-entries_after e h =
      let (p, l) = In-keep from e (values n.entries) (In-sort e _ h) in
      let (k, q) = In-lookup e n.entries is_map p in (k, q, l)

  pub entries_after-In :
      (k : String) (e : Entry)
      → lookup k n.entries ≡ some e
      → from < e.version
      → In e (entries_after n from)
  unfolding entries_after
  entries_after-In k e h l =
      sort-In e _ (keep-In from e (values n.entries) l (lookup-In k e n.entries h))
