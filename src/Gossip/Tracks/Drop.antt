-- ===== src/Gossip/Tracks/Drop.antt =====
-- What a compaction that a node hears of leaves of its copy: the loop of `drop_compacted`.
use piko.Prelude.{
  ℕ, ◌≤◌, ◌<◌, String, ◌≡◌, refl, ◌≢◌, inl, inr, none, some, List, [], ◌∷◌, Map, lookup, remove,
  values, IsMap, lookup-remove, remove-IsMap, arith,
}
use piko.Gossip.State.{Entry}
use piko.Gossip.Order.{In, Keyed, In-lookup, lookup-In}
use piko.Gossip.Remote.{drop_compacted}

module _ (id sid : String) (v : ℕ) where
  -- What is left was there.
  pub drop-sub :
      (es : List Entry) (m : Map Entry) (k : String) (a : Entry)
      → lookup k (drop_compacted id sid v es m).0 ≡ some a
      → lookup k m ≡ some a
  unfolding drop_compacted
  drop-sub [] m k a h = h
  drop-sub (e ∷ es) m k a h =
      ground (arith, drop-sub es m k a, drop-sub es (remove e.key m) k a, lookup-remove e.key k m)

  drop-none :
      (es : List Entry) (m : Map Entry) (k : String)
      → lookup k m ≡ none
      → lookup k (drop_compacted id sid v es m).0 ≡ none
  unfolding drop_compacted
  drop-none [] m k h = h
  drop-none (e ∷ es) m k h =
      ground (arith, drop-none es m k h, drop-none es (remove e.key m) k, lookup-remove e.key k m)

  -- What a value of the list names, up to the version, is gone.
  drop-gone :
      (es : List Entry) (m : Map Entry) (e : Entry)
      → In e es
      → e.version ≤ v
      → lookup e.key (drop_compacted id sid v es m).0 ≡ none
  unfolding drop_compacted
  drop-gone [] m e i l = absurd i
  drop-gone (x ∷ es) m e (inl p) l =
      ground (arith, drop-none es (remove x.key m) e.key, lookup-remove x.key e.key m)
  drop-gone (x ∷ es) m e (inr i) l =
      ground (arith, drop-gone es m e i l, drop-gone es (remove x.key m) e i l)

  -- What no value up to the version names is kept.
  drop-kept :
      (es : List Entry) (m : Map Entry) (k : String) (a : Entry)
      → ((e : Entry) → In e es → e.version ≤ v → e.key ≢ k)
      → lookup k m ≡ some a
      → lookup k (drop_compacted id sid v es m).0 ≡ some a
  unfolding drop_compacted
  drop-kept [] m k a f h = h
  drop-kept (e ∷ es) m k a f h = ground (
    arith,
    f e (inl refl),
    drop-kept es m k a (λ x i. f x (inr i)) h,
    drop-kept es (remove e.key m) k a (λ x i. f x (inr i)),
    lookup-remove e.key k m,
  )

  pub drop-IsMap :
      (es : List Entry) (m : Map Entry) → IsMap m → IsMap (drop_compacted id sid v es m).0
  unfolding drop_compacted
  drop-IsMap [] m i = i
  drop-IsMap (e ∷ es) m i =
      ground (arith, drop-IsMap es m i, drop-IsMap es (remove e.key m) (remove-IsMap e.key m i))

  module _ (m : Map Entry) (i : IsMap m) (keyed : Keyed m) where
    -- Over its own values a map keeps exactly the entries after the version.
    pub drop-newer :
        (k : String) (a : Entry)
        → lookup k m ≡ some a
        → v < a.version
        → lookup k (drop_compacted id sid v (values m) m).0 ≡ some a
    drop-newer k a h l = drop-kept (values m) m k a (λ e p le q. other e p le q) h
      where
        other : (e : Entry) → In e (values m) → e.version ≤ v → e.key ≡ k → ⊥
        other e p le q = let (j, f) = In-lookup e m i p in ground (arith, keyed j e f)

    pub drop-older :
        (k : String) (a : Entry)
        → lookup k (drop_compacted id sid v (values m) m).0 ≡ some a
        → (lookup k m ≡ some a) × (v < a.version)
    drop-older k a h =
        let was : lookup k m ≡ some a = drop-sub (values m) m k a h in
        (was, ground (arith, keyed k a was, drop-gone (values m) m a (lookup-In k a m was)))
