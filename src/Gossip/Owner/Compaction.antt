-- ===== src/Gossip/Owner/Compaction.antt =====
-- `CompactLocal`: the owner's state stays its own, and every copy stays a snapshot.
use piko.Prelude.{
  ℕ, ◌+◌, ◌^◌, ◌≤◌, ◌<◌, String, ◌≡◌, refl, sym, subst, ◌∙◌, ◌⊎◌, inl, inr, some, List, [], ◌∷◌,
  Map, lookup, insert, values, length, ltb, lookup-insert, insert-IsMap, IsMap, Option-cases,
  Bool-cases, arith,
}
use piko.Prelude.Text.{parse_uint, parse_uint-format_uint}
use piko.Gossip.State.{Entry, NodeState, Effects, compact_key, sort_by_version}
use piko.Gossip.Compact.{
  last, deleted_total, is_discarded, reversion, compact_entry, compact_from, compact_node,
}
use piko.Gossip.Order.{
  In, Ascending, Keyed, DistinctVersions, Distinct-values, In-lookup, lookup-In, In-sort, sort-In,
  sort-Ascending, AllAbove-In,
}
use piko.Gossip.Tracks.{IsOwned, IsCompaction, Tracks, dropped}
use piko.Gossip.Owner.Write.{Room, bump_lem}

-- Entries under their own keys, of distinct versions after `v₀` and up to `v`.
record Versioned (v₀ v : ℕ) (m : Map Entry) : Type 0 where
  is_map : IsMap m
  keyed : Keyed m
  after : (k : String) (x : Entry) → lookup k m ≡ some x → v₀ < x.version
  upto : (k : String) (x : Entry) → lookup k m ≡ some x → x.version ≤ v
  distinct : DistinctVersions m

Versioned-nil : (v : ℕ) → Versioned v v []
unfolding lookup
Versioned-nil v = record {
  is_map = tt;
  keyed = λ k x h. cc;
  after = λ k x h. cc;
  upto = λ k x h. cc;
  distinct = λ j k a b g h e. cc;
}

-- One more entry under the next version.
Versioned-insert :
    (v₀ v : ℕ) (m : Map Entry) (e : Entry)
    → v₀ ≤ v
    → e.version ≡ v + 1
    → Versioned v₀ v m
    → Versioned v₀ (v + 1) (insert e.key e m)
Versioned-insert v₀ v m e l p h = record {
  is_map = insert-IsMap e.key e m h.is_map;
  keyed = λ k x g. ground (arith, lookup-insert e.key k e m, h.keyed k x);
  after = λ k x g. ground (arith, lookup-insert e.key k e m, h.after k x);
  upto = λ k x g. ground (arith, lookup-insert e.key k e m, h.upto k x);
  distinct = λ j k a b f g q. ground (
    arith,
    lookup-insert e.key j e m,
    lookup-insert e.key k e m,
    h.upto j a,
    h.upto k b,
    h.distinct j k a b,
  );
}

-- The loop gives each entry that it keeps a version of its own.
reversion-Versioned :
    (id : String) (v₀ : ℕ) (es : List Entry) (v : ℕ) (m : Map Entry)
    → v₀ ≤ v
    → v + length es < 2 ^ 64
    → Versioned v₀ v m
    → let r = reversion id es v m in (v ≤ r.0) × (r.0 ≤ v + length es) × Versioned v₀ r.0 r.1
unfolding reversion
reversion-Versioned id v₀ [] v m l b h = (omega arith, omega arith, h)
reversion-Versioned id v₀ (e ∷ es) v m l b h = elim (Bool-cases (is_discarded e)) [
  | inl d ↦
      let r = reversion-Versioned id v₀ es v m l (omega arith) h in
      rw (d, reversion) (r.0, omega (arith, r.1), r.2)
  | inr d ↦
      let e' : Entry = record e { version = v + 1 } in
      let r =
        reversion-Versioned id v₀ es (v + 1) (insert e.key e' m) (omega arith) (omega arith)
          (Versioned-insert v₀ v m e' l refl h) in
      rw (d, reversion, bump_lem v (omega arith)) (omega (arith, r.0), omega (arith, r.1), r.2)
]

last-In : (es : List Entry) (e : Entry) → last es ≡ some e → In e es
unfolding last
last-In [] e h = cc
last-In (x ∷ []) e h = inl (ground arith)
last-In (x ∷ y ∷ es) e h = inr (last-In (y ∷ es) e h)

-- The last entry in order of version has the largest version.
last-le :
    (v : ℕ) (es : List Entry) (e a : Entry)
    → Ascending v es
    → last es ≡ some e
    → In a es
    → a.version ≤ e.version
unfolding last
last-le v [] e a s h i = absurd i
last-le v (x ∷ []) e a s h (inl p) = ground arith
last-le v (x ∷ []) e a s h (inr i) = elim i [ ]
last-le v (x ∷ y ∷ es) e a s h (inl p) =
    ground (arith, s.1.0, last-le x.version (y ∷ es) e y s.1 h (inl refl))
last-le v (x ∷ y ∷ es) e a s h (inr i) = last-le x.version (y ∷ es) e a s.1 h i

-- `t` is `s` after a compaction: all that it holds is newer than `s`.
pub record Compacted (s t : NodeState) : Type 0 where
  pub marker : Entry
  pub at : lookup compact_key t.entries ≡ some marker
  pub reads : parse_uint marker.value ≡ some s.metadata.version
  pub newer : s.metadata.version < marker.version
  pub after :
      (k : String) (e : Entry) → lookup k t.entries ≡ some e → s.metadata.version < e.version
  pub forward : s.metadata.version ≤ t.metadata.version

module _ (s : NodeState) (own : IsOwned s) where
  abbrev by_version : List Entry
  by_version = sort_by_version (values s.entries)

  In-entries : (e : Entry) → In e by_version → (k : String) × (lookup k s.entries ≡ some e)
  In-entries e i = In-lookup e s.entries own.is_map (In-sort e (values s.entries) i)

  by_version-Ascending : Ascending 0 by_version
  by_version-Ascending =
      sort-Ascending 0 (values s.entries)
        (AllAbove-In 0 (values s.entries)
          λ e i. let (k, h) = In-lookup e s.entries own.is_map i in own.positive k e h)
        (Distinct-values s.entries own.is_map own.distinct)

  -- The last version before a compaction is the version of the node.
  pub last_version : (e : Entry) → last by_version ≡ some e → e.version ≡ s.metadata.version
  last_version e h =
      let (k, g) = In-entries e (last-In by_version e h) in
      elim own.latest [
        | inl z ↦ absurd (omega (arith, own.positive k e g, own.bounded k e g))
        | inr (j, a, f, v) ↦ omega (
          arith,
          own.bounded k e g,
          last-le 0 by_version e a by_version-Ascending h
              (sort-In a (values s.entries) (lookup-In j a s.entries f)),
        )
      ]

  module _ (room : Room (length by_version + 1) s) where
    abbrev v₀ : ℕ
    v₀ = s.metadata.version

    abbrev looped : ℕ × Map Entry × Effects
    looped = reversion s.metadata.id by_version v₀ []

    abbrev marker : Entry
    marker = record (compact_entry v₀ 0) { version = looped.0 + 1 }

    abbrev compacted : NodeState
    compacted = (compact_from s by_version v₀).0

    loop_facts :
        (v₀ ≤ looped.0) × (looped.0 ≤ v₀ + length by_version) × Versioned v₀ looped.0 looped.1
    loop_facts =
        reversion-Versioned s.metadata.id v₀ by_version v₀ [] (omega arith) (omega arith)
          (Versioned-nil v₀)

    entries_lem : compacted.entries ≡ insert compact_key marker looped.1
    unfolding compact_from compact_entry
    entries_lem = rw (bump_lem looped.0 (omega (arith, loop_facts.1))) refl

    version_lem : compacted.metadata.version ≡ looped.0 + 1
    unfolding compact_from compact_entry
    version_lem = bump_lem looped.0 (omega (arith, loop_facts.1))

    whole : Versioned v₀ (looped.0 + 1) compacted.entries
    unfolding compact_entry
    whole =
        rw entries_lem (Versioned-insert v₀ looped.0 looped.1 marker loop_facts.0 refl loop_facts.2)

    at_marker : lookup compact_key compacted.entries ≡ some marker
    at_marker =
        rw entries_lem (ground (arith, lookup-insert compact_key compact_key marker looped.1))

    marker_reads : parse_uint marker.value ≡ some v₀
    unfolding compact_entry
    marker_reads = parse_uint-format_uint v₀ (omega arith)

    compacted-IsCompaction :
        (c : Entry)
        → lookup compact_key compacted.entries ≡ some c
        → IsCompaction compacted.entries c
    compacted-IsCompaction c h =
        let one : some marker ≡ some c = sym at_marker ∙ h in
        let same_entry : marker ≡ c = cc in
        subst (IsCompaction compacted.entries) same_entry (record {
          discarded = v₀;
          internal = unfold compact_entry in refl;
          reads = marker_reads;
          older = omega (arith, loop_facts.0);
          others = λ k e n g. whole.after k e g;
        })

    pub compacted-IsOwned : IsOwned compacted
    compacted-IsOwned = record {
      is_map = whole.is_map;
      keyed = whole.keyed;
      positive = λ k e h. omega (arith, whole.after k e h);
      bounded = λ k e h. omega (arith, whole.upto k e h, version_lem);
      distinct = whole.distinct;
      latest = inr (compact_key, marker, at_marker, sym version_lem);
      compacted = compacted-IsCompaction;
    }

    pub compacted-Tracks : (r : NodeState) → Tracks r s → Tracks r compacted
    compacted-Tracks r t = record {
      is_map = t.is_map;
      keyed = t.keyed;
      behind = omega (arith, t.behind, version_lem, loop_facts.0);
      has = λ k e h l. absurd (omega (arith, t.behind, whole.after k e h));
      bounded = t.bounded;
      stale = λ k a h.
          dropped marker v₀ at_marker marker_reads (omega (arith, t.behind, loop_facts.0))
            (omega (arith, t.bounded k a h, t.behind));
    }

    pub compacted-Compacted : Compacted s compacted
    compacted-Compacted = record {
      marker = marker;
      at = at_marker;
      reads = marker_reads;
      newer = omega (arith, loop_facts.0);
      after = whole.after;
      forward = omega (arith, version_lem, loop_facts.0);
    }

-- What a compaction keeps, whether it runs or not.
pub record Keeps (s t : NodeState) : Type 0 where
  pub owned : IsOwned t
  pub tracks : (r : NodeState) → Tracks r s → Tracks r t

compact_node-cases :
    (threshold : ℕ) (s t : NodeState) (fx : Effects)
    → compact_node threshold s ≡ some (t, fx)
    → (t ≡ s)
      ⊎ ((e : Entry) × (last (sort_by_version (values s.entries)) ≡ some e)
          × (t ≡ (compact_from s (sort_by_version (values s.entries)) e.version).0))
unfolding compact_node
compact_node-cases threshold s t fx h =
    elim (Bool-cases (ltb (deleted_total (values s.entries)) threshold)) [
      | inl b ↦ inl (ground arith)
      | inr b ↦ elim (Option-cases (last (sort_by_version (values s.entries)))) [
        | inl e ↦ absurd (ground arith)
        | inr (x, e) ↦ inr (x, e, ground arith)
      ]
    ]

-- A compaction by the owner, whether its threshold is met or not, keeps the state an owned one, and
-- every copy that was a consistent snapshot of the state before is one of the state after; where the
-- versions of all entries and of the compaction stay below 2 ^ 64.
pub compact_node-Keeps :
    (threshold : ℕ) (s t : NodeState) (fx : Effects)
    → IsOwned s
    → Room (length (sort_by_version (values s.entries)) + 1) s
    → compact_node threshold s ≡ some (t, fx)
    → Keeps s t
compact_node-Keeps threshold s t fx own room h = elim (compact_node-cases threshold s t fx h) [
  | inl p ↦ rw p (record { owned = own; tracks = λ r k. k })
  | inr (e, l, p) ↦
      rw (p, last_version s own e l)
        (record { owned = compacted-IsOwned s own room; tracks = compacted-Tracks s own room })
]

-- A compaction that runs leaves nothing older than itself.
pub compact_node-Compacted :
    (threshold : ℕ) (s t : NodeState) (fx : Effects)
    → IsOwned s
    → Room (length (sort_by_version (values s.entries)) + 1) s
    → compact_node threshold s ≡ some (t, fx)
    → (t ≡ s) ⊎ Compacted s t
compact_node-Compacted threshold s t fx own room h = elim (compact_node-cases threshold s t fx h) [
  | inl p ↦ inl p
  | inr (e, l, p) ↦ inr (rw (p, last_version s own e l) (compacted-Compacted s own room))
]
