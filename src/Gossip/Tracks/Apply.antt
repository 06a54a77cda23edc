-- ===== src/Gossip/Tracks/Apply.antt =====
-- One round of `applyDeltaEntry` over the next entry of the owner keeps a copy a snapshot.
use piko.Prelude.{
  ℕ, ◌≤◌, ◌<◌, String, ◌≡◌, sym, ap, ◌∙◌, ◌≢◌, ◌⊎◌, inl, inr, true, false, some, Map, lookup,
  insert, values, IsMap, lookup-insert, insert-IsMap, same, arith,
}
use text.Mathlib.TextEquality.{eq_iff}
use piko.Prelude.Text.{parse_uint}
use piko.Gossip.State.{
  Entry, NodeState, Effects, compact_key, left_key, entry_at, metrics_upsert_entry,
}
use piko.Gossip.Local.{put_entry}
use piko.Gossip.Order.{Keyed}
use piko.Gossip.Remote.{Applied, apply_kind, apply_entry, apply_compact, drop_compacted}
use piko.Gossip.Tracks.{IsOwned, IsCompaction, Tracks, Stale, current, overwritten, dropped}
use piko.Gossip.Tracks.Drop.{drop-newer, drop-older, drop-IsMap}

pub keys_differ : left_key ≢ compact_key
keys_differ = ground (arith, eq_iff left_key compact_key)

module _ (id : String) (now : ℕ) (e : Entry) (n : NodeState) (fx : Effects) where
  pub kind_plain :
      e.key ≢ compact_key
      → ((apply_kind id now e n fx).state.entries ≡ n.entries)
        × ((apply_kind id now e n fx).state.metadata.version ≡ n.metadata.version)
        × ((apply_kind id now e n fx).stop ≡ false)
  unfolding apply_kind
  kind_plain h = ground arith

  pub kind_compact :
      (d : ℕ)
      → e.key ≡ compact_key
      → e.internal ≡ true
      → parse_uint e.value ≡ some d
      → ((apply_kind id now e n fx).state.entries
          ≡ (drop_compacted id n.metadata.id d (values n.entries) n.entries).0)
        × ((apply_kind id now e n fx).state.metadata.version ≡ n.metadata.version)
        × ((apply_kind id now e n fx).stop ≡ false)
  unfolding apply_kind apply_compact
  kind_compact d h i p = ground (arith, keys_differ)

pub apply_entry_newer :
    (id : String) (now : ℕ) (e : Entry) (r : NodeState)
    → r.metadata.version < e.version
    → apply_entry id now e r
      ≡ apply_kind id now e
          (put_entry r e)
          (metrics_upsert_entry r.metadata.id e (entry_at e.key r.entries))
unfolding apply_entry
apply_entry_newer id now e r h = ground arith

-- The next entry of the owner after the copy's version.
pub record IsNext (r s : NodeState) (e : Entry) : Type 0 where
  pub at : lookup e.key s.entries ≡ some e
  pub newer : r.metadata.version < e.version
  pub first :
      (j : String) (a : Entry)
      → lookup j s.entries ≡ some a
      → r.metadata.version < a.version
      → e.version ≤ a.version

module _ (r s : NodeState) (own : IsOwned s) (t : Tracks r s) (e : Entry) (nx : IsNext r s e) where
  abbrev written : Map Entry
  written = insert e.key e r.entries

  written_has :
      (k : String) (x : Entry)
      → lookup k s.entries ≡ some x
      → x.version ≤ e.version
      → lookup k written ≡ some x
  written_has k x h l = ground (
    arith,
    lookup-insert e.key k e r.entries,
    nx.at,
    nx.newer,
    t.has k x h,
    nx.first k x h,
    own.distinct k e.key x e h nx.at,
  )

  -- An entry of the owner at another key is not of this version.
  later :
      (k : String) (x : Entry)
      → lookup k s.entries ≡ some x
      → r.metadata.version < x.version
      → e.key ≢ k
      → e.version < x.version
  later k x h l n = grind (arith, nx.first k x h l, own.distinct e.key k e x nx.at h)

  -- Why the copy may hold an entry still, or that this compaction drops it.
  abbrev StaleOrDropped : String → Entry → Type 0
  StaleOrDropped k a =
      Stale s e.version k a
      ⊎ ((e.key ≡ compact_key) × ((d : ℕ) → parse_uint e.value ≡ some d → a.version ≤ d))

  agree :
      (c : Entry) (d d' : ℕ) {x : ℕ}
      → e.key ≡ compact_key
      → lookup compact_key s.entries ≡ some c
      → parse_uint c.value ≡ some d
      → x ≤ d
      → parse_uint e.value ≡ some d'
      → x ≤ d'
  agree c d d' q h p m p' =
      let one : some e ≡ some c = sym nx.at ∙ ap (λ j. lookup j s.entries) q ∙ h in
      ground (arith, one, p, p')

  still : (k : String) (a : Entry) → e.key ≢ k → Stale s r.metadata.version k a → StaleOrDropped k a
  still k a n (current h) = inl (current h)
  still k a n (overwritten x h l) = inl (overwritten x h (later k x h l n))
  still k a n (dropped c d h p l m) = elim (same e.key compact_key) [
    | no q ↦ inl (dropped c d h p (later compact_key c h l q) m)
    | yes q ↦ inr (q, λ d' p'. agree c d d' q h p m p')
  ]

  written_stale : (k : String) (a : Entry) → lookup k written ≡ some a → StaleOrDropped k a
  written_stale k a h = elim (same e.key k) [
    | yes p ↦ inl (
        current (
          ground (arith, lookup-insert e.key k e r.entries, nx.at, ap (λ j. lookup j s.entries) p)))
    | no p ↦ still k a p (t.stale k a (ground (arith, lookup-insert e.key k e r.entries)))
  ]

  written_bounded : (k : String) (a : Entry) → lookup k written ≡ some a → a.version ≤ e.version
  written_bounded k a h = ground (arith, lookup-insert e.key k e r.entries, t.bounded k a, nx.newer)

  written-Keyed : Keyed written
  written-Keyed k a h = ground (arith, lookup-insert e.key k e r.entries, t.keyed k a)

  -- A copy that has just the entries written so far.
  plain-Tracks :
      (r' : NodeState)
      → r'.entries ≡ written
      → r'.metadata.version ≡ e.version
      → e.key ≢ compact_key
      → Tracks r' s
  plain-Tracks r' es v n = record {
    is_map = rw es (insert-IsMap e.key e r.entries t.is_map);
    keyed = rw es written-Keyed;
    behind = rw v (own.bounded e.key e nx.at);
    has = rw (es, v) written_has;
    bounded = rw (es, v) written_bounded;
    stale = rw (es, v) λ k a h. elim (written_stale k a h) [ inl p ↦ p | inr q ↦ absurd (n q.0) ];
  }

  -- A copy from which a compaction has dropped entries too.
  module _ (c : IsCompaction s.entries e) (q : e.key ≡ compact_key) (id sid : String) where
    abbrev left_over : Map Entry
    left_over = (drop_compacted id sid c.discarded (values written) written).0

    after_compaction :
        (k : String) (x : Entry) → lookup k s.entries ≡ some x → c.discarded < x.version
    after_compaction k x h = elim (same k compact_key) [
      | no n ↦ c.others k x n h
      | yes p ↦
          let one : some e ≡ some x = sym nx.at ∙ ap (λ j. lookup j s.entries) (q ∙ sym p) ∙ h in
          ground (arith, one, c.older)
    ]

    written-IsMap : IsMap written
    written-IsMap = insert-IsMap e.key e r.entries t.is_map

    was_written :
        (k : String) (a : Entry)
        → lookup k left_over ≡ some a
        → (lookup k written ≡ some a) × (c.discarded < a.version)
    was_written = drop-older id sid c.discarded written written-IsMap written-Keyed

    compact-Tracks :
        (r' : NodeState) → r'.entries ≡ left_over → r'.metadata.version ≡ e.version → Tracks r' s
    compact-Tracks r' es v = record {
      is_map = rw es (drop-IsMap id sid c.discarded (values written) written written-IsMap);
      keyed = rw es λ k a h. written-Keyed k a (was_written k a h).0;
      behind = rw v (own.bounded e.key e nx.at);
      has =
          rw (es, v)
            λ k x h l.
              drop-newer id sid c.discarded written written-IsMap written-Keyed k x
                (written_has k x h l) (after_compaction k x h);
      bounded = rw (es, v) λ k a h. written_bounded k a (was_written k a h).0;
      stale =
          rw (es, v)
            λ k a h. elim (written_stale k a (was_written k a h).0) [
              | inl p ↦ p
              | inr p ↦ absurd (omega (arith, p.1 c.discarded c.reads, (was_written k a h).1))
            ];
    }

  -- What a round of the loop leaves of the copy.
  pub record Advanced (a : Applied) : Type 0 where
    pub tracks : Tracks a.state s
    pub version : a.state.metadata.version ≡ e.version
    pub goes_on : a.stop ≡ false

  pub apply_entry-Advanced : (id : String) (now : ℕ) → Advanced (apply_entry id now e r)
  unfolding put_entry
  apply_entry-Advanced id now =
      let n = put_entry r e in
      let fx = metrics_upsert_entry r.metadata.id e (entry_at e.key r.entries) in
      rw (apply_entry_newer id now e r nx.newer) (elim (same e.key compact_key) [
        | no f ↦
            let (es, v, st) = kind_plain id now e n fx f in
            record { tracks = plain-Tracks _ es v f; version = v; goes_on = st }
        | yes q ↦
            let c = own.compacted e (ap (λ j. lookup j s.entries) (sym q) ∙ nx.at) in
            let (es, v, st) = kind_compact id now e n fx c.discarded q c.internal c.reads in
            record {
              tracks = compact-Tracks c q id n.metadata.id _ es v;
              version = v;
              goes_on = st;
            }
      ])
