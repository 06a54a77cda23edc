-- ===== src/Gossip/Relay/Apply.antt =====
-- One round of `applyDeltaEntry` over the next entry of a delta that a copy passed on.
use piko.Prelude.{
  ℕ, ◌≤◌, ◌<◌, String, ◌≡◌, sym, ap, subst, ◌∙◌, ◌≢◌, inl, inr, false, some, Map, lookup, insert,
  values, IsMap, lookup-insert, insert-IsMap, same, arith,
}
use native.Mathlib.Decide.{dec_lt}
use piko.Prelude.Text.{parse_uint}
use piko.Gossip.State.{Entry, NodeState, compact_key, entry_at, metrics_upsert_entry}
use piko.Gossip.Local.{put_entry}
use piko.Gossip.Order.{Keyed, DistinctVersions}
use piko.Gossip.Remote.{Applied, apply_entry, drop_compacted}
use piko.Gossip.Tracks.{IsOwned, Tracks, Stale, current, overwritten, dropped}
use piko.Gossip.Tracks.Drop.{drop-newer, drop-older, drop-IsMap}
use piko.Gossip.Tracks.Apply.{kind_plain, kind_compact, apply_entry_newer}
use piko.Gossip.Relay.{IsMarker, Known, IsCopy}
use piko.Gossip.Relay.Next.{IsNextOf, Stale-lower, IsMarker-lower}

module _ (r s : NodeState) (own : IsOwned s) (copy : IsCopy r s) (e : Entry) (upto : ℕ)
    (kn : Known s upto e) (le : e.version ≤ upto) (reach : upto ≤ s.metadata.version)
    (nx : IsNextOf r s e) where
  abbrev t : Tracks r s
  t = copy.tracks

  abbrev written : Map Entry
  written = insert e.key e r.entries

  -- What the owner has at the key and up to the version is the entry itself.
  same_entry :
      (x : Entry)
      → Stale s upto e.key e
      → lookup e.key s.entries ≡ some x
      → x.version ≤ e.version
      → some e ≡ some x
  same_entry x (current h) g l = sym h ∙ g
  same_entry x (overwritten y h m) g l = absurd (ground (arith, le))
  same_entry x (dropped c d h p m o) g l = elim (same e.key compact_key) [
    | yes q ↦ absurd (ground (arith, le, ap (λ j. lookup j s.entries) q))
    | no q ↦ let k = own.compacted c h in absurd (ground (arith, k.others e.key x q g, k.reads))
  ]

  elsewhere :
      (k : String) (x : Entry)
      → e.key ≢ k
      → lookup k s.entries ≡ some x
      → r.metadata.version < x.version
      → e.version < x.version
  elsewhere k x n h l = elim (nx.first k x h l) [
    | inl p ↦ absurd (n (ap (λ a. a.key) p ∙ own.keyed k x h))
    | inr m ↦ m
  ]

  written_has :
      (k : String) (x : Entry)
      → lookup k s.entries ≡ some x
      → x.version ≤ e.version
      → lookup k written ≡ some x
  written_has k x h l = elim (same e.key k) [
    | yes p ↦
        let one = same_entry x kn.stale (ap (λ j. lookup j s.entries) p ∙ h) l in
        ground (arith, lookup-insert e.key k e r.entries)
    | no p ↦ elim (dec_lt r.metadata.version x.version) [
      | yes m ↦ absurd (omega (arith, elsewhere k x p h m))
      | no m ↦ ground (arith, lookup-insert e.key k e r.entries, t.has k x h)
    ]
  ]

  -- Why the copy may hold an entry still, unless this is the compaction that drops it.
  raise :
      (k : String) (a : Entry)
      → e.key ≢ k
      → ((c : Entry) (d : ℕ)
          → e.key ≡ compact_key
          → e ≡ c
          → parse_uint c.value ≡ some d
          → d < a.version)
      → Stale s r.metadata.version k a
      → Stale s e.version k a
  raise k a n f (current h) = current h
  raise k a n f (overwritten x h l) = overwritten x h (elsewhere k x n h l)
  raise k a n f (dropped c d h p l m) = elim (nx.first compact_key c h l) [
    | inl q ↦ absurd (omega (arith, f c d (ap (λ x. x.key) q ∙ own.keyed compact_key c h) q p))
    | inr q ↦ dropped c d h p q m
  ]

  raise_marker :
      (a : Entry) → e.key ≢ compact_key → IsMarker s r.metadata.version a → IsMarker s e.version a
  raise_marker a n m = record {
    discarded = m.discarded;
    internal = m.internal;
    reads = m.reads;
    older = m.older;
    place = elim m.place [
      | inl h ↦ inl h
      | inr (c, d, h, p, q, o) ↦ inr (c, d, h, p, elsewhere compact_key c n h q, o)
    ];
  }

  written-Stale :
      (k : String) (a : Entry)
      → ((c : Entry) (d : ℕ)
          → e.key ≡ compact_key
          → e ≡ c
          → parse_uint c.value ≡ some d
          → d < a.version)
      → lookup k written ≡ some a
      → Stale s e.version k a
  written-Stale k a f h = elim (same e.key k) [
    | yes p ↦
        let one : some e ≡ some a = ground (arith, lookup-insert e.key k e r.entries) in
        let lower = Stale-lower s e.version upto e.key e le kn.stale in
        let same_one : e ≡ a = cc in
        subst (λ x. Stale s e.version x a) p (subst (λ x. Stale s e.version e.key x) same_one lower)
    | no p ↦ raise k a p f (t.stale k a (ground (arith, lookup-insert e.key k e r.entries)))
  ]

  written_bounded : (k : String) (a : Entry) → lookup k written ≡ some a → a.version ≤ e.version
  written_bounded k a h = ground (arith, lookup-insert e.key k e r.entries, t.bounded k a, nx.newer)

  written-Keyed : Keyed written
  written-Keyed k a h = ground (arith, lookup-insert e.key k e r.entries, t.keyed k a)

  written-IsMap : IsMap written
  written-IsMap = insert-IsMap e.key e r.entries t.is_map

  written-distinct : DistinctVersions written
  written-distinct j k a b g h q = ground (
    arith,
    lookup-insert e.key j e r.entries,
    lookup-insert e.key k e r.entries,
    t.bounded j a,
    t.bounded k b,
    nx.newer,
    copy.distinct j k a b,
  )

  at_marker : e.key ≡ compact_key → (a : Entry) → lookup compact_key written ≡ some a → e ≡ a
  at_marker q a h =
      let one : some e ≡ some a = ground (arith, lookup-insert e.key compact_key e r.entries) in cc

  -- A copy with the entry written, and no compaction.
  plain-IsCopy :
      (r' : NodeState)
      → r'.entries ≡ written
      → r'.metadata.version ≡ e.version
      → e.key ≢ compact_key
      → IsCopy r' s
  plain-IsCopy r' es v n = record {
    tracks = record {
      is_map = rw es written-IsMap;
      keyed = rw es written-Keyed;
      behind = omega (arith, v, le, reach);
      has = rw (es, v) written_has;
      bounded = rw (es, v) written_bounded;
      stale = rw (es, v) λ k a h. written-Stale k a (λ c d q. absurd (n q)) h;
    };
    distinct = rw es written-distinct;
    marked =
        rw (es, v)
          λ a h.
            raise_marker a n
              (copy.marked a (ground (arith, lookup-insert e.key compact_key e r.entries)));
    latest = inr (e.key, e, rw es (ground (arith, lookup-insert e.key e.key e r.entries)), sym v);
  }

  -- A copy from which the compaction has dropped entries too.
  module _ (q : e.key ≡ compact_key) (mark : IsMarker s upto e) (id sid : String) where
    abbrev left_over : Map Entry
    left_over = (drop_compacted id sid mark.discarded (values written) written).0

    after_compaction :
        (k : String) (x : Entry)
        → lookup k s.entries ≡ some x
        → x.version ≤ e.version
        → mark.discarded < x.version
    after_compaction k x h l = elim mark.place [
      | inl at ↦
          let c = own.compacted e at in
          elim (same k compact_key) [
            | yes p ↦
                let one : some e ≡ some x = sym at ∙ ap (λ j. lookup j s.entries) (sym p) ∙ h in
                ground (arith, one, mark.older)
            | no n ↦ ground (arith, c.others k x n h, c.reads, mark.reads)
          ]
      | inr (c, d, at, p, m, o) ↦
          let k' = own.compacted c at in
          elim (same k compact_key) [
            | yes p ↦
                let one : some c ≡ some x = sym at ∙ ap (λ j. lookup j s.entries) (sym p) ∙ h in
                absurd (ground (arith, one, le))
            | no n ↦ absurd (ground (arith, k'.others k x n h, k'.reads))
          ]
    ]

    was_written :
        (k : String) (a : Entry)
        → lookup k left_over ≡ some a
        → (lookup k written ≡ some a) × (mark.discarded < a.version)
    was_written = drop-older id sid mark.discarded written written-IsMap written-Keyed

    stays :
        (k : String) (x : Entry)
        → lookup k written ≡ some x
        → mark.discarded < x.version
        → lookup k left_over ≡ some x
    stays = drop-newer id sid mark.discarded written written-IsMap written-Keyed

    same_mark : (c : Entry) (d : ℕ) → e ≡ c → parse_uint c.value ≡ some d → d ≡ mark.discarded
    same_mark c d p h =
        let one : parse_uint e.value ≡ some d = ap (λ x. parse_uint x.value) p ∙ h in
        ground (arith, one, mark.reads)

    compact-IsCopy :
        (r' : NodeState) → r'.entries ≡ left_over → r'.metadata.version ≡ e.version → IsCopy r' s
    compact-IsCopy r' es v = record {
      tracks = record {
        is_map = rw es (drop-IsMap id sid mark.discarded (values written) written written-IsMap);
        keyed = rw es λ k a h. written-Keyed k a (was_written k a h).0;
        behind = omega (arith, v, le, reach);
        has = rw (es, v) λ k x h l. stays k x (written_has k x h l) (after_compaction k x h l);
        bounded = rw (es, v) λ k a h. written_bounded k a (was_written k a h).0;
        stale =
            rw (es, v)
              λ k a h.
                let (w, l) = was_written k a h in
                written-Stale k a (λ c d _ p g. omega (arith, same_mark c d p g, l)) w;
      };
      distinct =
          rw es λ j k a b g h. written-distinct j k a b (was_written j a g).0 (was_written k b h).0;
      marked =
          rw (es, v)
            λ a h.
              subst (IsMarker s e.version) (at_marker q a (was_written compact_key a h).0)
                (IsMarker-lower s e.version upto e le mark);
      latest = inr (
        e.key,
        e,
        rw es (stays e.key e (ground (arith, lookup-insert e.key e.key e r.entries)) mark.older),
        sym v,
      );
    }

  -- What a round of the loop leaves of the copy.
  pub record Told (a : Applied) : Type 0 where
    pub is_copy : IsCopy a.state s
    pub version : a.state.metadata.version ≡ e.version
    pub goes_on : a.stop ≡ false

  pub apply_entry-Told : (id : String) (now : ℕ) → Told (apply_entry id now e r)
  unfolding put_entry
  apply_entry-Told id now =
      let n = put_entry r e in
      let fx = metrics_upsert_entry r.metadata.id e (entry_at e.key r.entries) in
      rw (apply_entry_newer id now e r nx.newer) (elim (same e.key compact_key) [
        | no f ↦
            let (es, v, st) = kind_plain id now e n fx f in
            record { is_copy = plain-IsCopy _ es v f; version = v; goes_on = st }
        | yes q ↦
            let m = kn.marker q in
            let (es, v, st) = kind_compact id now e n fx m.discarded q m.internal m.reads in
            record {
              is_copy = compact-IsCopy q m id n.metadata.id _ es v;
              version = v;
              goes_on = st;
            }
      ])
