-- ===== src/Gossip/Relay/Whole.antt =====
-- A delta that the owner or another copy made, whole or cut off, applied to a copy.
use piko.Prelude.{
  ℕ, ◌≤◌, ◌<◌, String, ◌≡◌, refl, sym, ap, ◌∙◌, inl, inr, Bool, false, some, List, [], ◌∷◌, ◌++◌,
  lookup, Option-cases, arith,
}
use mathlib.Core.List.{append-nil}
use native.Mathlib.Decide.{dec_lt}
use piko.Gossip.State.{Entry, NodeState, compact_key}
use piko.Gossip.Order.{In, entries_after-Ascending, entries_after-In, In-entries_after}
use piko.Gossip.Exchange.{entries_after}
use piko.Gossip.Remote.{apply_entry, apply_entries}
use piko.Gossip.Tracks.{IsOwned, Stale, current, overwritten, dropped}
use piko.Gossip.Tracks.Converge.{InSync, Ascending-lt}
use piko.Gossip.Relay.{IsCopy, Parcel}
use piko.Gossip.Relay.Next.{IsNextOf}
use piko.Gossip.Relay.Apply.{apply_entry-Told}

-- An entry that is not newer is skipped.
skips :
    (id : String) (now : ℕ) (e : Entry) (r : NodeState)
    → e.version ≤ r.metadata.version
    → ((apply_entry id now e r).state ≡ r) × ((apply_entry id now e r).stop ≡ false)
unfolding apply_entry
skips id now e r h = ground arith

module _ (s : NodeState) (own : IsOwned s) (upto : ℕ) where
  Parcel-tail :
      (from : ℕ) (e : Entry) (es : List Entry)
      → Parcel s from upto (e ∷ es)
      → Parcel s e.version upto es
  Parcel-tail from e es p = record {
    ascending = p.ascending.1;
    known = λ a i. p.known a (inr i);
    bounded = λ a i. p.bounded a (inr i);
    complete = λ k a h l m. ground (arith, p.ascending.0, p.complete k a h);
    behind = p.behind;
    tip = elim p.tip [
      | inl l ↦ absurd (omega (arith, p.ascending.0, p.bounded e (inl refl)))
      | inr (a, i, v) ↦ elim i [ inl q ↦ inl (ground arith) | inr j ↦ inr (a, j, v) ]
    ];
  }

  Parcel-IsNextOf :
      (from : ℕ) (e : Entry) (es : List Entry) (r : NodeState)
      → from ≤ r.metadata.version
      → r.metadata.version < e.version
      → Parcel s from upto (e ∷ es)
      → IsNextOf r s e
  Parcel-IsNextOf from e es r l n p = record {
    newer = n;
    first = λ j a h m. elim (dec_lt upto a.version) [
      | yes g ↦ inr (omega (arith, p.bounded e (inl refl)))
      | no g ↦ elim (p.complete j a h (omega arith) (omega arith)) [
        | inl q ↦ inl q
        | inr i ↦ inr (Ascending-lt e.version a es p.ascending.1 i)
      ]
    ];
  }

  -- What one entry of a delta leaves of a copy, new to it or not.
  record Heard (e : Entry) (r : NodeState) (stop : Bool) : Type 0 where
    is_copy : IsCopy r s
    reached : e.version ≤ r.metadata.version
    goes_on : stop ≡ false

  apply_entry-Heard :
      (id : String) (now from : ℕ) (e : Entry) (es : List Entry) (r : NodeState)
      → IsCopy r s
      → from ≤ r.metadata.version
      → Parcel s from upto (e ∷ es)
      → Heard e (apply_entry id now e r).state (apply_entry id now e r).stop
  apply_entry-Heard id now from e es r c l p = elim (dec_lt r.metadata.version e.version) [
    | yes n ↦
        let told =
          apply_entry-Told r s own c e upto (p.known e (inl refl)) (p.bounded e (inl refl)) p.behind
            (Parcel-IsNextOf from e es r l n p) id now in
        record {
          is_copy = told.is_copy;
          reached = omega (arith, told.version);
          goes_on = told.goes_on;
        }
    | no n ↦
        let (st, go) = skips id now e r (omega arith) in
        record { is_copy = rw st c; reached = rw st (omega arith); goes_on = go }
  ]

  -- What the first part of a delta leaves of a copy, where `rest` is what was cut off.
  pub record Reached (r : NodeState) (rest : List Entry) : Type 0 where
    pub is_copy : IsCopy r s
    pub last : ℕ
    pub arrived : last ≤ r.metadata.version
    pub left : Parcel s last upto rest

  pub apply_entries-Reached :
      (id : String) (now : ℕ) (es rest : List Entry) (from : ℕ) (r : NodeState)
      → IsCopy r s
      → from ≤ r.metadata.version
      → Parcel s from upto (es ++ rest)
      → Reached (apply_entries id now es r).0 rest
  unfolding apply_entries
  apply_entries-Reached id now [] rest from r c l p = record {
    is_copy = c;
    last = from;
    arrived = l;
    left = p;
  }
  apply_entries-Reached id now (e ∷ es) rest from r c l p =
      let h = apply_entry-Heard id now from e (es ++ rest) r c l p in
      let next =
        apply_entries-Reached id now es rest e.version (apply_entry id now e r).state h.is_copy
          h.reached (Parcel-tail from e (es ++ rest) p) in
      rw (h.goes_on, apply_entries) next

  -- A whole delta takes a copy to the version that the delta was made at.
  pub apply_entries-upto :
      (id : String) (now : ℕ) (es : List Entry) (from : ℕ) (r : NodeState)
      → IsCopy r s
      → from ≤ r.metadata.version
      → Parcel s from upto es
      → IsCopy (apply_entries id now es r).0 s
        × (upto ≤ (apply_entries id now es r).0.metadata.version)
  apply_entries-upto id now es from r c l p =
      let h = apply_entries-Reached id now es [] from r c l (rw (append-nil es) p) in
      (h.is_copy, elim h.left.tip [ inl m ↦ omega (arith, h.arrived) | inr (a, i, v) ↦ absurd i ])

module _ (s : NodeState) (own : IsOwned s) where
  -- A delta that a copy makes from what it holds.
  pub copy-Parcel :
      (b : NodeState) (v : ℕ) → IsCopy b s → Parcel s v b.metadata.version (entries_after b v)
  copy-Parcel b v c =
      let t = c.tracks in
      let find = λ (e : Entry) (i : In e (entries_after b v)).
        let (k, h, l) = In-entries_after b v t.is_map e i in
        ap (λ j. lookup j b.entries) (t.keyed k e h) ∙ h in
      record {
        ascending = entries_after-Ascending b v t.is_map c.distinct;
        known = λ e i. record {
          stale = t.stale e.key e (find e i);
          marker = λ q. c.marked e (ap (λ j. lookup j b.entries) (sym q) ∙ find e i);
        };
        bounded = λ e i. t.bounded e.key e (find e i);
        complete = λ k e h l m. entries_after-In b v t.is_map k e (t.has k e h m) l;
        behind = t.behind;
        tip = elim c.latest [
          | inl z ↦ inl (omega arith)
          | inr (k, a, h, m) ↦ elim (dec_lt v b.metadata.version) [
            | yes l ↦ inr (a, entries_after-In b v t.is_map k a h (omega arith), m)
            | no l ↦ inl (omega arith)
          ]
        ];
      }

  -- The owner's own state is a copy of itself, so that its deltas are deltas of a copy.
  pub owner-IsCopy : IsCopy s s
  owner-IsCopy = record {
    tracks = record {
      is_map = own.is_map;
      keyed = own.keyed;
      behind = omega arith;
      has = λ k e h l. h;
      bounded = own.bounded;
      stale = λ k a h. current h;
    };
    distinct = own.distinct;
    marked = λ a h.
        let c = own.compacted a h in
        record {
          discarded = c.discarded;
          internal = c.internal;
          reads = c.reads;
          older = c.older;
          place = inl h;
        };
    latest = own.latest;
  }

  no_more :
      (r : NodeState) (k : String) (a : Entry)
      → s.metadata.version ≤ r.metadata.version
      → Stale s r.metadata.version k a
      → lookup k s.entries ≡ some a
  no_more r k a l (current c) = c
  no_more r k a l (overwritten e c m) = absurd (omega (arith, own.bounded k e c))
  no_more r k a l (dropped e d c q m o) = absurd (omega (arith, own.bounded compact_key e c))

  -- A copy of the owner's version has the owner's entries.
  pub caught_up :
      (r : NodeState) → IsCopy r s → s.metadata.version ≤ r.metadata.version → InSync r s
  caught_up r c l =
      let t = c.tracks in
      record {
        version = omega (arith, t.behind);
        entries = λ k. elim (Option-cases (lookup k s.entries)) [
          | inr (e, h) ↦ t.has k e h (omega (arith, own.bounded k e h)) ∙ sym h
          | inl h ↦ elim (Option-cases (lookup k r.entries)) [
            | inl g ↦ g ∙ sym h
            | inr (a, g) ↦ g ∙ sym (no_more r k a l (t.stale k a g))
          ]
        ];
      }
