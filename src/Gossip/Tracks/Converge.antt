-- ===== src/Gossip/Tracks/Converge.antt =====
-- A delta of the owner, whole or cut off, applied to a copy of its state.
use piko.Prelude.{
  ℕ, ◌≤◌, ◌<◌, String, ◌≡◌, refl, sym, ap, ◌∙◌, inl, inr, some, List, [], ◌∷◌, ◌++◌, lookup,
  Option-cases, arith,
}
use mathlib.Core.List.{append-nil}
use native.Mathlib.Decide.{dec_lt}
use piko.Gossip.State.{Entry, NodeState, compact_key}
use piko.Gossip.Order.{In, Ascending, entries_after-Ascending, entries_after-In, In-entries_after}
use piko.Gossip.Exchange.{entries_after}
use piko.Gossip.Remote.{apply_entry, apply_entries}
use piko.Gossip.Tracks.{IsOwned, Tracks, Stale, current, overwritten, dropped}
use piko.Gossip.Tracks.Apply.{IsNext, apply_entry-Advanced}

-- The entries that the copy lacks, in order of version.
pub record Pending (r s : NodeState) (es : List Entry) : Type 0 where
  pub ascending : Ascending r.metadata.version es
  pub sound : (e : Entry) → In e es → lookup e.key s.entries ≡ some e
  pub complete :
      (k : String) (e : Entry)
      → lookup k s.entries ≡ some e
      → r.metadata.version < e.version
      → In e es

pub Ascending-lt : (v : ℕ) (a : Entry) (es : List Entry) → Ascending v es → In a es → v < a.version
Ascending-lt v a [] h i = absurd i
Ascending-lt v a (e ∷ es) h i = ground (arith, h.0, Ascending-lt e.version a es h.1)

-- Equal versions and equal entries, as maps.
pub record InSync (r s : NodeState) : Type 0 where
  pub version : r.metadata.version ≡ s.metadata.version
  pub entries : (k : String) → lookup k r.entries ≡ lookup k s.entries

module _ (s : NodeState) (own : IsOwned s) where
  Pending-IsNext :
      (r : NodeState) (e : Entry) (es : List Entry) → Pending r s (e ∷ es) → IsNext r s e
  Pending-IsNext r e es p = record {
    at = p.sound e (inl refl);
    newer = p.ascending.0;
    first =
        λ j a h l. ground (arith, p.complete j a h l, Ascending-lt e.version a es p.ascending.1);
  }

  Pending-tail :
      (r r' : NodeState) (e : Entry) (es : List Entry)
      → r'.metadata.version ≡ e.version
      → Pending r s (e ∷ es)
      → Pending r' s es
  Pending-tail r r' e es v p = record {
    ascending = rw v p.ascending.1;
    sound = λ a i. p.sound a (inr i);
    complete = λ k a h l. ground (arith, v, p.ascending.0, p.complete k a h);
  }

  -- Any first part of what the copy lacks takes it to a later snapshot.
  pub apply_entries-Tracks :
      (id : String) (now : ℕ) (es rest : List Entry) (r : NodeState)
      → Tracks r s
      → Pending r s (es ++ rest)
      → Tracks (apply_entries id now es r).0 s × Pending (apply_entries id now es r).0 s rest
  unfolding apply_entries
  apply_entries-Tracks id now [] rest r t p = (t, p)
  apply_entries-Tracks id now (e ∷ es) rest r t p =
      let a = apply_entry id now e r in
      let adv = apply_entry-Advanced r s own t e (Pending-IsNext r e (es ++ rest) p) id now in
      let next =
        apply_entries-Tracks id now es rest a.state adv.tracks
          (Pending-tail r a.state e (es ++ rest) adv.version p) in
      rw (adv.goes_on, apply_entries) next

  pub entries_after-Pending : (r : NodeState) → Pending r s (entries_after s r.metadata.version)
  entries_after-Pending r = record {
    ascending = entries_after-Ascending s r.metadata.version own.is_map own.distinct;
    sound = λ e i.
        let (k, h, l) = In-entries_after s r.metadata.version own.is_map e i in
        ap (λ j. lookup j s.entries) (own.keyed k e h) ∙ h;
    complete = entries_after-In s r.metadata.version own.is_map;
  }

  not_behind :
      (r : NodeState)
      → Pending r s []
      → (k : String) (e : Entry) → lookup k s.entries ≡ some e
      → e.version ≤ r.metadata.version
  not_behind r p k e h = elim (dec_lt r.metadata.version e.version) [
    | yes l ↦ absurd (p.complete k e h l)
    | no n ↦ omega arith
  ]

  no_more :
      (r : NodeState)
      → Tracks r s
      → Pending r s []
      → (k : String) (a : Entry) → lookup k r.entries ≡ some a
      → Stale s r.metadata.version k a
      → lookup k s.entries ≡ some a
  no_more r t p k a h (current c) = c
  no_more r t p k a h (overwritten e c l) = absurd (omega (arith, not_behind r p k e c))
  no_more r t p k a h (dropped e d c q l m) = absurd (omega (arith, not_behind r p compact_key e c))

  same_entries :
      (r : NodeState)
      → Tracks r s
      → Pending r s []
      → (k : String) → lookup k r.entries ≡ lookup k s.entries
  same_entries r t p k = elim (Option-cases (lookup k s.entries)) [
    | inr (e, h) ↦ t.has k e h (not_behind r p k e h) ∙ sym h
    | inl h ↦ elim (Option-cases (lookup k r.entries)) [
      | inl g ↦ g ∙ sym h
      | inr (a, g) ↦ g ∙ sym (no_more r t p k a g (t.stale k a g))
    ]
  ]

  caught_up : (r : NodeState) → Tracks r s → Pending r s [] → InSync r s
  caught_up r t p = record {
    version = elim own.latest [
      | inl z ↦ omega (arith, t.behind)
      | inr (k, e, h, v) ↦ omega (arith, t.behind, not_behind r p k e h)
    ];
    entries = same_entries r t p;
  }

  -- A snapshot to which the owner applies its delta from the snapshot's version has the owner's
  -- version, and the owner's entries, no more and no fewer.
  pub apply_entries-InSync :
      (id : String) (now : ℕ) (r : NodeState)
      → Tracks r s
      → InSync (apply_entries id now (entries_after s r.metadata.version) r).0 s
  apply_entries-InSync id now r t =
      let es = entries_after s r.metadata.version in
      let done =
        apply_entries-Tracks id now es [] r t (rw (append-nil es) (entries_after-Pending r)) in
      caught_up _ done.0 done.1
