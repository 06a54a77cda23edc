-- ===== src/Gossip/Owner/Write.antt =====
-- A new entry of the owner under its next version: `UpsertLocal`, `DeleteLocal`, `LeaveLocal`.
use piko.Prelude.{
  ℕ, ◌+◌, ◌^◌, ◌<◌, String, ◌≡◌, refl, sym, ap, ◌≢◌, ◌⊎◌, inl, inr, Bool, true, false, some, lookup,
  insert, lookup-insert, insert-IsMap, Option-cases, Bool-cases, same, ite, arith,
}
use piko.Gossip.State.{Entry, NodeState, compact_key, left_key, bump}
use piko.Gossip.Local.{write_entry, upsert_node, delete_node, leave_node}
use piko.Gossip.Tracks.{IsOwned, IsCompaction, Tracks, Stale, current, overwritten, dropped}
use piko.Gossip.Tracks.Apply.{keys_differ}

-- `t` is `s` after the write of `e`.
pub record Writes (s t : NodeState) (e : Entry) : Type 0 where
  pub entries : t.entries ≡ insert e.key e s.entries
  pub moved : t.metadata.version ≡ e.version
  pub next : e.version ≡ s.metadata.version + 1
  pub plain : e.key ≢ compact_key

module _ (s t : NodeState) (own : IsOwned s) (e : Entry) (w : Writes s t e) where
  pub at_key : (k : String) → lookup k t.entries ≡ ite (same e.key k) (some e) (lookup k s.entries)
  at_key k = rw w.entries (lookup-insert e.key k e s.entries)

  write-IsCompaction :
      (c : Entry)
      → IsCompaction s.entries c
      → lookup compact_key s.entries ≡ some c
      → IsCompaction t.entries c
  write-IsCompaction c h at = record {
    discarded = h.discarded;
    internal = h.internal;
    reads = h.reads;
    older = h.older;
    others = λ k x n g.
        ground (arith, at_key k, h.others k x n, w.next, h.older, own.bounded compact_key c at);
  }

  pub at_compact :
      (c : Entry) → lookup compact_key t.entries ≡ some c → lookup compact_key s.entries ≡ some c
  at_compact c h = ground (arith, at_key compact_key, w.plain)

  pub write-IsOwned : IsOwned t
  write-IsOwned = record {
    is_map = rw w.entries (insert-IsMap e.key e s.entries own.is_map);
    keyed = λ k x h. ground (arith, at_key k, own.keyed k x);
    positive = λ k x h. ground (arith, at_key k, w.next, own.positive k x);
    bounded = λ k x h. ground (arith, at_key k, w.next, w.moved, own.bounded k x);
    distinct = λ j k a b g h v.
        ground (
          arith,
          at_key j,
          at_key k,
          w.next,
          own.bounded j a,
          own.bounded k b,
          own.distinct j k a b,
        );
    latest = inr (e.key, e, ground (arith, at_key e.key), sym w.moved);
    compacted = λ c h. write-IsCompaction c (own.compacted c (at_compact c h)) (at_compact c h);
  }

  pub write-Stale : (v : ℕ) (k : String) (a : Entry) → v < e.version → Stale s v k a → Stale t v k a
  write-Stale v k a l p = elim (same e.key k) [
    | yes q ↦ overwritten e (ground (arith, at_key k)) l
    | no q ↦ elsewhere q p
  ]
    where
      elsewhere : e.key ≢ k → Stale s v k a → Stale t v k a
      elsewhere q (current h) = current (ground (arith, at_key k))
      elsewhere q (overwritten x h m) = overwritten x (ground (arith, at_key k)) m
      elsewhere q (dropped c d h r m o) =
          dropped c d (ground (arith, at_key compact_key, w.plain)) r m o

  pub write-Tracks : (r : NodeState) → Tracks r s → Tracks r t
  write-Tracks r h = record {
    is_map = h.is_map;
    keyed = h.keyed;
    behind = omega (arith, h.behind, w.moved, w.next);
    has = λ k x g l. ground (arith, at_key k, w.next, h.behind, h.has k x);
    bounded = h.bounded;
    stale = λ k a g.
        write-Stale r.metadata.version k a (omega (arith, h.behind, w.next)) (h.stale k a g);
  }

-- An operation leaves the node alone or writes one entry.
abbrev pub Changes : NodeState → NodeState → Type 0
Changes s t = (t ≡ s) ⊎ ((e : Entry) × Writes s t e)

-- The version of the node has room for more.
abbrev pub Room : ℕ → NodeState → Type 0
Room n s = s.metadata.version + n < 2 ^ 64

pub bump_lem : (v : ℕ) → v + 1 < 2 ^ 64 → bump v ≡ v + 1
unfolding bump
bump_lem v h = omega arith

module _ (s : NodeState) (own : IsOwned s) (room : Room 1 s) where
  next_version : bump s.metadata.version ≡ s.metadata.version + 1
  next_version = bump_lem s.metadata.version room

  upserted : String → String → Entry
  upserted key value = record {
    key = key;
    value = value;
    version = bump s.metadata.version;
    internal = false;
    deleted = false;
  }

  other_value :
      (key value : String) (x : Entry)
      → lookup key s.entries ≡ some x
      → x.value ≢ value
      → upsert_node key value s ≡ write_entry s (upserted key value)
  unfolding upsert_node upserted
  other_value key value x e p = ground arith

  pub upsert_node-Changes :
      (key value : String) → key ≢ compact_key → Changes s (upsert_node key value s).0
  unfolding upsert_node upserted
  upsert_node-Changes key value n = elim (Option-cases (lookup key s.entries)) [
    | inl e ↦ rw (e, upsert_node) (inr (upserted key value, written))
    | inr (x, e) ↦ elim (same x.value value) [
      | yes p ↦ inl (rw (e, upsert_node) (ground arith))
      | no p ↦ rw (other_value key value x e p) (inr (upserted key value, written))
    ]
  ]
    where
      written : Writes s (write_entry s (upserted key value)).0 (upserted key value)
      written = record { entries = refl; moved = refl; next = next_version; plain = n }

  tombstone : String → Bool → Entry
  tombstone key internal = record {
    key = key;
    value = "";
    version = bump s.metadata.version;
    internal = internal;
    deleted = true;
  }

  pub delete_node-Changes : (key : String) → key ≢ compact_key → Changes s (delete_node key s).0
  unfolding delete_node tombstone
  delete_node-Changes key n = elim (Option-cases (lookup key s.entries)) [
    | inl e ↦ inl (rw (e, delete_node) refl)
    | inr (x, e) ↦ elim (Bool-cases x.deleted) [
      | inl d ↦ inl (rw (e, delete_node) (ground arith))
      | inr d ↦
          let k : x.key ≡ key = own.keyed key x e in
          rw (e, delete_node, d)
            (inr (
              tombstone x.key x.internal,
              record {
                entries = ap (λ j. insert j (tombstone x.key x.internal) s.entries) (sym k);
                moved = refl;
                next = next_version;
                plain = rw k n;
              },
            ))
    ]
  ]

  pub leave_node-Changes : Changes s (leave_node s).0
  unfolding leave_node
  leave_node-Changes = elim (Bool-cases s.metadata.left) [
    | inl e ↦ inl (rw e refl)
    | inr e ↦ rw e (
        inr (
          record {
            key = left_key;
            value = "";
            version = bump s.metadata.version;
            internal = true;
            deleted = false;
          },
          record { entries = refl; moved = refl; next = next_version; plain = keys_differ },
        ))
  ]
