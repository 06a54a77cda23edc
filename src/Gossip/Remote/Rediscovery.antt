-- ===== src/Gossip/Remote/Rediscovery.antt =====
-- A delta says nothing of the version that it starts after: what one does that comes after its node
-- was removed.
use piko.Prelude.{
  ℕ, ◌≤◌, ◌<◌, String, ◌≡◌, refl, sym, ap, ◌∙◌, ◌≢◌, ◌⊎◌, inl, inr, Option, false, none, some, List,
  [], ◌∷◌, lookup, values, lookup-insert, Option-cases, arith,
}
use piko.Prelude.Text.{parse_uint}
use piko.Gossip.State.{
  Entry, NodeState, DeltaEntry, ClusterState, Effects, new_node, entry_at, metrics_upsert_entry,
}
use piko.Gossip.Local.{put_entry}
use piko.Gossip.Order.{In, Ascending, entries_after-Ascending, In-entries_after, entries_after-In}
use piko.Gossip.Exchange.{delta_entry, entries_after}
use piko.Gossip.Remote.{
  tombstoned, discover, apply_kind, apply_compact, apply_entry, apply_entries, apply_to,
  apply_delta_entry,
}
use piko.Gossip.Remote.Versions.{version-apply_entries, version-apply_kind}
use piko.Gossip.Tracks.{IsOwned}
use piko.Gossip.Tracks.Drop.{drop-sub}

compact-sub :
    (id : String) (v : Option ℕ) (n : NodeState) (fx : Effects) (k : String) (a : Entry)
    → lookup k (apply_compact id v n fx).state.entries ≡ some a
    → lookup k n.entries ≡ some a
unfolding apply_compact
compact-sub id none n fx k a h = h
compact-sub id (some v) n fx k a h = drop-sub id n.metadata.id v (values n.entries) n.entries k a h

kind-sub :
    (id : String) (now : ℕ) (e : Entry) (n : NodeState) (fx : Effects) (k : String) (a : Entry)
    → lookup k (apply_kind id now e n fx).state.entries ≡ some a
    → lookup k n.entries ≡ some a
unfolding apply_kind
kind-sub id now e n fx k a h = ground (arith, compact-sub id (parse_uint e.value) n fx k a)

entry-sub :
    (id : String) (now : ℕ) (e : Entry) (n : NodeState) (k : String) (a : Entry)
    → lookup k (apply_entry id now e n).state.entries ≡ some a
    → (lookup k n.entries ≡ some a) ⊎ ((e ≡ a) × (e.key ≡ k))
unfolding apply_entry put_entry
entry-sub id now e n k a h = ground (
  arith,
  kind-sub id now e (put_entry n e)
      (metrics_upsert_entry n.metadata.id e (entry_at e.key n.entries)) k a,
  lookup-insert e.key k e n.entries,
)

-- A node holds only what it held or what it is told.
pub entries-sub :
    (id : String) (now : ℕ) (es : List Entry) (n : NodeState) (k : String) (a : Entry)
    → lookup k (apply_entries id now es n).0.entries ≡ some a
    → (lookup k n.entries ≡ some a) ⊎ (In a es × (a.key ≡ k))
unfolding apply_entries
entries-sub id now [] n k a h = inl h
entries-sub id now (e ∷ es) n k a h =
    ground
      (arith, entry-sub id now e n k a, entries-sub id now es (apply_entry id now e n).state k a)

told-version :
    (id : String) (now : ℕ) (e : Entry) (es : List Entry) (n : NodeState)
    → n.metadata.version < e.version
    → e.version ≤ (apply_entries id now (e ∷ es) n).0.metadata.version
unfolding apply_entries put_entry apply_entry
told-version id now e es n l = ground (
  arith,
  version-apply_kind id now e (put_entry n e)
      (metrics_upsert_entry n.metadata.id e (entry_at e.key n.entries)),
  version-apply_entries id now es (apply_entry id now e n).state,
)

told-above :
    (id : String) (now v : ℕ) (es : List Entry) (e : Entry) (n : NodeState)
    → n.metadata.version ≤ v
    → In e es
    → Ascending v es
    → v < (apply_entries id now es n).0.metadata.version
told-above id now v [] e n l i a = absurd i
told-above id now v (x ∷ es) e n l i a =
    omega (arith, a.0, told-version id now x es n (omega (arith, a.0)))

-- A delta of entries after `v` to a copy that holds nothing.
module _ (s n : NodeState) (own : IsOwned s) (v now : ℕ) (id : String) (es : n.entries ≡ [])
    (z : n.metadata.version ≡ 0) where
  abbrev told : NodeState
  told = (apply_entries id now (entries_after s v) n).0

  told-none :
      (k : String) (x : Entry)
      → lookup k s.entries ≡ some x
      → x.version ≤ v
      → lookup k told.entries ≡ none
  unfolding lookup
  told-none k x h l = elim (Option-cases (lookup k told.entries)) [
    | inl g ↦ g
    | inr (a, g) ↦ elim (entries-sub id now (entries_after s v) n k a g) [
      | inl q ↦ absurd (ground (arith, es))
      | inr (i, q) ↦
          let (j, f, m) = In-entries_after s v own.is_map a i in
          let p : j ≡ k = sym (own.keyed j a f) ∙ q in
          absurd (ground (arith, ap (λ y. lookup y s.entries) p))
    ]
  ]

  told-newer : (e : Entry) → In e (entries_after s v) → v < told.metadata.version
  told-newer e i =
      told-above id now v (entries_after s v) e n (omega (arith, z)) i
        (entries_after-Ascending s v own.is_map own.distinct)

own_tombstone : (s : ClusterState) (id : String) → (tombstoned s id id).0 ≡ false
unfolding tombstoned
own_tombstone s id = ground arith

-- A node that was removed is known again by its own delta.
known_again :
    (c : ClusterState) (now : ℕ) (d : DeltaEntry)
    → d.id ≢ c.local_id
    → lookup d.id c.nodes ≡ none
    → lookup d.id (apply_delta_entry d.id now d c).0.nodes
      ≡ some (apply_entries d.id now d.entries (new_node d.id d.addr)).0
unfolding apply_delta_entry apply_to
known_again c now d far gone =
    let r = (apply_entries d.id now d.entries (new_node d.id d.addr)).0 in
    let t = (tombstoned c d.id d.id).1 in
    ground (arith, own_tombstone c d.id, lookup-insert d.id d.id r (discover d.id d.addr t).nodes)

-- What is lost of `s` in its copy `n`: the entry under the key, which no later answer has either.
pub record Lost (k : String) (x : Entry) (s n : NodeState) : Type 0 where
  pub absent : lookup k n.entries ≡ none
  pub unsent : In x (entries_after s n.metadata.version) → ⊥

-- Where a node was removed after it was sent a digest, and its answer to that digest, of its entries
-- after the version in it, comes then and is not empty: the node is known again, without any of its
-- entries up to the version, and its answers to the new version do not have them either.
pub apply_delta_entry-gap :
    (c : ClusterState) (s : NodeState) (v now : ℕ) (k j : String) (x y : Entry)
    → IsOwned s
    → s.metadata.id ≢ c.local_id
    → lookup s.metadata.id c.nodes ≡ none
    → lookup k s.entries ≡ some x
    → x.version ≤ v
    → lookup j s.entries ≡ some y
    → v < y.version
    → (n : NodeState) × (lookup s.metadata.id
          (apply_delta_entry s.metadata.id now (delta_entry s v) c).0.nodes
        ≡ some n)
      × Lost k x s n
unfolding delta_entry new_node
apply_delta_entry-gap c s v now k j x y own far gone h l g m =
    let id = s.metadata.id in
    let n₀ = new_node id s.metadata.addr in
    let n = told s n₀ own v now id refl refl in
    let i = entries_after-In s v own.is_map j y g m in
    (
      n,
      known_again c now (delta_entry s v) far gone,
      record {
        absent = told-none s n₀ own v now id refl refl k x h l;
        unsent = λ q.
            let (_, _, w) = In-entries_after s n.metadata.version own.is_map x q in
            omega (arith, told-newer s n₀ own v now id refl refl y i);
      },
    )
