-- ===== src/Gossip/Relay/Net/Safety.antt =====
-- In every net that can be reached each copy is a snapshot, and a whole answer brings it up to date.
use native.Mathlib.Decide.{ℕ_discrete}
use piko.Prelude.{
  ℕ, ◌≤◌, String, ◌≡◌, refl, sym, ap, subst, ◌⊎◌, inl, inr, List, [], ◌∷◌, ◌++◌, lookup, arith,
}
use piko.Gossip.State.{Entry, NodeState, new_node}
use piko.Gossip.Exchange.{entries_after}
use piko.Gossip.Remote.{apply_entries}
use piko.Gossip.Remote.Versions.{version-apply_entries}
use piko.Gossip.Tracks.{IsOwned, Tracks}
use piko.Gossip.Tracks.Converge.{InSync}
use piko.Gossip.Owner.Write.{upsert_node-Changes, delete_node-Changes, leave_node-Changes}
use piko.Gossip.Owner.History.{new-Consistent}
use piko.Gossip.Relay.{IsCopy, Parcel}
use piko.Gossip.Relay.Whole.{
  apply_entries-Reached, apply_entries-upto, copy-Parcel, owner-IsCopy, caught_up,
}
use piko.Gossip.Relay.Grows.{Grows, Grows-IsCopy, Grows-Parcel, Changes-Grows, compact_node-Grows}
use piko.Gossip.Relay.Net.{
  Packet, Digest, Net, update, InFlight, Step, upsert, delete, leave, compact, ask, answer, miss,
  relay, receive, lose, mark, forget, IsFresh, Reach, start, later,
}

-- What a delta on its way holds: all of the owner from a version that the copy has on.
pub record Fits (s : NodeState) (v : ℕ) (es : List Entry) : Type 0 where
  pub from : ℕ
  pub upto : ℕ
  pub has : from ≤ v
  pub parcel : Parcel s from upto es

pub record Good (n : Net) : Type 0 where
  pub owned : IsOwned n.owner
  pub copies : (i : ℕ) → IsCopy (n.copies i) n.owner
  pub digests :
      (d : Digest) → InFlight d n.digests → d.version ≤ (n.copies d.sender).metadata.version
  pub packets :
      (p : Packet) → InFlight p n.flight → Fits n.owner (n.copies p.to).metadata.version p.entries

Grows-Good : (n : Net) (t : NodeState) → Good n → Grows n.owner t → Good (record n { owner = t })
Grows-Good n t g h = record {
  owned = h.owned;
  copies = λ i. Grows-IsCopy n.owner t h (n.copies i) (g.copies i);
  digests = g.digests;
  packets = λ p i.
      let f = g.packets p i in
      record {
        from = f.from;
        upto = f.upto;
        has = f.has;
        parcel = Grows-Parcel n.owner t h f.from f.upto p.entries f.parcel;
      };
}

send-Good :
    (n : Net) (p : Packet)
    → Good n
    → Fits n.owner (n.copies p.to).metadata.version p.entries
    → Good (record n { flight = p ∷ n.flight })
send-Good n p g f = record {
  owned = g.owned;
  copies = g.copies;
  digests = g.digests;
  packets = λ x i. elim i [
    | inl q ↦ subst (λ y. Fits n.owner (n.copies y.to).metadata.version y.entries) q f
    | inr j ↦ g.packets x j
  ];
}

update-cases :
    (f : ℕ → NodeState) (i j : ℕ) (r : NodeState)
    → ((update f i r j ≡ r) × (j ≡ i)) ⊎ (update f i r j ≡ f j)
update-cases f i j r = elim (ℕ_discrete i j) [
  | yes q ↦ inl (ground arith, sym q)
  | no q ↦ inr (ground arith)
]

-- One copy gets a new state, of no lower a version where a delta to it or a digest of its own is on
-- its way.
update-Good :
    (n : Net) (i : ℕ) (r : NodeState)
    → Good n
    → IsCopy r n.owner
    → ((p : Packet)
        → InFlight p n.flight
        → p.to ≡ i
        → (n.copies i).metadata.version ≤ r.metadata.version)
    → ((d : Digest)
        → InFlight d n.digests
        → d.sender ≡ i
        → (n.copies i).metadata.version ≤ r.metadata.version)
    → Good (record n { copies = update n.copies i r })
update-Good n i r g c l m = record {
  owned = g.owned;
  copies =
      λ j. elim (update-cases n.copies i j r) [ inl (u, _) ↦ rw u c | inr u ↦ rw u (g.copies j) ];
  digests = λ d f. elim (update-cases n.copies i d.sender r) [
    | inl (u, q) ↦
        let e : (n.copies d.sender).metadata.version ≡ (n.copies i).metadata.version =
          ap (λ x. (n.copies x).metadata.version) q in
        rw u (omega (arith, g.digests d f, m d f q, e))
    | inr u ↦ rw u (g.digests d f)
  ];
  packets = λ p f.
      let h = g.packets p f in
      record {
        from = h.from;
        upto = h.upto;
        has = elim (update-cases n.copies i p.to r) [
          | inl (u, q) ↦
              let m : (n.copies p.to).metadata.version ≡ (n.copies i).metadata.version =
                ap (λ x. (n.copies x).metadata.version) q in
              rw u (omega (arith, h.has, l p f q, m))
          | inr u ↦ rw u h.has
        ];
        parcel = h.parcel;
      };
}

-- A copy of a node that nothing is known of.
empty-IsCopy : (r s : NodeState) → IsOwned s → r.entries ≡ [] → r.metadata.version ≡ 0 → IsCopy r s
unfolding lookup
empty-IsCopy r s own es v = record {
  tracks = record {
    is_map = rw es tt;
    keyed = rw es λ k e h. cc;
    behind = omega (arith, v);
    has = λ k e h l. absurd (omega (arith, v, own.positive k e h));
    bounded = rw es λ k e h. cc;
    stale = rw es λ k a h. cc;
  };
  distinct = rw es λ j k a b g h q. cc;
  marked = rw es λ a h. cc;
  latest = inl v;
}

like-IsCopy :
    (r q s : NodeState)
    → r.entries ≡ q.entries
    → r.metadata.version ≡ q.metadata.version
    → IsCopy q s
    → IsCopy r s
like-IsCopy r q s es v c =
    let t = c.tracks in
    record {
      tracks = record {
        is_map = rw es t.is_map;
        keyed = rw es t.keyed;
        behind = omega (arith, v, t.behind);
        has = rw (es, v) t.has;
        bounded = rw (es, v) t.bounded;
        stale = rw (es, v) t.stale;
      };
      distinct = rw es c.distinct;
      marked = rw (es, v) c.marked;
      latest = rw (es, v) c.latest;
    }

front-or-back :
    {A : Type 0} (p x : A) (front back : List A)
    → InFlight x (front ++ back)
    → InFlight x (front ++ p ∷ back)
front-or-back p x [] back i = inr i
front-or-back p x (y ∷ front) back (inl q) = inl q
front-or-back p x (y ∷ front) back (inr i) = inr (front-or-back p x front back i)

Step-Good : {n m : Net} → Step n m → Good n → Good m
unfolding new_node
Step-Good (upsert n key value k room) g =
    Grows-Good n _ g
      (Changes-Grows n.owner _ g.owned (upsert_node-Changes n.owner g.owned room key value k))
Step-Good (delete n key k room) g =
    Grows-Good n _ g
      (Changes-Grows n.owner _ g.owned (delete_node-Changes n.owner g.owned room key k))
Step-Good (leave n room) g =
    Grows-Good n _ g (Changes-Grows n.owner _ g.owned (leave_node-Changes n.owner g.owned room))
Step-Good (compact n threshold t fx room h) g =
    Grows-Good n t g (compact_node-Grows threshold n.owner t fx g.owned room h)
Step-Good (ask n i v l) g = record {
  owned = g.owned;
  copies = g.copies;
  digests = λ d f. elim f [
    | inl q ↦ subst (λ y. y.version ≤ (n.copies y.sender).metadata.version) q l
    | inr j ↦ g.digests d j
  ];
  packets = g.packets;
}
Step-Good (answer n d f) g = send-Good n _ g (record {
  from = d.version;
  upto = n.owner.metadata.version;
  has = g.digests d f;
  parcel = copy-Parcel n.owner g.owned n.owner d.version (owner-IsCopy n.owner g.owned);
})
Step-Good (relay n j d f) g = send-Good n _ g (record {
  from = d.version;
  upto = (n.copies j).metadata.version;
  has = g.digests d f;
  parcel = copy-Parcel n.owner g.owned (n.copies j) d.version (g.copies j);
})
Step-Good (miss n d front back q) g = record {
  owned = g.owned;
  copies = g.copies;
  digests = λ x i. g.digests x (subst (InFlight x) (sym q) (front-or-back d x front back i));
  packets = g.packets;
}
Step-Good (receive n p id now es rest i q) g =
    let f = g.packets p i in
    let r = n.copies p.to in
    let reached =
      apply_entries-Reached n.owner g.owned f.upto id now es rest f.from r (g.copies p.to) f.has
        (subst (Parcel n.owner f.from f.upto) q f.parcel) in
    let up = version-apply_entries id now es r in
    update-Good n p.to _ g reached.is_copy (λ _ _ _. up) (λ _ _ _. up)
Step-Good (lose n p front back q) g = record {
  owned = g.owned;
  copies = g.copies;
  digests = g.digests;
  packets = λ x i. g.packets x (subst (InFlight x) (sym q) (front-or-back p x front back i));
}
Step-Good (mark n i r es v) g =
    update-Good n i r g (like-IsCopy r (n.copies i) n.owner es v (g.copies i))
      (λ _ _ _. omega (arith, v)) (λ _ _ _. omega (arith, v))
Step-Good (forget n i id addr away quiet) g =
    update-Good n i _ g (empty-IsCopy _ n.owner g.owned refl refl) (λ p f q. absurd (away p f q))
      (λ d f q. absurd (quiet d f q))

fresh-Good : (n : Net) → IsFresh n → Good n
fresh-Good n f =
    let own : IsOwned n.owner = rw f.owner (new-Consistent f.id f.addr f.addr).0 in
    record {
      owned = own;
      copies = λ i. empty-IsCopy (n.copies i) n.owner own (f.copies i) (f.versions i);
      digests = rw f.digests λ d i. absurd i;
      packets = rw f.flight λ p i. absurd i;
    }

pub Reach-Good : {n₀ n : Net} → IsFresh n₀ → Reach n₀ n → Good n
Reach-Good f start = fresh-Good _ f
Reach-Good f (later r st) = Step-Good st (Reach-Good f r)

-- Whatever a node has done since it started, and whatever any number of peers have heard of it, from
-- itself or from each other, by digests and deltas that came late, twice, out of order, cut off or
-- not at all, while the peers marked or forgot their copies: one whole answer of the node to the
-- version that a peer has leaves the peer with the version and with exactly the entries of the node.
-- Updates use keys other than the compaction key, no version passes 2 ^ 64, and a peer forgets the
-- node only when neither a delta of it to the peer nor a digest that the peer sent is on its way.
pub net_converges :
    (n₀ n : Net) (id : String) (i now : ℕ)
    → IsFresh n₀
    → Reach n₀ n
    → InSync
        (apply_entries id now (entries_after n.owner (n.copies i).metadata.version) (n.copies i)).0
        n.owner
net_converges n₀ n id i now f r =
    let g = Reach-Good f r in
    let v = (n.copies i).metadata.version in
    let own = owner-IsCopy n.owner g.owned in
    let (c, l) =
      apply_entries-upto n.owner g.owned n.owner.metadata.version id now (entries_after n.owner v) v
        (n.copies i) (g.copies i) (omega arith) (copy-Parcel n.owner g.owned n.owner v own) in
    caught_up n.owner g.owned _ c l

-- What the copy `b` may expect of the copy `r` that it answered.
pub record Relayed (b r s : NodeState) : Type 0 where
  pub tracks : Tracks r s
  pub upto : b.metadata.version ≤ r.metadata.version
  pub in_sync : b.metadata.version ≡ s.metadata.version → InSync r s

-- In each such net, with the same conditions, a peer `j` may answer for the node: its whole answer to the version that a peer `i`
-- has takes the copy of `i` to at least the version of the copy of `j`, still a consistent snapshot of
-- the node's state, and to exactly the node's entries where `j` is up to date.
pub net_relays :
    (n₀ n : Net) (id : String) (i j now : ℕ)
    → IsFresh n₀
    → Reach n₀ n
    → Relayed
        (n.copies j)
        (apply_entries id now
          (entries_after (n.copies j) (n.copies i).metadata.version)
          (n.copies i)).0
        n.owner
net_relays n₀ n id i j now f r =
    let g = Reach-Good f r in
    let b = n.copies j in
    let v = (n.copies i).metadata.version in
    let (c, l) =
      apply_entries-upto n.owner g.owned b.metadata.version id now (entries_after b v) v
        (n.copies i) (g.copies i) (omega arith) (copy-Parcel n.owner g.owned b v (g.copies j)) in
    record {
      tracks = c.tracks;
      upto = l;
      in_sync = λ e. caught_up n.owner g.owned _ c (omega (arith, e));
    }
