-- ===== src/Gossip/Relay/Net.antt =====
-- A node, the copies of its state at any number of peers, and the digests and deltas on their way
-- between them.
pub mod Safety
mod Examples
use native.Mathlib.Decide.{ℕ_discrete}
use piko.Prelude.{
  ℕ, ◌+◌, ◌≤◌, String, ◌≡◌, ◌≢◌, ◌⊎◌, some, List, [], ◌∷◌, ◌++◌, values, length, ite,
}
use piko.Gossip.State.{Entry, NodeState, Effects, compact_key, sort_by_version, new_node}
use piko.Gossip.Local.{upsert_node, delete_node, leave_node}
use piko.Gossip.Compact.{compact_node}
use piko.Gossip.Exchange.{entries_after}
use piko.Gossip.Remote.{apply_entries}
use piko.Gossip.Owner.Write.{Room}

-- The entries of a delta, on their way to a peer.
pub record Packet : Type 0 where
  pub to : ℕ
  pub entries : List Entry

-- The version in a digest that a peer has sent.
pub record Digest : Type 0 where
  pub sender : ℕ
  pub version : ℕ

pub record Net : Type 0 where
  pub owner : NodeState
  pub copies : ℕ → NodeState
  pub digests : List Digest
  pub flight : List Packet

abbrev pub update : (ℕ → NodeState) → ℕ → NodeState → ℕ → NodeState
update f i r j = ite (ℕ_discrete i j) r (f j)

abbrev pub InFlight : {A : Type 0} → A → List A → Type 0
InFlight p [] = ⊥
InFlight p (x ∷ xs) = (x ≡ p) ⊎ InFlight p xs

-- The owner changes its state by its own updates only. A peer may at any time send a digest, at the
-- version of its copy, or at an earlier one, such as 0 where a digest that is cut off leaves the node
-- out. The owner and every peer may answer a digest on its way any number of times and late, with what
-- they hold after its version. A delta on its way may come any number of times, late and cut off
-- behind any entry. Both may be lost. A peer may mark its copy, unreachable or live, and may forget
-- it where neither a delta to it nor a digest of its own is on its way. The keys of the program's own
-- entries are not `compact_key`, and the versions stay below 2 ^ 64.
pub data Step : Net → Net → Type 0 where
  upsert :
      (n : Net) (key value : String)
      → key ≢ compact_key
      → Room 1 n.owner
      → Step n (record n { owner = (upsert_node key value n.owner).0 })
  delete :
      (n : Net) (key : String)
      → key ≢ compact_key
      → Room 1 n.owner
      → Step n (record n { owner = (delete_node key n.owner).0 })
  leave : (n : Net) → Room 1 n.owner → Step n (record n { owner = (leave_node n.owner).0 })
  compact :
      (n : Net) (threshold : ℕ) (t : NodeState) (fx : Effects)
      → Room (length (sort_by_version (values n.owner.entries)) + 1) n.owner
      → compact_node threshold n.owner ≡ some (t, fx)
      → Step n (record n { owner = t })
  ask :
      (n : Net) (i v : ℕ)
      → v ≤ (n.copies i).metadata.version
      → Step n (record n { digests = record { sender = i; version = v } ∷ n.digests })
  answer :
      (n : Net) (d : Digest)
      → InFlight d n.digests
      → Step n (record n {
        flight = record { to = d.sender; entries = entries_after n.owner d.version } ∷ n.flight;
      })
  relay :
      (n : Net) (j : ℕ) (d : Digest)
      → InFlight d n.digests
      → Step n (record n {
        flight =
            record { to = d.sender; entries = entries_after (n.copies j) d.version } ∷ n.flight;
      })
  miss :
      (n : Net) (d : Digest) (front back : List Digest)
      → n.digests ≡ front ++ d ∷ back
      → Step n (record n { digests = front ++ back })
  receive :
      (n : Net) (p : Packet) (id : String) (now : ℕ) (es rest : List Entry)
      → InFlight p n.flight
      → p.entries ≡ es ++ rest
      → Step n
          (record n { copies = update n.copies p.to (apply_entries id now es (n.copies p.to)).0 })
  lose :
      (n : Net) (p : Packet) (front back : List Packet)
      → n.flight ≡ front ++ p ∷ back
      → Step n (record n { flight = front ++ back })
  mark :
      (n : Net) (i : ℕ) (r : NodeState)
      → r.entries ≡ (n.copies i).entries
      → r.metadata.version ≡ (n.copies i).metadata.version
      → Step n (record n { copies = update n.copies i r })
  forget :
      (n : Net) (i : ℕ) (id addr : String)
      → ((p : Packet) → InFlight p n.flight → p.to ≢ i)
      → ((d : Digest) → InFlight d n.digests → d.sender ≢ i)
      → Step n (record n { copies = update n.copies i (new_node id addr) })

-- The net when a node starts: nobody has an entry of it.
pub record IsFresh (n : Net) : Type 0 where
  pub id : String
  pub addr : String
  pub owner : n.owner ≡ new_node id addr
  pub copies : (i : ℕ) → (n.copies i).entries ≡ []
  pub versions : (i : ℕ) → (n.copies i).metadata.version ≡ 0
  pub digests : n.digests ≡ []
  pub flight : n.flight ≡ []

pub data Reach (n₀ : Net) : Net → Type 0 where
  start : Reach n₀ n₀
  later : {n m : Net} → Reach n₀ n → Step n m → Reach n₀ m
