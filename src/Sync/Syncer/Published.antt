-- ===== src/Sync/Syncer/Published.antt =====
-- What one node publishes of its endpoints is what another node routes by.
use piko.Prelude.{
  ℕ, ◌≤◌, zero, suc, String, ◌≡◌, refl, ap, ◌≢◌, false, none, some, Map, lookup, insert, remove,
  lookup-insert, lookup-remove, arith,
}
use piko.Prelude.Int.{ℤ, pos, max_int, above}
use piko.Prelude.Text.{cut_prefix, cut_prefix-append, itoa, atoi, atoi-itoa}
use piko.Cluster.State
use piko.Cluster.State.Counts.{Counts, Counts-listeners, listeners-insert, listeners-remove}
use piko.Cluster.State.{State, Node, Effects, listeners}
use piko.Sync.Syncer.{
  Syncer, Publish, upsert_local, delete_local, publish_endpoint, on_local_update, endpoint_key,
  endpoint_prefix, proxy_addr_key, admin_addr_key, is_address_key, is_known, upsert_endpoint,
  on_upsert_key, on_delete_key, with_cluster,
}

cut_endpoint_key : (id : String) → cut_prefix endpoint_prefix (endpoint_key id) ≡ some id
unfolding endpoint_key
cut_endpoint_key id = cut_prefix-append endpoint_prefix id

no_prefix : (id key : String) → cut_prefix endpoint_prefix key ≡ none → endpoint_key id ≢ key
no_prefix id key h p = cc (cut_endpoint_key id, ap (cut_prefix endpoint_prefix) p)

not_address : (id : String) → is_address_key (endpoint_key id) ≡ false
unfolding is_address_key cut_prefix
not_address id =
    let a = no_prefix id proxy_addr_key refl in
    let b = no_prefix id admin_addr_key refl in ground (arith, a, b)

publish_some :
    (id : String) (k : ℕ)
    → publish_endpoint id (pos (suc k)) ≡ upsert_local (endpoint_key id) (itoa (pos (suc k)))
unfolding publish_endpoint above
publish_some id k = ground arith

-- The receiving side of a publication of this node.
unfoldable pub receive : String → Publish → Syncer → Syncer × Effects
unfolding on_upsert_key on_delete_key
receive node_id (upsert_local key value) s = on_upsert_key node_id key value s
receive node_id (delete_local key) s = on_delete_key node_id key s

-- The syncer of another node after a publication: it knows these listeners of the endpoint, and
-- every other endpoint of the node as before.
pub record Received (node_id id : String) (k : ℕ) (n : Node) (t : Syncer) : Type 0 where
  pub node : Node
  pub known : lookup node_id t.cluster.nodes ≡ some node
  pub listens : listeners id node.endpoints ≡ pos k
  pub others : (j : String) → id ≢ j → lookup j node.endpoints ≡ lookup j n.endpoints

module _ (node_id id : String) (s : Syncer) (n : Node) (remote : node_id ≢ s.cluster.local_id)
    (known : lookup node_id s.cluster.nodes ≡ some n) where
  abbrev with_endpoints : Map ℤ → Syncer
  with_endpoints m = record s {
    cluster = record s.cluster {
      nodes = insert node_id (record n { endpoints = m }) s.cluster.nodes;
    };
  }

  upsert_received :
      (v : ℤ) (value : String)
      → atoi value ≡ some v
      → (on_upsert_key node_id (endpoint_key id) value s).0
        ≡ with_endpoints (insert id v n.endpoints)
  unfolding on_upsert_key upsert_endpoint is_known State.node State.update_remote_endpoint
      State.change_remote_endpoints State.notify_if
  upsert_received v value h = ground (arith, remote, known, h, not_address id, cut_endpoint_key id)

  delete_received :
      (on_delete_key node_id (endpoint_key id) s).0 ≡ with_endpoints (remove id n.endpoints)
  unfolding on_delete_key with_cluster State.remove_remote_endpoint State.change_remote_endpoints
      State.notify_if
  delete_received = ground (arith, remote, known, cut_endpoint_key id)

  known_after :
      (m : Map ℤ)
      → lookup node_id (with_endpoints m).cluster.nodes ≡ some (record n { endpoints = m })
  known_after m =
      ground (arith, lookup-insert node_id node_id (record n { endpoints = m }) s.cluster.nodes)

  publication-Received :
      (k : ℕ)
      → k ≤ max_int
      → Received node_id id k n (receive node_id (publish_endpoint id (pos k)) s).0
  unfolding receive publish_endpoint
  publication-Received zero l = rw delete_received (record {
    node = record n { endpoints = remove id n.endpoints };
    known = known_after (remove id n.endpoints);
    listens = ground (arith, listeners-remove id id n.endpoints);
    others = λ j ne. ground (arith, lookup-remove id j n.endpoints);
  })
  publication-Received (suc k) l =
      rw
        (
          publish_some id k,
          receive,
          upsert_received (pos (suc k)) (itoa (pos (suc k))) (atoi-itoa (suc k) l),
        )
        (record {
          node = record n { endpoints = insert id (pos (suc k)) n.endpoints };
          known = known_after (insert id (pos (suc k)) n.endpoints);
          listens = ground (arith, listeners-insert id id (pos (suc k)) n.endpoints);
          others = λ j ne. ground (arith, lookup-insert id j (pos (suc k)) n.endpoints);
        })

-- When a local endpoint changes, the node publishes a key or deletes it; and the syncer of another
-- node that knows this node, told of that key, then holds exactly the listeners that the publishing
-- node counts for the endpoint, and has changed no other endpoint of the node.
pub published-Received :
    (node_id id : String) (f : String → ℕ) (sender s : Syncer) (n : Node)
    → Counts f sender.cluster
    → f id ≤ max_int
    → node_id ≢ s.cluster.local_id
    → lookup node_id s.cluster.nodes ≡ some n
    → (p : Publish) × (on_local_update id sender ≡ some p)
      × Received node_id id (f id) n (receive node_id p s).0
unfolding on_local_update
published-Received node_id id f sender s n c l remote known = (
  publish_endpoint id (pos (f id)),
  rw (Counts-listeners id f sender.cluster c) refl,
  publication-Received node_id id s n remote known (f id) l,
)
