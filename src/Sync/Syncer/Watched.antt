-- ===== src/Sync/Syncer/Watched.antt =====
-- The syncer over any history of calls of its watcher.
use piko.Prelude.{sym, ap, ◌∙◌, List, [], ◌∷◌, lookup}
use piko.Gossip.State as Gossip
use piko.Cluster.State.{State}
use piko.Sync.Syncer.{Syncer, new_syncer}
use piko.Sync.Syncer.Watch.{watch, watch_all}
use piko.Sync.Syncer.Pending.{
  WellFormed, Good, unchanged, on_join-Good, on_leave-Good, on_reachable-Good, on_unreachable-Good,
  on_expired-Good, on_upsert_key-Good, on_delete_key-Good,
}

Good-trans : {s t u : Syncer} → Good s t → Good t u → Good s u
Good-trans {s} {t} {u} g h = record {
  well_formed = h.well_formed;
  local_id = h.local_id ∙ g.local_id;
  local_node =
      ap (λ i. lookup i u.cluster.nodes) (sym g.local_id)
      ∙ h.local_node
      ∙ ap (λ i. lookup i t.cluster.nodes) g.local_id
      ∙ g.local_node;
}

watch-Good : (s : Syncer) → WellFormed s → (e : Gossip.Effect) → Good s (watch e s).0
unfolding watch
watch-Good s w (Gossip.on_join id) = on_join-Good s w id
watch-Good s w (Gossip.on_leave id) = on_leave-Good s w id
watch-Good s w (Gossip.on_reachable id) = on_reachable-Good s w id
watch-Good s w (Gossip.on_unreachable id) = on_unreachable-Good s w id
watch-Good s w (Gossip.on_expired id) = on_expired-Good s w id
watch-Good s w (Gossip.on_upsert_key id key value) = on_upsert_key-Good s w id key value
watch-Good s w (Gossip.on_delete_key id key) = on_delete_key-Good s w id key
watch-Good s w (Gossip.gauge_inc id i d) = unchanged s w
watch-Good s w (Gossip.gauge_dec id i d) = unchanged s w
watch-Good s w (Gossip.gauge_clear id) = unchanged s w
watch-Good s w (Gossip.detector_remove id) = unchanged s w

watch_all-Good : (es : List Gossip.Effect) (s : Syncer) → WellFormed s → Good s (watch_all es s).0
unfolding watch_all
watch_all-Good [] s w = unchanged s w
watch_all-Good (e ∷ es) s w =
    let g = watch-Good s w e in Good-trans g (watch_all-Good es _ g.well_formed)

new_syncer-WellFormed : (c : State) → WellFormed (new_syncer c)
unfolding new_syncer lookup
new_syncer-WellFormed c id = tt

-- Whatever calls a new syncer gets, in whatever order: each pending node is under its own name, is
-- not the local node, is unknown to the cluster state and still lacks an address; and the local node
-- of the cluster state is as it was.
pub watched-Good :
    (c : State) (es : List Gossip.Effect) → Good (new_syncer c) (watch_all es (new_syncer c)).0
watched-Good c es = watch_all-Good es (new_syncer c) (new_syncer-WellFormed c)
