-- ===== src/Sync/Syncer/Watch.antt =====
-- The watcher interface (pkg/gossip/watcher.go): which handler of the syncer each call reaches.
use piko.Prelude.{List, [], ◌∷◌, ◌++◌}
use piko.Gossip.State
use piko.Cluster.State.{Effects}
use piko.Sync.Syncer.{
  Syncer, on_join, on_leave, on_reachable, on_unreachable, on_expired, on_upsert_key, on_delete_key,
}

-- Calls of the gauge and of the failure detector do not reach the watcher.
unfoldable pub watch : State.Effect → Syncer → Syncer × Effects
unfolding on_join on_leave on_reachable on_unreachable on_expired on_upsert_key on_delete_key
watch (State.on_join id) s = (on_join id s, [])
watch (State.on_leave id) s = on_leave id s
watch (State.on_reachable id) s = on_reachable id s
watch (State.on_unreachable id) s = on_unreachable id s
watch (State.on_expired id) s = on_expired id s
watch (State.on_upsert_key id key value) s = on_upsert_key id key value s
watch (State.on_delete_key id key) s = on_delete_key id key s
watch (State.gauge_inc id i d) s = (s, [])
watch (State.gauge_dec id i d) s = (s, [])
watch (State.gauge_clear id) s = (s, [])
watch (State.detector_remove id) s = (s, [])

unfoldable pub watch_all : List State.Effect → Syncer → Syncer × Effects
unfolding watch
watch_all [] s = (s, [])
watch_all (e ∷ es) s =
    let (s', fx) = watch e s in let (s'', gx) = watch_all es s' in (s'', fx ++ gx)
