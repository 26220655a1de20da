-- ===== src/InstancePool/Tests.antt =====
-- A pool of one instance, and the theorems at concrete inputs.
use clean_node_server.Common.{◌≡◌, refl, false, inl, List, [], ◌∷◌, nat_eq, string_eq, elem}
use clean_node_server.InstancePool.{
  compute_retained_growth, should_rotate, max_request_count, max_heap_growth_bytes, spawn, hand_out,
  acquire, acquire_from, put_back, release, spawned, spawn_failed, close_instances, PoolEvent,
  acquires, releases, spawns, pool_step, pool_run, initialize_instances,
}
use clean_node_server.InstancePool.Rotation.{acquire-pool_run}

pool_calls : Unit {0}
unfolding compute_retained_growth should_rotate max_request_count max_heap_growth_bytes spawn
    hand_out acquire acquire_from put_back release spawned spawn_failed close_instances pool_step
    pool_run initialize_instances
pool_calls = tt

-- The second request finds no instance and gets a new one; the first one's buffer grows too much.
abbrev pool_events : List PoolEvent
pool_events =
    acquires 1024 65536
    ∷ acquires 1024 65536
    ∷ releases 0 2048 60000000
    ∷ releases 1 2048 65536
    ∷ spawns 1024 65536
    ∷ []

pool_runs :
    ((pool_run pool_events (initialize_instances 1024 65536 1)).available ≡ 2 ∷ 1 ∷ [])
    × ((pool_run pool_events (initialize_instances 1024 65536 1)).entry_map ≡ 2 ∷ 1 ∷ [])
unfolding pool_calls
pool_runs = (refl, refl)

acquire-pool_run_example :
    let p = pool_run pool_events (initialize_instances 1024 65536 1) in
    elem (acquire 1024 65536 p).0 p.in_use ≡ false
unfolding pool_calls
acquire-pool_run_example =
    acquire-pool_run 1024 65536 1 1024 65536 pool_events (inl refl, (inl refl, tt))
