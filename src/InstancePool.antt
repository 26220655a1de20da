-- ===== src/InstancePool.antt =====
-- wasm/pool.ts: the pool of WebAssembly instances. An instance is its number in the order in which
-- instances were created; what the module does to its memory between a release and the one before
-- is given with the release, as the heap pointer and the length of the buffer that it then has.
pub mod Rotation
pub mod Tests
use clean_node_server.Common.{
  ℕ, zero, suc, ◌+◌, ◌-◌, ◌*◌, ◌<◌, ◌≤◌, ◌≡◌, ◌≢◌, refl, sym, ap, subst, ap₂, ◌∙◌, String, Bool,
  true, false, not, ◌&&◌, ◌||◌, ◌⊎◌, inl, inr, List, [], ◌∷◌, ◌++◌, Option, none, some, arith,
  length, get_elem?, set, nat_eq, string_eq, ◌==◌, if◌then◌else◌, if_cases, ltb, leb, elem, without,
  All, Bool-cases, Option-cases,
}
use clean_node_server.Common.Assoc

pub max_request_count : ℕ
max_request_count = 1000

pub max_heap_growth_bytes : ℕ
max_heap_growth_bytes = 52428800

-- `Math.max(0, a - b)` is the subtraction of natural numbers.
pub compute_retained_growth : ℕ → ℕ → ℕ → ℕ → ℕ
compute_retained_growth current_heap_ptr current_memory_bytes initial_heap_ptr
      initial_memory_bytes =
    let heap_grown = current_heap_ptr - initial_heap_ptr in
    let buffer_grown = current_memory_bytes - initial_memory_bytes in
    if ltb buffer_grown heap_grown then heap_grown else buffer_grown

-- The last two arguments default to the constants above.
pub should_rotate : ℕ → ℕ → ℕ → ℕ → Bool
should_rotate request_count retained_growth max_requests max_growth_bytes =
    leb max_requests request_count || ltb max_growth_bytes retained_growth

pub record PoolEntry : Type 0 where
  pub request_count : ℕ
  pub initial_heap_ptr : ℕ
  pub initial_memory_bytes : ℕ

-- `available` is a stack, its top first, of instances: each entry object is that of `entries`, which
-- keeps the entries of instances that have been rotated out, while `entry_map` is the set of the
-- keys of `entryMap`. `spawning` counts the replacements under way.
pub record InstancePool : Type 0 where
  pub entries : List (ℕ × PoolEntry)
  pub available : List ℕ
  pub in_use : List ℕ
  pub entry_map : List ℕ
  pub next_instance : ℕ
  pub spawning : ℕ

-- A new instance, with the heap pointer and the length of the buffer that it starts with.
pub spawn : ℕ → ℕ → InstancePool → InstancePool
spawn heap_ptr memory_bytes p = record p {
  entries =
      Assoc.set p.next_instance
        (record {
          request_count = 0;
          initial_heap_ptr = heap_ptr;
          initial_memory_bytes = memory_bytes;
        })
        p.entries;
  entry_map = p.next_instance ∷ p.entry_map;
  next_instance = suc p.next_instance;
}

-- The instance leaves for a request.
pub hand_out : ℕ → InstancePool → InstancePool
hand_out i p = elim (Assoc.get i p.entries) [
  | none ↦ p
  | some e ↦ record p {
    in_use = if elem i p.in_use then p.in_use else p.in_use ++ i ∷ [];
    entries = Assoc.set i (record e { request_count = suc e.request_count }) p.entries;
  }
]

-- The first two arguments are those of a spawn, should the pool be empty. A spawn that fails leaves
-- the pool as it is, and the request without an instance.
pub acquire_from : ℕ → ℕ → List ℕ → InstancePool → ℕ × InstancePool
unfolding spawn hand_out
acquire_from heap_ptr memory_bytes [] p =
    (p.next_instance, hand_out p.next_instance (spawn heap_ptr memory_bytes p))
acquire_from heap_ptr memory_bytes (i ∷ is) p = (i, hand_out i (record p { available = is }))

pub acquire : ℕ → ℕ → InstancePool → ℕ × InstancePool
unfolding acquire_from
acquire heap_ptr memory_bytes p = acquire_from heap_ptr memory_bytes p.available p

-- The pool once the instance is out of `inUse` and is known to `entryMap`.
pub put_back : ℕ → PoolEntry → ℕ → ℕ → InstancePool → InstancePool
unfolding compute_retained_growth should_rotate max_request_count max_heap_growth_bytes
put_back i e heap_ptr memory_bytes p =
    let growth =
      compute_retained_growth heap_ptr memory_bytes e.initial_heap_ptr e.initial_memory_bytes in
    if should_rotate e.request_count growth max_request_count max_heap_growth_bytes
    then record p { entry_map = without i p.entry_map; spawning = suc p.spawning }
    else record p { available = i ∷ p.available }

pub release : ℕ → ℕ → ℕ → InstancePool → InstancePool
unfolding put_back
release i heap_ptr memory_bytes p =
    let out = record p { in_use = without i p.in_use } in
    elim (Assoc.get i p.entries) [
      | none ↦ out
      | some e ↦ if elem i p.entry_map then put_back i e heap_ptr memory_bytes out else out
    ]

-- A replacement is there.
pub spawned : ℕ → ℕ → InstancePool → InstancePool
unfolding spawn
spawned heap_ptr memory_bytes p =
    let q = spawn heap_ptr memory_bytes p in
    if p.spawning == 0
    then p
    else record q { available = p.next_instance ∷ p.available; spawning = p.spawning - 1 }

pub spawn_failed : InstancePool → InstancePool
spawn_failed p = record p { spawning = p.spawning - 1 }

pub close_instances : InstancePool → InstancePool
close_instances p = record p { available = []; in_use = []; entry_map = [] }

-- What happens to a pool.
pub data PoolEvent : Type 0 where
  acquires : ℕ → ℕ → PoolEvent
  releases : ℕ → ℕ → ℕ → PoolEvent
  spawns : ℕ → ℕ → PoolEvent
  spawn_fails closes_instances : PoolEvent

pub pool_step : PoolEvent → InstancePool → InstancePool
unfolding acquire release spawned spawn_failed close_instances
pool_step (acquires h b) p = (acquire h b p).1
pool_step (releases i h b) p = release i h b p
pool_step (spawns h b) p = spawned h b p
pool_step spawn_fails p = spawn_failed p
pool_step closes_instances p = close_instances p

pub pool_run : List PoolEvent → InstancePool → InstancePool
unfolding pool_step
pool_run [] p = p
pool_run (e ∷ es) p = pool_run es (pool_step e p)

-- `initialize`: the pool starts with `size` instances, all of one module.
pub initialize_instances : ℕ → ℕ → ℕ → InstancePool
unfolding spawn
initialize_instances heap_ptr memory_bytes zero = record {
  entries = [];
  available = [];
  in_use = [];
  entry_map = [];
  next_instance = 0;
  spawning = 0;
}
initialize_instances heap_ptr memory_bytes (suc n) =
    let p = initialize_instances heap_ptr memory_bytes n in
    let q = spawn heap_ptr memory_bytes p in record q { available = p.next_instance ∷ p.available }
