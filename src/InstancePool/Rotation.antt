-- ===== src/InstancePool/Rotation.antt =====
-- When instances are rotated, and that no instance serves two requests at once.
pub mod Acquire
use clean_node_server.Common.{
  elem-without, elem-append, ℕ, zero, suc, ◌-◌, ◌<◌, ◌≡◌, refl, sym, subst, ◌∙◌, true, false, ◌||◌,
  ◌⊎◌, inl, inr, List, [], ◌∷◌, some, arith, nat_eq, string_eq, ◌==◌, if_cases, ltb, leb, elem,
  without, Bool-cases, Option-cases,
}
use clean_node_server.Common.Assoc
use clean_node_server.InstancePool.{
  compute_retained_growth, should_rotate, max_request_count, PoolEntry, InstancePool, spawn,
  hand_out, acquire, acquire_from, put_back, release, spawned, spawn_failed, close_instances,
  PoolEvent, acquires, releases, spawns, spawn_fails, closes_instances, pool_step, pool_run,
  initialize_instances,
}
use clean_node_server.InstancePool.Rotation.Acquire.{
  IsDistinct, IsSound, IsWellUsed, acquire_from-IsSound, out-IsSound,
}

-- An instance is rotated exactly when it has served its number of requests, or its heap pointer or
-- its buffer has grown beyond the bound since it was created.
pub should_rotate-compute_retained_growth :
    (count heap bytes heap₀ bytes₀ max_requests max_growth : ℕ)
    → should_rotate count (compute_retained_growth heap bytes heap₀ bytes₀) max_requests max_growth
      ≡ (leb max_requests count || ltb max_growth (heap - heap₀) || ltb max_growth (bytes - bytes₀))
unfolding should_rotate compute_retained_growth
should_rotate-compute_retained_growth count heap bytes heap₀ bytes₀ max_requests max_growth =
    ground arith

put_back-IsSound :
    (i : ℕ) (x : PoolEntry) (h b : ℕ) (p : InstancePool)
    → IsSound p
    → elem i p.available ≡ false
    → elem i p.in_use ≡ false
    → i < p.next_instance
    → Assoc.get i p.entries ≡ some x
    → IsSound (put_back i x h b p)
unfolding put_back should_rotate max_request_count
put_back-IsSound i x h b p v out free k g =
    if_cases IsSound _ _ (record p { available = i ∷ p.available })
      (λ _. record {
        single = v.single;
        apart = v.apart;
        known = v.known;
        known_use = v.known_use;
        young = v.young;
      })
      (λ stay. record {
        single = (out, v.single);
        apart = λ j m. ground (arith, m, v.apart j, free, nat_eq.beq_iff i j);
        known = λ j m. ground (arith, m, v.known j, k, nat_eq.beq_iff i j);
        known_use = v.known_use;
        young = λ j y m f. elim (Bool-cases (i == j)) [
          | inl same ↦ ground (arith, same, stay, g, f, nat_eq.beq_iff i j)
          | inr other ↦ v.young j y (ground (arith, m, other)) f
        ];
      })

release-IsSound :
    (i h b : ℕ) (p : InstancePool)
    → IsSound p
    → ((elem i p.in_use ≡ true) ⊎ (elem i p.entry_map ≡ false))
    → IsSound (release i h b p)
unfolding release
release-IsSound i h b p v (inl used) = elim (Option-cases (Assoc.get i p.entries)) [
  | inl e ↦ rw (e, release) (out-IsSound i p v)
  | inr (x, e) ↦
      rw (e, release)
        (if_cases IsSound (elem i p.entry_map) _ _
          (λ _.
            put_back-IsSound i x h b (record p { in_use = without i p.in_use }) (out-IsSound i p v)
              (ground (arith, used, v.apart i))
              (ground (arith, elem-without i i p.in_use, nat_eq.beq_iff i i)) (v.known_use i used)
              e)
          (λ _. out-IsSound i p v))
]
release-IsSound i h b p v (inr gone) = elim (Option-cases (Assoc.get i p.entries)) [
  | inl e ↦ rw (e, release) (out-IsSound i p v)
  | inr (x, e) ↦
      rw (e, release)
        (if_cases IsSound (elem i p.entry_map) _ _ (λ m. absurd (ground (arith, m, gone)))
          (λ _. out-IsSound i p v))
]

-- A new instance, free at once, whatever is under way.
grown-IsSound :
    (h b n : ℕ) (p : InstancePool)
    → IsSound p
    → let q = spawn h b p in
      IsSound (record q { available = p.next_instance ∷ p.available; spawning = n })
unfolding spawn
grown-IsSound h b n p v = record {
  single = (
    elim (Bool-cases (elem p.next_instance p.available)) [
      | inl m ↦ absurd (let k = v.known p.next_instance m in omega arith)
      | inr m ↦ m
    ],
    v.single,
  );
  apart = λ j m. ground (arith, m, v.apart j, v.known_use j, nat_eq.beq_iff p.next_instance j);
  known = λ j m. ground (arith, m, v.known j, nat_eq.beq_iff p.next_instance j);
  known_use = λ j m. let k = v.known_use j m in omega arith;
  young = λ j y m f. elim (Bool-cases (p.next_instance == j)) [
    | inl same ↦ ground (
      arith,
      same,
      f,
      Assoc.get-set p.next_instance j
          (record { request_count = 0; initial_heap_ptr = h; initial_memory_bytes = b }) p.entries,
    )
    | inr other ↦ v.young j y (ground (arith, m, other)) (
        ground (
          arith,
          other,
          f,
          Assoc.get-set p.next_instance j
              (record { request_count = 0; initial_heap_ptr = h; initial_memory_bytes = b })
              p.entries,
        ))
  ];
}

spawned-IsSound : (h b : ℕ) (p : InstancePool) → IsSound p → IsSound (spawned h b p)
unfolding spawned spawn
spawned-IsSound h b p v =
    if_cases IsSound (p.spawning == 0) _ _ (λ _. v) (λ _. grown-IsSound h b (p.spawning - 1) p v)

pool_step-IsSound :
    (e : PoolEvent) (es : List PoolEvent) (p : InstancePool)
    → IsSound p
    → IsWellUsed (e ∷ es) p
    → IsSound (pool_step e p) × IsWellUsed es (pool_step e p)
unfolding pool_step acquire spawn_failed close_instances
pool_step-IsSound (acquires h b) es p v u = ((acquire_from-IsSound h b p.available p v refl).0, u)
pool_step-IsSound (releases i h b) es p v u = (release-IsSound i h b p v u.0, u.1)
pool_step-IsSound (spawns h b) es p v u = (spawned-IsSound h b p v, u)
pool_step-IsSound spawn_fails es p v u = (
  record {
    single = v.single;
    apart = v.apart;
    known = v.known;
    known_use = v.known_use;
    young = v.young;
  },
  u,
)
pool_step-IsSound closes_instances es p v u = (
  record {
    single = tt;
    apart = λ i m. refl;
    known = λ i m. absurd (ground (arith, m));
    known_use = λ i m. absurd (ground (arith, m));
    young = λ i e m. absurd (ground (arith, m));
  },
  u,
)

pool_run-IsSound :
    (es : List PoolEvent) (p : InstancePool) → IsSound p → IsWellUsed es p → IsSound (pool_run es p)
unfolding pool_run
pool_run-IsSound [] p v u = v
pool_run-IsSound (e ∷ es) p v u =
    let (w, rest) = pool_step-IsSound e es p v u in pool_run-IsSound es (pool_step e p) w rest

initialize_instances-IsSound : (h b n : ℕ) → IsSound (initialize_instances h b n)
unfolding initialize_instances spawn
initialize_instances-IsSound h b zero = record {
  single = tt;
  apart = λ i m. refl;
  known = λ i m. absurd (ground (arith, m));
  known_use = λ i m. absurd (ground (arith, m));
  young = λ i e m. absurd (ground (arith, m));
}
initialize_instances-IsSound h b (suc n) =
    let p = initialize_instances h b n in
    grown-IsSound h b p.spawning p (initialize_instances-IsSound h b n)

-- After any events in which each release is of an instance in use or of one that the pool has
-- forgotten, a request gets an instance that no other request is using.
pub acquire-pool_run :
    (heap bytes size h b : ℕ) (es : List PoolEvent)
    → IsWellUsed es (initialize_instances heap bytes size)
    → let p = pool_run es (initialize_instances heap bytes size) in
      (elem (acquire h b p).0 p.in_use ≡ false)
unfolding acquire
acquire-pool_run heap bytes size h b es u =
    let p = pool_run es (initialize_instances heap bytes size) in
    let v =
      pool_run-IsSound es (initialize_instances heap bytes size)
        (initialize_instances-IsSound heap bytes size) u in
    (acquire_from-IsSound h b p.available p v refl).1

-- Under the same condition an instance that is available has served fewer than 1000 requests.
available-pool_run :
    (heap bytes size i : ℕ) (e : PoolEntry) (es : List PoolEvent)
    → IsWellUsed es (initialize_instances heap bytes size)
    → elem i (pool_run es (initialize_instances heap bytes size)).available ≡ true
    → Assoc.get i (pool_run es (initialize_instances heap bytes size)).entries ≡ some e
    → e.request_count < 1000
available-pool_run heap bytes size i e es u m g =
    (pool_run-IsSound es (initialize_instances heap bytes size)
        (initialize_instances-IsSound heap bytes size) u).young
      i e m g
