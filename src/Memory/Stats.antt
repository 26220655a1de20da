-- ===== src/Memory/Stats.antt =====
-- wasm/state.ts: the wrapper round malloc, which keeps statistics and enforces the memory limit.
-- Sizes and pointers are below 2 GiB, where the signed numbers of the source are natural numbers.
use clean_node_server.Common.{
  ℕ, suc, ◌+◌, ◌≤◌, ◌≡◌, refl, Bool, false, ◌⊎◌, List, [], ◌∷◌, Option, none, some, arith, nat_eq,
  string_eq, if◌then◌else◌, ltb, All,
}
use clean_node_server.Memory.{Wasm}

pub record MemoryStats : Type 0 where
  pub initial_memory_size : ℕ
  pub peak_memory_size : ℕ
  pub initial_heap_ptr : ℕ
  pub peak_allocation : ℕ
  pub grow_count : ℕ
  pub alloc_count : ℕ
  pub oom_count : ℕ

-- `readInitialHeapPtr`, with its value for modules that do not export the global.
pub read_initial_heap_ptr : Wasm → ℕ
read_initial_heap_ptr w = elim w.heap_ptr [ none ↦ 65536 | some h ↦ h ]

pub initial_stats : Wasm → MemoryStats
unfolding read_initial_heap_ptr
initial_stats w = record {
  initial_memory_size = w.byte_length;
  peak_memory_size = w.byte_length;
  initial_heap_ptr = read_initial_heap_ptr w;
  peak_allocation = read_initial_heap_ptr w;
  grow_count = 0;
  alloc_count = 0;
  oom_count = 0;
}

-- `beforeBytes + size > config.memoryLimitBytes`, false where there is no limit.
pub exceeds : Option ℕ → ℕ → ℕ → Bool
exceeds none before size = false
exceeds (some limit) before size = ltb limit (before + size)

pub count_growth : ℕ → ℕ → MemoryStats → MemoryStats
count_growth before after s = record s {
  grow_count = if ltb before after then s.grow_count + 1 else s.grow_count;
  peak_memory_size = if ltb s.peak_memory_size after then after else s.peak_memory_size;
}

pub count_block : ℕ → ℕ → MemoryStats → MemoryStats
count_block ptr size s =
    if ltb 0 ptr
    then record s {
      alloc_count = s.alloc_count + 1;
      peak_allocation =
          if ltb s.peak_allocation (ptr + size) then ptr + size else s.peak_allocation;
    }
    else s

module _ (malloc : ℕ → Wasm → ℕ × Wasm) (limit : Option ℕ) where
  pub wrapped_malloc : ℕ → Wasm × MemoryStats → ℕ × Wasm × MemoryStats
  unfolding exceeds count_growth count_block
  wrapped_malloc size (w, s) =
      let (ptr, w') = malloc size w in
      if exceeds limit w.byte_length size
      then (0, w, record s { oom_count = s.oom_count + 1 })
      else (ptr, w', count_block ptr size (count_growth w.byte_length w'.byte_length s))

  -- A sequence of calls; the blocks handed out are collected, the last one first.
  pub allocate_all : List ℕ → List (ℕ × ℕ) × Wasm × MemoryStats → List (ℕ × ℕ) × Wasm × MemoryStats
  unfolding wrapped_malloc
  allocate_all [] r = r
  allocate_all (size ∷ sizes) (blocks, w, s) =
      let (ptr, w', s') = wrapped_malloc size (w, s) in
      allocate_all sizes ((ptr, size) ∷ blocks, w', s')

  abbrev pub IsCovered : ℕ → ℕ × ℕ → Type 0
  IsCovered top (ptr, size) = (ptr ≡ 0) ⊎ (ptr + size ≤ top)

  abbrev pub handed_out : List (ℕ × ℕ) → ℕ
  handed_out [] = 0
  handed_out ((ptr, size) ∷ blocks) =
      if ltb 0 ptr then suc (handed_out blocks) else handed_out blocks

  -- The statistics are true of what has happened.
  pub record IsTrue (base : ℕ) (blocks : List (ℕ × ℕ)) (w : Wasm) (s : MemoryStats) : Type 0 where
    pub peak_memory : w.byte_length ≤ s.peak_memory_size
    pub covered : All (IsCovered s.peak_allocation) blocks
    pub counted : s.alloc_count ≡ base + handed_out blocks

  IsCovered-le :
      (m n : ℕ) (blocks : List (ℕ × ℕ))
      → m ≤ n
      → All (IsCovered m) blocks
      → All (IsCovered n) blocks
  IsCovered-le m n [] h c = tt
  IsCovered-le m n ((ptr, size) ∷ blocks) h (c, cs) = (omega arith, IsCovered-le m n blocks h cs)

  peak_allocation-wrapped_malloc :
      (size : ℕ) (w : Wasm) (s : MemoryStats)
      → s.peak_allocation ≤ (wrapped_malloc size (w, s)).2.peak_allocation
  unfolding wrapped_malloc exceeds count_growth count_block
  peak_allocation-wrapped_malloc size w s = ground arith

  wrapped_malloc-IsTrue :
      (base size : ℕ) (blocks : List (ℕ × ℕ)) (w : Wasm) (s : MemoryStats)
      → IsTrue base blocks w s
      → let (ptr, w', s') = wrapped_malloc size (w, s) in IsTrue base ((ptr, size) ∷ blocks) w' s'
  unfolding wrapped_malloc count_growth count_block
  wrapped_malloc-IsTrue base size blocks w s v = record {
    peak_memory = ground (arith, v.peak_memory);
    covered = (
      ground arith,
      IsCovered-le s.peak_allocation _ blocks (peak_allocation-wrapped_malloc size w s) v.covered,
    );
    counted = ground (arith, v.counted);
  }

  allocate_all-IsTrue :
      (base : ℕ) (sizes : List ℕ) (blocks : List (ℕ × ℕ)) (w : Wasm) (s : MemoryStats)
      → IsTrue base blocks w s
      → let (blocks', w', s') = allocate_all sizes (blocks, w, s) in IsTrue base blocks' w' s'
  unfolding allocate_all
  allocate_all-IsTrue base [] blocks w s v = v
  allocate_all-IsTrue base (size ∷ sizes) blocks w s v =
      allocate_all-IsTrue base sizes _ _ _ (wrapped_malloc-IsTrue base size blocks w s v)

  initial_stats-IsTrue : (w : Wasm) → IsTrue 0 [] w (initial_stats w)
  unfolding initial_stats
  initial_stats-IsTrue w = record { peak_memory = omega arith; covered = tt; counted = refl }

  -- After any sequence of calls on a new instance, the recorded peaks bound the length of the buffer
  -- and the end of every block handed out, and the count of allocations is the number of blocks
  -- handed out.
  pub initial_stats-allocate_all :
      (sizes : List ℕ) (w : Wasm)
      → let (blocks', w', s') = allocate_all sizes ([], w, initial_stats w) in
        IsTrue 0 blocks' w' s'
  initial_stats-allocate_all sizes w =
      allocate_all-IsTrue 0 sizes [] w (initial_stats w) (initial_stats-IsTrue w)
