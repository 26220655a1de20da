-- ===== src/Memory/Scopes/Tests.antt =====
-- A scope with one allocation, and the theorems at concrete inputs.
use clean_node_server.Common.{◌≡◌, refl, ℕ, true, [], ◌∷◌, none, arith, nat_eq, string_eq}
use clean_node_server.Memory.Scopes.{
  MemoryRuntime, count_of, mem_retain, mem_alloc, occurrences, mem_release, mem_scope_pop,
  pop_scope, drop_count, drop_counts, freed-mem_scope_pop,
}
use clean_node_server.Memory.{Wasm}

abbrev no_memory : Wasm
no_memory = record { bytes = λ _. 0; byte_length = 65536; heap_ptr = none }

abbrev in_scope : MemoryRuntime
in_scope = record {
  wasm = no_memory;
  scope_stack = (1024 ∷ []) ∷ [];
  ref_counts = (1024, 1) ∷ [];
  has_free = true;
  freed = [];
}

-- A pointer that is retained outlives its scope.
retained :
    (count_of 1024 (mem_scope_pop (mem_retain 1024 in_scope)).ref_counts ≡ 1)
    × ((mem_scope_pop (mem_retain 1024 in_scope)).freed ≡ [])
unfolding count_of mem_retain mem_scope_pop pop_scope drop_count drop_counts
retained = (refl, refl)

-- Blocks from 2048 on.
abbrev bump_malloc : ℕ → Wasm → ℕ × Wasm
bump_malloc size w = (2048, w)

freed-mem_scope_pop_example :
    occurrences 2048 (mem_scope_pop (mem_release 2048 (mem_alloc bump_malloc 16 in_scope).1)).freed
    ≡ 2
unfolding mem_alloc occurrences
freed-mem_scope_pop_example =
    freed-mem_scope_pop bump_malloc 16 (1024 ∷ []) [] in_scope refl refl (λ e. omega arith) refl
