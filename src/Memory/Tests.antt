-- ===== src/Memory/Tests.antt =====
-- The memory on concrete values, and its theorems at concrete inputs.
use clean_node_server.Common.{
  ◌/◌, ℕ, ◌+◌, ◌*◌, ◌≤◌, ◌≡◌, refl, sym, subst, inr, [], ◌∷◌, Option, none, some, arith, nat_eq,
  string_eq,
}
use clean_node_server.Memory.{
  aligned_end, pre_grow_memory, page_bytes, read_bytes, write_bytes, poke, u32_at, u32_bytes,
  bump_heap_ptr, Wasm, ok, read_length_prefixed, write_length_prefixed, store_prefixed,
}
use clean_node_server.Memory.RoundTrip.{read-write_length_prefixed, write_length_prefixed-outside}
use clean_node_server.Memory.Overlap.{IsBump, read-write_length_prefixed_twice}
use clean_node_server.Memory.Stats.{MemoryStats, initial_stats}

memory_calls : Unit {0}
unfolding aligned_end read_bytes poke write_bytes u32_bytes u32_at bump_heap_ptr
    read_length_prefixed store_prefixed write_length_prefixed pre_grow_memory page_bytes
memory_calls = tt

-- An allocator that hands out memory from __heap_ptr on and forgets to move it.
abbrev heap_of : Option ℕ → ℕ
heap_of none = 65536
heap_of (some h) = h

abbrev stale_malloc : ℕ → Wasm → ℕ × Wasm
stale_malloc n w = ((heap_of w.heap_ptr + 7) / 8 * 8, w)

stale_malloc-IsBump : IsBump stale_malloc
stale_malloc-IsBump = record {
  above = λ n h w e _. subst (λ o. h ≤ (heap_of o + 7) / 8 * 8) (sym e) (omega arith);
  keeps = λ n h q w e _. refl;
  grows = λ n w. omega arith;
}

abbrev one_page : Wasm
one_page = record { bytes = λ _. 0; byte_length = 65536; heap_ptr = some 1021 }

abbrev after_one : Wasm
after_one = (write_length_prefixed stale_malloc (72 ∷ 105 ∷ []) one_page).1

abbrev after_two : Wasm
after_two = (write_length_prefixed stale_malloc (33 ∷ []) after_one).1

written_one : write_length_prefixed stale_malloc (72 ∷ 105 ∷ []) one_page ≡ (ok 1024, after_one)
unfolding memory_calls
written_one = refl

written_two : write_length_prefixed stale_malloc (33 ∷ []) after_one ≡ (ok 1032, after_two)
unfolding memory_calls
written_two = refl

grown_to_whole_pages :
    ((pre_grow_memory 200000 65537 one_page).byte_length ≡ 131072)
    × ((pre_grow_memory 100000 65537 one_page).byte_length ≡ 65536)
unfolding memory_calls
grown_to_whole_pages = (refl, refl)

read-write_length_prefixed_example : read_length_prefixed 1024 after_one ≡ ok (72 ∷ 105 ∷ [])
read-write_length_prefixed_example =
    read-write_length_prefixed stale_malloc (72 ∷ 105 ∷ []) one_page 1024 after_one (omega arith)
      written_one

write_length_prefixed-outside_example :
    (after_one.bytes 1030 ≡ 0) × (after_one.byte_length ≡ 65536) × (1030 ≤ after_one.byte_length)
write_length_prefixed-outside_example =
    write_length_prefixed-outside stale_malloc (72 ∷ 105 ∷ []) one_page 1024 1030 after_one
      (inr (omega arith)) written_one

read-write_length_prefixed_twice_example :
    (1030 ≤ 1032)
    × (read_length_prefixed 1024 after_two ≡ ok (72 ∷ 105 ∷ []))
    × (read_length_prefixed 1032 after_two ≡ ok (33 ∷ []))
read-write_length_prefixed_twice_example =
    read-write_length_prefixed_twice stale_malloc stale_malloc-IsBump (72 ∷ 105 ∷ []) (33 ∷ []) 1024
      1032 1021 one_page after_one after_two refl (omega arith) (omega arith) (omega arith)
      written_one written_two

abbrev fresh_stats : MemoryStats
fresh_stats = initial_stats one_page
