-- ===== src/Arrays/Tests.antt =====
-- Arrays of natural numbers, with one callback that adds its arguments and counts its calls.
use clean_node_server.Common.{
  ℕ, suc, ◌+◌, ◌≡◌, refl, String, Bool, false, List, [], ◌∷◌, Option, none, some, All, nat_eq,
  string_eq, ltb, ◌==◌, ◌-◌, ◌^◌, if◌then◌else◌,
}
use clean_node_server.Arrays.{
  Element, number, ArrayStore, reset_array_store, array_get, array_pop, array_slice, array_concat,
  array_reverse, array_sort, array_filter, array_map, array_reduce, store_array, sorted, filtered,
  mapped, reduced, call_wasm_callback, to_wasm_value, is_before, insert,
}
use clean_node_server.Arrays.Traversals.{
  pushes, concats, reduces, array_calls, IsEmpty, array_calls-reset,
}

abbrev add_all : List ℕ → ℕ → ℕ × ℕ
add_all [] calls = (0, suc calls)
add_all (x ∷ xs) calls = (x + (add_all xs calls).0, suc calls)

abbrev table : Option (ℕ → Option (List ℕ → ℕ → ℕ × ℕ))
table = some (λ i. if i == 1 then some add_all else none)

abbrev numbers : List ℕ → List (Element ℕ)
numbers [] = []
numbers (n ∷ ns) = number n ∷ numbers ns

abbrev store : ArrayStore ℕ
store = record {
  arrays = (1, numbers (3 ∷ 0 ∷ 2 ∷ [])) ∷ (2, numbers (5 ∷ [])) ∷ [];
  next_handle = 3;
}

abbrev no_order : String → String → Bool
no_order a b = false

array_functions : Unit {0}
unfolding array_get array_pop array_slice array_concat array_reverse array_sort array_filter
    array_map array_reduce store_array sorted filtered mapped reduced call_wasm_callback
    to_wasm_value is_before insert
array_functions = tt

-- A callback that the table does not have counts as one that returns 0.
array_runs :
    ((array_sort ltb no_order 1 store).1.arrays
      ≡ (1, numbers (3 ∷ 0 ∷ 2 ∷ [])) ∷ (2, numbers (5 ∷ [])) ∷ (3, numbers (0 ∷ 2 ∷ 3 ∷ [])) ∷ [])
    × ((array_pop 0 1 store).0 ≡ number 2)
    × (array_get 0 3 1 (array_reverse 1 store).1 ≡ 0)
    × (array_get 0 3 0 (array_slice 1 1 (2 ^ 32 - 1) store).1 ≡ 0)
    × (array_get 0 3 1 (array_filter 0 table (λ n. n == 0) 1 1 store 0).1 ≡ 2)
    × (array_reduce 0 table 1 1 10 store 0 ≡ (15, 3))
    × (array_reduce 0 table 1 7 10 store 0 ≡ (0, 0))
unfolding array_functions
array_runs = (refl, refl, refl, refl, refl, refl, refl)

array_calls-reset_example :
    All
      (IsEmpty 0 ltb no_order (λ n. n == 0) table)
      (array_calls 0 ltb no_order
        (λ n. n == 0)
        table
        (pushes 1 7 ∷ concats 1 1 ∷ reduces 1 1 5 ∷ [])
        (reset_array_store, 0)).0
array_calls-reset_example =
    (array_calls-reset 0 ltb no_order (λ n. n == 0) table
      (pushes 1 7 ∷ concats 1 1 ∷ reduces 1 1 5 ∷ []) 0).0
