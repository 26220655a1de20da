-- ===== src/Lists/Tests.antt =====
-- Lists of concrete numbers, and the theorems at concrete inputs.
use clean_node_server.Common.{ℕ, ◌≡◌, refl, [], ◌∷◌, nat_eq, string_eq}
use clean_node_server.Lists.{
  ListStore, reset_list_store, allocate, allocates, with_list, push_f64, list_add, list_clear,
  list_set, list_remove, list_push, list_get, list_call, list_calls, pushes, adds, contains,
  is_empty,
}

list_runs : Unit {0}
unfolding reset_list_store allocate with_list push_f64 list_add list_clear list_set list_remove
    list_push list_get list_call list_calls contains is_empty
list_runs = tt

abbrev same : ℕ → ℕ
same n = n

abbrev filled : ListStore ℕ
filled =
    list_calls same
      (allocates ∷ pushes 1 10 ∷ pushes 1 20 ∷ pushes 1 30 ∷ allocates ∷ adds 2 5 ∷ [])
      reset_list_store

filled_reads :
    (list_get 0 1 1 filled ≡ 20)
    × (list_get 0 1 3 filled ≡ 0)
    × (list_get 0 9 0 filled ≡ 0)
    × (contains 1 30 filled ≡ 1)
    × (is_empty 2 (list_clear 2 filled) ≡ 1)
unfolding list_runs
filled_reads = (refl, refl, refl, refl, refl)
