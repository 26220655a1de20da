-- ===== src/MemoryGuard/Tests.antt =====
-- A guard with a limit of 100, and its theorem at a concrete input.
use clean_node_server.Common.{◌≡◌, [], ◌∷◌, nat_eq, string_eq}
use clean_node_server.MemoryGuard.{
  polls, stops_guard, guard_run, start_memory_guard, guard_run-exceeded,
}

guard_run-exceeded_example :
    (guard_run 100
      (polls 50 ∷ polls 120 ∷ polls 130 ∷ stops_guard ∷ [])
      start_memory_guard).exceeded
    ≡ 120 ∷ []
guard_run-exceeded_example =
    guard_run-exceeded 100 (polls 50 ∷ polls 120 ∷ polls 130 ∷ stops_guard ∷ [])
