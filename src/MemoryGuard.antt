-- ===== src/MemoryGuard.antt =====
-- telemetry/memory-guard.ts: the poll of the resident set size that starts the drain of the process.
pub mod Tests
use clean_node_server.Common.{
  ℕ, zero, suc, ◌+◌, ◌-◌, ◌*◌, ◌<◌, ◌≤◌, ◌≡◌, ◌≢◌, refl, sym, ap, subst, ap₂, ◌∙◌, String, Bool,
  true, false, not, ◌&&◌, ◌||◌, ◌⊎◌, inl, inr, List, [], ◌∷◌, ◌++◌, Option, none, some, arith,
  length, get_elem?, set, nat_eq, string_eq, ◌==◌, if◌then◌else◌, if_cases, ltb, leb, elem, without,
  All, Bool-cases, Option-cases,
}
use clean_node_server.Common.Assoc

-- `polling` says that the interval timer is armed; `exceeded` is the calls of `onExceeded` so far.
pub record MemoryGuard : Type 0 where
  pub last_rss : ℕ
  pub fired : Bool
  pub polling : Bool
  pub exceeded : List ℕ

pub start_memory_guard : MemoryGuard
start_memory_guard = record { last_rss = 0; fired = false; polling = true; exceeded = [] }

-- The timer's callback, with the size that the system reports.
pub poll : ℕ → ℕ → MemoryGuard → MemoryGuard
poll limit_bytes rss g =
    if not g.fired && leb limit_bytes rss
    then record { last_rss = rss; fired = true; polling = false; exceeded = g.exceeded ++ rss ∷ [] }
    else record g { last_rss = rss }

pub data GuardEvent : Type 0 where
  polls : ℕ → GuardEvent
  stops_guard : GuardEvent

pub guard_step : ℕ → GuardEvent → MemoryGuard → MemoryGuard
unfolding poll
guard_step limit_bytes (polls rss) g = if g.polling then poll limit_bytes rss g else g
guard_step limit_bytes stops_guard g = record g { polling = false }

pub guard_run : ℕ → List GuardEvent → MemoryGuard → MemoryGuard
unfolding guard_step
guard_run limit_bytes [] g = g
guard_run limit_bytes (e ∷ es) g = guard_run limit_bytes es (guard_step limit_bytes e g)

-- The first size that reaches the limit, unless the guard is stopped before.
abbrev pub first_over : ℕ → List GuardEvent → List ℕ
first_over limit_bytes [] = []
first_over limit_bytes (polls rss ∷ es) =
    let rest = first_over limit_bytes es in if leb limit_bytes rss then rss ∷ [] else rest
first_over limit_bytes (stops_guard ∷ es) = []

guard_run-idle :
    (limit_bytes : ℕ) (es : List GuardEvent) (g : MemoryGuard)
    → g.polling ≡ false
    → (guard_run limit_bytes es g).exceeded ≡ g.exceeded
unfolding guard_run guard_step
guard_run-idle limit_bytes [] g h = refl
guard_run-idle limit_bytes (polls rss ∷ es) g h =
    ap (λ (r : MemoryGuard). (guard_run limit_bytes es r).exceeded) (rw h refl)
    ∙ guard_run-idle limit_bytes es g h
guard_run-idle limit_bytes (stops_guard ∷ es) g h =
    guard_run-idle limit_bytes es (record g { polling = false }) refl

guard_run-if :
    (limit_bytes : ℕ) (es : List GuardEvent) (b : Bool) (g h : MemoryGuard) (xs ys : List ℕ)
    → (guard_run limit_bytes es g).exceeded ≡ xs
    → (guard_run limit_bytes es h).exceeded ≡ ys
    → (guard_run limit_bytes es (if b then g else h)).exceeded ≡ (if b then xs else ys)
guard_run-if limit_bytes es true g h xs ys e f = e
guard_run-if limit_bytes es false g h xs ys e f = f

guard_run-waiting :
    (limit_bytes last : ℕ) (es : List GuardEvent)
    → let g : MemoryGuard = record {
      last_rss = last;
      fired = false;
      polling = true;
      exceeded = [];
    } in
      (guard_run limit_bytes es g).exceeded ≡ first_over limit_bytes es
unfolding guard_run guard_step poll
guard_run-waiting limit_bytes last [] = refl
guard_run-waiting limit_bytes last (stops_guard ∷ es) = guard_run-idle limit_bytes es _ refl
guard_run-waiting limit_bytes last (polls rss ∷ es) =
    guard_run-if limit_bytes es (leb limit_bytes rss) _ _ (rss ∷ []) (first_over limit_bytes es)
      (guard_run-idle limit_bytes es
        (record { last_rss = rss; fired = true; polling = false; exceeded = rss ∷ [] }) refl)
      (guard_run-waiting limit_bytes rss es)

-- Over any polls and stops, the drain is started once, with the first size that reaches the limit, if
-- one does before the guard is stopped, and never otherwise.
pub guard_run-exceeded :
    (limit_bytes : ℕ) (es : List GuardEvent)
    → (guard_run limit_bytes es start_memory_guard).exceeded ≡ first_over limit_bytes es
unfolding start_memory_guard
guard_run-exceeded limit_bytes es = guard_run-waiting limit_bytes 0 es
