-- ===== src/Memory/Scopes.antt =====
-- bridge/memory-runtime.ts: scopes, reference counts and the calls of the module's `free`.
pub mod Tests
use clean_node_server.Common.{
  beq-ne, ◌^◌, ℕ, zero, suc, ◌+◌, ◌-◌, ◌*◌, ◌<◌, ◌≤◌, ◌≡◌, ◌≢◌, refl, sym, ap, subst, ap₂, ◌∙◌,
  String, Bool, true, false, not, ◌&&◌, ◌||◌, ◌⊎◌, inl, inr, List, [], ◌∷◌, ◌++◌, Option, none,
  some, arith, length, get_elem?, set, nat_eq, string_eq, ◌==◌, if◌then◌else◌, if_cases, ltb, leb,
  elem, without, All, Bool-cases, Option-cases,
}
use clean_node_server.Common.Assoc
use clean_node_server.Memory.{Wasm, bump_heap_ptr}

-- `scope_stack` has its top first; `freed` is the calls of `free` so far, if the module exports it:
-- what they throw is caught.
pub record MemoryRuntime : Type 0 where
  pub wasm : Wasm
  pub scope_stack : List (List ℕ)
  pub ref_counts : List (ℕ × ℕ)
  pub has_free : Bool
  pub freed : List ℕ

-- `refCounts.get(ptr) || 0`
pub count_of : ℕ → List (ℕ × ℕ) → ℕ
count_of ptr counts = elim (Assoc.get ptr counts) [ none ↦ 0 | some n ↦ n ]

abbrev track : ℕ → List (List ℕ) → List (List ℕ)
track ptr [] = []
track ptr (scope ∷ scopes) = (scope ++ ptr ∷ []) ∷ scopes

-- A size is a 32-bit pattern, negative from 2 ^ 31 on. The type tag is not used.
module _ (malloc : ℕ → Wasm → ℕ × Wasm) where
  pub mem_alloc : ℕ → MemoryRuntime → ℕ × MemoryRuntime
  unfolding bump_heap_ptr
  mem_alloc size s =
      let (ptr, w) = malloc size s.wasm in
      if size == 0 || leb (2 ^ 31) size
      then (0, s)
      else if ptr == 0
      then (0, record s { wasm = w })
      else (
        ptr,
        record s {
          scope_stack = track ptr s.scope_stack;
          ref_counts = Assoc.set ptr 1 s.ref_counts;
          wasm = bump_heap_ptr ptr size w;
        },
      )

pub mem_retain : ℕ → MemoryRuntime → MemoryRuntime
unfolding count_of
mem_retain ptr s =
    if ptr == 0
    then s
    else record s { ref_counts = Assoc.set ptr (count_of ptr s.ref_counts + 1) s.ref_counts }

-- The step that a release and the end of a scope share.
pub drop_count : ℕ → MemoryRuntime → MemoryRuntime
unfolding count_of
drop_count ptr s =
    if leb (count_of ptr s.ref_counts) 1
    then record s {
      freed = if s.has_free then s.freed ++ ptr ∷ [] else s.freed;
      ref_counts = Assoc.delete ptr s.ref_counts;
    }
    else record s { ref_counts = Assoc.set ptr (count_of ptr s.ref_counts - 1) s.ref_counts }

pub mem_release : ℕ → MemoryRuntime → MemoryRuntime
unfolding drop_count
mem_release ptr s = if ptr == 0 then s else drop_count ptr s

pub mem_scope_push : MemoryRuntime → MemoryRuntime
mem_scope_push s = record s { scope_stack = [] ∷ s.scope_stack }

pub drop_counts : List ℕ → MemoryRuntime → MemoryRuntime
unfolding drop_count
drop_counts [] s = s
drop_counts (ptr ∷ ptrs) s = drop_counts ptrs (drop_count ptr s)

pub pop_scope : List (List ℕ) → MemoryRuntime → MemoryRuntime
unfolding drop_counts
pop_scope [] s = s
pop_scope (scope ∷ scopes) s = drop_counts scope (record s { scope_stack = scopes })

pub mem_scope_pop : MemoryRuntime → MemoryRuntime
unfolding pop_scope
mem_scope_pop s = pop_scope s.scope_stack s

pub reset_memory_runtime : MemoryRuntime → MemoryRuntime
reset_memory_runtime s = record s { scope_stack = []; ref_counts = [] }

-- How often a pointer stands in a scope.
pub occurrences : ℕ → List ℕ → ℕ
occurrences q [] = 0
occurrences q (p ∷ ps) = if p == q then suc (occurrences q ps) else occurrences q ps

count_of-drop_count :
    (ptr q : ℕ) (s : MemoryRuntime)
    → count_of q (drop_count ptr s).ref_counts
      ≡ (if ptr == q then count_of q s.ref_counts - 1 else count_of q s.ref_counts)
unfolding drop_count count_of
count_of-drop_count ptr q s = ground (
  arith,
  Assoc.get-delete ptr q s.ref_counts,
  Assoc.get-set ptr q (count_of ptr s.ref_counts - 1) s.ref_counts,
  nat_eq.beq_iff ptr q,
)

count_of-drop_counts :
    (ptrs : List ℕ) (q : ℕ) (s : MemoryRuntime)
    → count_of q (drop_counts ptrs s).ref_counts ≡ count_of q s.ref_counts - occurrences q ptrs
unfolding drop_counts occurrences
count_of-drop_counts [] q s = omega arith
count_of-drop_counts (p ∷ ps) q s =
    count_of-drop_counts ps q (drop_count p s) ∙ ground (arith, count_of-drop_count p q s)

-- The end of a scope lowers the count of every pointer by the number of times that the scope holds
-- it, down to 0.
pub count_of-mem_scope_pop :
    (scope : List ℕ) (scopes : List (List ℕ)) (q : ℕ) (s : MemoryRuntime)
    → s.scope_stack ≡ scope ∷ scopes
    → count_of q (mem_scope_pop s).ref_counts ≡ count_of q s.ref_counts - occurrences q scope
unfolding mem_scope_pop pop_scope
count_of-mem_scope_pop scope scopes q s e =
    ap (λ l. count_of q (pop_scope l s).ref_counts) e
    ∙ count_of-drop_counts scope q (record s { scope_stack = scopes })

drop_count-last :
    (ptr : ℕ) (s : MemoryRuntime)
    → s.has_free ≡ true
    → count_of ptr s.ref_counts ≤ 1
    → drop_count ptr s
      ≡ record s { freed = s.freed ++ ptr ∷ []; ref_counts = Assoc.delete ptr s.ref_counts }
unfolding drop_count
drop_count-last ptr s f c = ground (arith, f, c)

mem_release-drop_count :
    (ptr : ℕ) (s : MemoryRuntime) → ptr ≢ 0 → mem_release ptr s ≡ drop_count ptr s
unfolding mem_release
mem_release-drop_count ptr s n = rw (beq-ne ptr 0 n) refl

count_of-delete : (ptr : ℕ) (counts : List (ℕ × ℕ)) → count_of ptr (Assoc.delete ptr counts) ≡ 0
unfolding count_of
count_of-delete ptr counts = ground (arith, Assoc.get-delete ptr ptr counts, nat_eq.beq_iff ptr ptr)

occurrences-append :
    (q : ℕ) (ps qs : List ℕ) → occurrences q (ps ++ qs) ≡ occurrences q ps + occurrences q qs
unfolding occurrences
occurrences-append q [] qs = omega arith
occurrences-append q (p ∷ ps) qs = ground (arith, occurrences-append q ps qs)

has_free-drop_count : (p : ℕ) (s : MemoryRuntime) → (drop_count p s).has_free ≡ s.has_free
unfolding drop_count
has_free-drop_count p s = ground arith

-- What a pointer without a count does to the calls of `free`.
freed-drop_count :
    (p q : ℕ) (s : MemoryRuntime)
    → s.has_free ≡ true
    → count_of q s.ref_counts ≡ 0
    → occurrences q (drop_count p s).freed ≡ occurrences q s.freed + occurrences q (p ∷ [])
unfolding drop_count occurrences
freed-drop_count p q s f c =
    ground (arith, f, c, occurrences-append q s.freed (p ∷ []), nat_eq.beq_iff p q)

-- A pointer without a count is freed once for each place that the scope holds it in.
freed-drop_counts :
    (ptrs : List ℕ) (q : ℕ) (s : MemoryRuntime)
    → s.has_free ≡ true
    → count_of q s.ref_counts ≡ 0
    → occurrences q (drop_counts ptrs s).freed ≡ occurrences q s.freed + occurrences q ptrs
unfolding drop_counts occurrences
freed-drop_counts [] q s f c = omega arith
freed-drop_counts (p ∷ ps) q s f c =
    freed-drop_counts ps q (drop_count p s) (has_free-drop_count p s ∙ f)
      (count_of-drop_count p q s ∙ ground (arith, c))
    ∙ ap (λ n. n + occurrences q ps) (freed-drop_count p q s f c)
    ∙ ground arith

occurrences-one : (q : ℕ) → occurrences q (q ∷ []) ≡ 1
unfolding occurrences
occurrences-one q = ground (arith, nat_eq.beq_iff q q)

count_of-set : (ptr : ℕ) (counts : List (ℕ × ℕ)) → count_of ptr (Assoc.set ptr 1 counts) ≡ 1
unfolding count_of
count_of-set ptr counts = ground (arith, Assoc.get-set_self ptr 1 counts)

module _ (malloc : ℕ → Wasm → ℕ × Wasm) where
  -- The state after an allocation that gives a pointer.
  abbrev allocated : ℕ → MemoryRuntime → MemoryRuntime
  allocated size s =
      let (ptr, w) = malloc size s.wasm in
      record s {
        scope_stack = track ptr s.scope_stack;
        ref_counts = Assoc.set ptr 1 s.ref_counts;
        wasm = bump_heap_ptr ptr size w;
      }

  mem_alloc-allocated :
      (size : ℕ) (s : MemoryRuntime)
      → (mem_alloc malloc size s).0 ≢ 0
      → mem_alloc malloc size s ≡ ((malloc size s.wasm).0, allocated size s)
  unfolding mem_alloc
  mem_alloc-allocated size s n = elim (Bool-cases (size == 0 || leb (2 ^ 31) size)) [
    | inl e ↦ absurd (n (rw (e, mem_alloc) refl))
    | inr e ↦ elim (Bool-cases ((malloc size s.wasm).0 == 0)) [
      | inl f ↦ absurd (n (rw (e, mem_alloc) (rw f refl)))
      | inr f ↦ rw (e, mem_alloc) (rw f refl)
    ]
  ]

  -- A pointer in the top scope whose count is 1.
  freed-release_pop :
      (ptr : ℕ) (held : List ℕ) (scopes : List (List ℕ)) (s : MemoryRuntime)
      → ptr ≢ 0
      → s.has_free ≡ true
      → count_of ptr s.ref_counts ≡ 1
      → s.scope_stack ≡ held ∷ scopes
      → occurrences ptr (mem_scope_pop (mem_release ptr s)).freed
        ≡ occurrences ptr s.freed + 1 + occurrences ptr held
  unfolding mem_scope_pop pop_scope
  freed-release_pop ptr held scopes s n f c e =
      let once = record s {
        freed = s.freed ++ ptr ∷ [];
        ref_counts = Assoc.delete ptr s.ref_counts;
      } in
      ap (λ (r : MemoryRuntime). occurrences ptr (mem_scope_pop r).freed)
        (mem_release-drop_count ptr s n ∙ drop_count-last ptr s f (omega (arith, c)))
      ∙ ap (λ l. occurrences ptr (pop_scope l once).freed) e
      ∙ freed-drop_counts held ptr (record once { scope_stack = scopes }) f
          (count_of-delete ptr s.ref_counts)
      ∙ ap (λ k. k + occurrences ptr held)
          (occurrences-append ptr s.freed (ptr ∷ [])
            ∙ ap (λ k. occurrences ptr s.freed + k) (occurrences-one ptr))

  pub freed-mem_scope_pop :
      (size : ℕ) (scope : List ℕ) (scopes : List (List ℕ)) (s : MemoryRuntime)
      → s.has_free ≡ true
      → s.scope_stack ≡ scope ∷ scopes
      → (mem_alloc malloc size s).0 ≢ 0
      → occurrences (mem_alloc malloc size s).0 scope ≡ 0
      → let (ptr, t) = mem_alloc malloc size s in
        occurrences ptr (mem_scope_pop (mem_release ptr t)).freed ≡ occurrences ptr s.freed + 2
  freed-mem_scope_pop size scope scopes s f e n fresh =
      let a = mem_alloc-allocated size s n in
      let ptr = (malloc size s.wasm).0 in
      let n' : ptr ≢ 0 = λ z. n (ap (λ p. p.0) a ∙ z) in
      let fresh' : occurrences ptr scope ≡ 0 = sym (ap (λ p. occurrences p.0 scope) a) ∙ fresh in
      subst
        (λ (p : ℕ × MemoryRuntime).
          occurrences p.0 (mem_scope_pop (mem_release p.0 p.1)).freed ≡ occurrences p.0 s.freed + 2)
        (sym a)
        (freed-release_pop ptr (scope ++ ptr ∷ []) scopes (allocated size s) n' f
            (count_of-set ptr s.ref_counts) (ap (track ptr) e)
          ∙ omega (arith, occurrences-append ptr scope (ptr ∷ []), fresh', occurrences-one ptr))
