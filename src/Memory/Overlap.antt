-- ===== src/Memory/Overlap.antt =====
-- Two values written one after the other do not overlap, thanks to the bump of __heap_ptr.
use clean_node_server.Memory.Bytes.{read_bytes-same, u32_at-same}
use clean_node_server.Common.{
  ◌^◌, ℕ, ◌+◌, ◌<◌, ◌≤◌, ◌≡◌, ◌≢◌, sym, ap, subst, ◌∙◌, inl, List, some, arith, length, nat_eq,
  string_eq, if◌then◌else◌,
}
use clean_node_server.Memory.{
  signed_ltb, aligned_end, Wasm, ok, read_length_prefixed, write_length_prefixed, store_prefixed,
  bump_heap_ptr,
}
use clean_node_server.Memory.RoundTrip.{
  read-write_length_prefixed, store_prefixed-Prefixed, write_length_prefixed-outside,
  store_prefixed-length, write_length_prefixed-eq-ok, Prefixed, read-Prefixed,
}

-- The contract of the compiler's bump allocator: it hands out memory from __heap_ptr upwards, leaves
-- everything below alone, and never shrinks the buffer. It need not have moved __heap_ptr.
pub record IsBump (malloc : ℕ → Wasm → ℕ × Wasm) : Type 0 where
  pub above : (n h : ℕ) (w : Wasm) → w.heap_ptr ≡ some h → (malloc n w).0 ≢ 0 → h ≤ (malloc n w).0
  pub keeps :
      (n h q : ℕ) (w : Wasm) → w.heap_ptr ≡ some h → q < h → (malloc n w).1.bytes q ≡ w.bytes q
  pub grows : (n : ℕ) (w : Wasm) → w.byte_length ≤ (malloc n w).1.byte_length

-- Below 2 GiB the bump leaves __heap_ptr at or behind the end of the block.
pub bump_heap_ptr-past :
    (ptr n c : ℕ) (w : Wasm)
    → w.heap_ptr ≡ some c
    → c < 2 ^ 31
    → ptr + n + 7 < 2 ^ 31
    → (h : ℕ) × ((bump_heap_ptr ptr n w).heap_ptr ≡ some h) × (ptr + n ≤ h) × (c ≤ h)
unfolding bump_heap_ptr aligned_end
bump_heap_ptr-past ptr n c w e small end = (
  if signed_ltb c (aligned_end ptr n) then aligned_end ptr n else c,
  rw (e, bump_heap_ptr) (ground arith),
  ground arith,
  ground arith,
)

store_prefixed-heap_ptr :
    (ptr : ℕ) (content : List ℕ) (w : Wasm)
    → (store_prefixed ptr content w).heap_ptr ≡ (bump_heap_ptr ptr (4 + length content) w).heap_ptr
unfolding store_prefixed bump_heap_ptr
store_prefixed-heap_ptr ptr content w = ground arith

-- A value whose bytes stay and whose buffer does not shrink can still be read.
read-kept :
    (ptr : ℕ) (content : List ℕ) (v w : Wasm)
    → ptr ≢ 0
    → Prefixed v.bytes ptr content
    → ptr + 4 + length content ≤ w.byte_length
    → ((q : ℕ) → q < ptr + 4 + length content → w.bytes q ≡ v.bytes q)
    → read_length_prefixed ptr w ≡ ok content
read-kept ptr content v w start (e, f) inside same = read-Prefixed ptr content w start inside (
  u32_at-same w.bytes v.bytes ptr (λ q _ b. same q (omega arith)) ∙ e,
  read_bytes-same w.bytes v.bytes (ptr + 4) (length content) (λ q _ b. same q b) ∙ f,
)

module _ (malloc : ℕ → Wasm → ℕ × Wasm) (bump : IsBump malloc) (first second : List ℕ) (p₁ p₂ c : ℕ)
    (w w₁ w₂ : Wasm) where
  -- Where two values are written one after the other over a bump allocator, even one that leaves
  -- __heap_ptr where it was, the second block lies behind the first and both values can be read
  -- afterwards. The module exports __heap_ptr, and the first block ends below 2 GiB.
  pub read-write_length_prefixed_twice :
      (malloc (4 + length first) w).1.heap_ptr ≡ some c
      → c < 2 ^ 31
      → p₁ + (4 + length first) + 7 < 2 ^ 31
      → length second < 2 ^ 32
      → write_length_prefixed malloc first w ≡ (ok p₁, w₁)
      → write_length_prefixed malloc second w₁ ≡ (ok p₂, w₂)
      → (p₁ + 4 + length first ≤ p₂)
        × (read_length_prefixed p₁ w₂ ≡ ok first)
        × (read_length_prefixed p₂ w₂ ≡ ok second)
  read-write_length_prefixed_twice exported small end fits e₁ e₂ =
      let v = (malloc (4 + length first) w).1 in
      let (_, s₁, start₁, inside₁) = write_length_prefixed-eq-ok malloc first w p₁ w₁ e₁ in
      let (at₂, s₂, start₂, inside₂) = write_length_prefixed-eq-ok malloc second w₁ p₂ w₂ e₂ in
      let (h, heap, past, _) = bump_heap_ptr-past p₁ (4 + length first) c v exported small end in
      let heap₁ : w₁.heap_ptr ≡ some h =
        ap (λ (x : Wasm). x.heap_ptr) s₁ ∙ store_prefixed-heap_ptr p₁ first v ∙ heap in
      let behind : h ≤ p₂ =
        subst (λ p. h ≤ p) at₂
          (bump.above (4 + length second) h w₁ heap₁ (λ z. start₂ (sym at₂ ∙ z))) in
      let len₁ : w₁.byte_length ≡ v.byte_length =
        ap (λ (x : Wasm). x.byte_length) s₁ ∙ store_prefixed-length p₁ first v in
      let grown = bump.grows (4 + length second) w₁ in
      let same : (q : ℕ) → q < p₁ + 4 + length first → w₂.bytes q ≡ w₁.bytes q = λ q b.
        (write_length_prefixed-outside malloc second w₁ p₂ q w₂ (inl (omega arith)) e₂).0
        ∙ bump.keeps (4 + length second) h q w₁ heap₁ (omega arith) in
      let len₂ =
        (write_length_prefixed-outside malloc second w₁ p₂ 0 w₂ (inl (omega arith)) e₂).1 in
      (
        omega arith,
        read-kept p₁ first w₁ w₂ start₁
            (subst (λ (x : Wasm). Prefixed x.bytes p₁ first) (sym s₁)
              (store_prefixed-Prefixed p₁ first v (omega arith)))
            (omega arith) same,
        read-write_length_prefixed malloc second w₁ p₂ w₂ fits e₂,
      )
