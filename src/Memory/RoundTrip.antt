-- ===== src/Memory/RoundTrip.antt =====
-- Values written into the memory of a module: they read back, and later writes leave them alone.
use clean_node_server.Common.{
  beq-ne, ◌^◌, ℕ, ◌+◌, ◌<◌, ◌≤◌, ◌≡◌, ◌≢◌, ap, ◌∙◌, ◌⊎◌, inl, inr, List, [], ◌∷◌, arith, length,
  nat_eq, string_eq,
}
use clean_node_server.Memory.{
  read_bytes, write_bytes, u32_at, u32_bytes, bump_heap_ptr, Wasm, ok, read_length_prefixed,
  write_length_prefixed, store_prefixed,
}
use clean_node_server.Memory.Bytes.{
  read_bytes-write_bytes, u32_at-write_bytes, write_bytes-above, u32_at-same, write_bytes-below,
}

-- What `store_prefixed` does to the bytes: inside it leaves the value, outside nothing.
pub store_prefixed-length :
    (ptr : ℕ) (content : List ℕ) (w : Wasm)
    → (store_prefixed ptr content w).byte_length ≡ w.byte_length
unfolding store_prefixed bump_heap_ptr
store_prefixed-length ptr content w = ground arith

store_prefixed-bytes :
    (ptr : ℕ) (content : List ℕ) (w : Wasm)
    → (store_prefixed ptr content w).bytes
      ≡ write_bytes (write_bytes w.bytes ptr (u32_bytes (length content))) (ptr + 4) content
unfolding store_prefixed bump_heap_ptr
store_prefixed-bytes ptr content w = ground arith

stored-u32 :
    (f : ℕ → ℕ) (ptr : ℕ) (content : List ℕ)
    → length content < 2 ^ 32
    → u32_at (write_bytes (write_bytes f ptr (u32_bytes (length content))) (ptr + 4) content) ptr
      ≡ length content
stored-u32 f ptr content h =
    u32_at-same _ _ ptr (λ q a b. write_bytes-below _ (ptr + 4) q content b)
    ∙ u32_at-write_bytes f ptr (length content) h

stored-outside :
    (f : ℕ → ℕ) (ptr q : ℕ) (content : List ℕ)
    → (q < ptr) ⊎ (ptr + 4 + length content ≤ q)
    → write_bytes (write_bytes f ptr (u32_bytes (length content))) (ptr + 4) content q ≡ f q
unfolding u32_bytes
stored-outside f ptr q content (inl h) =
    write_bytes-below _ (ptr + 4) q content (omega arith)
    ∙ write_bytes-below f ptr q (u32_bytes (length content)) h
stored-outside f ptr q content (inr h) =
    write_bytes-above _ (ptr + 4) q content h
    ∙ write_bytes-above f ptr q (u32_bytes (length content)) (omega arith)

-- A length prefix and the content behind it.
abbrev pub Prefixed : (ℕ → ℕ) → ℕ → List ℕ → Type 0
Prefixed f ptr content =
    (u32_at f ptr ≡ length content) × (read_bytes f (ptr + 4) (length content) ≡ content)

pub read-Prefixed :
    (ptr : ℕ) (content : List ℕ) (w : Wasm)
    → ptr ≢ 0
    → ptr + 4 + length content ≤ w.byte_length
    → Prefixed w.bytes ptr content
    → read_length_prefixed ptr w ≡ ok content
unfolding read_length_prefixed
read-Prefixed ptr [] w h k (e, f) = ground arith
read-Prefixed ptr (b ∷ bs) w h k (e, f) = rw (beq-ne ptr 0 h) (rw e (rw f (ground arith)))

pub store_prefixed-Prefixed :
    (ptr : ℕ) (content : List ℕ) (w : Wasm)
    → length content < 2 ^ 32
    → Prefixed (store_prefixed ptr content w).bytes ptr content
store_prefixed-Prefixed ptr content w h =
    rw (store_prefixed-bytes ptr content w)
      (stored-u32 w.bytes ptr content h, read_bytes-write_bytes _ (ptr + 4) content)

module _ (malloc : ℕ → Wasm → ℕ × Wasm) (content : List ℕ) (w : Wasm) where
  -- What `write_length_prefixed` has checked when it returns a pointer.
  pub write_length_prefixed-eq-ok :
      (ptr : ℕ) (w' : Wasm)
      → write_length_prefixed malloc content w ≡ (ok ptr, w')
      → let (p, v) = malloc (4 + length content) w in
        (p ≡ ptr)
        × (w' ≡ store_prefixed ptr content v)
        × (ptr ≢ 0)
        × (ptr + (4 + length content) ≤ v.byte_length)
  unfolding write_length_prefixed
  write_length_prefixed-eq-ok ptr w' e = ground arith

  -- A value that is written without an error reads back as it was, if its length fits in 32 bits.
  pub read-write_length_prefixed :
      (ptr : ℕ) (w' : Wasm)
      → length content < 2 ^ 32
      → write_length_prefixed malloc content w ≡ (ok ptr, w')
      → read_length_prefixed ptr w' ≡ ok content
  read-write_length_prefixed ptr w' h e =
      let (_, same, start, inside) = write_length_prefixed-eq-ok ptr w' e in
      let v = (malloc (4 + length content) w).1 in
      rw same (
        read-Prefixed ptr content (store_prefixed ptr content v) start
          (omega (arith, store_prefixed-length ptr content v, inside))
          (store_prefixed-Prefixed ptr content v h))

  -- A write without an error stays in the buffer and in its block: every byte outside the block is
  -- what malloc left there, and the buffer has the length that malloc left.
  pub write_length_prefixed-outside :
      (ptr q : ℕ) (w' : Wasm)
      → (q < ptr) ⊎ (ptr + 4 + length content ≤ q)
      → write_length_prefixed malloc content w ≡ (ok ptr, w')
      → let v = (malloc (4 + length content) w).1 in
        (w'.bytes q ≡ v.bytes q)
        × (w'.byte_length ≡ v.byte_length)
        × (ptr + 4 + length content ≤ w'.byte_length)
  write_length_prefixed-outside ptr q w' out e =
      let (_, same, start, inside) = write_length_prefixed-eq-ok ptr w' e in
      let v = (malloc (4 + length content) w).1 in
      let len = store_prefixed-length ptr content v in
      rw same (
        ap (λ f. f q) (store_prefixed-bytes ptr content v)
            ∙ stored-outside v.bytes ptr q content out,
        len,
        omega (arith, len, inside),
      )
