-- ===== src/Memory.antt =====
-- wasm/memory.ts: what the host reads and writes in the memory of a WebAssembly module. The module's
-- malloc is a parameter. A string is the list of its UTF-8 bytes: TextEncoder and TextDecoder are
-- taken at the border.
pub mod Bytes
pub mod RoundTrip
pub mod Overlap
pub mod Stats
pub mod Scopes
pub mod Tests
use clean_node_server.Common.{
  ◌^◌, ◌/◌, ◌%◌, ℕ, zero, suc, ◌+◌, ◌-◌, ◌*◌, ◌<◌, ◌≤◌, ◌≡◌, ◌≢◌, refl, sym, ap, subst, ◌∙◌, String,
  Bool, true, false, not, ◌&&◌, ◌||◌, ◌⊎◌, inl, inr, List, [], ◌∷◌, ◌++◌, Option, none, some, arith,
  length, get_elem?, set, nat_eq, string_eq, ◌==◌, if◌then◌else◌, if_cases, ltb, leb, elem, without,
  All, Bool-cases, Option-cases,
}
use clean_node_server.Common.Assoc

-- The part of an instance that the host touches: the bytes of its memory, the length of the buffer,
-- and the global __heap_ptr, as a 32-bit pattern, if the module exports it.
pub record Wasm : Type 0 where
  pub bytes : ℕ → ℕ
  pub byte_length : ℕ
  pub heap_ptr : Option ℕ

-- `range_error` is what a DataView throws when it is read out of bounds.
pub data MemoryError : Type 0 where
  range_error : MemoryError
  invalid_length : ℕ → ℕ → MemoryError
  read_out_of_bounds : ℕ → ℕ → MemoryError
  malloc_returned_null : ℕ → MemoryError
  allocator_out_of_bounds : ℕ → ℕ → MemoryError

pub data Result {ℓ} (A : Type ℓ) : Type ℓ where
  ok : A → Result A
  err : MemoryError → Result A

abbrev pub i32_mod : ℕ
i32_mod = 2 ^ 32

-- `a < b` for two patterns read as signed numbers.
abbrev pub signed_ltb : ℕ → ℕ → Bool
signed_ltb a b = ltb ((a + 2 ^ 31) % i32_mod) ((b + 2 ^ 31) % i32_mod)

-- `(ptr + totalSize + 7) & ~7`, on the 32-bit pattern.
pub aligned_end : ℕ → ℕ → ℕ
aligned_end ptr total_size = (ptr + total_size + 7) % i32_mod / 8 * 8

pub bump_heap_ptr : ℕ → ℕ → Wasm → Wasm
unfolding aligned_end
bump_heap_ptr ptr total_size w = elim w.heap_ptr [
  | none ↦ w
  | some current ↦
      if signed_ltb current (aligned_end ptr total_size)
      then record w { heap_ptr = some (aligned_end ptr total_size) }
      else w
]

-- The bytes from `p` on.
pub read_bytes : (ℕ → ℕ) → ℕ → ℕ → List ℕ
read_bytes f p zero = []
read_bytes f p (suc n) = f p ∷ read_bytes f (suc p) n

pub poke : (ℕ → ℕ) → ℕ → ℕ → ℕ → ℕ
poke f p b q = if p == q then b else f q

pub write_bytes : (ℕ → ℕ) → ℕ → List ℕ → ℕ → ℕ
unfolding poke
write_bytes f p [] = f
write_bytes f p (b ∷ bs) = write_bytes (poke f p b) (suc p) bs

-- `setUint32(ptr, n, true)` and `getUint32(ptr, true)`
pub u32_bytes : ℕ → List ℕ
u32_bytes n = n % 256 ∷ n / 2 ^ 8 % 256 ∷ n / 2 ^ 16 % 256 ∷ n / 2 ^ 24 % 256 ∷ []

pub u32_at : (ℕ → ℕ) → ℕ → ℕ
u32_at f p = f p + f (suc p) * 2 ^ 8 + f (suc (suc p)) * 2 ^ 16 + f (suc (suc (suc p))) * 2 ^ 24

pub read_length_prefixed : ℕ → Wasm → Result (List ℕ)
read_length_prefixed ptr w =
    let len = u32_at w.bytes ptr in
    if ptr == 0
    then ok []
    else if ltb w.byte_length (ptr + 4)
    then err range_error
    else if len == 0
    then ok []
    else if ltb w.byte_length (ptr + 4 + len)
    then err (invalid_length len ptr)
    else ok (read_bytes w.bytes (ptr + 4) len)

pub read_raw : ℕ → ℕ → Wasm → Result (List ℕ)
unfolding read_bytes
read_raw ptr len w =
    if ptr == 0 || len == 0
    then ok []
    else if ltb w.byte_length (ptr + len)
    then err (read_out_of_bounds ptr len)
    else ok (read_bytes w.bytes ptr len)

-- The writes behind the two guards.
pub store_prefixed : ℕ → List ℕ → Wasm → Wasm
unfolding write_bytes u32_bytes bump_heap_ptr
store_prefixed ptr content w = bump_heap_ptr ptr (4 + length content) (record w {
  bytes = write_bytes (write_bytes w.bytes ptr (u32_bytes (length content))) (ptr + 4) content;
})

-- `malloc` of the module: the pointer, and the instance afterwards, whose memory may have grown.
module _ (malloc : ℕ → Wasm → ℕ × Wasm) where
  pub write_length_prefixed : List ℕ → Wasm → Result ℕ × Wasm
  unfolding store_prefixed
  write_length_prefixed content w =
      let total_size = 4 + length content in
      let (ptr, w') = malloc total_size w in
      if ptr == 0
      then (err (malloc_returned_null total_size), w')
      else if ltb w'.byte_length (ptr + total_size)
      then (err (allocator_out_of_bounds ptr total_size), w')
      else (ok ptr, store_prefixed ptr content w')

  -- No check of the bounds: a typed array's `set` throws where the content does not fit.
  pub write_raw : List ℕ → Wasm → Result ℕ × Wasm
  unfolding write_bytes bump_heap_ptr
  write_raw content w =
      let (ptr, w') = malloc (length content) w in
      if ptr == 0
      then (err (malloc_returned_null (length content)), w')
      else if ltb w'.byte_length (ptr + length content)
      then (err range_error, w')
      else (
        ok ptr,
        bump_heap_ptr ptr (length content) (record w' { bytes = write_bytes w'.bytes ptr content }),
      )

-- bridge/helpers.ts: a boxed value is twelve bytes, a tag and two words; tag 4 is a string.
pub any_struct_size : ℕ
any_struct_size = 12

pub any_tag_null : ℕ
any_tag_null = 0

pub any_tag_string : ℕ
any_tag_string = 4

-- Any other tag than null is read as a string.
pub read_any_as_string : ℕ → Wasm → Result (List ℕ)
unfolding any_tag_null
read_any_as_string ptr w =
    if ptr == 0
    then ok []
    else if ltb w.byte_length (ptr + 4)
    then err range_error
    else if u32_at w.bytes ptr == any_tag_null
    then ok []
    else if ltb w.byte_length (ptr + 8)
    then err range_error
    else read_length_prefixed (u32_at w.bytes (ptr + 4)) w

-- `setUint32` for the tag, for the pointer and for the second word.
pub put_tag : ℕ → Wasm → Wasm
unfolding write_bytes u32_bytes any_tag_string
put_tag ptr w = record w { bytes = write_bytes w.bytes ptr (u32_bytes any_tag_string) }

pub put_word : ℕ → ℕ → Wasm → Wasm
unfolding write_bytes u32_bytes
put_word ptr n w = record w { bytes = write_bytes w.bytes ptr (u32_bytes n) }

pub fill_box : ℕ → ℕ → Wasm → Result ℕ × Wasm
unfolding put_tag put_word bump_heap_ptr any_struct_size
fill_box ptr lp w =
    let tagged = put_tag ptr w in
    let pointed = put_word (ptr + 4) lp tagged in
    if ltb w.byte_length (ptr + 4)
    then (err range_error, w)
    else if ltb w.byte_length (ptr + 8)
    then (err range_error, tagged)
    else if ltb w.byte_length (ptr + any_struct_size)
    then (err range_error, pointed)
    else (ok ptr, bump_heap_ptr ptr any_struct_size (put_word (ptr + 8) 0 pointed))

module _ (malloc : ℕ → Wasm → ℕ × Wasm) where
  -- The second allocation, behind the string's.
  pub box_written : Result ℕ × Wasm → Result ℕ × Wasm
  unfolding any_struct_size fill_box
  box_written (err e, w) = (err e, w)
  box_written (ok lp, w) =
      let (ptr, w') = malloc any_struct_size w in
      if ptr == 0 then (err (malloc_returned_null any_struct_size), w') else fill_box ptr lp w'

  pub box_string_as_any : List ℕ → Wasm → Result ℕ × Wasm
  unfolding box_written
  box_string_as_any content w = box_written (write_length_prefixed malloc content w)

-- `memory.grow(pages)` succeeds up to the maximum that the module declares.
pub page_bytes : ℕ
page_bytes = 65536

pub pre_grow_memory : ℕ → ℕ → Wasm → Wasm
unfolding page_bytes
pre_grow_memory max_bytes target_bytes w =
    let pages = (target_bytes - w.byte_length + (page_bytes - 1)) / page_bytes in
    let grown = w.byte_length + pages * page_bytes in
    if leb target_bytes w.byte_length
    then w
    else if ltb max_bytes grown
    then w
    else record w { byte_length = grown }
