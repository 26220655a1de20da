-- ===== src/Arrays.antt =====
-- bridge/array.ts: arrays that a WebAssembly module reaches by handle. A JavaScript number is a type
-- parameter; an index is a 32-bit pattern. A callback works on numbers and on the state of the module:
-- one that changes the array that is being traversed is outside the model.
pub mod Traversals
pub mod Tests
use clean_node_server.Common.{
  Eq, ◌^◌, ℕ, zero, suc, ◌+◌, ◌-◌, ◌≡◌, String, Bool, true, false, ◌||◌, List, [], ◌∷◌, ◌++◌,
  Option, none, some, arith, length, get_elem?, set, nat_eq, ◌==◌, if◌then◌else◌, ltb, leb,
}
use clean_node_server.Common.Assoc
use clean_node_server.Common.{take, drop}
use clean_node_server.Lists.{out_of_range}

pub data Element (V : Type 0) : Type 0 where
  number : V → Element V
  string : String → Element V

pub record ArrayStore (V : Type 0) : Type 0 where
  pub arrays : List (ℕ × List (Element V))
  pub next_handle : ℕ

pub reset_array_store : {V : Type 0} → ArrayStore V
reset_array_store = record { arrays = []; next_handle = 1 }

-- A relative index of `slice`: a negative one counts from the end.
abbrev pub slice_index : ℕ → ℕ → ℕ
slice_index index len =
    if leb (2 ^ 31) index then (len + index) - 2 ^ 32 else if ltb index len then index else len

abbrev pub slice {ℓ} : {A : Type ℓ} → ℕ → ℕ → List A → List A
slice start end xs =
    let first = slice_index start (length xs) in
    take (slice_index end (length xs) - first) (drop first xs)

abbrev pub reverse {ℓ} : {A : Type ℓ} → List A → List A
reverse [] = []
reverse (x ∷ xs) = reverse xs ++ x ∷ []

-- The last element of an array and the ones before it.
abbrev pub pop {ℓ} : {A : Type ℓ} → List A → Option (A × List A)
pop [] = none
pop (x ∷ xs) = elim (pop xs) [ none ↦ some (x, []) | some (last, rest) ↦ some (last, x ∷ rest) ]

module _ {V : Type 0} where
  pub store_array : List (Element V) → ArrayStore V → ℕ × ArrayStore V
  store_array arr s = (
    s.next_handle,
    record s { arrays = Assoc.set s.next_handle arr s.arrays; next_handle = suc s.next_handle },
  )

  pub array_set : ℕ → ℕ → V → ArrayStore V → ArrayStore V
  array_set arr_ptr index value s = elim (Assoc.get arr_ptr s.arrays) [
    | none ↦ s
    | some arr ↦
        if out_of_range index (length arr)
        then s
        else record s { arrays = Assoc.set arr_ptr (set arr index (number value)) s.arrays }
  ]

  pub array_push : ℕ → V → ArrayStore V → ℕ × ArrayStore V
  array_push arr_ptr value s = elim (Assoc.get arr_ptr s.arrays) [
    | none ↦ (0, s)
    | some arr ↦
        (arr_ptr, record s { arrays = Assoc.set arr_ptr (arr ++ number value ∷ []) s.arrays })
  ]

  pub array_slice : ℕ → ℕ → ℕ → ArrayStore V → ℕ × ArrayStore V
  unfolding store_array
  array_slice arr_ptr start end s = elim (Assoc.get arr_ptr s.arrays) [
    | none ↦ (0, s)
    | some arr ↦ store_array (slice start end arr) s
  ]

  pub array_concat : ℕ → ℕ → ArrayStore V → ℕ × ArrayStore V
  unfolding store_array
  array_concat arr_ptr1 arr_ptr2 s = elim (Assoc.get arr_ptr1 s.arrays) [
    | none ↦ (0, s)
    | some arr1 ↦ elim (Assoc.get arr_ptr2 s.arrays) [
      | none ↦ (0, s)
      | some arr2 ↦ store_array (arr1 ++ arr2) s
    ]
  ]

  pub array_reverse : ℕ → ArrayStore V → ℕ × ArrayStore V
  unfolding store_array
  array_reverse arr_ptr s = elim (Assoc.get arr_ptr s.arrays) [
    | none ↦ (0, s)
    | some arr ↦ store_array (reverse arr) s
  ]

  module _ (less_number : V → V → Bool) (less_string : String → String → Bool) where
    -- The comparison is negative.
    pub is_before : Element V → Element V → Bool
    is_before (number a) (number b) = less_number a b
    is_before (number a) (string b) = false
    is_before (string a) (number b) = false
    is_before (string a) (string b) = less_string a b

    insert : Element V → List (Element V) → List (Element V)
    unfolding is_before
    insert x [] = x ∷ []
    insert x (y ∷ ys) = let rest = insert x ys in if is_before x y then x ∷ y ∷ ys else y ∷ rest

    -- `sort` of the language: stable, and defined for arrays of numbers and for arrays of strings.
    pub sorted : List (Element V) → List (Element V) → List (Element V)
    unfolding insert
    sorted done [] = done
    sorted done (x ∷ xs) = sorted (insert x done) xs

    pub array_sort : ℕ → ArrayStore V → ℕ × ArrayStore V
    unfolding store_array sorted
    array_sort arr_ptr s = elim (Assoc.get arr_ptr s.arrays) [
      | none ↦ (0, s)
      | some arr ↦ store_array (sorted [] arr) s
    ]

  module _ ⦃e : Eq V⦄ where
    abbrev includes : V → List (Element V) → Bool
    includes value [] = false
    includes value (number v ∷ xs) = v == value || includes value xs
    includes value (string t ∷ xs) = includes value xs

    pub array_contains : ℕ → V → ArrayStore V → ℕ
    array_contains arr_ptr value s = elim (Assoc.get arr_ptr s.arrays) [
      | none ↦ 0
      | some arr ↦ if includes value arr then 1 else 0
    ]

-- The number 0.
module _ {V : Type 0} (zero_number : V) where
  pub to_wasm_value : Element V → V
  to_wasm_value (number v) = v
  to_wasm_value (string t) = zero_number

  pub array_get : ℕ → ℕ → ArrayStore V → V
  unfolding to_wasm_value
  array_get arr_ptr index s = elim (Assoc.get arr_ptr s.arrays) [
    | none ↦ zero_number
    | some arr ↦
        if out_of_range index (length arr)
        then zero_number
        else elim (get_elem? arr index) [ none ↦ zero_number | some v ↦ to_wasm_value v ]
  ]

  -- The element goes to the module as it is.
  pub array_pop : ℕ → ArrayStore V → Element V × ArrayStore V
  array_pop arr_ptr s = elim (Assoc.get arr_ptr s.arrays) [
    | none ↦ (number zero_number, s)
    | some arr ↦ elim (pop arr) [
      | none ↦ (number zero_number, s)
      | some (last, rest) ↦ (last, record s { arrays = Assoc.set arr_ptr rest s.arrays })
    ]
  ]

  -- The table of functions of the module, if it has one, on a state of type M.
  module _ {M : Type 0} (table : Option (ℕ → Option (List V → M → V × M))) where
    pub call_wasm_callback : ℕ → List V → M → V × M
    call_wasm_callback callback_idx args m = elim table [
      | none ↦ (zero_number, m)
      | some get ↦ elim (get callback_idx) [ none ↦ (zero_number, m) | some fn ↦ fn args m ]
    ]

    pub mapped : ℕ → List (Element V) → M → List (Element V) × M
    unfolding call_wasm_callback to_wasm_value
    mapped callback_idx [] m = ([], m)
    mapped callback_idx (x ∷ xs) m =
        let (v, next) = call_wasm_callback callback_idx (to_wasm_value x ∷ []) m in
        let (vs, last) = mapped callback_idx xs next in (number v ∷ vs, last)

    pub array_map : ℕ → ℕ → ArrayStore V → M → ℕ × ArrayStore V × M
    unfolding mapped store_array
    array_map arr_ptr callback_idx s m = elim (Assoc.get arr_ptr s.arrays) [
      | none ↦ (0, s, m)
      | some arr ↦
          let (values, last) = mapped callback_idx arr m in
          let (handle, rest) = store_array values s in (handle, rest, last)
    ]

    pub reduced : ℕ → V → List (Element V) → M → V × M
    unfolding call_wasm_callback to_wasm_value
    reduced callback_idx accumulator [] m = (accumulator, m)
    reduced callback_idx accumulator (x ∷ xs) m =
        let (v, next) = call_wasm_callback callback_idx (accumulator ∷ to_wasm_value x ∷ []) m in
        reduced callback_idx v xs next

    pub array_reduce : ℕ → ℕ → V → ArrayStore V → M → V × M
    unfolding reduced
    array_reduce arr_ptr callback_idx initial s m = elim (Assoc.get arr_ptr s.arrays) [
      | none ↦ (zero_number, m)
      | some arr ↦ reduced callback_idx initial arr m
    ]

    module _ (is_zero : V → Bool) where
      pub filtered : ℕ → List (Element V) → M → List (Element V) × M
      unfolding call_wasm_callback to_wasm_value
      filtered callback_idx [] m = ([], m)
      filtered callback_idx (x ∷ xs) m =
          let (v, next) = call_wasm_callback callback_idx (to_wasm_value x ∷ []) m in
          let (ys, last) = filtered callback_idx xs next in (if is_zero v then ys else x ∷ ys, last)

      pub array_filter : ℕ → ℕ → ArrayStore V → M → ℕ × ArrayStore V × M
      unfolding filtered store_array
      array_filter arr_ptr callback_idx s m = elim (Assoc.get arr_ptr s.arrays) [
        | none ↦ (0, s, m)
        | some arr ↦
            let (values, last) = filtered callback_idx arr m in
            let (handle, rest) = store_array values s in (handle, rest, last)
      ]

      -- The search ends with the first element that the callback accepts.
      pub found : ℕ → List (Element V) → M → V × M
      unfolding call_wasm_callback to_wasm_value
      found callback_idx [] m = (zero_number, m)
      found callback_idx (x ∷ xs) m =
          let (v, next) = call_wasm_callback callback_idx (to_wasm_value x ∷ []) m in
          let rest = found callback_idx xs next in
          if is_zero v then rest else (to_wasm_value x, next)

      pub array_find : ℕ → ℕ → ArrayStore V → M → V × M
      unfolding found
      array_find arr_ptr callback_idx s m = elim (Assoc.get arr_ptr s.arrays) [
        | none ↦ (zero_number, m)
        | some arr ↦ found callback_idx arr m
      ]
