-- ===== src/Lists.antt =====
-- bridge/list.ts: lists that a WebAssembly module reaches by handle. A JavaScript number is a type
-- parameter with the equality of `includes` and the conversion `| 0`; an index is a 32-bit pattern.
pub mod Handles
pub mod Elements
pub mod Tests
use clean_node_server.Common.{
  Eq, ◌^◌, ℕ, zero, suc, ◌+◌, ◌-◌, ◌*◌, ◌<◌, ◌≤◌, ◌≡◌, ◌≢◌, refl, sym, ap, subst, ap₂, ◌∙◌, String,
  Bool, true, false, not, ◌&&◌, ◌||◌, ◌⊎◌, inl, inr, List, [], ◌∷◌, ◌++◌, Option, none, some, arith,
  length, get_elem?, set, nat_eq, string_eq, ◌==◌, if◌then◌else◌, if_cases, ltb, leb, elem, without,
  All, Bool-cases, Option-cases,
}
use clean_node_server.Common.Assoc

pub record ListStore (V : Type 0) : Type 0 where
  pub lists : List (ℕ × List V)
  pub next_handle : ℕ

pub reset_list_store : {V : Type 0} → ListStore V
reset_list_store = record { lists = []; next_handle = 1 }

-- `index < 0 || index >= list.length`
abbrev pub out_of_range : ℕ → ℕ → Bool
out_of_range index len = leb (2 ^ 31) index || leb len index

abbrev pub splice_one {ℓ} : {A : Type ℓ} → ℕ → List A → List A
splice_one i [] = []
splice_one zero (x ∷ xs) = xs
splice_one (suc i) (x ∷ xs) = x ∷ splice_one i xs

module _ {V : Type 0} where
  pub allocate : ListStore V → ℕ × ListStore V
  allocate s = (
    s.next_handle,
    record s { lists = Assoc.set s.next_handle [] s.lists; next_handle = suc s.next_handle },
  )

  -- The list is changed in place; an invalid handle is only logged.
  pub with_list : ℕ → (List V → List V) → ListStore V → ListStore V
  with_list handle change s = elim (Assoc.get handle s.lists) [
    | none ↦ s
    | some xs ↦ record s { lists = Assoc.set handle (change xs) s.lists }
  ]

  pub push_f64 : ℕ → V → ListStore V → ListStore V
  unfolding with_list
  push_f64 handle value = with_list handle (λ xs. xs ++ value ∷ [])

  pub list_add : ℕ → V → ListStore V → ListStore V
  unfolding with_list
  list_add handle value = with_list handle (λ xs. xs ++ value ∷ [])

  pub list_clear : ℕ → ListStore V → ListStore V
  unfolding with_list
  list_clear handle = with_list handle (λ xs. [])

  pub list_set : ℕ → ℕ → V → ListStore V → ListStore V
  unfolding with_list
  list_set handle index value =
      with_list handle (λ xs. if out_of_range index (length xs) then xs else set xs index value)

  pub list_remove : ℕ → ℕ → ListStore V → ListStore V
  unfolding with_list
  list_remove handle index =
      with_list handle (λ xs. if out_of_range index (length xs) then xs else splice_one index xs)

  pub is_empty : ℕ → ListStore V → ℕ
  is_empty handle s = elim (Assoc.get handle s.lists) [
    | none ↦ 0
    | some xs ↦ if length xs == 0 then 1 else 0
  ]

-- The conversion to an integer of 32 bits.
module _ {V : Type 0} (to_int32 : V → V) where
  pub list_push : ℕ → V → ListStore V → ListStore V
  unfolding with_list
  list_push handle value = with_list handle (λ xs. xs ++ to_int32 value ∷ [])

-- The number 0.
module _ {V : Type 0} (zero_number : V) where
  pub list_get : ℕ → ℕ → ListStore V → V
  list_get handle index s = elim (Assoc.get handle s.lists) [
    | none ↦ zero_number
    | some xs ↦
        if out_of_range index (length xs)
        then zero_number
        else elim (get_elem? xs index) [ none ↦ zero_number | some v ↦ v ]
  ]

module _ {V : Type 0} ⦃e : Eq V⦄ where
  pub contains : ℕ → V → ListStore V → ℕ
  contains handle value s = elim (Assoc.get handle s.lists) [
    | none ↦ 0
    | some xs ↦ if elem value xs then 1 else 0
  ]

-- The operations that change the store.
pub data ListCall (V : Type 0) : Type 0 where
  allocates : ListCall V
  pushes pushes_f64 adds : ℕ → V → ListCall V
  clears : ℕ → ListCall V
  sets : ℕ → ℕ → V → ListCall V
  removes : ℕ → ℕ → ListCall V

module _ {V : Type 0} (to_int32 : V → V) where
  pub list_call : ListCall V → ListStore V → ListStore V
  unfolding allocate push_f64 list_add list_clear list_set list_remove list_push
  list_call allocates s = (allocate s).1
  list_call (pushes h v) s = list_push to_int32 h v s
  list_call (pushes_f64 h v) s = push_f64 h v s
  list_call (adds h v) s = list_add h v s
  list_call (clears h) s = list_clear h s
  list_call (sets h i v) s = list_set h i v s
  list_call (removes h i) s = list_remove h i s

  pub list_calls : List (ListCall V) → ListStore V → ListStore V
  unfolding list_call
  list_calls [] s = s
  list_calls (c ∷ cs) s = list_calls cs (list_call c s)
