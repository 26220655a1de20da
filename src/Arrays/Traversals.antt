-- ===== src/Arrays/Traversals.antt =====
-- What the array functions do from the empty store, and the traversal of two arrays put together.
use clean_node_server.Common.{
  Eq, ℕ, ◌≡◌, refl, String, Bool, List, [], ◌∷◌, ◌++◌, Option, some, All, nat_eq, ◌∙◌, ap, sym,
  subst,
}
use clean_node_server.Common.Assoc
use clean_node_server.Arrays.{
  Element, number, ArrayStore, reset_array_store, array_get, array_set, array_push, array_pop,
  array_slice, array_concat, array_reverse, array_sort, array_filter, array_map, array_reduce,
  array_find, array_contains, store_array, reduced, call_wasm_callback, to_wasm_value,
}

pub data ArrayCall (V : Type 0) : Type 0 where
  gets : ℕ → ℕ → ArrayCall V
  sets : ℕ → ℕ → V → ArrayCall V
  pushes : ℕ → V → ArrayCall V
  pops reverses sorts : ℕ → ArrayCall V
  slices : ℕ → ℕ → ℕ → ArrayCall V
  concats filters maps finds : ℕ → ℕ → ArrayCall V
  reduces : ℕ → ℕ → V → ArrayCall V
  tests : ℕ → V → ArrayCall V

pub data Answer (V : Type 0) : Type 0 where
  nothing : Answer V
  count : ℕ → Answer V
  value : Element V → Answer V

module _ {V M : Type 0} (zero_number : V) (less_number : V → V → Bool)
    (less_string : String → String → Bool) (is_zero : V → Bool)
    (table : Option (ℕ → Option (List V → M → V × M))) ⦃e : Eq V⦄ where
  pub array_call : ArrayCall V → ArrayStore V × M → Answer V × (ArrayStore V × M)
  unfolding array_get array_set array_push array_pop array_slice array_concat array_reverse
      array_sort array_filter array_map array_reduce array_find array_contains
  array_call (gets h i) (s, m) = (value (number (array_get zero_number h i s)), (s, m))
  array_call (sets h i v) (s, m) = (nothing, (array_set h i v s, m))
  array_call (pushes h v) (s, m) = let (n, t) = array_push h v s in (count n, (t, m))
  array_call (pops h) (s, m) = let (x, t) = array_pop zero_number h s in (value x, (t, m))
  array_call (reverses h) (s, m) = let (n, t) = array_reverse h s in (count n, (t, m))
  array_call (sorts h) (s, m) =
      let (n, t) = array_sort less_number less_string h s in (count n, (t, m))
  array_call (slices h i j) (s, m) = let (n, t) = array_slice h i j s in (count n, (t, m))
  array_call (concats h i) (s, m) = let (n, t) = array_concat h i s in (count n, (t, m))
  array_call (filters h c) (s, m) =
      let (n, t, last) = array_filter zero_number table is_zero h c s m in (count n, (t, last))
  array_call (maps h c) (s, m) =
      let (n, t, last) = array_map zero_number table h c s m in (count n, (t, last))
  array_call (finds h c) (s, m) =
      let (v, last) = array_find zero_number table is_zero h c s m in (value (number v), (s, last))
  array_call (reduces h c v) (s, m) =
      let (w, last) = array_reduce zero_number table h c v s m in (value (number w), (s, last))
  array_call (tests h v) (s, m) = (count (array_contains h v s), (s, m))

  pub array_calls : List (ArrayCall V) → ArrayStore V × M → List (Answer V) × (ArrayStore V × M)
  unfolding array_call
  array_calls [] s = ([], s)
  array_calls (c ∷ cs) s =
      let (a, t) = array_call c s in let (answers, last) = array_calls cs t in (a ∷ answers, last)

  abbrev pub IsEmpty : Answer V → Type 0
  IsEmpty nothing = Unit {0}
  IsEmpty (count n) = n ≡ 0
  IsEmpty (value x) = x ≡ number zero_number

  array_call-reset :
      (c : ArrayCall V) (m : M)
      → let (a, t) = array_call c (reset_array_store, m) in IsEmpty a × (t ≡ (reset_array_store, m))
  unfolding array_call reset_array_store array_get array_set array_push array_pop array_slice
      array_concat array_reverse array_sort array_filter array_map array_reduce array_find
      array_contains
  array_call-reset (gets h i) m = (refl, refl)
  array_call-reset (sets h i v) m = (tt, refl)
  array_call-reset (pushes h v) m = (refl, refl)
  array_call-reset (pops h) m = (refl, refl)
  array_call-reset (reverses h) m = (refl, refl)
  array_call-reset (sorts h) m = (refl, refl)
  array_call-reset (slices h i j) m = (refl, refl)
  array_call-reset (concats h i) m = (refl, refl)
  array_call-reset (filters h c) m = (refl, refl)
  array_call-reset (maps h c) m = (refl, refl)
  array_call-reset (finds h c) m = (refl, refl)
  array_call-reset (reduces h c v) m = (refl, refl)
  array_call-reset (tests h v) m = (refl, refl)

  -- No function makes the first array: from the empty store every call answers 0 or nothing, the store
  -- stays empty, and no callback runs.
  pub array_calls-reset :
      (cs : List (ArrayCall V)) (m : M)
      → let (answers, last) = array_calls cs (reset_array_store, m) in
        All IsEmpty answers × (last ≡ (reset_array_store, m))
  unfolding array_calls
  array_calls-reset [] m = (tt, refl)
  array_calls-reset (c ∷ cs) m =
      let (a, e) = array_call-reset c m in
      let (as_rest, f) = array_calls-reset cs m in
      (
        (a, subst (λ t. All IsEmpty (array_calls cs t).0) (sym e) as_rest),
        ap (λ t. (array_calls cs t).1) e ∙ f,
      )

module _ {V M : Type 0} (zero_number : V) (table : Option (ℕ → Option (List V → M → V × M))) where
  reduced-append :
      (c : ℕ) (v : V) (xs ys : List (Element V)) (m : M)
      → reduced zero_number table c v (xs ++ ys) m ≡ (
          let (w, next) = reduced zero_number table c v xs m in
          reduced zero_number table c w ys next)
  unfolding reduced
  reduced-append c v [] ys m = refl
  reduced-append c v (x ∷ xs) ys m =
      let (w, next) =
        call_wasm_callback zero_number table c (v ∷ to_wasm_value zero_number x ∷ []) m in
      reduced-append c w xs ys next

  array_reduce-found :
      (h c : ℕ) (v : V) (xs : List (Element V)) (s : ArrayStore V) (m : M)
      → Assoc.get h s.arrays ≡ some xs
      → array_reduce zero_number table h c v s m ≡ reduced zero_number table c v xs m
  unfolding array_reduce
  array_reduce-found h c v xs s m e = rw (e, array_reduce)

  array_concat-found :
      (h i : ℕ) (xs ys : List (Element V)) (s : ArrayStore V)
      → Assoc.get h s.arrays ≡ some xs
      → Assoc.get i s.arrays ≡ some ys
      → array_concat h i s ≡ store_array (xs ++ ys) s
  unfolding array_concat
  array_concat-found h i xs ys s e f = rw (e, array_concat) (rw (f))

  stored :
      (s : ArrayStore V) (xs : List (Element V))
      → Assoc.get s.next_handle (store_array xs s).1.arrays ≡ some xs
  unfolding store_array
  stored s xs = Assoc.get-set_self s.next_handle xs s.arrays

  -- Reducing the concatenation of two arrays is reducing the first, and then the second from the result.
  array_reduce-array_concat :
      (h i c : ℕ) (v : V) (xs ys : List (Element V)) (s : ArrayStore V) (m : M)
      → Assoc.get h s.arrays ≡ some xs
      → Assoc.get i s.arrays ≡ some ys
      → let (handle, after) = array_concat h i s in
        array_reduce zero_number table handle c v after m ≡ (
          let (w, next) = array_reduce zero_number table h c v s m in
          array_reduce zero_number table i c w s next)
  unfolding array_reduce store_array
  array_reduce-array_concat h i c v xs ys s m e f =
      ap (λ p. array_reduce zero_number table p.0 c v p.1 m) (array_concat-found h i xs ys s e f)
      ∙ array_reduce-found s.next_handle c v (xs ++ ys) (store_array (xs ++ ys) s).1 m
          (stored s (xs ++ ys))
      ∙ reduced-append c v xs ys m
      ∙ ap (λ p. reduced zero_number table c p.0 ys p.1) (sym (array_reduce-found h c v xs s m e))
      ∙ sym (
          array_reduce-found i c (array_reduce zero_number table h c v s m).0 ys s
            (array_reduce zero_number table h c v s m).1 f)
