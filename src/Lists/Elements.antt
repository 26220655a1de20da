-- ===== src/Lists/Elements.antt =====
-- What is read from a list after an element is set, removed or pushed.
use clean_node_server.Common.{
  beq_refl, ◌^◌, get_elem?-set_self, get_elem?-set_ne, length-set, ℕ, zero, suc, ◌<◌, ◌≤◌, ◌≡◌,
  refl, sym, ap, ap₂, ◌∙◌, List, [], ◌∷◌, ◌++◌, none, some, arith, length, get_elem?, set, nat_eq,
  string_eq, ◌==◌, if◌then◌else◌, ltb,
}
use clean_node_server.Lists.{
  ListStore, with_list, list_set, list_remove, list_push, list_get, out_of_range, splice_one,
}
use clean_node_server.Lists.Handles.{list_of, list_of-with_list}

module _ {V : Type 0} (zero_number : V) where
  -- The value that `list.get` finds in the list itself.
  abbrev pub value_at : List V → ℕ → V
  value_at xs i =
      if out_of_range i (length xs)
      then zero_number
      else elim (get_elem? xs i) [ none ↦ zero_number | some v ↦ v ]

  list_get-of :
      (h i : ℕ) (xs : List V) (s : ListStore V)
      → list_of h s ≡ some xs
      → list_get zero_number h i s ≡ value_at xs i
  unfolding list_get
  list_get-of h i xs s e = ground (arith, e)

  list_get-with_list :
      (h i : ℕ) (f : List V → List V) (xs : List V) (s : ListStore V)
      → list_of h s ≡ some xs
      → list_get zero_number h i (with_list h f s) ≡ value_at (f xs) i
  list_get-with_list h i f xs s e =
      list_get-of h i (f xs) (with_list h f s)
        (ground (arith, list_of-with_list h h f s, e, beq_refl h))

  get_elem?-past : (xs : List V) (k : ℕ) → length xs ≤ k → get_elem? xs k ≡ none
  get_elem?-past [] k h = refl
  get_elem?-past (x ∷ xs) zero h = absurd (omega arith)
  get_elem?-past (x ∷ xs) (suc k) h = get_elem?-past xs k (omega arith)

  -- Below 2 ^ 31 the test of the range adds nothing to the look-up.
  value_at-get_elem? :
      (xs : List V) (k : ℕ)
      → k < 2 ^ 31
      → value_at xs k ≡ (elim (get_elem? xs k) [ none ↦ zero_number | some v ↦ v ])
  value_at-get_elem? xs k b = ground (arith, get_elem?-past xs k)

  value_at-set :
      (xs : List V) (i k : ℕ) (v : V)
      → i < length xs
      → i < 2 ^ 31
      → value_at (set xs i v) k ≡ (if i == k then v else value_at xs k)
  value_at-set xs i k v h b = ground (
    arith,
    length-set xs i v,
    get_elem?-set_self xs i v h,
    get_elem?-set_ne xs i k v,
    nat_eq.beq_iff i k,
  )

  -- Setting an element that is there changes that element and no other.
  pub list_get-list_set :
      (h i k : ℕ) (v : V) (xs : List V) (s : ListStore V)
      → list_of h s ≡ some xs
      → i < length xs
      → i < 2 ^ 31
      → list_get zero_number h k (list_set h i v s)
        ≡ (if i == k then v else list_get zero_number h k s)
  unfolding list_set
  list_get-list_set h i k v xs s e b c =
      list_get-with_list h k _ xs s e
      ∙ ap (λ ys. value_at ys k) (if_in xs (set xs i v))
      ∙ value_at-set xs i k v b c
      ∙ ap (λ u. if i == k then v else u) (sym (list_get-of h k xs s e))
    where
      if_in : (ys zs : List V) → (if out_of_range i (length xs) then ys else zs) ≡ zs
      if_in ys zs = ground arith

  get_elem?-splice_one :
      (i k : ℕ) (xs : List V)
      → get_elem? (splice_one i xs) k ≡ (if ltb k i then get_elem? xs k else get_elem? xs (suc k))
  get_elem?-splice_one i k [] = ground arith
  get_elem?-splice_one zero k (x ∷ xs) = ground arith
  get_elem?-splice_one (suc i) zero (x ∷ xs) = ground arith
  get_elem?-splice_one (suc i) (suc k) (x ∷ xs) = ground (arith, get_elem?-splice_one i k xs)

  -- Removing an element that is there moves the elements behind it down by one, and no other.
  pub list_get-list_remove :
      (h i k : ℕ) (xs : List V) (s : ListStore V)
      → list_of h s ≡ some xs
      → i < length xs
      → i < 2 ^ 31
      → suc k < 2 ^ 31
      → list_get zero_number h k (list_remove h i s)
        ≡ (if ltb k i then list_get zero_number h k s else list_get zero_number h (suc k) s)
  unfolding list_remove
  list_get-list_remove h i k xs s e b c d =
      list_get-with_list h k _ xs s e
      ∙ ap (λ ys. value_at ys k) (if_in xs (splice_one i xs))
      ∙ ground (
        arith,
        get_elem?-splice_one i k xs,
        value_at-get_elem? (splice_one i xs) k,
        value_at-get_elem? xs k,
        value_at-get_elem? xs (suc k),
      )
      ∙ sym (
          ap₂ (λ u v. if ltb k i then u else v) (list_get-of h k xs s e)
            (list_get-of h (suc k) xs s e))
    where
      if_in : (ys zs : List V) → (if out_of_range i (length xs) then ys else zs) ≡ zs
      if_in ys zs = ground arith

  get_elem?-append :
      (xs : List V) (v : V) (k : ℕ)
      → get_elem? (xs ++ v ∷ []) k ≡ (if k == length xs then some v else get_elem? xs k)
  get_elem?-append [] v zero = ground arith
  get_elem?-append [] v (suc k) = ground arith
  get_elem?-append (x ∷ xs) v zero = ground arith
  get_elem?-append (x ∷ xs) v (suc k) = ground (arith, get_elem?-append xs v k)

  -- A pushed number stands, as a 32-bit integer, behind the others, which stay where they are.
  pub list_get-list_push :
      (to_int32 : V → V) (h k : ℕ) (v : V) (xs : List V) (s : ListStore V)
      → list_of h s ≡ some xs
      → k < 2 ^ 31
      → list_get zero_number h k (list_push to_int32 h v s)
        ≡ (if k == length xs then to_int32 v else list_get zero_number h k s)
  unfolding list_push
  list_get-list_push to_int32 h k v xs s e b =
      list_get-with_list h k _ xs s e
      ∙ value_at-get_elem? (xs ++ to_int32 v ∷ []) k b
      ∙ ground (arith, get_elem?-append xs (to_int32 v) k, value_at-get_elem? xs k b)
      ∙ ap (λ u. if k == length xs then to_int32 v else u) (sym (list_get-of h k xs s e))
