-- ===== src/Lists/Handles.antt =====
-- Handles: a new one is never one in use, and a call touches only the list of its handle.
use clean_node_server.Common.{
  ◌↔◌, beq-ne, ℕ, ◌<◌, ◌≡◌, ◌≢◌, sym, ap, subst, ◌∙◌, inl, inr, List, [], ◌∷◌, Option, none, some,
  arith, nat_eq, string_eq, ◌==◌, if◌then◌else◌, Option-cases,
}
use clean_node_server.Common.Assoc
use clean_node_server.Lists.{
  ListStore, ListCall, reset_list_store, allocate, allocates, with_list, push_f64, list_add,
  list_clear, list_set, list_remove, list_push, list_call, list_calls, pushes, pushes_f64, adds,
  clears, sets, removes,
}

abbrev pub list_of : {V : Type 0} → ℕ → ListStore V → Option (List V)
list_of h s = Assoc.get h s.lists

abbrev pub changed {ℓ} : {A : Type ℓ} → (A → A) → Option A → Option A
changed f none = none
changed f (some a) = some (f a)

module _ {V : Type 0} where
  lists-with_list :
      (h : ℕ) (f : List V → List V) (xs : List V) (s : ListStore V)
      → Assoc.get h s.lists ≡ some xs
      → (with_list h f s).lists ≡ Assoc.set h (f xs) s.lists
  unfolding with_list
  lists-with_list h f xs s e = ground (arith, e)

  pub list_of-with_list :
      (h j : ℕ) (f : List V → List V) (s : ListStore V)
      → list_of j (with_list h f s) ≡ (if h == j then changed f (list_of j s) else list_of j s)
  unfolding with_list
  list_of-with_list h j f s = elim (Option-cases (Assoc.get h s.lists)) [
    | inl e ↦ ground (arith, e, nat_eq.beq_iff h j)
    | inr (xs, e) ↦
        ap (Assoc.get j) (lists-with_list h f xs s e)
        ∙ Assoc.get-set h j (f xs) s.lists
        ∙ ground (arith, e, nat_eq.beq_iff h j)
  ]

  pub next_handle-with_list :
      (h : ℕ) (f : List V → List V) (s : ListStore V)
      → (with_list h f s).next_handle ≡ s.next_handle
  unfolding with_list
  next_handle-with_list h f s = ground arith

  -- Every handle in use has been given out.
  abbrev IsGiven : ListStore V → Type 0
  IsGiven s = (h : ℕ) (xs : List V) → list_of h s ≡ some xs → h < s.next_handle

  with_list-IsGiven :
      (h : ℕ) (f : List V → List V) (s : ListStore V) → IsGiven s → IsGiven (with_list h f s)
  with_list-IsGiven h f s v j xs e = elim (Option-cases (list_of j s)) [
    | inl none_there ↦ absurd (ground (arith, list_of-with_list h j f s, e))
    | inr (ys, there) ↦ subst (λ n. j < n) (sym (next_handle-with_list h f s)) (v j ys there)
  ]

  allocate-IsGiven : (s : ListStore V) → IsGiven s → IsGiven (allocate s).1
  unfolding allocate
  allocate-IsGiven s v j xs e = ground (arith, Assoc.get-set s.next_handle j [] s.lists, v j xs)

  module _ (to_int32 : V → V) where
    list_call-IsGiven :
        (c : ListCall V) (s : ListStore V) → IsGiven s → IsGiven (list_call to_int32 c s)
    unfolding list_call list_push push_f64 list_add list_clear list_set list_remove
    list_call-IsGiven allocates s v = allocate-IsGiven s v
    list_call-IsGiven (pushes h x) s v = with_list-IsGiven h _ s v
    list_call-IsGiven (pushes_f64 h x) s v = with_list-IsGiven h _ s v
    list_call-IsGiven (adds h x) s v = with_list-IsGiven h _ s v
    list_call-IsGiven (clears h) s v = with_list-IsGiven h _ s v
    list_call-IsGiven (sets h i x) s v = with_list-IsGiven h _ s v
    list_call-IsGiven (removes h i) s v = with_list-IsGiven h _ s v

    list_calls-IsGiven :
        (cs : List (ListCall V)) (s : ListStore V) → IsGiven s → IsGiven (list_calls to_int32 cs s)
    unfolding list_calls
    list_calls-IsGiven [] s v = v
    list_calls-IsGiven (c ∷ cs) s v =
        list_calls-IsGiven cs (list_call to_int32 c s) (list_call-IsGiven c s v)

    -- After any calls, a new list gets a handle that no list has, starts empty, and leaves the lists
    -- of all other handles as they are.
    pub allocate-list_calls :
        (cs : List (ListCall V)) (j : ℕ)
        → let s = list_calls to_int32 cs reset_list_store in
          let (h, t) = allocate s in
          (list_of h s ≡ none) × (list_of j t ≡ (if h == j then some [] else list_of j s))
    unfolding allocate reset_list_store
    allocate-list_calls cs j =
        let s = list_calls to_int32 cs reset_list_store in
        let v = list_calls-IsGiven cs reset_list_store (λ h xs e. absurd (ground (arith, e))) in
        (
          elim (Option-cases (list_of s.next_handle s)) [
            | inl e ↦ e
            | inr (xs, e) ↦ absurd (let h = v s.next_handle xs e in omega arith)
          ],
          Assoc.get-set s.next_handle j [] s.lists,
        )

    -- The handle that a call changes the list of, if it is not an allocation.
    abbrev pub target : ListCall V → Option ℕ
    target allocates = none
    target (pushes h x) = some h
    target (pushes_f64 h x) = some h
    target (adds h x) = some h
    target (clears h) = some h
    target (sets h i x) = some h
    target (removes h i) = some h

    with_list-other :
        (i h j : ℕ) (f : List V → List V) (s : ListStore V)
        → some i ≡ some h
        → h ≢ j
        → (list_of j (with_list i f s) ≡ list_of j s)
          × ((list_of h s ≡ none) ↔ (list_of h (with_list i f s) ≡ none))
    with_list-other i h j f s e n =
        let same : i ≡ h = cc in
        let changes = list_of-with_list i h f s in
        (
          ground (arith, list_of-with_list i j f s, same, beq-ne h j n),
          (λ m. ground (arith, changes, m), λ m. none-with_list changes m),
        )
      where
        none-with_list :
            list_of h (with_list i f s) ≡ (if i == h then changed f (list_of h s) else list_of h s)
            → list_of h (with_list i f s) ≡ none
            → list_of h s ≡ none
        none-with_list c m = elim (Option-cases (list_of h s)) [
          | inl gone ↦ gone
          | inr (xs, there) ↦ absurd (ground (arith, c, m, there))
        ]

    -- A call on one list leaves every other list as it is, and its own handle is valid after it if it was before and only then.
    pub list_call-other :
        (c : ListCall V) (h j : ℕ) (s : ListStore V)
        → target c ≡ some h
        → h ≢ j
        → (list_of j (list_call to_int32 c s) ≡ list_of j s)
          × ((list_of h s ≡ none) ↔ (list_of h (list_call to_int32 c s) ≡ none))
    unfolding list_call list_push push_f64 list_add list_clear list_set list_remove
    list_call-other allocates h j s e n = absurd (cc)
    list_call-other (pushes i x) h j s e n = with_list-other i h j _ s e n
    list_call-other (pushes_f64 i x) h j s e n = with_list-other i h j _ s e n
    list_call-other (adds i x) h j s e n = with_list-other i h j _ s e n
    list_call-other (clears i) h j s e n = with_list-other i h j _ s e n
    list_call-other (sets i k x) h j s e n = with_list-other i h j _ s e n
    list_call-other (removes i k) h j s e n = with_list-other i h j _ s e n
