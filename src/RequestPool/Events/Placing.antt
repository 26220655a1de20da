-- ===== src/RequestPool/Events/Placing.antt =====
-- Where the slot objects stand, and what a change of one object does to the search of the slots.
use clean_node_server.Common.{
  if◌then◌else◌, ap, sym, Option-cases, Bool, get_elem?-set_self, ◌∙◌, subst, nat_beq_iff, inr,
  get_elem?-set_ne, true, inl, false, ◌==◌, Bool-cases, ℕ, zero, suc, ◌+◌, ◌<◌, ◌≡◌, refl, List, [],
  ◌∷◌, ◌++◌, Option, none, some, arith, length, get_elem?, set, nat_eq,
}
use clean_node_server.RequestPool.{WorkerSlot, find_slot, assign}

-- The slots from number `i` on: each holds nothing or an object made for that slot.
abbrev pub Placed : List WorkerSlot → ℕ → List (Option ℕ) → Type 0
Placed objects i [] = Unit
Placed objects i (none ∷ refs) = Placed objects (suc i) refs
Placed objects i (some w ∷ refs) =
    ((s : WorkerSlot) × (get_elem? objects w ≡ some s) × (s.index ≡ i))
    × Placed objects (suc i) refs

pub get_elem?-lt {ℓ} :
    {A : Type ℓ} (xs : List A) (w : ℕ) {a : A} → get_elem? xs w ≡ some a → w < length xs
get_elem?-lt [] w e = cc
get_elem?-lt (x ∷ xs) zero e = omega arith
get_elem?-lt (x ∷ xs) (suc w) e = omega (arith, get_elem?-lt xs w e)

pub get_elem?-append {ℓ} :
    {A : Type ℓ} (xs ys : List A) (w : ℕ) {a : A}
    → get_elem? xs w ≡ some a
    → get_elem? (xs ++ ys) w ≡ some a
get_elem?-append [] ys w e = cc
get_elem?-append (x ∷ xs) ys zero e = e
get_elem?-append (x ∷ xs) ys (suc w) e = get_elem?-append xs ys w e

pub get_elem?-middle {ℓ} :
    {A : Type ℓ} (xs : List A) (a : A) (ys : List A) → get_elem? (xs ++ a ∷ ys) (length xs) ≡ some a
get_elem?-middle [] a ys = refl
get_elem?-middle (x ∷ xs) a ys = get_elem?-middle xs a ys

pub get_elem?-last {ℓ} :
    {A : Type ℓ} (xs : List A) (a : A) → get_elem? (xs ++ a ∷ []) (length xs) ≡ some a
get_elem?-last [] a = refl
get_elem?-last (x ∷ xs) a = get_elem?-last xs a

-- A search that finds nothing has passed over each object.
find_slot-head :
    (test : WorkerSlot → Bool) (objects : List WorkerSlot) (v : ℕ) (t : WorkerSlot)
    (refs : List (Option ℕ))
    → get_elem? objects v ≡ some t
    → find_slot test objects (some v ∷ refs) ≡ none
    → test t ≡ false
unfolding find_slot
find_slot-head test objects v t refs f e = ground arith

find_slot-tail :
    (test : WorkerSlot → Bool) (objects : List WorkerSlot) (v : ℕ) (refs : List (Option ℕ))
    → find_slot test objects (some v ∷ refs) ≡ none
    → find_slot test objects refs ≡ none
unfolding find_slot
find_slot-tail test objects v refs e = ground arith

module _ (objects : List WorkerSlot) (w : ℕ) (s s' : WorkerSlot)
    (old : get_elem? objects w ≡ some s) where
  get_elem?-set_at : (v : ℕ) → (w == v) ≡ true → get_elem? (set objects w s') v ≡ some s'
  get_elem?-set_at v e =
      let same : w ≡ v = (nat_beq_iff w v).0 e in
      subst (λ u. get_elem? (set objects w s') u ≡ some s') same
        (get_elem?-set_self objects w s' (get_elem?-lt objects w old))

  get_elem?-set_off :
      (v : ℕ) → (w == v) ≡ false → get_elem? (set objects w s') v ≡ get_elem? objects v
  get_elem?-set_off v e = get_elem?-set_ne objects w v s' (λ q. ground arith)

  pub Placed-set :
      s'.index ≡ s.index
      → (i : ℕ) (refs : List (Option ℕ)) → Placed objects i refs
      → Placed (set objects w s') i refs
  Placed-set h i [] p = tt
  Placed-set h i (none ∷ refs) p = Placed-set h (suc i) refs p
  Placed-set h i (some v ∷ refs) ((t, e, f), p) = (
    elim (Bool-cases (w == v)) [
      | inl same ↦ (s', get_elem?-set_at v same, (ground arith))
      | inr other ↦ (t, get_elem?-set_off v other ∙ e, f)
    ],
    Placed-set h (suc i) refs p,
  )

  -- An object that fails the test hides from the search.
  pub find_slot-set :
      (test : WorkerSlot → Bool)
      → test s' ≡ false
      → (refs : List (Option ℕ)) → find_slot test objects refs ≡ none
      → find_slot test (set objects w s') refs ≡ none
  unfolding find_slot
  find_slot-set test h [] e = refl
  find_slot-set test h (none ∷ refs) e = find_slot-set test h refs e
  find_slot-set test h (some v ∷ refs) e = elim (Bool-cases (w == v)) [
    | inl same ↦
        rw (get_elem?-set_at v same, find_slot)
          (rw h (find_slot-set test h refs (find_slot-tail test objects v refs e)))
    | inr other ↦ elim (Option-cases (get_elem? objects v)) [
      | inl f ↦
          rw (get_elem?-set_off v other, find_slot)
            (rw (f, find_slot) (find_slot-set test h refs (find_slot-tail test objects v refs e)))
      | inr (t, f) ↦
          rw (get_elem?-set_off v other, find_slot)
            (rw (f, find_slot)
              (rw (find_slot-head test objects v t refs f e)
                (find_slot-set test h refs (find_slot-tail test objects v refs e))))
    ]
  ]

  -- Behind the slot of the object nothing refers to it.
  find_slot-behind :
      (test : WorkerSlot → Bool) (i : ℕ) (refs : List (Option ℕ))
      → s.index < i
      → Placed objects i refs
      → find_slot test (set objects w s') refs ≡ find_slot test objects refs
  unfolding find_slot
  find_slot-behind test i [] h p = refl
  find_slot-behind test i (none ∷ refs) h p = find_slot-behind test (suc i) refs (omega arith) p
  find_slot-behind test i (some v ∷ refs) h ((t, e, f), p) = elim (Bool-cases (w == v)) [
    | inl same ↦
        let q : w ≡ v = (nat_beq_iff w v).0 same in
        let r : some t ≡ some s = sym e ∙ subst (λ u. get_elem? objects u ≡ some s) q old in
        let r' : t ≡ s = cc in absurd (omega (arith, ap (λ (x : WorkerSlot). x.index) r'))
    | inr other ↦
        rw (get_elem?-set_off v other, find_slot)
          (rw (e, find_slot)
            (ap (λ o. if test t then some v else o)
              (find_slot-behind test (suc i) refs (omega arith) p)))
  ]

  -- A restart empties the slot of an object, so the object is not found, whatever becomes of it.
  pub find_slot-restart :
      (test : WorkerSlot → Bool) (i j : ℕ) (refs : List (Option ℕ))
      → i + j ≡ s.index
      → Placed objects i refs
      → find_slot test objects refs ≡ none
      → find_slot test (set objects w s') (assign j none refs) ≡ none
  unfolding find_slot assign
  find_slot-restart test i zero [] h p e = refl
  find_slot-restart test i (suc j) [] h p e =
      find_slot-restart test (suc i) j [] (omega arith) tt refl
  find_slot-restart test i zero (none ∷ refs) h p e =
      find_slot-behind test (suc i) refs (omega arith) p ∙ e
  find_slot-restart test i zero (some v ∷ refs) h (_, p) e =
      find_slot-behind test (suc i) refs (omega arith) p ∙ find_slot-tail test objects v refs e
  find_slot-restart test i (suc j) (none ∷ refs) h p e =
      find_slot-restart test (suc i) j refs (omega arith) p e
  find_slot-restart test i (suc j) (some v ∷ refs) h ((t, f, g), p) e = elim (Bool-cases (w == v)) [
    | inl same ↦
        let q : w ≡ v = (nat_beq_iff w v).0 same in
        let r : some t ≡ some s = sym f ∙ subst (λ u. get_elem? objects u ≡ some s) q old in
        let r' : t ≡ s = cc in absurd (omega (arith, ap (λ (x : WorkerSlot). x.index) r'))
    | inr other ↦
        rw (get_elem?-set_off v other, find_slot)
          (rw (f, find_slot)
            (rw (find_slot-head test objects v t refs f e) (
              find_slot-restart test (suc i) j refs (omega arith) p
                (find_slot-tail test objects v refs e))))
  ]

module _ (objects : List WorkerSlot) where
  pub Placed-assign-none :
      (i j : ℕ) (refs : List (Option ℕ))
      → Placed objects i refs
      → Placed objects i (assign j none refs)
  unfolding assign
  Placed-assign-none i zero [] p = tt
  Placed-assign-none i (suc j) [] p = Placed-assign-none (suc i) j [] tt
  Placed-assign-none i zero (none ∷ refs) p = p
  Placed-assign-none i zero (some w ∷ refs) (_, p) = p
  Placed-assign-none i (suc j) (none ∷ refs) p = Placed-assign-none (suc i) j refs p
  Placed-assign-none i (suc j) (some w ∷ refs) (h, p) = (h, Placed-assign-none (suc i) j refs p)

  pub Placed-assign-some :
      (w : ℕ) (s : WorkerSlot)
      → get_elem? objects w ≡ some s
      → (i j : ℕ) (refs : List (Option ℕ)) → s.index ≡ i + j
      → Placed objects i refs
      → Placed objects i (assign j (some w) refs)
  unfolding assign
  Placed-assign-some w s e i zero [] h p = ((s, e, omega arith), tt)
  Placed-assign-some w s e i (suc j) [] h p = Placed-assign-some w s e (suc i) j [] (omega arith) tt
  Placed-assign-some w s e i zero (none ∷ refs) h p = ((s, e, omega arith), p)
  Placed-assign-some w s e i zero (some v ∷ refs) h (_, p) = ((s, e, omega arith), p)
  Placed-assign-some w s e i (suc j) (none ∷ refs) h p =
      Placed-assign-some w s e (suc i) j refs (omega arith) p
  Placed-assign-some w s e i (suc j) (some v ∷ refs) h (g, p) =
      (g, Placed-assign-some w s e (suc i) j refs (omega arith) p)

  pub Placed-append :
      (more : List WorkerSlot) (i : ℕ) (refs : List (Option ℕ))
      → Placed objects i refs
      → Placed (objects ++ more) i refs
  Placed-append more i [] p = tt
  Placed-append more i (none ∷ refs) p = Placed-append more (suc i) refs p
  Placed-append more i (some w ∷ refs) ((s, e, f), p) =
      ((s, get_elem?-append objects more w e, f), Placed-append more (suc i) refs p)

  module _ (test : WorkerSlot → Bool) where
    pub find_slot-append :
        (more : List WorkerSlot) (i : ℕ) (refs : List (Option ℕ))
        → Placed objects i refs
        → find_slot test (objects ++ more) refs ≡ find_slot test objects refs
    unfolding find_slot
    find_slot-append more i [] p = refl
    find_slot-append more i (none ∷ refs) p = find_slot-append more (suc i) refs p
    find_slot-append more i (some w ∷ refs) ((s, e, f), p) =
        rw (get_elem?-append objects more w e, find_slot)
          (rw (e, find_slot)
            (ap (λ o. if test s then some w else o) (find_slot-append more (suc i) refs p)))

    pub find_slot-assign-none :
        (j : ℕ) (refs : List (Option ℕ))
        → find_slot test objects refs ≡ none
        → find_slot test objects (assign j none refs) ≡ none
    unfolding find_slot assign
    find_slot-assign-none zero [] e = refl
    find_slot-assign-none (suc j) [] e = find_slot-assign-none j [] refl
    find_slot-assign-none zero (none ∷ refs) e = e
    find_slot-assign-none zero (some w ∷ refs) e = find_slot-tail test objects w refs e
    find_slot-assign-none (suc j) (none ∷ refs) e = find_slot-assign-none j refs e
    find_slot-assign-none (suc j) (some w ∷ refs) e =
        let rest = find_slot-assign-none j refs (find_slot-tail test objects w refs e) in
        ground arith

    pub find_slot-assign-some :
        (w : ℕ) (s : WorkerSlot)
        → get_elem? objects w ≡ some s
        → test s ≡ false
        → (j : ℕ) (refs : List (Option ℕ)) → find_slot test objects refs ≡ none
        → find_slot test objects (assign j (some w) refs) ≡ none
    unfolding find_slot assign
    find_slot-assign-some w s e h zero [] f = rw (e, find_slot) (rw h)
    find_slot-assign-some w s e h (suc j) [] f = find_slot-assign-some w s e h j [] refl
    find_slot-assign-some w s e h zero (none ∷ refs) f = rw (e, find_slot) (rw h f)
    find_slot-assign-some w s e h zero (some v ∷ refs) f =
        rw (e, find_slot) (rw h (find_slot-tail test objects v refs f))
    find_slot-assign-some w s e h (suc j) (none ∷ refs) f = find_slot-assign-some w s e h j refs f
    find_slot-assign-some w s e h (suc j) (some v ∷ refs) f =
        let rest = find_slot-assign-some w s e h j refs (find_slot-tail test objects v refs f) in
        ground arith
