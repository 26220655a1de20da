-- ===== src/RequestPool/Events/Accounts.antt =====
-- The requests of the pool that have been made, that are settled, and whose timers are armed.
use clean_node_server.Common.{
  sym, subst, Option-cases, nat_beq_iff, inr, inl, not, ◌&&◌, Bool-cases, ◌||◌, ◌==◌, elem-without,
  ltb, ℕ, suc, ◌<◌, ◌≡◌, List, [], ◌∷◌, none, some, arith, elem, without, All, nat_eq,
}
use clean_node_server.Common.Assoc
use clean_node_server.RequestPool.{settle, PendingDispatch, WorkerSlot, Outcome}
use clean_node_server.RequestPool.Events.{unqueue}

pub has-settle :
    (id j : ℕ) (o : Outcome) (done : List (ℕ × Outcome))
    → Assoc.has j (settle id o done) ≡ (id == j || Assoc.has j done)
unfolding settle
has-settle id j o done = elim (Bool-cases (Assoc.has id done)) [
  | inl old ↦ elim (Bool-cases (id == j)) [
    | inl same ↦ let e : id ≡ j = (nat_beq_iff id j).0 same in rw (old, same, ← e) old
    | inr other ↦ rw (old, other)
  ]
  | inr new ↦ rw new
]

-- The timers armed are those of the requests made and not settled, and only those made are settled.
pub record Accounts (timers : List ℕ) (settled : List (ℕ × Outcome)) (next : ℕ) : Type 0 where
  pub timed : (id : ℕ) → elem id timers ≡ (ltb id next && not (Assoc.has id settled))
  pub made : (id : ℕ) → Assoc.has id settled ≡ (Assoc.has id settled && ltb id next)

module _ (timers : List ℕ) (settled : List (ℕ × Outcome)) (next : ℕ)
    (a : Accounts timers settled next) where
  pub Accounts-settle :
      (id : ℕ) (o : Outcome) → id < next → Accounts (without id timers) (settle id o settled) next
  Accounts-settle id o h = record {
    timed = λ j.
        ground (arith, elem-without j id timers, a.timed j, has-settle id j o settled, a.made j);
    made = λ j. ground (arith, has-settle id j o settled, a.made j);
  }

  pub Accounts-arm : Accounts (next ∷ timers) settled (suc next)
  Accounts-arm = record {
    timed = λ j. ground (arith, a.timed j, a.made j);
    made = λ j. ground (arith, a.made j);
  }

  pub Accounts-refuse : (o : Outcome) → Accounts timers (settle next o settled) (suc next)
  Accounts-refuse o = record {
    timed = λ j. ground (arith, a.timed j, a.made j, has-settle next j o settled);
    made = λ j. ground (arith, a.made j, has-settle next j o settled);
  }

abbrev pub PendingBelow : ℕ → WorkerSlot → Type 0
PendingBelow n s = elim s.pending [ none ↦ Unit {0} | some d ↦ d.id < n ]

abbrev pub Below : ℕ → PendingDispatch → Type 0
Below n d = d.id < n

-- More requests exist: what was below the bound stays so.
pub Below-suc : (n : ℕ) (ds : List PendingDispatch) → All (Below n) ds → All (Below (suc n)) ds
Below-suc n [] h = tt
Below-suc n (d ∷ ds) h = (omega arith, Below-suc n ds h.1)

pub PendingBelow-suc :
    (n : ℕ) (ss : List WorkerSlot) → All (PendingBelow n) ss → All (PendingBelow (suc n)) ss
PendingBelow-suc n [] h = tt
PendingBelow-suc n (s ∷ ss) h = (
  elim (Option-cases s.pending) [
    | inl e ↦ subst (λ o. elim o [ none ↦ Unit {0} | some d ↦ d.id < suc n ]) (sym e) tt
    | inr (d, e) ↦
        let here : d.id < n = subst (λ o. elim o [ none ↦ Unit {0} | some d ↦ d.id < n ]) e h.0 in
        subst (λ o. elim o [ none ↦ Unit {0} | some d ↦ d.id < suc n ]) (sym e) (omega arith)
  ],
  PendingBelow-suc n ss h.1,
)

pub unqueue-Below :
    (n id : ℕ) (ds : List PendingDispatch) → All (Below n) ds → All (Below n) (unqueue id ds)
unfolding unqueue
unqueue-Below n id [] h = tt
unqueue-Below n id (d ∷ ds) h = ground (arith, unqueue-Below n id ds h.1)
