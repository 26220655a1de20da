-- ===== src/RequestPool/Events/Waiting/Answers.antt =====
-- The order of the requests that wait, while workers answer and crash.
use clean_node_server.Common.{
  nat_beq_iff, ◌||◌, inr, All-set, sym, All-get_elem?, ◌==◌, subst, inl, if_cases, false,
  Option-cases, ℕ, suc, ◌<◌, ◌≤◌, ◌≡◌, refl, List, [], ◌∷◌, ◌++◌, none, some, arith, get_elem?,
  nat_eq, All,
}
use clean_node_server.Common.Assoc
use clean_node_server.RequestPool.{
  outcome_of, answer_pending, restart_slot, on_worker_message, handle_worker_crash, is_free,
  drain_from, settle, finish, drain_queue, RequestWorkerPool, PendingDispatch, WorkerSlot,
  WorkerMessage, Outcome,
}
use clean_node_server.RequestPool.Events.{queued, unqueue}
use clean_node_server.RequestPool.Events.Accounts.{PendingBelow, Below, has-settle}

-- The numbers rise along the list, from `lo` on.
abbrev pub Ascending : ℕ → List PendingDispatch → Type 0
Ascending lo [] = Unit
Ascending lo (d ∷ ds) = (lo ≤ d.id) × Ascending (suc d.id) ds

abbrev pub Unsettled : List (ℕ × Outcome) → List PendingDispatch → Type 0
Unsettled done [] = Unit
Unsettled done (d ∷ ds) = (Assoc.has d.id done ≡ false) × Unsettled done ds

pub Ascending-le : (m n : ℕ) (ds : List PendingDispatch) → m ≤ n → Ascending n ds → Ascending m ds
Ascending-le m n [] h a = tt
Ascending-le m n (d ∷ ds) h (b, a) = (omega arith, a)

pub Ascending-append :
    (lo n : ℕ) (d : PendingDispatch) (ds : List PendingDispatch)
    → lo ≤ n
    → d.id ≡ n
    → All (Below n) ds
    → Ascending lo ds
    → Ascending lo (ds ++ d ∷ [])
Ascending-append lo n d [] h e b a = (omega arith, tt)
Ascending-append lo n d (x ∷ ds) h e (b, bs) (g, a) =
    (g, Ascending-append (suc x.id) n d ds (omega arith) e bs a)

pub Unsettled-append :
    (done : List (ℕ × Outcome)) (d : PendingDispatch) (ds : List PendingDispatch)
    → Assoc.has d.id done ≡ false
    → Unsettled done ds
    → Unsettled done (ds ++ d ∷ [])
Unsettled-append done d [] h u = (h, tt)
Unsettled-append done d (x ∷ ds) h (g, u) = (g, Unsettled-append done d ds h u)

module _ (id : ℕ) (o : Outcome) (done : List (ℕ × Outcome)) where
  -- Settling a request below those that wait leaves them unsettled.
  pub Unsettled-settle :
      (lo : ℕ) (ds : List PendingDispatch)
      → id < lo
      → Ascending lo ds
      → Unsettled done ds
      → Unsettled (settle id o done) ds
  Unsettled-settle lo [] h a u = tt
  Unsettled-settle lo (d ∷ ds) h (b, a) (g, u) =
      (ground (arith, has-settle id d.id o done), Unsettled-settle (suc d.id) ds (omega arith) a u)

  pub Unsettled-unqueue :
      (lo : ℕ) (ds : List PendingDispatch)
      → Ascending lo ds
      → Unsettled done ds
      → Unsettled (settle id o done) (unqueue id ds)
  unfolding unqueue
  Unsettled-unqueue lo [] a u = tt
  Unsettled-unqueue lo (d ∷ ds) (b, a) (g, u) =
      if_cases (Unsettled (settle id o done)) (d.id == id) _ _
        (λ same. Unsettled-settle (suc d.id) ds (ground arith) a u)
        (λ other. (ground (arith, has-settle id d.id o done), Unsettled-unqueue (suc d.id) ds a u))

  pub Unsettled-unqueued :
      (ds : List PendingDispatch)
      → queued id ds ≡ false
      → Unsettled done ds
      → Unsettled (settle id o done) ds
  unfolding queued
  Unsettled-unqueued [] h u = tt
  Unsettled-unqueued (d ∷ ds) h (g, u) =
      (ground (arith, has-settle id d.id o done), Unsettled-unqueued ds (ground arith) u)

pub Ascending-unqueue :
    (id lo : ℕ) (ds : List PendingDispatch) → Ascending lo ds → Ascending lo (unqueue id ds)
unfolding unqueue
Ascending-unqueue id lo [] a = tt
Ascending-unqueue id lo (d ∷ ds) (b, a) =
    if_cases (Ascending lo) (d.id == id) _ _ (λ _. Ascending-le lo (suc d.id) ds (omega arith) a)
      (λ _. (b, Ascending-unqueue id (suc d.id) ds a))

-- Every running request was made before `from`, every waiting one at `from` or later.
pub record InOrder (p : RequestWorkerPool) : Type 0 where
  pub from : ℕ
  pub running : All (PendingBelow from) p.objects
  pub ascending : Ascending from p.queue
  pub unsettled : Unsettled p.settled p.queue

pub PendingBelow-le :
    (m n : ℕ) (ss : List WorkerSlot) → m ≤ n → All (PendingBelow m) ss → All (PendingBelow n) ss
PendingBelow-le m n [] h b = tt
PendingBelow-le m n (s ∷ ss) h (b, bs) = (
  elim (Option-cases s.pending) [
    | inl e ↦ subst (λ o. elim o [ none ↦ Unit {0} | some d ↦ d.id < n ]) (sym e) tt
    | inr (d, e) ↦
        let here : d.id < m = subst (λ o. elim o [ none ↦ Unit {0} | some d ↦ d.id < m ]) e b in
        subst (λ o. elim o [ none ↦ Unit {0} | some d ↦ d.id < n ]) (sym e) (omega arith)
  ],
  PendingBelow-le m n ss h bs,
)

pub drain_queue-InOrder :
    (w : ℕ) (s : WorkerSlot) (p : RequestWorkerPool) → InOrder p → InOrder (drain_queue w s p)
unfolding drain_queue
drain_queue-InOrder w s p v = drain p.queue refl v.ascending v.unsettled
  where
    drain :
        (ds : List PendingDispatch)
        → p.queue ≡ ds
        → Ascending v.from ds
        → Unsettled p.settled ds
        → InOrder (drain_from w s ds p)
    drain [] e a u = v
    drain (d ∷ ds) e (b, a) (g, u) =
        if_cases InOrder (is_free s) _ _
          (λ _. record {
            from = suc d.id;
            running =
                All-set (PendingBelow (suc d.id)) p.objects w _
                  (PendingBelow-le v.from (suc d.id) p.objects (omega arith) v.running)
                  (omega arith);
            ascending = a;
            unsettled = u;
          })
          (λ _. v)

finish-InOrder :
    (w : ℕ) (s : WorkerSlot) (d : PendingDispatch) (o : Outcome) (p : RequestWorkerPool)
    → get_elem? p.objects w ≡ some s
    → s.pending ≡ some d
    → InOrder p
    → InOrder (finish w s d.id o p)
unfolding finish
finish-InOrder w s d o p e f v = record {
  from = v.from;
  running = All-set (PendingBelow v.from) p.objects w _ v.running tt;
  ascending = v.ascending;
  unsettled = Unsettled-settle d.id o p.settled v.from p.queue below v.ascending v.unsettled;
}
  where
    below : d.id < v.from
    below =
        subst (λ o. elim o [ none ↦ Unit {0} | some d ↦ d.id < v.from ]) f
          (All-get_elem? (PendingBelow v.from) p.objects w s v.running e)

-- A change of the slots, the timers or the restarts under way is no matter.
restart_slot-InOrder :
    (s : WorkerSlot) (p : RequestWorkerPool) → InOrder p → InOrder (restart_slot s p)
unfolding restart_slot
restart_slot-InOrder s p v = record {
  from = v.from;
  running = v.running;
  ascending = v.ascending;
  unsettled = v.unsettled;
}

pub on_worker_message-InOrder :
    (w : ℕ) (m : WorkerMessage) (p : RequestWorkerPool)
    → InOrder p
    → InOrder (on_worker_message w m p)
unfolding on_worker_message answer_pending
on_worker_message-InOrder w m p v = elim (Option-cases (get_elem? p.objects w)) [
  | inl e ↦ rw (e, on_worker_message) v
  | inr (s, e) ↦ elim (Option-cases s.pending) [
    | inl f ↦ rw (e, on_worker_message) (rw (f, on_worker_message) v)
    | inr (d, f) ↦
        rw (e, on_worker_message)
          (rw (f, on_worker_message)
            (if_cases InOrder (d.id == m.id) _ _
              (λ h. answered_InOrder s d e f ((nat_beq_iff d.id m.id).0 h)) (λ _. v)))
  ]
]
  where
    answered_InOrder :
        (s : WorkerSlot) (d : PendingDispatch)
        → get_elem? p.objects w ≡ some s
        → s.pending ≡ some d
        → d.id ≡ m.id
        → InOrder (answer_pending w s m p)
    answered_InOrder s d e f g =
        let done =
          subst (λ id. InOrder (finish w s id (outcome_of m.answer) p)) g
            (finish-InOrder w s d (outcome_of m.answer) p e f v) in
        if_cases InOrder (m.needs_restart || s.retiring) _ _
          (λ _. restart_slot-InOrder (record s { pending = none }) _ done)
          (λ _. drain_queue-InOrder w (record s { pending = none }) _ done)

pub handle_worker_crash-InOrder :
    (w : ℕ) (p : RequestWorkerPool) → InOrder p → InOrder (handle_worker_crash w p)
unfolding handle_worker_crash
handle_worker_crash-InOrder w p v = elim (Option-cases (get_elem? p.objects w)) [
  | inl e ↦ rw (e, handle_worker_crash) v
  | inr (s, e) ↦ elim (Option-cases s.pending) [
    | inl f ↦ rw (e, handle_worker_crash) (rw (f, handle_worker_crash) (restart_slot-InOrder s p v))
    | inr (d, f) ↦
        rw (e, handle_worker_crash)
          (rw (f, handle_worker_crash)
            (restart_slot-InOrder (record s { pending = none }) _ (finish-InOrder w s d _ p e f v)))
  ]
]
