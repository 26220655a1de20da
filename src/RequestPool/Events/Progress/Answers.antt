-- ===== src/RequestPool/Events/Progress/Answers.antt =====
-- Timers and promises, while workers answer and crash.
use clean_node_server.RequestPool.Events.Accounts.{PendingBelow, Below, Accounts-settle, Accounts}
use clean_node_server.Common.{
  subst, Option-cases, All-get_elem?, get_elem?, inr, All-set, inl, Bool-cases, ◌||◌, ◌==◌, ℕ, zero,
  suc, ◌<◌, ◌≡◌, refl, List, [], ◌∷◌, none, some, arith, All, nat_eq,
}
use clean_node_server.RequestPool.{
  idle_slot, handle_worker_crash, on_worker_message, is_free, drain_from, start_slots, restart_slot,
  finish, drain_queue, answer_pending, RequestWorkerPool, PendingDispatch, WorkerSlot,
  WorkerMessage, Outcome, initialize,
}

pub record IsLive (p : RequestWorkerPool) : Type 0 where
  pub accounts : Accounts p.timers p.settled p.next_id
  pub queue_below : All (Below p.next_id) p.queue
  pub objects_below : All (PendingBelow p.next_id) p.objects

pub initialize-IsLive : (size limit : ℕ) → IsLive (initialize size limit)
unfolding initialize start_slots idle_slot
initialize-IsLive size limit = record {
  accounts = record { timed = λ id. ground arith; made = λ id. refl };
  queue_below = tt;
  objects_below = go 0 size;
}
  where
    go : (i n : ℕ) → All (PendingBelow 0) (start_slots i n)
    go i zero = tt
    go i (suc n) = (tt, go (suc i) n)

pub drain_queue-IsLive :
    (w : ℕ) (s : WorkerSlot) (p : RequestWorkerPool) → IsLive p → IsLive (drain_queue w s p)
unfolding drain_queue
drain_queue-IsLive w s p v = drain p.queue v.queue_below
  where
    drain : (ds : List PendingDispatch) → All (Below p.next_id) ds → IsLive (drain_from w s ds p)
    drain [] h = v
    drain (d ∷ ds) h = elim (Bool-cases (is_free s)) [
      | inl free ↦ rw free (record {
        accounts = v.accounts;
        queue_below = h.1;
        objects_below = All-set (PendingBelow p.next_id) p.objects w _ v.objects_below h.0;
      })
      | inr taken ↦ rw taken v
    ]

finish-IsLive :
    (w : ℕ) (s : WorkerSlot) (id : ℕ) (o : Outcome) (p : RequestWorkerPool)
    → id < p.next_id
    → IsLive p
    → IsLive (finish w s id o p)
unfolding finish
finish-IsLive w s id o p h v = record {
  accounts = Accounts-settle p.timers p.settled p.next_id v.accounts id o h;
  queue_below = v.queue_below;
  objects_below = All-set (PendingBelow p.next_id) p.objects w _ v.objects_below tt;
}

restart_slot-IsLive :
    (s : WorkerSlot) (p : RequestWorkerPool) → IsLive p → IsLive (restart_slot s p)
unfolding restart_slot
restart_slot-IsLive s p v = record {
  accounts = v.accounts;
  queue_below = v.queue_below;
  objects_below = v.objects_below;
}

answer_pending-IsLive :
    (w : ℕ) (s : WorkerSlot) (m : WorkerMessage) (p : RequestWorkerPool)
    → m.id < p.next_id
    → IsLive p
    → IsLive (answer_pending w s m p)
unfolding answer_pending
answer_pending-IsLive w s m p h v = elim (Bool-cases (m.needs_restart || s.retiring)) [
  | inl again ↦
      rw again
        (restart_slot-IsLive (record s { pending = none }) _ (finish-IsLive w s m.id _ p h v))
  | inr keep ↦
      rw keep
        (drain_queue-IsLive w (record s { pending = none }) _ (finish-IsLive w s m.id _ p h v))
]

pub get_elem?-Below :
    (p : RequestWorkerPool) (w : ℕ) (s : WorkerSlot) (d : PendingDispatch)
    → IsLive p
    → get_elem? p.objects w ≡ some s
    → s.pending ≡ some d
    → d.id < p.next_id
get_elem?-Below p w s d v e f =
    let h = All-get_elem? (PendingBelow p.next_id) p.objects w s v.objects_below e in
    subst (λ o. elim o [ none ↦ Unit {0} | some d ↦ d.id < p.next_id ]) f h

pub on_worker_message-IsLive :
    (w : ℕ) (m : WorkerMessage) (p : RequestWorkerPool)
    → IsLive p
    → IsLive (on_worker_message w m p)
unfolding on_worker_message
on_worker_message-IsLive w m p v = elim (Option-cases (get_elem? p.objects w)) [
  | inl e ↦ rw (e, on_worker_message) v
  | inr (s, e) ↦ elim (Option-cases s.pending) [
    | inl f ↦ rw (e, on_worker_message) (rw (f, on_worker_message) v)
    | inr (d, f) ↦ elim (Bool-cases (d.id == m.id)) [
      | inl same ↦
          let below = get_elem?-Below p w s d v e f in
          let h : m.id < p.next_id = ground (arith, below) in
          rw (e, on_worker_message)
            (rw (f, on_worker_message) (rw same (answer_pending-IsLive w s m p h v)))
      | inr stale ↦ rw (e, on_worker_message) (rw (f, on_worker_message) (rw stale v))
    ]
  ]
]

pub handle_worker_crash-IsLive :
    (w : ℕ) (p : RequestWorkerPool) → IsLive p → IsLive (handle_worker_crash w p)
unfolding handle_worker_crash
handle_worker_crash-IsLive w p v = elim (Option-cases (get_elem? p.objects w)) [
  | inl e ↦ rw (e, handle_worker_crash) v
  | inr (s, e) ↦ elim (Option-cases s.pending) [
    | inl f ↦ rw (e, handle_worker_crash) (rw (f, handle_worker_crash) (restart_slot-IsLive s p v))
    | inr (d, f) ↦
        rw (e, handle_worker_crash)
          (rw (f, handle_worker_crash)
            (restart_slot-IsLive (record s { pending = none }) _
              (finish-IsLive w s d.id _ p (get_elem?-Below p w s d v e f) v)))
  ]
]
