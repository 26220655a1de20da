-- ===== src/RequestPool/Events/Busy.antt =====
-- No worker of the pool stays idle while a request waits.
pub mod Answers
use mathlib.Core.List.{append_assoc}
use clean_node_server.Common.{
  length-append, subst, elem, String, leb, ◌∙◌, ◌==◌, ◌||◌, set-set, if_cases, get_elem?-set_self,
  Option-cases, inr, inl, true, false, ◌⊎◌, ℕ, zero, suc, ◌≡◌, refl, List, [], ◌∷◌, ◌++◌, Option,
  none, some, arith, length, get_elem?, set, nat_eq,
}
use clean_node_server.RequestPool.{
  start_refs, runs, start_slots, assign, RequestContext, answer_pending, restart_slot,
  on_worker_message, idle_slot, handle_worker_crash, finish, drain_from, find_slot, is_free,
  drain_queue, RequestWorkerPool, PendingDispatch, WorkerSlot, WorkerMessage, Outcome, initialize,
}
use clean_node_server.RequestPool.Events.{
  new_dispatch, close_done, recreate_failed, recreated, retry, queued, create_failed, created,
  terminated, send, retire, expire, find_free, Event, dispatches, answers, crashes, elapses,
  terminates, creates, create_fails, retries, recreates, recreate_fails, closes, closing_ends,
  schedule, dispatch, elapse, install, reject_all, close, step, run,
}
use clean_node_server.RequestPool.Events.Placing.{
  get_elem?-middle, find_slot-append, find_slot-set, find_slot-assign-some, Placed-assign-some,
  get_elem?-lt, find_slot-restart, find_slot-assign-none, Placed-append, get_elem?-last,
  Placed-assign-none, Placed-set, Placed,
}
use clean_node_server.RequestPool.Events.Busy.Answers.{
  IsBusy, on_worker_message-IsBusy, handle_worker_crash-IsBusy, install-IsBusy,
}

send-IsBusy : (w : ℕ) (d : PendingDispatch) (p : RequestWorkerPool) → IsBusy p → IsBusy (send w d p)
unfolding send find_free is_free
send-IsBusy w d p v = elim (Option-cases (get_elem? p.objects w)) [
  | inl e ↦ rw (e, send) v
  | inr (s, e) ↦
      rw (e, send)
        (record {
          placed =
              Placed-set p.objects w s (record s { pending = some d }) e refl 0 p.slots v.placed;
          busy = elim v.busy [
            | inl g ↦ inl g
            | inr g ↦ inr (find_slot-set p.objects w s _ e is_free refl p.slots g)
          ];
        })
]

-- `schedule` reads neither the counter nor the timers.
schedule-IsBusy : (d : PendingDispatch) (p : RequestWorkerPool) → IsBusy p → IsBusy (schedule d p)
unfolding schedule find_free
schedule-IsBusy d p v = elim (Option-cases (find_free p)) [
  | inl e ↦
      rw (e, schedule)
        (if_cases IsBusy (leb p.max_queue_size (length p.queue)) _ _
          (λ _. record { placed = v.placed; busy = v.busy })
          (λ _. record { placed = v.placed; busy = inr e }))
  | inr (w, e) ↦ rw (e, schedule) (send-IsBusy w d _ (record { placed = v.placed; busy = v.busy }))
]

dispatch-IsBusy :
    (context : RequestContext) (handler : String) (p : RequestWorkerPool)
    → IsBusy p
    → IsBusy (dispatch context handler p).0
unfolding dispatch new_dispatch find_free
dispatch-IsBusy context handler p v =
    if_cases (λ (q : RequestWorkerPool × Option ℕ). IsBusy q.0) p.closed _ _ (λ _. v)
      (λ _.
        schedule-IsBusy (new_dispatch p.next_id context handler)
          (record p { next_id = suc p.next_id }) (record { placed = v.placed; busy = v.busy }))

pub retire-found :
    (id : ℕ) (refs : List (Option ℕ)) (ss : List WorkerSlot)
    → (retire id refs ss ≡ ss)
      ⊎ ((w : ℕ) × (s : WorkerSlot) × (get_elem? ss w ≡ some s)
          × (retire id refs ss ≡ set ss w (record s { retiring = true })))
unfolding retire
retire-found id refs ss = elim (Option-cases (find_slot (runs id) ss refs)) [
  | inl e ↦ inl (rw (e, retire))
  | inr (w, e) ↦ elim (Option-cases (get_elem? ss w)) [
    | inl f ↦ inl (rw (e, retire) (rw (f, retire)))
    | inr (s, f) ↦ inr (w, s, f, rw (e, retire) (rw (f, retire)))
  ]
]

retire-Placed :
    (id : ℕ) (refs : List (Option ℕ)) (ss : List WorkerSlot)
    → Placed ss 0 refs
    → Placed (retire id refs ss) 0 refs
retire-Placed id refs ss p = elim (retire-found id refs ss) [
  | inl e ↦ rw e p
  | inr (w, s, e, f) ↦ rw f (Placed-set ss w s (record s { retiring = true }) e refl 0 refs p)
]

find_slot-retire :
    (id : ℕ) (refs : List (Option ℕ)) (ss : List WorkerSlot)
    → find_slot is_free ss refs ≡ none
    → find_slot is_free (retire id refs ss) refs ≡ none
unfolding is_free
find_slot-retire id refs ss g = elim (retire-found id refs ss) [
  | inl e ↦ rw e g
  | inr (w, s, e, f) ↦
      rw f (find_slot-set ss w s (record s { retiring = true }) e is_free (ground arith) refs g)
]

elapse-IsBusy : (id : ℕ) (p : RequestWorkerPool) → IsBusy p → IsBusy (elapse id p)
unfolding elapse expire find_free
elapse-IsBusy id p v =
    if_cases IsBusy (elem id p.timers) _ _
      (λ _.
        if_cases IsBusy (queued id p.queue) _ _
          (λ _. record {
            placed = v.placed;
            busy = elim v.busy [ inl g ↦ inl (rw g) | inr g ↦ inr g ];
          })
          (λ _. record {
            placed = retire-Placed id p.slots p.objects v.placed;
            busy = elim v.busy [
              | inl g ↦ inl g
              | inr g ↦ inr (find_slot-retire id p.slots p.objects g)
            ];
          }))
      (λ _. v)

reject_all-Placed :
    (ds : List PendingDispatch) (p : RequestWorkerPool)
    → Placed p.objects 0 p.slots
    → Placed (reject_all ds p).objects 0 (reject_all ds p).slots
unfolding reject_all
reject_all-Placed [] p h = h
reject_all-Placed (d ∷ ds) p h = reject_all-Placed ds _ h

empty_slot-IsBusy :
    (i : ℕ) (p : RequestWorkerPool) → IsBusy p → IsBusy (record p { slots = assign i none p.slots })
unfolding find_free
empty_slot-IsBusy i p v = record {
  placed = Placed-assign-none p.objects 0 i p.slots v.placed;
  busy = elim v.busy [
    | inl g ↦ inl g
    | inr g ↦ inr (find_slot-assign-none p.objects is_free i p.slots g)
  ];
}

pub step-IsBusy : (p : RequestWorkerPool) (e : Event) → IsBusy p → IsBusy (step p e)
unfolding step terminated created create_failed retry recreated recreate_failed close close_done
    find_free find_slot
step-IsBusy p (dispatches context handler) v = dispatch-IsBusy context handler p v
step-IsBusy p (answers w m) v = on_worker_message-IsBusy w m p v
step-IsBusy p (crashes w) v = handle_worker_crash-IsBusy w p v
step-IsBusy p (elapses id) v = elapse-IsBusy id p v
step-IsBusy p (terminates i) v =
    if_cases IsBusy (elem i p.terminating) _ _ (λ _. record { placed = v.placed; busy = v.busy })
      (λ _. v)
step-IsBusy p (creates i) v =
    if_cases IsBusy (elem i p.creating) _ _
      (λ _. install-IsBusy i _ (record { placed = v.placed; busy = v.busy })) (λ _. v)
step-IsBusy p (create_fails i) v =
    if_cases IsBusy (elem i p.creating) _ _
      (λ _. let u = empty_slot-IsBusy i p v in record { placed = u.placed; busy = u.busy }) (λ _. v)
step-IsBusy p (retries i) v =
    if_cases IsBusy (elem i p.retry_timers) _ _ (λ _. record { placed = v.placed; busy = v.busy })
      (λ _. v)
step-IsBusy p (recreates i) v =
    if_cases IsBusy (elem i p.recreating) _ _
      (λ _. install-IsBusy i _ (record { placed = v.placed; busy = v.busy })) (λ _. v)
step-IsBusy p (recreate_fails i) v = record { placed = v.placed; busy = v.busy }
step-IsBusy p closes v = record {
  placed = reject_all-Placed p.queue (record p { closed = true }) v.placed;
  busy = inl refl;
}
step-IsBusy p closing_ends v =
    if_cases IsBusy p.closed _ _ (λ _. record { placed = tt; busy = inr refl }) (λ _. v)

run-IsBusy : (p : RequestWorkerPool) (es : List Event) → IsBusy p → IsBusy (run p es)
unfolding run
run-IsBusy p [] v = v
run-IsBusy p (e ∷ es) v = run-IsBusy (step p e) es (step-IsBusy p e v)

start-Placed :
    (before : List WorkerSlot) (i n : ℕ)
    → length before ≡ i
    → Placed (before ++ start_slots i n) i (start_refs i n)
unfolding start_slots start_refs idle_slot
start-Placed before i zero e = tt
start-Placed before i (suc n) e = (
  (idle_slot i, here, refl),
  subst (λ ss. Placed ss (suc i) (start_refs (suc i) n))
      (append_assoc before (idle_slot i ∷ []) (start_slots (suc i) n))
      (start-Placed (before ++ idle_slot i ∷ []) (suc i) n
        (omega (arith, e, length-append before (idle_slot i ∷ [])))),
)
  where
    here : get_elem? (before ++ idle_slot i ∷ start_slots (suc i) n) i ≡ some (idle_slot i)
    here =
        rw (← e) (
          get_elem?-middle before (idle_slot (length before)) (start_slots (suc (length before)) n))

pub initialize-IsBusy : (size limit : ℕ) → IsBusy (initialize size limit)
unfolding initialize
initialize-IsBusy size limit = record { placed = start-Placed [] 0 size refl; busy = inl refl }

-- After any events, requests wait in the queue only while no worker is free, and each slot holds
-- nothing or a worker that was made for it.
pub run-initialize-IsBusy :
    (size limit : ℕ) (es : List Event) → IsBusy (run (initialize size limit) es)
run-initialize-IsBusy size limit es = run-IsBusy _ es (initialize-IsBusy size limit)
