-- ===== src/RequestPool/Events/Progress.antt =====
-- No request of the pool is forgotten: its promise is settled, or its timer is armed and will do it.
pub mod Answers
use clean_node_server.RequestPool.Events.Accounts.{
  has-settle, Accounts-arm, Accounts-refuse, PendingBelow-suc, unqueue-Below, Below-suc,
  PendingBelow, Below, Accounts-settle, Accounts,
}
use clean_node_server.Common.{
  true, All-append, length, leb, if_cases, String, subst, Option-cases, All-get_elem?, get_elem?,
  inr, All-set, inl, not, ◌&&◌, Bool-cases, ◌||◌, ◌==◌, ltb, ℕ, zero, suc, ◌<◌, ◌≡◌, refl, List, [],
  ◌∷◌, Option, none, some, arith, elem, All, nat_eq,
}
use clean_node_server.Common.Assoc
use clean_node_server.RequestPool.{
  timed_out, timed_out_queued, rejected, runs, find_slot, idle_slot, handle_worker_crash,
  RequestContext, on_worker_message, is_free, drain_from, start_slots, restart_slot, finish,
  drain_queue, answer_pending, RequestWorkerPool, PendingDispatch, WorkerSlot, WorkerMessage,
  Outcome, initialize,
}
use clean_node_server.RequestPool.Events.{
  close_done, recreate_failed, recreated, retry, create_failed, queued, created, terminated, send,
  retire, expire, new_dispatch, find_free, Event, dispatches, answers, crashes, elapses, terminates,
  creates, create_fails, retries, recreates, recreate_fails, closes, closing_ends, schedule,
  dispatch, elapse, install, reject_all, close, step, run,
}
use clean_node_server.RequestPool.Events.Progress.Answers.{
  IsLive, initialize-IsLive, drain_queue-IsLive, get_elem?-Below, on_worker_message-IsLive,
  handle_worker_crash-IsLive,
}

send-IsLive :
    (w : ℕ) (d : PendingDispatch) (p : RequestWorkerPool)
    → d.id < p.next_id
    → IsLive p
    → IsLive (send w d p)
unfolding send
send-IsLive w d p h v = elim (Option-cases (get_elem? p.objects w)) [
  | inl e ↦ rw (e, send) v
  | inr (s, e) ↦
      rw (e, send)
        (record {
          accounts = v.accounts;
          queue_below = v.queue_below;
          objects_below = All-set (PendingBelow p.next_id) p.objects w _ v.objects_below h;
        })
]

schedule-IsLive :
    (d : PendingDispatch) (p : RequestWorkerPool)
    → d.id ≡ p.next_id
    → IsLive p
    → IsLive (schedule d (record p { next_id = suc p.next_id }))
unfolding schedule
schedule-IsLive d p e v = elim (Option-cases (find_free p)) [
  | inl f ↦
      rw (f, schedule)
        (if_cases IsLive (leb p.max_queue_size (length p.queue)) _ _
          (λ _. record {
            accounts = rw e (Accounts-refuse p.timers p.settled p.next_id v.accounts _);
            queue_below = queue;
            objects_below = objects;
          })
          (λ _. record {
            accounts = rw e (Accounts-arm p.timers p.settled p.next_id v.accounts);
            queue_below = All-append (Below (suc p.next_id)) p.queue (d ∷ []) queue (here, tt);
            objects_below = objects;
          }))
  | inr (w, f) ↦
      rw (f, schedule)
        (send-IsLive w d _ here (record {
          accounts = rw e (Accounts-arm p.timers p.settled p.next_id v.accounts);
          queue_below = queue;
          objects_below = objects;
        }))
]
  where
    queue : All (Below (suc p.next_id)) p.queue
    queue = Below-suc p.next_id p.queue v.queue_below

    objects : All (PendingBelow (suc p.next_id)) p.objects
    objects = PendingBelow-suc p.next_id p.objects v.objects_below

    here : d.id < suc p.next_id
    here = omega arith

dispatch-IsLive :
    (context : RequestContext) (handler : String) (p : RequestWorkerPool)
    → IsLive p
    → IsLive (dispatch context handler p).0
unfolding dispatch new_dispatch
dispatch-IsLive context handler p v =
    if_cases (λ (q : RequestWorkerPool × Option ℕ). IsLive q.0) p.closed _ _ (λ _. v)
      (λ _. schedule-IsLive (new_dispatch p.next_id context handler) p refl v)

pub retire-Below :
    (n id : ℕ) (refs : List (Option ℕ)) (ss : List WorkerSlot)
    → All (PendingBelow n) ss
    → All (PendingBelow n) (retire id refs ss)
unfolding retire
retire-Below n id refs ss h = elim (Option-cases (find_slot (runs id) ss refs)) [
  | inl e ↦ rw (e, retire) h
  | inr (w, e) ↦ elim (Option-cases (get_elem? ss w)) [
    | inl f ↦ rw (e, retire) (rw (f, retire) h)
    | inr (s, f) ↦
        rw (e, retire)
          (rw (f, retire)
            (All-set (PendingBelow n) ss w _ h (All-get_elem? (PendingBelow n) ss w s h f)))
  ]
]

expire-IsLive : (id : ℕ) (p : RequestWorkerPool) → id < p.next_id → IsLive p → IsLive (expire id p)
unfolding expire
expire-IsLive id p h v =
    if_cases IsLive (queued id p.queue) _ _
      (λ _. record {
        accounts = Accounts-settle p.timers p.settled p.next_id v.accounts id _ h;
        queue_below = unqueue-Below p.next_id id p.queue v.queue_below;
        objects_below = v.objects_below;
      })
      (λ _. record {
        accounts = Accounts-settle p.timers p.settled p.next_id v.accounts id _ h;
        queue_below = v.queue_below;
        objects_below = retire-Below p.next_id id p.slots p.objects v.objects_below;
      })

elapse-IsLive : (id : ℕ) (p : RequestWorkerPool) → IsLive p → IsLive (elapse id p)
unfolding elapse
elapse-IsLive id p v =
    if_cases IsLive (elem id p.timers) _ _
      (λ armed. expire-IsLive id p (ground (arith, v.accounts.timed id)) v) (λ _. v)

install-IsLive : (i : ℕ) (p : RequestWorkerPool) → IsLive p → IsLive (install i p)
unfolding install idle_slot
install-IsLive i p v = drain_queue-IsLive (length p.objects) (idle_slot i) _ (record {
  accounts = v.accounts;
  queue_below = v.queue_below;
  objects_below =
      All-append (PendingBelow p.next_id) p.objects (idle_slot i ∷ []) v.objects_below (tt, tt);
})

reject_all-IsLive :
    (ds : List PendingDispatch) (p : RequestWorkerPool)
    → All (Below p.next_id) ds
    → IsLive p
    → IsLive (reject_all ds p)
unfolding reject_all
reject_all-IsLive [] p h v = v
reject_all-IsLive (d ∷ ds) p h v = reject_all-IsLive ds _ h.1 (record {
  accounts = Accounts-settle p.timers p.settled p.next_id v.accounts d.id _ h.0;
  queue_below = v.queue_below;
  objects_below = v.objects_below;
})

close-IsLive : (p : RequestWorkerPool) → IsLive p → IsLive (close p)
unfolding close
close-IsLive p v =
    let u =
      reject_all-IsLive p.queue (record p { closed = true }) v.queue_below
        (record {
          accounts = v.accounts;
          queue_below = v.queue_below;
          objects_below = v.objects_below;
        }) in
    record { accounts = u.accounts; queue_below = tt; objects_below = u.objects_below }

pub step-IsLive : (p : RequestWorkerPool) (e : Event) → IsLive p → IsLive (step p e)
unfolding step terminated created create_failed retry recreated recreate_failed close_done
step-IsLive p (dispatches context handler) v = dispatch-IsLive context handler p v
step-IsLive p (answers w m) v = on_worker_message-IsLive w m p v
step-IsLive p (crashes w) v = handle_worker_crash-IsLive w p v
step-IsLive p (elapses id) v = elapse-IsLive id p v
step-IsLive p (terminates i) v =
    if_cases IsLive (elem i p.terminating) _ _
      (λ _. record {
        accounts = v.accounts;
        queue_below = v.queue_below;
        objects_below = v.objects_below;
      })
      (λ _. v)
step-IsLive p (creates i) v =
    if_cases IsLive (elem i p.creating) _ _
      (λ _. install-IsLive i _ (record {
        accounts = v.accounts;
        queue_below = v.queue_below;
        objects_below = v.objects_below;
      }))
      (λ _. v)
step-IsLive p (create_fails i) v =
    if_cases IsLive (elem i p.creating) _ _
      (λ _. record {
        accounts = v.accounts;
        queue_below = v.queue_below;
        objects_below = v.objects_below;
      })
      (λ _. v)
step-IsLive p (retries i) v =
    if_cases IsLive (elem i p.retry_timers) _ _
      (λ _. record {
        accounts = v.accounts;
        queue_below = v.queue_below;
        objects_below = v.objects_below;
      })
      (λ _. v)
step-IsLive p (recreates i) v =
    if_cases IsLive (elem i p.recreating) _ _
      (λ _. install-IsLive i _ (record {
        accounts = v.accounts;
        queue_below = v.queue_below;
        objects_below = v.objects_below;
      }))
      (λ _. v)
step-IsLive p (recreate_fails i) v = record {
  accounts = v.accounts;
  queue_below = v.queue_below;
  objects_below = v.objects_below;
}
step-IsLive p closes v = close-IsLive p v
step-IsLive p closing_ends v =
    if_cases IsLive p.closed _ _
      (λ _. record {
        accounts = v.accounts;
        queue_below = v.queue_below;
        objects_below = v.objects_below;
      })
      (λ _. v)

pub run-IsLive : (p : RequestWorkerPool) (es : List Event) → IsLive p → IsLive (run p es)
unfolding run
run-IsLive p [] v = v
run-IsLive p (e ∷ es) v = run-IsLive (step p e) es (step-IsLive p e v)

-- After any events, the timers that are armed are exactly those of the requests that have been
-- made and whose promise is not settled.
pub run-initialize-timers :
    (size limit : ℕ) (es : List Event) (id : ℕ)
    → let p = run (initialize size limit) es in
      elem id p.timers ≡ (ltb id p.next_id && not (Assoc.has id p.settled))
run-initialize-timers size limit es id =
    (run-IsLive _ es (initialize-IsLive size limit)).accounts.timed id

-- After any events, once the timer of a request that has been made goes off, its promise is settled.
pub run-elapse-settled :
    (size limit : ℕ) (es : List Event) (id : ℕ)
    → id < (run (initialize size limit) es).next_id
    → Assoc.has id (step (run (initialize size limit) es) (elapses id)).settled ≡ true
unfolding step elapse expire
run-elapse-settled size limit es id h =
    let p = run (initialize size limit) es in
    ground (
      arith,
      run-initialize-timers size limit es id,
      has-settle id id (rejected (timed_out_queued id)) p.settled,
      has-settle id id (rejected (timed_out id)) p.settled,
    )
