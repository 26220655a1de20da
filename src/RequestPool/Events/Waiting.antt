-- ===== src/RequestPool/Events/Waiting.antt =====
-- The requests that wait: in the order in which they were made, behind all that run, none settled.
pub mod Answers
use native.Mathlib.Decide.{dec_le}
use clean_node_server.Common.{
  String, leb, elem, All-append, nat_beq_iff, ◌||◌, inr, All-set, sym, All-get_elem?, ◌==◌, subst,
  inl, if_cases, false, Option-cases, ℕ, zero, suc, ◌<◌, ◌≤◌, ◌≡◌, refl, List, [], ◌∷◌, ◌++◌,
  Option, none, some, arith, length, get_elem?, nat_eq, All,
}
use clean_node_server.Common.Assoc
use clean_node_server.RequestPool.{
  RequestContext, start_slots, idle_slot, outcome_of, answer_pending, restart_slot,
  on_worker_message, handle_worker_crash, is_free, drain_from, settle, finish, drain_queue,
  RequestWorkerPool, PendingDispatch, WorkerSlot, WorkerMessage, Outcome, initialize,
}
use clean_node_server.RequestPool.Events.{
  close_done, recreate_failed, recreated, retry, create_failed, created, terminated, new_dispatch,
  find_free, expire, send, queued, Event, dispatches, answers, crashes, elapses, terminates,
  creates, create_fails, retries, recreates, recreate_fails, closes, closing_ends, schedule,
  dispatch, unqueue, elapse, install, reject_all, close, step, run,
}
use clean_node_server.RequestPool.Events.Accounts.{PendingBelow, Below, has-settle}
use clean_node_server.RequestPool.Events.Progress.{retire-Below, step-IsLive}
use clean_node_server.RequestPool.Events.Progress.Answers.{initialize-IsLive, IsLive}
use clean_node_server.RequestPool.Events.Busy.{step-IsBusy, initialize-IsBusy}
use clean_node_server.RequestPool.Events.Busy.Answers.{IsBusy}
use clean_node_server.RequestPool.Events.Waiting.Answers.{
  Unsettled-unqueued, Unsettled-unqueue, Unsettled-settle, Ascending, Unsettled, Ascending-le,
  Ascending-append, Unsettled-append, Ascending-unqueue, InOrder, PendingBelow-le,
  drain_queue-InOrder, on_worker_message-InOrder, handle_worker_crash-InOrder,
}

send-InOrder :
    (w : ℕ) (d : PendingDispatch) (p : RequestWorkerPool)
    → p.queue ≡ []
    → All (PendingBelow (suc d.id)) p.objects
    → InOrder (send w d p)
unfolding send
send-InOrder w d p e h = elim (Option-cases (get_elem? p.objects w)) [
  | inl f ↦
      rw (f, send)
        (record {
          from = suc d.id;
          running = h;
          ascending = subst (Ascending (suc d.id)) (sym e) tt;
          unsettled = subst (Unsettled p.settled) (sym e) tt;
        })
  | inr (s, f) ↦
      rw (f, send)
        (record {
          from = suc d.id;
          running = All-set (PendingBelow (suc d.id)) p.objects w _ h (omega arith);
          ascending = subst (Ascending (suc d.id)) (sym e) tt;
          unsettled = subst (Unsettled p.settled) (sym e) tt;
        })
]

-- The counter bounds every number in sight, so `from` may be taken to be at most the counter.
bounded : (p : RequestWorkerPool) → IsLive p → InOrder p → (v : InOrder p) × (v.from ≤ p.next_id)
bounded p live v = elim (dec_le v.from p.next_id) [
  | yes h ↦ (v, h)
  | no h ↦ (
    record {
      from = p.next_id;
      running = live.objects_below;
      ascending = Ascending-le p.next_id v.from p.queue (omega arith) v.ascending;
      unsettled = v.unsettled;
    },
    omega arith,
  )
]

Unsettled-new :
    (n : ℕ) (o : Outcome) (done : List (ℕ × Outcome)) (ds : List PendingDispatch)
    → All (Below n) ds
    → Unsettled done ds
    → Unsettled (settle n o done) ds
Unsettled-new n o done [] h u = tt
Unsettled-new n o done (d ∷ ds) (b, bs) (g, u) =
    (ground (arith, has-settle n d.id o done), Unsettled-new n o done ds bs u)

schedule-InOrder :
    (d : PendingDispatch) (p : RequestWorkerPool)
    → d.id ≡ p.next_id
    → IsLive p
    → IsBusy p
    → InOrder p
    → InOrder (schedule d (record p { next_id = suc p.next_id }))
unfolding schedule find_free
schedule-InOrder d p e live busy v = elim (Option-cases (find_free p)) [
  | inl f ↦
      let (u, h) = bounded p live v in
      rw (f, schedule)
        (if_cases InOrder (leb p.max_queue_size (length p.queue)) _ _
          (λ _. record {
            from = v.from;
            running = v.running;
            ascending = v.ascending;
            unsettled =
                rw e (Unsettled-new p.next_id _ p.settled p.queue live.queue_below v.unsettled);
          })
          (λ _. record {
            from = u.from;
            running = u.running;
            ascending =
                Ascending-append u.from p.next_id d p.queue h e live.queue_below u.ascending;
            unsettled = Unsettled-append p.settled d p.queue new u.unsettled;
          }))
  | inr (w, f) ↦
      rw (f, schedule)
        (send-InOrder w d _ (idle w f)
          (PendingBelow-le p.next_id (suc d.id) p.objects (omega arith) live.objects_below))
]
  where
    new : Assoc.has d.id p.settled ≡ false
    new = ground (arith, live.accounts.made d.id)

    idle : (w : ℕ) → find_free p ≡ some w → p.queue ≡ []
    idle w f = elim busy.busy [ inl g ↦ g | inr g ↦ cc ]

dispatch-InOrder :
    (context : RequestContext) (handler : String) (p : RequestWorkerPool)
    → IsLive p
    → IsBusy p
    → InOrder p
    → InOrder (dispatch context handler p).0
unfolding dispatch new_dispatch
dispatch-InOrder context handler p live busy v =
    if_cases (λ (q : RequestWorkerPool × Option ℕ). InOrder q.0) p.closed _ _ (λ _. v)
      (λ _. schedule-InOrder (new_dispatch p.next_id context handler) p refl live busy v)

elapse-InOrder : (id : ℕ) (p : RequestWorkerPool) → InOrder p → InOrder (elapse id p)
unfolding elapse expire
elapse-InOrder id p v =
    if_cases InOrder (elem id p.timers) _ _
      (λ _.
        if_cases InOrder (queued id p.queue) _ _
          (λ _. record {
            from = v.from;
            running = v.running;
            ascending = Ascending-unqueue id v.from p.queue v.ascending;
            unsettled = Unsettled-unqueue id _ p.settled v.from p.queue v.ascending v.unsettled;
          })
          (λ h. record {
            from = v.from;
            running = retire-Below v.from id p.slots p.objects v.running;
            ascending = v.ascending;
            unsettled = Unsettled-unqueued id _ p.settled p.queue h v.unsettled;
          }))
      (λ _. v)

install-InOrder : (i : ℕ) (p : RequestWorkerPool) → InOrder p → InOrder (install i p)
unfolding install idle_slot
install-InOrder i p v = drain_queue-InOrder (length p.objects) (idle_slot i) _ (record {
  from = v.from;
  running = All-append (PendingBelow v.from) p.objects (idle_slot i ∷ []) v.running (tt, tt);
  ascending = v.ascending;
  unsettled = v.unsettled;
})

pub reject_all-objects :
    (ds : List PendingDispatch) (p : RequestWorkerPool) → (reject_all ds p).objects ≡ p.objects
unfolding reject_all
reject_all-objects [] p = refl
reject_all-objects (d ∷ ds) p = reject_all-objects ds _

close-InOrder : (p : RequestWorkerPool) → InOrder p → InOrder (close p)
unfolding close
close-InOrder p v = record {
  from = v.from;
  running = subst (All (PendingBelow v.from)) (sym (reject_all-objects p.queue _)) v.running;
  ascending = tt;
  unsettled = tt;
}

step-InOrder :
    (p : RequestWorkerPool) (e : Event) → IsLive p → IsBusy p → InOrder p → InOrder (step p e)
unfolding step terminated created create_failed retry recreated recreate_failed close_done
step-InOrder p (dispatches context handler) l b v = dispatch-InOrder context handler p l b v
step-InOrder p (answers w m) l b v = on_worker_message-InOrder w m p v
step-InOrder p (crashes w) l b v = handle_worker_crash-InOrder w p v
step-InOrder p (elapses id) l b v = elapse-InOrder id p v
step-InOrder p (terminates i) l b v =
    if_cases InOrder (elem i p.terminating) _ _
      (λ _. (record {
        from = v.from;
        running = v.running;
        ascending = v.ascending;
        unsettled = v.unsettled;
      }))
      (λ _. v)
step-InOrder p (creates i) l b v =
    if_cases InOrder (elem i p.creating) _ _
      (λ _. install-InOrder i _ (
        (record {
          from = v.from;
          running = v.running;
          ascending = v.ascending;
          unsettled = v.unsettled;
        })))
      (λ _. v)
step-InOrder p (create_fails i) l b v =
    if_cases InOrder (elem i p.creating) _ _
      (λ _. (record {
        from = v.from;
        running = v.running;
        ascending = v.ascending;
        unsettled = v.unsettled;
      }))
      (λ _. v)
step-InOrder p (retries i) l b v =
    if_cases InOrder (elem i p.retry_timers) _ _
      (λ _. (record {
        from = v.from;
        running = v.running;
        ascending = v.ascending;
        unsettled = v.unsettled;
      }))
      (λ _. v)
step-InOrder p (recreates i) l b v =
    if_cases InOrder (elem i p.recreating) _ _
      (λ _. install-InOrder i _ (
        (record {
          from = v.from;
          running = v.running;
          ascending = v.ascending;
          unsettled = v.unsettled;
        })))
      (λ _. v)
step-InOrder p (recreate_fails i) l b v = (record {
  from = v.from;
  running = v.running;
  ascending = v.ascending;
  unsettled = v.unsettled;
})
step-InOrder p closes l b v = close-InOrder p v
step-InOrder p closing_ends l b v =
    if_cases InOrder p.closed _ _
      (λ _. (record {
        from = v.from;
        running = v.running;
        ascending = v.ascending;
        unsettled = v.unsettled;
      }))
      (λ _. v)

run-InOrder :
    (p : RequestWorkerPool) (es : List Event) → IsLive p → IsBusy p → InOrder p → InOrder (run p es)
unfolding run
run-InOrder p [] l b v = v
run-InOrder p (e ∷ es) l b v =
    run-InOrder (step p e) es (step-IsLive p e l) (step-IsBusy p e b) (step-InOrder p e l b v)

start_slots-PendingBelow : (i n : ℕ) → All (PendingBelow 0) (start_slots i n)
unfolding start_slots idle_slot
start_slots-PendingBelow i zero = tt
start_slots-PendingBelow i (suc n) = (tt, start_slots-PendingBelow (suc i) n)

-- After any events, the requests that wait are unsettled, stand in the order in which they were
-- made, and were made after every request that a worker runs.
pub run-initialize-InOrder :
    (size limit : ℕ) (es : List Event) → InOrder (run (initialize size limit) es)
unfolding initialize
run-initialize-InOrder size limit es =
    run-InOrder _ es (initialize-IsLive size limit) (initialize-IsBusy size limit) (record {
      from = 0;
      running = start_slots-PendingBelow 0 size;
      ascending = tt;
      unsettled = tt;
    })
