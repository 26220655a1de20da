-- ===== src/RequestPool/Events/Closing.antt =====
-- The closing of the pool.
use clean_node_server.RequestPool.Events.Outcomes.{get-settle, settle-get}
use clean_node_server.RequestPool.Events.Waiting.{run-initialize-InOrder}
use clean_node_server.RequestPool.Events.Waiting.Answers.{Unsettled-settle, Unsettled, Ascending}
use clean_node_server.RequestPool.{
  outcome_of, restart_slot, finish, WorkerMessage, on_worker_message, idle_slot,
  handle_worker_crash, answer_pending, shutting_down, rejected, initialize, RequestContext,
  WorkerSlot, send_to_slot, Outcome, drain_from, PendingDispatch, drain_queue, assign,
  RequestWorkerPool,
}
use clean_node_server.RequestPool.Events.{
  recreate_fails, recreates, retries, create_fails, terminates, elapses, crashes, answers,
  dispatches, recreate_failed, recreated, retry, create_failed, terminated, queued, expire, elapse,
  total_workers, count_some, closes, creates, run, closing_ends, install, Event, dispatch, created,
  close_done, close, step, reject_all,
}
use clean_node_server.Common.{
  Option, ◌==◌, inr, inl, ◌||◌, get_elem?, Option-cases, ℕ, zero, suc, ◌≡◌, refl, sym, ap, subst,
  ◌∙◌, String, true, List, [], ◌∷◌, none, some, arith, length, nat_eq, string_eq, if◌then◌else◌,
  if_cases, elem, All,
}
use clean_node_server.Common.Assoc

-- A request that waits is unsettled, so closing settles it.
reject_all-get :
    (id : ℕ) (ds : List PendingDispatch) (p : RequestWorkerPool) {o : Outcome}
    → Assoc.get id p.settled ≡ some o
    → Assoc.get id (reject_all ds p).settled ≡ some o
unfolding reject_all
reject_all-get id [] p e = e
reject_all-get id (d ∷ ds) p e = reject_all-get id ds _ (settle-get d.id id _ p.settled e)

reject_all-All :
    (ds : List PendingDispatch) (lo : ℕ) (p : RequestWorkerPool)
    → Ascending lo ds
    → Unsettled p.settled ds
    → All (λ d. Assoc.get d.id (reject_all ds p).settled ≡ some (rejected shutting_down)) ds
unfolding reject_all
reject_all-All [] lo p a u = tt
reject_all-All (d ∷ ds) lo p (_, a) (g, u) = (
  reject_all-get d.id ds _ (get-settle d.id (rejected shutting_down) p.settled g),
  reject_all-All ds (suc d.id) _ a
      (Unsettled-settle d.id (rejected shutting_down) p.settled (suc d.id) ds (omega arith) a u),
)

reject_all-closed :
    (ds : List PendingDispatch) (p : RequestWorkerPool) → (reject_all ds p).closed ≡ p.closed
unfolding reject_all
reject_all-closed [] p = refl
reject_all-closed (d ∷ ds) p = reject_all-closed ds _

abbrev IsShut : RequestWorkerPool → Type 0
IsShut p = (p.closed ≡ true) × (p.queue ≡ [])

drain_from-IsShut :
    (w : ℕ) (s : WorkerSlot) (p : RequestWorkerPool) → IsShut p → IsShut (drain_from w s p.queue p)
unfolding drain_from
drain_from-IsShut w s p h = subst (λ ds. IsShut (drain_from w s ds p)) (sym h.1) h

answer_pending-IsShut :
    (w : ℕ) (s : WorkerSlot) (m : WorkerMessage) (p : RequestWorkerPool)
    → IsShut p
    → IsShut (answer_pending w s m p)
unfolding answer_pending finish restart_slot drain_queue
answer_pending-IsShut w s m p h =
    if_cases IsShut (m.needs_restart || s.retiring) _ _ (λ _. h)
      (λ _.
        drain_from-IsShut w (record s { pending = none }) (finish w s m.id (outcome_of m.answer) p)
          h)

on_worker_message-IsShut :
    (w : ℕ) (m : WorkerMessage) (p : RequestWorkerPool)
    → IsShut p
    → IsShut (on_worker_message w m p)
unfolding on_worker_message
on_worker_message-IsShut w m p h = elim (Option-cases (get_elem? p.objects w)) [
  | inl e ↦ rw (e, on_worker_message) h
  | inr (s, e) ↦ elim (Option-cases s.pending) [
    | inl f ↦ rw (e, on_worker_message) (rw (f, on_worker_message) h)
    | inr (d, f) ↦
        rw (e, on_worker_message)
          (rw (f, on_worker_message)
            (if_cases IsShut (d.id == m.id) _ _ (λ _. answer_pending-IsShut w s m p h) (λ _. h)))
  ]
]

handle_worker_crash-IsShut :
    (w : ℕ) (p : RequestWorkerPool) → IsShut p → IsShut (handle_worker_crash w p)
unfolding handle_worker_crash finish restart_slot
handle_worker_crash-IsShut w p h = elim (Option-cases (get_elem? p.objects w)) [
  | inl e ↦ rw (e, handle_worker_crash) h
  | inr (s, e) ↦ elim (Option-cases s.pending) [
    | inl f ↦ rw (e, handle_worker_crash) (rw (f, handle_worker_crash) h)
    | inr (d, f) ↦ rw (e, handle_worker_crash) (rw (f, handle_worker_crash) h)
  ]
]

install-IsShut : (i : ℕ) (p : RequestWorkerPool) → IsShut p → IsShut (install i p)
unfolding install drain_queue
install-IsShut i p h = drain_from-IsShut (length p.objects) (idle_slot i) _ h

expire-IsShut : (id : ℕ) (p : RequestWorkerPool) → IsShut p → IsShut (expire id p)
unfolding expire queued
expire-IsShut id p h =
    if_cases IsShut (queued id p.queue) _ _
      (λ e. absurd (let g = sym (ap (queued id) h.1) ∙ e in cc)) (λ _. h)

step-IsShut : (p : RequestWorkerPool) (e : Event) → IsShut p → IsShut (step p e)
unfolding step dispatch elapse terminated created create_failed retry recreated recreate_failed
    close close_done reject_all
step-IsShut p (dispatches context handler) h =
    if_cases (λ (q : RequestWorkerPool × Option ℕ). IsShut q.0) p.closed _ _ (λ _. h)
      (λ e. absurd (let g = sym h.0 ∙ e in cc))
step-IsShut p (answers w m) h = on_worker_message-IsShut w m p h
step-IsShut p (crashes w) h = handle_worker_crash-IsShut w p h
step-IsShut p (elapses id) h =
    if_cases IsShut (elem id p.timers) _ _ (λ _. expire-IsShut id p h) (λ _. h)
step-IsShut p (terminates i) h = if_cases IsShut (elem i p.terminating) _ _ (λ _. h) (λ _. h)
step-IsShut p (creates i) h =
    if_cases IsShut (elem i p.creating) _ _ (λ _. install-IsShut i _ h) (λ _. h)
step-IsShut p (create_fails i) h = if_cases IsShut (elem i p.creating) _ _ (λ _. h) (λ _. h)
step-IsShut p (retries i) h = if_cases IsShut (elem i p.retry_timers) _ _ (λ _. h) (λ _. h)
step-IsShut p (recreates i) h =
    if_cases IsShut (elem i p.recreating) _ _ (λ _. install-IsShut i _ h) (λ _. h)
step-IsShut p (recreate_fails i) h = h
step-IsShut p closes h = (reject_all-closed p.queue (record p { closed = true }), refl)
step-IsShut p closing_ends h = if_cases IsShut p.closed _ _ (λ _. h) (λ _. h)

run-IsShut : (es : List Event) (p : RequestWorkerPool) → IsShut p → IsShut (run p es)
unfolding run
run-IsShut [] p h = h
run-IsShut (e ∷ es) p h = run-IsShut es (step p e) (step-IsShut p e h)

dispatch-IsShut :
    (context : RequestContext) (handler : String) (p : RequestWorkerPool)
    → IsShut p
    → dispatch context handler p ≡ (p, none)
unfolding dispatch
dispatch-IsShut context handler p h = rw (h.0)

-- Closing a pool, whatever has happened to it, rejects each request that waits. From then on, whatever
-- happens, no request waits, and a request is refused with no change of the pool.
pub run-close :
    (size limit : ℕ) (es later : List Event) (context : RequestContext) (handler : String)
    → let p = run (initialize size limit) es in
      let q = run (step p closes) later in
      All (λ d. Assoc.get d.id (step p closes).settled ≡ some (rejected shutting_down)) p.queue
      × (q.queue ≡ [])
      × (dispatch context handler q ≡ (q, none))
unfolding step close
run-close size limit es later context handler =
    let p = run (initialize size limit) es in
    let v = run-initialize-InOrder size limit es in
    let shut : IsShut (run (close p) later) =
      run-IsShut later (close p) (reject_all-closed p.queue (record p { closed = true }), refl) in
    (
      reject_all-All p.queue v.from (record p { closed = true }) v.ascending v.unsettled,
      shut.1,
      dispatch-IsShut context handler (run (close p) later) shut,
    )

count_some-assign : (i w : ℕ) → count_some (assign i (some w) []) ≡ 1
unfolding count_some assign
count_some-assign zero w = refl
count_some-assign (suc i) w = count_some-assign i w

drain_queue-slots :
    (w : ℕ) (s : WorkerSlot) (p : RequestWorkerPool) → (drain_queue w s p).slots ≡ p.slots
unfolding drain_queue drain_from send_to_slot
drain_queue-slots w s p = ground arith

close_done-closed :
    (p : RequestWorkerPool) → p.closed ≡ true → close_done p ≡ record p { slots = [] }
unfolding close_done
close_done-closed p h = ap (λ b. if b then record p { slots = [] } else p) h

total_workers-created :
    (i : ℕ) (p : RequestWorkerPool)
    → elem i p.creating ≡ true
    → p.slots ≡ []
    → total_workers (created i p) ≡ 1
unfolding created install total_workers
total_workers-created i p e f =
    if_cases (λ (q : RequestWorkerPool). count_some q.slots ≡ 1) (elem i p.creating) _ _
      (λ _.
        ap count_some (drain_queue-slots _ _ _ ∙ ap (assign i (some (length p.objects))) f)
        ∙ count_some-assign i (length p.objects))
      (λ g. cc)

-- A worker start that is under way while the pool is closed puts a live worker into the closed
-- pool, which holds none otherwise.
pub total_workers-created_closed :
    (i : ℕ) (p : RequestWorkerPool)
    → p.closed ≡ true
    → elem i p.creating ≡ true
    → (total_workers (step p closing_ends) ≡ 0)
      × (total_workers (step (step p closing_ends) (creates i)) ≡ 1)
unfolding step
total_workers-created_closed i p h e =
    subst (λ q. (total_workers q ≡ 0) × (total_workers (created i q) ≡ 1))
      (sym (close_done-closed p h))
      (total_workers-emptied, total_workers-created i (record p { slots = [] }) e refl)
  where
    total_workers-emptied : total_workers (record p { slots = [] }) ≡ 0
    total_workers-emptied = unfold total_workers count_some in refl
