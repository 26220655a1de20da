-- ===== src/RequestPool/Events/Bounds.antt =====
-- The wait queue of the pool stays within its limit.
use clean_node_server.Common.{
  true, ℕ, suc, ◌≤◌, ◌≡◌, refl, List, [], ◌∷◌, arith, length, length-append,
}
use clean_node_server.RequestPool.{
  RequestWorkerPool, PendingDispatch, WorkerSlot, WorkerMessage, remove, initialize, drain_queue,
  on_worker_message, handle_worker_crash,
}
use clean_node_server.RequestPool.Events.{
  new_dispatch, close_done, recreate_failed, recreated, retry, create_failed, created, terminated,
  Event, dispatches, answers, crashes, elapses, terminates, creates, create_fails, retries,
  recreates, recreate_fails, closes, closing_ends, schedule, dispatch, unqueue, elapse, install,
  reject_all, close, step, run,
}

length-unqueue-le : (id : ℕ) (ds : List PendingDispatch) → length (unqueue id ds) ≤ length ds
unfolding unqueue
length-unqueue-le id [] = omega arith
length-unqueue-le id (d ∷ ds) = ground (arith, length-unqueue-le id ds)

reject_all-max :
    (ds : List PendingDispatch) (p : RequestWorkerPool)
    → (reject_all ds p).max_queue_size ≡ p.max_queue_size
unfolding reject_all
reject_all-max [] p = refl
reject_all-max (d ∷ ds) p = reject_all-max ds _

module _ (limit : ℕ) where
  abbrev Fits : RequestWorkerPool → Type 0
  Fits p = (p.max_queue_size ≡ limit) × (length p.queue ≤ limit)

  drain_queue-Fits :
      (w : ℕ) (s : WorkerSlot) (p : RequestWorkerPool) → Fits p → Fits (drain_queue w s p)
  unfolding drain_queue
  drain_queue-Fits w s p h = ground arith

  on_worker_message-Fits :
      (w : ℕ) (m : WorkerMessage) (p : RequestWorkerPool) → Fits p → Fits (on_worker_message w m p)
  unfolding on_worker_message
  on_worker_message-Fits w m p h = ground arith

  handle_worker_crash-Fits :
      (w : ℕ) (p : RequestWorkerPool) → Fits p → Fits (handle_worker_crash w p)
  unfolding handle_worker_crash
  handle_worker_crash-Fits w p h = ground arith

  schedule-Fits : (d : PendingDispatch) (p : RequestWorkerPool) → Fits p → Fits (schedule d p)
  unfolding schedule
  schedule-Fits d p h = ground (arith, length-append p.queue (d ∷ []))

  elapse-Fits : (id : ℕ) (p : RequestWorkerPool) → Fits p → Fits (elapse id p)
  unfolding elapse
  elapse-Fits id p h = ground (arith, length-unqueue-le id p.queue)

  install-Fits : (i : ℕ) (p : RequestWorkerPool) → Fits p → Fits (install i p)
  unfolding install
  install-Fits i p h = ground arith

  close-Fits : (p : RequestWorkerPool) → Fits p → Fits (close p)
  unfolding close
  close-Fits p h = ground (arith, reject_all-max p.queue (record p { closed = true }))

  step-Fits : (p : RequestWorkerPool) (e : Event) → Fits p → Fits (step p e)
  unfolding step dispatch terminated new_dispatch created create_failed retry recreated
      recreate_failed close_done
  step-Fits p (dispatches context handler) h = ground (
    arith,
    schedule-Fits (new_dispatch p.next_id context handler) (record p { next_id = suc p.next_id }) h,
  )
  step-Fits p (answers w m) h = on_worker_message-Fits w m p h
  step-Fits p (crashes w) h = handle_worker_crash-Fits w p h
  step-Fits p (elapses id) h = elapse-Fits id p h
  step-Fits p (terminates i) h = ground arith
  step-Fits p (creates i) h =
      ground (arith, install-Fits i (record p { creating = remove i p.creating }) h)
  step-Fits p (create_fails i) h = ground arith
  step-Fits p (retries i) h = ground arith
  step-Fits p (recreates i) h =
      ground (arith, install-Fits i (record p { recreating = remove i p.recreating }) h)
  step-Fits p (recreate_fails i) h = h
  step-Fits p closes h = close-Fits p h
  step-Fits p closing_ends h = ground arith

  run-Fits : (p : RequestWorkerPool) (es : List Event) → Fits p → Fits (run p es)
  unfolding run
  run-Fits p [] h = h
  run-Fits p (e ∷ es) h = run-Fits (step p e) es (step-Fits p e h)

-- Whatever happens to a pool, no more requests wait than the limit that it was made with.
pub run-initialize-Fits :
    (size limit : ℕ) (es : List Event) → length (run (initialize size limit) es).queue ≤ limit
unfolding initialize
run-initialize-Fits size limit es =
    (run-Fits limit (initialize size limit) es (refl, omega arith)).1
