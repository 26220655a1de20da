-- ===== src/RequestPool/Events.antt =====
-- workers/request-pool.ts: dispatch, the timeouts, restarts, closing, and the pool's event loop.
pub mod Progress
pub mod Bounds
pub mod Placing
pub mod Accounts
pub mod Busy
pub mod Waiting
pub mod Outcomes
pub mod Closing
pub mod Tests
use clean_node_server.Common.{
  ℕ, suc, ◌+◌, String, Bool, true, false, not, ◌&&◌, ◌||◌, Option, none, some, List, [], ◌∷◌, ◌++◌,
  if◌then◌else◌, ◌==◌, nat_eq, leb, length, get_elem?, set, elem, without,
}
use clean_node_server.Types.{RequestContext}
use clean_node_server.RequestPool.{
  is_none, WorkerRequest, WorkerMessage, rejected, overloaded, shutting_down, timed_out,
  timed_out_queued, Outcome, PendingDispatch, WorkerSlot, RequestWorkerPool, settle, assign, remove,
  is_free, runs, find_slot, idle_slot, send_to_slot, drain_queue, restart_slot, on_worker_message,
  handle_worker_crash,
}

-- The test that `find` makes for a free slot.
pub find_free : RequestWorkerPool → Option ℕ
find_free p = find_slot is_free p.objects p.slots

pub send : ℕ → PendingDispatch → RequestWorkerPool → RequestWorkerPool
unfolding send_to_slot
send w d p = elim (get_elem? p.objects w) [ none ↦ p | some s ↦ send_to_slot w s d p ]

-- The executor of the promise that `dispatch` returns: the timer is armed first.
pub schedule : PendingDispatch → RequestWorkerPool → RequestWorkerPool
unfolding send find_free settle
schedule d p = elim (find_free p) [
  | some w ↦ send w d (record p { timers = d.id ∷ p.timers })
  | none ↦
      if leb p.max_queue_size (length p.queue)
      then record p { settled = settle d.id (rejected overloaded) p.settled }
      else record p { timers = d.id ∷ p.timers; queue = p.queue ++ d ∷ [] }
]

pub new_dispatch : ℕ → RequestContext → String → PendingDispatch
new_dispatch id context handler = record { id = id; msg = msg }
  where
    msg : WorkerRequest
    msg = record { id = id; context = context; handler_name = handler }

-- The number of the request, or `none` for the rejection of a closed pool.
pub dispatch : RequestContext → String → RequestWorkerPool → RequestWorkerPool × Option ℕ
unfolding schedule new_dispatch
dispatch context handler p =
    let d = new_dispatch p.next_id context handler in
    if p.closed then (p, none) else (schedule d (record p { next_id = suc p.next_id }), some d.id)

-- `findIndex` by id, then `splice`.
pub queued : ℕ → List PendingDispatch → Bool
queued id [] = false
queued id (d ∷ ds) = d.id == id || queued id ds

pub unqueue : ℕ → List PendingDispatch → List PendingDispatch
unqueue id [] = []
unqueue id (d ∷ ds) = if d.id == id then ds else d ∷ unqueue id ds

pub retire : ℕ → List (Option ℕ) → List WorkerSlot → List WorkerSlot
retire id refs objects = elim (find_slot (runs id) objects refs) [
  | none ↦ objects
  | some w ↦ elim (get_elem? objects w) [
    | none ↦ objects
    | some s ↦ set objects w (record s { retiring = true })
  ]
]

-- The timer of request `id` goes off.
pub expire : ℕ → RequestWorkerPool → RequestWorkerPool
unfolding queued unqueue retire settle
expire id p =
    if queued id p.queue
    then record p {
      timers = without id p.timers;
      queue = unqueue id p.queue;
      settled = settle id (rejected (timed_out_queued id)) p.settled;
    }
    else record p {
      timers = without id p.timers;
      objects = retire id p.slots p.objects;
      settled = settle id (rejected (timed_out id)) p.settled;
    }

pub elapse : ℕ → RequestWorkerPool → RequestWorkerPool
unfolding expire
elapse id p = if elem id p.timers then expire id p else p

-- The `then` of `terminate`: the replacement is started unless the pool is closed.
pub terminated : ℕ → RequestWorkerPool → RequestWorkerPool
unfolding remove
terminated i p =
    if elem i p.terminating
    then record p {
      terminating = remove i p.terminating;
      creating = if p.closed then p.creating else i ∷ p.creating;
    }
    else p

-- The `then` of `createSlot`: a new object, its slot, and the queue.
pub install : ℕ → RequestWorkerPool → RequestWorkerPool
unfolding assign drain_queue
install i p =
    let w = length p.objects in
    drain_queue w (idle_slot i)
      (record p { objects = p.objects ++ idle_slot i ∷ []; slots = assign i (some w) p.slots })

pub created : ℕ → RequestWorkerPool → RequestWorkerPool
unfolding install remove
created i p =
    if elem i p.creating then install i (record p { creating = remove i p.creating }) else p

pub create_failed : ℕ → RequestWorkerPool → RequestWorkerPool
unfolding assign remove
create_failed i p =
    if elem i p.creating
    then record p {
      creating = remove i p.creating;
      slots = assign i none p.slots;
      retry_timers = if p.closed then p.retry_timers else i ∷ p.retry_timers;
    }
    else p

pub retry : ℕ → RequestWorkerPool → RequestWorkerPool
unfolding remove
retry i p =
    if elem i p.retry_timers
    then record p {
      retry_timers = remove i p.retry_timers;
      recreating = if p.closed then p.recreating else i ∷ p.recreating;
    }
    else p

pub recreated : ℕ → RequestWorkerPool → RequestWorkerPool
unfolding install remove
recreated i p =
    if elem i p.recreating then install i (record p { recreating = remove i p.recreating }) else p

pub recreate_failed : ℕ → RequestWorkerPool → RequestWorkerPool
unfolding remove
recreate_failed i p = record p { recreating = remove i p.recreating }

pub reject_all : List PendingDispatch → RequestWorkerPool → RequestWorkerPool
reject_all [] p = p
reject_all (d ∷ ds) p = reject_all ds (record p {
  timers = without d.id p.timers;
  settled = settle d.id (rejected shutting_down) p.settled;
})

-- `close` up to its await.
pub close : RequestWorkerPool → RequestWorkerPool
unfolding reject_all
close p = record (reject_all p.queue (record p { closed = true })) { queue = [] }

-- `close` behind its await: every worker of `slots` has ended.
pub close_done : RequestWorkerPool → RequestWorkerPool
close_done p = if p.closed then record p { slots = [] } else p

-- The getters filter `slots`.
pub count_some : List (Option ℕ) → ℕ
count_some [] = 0
count_some (none ∷ refs) = count_some refs
count_some (some w ∷ refs) = suc (count_some refs)

pub count_slots : (WorkerSlot → Bool) → List WorkerSlot → List (Option ℕ) → ℕ
count_slots test objects [] = 0
count_slots test objects (none ∷ refs) = count_slots test objects refs
count_slots test objects (some w ∷ refs) =
    let rest = count_slots test objects refs in
    elim (get_elem? objects w) [ none ↦ rest | some s ↦ if test s then suc rest else rest ]

pub total_workers : RequestWorkerPool → ℕ
unfolding count_some
total_workers p = count_some p.slots

pub available_count : RequestWorkerPool → ℕ
unfolding count_slots
available_count p = count_slots is_free p.objects p.slots

pub in_use_count : RequestWorkerPool → ℕ
unfolding count_slots
in_use_count p = count_slots (λ s. not (is_none s.pending)) p.objects p.slots

pub queued_count : RequestWorkerPool → ℕ
queued_count p = length p.queue

pub data Event : Type 0 where
  dispatches : RequestContext → String → Event
  answers : ℕ → WorkerMessage → Event
  crashes : ℕ → Event
  elapses terminates creates create_fails retries recreates recreate_fails : ℕ → Event
  closes closing_ends : Event

pub step : RequestWorkerPool → Event → RequestWorkerPool
step p (dispatches context handler) = (dispatch context handler p).0
step p (answers w m) = on_worker_message w m p
step p (crashes w) = handle_worker_crash w p
step p (elapses id) = elapse id p
step p (terminates i) = terminated i p
step p (creates i) = created i p
step p (create_fails i) = create_failed i p
step p (retries i) = retry i p
step p (recreates i) = recreated i p
step p (recreate_fails i) = recreate_failed i p
step p closes = close p
step p closing_ends = close_done p

pub run : RequestWorkerPool → List Event → RequestWorkerPool
run p [] = p
run p (e ∷ es) = run (step p e) es
