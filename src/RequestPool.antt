-- ===== src/RequestPool.antt =====
-- workers/request-pool.ts: the pool of worker threads that run request handlers.
-- A slot object is an entry of `objects`, and the array `slots` holds its number: an object that a
-- restart has taken out of `slots` still receives the messages of its worker.
pub mod Events
use clean_node_server.Common.{
  ℕ, zero, suc, ◌+◌, String, Bool, true, false, not, ◌&&◌, ◌||◌, Option, none, some, List, [], ◌∷◌,
  ◌++◌, map, if◌then◌else◌, ◌==◌, nat_eq, ltb, leb, length, get_elem?, set, elem, without,
}
use clean_node_server.Common.Assoc
use clean_node_server.Types.{RequestContext, Cookie}

pub record DispatchResult : Type 0 where
  pub status : ℕ
  pub headers : List (String × String)
  pub body : String
  pub cookies : List Cookie

pub record WorkerRequest : Type 0 where
  pub id : ℕ
  pub context : RequestContext
  pub handler_name : String

-- A `WorkerResponseMsg` or a `WorkerErrorMsg`.
pub data Answer : Type 0 where
  answered : DispatchResult → Answer
  errored : String → Answer

pub record WorkerMessage : Type 0 where
  pub id : ℕ
  pub answer : Answer
  pub needs_restart : Bool

pub data Reason : Type 0 where
  failed : String → Reason
  worker_crashed overloaded shutting_down : Reason
  timed_out timed_out_queued : ℕ → Reason

pub data Outcome : Type 0 where
  resolved : DispatchResult → Outcome
  rejected : Reason → Outcome

pub record PendingDispatch : Type 0 where
  pub id : ℕ
  pub msg : WorkerRequest

pub record WorkerSlot : Type 0 where
  pub pending : Option PendingDispatch
  pub retiring : Bool
  pub index : ℕ

-- `settled` is what the promises handed out have come to, `timers` the requests whose timeout is
-- armed, `posted` the messages sent to each worker. The last four hold, by slot index, the
-- terminations, the worker starts, the retry timers and the retried starts that are under way.
pub record RequestWorkerPool : Type 0 where
  pub max_queue_size : ℕ
  pub objects : List WorkerSlot
  pub slots : List (Option ℕ)
  pub queue : List PendingDispatch
  pub next_id : ℕ
  pub closed : Bool
  pub settled : List (ℕ × Outcome)
  pub timers : List ℕ
  pub posted : List (ℕ × WorkerRequest)
  pub terminating : List ℕ
  pub creating : List ℕ
  pub retry_timers : List ℕ
  pub recreating : List ℕ

-- A promise keeps its first outcome.
pub settle : ℕ → Outcome → List (ℕ × Outcome) → List (ℕ × Outcome)
settle id o done = if Assoc.has id done then done else (id, o) ∷ done

-- `array[i] = v`, which lengthens the array where it must.
pub assign : ℕ → Option ℕ → List (Option ℕ) → List (Option ℕ)
assign zero v [] = v ∷ []
assign zero v (x ∷ xs) = v ∷ xs
assign (suc i) v [] = none ∷ assign i v []
assign (suc i) v (x ∷ xs) = x ∷ assign i v xs

-- One occurrence goes.
pub remove : ℕ → List ℕ → List ℕ
remove i [] = []
remove i (j ∷ js) = if j == i then js else j ∷ remove i js

abbrev pub is_none {ℓ} : {A : Type ℓ} → Option A → Bool
is_none none = true
is_none (some a) = false

-- `!s.pending && !s.retiring`
pub is_free : WorkerSlot → Bool
is_free s = is_none s.pending && not s.retiring

-- `s?.pending?.id === id`
pub runs : ℕ → WorkerSlot → Bool
runs id s = elim s.pending [ none ↦ false | some d ↦ d.id == id ]

-- `slots.find(test)`, as the number of the object found.
pub find_slot : (WorkerSlot → Bool) → List WorkerSlot → List (Option ℕ) → Option ℕ
find_slot test objects [] = none
find_slot test objects (none ∷ refs) = find_slot test objects refs
find_slot test objects (some w ∷ refs) = elim (get_elem? objects w) [
  | none ↦ find_slot test objects refs
  | some s ↦ if test s then some w else find_slot test objects refs
]

pub idle_slot : ℕ → WorkerSlot
idle_slot i = record { pending = none; retiring = false; index = i }

-- The objects 0 to n - 1 stand in the slots of their number.
pub start_slots : ℕ → ℕ → List WorkerSlot
start_slots i zero = []
start_slots i (suc n) = idle_slot i ∷ start_slots (suc i) n

pub start_refs : ℕ → ℕ → List (Option ℕ)
start_refs i zero = []
start_refs i (suc n) = some i ∷ start_refs (suc i) n

-- The pool once every worker of `initialize` has reported that it is ready.
pub initialize : ℕ → ℕ → RequestWorkerPool
initialize size max_queue_size = record {
  max_queue_size = max_queue_size;
  objects = start_slots 0 size;
  slots = start_refs 0 size;
  queue = [];
  next_id = 0;
  closed = false;
  settled = [];
  timers = [];
  posted = [];
  terminating = [];
  creating = [];
  retry_timers = [];
  recreating = [];
}

pub send_to_slot : ℕ → WorkerSlot → PendingDispatch → RequestWorkerPool → RequestWorkerPool
send_to_slot w s d p = record p {
  objects = set p.objects w (record s { pending = some d });
  posted = p.posted ++ (w, d.msg) ∷ [];
}

pub drain_from : ℕ → WorkerSlot → List PendingDispatch → RequestWorkerPool → RequestWorkerPool
drain_from w s [] p = p
drain_from w s (d ∷ ds) p = if is_free s then send_to_slot w s d (record p { queue = ds }) else p

-- `s` is the object numbered `w` as it stands.
pub drain_queue : ℕ → WorkerSlot → RequestWorkerPool → RequestWorkerPool
unfolding drain_from send_to_slot
drain_queue w s p = drain_from w s p.queue p

pub restart_slot : WorkerSlot → RequestWorkerPool → RequestWorkerPool
restart_slot s p = record p {
  slots = assign s.index none p.slots;
  terminating = s.index ∷ p.terminating;
}

abbrev outcome_of : Answer → Outcome
outcome_of (answered r) = resolved r
outcome_of (errored text) = rejected (failed text)

-- The worker of object `w` is done with `d`: its timer and its promise.
pub finish : ℕ → WorkerSlot → ℕ → Outcome → RequestWorkerPool → RequestWorkerPool
finish w s id o p = record p {
  objects = set p.objects w (record s { pending = none });
  timers = without id p.timers;
  settled = settle id o p.settled;
}

-- The part of `onWorkerMessage` behind its guard.
pub answer_pending : ℕ → WorkerSlot → WorkerMessage → RequestWorkerPool → RequestWorkerPool
unfolding finish restart_slot drain_queue
answer_pending w s m p =
    let freed = record s { pending = none } in
    let q = finish w s m.id (outcome_of m.answer) p in
    if m.needs_restart || s.retiring then restart_slot freed q else drain_queue w freed q

-- A `session_op` message goes to the session channel and leaves the pool alone.
pub on_worker_message : ℕ → WorkerMessage → RequestWorkerPool → RequestWorkerPool
unfolding answer_pending
on_worker_message w m p = elim (get_elem? p.objects w) [
  | none ↦ p
  | some s ↦ elim s.pending [
    | none ↦ p
    | some d ↦ if d.id == m.id then answer_pending w s m p else p
  ]
]

pub handle_worker_crash : ℕ → RequestWorkerPool → RequestWorkerPool
unfolding finish restart_slot
handle_worker_crash w p = elim (get_elem? p.objects w) [
  | none ↦ p
  | some s ↦ elim s.pending [
    | none ↦ restart_slot s p
    | some d ↦
        restart_slot (record s { pending = none }) (finish w s d.id (rejected worker_crashed) p)
  ]
]
