-- ===== src/Jobs/Worker.antt =====
-- bridge/jobs.ts: how the worker claims jobs that are due, runs their handlers and settles them. The
-- exports of the WebAssembly module are a parameter, and so is randomUUID.
pub mod Live
pub mod Mirror
pub mod Insert
pub mod Steps
pub mod Running
pub mod Transparent
pub mod Refinement
pub mod Attempts
pub mod Cancelled
pub mod Recovery
pub mod Tests
use Prim.Native.String.{◌++◌ as text_append}
use clean_node_server.Common.{
  ℕ, zero, suc, ◌+◌, ◌-◌, ◌*◌, ◌^◌, ◌<◌, ◌≤◌, ◌≡◌, ◌≢◌, refl, sym, ap, subst, ap₂, ◌∙◌, String,
  Bool, true, false, not, ◌&&◌, ◌||◌, ◌⊎◌, inl, inr, List, [], ◌∷◌, ◌++◌, Option, none, some, arith,
  length, get_elem?, set, nat_eq, string_eq, ◌==◌, if◌then◌else◌, if_cases, ltb, leb, elem, without,
  All, Bool-cases, Option-cases, min, max,
}
use clean_node_server.Common.Assoc
use clean_node_server.Jobs.{
  JobStatus, pending, running, succeeded, failed, cancelled, is_pending, JobRecord, JobConfig, Jobs,
  Rows, save, on_rows, db_insert, persist_and_evict, known, Known, configured, register_job,
  new_record, cancel_job, compute_backoff_delay, start_job_worker, stop_job_worker,
  max_jobs_per_poll,
}

pub is_due : ℕ → JobRecord → Bool
is_due now r = is_pending r.status && leb r.scheduled_at now

-- `n` records at most, in the order of the cache.
pub poll_up_to : ℕ → ℕ → List (String × JobRecord) → List String
unfolding is_due
poll_up_to zero now m = []
poll_up_to (suc n) now [] = []
poll_up_to (suc n) now ((id, r) ∷ m) =
    if is_due now r then id ∷ poll_up_to n now m else poll_up_to (suc n) now m

pub poll_due_jobs : ℕ → Jobs → List String
unfolding poll_up_to max_jobs_per_poll
poll_due_jobs now s = poll_up_to max_jobs_per_poll now s.records

pub claimed : ℕ → JobRecord → JobRecord
claimed now r = record r { status = running; attempt = r.attempt + 1; updated_at = now }

pub claim_job : ℕ → String → Jobs → Bool × Jobs
unfolding claimed save
claim_job now id s = elim (Assoc.get id s.records) [
  | none ↦ (false, s)
  | some r ↦ if is_pending r.status then (true, save id (claimed now r) s) else (false, s)
]

-- The four ways in which an attempt ends.
pub data Verdict : Type 0 where
  implicit_success : Verdict
  explicit_success : String → Verdict
  explicit_fail : String → Verdict
  failure : String → Option ℕ → Verdict

abbrev or_delay : Option ℕ → ℕ → ℕ
or_delay none delay = delay
or_delay (some override) delay = override

abbrev ended : ℕ → JobStatus → JobRecord → JobRecord
ended now status r = record r { status = status; updated_at = now; finished_at = some now }

pub retried : ℕ → String → Option ℕ → JobRecord → JobRecord
unfolding compute_backoff_delay
retried now message override r = record r {
  status = pending;
  scheduled_at = now + or_delay override (compute_backoff_delay r.backoff r.delay_ms r.attempt);
  error = some message;
  updated_at = now;
}

-- The record after its attempt, and whether it has ended.
pub judged : ℕ → Verdict → JobRecord → JobRecord × Bool
unfolding retried
judged now implicit_success r = (ended now succeeded r, true)
judged now (explicit_success result) r =
    (record (ended now succeeded r) { result = some result }, true)
judged now (explicit_fail reason) r = (record (ended now failed r) { error = some reason }, true)
judged now (failure message override) r =
    if ltb r.attempt r.max_attempts
    then (retried now message override r, false)
    else (record (ended now failed r) { error = some message }, true)

pub apply_verdict : ℕ → String → Verdict → Jobs → Jobs
unfolding judged save persist_and_evict
apply_verdict now id v s = elim (Assoc.get id s.records) [
  | none ↦ s
  | some r ↦
      let (after, over) = judged now v r in
      if over then persist_and_evict id after s else save id after s
]

abbrev pub no_export : String → Verdict
no_export name =
    failure (text_append "handler '" (text_append name "' not found in WASM exports")) none

abbrev pub no_handler : String → Verdict
no_handler name =
    failure (text_append "no handler registered for job name '" (text_append name "'")) none

-- What a handler asks of the bridge. The last three concern its own attempt.
pub data JobCall : Type 0 where
  registers : String → JobConfig → JobCall
  enqueues : String → String → ℕ → JobCall
  cancels : String → JobCall
  retries_after : ℕ → JobCall
  fails succeeds : String → JobCall

pub record JobLocal : Type 0 where
  pub retry_override_ms : Option ℕ
  pub explicit_failed : Option String
  pub explicit_succeeded : Option String

pub new_local : JobLocal
new_local = record { retry_override_ms = none; explicit_failed = none; explicit_succeeded = none }

pub record HandlerRun : Type 0 where
  pub calls : List JobCall
  pub threw : Option String

-- explicit_succeed > explicit_fail > implicit
pub verdict_of : JobLocal → Option String → Verdict
verdict_of l threw = elim l.explicit_succeeded [
  | some result ↦ explicit_success result
  | none ↦ elim l.explicit_failed [
    | some reason ↦ explicit_fail reason
    | none ↦ elim threw [
      | some message ↦ failure message l.retry_override_ms
      | none ↦ implicit_success
    ]
  ]
]

-- A recovered record has no handler: it takes the configuration of its name, in memory only.
pub backfill : String → JobRecord → Jobs → Jobs
unfolding configured
backfill id r s = elim (Assoc.get r.name s.configs) [
  | none ↦ s
  | some cfg ↦
      if r.handler == ""
      then record s { records = Assoc.set id (configured cfg r) s.records }
      else s
]

pub handler_name : JobRecord → Jobs → String
handler_name r s = elim (Assoc.get r.name s.configs) [
  | none ↦ r.handler
  | some cfg ↦ if r.handler == "" then cfg.handler else r.handler
]

pub record JobContext : Type 0 where
  pub id : String
  pub args : String
  pub attempt : ℕ

pub local_call : JobCall → JobLocal → JobLocal
local_call (registers name cfg) l = l
local_call (enqueues name args run_at_ms) l = l
local_call (cancels id) l = l
local_call (retries_after delay) l = record l { retry_override_ms = some delay }
local_call (fails reason) l = record l { explicit_failed = some reason }
local_call (succeeds result) l = record l { explicit_succeeded = some result }

-- The bridge is called from outside a job, or the worker's timer goes off.
pub data JobEvent : Type 0 where
  bridge_called : ℕ → JobCall → JobEvent
  ticks : ℕ → JobEvent

-- The n-th value of randomUUID.
module _ (random_uuid : ℕ → String) where
  pub enqueue_job_at : ℕ → String → String → ℕ → Jobs → Option String × Jobs
  unfolding new_record on_rows db_insert
  enqueue_job_at now name args run_at_ms s = elim (Assoc.get name s.configs) [
    | none ↦ (none, s)
    | some cfg ↦
        let id = random_uuid s.next_uuid in
        let r = new_record now name args run_at_ms cfg in
        (
          some id,
          on_rows (db_insert id r)
              (record s { records = Assoc.set id r s.records; next_uuid = suc s.next_uuid }),
        )
  ]

  pub job_call : ℕ → JobCall → Jobs → Jobs
  unfolding enqueue_job_at register_job cancel_job
  job_call now (registers name cfg) s = register_job name cfg s
  job_call now (enqueues name args run_at_ms) s = (enqueue_job_at now name args run_at_ms s).1
  job_call now (cancels id) s = (cancel_job now id s).1
  job_call now (retries_after delay) s = s
  job_call now (fails reason) s = s
  job_call now (succeeds result) s = s

  pub job_calls : ℕ → List JobCall → JobLocal × Jobs → JobLocal × Jobs
  unfolding job_call local_call
  job_calls now [] (l, s) = (l, s)
  job_calls now (c ∷ cs) (l, s) = job_calls now cs (local_call c l, job_call now c s)

  -- An export of the module, if it is a function: what it does for a job, given what the bridge says
  -- of the state of jobs.
  module _ (exports : String → JobContext → (String → Option Known) → Option HandlerRun) where
    pub run_export : ℕ → String → Option HandlerRun → String → Jobs → Jobs
    unfolding apply_verdict job_calls new_local verdict_of
    run_export now id none name s = apply_verdict now id (no_export name) s
    run_export now id (some run) name s =
        let (l, after) = job_calls now run.calls (new_local, s) in
        apply_verdict now id (verdict_of l run.threw) after

    pub run_named : ℕ → String → JobRecord → String → Jobs → Jobs
    unfolding run_export known
    run_named now id r name s =
        if name == ""
        then apply_verdict now id (no_handler r.name) s
        else run_export now id
            (exports name (record { id = id; args = r.args; attempt = r.attempt }) (λ j. known j s))
            name s

    pub run_claimed : ℕ → String → JobRecord → Jobs → Jobs
    unfolding run_named backfill handler_name
    run_claimed now id r s = run_named now id r (handler_name r s) (backfill id r s)

    pub run_handler : ℕ → String → Jobs → Jobs
    unfolding run_claimed
    run_handler now id s = elim (Assoc.get id s.records) [
      | none ↦ s
      | some r ↦ run_claimed now id r s
    ]

    -- A polled job is run if it is still pending.
    pub turn : ℕ → String → Jobs → Jobs
    unfolding claim_job run_handler
    turn now id s =
        let (mine, after) = claim_job now id s in if mine then run_handler now id after else after

    pub run_due : ℕ → List String → Jobs → Jobs
    unfolding turn
    run_due now [] s = s
    run_due now (id ∷ ids) s = run_due now ids (turn now id s)

    -- `pollInFlight` cannot be set when the timer goes off: a tick runs to its end.
    pub worker_tick : ℕ → Jobs → Jobs
    unfolding poll_due_jobs run_due
    worker_tick now s = if s.worker_started then run_due now (poll_due_jobs now s) s else s

    pub job_event : JobEvent → Jobs → Jobs
    unfolding job_call worker_tick
    job_event (bridge_called now c) s = job_call now c s
    job_event (ticks now) s = worker_tick now s

    pub job_events : List JobEvent → Jobs → Jobs
    unfolding job_event
    job_events [] s = s
    job_events (e ∷ es) s = job_events es (job_event e s)
