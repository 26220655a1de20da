-- ===== src/Jobs.antt =====
-- bridge/jobs.ts: the queue of background jobs, its cache of live records and its table in SQLite.
-- Times are the values of Date.now(), one for each operation. Reads of the table succeed, and
-- `writable` says whether writes do: the source catches their errors.
pub mod Worker
pub mod Backoff
use clean_node_server.Common.{
  ℕ, zero, suc, ◌+◌, ◌-◌, ◌*◌, ◌^◌, ◌<◌, ◌≤◌, ◌≡◌, ◌≢◌, refl, sym, ap, subst, ap₂, ◌∙◌, String,
  Bool, true, false, not, ◌&&◌, ◌||◌, ◌⊎◌, inl, inr, List, [], ◌∷◌, ◌++◌, Option, none, some, arith,
  length, get_elem?, set, nat_eq, string_eq, ◌==◌, if◌then◌else◌, if_cases, ltb, leb, elem, without,
  All, Bool-cases, Option-cases, min, max,
}
use clean_node_server.Common.Assoc

pub data JobStatus : Type 0 where
  pending running succeeded failed cancelled : JobStatus

pub data BackoffStrategy : Type 0 where
  fixed exponential : BackoffStrategy

pub max_jobs_per_poll : ℕ
max_jobs_per_poll = 20

pub retention_ms : ℕ
retention_ms = 604800000

pub max_backoff_ms : ℕ
max_backoff_ms = 86400000

pub exp_shift_cap : ℕ
exp_shift_cap = 30

pub compute_backoff_delay : BackoffStrategy → ℕ → ℕ → ℕ
unfolding max_backoff_ms exp_shift_cap
compute_backoff_delay fixed base_ms attempt = base_ms
compute_backoff_delay exponential base_ms attempt =
    min (base_ms * 2 ^ min (attempt - 1) exp_shift_cap) max_backoff_ms

pub record JobConfig : Type 0 where
  pub handler : String
  pub max_attempts : ℕ
  pub backoff : BackoffStrategy
  pub delay_ms : ℕ
  pub timeout_ms : ℕ
  pub queue : String

-- The id of a record is its key in `records`.
pub record JobRecord : Type 0 where
  pub name : String
  pub args : String
  pub status : JobStatus
  pub attempt : ℕ
  pub max_attempts : ℕ
  pub backoff : BackoffStrategy
  pub delay_ms : ℕ
  pub timeout_ms : ℕ
  pub queue : String
  pub handler : String
  pub scheduled_at : ℕ
  pub created_at : ℕ
  pub updated_at : ℕ
  pub finished_at : Option ℕ
  pub result : Option String
  pub error : Option String

-- A row of `__clean_jobs`; its primary key is the id.
pub record DbRowJob : Type 0 where
  pub name : String
  pub args_json : String
  pub status : JobStatus
  pub attempt : ℕ
  pub scheduled_at_ms : ℕ
  pub started_at_ms : Option ℕ
  pub finished_at_ms : Option ℕ
  pub result_json : Option String
  pub error_message : Option String
  pub queue : String
  pub created_at_ms : ℕ

abbrev pub Rows : Type 0
Rows = List (String × DbRowJob)

-- `db` is `none` where the database could not be opened, or is not open. `next_uuid` counts the
-- calls of randomUUID.
pub record Jobs : Type 0 where
  pub configs : List (String × JobConfig)
  pub records : List (String × JobRecord)
  pub db : Option Rows
  pub writable : Bool
  pub worker_started : Bool
  pub next_uuid : ℕ

pub new_row : JobRecord → DbRowJob
new_row r = record {
  name = r.name;
  args_json = r.args;
  status = r.status;
  attempt = r.attempt;
  scheduled_at_ms = r.scheduled_at;
  started_at_ms = none;
  finished_at_ms = none;
  result_json = none;
  error_message = none;
  queue = r.queue;
  created_at_ms = r.created_at;
}

-- INSERT fails where the primary key is taken, and the error is caught.
pub db_insert : String → JobRecord → Rows → Rows
unfolding new_row
db_insert id r rows = if Assoc.has id rows then rows else Assoc.set id (new_row r) rows

abbrev pub is_running : JobStatus → Bool
is_running running = true
is_running _ = false

abbrev pub is_pending : JobStatus → Bool
is_pending pending = true
is_pending _ = false

abbrev pub is_live : JobStatus → Bool
is_live pending = true
is_live running = true
is_live _ = false

-- `CASE WHEN ? = 'running' THEN COALESCE(started_at_ms, ?) ELSE started_at_ms END`
abbrev started_at : JobStatus → ℕ → Option ℕ → Option ℕ
started_at status now none = if is_running status then some now else none
started_at status now (some t) = some t

pub updated_row : JobRecord → DbRowJob → DbRowJob
updated_row r row = record row {
  status = r.status;
  attempt = r.attempt;
  scheduled_at_ms = r.scheduled_at;
  started_at_ms = started_at r.status r.updated_at row.started_at_ms;
  finished_at_ms = r.finished_at;
  result_json = r.result;
  error_message = r.error;
}

pub db_update : String → JobRecord → Rows → Rows
unfolding updated_row
db_update id r rows = elim (Assoc.get id rows) [
  | none ↦ rows
  | some row ↦ Assoc.set id (updated_row r row) rows
]

-- A write to the database, if it is open and takes it.
pub on_rows : (Rows → Rows) → Jobs → Jobs
on_rows write s = elim s.db [
  | none ↦ s
  | some rows ↦ if s.writable then record s { db = some (write rows) } else s
]

-- The record is changed in place and persisted.
pub save : String → JobRecord → Jobs → Jobs
unfolding on_rows db_update
save id r s = on_rows (db_update id r) (record s { records = Assoc.set id r s.records })

-- A record that has ended leaves the cache if there is a database, whether or not the write worked.
pub persist_and_evict : String → JobRecord → Jobs → Jobs
unfolding save
persist_and_evict id r s =
    let saved = save id r s in
    elim s.db [
      | none ↦ saved
      | some rows ↦ record saved { records = Assoc.delete id saved.records }
    ]

-- What the cache and then the table say.
pub record Known : Type 0 where
  pub status : JobStatus
  pub result : Option String
  pub error : Option String

pub known : String → Jobs → Option Known
known id s = elim (Assoc.get id s.records) [
  | some r ↦ some (record { status = r.status; result = r.result; error = r.error })
  | none ↦ elim s.db [
    | none ↦ none
    | some rows ↦ elim (Assoc.get id rows) [
      | none ↦ none
      | some row ↦
          some (record { status = row.status; result = row.result_json; error = row.error_message })
    ]
  ]
]

-- `none` stands for 'not_found'.
pub job_status : String → Jobs → Option JobStatus
unfolding known
job_status id s = elim (known id s) [ none ↦ none | some k ↦ some k.status ]

abbrev or_empty : Option String → String
or_empty none = ""
or_empty (some text) = text

abbrev pub result_of : Known → String
result_of k = elim k.status [ succeeded ↦ or_empty k.result | failed ↦ or_empty k.error | _ ↦ "" ]

pub job_result : String → Jobs → String
unfolding known
job_result id s = elim (known id s) [ none ↦ "" | some k ↦ result_of k ]

abbrev or_default : String → String
or_default queue = if queue == "" then "default" else queue

-- The arguments are natural numbers: the source raises negative ones to 0.
pub new_config : String → ℕ → BackoffStrategy → ℕ → ℕ → String → JobConfig
new_config handler max_attempts backoff delay_ms timeout_ms queue = record {
  handler = handler;
  max_attempts = max 1 max_attempts;
  backoff = backoff;
  delay_ms = delay_ms;
  timeout_ms = timeout_ms;
  queue = or_default queue;
}

pub configured : JobConfig → JobRecord → JobRecord
configured cfg r = record r {
  max_attempts = cfg.max_attempts;
  backoff = cfg.backoff;
  delay_ms = cfg.delay_ms;
  timeout_ms = cfg.timeout_ms;
  handler = cfg.handler;
}

-- Every record of the name takes the new configuration.
pub reconfigure : String → JobConfig → List (String × JobRecord) → List (String × JobRecord)
unfolding configured
reconfigure name cfg [] = []
reconfigure name cfg ((id, r) ∷ m) =
    (id, if r.name == name then configured cfg r else r) ∷ reconfigure name cfg m

pub register_job : String → JobConfig → Jobs → Jobs
unfolding reconfigure
register_job name cfg s = record s {
  records = reconfigure name cfg s.records;
  configs = Assoc.set name cfg s.configs;
}

pub new_record : ℕ → String → String → ℕ → JobConfig → JobRecord
new_record now name args run_at_ms cfg = record {
  name = name;
  args = args;
  status = pending;
  attempt = 0;
  max_attempts = cfg.max_attempts;
  backoff = cfg.backoff;
  delay_ms = cfg.delay_ms;
  timeout_ms = cfg.timeout_ms;
  queue = cfg.queue;
  handler = cfg.handler;
  scheduled_at = run_at_ms;
  created_at = now;
  updated_at = now;
  finished_at = none;
  result = none;
  error = none;
}

pub cancelled_at : ℕ → JobRecord → JobRecord
cancelled_at now r = record r { status = cancelled; updated_at = now; finished_at = some now }

pub cancel_job : ℕ → String → Jobs → Bool × Jobs
unfolding cancelled_at persist_and_evict
cancel_job now id s = elim (Assoc.get id s.records) [
  | none ↦ (false, s)
  | some r ↦
      if is_pending r.status
      then (true, persist_and_evict id (cancelled_at now r) s)
      else (false, s)
]

-- DELETE of the rows that ended more than a week ago.
abbrev is_stale : ℕ → DbRowJob → Bool
is_stale cutoff row = elim row.finished_at_ms [
  | none ↦ false
  | some t ↦ not (is_live row.status) && ltb t cutoff
]

pub db_cleanup_stale : ℕ → Rows → Rows
unfolding retention_ms
db_cleanup_stale now [] = []
db_cleanup_stale now ((id, row) ∷ rows) =
    let rest = db_cleanup_stale now rows in
    if is_stale (now - retention_ms) row then rest else (id, row) ∷ rest

pub recovered : ℕ → DbRowJob → JobRecord
recovered now row = record {
  name = row.name;
  args = row.args_json;
  status = pending;
  attempt = row.attempt;
  max_attempts = 3;
  backoff = fixed;
  delay_ms = 1000;
  timeout_ms = 0;
  queue = row.queue;
  handler = "";
  scheduled_at = row.scheduled_at_ms;
  created_at = row.created_at_ms;
  updated_at = now;
  finished_at = none;
  result = row.result_json;
  error = row.error_message;
}

pub recover_records : ℕ → Rows → List (String × JobRecord) → List (String × JobRecord)
unfolding recovered
recover_records now [] records = records
recover_records now ((id, row) ∷ rows) records =
    recover_records now rows
      (if is_live row.status then Assoc.set id (recovered now row) records else records)

-- `UPDATE __clean_jobs SET status = 'pending' WHERE status = 'running'`
pub reset_running : Rows → Rows
reset_running [] = []
reset_running ((id, row) ∷ rows) =
    (id, if is_running row.status then record row { status = pending } else row)
    ∷ reset_running rows

-- The argument is the table on the disk, or `none` where opening it or its first statements fail.
pub start_job_worker : ℕ → Option Rows → Jobs → Jobs
unfolding db_cleanup_stale recover_records reset_running
start_job_worker now disk s = if s.worker_started then s else elim disk [
  | none ↦ record s { db = none; worker_started = true }
  | some rows ↦
      let kept = db_cleanup_stale now rows in
      record s {
        db = some (reset_running kept);
        records = recover_records now kept s.records;
        worker_started = true;
      }
]

pub stop_job_worker : Jobs → Jobs
stop_job_worker s = record s { worker_started = false; records = []; configs = []; db = none }
