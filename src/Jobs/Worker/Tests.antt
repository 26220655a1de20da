-- ===== src/Jobs/Worker/Tests.antt =====
-- Jobs of concrete programs, and the theorems at concrete inputs.
use Prim.Native.String.{◌∷◌ as letter}
use Prim.Native.String.{count}
use text.Mathlib.TextLemmas.{length-nil, length-cons}
use clean_node_server.Common.{
  arith, ℕ, zero, suc, ◌≡◌, ◌≤◌, refl, sym, ap, ◌∙◌, String, true, false, List, [], ◌∷◌, Option,
  none, some, string_eq, ◌==◌, if◌then◌else◌, inl, All,
}
use clean_node_server.Jobs.{
  Jobs, JobConfig, JobRecord, DbRowJob, Known, pending, running, failed, succeeded, fixed,
  exponential, new_config, new_record, max_backoff_ms, compute_backoff_delay, start_job_worker,
  job_status, job_result, cancel_job,
}
use clean_node_server.Jobs.Backoff.{exponential-grows}
use clean_node_server.Jobs.Worker.{
  job_calls, run_due, new_local, judged, HandlerRun, JobContext, JobEvent, bridge_called, ticks,
  enqueues, succeeds, job_events, apply_verdict, implicit_success, claimed, turn,
}
use clean_node_server.Jobs.Worker.Insert.{IsFresh}
use clean_node_server.Jobs.Worker.Live.{IsLiveEntry}
use clean_node_server.Jobs.Worker.Refinement.{idle, job_events-told, job_events-live}
use clean_node_server.Jobs.Worker.Recovery.{job_status-start_job_worker, apply_verdict-unsaved}
use clean_node_server.Jobs.Worker.Cancelled.{turn-cancel_job}
use clean_node_server.Jobs.Worker.Attempts.{is_waiting, turns, is_waiting-turns}

jobs_run : Unit {0}
unfolding new_config new_record start_job_worker job_status job_result cancel_job job_events
    apply_verdict claimed turn compute_backoff_delay max_backoff_ms
jobs_run = tt

-- The n-th id is n letters.
abbrev ids : ℕ → String
ids zero = ""
ids (suc n) = letter "x" (ids n)

count-ids : (n : ℕ) → count (ids n) ≡ n
count-ids zero = length-nil
count-ids (suc n) = length-cons "x" (ids n) ∙ ap suc (count-ids n)

ids-IsFresh : IsFresh ids
ids-IsFresh i j e = sym (count-ids i) ∙ ap count e ∙ count-ids j

-- The export "good" succeeds with a result, "bad" throws.
abbrev exports : String → JobContext → (String → Option Known) → Option HandlerRun
exports name context told =
    if name == "good"
    then some (record { calls = succeeds "done" ∷ []; threw = none })
    else if name == "bad"
    then some (record { calls = []; threw = some "no" })
    else none

abbrev configs : List (String × JobConfig)
configs =
    ("mail", new_config "good" 3 exponential 1000 0 "")
    ∷ ("report", new_config "bad" 2 fixed 1000 0 "")
    ∷ []

-- Two jobs, and five ticks a second apart.
abbrev events : List JobEvent
events =
    bridge_called 10 (enqueues "mail" "{}" 10)
    ∷ bridge_called 20 (enqueues "report" "{}" 20)
    ∷ ticks 1000
    ∷ ticks 2000
    ∷ ticks 3000
    ∷ []

abbrev after_ticks : Jobs
after_ticks = job_events ids exports events (start_job_worker 0 (some []) (idle configs))

events_run :
    (job_status "" after_ticks ≡ some succeeded)
    × (job_result "" after_ticks ≡ "done")
    × (job_status "x" after_ticks ≡ some failed)
    × (job_result "x" after_ticks ≡ "no")
    × (after_ticks.records ≡ [])
unfolding jobs_run
events_run = (refl, refl, refl, refl, refl)

job_events-told_example :
    (job_status "" after_ticks
      ≡ job_status "" (job_events ids exports events (start_job_worker 0 none (idle configs))))
    × (job_result "" after_ticks
        ≡ job_result "" (job_events ids exports events (start_job_worker 0 none (idle configs))))
job_events-told_example = job_events-told ids ids-IsFresh exports 0 configs events ""

job_events-live_example : All IsLiveEntry after_ticks.records
job_events-live_example = job_events-live ids ids-IsFresh exports 0 configs events

abbrev mail_row : DbRowJob
mail_row = record {
  name = "mail";
  args_json = "{}";
  status = running;
  attempt = 1;
  scheduled_at_ms = 10;
  started_at_ms = some 1000;
  finished_at_ms = none;
  result_json = none;
  error_message = none;
  queue = "default";
  created_at_ms = 10;
}

job_status-start_job_worker_example :
    job_status "x" (start_job_worker 5000 (some (("x", mail_row) ∷ [])) (idle configs))
    ≡ some pending
job_status-start_job_worker_example =
    job_status-start_job_worker 5000 (("x", mail_row) ∷ []) "x" (idle configs) refl refl (refl, tt)

abbrev mail : JobRecord
mail = claimed 1000 (new_record 10 "mail" "{}" 10 (new_config "good" 3 exponential 1000 0 ""))

-- The disk is full.
abbrev stuck : Jobs
stuck = record {
  configs = configs;
  records = ("x", mail) ∷ [];
  db = some (("x", mail_row) ∷ []);
  writable = false;
  worker_started = true;
  next_uuid = 2;
}

judged-mail : (judged 1000 implicit_success mail).1 ≡ true
unfolding judged
judged-mail = refl

apply_verdict-unsaved_example :
    job_status "x" (apply_verdict 1000 "x" implicit_success stuck) ≡ some running
apply_verdict-unsaved_example =
    apply_verdict-unsaved 1000 "x" implicit_success mail stuck (("x", mail_row) ∷ []) refl refl
      judged-mail (inl refl)

-- The job "report" throws whenever it is run.
abbrev report : JobRecord
report = new_record 10 "report" "{}" 10 (new_config "bad" 2 fixed 1000 0 "")

abbrev reporting : Jobs
reporting = record stuck { records = ("x", report) ∷ []; writable = true }

is_waiting-turns_example :
    is_waiting "x" (turns ids exports (1000 ∷ 2000 ∷ []) "x" reporting) ≡ false
unfolding new_record new_config
is_waiting-turns_example =
    is_waiting-turns ids exports (1000 ∷ 2000 ∷ []) "x" "no" report reporting refl refl refl
      (λ context told. refl)

abbrev queued : Jobs
queued = record stuck {
  records = ("x", new_record 10 "mail" "{}" 10 (new_config "good" 3 exponential 1000 0 "")) ∷ [];
}

cancelled_queued : (cancel_job 1500 "x" queued).0 ≡ true
unfolding cancel_job new_record
cancelled_queued = refl

-- The handler of the job "" has cancelled "x", and then makes another job and succeeds.
abbrev after_cancel : Jobs
after_cancel = job_events ids exports (ticks 3000 ∷ []) (
    run_due ids exports 1500 ("x" ∷ []) (
      apply_verdict 1500 "" implicit_success
        (job_calls ids 1500 (enqueues "mail" "{}" 0 ∷ [])
          (new_local, (cancel_job 1500 "x" queued).1)).1))

turn-cancel_job_example : turn ids exports 4000 "x" after_cancel ≡ after_cancel
turn-cancel_job_example =
    turn-cancel_job ids "x" exports 1500 4000 (enqueues "mail" "{}" 0 ∷ []) new_local ""
      implicit_success ("x" ∷ []) (ticks 3000 ∷ []) queued cancelled_queued
      (λ n l e. omega (arith, l, ids-IsFresh n 1 e))
      (λ e. absurd (omega (arith, ids-IsFresh 0 1 e)))

exponential-grows_example :
    (compute_backoff_delay exponential 1000 3 ≤ max_backoff_ms)
    × (compute_backoff_delay exponential 1000 3 ≤ compute_backoff_delay exponential 1000 4)
exponential-grows_example = exponential-grows 1000 3
