-- ===== src/Jobs/Worker/Refinement.antt =====
-- What the database changes for a program that asks for its jobs: nothing, but what stays in memory.
use clean_node_server.Jobs.Worker.Transparent.{job_events-IsMirrored}
use clean_node_server.Jobs.Worker.Mirror.{known_same}
use clean_node_server.Jobs.Worker.Live.{filter_live-All, IsLiveEntry, filter_live-empty}
use clean_node_server.Common.{
  arith, subst, All, List, [], Option, none, some, true, false, ℕ, ◌≡◌, refl, sym, ap, String,
}
use clean_node_server.Jobs.{
  recover_records, result_of, reset_running, db_cleanup_stale, Jobs, JobConfig, Known, job_status,
  job_result, start_job_worker,
}
use clean_node_server.Jobs.Worker.{JobContext, HandlerRun, JobEvent, job_events}
use clean_node_server.Jobs.Worker.Insert.{IsFresh}
use clean_node_server.Jobs.Worker.Steps.{IsMirrored}

-- Before the worker starts: jobs are registered.
abbrev pub idle : List (String × JobConfig) → Jobs
idle configs = record {
  configs = configs;
  records = [];
  db = none;
  writable = true;
  worker_started = false;
  next_uuid = 0;
}

module _ (random_uuid : ℕ → String) (fresh : IsFresh random_uuid)
    (exports : String → JobContext → (String → Option Known) → Option HandlerRun) (now : ℕ)
    (configs : List (String × JobConfig)) (es : List JobEvent) where
  persisted : Jobs
  persisted = job_events random_uuid exports es (start_job_worker now (some []) (idle configs))

  in_memory : Jobs
  in_memory = job_events random_uuid exports es (start_job_worker now none (idle configs))

  start_job_worker-IsMirrored :
      IsMirrored random_uuid
        (start_job_worker now (some []) (idle configs))
        (start_job_worker now none (idle configs))
  unfolding start_job_worker db_cleanup_stale reset_running recover_records
  start_job_worker-IsMirrored = (
    [],
    record {
      configs = refl;
      uuids = refl;
      started = refl;
      live = sym filter_live-empty;
      keys = tt;
      writable = refl;
      opened = refl;
      no_db = refl;
      told = λ id. refl;
      drawn = λ id h. absurd (ground (arith, h));
    },
  )

  beside : IsMirrored random_uuid persisted in_memory
  unfolding persisted in_memory
  beside =
      job_events-IsMirrored fresh exports es (start_job_worker now (some []) (idle configs))
        (start_job_worker now none (idle configs)) start_job_worker-IsMirrored

  -- With ids that never repeat, whatever calls and ticks come after the worker has started, the status
  -- and the result of every job are the same whether the worker has a table, empty at the start, that
  -- takes every write, or no database.
  pub job_events-told :
      (id : String)
      → (job_status id
            (job_events random_uuid exports es (start_job_worker now (some []) (idle configs)))
          ≡ job_status id
              (job_events random_uuid exports es (start_job_worker now none (idle configs))))
        × (job_result id
              (job_events random_uuid exports es (start_job_worker now (some []) (idle configs)))
            ≡ job_result id
                (job_events random_uuid exports es (start_job_worker now none (idle configs))))
  unfolding job_status job_result persisted in_memory
  job_events-told id = (
    ap (λ k. elim k [ none ↦ none | some known ↦ some known.status ]) (known_same beside.1 id),
    ap (λ k. elim k [ none ↦ "" | some known ↦ result_of known ]) (known_same beside.1 id),
  )

  -- With ids that never repeat, a worker whose table was empty at the start and takes every write keeps
  -- only pending and running jobs in memory, whatever calls and ticks come after it has started.
  pub job_events-live :
      All IsLiveEntry
        (job_events random_uuid exports es (start_job_worker now (some []) (idle configs))).records
  unfolding persisted in_memory
  job_events-live = subst (All IsLiveEntry) (sym beside.1.live) (filter_live-All in_memory.records)
