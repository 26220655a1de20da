-- ===== src/Jobs/Worker/Transparent.antt =====
-- The calls of a handler and the ticks of the worker on the two runs.
use clean_node_server.Jobs.Worker.Running.{
  job_call-IsRunning, job_call-IsMirrored, claim_job-IsRunning, IsRunning,
}
use clean_node_server.Jobs.Worker.Live.{poll_up_to-filter_live}
use clean_node_server.Common.{
  List, [], ◌∷◌, Option, none, some, Bool, true, false, Bool-cases, Option-cases, subst, ℕ, ◌≡◌,
  refl, sym, ap, arith, String, ◌==◌, string_eq, if◌then◌else◌, inl, inr, ◌∙◌,
}
use clean_node_server.Common.Assoc
use clean_node_server.Jobs.{
  max_jobs_per_poll, running, Jobs, JobRecord, Known, configured, is_live, known,
}
use clean_node_server.Jobs.Worker.{
  no_handler, no_export, verdict_of, claim_job, ticks, poll_up_to, bridge_called, turn,
  poll_due_jobs, run_named, JobEvent, apply_verdict, new_local, Verdict, job_call, job_calls,
  JobCall, JobLocal, local_call, backfill, handler_name, HandlerRun, JobContext, run_export,
  run_claimed, run_handler, run_due, worker_tick, job_event, job_events,
}
use clean_node_server.Jobs.Worker.Mirror.{known_same}
use clean_node_server.Jobs.Worker.Insert.{revise-IsMirror, IsFresh}
use clean_node_server.Jobs.Worker.Steps.{
  claim_job-IsMirrored, claim_job-same, live-get, apply_verdict-IsMirrored, IsMirrored,
  IsMirrored-at,
}

if-IsMirrored :
    {random_uuid : ℕ → String} {c d p q : Jobs} (b : Bool)
    → IsMirrored random_uuid c p
    → IsMirrored random_uuid d q
    → IsMirrored random_uuid (if b then c else d) (if b then p else q)
if-IsMirrored true m n = m
if-IsMirrored false m n = n

handler_name-same :
    (r : JobRecord) (s t : Jobs) → t.configs ≡ s.configs → handler_name r t ≡ handler_name r s
unfolding handler_name
handler_name-same r s t e = ground (arith, e)

abbrev told_by : Jobs → String → Option Known
told_by s j = known j s

same_known :
    {random_uuid : ℕ → String} {cached plain : Jobs}
    → IsMirrored random_uuid cached plain
    → told_by cached ≡ told_by plain
same_known m i j = known_same m.1 j i

module _ {random_uuid : ℕ → String} (fresh : IsFresh random_uuid) where
  job_calls-IsMirrored :
      (now : ℕ) (id : String) (cs : List JobCall) (l : JobLocal) (cached plain : Jobs)
      → IsMirrored random_uuid cached plain
      → IsRunning id plain
      → ((job_calls random_uuid now cs (l, cached)).0 ≡ (job_calls random_uuid now cs (l, plain)).0)
        × IsMirrored random_uuid
            (job_calls random_uuid now cs (l, cached)).1
            (job_calls random_uuid now cs (l, plain)).1
        × IsRunning id (job_calls random_uuid now cs (l, plain)).1
  unfolding job_calls
  job_calls-IsMirrored now id [] l cached plain m h = (refl, m, h)
  job_calls-IsMirrored now id (c ∷ cs) l cached plain m h =
      job_calls-IsMirrored now id cs (local_call c l) (job_call random_uuid now c cached)
        (job_call random_uuid now c plain) (job_call-IsMirrored fresh m now c)
        (job_call-IsRunning fresh m now id c h)

  verdict-IsMirrored :
      (now : ℕ) (id : String) (v w : Verdict) (cached plain : Jobs)
      → v ≡ w
      → IsMirrored random_uuid cached plain
      → IsRunning id plain
      → IsMirrored random_uuid (apply_verdict now id v cached) (apply_verdict now id w plain)
  verdict-IsMirrored now id v w cached plain same m (r, e, h) =
      subst
        (λ u. IsMirrored random_uuid (apply_verdict now id v cached) (apply_verdict now id u plain))
        same (apply_verdict-IsMirrored m now id v r e (ap is_live h))

  module _ (exports : String → JobContext → (String → Option Known) → Option HandlerRun) where
    run_export-IsMirrored :
        (now : ℕ) (id : String) (run : Option HandlerRun) (name : String) (cached plain : Jobs)
        → IsMirrored random_uuid cached plain
        → IsRunning id plain
        → IsMirrored random_uuid
            (run_export random_uuid exports now id run name cached)
            (run_export random_uuid exports now id run name plain)
    unfolding run_export
    run_export-IsMirrored now id none name cached plain m h =
        verdict-IsMirrored now id (no_export name) (no_export name) cached plain refl m h
    run_export-IsMirrored now id (some run) name cached plain m h =
        let (same, after, still) =
          job_calls-IsMirrored now id run.calls new_local cached plain m h in
        verdict-IsMirrored now id
          (verdict_of (job_calls random_uuid now run.calls (new_local, cached)).0 run.threw)
          (verdict_of (job_calls random_uuid now run.calls (new_local, plain)).0 run.threw)
          (job_calls random_uuid now run.calls (new_local, cached)).1
          (job_calls random_uuid now run.calls (new_local, plain)).1
          (ap (λ l. verdict_of l run.threw) same) after still

    backfill-IsMirrored :
        (id : String) (r : JobRecord) (cached plain : Jobs)
        → Assoc.get id plain.records ≡ some r
        → r.status ≡ running
        → IsMirrored random_uuid cached plain
        → IsMirrored random_uuid (backfill id r cached) (backfill id r plain)
          × IsRunning id (backfill id r plain)
    unfolding backfill configured
    backfill-IsMirrored id r cached plain e h m =
        elim (Option-cases (Assoc.get r.name plain.configs)) [
          | inl f ↦ (
            IsMirrored-at (ground (arith, f, m.1.configs)) (ground (arith, f)) m,
            (r, ground (arith, e, f), h),
          )
          | inr (cfg, f) ↦ elim (Bool-cases (r.handler == "")) [
            | inl g ↦ (
              IsMirrored-at (ground (arith, f, g, m.1.configs)) (ground (arith, f, g))
                  (m.0, revise-IsMirror m.1 id (configured cfg r) r e (ap is_live h) refl),
              (
                configured cfg r,
                ground (arith, f, g, Assoc.get-set_self id (configured cfg r) plain.records),
                h,
              ),
            )
            | inr g ↦ (
              IsMirrored-at (ground (arith, f, g, m.1.configs)) (ground (arith, f, g)) m,
              (r, ground (arith, e, f, g), h),
            )
          ]
        ]

    run_named-IsMirrored :
        (now : ℕ) (id : String) (r : JobRecord) (name : String) (cached plain : Jobs)
        → IsMirrored random_uuid cached plain
        → IsRunning id plain
        → IsMirrored random_uuid
            (run_named random_uuid exports now id r name cached)
            (run_named random_uuid exports now id r name plain)
    unfolding run_named
    run_named-IsMirrored now id r name cached plain m h =
        if-IsMirrored (name == "")
          (verdict-IsMirrored now id (no_handler r.name) (no_handler r.name) cached plain refl m h)
          (subst
            (λ k.
              IsMirrored random_uuid
                (run_export random_uuid exports now id (exports name context (λ j. known j cached))
                  name cached)
                (run_export random_uuid exports now id (exports name context k) name plain))
            (same_known m)
            (run_export-IsMirrored now id (exports name context (λ j. known j cached)) name cached
              plain m h))
      where
        context : JobContext
        context = record { id = id; args = r.args; attempt = r.attempt }

    run_claimed-IsMirrored :
        (now : ℕ) (id : String) (r : JobRecord) (cached plain : Jobs)
        → Assoc.get id plain.records ≡ some r
        → r.status ≡ running
        → IsMirrored random_uuid cached plain
        → IsMirrored random_uuid
            (run_claimed random_uuid exports now id r cached)
            (run_claimed random_uuid exports now id r plain)
    unfolding run_claimed
    run_claimed-IsMirrored now id r cached plain e h m =
        let (filled, still) = backfill-IsMirrored id r cached plain e h m in
        subst
          (λ name.
            IsMirrored random_uuid
              (run_named random_uuid exports now id r name (backfill id r cached))
              (run_claimed random_uuid exports now id r plain))
          (handler_name-same r cached plain (sym m.1.configs))
          (run_named-IsMirrored now id r (handler_name r plain) (backfill id r cached)
            (backfill id r plain) filled still)

    run_handler-IsMirrored :
        (now : ℕ) (id : String) (cached plain : Jobs)
        → IsMirrored random_uuid cached plain
        → IsRunning id plain
        → IsMirrored random_uuid
            (run_handler random_uuid exports now id cached)
            (run_handler random_uuid exports now id plain)
    unfolding run_handler
    run_handler-IsMirrored now id cached plain m (r, e, h) =
        IsMirrored-at (rw (live-get m id r e (ap is_live h), run_handler)) (rw (e, run_handler))
          (run_claimed-IsMirrored now id r cached plain e h m)

    -- A job that the worker claims is run, in both.
    turn-IsMirrored :
        (now : ℕ) (id : String) (cached plain : Jobs)
        → IsMirrored random_uuid cached plain
        → IsMirrored random_uuid
            (turn random_uuid exports now id cached)
            (turn random_uuid exports now id plain)
    unfolding turn
    turn-IsMirrored now id cached plain m = elim (Bool-cases (claim_job now id plain).0) [
      | inl e ↦ IsMirrored-at (rw (claim_job-same m now id ∙ e)) (rw (e)) (
          run_handler-IsMirrored now id (claim_job now id cached).1 (claim_job now id plain).1
            (claim_job-IsMirrored m now id) (claim_job-IsRunning now id plain m.1.no_db e))
      | inr e ↦
          IsMirrored-at (rw (claim_job-same m now id ∙ e)) (rw (e)) (claim_job-IsMirrored m now id)
    ]

    run_due-IsMirrored :
        (now : ℕ) (ids : List String) (cached plain : Jobs)
        → IsMirrored random_uuid cached plain
        → IsMirrored random_uuid
            (run_due random_uuid exports now ids cached)
            (run_due random_uuid exports now ids plain)
    unfolding run_due
    run_due-IsMirrored now [] cached plain m = m
    run_due-IsMirrored now (id ∷ ids) cached plain m =
        run_due-IsMirrored now ids (turn random_uuid exports now id cached)
          (turn random_uuid exports now id plain) (turn-IsMirrored now id cached plain m)

    poll_due_jobs-same :
        (now : ℕ) (cached plain : Jobs)
        → IsMirrored random_uuid cached plain
        → poll_due_jobs now cached ≡ poll_due_jobs now plain
    unfolding poll_due_jobs
    poll_due_jobs-same now cached plain m =
        ap (poll_up_to max_jobs_per_poll now) m.1.live
        ∙ poll_up_to-filter_live max_jobs_per_poll now plain.records

    worker_tick-IsMirrored :
        (now : ℕ) (cached plain : Jobs)
        → IsMirrored random_uuid cached plain
        → IsMirrored random_uuid
            (worker_tick random_uuid exports now cached)
            (worker_tick random_uuid exports now plain)
    unfolding worker_tick
    worker_tick-IsMirrored now cached plain m =
        subst
          (λ b.
            IsMirrored random_uuid
              (if b
                then run_due random_uuid exports now (poll_due_jobs now cached) cached
                else cached)
              (worker_tick random_uuid exports now plain))
          (sym m.1.started)
          (if-IsMirrored plain.worker_started
            (subst
              (λ ids.
                IsMirrored random_uuid (run_due random_uuid exports now ids cached)
                  (run_due random_uuid exports now (poll_due_jobs now plain) plain))
              (sym (poll_due_jobs-same now cached plain m))
              (run_due-IsMirrored now (poll_due_jobs now plain) cached plain m))
            m)

    pub job_event-IsMirrored :
        (e : JobEvent) (cached plain : Jobs)
        → IsMirrored random_uuid cached plain
        → IsMirrored random_uuid
            (job_event random_uuid exports e cached)
            (job_event random_uuid exports e plain)
    unfolding job_event
    job_event-IsMirrored (bridge_called now c) cached plain m = job_call-IsMirrored fresh m now c
    job_event-IsMirrored (ticks now) cached plain m = worker_tick-IsMirrored now cached plain m

    pub job_events-IsMirrored :
        (es : List JobEvent) (cached plain : Jobs)
        → IsMirrored random_uuid cached plain
        → IsMirrored random_uuid
            (job_events random_uuid exports es cached)
            (job_events random_uuid exports es plain)
    unfolding job_events
    job_events-IsMirrored [] cached plain m = m
    job_events-IsMirrored (e ∷ es) cached plain m =
        job_events-IsMirrored es (job_event random_uuid exports e cached)
          (job_event random_uuid exports e plain) (job_event-IsMirrored e cached plain m)
