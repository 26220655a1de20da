-- ===== src/Jobs/Worker/Cancelled.antt =====
-- A job that was cancelled is never run.
use clean_node_server.Common.{
  Bool, Bool-cases, List, Option, Option-cases, String, [], arith, false, if_cases, inl, inr, none,
  refl, some, string_eq, subst, suc, sym, true, ℕ, ◌==◌, ◌∙◌, ◌∷◌, ◌≡◌, ◌≢◌, ◌≤◌,
}
use clean_node_server.Common.Assoc
use clean_node_server.Jobs.{
  known, cancelled_at, Rows, new_record, db_insert, is_pending, Known, on_rows, configured,
  cancel_job, JobRecord, JobConfig, save, register_job, reconfigure, persist_and_evict, Jobs,
}
use clean_node_server.Jobs.Worker.{
  no_export, no_handler, verdict_of, poll_due_jobs, ticks, bridge_called, succeeds, claimed,
  JobEvent, worker_tick, judged, handler_name, fails, run_claimed, retries_after, new_local,
  job_event, run_named, run_handler, run_export, run_due, local_call, job_events, claim_job,
  cancels, enqueues, HandlerRun, registers, JobLocal, Verdict, JobCall, job_calls, job_call,
  enqueue_job_at, backfill, apply_verdict, JobContext, turn,
}
use clean_node_server.Jobs.Worker.Attempts.{
  is_waiting-persist_and_evict, claim_job-refused, not_waiting, is_waiting-pending, is_waiting,
}

waiting_among : String → List (String × JobRecord) → Bool
waiting_among id m = elim (Assoc.get id m) [ none ↦ false | some r ↦ is_pending r.status ]

waiting_among-reconfigure :
    (id name : String) (cfg : JobConfig) (m : List (String × JobRecord))
    → waiting_among id (reconfigure name cfg m) ≡ waiting_among id m
unfolding waiting_among reconfigure configured
waiting_among-reconfigure id name cfg [] = refl
waiting_among-reconfigure id name cfg ((j, r) ∷ m) =
    ground (arith, waiting_among-reconfigure id name cfg m)

is_waiting-register_job :
    (id name : String) (cfg : JobConfig) (s : Jobs)
    → is_waiting id (register_job name cfg s) ≡ is_waiting id s
unfolding is_waiting register_job
is_waiting-register_job id name cfg s =
    unfold waiting_among in waiting_among-reconfigure id name cfg s.records

is_waiting-save :
    (id j : String) (r : JobRecord) (s : Jobs)
    → j ≢ id
    → is_waiting id (save j r s) ≡ is_waiting id s
unfolding is_waiting save on_rows
is_waiting-save id j r s n = ground (arith, Assoc.get-set_ne j id r s.records n)

is_waiting-evict :
    (id j : String) (r : JobRecord) (s : Jobs)
    → j ≢ id
    → is_waiting id (persist_and_evict j r s) ≡ is_waiting id s
unfolding is_waiting persist_and_evict save on_rows
is_waiting-evict id j r s n = ground (
  arith,
  Assoc.get-set_ne j id r s.records n,
  Assoc.get-delete j id (Assoc.set j r s.records),
  string_eq.beq_iff j id,
)

next_uuid-save : (j : String) (r : JobRecord) (s : Jobs) → (save j r s).next_uuid ≡ s.next_uuid
unfolding save on_rows
next_uuid-save j r s = ground arith

next_uuid-evict :
    (j : String) (r : JobRecord) (s : Jobs) → (persist_and_evict j r s).next_uuid ≡ s.next_uuid
unfolding persist_and_evict save on_rows
next_uuid-evict j r s = ground arith

module _ (random_uuid : ℕ → String) (id : String) where
  -- The job does not wait, and no id that is still to be drawn is its own.
  abbrev pub IsGone : Jobs → Type 0
  IsGone s = (is_waiting id s ≡ false) × ((n : ℕ) → s.next_uuid ≤ n → random_uuid n ≢ id)

  IsGone-same :
      (s t : Jobs)
      → is_waiting id t ≡ is_waiting id s
      → t.next_uuid ≡ s.next_uuid
      → IsGone s
      → IsGone t
  IsGone-same s t e f (h, unused) = (e ∙ h, λ n l. unused n (subst (λ k. k ≤ n) f l))

  IsGone-save : (j : String) (r : JobRecord) (s : Jobs) → j ≢ id → IsGone s → IsGone (save j r s)
  IsGone-save j r s n =
      IsGone-same s (save j r s) (is_waiting-save id j r s n) (next_uuid-save j r s)

  IsGone-evict :
      (j : String) (r : JobRecord) (s : Jobs) → j ≢ id → IsGone s → IsGone (persist_and_evict j r s)
  IsGone-evict j r s n =
      IsGone-same s (persist_and_evict j r s) (is_waiting-evict id j r s n) (next_uuid-evict j r s)

  IsGone-apply_verdict :
      (now : ℕ) (j : String) (v : Verdict) (s : Jobs)
      → j ≢ id
      → IsGone s
      → IsGone (apply_verdict now j v s)
  unfolding apply_verdict
  IsGone-apply_verdict now j v s n h = elim (Option-cases (Assoc.get j s.records)) [
    | inl e ↦ rw (e, apply_verdict) h
    | inr (r, e) ↦
        rw (e, apply_verdict)
          (if_cases IsGone (judged now v r).1 _ _ (λ _. IsGone-evict j _ s n h)
            (λ _. IsGone-save j _ s n h))
  ]

  IsGone-cancel_job : (now : ℕ) (j : String) (s : Jobs) → IsGone s → IsGone (cancel_job now j s).1
  unfolding cancel_job
  IsGone-cancel_job now j s h = elim (Option-cases (Assoc.get j s.records)) [
    | inl e ↦ rw (e, cancel_job) h
    | inr (r, e) ↦
        rw (e, cancel_job)
          (if_cases (λ (p : Bool × Jobs). IsGone p.1) (is_pending r.status) _ _
            (λ p. IsGone-evict j _ s (other r e p) h) (λ _. h))
  ]
    where
      other : (r : JobRecord) → Assoc.get j s.records ≡ some r → is_pending r.status ≡ true → j ≢ id
      other r e p q = absurd (
          let w : is_waiting j s ≡ false = subst (λ i. is_waiting i s ≡ false) (sym q) h.0 in
          let g = sym (is_waiting-pending j r s e p) ∙ w in cc)

  IsGone-cancelled :
      (now : ℕ) (s : Jobs)
      → (cancel_job now id s).0 ≡ true
      → ((n : ℕ) → s.next_uuid ≤ n → random_uuid n ≢ id)
      → IsGone (cancel_job now id s).1
  unfolding cancel_job cancelled_at
  IsGone-cancelled now s c unused = elim (Option-cases (Assoc.get id s.records)) [
    | inl e ↦ absurd (ground (arith, e, c))
    | inr (r, e) ↦ elim (Bool-cases (is_pending r.status)) [
      | inl p ↦
          rw (e, cancel_job)
            (rw (p) (
              is_waiting-persist_and_evict id (cancelled_at now r) s refl,
              λ n k. unused n (subst (λ i. i ≤ n) (next_uuid-evict id (cancelled_at now r) s) k),
            ))
      | inr p ↦ absurd (ground (arith, e, p, c))
    ]
  ]

  IsGone-set :
      (j : String) (r : JobRecord) (s : Jobs)
      → j ≢ id
      → IsGone s
      → IsGone (record s { records = Assoc.set j r s.records })
  unfolding is_waiting
  IsGone-set j r s n (h, unused) = (rw (Assoc.get-set_ne j id r s.records n, is_waiting) h, unused)

  IsGone-on_rows : (write : Rows → Rows) (s : Jobs) → IsGone s → IsGone (on_rows write s)
  unfolding on_rows is_waiting
  IsGone-on_rows write s h = elim (Option-cases s.db) [
    | inl e ↦ rw (e, on_rows) h
    | inr (rows, e) ↦ rw (e, on_rows) (if_cases IsGone s.writable _ _ (λ _. h) (λ _. h))
  ]

  IsGone-enqueue_job_at :
      (now : ℕ) (name args : String) (run_at_ms : ℕ) (s : Jobs)
      → IsGone s
      → IsGone (enqueue_job_at random_uuid now name args run_at_ms s).1
  unfolding enqueue_job_at is_waiting
  IsGone-enqueue_job_at now name args run_at_ms s (h, unused) =
      elim (Option-cases (Assoc.get name s.configs)) [
        | inl e ↦ rw (e, enqueue_job_at) (h, unused)
        | inr (cfg, e) ↦
            let j = random_uuid s.next_uuid in
            let r = new_record now name args run_at_ms cfg in
            rw (e, enqueue_job_at)
              (IsGone-on_rows (db_insert j r)
                (record s { records = Assoc.set j r s.records; next_uuid = suc s.next_uuid })
                (
                  (IsGone-set j r s (unused s.next_uuid (omega arith)) (h, unused)).0,
                  λ n l. unused n (omega arith),
                ))
      ]

  IsGone-job_call :
      (now : ℕ) (c : JobCall) (s : Jobs) → IsGone s → IsGone (job_call random_uuid now c s)
  unfolding job_call
  IsGone-job_call now (registers name cfg) s h =
      IsGone-same s _ (is_waiting-register_job id name cfg s) (unfold register_job in refl) h
  IsGone-job_call now (enqueues name args run_at_ms) s h =
      IsGone-enqueue_job_at now name args run_at_ms s h
  IsGone-job_call now (cancels j) s h = IsGone-cancel_job now j s h
  IsGone-job_call now (retries_after delay) s h = h
  IsGone-job_call now (fails reason) s h = h
  IsGone-job_call now (succeeds result) s h = h

  IsGone-job_calls :
      (now : ℕ) (cs : List JobCall) (l : JobLocal) (s : Jobs)
      → IsGone s
      → IsGone (job_calls random_uuid now cs (l, s)).1
  unfolding job_calls
  IsGone-job_calls now [] l s h = h
  IsGone-job_calls now (c ∷ cs) l s h =
      IsGone-job_calls now cs (local_call c l) (job_call random_uuid now c s)
        (IsGone-job_call now c s h)

  IsGone-backfill :
      (j : String) (r : JobRecord) (s : Jobs) → j ≢ id → IsGone s → IsGone (backfill j r s)
  unfolding backfill
  IsGone-backfill j r s n h = elim (Option-cases (Assoc.get r.name s.configs)) [
    | inl e ↦ rw (e, backfill) h
    | inr (cfg, e) ↦
        rw (e, backfill)
          (if_cases IsGone (r.handler == "") _ _ (λ _. IsGone-set j (configured cfg r) s n h)
            (λ _. h))
  ]

  module _ (exports : String → JobContext → (String → Option Known) → Option HandlerRun) where
    IsGone-run_export :
        (now : ℕ) (j : String) (o : Option HandlerRun) (name : String) (s : Jobs)
        → j ≢ id
        → IsGone s
        → IsGone (run_export random_uuid exports now j o name s)
    unfolding run_export
    IsGone-run_export now j none name s n h = IsGone-apply_verdict now j (no_export name) s n h
    IsGone-run_export now j (some run) name s n h =
        let (l, after) = job_calls random_uuid now run.calls (new_local, s) in
        IsGone-apply_verdict now j (verdict_of l run.threw) after n
          (IsGone-job_calls now run.calls new_local s h)

    IsGone-run_named :
        (now : ℕ) (j : String) (r : JobRecord) (name : String) (s : Jobs)
        → j ≢ id
        → IsGone s
        → IsGone (run_named random_uuid exports now j r name s)
    unfolding run_named
    IsGone-run_named now j r name s n h =
        if_cases IsGone (name == "") _ _ (λ _. IsGone-apply_verdict now j (no_handler r.name) s n h)
          (λ _.
            IsGone-run_export now j
              (exports name (record { id = j; args = r.args; attempt = r.attempt })
                (λ k. known k s))
              name s n h)

    IsGone-run_handler :
        (now : ℕ) (j : String) (s : Jobs)
        → j ≢ id
        → IsGone s
        → IsGone (run_handler random_uuid exports now j s)
    unfolding run_handler run_claimed
    IsGone-run_handler now j s n h = elim (Option-cases (Assoc.get j s.records)) [
      | inl e ↦ rw (e, run_handler) h
      | inr (r, e) ↦
          rw (e, run_handler)
            (IsGone-run_named now j r (handler_name r s) (backfill j r s) n
              (IsGone-backfill j r s n h))
    ]

    IsGone-turn :
        (now : ℕ) (j : String) (s : Jobs) → IsGone s → IsGone (turn random_uuid exports now j s)
    unfolding turn claim_job
    IsGone-turn now j s h = elim (Option-cases (Assoc.get j s.records)) [
      | inl e ↦ rw (e, claim_job) h
      | inr (r, e) ↦ elim (Bool-cases (is_pending r.status)) [
        | inl p ↦
            let n = other r e p in
            rw (e, claim_job)
              (rw (p)
                (IsGone-run_handler now j (save j (claimed now r) s) n (IsGone-save j _ s n h)))
        | inr p ↦ rw (e, claim_job) (rw (p) h)
      ]
    ]
      where
        other :
            (r : JobRecord) → Assoc.get j s.records ≡ some r → is_pending r.status ≡ true → j ≢ id
        other r e p q = absurd (
            let w : is_waiting j s ≡ false = subst (λ i. is_waiting i s ≡ false) (sym q) h.0 in
            let g = sym (is_waiting-pending j r s e p) ∙ w in cc)

    IsGone-run_due :
        (now : ℕ) (js : List String) (s : Jobs)
        → IsGone s
        → IsGone (run_due random_uuid exports now js s)
    unfolding run_due
    IsGone-run_due now [] s h = h
    IsGone-run_due now (j ∷ js) s h =
        IsGone-run_due now js (turn random_uuid exports now j s) (IsGone-turn now j s h)

    IsGone-job_events :
        (es : List JobEvent) (s : Jobs) → IsGone s → IsGone (job_events random_uuid exports es s)
    unfolding job_events job_event worker_tick
    IsGone-job_events [] s h = h
    IsGone-job_events (bridge_called now c ∷ es) s h =
        IsGone-job_events es _ (IsGone-job_call now c s h)
    IsGone-job_events (ticks now ∷ es) s h = IsGone-job_events es _ (
        if_cases IsGone s.worker_started _ _ (λ _. IsGone-run_due now (poll_due_jobs now s) s h)
          (λ _. h))

    turn-gone :
        (now : ℕ) (s : Jobs) → is_waiting id s ≡ false → turn random_uuid exports now id s ≡ s
    unfolding turn
    turn-gone now s h = rw (claim_job-refused now id s (not_waiting id s h)) refl

    pub turn-cancel_job :
        (now later : ℕ) (cs : List JobCall) (l : JobLocal) (job : String) (v : Verdict)
        (js : List String) (es : List JobEvent) (s : Jobs)
        → (cancel_job now id s).0 ≡ true
        → ((n : ℕ) → s.next_uuid ≤ n → random_uuid n ≢ id)
        → job ≢ id
        → let ended =
            apply_verdict now job v (job_calls random_uuid now cs (l, (cancel_job now id s).1)).1 in
          let t = job_events random_uuid exports es (run_due random_uuid exports now js ended) in
          turn random_uuid exports later id t ≡ t
    turn-cancel_job now later cs l job v js es s c unused n =
        let called = IsGone-job_calls now cs l _ (IsGone-cancelled now s c unused) in
        turn-gone later _
          (IsGone-job_events es _
            (IsGone-run_due now js _ (IsGone-apply_verdict now job v _ n called))).0
