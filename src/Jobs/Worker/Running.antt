-- ===== src/Jobs/Worker/Running.antt =====
-- The record that the worker has claimed: the calls of its handler leave it running.
use clean_node_server.Jobs.Worker.Live.{Records}
use clean_node_server.Common.{
  [], ◌∷◌, none, some, Bool, true, false, Bool-cases, Option-cases, ℕ, ◌≡◌, refl, arith, String,
  ◌==◌, string_eq, if◌then◌else◌, inl, inr, ◌∙◌,
}
use clean_node_server.Common.Assoc
use clean_node_server.Jobs.{
  new_record, is_pending, on_rows, running, Jobs, JobRecord, JobConfig, reconfigure, configured,
  register_job, cancel_job, persist_and_evict, save, cancelled_at,
}
use clean_node_server.Jobs.Worker.{
  claimed, claim_job, enqueue_job_at, job_call, JobCall, registers, enqueues, cancels,
  retries_after, fails, succeeds,
}
use clean_node_server.Jobs.Worker.Insert.{missing, IsFresh}
use clean_node_server.Jobs.Worker.Steps.{
  cancel_job-IsMirrored, enqueue_job_at-IsMirrored, register_job-IsMirrored, IsMirrored,
}

-- The record that the worker has claimed.
abbrev pub IsRunning : String → Jobs → Type 0
IsRunning id s = (r : JobRecord) × (Assoc.get id s.records ≡ some r) × (r.status ≡ running)

get-reconfigure :
    (id name : String) (cfg : JobConfig) (m : Records) (r : JobRecord)
    → Assoc.get id m ≡ some r
    → Assoc.get id (reconfigure name cfg m) ≡ some (if r.name == name then configured cfg r else r)
unfolding reconfigure
get-reconfigure id name cfg [] r e = absurd (cc)
get-reconfigure id name cfg ((j, w) ∷ m) r e = ground (arith, e, get-reconfigure id name cfg m r)

configured-status :
    (b : Bool) (cfg : JobConfig) (r : JobRecord)
    → (if b then configured cfg r else r).status ≡ r.status
unfolding configured
configured-status true cfg r = refl
configured-status false cfg r = refl

get-persist_and_evict :
    (id j : String) (r : JobRecord) (s : Jobs)
    → s.db ≡ none
    → Assoc.get id (persist_and_evict j r s).records
      ≡ (if j == id then some r else Assoc.get id s.records)
unfolding persist_and_evict save on_rows
get-persist_and_evict id j r s no_db = ground (arith, no_db, Assoc.get-set j id r s.records)

-- Only pending jobs can be cancelled.
cancel_job-IsRunning :
    (now : ℕ) (id j : String) (s : Jobs)
    → s.db ≡ none
    → IsRunning id s
    → IsRunning id (cancel_job now j s).1
unfolding cancel_job
cancel_job-IsRunning now id j s no_db (r, e, h) = elim (Option-cases (Assoc.get j s.records)) [
  | inl f ↦ (r, ground (arith, e, f), h)
  | inr (w, f) ↦ elim (Bool-cases (is_pending w.status)) [
    | inl p ↦ (
      r,
      ground (
        arith,
        e,
        f,
        p,
        h,
        string_eq.beq_iff j id,
        get-persist_and_evict id j (cancelled_at now w) s no_db,
      ),
      h,
    )
    | inr p ↦ (r, ground (arith, e, f, p), h)
  ]
]

module _ {random_uuid : ℕ → String} (fresh : IsFresh random_uuid) {cached plain : Jobs}
    (m : IsMirrored random_uuid cached plain) where
  pub job_call-IsMirrored :
      (now : ℕ) (c : JobCall)
      → IsMirrored random_uuid
          (job_call random_uuid now c cached)
          (job_call random_uuid now c plain)
  unfolding job_call
  job_call-IsMirrored now (registers name cfg) = register_job-IsMirrored m name cfg
  job_call-IsMirrored now (enqueues name args run_at_ms) =
      enqueue_job_at-IsMirrored m fresh now name args run_at_ms
  job_call-IsMirrored now (cancels id) = cancel_job-IsMirrored m now id
  job_call-IsMirrored now (retries_after delay) = m
  job_call-IsMirrored now (fails reason) = m
  job_call-IsMirrored now (succeeds result) = m

  enqueue_job_at-IsRunning :
      (now : ℕ) (id name args : String) (run_at_ms : ℕ)
      → IsRunning id plain
      → IsRunning id (enqueue_job_at random_uuid now name args run_at_ms plain).1
  unfolding enqueue_job_at on_rows
  enqueue_job_at-IsRunning now id name args run_at_ms (r, e, h) =
      elim (Option-cases (Assoc.get name plain.configs)) [
        | inl f ↦ (r, ground (arith, e, f), h)
        | inr (cfg, f) ↦ (
          r,
          ground (
            arith,
            e,
            f,
            m.1.no_db,
            missing m.1 fresh,
            Assoc.has-eq-get id plain.records,
            string_eq.beq_iff (random_uuid plain.next_uuid) id,
            Assoc.get-set (random_uuid plain.next_uuid) id (new_record now name args run_at_ms cfg)
                plain.records,
          ),
          h,
        )
      ]

  pub job_call-IsRunning :
      (now : ℕ) (id : String) (c : JobCall)
      → IsRunning id plain
      → IsRunning id (job_call random_uuid now c plain)
  unfolding job_call register_job
  job_call-IsRunning now id (registers name cfg) (r, e, h) = (
    _,
    get-reconfigure id name cfg plain.records r e,
    configured-status (r.name == name) cfg r ∙ h,
  )
  job_call-IsRunning now id (enqueues name args run_at_ms) h =
      enqueue_job_at-IsRunning now id name args run_at_ms h
  job_call-IsRunning now id (cancels j) h = cancel_job-IsRunning now id j plain m.1.no_db h
  job_call-IsRunning now id (retries_after delay) h = h
  job_call-IsRunning now id (fails reason) h = h
  job_call-IsRunning now id (succeeds result) h = h

pub claim_job-IsRunning :
    (now : ℕ) (id : String) (s : Jobs)
    → s.db ≡ none
    → (claim_job now id s).0 ≡ true
    → IsRunning id (claim_job now id s).1
unfolding claim_job claimed save on_rows
claim_job-IsRunning now id s no_db h = elim (Option-cases (Assoc.get id s.records)) [
  | inl e ↦ absurd (ground (arith, e, h))
  | inr (r, e) ↦ (
    claimed now r,
    ground (arith, e, h, no_db, Assoc.get-set_self id (claimed now r) s.records),
    refl,
  )
]
