-- ===== src/Jobs/Worker/Recovery.antt =====
-- What is known of the jobs after a restart, and of one whose end does not reach the table.
use clean_node_server.Common.{
  subst, beq_refl, ℕ, ◌-◌, ◌≡◌, refl, sym, ◌∙◌, String, true, false, List, [], ◌∷◌, Option, none,
  some, arith, ◌⊎◌, inl, inr, Bool-cases, string_eq, if◌then◌else◌,
}
use clean_node_server.Common.Assoc
use clean_node_server.Jobs.{
  db_update, on_rows, save, persist_and_evict, is_running, Jobs, JobRecord, JobStatus, pending,
  Rows, DbRowJob, start_job_worker, db_cleanup_stale, recover_records, reset_running, recovered,
  is_stale, is_live, job_status, known, retention_ms,
}
use clean_node_server.Jobs.Worker.{apply_verdict, judged, Verdict}

-- What is kept of a row.
abbrev pub kept_row : ℕ → Option DbRowJob → Option DbRowJob
kept_row now none = none
kept_row now (some row) = if is_stale (now - retention_ms) row then none else some row

has-db_cleanup_stale :
    (now : ℕ) (id : String) (rows : Rows)
    → Assoc.has id rows ≡ false
    → Assoc.has id (db_cleanup_stale now rows) ≡ false
unfolding db_cleanup_stale
has-db_cleanup_stale now id [] h = refl
has-db_cleanup_stale now id ((j, row) ∷ rows) h =
    ground (arith, h, has-db_cleanup_stale now id rows)

db_cleanup_stale-IsMap :
    (now : ℕ) (rows : Rows) → Assoc.IsMap rows → Assoc.IsMap (db_cleanup_stale now rows)
unfolding db_cleanup_stale
db_cleanup_stale-IsMap now [] h = tt
db_cleanup_stale-IsMap now ((j, row) ∷ rows) h =
    ground (arith, h.0, db_cleanup_stale-IsMap now rows h.1, has-db_cleanup_stale now j rows h.0)

get-db_cleanup_stale :
    (now : ℕ) (id : String) (rows : Rows)
    → Assoc.IsMap rows
    → Assoc.get id (db_cleanup_stale now rows) ≡ kept_row now (Assoc.get id rows)
unfolding db_cleanup_stale
get-db_cleanup_stale now id [] h = refl
get-db_cleanup_stale now id ((j, row) ∷ rows) h = ground (
  arith,
  h.0,
  get-db_cleanup_stale now id rows h.1,
  has-db_cleanup_stale now j rows h.0,
  Assoc.get-eq-none j (db_cleanup_stale now rows),
  string_eq.beq_iff j id,
)

abbrev recovered_row : ℕ → Option DbRowJob → Option JobRecord → Option JobRecord
recovered_row now none old = old
recovered_row now (some row) old = if is_live row.status then some (recovered now row) else old

get-recover_records :
    (now : ℕ) (id : String) (rows : Rows) (records : List (String × JobRecord))
    → Assoc.IsMap rows
    → Assoc.get id (recover_records now rows records)
      ≡ recovered_row now (Assoc.get id rows) (Assoc.get id records)
unfolding recover_records
get-recover_records now id [] records h = refl
get-recover_records now id ((j, row) ∷ rows) records h =
    get-recover_records now id rows
      (if is_live row.status then Assoc.set j (recovered now row) records else records) h.1
    ∙ ground (
      arith,
      h.0,
      Assoc.get-eq-none j rows h.0,
      Assoc.get-set j id (recovered now row) records,
      string_eq.beq_iff j id,
    )

abbrev reset_row : Option DbRowJob → Option DbRowJob
reset_row none = none
reset_row (some row) = some (if is_running row.status then record row { status = pending } else row)

get-reset_running :
    (id : String) (rows : Rows) → Assoc.get id (reset_running rows) ≡ reset_row (Assoc.get id rows)
unfolding reset_running
get-reset_running id [] = refl
get-reset_running id ((j, row) ∷ rows) = ground (arith, get-reset_running id rows)

-- What a restart makes of a row.
abbrev pub restarted : ℕ → Option DbRowJob → Option JobStatus
restarted now none = none
restarted now (some row) =
    if is_live row.status
    then some pending
    else if is_stale (now - retention_ms) row
    then none
    else some row.status

-- When the worker starts with nothing in memory on a table whose keys are distinct, a row that was
-- pending or running is a pending job, one that ended more than a week ago is not found, and every other
-- row keeps its status.
pub job_status-start_job_worker :
    (now : ℕ) (rows : Rows) (id : String) (s : Jobs)
    → s.worker_started ≡ false
    → s.records ≡ []
    → Assoc.IsMap rows
    → job_status id (start_job_worker now (some rows) s) ≡ restarted now (Assoc.get id rows)
unfolding job_status known start_job_worker
job_status-start_job_worker now rows id s h e d = ground (
  arith,
  h,
  e,
  get-recover_records now id (db_cleanup_stale now rows) [] (db_cleanup_stale-IsMap now rows d),
  get-db_cleanup_stale now id rows d,
  get-reset_running id (db_cleanup_stale now rows),
)

unwritten :
    (id : String) (r : JobRecord) (s : Jobs) (rows : Rows)
    → s.db ≡ some rows
    → (s.writable ≡ false) ⊎ (Assoc.get id rows ≡ none)
    → persist_and_evict id r s ≡ record s { records = Assoc.delete id (Assoc.set id r s.records) }
unfolding persist_and_evict save on_rows db_update
unwritten id r s rows e (inl h) = ground (arith, e, h)
unwritten id r s rows e (inr h) = elim (Bool-cases s.writable) [
  | inl w ↦ ground (arith, e, h, w)
  | inr w ↦ ground (arith, e, w)
]

apply_verdict-over :
    (now : ℕ) (id : String) (v : Verdict) (r : JobRecord) (s : Jobs)
    → Assoc.get id s.records ≡ some r
    → (judged now v r).1 ≡ true
    → apply_verdict now id v s ≡ persist_and_evict id (judged now v r).0 s
unfolding apply_verdict
apply_verdict-over now id v r s f over = rw (f, over, apply_verdict)

-- If the table takes no write, or has no row of a job, then the status of the job after it has ended is
-- that of its row, or 'not_found' without one, and not the one it ended with.
pub apply_verdict-unsaved :
    (now : ℕ) (id : String) (v : Verdict) (r : JobRecord) (s : Jobs) (rows : Rows)
    → s.db ≡ some rows
    → Assoc.get id s.records ≡ some r
    → (judged now v r).1 ≡ true
    → (s.writable ≡ false) ⊎ (Assoc.get id rows ≡ none)
    → job_status id (apply_verdict now id v s)
      ≡ (elim (Assoc.get id rows) [ none ↦ none | some row ↦ some row.status ])
unfolding job_status known apply_verdict
apply_verdict-unsaved now id v r s rows e f over h =
    subst
      (λ t.
        job_status id t ≡ (elim (Assoc.get id rows) [ none ↦ none | some row ↦ some row.status ]))
      (sym (apply_verdict-over now id v r s f over ∙ unwritten id (judged now v r).0 s rows e h))
      (ground
        (arith, e, Assoc.get-delete id id (Assoc.set id (judged now v r).0 s.records), beq_refl id))
