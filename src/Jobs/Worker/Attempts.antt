-- ===== src/Jobs/Worker/Attempts.antt =====
-- How often a job is tried.
use clean_node_server.Common.{
  length, ap, ◌∷◌, ◌==◌, [], List, string_eq, Bool-cases, Option-cases, beq_refl, inl, inr,
  if◌then◌else◌, ◌⊎◌, ◌∙◌, inr, ◌∙◌, inl, beq_refl, ◌⊎◌, if◌then◌else◌, Bool-cases, ℕ, ◌+◌, ◌-◌,
  ◌≡◌, refl, String, Bool, true, false, Option, none, some, arith, max, ltb,
}
use clean_node_server.Common.Assoc
use clean_node_server.Jobs.{is_pending, Jobs, JobRecord, persist_and_evict, save, Known, on_rows}
use clean_node_server.Jobs.Worker.{
  new_local, verdict_of, job_calls, run_export, run_named, run_handler, run_claimed, handler_name,
  backfill, apply_verdict, claimed, claim_job, judged, failure, retried, turn, HandlerRun,
  JobContext,
}

-- Whether a job is in the cache and pending, so that a tick may run it.
unfoldable pub is_waiting : String → Jobs → Bool
is_waiting id s = elim (Assoc.get id s.records) [ none ↦ false | some r ↦ is_pending r.status ]

get-save : (id : String) (r : JobRecord) (s : Jobs) → Assoc.get id (save id r s).records ≡ some r
unfolding save on_rows
get-save id r s = ground (arith, Assoc.get-set_self id r s.records)

-- A record that has ended is deleted, or stays as one that is not pending.
pub is_waiting-persist_and_evict :
    (id : String) (r : JobRecord) (s : Jobs)
    → is_pending r.status ≡ false
    → is_waiting id (persist_and_evict id r s) ≡ false
unfolding persist_and_evict is_waiting
is_waiting-persist_and_evict id r s h =
    ground (arith, h, get-save id r s, Assoc.get-delete id id (save id r s).records, beq_refl id)

judged-retried :
    (now : ℕ) (message : String) (r : JobRecord)
    → ltb (r.attempt + 1) r.max_attempts ≡ true
    → judged now (failure message none) (claimed now r)
      ≡ (retried now message none (claimed now r), false)
unfolding judged claimed
judged-retried now message r h = rw (h)

apply_verdict-retried :
    (now : ℕ) (id message : String) (r : JobRecord) (s : Jobs)
    → Assoc.get id s.records ≡ some (claimed now r)
    → ltb (r.attempt + 1) r.max_attempts ≡ true
    → Assoc.get id (apply_verdict now id (failure message none) s).records
      ≡ some (retried now message none (claimed now r))
unfolding apply_verdict
apply_verdict-retried now id message r s e h =
    rw (e, apply_verdict)
      (ap
          (λ (p : JobRecord × Bool).
            Assoc.get id (if p.1 then persist_and_evict id p.0 s else save id p.0 s).records)
          (judged-retried now message r h)
        ∙ get-save id (retried now message none (claimed now r)) s)

apply_verdict-ended :
    (now : ℕ) (id message : String) (r : JobRecord) (s : Jobs)
    → Assoc.get id s.records ≡ some (claimed now r)
    → ltb (r.attempt + 1) r.max_attempts ≡ false
    → is_waiting id (apply_verdict now id (failure message none) s) ≡ false
unfolding apply_verdict judged claimed
apply_verdict-ended now id message r s e h =
    rw (e, apply_verdict) (rw (h) (is_waiting-persist_and_evict id _ s refl))

-- A record that is not pending is not claimed.
pub claim_job-refused :
    (now : ℕ) (id : String) (s : Jobs)
    → (Assoc.get id s.records ≡ none)
      ⊎ ((r : JobRecord) × (Assoc.get id s.records ≡ some r) × (is_pending r.status ≡ false))
    → claim_job now id s ≡ (false, s)
unfolding claim_job
claim_job-refused now id s (inl e) = ground (arith, e)
claim_job-refused now id s (inr (r, e, h)) = ground (arith, e, h)

pub is_waiting-pending :
    (id : String) (r : JobRecord) (s : Jobs)
    → Assoc.get id s.records ≡ some r
    → is_pending r.status ≡ true
    → is_waiting id s ≡ true
unfolding is_waiting
is_waiting-pending id r s e p = ground (arith, e, p)

pub not_waiting :
    (id : String) (s : Jobs)
    → is_waiting id s ≡ false
    → (Assoc.get id s.records ≡ none)
      ⊎ ((r : JobRecord) × (Assoc.get id s.records ≡ some r) × (is_pending r.status ≡ false))
unfolding is_waiting
not_waiting id s h = elim (Option-cases (Assoc.get id s.records)) [
  | inl e ↦ inl e
  | inr (r, e) ↦ inr (r, e, ground (arith, e, h))
]

backfill-named :
    (id : String) (r : JobRecord) (s : Jobs) → (r.handler == "") ≡ false → backfill id r s ≡ s
unfolding backfill
backfill-named id r s h = ground (arith, h)

handler_name-named :
    (r : JobRecord) (s : Jobs) → (r.handler == "") ≡ false → handler_name r s ≡ r.handler
unfolding handler_name
handler_name-named r s h = ground (arith, h)

module _ (random_uuid : ℕ → String)
    (exports : String → JobContext → (String → Option Known) → Option HandlerRun) where
  -- Turns of one job, at the given times.
  pub turns : List ℕ → String → Jobs → Jobs
  unfolding turn
  turns [] id s = s
  turns (now ∷ nows) id s = turns nows id (turn random_uuid exports now id s)

  turns-over :
      (nows : List ℕ) (id : String) (s : Jobs) → is_waiting id s ≡ false → turns nows id s ≡ s
  unfolding turns turn
  turns-over [] id s h = refl
  turns-over (now ∷ nows) id s h =
      ap (turns nows id) (rw (claim_job-refused now id s (not_waiting id s h)) refl)
      ∙ turns-over nows id s h

  -- A handler that throws and makes no call of the bridge.
  abbrev IsThrowing : String → String → Type 0
  IsThrowing name message =
      (context : JobContext) (told : String → Option Known)
      → exports name context told ≡ some (record { calls = []; threw = some message })

  run_claimed-throwing :
      (now : ℕ) (id message : String) (r : JobRecord) (s : Jobs)
      → (r.handler == "") ≡ false
      → IsThrowing r.handler message
      → run_claimed random_uuid exports now id r s ≡ apply_verdict now id (failure message none) s
  unfolding run_claimed run_named run_export job_calls verdict_of new_local
  run_claimed-throwing now id message r s named throws =
      ap (λ t. run_named random_uuid exports now id r (handler_name r s) t)
        (backfill-named id r s named)
      ∙ ap (λ n. run_named random_uuid exports now id r n s) (handler_name-named r s named)
      ∙ rw (named, run_named)
          (ap (λ o. run_export random_uuid exports now id o r.handler s) (throws _ _))

  turn-throwing :
      (now : ℕ) (id message : String) (r : JobRecord) (s : Jobs)
      → Assoc.get id s.records ≡ some r
      → is_pending r.status ≡ true
      → (r.handler == "") ≡ false
      → IsThrowing r.handler message
      → turn random_uuid exports now id s
        ≡ apply_verdict now id (failure message none) (save id (claimed now r) s)
  unfolding turn claim_job run_handler claimed
  turn-throwing now id message r s e p named throws =
      rw (e, claim_job)
        (rw (p) (
          rw (get-save id (claimed now r) s, run_handler)
            (run_claimed-throwing now id message (claimed now r) (save id (claimed now r) s) named
              throws)))

  pub is_waiting-turns :
      (nows : List ℕ) (id message : String) (r : JobRecord) (s : Jobs)
      → Assoc.get id s.records ≡ some r
      → is_pending r.status ≡ true
      → (r.handler == "") ≡ false
      → IsThrowing r.handler message
      → is_waiting id (turns nows id s) ≡ ltb (length nows) (max 1 (r.max_attempts - r.attempt))
  unfolding turns
  is_waiting-turns [] id message r s e p named throws = is_waiting-pending id r s e p ∙ ground arith
  is_waiting-turns (now ∷ nows) id message r s e p named throws =
      ap (λ t. is_waiting id (turns nows id t)) (turn-throwing now id message r s e p named throws)
      ∙ elim (Bool-cases (ltb (r.attempt + 1) r.max_attempts)) [
        | inl more ↦
            unfold claimed retried in
            is_waiting-turns nows id message (retried now message none (claimed now r)) _
              (apply_verdict-retried now id message r _ (get-save id (claimed now r) s) more) refl
              named throws
            ∙ ground (arith, more)
        | inr last ↦
            let over =
              apply_verdict-ended now id message r _ (get-save id (claimed now r) s) last in
            ap (is_waiting id) (turns-over nows id _ over) ∙ over ∙ ground (arith, last)
      ]
