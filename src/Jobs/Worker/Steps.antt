-- ===== src/Jobs/Worker/Steps.antt =====
-- Each operation on the two runs, and what a handler does: the two stay beside each other.
use clean_node_server.Jobs.Worker.Live.{keep_live}
use clean_node_server.Common.{
  some, true, false, Bool-cases, Option-cases, subst, ℕ, ◌≡◌, refl, sym, ap, arith, String,
  string_eq, inl, inr, ◌∙◌,
}
use clean_node_server.Common.Assoc
use clean_node_server.Jobs.{
  register_job, new_record, JobConfig, Rows, Jobs, JobRecord, cancelled_at, cancel_job, is_pending,
  is_live,
}
use clean_node_server.Jobs.Worker.{
  implicit_success, explicit_success, explicit_fail, failure, failure, explicit_fail,
  explicit_success, claim_job, claimed, apply_verdict, judged, retried, Verdict, enqueue_job_at,
}
use clean_node_server.Jobs.Worker.Mirror.{
  save-IsMirror, persist_and_evict-IsMirror, get-cached, IsMirror,
}
use clean_node_server.Jobs.Worker.Insert.{register_job-IsMirror, enqueued-IsMirror, IsFresh}

-- There is a table that says what the plain run does.
abbrev pub IsMirrored : (ℕ → String) → Jobs → Jobs → Type 0
IsMirrored random_uuid cached plain = (rows : Rows) × IsMirror random_uuid rows cached plain

pub IsMirrored-at :
    {random_uuid : ℕ → String} {c d p q : Jobs}
    → d ≡ c
    → q ≡ p
    → IsMirrored random_uuid c p
    → IsMirrored random_uuid d q
IsMirrored-at {random_uuid} {c} {d} {p} {q} e f m =
    subst (λ s. IsMirrored random_uuid s q) (sym e) (subst (IsMirrored random_uuid c) (sym f) m)

keep_live-some : (r : JobRecord) → is_live r.status ≡ true → keep_live (some r) ≡ some r
keep_live-some r h = ground (arith, h)

judged-over :
    (now : ℕ) (v : Verdict) (r : JobRecord)
    → (judged now v r).1 ≡ true
    → is_live (judged now v r).0.status ≡ false
unfolding judged
judged-over now implicit_success r h = refl
judged-over now (explicit_success result) r h = refl
judged-over now (explicit_fail reason) r h = refl
judged-over now (failure message override) r h = ground (arith, h)

judged-goes_on :
    (now : ℕ) (v : Verdict) (r : JobRecord)
    → (judged now v r).1 ≡ false
    → is_live (judged now v r).0.status ≡ true
unfolding judged retried
judged-goes_on now implicit_success r h = absurd (cc)
judged-goes_on now (explicit_success result) r h = absurd (cc)
judged-goes_on now (explicit_fail reason) r h = absurd (cc)
judged-goes_on now (failure message override) r h = ground (arith, h)

module _ {random_uuid : ℕ → String} {cached plain : Jobs}
    (m : IsMirrored random_uuid cached plain) where
  pub live-get :
      (id : String) (r : JobRecord)
      → Assoc.get id plain.records ≡ some r
      → is_live r.status ≡ true
      → Assoc.get id cached.records ≡ some r
  live-get id r e h = get-cached m.1 id ∙ ap keep_live e ∙ keep_live-some r h

  pub cancel_job-IsMirrored :
      (now : ℕ) (id : String)
      → IsMirrored random_uuid (cancel_job now id cached).1 (cancel_job now id plain).1
  unfolding cancel_job
  cancel_job-IsMirrored now id = elim (Option-cases (Assoc.get id plain.records)) [
    | inl e ↦ IsMirrored-at (ground (arith, e, get-cached m.1 id)) (ground (arith, e)) m
    | inr (r, e) ↦ elim (Bool-cases (is_pending r.status)) [
      | inl h ↦
          let k : is_live r.status ≡ true = ground (arith, h) in
          IsMirrored-at (ground (arith, live-get id r e k, h)) (ground (arith, e, h))
            (_, persist_and_evict-IsMirror m.1 id (cancelled_at now r) r e k refl)
      | inr h ↦ IsMirrored-at (ground (arith, e, h, get-cached m.1 id)) (ground (arith, e, h)) m
    ]
  ]

  pub claim_job-same :
      (now : ℕ) (id : String) → (claim_job now id cached).0 ≡ (claim_job now id plain).0
  unfolding claim_job
  claim_job-same now id = elim (Option-cases (Assoc.get id plain.records)) [
    | inl e ↦ ground (arith, e, get-cached m.1 id)
    | inr (r, e) ↦ ground (arith, e, get-cached m.1 id)
  ]

  pub claim_job-IsMirrored :
      (now : ℕ) (id : String)
      → IsMirrored random_uuid (claim_job now id cached).1 (claim_job now id plain).1
  unfolding claim_job claimed
  claim_job-IsMirrored now id = elim (Option-cases (Assoc.get id plain.records)) [
    | inl e ↦ IsMirrored-at (ground (arith, e, get-cached m.1 id)) (ground (arith, e)) m
    | inr (r, e) ↦ elim (Bool-cases (is_pending r.status)) [
      | inl h ↦
          let k : is_live r.status ≡ true = ground (arith, h) in
          IsMirrored-at (ground (arith, live-get id r e k, h)) (ground (arith, e, h))
            (_, save-IsMirror m.1 id (claimed now r) r e k refl)
      | inr h ↦ IsMirrored-at (ground (arith, e, h, get-cached m.1 id)) (ground (arith, e, h)) m
    ]
  ]

  -- An attempt ends for a live record.
  pub apply_verdict-IsMirrored :
      (now : ℕ) (id : String) (v : Verdict) (r : JobRecord)
      → Assoc.get id plain.records ≡ some r
      → is_live r.status ≡ true
      → IsMirrored random_uuid (apply_verdict now id v cached) (apply_verdict now id v plain)
  unfolding apply_verdict
  apply_verdict-IsMirrored now id v r e k = elim (Bool-cases (judged now v r).1) [
    | inl h ↦
        IsMirrored-at (ground (arith, live-get id r e k, h)) (ground (arith, e, h))
          (_, persist_and_evict-IsMirror m.1 id (judged now v r).0 r e k (judged-over now v r h))
    | inr h ↦
        IsMirrored-at (ground (arith, live-get id r e k, h)) (ground (arith, e, h))
          (_, save-IsMirror m.1 id (judged now v r).0 r e k (judged-goes_on now v r h))
  ]

  pub register_job-IsMirrored :
      (name : String) (cfg : JobConfig)
      → IsMirrored random_uuid (register_job name cfg cached) (register_job name cfg plain)
  register_job-IsMirrored name cfg = (m.0, register_job-IsMirror m.1 name cfg)

  pub enqueue_job_at-IsMirrored :
      IsFresh random_uuid
      → (now : ℕ) (name args : String) (run_at_ms : ℕ)
      → IsMirrored random_uuid
          (enqueue_job_at random_uuid now name args run_at_ms cached).1
          (enqueue_job_at random_uuid now name args run_at_ms plain).1
  unfolding enqueue_job_at new_record
  enqueue_job_at-IsMirrored fresh now name args run_at_ms =
      elim (Option-cases (Assoc.get name plain.configs)) [
        | inl e ↦ IsMirrored-at (ground (arith, e, m.1.configs)) (ground (arith, e)) m
        | inr (cfg, e) ↦
            IsMirrored-at (ground (arith, e, m.1.configs, m.1.uuids)) (ground (arith, e)) (
              _,
              enqueued-IsMirror m.1 fresh (new_record now name args run_at_ms cfg) refl refl refl,
            )
      ]
