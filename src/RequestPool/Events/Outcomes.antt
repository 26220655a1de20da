-- ===== src/RequestPool/Events/Outcomes.antt =====
-- What becomes of a request when its worker answers.
use clean_node_server.Common.{
  append-nil, without, ap, nat_beq_iff, ◌||◌, ◌∙◌, Bool, true, elem-without, elem, beq_refl, false,
  ℕ, ◌≡◌, refl, List, [], ◌∷◌, ◌++◌, some, arith, get_elem?, nat_eq,
}
use clean_node_server.Common.Assoc
use clean_node_server.RequestPool.{
  WorkerRequest, restart_slot, outcome_of, send_to_slot, is_free, drain_from, drain_queue, finish,
  answer_pending, settle, on_worker_message, RequestWorkerPool, PendingDispatch, WorkerSlot,
  WorkerMessage, Outcome,
}
use clean_node_server.RequestPool.Events.{answers, step}

pub get-settle :
    (id : ℕ) (o : Outcome) (done : List (ℕ × Outcome))
    → Assoc.has id done ≡ false
    → Assoc.get id (settle id o done) ≡ some o
unfolding settle
get-settle id o done h = rw h (ground (arith, beq_refl id))

-- A promise keeps its outcome.
pub settle-get :
    (id j : ℕ) (o : Outcome) (done : List (ℕ × Outcome)) {o' : Outcome}
    → Assoc.get j done ≡ some o'
    → Assoc.get j (settle id o done) ≡ some o'
unfolding settle
settle-get id j o done e =
    ground (arith, nat_beq_iff id j, Assoc.has-eq-get id done, Assoc.has-eq-get j done)

-- What the worker's slot does next: it is emptied and its worker terminated, or the worker is sent the
-- request that has waited longest, if any.
abbrev next_queue : Bool → List PendingDispatch → List PendingDispatch
next_queue true ds = ds
next_queue false [] = []
next_queue false (d ∷ ds) = ds

abbrev next_posted : Bool → ℕ → List PendingDispatch → List (ℕ × WorkerRequest)
next_posted true w ds = []
next_posted false w [] = []
next_posted false w (d ∷ ds) = (w, d.msg) ∷ []

abbrev next_terminating : Bool → ℕ → List ℕ → List ℕ
next_terminating true i is = i ∷ is
next_terminating false i is = is

elem-gone : (id : ℕ) (ids : List ℕ) → elem id (without id ids) ≡ false
elem-gone id ids = ground (arith, elem-without id id ids, beq_refl id)

has-settle :
    (id : ℕ) (o : Outcome) (done : List (ℕ × Outcome)) → Assoc.has id (settle id o done) ≡ true
unfolding settle
has-settle id o done = ground (arith, beq_refl id)

answer_pending-delivers :
    (w : ℕ) (m : WorkerMessage) (s : WorkerSlot) (ds : List PendingDispatch) (p : RequestWorkerPool)
    → p.queue ≡ ds
    → let q = answer_pending w s m p in
      let restarts = m.needs_restart || s.retiring in
      (q.settled ≡ settle m.id (outcome_of m.answer) p.settled)
      × (q.timers ≡ without m.id p.timers)
      × (q.queue ≡ next_queue restarts ds)
      × (q.posted ≡ p.posted ++ next_posted restarts w ds)
      × (q.terminating ≡ next_terminating restarts s.index p.terminating)
unfolding answer_pending finish drain_queue drain_from is_free send_to_slot restart_slot
answer_pending-delivers w m s [] p e = ground (arith, e, append-nil p.posted)
answer_pending-delivers w m s (d ∷ ds) p e = ground (arith, e, append-nil p.posted)

on_worker_message-pending :
    (w : ℕ) (m : WorkerMessage) (s : WorkerSlot) (d : PendingDispatch) (p : RequestWorkerPool)
    → get_elem? p.objects w ≡ some s
    → s.pending ≡ some d
    → d.id ≡ m.id
    → on_worker_message w m p ≡ answer_pending w s m p
unfolding on_worker_message
on_worker_message-pending w m s d p e f g =
    rw (e, on_worker_message) (rw (f) (rw (g, beq_refl m.id) refl))

pub answer-delivers :
    (w : ℕ) (m : WorkerMessage) (s : WorkerSlot) (d : PendingDispatch) (p : RequestWorkerPool)
    → get_elem? p.objects w ≡ some s
    → s.pending ≡ some d
    → d.id ≡ m.id
    → let q = step p (answers w m) in
      let restarts = m.needs_restart || s.retiring in
      (q.settled ≡ settle m.id (outcome_of m.answer) p.settled)
      × (Assoc.has m.id q.settled ≡ true)
      × (elem m.id q.timers ≡ false)
      × (q.queue ≡ next_queue restarts p.queue)
      × (q.posted ≡ p.posted ++ next_posted restarts w p.queue)
      × (q.terminating ≡ next_terminating restarts s.index p.terminating)
unfolding step
answer-delivers w m s d p e f g = rw (on_worker_message-pending w m s d p e f g) (
    let (settled, timers, queue, posted, terminating) =
      answer_pending-delivers w m s p.queue p refl in
    (
      settled,
      ap (Assoc.has m.id) settled ∙ has-settle m.id (outcome_of m.answer) p.settled,
      ap (elem m.id) timers ∙ elem-gone m.id p.timers,
      queue,
      posted,
      terminating,
    ))
