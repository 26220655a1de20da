-- ===== src/RequestPool/Events/Busy/Answers.antt =====
-- The free workers and the queue, while workers answer, crash and start.
use clean_node_server.Common.{
  ◌∙◌, ◌==◌, ◌||◌, set-set, if_cases, get_elem?-set_self, Option-cases, inr, inl, true, false, ◌⊎◌,
  ℕ, ◌≡◌, refl, List, [], ◌∷◌, none, some, arith, length, get_elem?, set, nat_eq,
}
use clean_node_server.RequestPool.{
  answer_pending, restart_slot, on_worker_message, idle_slot, handle_worker_crash, finish,
  drain_from, find_slot, is_free, drain_queue, RequestWorkerPool, PendingDispatch, WorkerSlot,
  WorkerMessage, Outcome,
}
use clean_node_server.RequestPool.Events.{find_free, install}
use clean_node_server.RequestPool.Events.Placing.{
  find_slot-append, find_slot-set, find_slot-assign-some, Placed-assign-some, get_elem?-lt,
  find_slot-restart, find_slot-assign-none, Placed-append, get_elem?-last, Placed-assign-none,
  Placed-set, Placed,
}

pub record IsBusy (p : RequestWorkerPool) : Type 0 where
  pub placed : Placed p.objects 0 p.slots
  pub busy : (p.queue ≡ []) ⊎ (find_free p ≡ none)

-- Object `w` stands in the pool, and it is the only one that may be free while requests wait.
record Idles (w : ℕ) (s : WorkerSlot) (p : RequestWorkerPool) : Type 0 where
  there : get_elem? p.objects w ≡ some s
  placed : Placed p.objects 0 p.slots
  others :
      (p.queue ≡ [])
      ⊎ ((s' : WorkerSlot)
          → is_free s' ≡ false
          → find_slot is_free (set p.objects w s') p.slots ≡ none)

drain_queue-IsBusy :
    (w : ℕ) (s : WorkerSlot) (p : RequestWorkerPool)
    → is_free s ≡ true
    → Idles w s p
    → IsBusy (drain_queue w s p)
unfolding drain_queue find_free is_free
drain_queue-IsBusy w s p f v = drain p.queue refl
  where
    taken :
        (d : PendingDispatch) (ds : List PendingDispatch)
        → p.queue ≡ d ∷ ds
        → find_slot is_free (set p.objects w (record s { pending = some d })) p.slots ≡ none
    taken d ds e = elim v.others [ inl g ↦ cc | inr g ↦ g (record s { pending = some d }) refl ]

    drain : (ds : List PendingDispatch) → p.queue ≡ ds → IsBusy (drain_from w s ds p)
    drain [] e = record { placed = v.placed; busy = inl e }
    drain (d ∷ ds) e = rw f (record {
      placed =
          Placed-set p.objects w s (record s { pending = some d }) v.there refl 0 p.slots v.placed;
      busy = inr (taken d ds e);
    })

-- The object has answered and stays in its slot.
finish-Idles :
    (w : ℕ) (s : WorkerSlot) (id : ℕ) (o : Outcome) (p : RequestWorkerPool)
    → get_elem? p.objects w ≡ some s
    → IsBusy p
    → Idles w (record s { pending = none }) (finish w s id o p)
unfolding finish find_free
finish-Idles w s id o p e v = record {
  there = get_elem?-set_self p.objects w _ (get_elem?-lt p.objects w e);
  placed = Placed-set p.objects w s (record s { pending = none }) e refl 0 p.slots v.placed;
  others = elim v.busy [
    | inl g ↦ inl g
    | inr g ↦
        inr λ s' h. rw (set-set p.objects w) (find_slot-set p.objects w s s' e is_free h p.slots g)
  ];
}

-- The object has answered and is taken out of its slot.
restart-IsBusy :
    (w : ℕ) (s : WorkerSlot) (id : ℕ) (o : Outcome) (p : RequestWorkerPool)
    → get_elem? p.objects w ≡ some s
    → IsBusy p
    → IsBusy (restart_slot (record s { pending = none }) (finish w s id o p))
unfolding restart_slot finish find_free
restart-IsBusy w s id o p e v = record {
  placed =
      Placed-assign-none _ 0 s.index p.slots
        (Placed-set p.objects w s (record s { pending = none }) e refl 0 p.slots v.placed);
  busy = elim v.busy [
    | inl g ↦ inl g
    | inr g ↦ inr (
        find_slot-restart p.objects w s (record s { pending = none }) e is_free 0 s.index p.slots
          (omega arith) v.placed g)
  ];
}

pub on_worker_message-IsBusy :
    (w : ℕ) (m : WorkerMessage) (p : RequestWorkerPool)
    → IsBusy p
    → IsBusy (on_worker_message w m p)
unfolding on_worker_message is_free
on_worker_message-IsBusy w m p v = elim (Option-cases (get_elem? p.objects w)) [
  | inl e ↦ rw (e, on_worker_message) v
  | inr (s, e) ↦ elim (Option-cases s.pending) [
    | inl f ↦ rw (e, on_worker_message) (rw (f, on_worker_message) v)
    | inr (d, f) ↦
        rw (e, on_worker_message)
          (rw (f, on_worker_message)
            (if_cases IsBusy (d.id == m.id) _ _ (λ _. answered_IsBusy s e) (λ _. v)))
  ]
]
  where
    answered_IsBusy :
        (s : WorkerSlot) → get_elem? p.objects w ≡ some s → IsBusy (answer_pending w s m p)
    answered_IsBusy s e =
        if_cases IsBusy (m.needs_restart || s.retiring) _ _ (λ _. restart-IsBusy w s m.id _ p e v)
          (λ keep.
            drain_queue-IsBusy w (record s { pending = none }) _ (ground arith)
              (finish-Idles w s m.id _ p e v))

pub handle_worker_crash-IsBusy :
    (w : ℕ) (p : RequestWorkerPool) → IsBusy p → IsBusy (handle_worker_crash w p)
unfolding handle_worker_crash find_free
handle_worker_crash-IsBusy w p v = elim (Option-cases (get_elem? p.objects w)) [
  | inl e ↦ rw (e, handle_worker_crash) v
  | inr (s, e) ↦ elim (Option-cases s.pending) [
    | inl f ↦
        rw (e, handle_worker_crash)
          (rw (f, handle_worker_crash)
            (record {
              placed = Placed-assign-none p.objects 0 s.index p.slots v.placed;
              busy = elim v.busy [
                | inl g ↦ inl g
                | inr g ↦ inr (find_slot-assign-none p.objects is_free s.index p.slots g)
              ];
            }))
    | inr (d, f) ↦
        rw (e, handle_worker_crash) (rw (f, handle_worker_crash) (restart-IsBusy w s d.id _ p e v))
  ]
]

pub install-IsBusy : (i : ℕ) (p : RequestWorkerPool) → IsBusy p → IsBusy (install i p)
unfolding install idle_slot find_free is_free
install-IsBusy i p v =
    let w = length p.objects in
    let there = get_elem?-last p.objects (idle_slot i) in
    let old = Placed-append p.objects (idle_slot i ∷ []) 0 p.slots v.placed in
    drain_queue-IsBusy w (idle_slot i) _ refl (record {
      there = there;
      placed = Placed-assign-some _ w (idle_slot i) there 0 i p.slots (omega arith) old;
      others = elim v.busy [
        | inl g ↦ inl g
        | inr g ↦ inr λ s' h.
            find_slot-assign-some _ is_free w s'
              (get_elem?-set_self _ w s' (get_elem?-lt _ w there)) h i p.slots
              (find_slot-set _ w (idle_slot i) s' there is_free h p.slots
                (find_slot-append p.objects is_free (idle_slot i ∷ []) 0 p.slots v.placed ∙ g))
      ];
    })
