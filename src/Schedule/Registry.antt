-- ===== src/Schedule/Registry.antt =====
-- Cancelling a schedule.
use clean_node_server.Common.{
  get_elem?-set_self, ℕ, zero, suc, ◌<◌, ◌≡◌, refl, sym, subst, ◌∙◌, String, Bool, true, false,
  List, [], ◌∷◌, none, some, arith, length, get_elem?, set, nat_eq, string_eq,
}
use clean_node_server.Common.Assoc
use clean_node_server.Schedule.{
  Scheduler, ScheduleEntry, clear_timer, cancel_entry, schedule_cancel,
}

get_elem?-lt {ℓ} :
    {A : Type ℓ} (xs : List A) (i : ℕ) (a : A) → get_elem? xs i ≡ some a → i < length xs
get_elem?-lt [] i a e = absurd (cc)
get_elem?-lt (x ∷ xs) zero a e = omega arith
get_elem?-lt (x ∷ xs) (suc i) a e = let h = get_elem?-lt xs i a e in omega arith

schedule_cancel-entry :
    (name : String) (i : ℕ) (x : ScheduleEntry) (s : Scheduler)
    → Assoc.get name s.schedules ≡ some i
    → get_elem? s.entries i ≡ some x
    → schedule_cancel name s ≡ cancel_entry i x s
unfolding schedule_cancel
schedule_cancel-entry name i x s e f = rw (e, schedule_cancel) (rw f refl)

-- Cancelling an active schedule reports success, disarms the timer that its entry holds, and a second
-- cancellation reports that there was nothing to cancel.
pub schedule_cancel-twice :
    (name : String) (i t : ℕ) (x : ScheduleEntry) (s : Scheduler)
    → Assoc.get name s.schedules ≡ some i
    → get_elem? s.entries i ≡ some x
    → x.active ≡ true
    → x.timer ≡ some t
    → let (done, after) = schedule_cancel name s in
      (done ≡ true)
      × (Assoc.has t after.timers ≡ false)
      × (schedule_cancel name after ≡ (false, after))
unfolding cancel_entry clear_timer
schedule_cancel-twice name i t x s e f a h =
    subst
      (λ (r : Bool × Scheduler).
        (r.0 ≡ true) × (Assoc.has t r.1.timers ≡ false) × (schedule_cancel name r.1 ≡ (false, r.1)))
      (sym (schedule_cancel-entry name i x s e f ∙ active_entry))
      (refl, ground (arith, Assoc.has-delete t t s.timers, nat_eq.beq_iff t t), again)
  where
    after : Scheduler
    after = record s {
      entries = set s.entries i (record x { active = false; timer = none });
      timers = Assoc.delete t s.timers;
    }

    active_entry : cancel_entry i x s ≡ (true, after)
    active_entry = ground (arith, a, h)

    again : schedule_cancel name after ≡ (false, after)
    again =
        schedule_cancel-entry name i (record x { active = false; timer = none }) after e
          (get_elem?-set_self s.entries i (record x { active = false; timer = none })
            (get_elem?-lt s.entries i x f))
