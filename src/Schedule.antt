-- ===== src/Schedule.antt =====
-- bridge/schedule.ts: cron expressions, the next tick, and the registry of schedules with its timers.
-- A time is a number of milliseconds. The wall clock of the host, which Date reads, is a parameter,
-- and so are the bridge calls that a handler of the WebAssembly module makes.
pub mod Ticks
pub mod Registry
pub mod Tests
use clean_node_server.Common.{
  ◌%◌, ◌/◌, ℕ, zero, suc, ◌+◌, ◌-◌, ◌*◌, ◌<◌, ◌≤◌, ◌≡◌, ◌≢◌, refl, sym, ap, subst, ap₂, ◌∙◌, String,
  Bool, true, false, not, ◌&&◌, ◌||◌, ◌⊎◌, inl, inr, List, [], ◌∷◌, ◌++◌, Option, none, some, arith,
  length, get_elem?, set, nat_eq, string_eq, ◌==◌, if◌then◌else◌, if_cases, ltb, leb, elem, without,
  All, Bool-cases, Option-cases,
}
use clean_node_server.Common.Assoc

pub data CronField : Type 0 where
  star : CronField
  step_of : ℕ → CronField
  list_of : List ℕ → CronField

pub record CronFields : Type 0 where
  pub minute : CronField
  pub hour : CronField
  pub dom : CronField
  pub month : CronField
  pub dow : CronField

-- A field of an expression, taken apart at its commas and at the first dash of each part. A number is
-- what `Number` makes of its text, `none` if that is not a natural number: the source has no use
-- for a negative one either, since a step and both ends of a range are then refused.
pub data FieldPart : Type 0 where
  blank : FieldPart
  range : Option ℕ → Option ℕ → FieldPart
  single : Option ℕ → FieldPart

pub data FieldText : Type 0 where
  star_text : FieldText
  step_text : Option ℕ → FieldText
  parts : List FieldPart → FieldText

pub values_from : ℕ → ℕ → List ℕ
values_from a zero = []
values_from a (suc n) = a ∷ values_from (suc a) n

abbrev prepend : List ℕ → Option (List ℕ) → Option (List ℕ)
prepend vs none = none
prepend vs (some rest) = some (vs ++ rest)

pub part_values : List FieldPart → Option (List ℕ)
unfolding values_from
part_values [] = some []
part_values (blank ∷ ps) = none
part_values (range (some a) (some b) ∷ ps) =
    let rest = part_values ps in
    if ltb b a then none else prepend (values_from a (suc (b - a))) rest
part_values (range none b ∷ ps) = none
part_values (range (some a) none ∷ ps) = none
part_values (single (some v) ∷ ps) = prepend (v ∷ []) (part_values ps)
part_values (single none ∷ ps) = none

pub parse_field : FieldText → Option CronField
unfolding part_values
parse_field star_text = some star
parse_field (step_text none) = none
parse_field (step_text (some n)) = if n == 0 then none else some (step_of n)
parse_field (parts ps) = elim (part_values ps) [
  | none ↦ none
  | some [] ↦ none
  | some (v ∷ vs) ↦ some (list_of (v ∷ vs))
]

abbrev with_fields :
    Option CronField
    → Option CronField
    → Option CronField
    → Option CronField
    → Option CronField
    → Option CronFields
with_fields (some m) (some h) (some d) (some mo) (some w) =
    some (record { minute = m; hour = h; dom = d; month = mo; dow = w })
with_fields _ _ _ _ _ = none

-- The expression, split at its white space.
pub parse_cron_fields : List FieldText → Option CronFields
unfolding parse_field
parse_cron_fields (m ∷ h ∷ d ∷ mo ∷ w ∷ []) =
    with_fields (parse_field m) (parse_field h) (parse_field d) (parse_field mo) (parse_field w)
parse_cron_fields _ = none

pub field_matches : CronField → ℕ → Bool
field_matches star value = true
field_matches (step_of n) value = ltb 0 n && value % n == 0
field_matches (list_of values) value = elem value values

pub is_valid_cron : List FieldText → Bool
unfolding parse_cron_fields
is_valid_cron expr = elim (parse_cron_fields expr) [ none ↦ false | some _ ↦ true ]

-- What a Date says of a time: getMinutes, getHours, getDate, getMonth + 1 and getDay.
pub record WallClock : Type 0 where
  pub minutes : ℕ
  pub hours : ℕ
  pub date : ℕ
  pub month : ℕ
  pub day : ℕ

pub fields_match : CronFields → WallClock → Bool
unfolding field_matches
fields_match f c =
    field_matches f.minute c.minutes
    && field_matches f.hour c.hours
    && field_matches f.dom c.date
    && field_matches f.month c.month
    && field_matches f.dow c.day

pub minutes_of_a_year : ℕ
minutes_of_a_year = 527040

-- The local time of the host: the fields that Date reads, and the time after `setSeconds(0, 0)`.
pub record LocalTime : Type 0 where
  pub read : ℕ → WallClock
  pub set_seconds : ℕ → ℕ

module _ (clock : LocalTime) where
  -- The loop, from its candidate on.
  pub scan : CronFields → ℕ → ℕ → Option ℕ
  unfolding fields_match
  scan f zero candidate = none
  scan f (suc n) candidate =
      let rest = scan f n (candidate + 60000) in
      if fields_match f (clock.read candidate) then some candidate else rest

  -- In an hour that the clock repeats, `setSeconds(0, 0)` goes back to the first one, an hour further:
  -- the delay is then `Math.max(0, ...)` of a difference that may be negative.
  pub tick_within : ℕ → List FieldText → ℕ → Option ℕ
  unfolding parse_cron_fields scan
  tick_within limit expr now = elim (parse_cron_fields expr) [
    | none ↦ none
    | some f ↦ elim (scan f limit (clock.set_seconds now + 60000)) [
      | none ↦ none
      | some candidate ↦ some (candidate - now)
    ]
  ]

  pub next_cron_tick_ms : List FieldText → ℕ → Option ℕ
  next_cron_tick_ms expr now = tick_within minutes_of_a_year expr now

-- The timer of an entry is the number of the timer that its object holds.
pub record ScheduleEntry : Type 0 where
  pub name : String
  pub cron_expr : List FieldText
  pub handler : String
  pub active : Bool
  pub timer : Option ℕ

-- Entry objects are numbered: `schedules` holds numbers, and a timer that is armed keeps the number
-- of the entry that its callback is for, even if the entry has been replaced in `schedules`.
pub record Scheduler : Type 0 where
  pub entries : List ScheduleEntry
  pub schedules : List (String × ℕ)
  pub scheduler_started : Bool
  pub timers : List (ℕ × ℕ)
  pub next_timer : ℕ

pub clear_timer : Option ℕ → List (ℕ × ℕ) → List (ℕ × ℕ)
clear_timer none timers = timers
clear_timer (some t) timers = Assoc.delete t timers

pub data ScheduleCall : Type 0 where
  crons : String → List FieldText → String → ScheduleCall
  cancels : String → ScheduleCall

-- The entry registered under a name is cancelled, if it is active.
pub cancel_entry : ℕ → ScheduleEntry → Scheduler → Bool × Scheduler
unfolding clear_timer
cancel_entry i x s =
    if x.active
    then (
      true,
      record s {
        entries = set s.entries i (record x { active = false; timer = none });
        timers = clear_timer x.timer s.timers;
      },
    )
    else (false, s)

pub schedule_cancel : String → Scheduler → Bool × Scheduler
unfolding cancel_entry
schedule_cancel name s = elim (Assoc.get name s.schedules) [
  | none ↦ (false, s)
  | some i ↦ elim (get_elem? s.entries i) [ none ↦ (false, s) | some x ↦ cancel_entry i x s ]
]

-- `clearTimeout` for the entry that a new one replaces.
pub disarm : ℕ → Scheduler → Scheduler
unfolding clear_timer
disarm i s = elim (get_elem? s.entries i) [
  | none ↦ s
  | some x ↦ record s {
    entries = set s.entries i (record x { timer = none });
    timers = clear_timer x.timer s.timers;
  }
]

pub disarm_named : String → Scheduler → Scheduler
unfolding disarm
disarm_named name s = elim (Assoc.get name s.schedules) [ none ↦ s | some i ↦ disarm i s ]

pub retire_entry : ℕ → Scheduler → Scheduler
unfolding clear_timer
retire_entry i s = elim (get_elem? s.entries i) [
  | none ↦ s
  | some x ↦ record s {
    entries = set s.entries i (record x { active = false; timer = none });
    timers = clear_timer x.timer s.timers;
  }
]

pub retire_entries : List (String × ℕ) → Scheduler → Scheduler
unfolding retire_entry
retire_entries [] s = s
retire_entries ((name, i) ∷ m) s = retire_entries m (retire_entry i s)

pub stop_scheduler : Scheduler → Scheduler
unfolding retire_entries
stop_scheduler s = record (retire_entries s.schedules s) {
  schedules = [];
  scheduler_started = false;
}

module _ (clock : LocalTime) where
  pub arm : ℕ → ℕ → ScheduleEntry → Scheduler → Scheduler
  unfolding next_cron_tick_ms
  arm now i x s = elim (next_cron_tick_ms clock x.cron_expr now) [
    | none ↦ record s { entries = set s.entries i (record x { active = false }) }
    | some delay ↦ record s {
      entries = set s.entries i (record x { timer = some s.next_timer });
      timers = s.timers ++ (s.next_timer, i) ∷ [];
      next_timer = suc s.next_timer;
    }
  ]

  pub schedule_next : ℕ → ℕ → Scheduler → Scheduler
  unfolding arm
  schedule_next now i s = elim (get_elem? s.entries i) [
    | none ↦ s
    | some x ↦ if not x.active || not s.scheduler_started then s else arm now i x s
  ]

  pub register : ℕ → String → List FieldText → String → Scheduler → Scheduler
  unfolding schedule_next
  register now name expr handler s =
      let i = length s.entries in
      let entry : ScheduleEntry = record {
        name = name;
        cron_expr = expr;
        handler = handler;
        active = true;
        timer = none;
      } in
      let added = record s {
        entries = s.entries ++ entry ∷ [];
        schedules = Assoc.set name i s.schedules;
      } in
      if s.scheduler_started then schedule_next now i added else added

  pub schedule_cron : ℕ → String → List FieldText → String → Scheduler → Bool × Scheduler
  unfolding is_valid_cron register disarm_named
  schedule_cron now name expr handler s =
      if is_valid_cron expr
      then (true, register now name expr handler (disarm_named name s))
      else (false, s)

  pub schedule_each : ℕ → List (String × ℕ) → Scheduler → Scheduler
  unfolding schedule_next
  schedule_each now [] s = s
  schedule_each now ((name, i) ∷ m) s = schedule_each now m (schedule_next now i s)

  pub start_scheduler : ℕ → Scheduler → Scheduler
  unfolding schedule_each
  start_scheduler now s =
      if s.scheduler_started
      then s
      else schedule_each now s.schedules (record s { scheduler_started = true })

  pub schedule_calls : ℕ → List ScheduleCall → Scheduler → Scheduler
  unfolding schedule_cron schedule_cancel
  schedule_calls now [] s = s
  schedule_calls now (crons name expr handler ∷ cs) s =
      schedule_calls now cs (schedule_cron now name expr handler s).1
  schedule_calls now (cancels name ∷ cs) s = schedule_calls now cs (schedule_cancel name s).1

  -- The callback of a timer: the handler runs, and the entry is scheduled again.
  pub fire :
      (String → Scheduler → List ScheduleCall) → ℕ → ℕ → ScheduleEntry → Scheduler → Scheduler
  unfolding schedule_calls schedule_next
  fire handler now i x s =
      let idle = record s { entries = set s.entries i (record x { timer = none }) } in
      if x.active
      then schedule_next now i
          (schedule_calls now (if s.scheduler_started then handler x.handler idle else []) idle)
      else idle

  pub timer_elapses : (String → Scheduler → List ScheduleCall) → ℕ → ℕ → Scheduler → Scheduler
  unfolding fire
  timer_elapses handler now t s = elim (Assoc.get t s.timers) [
    | none ↦ s
    | some i ↦ elim (get_elem? s.entries i) [
      | none ↦ s
      | some x ↦ fire handler now i x (record s { timers = Assoc.delete t s.timers })
    ]
  ]
