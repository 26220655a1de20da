-- ===== src/Schedule/Tests.antt =====
-- Expressions and schedules on a clock of Mondays, and the theorems at concrete inputs.
use clean_node_server.Common.{
  ◌-◌, ◌*◌, ◌%◌, ◌/◌, ℕ, ◌+◌, ◌<◌, ◌≤◌, ◌≡◌, refl, String, true, false, List, [], ◌∷◌, some, arith,
  nat_eq, string_eq,
}
use clean_node_server.Schedule.{
  star, list_of, FieldPart, CronFields, FieldText, parts, single, range, star_text, WallClock,
  LocalTime, minutes_of_a_year, Scheduler, ScheduleEntry, ScheduleCall, crons, scan, tick_within,
  next_cron_tick_ms, clear_timer, cancel_entry, schedule_cancel, disarm, disarm_named, retire_entry,
  retire_entries, stop_scheduler, arm, schedule_next, register, schedule_cron, schedule_each,
  start_scheduler, schedule_calls, fire, timer_elapses, values_from, part_values, parse_field,
  parse_cron_fields, field_matches, is_valid_cron, fields_match,
}
use clean_node_server.Schedule.Ticks.{next_cron_tick_ms-matches, next_cron_tick_ms-first}

cron_calls : Unit {0}
unfolding scan tick_within next_cron_tick_ms values_from part_values parse_field parse_cron_fields
    field_matches is_valid_cron fields_match
cron_calls = tt

schedule_runs : Unit {0}
unfolding cron_calls clear_timer cancel_entry schedule_cancel disarm disarm_named retire_entry
    retire_entries stop_scheduler arm schedule_next register schedule_cron schedule_each
    start_scheduler schedule_calls fire timer_elapses
schedule_runs = tt

abbrev on_monday : ℕ → WallClock
on_monday now = record {
  minutes = now / 60000 % 60;
  hours = now / 3600000 % 24;
  date = 1;
  month = 1;
  day = 1;
}

abbrev monday : LocalTime
monday = record { read = on_monday; set_seconds = λ now. now / 60000 * 60000 }

-- In the second of two hours of the same name.
abbrev repeated : LocalTime
repeated = record monday { set_seconds = λ now. now / 60000 * 60000 - 3600000 }

-- `2,5-7 * * * *`
abbrev some_minutes : List FieldPart
some_minutes = single (some 2) ∷ range (some 5) (some 7) ∷ []

abbrev some_expr : List FieldText
some_expr = parts some_minutes ∷ star_text ∷ star_text ∷ star_text ∷ star_text ∷ []

abbrev some_fields : CronFields
some_fields = record {
  minute = list_of (2 ∷ 5 ∷ 6 ∷ 7 ∷ []);
  hour = star;
  dom = star;
  month = star;
  dow = star;
}

abbrev empty_scheduler : Scheduler
empty_scheduler = record {
  entries = [];
  schedules = [];
  scheduler_started = false;
  timers = [];
  next_timer = 0;
}

soon :
    (tick_within monday 10 some_expr 130500 ≡ some 169500)
    × (tick_within repeated 10 some_expr 3730500 ≡ some 0)
    × (parse_cron_fields some_expr ≡ some some_fields)
unfolding cron_calls
soon = (refl, refl, refl)

first_start :
    (start_scheduler monday 130500
      (schedule_cron monday 0 "mail" some_expr "send_mail" empty_scheduler).1).timers
    ≡ (0, 0) ∷ []
unfolding schedule_runs minutes_of_a_year
first_start = refl

next_tick : next_cron_tick_ms monday some_expr 130500 ≡ some 169500
unfolding cron_calls minutes_of_a_year
next_tick = refl

next_cron_tick_ms-matches_example :
    (0 < 169500)
    × ((130500 + 169500) % 60000 ≡ 0)
    × (fields_match some_fields (monday.read (130500 + 169500)) ≡ true)
unfolding cron_calls
next_cron_tick_ms-matches_example =
    next_cron_tick_ms-matches monday some_expr some_fields 130500 169500 refl refl next_tick

four_in_a_year : 4 < minutes_of_a_year
unfolding minutes_of_a_year
four_in_a_year = omega arith

next_cron_tick_ms-first_example :
    (delay : ℕ) × (next_cron_tick_ms monday some_expr 130500 ≡ some delay)
    × (delay ≤ 420000 - 130500)
unfolding cron_calls
next_cron_tick_ms-first_example =
    next_cron_tick_ms-first monday some_expr some_fields 130500 4 refl four_in_a_year refl

abbrev mail : ScheduleEntry
mail = record {
  name = "mail";
  cron_expr = some_expr;
  handler = "send_mail";
  active = true;
  timer = some 0;
}

abbrev started : Scheduler
started = record {
  entries = mail ∷ [];
  schedules = ("mail", 0) ∷ [];
  scheduler_started = true;
  timers = (0, 0) ∷ [];
  next_timer = 1;
}

-- A handler that registers its own schedule again leaves two timers armed; cancelling the schedule
-- by its name disarms one.
abbrev registers_again : String → Scheduler → List ScheduleCall
registers_again name s = crons "mail" some_expr "send_mail" ∷ []

abbrev doubled : Scheduler
doubled = timer_elapses monday registers_again 130500 0 started

doubled_schedule :
    (doubled.timers ≡ (1, 1) ∷ (2, 0) ∷ [])
    × ((schedule_cancel "mail" doubled).1.timers ≡ (2, 0) ∷ [])
unfolding schedule_runs minutes_of_a_year
doubled_schedule = (refl, refl)
