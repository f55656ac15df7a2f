-- ===== src/Scheduler/Examples.antt =====
-- A schedule that fires every morning, and one that fires once.
use life_man.Base.{
  String, [], arith, first, if◌then◌else◌, nat_eq, none, refl, some, string_eq, ℕ, ◌*◌, ◌+◌, ◌==◌,
  ◌∷◌, ◌≡◌, ◌≢◌, ◌≤◌,
}
use life_man.Json.{Value, beq, end, field, obj, str}
use life_man.Audit.{no_effects}
use life_man.Scheduler.{Parsers, Schedule, Timetable}
use life_man.Scheduler.When.{
  compute_initial_fires_at, day_length, hour_length, minute_length, recur_target, relative_duration,
}
use life_man.Scheduler.Recur.{recur_target_first}
use life_man.Scheduler.Fires.{
  cancel_schedule, is_schedule, new_schedule, reconcile, reserve, restart, restart_op, run,
  selected, step, tick,
}
use life_man.Scheduler.Cancel.{cancelled_never_fires}
use life_man.Scheduler.Crash.{crashed_fire_refires}

-- Half past eight, whatever the text; a duration is five minutes.
abbrev parsers : Parsers
parsers = record {
  relative = λ s. if s == "5m" then some (5, "m") else none;
  iso = λ s. none;
  seconds = λ v. none;
  text = λ v. "";
  dumps = λ v. "{}";
  clock = λ v. some (8, 30);
}

abbrev every_morning : Value
every_morning = obj (field "recur" (str "daily") (field "at" (str "08:30") end))

-- Noon of the third day
abbrev noon : ℕ
noon = 2 * day_length + 12 * hour_length

next_morning :
    recur_target (str "daily") 8 30 noon
    ≡ some (3 * day_length + 8 * hour_length + 30 * minute_length)
unfolding recur_target beq
next_morning = refl

five_minutes : compute_initial_fires_at parsers (str "5m") noon ≡ some (noon + 5 * minute_length)
unfolding compute_initial_fires_at relative_duration
five_minutes = refl

recur_target_first_example :
    3 * day_length + 8 * hour_length + 30 * minute_length
    ≤ 5 * day_length + 8 * hour_length + 30 * minute_length
recur_target_first_example =
    recur_target_first (str "daily") 8 30 noon
      (3 * day_length + 8 * hour_length + 30 * minute_length)
      (5 * day_length + 8 * hour_length + 30 * minute_length) (unfold beq in refl) next_morning
      (omega arith) (unfold beq in refl)

abbrev briefing : Schedule
briefing = new_schedule "s1" "brief" (obj end) every_morning "morning brief" 100 noon

abbrev once : Schedule
once = new_schedule "s2" "ping" (obj end) (str "5m") "once" 100 noon

abbrev timetable : Timetable
timetable = record { schedules = briefing ∷ once ∷ []; in_flight = []; fx = no_effects }

once_selected :
    first
      (is_schedule "s2")
      (tick noon (run parsers (restart_op noon ∷ []) (cancel_schedule "s1" "" 200 timetable).1)).0
    ≡ some once
unfolding tick selected run step restart reconcile cancel_schedule
once_selected = refl

cancelled_never_fires_example : ◌≢◌ {A = String} "s2" "s1"
cancelled_never_fires_example =
    cancelled_never_fires parsers "s1" "" 200 noon timetable (restart_op noon ∷ []) briefing
      (is_schedule "s2") once refl (tt, tt) once_selected

crashed_fire_refires_example :
    first
      (is_schedule "s1")
      (tick (noon + 20) (restart (noon + 10) (reserve parsers briefing "f1" noon timetable).1)).0
    ≡ some (record briefing { fires_at = noon + 10; last_started_at = none })
crashed_fire_refires_example =
    crashed_fire_refires parsers briefing "f1" noon (noon + 10) (noon + 20) timetable refl refl
      (omega arith)
