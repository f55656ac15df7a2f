-- ===== src/Scheduler/Fires.antt =====
-- The steps of the scheduler and of the handlers on schedules. `_fire` suspends while the tool runs,
-- so it is two steps, `reserve` and `complete`; the row that the tick read and the next fire are its
-- local state. The process can stop between any two steps and start again (`restart`).
use life_man.Base.{
  Bool, List, Option, String, [], delete, elem, first, get_or, if◌then◌else◌, is_none, is_some, leb,
  nat_eq, none, not, select, some, string_eq, suc, take_chars, update, ℕ, ◌&&◌, ◌++◌, ◌+◌, ◌<>◌,
  ◌==◌, ◌∷◌,
}
use life_man.Json.{Value, end, field, obj, str}
use life_man.Audit.{emit, log}
use life_man.Permissions.{Response, answer, http_error}
use life_man.Scheduler.{Parsers, Schedule, Timetable}
use life_man.Scheduler.When.{compute_initial_fires_at, compute_next_fire, hour_length}

abbrev pub is_schedule : String → Schedule → Bool
is_schedule id r = r.id == id

-- The WHERE clause of the tick.
abbrev pub due : ℕ → Schedule → Bool
due now r = leb r.fires_at now && is_none r.cancelled_at

-- `_tick`: the rows it fires, which are then in flight; a row in flight is passed over.
abbrev pub selects : ℕ → List String → Schedule → Bool
selects now running r = due now r && not (elem r.id running)

unfoldable pub selected : ℕ → Timetable → List Schedule
selected now s = select (selects now s.in_flight) s.schedules

abbrev ids : List Schedule → List String
ids [] = []
ids (r ∷ rs) = r.id ∷ ids rs

unfoldable pub tick : ℕ → Timetable → List Schedule × Timetable
unfolding selected
tick now s = (selected now s, record s { in_flight = ids (selected now s) ++ s.in_flight })

-- `_reconcile_crashed_fires`
abbrev pub crashed : Schedule → Bool
crashed r = is_some r.last_started_at && is_none r.cancelled_at

unfoldable pub reconcile : ℕ → List Schedule → List Schedule
reconcile now rows = update crashed (λ r. record r { fires_at = now; last_started_at = none }) rows

-- The process starts: no coroutine is left, and `start` reconciles.
unfoldable pub restart : ℕ → Timetable → Timetable
unfolding reconcile
restart now s = record s { schedules = reconcile now s.schedules; in_flight = [] }

abbrev pub reserved : Option ℕ → ℕ → Schedule → Schedule
reserved next now r = record r {
  fires_at = get_or next (now + hour_length);
  last_started_at = some now;
}

-- What the end of `_fire` writes, from the row `read` by the tick and the next fire.
abbrev pub finished : Schedule → Option ℕ → Bool → ℕ → Schedule → Schedule
finished read (some t) no_op now r = record r {
  last_fired = some now;
  fires_at = t;
  total_fires = suc read.total_fires;
  consecutive_no_ops = if no_op then suc read.consecutive_no_ops else 0;
  last_started_at = none;
}
finished read none no_op now r = record r {
  last_fired = some now;
  total_fires = suc read.total_fires;
  cancelled_at = some now;
  last_started_at = none;
}

unfoldable pub complete : Schedule → Option ℕ → Bool → ℕ → Timetable → Timetable
complete read next no_op now s = record s {
  schedules = update (is_schedule read.id) (finished read next no_op now) s.schedules;
  in_flight = delete (λ i. i == read.id) s.in_flight;
}

-- `cancel_schedule`
unfoldable pub cancel_schedule : String → String → ℕ → Timetable → Response (Unit {0}) × Timetable
cancel_schedule id reason now s = elim (first (is_schedule id) s.schedules) [
  | none ↦ (http_error 404 "Schedule not found", s)
  | some _ ↦ (
    answer tt,
    record s {
      schedules = update (is_schedule id) (λ r. record r { cancelled_at = some now }) s.schedules;
      fx = log "user" "cancel_schedule" id "" "" reason now s.fx;
    },
  )
]

abbrev pub moved : Value → ℕ → Schedule → Schedule
moved spec fires_at r = record r { when_spec = spec; fires_at = fires_at }

abbrev pub new_schedule : String → String → Value → Value → String → ℕ → ℕ → Schedule
new_schedule id tool args spec reason now fires_at = record {
  id = id;
  tool = tool;
  args = args;
  when_spec = spec;
  reason = reason;
  created_at = now;
  fires_at = fires_at;
  last_fired = none;
  consecutive_no_ops = 0;
  total_fires = 0;
  cancelled_at = none;
  last_started_at = none;
}

module _ (p : Parsers) where
  -- `_fire` up to the call of the tool: the row is reserved, then the fire is announced.
  unfoldable pub reserve : Schedule → String → ℕ → Timetable → Option ℕ × Timetable
  reserve read fire_id now s =
      let next = compute_next_fire p read.when_spec now in
      let note = obj (
        field "id" (str read.id)
          (field "tool" (str read.tool) (field "fire_id" (str fire_id) end))) in
      (
        next,
        record s {
          schedules = update (is_schedule read.id) (reserved next now) s.schedules;
          fx = emit "schedule_fired" note none now (
              log "scheduler" "fire_schedule" read.tool (take_chars 200 (p.dumps read.args)) ""
                read.reason now s.fx);
        },
      )

  -- `reschedule`; `text` is that of the `ValueError` and `shown` that of the new time.
  unfoldable pub reschedule :
      String → Value → String → String → ℕ → Timetable → Response (Unit {0}) × Timetable
  reschedule id spec text shown now s = elim (first (is_schedule id) s.schedules) [
    | none ↦ (http_error 404 "Schedule not found", s)
    | some _ ↦ elim (compute_initial_fires_at p spec now) [
      | none ↦ (http_error 400 text, s)
      | some fires_at ↦ (
        answer tt,
        record s {
          schedules = update (is_schedule id) (moved spec fires_at) s.schedules;
          fx = log "user" "reschedule" id ("fires_at=" <> shown) "" "" now s.fx;
        },
      )
    ]
  ]

  -- `create_schedule` behind its checks of the tool and of the memory references
  unfoldable pub create_schedule :
      String
      → String
      → Value
      → Value
      → String
      → String
      → String
      → ℕ
      → Timetable
      → Response ℕ × Timetable
  create_schedule id tool args spec reason text shown now s =
      elim (compute_initial_fires_at p spec now) [
        | none ↦ (http_error 400 text, s)
        | some fires_at ↦ (
          answer fires_at,
          record s {
            schedules = s.schedules ++ new_schedule id tool args spec reason now fires_at ∷ [];
            fx = log "user" "create_schedule" tool ("fires_at=" <> shown) "" reason now s.fx;
          },
        )
      ]

pub data Op : Type 0 where
  create_op : String → String → Value → Value → String → String → String → ℕ → Op
  tick_op restart_op : ℕ → Op
  reserve_op : Schedule → String → ℕ → Op
  complete_op : Schedule → Option ℕ → Bool → ℕ → Op
  reschedule_op : String → Value → String → String → ℕ → Op
  cancel_op : String → String → ℕ → Op

module _ (p : Parsers) where
  unfoldable pub step : Op → Timetable → Timetable
  step (create_op id tool args spec reason text shown now) s =
      (create_schedule p id tool args spec reason text shown now s).1
  step (tick_op now) s = (tick now s).1
  step (restart_op now) s = restart now s
  step (reserve_op read fire_id now) s = (reserve p read fire_id now s).1
  step (complete_op read next no_op now) s = complete read next no_op now s
  step (reschedule_op id spec text shown now) s = (reschedule p id spec text shown now s).1
  step (cancel_op id reason now) s = (cancel_schedule id reason now s).1

  unfoldable pub run : List Op → Timetable → Timetable
  run [] s = s
  run (o ∷ os) s = run os (step o s)
