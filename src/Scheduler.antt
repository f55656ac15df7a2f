-- ===== src/Scheduler.antt =====
-- The scheduler (src/lifeman/scheduler.py) and the handlers that change schedules
-- (src/lifeman/routes/schedules.py). `Scheduler.When` computes times, `Scheduler.Fires` holds the
-- steps on the table `schedules`.
pub mod Cancel
pub mod Crash
pub mod Examples
pub mod Fires
pub mod Recur
pub mod Rows
pub mod When
use life_man.Base.{List, Option, String, ℕ}
use life_man.Audit.{Effects}
use life_man.Json.{Value}

-- Python's functions on the texts and values of a `when` spec; each is `none` where it raises.
pub record Parsers : Type 0 where
  -- The groups of `_RELATIVE_DURATION_RE.match(s)`: the number, and the unit in lower case, "" if
  -- there is none
  pub relative : String → Option (ℕ × String)
  -- `datetime.fromisoformat`, in UTC; the inner `none` is a time without an offset
  pub iso : String → Option (Option ℕ)
  -- `float(v)` of a number of seconds that is not negative, in microseconds
  pub seconds : Value → Option ℕ
  -- `str(v)`
  pub text : Value → String
  -- `json.dumps(v)`
  pub dumps : Value → String
  -- `int` of the two parts of `v.split(":")`, the minute 0 if there is one part
  pub clock : Value → Option (ℕ × ℕ)

-- A row of `schedules`; `when_spec` is the value that was given, a dict or anything else.
pub record Schedule : Type 0 where
  pub id : String
  pub tool : String
  pub args : Value
  pub when_spec : Value
  pub reason : String
  pub created_at : ℕ
  pub fires_at : ℕ
  pub last_fired : Option ℕ
  pub consecutive_no_ops : ℕ
  pub total_fires : ℕ
  pub cancelled_at : Option ℕ
  pub last_started_at : Option ℕ

-- The table, `_in_flight`, and the sinks of the audit log and the event bus.
pub record Timetable : Type 0 where
  pub schedules : List Schedule
  pub in_flight : List String
  pub fx : Effects
