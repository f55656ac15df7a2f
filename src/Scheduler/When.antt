-- ===== src/Scheduler/When.antt =====
-- When a schedule fires: `compute_initial_fires_at` and `_compute_next_fire` of
-- src/lifeman/scheduler.py. Times are microseconds of UTC since the epoch, which the ISO texts of the
-- code order as numbers; a `none` is a `ValueError`.
use life_man.Base.{
  Option, String, [], elem, get_or, if◌then◌else◌, is_some, leb, ltb, nat_eq, none, some, string_eq,
  suc, ℕ, ◌%◌, ◌&&◌, ◌*◌, ◌+◌, ◌-◌, ◌||◌, ◌∷◌,
}
use life_man.Json.{Fields, Value, beq, get, negsuc, num, obj, pos, str}
use life_man.Scheduler.{Parsers}

abbrev pub second : ℕ
second = 1000000

abbrev pub minute_length : ℕ
minute_length = 60000000

abbrev pub hour_length : ℕ
hour_length = 3600000000

abbrev pub day_length : ℕ
day_length = 86400000000

abbrev pub week_length : ℕ
week_length = 604800000000

-- `_UNIT_TO_SECONDS`, in microseconds
abbrev pub unit_length : String → ℕ
unit_length unit =
    if elem unit ("m" ∷ "min" ∷ "mins" ∷ [])
    then minute_length
    else if elem unit ("h" ∷ "hr" ∷ "hrs" ∷ [])
    then hour_length
    else if elem unit ("d" ∷ "day" ∷ "days" ∷ [])
    then day_length
    else second

-- `if target <= now: target += period`
abbrev pub roll : ℕ → ℕ → ℕ → ℕ
roll target now period = if leb target now then target + period else target

abbrev pub hourly_at : ℕ → ℕ → ℕ
hourly_at minute now = (now - now % hour_length) + minute * minute_length

abbrev pub day_at : ℕ → ℕ → ℕ → ℕ
day_at hour minute now = (now - now % day_length) + (hour * hour_length + minute * minute_length)

-- The `recur` branch, for the hour and the minute of `at`; `now.replace` refuses what is no time.
unfoldable pub recur_target : Value → ℕ → ℕ → ℕ → Option ℕ
recur_target recur hour minute now =
    if beq recur (str "hourly")
    then if ltb minute 60 then some (roll (hourly_at minute now) now hour_length) else none
    else if ltb hour 24 && ltb minute 60
    then some (
        roll (day_at hour minute now) now
          (if beq recur (str "weekly") then week_length else day_length))
    else none

module _ (p : Parsers) where
  -- `_parse_relative_duration`
  unfoldable pub relative_duration : String → Option ℕ
  relative_duration s = elim (p.relative s) [
    | none ↦ none
    | some (value, unit) ↦ some (value * unit_length unit)
  ]

  abbrev pub later_by : ℕ → Option ℕ → Option ℕ
  later_by now none = none
  later_by now (some d) = some (now + d)

  -- An ISO time, which may lie at most five seconds back.
  abbrev iso_time : ℕ → Option (Option ℕ) → Option ℕ
  iso_time now none = none
  iso_time now (some none) = none
  iso_time now (some (some t)) = if ltb (t + 5 * second) now then none else some t

  abbrev time_of_text : String → ℕ → Option ℕ → Option ℕ
  time_of_text s now (some d) = some (now + d)
  time_of_text s now none = iso_time now (p.iso s)

  abbrev recur_at : Fields → ℕ → Option (ℕ × ℕ) → Option ℕ
  recur_at fs now none = none
  recur_at fs now (some (hour, minute)) =
      recur_target (get_or (get "recur" fs) (str "daily")) hour minute now

  abbrev time_of_dict : Fields → ℕ → Option ℕ
  time_of_dict fs now = elim (get "in_seconds" fs) [
    | some v ↦ later_by now (p.seconds v)
    | none ↦ elim (get "in" fs) [
      | some v ↦ later_by now (relative_duration (p.text v))
      | none ↦
          if is_some (get "recur" fs) || is_some (get "at" fs)
          then recur_at fs now (p.clock (get_or (get "at" fs) (str "00:00")))
          else none
    ]
  ]

  -- `compute_initial_fires_at`
  unfoldable pub compute_initial_fires_at : Value → ℕ → Option ℕ
  compute_initial_fires_at (num (pos n)) now = some (now + n * second)
  compute_initial_fires_at (num (negsuc n)) now = some (now - suc n * second)
  compute_initial_fires_at (str s) now = time_of_text s now (relative_duration s)
  compute_initial_fires_at (obj fs) now = time_of_dict fs now
  compute_initial_fires_at _ now = none

  -- `_compute_next_fire`: only a dict with `recur` fires again.
  unfoldable pub compute_next_fire : Value → ℕ → Option ℕ
  compute_next_fire (obj fs) now =
      if is_some (get "recur" fs) then compute_initial_fires_at (obj fs) now else none
  compute_next_fire _ now = none
