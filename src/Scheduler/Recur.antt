-- ===== src/Scheduler/Recur.antt =====
-- A recurring schedule fires at the first time of day after now that its spec names.
use life_man.Base.{
  Bool-cases, arith, false, if◌then◌else◌, inl, inr, ltb, ltb→lt, some, ℕ, ◌%◌, ◌&&◌, ◌*◌, ◌+◌, ◌<◌,
  ◌≡◌, ◌≤◌,
}
use life_man.Json.{Value, beq, str}
use life_man.Scheduler.When.{
  day_at, day_length, hour_length, hourly_at, minute_length, recur_target, roll, week_length,
}

-- The first time after `now` that is `offset` past a multiple of `period`.
abbrev pub IsNext : ℕ → ℕ → ℕ → ℕ → Type 0
IsNext period offset now t = (now < t) × (t ≤ now + period) × (t % period ≡ offset)

hourly-IsNext :
    (minute now : ℕ)
    → minute < 60
    → IsNext hour_length (minute * minute_length) now (roll (hourly_at minute now) now hour_length)
hourly-IsNext minute now h = (ground arith, ground arith, ground arith)

daily-IsNext :
    (hour minute now : ℕ)
    → hour < 24
    → minute < 60
    → IsNext day_length
        (hour * hour_length + minute * minute_length)
        now
        (roll (day_at hour minute now) now day_length)
daily-IsNext hour minute now h m = (ground arith, ground arith, ground arith)

weekly_next :
    (hour minute now : ℕ)
    → hour < 24
    → minute < 60
    → let t = roll (day_at hour minute now) now week_length in
      (now < t)
      × (t ≤ now + week_length)
      × (t % day_length ≡ hour * hour_length + minute * minute_length)
weekly_next hour minute now h m = (ground arith, ground arith, ground arith)

-- The cycle that fixes the time: the hour of an hourly schedule, else the day.
abbrev pub cycle : Value → ℕ
cycle recur = if beq recur (str "hourly") then hour_length else day_length

abbrev pub offset : Value → ℕ → ℕ → ℕ
offset recur hour minute =
    if beq recur (str "hourly")
    then minute * minute_length
    else hour * hour_length + minute * minute_length

-- A recurrence that is accepted gives a time after now, at most a week ahead, at the minute of the
-- hour (hourly) or the time of the day (otherwise) that the spec names.
recur_target_lem :
    (recur : Value) (hour minute now t : ℕ)
    → recur_target recur hour minute now ≡ some t
    → (now < t) × (t ≤ now + week_length) × (t % cycle recur ≡ offset recur hour minute)
unfolding recur_target
recur_target_lem recur hour minute now t h = elim (Bool-cases (beq recur (str "hourly"))) [
  | inl e ↦ elim (Bool-cases (ltb minute 60)) [
    | inl m ↦
        let same : roll (hourly_at minute now) now hour_length ≡ t = ground (arith, e) in
        let (a, b, c) = hourly-IsNext minute now (ltb→lt minute 60 m) in
        rw (e, ← same) (a, omega (arith, b), c)
    | inr m ↦ absurd (ground arith)
  ]
  | inr e ↦ elim (Bool-cases (ltb hour 24 && ltb minute 60)) [
    | inl m ↦ elim (Bool-cases (beq recur (str "weekly"))) [
      | inl w ↦
          let same : roll (day_at hour minute now) now week_length ≡ t = ground arith in
          rw (e, ← same) (weekly_next hour minute now (ground arith) (ground arith))
      | inr w ↦
          let same : roll (day_at hour minute now) now day_length ≡ t = ground arith in
          let (a, b, c) = daily-IsNext hour minute now (ground arith) (ground arith) in
          rw (e, ← same) (a, omega (arith, b), c)
    ]
    | inr m ↦ absurd (ground arith)
  ]
]

-- The least time after now that lies `o` past a multiple of a cycle.
first_in_cycle_hour :
    (o now t u : ℕ) → IsNext hour_length o now t → now < u → u % hour_length ≡ o → t ≤ u
first_in_cycle_hour o now t u h after e = omega (arith, h.0, h.1, h.2)

first_in_cycle_day :
    (o now t u : ℕ) → IsNext day_length o now t → now < u → u % day_length ≡ o → t ≤ u
first_in_cycle_day o now t u h after e = omega (arith, h.0, h.1, h.2)

-- A recurrence that is not weekly skips no turn: no time after now that it names comes before the
-- one it gives.
pub recur_target_first :
    (recur : Value) (hour minute now t u : ℕ)
    → beq recur (str "weekly") ≡ false
    → recur_target recur hour minute now ≡ some t
    → now < u
    → u % cycle recur ≡ offset recur hour minute
    → t ≤ u
unfolding recur_target
recur_target_first recur hour minute now t u w h after turn =
    elim (Bool-cases (beq recur (str "hourly"))) [
      | inl e ↦ elim (Bool-cases (ltb minute 60)) [
        | inl m ↦
            let same : roll (hourly_at minute now) now hour_length ≡ t = ground (arith, e) in
            rw (← same) (
              first_in_cycle_hour _ now _ u (hourly-IsNext minute now (ltb→lt minute 60 m)) after
                (rw e at turn))
        | inr m ↦ absurd (ground arith)
      ]
      | inr e ↦ elim (Bool-cases (ltb hour 24 && ltb minute 60)) [
        | inl m ↦
            let same : roll (day_at hour minute now) now day_length ≡ t = ground arith in
            rw (← same) (
              first_in_cycle_day _ now _ u
                (daily-IsNext hour minute now (ground arith) (ground arith)) after (rw e at turn))
        | inr m ↦ absurd (ground arith)
      ]
    ]
