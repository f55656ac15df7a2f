-- ===== src/Scheduler/Rows.antt =====
-- What each handler on schedules leaves in the table.
use life_man.Base.{String, [], arith, first, none, some, update, ℕ, ◌++◌, ◌∷◌, ◌≡◌}
use life_man.Json.{Value}
use life_man.Scheduler.{Parsers, Schedule, Timetable}
use life_man.Scheduler.When.{compute_initial_fires_at}
use life_man.Scheduler.Fires.{
  cancel_schedule, create_schedule, is_schedule, moved, new_schedule, reschedule,
}

pub cancel_missing :
    (id reason : String) (now : ℕ) (s : Timetable)
    → first (is_schedule id) s.schedules ≡ none
    → (cancel_schedule id reason now s).1.schedules ≡ s.schedules
unfolding cancel_schedule
cancel_missing id reason now s e = ground arith

pub cancel_found :
    (id reason : String) (now : ℕ) (s : Timetable) (r : Schedule)
    → first (is_schedule id) s.schedules ≡ some r
    → (cancel_schedule id reason now s).1.schedules
      ≡ update (is_schedule id) (λ r. record r { cancelled_at = some now }) s.schedules
unfolding cancel_schedule
cancel_found id reason now s r e = ground arith

module _ (p : Parsers) where
  pub reschedule_missing :
      (id : String) (spec : Value) (text shown : String) (now : ℕ) (s : Timetable)
      → first (is_schedule id) s.schedules ≡ none
      → (reschedule p id spec text shown now s).1.schedules ≡ s.schedules
  unfolding reschedule
  reschedule_missing id spec text shown now s e = ground arith

  pub reschedule_refused :
      (id : String) (spec : Value) (text shown : String) (now : ℕ) (s : Timetable) (r : Schedule)
      → first (is_schedule id) s.schedules ≡ some r
      → compute_initial_fires_at p spec now ≡ none
      → (reschedule p id spec text shown now s).1.schedules ≡ s.schedules
  unfolding reschedule
  reschedule_refused id spec text shown now s r e k = ground arith

  pub reschedule_found :
      (id : String) (spec : Value) (text shown : String) (now t : ℕ) (s : Timetable) (r : Schedule)
      → first (is_schedule id) s.schedules ≡ some r
      → compute_initial_fires_at p spec now ≡ some t
      → (reschedule p id spec text shown now s).1.schedules
        ≡ update (is_schedule id) (moved spec t) s.schedules
  unfolding reschedule
  reschedule_found id spec text shown now t s r e k = ground arith

  pub create_refused :
      (id tool : String) (args spec : Value) (reason text shown : String) (now : ℕ) (s : Timetable)
      → compute_initial_fires_at p spec now ≡ none
      → (create_schedule p id tool args spec reason text shown now s).1.schedules ≡ s.schedules
  unfolding create_schedule
  create_refused id tool args spec reason text shown now s k = ground arith

  pub create_accepted :
      (id tool : String) (args spec : Value) (reason text shown : String) (now t : ℕ)
      (s : Timetable)
      → compute_initial_fires_at p spec now ≡ some t
      → (create_schedule p id tool args spec reason text shown now s).1.schedules
        ≡ s.schedules ++ new_schedule id tool args spec reason now t ∷ []
  unfolding create_schedule
  create_accepted id tool args spec reason text shown now t s k = ground arith
