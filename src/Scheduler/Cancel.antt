-- ===== src/Scheduler/Cancel.antt =====
-- A cancelled schedule stays cancelled.
use life_man.Base.{
  All, All-append, All-select, All-update, Bool, Bool-cases, List, Option, Option-cases, String, [],
  arith, eq_iff, first, first-All, inl, inr, none, some, subst, sym, true, update, ℕ, ◌∷◌, ◌≡◌, ◌≢◌,
}
use life_man.Json.{Value}
use life_man.Permissions.{}
use life_man.Scheduler.{Parsers, Schedule, Timetable}
use life_man.Scheduler.When.{compute_initial_fires_at, compute_next_fire}
use life_man.Scheduler.Rows.{
  cancel_found, cancel_missing, create_accepted, create_refused, reschedule_found,
  reschedule_missing, reschedule_refused,
}
use life_man.Scheduler.Fires.{
  Op, cancel_op, cancel_schedule, complete, complete_op, crashed, create_op, create_schedule,
  finished, is_schedule, moved, reconcile, reschedule, reschedule_op, reserve, reserve_op, reserved,
  restart, restart_op, run, selected, selects, step, tick, tick_op,
}

abbrev Cancelled : String → Schedule → Type 0
Cancelled id r = r.id ≡ id → r.cancelled_at ≢ none

-- No schedule is created under the id.
abbrev pub NotCreating : String → Op → Type 0
NotCreating id (create_op other tool args spec reason text shown now) = other ≢ id
NotCreating id _ = Unit

finished-Cancelled :
    (id : String) (read : Schedule) (next : Option ℕ) (no_op : Bool) (now : ℕ) (r : Schedule)
    → Cancelled id r
    → Cancelled id (finished read next no_op now r)
finished-Cancelled id read none no_op now r h = λ e k. cc
finished-Cancelled id read (some t) no_op now r h = h

module _ (p : Parsers) where
  reschedule-Cancelled :
      (id other : String) (spec : Value) (text shown : String) (now : ℕ) (s : Timetable)
      → All (Cancelled id) s.schedules
      → All (Cancelled id) (reschedule p other spec text shown now s).1.schedules
  reschedule-Cancelled id other spec text shown now s h =
      elim (Option-cases (first (is_schedule other) s.schedules)) [
        | inl e ↦
            subst (All (Cancelled id)) (sym (reschedule_missing p other spec text shown now s e)) h
        | inr (r, e) ↦ elim (Option-cases (compute_initial_fires_at p spec now)) [
          | inl k ↦
              subst (All (Cancelled id))
                (sym (reschedule_refused p other spec text shown now s r e k)) h
          | inr (t, k) ↦
              subst (All (Cancelled id))
                (sym (reschedule_found p other spec text shown now t s r e k))
                (All-update (Cancelled id) (is_schedule other) (moved spec t) s.schedules
                  (λ r _ c. c) h)
        ]
      ]

  create-Cancelled :
      (id other tool : String) (args spec : Value) (reason text shown : String) (now : ℕ)
      (s : Timetable)
      → other ≢ id
      → All (Cancelled id) s.schedules
      → All
          (Cancelled id)
          (create_schedule p other tool args spec reason text shown now s).1.schedules
  create-Cancelled id other tool args spec reason text shown now s n h =
      elim (Option-cases (compute_initial_fires_at p spec now)) [
        | inl k ↦
            subst (All (Cancelled id))
              (sym (create_refused p other tool args spec reason text shown now s k)) h
        | inr (t, k) ↦
            subst (All (Cancelled id))
              (sym (create_accepted p other tool args spec reason text shown now t s k))
              (All-append (Cancelled id) s.schedules _ h ((λ e. absurd (n e)), tt))
      ]

  cancel-Cancelled :
      (id other reason : String) (now : ℕ) (s : Timetable)
      → All (Cancelled id) s.schedules
      → All (Cancelled id) (cancel_schedule other reason now s).1.schedules
  cancel-Cancelled id other reason now s h =
      elim (Option-cases (first (is_schedule other) s.schedules)) [
        | inl e ↦ subst (All (Cancelled id)) (sym (cancel_missing other reason now s e)) h
        | inr (r, e) ↦
            subst (All (Cancelled id)) (sym (cancel_found other reason now s r e))
              (All-update (Cancelled id) (is_schedule other) _ s.schedules (λ r _ c e k. cc) h)
      ]

  step-Cancelled :
      (id : String) (o : Op) (s : Timetable)
      → NotCreating id o
      → All (Cancelled id) s.schedules
      → All (Cancelled id) (step p o s).schedules
  unfolding step tick restart reconcile reserve complete
  step-Cancelled id (create_op other tool args spec reason text shown now) s n h =
      create-Cancelled id other tool args spec reason text shown now s n h
  step-Cancelled id (tick_op now) s n h = h
  step-Cancelled id (restart_op now) s n h =
      All-update (Cancelled id) crashed _ s.schedules (λ r _ c. c) h
  step-Cancelled id (reserve_op read fire_id now) s n h =
      All-update (Cancelled id) (is_schedule read.id)
        (reserved (compute_next_fire p read.when_spec now) now) s.schedules (λ r _ c. c) h
  step-Cancelled id (complete_op read next no_op now) s n h =
      All-update (Cancelled id) (is_schedule read.id) (finished read next no_op now) s.schedules
        (λ r _ c. finished-Cancelled id read next no_op now r c) h
  step-Cancelled id (reschedule_op other spec text shown now) s n h =
      reschedule-Cancelled id other spec text shown now s h
  step-Cancelled id (cancel_op other reason now) s n h = cancel-Cancelled id other reason now s h

  run-Cancelled :
      (id : String) (os : List Op) (s : Timetable)
      → All (NotCreating id) os
      → All (Cancelled id) s.schedules
      → All (Cancelled id) (run p os s).schedules
  unfolding run
  run-Cancelled id [] s n h = h
  run-Cancelled id (o ∷ os) s n h =
      run-Cancelled id os (step p o s) n.1 (step-Cancelled id o s n.0 h)

  cancel-All :
      (id : String) (now : ℕ) (rows : List Schedule)
      → All
          (Cancelled id)
          (update (is_schedule id) (λ r. record r { cancelled_at = some now }) rows)
  cancel-All id now [] = tt
  cancel-All id now (r ∷ rows) = elim (Bool-cases (is_schedule id r)) [
    | inl e ↦ rw e ((λ k n. cc), cancel-All id now rows)
    | inr e ↦ rw e ((λ k n. ground (arith, eq_iff r.id id)), cancel-All id now rows)
  ]

  not_selected :
      (id : String) (now : ℕ) (s : Timetable) (q : Schedule → Bool) (r : Schedule)
      → All (Cancelled id) s.schedules
      → first q (selected now s) ≡ some r
      → r.id ≢ id
  unfolding selected
  not_selected id now s q r h e k =
      let live =
        first-All (λ x. (selects now s.in_flight x ≡ true) × Cancelled id x) q _
          (All-select (Cancelled id) (selects now s.in_flight) s.schedules h) e in
      live.1 k (ground (arith, live.0))

  -- Once a schedule has been cancelled, no tick selects it to fire, whatever is done later (other
  -- handlers, a fire of it that was running, restarts of the process), as long as no schedule is
  -- created under its id.
  pub cancelled_never_fires :
      (id reason : String) (now later : ℕ) (s : Timetable) (os : List Op) (row : Schedule)
      (q : Schedule → Bool) (r : Schedule)
      → first (is_schedule id) s.schedules ≡ some row
      → All (NotCreating id) os
      → first q (tick later (run p os (cancel_schedule id reason now s).1)).0 ≡ some r
      → r.id ≢ id
  unfolding tick
  cancelled_never_fires id reason now later s os row q r found n e =
      not_selected id later (run p os (cancel_schedule id reason now s).1) q r
        (run-Cancelled id os (cancel_schedule id reason now s).1 n (
          subst (All (Cancelled id)) (sym (cancel_found id reason now s row found))
            (cancel-All id now s.schedules)))
        e
