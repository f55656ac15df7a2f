-- ===== src/Scheduler/Crash.antt =====
-- A fire that runs to its end, one that the process does not survive, and one during which the
-- schedule is changed.
use life_man.Base.{
  Bool, List, Option, String, [], ap, arith, false, first, first-select, first-update,
  first-update_hit, if◌then◌else◌, le→leb, none, refl, some, suc, true, ℕ, ◌∙◌, ◌≡◌, ◌≤◌,
}
use life_man.Json.{Value}
use life_man.Scheduler.{Parsers, Schedule, Timetable}
use life_man.Scheduler.When.{compute_initial_fires_at, compute_next_fire}
use life_man.Scheduler.Rows.{reschedule_found}
use life_man.Scheduler.Fires.{
  complete, crashed, finished, is_schedule, moved, reconcile, reschedule, reserve, reserved,
  restart, selected, selects, tick,
}

finished_id :
    (read : Schedule) (next : Option ℕ) (no_op : Bool) (now : ℕ) (r : Schedule)
    → (finished read next no_op now r).id ≡ r.id
finished_id read none no_op now r = refl
finished_id read (some t) no_op now r = refl

first-reconcile :
    (id : String) (now : ℕ) (rows : List Schedule) (r : Schedule)
    → first (is_schedule id) rows ≡ some r
    → crashed r ≡ true
    → first (is_schedule id) (reconcile now rows)
      ≡ some (record r { fires_at = now; last_started_at = none })
unfolding reconcile
first-reconcile id now rows r e c =
    first-update (is_schedule id) crashed _ rows (λ a. refl) ∙ rw e (rw c refl)

reconcile_quiet :
    (id : String) (now : ℕ) (rows : List Schedule) (r : Schedule)
    → first (is_schedule id) rows ≡ some r
    → crashed r ≡ false
    → first (is_schedule id) (reconcile now rows) ≡ some r
unfolding reconcile
reconcile_quiet id now rows r e c =
    first-update (is_schedule id) crashed _ rows (λ a. refl) ∙ rw e (rw c refl)

module _ (p : Parsers) where
  reserved_row :
      (read r : Schedule) (fire_id : String) (now : ℕ) (s : Timetable)
      → first (is_schedule read.id) s.schedules ≡ some r
      → first (is_schedule read.id) (reserve p read fire_id now s).1.schedules
        ≡ some (reserved (compute_next_fire p read.when_spec now) now r)
  unfolding reserve
  reserved_row read r fire_id now s e =
      first-update_hit (is_schedule read.id) (reserved (compute_next_fire p read.when_spec now) now)
        s.schedules (λ a. refl) e

  -- If the process stops while the tool of a schedule runs, and the schedule has not been
  -- cancelled, then after the next start any tick, whenever it comes, selects the schedule to
  -- fire again.
  pub crashed_fire_refires :
      (r : Schedule) (fire_id : String) (now later t : ℕ) (s : Timetable)
      → first (is_schedule r.id) s.schedules ≡ some r
      → r.cancelled_at ≡ none
      → later ≤ t
      → first (is_schedule r.id) (tick t (restart later (reserve p r fire_id now s).1)).0
        ≡ some (record r { fires_at = later; last_started_at = none })
  unfolding tick selected restart
  crashed_fire_refires r fire_id now later t s found live le =
      first-select (is_schedule r.id) (selects t []) _
        (first-reconcile r.id later _ _ (reserved_row r r fire_id now s found) (rw live refl))
        (rw live (ground (arith, le→leb later t le)))

  completed_row :
      (r : Schedule) (fire_id : String) (no_op : Bool) (next : Option ℕ) (now done : ℕ)
      (s : Timetable)
      → first (is_schedule r.id) s.schedules ≡ some r
      → first
          (is_schedule r.id)
          (complete r next no_op done (reserve p r fire_id now s).1).schedules
        ≡ some (finished r next no_op done (reserved (compute_next_fire p r.when_spec now) now r))
  unfolding complete
  completed_row r fire_id no_op next now done s found =
      first-update_hit (is_schedule r.id) (finished r next no_op done) _
        (λ a. rw (finished_id r next no_op done a) refl) (reserved_row r r fire_id now s found)

  -- A fire of a schedule that has a next fire, once it has run to its end, leaves the row at that
  -- next fire with one fire more on its count; a restart afterwards changes nothing of it.
  completed_fire_kept :
      (r : Schedule) (fire_id : String) (no_op : Bool) (now done later t : ℕ) (s : Timetable)
      → first (is_schedule r.id) s.schedules ≡ some r
      → compute_next_fire p r.when_spec now ≡ some t
      → let (next, running) = reserve p r fire_id now s in
        first (is_schedule r.id) (restart later (complete r next no_op done running)).schedules
        ≡ some (record r {
          fires_at = t;
          last_fired = some done;
          total_fires = suc r.total_fires;
          consecutive_no_ops = if no_op then suc r.consecutive_no_ops else 0;
          last_started_at = none;
        })
  unfolding restart
  completed_fire_kept r fire_id no_op now done later t s found next =
      reconcile_quiet r.id later _ _ (completed_row r fire_id no_op _ now done s found ∙ rows_agree)
        refl
    where
      rows_agree :
          some (
            finished r
              (reserve p r fire_id now s).0
              no_op
              done
              (reserved (compute_next_fire p r.when_spec now) now r))
          ≡ some (record r {
            fires_at = t;
            last_fired = some done;
            total_fires = suc r.total_fires;
            consecutive_no_ops = if no_op then suc r.consecutive_no_ops else 0;
            last_started_at = none;
          })
      rows_agree = unfold reserve in rw next refl

  moved_row :
      (r : Schedule) (fire_id : String) (now mid f : ℕ) (s : Timetable) (spec : Value)
      (text shown : String)
      → first (is_schedule r.id) s.schedules ≡ some r
      → compute_initial_fires_at p spec mid ≡ some f
      → first
          (is_schedule r.id)
          (reschedule p r.id spec text shown mid (reserve p r fire_id now s).1).1.schedules
        ≡ some (moved spec f (reserved (compute_next_fire p r.when_spec now) now r))
  moved_row r fire_id now mid f s spec text shown found accepted =
      let here = reserved_row r r fire_id now s found in
      ap (first (is_schedule r.id)) (
        reschedule_found p r.id spec text shown mid f (reserve p r fire_id now s).1 _ here accepted)
      ∙ first-update_hit (is_schedule r.id) (moved spec f) _ (λ a. refl) here

  -- A schedule that fires once, and that is rescheduled to an accepted time while its tool runs,
  -- is cancelled when the tool ends: it keeps the new time, which it never reaches.
  reschedule_lost :
      (r : Schedule) (fire_id : String) (no_op : Bool) (now mid done f : ℕ) (s : Timetable)
      (spec : Value) (text shown : String)
      → first (is_schedule r.id) s.schedules ≡ some r
      → compute_next_fire p r.when_spec now ≡ none
      → compute_initial_fires_at p spec mid ≡ some f
      → let (next, running) = reserve p r fire_id now s in
        let moved_on = (reschedule p r.id spec text shown mid running).1 in
        first (is_schedule r.id) (complete r next no_op done moved_on).schedules
        ≡ some (record r {
          when_spec = spec;
          fires_at = f;
          last_fired = some done;
          total_fires = suc r.total_fires;
          cancelled_at = some done;
          last_started_at = none;
        })
  unfolding complete
  reschedule_lost r fire_id no_op now mid done f s spec text shown found once accepted =
      first-update_hit (is_schedule r.id) (finished r (reserve p r fire_id now s).0 no_op done) _
        (λ a. rw (finished_id r (reserve p r fire_id now s).0 no_op done a) refl)
        (moved_row r fire_id now mid f s spec text shown found accepted)
      ∙ rows_agree
    where
      rows_agree :
          some (
            finished r
              (reserve p r fire_id now s).0
              no_op
              done
              (moved spec f (reserved (compute_next_fire p r.when_spec now) now r)))
          ≡ some (record r {
            when_spec = spec;
            fires_at = f;
            last_fired = some done;
            total_fires = suc r.total_fires;
            cancelled_at = some done;
            last_started_at = none;
          })
      rows_agree = unfold reserve in rw once refl
