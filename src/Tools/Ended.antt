-- ===== src/Tools/Ended.antt =====
-- The rows of a call: started, refused and ended.
use life_man.Base.{
  Bool-cases, Option, String, arith, eq_iff, false, first, first-append, first-update_hit,
  if◌then◌else◌, inl, inr, is_empty, is_empty-append_right, is_some, join, none, refl, some, ℕ,
  ◌<>◌, ◌≡◌, ◌≢◌,
}
use life_man.Json.{Fields, Value, arr, bool, end, field, get, get_default, null, num, obj, str}
use life_man.Tools.{
  Checked, Invocation, Python, ToolStore, bad_schema, invalid, is_invocation, valid,
}
use life_man.Tools.Calls.{Call, check_error, error_result, has_error, invocation_id, validate_args}
use life_man.Tools.Rows.{
  error_column, failed_row, finalize_invocation, finished_row, new_invocation,
  record_validation_failure, start_invocation_row,
}

-- The row of an invocation that has ended with a result.
pub record Ended (py : Python) (result : Fields) (r : Invocation) : Type 0 where
  pub stopped : r.finished_at ≢ none
  pub status : r.status ≡ (if has_error result then "error" else "ok")
  pub error : r.error ≡ error_column py (get_default "error" null result)

module _ (py : Python) where
  pub finalized :
      (id : String) (c : Call) (result : Fields) (now : ℕ) (s : ToolStore) (r : Invocation)
      → first (is_invocation id) s.invocations ≡ some r
      → (r' : Invocation) × (first
            (is_invocation id)
            (finalize_invocation py id c result now s).invocations
          ≡ some r')
        × Ended py result r'
  unfolding finalize_invocation
  finalized id c result now s r found = (
    finished_row py result now r,
    first-update_hit (is_invocation id) (finished_row py result now) s.invocations (λ a. refl)
        found,
    record { stopped = λ e. ground arith; status = refl; error = ground arith },
  )

  -- A call takes a new id, or the id, not empty, of a row that was inserted for it.
  abbrev pub Ready : String → Option String → ToolStore → Type 0
  Ready fresh none s = first (is_invocation fresh) s.invocations ≡ none
  Ready fresh (some id) s =
      (is_empty id ≡ false) × ((r : Invocation) × (first (is_invocation id) s.invocations ≡ some r))

  abbrev pub HasRow : String → ToolStore → Type 0
  HasRow id s = (r : Invocation) × (first (is_invocation id) s.invocations ≡ some r)

  pub started :
      (fresh : String) (existing : Option String) (c : Call) (now : ℕ) (s : ToolStore)
      → Ready fresh existing s
      → HasRow
          (invocation_id existing fresh)
          (start_invocation_row py (invocation_id existing fresh) (is_some existing) c now s)
  unfolding start_invocation_row
  started fresh none c now s free = (
    new_invocation fresh c c.schedule_id "running" now,
    first-append (is_invocation fresh) s.invocations _ free (ground (arith, eq_iff fresh fresh)),
  )
  started fresh (some id) c now s (filled, (r, e)) =
      rw filled (elim (Bool-cases (is_some c.schedule_id)) [
        | inr k ↦ (r, ground arith)
        | inl k ↦ (
          record r { schedule_id = c.schedule_id },
          rw k (first-update_hit (is_invocation id) _ s.invocations (λ a. refl) e),
        )
      ])

  pub check_said : (x : Checked) (e : String) → check_error x ≡ some e → is_empty e ≡ false
  check_said valid e h = cc
  check_said (invalid path message) e h =
      let said =
        is_empty-append_right "args failed schema_input at "
          ((let place = join "/" path in if is_empty place then "(root)" else place)
            <> (": " <> message))
          refl in
      ground (arith, said)
  check_said (bad_schema message) e h =
      let said = is_empty-append_right "schema_input itself is invalid: " message refl in
      ground (arith, said)

  pub validation_said :
      (args : Fields) (schema : Value) (e : String)
      → validate_args py args schema ≡ some e
      → is_empty e ≡ false
  unfolding validate_args
  validation_said args (obj (field k v fs)) e h = check_said (py.validate args (field k v fs)) e h
  validation_said args (obj end) e h = cc
  validation_said args null e h = cc
  validation_said args (bool b) e h = cc
  validation_said args (num n) e h = cc
  validation_said args (str t) e h = cc
  validation_said args (arr vs) e h = cc

  pub failed_Ended :
      (e : String) (now : ℕ) (r : Invocation)
      → is_empty e ≡ false
      → Ended py (error_result e) (failed_row py e now r)
  unfolding get
  failed_Ended e now r h = record {
    stopped = λ k. ground arith;
    status = ground arith;
    error = refl;
  }

  pub rejected :
      (fresh : String) (existing : Option String) (c : Call) (e : String) (now : ℕ) (s : ToolStore)
      → Ready fresh existing s
      → is_empty e ≡ false
      → let s' =
          record_validation_failure py
            (invocation_id existing fresh)
            (is_some existing)
            c
            e
            now
            s in
        (r : Invocation) × (first (is_invocation (invocation_id existing fresh)) s'.invocations
          ≡ some r)
        × Ended py (error_result e) r
  unfolding record_validation_failure
  rejected fresh none c e now s free h =
      let row = failed_row py e now (new_invocation fresh c c.schedule_id "error" now) in
      (
        row,
        first-append (is_invocation fresh) s.invocations row free
            (ground (arith, eq_iff fresh fresh)),
        failed_Ended e now (new_invocation fresh c c.schedule_id "error" now) h,
      )
  rejected fresh (some id) c e now s (filled, (r, k)) h = rw filled (
    failed_row py e now r,
    first-update_hit (is_invocation id) (failed_row py e now) s.invocations (λ a. refl) k,
    failed_Ended e now r h,
  )
