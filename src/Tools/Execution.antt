-- ===== src/Tools/Execution.antt =====
-- The execution of a tool (src/lifeman/routes/tools.py), in the phases of `_execute_tool`.
use life_man.Base.{
  Bool, Option, String, [], elem, false, first, get_or, if◌then◌else◌, is_none, is_some, ltb,
  nat_eq, none, not, some, string_eq, true, update, ℕ, ◌&&◌, ◌++◌, ◌==◌, ◌||◌, ◌∷◌,
}
use life_man.Json.{Fields, Value, arr, get_default, negsuc, null, num, obj, pos, ℤ}
use life_man.Audit.{emit}
use life_man.Tools.{Python, ToolStore, has_name, is_invocation}
use life_man.Tools.Calls.{
  Call, Params, Ran, error_result, has_error, invocation_id, load_tool_and_manifest, not_found_text,
  validate_args,
}
use life_man.Tools.Rows.{
  failed_row, finalize_invocation, new_invocation, record_validation_failure, start_invocation_row,
  started_note,
}

-- The condition of `_maybe_auto_emit_completion`, for a result that is a dict.
unfoldable pub auto_emits : Call → ℕ → Fields → Bool
auto_emits c outputs_emitted result =
    elem c.source ("user" ∷ "schedule" ∷ []) && not (ltb 0 outputs_emitted || has_error result)

abbrev two_63 : ℕ
two_63 = 9223372036854775808

-- An integer of 64 bits with a sign.
abbrev pub fits_64 : ℤ → Bool
fits_64 (pos n) = ltb n two_63
fits_64 (negsuc n) = ltb n two_63

-- SQLite takes the value as a column: a dict, a list, or an integer of more than 64 bits it refuses with an
-- exception.
abbrev pub is_bindable : Value → Bool
is_bindable (num n) = fits_64 n
is_bindable (obj fs) = false
is_bindable (arr vs) = false
is_bindable v = true

-- The dict that a result is, if `result.get` and the UPDATE take it.
unfoldable pub storable : Value → Option Fields
storable (obj result) = if is_bindable (get_default "error" null result) then some result else none
storable v = none

-- What a call of `_execute_tool` runs in: `run` is the sandbox, which may change the tables by other
-- calls; `completion` is the `emit_output` of the auto-emitted output, whose errors are caught.
-- `later` is the time when the run ends.
module _ (py : Python) (run : Params → Call → ToolStore → Ran × ToolStore)
    (completion : Call → Fields → ToolStore → ToolStore) where
  -- `_run_in_sandbox`
  unfoldable pub run_in_sandbox : Params → Call → ToolStore → Ran × ToolStore
  run_in_sandbox p c s =
      if is_some (first (λ (f : String × String). f.0 == p.tool_row.id) s.code_on_disk)
      then run p c s
      else (
        record { result = obj (error_result "Tool code not found on disk"); outputs_emitted = 0 },
        s,
      )

  -- After the run of the tool. `none` is an exception: of `result.get` before anything is written, or of
  -- the UPDATE, after the completion was emitted.
  unfoldable pub conclude :
      String → Call → ℕ → Ran × ToolStore → Option (String × Value) × ToolStore
  conclude id c later (ran, s) = elim ran.result [
    | obj result ↦
        let told = if auto_emits c ran.outputs_emitted result then completion c result s else s in
        elim (storable (obj result)) [
          | none ↦ (none, told)
          | some kept ↦ (some (id, obj kept), finalize_invocation py id c kept later told)
        ]
    | _ ↦ (none, s)
  ]

  -- `existing` is `_existing_invocation_id`, and `fresh` the id that is drawn otherwise, also for an empty one.
  unfoldable pub execute_tool :
      String → Option String → Call → ℕ → ℕ → ToolStore → Option (String × Value) × ToolStore
  execute_tool fresh existing c now later s =
      let id = invocation_id existing fresh in
      elim (load_tool_and_manifest py c.tool s) [
        | none ↦ (some (get_or existing "", obj (error_result (not_found_text c.tool))), s)
        | some p ↦ elim (validate_args py c.args p.schema_input) [
          | some e ↦ (
            some (id, obj (error_result e)),
            record_validation_failure py id (is_some existing) c e now s,
          )
          | none ↦
              conclude id c later
                (run_in_sandbox p c (start_invocation_row py id (is_some existing) c now s))
        ]
      ]

  -- `_spawn_invocation` up to its task: the id, and whether there is a task to run.
  unfoldable pub spawn_invocation : String → Call → ℕ → ToolStore → (String × Bool) × ToolStore
  spawn_invocation fresh c now s =
      if is_none (first (has_name c.tool) s.tools)
      then (
        (fresh, false),
        record s {
          invocations =
              s.invocations
              ++ failed_row py (not_found_text c.tool) now (new_invocation fresh c none "error" now)
                ∷ [];
        },
      )
      else (
        (fresh, true),
        record s {
          invocations = s.invocations ++ new_invocation fresh c none "running" now ∷ [];
          fx = emit "invocation_started" (started_note py fresh c now) none now s.fx;
        },
      )

  -- The handler of an exception in `_runner`, with the text of the exception.
  unfoldable pub record_crash : String → String → ℕ → ToolStore → ToolStore
  record_crash id e now s = record s {
    invocations =
        update (λ r. is_invocation id r && is_none r.finished_at) (failed_row py e now)
          s.invocations;
  }
