-- ===== src/Tools/Rows.antt =====
-- What a call of `_execute_tool` (src/lifeman/routes/tools.py) writes: the row of its invocation, the audit log
-- and the events.
use life_man.Base.{
  Bool, Option, String, [], count_chars, false, if◌then◌else◌, is_some, leb, none, some, take_chars,
  true, update, ℕ, ◌++◌, ◌∷◌,
}
use life_man.Json.{
  Fields, Value, arr, bool, end, field, get_default, null, num, obj, pos, str, truthy,
}
use life_man.Audit.{Effects, emit, log}
use life_man.Tools.{Invocation, Python, ToolStore, is_invocation}
use life_man.Tools.Calls.{Call, error_result, has_error, value_of_text}

-- `_RESULT_JSON_MAX_BYTES`
abbrev pub result_limit : ℕ
result_limit = 1000000

abbrev kept_error : Fields → Fields
kept_error result = elim (get_default "error" null result) [
  | str e ↦ field "error" (str e) end
  | _ ↦ end
]

abbrev pub new_invocation : String → Call → Option String → String → ℕ → Invocation
new_invocation id c schedule status now = record {
  id = id;
  tool = c.tool;
  args = c.args;
  source = c.source;
  result_json = none;
  error = none;
  started_at = now;
  finished_at = none;
  schedule_id = schedule;
  session_id = c.session_id;
  parent_invocation_id = c.parent;
  reason = c.reason;
  status = status;
}

abbrev no_fields : Fields → Bool
no_fields end = true
no_fields (field k v fs) = false

module _ (py : Python) where
  -- `_cap_result_json`
  unfoldable pub cap_result_json : Fields → String
  cap_result_json result =
      let body = py.dumps (obj result) in
      if leb (count_chars body) result_limit
      then body
      else py.dumps (
          obj (
            field "_truncated" (bool true) (
              field "_original_bytes" (num (py.show (count_chars body))) (
                field "_limit_bytes" (num (py.show result_limit))
                  (field "preview" (str (take_chars 1024 body)) (kept_error result))))))

  abbrev pub failed_row : String → ℕ → Invocation → Invocation
  failed_row e now r = record r {
    error = some e;
    finished_at = some now;
    status = "error";
    result_json = some (py.dumps (obj (error_result e)));
  }

  abbrev pub started_note : String → Call → ℕ → Value
  started_note id c now = obj (
      field "id" (str id) (
        field "tool" (str c.tool) (
          field "source" (str c.source) (
            field "session_id" (value_of_text c.session_id) (
              field "schedule_id" (value_of_text c.schedule_id) (
                field "parent_invocation_id" (value_of_text c.parent)
                  (field "reason" (str c.reason) (field "started_at" (str (py.iso now)) end))))))))

  -- `_publish_invocation_completed`
  unfoldable pub publish_completed : String → Call → String → ℕ → Value → Value → Effects → Effects
  publish_completed id c status now error result fx =
      emit "invocation_completed"
        (obj (
          field "id" (str id) (
            field "tool" (str c.tool) (
              field "source" (str c.source) (
                field "status" (str status) (
                  field "session_id" (value_of_text c.session_id) (
                    field "schedule_id" (value_of_text c.schedule_id) (
                      field "parent_invocation_id" (value_of_text c.parent) (
                        field "finished_at" (str (py.iso now)) (
                          field "error" error
                            (field "result" (if truthy error then null else result) end)))))))))))
        none now fx

  abbrev args_text : Call → String
  args_text c = take_chars 200 (py.dumps (obj c.args))

  -- `_record_validation_failure`; `existing` tells whether the row was inserted before.
  unfoldable pub record_validation_failure :
      String → Bool → Call → String → ℕ → ToolStore → ToolStore
  record_validation_failure id existing c e now s = record s {
    invocations =
        if existing
        then update (is_invocation id) (failed_row e now) s.invocations
        else s.invocations ++ failed_row e now (new_invocation id c c.schedule_id "error" now) ∷ [];
    fx =
        publish_completed id c "error" now (str e) null
          (log c.source "invoke_tool" c.tool (args_text c) (take_chars 200 e) c.reason now s.fx);
  }

  -- `_start_invocation_row`
  unfoldable pub start_invocation_row : String → Bool → Call → ℕ → ToolStore → ToolStore
  start_invocation_row id existing c now s =
      if existing
      then if is_some c.schedule_id
        then record s {
          invocations =
              update (is_invocation id) (λ r. record r { schedule_id = c.schedule_id })
                s.invocations;
        }
        else s
      else record s {
        invocations = s.invocations ++ new_invocation id c c.schedule_id "running" now ∷ [];
        fx = emit "invocation_started" (started_note id c now) none now s.fx;
      }

  -- What a column of the affinity TEXT holds of a value that is bound to it: a number, and a Boolean as the
  -- number that it is, is stored as its text. A dict or a list is never bound.
  abbrev pub error_column : Value → Option String
  error_column null = none
  error_column (bool true) = some (py.text_of_integer (pos 1))
  error_column (bool false) = some (py.text_of_integer (pos 0))
  error_column (num n) = some (py.text_of_integer n)
  error_column (str s) = some s
  error_column (arr vs) = none
  error_column (obj fs) = none

  abbrev pub finished_row : Fields → ℕ → Invocation → Invocation
  finished_row result now r = record r {
    result_json = some (cap_result_json result);
    error = error_column (get_default "error" null result);
    finished_at = some now;
    status = if has_error result then "error" else "ok";
  }

  -- `_finalize_invocation`
  unfoldable pub finalize_invocation : String → Call → Fields → ℕ → ToolStore → ToolStore
  finalize_invocation id c result now s = record s {
    invocations = update (is_invocation id) (finished_row result now) s.invocations;
    fx =
        publish_completed id c (if has_error result then "error" else "ok") now
          (get_default "error" null result) (obj result)
          (log c.source "invoke_tool" c.tool (args_text c)
            (if no_fields result then "" else take_chars 200 (py.dumps (obj result))) c.reason now
            s.fx);
  }
