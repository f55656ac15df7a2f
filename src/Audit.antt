-- ===== src/Audit.antt =====
-- The audit log (src/lifeman/audit.py), and the two sinks that every handler writes to: the log and
-- the event bus. Ids that the database hands out are numbers, one more than the last.
use life_man.Base.{List, Option, String, [], take_chars, ℕ, ◌++◌, ◌+◌, ◌∷◌}
use life_man.Json.{Value}
use life_man.Sse.{EventBus, new_bus, publish}

pub record AuditRow : Type 0 where
  pub id : ℕ
  pub timestamp : ℕ
  pub source : String
  pub action : String
  pub target : String
  pub args_summary : String
  pub result_summary : String
  pub reason : String

-- What the handlers share beside their own tables.
pub record Effects : Type 0 where
  pub audit_log : List AuditRow
  pub last_id : ℕ
  pub bus : EventBus

-- `audit.log`; `some_text[:500] if some_text else ""` is `some_text[:500]`
unfoldable pub log : String → String → String → String → String → String → ℕ → Effects → Effects
log source action target args_summary result_summary reason now fx =
    let row : AuditRow = record {
      id = fx.last_id + 1;
      timestamp = now;
      source = source;
      action = action;
      target = target;
      args_summary = take_chars 500 args_summary;
      result_summary = take_chars 500 result_summary;
      reason = reason;
    } in
    record fx { audit_log = fx.audit_log ++ row ∷ []; last_id = fx.last_id + 1 }

-- `bus.publish`
unfoldable pub emit : String → Value → Option String → ℕ → Effects → Effects
emit kind content target now fx = record fx { bus = publish kind content target now fx.bus }

unfoldable pub no_effects : Effects
unfolding new_bus
no_effects = record { audit_log = []; last_id = 0; bus = new_bus }
