-- ===== src/ToolSocket.antt =====
-- The requests that a running tool makes over its socket (src/lifeman/tool_socket.py). `ToolSocket.State` is
-- what a tool keeps between its runs, `ToolSocket.Gate` the check of a capability and the calls that wait for
-- it, `ToolSocket.Events` the events that a tool publishes.
pub mod State
pub mod Refinement
pub mod Gate
pub mod Events
pub mod Examples
use life_man.Base.{Option, String, if◌then◌else◌, is_empty, none, some}
use life_man.Json.{Fields, Value, end, get_default, null, obj, str, truthy}

-- What a method answers: `{"result": …}` or `{"error": …}`.
pub data Reply : Type 0 where
  result : Value → Reply
  error : String → Reply

-- `params.get(k) or {}`
abbrev pub dict_or_empty : String → Fields → Value
dict_or_empty k params = let v = get_default k null params in if truthy v then v else obj end

-- `isinstance(v, str) and v`
abbrev pub given_text : String → Fields → Option String
given_text k params = elim (get_default k null params) [
  | str s ↦ if is_empty s then none else some s
  | _ ↦ none
]
