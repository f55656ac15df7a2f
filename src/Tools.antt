-- ===== src/Tools.antt =====
-- Tools and their invocations (src/lifeman/routes/tools.py): the tables `tools`, `tool_manifests` and
-- `invocations`. `Tools.Registry` registers and lists tools, `Tools.Calls`, `Tools.Rows` and
-- `Tools.Execution` run them. The sandbox that
-- runs a tool's code, `jsonschema` and `json.dumps` are arguments.
pub mod Registry
pub mod Calls
pub mod Rows
pub mod Execution
pub mod Ended
pub mod Lifecycle
pub mod Examples
use life_man.Base.{
  Bool, List, Option, String, [], if◌then◌else◌, ltb, nat_eq, none, some, string_eq, ℕ, ◌==◌, ◌∷◌,
}
use life_man.Json.{Fields, Value, ℤ}
use life_man.Audit.{Effects}

-- A row of `tools`.
pub record Tool : Type 0 where
  pub id : String
  pub name : String
  pub description : String
  pub category : String
  pub version : ℕ
  pub installed_at : ℕ
  pub deprecated_at : Option ℕ

-- A row of `tool_manifests`; its JSON columns are what reads back of them, `schema_input` being `none`
-- where it does not parse.
pub record Manifest : Type 0 where
  pub tool_id : String
  pub manifest : Fields
  pub schema_input : Option Value
  pub schema_output : Option Value
  pub code : String
  pub version : ℕ

-- A row of `invocations`.
pub record Invocation : Type 0 where
  pub id : String
  pub tool : String
  pub args : Fields
  pub source : String
  pub result_json : Option String
  pub error : Option String
  pub started_at : ℕ
  pub finished_at : Option ℕ
  pub schedule_id : Option String
  pub session_id : Option String
  pub parent_invocation_id : Option String
  pub reason : String
  pub status : String

-- The code of a tool on disk, under its id.
pub record ToolStore : Type 0 where
  pub tools : List Tool
  pub manifests : List Manifest
  pub invocations : List Invocation
  pub code_on_disk : List (String × String)
  pub fx : Effects

-- What `jsonschema.validate` finds: nothing, a `ValidationError` with its path and message, or a
-- `SchemaError`.
pub data Checked : Type 0 where
  valid : Checked
  invalid : List String → String → Checked
  bad_schema : String → Checked

-- What the code calls outside itself.
pub record Python : Type 0 where
  pub dumps : Value → String
  pub str_of : Value → String
  pub validate : Fields → Fields → Checked
  pub iso : ℕ → String
  pub text_less : String → String → Bool
  pub show : ℕ → ℤ
  -- SQLite's text of an integer.
  pub text_of_integer : ℤ → String

abbrev pub has_name : String → Tool → Bool
has_name name t = t.name == name

abbrev pub is_invocation : String → Invocation → Bool
is_invocation id r = r.id == id

-- `ORDER BY version DESC LIMIT 1`
abbrev pub newer : Manifest → Option Manifest → Manifest
newer m none = m
newer m (some n) = if ltb m.version n.version then n else m

unfoldable pub latest_manifest : String → List Manifest → Option Manifest
latest_manifest tool_id [] = none
latest_manifest tool_id (m ∷ ms) =
    let rest = latest_manifest tool_id ms in
    if m.tool_id == tool_id then some (newer m rest) else rest
