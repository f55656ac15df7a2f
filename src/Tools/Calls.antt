-- ===== src/Tools/Calls.antt =====
-- A call of `_execute_tool` (src/lifeman/routes/tools.py): its arguments, what is read of the tool's manifest,
-- and the check of the arguments.
use life_man.Base.{
  Bool, List, Option, String, [], first, get_or, if◌then◌else◌, is_empty, join, none, some, ℕ, ◌<>◌,
  ◌∷◌,
}
use life_man.Json.{
  Fields, Items, Value, arr, cons, end, field, get, get_default, nil, null, obj, str, truthy,
}
use life_man.Audit.{}
use life_man.Tools.{
  Checked, Manifest, Python, Tool, ToolStore, bad_schema, has_name, invalid, latest_manifest, valid,
}

-- The arguments of `_execute_tool`.
pub record Call : Type 0 where
  pub tool : String
  pub args : Fields
  pub source : String
  pub reason : String
  pub schedule_id : Option String
  pub session_id : Option String
  pub parent : Option String
  pub fire_id : Option String

-- `_ToolManifestParams`; a timeout of `none` is the default.
pub record Params : Type 0 where
  pub tool_row : Tool
  pub timeout : Option Value
  pub network_hosts : List String
  pub schema_input : Value

-- What a run in the sandbox gives: what the tool printed, any JSON value or a dict that `run_tool` makes,
-- and how many outputs the tool emitted.
pub record Ran : Type 0 where
  pub result : Value
  pub outputs_emitted : ℕ

abbrev pub error_result : String → Fields
error_result e = field "error" (str e) end

abbrev pub not_found_text : String → String
not_found_text tool = "Tool '" <> tool <> "' not found"

abbrev pub value_of_text : Option String → Value
value_of_text none = null
value_of_text (some s) = str s

abbrev pub value_of : Option Value → Value
value_of none = null
value_of (some v) = v

-- `_existing_invocation_id or str(uuid.uuid4())[:12]`
abbrev pub invocation_id : Option String → String → String
invocation_id none fresh = fresh
invocation_id (some id) fresh = if is_empty id then fresh else id

-- `result.get("error")` is there and true.
abbrev pub has_error : Fields → Bool
has_error result = truthy (get_default "error" null result)

abbrev limits_of : Fields → Fields
limits_of manifest = elim (get_default "compute_limits" (obj end) manifest) [
  | obj limits ↦ limits
  | _ ↦ end
]

abbrev pub check_error : Checked → Option String
check_error valid = none
check_error (invalid path message) =
    let place = join "/" path in
    some (
      "args failed schema_input at "
      <> (if is_empty place then "(root)" else place)
      <> ": "
      <> message)
check_error (bad_schema message) = some ("schema_input itself is invalid: " <> message)

module _ (py : Python) where
  abbrev hosts_of : Items → List String
  hosts_of nil = []
  hosts_of (cons h hs) = let rest = hosts_of hs in if truthy h then py.str_of h ∷ rest else rest

  abbrev network_of : Fields → List String
  network_of manifest = elim (get_default "network" (arr nil) manifest) [
    | arr hosts ↦ hosts_of hosts
    | _ ↦ []
  ]

  abbrev pub params_of : Tool → Option Manifest → Params
  params_of t none = record {
    tool_row = t;
    timeout = none;
    network_hosts = [];
    schema_input = obj end;
  }
  params_of t (some m) = record {
    tool_row = t;
    timeout = get "timeout" (limits_of m.manifest);
    network_hosts = network_of m.manifest;
    schema_input = get_or m.schema_input (obj end);
  }

  -- `_load_tool_and_manifest`; a deprecated tool is found too.
  unfoldable pub load_tool_and_manifest : String → ToolStore → Option Params
  load_tool_and_manifest name s = elim (first (has_name name) s.tools) [
    | none ↦ none
    | some t ↦ some (params_of t (latest_manifest t.id s.manifests))
  ]

  -- `_validate_args`
  unfoldable pub validate_args : Fields → Value → Option String
  validate_args args (obj (field k v fs)) = check_error (py.validate args (field k v fs))
  validate_args args schema = none
