-- ===== src/Tools/Examples.antt =====
-- A tool that is called once, and one that prints a list.
use life_man.Base.{[], false, first, map, none, refl, some, ◌∷◌, ◌≡◌}
use life_man.Json.{Fields, arr, cons, end, field, get, nil, obj, pos, str}
use life_man.Audit.{no_effects}
use life_man.Sse.{}
use life_man.Permissions.{answer}
use life_man.Tools.{Invocation, Python, ToolStore, invalid, is_invocation, latest_manifest, valid}
use life_man.Tools.Registry.{
  ToolCreate, ToolSummary, deprecate_tool, list_tools, new_manifest, new_tool, register_tool,
}
use life_man.Tools.Calls.{
  Call, Params, Ran, error_result, load_tool_and_manifest, params_of, validate_args,
}
use life_man.Tools.Rows.{}
use life_man.Tools.Execution.{execute_tool, storable}
use life_man.Tools.Ended.{Ended}
use life_man.Tools.Lifecycle.{odd_result_left_running}

-- A schema is right for every call but those without arguments.
abbrev python : Python
python = record {
  dumps = λ v. "{}";
  str_of = λ v. "";
  validate = λ args schema. elim args [ end ↦ invalid [] "missing" | field _ _ _ ↦ valid ];
  iso = λ n. "t";
  text_less = λ s t. false;
  show = pos;
  text_of_integer = λ n. "1";
}

abbrev weather : ToolCreate
weather = record {
  name = "weather";
  description = "";
  category = "general";
  manifest = field "network" (arr (cons (str "api.example.org") nil)) end;
  schema_input = field "type" (str "object") end;
  schema_output = end;
  code = "print(1)";
}

abbrev no_tools : ToolStore
no_tools = record {
  tools = [];
  manifests = [];
  invocations = [];
  code_on_disk = [];
  fx = no_effects;
}

abbrev installed : ToolStore
installed = record no_tools {
  tools = new_tool "t1" weather 1 ∷ [];
  manifests = new_manifest "t1" weather ∷ [];
  code_on_disk = ("t1", "print(1)") ∷ [];
}

registered :
    let (answered, s) = register_tool "t1" weather 1 no_tools in
    (answered ≡ answer "t1") × (s.tools ≡ installed.tools) × (s.manifests ≡ installed.manifests)
unfolding register_tool
registered = (refl, refl, refl)

listed_until_deprecated :
    (map (λ (t : ToolSummary). t.name) (list_tools python none 2 installed) ≡ "weather" ∷ [])
    × (list_tools python none 4 (deprecate_tool "t1" 3 installed) ≡ [])
unfolding list_tools deprecate_tool
listed_until_deprecated = (refl, refl)

abbrev call : Fields → Call
call args = record {
  tool = "weather";
  args = args;
  source = "user";
  reason = "";
  schedule_id = none;
  session_id = none;
  parent = none;
  fire_id = none;
}

abbrev sunny : Params → Call → ToolStore → Ran × ToolStore
sunny p c s = (record { result = obj (field "sky" (str "clear") end); outputs_emitted = 0 }, s)

abbrev prints_list : Params → Call → ToolStore → Ran × ToolStore
prints_list p c s = (record { result = arr nil; outputs_emitted = 0 }, s)

abbrev quiet : Call → Fields → ToolStore → ToolStore
quiet c result s = s

abbrev paris : Call
paris = call (field "city" (str "Paris") end)

-- The same call by the refused arguments: the row is there, and it has ended.
refused :
    (execute_tool python sunny quiet "i1" none (call end) 5 9 installed).0
    ≡ some ("i1", obj (error_result "args failed schema_input at (root): missing"))
unfolding execute_tool load_tool_and_manifest validate_args latest_manifest get
refused = refl

unknown_tool :
    execute_tool python sunny quiet "i1" none (record paris { tool = "wether" }) 5 9 installed
    ≡ (some ("", obj (error_result "Tool 'wether' not found")), installed)
unfolding execute_tool load_tool_and_manifest
unknown_tool = refl

passes :
    validate_args python paris.args
      (params_of python
        (new_tool "t1" weather 1)
        (latest_manifest "t1" installed.manifests)).schema_input
    ≡ none
unfolding validate_args latest_manifest
passes = refl

storable_list : storable (arr nil) ≡ none
unfolding storable
storable_list = refl

odd_result_left_running_example :
    let (answered, s') = execute_tool python prints_list quiet "i1" none paris 5 9 installed in
    (r : Invocation) × (answered ≡ none)
    × (first (is_invocation "i1") s'.invocations ≡ some r)
    × (r.status ≡ "running")
    × (r.finished_at ≡ none)
odd_result_left_running_example =
    odd_result_left_running python prints_list quiet "i1" paris 5 9 installed
      (new_tool "t1" weather 1) ("t1", "print(1)") refl refl passes refl (λ q u. refl)
      (λ fs u. refl) (λ q u. storable_list)
