-- ===== src/Tools/Registry.antt =====
-- Registering, listing and deprecating tools (src/lifeman/routes/tools.py).
use life_man.Base.{
  Bool, List, Option, String, [], count_chars, first, get_or, has_text, if◌then◌else◌, is_none,
  is_some, ltb, map, nat_eq, none, rowcount, select, some, sort_by, string_eq, suc, true, update, ℕ,
  ◌&&◌, ◌*◌, ◌++◌, ◌-◌, ◌<>◌, ◌==◌, ◌∷◌,
}
use life_man.Json.{Fields, Items, arr, cons, end, field, get_default, nil, num, obj, size, str}
use life_man.Audit.{emit, log}
use life_man.Permissions.{Response, answer, http_error}
use life_man.Tools.{Invocation, Manifest, Python, Tool, ToolStore, has_name, latest_manifest}

-- `ToolCreate`
pub record ToolCreate : Type 0 where
  pub name : String
  pub description : String
  pub category : String
  pub manifest : Fields
  pub schema_input : Fields
  pub schema_output : Fields
  pub code : String

abbrev pub new_tool : String → ToolCreate → ℕ → Tool
new_tool id body now = record {
  id = id;
  name = body.name;
  description = body.description;
  category = body.category;
  version = 1;
  installed_at = now;
  deprecated_at = none;
}

abbrev pub new_manifest : String → ToolCreate → Manifest
new_manifest id body = record {
  tool_id = id;
  manifest = body.manifest;
  schema_input = some (obj body.schema_input);
  schema_output = some (obj body.schema_output);
  code = body.code;
  version = 1;
}

unfoldable pub register_tool : String → ToolCreate → ℕ → ToolStore → Response String × ToolStore
register_tool id body now s =
    if is_some (first (has_name body.name) s.tools)
    then (http_error 400 ("Tool with name '" <> body.name <> "' already exists"), s)
    else (
      answer id,
      record s {
        tools = s.tools ++ new_tool id body now ∷ [];
        manifests = s.manifests ++ new_manifest id body ∷ [];
        code_on_disk = (id, body.code) ∷ s.code_on_disk;
        fx =
            emit "tool_registered" (obj (field "id" (str id) (field "name" (str body.name) end)))
              none now
              (log "user" "register_tool" body.name ("category=" <> body.category) ""
                "tool registration" now s.fx);
      },
    )

unfoldable pub deprecate_tool : String → ℕ → ToolStore → ToolStore
deprecate_tool id now s = record s {
  tools = update (λ (t : Tool). t.id == id) (λ t. record t { deprecated_at = some now }) s.tools;
  fx = log "user" "deprecate_tool" id "" "" "" now s.fx;
}

abbrev count_items : Items → ℕ
count_items nil = 0
count_items (cons v vs) = suc (count_items vs)

-- `len(m.get(k, []))`, of a list, a text or a dict
abbrev pub len_field : String → Fields → ℕ
len_field k fs = elim (get_default k (arr nil) fs) [
  | arr vs ↦ count_items vs
  | str s ↦ count_chars s
  | obj gs ↦ size gs
  | _ ↦ 0
]

-- `ToolSummary`
pub record ToolSummary : Type 0 where
  pub id : String
  pub name : String
  pub description : String
  pub category : String
  pub manifest_summary : Fields
  pub invocations_last_week : ℕ

abbrev pub week : ℕ
week = 7 * 24 * 60 * 60 * 1000000

module _ (py : Python) where
  abbrev summary_of : Option Manifest → Fields
  summary_of none = end
  summary_of (some m) = field "reads" (num (py.show (len_field "reads" m.manifest))) (
      field "writes" (num (py.show (len_field "writes" m.manifest)))
        (field "network" (num (py.show (len_field "network" m.manifest))) end))

  abbrev summarise : ℕ → ToolStore → Tool → ToolSummary
  summarise now s t = record {
    id = t.id;
    name = t.name;
    description = t.description;
    category = t.category;
    manifest_summary = summary_of (latest_manifest t.id s.manifests);
    invocations_last_week =
        rowcount (λ (r : Invocation). (r.tool == t.name) && ltb (now - week) r.started_at)
          s.invocations;
  }

  abbrev pub is_listed : Option String → Tool → Bool
  is_listed category t =
      is_none t.deprecated_at
      && (if has_text category then t.category == get_or category "" else true)

  unfoldable pub list_tools : Option String → ℕ → ToolStore → List ToolSummary
  list_tools category now s = map (summarise now s) (
      sort_by (λ (a : Tool) (b : Tool). py.text_less a.name b.name)
        (select (is_listed category) s.tools))
