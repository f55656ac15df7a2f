-- ===== src/ToolSocket/Gate.antt =====
-- The check of a capability (`_check_capability` and `_check_invoke_capability` of src/lifeman/tool_socket.py), and
-- the methods `invoke` and `request_permission`. `wait` of a caller is what a waiter of it is woken with, and the
-- store of permissions then.
use life_man.Base.{Bool, Memᴰ, Option, String, false, none, some, true, ℕ, ◌<>◌, ◌≡◌, ◌⊎◌}
use life_man.Json.{Fields, Value, bool, end, field, get_default, obj, str}
use life_man.Permissions.{Grant, Runtime, Store}
use life_man.Permissions.Handlers.{create_permission_request, find_matching_grant, unexpired}
use life_man.Permissions.Waiting.{Asked, await_permission, is_granted, next_store, same_store}
use life_man.Permissions.Grants.{ScopeCovers}
use life_man.ToolSocket.{Reply, dict_or_empty, error, given_text, result}

-- The tool that calls, its invocation, and what wakes it when it waits for the user.
pub record Caller : Type 0 where
  pub tool_name : String
  pub invocation_id : String
  pub pid : String
  pub wait : Store → String × Store

abbrev pub grantee_of : Caller → String
grantee_of caller = "tool:" <> caller.tool_name

-- `await_permission` for the caller's request.
abbrev pub awaited : Caller → Store → String × Store
awaited caller s = await_permission same_store next_store caller.pid caller.wait s

-- The store in which the caller's request has been made.
abbrev pub requested : Caller → String → Value → String → ℕ → Store → Store
requested caller capability scope reason now s =
    (create_permission_request caller.pid (grantee_of caller) capability (some scope) reason
      (some caller.invocation_id) now s).1

-- A reason that is no text counts as none.
abbrev pub text_or_empty : Value → String
text_or_empty (str s) = s
text_or_empty v = ""

abbrev pub dict_of : Value → Value
dict_of (obj fs) = obj fs
dict_of v = obj end

abbrev pub invoke_scope : String → Value → Value
invoke_scope target args = obj (field "target" (str target) (field "args" (dict_of args) end))

module _ (rt : Runtime) where
  -- `none` is an exception in the search for a grant.
  unfoldable pub check_capability :
      Caller → String → Value → String → ℕ → Store → Option Bool × Store
  check_capability caller capability scope reason now s =
      elim (find_matching_grant rt (grantee_of caller) capability scope now s.permissions) [
        | none ↦ (none, s)
        | some (some g) ↦ (some true, s)
        | some none ↦
            let (status, s') = awaited caller (requested caller capability scope reason now s) in
            (some (is_granted status), s')
      ]

  unfoldable pub check_invoke_capability :
      Caller → String → Value → String → ℕ → Store → Option Bool × Store
  check_invoke_capability caller target args reason now s =
      check_capability caller ("invoke:" <> target) (invoke_scope target args) reason now s

  abbrev pub permission_required : String → Reply
  permission_required capability =
      result
        (obj (field "permission_required" (bool true) (field "capability" (str capability) end)))

  -- What a call of `_execute_tool` does to the rest of the program, `S`: the tool, the arguments and the
  -- reason.
  module _ {S : Type 0} (execute : String → Value → Value → S → Value × S) where
    -- The method `invoke`, for a `tool` that is a text; a missing one is an error. `none` is an exception.
    unfoldable pub invoke : Caller → Fields → ℕ → Store × S → Option Reply × (Store × S)
    invoke caller params now (s, w) = elim (given_text "tool" params) [
      | none ↦ (some (error "missing 'tool'"), (s, w))
      | some target ↦
          let args = dict_or_empty "args" params in
          let reason = text_or_empty (get_default "reason" (str "") params) in
          let (granted, s') = check_invoke_capability caller target args reason now s in
          elim granted [
            | none ↦ (none, (s', w))
            | some true ↦
                let (answered, w') =
                  execute target args (get_default "reason" (str "tool_initiated") params) w in
                (some (result answered), (s', w'))
            | some false ↦ (some (permission_required ("invoke:" <> target)), (s', w))
          ]
    ]

  -- What entitles the caller to run the target: a grant, or the user.
  abbrev pub Entitled : Caller → String → Value → String → ℕ → Store → Type 0
  Entitled caller target args reason now s =
      ((g : Grant) × Memᴰ g s.permissions
        × (g.grantee ≡ "tool:" <> caller.tool_name)
        × (g.capability ≡ "invoke:" <> target)
        × (g.revoked_at ≡ none)
        × (unexpired rt now g.expires_at ≡ true)
        × ScopeCovers rt g.scope (invoke_scope target args))
      ⊎ Asked same_store next_store caller.pid ("tool:" <> caller.tool_name) ("invoke:" <> target)
          (invoke_scope target args) caller.wait
          (requested caller ("invoke:" <> target) (invoke_scope target args) reason now s)

  -- The method `request_permission`: it answers the id of the request and the status that the wait gave.
  unfoldable pub request_permission : Caller → Fields → ℕ → Store → Reply × Store
  request_permission caller params now s =
      let (status, s') = awaited caller (
        requested caller (text_at "capability" params) (dict_or_empty "scope" params)
          (text_at "reason" params) now s) in
      (result (obj (field "id" (str caller.pid) (field "status" (str status) end))), s')
    where
      text_at : String → Fields → String
      text_at k fs = elim (get_default k (str "") fs) [ str t ↦ t | _ ↦ "" ]
