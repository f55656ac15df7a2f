-- ===== src/Permissions/Handlers.antt =====
-- The handlers of permissions (src/lifeman/permissions_runtime.py and
-- src/lifeman/routes/permissions.py). New ids come as arguments, and `now` is the time.
use life_man.Base.{
  Bool, List, Option, String, [], delete, false, first, if◌then◌else◌, is_empty, is_none, is_some,
  nat_eq, none, replace, select, some, string_eq, true, update, ℕ, ◌&&◌, ◌++◌, ◌<>◌, ◌==◌, ◌∷◌,
}
use life_man.Json.{Value, end, field, obj, str, truthy}
use life_man.Audit.{emit, log}
use life_man.Permissions.{
  Column, Grant, Request, Response, Runtime, Slot, Store, answer, blank, corrupt, http_error, json,
}
use life_man.Permissions.Scope.{grant_expires_at, scope_matches}

-- `json.loads(...) if ... else {}`, and `{}` again for what does not parse
abbrev pub read_scope : Column → Value
read_scope blank = obj end
read_scope corrupt = obj end
read_scope (json v) = v

module _ (rt : Runtime) where
  abbrev pub unexpired : ℕ → Option String → Bool
  unexpired now none = true
  unexpired now (some t) = rt.text_after t now

  -- The WHERE clause of `find_matching_grant`.
  abbrev pub is_live : String → String → ℕ → Grant → Bool
  is_live grantee capability now g =
      (g.grantee == grantee)
      && (g.capability == capability)
      && is_none g.revoked_at
      && unexpired now g.expires_at

  -- The loop over the rows; the outer `none` is an exception.
  unfoldable pub first_cover : Value → List Grant → Option (Option Grant)
  first_cover request [] = some none
  first_cover request (g ∷ gs) =
      let rest = first_cover request gs in
      elim (scope_matches rt (read_scope g.scope) request) [
        | none ↦ none
        | some hit ↦ if hit then some (some g) else rest
      ]

  unfoldable pub find_matching_grant :
      String → String → Value → ℕ → List Grant → Option (Option Grant)
  find_matching_grant grantee capability request now grants =
      first_cover request (select (is_live grantee capability now) grants)

-- `_slot`, and then `status_box[0] = status; event.set()`
abbrev pub is_slot : String → Slot → Bool
is_slot pid s = s.pid == pid

unfoldable pub slot : String → List Slot → List Slot
slot pid ws =
    if is_some (first (is_slot pid) ws)
    then ws
    else ws ++ record { pid = pid; is_set = false; status = "" } ∷ []

unfoldable pub notify_resolved : String → String → List Slot → List Slot
unfolding slot
notify_resolved pid status ws =
    update (is_slot pid) (λ s. record s { is_set = true; status = status }) (slot pid ws)

-- The `call_later` of `notify_resolved`, 30 seconds on: a slot that nobody has taken is dropped.
unfoldable pub reclaim_slot : String → List Slot → List Slot
reclaim_slot pid ws = delete (is_slot pid) ws

abbrev pub is_request : String → Request → Bool
is_request pid r = r.id == pid

abbrev pub or_pending : String → String
or_pending s = if is_empty s then "pending" else s

-- `await_permission` up to its wait: the status it returns at once, or `none` when it waits.
unfoldable pub await_start : String → Store → Option String × Store
unfolding slot
await_start pid s =
    let opened = slot pid s.waiters in
    elim (first (is_request pid) s.requests) [
      | none ↦ (none, record s { waiters = opened })
      | some r ↦
          if or_pending r.status == "pending"
          then (none, record s { waiters = opened })
          else (some r.status, record s { waiters = delete (is_slot pid) opened })
    ]

-- `await_permission` after its wait, which ended by a notice or by the timeout; `box` is the text
-- in the slot that it holds.
unfoldable pub await_end : String → String → Store → String × Store
await_end pid box s =
    let s' = record s { waiters = delete (is_slot pid) s.waiters } in
    if is_empty box
    then (
      elim (first (is_request pid) s.requests) [ none ↦ "pending" | some r ↦ or_pending r.status ],
      s',
    )
    else (box, s')

abbrev pub request_row :
    String → String → String → Value → String → String → ℕ → Option ℕ → Option String → Request
request_row id requester capability scope reason status now resolved invocation = record {
  id = id;
  requester = requester;
  capability = capability;
  scope = scope;
  reason = reason;
  status = status;
  requested_at = now;
  resolved_at = resolved;
  invocation_id = invocation;
}

-- `scope or {}`
abbrev or_dict : Option Value → Value
or_dict none = obj end
or_dict (some v) = if truthy v then v else obj end

unfoldable pub create_permission_request :
    String → String → String → Option Value → String → Option String → ℕ → Store → String × Store
create_permission_request pid requester capability scope reason invocation now s =
    let row =
      request_row pid requester capability (or_dict scope) reason "pending" now none invocation in
    let note = obj (
      field "id" (str pid)
        (field "capability" (str capability) (field "from" (str requester) end))) in
    (
      pid,
      record s {
        requests = s.requests ++ row ∷ [];
        fx =
            log requester "request_permission" capability "" "" reason now
              (emit "permission_requested" note none now s.fx);
      },
    )

-- `request_permission` of the routes; `requester` is the text that `body.scope.get("requester", "llm")`
-- gives. The answer is the status of the new row.
unfoldable pub request_permission :
    Runtime → String → String → String → Value → String → ℕ → Store → Response String × Store
request_permission rt pid requester capability scope reason now s =
    let note = obj (
      field "id" (str pid) (
        field "requester" (str requester)
          (field "capability" (str capability) (field "reason" (str reason) end)))) in
    elim (find_matching_grant rt requester capability scope now s.permissions) [
      | none ↦ (http_error 500 "Internal Server Error", s)
      | some (some g) ↦ (
        answer "granted_always",
        record s {
          requests =
              s.requests
              ++ request_row pid requester capability scope reason "granted_always" now (some now)
                  none
                ∷ [];
        },
      )
      | some none ↦ (
        answer "pending",
        record s {
          requests =
              s.requests
              ++ request_row pid requester capability scope reason "pending" now none none ∷ [];
          fx =
              emit "permission_requested" note none now
                (log requester "request_permission" capability "" "" reason now s.fx);
        },
      )
    ]

-- `resolve_permission` up to its check of the row it has read.
unfoldable pub resolve_check : String → Store → Response Request
resolve_check pid s = elim (first (is_request pid) s.requests) [
  | none ↦ http_error 404 "Permission request not found"
  | some r ↦
      if r.status == "pending"
      then answer r
      else http_error 400 ("Request already resolved: " <> r.status)
]

unfoldable pub resolved_status : String → String
resolved_status action = if action == "deny" then "denied" else replace action "allow_" "granted_"

abbrev pub grant_row : String → Request → ℕ → Grant
grant_row perm_id r now = record {
  id = perm_id;
  granter = "user";
  grantee = r.requester;
  capability = r.capability;
  scope = json r.scope;
  granted_at = now;
  expires_at = grant_expires_at r.scope;
  revoked_at = none;
}

-- The rest of `resolve_permission`, for the row that the check read.
unfoldable pub resolve_apply : String → String → String → Request → ℕ → Store → Store
resolve_apply pid action perm_id r now s =
    let status = resolved_status action in
    let note = obj (
      field "id" (str pid)
        (field "action" (str action) (field "capability" (str r.capability) end))) in
    record s {
      requests =
          update (is_request pid) (λ q. record q { status = status; resolved_at = some now })
            s.requests;
      permissions =
          if action == "allow_always"
          then s.permissions ++ grant_row perm_id r now ∷ []
          else s.permissions;
      fx = emit "permission_resolved" note none now (
          log "user" ("resolve_permission:" <> action) r.capability ("requester=" <> r.requester) ""
            ("Resolved request " <> pid) now s.fx);
      waiters = notify_resolved pid status s.waiters;
    }

unfoldable pub resolve_permission :
    String → String → String → ℕ → Store → Response (Unit {0}) × Store
unfolding resolve_check resolve_apply
resolve_permission pid action perm_id now s = elim (resolve_check pid s) [
  | http_error code detail ↦ (http_error code detail, s)
  | answer r ↦ (answer tt, resolve_apply pid action perm_id r now s)
]

abbrev pub is_grant : String → Grant → Bool
is_grant id g = g.id == id

unfoldable pub revoke_permission : String → ℕ → Store → Store
revoke_permission id now s = record s {
  permissions = update (is_grant id) (λ g. record g { revoked_at = some now }) s.permissions;
  fx = log "user" "revoke_permission" id "" "" "" now s.fx;
}
