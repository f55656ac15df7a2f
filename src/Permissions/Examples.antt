-- ===== src/Permissions/Examples.antt =====
-- A tool asks for the network, and the user answers.
use life_man.Base.{
  [], arith, eq_iff, false, first, nat_eq, none, refl, replace, some, string_eq, true, ◌<>◌, ◌==◌,
  ◌↔◌, ◌∷◌, ◌≡◌, ◌≢◌,
}
use life_man.Json.{Value, beq, end, field, get, obj, str}
use life_man.Audit.{no_effects}
use life_man.Permissions.{Grant, Request, Runtime, Slot, Store, answer, http_error}
use life_man.Permissions.Scope.{
  args_cover, candidate_of, grant_expires_at, host_is_local, hosts_local, mode_of, predicate_match,
  scope_matches, under_mode,
}
use life_man.Permissions.Handlers.{
  await_end, await_start, create_permission_request, find_matching_grant, first_cover, grant_row,
  is_live, is_request, read_scope, reclaim_slot, resolve_apply, resolve_check, resolve_permission,
  resolved_status, revoke_permission,
}
use life_man.Permissions.Coverage.{Covers, scope_matches_iff}
use life_man.Permissions.Grants.{find_matching_grant_complete}
use life_man.Permissions.Resolved.{Op, apply, reclaim, resolve_once, run}
use life_man.Permissions.Waiting.{await_permission, is_granted, next_store, same_store}
use life_man.Permissions.Unanswered.{ungranted_unless_allowed, woken_by}
use life_man.Permissions.Requests.{box_of, no_lost_resolution}

abbrev runtime : Runtime
runtime = record {
  glob = λ name pattern. name == pattern;
  regex = λ pattern name. some (name == pattern);
  hostname = λ url. some (some url);
  lower = λ s. s;
  ip_is_local = λ host. some (host == "127.0.0.1");
  text_after = λ text now. true;
}

-- A scope for one host on this machine, and a request for it.
abbrev local_scope : Value
local_scope = obj (
    field "network_mode" (str "local_only")
      (field "args_match" (obj (field "host" (str "localhost") end)) end))

abbrev local_request : Value
local_request = obj (field "args" (obj (field "host" (str "localhost") end)) end)

abbrev pending_row : Request
pending_row = record {
  id = "r1";
  requester = "weather";
  capability = "network";
  scope = local_scope;
  reason = "forecast";
  status = "pending";
  requested_at = 1;
  resolved_at = none;
  invocation_id = none;
}

abbrev asked : Store
asked = record { permissions = []; requests = pending_row ∷ []; waiters = []; fx = no_effects }

abbrev standing : Grant
standing = grant_row "g1" pending_row 2

local_covered : scope_matches runtime local_scope local_request ≡ some true
unfolding scope_matches mode_of candidate_of under_mode hosts_local host_is_local args_cover
    predicate_match beq get
local_covered = refl

remote_refused :
    scope_matches runtime local_scope (obj (field "host" (str "example.org") end)) ≡ some false
unfolding scope_matches mode_of candidate_of under_mode hosts_local host_is_local args_cover
    predicate_match beq get
remote_refused = refl

standing_no_other :
    find_matching_grant runtime "weather" "network"
      (obj (field "host" (str "example.org") end))
      3
      (standing ∷ [])
    ≡ some none
unfolding find_matching_grant first_cover scope_matches mode_of candidate_of under_mode hosts_local
    host_is_local args_cover predicate_match beq get grant_expires_at
standing_no_other = refl

scope_matches_iff_example :
    (scope_matches runtime local_scope local_request ≡ some true)
    ↔ Covers runtime local_scope local_request
scope_matches_iff_example = scope_matches_iff runtime local_scope local_request

standing_live : is_live runtime "weather" "network" 3 standing ≡ true
unfolding grant_expires_at get
standing_live = refl

find_matching_grant_complete_example :
    ¬ Covers runtime (read_scope standing.scope) (obj (field "host" (str "example.org") end))
find_matching_grant_complete_example =
    find_matching_grant_complete runtime "weather" "network"
      (obj (field "host" (str "example.org") end)) 3 (standing ∷ []) (λ g. true) standing
      standing_no_other refl standing_live

abbrev two_grants : Store
two_grants = record asked { permissions = standing ∷ record standing { id = "g2" } ∷ [] }

second_found :
    find_matching_grant runtime "weather" "network" local_request 9
      (revoke_permission "g1" 5 two_grants).permissions
    ≡ some (some (record standing { id = "g2" }))
unfolding revoke_permission find_matching_grant first_cover scope_matches mode_of candidate_of
    under_mode hosts_local host_is_local args_cover predicate_match beq get grant_expires_at
second_found = refl

allowed_always : resolved_status "allow_always" ≡ "granted_always"
unfolding resolved_status replace
allowed_always = refl

allowed_once : resolved_status "allow_once" ≡ "granted_once"
unfolding resolved_status replace
allowed_once = refl

asked_checked : resolve_check "r1" asked ≡ answer pending_row
unfolding resolve_check
asked_checked = refl

abbrev denied_over : Op
denied_over = apply "r1" "deny" "p3" pending_row 6

denied_status : resolved_status "deny" ≡ "denied"
unfolding resolved_status
denied_status = refl

-- The user denies it again, after another call that had passed its check wrote that.
resolve_once_example :
    let s' =
      run runtime (denied_over ∷ []) (resolve_apply "r1" "allow_once" "p1" pending_row 5 asked) in
    (q : Request) × (first (is_request "r1") s'.requests ≡ some q)
    × (q.status ≢ "pending")
    × (resolve_permission "r1" "deny" "p2" 7 s'
        ≡ (http_error 400 ("Request already resolved: " <> q.status), s'))
resolve_once_example =
    resolve_once runtime "r1" "allow_once" "deny" "p1" "p2" 5 7 asked pending_row (denied_over ∷ [])
      asked_checked (rw allowed_once (λ e. cc)) (rw denied_status (λ e. cc), tt)

no_lost_resolution_example :
    let s' = (resolve_permission "r1" "allow_always" "p1" 5 asked).1 in
    ((await_start "r1" s').0 ≡ some (resolved_status "allow_always"))
    × ((await_start "r1" (record s' { waiters = reclaim_slot "r1" s'.waiters })).0
        ≡ some (resolved_status "allow_always"))
    × ((w : Slot) × (box_of "r1" s' ≡ some w)
        × (w.is_set ≡ true)
        × ((await_end "r1" w.status s').0 ≡ resolved_status "allow_always"))
no_lost_resolution_example =
    no_lost_resolution "r1" "allow_always" "p1" 5 asked pending_row refl refl
      (rw allowed_always (λ e. cc)) (rw allowed_always (λ e. cc))

-- While a call waits for r2, the user grants r1 and denies r2.
abbrev other_granted : Op
other_granted = apply "r1" "allow_always" "p1" pending_row 5

abbrev refused_it : Op
refused_it = apply "r2" "deny" "p2" pending_row 6

ungranted_unless_allowed_example :
    let made =
      (create_permission_request "r2" "tool:digest" "invoke:mail" none "send" none 4 asked).1 in
    is_granted
      (await_permission same_store next_store "r2"
        (woken_by runtime "r2" (refused_it ∷ []) (reclaim "r1" ∷ []))
        (run runtime (other_granted ∷ []) made)).0
    ≡ false
ungranted_unless_allowed_example =
    ungranted_unless_allowed runtime "r2" "tool:digest" "invoke:mail" none "send" none 4 asked
      (other_granted ∷ []) (refused_it ∷ []) (reclaim "r1" ∷ []) refl refl
      ((λ e. absurd (ground (arith, eq_iff "r1" "r2"))), tt) ((λ e. rw denied_status refl), tt)
      (tt, tt)
