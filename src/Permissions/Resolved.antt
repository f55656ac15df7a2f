-- ===== src/Permissions/Resolved.antt =====
-- That a request stays resolved, whatever the handlers of src/lifeman/permissions_runtime.py and
-- src/lifeman/routes/permissions.py do next, a `resolve_permission` between its check and its write included.
use life_man.Base.{
  All, Bool-cases, List, Option, Option-cases, String, [], ap, arith, first, first-append_found,
  first-update, if◌then◌else◌, inl, inr, none, refl, some, subst, sym, update, updated, ℕ, ◌++◌,
  ◌<>◌, ◌∙◌, ◌∷◌, ◌≡◌, ◌≢◌,
}
use life_man.Json.{Value}
use life_man.Permissions.{Request, Runtime, Store, answer, http_error}
use life_man.Permissions.Waiting.{start_rows}
use life_man.Permissions.Handlers.{
  await_end, await_start, create_permission_request, find_matching_grant, is_request, reclaim_slot,
  request_permission, resolve_apply, resolve_check, resolve_permission, resolved_status,
  revoke_permission,
}
use life_man.Permissions.Requests.{check_found, first_resolved, resolve_done}

-- A step of the handlers.
pub data Op : Type 0 where
  create : String → String → String → Option Value → String → Option String → ℕ → Op
  request : String → String → String → Value → String → ℕ → Op
  -- The write of a call that has read this row before, whenever that was.
  apply : String → String → String → Request → ℕ → Op
  revoke : String → ℕ → Op
  start : String → Op
  finish : String → String → Op
  reclaim : String → Op

-- No call gives the status `pending` back, which the action `pending` would do.
abbrev pub IsResolving : Op → Type 0
IsResolving (apply pid action perm_id r now) = resolved_status action ≢ "pending"
IsResolving op = Unit

module _ (rt : Runtime) where
  unfoldable pub step : Op → Store → Store
  step (create pid requester capability scope reason invocation now) s =
      (create_permission_request pid requester capability scope reason invocation now s).1
  step (request pid requester capability scope reason now) s =
      (request_permission rt pid requester capability scope reason now s).1
  step (apply pid action perm_id r now) s = resolve_apply pid action perm_id r now s
  step (revoke id now) s = revoke_permission id now s
  step (start pid) s = (await_start pid s).1
  step (finish pid box) s = (await_end pid box s).1
  step (reclaim pid) s = record s { waiters = reclaim_slot pid s.waiters }

  unfoldable pub run : List Op → Store → Store
  run [] s = s
  run (op ∷ ops) s = run ops (step op s)

  abbrev pub IsResolved : String → Store → Type 0
  IsResolved pid s =
      (r : Request) × (first (is_request pid) s.requests ≡ some r) × (r.status ≢ "pending")

  appended :
      (pid : String) (rows : List Request) (row : Request)
      → (r : Request) × (first (is_request pid) rows ≡ some r) × (r.status ≢ "pending")
      → (r : Request) × (first (is_request pid) (rows ++ row ∷ []) ≡ some r)
        × (r.status ≢ "pending")
  appended pid rows row (r, e, ne) = (r, first-append_found (is_request pid) rows (row ∷ []) e, ne)

  apply-IsResolved :
      (pid pid' action perm_id : String) (row : Request) (now : ℕ) (s : Store)
      → resolved_status action ≢ "pending"
      → IsResolved pid s
      → IsResolved pid (resolve_apply pid' action perm_id row now s)
  unfolding resolve_apply
  apply-IsResolved pid pid' action perm_id row now s ne (r, e, kept) =
      let f : Request → Request =
        λ q. record q { status = resolved_status action; resolved_at = some now } in
      let moved : first (is_request pid) (update (is_request pid') f s.requests)
          ≡ some (if is_request pid' r then f r else r) =
        first-update (is_request pid) (is_request pid') f s.requests (λ a. refl)
        ∙ ap (updated (is_request pid') f) e in
      elim (Bool-cases (is_request pid' r)) [
        | inl k ↦ (f r, moved ∙ rw k refl, ne)
        | inr k ↦ (r, moved ∙ rw k refl, kept)
      ]

  same_rows :
      (pid : String) (s t : Store) → t.requests ≡ s.requests → IsResolved pid s → IsResolved pid t
  same_rows pid s t e h =
      subst
        (λ rows. (r : Request) × (first (is_request pid) rows ≡ some r) × (r.status ≢ "pending"))
        (sym e) h

  finish_rows : (pid box : String) (s : Store) → (await_end pid box s).1.requests ≡ s.requests
  unfolding await_end
  finish_rows pid box s = ground arith

  step-IsResolved :
      (pid : String) (op : Op) (s : Store)
      → IsResolving op
      → IsResolved pid s
      → IsResolved pid (step op s)
  unfolding step create_permission_request request_permission revoke_permission await_start
      await_end
  step-IsResolved pid (create pid' requester capability scope reason invocation now) s _ h =
      appended pid s.requests _ h
  step-IsResolved pid (request pid' requester capability scope reason now) s _ h =
      elim (Option-cases (find_matching_grant rt requester capability scope now s.permissions)) [
        | inl e ↦ rw (e, step, request_permission) h
        | inr (none, e) ↦ rw (e, step, request_permission) (appended pid s.requests _ h)
        | inr (some g, e) ↦ rw (e, step, request_permission) (appended pid s.requests _ h)
      ]
  step-IsResolved pid (apply pid' action perm_id row now) s ne h =
      apply-IsResolved pid pid' action perm_id row now s ne h
  step-IsResolved pid (revoke id now) s _ h = h
  step-IsResolved pid (start pid') s _ h =
      same_rows pid s (await_start pid' s).1 (start_rows pid' s) h
  step-IsResolved pid (finish pid' box) s _ h =
      same_rows pid s (await_end pid' box s).1 (finish_rows pid' box s) h
  step-IsResolved pid (reclaim pid') s _ h = h

  run-IsResolved :
      (pid : String) (ops : List Op) (s : Store)
      → All IsResolving ops
      → IsResolved pid s
      → IsResolved pid (run ops s)
  unfolding run
  run-IsResolved pid [] s all h = h
  run-IsResolved pid (op ∷ ops) s (one, all) h =
      run-IsResolved pid ops (step op s) all (step-IsResolved pid op s one h)

  -- Once a call of `resolve_permission` has written, by an action that gives a status other than `pending`,
  -- every call for the same request that reads it later is refused by 400 with the request's status, which is not
  -- `pending`, and changes nothing. What happens in between is any sequence of the handlers' steps, where no
  -- action gives `pending`; a call that had passed its check before the first wrote is one of these
  -- steps, is not refused, and may overwrite the status.
  pub resolve_once :
      (pid action again perm_id perm_id' : String) (now later : ℕ) (s : Store) (r : Request)
      (ops : List Op)
      → resolve_check pid s ≡ answer r
      → resolved_status action ≢ "pending"
      → All IsResolving ops
      → let s' = run ops (resolve_apply pid action perm_id r now s) in
        (q : Request) × (first (is_request pid) s'.requests ≡ some q)
        × (q.status ≢ "pending")
        × (resolve_permission pid again perm_id' later s'
            ≡ (http_error 400 ("Request already resolved: " <> q.status), s'))
  resolve_once pid action again perm_id perm_id' now later s r ops checked ne all =
      let first_done : IsResolved pid (resolve_apply pid action perm_id r now s) =
        (_, first_resolved pid action perm_id r now s (check_found pid s r checked), ne) in
      let (q, e, kept) = run-IsResolved pid ops _ all first_done in
      (q, e, kept, resolve_done pid again perm_id' later _ q e kept)
