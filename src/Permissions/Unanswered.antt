-- ===== src/Permissions/Unanswered.antt =====
-- That nobody but the user grants a request (src/lifeman/permissions_runtime.py and
-- src/lifeman/routes/permissions.py): what the handlers do while a call waits, with no `resolve_permission` that
-- allows, gives the waiter no status that grants.
use life_man.Base.{
  All, All-append, All-delete, All-update, Bool-cases, List, Option, Option-cases, String, [],
  arith, eq_iff, false, first, first-All, first_sound, inl, inr, is_empty, is_some, nat_eq, none,
  refl, some, string_eq, subst, sym, true, ℕ, ◌++◌, ◌==◌, ◌∙◌, ◌∷◌, ◌≡◌, ◌≢◌,
}
use life_man.Json.{Value}
use life_man.Permissions.{Request, Runtime, Slot, Store}
use life_man.Permissions.Handlers.{
  await_end, await_start, create_permission_request, find_matching_grant, is_request, is_slot,
  notify_resolved, or_pending, reclaim_slot, request_permission, resolve_apply, resolved_status,
  revoke_permission, slot,
}
use life_man.Permissions.Waiting.{await_permission, is_granted, next_store, same_store}
use life_man.Permissions.Resolved.{
  Op, apply, create, finish, reclaim, request, revoke, run, start, step,
}

-- Nothing in the row, or in the box of the slot, grants the request.
abbrev RowUngranted : String → Request → Type 0
RowUngranted pid r = is_request pid r ≡ true → is_granted r.status ≡ false

abbrev SlotUngranted : String → Slot → Type 0
SlotUngranted pid w = is_slot pid w ≡ true → is_granted w.status ≡ false

abbrev Unanswered : String → Store → Type 0
Unanswered pid s = All (RowUngranted pid) s.requests × All (SlotUngranted pid) s.waiters

-- The step is no write of a `resolve_permission` for the request by an action that gives a status that grants,
-- and makes no other request of the same id.
abbrev pub IsNoGrant : String → Op → Type 0
IsNoGrant pid (apply pid' action perm_id r now) =
    pid' ≡ pid → is_granted (resolved_status action) ≡ false
IsNoGrant pid (request pid' requester capability scope reason now) = pid' ≢ pid
IsNoGrant pid op = Unit

-- The text in the box of the slot, where there is one.
abbrev pub box_text : String → Store → String
box_text pid s = elim (first (is_slot pid) s.waiters) [ none ↦ "" | some w ↦ w.status ]

slot-Ungranted :
    (pid other : String) (ws : List Slot)
    → All (SlotUngranted pid) ws
    → All (SlotUngranted pid) (slot other ws)
unfolding slot
slot-Ungranted pid other ws h = elim (Bool-cases (is_some (first (is_slot other) ws))) [
  | inl e ↦ rw e h
  | inr e ↦ rw e (All-append (SlotUngranted pid) ws _ h ((λ _. refl), tt))
]

apply-Unanswered :
    (pid pid' action perm_id : String) (r : Request) (now : ℕ) (s : Store)
    → (pid' ≡ pid → is_granted (resolved_status action) ≡ false)
    → Unanswered pid s
    → Unanswered pid (resolve_apply pid' action perm_id r now s)
unfolding resolve_apply notify_resolved
apply-Unanswered pid pid' action perm_id r now s n (rows, slots) = (
  All-update (RowUngranted pid) (is_request pid') _ s.requests
      (λ d m _ k. n (sym ((eq_iff d.id pid').0 m) ∙ (eq_iff d.id pid).0 k)) rows,
  All-update (SlotUngranted pid) (is_slot pid') _ (slot pid' s.waiters)
      (λ w m _ k. n (sym ((eq_iff w.pid pid').0 m) ∙ (eq_iff w.pid pid).0 k))
      (slot-Ungranted pid pid' s.waiters slots),
)

start-Unanswered :
    (pid other : String) (s : Store) → Unanswered pid s → Unanswered pid (await_start other s).1
unfolding await_start
start-Unanswered pid other s (rows, slots) =
    let opened = slot-Ungranted pid other s.waiters slots in
    elim (Option-cases (first (is_request other) s.requests)) [
      | inl e ↦ rw (e, await_start) (rows, opened)
      | inr (r, e) ↦ elim (Bool-cases (or_pending r.status == "pending")) [
        | inl k ↦ rw (e, await_start, k) (rows, opened)
        | inr k ↦
            rw (e, await_start, k)
              (rows, All-delete (SlotUngranted pid) (is_slot other) (slot other s.waiters) opened)
      ]
    ]

finish-Unanswered :
    (pid other box : String) (s : Store)
    → Unanswered pid s
    → Unanswered pid (await_end other box s).1
unfolding await_end
finish-Unanswered pid other box s (rows, slots) =
    let left = All-delete (SlotUngranted pid) (is_slot other) s.waiters slots in
    elim (Bool-cases (is_empty box)) [ inl e ↦ rw e (rows, left) | inr e ↦ rw e (rows, left) ]

row_ungranted :
    (pid : String) (s : Store) (r : Request)
    → Unanswered pid s
    → first (is_request pid) s.requests ≡ some r
    → is_granted r.status ≡ false
row_ungranted pid s r h e =
    first-All (RowUngranted pid) (is_request pid) s.requests h.0 e
      (first_sound (is_request pid) s.requests e)

box_ungranted : (pid : String) (s : Store) → Unanswered pid s → is_granted (box_text pid s) ≡ false
box_ungranted pid s h = elim (Option-cases (first (is_slot pid) s.waiters)) [
  | inl e ↦ rw (box_text, e) refl
  | inr (w, e) ↦
      rw (box_text, e)
        (first-All (SlotUngranted pid) (is_slot pid) s.waiters h.1 e
          (first_sound (is_slot pid) s.waiters e))
]

end_ungranted :
    (pid box : String) (s : Store)
    → is_granted box ≡ false
    → Unanswered pid s
    → is_granted (await_end pid box s).0 ≡ false
unfolding await_end
end_ungranted pid box s n h = elim (Bool-cases (is_empty box)) [
  | inr e ↦ rw e n
  | inl e ↦ elim (Option-cases (first (is_request pid) s.requests)) [
    | inl k ↦ rw (e, k) refl
    | inr (r, k) ↦
        rw (e, k)
          (elim (Bool-cases (is_empty r.status)) [
            | inl m ↦ rw m refl
            | inr m ↦ rw m (row_ungranted pid s r h k)
          ])
  ]
]

start_ungranted :
    (pid status : String) (s : Store)
    → Unanswered pid s
    → (await_start pid s).0 ≡ some status
    → is_granted status ≡ false
unfolding await_start
start_ungranted pid status s h e = elim (Option-cases (first (is_request pid) s.requests)) [
  | inl k ↦ absurd (ground arith)
  | inr (r, k) ↦
      let no = row_ungranted pid s r h k in
      elim (Bool-cases (or_pending r.status == "pending")) [
        | inl m ↦ absurd (ground arith)
        | inr m ↦
            let same : r.status ≡ status = ground arith in subst (λ t. is_granted t ≡ false) same no
      ]
]

fresh_rows :
    (pid : String) (rows : List Request)
    → first (is_request pid) rows ≡ none
    → All (RowUngranted pid) rows
fresh_rows pid [] e = tt
fresh_rows pid (r ∷ rs) e = elim (Bool-cases (is_request pid r)) [
  | inl k ↦ absurd (ground arith)
  | inr k ↦ ((λ m. absurd (ground arith)), fresh_rows pid rs (ground arith))
]

fresh_slots :
    (pid : String) (ws : List Slot) → first (is_slot pid) ws ≡ none → All (SlotUngranted pid) ws
fresh_slots pid [] e = tt
fresh_slots pid (w ∷ ws) e = elim (Bool-cases (is_slot pid w)) [
  | inl k ↦ absurd (ground arith)
  | inr k ↦ ((λ m. absurd (ground arith)), fresh_slots pid ws (ground arith))
]

module _ (rt : Runtime) where
  appended_row :
      (pid : String) (rows : List Request) (row : Request)
      → RowUngranted pid row
      → All (RowUngranted pid) rows
      → All (RowUngranted pid) (rows ++ row ∷ [])
  appended_row pid rows row n h = All-append (RowUngranted pid) rows (row ∷ []) h (n, tt)

  step-Unanswered :
      (pid : String) (op : Op) (s : Store)
      → IsNoGrant pid op
      → Unanswered pid s
      → Unanswered pid (step rt op s)
  unfolding step create_permission_request request_permission revoke_permission reclaim_slot
  step-Unanswered pid (create pid' requester capability scope reason invocation now) s _ h =
      (appended_row pid s.requests _ (λ _. refl) h.0, h.1)
  step-Unanswered pid (request pid' requester capability scope reason now) s n h =
      let off : (pid' == pid) ≡ false = ground (arith, eq_iff pid' pid) in
      elim (Option-cases (find_matching_grant rt requester capability scope now s.permissions)) [
        | inl e ↦ rw (step, request_permission, e) h
        | inr (none, e) ↦
            rw (step, request_permission, e)
              (appended_row pid s.requests _ (λ k. absurd (ground arith)) h.0, h.1)
        | inr (some g, e) ↦
            rw (step, request_permission, e)
              (appended_row pid s.requests _ (λ k. absurd (ground arith)) h.0, h.1)
      ]
  step-Unanswered pid (apply pid' action perm_id r now) s n h =
      apply-Unanswered pid pid' action perm_id r now s n h
  step-Unanswered pid (revoke id now) s _ h = h
  step-Unanswered pid (start pid') s _ h = start-Unanswered pid pid' s h
  step-Unanswered pid (finish pid' box) s _ h = finish-Unanswered pid pid' box s h
  step-Unanswered pid (reclaim pid') s _ h =
      (h.0, All-delete (SlotUngranted pid) (is_slot pid') s.waiters h.1)

  run-Unanswered :
      (pid : String) (ops : List Op) (s : Store)
      → All (IsNoGrant pid) ops
      → Unanswered pid s
      → Unanswered pid (run rt ops s)
  unfolding run
  run-Unanswered pid [] s all h = h
  run-Unanswered pid (op ∷ ops) s (one, all) h =
      run-Unanswered pid ops (step rt op s) all (step-Unanswered pid op s one h)

  -- What wakes a waiter when the handlers' steps are these: the text that its box has after the first of them.
  abbrev pub woken_by : String → List Op → List Op → Store → String × Store
  woken_by pid before after s = (box_text pid (run rt before s), run rt after (run rt before s))

  -- A call that asks the user gets no status that grants unless a `resolve_permission` for its request
  -- writes a status that does: whatever steps the handlers make between the request and the wait, before the
  -- text of the box is settled, and after that until the waiter goes on, among them grants of other requests,
  -- timeouts, revocations and refusals of this one, where no request made by another call has its id. The id
  -- of the request is new: no row and no slot has it before.
  pub ungranted_unless_allowed :
      (pid requester capability : String) (scope : Option Value) (reason : String)
      (invocation : Option String) (now : ℕ) (s : Store) (gap before after : List Op)
      → first (is_request pid) s.requests ≡ none
      → first (is_slot pid) s.waiters ≡ none
      → All (IsNoGrant pid) gap
      → All (IsNoGrant pid) before
      → All (IsNoGrant pid) after
      → let made =
          (create_permission_request pid requester capability scope reason invocation now s).1 in
        is_granted
          (await_permission same_store next_store pid
            (woken_by pid before after)
            (run rt gap made)).0
        ≡ false
  unfolding await_permission step
  ungranted_unless_allowed pid requester capability scope reason invocation now s gap before after
        no_row no_slot quiet quiet' quiet'' =
      let made =
        (create_permission_request pid requester capability scope reason invocation now s).1 in
      let asked : Unanswered pid made =
        step-Unanswered pid (create pid requester capability scope reason invocation now) s tt
          (fresh_rows pid s.requests no_row, fresh_slots pid s.waiters no_slot) in
      let w = run rt gap made in
      let ready = run-Unanswered pid gap made quiet asked in
      let waits = start-Unanswered pid pid w ready in
      let settled = run-Unanswered pid before (await_start pid w).1 quiet' waits in
      elim (Option-cases (await_start pid w).0) [
        | inr (status, e) ↦ rw (await_permission, e) (start_ungranted pid status w ready e)
        | inl e ↦
            rw (await_permission, e)
              (end_ungranted pid _ _
                (box_ungranted pid (run rt before (await_start pid w).1) settled)
                (run-Unanswered pid after (run rt before (await_start pid w).1) quiet'' settled))
      ]
