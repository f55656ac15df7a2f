-- ===== src/Permissions/Requests.antt =====
-- The life of a permission request (src/lifeman/routes/permissions.py): what resolving it does and when that is
-- refused, and that its waiter learns the outcome.
use mathlib.Core.Option
use life_man.Base.{
  Bool-cases, List, Option, Option-cases, String, [], append-nil, arith, eq_iff, false, first,
  first-update, first_sound, if◌then◌else◌, inl, inr, is_empty, nat_eq, none, refl, some, string_eq,
  sym, true, ℕ, ◌++◌, ◌<>◌, ◌==◌, ◌∙◌, ◌∷◌, ◌≡◌, ◌≢◌, ◌⊎◌,
}
use life_man.Permissions.{Request, Response, Slot, Store, answer, http_error}
use life_man.Permissions.Handlers.{
  await_end, await_start, grant_row, is_request, is_slot, notify_resolved, reclaim_slot,
  resolve_apply, resolve_check, resolve_permission, resolved_status, slot,
}

-- The row after `resolve_apply`.
abbrev resolved_row : String → ℕ → Request → Request
resolved_row status now r = record r { status = status; resolved_at = some now }

pub first_resolved :
    (pid action perm_id : String) (read : Request) (now : ℕ) (s : Store) {r : Request}
    → first (is_request pid) s.requests ≡ some r
    → first (is_request pid) (resolve_apply pid action perm_id read now s).requests
      ≡ some (resolved_row (resolved_status action) now r)
unfolding resolve_apply
first_resolved pid action perm_id read now s {r} h =
    rw
      (first-update (is_request pid) (is_request pid) (resolved_row (resolved_status action) now)
        s.requests (λ a. refl))
      (rw h (rw (first_sound (is_request pid) s.requests h) refl))

resolve_pending :
    (pid action perm_id : String) (now : ℕ) (s : Store) (r : Request)
    → first (is_request pid) s.requests ≡ some r
    → r.status ≡ "pending"
    → resolve_permission pid action perm_id now s
      ≡ (answer tt, resolve_apply pid action perm_id r now s)
unfolding resolve_permission
resolve_pending pid action perm_id now s r found p = ground (arith, eq_iff r.status "pending")

pub resolve_done :
    (pid action perm_id : String) (now : ℕ) (s : Store) (r : Request)
    → first (is_request pid) s.requests ≡ some r
    → r.status ≢ "pending"
    → resolve_permission pid action perm_id now s
      ≡ (http_error 400 ("Request already resolved: " <> r.status), s)
unfolding resolve_permission
resolve_done pid action perm_id now s r found p = ground (arith, eq_iff r.status "pending")

refused_row :
    (pid : String) (s : Store) (code : ℕ) (detail : String)
    → resolve_check pid s ≡ http_error code detail
    → ((first (is_request pid) s.requests ≡ none) × (code ≡ 404))
      ⊎ ((r : Request) × (first (is_request pid) s.requests ≡ some r)
          × (r.status ≢ "pending")
          × (code ≡ 400))
unfolding resolve_check
refused_row pid s code detail h = elim (Option-cases (first (is_request pid) s.requests)) [
  | inl e ↦ inl (e, ground arith)
  | inr (r, e) ↦ inr (r, e, (λ k. ground (arith, eq_iff r.status "pending")), ground arith)
]

-- When resolving a request is refused, nothing has changed, and either there is no such request
-- (404) or it is not pending (400).
resolve_refuses :
    (pid action perm_id : String) (now : ℕ) (s : Store) (code : ℕ) (detail : String)
    → (resolve_permission pid action perm_id now s).0 ≡ http_error code detail
    → ((resolve_permission pid action perm_id now s).1 ≡ s)
      × (((first (is_request pid) s.requests ≡ none) × (code ≡ 404))
          ⊎ ((r : Request) × (first (is_request pid) s.requests ≡ some r)
              × (r.status ≢ "pending")
              × (code ≡ 400)))
unfolding resolve_permission
resolve_refuses pid action perm_id now s code detail h = by_check (resolve_check pid s) refl
  where
    by_check :
        (c : Response Request)
        → resolve_check pid s ≡ c
        → ((resolve_permission pid action perm_id now s).1 ≡ s)
          × (((first (is_request pid) s.requests ≡ none) × (code ≡ 404))
              ⊎ ((r : Request) × (first (is_request pid) s.requests ≡ some r)
                  × (r.status ≢ "pending")
                  × (code ≡ 400)))
    by_check (answer r) e =
        let bad : answer tt ≡ http_error code detail = rw (resolve_permission, e) at h in cc
    by_check (http_error c d) e = (
      rw (resolve_permission, e) refl,
      let same : http_error c d ≡ http_error code detail = rw (resolve_permission, e) at h in
          refused_row pid s code detail (e ∙ cc),
    )

-- Resolving a pending request succeeds; only `allow_always` adds a grant, exactly one, for the
-- request's requester and capability, with its scope and the expiry the scope names, and every other
-- action leaves the grants alone.
pub resolve_grants :
    (pid action perm_id : String) (now : ℕ) (s : Store) (r : Request)
    → first (is_request pid) s.requests ≡ some r
    → r.status ≡ "pending"
    → let (answered, s') = resolve_permission pid action perm_id now s in
      (answered ≡ answer tt)
      × (s'.permissions
          ≡ s.permissions
            ++ (if action == "allow_always" then grant_row perm_id r now ∷ [] else []))
resolve_grants pid action perm_id now s r e p =
    rw (resolve_pending pid action perm_id now s r e p) (
      unfold resolve_apply in
      (
        refl,
        elim (Bool-cases (action == "allow_always")) [
          | inl k ↦ rw k refl
          | inr k ↦ rw k (sym (append-nil s.permissions))
        ],
      ))

pub check_found :
    (pid : String) (s : Store) (r : Request)
    → resolve_check pid s ≡ answer r
    → first (is_request pid) s.requests ≡ some r
unfolding resolve_check
check_found pid s r h = ground arith

-- Two calls of `resolve_permission` that both pass the check before either writes: an `allow_always`
-- and then a `deny`. The request ends as denied, and the grant stays.
resolve_race :
    (pid perm_id perm_id' : String) (now later : ℕ) (s : Store) (r : Request)
    → resolve_check pid s ≡ answer r
    → let s' =
        resolve_apply pid "deny" perm_id' r later
          (resolve_apply pid "allow_always" perm_id r now s) in
      (s'.permissions ≡ s.permissions ++ grant_row perm_id r now ∷ [])
      × (Option.map (λ (q : Request). q.status) (first (is_request pid) s'.requests)
          ≡ some "denied")
resolve_race pid perm_id perm_id' now later s r checked = (
  unfold resolve_apply in refl,
  rw
      (first_resolved pid "deny" perm_id' r later (resolve_apply pid "allow_always" perm_id r now s)
        (first_resolved pid "allow_always" perm_id r now s (check_found pid s r checked)))
      (unfold resolved_status in refl),
)

not_empty : (t : String) → t ≢ "" → is_empty t ≡ false
not_empty String.[] h = absurd (h refl)
not_empty (String.◌∷◌ c t) h = refl

await_terminal :
    (pid : String) (s : Store) (r : Request)
    → first (is_request pid) s.requests ≡ some r
    → r.status ≢ "pending"
    → r.status ≢ ""
    → (await_start pid s).0 ≡ some r.status
unfolding await_start
await_terminal pid s r found ne nonempty =
    ground (arith, eq_iff r.status "pending", not_empty r.status nonempty)

-- The slot of a pid after `notify_resolved`.
slot_found :
    (pid : String) (ws : List Slot) → (w : Slot) × (first (is_slot pid) (slot pid ws) ≡ some w)
unfolding slot
slot_found pid ws = elim (Option-cases (first (is_slot pid) ws)) [
  | inl e ↦ rw e (first_new ws e)
  | inr (w, e) ↦ rw e (w, e)
]
  where
    new_slot : Slot
    new_slot = record { pid = pid; is_set = false; status = "" }

    first_new :
        (xs : List Slot)
        → first (is_slot pid) xs ≡ none
        → (w : Slot) × (first (is_slot pid) (xs ++ new_slot ∷ []) ≡ some w)
    first_new [] e = (new_slot, ground (arith, eq_iff pid pid))
    first_new (x ∷ xs) e = let (w, k) = first_new xs (ground arith) in (w, ground arith)

-- The text in the box that a waiter holds.
abbrev pub box_of : String → Store → Option Slot
box_of pid s = first (is_slot pid) s.waiters

notified :
    (pid action perm_id : String) (now : ℕ) (s : Store) (r : Request)
    → resolved_status action ≢ ""
    → let s' = resolve_apply pid action perm_id r now s in
      (w : Slot) × (box_of pid s' ≡ some w)
      × (w.is_set ≡ true)
      × ((await_end pid w.status s').0 ≡ resolved_status action)
unfolding resolve_apply notify_resolved await_end
notified pid action perm_id now s r nonempty =
    let (w, e) = slot_found pid s.waiters in
    let mark : Slot → Slot = λ x. record x { is_set = true; status = resolved_status action } in
    (
      mark w,
      rw (first-update (is_slot pid) (is_slot pid) mark (slot pid s.waiters) (λ a. refl))
          (rw e (rw (first_sound (is_slot pid) (slot pid s.waiters) e) refl)),
      refl,
      rw (not_empty (resolved_status action) nonempty) refl,
    )

-- No resolution of a pending request is missed, where the action gives a status that is neither
-- `pending` nor empty. A waiter that starts after the resolution returns its status without a
-- wait, also when the slot has been reclaimed in between; and in whatever state the resolution
-- finds the waiters, it leaves the slot of the request set, its box holds the status, and a
-- waiter that wakes up returns it.
pub no_lost_resolution :
    (pid action perm_id : String) (now : ℕ) (s : Store) (r : Request)
    → first (is_request pid) s.requests ≡ some r
    → r.status ≡ "pending"
    → resolved_status action ≢ "pending"
    → resolved_status action ≢ ""
    → let s' = (resolve_permission pid action perm_id now s).1 in
      ((await_start pid s').0 ≡ some (resolved_status action))
      × ((await_start pid (record s' { waiters = reclaim_slot pid s'.waiters })).0
          ≡ some (resolved_status action))
      × ((w : Slot) × (box_of pid s' ≡ some w)
          × (w.is_set ≡ true)
          × ((await_end pid w.status s').0 ≡ resolved_status action))
no_lost_resolution pid action perm_id now s r found p ne nonempty =
    rw (resolve_pending pid action perm_id now s r found p) (
      await_terminal pid _ _ (first_resolved pid action perm_id r now s found) ne nonempty,
      await_terminal pid _ _ (first_resolved pid action perm_id r now s found) ne nonempty,
      notified pid action perm_id now s r nonempty,
    )
