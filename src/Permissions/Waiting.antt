-- ===== src/Permissions/Waiting.antt =====
-- A call that waits for the user (`await_permission` of src/lifeman/permissions_runtime.py), in any state `W` that
-- has the store of permissions in it. While it waits the rest of the program runs: `wait` is the text that the box
-- of the waiter holds when it is woken by a notice or by the timeout, and the state at that time.
use life_man.Base.{
  Bool, Bool-cases, Option, String, [], arith, elem, eq_iff, first, first-append, inl, inr,
  is_empty, nat_eq, none, refl, some, string_eq, true, ℕ, ◌∷◌, ◌≡◌, ◌⊎◌,
}
use life_man.Permissions.{Request, Store}
use life_man.Permissions.Handlers.{
  await_end, await_start, create_permission_request, is_request, or_pending, request_row,
}
use life_man.Json.{Value, truthy}

abbrev pub is_granted : String → Bool
is_granted status = elem status ("granted_once" ∷ "granted_always" ∷ [])

abbrev pub Grants : String → Type 0
Grants status = (status ≡ "granted_once") ⊎ (status ≡ "granted_always")

is_granted-Grants : (status : String) → is_granted status ≡ true → Grants status
is_granted-Grants status h =
    ground (arith, eq_iff "granted_once" status, eq_iff "granted_always" status)

empty_text : (t : String) → is_empty t ≡ true → t ≡ ""
empty_text String.[] h = refl
empty_text (String.◌∷◌ c t) h = cc

read_Grants :
    (o : Option Request)
    → is_granted (elim o [ none ↦ "pending" | some r ↦ or_pending r.status ]) ≡ true
    → (r : Request) × (o ≡ some r) × Grants r.status
read_Grants none h = absurd (ground arith)
read_Grants (some r) h = (
  r,
  refl,
  elim (Bool-cases (is_empty r.status)) [
    | inl e ↦
        let bad : is_granted "pending" ≡ true = rw (or_pending, e) at h in absurd (ground arith)
    | inr e ↦ is_granted-Grants r.status (rw (or_pending, e) at h)
  ],
)

pub start_rows : (pid : String) (s : Store) → (await_start pid s).1.requests ≡ s.requests
unfolding await_start
start_rows pid s = ground arith

-- The store alone as the state.
abbrev pub same_store : Store → Store
same_store s = s

abbrev pub next_store : Store → Store → Store
next_store s t = s

module _ {W : Type 0} (store_of : W → Store) (with_store : Store → W → W) where
  unfoldable pub await_permission : String → (W → String × W) → W → String × W
  await_permission pid wait w =
      let (at_once, s) = await_start pid (store_of w) in
      elim at_once [
        | some status ↦ (status, with_store s w)
        | none ↦
            let (box, w') = wait (with_store s w) in
            let (status, s') = await_end pid box (store_of w') in (status, with_store s' w')
      ]

  -- The state in which the waiter begins to wait.
  abbrev pub waiting : String → W → W
  waiting pid w = with_store (await_start pid (store_of w)).1 w

  -- The waiter was woken with a text that grants, or with none, and then the row of the request granted.
  abbrev pub UserGrants : String → (W → String × W) → W → Type 0
  UserGrants pid wait w =
      Grants (wait w).0
      ⊎ (((wait w).0 ≡ "")
          × ((q : Request) × (first (is_request pid) (store_of (wait w).1).requests ≡ some q)
              × Grants q.status))

  waits :
      (pid : String) (s : Store) (row : Request)
      → first (is_request pid) s.requests ≡ some row
      → row.status ≡ "pending"
      → (await_start pid s).0 ≡ none
  unfolding await_start
  waits pid s row e p = ground (arith, eq_iff row.status "pending")

  woken :
      (pid box : String) (s : Store)
      → is_granted (await_end pid box s).0 ≡ true
      → Grants box
        ⊎ ((box ≡ "")
            × ((q : Request) × (first (is_request pid) s.requests ≡ some q) × Grants q.status))
  unfolding await_end
  woken pid box s h = elim (Bool-cases (is_empty box)) [
    | inl e ↦ inr (empty_text box e, read_Grants (first (is_request pid) s.requests) (rw e at h))
    | inr e ↦ inl (is_granted-Grants box (rw e at h))
  ]

  -- Where the request is pending, a status that grants is the user's.
  pub await_permission-UserGrants :
      (pid : String) (wait : W → String × W) (w : W) (row : Request)
      → first (is_request pid) (store_of w).requests ≡ some row
      → row.status ≡ "pending"
      → is_granted (await_permission pid wait w).0 ≡ true
      → UserGrants pid wait (waiting pid w)
  unfolding await_permission
  await_permission-UserGrants pid wait w row e p h =
      woken pid (wait (waiting pid w)).0 (store_of (wait (waiting pid w)).1)
        (rw (await_permission, waits pid (store_of w) row e p) at h)

  -- The request stands in the table, pending, when the waiter begins to wait, and the user grants it.
  abbrev pub Asked : String → String → String → Value → (W → String × W) → W → Type 0
  Asked pid requester capability scope wait w =
      (row : Request) × (first (is_request pid) (store_of (waiting pid w)).requests ≡ some row)
      × (row.requester ≡ requester)
      × (row.capability ≡ capability)
      × (row.scope ≡ scope)
      × (row.status ≡ "pending")
      × UserGrants pid wait (waiting pid w)

  -- A status that grants, of a request that has just been created, is the user's.
  pub asked :
      (pid requester capability : String) (scope : Value) (reason : String)
      (invocation : Option String) (now : ℕ) (s : Store) (wait : W → String × W) (w : W)
      → ((t : Store) (u : W) → store_of (with_store t u) ≡ t)
      → first (is_request pid) s.requests ≡ none
      → truthy scope ≡ true
      → store_of w
        ≡ (create_permission_request pid requester capability
            (some scope)
            reason
            invocation
            now
            s).1
      → is_granted (await_permission pid wait w).0 ≡ true
      → Asked pid requester capability scope wait w
  unfolding create_permission_request
  asked pid requester capability scope reason invocation now s wait w lens free dict made h =
      let row = request_row pid requester capability scope reason "pending" now none invocation in
      let there : first (is_request pid) (store_of w).requests ≡ some row = rw made (
        rw dict
          (first-append (is_request pid) s.requests row free (ground (arith, eq_iff pid pid)))) in
      (
        row,
        rw (lens (await_start pid (store_of w)).1 w) (rw (start_rows pid (store_of w)) there),
        refl,
        refl,
        refl,
        refl,
        await_permission-UserGrants pid wait w row there refl h,
      )
