-- ===== src/Permissions/Grants.antt =====
-- Which grant a request is covered by: `find_matching_grant` over the table of grants.
use life_man.Base.{
  All, All-select, Bool, Bool-cases, List, Option-cases, String, [], arith, eq_iff, false, first,
  first-All, inl, inr, nat_eq, none, refl, select, some, string_eq, true, update, ℕ, ◌==◌, ◌∷◌, ◌≡◌,
  ◌≢◌, ◌⊎◌,
}
use life_man.Json.{Value, get}
use life_man.Audit.{}
use life_man.Permissions.{Column, Grant, Runtime, Store, blank, corrupt, json}
use life_man.Permissions.Scope.{mode_of, scope_matches, under_mode}
use life_man.Permissions.Coverage.{Covers, scope_matches_iff}
use life_man.Permissions.Handlers.{
  find_matching_grant, first_cover, is_grant, is_live, read_scope, revoke_permission, unexpired,
}

module _ {ℓ} {A : Type ℓ} where
  -- Every selected row satisfies the clause, and has what every row has.
  All-true : (xs : List A) → All (λ _. Unit {0}) xs
  All-true [] = tt
  All-true (x ∷ xs) = (tt, All-true xs)

abbrev IsRevoked : String → Grant → Type 0
IsRevoked id g = g.id ≡ id → g.revoked_at ≢ none

revoked :
    (id : String) (now : ℕ) (xs : List Grant)
    → All (IsRevoked id) (update (is_grant id) (λ x. record x { revoked_at = some now }) xs)
revoked id now [] = tt
revoked id now (x ∷ xs) = elim (Bool-cases (x.id == id)) [
  | inl e ↦ rw e (λ _ k. cc, revoked id now xs)
  | inr e ↦ rw e (λ k. absurd (ground (arith, eq_iff x.id id)), revoked id now xs)
]

module _ (rt : Runtime) where
  -- The found grant has what every row of the table has.
  first_cover-All :
      (P : Grant → Type 0) (request : Value) (gs : List Grant) {g : Grant}
      → All P gs
      → first_cover rt request gs ≡ some (some g)
      → P g × (scope_matches rt (read_scope g.scope) request ≡ some true)
  unfolding first_cover
  first_cover-All P request [] h e = cc
  first_cover-All P request (x ∷ gs) {g} h e =
      elim (Option-cases (scope_matches rt (read_scope x.scope) request)) [
        | inl k ↦ ground arith
        | inr (true, k) ↦ let same : x ≡ g = ground arith in rw (← same) (h.0, k)
        | inr (false, k) ↦ first_cover-All P request gs h.1 (ground arith)
      ]

  is_live_parts :
      (grantee capability : String) (now : ℕ) (g : Grant)
      → is_live rt grantee capability now g ≡ true
      → (g.grantee ≡ grantee)
        × (g.capability ≡ capability)
        × (g.revoked_at ≡ none)
        × (unexpired rt now g.expires_at ≡ true)
  is_live_parts grantee capability now g h =
      ground (arith, eq_iff g.grantee grantee, eq_iff g.capability capability)

  -- What is found is live, covers the request, and has what every row of the table has.
  found-All :
      (P : Grant → Type 0) (grantee capability : String) (request : Value) (now : ℕ)
      (grants : List Grant) {g : Grant}
      → All P grants
      → find_matching_grant rt grantee capability request now grants ≡ some (some g)
      → (is_live rt grantee capability now g ≡ true)
        × P g
        × (scope_matches rt (read_scope g.scope) request ≡ some true)
  unfolding find_matching_grant
  found-All P grantee capability request now grants all h =
      let (live, covers) =
        first_cover-All (λ x. (is_live rt grantee capability now x ≡ true) × P x) request _
          (All-select P (is_live rt grantee capability now) grants all) h in
      (live.0, live.1, covers)

  -- What is known of the scope column of a grant that is found.
  abbrev pub ScopeCovers : Column → Value → Type 0
  ScopeCovers column request =
      ((v : Value) × (column ≡ json v) × Covers rt v request)
      ⊎ (column ≡ blank)
      ⊎ (column ≡ corrupt)

  none-Covers :
      (request : Value) (gs : List Grant)
      → first_cover rt request gs ≡ some none
      → All (λ g. ¬ Covers rt (read_scope g.scope) request) gs
  unfolding first_cover
  none-Covers request [] h = tt
  none-Covers request (g ∷ gs) h = (
    λ c. let e = (scope_matches_iff rt (read_scope g.scope) request).1 c in ground arith,
    none-Covers request gs (elim (Option-cases (scope_matches rt (read_scope g.scope) request)) [
      | inl k ↦ ground arith
      | inr (b, k) ↦ ground arith
    ]),
  )

  All-unselect :
      (P : Grant → Type 0) (p : Grant → Bool) (xs : List Grant)
      → All P (select p xs)
      → All (λ a. p a ≡ true → P a) xs
  All-unselect P p [] h = tt
  All-unselect P p (x ∷ xs) h = elim (Bool-cases (p x)) [
    | inl e ↦
        let both : P x × All P (select p xs) = rw e at h in
        (λ _. both.0, All-unselect P p xs both.1)
    | inr e ↦ let rest : All P (select p xs) = rw e at h in (λ k. cc, All-unselect P p xs rest)
  ]

  pub All-uncovered :
      (grantee capability : String) (request : Value) (now : ℕ) (grants : List Grant)
      → find_matching_grant rt grantee capability request now grants ≡ some none
      → All
          (λ g.
            is_live rt grantee capability now g ≡ true → ¬ Covers rt (read_scope g.scope) request)
          grants
  unfolding find_matching_grant
  All-uncovered grantee capability request now grants h =
      All-unselect (λ g. ¬ Covers rt (read_scope g.scope) request)
        (is_live rt grantee capability now) grants (none-Covers request _ h)

  -- When no grant is found, no row of the table, by whatever test `p` it is looked up, is both live
  -- for the requester and the capability and covers the request: the search passes over none.
  pub find_matching_grant_complete :
      (grantee capability : String) (request : Value) (now : ℕ) (grants : List Grant)
      (p : Grant → Bool) (g : Grant)
      → find_matching_grant rt grantee capability request now grants ≡ some none
      → first p grants ≡ some g
      → is_live rt grantee capability now g ≡ true
      → ¬ Covers rt (read_scope g.scope) request
  find_matching_grant_complete grantee capability request now grants p g h found live =
      first-All
        (λ x. is_live rt grantee capability now x ≡ true → ¬ Covers rt (read_scope x.scope) request)
        p grants (All-uncovered grantee capability request now grants h) found live

  -- A row whose recorded scope is unreadable covers every request of its grantee for its
  -- capability: when it is the first live row, it is what is found.
  corrupt_scope_covers_all :
      (grantee capability : String) (request : Value) (now : ℕ) (g : Grant) (grants : List Grant)
      → is_live rt grantee capability now g ≡ true
      → g.scope ≡ corrupt
      → find_matching_grant rt grantee capability request now (g ∷ grants) ≡ some (some g)
  unfolding find_matching_grant first_cover scope_matches
  corrupt_scope_covers_all grantee capability request now g grants live e =
      rw live (rw e (unfold mode_of get under_mode in refl))

  -- A grant that has been revoked is found by no later request.
  revoked_not_found :
      (id grantee capability : String) (request : Value) (now later : ℕ) (s : Store) (g : Grant)
      → find_matching_grant rt grantee capability request later
          (revoke_permission id now s).permissions
        ≡ some (some g)
      → g.id ≢ id
  unfolding revoke_permission
  revoked_not_found id grantee capability request now later s g h same =
      let (live, gone, _) =
        found-All (IsRevoked id) grantee capability request later _ (revoked id now s.permissions)
          h in
      gone same (is_live_parts grantee capability later g live).2
