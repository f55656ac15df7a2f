-- ===== src/Permissions/Remembered.antt =====
-- What the user allows for good is not asked again.
use life_man.Base.{
  All, List, String, [], arith, eq_iff, first, none, some, true, ℕ, ◌++◌, ◌∷◌, ◌≡◌, ◌≢◌,
}
use life_man.Json.{Value}
use life_man.Permissions.{Request, Runtime, Store}
use life_man.Permissions.Handlers.{
  find_matching_grant, grant_row, is_live, is_request, resolve_permission, unexpired,
}
use life_man.Permissions.Scope.{grant_expires_at}
use life_man.Permissions.Coverage.{Covers}
use life_man.Permissions.Grants.{All-uncovered}
use life_man.Permissions.Requests.{resolve_grants}

module _ {A : Type 0} where
  -- What holds of every row of a longer table holds of the row that was added.
  All-last : (P : A → Type 0) (xs : List A) (x : A) → All P (xs ++ x ∷ []) → P x
  All-last P [] x h = h.0
  All-last P (y ∷ xs) x h = All-last P xs x h.1

module _ (rt : Runtime) where
  remembered_live :
      (r : Request) (perm_id : String) (now later : ℕ)
      → unexpired rt later (grant_expires_at r.scope) ≡ true
      → is_live rt r.requester r.capability later (grant_row perm_id r now) ≡ true
  remembered_live r perm_id now later h =
      ground (arith, h, eq_iff r.requester r.requester, eq_iff r.capability r.capability)

  -- After `allow_always`, a later request of the same requester for the same capability, as long as
  -- the grant has not expired and its scope covers the request, is never left without a grant.
  allow_always_remembered :
      (pid perm_id : String) (now later : ℕ) (s : Store) (r : Request) (request : Value)
      → first (is_request pid) s.requests ≡ some r
      → r.status ≡ "pending"
      → unexpired rt later (grant_expires_at r.scope) ≡ true
      → Covers rt r.scope request
      → find_matching_grant rt r.requester r.capability request later
          (resolve_permission pid "allow_always" perm_id now s).1.permissions
        ≢ some none
  allow_always_remembered pid perm_id now later s r request found p fresh covers h =
      let grown = (resolve_grants pid "allow_always" perm_id now s r found p).1 in
      All-last _ s.permissions (grant_row perm_id r now)
        (All-uncovered rt r.requester r.capability request later _ (rw grown at h))
        (remembered_live r perm_id now later fresh) covers
