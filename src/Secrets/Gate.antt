-- ===== src/Secrets/Gate.antt =====
-- Who gets the value of a secret, and what the access log says of it.
use life_man.Base.{
  Bool-cases, List, Option, Option-cases, String, [], append-nil, arith, false, first, inl, inr,
  nat_eq, none, refl, some, string_eq, subst, sym, true, ℕ, ◌++◌, ◌+◌, ◌<>◌, ◌∷◌, ◌≡◌, ◌⊎◌,
}
use life_man.Json.{Value, end, field, obj, str}
use life_man.Permissions.{Grant}
use life_man.Permissions.Handlers.{create_permission_request}
use life_man.Permissions.Waiting.{Asked, is_granted}
use life_man.Secrets.{Access, Bytes, Crypto, Secret, VaultState}
use life_man.Secrets.Reads.{
  Reading, allows, asks, broken, decrypt_and_log, denied, get_secret_for_tool, get_secret_resumed,
  is_standing, not_found, permissions_of, read_capability, record_access, tool_accessor, value,
  with_permissions,
}
use life_man.Secrets.Vault.{load_row}

-- The rows that a read ending so adds to the access log.
abbrev pub entries : String → String → String → String → ℕ → ℕ → Reading → List Access
entries name accessor reason status last now (value text) =
    record {
      id = last + 1;
      secret_name = name;
      accessor = accessor;
      accessed_at = now;
      granted = true;
      failure_reason = none;
      reason = reason;
    }
    ∷ []
entries name accessor reason status last now (denied text) =
    record {
      id = last + 1;
      secret_name = name;
      accessor = accessor;
      accessed_at = now;
      granted = false;
      failure_reason = some ("denied:" <> status);
      reason = reason;
    }
    ∷ []
entries name accessor reason status last now not_found = []
entries name accessor reason status last now (broken e) = []
entries name accessor reason status last now (asks pid row) = []

-- The scope of the request that `get_secret_for_tool` makes.
abbrev pub secret_scope : String → Value
secret_scope name = obj (field "secret" (str name) end)

-- The user was asked to let the tool read the secret, from the state in which the call begins its wait, and
-- granted it.
abbrev pub AskedFor :
    String → String → String → (VaultState → String × VaultState) → VaultState → Type 0
AskedFor tool name pid wait v =
    Asked permissions_of with_permissions pid ("tool:" <> tool) ("secret:read:" <> name)
      (secret_scope name) wait v

module _ (c : Crypto) (fresh : Bytes) where
  opened_logged :
      (name : String) (row : Secret) (accessor reason status : String) (now : ℕ) (v : VaultState)
      → let (r, v') = decrypt_and_log c fresh name row accessor reason now v in
        v'.access_log ≡ v.access_log ++ entries name accessor reason status v.last_access_id now r
  unfolding decrypt_and_log record_access
  opened_logged name row accessor reason status now v = ground (arith, append-nil v.access_log)

  -- How `get_secret_for_tool` goes on from a state.
  Starts :
      String
      → String
      → String
      → String
      → Option String
      → ℕ
      → VaultState
      → Reading × VaultState
      → Type 0
  Starts tool name reason pid invocation now v (r, v') =
      ((r ≡ not_found) × (v' ≡ v))
      ⊎ ((row : Secret) × (load_row name v ≡ some row)
          × ((allows tool row ≡ true)
              ⊎ ((g : Grant) × (first (is_standing (tool_accessor tool) (read_capability name))
                      v.permissions.permissions
                    ≡ some g)))
          × ((r, v') ≡ decrypt_and_log c fresh name row (tool_accessor tool) reason now v))
      ⊎ ((row : Secret) × (load_row name v ≡ some row)
          × (r ≡ asks pid row)
          × (v'.access_log ≡ v.access_log)
          × (v'.permissions
              ≡ (create_permission_request pid (tool_accessor tool) (read_capability name)
                  (some (secret_scope name)) reason invocation now v.permissions).1))

  starts :
      (tool name reason pid : String) (invocation : Option String) (now : ℕ) (v : VaultState)
      → Starts tool name reason pid invocation now v
          (get_secret_for_tool c fresh tool name reason invocation pid now v)
  unfolding get_secret_for_tool Starts
  starts tool name reason pid invocation now v = elim (Option-cases (load_row name v)) [
    | inl e ↦ inl (ground arith, ground arith)
    | inr (row, e) ↦ elim (Bool-cases (allows tool row)) [
      | inl k ↦ inr (inl (row, e, inl k, ground arith))
      | inr k ↦
          elim (Option-cases (
            first (is_standing (tool_accessor tool) (read_capability name))
              v.permissions.permissions)) [
                | inr (g, m) ↦ inr (inl (row, e, inr (g, m), ground arith))
                | inl m ↦ inr (inr (row, e, ground arith, ground arith, ground arith))
              ]
    ]
  ]

  start_logged :
      (tool name reason pid status : String) (invocation : Option String) (now : ℕ) (v : VaultState)
      → let (r, v') = get_secret_for_tool c fresh tool name reason invocation pid now v in
        v'.access_log
        ≡ v.access_log ++ entries name (tool_accessor tool) reason status v.last_access_id now r
  unfolding Starts
  start_logged tool name reason pid status invocation now v =
      elim (starts tool name reason pid invocation now v) [
        | inl (e, k) ↦ rw (e, k) (sym (append-nil v.access_log))
        | inr (inl (row, _, _, e)) ↦
            subst
              (λ (p : Reading × VaultState).
                p.1.access_log
                ≡ v.access_log
                  ++ entries name (tool_accessor tool) reason status v.last_access_id now p.0)
              (sym e) (opened_logged name row (tool_accessor tool) reason status now v)
        | inr (inr (row, _, e, k, _)) ↦ rw (e, k) (sym (append-nil v.access_log))
      ]

  -- What a read of a secret for a tool adds to the access log: one row that says granted when the value is
  -- handed out, one that says denied when the user's answer denies it, and no row when there is no such
  -- secret, when the key or the cipher fails after access was granted, or while the user is asked; the rows
  -- before stay. This holds of the call and of its rest after the wait. So an attempt that ends by a missing
  -- secret, or by a failure of the key or the cipher, leaves no trace in the log.
  pub read_log_entries :
      (repr : String → String) (tool name reason pid status : String) (invocation : Option String)
      (row : Secret) (now : ℕ) (v : VaultState)
      → let (r, v') = get_secret_for_tool c fresh tool name reason invocation pid now v in
        let (r', w) = get_secret_resumed c fresh repr tool name row reason status now v in
        (v'.access_log
          ≡ v.access_log ++ entries name (tool_accessor tool) reason status v.last_access_id now r)
        × (w.access_log
            ≡ v.access_log
              ++ entries name (tool_accessor tool) reason status v.last_access_id now r')
  unfolding get_secret_resumed
  read_log_entries repr tool name reason pid status invocation row now v = (
    start_logged tool name reason pid status invocation now v,
    elim (Bool-cases (is_granted status)) [
      | inl e ↦ rw e (opened_logged name row (tool_accessor tool) reason status now v)
      | inr e ↦ rw e (unfold record_access in refl)
    ],
  )
