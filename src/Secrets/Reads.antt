-- ===== src/Secrets/Reads.antt =====
-- Reading a secret (src/lifeman/secrets/store.py): for a trusted caller, and for a tool, which may have to wait for
-- the user. `fresh` is the master key that is drawn if there is none.
use life_man.Base.{
  Bool, Option, String, [], elem, false, first, if◌then◌else◌, is_none, is_some, nat_eq, none, ok,
  raised, some, string_eq, true, update, ℕ, ◌&&◌, ◌++◌, ◌+◌, ◌<>◌, ◌==◌, ◌||◌, ◌∷◌,
}
use life_man.Json.{end, field, obj, str}
use life_man.Permissions.{Grant, Store}
use life_man.Permissions.Handlers.{create_permission_request}
use life_man.Permissions.Waiting.{await_permission, is_granted}
use life_man.Secrets.{Access, Bytes, Crypto, Secret, VaultState}
use life_man.Secrets.Keys.{decrypt_value}
use life_man.Secrets.Vault.{is_secret, load_row}

-- What a read of a secret ends with; `broken` is an exception of the key or of the cipher.
pub data Reading : Type 0 where
  value : String → Reading
  not_found : Reading
  denied : String → Reading
  broken : String → Reading
  -- It waits for the user's answer to the request of this id, holding the row that it has read.
  asks : String → Secret → Reading

-- `_record_access`
unfoldable pub record_access :
    String → String → Bool → String → Option String → ℕ → VaultState → VaultState
record_access name accessor granted reason failure now v =
    let row : Access = record {
      id = v.last_access_id + 1;
      secret_name = name;
      accessor = accessor;
      accessed_at = now;
      granted = granted;
      failure_reason = failure;
      reason = reason;
    } in
    record v {
      access_log = v.access_log ++ row ∷ [];
      last_access_id = v.last_access_id + 1;
      secrets =
          if granted
          then update (is_secret name) (λ r. record r { last_accessed_at = some now }) v.secrets
          else v.secrets;
    }

-- `tool_name in allowed_tools or "*" in allowed_tools`
abbrev pub allows : String → Secret → Bool
allows tool r = elem tool r.allowed_tools || elem "*" r.allowed_tools

abbrev pub tool_accessor : String → String
tool_accessor tool = "tool:" <> tool

abbrev pub read_capability : String → String
read_capability name = "secret:read:" <> name

-- The WHERE clause of the grants that `get_secret_for_tool` looks for.
abbrev pub is_standing : String → String → Grant → Bool
is_standing accessor cap g =
    (g.grantee == accessor) && (g.capability == cap) && is_none g.revoked_at

abbrev pub permissions_of : VaultState → Store
permissions_of v = v.permissions

abbrev pub with_permissions : Store → VaultState → VaultState
with_permissions s v = record v { permissions = s }

module _ (c : Crypto) (fresh : Bytes) where
  -- `_decrypt_and_log`, which is also the end of `get_secret_value`
  unfoldable pub decrypt_and_log :
      String → Secret → String → String → ℕ → VaultState → Reading × VaultState
  decrypt_and_log name row accessor reason now v =
      let (opened, keys) = decrypt_value c fresh row.encrypted_value row.nonce v.keys in
      elim opened [
        | raised e ↦ (broken e, record v { keys = keys })
        | ok text ↦ (
          value text,
          record_access name accessor true reason none now (record v { keys = keys }),
        )
      ]

  unfoldable pub get_secret_value : String → String → String → ℕ → VaultState → Reading × VaultState
  get_secret_value name accessor reason now v = elim (load_row name v) [
    | none ↦ (not_found, v)
    | some row ↦ decrypt_and_log name row accessor reason now v
  ]

  -- `get_secret_for_tool` up to its wait for the user; `pid` is the id of the request it makes.
  unfoldable pub get_secret_for_tool :
      String → String → String → Option String → String → ℕ → VaultState → Reading × VaultState
  get_secret_for_tool tool name reason invocation pid now v =
      let accessor = tool_accessor tool in
      elim (load_row name v) [
        | none ↦ (not_found, v)
        | some row ↦
            if allows tool row
            then decrypt_and_log name row accessor reason now v
            else if is_some
                (first (is_standing accessor (read_capability name)) v.permissions.permissions)
            then decrypt_and_log name row accessor reason now v
            else (
              asks pid row,
              record v {
                permissions =
                    (create_permission_request pid accessor (read_capability name)
                      (some (obj (field "secret" (str name) end))) reason invocation now
                      v.permissions).1;
              },
            )
      ]

  -- The rest of it, for the status that `await_permission` returned and the row read before the wait;
  -- `repr` is Python's.
  unfoldable pub get_secret_resumed :
      (String → String)
      → String
      → String
      → Secret
      → String
      → String
      → ℕ
      → VaultState
      → Reading × VaultState
  get_secret_resumed repr tool name row reason status now v =
      let accessor = tool_accessor tool in
      if is_granted status then decrypt_and_log name row accessor reason now v else (
        denied ("user denied secret " <> repr name <> " for " <> accessor <> ": " <> status),
        record_access name accessor false reason (some ("denied:" <> status)) now v,
      )

  -- The two parts with the wait between them: `wait` is what the waiter is woken with, and the state then.
  unfoldable pub get_secret_waiting :
      (String → String)
      → String
      → String
      → String
      → Option String
      → String
      → (VaultState → String × VaultState)
      → ℕ
      → ℕ
      → VaultState
      → Reading × VaultState
  get_secret_waiting repr tool name reason invocation pid wait now later v =
      let (reading, v') = get_secret_for_tool tool name reason invocation pid now v in
      elim reading [
        | asks id row ↦
            let (status, v'') = await_permission permissions_of with_permissions id wait v' in
            get_secret_resumed repr tool name row reason status later v''
        | value text ↦ (value text, v')
        | not_found ↦ (not_found, v')
        | denied why ↦ (denied why, v')
        | broken e ↦ (broken e, v')
      ]
