-- ===== src/Secrets/Vault.antt =====
-- Storing, listing and deleting secrets, and the access log (src/lifeman/secrets/store.py); `Secrets.Reads` reads
-- them. `fresh` is the master key that is drawn if there is none.
use life_man.Base.{
  Bool, List, Option, Result, String, [], count_chars, delete, false, first, get_or, has_text,
  if◌then◌else◌, is_empty, join, map, nat_eq, none, ok, raised, rowcount, select, some, sort_by,
  string_eq, take, true, upsert, ℕ, ◌<>◌, ◌==◌, ◌||◌, ◌∷◌,
}
use life_man.Json.{}
use life_man.Audit.{Effects, log}
use life_man.Permissions.{}
use life_man.Permissions.Handlers.{}
use life_man.Secrets.{Access, Bytes, Crypto, Metadata, Sealed, Secret, VaultState}
use life_man.Secrets.Keys.{encrypt_value}

abbrev pub is_secret : String → Secret → Bool
is_secret name r = r.name == name

-- `_load_row`; `none` is `SecretNotFound`.
abbrev pub load_row : String → VaultState → Option Secret
load_row name v = first (is_secret name) v.secrets

-- The audit log that the store of permissions holds.
abbrev on_audit : (Effects → Effects) → VaultState → VaultState
on_audit f v = record v { permissions = record v.permissions { fx = f v.permissions.fx } }

abbrev pub metadata : Secret → Metadata
metadata r = record {
  name = r.name;
  description = r.description;
  allowed_tools = r.allowed_tools;
  sensitivity = r.sensitivity;
  created_at = r.created_at;
  updated_at = r.updated_at;
  last_accessed_at = r.last_accessed_at;
}

-- The arguments of `put_secret`; `allowed_tools or []` is applied.
pub record PutSecret : Type 0 where
  pub name : String
  pub value : String
  pub description : String
  pub allowed_tools : List String
  pub sensitivity : String

abbrev pub replaced : PutSecret → Sealed → Bytes → ℕ → Secret → Secret
replaced q ct nonce now r = record r {
  encrypted_value = ct;
  nonce = nonce;
  description = q.description;
  allowed_tools = q.allowed_tools;
  sensitivity = q.sensitivity;
  updated_at = now;
}

abbrev pub inserted : PutSecret → Sealed → Bytes → ℕ → Secret
inserted q ct nonce now = record {
  name = q.name;
  description = q.description;
  encrypted_value = ct;
  nonce = nonce;
  allowed_tools = q.allowed_tools;
  sensitivity = q.sensitivity;
  created_at = now;
  updated_at = now;
  last_accessed_at = none;
}

abbrev pub stored_rows : PutSecret → Sealed → Bytes → ℕ → List Secret → List Secret
stored_rows q ct nonce now rows =
    upsert (is_secret q.name) (replaced q ct nonce now) (inserted q ct nonce now) rows

-- The answer names no time of access.
abbrev pub put_answer : PutSecret → ℕ → Option Secret → Metadata
put_answer q now old = record {
  name = q.name;
  description = q.description;
  allowed_tools = q.allowed_tools;
  sensitivity = q.sensitivity;
  created_at = elim old [ none ↦ now | some r ↦ r.created_at ];
  updated_at = now;
  last_accessed_at = none;
}

module _ (c : Crypto) (fresh : Bytes) where
  unfoldable pub put_secret : Bytes → PutSecret → ℕ → VaultState → Result Metadata × VaultState
  put_secret nonce q now v =
      let (sealed, keys) = encrypt_value c fresh nonce q.value v.keys in
      if is_empty q.name || is_empty (c.strip q.name)
      then (raised "secret name must be non-empty", v)
      else elim sealed [
        | raised e ↦ (raised e, record v { keys = keys })
        | ok (ct, nonce') ↦ (
          ok (put_answer q now (first (is_secret q.name) v.secrets)),
          on_audit
              (log "user" "put_secret" q.name
                ("len="
                  <> c.show (count_chars q.value)
                  <> " allowed="
                  <> (let names = join "," q.allowed_tools in
                      if is_empty names then "none" else names))
                "" "secret create/update" now)
              (record v { keys = keys; secrets = stored_rows q ct nonce' now v.secrets }),
        )
      ]

  unfoldable pub delete_secret : String → ℕ → VaultState → Bool × VaultState
  delete_secret name now v =
      let gone = record v { secrets = delete (is_secret name) v.secrets } in
      if rowcount (is_secret name) v.secrets == 0
      then (false, gone)
      else (true, on_audit (log "user" "delete_secret" name "" "" "" now) gone)

  unfoldable pub list_secrets : VaultState → List Metadata
  list_secrets v =
      sort_by (λ (a : Metadata) (b : Metadata). c.text_less a.name b.name) (map metadata v.secrets)

-- `access_log`: `ORDER BY id DESC` is the order of insertion, backwards.
abbrev newest_first : List Access → List Access → List Access
newest_first [] done = done
newest_first (a ∷ rows) done = newest_first rows (a ∷ done)

unfoldable pub access_log : Option String → ℕ → VaultState → List Access
access_log name limit v =
    let rows =
      if has_text name
      then select (λ (a : Access). a.secret_name == get_or name "") v.access_log
      else v.access_log in
    take limit (newest_first rows [])
