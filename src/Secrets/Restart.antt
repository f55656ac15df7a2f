-- ===== src/Secrets/Restart.antt =====
-- A secret that was put can be read again, also by a later process: the master key is resolved to the
-- key that it was sealed with.
use life_man.Base.{
  List, Option, Option-cases, Result-cases, String, ap, arith, eq_iff, first, first-upsert, inl,
  inr, length, none, ok, refl, some, ℕ, ◌∙◌, ◌≡◌,
}
use life_man.Permissions.{}
use life_man.Secrets.{Bytes, Crypto, KeyStore, Metadata, Sealed, Secret, VaultState}
use life_man.Secrets.Keys.{
  decrypt_value, encrypt_value, key_bytes, key_outside, resolve_master_key, restarted,
}
use life_man.Secrets.Reads.{decrypt_and_log, get_secret_value, value}
use life_man.Secrets.Vault.{PutSecret, inserted, is_secret, put_secret, replaced, stored_rows}

module _ (c : Crypto) where
  -- A key in memory is the one that a new process resolves, whatever key it would draw.
  abbrev pub IsConsistent : KeyStore → Type 0
  IsConsistent ks =
      (key fresh : Bytes)
      → ks.cached_key ≡ some key
      → (key_outside c c.env fresh (restarted ks)).0 ≡ ok key

  outside_again :
      (env : Option String) (fresh fresh' key : Bytes) (ks : KeyStore)
      → length fresh ≡ key_bytes
      → (key_outside c env fresh ks).0 ≡ ok key
      → (key_outside c env fresh' (restarted (key_outside c env fresh ks).1)).0 ≡ ok key
  unfolding restarted
  outside_again none fresh fresh' key ks long h = ground arith
  outside_again (some env) fresh fresh' key ks long h = ground arith

  -- The key that was resolved, a later process resolves too.
  resolved_again :
      (fresh fresh' key : Bytes) (ks : KeyStore)
      → length fresh ≡ key_bytes
      → IsConsistent ks
      → (resolve_master_key c fresh ks).0 ≡ ok key
      → (resolve_master_key c fresh' (restarted (resolve_master_key c fresh ks).1)).0 ≡ ok key
  unfolding resolve_master_key restarted
  resolved_again fresh fresh' key ks long same h = elim (Option-cases ks.cached_key) [
    | inr (k, e) ↦ ground (arith, same k fresh')
    | inl e ↦ ground (arith, outside_again c.env fresh fresh' key ks long)
  ]

  put_parts :
      (fresh nonce : Bytes) (q : PutSecret) (now : ℕ) (v : VaultState) (m : Metadata)
      → (put_secret c fresh nonce q now v).0 ≡ ok m
      → let v' = (put_secret c fresh nonce q now v).1 in
        (key : Bytes) × ((resolve_master_key c fresh v.keys).0 ≡ ok key)
        × (v'.keys ≡ (resolve_master_key c fresh v.keys).1)
        × (v'.secrets ≡ stored_rows q (c.encrypt key nonce q.value) nonce now v.secrets)
  unfolding put_secret encrypt_value
  put_parts fresh nonce q now v m h = elim (Result-cases (resolve_master_key c fresh v.keys).0) [
    | inl (k, e) ↦ (k, e, ground arith, ground arith)
    | inr (text, e) ↦ absurd (ground arith)
  ]

  -- The row that a put leaves under its name.
  put_found :
      (q : PutSecret) (ct : Sealed) (nonce : Bytes) (now : ℕ) (rows : List Secret)
      → (r : Secret) × (first (is_secret q.name) (stored_rows q ct nonce now rows) ≡ some r)
        × (r.encrypted_value ≡ ct)
        × (r.nonce ≡ nonce)
  put_found q ct nonce now rows =
      let (r, found, either) =
        first-upsert (is_secret q.name) (replaced q ct nonce now) (inserted q ct nonce now) rows
          (λ a. refl) (ground (arith, eq_iff q.name q.name)) in
      elim either [
        | inl e ↦ (r, found, rw e refl, rw e refl)
        | inr (x, _, e) ↦ (r, found, rw e refl, rw e refl)
      ]

  read_value :
      (fresh key : Bytes) (name accessor reason text : String) (now : ℕ) (v : VaultState)
      (r : Secret)
      → first (is_secret name) v.secrets ≡ some r
      → (resolve_master_key c fresh v.keys).0 ≡ ok key
      → c.decrypt key r.nonce r.encrypted_value ≡ ok text
      → (get_secret_value c fresh name accessor reason now v).0 ≡ value text
  unfolding get_secret_value decrypt_and_log decrypt_value
  read_value fresh key name accessor reason text now v r found resolved opens = ground arith

  -- A secret whose put succeeds is read back as it was put, under its name, by any trusted caller of any
  -- later process; where the cipher opens what it has sealed, the key drawn is 32 bytes long
  -- and the key in memory, if there is one, is the one outside.
  pub put_secret_survives_restart :
      (fresh fresh' nonce : Bytes) (q : PutSecret) (accessor reason : String) (now later : ℕ)
      (v : VaultState) (m : Metadata)
      → ((k n : Bytes) (t : String) → c.decrypt k n (c.encrypt k n t) ≡ ok t)
      → length fresh ≡ key_bytes
      → IsConsistent v.keys
      → (put_secret c fresh nonce q now v).0 ≡ ok m
      → let v' = (put_secret c fresh nonce q now v).1 in
        (get_secret_value c fresh' q.name accessor reason later
          (record v' { keys = restarted v'.keys })).0
        ≡ value q.value
  unfolding get_secret_value decrypt_and_log decrypt_value
  put_secret_survives_restart fresh fresh' nonce q accessor reason now later v m law long same h =
      let (key, resolved, keys, rows) = put_parts fresh nonce q now v m h in
      let (r, found, sealed, drawn) =
        put_found q (c.encrypt key nonce q.value) nonce now v.secrets in
      let loaded = (ap (first (is_secret q.name)) rows) ∙ found in
      let again =
        (ap (λ (ks : KeyStore). (resolve_master_key c fresh' (restarted ks)).0) keys)
        ∙ resolved_again fresh fresh' key v.keys long same resolved in
      let opens : c.decrypt key r.nonce r.encrypted_value ≡ ok q.value =
        rw (sealed, drawn) (law key nonce q.value) in
      read_value fresh' key q.name accessor reason q.value later _ r loaded again opens
