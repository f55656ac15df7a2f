-- ===== src/Secrets/Keys.antt =====
-- The master key, and the two calls that use it (src/lifeman/secrets/crypto.py).
use life_man.Base.{
  Bool, Option, Result, String, false, if◌then◌else◌, is_empty, length, nat_eq, none, ok, raised,
  some, string_eq, true, ℕ, ◌<>◌, ◌==◌,
}
use life_man.Secrets.{Bytes, Crypto, KeyStore, Sealed}

abbrev pub key_bytes : ℕ
key_bytes = 32

abbrev pub cache_key : Bytes → KeyStore → KeyStore
cache_key key ks = record ks { cached_key = some key }

module _ (c : Crypto) where
  abbrev pub key_of_env : String → KeyStore → Result Bytes × KeyStore
  key_of_env env ks = elim (c.b64decode env) [
    | raised e ↦ (raised ("LIFEMAN_MASTER_KEY is not valid base64: " <> e), ks)
    | ok key ↦
        if length key == key_bytes
        then (ok key, cache_key key ks)
        else (raised "LIFEMAN_MASTER_KEY must decode to 32 bytes", ks)
  ]

  -- `fresh` is the key that `AESGCM.generate_key` draws.
  abbrev pub key_of_file : Bytes → KeyStore → Result Bytes × KeyStore
  key_of_file fresh ks = elim ks.key_file [
    | none ↦ (
      ok fresh,
      record ks { cached_key = some fresh; newly_generated = true; key_file = some fresh },
    )
    | some key ↦ if length key == key_bytes then (ok key, cache_key key ks) else (
      raised (c.key_path <> " has wrong length (" <> c.show (length key) <> " bytes, expected 32)"),
      ks,
    )
  ]

  abbrev pub key_outside : Option String → Bytes → KeyStore → Result Bytes × KeyStore
  key_outside none fresh ks = key_of_file fresh ks
  key_outside (some env) fresh ks = if is_empty env then key_of_file fresh ks else key_of_env env ks

  unfoldable pub resolve_master_key : Bytes → KeyStore → Result Bytes × KeyStore
  resolve_master_key fresh ks = elim ks.cached_key [
    | some key ↦ (ok key, ks)
    | none ↦ key_outside c.env fresh ks
  ]

  -- `encrypt`; `nonce` is what `os.urandom` draws.
  unfoldable pub encrypt_value :
      Bytes → Bytes → String → KeyStore → Result (Sealed × Bytes) × KeyStore
  encrypt_value fresh nonce value ks =
      let (key, ks') = resolve_master_key fresh ks in
      (elim key [ raised e ↦ raised e | ok k ↦ ok (c.encrypt k nonce value, nonce) ], ks')

  unfoldable pub decrypt_value : Bytes → Sealed → Bytes → KeyStore → Result String × KeyStore
  decrypt_value fresh ciphertext nonce ks =
      let (key, ks') = resolve_master_key fresh ks in
      (elim key [ raised e ↦ raised e | ok k ↦ c.decrypt k nonce ciphertext ], ks')

-- `consume_newly_generated_flag`
unfoldable pub consume_newly_generated_flag : KeyStore → Bool × KeyStore
consume_newly_generated_flag ks = (ks.newly_generated, record ks { newly_generated = false })

-- The module's state when a process starts; the key file stays.
unfoldable pub restarted : KeyStore → KeyStore
restarted ks = record ks { cached_key = none; newly_generated = false }
