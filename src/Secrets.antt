-- ===== src/Secrets.antt =====
-- The store of secrets (src/lifeman/secrets). `Secrets.Keys` resolves the master key, `Secrets.Vault` holds the
-- operations of the store, `Secrets.Reads` those that read a secret. AES-GCM, base64 and the environment are arguments.
pub mod Keys
pub mod Vault
pub mod Reads
pub mod Gate
pub mod Restart
pub mod Examples
use life_man.Base.{Bool, List, Option, Result, String, ℕ}
use life_man.Permissions.{Store}

-- Bytes, as numbers: keys and nonces. A ciphertext, which is only stored and opened, is a `Sealed`.
abbrev pub Bytes : Type 0
Bytes = List ℕ

abbrev pub Sealed : Type 0
Sealed = String

-- What the code calls outside itself.
pub record Crypto : Type 0 where
  -- `os.environ.get("LIFEMAN_MASTER_KEY")`
  pub env : Option String
  -- `base64.urlsafe_b64decode`; `raised` has the text of the exception
  pub b64decode : String → Result Bytes
  -- `AESGCM(key).encrypt(nonce, value.encode("utf-8"), b"")`
  pub encrypt : Bytes → Bytes → String → Sealed
  -- `AESGCM(key).decrypt(nonce, ciphertext, b"").decode("utf-8")`
  pub decrypt : Bytes → Bytes → Sealed → Result String
  -- `str(path)` of the key file, and Python's `str` of a number
  pub key_path : String
  pub show : ℕ → String
  -- `str.strip`
  pub strip : String → String
  -- SQLite's `<` on texts
  pub text_less : String → String → Bool

-- What `crypto.py` keeps in memory, and the key file.
pub record KeyStore : Type 0 where
  pub cached_key : Option Bytes
  pub newly_generated : Bool
  pub key_file : Option Bytes

-- A row of `secrets`; `allowed_tools_json` is written by `json.dumps` of a list of texts.
pub record Secret : Type 0 where
  pub name : String
  pub description : String
  pub encrypted_value : Sealed
  pub nonce : Bytes
  pub allowed_tools : List String
  pub sensitivity : String
  pub created_at : ℕ
  pub updated_at : ℕ
  pub last_accessed_at : Option ℕ

-- `SecretMetadata`
pub record Metadata : Type 0 where
  pub name : String
  pub description : String
  pub allowed_tools : List String
  pub sensitivity : String
  pub created_at : ℕ
  pub updated_at : ℕ
  pub last_accessed_at : Option ℕ

-- A row of `secret_access_log`.
pub record Access : Type 0 where
  pub id : ℕ
  pub secret_name : String
  pub accessor : String
  pub accessed_at : ℕ
  pub granted : Bool
  pub failure_reason : Option String
  pub reason : String

pub record VaultState : Type 0 where
  pub secrets : List Secret
  pub access_log : List Access
  pub last_access_id : ℕ
  pub keys : KeyStore
  pub permissions : Store
