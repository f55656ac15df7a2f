-- ===== src/Secrets/Examples.antt =====
-- A secret that one tool may read, and a grant for another.
use life_man.Base.{
  String, [], arith, false, nat_eq, none, ok, raised, refl, some, string_eq, suc, zero, ℕ, ◌++◌,
  ◌∷◌, ◌≡◌,
}
use life_man.Audit.{no_effects}
use life_man.Permissions.{Grant, blank}
use life_man.Secrets.{Bytes, Crypto, Secret, VaultState}
use life_man.Secrets.Keys.{encrypt_value, resolve_master_key, restarted}
use life_man.Secrets.Reads.{get_secret_for_tool, get_secret_resumed, get_secret_value, value}
use life_man.Secrets.Vault.{PutSecret, inserted, put_answer, put_secret}
use life_man.Secrets.Gate.{entries, read_log_entries}
use life_man.Secrets.Restart.{put_secret_survives_restart}

-- A cipher that hides nothing.
abbrev toy : Crypto
toy = record {
  env = none;
  b64decode = λ s. raised "Incorrect padding";
  encrypt = λ key nonce t. t;
  decrypt = λ key nonce ct. ok ct;
  key_path = "master.key";
  show = λ n. "7";
  strip = λ s. s;
  text_less = λ s t. false;
}

abbrev zeros : ℕ → Bytes
zeros zero = []
zeros (suc n) = 0 ∷ zeros n

abbrev fresh_key : Bytes
fresh_key = zeros 32

abbrev no_secrets : VaultState
no_secrets = record {
  secrets = [];
  access_log = [];
  last_access_id = 0;
  keys = record { cached_key = none; newly_generated = false; key_file = none };
  permissions = record { permissions = []; requests = []; waiters = []; fx = no_effects };
}

abbrev password : PutSecret
password = record {
  name = "mail";
  value = "hunter2";
  description = "";
  allowed_tools = "mailer" ∷ [];
  sensitivity = "private";
}

abbrev reader : Grant
reader = record {
  id = "g1";
  granter = "user";
  grantee = "tool:digest";
  capability = "secret:read:mail";
  scope = blank;
  granted_at = 1;
  expires_at = some "5";
  revoked_at = none;
}

put_works : (put_secret toy fresh_key [] password 3 no_secrets).0 ≡ ok (put_answer password 3 none)
unfolding put_secret encrypt_value resolve_master_key
put_works = refl

put_secret_survives_restart_example :
    let v' = (put_secret toy fresh_key [] password 3 no_secrets).1 in
    (get_secret_value toy
      (zeros 31)
      "mail"
      "user"
      "look"
      9
      (record v' { keys = restarted v'.keys })).0
    ≡ value "hunter2"
put_secret_survives_restart_example =
    put_secret_survives_restart toy fresh_key (zeros 31) [] password "user" "look" 3 9 no_secrets
      (put_answer password 3 none) (λ k n t. refl) refl (λ key fresh h. absurd (ground arith))
      put_works

abbrev stored : Secret
stored = inserted password "hunter2" [] 3

abbrev one_secret : VaultState
one_secret = record no_secrets {
  secrets = stored ∷ [];
  keys = record no_secrets.keys { cached_key = some fresh_key };
  permissions = record no_secrets.permissions { permissions = reader ∷ [] };
}

-- The user's `granted_once` wakes the waiter, and the rest of the program has changed nothing.
abbrev answered_by_user : VaultState → String × VaultState
answered_by_user v = ("granted_once", v)

read_log_entries_example :
    let (r, v') = get_secret_for_tool toy fresh_key "mailer" "mail" "send" none "p1" 6 one_secret in
    let (r', w) =
      get_secret_resumed toy fresh_key
        (λ s. s)
        "mailer"
        "mail"
        stored
        "send"
        "denied"
        6
        one_secret in
    (v'.access_log ≡ [] ++ entries "mail" "tool:mailer" "send" "denied" 0 6 r)
    × (w.access_log ≡ [] ++ entries "mail" "tool:mailer" "send" "denied" 0 6 r')
read_log_entries_example =
    read_log_entries toy fresh_key (λ s. s) "mailer" "mail" "send" "p1" "denied" none stored 6
      one_secret
