-- ===== src/Auth/Examples.antt =====
-- A paired phone and the master token.
use life_man.Base.{
  Memᴰ, String, [], first, nat_eq, none, refl, some, string_eq, ◌<>◌, ◌==◌, ◌∷◌, ◌≡◌, ◌≢◌,
}
use life_man.Json.{null}
use life_man.Devices.{DeviceToken, Store, lookup_device_by_token}
use life_man.Auth.{
  HttpRequest, admitted, is_loopback, network_needs_device, require_auth, the_device, unauthorized,
}

abbrev hash_text : String → String
hash_text token = "#" <> token

abbrev phone_row : DeviceToken
phone_row = record {
  id = "d1";
  name = "Phone";
  platform = "android";
  token_hash = "#t1";
  capabilities = null;
  created_at = 1;
  last_seen_at = none;
  revoked_at = none;
  push_transport = none;
  push_endpoint = none;
}

abbrev phone_store : Store
phone_store = record { pairing_codes = []; device_tokens = phone_row ∷ []; channels = [] }

abbrev from_phone : HttpRequest
from_phone = record { path = "/api/chat"; client = some "192.168.1.9"; credentials = some "t1" }

phone_admitted :
    require_auth hash_text "master-token" from_phone phone_store ≡ admitted (the_device phone_row)
unfolding require_auth lookup_device_by_token
phone_admitted = refl

master_refused :
    require_auth hash_text "master-token"
      (record from_phone { credentials = some "master-token" })
      phone_store
    ≡ unauthorized "master token not accepted over the network; pair a device"
unfolding require_auth is_loopback
master_refused = refl

network_needs_device_example :
    (token : String) × (d : DeviceToken) × (from_phone.credentials ≡ some token)
    × (token ≢ "master-token")
    × (the_device phone_row ≡ the_device d)
    × Memᴰ d phone_store.device_tokens
    × (first (λ (x : DeviceToken). x.token_hash == hash_text token) phone_store.device_tokens
        ≡ some d)
    × (d.token_hash ≡ hash_text token)
    × (d.revoked_at ≡ none)
network_needs_device_example =
    network_needs_device hash_text "master-token" from_phone phone_store (the_device phone_row) refl
      (unfold is_loopback in refl) phone_admitted
