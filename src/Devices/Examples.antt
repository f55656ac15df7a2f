-- ===== src/Devices/Examples.antt =====
-- A phone is paired and revoked.
use life_man.Base.{List, String, [], arith, ok, raised, refl, some, ◌<>◌, ◌∷◌, ◌≡◌, ◌≢◌}
use life_man.Json.{null}
use life_man.Devices.{
  Op, PairRequest, PairingCode, Store, consume_apply, consume_pairing_code, fresh_code, issue_op,
  issued, lookup_device_by_token, new_token, revoke_device, run, step, touch_last_seen, touch_op,
  unregister_device_channel,
}
use life_man.Devices.Pairing.{code_used_once, paired_token_authenticates}
use life_man.Devices.Revocation.{revoked_for_good}

abbrev hashed : String → String
hashed token = "#" <> token

abbrev code_row : PairingCode
code_row = fresh_code "482913" "phone" 100

abbrev with_code : Store
with_code = record { pairing_codes = code_row ∷ []; device_tokens = []; channels = [] }

abbrev pairing : PairRequest
pairing = record {
  code = "482913";
  name = "Phone";
  platform = "android";
  capabilities = null;
  device_id = "d1";
  token = "t1";
}

abbrev tablet : PairRequest
tablet = record {
  code = "482913";
  name = "Tablet";
  platform = "android";
  capabilities = null;
  device_id = "d2";
  token = "t2";
}

first_pairing : (consume_apply hashed pairing 200 with_code).0 ≡ ok (issued hashed pairing 200)
unfolding consume_apply
first_pairing = refl

abbrev between : List Op
between = touch_op "d1" 300 ∷ issue_op ("111111" ∷ []) "" 400 ∷ []

code_used_once_example :
    let s' = run hashed between (consume_apply hashed pairing 200 with_code).1 in
    consume_apply hashed tablet 500 s' ≡ (raised "pairing code already consumed", s')
code_used_once_example =
    code_used_once hashed pairing tablet 200 500 with_code (issued hashed pairing 200) between
      first_pairing refl

paired_token_authenticates_example :
    lookup_device_by_token hashed "t1" (consume_pairing_code hashed pairing 200 with_code).1
    ≡ some (new_token hashed pairing 200)
paired_token_authenticates_example =
    paired_token_authenticates hashed pairing 200 with_code code_row refl refl (omega arith) refl
      refl refl

abbrev paired : Store
paired = record {
  pairing_codes = [];
  device_tokens = new_token hashed pairing 200 ∷ new_token hashed tablet 300 ∷ [];
  channels = [];
}

tablet_found :
    lookup_device_by_token hashed "t2"
      (run hashed (touch_op "d2" 700 ∷ []) (revoke_device "d1" 600 paired).1)
    ≡ some (record (new_token hashed tablet 300) { last_seen_at = some 700 })
unfolding lookup_device_by_token run step touch_last_seen revoke_device unregister_device_channel
tablet_found = refl

revoked_for_good_example : ◌≢◌ {A = String} "d2" "d1"
revoked_for_good_example =
    revoked_for_good hashed "d1" "t2" 600 paired (touch_op "d2" 700 ∷ [])
      (record (new_token hashed tablet 300) { last_seen_at = some 700 }) (tt, tt) tablet_found
