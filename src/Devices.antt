-- ===== src/Devices.antt =====
-- Device pairing and bearer credentials (src/lifeman/devices.py), and the resolution of a request's
-- principal (src/lifeman/auth.py). The hash of a token is the argument `hash`; tokens, ids and codes
-- that the program draws at random are arguments of the calls. `consume_pairing_code` suspends
-- between its SELECT and its UPDATE, so it is two steps.
pub mod Examples
pub mod Pairing
pub mod Revocation
use life_man.Base.{
  Bool, List, Option, Result, String, [], delete, false, first, if◌then◌else◌, is_empty, is_none,
  is_some, leb, ltb, nat_eq, none, ok, raised, rowcount, some, string_eq, true, update, ℕ, ◌&&◌,
  ◌*◌, ◌++◌, ◌+◌, ◌==◌, ◌||◌, ◌∷◌,
}
use life_man.Json.{Value}

-- A row of `pairing_codes`.
pub record PairingCode : Type 0 where
  pub code : String
  pub issued_at : ℕ
  pub expires_at : ℕ
  pub note : String
  pub consumed_at : Option ℕ
  pub device_id : Option String

-- A row of `device_tokens`.
pub record DeviceToken : Type 0 where
  pub id : String
  pub name : String
  pub platform : String
  pub token_hash : String
  pub capabilities : Value
  pub created_at : ℕ
  pub last_seen_at : Option ℕ
  pub revoked_at : Option ℕ
  pub push_transport : Option String
  pub push_endpoint : Option String

-- The registry of output channels, of which pairing and revoking concern the device channels: the
-- ids that have one, with the name and the capabilities it was registered with.
pub record DeviceChannel : Type 0 where
  pub device_id : String
  pub device_name : String
  pub capabilities : Value

pub record Store : Type 0 where
  pub pairing_codes : List PairingCode
  pub device_tokens : List DeviceToken
  pub channels : List DeviceChannel

-- `_PAIRING_TTL_MINUTES`, in microseconds
abbrev pub pairing_ttl : ℕ
pairing_ttl = 5 * 60 * 1000000

abbrev pub is_code : String → PairingCode → Bool
is_code code r = r.code == code

abbrev pub fresh_code : String → String → ℕ → PairingCode
fresh_code code note now = record {
  code = code;
  issued_at = now;
  expires_at = now + pairing_ttl;
  note = note;
  consumed_at = none;
  device_id = none;
}

-- The retry loop of `issue_pairing_code` over the codes drawn, at most eight: an INSERT of a code
-- that is in the table already fails.
unfoldable pub issue_pairing_code : List String → String → ℕ → Store → Result PairingCode × Store
issue_pairing_code [] note now s =
    (raised "could not allocate a unique pairing code after 8 attempts", s)
issue_pairing_code (code ∷ codes) note now s =
    let retry = issue_pairing_code codes note now s in
    if is_some (first (is_code code) s.pairing_codes) then retry else (
      ok (fresh_code code note now),
      record s { pairing_codes = s.pairing_codes ++ fresh_code code note now ∷ [] },
    )

-- `consume_pairing_code` up to its UPDATE: the checks on the row it reads.
unfoldable pub consume_check : String → ℕ → Store → Result (Unit {0})
consume_check code now s = elim (first (is_code code) s.pairing_codes) [
  | none ↦ raised "unknown pairing code"
  | some r ↦
      if is_some r.consumed_at
      then raised "pairing code already consumed"
      else if leb r.expires_at now
      then raised "pairing code expired"
      else ok tt
]

abbrev pub unconsumed : String → PairingCode → Bool
unconsumed code r = (r.code == code) && is_none r.consumed_at

-- What the device is given.
pub record Issued : Type 0 where
  pub device_id : String
  pub name : String
  pub platform : String
  pub token : String
  pub created_at : ℕ

-- What the caller of `POST /api/auth/pair` sends, and what the server draws for it.
pub record PairRequest : Type 0 where
  pub code : String
  pub name : String
  pub platform : String
  pub capabilities : Value
  pub device_id : String
  pub token : String

abbrev is_channel : String → DeviceChannel → Bool
is_channel id c = c.device_id == id

-- `registry.register`: a re-registered channel keeps its place.
unfoldable pub register_device_channel :
    String → String → Value → List DeviceChannel → List DeviceChannel
register_device_channel id name caps cs =
    let channel : DeviceChannel = record {
      device_id = id;
      device_name = name;
      capabilities = caps;
    } in
    if is_some (first (is_channel id) cs)
    then update (is_channel id) (λ _. channel) cs
    else cs ++ channel ∷ []

unfoldable pub unregister_device_channel : String → List DeviceChannel → List DeviceChannel
unregister_device_channel id cs = delete (is_channel id) cs

abbrev pub is_device : String → DeviceToken → Bool
is_device id d = d.id == id

module _ (hash : String → String) where
  abbrev pub new_token : PairRequest → ℕ → DeviceToken
  new_token p now = record {
    id = p.device_id;
    name = p.name;
    platform = p.platform;
    token_hash = hash p.token;
    capabilities = p.capabilities;
    created_at = now;
    last_seen_at = none;
    revoked_at = none;
    push_transport = none;
    push_endpoint = none;
  }

  abbrev pub issued : PairRequest → ℕ → Issued
  issued p now = record {
    device_id = p.device_id;
    name = p.name;
    platform = p.platform;
    token = p.token;
    created_at = now;
  }

  abbrev pub has_token : String → DeviceToken → Bool
  has_token token d = d.token_hash == hash token

  -- The INSERT would repeat an id, the primary key, or a hash, which is unique.
  abbrev pub is_taken : PairRequest → Store → Bool
  is_taken p s =
      is_some (first (is_device p.device_id) s.device_tokens)
      || is_some (first (has_token p.token) s.device_tokens)

  -- The rest of `consume_pairing_code`, with the time that the call began at. Where the INSERT raises, the
  -- UPDATE before it stays.
  unfoldable pub consume_apply : PairRequest → ℕ → Store → Result Issued × Store
  unfolding register_device_channel
  consume_apply p now s =
      if rowcount (unconsumed p.code) s.pairing_codes == 0
      then (raised "pairing code already consumed", s)
      else let consumed = record s {
        pairing_codes =
            update (unconsumed p.code)
              (λ r. record r { consumed_at = some now; device_id = some p.device_id })
              s.pairing_codes;
      } in
        if is_taken p s then (raised "UNIQUE constraint failed", consumed) else (
          ok (issued p now),
          record consumed {
            device_tokens = s.device_tokens ++ new_token p now ∷ [];
            channels = register_device_channel p.device_id p.name p.capabilities s.channels;
          },
        )

  unfoldable pub consume_pairing_code : PairRequest → ℕ → Store → Result Issued × Store
  unfolding consume_check consume_apply
  consume_pairing_code p now s = elim (consume_check p.code now s) [
    | raised e ↦ (raised e, s)
    | ok _ ↦ consume_apply p now s
  ]

  -- The first row with the hash is the one that counts.
  unfoldable pub lookup_device_by_token : String → Store → Option DeviceToken
  lookup_device_by_token token s =
      if is_empty token then none else elim (first (has_token token) s.device_tokens) [
        | none ↦ none
        | some d ↦ if is_some d.revoked_at then none else some d
      ]

abbrev pub active : String → DeviceToken → Bool
active id d = (d.id == id) && is_none d.revoked_at

unfoldable pub touch_last_seen : String → ℕ → Store → Store
touch_last_seen id now s = record s {
  device_tokens = update (is_device id) (λ d. record d { last_seen_at = some now }) s.device_tokens;
}

unfoldable pub revoke_device : String → ℕ → Store → Bool × Store
unfolding unregister_device_channel
revoke_device id now s =
    let revoked = record s {
      device_tokens =
          update (active id)
            (λ d. record d { revoked_at = some now; push_transport = none; push_endpoint = none })
            s.device_tokens;
    } in
    if ltb 0 (rowcount (active id) s.device_tokens)
    then (true, record revoked { channels = unregister_device_channel id s.channels })
    else (false, revoked)

unfoldable pub set_device_push_endpoint : String → String → String → Store → Result Bool × Store
set_device_push_endpoint id transport endpoint s =
    if transport == "unifiedpush"
    then (
      ok (ltb 0 (rowcount (active id) s.device_tokens)),
      record s {
        device_tokens =
            update (active id)
              (λ d. record d { push_transport = some transport; push_endpoint = some endpoint })
              s.device_tokens;
      },
    )
    else (raised "unsupported push transport", s)

unfoldable pub clear_device_push_endpoint : String → Store → Bool × Store
clear_device_push_endpoint id s = (
  ltb 0 (rowcount (is_device id) s.device_tokens),
  record s {
    device_tokens =
        update (is_device id) (λ d. record d { push_transport = none; push_endpoint = none })
          s.device_tokens;
  },
)

-- `not transport or not endpoint`
abbrev both_texts : Option String → Option String → Option (String × String)
both_texts (some t) (some e) = if is_empty t || is_empty e then none else some (t, e)
both_texts _ _ = none

unfoldable pub get_device_push_endpoint : String → Store → Option (String × String)
get_device_push_endpoint id s = elim (first (active id) s.device_tokens) [
  | none ↦ none
  | some d ↦ both_texts d.push_transport d.push_endpoint
]

-- What can happen to the store between two steps of a call.
pub data Op : Type 0 where
  issue_op : List String → String → ℕ → Op
  consume_op : PairRequest → ℕ → Op
  touch_op revoke_op : String → ℕ → Op
  set_push_op : String → String → String → Op
  clear_push_op : String → Op

module _ (hash : String → String) where
  -- `consume_op` is the second step alone: its check may have passed long before.
  unfoldable pub step : Op → Store → Store
  step (issue_op codes note now) s = (issue_pairing_code codes note now s).1
  step (consume_op p now) s = (consume_apply hash p now s).1
  step (touch_op id now) s = touch_last_seen id now s
  step (revoke_op id now) s = (revoke_device id now s).1
  step (set_push_op id transport endpoint) s = (set_device_push_endpoint id transport endpoint s).1
  step (clear_push_op id) s = (clear_device_push_endpoint id s).1

  unfoldable pub run : List Op → Store → Store
  run [] s = s
  run (o ∷ os) s = run os (step o s)
