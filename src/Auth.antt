-- ===== src/Auth.antt =====
-- Who makes a request (src/lifeman/auth.py). A device is looked up in the store of `Devices`.
pub mod Examples
use text.Mathlib.Text.{starts_with}
use life_man.Base.{
  Bool, List, Memᴰ, Option, Option-cases, String, [], arith, elem, eq_iff, false, first, first-Mem,
  first_sound, if◌then◌else◌, inl, inr, is_empty, nat_eq, none, some, string_eq, true, ◌==◌, ◌∷◌,
  ◌≡◌, ◌≢◌,
}
use life_man.Devices.Revocation.{lookup_active}
use life_man.Devices.{DeviceToken, Store, has_token, lookup_device_by_token}

pub data Kind : Type 0 where
  master device : Kind

pub record Principal : Type 0 where
  pub kind : Kind
  pub device_id : Option String
  pub device_name : Option String

-- The parts of a request that the checks read; `client` is the peer's host, if there is one.
pub record HttpRequest : Type 0 where
  pub path : String
  pub client : Option String
  pub credentials : Option String

pub data Outcome : Type 0 where
  admitted : Principal → Outcome
  unauthorized : String → Outcome

abbrev pub loopback_hosts : List String
loopback_hosts = "127.0.0.1" ∷ "localhost" ∷ "::1" ∷ []

-- `_is_loopback`: a request without a peer counts as loopback.
unfoldable pub is_loopback : Option String → Bool
is_loopback none = true
is_loopback (some host) = elem host loopback_hosts

abbrev pub the_master : Principal
the_master = record { kind = master; device_id = none; device_name = none }

abbrev pub the_device : DeviceToken → Principal
the_device d = record { kind = device; device_id = some d.id; device_name = some d.name }

module _ (hash : String → String) (settings_token : String) where
  -- `check_token`
  unfoldable pub check_token : String → Bool
  check_token token = token == settings_token

  with_token : String → Option String → Store → Outcome
  unfolding check_token
  with_token token client s =
      if check_token token
      then if is_loopback client
        then admitted the_master
        else unauthorized "master token not accepted over the network; pair a device"
      else elim (lookup_device_by_token hash token s) [
        | none ↦ unauthorized "Invalid or missing token"
        | some d ↦ admitted (the_device d)
      ]

  unfoldable pub require_auth : HttpRequest → Store → Outcome
  unfolding with_token
  require_auth r s =
      if starts_with r.path "/api/"
      then elim r.credentials [
        | none ↦ unauthorized "Invalid or missing token"
        | some token ↦
            if is_empty token
            then unauthorized "Invalid or missing token"
            else with_token token r.client s
      ]
      else admitted the_master

  unfoldable pub resolve_query_token : Option String → Option String → Store → Option Principal
  unfolding check_token
  resolve_query_token client none s = none
  resolve_query_token client (some token) s =
      if is_empty token
      then none
      else if check_token token
      then if is_loopback client then some the_master else none
      else elim (lookup_device_by_token hash token s) [ none ↦ none | some d ↦ some (the_device d) ]

  abbrev pub principal_of : Outcome → Option Principal
  principal_of (admitted p) = some p
  principal_of (unauthorized e) = none

  -- The token in the query of an event stream admits exactly whom the same token in the header of
  -- an API request admits: for every token, present or not, and from every peer.
  query_token_agrees :
      (path : String) (client token : Option String) (s : Store)
      → starts_with path "/api/" ≡ true
      → resolve_query_token client token s
        ≡ principal_of
            (require_auth (record { path = path; client = client; credentials = token }) s)
  unfolding resolve_query_token require_auth
  query_token_agrees path client none s h = ground arith
  query_token_agrees path client (some token) s h =
      elim (Option-cases (lookup_device_by_token hash token s)) [
        | inl e ↦ ground arith
        | inr (d, e) ↦ ground arith
      ]

  -- A peer that is not on the loopback interface is admitted to the API only as a device of the table of
  -- tokens, by a token that is not the master token: the device's row is the first with the hash of that
  -- token, and it is not revoked.
  pub network_needs_device :
      (r : HttpRequest) (s : Store) (p : Principal)
      → starts_with r.path "/api/" ≡ true
      → is_loopback r.client ≡ false
      → require_auth r s ≡ admitted p
      → (token : String) × (d : DeviceToken) × (r.credentials ≡ some token)
        × (token ≢ settings_token)
        × (p ≡ the_device d)
        × Memᴰ d s.device_tokens
        × (first (λ (x : DeviceToken). x.token_hash == hash token) s.device_tokens ≡ some d)
        × (d.token_hash ≡ hash token)
        × (d.revoked_at ≡ none)
  unfolding require_auth
  network_needs_device r s p api remote h = elim (Option-cases r.credentials) [
    | inl e ↦ absurd (ground arith)
    | inr (token, e) ↦ elim (Option-cases (lookup_device_by_token hash token s)) [
      | inl k ↦ absurd (ground arith)
      | inr (d, k) ↦
          let (found, live) = lookup_active hash token s k in
          (
            token,
            d,
            e,
            ground (arith, eq_iff token settings_token),
            ground arith,
            first-Mem (has_token hash token) s.device_tokens found,
            found,
            (eq_iff d.token_hash (hash token)).0
                (first_sound (has_token hash token) s.device_tokens found),
            live,
          )
    ]
  ]
