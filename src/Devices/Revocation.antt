-- ===== src/Devices/Revocation.antt =====
-- A revoked device is out at once and for good: its token, its push endpoint, its output channel.
use life_man.Base.{
  All, All-append, All-update, Bool-cases, List, Option-cases, String, [], ap, arith, eq_iff, false,
  first, first-All, first_sound, inl, inr, lt→ltb, nat_eq, none, ok, refl, rowcount, some,
  string_eq, true, update, update-none, ℕ, ◌<◌, ◌==◌, ◌∙◌, ◌∷◌, ◌≡◌, ◌≢◌,
}
use life_man.Json.{}
use life_man.Devices.{
  DeviceChannel, DeviceToken, Op, PairRequest, Store, active, clear_device_push_endpoint,
  clear_push_op, consume_apply, consume_op, get_device_push_endpoint, has_token, is_device,
  is_taken, issue_op, issue_pairing_code, lookup_device_by_token, new_token, revoke_device,
  revoke_op, run, set_device_push_endpoint, set_push_op, step, touch_last_seen, touch_op,
  unconsumed, unregister_device_channel,
}

-- Every row of the device is revoked.
abbrev RevokedRow : String → DeviceToken → Type 0
RevokedRow id d = d.id ≡ id → d.revoked_at ≢ none

abbrev pub IsOut : String → Store → Type 0
IsOut id s = All (RevokedRow id) s.device_tokens

-- No step but a pairing under the same id concerns the device.
abbrev pub NotPairing : String → Op → Type 0
NotPairing id (consume_op p now) = p.device_id ≢ id
NotPairing id _ = Unit

revoke-row :
    (id other : String) (now : ℕ) (d : DeviceToken)
    → RevokedRow id d
    → RevokedRow id
        (record d { revoked_at = some now; push_transport = none; push_endpoint = none })
revoke-row id other now d h k e = cc

revoke-All :
    (id : String) (now : ℕ) (xs : List DeviceToken)
    → All (RevokedRow id) (
        update
          (active id)
          (λ d. record d { revoked_at = some now; push_transport = none; push_endpoint = none })
          xs)
revoke-All id now [] = tt
revoke-All id now (x ∷ xs) = elim (Bool-cases (active id x)) [
  | inl e ↦ rw e ((λ k n. cc), revoke-All id now xs)
  | inr e ↦ rw e ((λ k n. ground (arith, eq_iff x.id id)), revoke-All id now xs)
]

revoke_device-tokens :
    (id : String) (now : ℕ) (s : Store)
    → (revoke_device id now s).1.device_tokens
      ≡ update
          (active id)
          (λ d. record d { revoked_at = some now; push_transport = none; push_endpoint = none })
          s.device_tokens
unfolding revoke_device
revoke_device-tokens id now s = ground arith

issue-tokens :
    (codes : List String) (note : String) (now : ℕ) (s : Store)
    → (issue_pairing_code codes note now s).1.device_tokens ≡ s.device_tokens
unfolding issue_pairing_code
issue-tokens [] note now s = refl
issue-tokens (c ∷ cs) note now s = ground (arith, issue-tokens cs note now s)

set_push-IsOut :
    (id other transport endpoint : String) (s : Store)
    → IsOut id s
    → IsOut id (set_device_push_endpoint other transport endpoint s).1
unfolding set_device_push_endpoint
set_push-IsOut id other transport endpoint s h = elim (Bool-cases (transport == "unifiedpush")) [
  | inl e ↦ rw e (All-update (RevokedRow id) (active other) _ s.device_tokens (λ d _ r. r) h)
  | inr e ↦ rw e h
]

module _ (hash : String → String) where
  consume-IsOut :
      (id : String) (p : PairRequest) (now : ℕ) (s : Store)
      → p.device_id ≢ id
      → IsOut id s
      → IsOut id (consume_apply hash p now s).1
  unfolding consume_apply
  consume-IsOut id p now s n h =
      elim (Bool-cases (rowcount (unconsumed p.code) s.pairing_codes == 0)) [
        | inl e ↦ rw e h
        | inr e ↦ elim (Bool-cases (is_taken hash p s)) [
          | inl k ↦ rw (e, k) h
          | inr k ↦
              rw (e, k)
                (All-append (RevokedRow id) s.device_tokens (new_token hash p now ∷ []) h
                  ((λ m. absurd (n m)), tt))
        ]
      ]

  step-IsOut :
      (id : String) (o : Op) (s : Store) → NotPairing id o → IsOut id s → IsOut id (step hash o s)
  unfolding step touch_last_seen set_device_push_endpoint clear_device_push_endpoint
  step-IsOut id (issue_op codes note now) s n h = rw (issue-tokens codes note now s) h
  step-IsOut id (consume_op p now) s n h = consume-IsOut id p now s n h
  step-IsOut id (touch_op other now) s n h =
      All-update (RevokedRow id) (is_device other) _ s.device_tokens (λ d _ r. r) h
  step-IsOut id (revoke_op other now) s n h = rw revoke_device-tokens (
      All-update (RevokedRow id) (active other) _ s.device_tokens
        (λ d _ r. revoke-row id other now d r) h)
  step-IsOut id (set_push_op other transport endpoint) s n h =
      set_push-IsOut id other transport endpoint s h
  step-IsOut id (clear_push_op other) s n h =
      All-update (RevokedRow id) (is_device other) _ s.device_tokens (λ d _ r. r) h

  run-IsOut :
      (id : String) (os : List Op) (s : Store)
      → All (NotPairing id) os
      → IsOut id s
      → IsOut id (run hash os s)
  unfolding run
  run-IsOut id [] s n h = h
  run-IsOut id (o ∷ os) s n h = run-IsOut id os (step hash o s) n.1 (step-IsOut id o s n.0 h)

  pub lookup_active :
      (token : String) (s : Store) {d : DeviceToken}
      → lookup_device_by_token hash token s ≡ some d
      → (first (has_token hash token) s.device_tokens ≡ some d) × (d.revoked_at ≡ none)
  unfolding lookup_device_by_token
  lookup_active token s {d} h = elim (Option-cases (first (has_token hash token) s.device_tokens)) [
    | inl e ↦ absurd (ground arith)
    | inr (x, e) ↦ let same : x ≡ d = ground arith in (e ∙ ap some same, ground arith)
  ]

  out_no_lookup :
      (id token : String) (s : Store) (d : DeviceToken)
      → IsOut id s
      → lookup_device_by_token hash token s ≡ some d
      → d.id ≢ id
  out_no_lookup id token s d out h k =
      let (found, live) = lookup_active token s h in
      first-All (RevokedRow id) (has_token hash token) s.device_tokens out found k live

  -- After a device has been revoked, no token at all authenticates as it, whatever is done next
  -- short of a pairing under its id: no other call brings it back.
  pub revoked_for_good :
      (id token : String) (now : ℕ) (s : Store) (later : List Op) (d : DeviceToken)
      → All (NotPairing id) later
      → lookup_device_by_token hash token (run hash later (revoke_device id now s).1) ≡ some d
      → d.id ≢ id
  revoked_for_good id token now s later d n h =
      out_no_lookup id token _ d
        (run-IsOut id later _ n
          (rw (revoke_device-tokens id now s) (revoke-All id now s.device_tokens)))
        h

no_endpoint : (id : String) (s : Store) → IsOut id s → get_device_push_endpoint id s ≡ none
unfolding get_device_push_endpoint
no_endpoint id s out = elim (Option-cases (first (active id) s.device_tokens)) [
  | inl e ↦ ground arith
  | inr (d, e) ↦
      let live = first_sound (active id) s.device_tokens e in
      absurd (
        first-All (RevokedRow id) (active id) s.device_tokens out e
          ((eq_iff d.id id).0 (ground arith)) (ground arith))
]

no_active :
    (id : String) (xs : List DeviceToken) → All (RevokedRow id) xs → rowcount (active id) xs ≡ 0
no_active id [] h = refl
no_active id (x ∷ xs) h = elim (Bool-cases (active id x)) [
  | inl e ↦ absurd (h.0 ((eq_iff x.id id).0 (ground arith)) (ground arith))
  | inr e ↦ rw e (no_active id xs h.1)
]

channel_gone :
    (id : String) (cs : List DeviceChannel)
    → All (λ c. c.device_id ≢ id) (unregister_device_channel id cs)
unfolding unregister_device_channel
channel_gone id [] = tt
channel_gone id (c ∷ cs) = elim (Bool-cases (c.device_id == id)) [
  | inl e ↦ rw e (channel_gone id cs)
  | inr e ↦ rw e ((λ k. ground (arith, eq_iff c.device_id id)), channel_gone id cs)
]

set_none :
    (id endpoint : String) (s : Store)
    → rowcount (active id) s.device_tokens ≡ 0
    → set_device_push_endpoint id "unifiedpush" endpoint s ≡ (ok false, s)
unfolding set_device_push_endpoint
set_none id endpoint s h = rw h (rw (update-none (active id) _ s.device_tokens h) refl)

revoke_none :
    (id : String) (now : ℕ) (s : Store)
    → rowcount (active id) s.device_tokens ≡ 0
    → revoke_device id now s ≡ (false, s)
unfolding revoke_device
revoke_none id now s h = rw h (rw (update-none (active id) _ s.device_tokens h) refl)

-- Revoking a device that was active answers true, removes its output channel and its push
-- endpoint, and from then on an endpoint for it is refused and nothing is stored; revoking it a
-- second time answers false and changes no device.
revoke_device_effects :
    (id : String) (now later : ℕ) (endpoint : String) (s : Store)
    → 0 < rowcount (active id) s.device_tokens
    → let (answered, s') = revoke_device id now s in
      (answered ≡ true)
      × All (λ c. c.device_id ≢ id) s'.channels
      × (get_device_push_endpoint id s' ≡ none)
      × (set_device_push_endpoint id "unifiedpush" endpoint s' ≡ (ok false, s'))
      × (revoke_device id later s' ≡ (false, s'))
revoke_device_effects id now later endpoint s h =
    let out : IsOut id (revoke_device id now s).1 =
      rw (revoke_device-tokens id now s) (revoke-All id now s.device_tokens) in
    let none_left = no_active id _ out in
    (
      unfold revoke_device in rw (lt→ltb _ _ h) refl,
      unfold revoke_device in rw (lt→ltb _ _ h) (channel_gone id s.channels),
      no_endpoint id _ out,
      set_none id endpoint _ none_left,
      revoke_none id later _ none_left,
    )
