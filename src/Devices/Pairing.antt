-- ===== src/Devices/Pairing.antt =====
-- A pairing code is good for one device, however the calls interleave.
use life_man.Base.{
  Bool, Bool-cases, List, Option-cases, String, [], arith, eq_iff, false, first, first-update, inl,
  inr, is_empty, is_some, leb, nat_eq, none, ok, raised, refl, rowcount, rowcount-update_off, some,
  string_eq, subst, sym, true, update, ℕ, ◌++◌, ◌<◌, ◌==◌, ◌∙◌, ◌∷◌, ◌≡◌, ◌⊎◌,
}
use life_man.Json.{}
use life_man.Devices.{
  DeviceToken, Issued, Op, PairRequest, PairingCode, Store, clear_device_push_endpoint,
  clear_push_op, consume_apply, consume_check, consume_op, consume_pairing_code, fresh_code,
  has_token, is_code, is_device, is_taken, issue_op, issue_pairing_code, issued,
  lookup_device_by_token, new_token, revoke_device, revoke_op, run, set_device_push_endpoint,
  set_push_op, step, touch_last_seen, touch_op, unconsumed,
}

-- The code is in the table, and every row that has it is consumed.
pub record IsSpent (code : String) (s : Store) : Type 0 where
  pub known : is_some (first (is_code code) s.pairing_codes) ≡ true
  pub spent : rowcount (unconsumed code) s.pairing_codes ≡ 0

abbrev consume_row : String → ℕ → PairingCode → PairingCode
consume_row id now r = record r { consumed_at = some now; device_id = some id }

known-update :
    (q p : PairingCode → Bool) (f : PairingCode → PairingCode) (xs : List PairingCode)
    → ((a : PairingCode) → q (f a) ≡ q a)
    → is_some (first q (update p f xs)) ≡ is_some (first q xs)
known-update q p f xs h =
    rw (first-update q p f xs h)
      (elim (Option-cases (first q xs)) [ inl e ↦ rw e refl | inr (a, e) ↦ rw e refl ])

first-append :
    (q : PairingCode → Bool) (xs : List PairingCode) (x : PairingCode)
    → is_some (first q xs) ≡ true
    → is_some (first q (xs ++ x ∷ [])) ≡ true
first-append q [] x h = cc
first-append q (y ∷ ys) x h = ground (arith, first-append q ys x)

rowcount-append_off :
    (q : PairingCode → Bool) (xs : List PairingCode) (x : PairingCode)
    → q x ≡ false
    → rowcount q xs ≡ 0
    → rowcount q (xs ++ x ∷ []) ≡ 0
rowcount-append_off q [] x off h = ground arith
rowcount-append_off q (y ∷ ys) x off h = ground (arith, rowcount-append_off q ys x off)

-- Consuming one code never makes a row of another consumable.
spent-consume :
    (code other id : String) (now : ℕ) (xs : List PairingCode)
    → rowcount (unconsumed code) xs ≡ 0
    → rowcount (unconsumed code) (update (unconsumed other) (consume_row id now) xs) ≡ 0
spent-consume code other id now [] h = refl
spent-consume code other id now (x ∷ xs) h = ground (arith, spent-consume code other id now xs)

other_code :
    (code c note : String) (now : ℕ) (s : Store)
    → is_some (first (is_code code) s.pairing_codes) ≡ true
    → is_some (first (is_code c) s.pairing_codes) ≡ false
    → unconsumed code (fresh_code c note now) ≡ false
other_code code c note now s known new = elim (Bool-cases (c == code)) [
  | inl e ↦
      let same : c ≡ code = (eq_iff c code).0 e in
      let clash : is_some (first (is_code code) s.pairing_codes) ≡ false = rw same at new in cc
  | inr e ↦ rw e refl
]

issue-IsSpent :
    (code : String) (codes : List String) (note : String) (now : ℕ) (s : Store)
    → IsSpent code s
    → IsSpent code (issue_pairing_code codes note now s).1
unfolding issue_pairing_code
issue-IsSpent code [] note now s h = h
issue-IsSpent code (c ∷ cs) note now s h =
    elim (Bool-cases (is_some (first (is_code c) s.pairing_codes))) [
      | inl e ↦ rw e (issue-IsSpent code cs note now s h)
      | inr e ↦ rw e (record {
        known = first-append (is_code code) s.pairing_codes (fresh_code c note now) h.known;
        spent =
            rowcount-append_off (unconsumed code) s.pairing_codes (fresh_code c note now)
              (other_code code c note now s h.known e) h.spent;
      })
    ]

module _ (hash : String → String) where
  consumed_rows :
      (code : String) (p : PairRequest) (now : ℕ) (s : Store) {t : Store}
      → IsSpent code s
      → t.pairing_codes ≡ update (unconsumed p.code) (consume_row p.device_id now) s.pairing_codes
      → IsSpent code t
  consumed_rows code p now s h e = record {
    known = rw e (
        known-update (is_code code) (unconsumed p.code) (consume_row p.device_id now)
          s.pairing_codes (λ a. refl)
        ∙ h.known);
    spent = rw e (spent-consume code p.code p.device_id now s.pairing_codes h.spent);
  }

  consume-IsSpent :
      (code : String) (p : PairRequest) (now : ℕ) (s : Store)
      → IsSpent code s
      → IsSpent code (consume_apply hash p now s).1
  unfolding consume_apply
  consume-IsSpent code p now s h =
      elim (Bool-cases (rowcount (unconsumed p.code) s.pairing_codes == 0)) [
        | inl e ↦ rw e h
        | inr e ↦ elim (Bool-cases (is_taken hash p s)) [
          | inl k ↦ rw (e, k) (consumed_rows code p now s h refl)
          | inr k ↦ rw (e, k) (consumed_rows code p now s h refl)
        ]
      ]

  step-IsSpent :
      (code : String) (o : Op) (s : Store) → IsSpent code s → IsSpent code (step hash o s)
  unfolding step touch_last_seen revoke_device set_device_push_endpoint clear_device_push_endpoint
  step-IsSpent code (issue_op codes note now) s h = issue-IsSpent code codes note now s h
  step-IsSpent code (consume_op p now) s h = consume-IsSpent code p now s h
  step-IsSpent code (touch_op id now) s h = record { known = h.known; spent = h.spent }
  step-IsSpent code (revoke_op id now) s h = ground arith
  step-IsSpent code (set_push_op id transport endpoint) s h = ground arith
  step-IsSpent code (clear_push_op id) s h = record { known = h.known; spent = h.spent }

  run-IsSpent :
      (code : String) (os : List Op) (s : Store) → IsSpent code s → IsSpent code (run hash os s)
  unfolding run
  run-IsSpent code [] s h = h
  run-IsSpent code (o ∷ os) s h = run-IsSpent code os (step hash o s) (step-IsSpent code o s h)

  -- A row that the UPDATE would change is a row of the code.
  known_of_rowcount :
      (code : String) (xs : List PairingCode)
      → (rowcount (unconsumed code) xs == 0) ≡ false
      → is_some (first (is_code code) xs) ≡ true
  known_of_rowcount code [] h = cc
  known_of_rowcount code (x ∷ xs) h = ground (arith, known_of_rowcount code xs)

  consumed-IsSpent :
      (p : PairRequest) (now : ℕ) (s : Store) {i : Issued}
      → (consume_apply hash p now s).0 ≡ ok i
      → IsSpent p.code (consume_apply hash p now s).1
  unfolding consume_apply
  consumed-IsSpent p now s h =
      elim (Bool-cases (rowcount (unconsumed p.code) s.pairing_codes == 0)) [
        | inl e ↦ absurd (ground arith)
        | inr e ↦ elim (Bool-cases (is_taken hash p s)) [
          | inl k ↦ absurd (ground arith)
          | inr k ↦
              rw (e, k)
                (record {
                  known =
                      known-update (is_code p.code) (unconsumed p.code)
                        (consume_row p.device_id now) s.pairing_codes (λ a. refl)
                      ∙ known_of_rowcount p.code s.pairing_codes e;
                  spent =
                      rowcount-update_off (unconsumed p.code) _ s.pairing_codes
                        (λ a k. ground arith);
                })
        ]
      ]

  spent_refuses :
      (p : PairRequest) (now : ℕ) (s : Store)
      → IsSpent p.code s
      → consume_apply hash p now s ≡ (raised "pairing code already consumed", s)
  unfolding consume_apply
  spent_refuses p now s h = rw h.spent refl

  -- Of all the calls that present one pairing code, also of those that passed their checks before
  -- the code was consumed, one succeeds: after it, through any sequence of other steps (further
  -- codes issued and consumed, devices touched, revoked, given endpoints), the second step of every
  -- call with the code is refused and changes nothing.
  pub code_used_once :
      (p q : PairRequest) (now later : ℕ) (s : Store) (i : Issued) (between : List Op)
      → (consume_apply hash p now s).0 ≡ ok i
      → q.code ≡ p.code
      → let s' = run hash between (consume_apply hash p now s).1 in
        consume_apply hash q later s' ≡ (raised "pairing code already consumed", s')
  code_used_once p q now later s i between h same = spent_refuses q later _ (
      subst (λ c. IsSpent c (run hash between (consume_apply hash p now s).1)) (sym same)
        (run-IsSpent p.code between _ (consumed-IsSpent p now s h)))

  -- The whole call pairs a device only for a code that was issued, is unconsumed and has not
  -- expired; otherwise it raises, and the devices are as before.
  consume_sound :
      (p : PairRequest) (now : ℕ) (s : Store)
      → let (result, s') = consume_pairing_code hash p now s in
        ((result ≡ ok (issued hash p now))
          × (r : PairingCode) × (first (is_code p.code) s.pairing_codes ≡ some r)
          × (r.consumed_at ≡ none)
          × (now < r.expires_at))
        ⊎ ((e : String) × (result ≡ raised e) × (s'.device_tokens ≡ s.device_tokens))
  unfolding consume_pairing_code consume_check consume_apply
  consume_sound p now s = elim (Option-cases (first (is_code p.code) s.pairing_codes)) [
    | inl e ↦ inr ("unknown pairing code", ground arith, ground arith)
    | inr (r, e) ↦ elim (Option-cases r.consumed_at) [
      | inr (t, k) ↦ inr ("pairing code already consumed", ground arith, ground arith)
      | inl k ↦ elim (Bool-cases (leb r.expires_at now)) [
        | inl late ↦ inr ("pairing code expired", ground arith, ground arith)
        | inr fresh ↦ elim (Bool-cases (rowcount (unconsumed p.code) s.pairing_codes == 0)) [
          | inl gone ↦ inr ("pairing code already consumed", ground arith, ground arith)
          | inr there ↦ elim (Bool-cases (is_taken hash p s)) [
            | inl dup ↦ inr ("UNIQUE constraint failed", ground arith, ground arith)
            | inr new ↦ inl (ground arith, r, e, k, ground arith)
          ]
        ]
      ]
    ]
  ]

  rowcount_of_first :
      (code : String) (xs : List PairingCode) (r : PairingCode)
      → first (is_code code) xs ≡ some r
      → r.consumed_at ≡ none
      → (rowcount (unconsumed code) xs == 0) ≡ false
  rowcount_of_first code [] r h k = cc
  rowcount_of_first code (x ∷ xs) r h k = ground (arith, rowcount_of_first code xs r)

  -- A code that is in the table, unconsumed and unexpired, pairs, for an id and a hash that are not taken: the caller gets the token drawn
  -- for it, and a device row with the token's hash, not revoked, is added.
  consume_live :
      (p : PairRequest) (now : ℕ) (s : Store) (r : PairingCode)
      → first (is_code p.code) s.pairing_codes ≡ some r
      → r.consumed_at ≡ none
      → now < r.expires_at
      → is_taken hash p s ≡ false
      → let (result, s') = consume_pairing_code hash p now s in
        (result ≡ ok (issued hash p now))
        × (s'.device_tokens ≡ s.device_tokens ++ new_token hash p now ∷ [])
  unfolding consume_pairing_code consume_check consume_apply
  consume_live p now s r found k fresh new =
      let there = rowcount_of_first p.code s.pairing_codes r found k in (ground arith, ground arith)

  first-append_some :
      (token : String) (xs : List DeviceToken) (d : DeviceToken)
      → first (has_token hash token) xs ≡ none
      → has_token hash token d ≡ true
      → first (has_token hash token) (xs ++ d ∷ []) ≡ some d
  first-append_some token [] d h e = ground arith
  first-append_some token (x ∷ xs) d h e = ground (arith, first-append_some token xs d)

  -- The token that pairing hands out authenticates the device: right after a pairing by a code
  -- that was issued, unconsumed and not expired, if the token is not empty and no row had its
  -- hash or the drawn device id before, looking the token up finds the new row of that device.
  pub paired_token_authenticates :
      (p : PairRequest) (now : ℕ) (s : Store) (r : PairingCode)
      → first (is_code p.code) s.pairing_codes ≡ some r
      → r.consumed_at ≡ none
      → now < r.expires_at
      → is_empty p.token ≡ false
      → first (has_token hash p.token) s.device_tokens ≡ none
      → first (is_device p.device_id) s.device_tokens ≡ none
      → lookup_device_by_token hash p.token (consume_pairing_code hash p now s).1
        ≡ some (new_token hash p now)
  unfolding lookup_device_by_token
  paired_token_authenticates p now s r found k fresh nonempty new other =
      rw (nonempty, (consume_live p now s r found k fresh (rw (other, new) refl)).1)
        (rw
          (first-append_some p.token s.device_tokens (new_token hash p now) new
            ((eq_iff (hash p.token) (hash p.token)).1 refl))
          refl)
