-- ===== src/Inputs/Subscriptions/Webhooks.antt =====
-- The token of a webhook, from its creation to the check of a request.
use life_man.Base.{
  List, Option, String, [], arith, eq_iff, false, first-append, if◌then◌else◌, is_empty, nat_eq,
  none, refl, some, string_eq, true, ℕ, ◌++◌, ◌==◌, ◌↔◌, ◌∷◌, ◌≡◌,
}
use life_man.Json.{Fields}
use life_man.Inputs.Subscriptions.{
  Subscription, create_subscription, done, fetch_row, is_sub, new_row, verify_webhook_secret,
}

module _ (hash repr : String → String) where
  created :
      (sid secret kind name : String) (config : Option Fields) (interval now : ℕ)
      (rows rows' : List Subscription) (row : Subscription) (shown : Option String)
      → create_subscription hash repr sid secret kind name config interval now rows
        ≡ (done (row, shown), rows')
      → (fetch_row sid rows ≡ none)
        × (row ≡ new_row hash sid secret kind name config interval now)
        × (rows' ≡ rows ++ row ∷ [])
        × (shown ≡ (if kind == "webhook" then some secret else none))
  unfolding create_subscription
  created sid secret kind name config interval now rows rows' row shown h = ground arith

  verify_lem :
      (sid token : String) (rows : List Subscription) (r : Subscription) (stored : String)
      → fetch_row sid rows ≡ some r
      → r.enabled ≡ true
      → r.kind ≡ "webhook"
      → r.secret_hash ≡ some stored
      → is_empty stored ≡ false
      → (verify_webhook_secret hash sid token rows ≡ true)
        ↔ ((is_empty token ≡ false) × (hash token ≡ stored))
  unfolding verify_webhook_secret
  verify_lem sid token rows r stored found enabled kind secret nonempty = (
    λ h. ground (arith, eq_iff (hash token) stored, eq_iff r.kind "webhook"),
    λ h. ground (arith, eq_iff (hash token) stored, eq_iff r.kind "webhook"),
  )

  shown_secret :
      (kind secret shown : String)
      → some shown ≡ (if kind == "webhook" then some secret else none)
      → (kind ≡ "webhook") × (shown ≡ secret)
  shown_secret kind secret shown h =
      (ground (arith, eq_iff kind "webhook"), ground (arith, eq_iff kind "webhook"))

  -- A subscription that was created with the secret that its answer shows, a webhook therefore, accepts a
  -- token exactly when it is not empty and has the secret's hash, so the shown secret, where it is not
  -- empty: the hash of a text is never empty.
  pub webhook_secret_verifies :
      (sid secret kind name token shown : String) (config : Option Fields) (interval now : ℕ)
      (rows rows' : List Subscription) (row : Subscription)
      → ((t : String) → is_empty (hash t) ≡ false)
      → create_subscription hash repr sid secret kind name config interval now rows
        ≡ (done (row, some shown), rows')
      → (row.kind ≡ "webhook")
        × ((verify_webhook_secret hash sid token rows' ≡ true)
            ↔ ((is_empty token ≡ false) × (hash token ≡ hash shown)))
  webhook_secret_verifies sid secret kind name token shown config interval now rows rows' row
        never_empty h =
      let (free, same_row, same_rows, answer) =
        created sid secret kind name config interval now rows rows' row (some shown) h in
      let (webhook, same) = shown_secret kind secret shown answer in
      (
        rw same_row webhook,
        rw same_rows (
            verify_lem sid token (rows ++ row ∷ []) row (hash shown)
              (first-append (is_sub sid) rows row free
                (rw same_row (ground (arith, eq_iff sid sid))))
              (rw same_row refl) (rw same_row webhook) (rw (same_row, webhook, same) refl)
              (never_empty shown)),
      )
