-- ===== src/Inputs/Subscriptions/Intervals.antt =====
-- The rate of the polls, and the token of a webhook, over sequences of operations on the table.
use life_man.Base.{
  All, All-append, All-delete, All-select, All-update, Bool, List, Option, String, [], arith,
  eq_iff, false, first, first-All, inl, inr, nat_eq, not, some, string_eq, subst, sym, true, update,
  ℕ, ◌&&◌, ◌*◌, ◌++◌, ◌+◌, ◌==◌, ◌∷◌, ◌≡◌, ◌≢◌, ◌≤◌, ◌⊎◌,
}
use life_man.Json.{Fields}
use life_man.Inputs.{}
use life_man.Inputs.Subscriptions.{
  Changes, Subscription, apply_changes, at, create_subscription, delete_subscription, is_sub,
  min_poll_interval, new_row, shortened, update_subscription,
}
use life_man.Inputs.Subscriptions.Polls.{PollResult, due_subscriptions, is_due, polled, record_poll}

-- The operations on the table, with their arguments.
pub data Op : Type 0 where
  create_op : String → String → String → String → Option Fields → ℕ → ℕ → Op
  update_op : String → Changes → Op
  delete_op : String → Op
  poll_op : String → ℕ → PollResult → Op

module _ (hash repr : String → String) where
  unfoldable pub step : Op → List Subscription → List Subscription
  step (create_op sid secret kind name config interval now) rows =
      (create_subscription hash repr sid secret kind name config interval now rows).1
  step (update_op sid c) rows = (update_subscription sid c rows).1
  step (delete_op sid) rows = (delete_subscription sid rows).1
  step (poll_op sid now r) rows = record_poll sid now r rows

  unfoldable pub run : List Op → List Subscription → List Subscription
  run [] rows = rows
  run (op ∷ ops) rows = run ops (step op rows)

  abbrev pub IsSpaced : Subscription → Type 0
  IsSpaced r = min_poll_interval ≤ r.interval_seconds

  create_rows :
      (sid secret kind name : String) (config : Option Fields) (interval now : ℕ)
      (rows : List Subscription)
      → let rows' =
          (create_subscription hash repr sid secret kind name config interval now rows).1 in
        (rows' ≡ rows)
        ⊎ ((min_poll_interval ≤ interval)
            × (rows' ≡ rows ++ new_row hash sid secret kind name config interval now ∷ []))
  unfolding create_subscription
  create_rows sid secret kind name config interval now rows = ground arith

  create-IsSpaced :
      (sid secret kind name : String) (config : Option Fields) (interval now : ℕ)
      (rows : List Subscription)
      → All IsSpaced rows
      → All IsSpaced (create_subscription hash repr sid secret kind name config interval now rows).1
  create-IsSpaced sid secret kind name config interval now rows h =
      elim (create_rows sid secret kind name config interval now rows) [
        | inl e ↦ subst (All IsSpaced) (sym e) h
        | inr (long, e) ↦ subst (All IsSpaced) (sym e) (All-append IsSpaced rows _ h (long, tt))
      ]

  changed-IsSpaced :
      (c : Changes) (r : Subscription)
      → shortened c.interval_seconds ≡ false
      → IsSpaced r
      → IsSpaced (apply_changes c r)
  changed-IsSpaced c r e h = ground arith

  update_rows :
      (sid : String) (c : Changes) (rows : List Subscription)
      → let rows' = (update_subscription sid c rows).1 in
        (rows' ≡ rows)
        ⊎ ((shortened c.interval_seconds ≡ false)
            × (rows' ≡ update (is_sub sid) (apply_changes c) rows))
  unfolding update_subscription
  update_rows sid c rows = ground arith

  update-IsSpaced :
      (sid : String) (c : Changes) (rows : List Subscription)
      → All IsSpaced rows
      → All IsSpaced (update_subscription sid c rows).1
  update-IsSpaced sid c rows h = elim (update_rows sid c rows) [
    | inl e ↦ subst (All IsSpaced) (sym e) h
    | inr (long, e) ↦ subst (All IsSpaced) (sym e) (
        All-update IsSpaced (is_sub sid) (apply_changes c) rows (λ r _. changed-IsSpaced c r long)
          h)
  ]

  step-IsSpaced :
      (op : Op) (rows : List Subscription) → All IsSpaced rows → All IsSpaced (step op rows)
  unfolding step
  step-IsSpaced (create_op sid secret kind name config interval now) rows h =
      create-IsSpaced sid secret kind name config interval now rows h
  step-IsSpaced (update_op sid c) rows h = update-IsSpaced sid c rows h
  step-IsSpaced (delete_op sid) rows h =
      unfold delete_subscription in All-delete IsSpaced (is_sub sid) rows h
  step-IsSpaced (poll_op sid now r) rows h =
      unfold record_poll in All-update IsSpaced (is_sub sid) (polled now r) rows (λ a e k. k) h

  run-IsSpaced :
      (ops : List Op) (rows : List Subscription) → All IsSpaced rows → All IsSpaced (run ops rows)
  unfolding run
  run-IsSpaced [] rows h = h
  run-IsSpaced (op ∷ ops) rows h = run-IsSpaced ops (step op rows) (step-IsSpaced op rows h)

  -- A row that the poll loop takes up after any sequence of operations on an empty table, and whose
  -- last poll has a time that reads, was last polled thirty seconds ago or more; it is enabled, no
  -- webhook, and its interval is thirty seconds at least.
  pub due-IsSpaced :
      (ops : List Op) (now last : ℕ) (p : Subscription → Bool) (r : Subscription)
      → first p (due_subscriptions now (run ops [])) ≡ some r
      → r.last_polled_at ≡ some (at last)
      → (last + min_poll_interval * 1000000 ≤ now)
        × (r.enabled ≡ true)
        × (r.kind ≢ "webhook")
        × IsSpaced r
  unfolding due_subscriptions
  due-IsSpaced ops now last p r h polled_then =
      let asks : Subscription → Bool = λ q. q.enabled && not (q.kind == "webhook") in
      let (due, (polling, spaced)) =
        first-All (λ q. (is_due now q ≡ true) × ((asks q ≡ true) × IsSpaced q)) p _
          (All-select (λ q. (asks q ≡ true) × IsSpaced q) (is_due now) _
            (All-select IsSpaced asks _ (run-IsSpaced ops [] tt)))
          h in
      (ground arith, ground arith, ground (arith, eq_iff r.kind "webhook"), spaced)
