-- ===== src/Outputs/Deliveries/Late.antt =====
-- A channel that answers after its delivery has been claimed by `cancel_output`.
use life_man.Base.{
  All, Bool-cases, List, Option, String, [], arith, eq_iff, first, first-update, first_sound, inl,
  inr, refl, rowcount, some, suc, true, update-none, updated, ℕ, ◌∙◌, ◌∷◌, ◌≡◌,
}
use life_man.Outputs.{
  Delivery, DeliveryResult, cancel_pending, cancelled, finished, in_flight, recalling,
}
use life_man.Outputs.Deliveries.{
  answer, claim, has_id, in_flight_at, is_in_flight, of_output, phase_after, recall_late, resolve,
}

-- The row that the coroutine owns belongs to the event.
abbrev pub OwnedBy : String → ℕ → List Delivery → Type 0
OwnedBy out id s = All (λ r. r.id ≡ id → r.output_id ≡ out) s

none_in_flight :
    (out : String) (id : ℕ) (s : List Delivery)
    → OwnedBy out id s
    → rowcount (in_flight_at id) (claim out s) ≡ 0
unfolding claim
none_in_flight out id [] h = refl
none_in_flight out id (x ∷ xs) h =
    let rest = none_in_flight out id xs h.1 in
    elim (Bool-cases (of_output out is_in_flight x)) [
      | inl e ↦ rw e (ground (arith, rest))
      | inr e ↦ rw e (elim (Bool-cases (has_id id x)) [
        | inl k ↦ let own = h.0 (ground arith) in ground (arith, rest, eq_iff x.output_id out)
        | inr k ↦ ground (arith, rest)
      ])
    ]

pub claimed_row :
    (out : String) (id : ℕ) (s : List Delivery) (d : Delivery)
    → first (has_id id) s ≡ some d
    → d.output_id ≡ out
    → d.status ≡ in_flight
    → first (has_id id) (claim out s) ≡ some (record d { status = cancel_pending })
unfolding claim
claimed_row out id s d f o st =
    first-update (has_id id) (of_output out is_in_flight) _ s (λ a. refl) ∙ rw f hit
  where
    hit :
        updated
          (of_output out is_in_flight)
          (λ (r : Delivery). record r { status = cancel_pending })
          (some d)
        ≡ some (record d { status = cancel_pending })
    hit = rw (st, (eq_iff d.output_id out).1 o) refl

pub answered_row :
    (out : String) (id : ℕ) (result : DeliveryResult) (now : ℕ) (s : List Delivery) (d : Delivery)
    → OwnedBy out id s
    → first (has_id id) (claim out s) ≡ some d
    → first (has_id id) (answer id result now (claim out s))
      ≡ some (record d { phase = phase_after true result })
unfolding answer
answered_row out id result now s d own f =
    let zero = none_in_flight out id s own in
    let mine = first_sound (has_id id) (claim out s) f in
    rw zero (
      rw (update-none (in_flight_at id) (resolve result now) (claim out s) zero)
        (first-update (has_id id) (has_id id) _ (claim out s) (λ a. refl) ∙ rw f (rw mine refl)))

recalled_row :
    (id : ℕ) (delivery_id : Option String) (later : ℕ) (s : List Delivery) (d : Delivery)
    → first (has_id id) s ≡ some d
    → first (has_id id) (recall_late id delivery_id later s)
      ≡ some (record d {
        delivered = true;
        delivery_id = delivery_id;
        status = cancelled;
        cancelled_at = some later;
        phase = finished;
        recalls = suc d.recalls;
      })
unfolding recall_late
recalled_row id delivery_id later s d e =
    first-update (has_id id) (has_id id) _ s (λ a. refl)
    ∙ rw e (rw (first_sound (has_id id) s e) refl)

-- A delivery that was in flight when `cancel_output` claimed it, and whose channel then delivers,
-- is recalled with the channel's own delivery id, once, and its row ends as delivered and
-- cancelled; all rows with its id belong to the event.
late_answer_recalled :
    (out : String) (id : ℕ) (result : DeliveryResult) (now later : ℕ) (s : List Delivery)
    (d : Delivery)
    → OwnedBy out id s
    → first (has_id id) s ≡ some d
    → d.output_id ≡ out
    → d.status ≡ in_flight
    → result.delivered ≡ true
    → let answered = answer id result now (claim out s) in
      (first (has_id id) answered
        ≡ some (record d { status = cancel_pending; phase = recalling result.delivery_id }))
      × (first (has_id id) (recall_late id result.delivery_id later answered)
          ≡ some (record d {
            delivered = true;
            delivery_id = result.delivery_id;
            status = cancelled;
            cancelled_at = some later;
            phase = finished;
            recalls = suc d.recalls;
          }))
late_answer_recalled out id result now later s d own f o st ok =
    (after, recalled_row id result.delivery_id later _ _ after)
  where
    after :
        first (has_id id) (answer id result now (claim out s))
        ≡ some (record d { status = cancel_pending; phase = recalling result.delivery_id })
    after = answered_row out id result now s _ own (claimed_row out id s d f o st) ∙ rw ok refl
