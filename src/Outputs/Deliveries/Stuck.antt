-- ===== src/Outputs/Deliveries/Stuck.antt =====
-- A delivery that is claimed by `cancel_output` and then fails.
use life_man.Base.{
  All, Bool, Bool-cases, List, String, [], arith, false, first, first-All, first-update,
  first_sound, inl, inr, nat_eq, refl, some, string_eq, sym, true, update, ℕ, ◌&&◌, ◌++◌, ◌==◌, ◌∙◌,
  ◌∷◌, ◌≡◌, ◌≢◌,
}
use life_man.Outputs.{
  Delivery, DeliveryResult, Phase, calling, cancel_pending, finished, in_flight, recalling,
}
use life_man.Outputs.Deliveries.{
  Step, Steps, answer, answer_step, begin, begin_step, cancel_row, claim, claim_step,
  delivered_at_id, flip, flip_step, has_id, here, in_flight_at, is_in_flight, next, of_output,
  recall_late, recall_step, resolve,
}
use life_man.Outputs.Deliveries.Late.{OwnedBy, answered_row, claimed_row}

-- The row is claimed, and its coroutine is done with it.
abbrev pub IsStuck : ℕ → List Delivery → Type 0
IsStuck id s =
    (d : Delivery) × (first (has_id id) s ≡ some d)
    × (d.status ≡ cancel_pending)
    × (d.phase ≡ finished)

and_false : (b : Bool) → b && false ≡ false
and_false true = refl
and_false false = refl

IsStuck-update :
    (id : ℕ) (p : Delivery → Bool) (f : Delivery → Delivery) (s : List Delivery)
    → ((d : Delivery) → (f d).id ≡ d.id)
    → ((d : Delivery) → d.id ≡ id → d.status ≡ cancel_pending → d.phase ≡ finished → p d ≡ false)
    → IsStuck id s
    → IsStuck id (update p f s)
IsStuck-update id p f s same off (d, e, st, ph) = (
  d,
  first-update (has_id id) p f s (λ a. rw (same a) refl)
      ∙ rw e (rw (off d (ground (arith, first_sound (has_id id) s e)) st ph) refl),
  st,
  ph,
)

first-append :
    (p : Delivery → Bool) (s t : List Delivery) (d : Delivery)
    → first p s ≡ some d
    → first p (s ++ t) ≡ some d
first-append p [] t d e = cc
first-append p (x ∷ s) t d e = elim (Bool-cases (p x)) [
  | inl k ↦ rw k (let same : some x ≡ some d = rw k at e in same)
  | inr k ↦ rw k (first-append p s t d (ground arith))
]

IsStuck-begin :
    (id : ℕ) (out channel : String) (now : ℕ) (s : List Delivery)
    → IsStuck id s
    → IsStuck id (begin out channel now s)
unfolding begin
IsStuck-begin id out channel now s (d, e, st, ph) = (d, first-append (has_id id) s _ d e, st, ph)

not_waiting :
    (id : ℕ) (p : Phase) (s : List Delivery)
    → (p ≡ finished → ⊥)
    → IsStuck id s
    → All (λ d. d.id ≡ id → d.phase ≡ p) s
    → ⊥
not_waiting id p s n (d, e, st, ph) h = n (
    sym (
      first-All (λ d. d.id ≡ id → d.phase ≡ p) (has_id id) s h e
        (ground (arith, first_sound (has_id id) s e)))
    ∙ ph)

answer-other :
    (id other : ℕ) (result : DeliveryResult) (now : ℕ) (s : List Delivery)
    → other ≢ id
    → IsStuck id s
    → IsStuck id (answer other result now s)
unfolding answer
answer-other id other result now s n h =
    IsStuck-update id (has_id other) _ _ (λ d. refl) (λ d e st ph. ground arith)
      (IsStuck-update id (in_flight_at other) (resolve result now) s (λ d. refl)
        (λ d e st ph. ground arith) h)

module _ (Starts : String → Type 0) where
  Step-IsStuck : (id : ℕ) {s t : List Delivery} → Step Starts s t → IsStuck id s → IsStuck id t
  unfolding claim flip recall_late
  Step-IsStuck id (begin_step out channel now s k) h = IsStuck-begin id out channel now s h
  Step-IsStuck id (answer_step other result now s c) h = elim (Bool-cases (other == id)) [
    | inl e ↦
        let same : other ≡ id = ground arith in
        absurd (not_waiting id calling s (λ k. cc) h (rw same at c))
    | inr e ↦ answer-other id other result now s (λ k. ground arith) h
  ]
  Step-IsStuck id (recall_step other delivery_id now s r) h = elim (Bool-cases (other == id)) [
    | inl e ↦
        let same : other ≡ id = ground arith in
        absurd (not_waiting id (recalling delivery_id) s (λ k. cc) h (rw same at r))
    | inr e ↦ IsStuck-update id (has_id other) _ s (λ d. refl) (λ d k st ph. ground arith) h
  ]
  Step-IsStuck id (claim_step out s) h =
      IsStuck-update id (of_output out is_in_flight) _ s (λ d. refl)
        (λ d k st ph. rw st (and_false (d.output_id == out))) h
  Step-IsStuck id (flip_step other reply now s) h =
      IsStuck-update id (delivered_at_id other) (cancel_row reply now) s (λ d. refl)
        (λ d k st ph. rw st (and_false (has_id other d))) h

  Steps-IsStuck : (id : ℕ) {s t : List Delivery} → Steps Starts s t → IsStuck id s → IsStuck id t
  Steps-IsStuck id here h = h
  Steps-IsStuck id (next before one) h = Step-IsStuck id one (Steps-IsStuck id before h)

  -- A delivery that was in flight when `cancel_output` claimed it, all rows with its id belonging
  -- to the event, and whose channel then fails, stays `cancel_pending` for good, through whatever
  -- steps: its row never becomes failed or cancelled.
  failed_answer-IsStuck :
      (out : String) (id : ℕ) (result : DeliveryResult) (now : ℕ) (s t : List Delivery)
      (d : Delivery)
      → OwnedBy out id s
      → first (has_id id) s ≡ some d
      → d.output_id ≡ out
      → d.status ≡ in_flight
      → result.delivered ≡ false
      → Steps Starts (answer id result now (claim out s)) t
      → IsStuck id t
  failed_answer-IsStuck out id result now s t d own f o st off after = Steps-IsStuck id after (
    _,
    answered_row out id result now s _ own (claimed_row out id s d f o st),
    refl,
    (rw off refl),
  )
