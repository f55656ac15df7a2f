-- ===== src/Outputs/Deliveries/Escape.antt =====
-- A channel whose turn comes after the event has been cancelled.
use life_man.Base.{
  Bool, Bool-cases, List, Option, String, [], arith, false, first, first-update, first-update_hit,
  get_or, inl, inr, nat_eq, none, refl, rowcount, some, string_eq, true, update, ℕ, ◌++◌, ◌<◌, ◌==◌,
  ◌∙◌, ◌∷◌, ◌≡◌, ◌≤◌,
}
use life_man.Outputs.{Delivery, DeliveryResult, delivered, finished}
use life_man.Outputs.Deliveries.{
  answer, begin, cancel_deliveries, has_id, in_flight_at, new_delivery, next_id, resolve,
}

next_id_step :
    (d : Delivery) (ds : List Delivery)
    → (d.id < next_id (d ∷ ds)) × (next_id ds ≤ next_id (d ∷ ds))
next_id_step d ds = (ground arith, ground arith)

below_next : (n : ℕ) (s : List Delivery) → next_id s ≤ n → first (has_id n) s ≡ none
below_next n [] h = refl
below_next n (d ∷ ds) h =
    let (own, rest) = next_id_step d ds in
    elim (Bool-cases (has_id n d)) [
      | inl e ↦ absurd (ground (arith, own, h))
      | inr e ↦ rw e (below_next n ds (omega (arith, rest, h)))
    ]

first-append_new :
    (p : Delivery → Bool) (s : List Delivery) (d : Delivery)
    → first p s ≡ none
    → p d ≡ true
    → first p (s ++ d ∷ []) ≡ some d
first-append_new p [] d e k = rw k refl
first-append_new p (x ∷ s) d e k = elim (Bool-cases (p x)) [
  | inl m ↦ absurd (ground arith)
  | inr m ↦ rw m (first-append_new p s d (ground arith) k)
]

found_rowcount :
    (q p : Delivery → Bool) (s : List Delivery) (d : Delivery)
    → first q s ≡ some d
    → p d ≡ true
    → (rowcount p s == 0) ≡ false
found_rowcount q p [] d e h = cc
found_rowcount q p (x ∷ s) d e h = elim (Bool-cases (q x)) [
  | inl m ↦ let same : x ≡ d = ground arith in ground (arith, same)
  | inr m ↦ let rest = found_rowcount q p s d (ground arith) h in ground (arith, rest)
]

-- The answer of a channel whose delivery nobody has claimed settles its row.
answered_in_time :
    (id : ℕ) (result : DeliveryResult) (now : ℕ) (s : List Delivery) (d : Delivery)
    → first (has_id id) s ≡ some d
    → in_flight_at id d ≡ true
    → first (has_id id) (answer id result now s)
      ≡ some (record (resolve result now d) { phase = finished })
unfolding answer
answered_in_time id result now s d e flying =
    let settled : first (has_id id) (update (in_flight_at id) (resolve result now) s)
        ≡ some (resolve result now d) =
      first-update (has_id id) (in_flight_at id) (resolve result now) s (λ a. refl)
      ∙ rw e (rw flying refl) in
    rw (found_rowcount (has_id id) (in_flight_at id) s d e flying)
      (first-update_hit (has_id id) (λ x. record x { phase = finished }) _ (λ a. refl) settled)

begun_row :
    (out channel : String) (now : ℕ) (s : List Delivery)
    → first (has_id (next_id s)) (begin out channel now s)
      ≡ some (new_delivery (next_id s) out channel now)
unfolding begin
begun_row out channel now s =
    first-append_new (has_id (next_id s)) s (new_delivery (next_id s) out channel now)
      (below_next (next_id s) s (omega arith)) (ground arith)

-- A channel whose turn in `emit_output` comes after a `cancel_output` of the event has run delivers
-- the event all the same, and the delivery is not recalled.
late_channel_delivers :
    (out channel : String) (now later : ℕ) (replies : String → Option Bool)
    (result : DeliveryResult) (s : List Delivery)
    → result.delivered ≡ true
    → let rows = (cancel_deliveries out now replies s).0 in
      first
        (has_id (next_id rows))
        (answer (next_id rows) result later (begin out channel later rows))
      ≡ some (record (new_delivery (next_id rows) out channel later) {
        delivered = true;
        delivery_id = result.delivery_id;
        failure_reason = result.failure_reason;
        status = delivered;
        delivered_at = get_or result.delivered_at later;
        phase = finished;
      })
late_channel_delivers out channel now later replies result s ok =
    let rows = (cancel_deliveries out now replies s).0 in
    answered_in_time (next_id rows) result later (begin out channel later rows)
      (new_delivery (next_id rows) out channel later) (begun_row out channel later rows)
      (ground arith)
    ∙ rw ok refl
