-- ===== src/Outputs/Emission.antt =====
-- What `emit_output` answers and records.
use life_man.Base.{
  Bool, Bool-cases, List, Option, String, [], ap, arith, false, if◌then◌else◌, inl, inr, nat_eq,
  none, not, refl, rowcount, select, some, string_eq, true, ℕ, ◌++◌, ◌<◌, ◌==◌, ◌∙◌, ◌∷◌, ◌≡◌,
}
use life_man.Audit.{Effects}
use life_man.Outputs.{Delivery, DeliveryResult, OutputEvent, RoutingDecision}
use life_man.Outputs.Deliveries.{answer, begin, in_flight_at, next_id}
use life_man.Outputs.Emit.{Tables, deliver_all, deliver_one, emit_output, note_channel, took}

rowcount-append_new :
    (p : Delivery → Bool) (s : List Delivery) (d : Delivery)
    → p d ≡ true
    → 0 < rowcount p (s ++ d ∷ [])
rowcount-append_new p [] d e = rw e (omega arith)
rowcount-append_new p (x ∷ s) d e = ground (arith, rowcount-append_new p s d e)

begun_in_flight :
    (out channel : String) (now : ℕ) (s : List Delivery)
    → 0 < rowcount (in_flight_at (next_id s)) (begin out channel now s)
unfolding begin
begun_in_flight out channel now s =
    rowcount-append_new (in_flight_at (next_id s)) s _ (ground arith)

deliver_one_lem :
    (out : String) (now : ℕ) (reply : Option DeliveryResult) (c : String) (rows : List Delivery)
    → (deliver_one out now reply c rows).1
      ≡ (elim reply [ none ↦ false | some result ↦ result.delivered ])
unfolding deliver_one
deliver_one_lem out now none c rows = refl
deliver_one_lem out now (some result) c rows =
    let id = next_id rows in
    elim (Bool-cases (rowcount (in_flight_at id) (begin out c now rows) == 0)) [
      | inl e ↦ absurd (ground (arith, begun_in_flight out c now rows))
      | inr e ↦ rw e refl
    ]

note_channel_lem :
    (c : String) (b : Bool) (rest : List Delivery × List String × List String)
    → (((note_channel c b rest).1 ≡ (if b then c ∷ rest.1 else rest.1))
        × ((note_channel c b rest).2 ≡ (if b then rest.2 else c ∷ rest.2)))
note_channel_lem c true rest = (refl, refl)
note_channel_lem c false rest = (refl, refl)

deliver_all_lem :
    (out : String) (now : ℕ) (replies : String → Option DeliveryResult) (cs : List String)
    (rows : List Delivery)
    → ((deliver_all out now replies cs rows).1 ≡ select (took replies) cs)
      × ((deliver_all out now replies cs rows).2 ≡ select (λ c. not (took replies c)) cs)
unfolding deliver_all
deliver_all_lem out now replies [] rows = (refl, refl)
deliver_all_lem out now replies (c ∷ cs) rows =
    let one = deliver_one out now (replies c) c rows in
    let (ok, dropped) = deliver_all_lem out now replies cs one.0 in
    let (l, r) = note_channel_lem c one.1 (deliver_all out now replies cs one.0) in
    settle (took replies c) one.1 (deliver_one_lem out now (replies c) c rows) refl l r ok dropped
  where
    settle :
        (b b' : Bool)
        → b' ≡ took replies c
        → took replies c ≡ b
        → (deliver_all out now replies (c ∷ cs) rows).1 ≡ (
            if b'
            then c ∷ (deliver_all out now replies cs (deliver_one out now (replies c) c rows).0).1
            else (deliver_all out now replies cs (deliver_one out now (replies c) c rows).0).1)
        → (deliver_all out now replies (c ∷ cs) rows).2 ≡ (
            if b'
            then (deliver_all out now replies cs (deliver_one out now (replies c) c rows).0).2
            else c ∷ (deliver_all out now replies cs (deliver_one out now (replies c) c rows).0).2)
        → (deliver_all out now replies cs (deliver_one out now (replies c) c rows).0).1
          ≡ select (took replies) cs
        → (deliver_all out now replies cs (deliver_one out now (replies c) c rows).0).2
          ≡ select (λ x. not (took replies x)) cs
        → ((deliver_all out now replies (c ∷ cs) rows).1 ≡ select (took replies) (c ∷ cs))
          × ((deliver_all out now replies (c ∷ cs) rows).2
              ≡ select (λ x. not (took replies x)) (c ∷ cs))
    settle true true e k l r ok dropped = rw k (l ∙ ap (λ (x : List String). c ∷ x) ok, r ∙ dropped)
    settle false false e k l r ok dropped =
        rw k (l ∙ ok, r ∙ ap (λ (x : List String). c ∷ x) dropped)
    settle true false e k l r ok dropped = cc
    settle false true e k l r ok dropped = cc

-- `emit_output` records the event and its routing decision first, whatever follows. An expired event
-- is delivered to nobody; otherwise the answer lists each channel of the decision, in order, as
-- dispatched if the channel took the event and as dropped if it is unknown or failed.
emit_output_answers :
    (decision : RoutingDecision) (now : ℕ) (replies : String → Option DeliveryResult)
    (event : OutputEvent) (t : Tables) (fx : Effects)
    → let (t', answer, _) = emit_output decision now replies event t fx in
      (answer.dispatched
        ≡ (if decision.expired then [] else select (took replies) decision.dispatched))
      × (answer.dropped ≡ (
          if decision.expired then [] else select (λ c. not (took replies c)) decision.dispatched))
      × (t'.output_routing_audit ≡ t.output_routing_audit ++ decision ∷ [])
      × (t'.output_events ≡ t.output_events ++ record { event = event; cancelled_at = none } ∷ [])
unfolding emit_output
emit_output_answers decision now replies event t fx = elim (Bool-cases decision.expired) [
  | inl e ↦ rw e (refl, refl, refl, refl)
  | inr e ↦
      let (ok, dropped) =
        deliver_all_lem event.output_id now replies decision.dispatched t.output_deliveries in
      rw e (ok, dropped, refl, refl)
]
