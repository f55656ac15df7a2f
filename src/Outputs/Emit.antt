-- ===== src/Outputs/Emit.antt =====
-- `emit_output` from the call to the answer (src/lifeman/outputs/api.py), where no `cancel_output`
-- steps in. The routing decision is an argument: it is the built-in router's (`Outputs.Router`) or an
-- installed router tool's.
use life_man.Base.{
  Bool, List, Option, String, [], false, if◌then◌else◌, is_empty, join, nat_eq, none, rowcount,
  some, string_eq, take_chars, true, update, ℕ, ◌&&◌, ◌++◌, ◌<>◌, ◌==◌, ◌∷◌,
}
use life_man.Json.{Fields, Items, Value, arr, cons, end, field, get, nil, obj, str}
use life_man.Audit.{Effects, emit, log}
use life_man.Outputs.{Delivery, DeliveryResult, OutputEvent, RoutingDecision}
use life_man.Outputs.Deliveries.{
  answer, begin, cancel_deliveries, in_flight_at, next_id, recall_late,
}

-- A row of `output_events`.
pub record EventRow : Type 0 where
  pub event : OutputEvent
  pub cancelled_at : Option ℕ

-- The tables `output_events`, `output_routing_audit` and `output_deliveries`.
pub record Tables : Type 0 where
  pub output_events : List EventRow
  pub output_routing_audit : List RoutingDecision
  pub output_deliveries : List Delivery

pub record EmitOutputResponse : Type 0 where
  pub output_id : String
  pub dispatched : List String
  pub dropped : List String
  pub expired : Bool

-- One round of the loop over `decision.dispatched`: the table, and whether the channel took the
-- event. The channel's answer is `none` where `resolve_channel` finds none; a `deliver` that raises
-- answers with a failed result.
unfoldable pub deliver_one :
    String → ℕ → Option DeliveryResult → String → List Delivery → List Delivery × Bool
deliver_one out now none channel rows = (rows, false)
deliver_one out now (some result) channel rows =
    let id = next_id rows in
    let started = begin out channel now rows in
    let answered = answer id result now started in
    if (rowcount (in_flight_at id) started == 0) && result.delivered
    then (recall_late id result.delivery_id now answered, false)
    else (answered, result.delivered)

abbrev pub note_channel :
    String
    → Bool
    → List Delivery × List String × List String
    → List Delivery × List String × List String
note_channel channel took (rows, ok, dropped) =
    if took then (rows, channel ∷ ok, dropped) else (rows, ok, channel ∷ dropped)

-- The loop; it answers `dispatched_ok` and `dropped`.
unfoldable pub deliver_all :
    String
    → ℕ
    → (String → Option DeliveryResult)
    → List String
    → List Delivery
    → List Delivery × List String × List String
deliver_all out now replies [] rows = (rows, [], [])
deliver_all out now replies (c ∷ cs) rows =
    let one = deliver_one out now (replies c) c rows in
    note_channel c one.1 (deliver_all out now replies cs one.0)

abbrev short_body : Fields → String
short_body fields = elim (get "body" fields) [ some (str body) ↦ take_chars 80 body | _ ↦ "" ]

-- `content` is a text or a `StructuredContent`.
abbrev short : Value → String
short (obj fields) = elim (get "title" fields) [
  | some (str title) ↦ if is_empty title then short_body fields else title
  | _ ↦ short_body fields
]
short (str text) = take_chars 120 text
short _ = ""

abbrev texts : List String → Items
texts [] = nil
texts (n ∷ ns) = cons (str n) (texts ns)

abbrev emitted_event : OutputEvent → List String → Value
emitted_event event ok = obj (
    field "output_id" (str event.output_id) (
      field "category" (str event.category)
        (field "urgency" (str event.urgency) (field "dispatched" (arr (texts ok)) end))))

unfoldable pub emit_output :
    RoutingDecision
    → ℕ
    → (String → Option DeliveryResult)
    → OutputEvent
    → Tables
    → Effects
    → Tables × EmitOutputResponse × Effects
emit_output decision now replies event t fx =
    let recorded = record t {
      output_events = t.output_events ++ record { event = event; cancelled_at = none } ∷ [];
      output_routing_audit = t.output_routing_audit ++ decision ∷ [];
    } in
    let source = if is_empty event.source_tool then "system" else event.source_tool in
    let (rows, ok, dropped) =
      deliver_all event.output_id now replies decision.dispatched t.output_deliveries in
    if decision.expired
    then (
      recorded,
      record { output_id = event.output_id; dispatched = []; dropped = []; expired = true },
      log source "emit_output_expired" event.output_id (short event.content) "" event.reason now fx,
    )
    else (
      record recorded { output_deliveries = rows },
      record { output_id = event.output_id; dispatched = ok; dropped = dropped; expired = false },
      emit "output.emitted" (emitted_event event ok) none now (
          log source "emit_output" event.output_id
            (event.category
              <> "/"
              <> event.urgency
              <> " → "
              <> (if is_empty (join "," ok) then "none" else join "," ok))
            "" event.reason now fx),
    )

abbrev mark_cancelled : ℕ → EventRow → EventRow
mark_cancelled now r = record r { cancelled_at = some now }

-- `cancel_output`; it answers the channels that confirmed the recall.
unfoldable pub cancel_output :
    String
    → String
    → String
    → ℕ
    → (String → Option Bool)
    → Tables
    → Effects
    → Tables × List String × Effects
cancel_output output_id reason source_tool now replies t fx =
    let (rows, channels) = cancel_deliveries output_id now replies t.output_deliveries in
    (
      record t {
        output_events =
            update (λ (r : EventRow). r.event.output_id == output_id) (mark_cancelled now)
              t.output_events;
        output_deliveries = rows;
      },
      channels,
      log (if is_empty source_tool then "system" else source_tool) "cancel_output" output_id
          (join "," channels) "" reason now fx,
    )

-- The channel answered that it delivered.
abbrev pub took : (String → Option DeliveryResult) → String → Bool
took replies c = elim (replies c) [ none ↦ false | some result ↦ result.delivered ]
