-- ===== src/Outputs/Deliveries.antt =====
-- The delivery state machine of `emit_output` and `cancel_output` (src/lifeman/outputs/api.py) on
-- the table `output_deliveries`. An `await` of the source ends a step here, so steps of several
-- coroutines can come in any order (`Step`, `Steps`). A channel's answer and the outcome of its
-- `cancel` come with the step.
pub mod Recall
pub mod Escape
pub mod Final
pub mod Late
pub mod Stuck
use life_man.Base.{
  All, Bool, List, Option, String, [], false, get_or, if◌then◌else◌, is_some, ltb, nat_eq, none,
  rowcount, select, some, string_eq, suc, true, update, ℕ, ◌&&◌, ◌++◌, ◌==◌, ◌∷◌, ◌≡◌,
}
use life_man.Outputs.{
  Delivery, DeliveryResult, Phase, Status, calling, cancel_pending, cancelled, delivered, failed,
  finished, in_flight, recalling,
}

abbrev pub is_in_flight : Status → Bool
is_in_flight in_flight = true
is_in_flight _ = false

abbrev pub is_delivered : Status → Bool
is_delivered delivered = true
is_delivered _ = false

abbrev pub has_id : ℕ → Delivery → Bool
has_id id d = d.id == id

abbrev pub in_flight_at : ℕ → Delivery → Bool
in_flight_at id d = has_id id d && is_in_flight d.status

abbrev pub delivered_at_id : ℕ → Delivery → Bool
delivered_at_id id d = has_id id d && is_delivered d.status

abbrev pub of_output : String → (Status → Bool) → Delivery → Bool
of_output out p d = (d.output_id == out) && p d.status

-- AUTOINCREMENT: the ids count up.
abbrev pub next_id : List Delivery → ℕ
next_id [] = 1
next_id (d ∷ ds) = let rest = next_id ds in if ltb d.id rest then rest else suc d.id

abbrev pub new_delivery : ℕ → String → String → ℕ → Delivery
new_delivery id out channel now = record {
  id = id;
  output_id = out;
  channel = channel;
  delivered = false;
  delivery_id = none;
  failure_reason = none;
  status = in_flight;
  delivered_at = now;
  cancelled_at = none;
  phase = calling;
  recalls = 0;
}

-- `emit_output` inserts the row and calls the channel.
unfoldable pub begin : String → String → ℕ → List Delivery → List Delivery
begin out channel now rows = rows ++ new_delivery (next_id rows) out channel now ∷ []

abbrev pub resolve : DeliveryResult → ℕ → Delivery → Delivery
resolve result now d = record d {
  delivered = result.delivered;
  delivery_id = result.delivery_id;
  failure_reason = result.failure_reason;
  status = if result.delivered then delivered else failed;
  delivered_at = get_or result.delivered_at now;
}

-- What the coroutine does after its UPDATE, which changed the row or missed it.
abbrev pub phase_after : Bool → DeliveryResult → Phase
phase_after missed result =
    if missed && result.delivered then recalling result.delivery_id else finished

-- The channel's answer: the row is resolved if it is still in flight.
unfoldable pub answer : ℕ → DeliveryResult → ℕ → List Delivery → List Delivery
answer id result now rows =
    let missed = rowcount (in_flight_at id) rows == 0 in
    update (has_id id) (λ d. record d { phase = phase_after missed result })
      (update (in_flight_at id) (resolve result now) rows)

-- The recall of a delivery that was claimed while the channel was called.
unfoldable pub recall_late : ℕ → Option String → ℕ → List Delivery → List Delivery
recall_late id delivery_id now rows =
    update (has_id id)
      (λ d. record d {
        delivered = true;
        delivery_id = delivery_id;
        status = cancelled;
        cancelled_at = some now;
        phase = finished;
        recalls = suc d.recalls;
      })
      rows

-- `cancel_output` claims the rows in flight.
unfoldable pub claim : String → List Delivery → List Delivery
claim out rows =
    update (of_output out is_in_flight) (λ d. record d { status = cancel_pending }) rows

-- What `cancel` of the row's channel answers: `none` where `resolve_channel` finds no channel, and
-- false also where the call raises.
abbrev pub cancel_row : Option Bool → ℕ → Delivery → Delivery
cancel_row reply now d = record d {
  status = cancelled;
  cancelled_at = some now;
  recalls = if is_some reply then suc d.recalls else d.recalls;
}

-- `cancel_output` cancels a row that it found delivered, unless another call has done so.
unfoldable pub flip : ℕ → Option Bool → ℕ → List Delivery → List Delivery
flip id reply now rows = update (delivered_at_id id) (cancel_row reply now) rows

abbrev pub flips : ℕ → (String → Option Bool) → List Delivery → List Delivery → List Delivery
flips now replies [] rows = rows
flips now replies (r ∷ rs) rows = flips now replies rs (flip r.id (replies r.channel) now rows)

-- The channels that `cancel_output` reports: those of the rows it cancelled that confirmed it.
unfoldable pub confirmed : (String → Option Bool) → List Delivery → List String
confirmed replies [] = []
confirmed replies (r ∷ rs) =
    let rest = confirmed replies rs in
    if get_or (replies r.channel) false then r.channel ∷ rest else rest

-- What `cancel_output` does to the table where no other coroutine steps in, and its answer.
unfoldable pub cancel_deliveries :
    String → ℕ → (String → Option Bool) → List Delivery → List Delivery × List String
cancel_deliveries out now replies rows =
    let claimed = claim out rows in
    let found = select (of_output out is_delivered) claimed in
    (flips now replies found claimed, confirmed replies found)

-- A row whose coroutine waits for the channel, and one whose coroutine is about to recall.
abbrev pub IsCalling : ℕ → Delivery → Type 0
IsCalling id d = d.id ≡ id → d.phase ≡ calling

abbrev pub IsRecalling : ℕ → Option String → Delivery → Type 0
IsRecalling id delivery_id d = d.id ≡ id → d.phase ≡ recalling delivery_id

-- One step of any coroutine; `Starts` says of which events `emit_output` may still begin to deliver.
pub data Step (Starts : String → Type 0) : List Delivery → List Delivery → Type 0 where
  begin_step :
      (out channel : String) (now : ℕ) (s : List Delivery)
      → Starts out
      → Step Starts s (begin out channel now s)
  answer_step :
      (id : ℕ) (result : DeliveryResult) (now : ℕ) (s : List Delivery)
      → All (IsCalling id) s
      → Step Starts s (answer id result now s)
  recall_step :
      (id : ℕ) (delivery_id : Option String) (now : ℕ) (s : List Delivery)
      → All (IsRecalling id delivery_id) s
      → Step Starts s (recall_late id delivery_id now s)
  claim_step : (out : String) (s : List Delivery) → Step Starts s (claim out s)
  flip_step :
      (id : ℕ) (reply : Option Bool) (now : ℕ) (s : List Delivery)
      → Step Starts s (flip id reply now s)

pub data Steps (Starts : String → Type 0) (s : List Delivery) : List Delivery → Type 0 where
  here : Steps Starts s s
  next : {t u : List Delivery} → Steps Starts s t → Step Starts t u → Steps Starts s u
