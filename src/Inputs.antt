-- ===== src/Inputs.antt =====
-- Input from every surface (src/lifeman/inputs/__init__.py): an event is stored, routed by the engine
-- of `Routing`, and logged. What the engine decides is the argument `decide`, since an installed
-- tool may decide it; the built-in decision is `route_input`. `iso` is the ISO 8601 text of a time.
-- `Inputs.Subscriptions` models the outside sources that the kernel polls or that post to it.
pub mod Subscriptions
pub mod Examples
use life_man.Base.{
  Bool, List, Option, String, [], arith, false, if◌then◌else◌, is_empty, join, none, some, true, ℕ,
  ◌++◌, ◌<>◌, ◌∷◌, ◌≡◌,
}
use life_man.Json.{Fields, Value, end, field, null, obj, str}
use life_man.Audit.{Effects, log}
use life_man.Routing.{HandlerManifest, Handlers, RoutedEvent, RoutingDecision}
use life_man.Routing.Engine.{Tables, run_event}

-- The arguments of `ingest_input`.
pub record Ingest : Type 0 where
  pub surface : String
  pub raw_payload : String
  pub intent_hint : Option String
  pub source : String
  pub sensitivity : String
  pub expires_at : Option String
  pub context : Fields
  pub reason : String

-- A row of `input_events`.
pub record InputRow : Type 0 where
  pub id : String
  pub request : Ingest
  pub emitted_at : ℕ

pub record Inbox (S : Type 0) : Type 0 where
  pub input_events : List InputRow
  pub tables : Tables S
  pub fx : Effects

pub record IngestResponse : Type 0 where
  pub event_id : String
  pub dispatched : List String
  pub dropped : List String
  pub expired : Bool

abbrev pub optional_text : Option String → Value
optional_text none = null
optional_text (some s) = str s

-- `InputEvent(...)`; the payload is what `model_dump` gives of it.
abbrev pub input_event : (ℕ → String) → String → ℕ → Ingest → RoutedEvent
input_event iso event_id now q = record {
  event_id = event_id;
  expires_at = q.expires_at;
  sensitivity = q.sensitivity;
  payload = field "event_id" (str event_id) (
      field "emitted_at" (str (iso now)) (
        field "source" (str q.source) (
          field "sensitivity" (str q.sensitivity) (
            field "expires_at" (optional_text q.expires_at) (
              field "context" (obj q.context) (
                field "reason" (str q.reason) (
                  field "surface" (str q.surface) (
                    field "raw_payload" (str q.raw_payload)
                      (field "intent_hint" (optional_text q.intent_hint) end)))))))));
}

-- `text or default`
abbrev pub text_or : String → String → String
text_or s d = if is_empty s then d else s

module _ {S : Type 0} (h : Handlers S) (error : Value) (iso : ℕ → String)
    (decide : Ingest → RoutedEvent → List HandlerManifest → RoutingDecision) where
  -- The engine with the domain `INPUT_DOMAIN`, which has one method and no transformation.
  unfoldable pub ingest_input : String → ℕ → Ingest → Inbox S → IngestResponse × Inbox S
  ingest_input event_id now q inbox =
      let row : InputRow = record { id = event_id; request = q; emitted_at = now } in
      let event = input_event iso event_id now q in
      let decision = decide q event h.listed in
      let ((ok, dropped), t) = run_event h error "handle" (λ e d. e) event decision inbox.tables in
      let stored = record inbox { input_events = inbox.input_events ++ row ∷ []; tables = t } in
      let source = text_or q.source "system" in
      if decision.expired
      then (
        record { event_id = event_id; dispatched = []; dropped = []; expired = true },
        record stored {
          fx = log source "ingest_input_expired" event_id "" "" q.reason now inbox.fx;
        },
      )
      else (
        record { event_id = event_id; dispatched = ok; dropped = dropped; expired = false },
        record stored {
          fx =
              log source "ingest_input" event_id
                (q.surface <> " → " <> text_or (join "," ok) "none") "" q.reason now inbox.fx;
        },
      )

  -- Whatever is decided of it, an input is stored, after those before it.
  ingest_input_stores :
      (event_id : String) (now : ℕ) (q : Ingest) (inbox : Inbox S)
      → (ingest_input event_id now q inbox).1.input_events
        ≡ inbox.input_events ++ record { id = event_id; request = q; emitted_at = now } ∷ []
  unfolding ingest_input
  ingest_input_stores event_id now q inbox = ground arith
