-- ===== src/Memory/Producer.antt =====
-- Recording a memory (`record_memory` of src/lifeman/memory/__init__.py) with the built-in router and
-- handlers (src/lifeman/memory/router.py and src/lifeman/memory/handlers.py), over the engine of `Routing`. `iso` is
-- the ISO 8601 text of a time, `text_list` the JSON list of texts, `mem_id` the id that `_store` draws.
use life_man.Base.{
  Bool, List, Option, String, [], elem, false, get_or, if◌then◌else◌, is_empty, join, nat_eq, none,
  not, some, string_eq, true, ℕ, ◌&&◌, ◌++◌, ◌<>◌, ◌==◌, ◌∷◌,
}
use life_man.Json.{
  Fields, Items, Value, arr, bool, cons, end, field, get_default, nil, null, obj, str,
}
use life_man.Audit.{Effects, log}
use life_man.Routing.{HandlerManifest, Handlers, RoutedEvent, RoutingDecision}
use life_man.Routing.Engine.{Tables, run_event}
use life_man.Routing.Wiring.{create_engine}
use life_man.Routing.Routers.{route_memory}
use life_man.Outputs.Router.{}
use life_man.Inputs.{text_or}
use life_man.Memory.{Memory}

-- The arguments of `record_memory`.
pub record Candidate : Type 0 where
  pub content : String
  pub type_hint : Option String
  pub tags : List String
  pub source : String
  pub sensitivity : String
  pub expires_at : Option String
  pub context : Fields
  pub reason : String

-- A row of `memory_events`.
pub record EventRow : Type 0 where
  pub id : String
  pub candidate : Candidate
  pub emitted_at : ℕ

pub record Recorder : Type 0 where
  pub memory_events : List EventRow
  pub tables : Tables (List Memory)
  pub fx : Effects

pub record RecordMemoryResponse : Type 0 where
  pub event_id : String
  pub dispatched : List String
  pub dropped : List String
  pub expired : Bool

abbrev pub nullable : Option String → Value
nullable none = null
nullable (some s) = str s

abbrev pub texts : List String → Items
texts [] = nil
texts (s ∷ ss) = cons (str s) (texts ss)

-- The items that are texts, which all of them are in an event.
abbrev pub texts_in : Items → List String
texts_in nil = []
texts_in (cons (str s) vs) = s ∷ texts_in vs
texts_in (cons v vs) = texts_in vs

-- `event.get(key, default)`, of a text.
abbrev pub text_field : String → String → Fields → String
text_field key default fs = elim (get_default key (str default) fs) [ str s ↦ s | _ ↦ "" ]

-- `event.get(key) or default`, of a text.
abbrev pub filled_field : String → String → Fields → String
filled_field key default fs = let s = text_field key "" fs in if is_empty s then default else s

-- `event.get("tags") or []`
abbrev pub tags_of : Fields → List String
tags_of fs = elim (get_default "tags" null fs) [ arr vs ↦ texts_in vs | _ ↦ [] ]

abbrev pub needs_review_rule : ℕ
needs_review_rule = 20

abbrev pub builtin_manifests : List HandlerManifest
builtin_manifests =
    record { name = "memory_store"; handler_type = "store"; sensitivity_tolerance = "private" }
    ∷ record { name = "discard"; handler_type = "noop"; sensitivity_tolerance = "private" }
    ∷ []

module _ (iso : ℕ → String) where
  -- `MemoryEvent(...)`; the payload is what `model_dump` gives of it.
  abbrev pub memory_event : String → ℕ → Candidate → RoutedEvent
  memory_event event_id now q = record {
    event_id = event_id;
    expires_at = q.expires_at;
    sensitivity = q.sensitivity;
    payload = field "event_id" (str event_id) (
        field "source" (str q.source) (
          field "emitted_at" (str (iso now)) (
            field "expires_at" (nullable q.expires_at) (
              field "sensitivity" (str q.sensitivity) (
                field "context" (obj q.context) (
                  field "reason" (str q.reason) (
                    field "content" (str q.content) (
                      field "type_hint" (nullable q.type_hint)
                        (field "tags" (arr (texts q.tags)) end)))))))));
  }

  -- `_store`: the row that it inserts.
  unfoldable pub stored : String → ℕ → Fields → Memory
  stored mem_id now fs = record {
    id = mem_id;
    content = text_field "content" "" fs;
    type = filled_field "type_hint" "episodic" fs;
    tags = tags_of fs;
    sensitivity = text_field "sensitivity" "personal" fs;
    source = text_field "source" "" fs;
    created_at = iso now;
    classified_by = filled_field "classified_by" "router" fs;
  }

  -- `ev.model_copy(update=…)`, for an event that the router flagged.
  abbrev pub maybe_tag_needs_review :
      String → ℕ → Candidate → RoutedEvent → RoutingDecision → RoutedEvent
  maybe_tag_needs_review event_id now q event decision =
      if elem needs_review_rule decision.matched_rules && not (elem "needs_review" q.tags)
      then memory_event event_id now (record q { tags = q.tags ++ "needs_review" ∷ [] })
      else event

  module _ (h : Handlers (List Memory)) (error : Value)
      (decide : Candidate → RoutedEvent → List HandlerManifest → RoutingDecision) where
    unfoldable pub record_memory :
        String → ℕ → Candidate → Recorder → RecordMemoryResponse × Recorder
    record_memory event_id now q r =
        let row : EventRow = record { id = event_id; candidate = q; emitted_at = now } in
        let event = memory_event event_id now q in
        let decision = decide q event h.listed in
        let ((delivered, dropped), t) =
          run_event h error "store" (maybe_tag_needs_review event_id now q) event decision
            r.tables in
        let recorded = record r { memory_events = r.memory_events ++ row ∷ []; tables = t } in
        if decision.expired
        then (
          record { event_id = event_id; dispatched = []; dropped = []; expired = true },
          recorded,
        )
        else (
          record {
            event_id = event_id;
            dispatched = delivered;
            dropped = dropped;
            expired = false;
          },
          record recorded {
            fx =
                log (text_or q.source "system") "record_memory" event_id
                  (text_or (get_or q.type_hint "") "?"
                    <> " → "
                    <> text_or (join "," delivered) "none")
                  "" q.reason now r.fx;
          },
        )

  -- The calls of the two built-in handlers.
  abbrev pub call_builtin :
      (String → String)
      → String
      → ℕ
      → String
      → String
      → RoutedEvent
      → List Memory
      → Option Fields × List Memory
  call_builtin repr mem_id now name method event ms =
      if not (method == "store")
      then (
        some
            (field "error" (str ("handler " <> repr name <> " has no method " <> repr method)) end),
        ms,
      )
      else if name == "memory_store"
      then (
        some (field "ok" (bool true) (field "delivery_id" (str mem_id) end)),
        ms ++ stored mem_id now event.payload ∷ [],
      )
      else (
        some (
            field "ok" (bool true)
              (field "delivery_id" (get_default "event_id" null event.payload) end)),
        ms,
      )

  abbrev pub builtin_handlers : (String → String) → String → ℕ → Handlers (List Memory)
  builtin_handlers repr mem_id now =
      create_engine builtin_manifests [] (call_builtin repr mem_id now)

  module _ (deadline : String → Option ℕ) (repr : String → String)
      (stripped_length : String → ℕ) where
    -- `record_memory` where no tool is installed.
    abbrev pub record_builtin :
        String → String → Value → ℕ → Candidate → Recorder → RecordMemoryResponse × Recorder
    record_builtin event_id mem_id error now q r =
        record_memory (builtin_handlers repr mem_id now) error
          (λ q event handlers.
            route_memory deadline repr now stripped_length event q.content q.type_hint q.tags
              handlers)
          event_id now q r
