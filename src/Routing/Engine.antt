-- ===== src/Routing/Engine.antt =====
-- The pipeline of src/lifeman/routing/engine.py. `persist_audit` and `record_dispatch` write to the
-- domain's two tables.
use life_man.Base.{List, Option, String, [], false, if◌then◌else◌, is_none, none, some, ◌++◌, ◌∷◌}
use life_man.Json.{Fields, Value, get, str, truthy}
use life_man.Routing.{DispatchRow, Handlers, RoutedEvent, RoutingDecision}

pub record Tables (S : Type 0) : Type 0 where
  pub audit_table : List RoutingDecision
  pub dispatch_table : List DispatchRow
  pub state : S

-- `a.get(j) or a.get(k)`
abbrev either_of : String → String → Fields → Option Value
either_of j k fs = elim (get j fs) [
  | none ↦ get k fs
  | some v ↦ if truthy v then some v else get k fs
]

-- The row of a call that answered or raised; the text of an exception is `error`.
abbrev pub result_row : RoutedEvent → String → Value → Option Fields → DispatchRow
result_row event name error none = record {
  event_id = event.event_id;
  handler = name;
  ok = false;
  external_id = none;
  failure_reason = some error;
}
result_row event name error (some result) = record {
  event_id = event.event_id;
  handler = name;
  ok = is_none (get "error" result);
  external_id = either_of "delivery_id" "id" result;
  failure_reason = either_of "error" "failure_reason" result;
}

abbrev pub missing_row : RoutedEvent → String → DispatchRow
missing_row event name = record {
  event_id = event.event_id;
  handler = name;
  ok = false;
  external_id = none;
  failure_reason = some (str "handler not installed");
}

abbrev pub note_row : DispatchRow → List String × List String → List String × List String
note_row row (ok, dropped) =
    if row.ok then (row.handler ∷ ok, dropped) else (ok, row.handler ∷ dropped)

module _ {S : Type 0} (h : Handlers S) (error : Value) where
  -- One round of the loop of `dispatch_all`: the row it records.
  unfoldable pub dispatch_one : String → RoutedEvent → String → S → DispatchRow × S
  dispatch_one method event name s =
      if h.resolves name
      then (
        result_row event name error (h.invoke name method event s).0,
        (h.invoke name method event s).1,
      )
      else (missing_row event name, s)

  unfoldable pub dispatch_all :
      String → RoutedEvent → List String → Tables S → (List String × List String) × Tables S
  dispatch_all method event [] t = (([], []), t)
  dispatch_all method event (name ∷ rest) t =
      let (row, s) = dispatch_one method event name t.state in
      let (answered, t') =
        dispatch_all method event rest
          (record t { dispatch_table = t.dispatch_table ++ row ∷ []; state = s }) in
      (note_row row answered, t')

  -- `run_event`, for a decision that was taken by `decide`; `transform` is `transform_for_dispatch`,
  -- the identity where there is none.
  unfoldable pub run_event :
      String
      → (RoutedEvent → RoutingDecision → RoutedEvent)
      → RoutedEvent
      → RoutingDecision
      → Tables S
      → (List String × List String) × Tables S
  run_event method transform event decision t =
      let audited = record t { audit_table = t.audit_table ++ decision ∷ [] } in
      let done = dispatch_all method (transform event decision) decision.dispatched audited in
      if decision.expired then (([], []), audited) else done
