-- ===== src/Routing/Routers.antt =====
-- The built-in routers of inputs, memory and observations (`builtin_route` of
-- src/lifeman/inputs/router.py, src/lifeman/memory/router.py and src/lifeman/observations/router.py).
-- `deadline` parses a time, `repr` is Python's of a text, and `stripped_length` the length of a text
-- without the spaces at its ends.
use life_man.Base.{
  Bool, List, Option, String, [], elem, false, get_or, if◌then◌else◌, is_empty, ltb, nat_eq, none,
  some, string_eq, true, ℕ, ◌&&◌, ◌<>◌, ◌==◌, ◌||◌, ◌∷◌,
}
use life_man.Routing.{HandlerManifest, RoutedEvent, RoutingDecision, handler_names}
use life_man.Outputs.Router.{is_expired}

-- What a router picks: the handler, the rules it names and its notes.
pub record Pick : Type 0 where
  pub handler : String
  pub rules : List ℕ
  pub notes : String

abbrev pick_of : String → ℕ → String → Pick
pick_of handler rule notes = record { handler = handler; rules = rule ∷ []; notes = notes }

-- `(notes + "; " if notes else "") + f"{pick!r} not installed — fell back to {fallback}"`
abbrev fell_back : (String → String) → Pick → String → String
fell_back repr pick fallback =
    (if is_empty pick.notes then "" else pick.notes <> "; ")
    <> repr pick.handler
    <> " not installed — fell back to "
    <> fallback

-- The end of each router: the pick if it is installed, else the fallback if that is.
abbrev pub settle_pick : (String → String) → String → Pick → String → List String → RoutingDecision
settle_pick repr event_id pick fallback available =
    let decided : RoutingDecision = record {
      event_id = event_id;
      matched_rules = pick.rules;
      candidate_handlers = pick.handler ∷ [];
      filtered = [];
      dispatched = pick.handler ∷ [];
      expired = false;
      notes = pick.notes;
    } in
    let missing = record decided {
      filtered = (pick.handler, "not installed") ∷ [];
      dispatched = [];
    } in
    if elem pick.handler available
    then decided
    else if elem fallback available
    then record missing { dispatched = fallback ∷ []; notes = fell_back repr pick fallback }
    else missing

abbrev pub expired_decision : String → String → RoutingDecision
expired_decision event_id notes = record {
  event_id = event_id;
  matched_rules = [];
  candidate_handlers = [];
  filtered = [];
  dispatched = [];
  expired = true;
  notes = notes;
}

abbrev pick_input : (String → String) → Option String → String → Pick
pick_input repr intent_hint surface =
    if get_or intent_hint "" == "invoke"
    then pick_of "direct_invoke" 10 ""
    else if elem surface ("voice" ∷ "chat" ∷ "watch" ∷ "notification_click" ∷ [])
    then pick_of "llm" 20 ""
    else if surface == "noise"
    then pick_of "discard" 30 ""
    else pick_of "llm" 99 ("unknown surface " <> repr surface <> "; defaulted to llm")

abbrev pub known_hint : Option String → Bool
known_hint none = true
known_hint (some hint) = elem hint ("" ∷ "episodic" ∷ "semantic" ∷ "identity" ∷ "summary" ∷ [])

abbrev pub no_tags : List String → Bool
no_tags [] = true
no_tags (t ∷ ts) = false

abbrev pick_memory :
    (String → String) → (String → ℕ) → String → Option String → List String → String → Pick
pick_memory repr stripped_length content type_hint tags sensitivity =
    if is_empty content || ltb (stripped_length content) 8
    then pick_of "discard" 10 "content too short to be memory-worthy"
    else if (sensitivity == "private") && no_tags tags
    then pick_of "memory_store" 20 "private without tags — flagged needs_review"
    else if known_hint type_hint
    then pick_of "memory_store" 30 ""
    else pick_of "memory_store" 99
        ("unknown type_hint " <> repr (get_or type_hint "") <> "; storing as episodic")

abbrev pick_observation : (String → String) → String → Pick
pick_observation repr level =
    if elem level ("error" ∷ "warn" ∷ [])
    then pick_of "archive" 10 ""
    else if level == "debug"
    then pick_of "discard" 20 ""
    else if level == "info"
    then pick_of "summarize" 30 ""
    else pick_of "archive" 99 ("unknown level " <> repr level <> "; defaulted to archive")

module _ (deadline : String → Option ℕ) (repr : String → String) (now : ℕ) where
  unfoldable pub route_input :
      RoutedEvent → Option String → String → List HandlerManifest → RoutingDecision
  route_input event intent_hint surface handlers =
      if is_expired deadline now event.expires_at
      then expired_decision event.event_id "expired before routing"
      else settle_pick repr event.event_id (pick_input repr intent_hint surface) "discard"
          (handler_names handlers)

  unfoldable pub route_memory :
      (String → ℕ)
      → RoutedEvent
      → String
      → Option String
      → List String
      → List HandlerManifest
      → RoutingDecision
  route_memory stripped_length event content type_hint tags handlers =
      if is_expired deadline now event.expires_at
      then expired_decision event.event_id "expired before classification"
      else settle_pick repr event.event_id
          (pick_memory repr stripped_length content type_hint tags event.sensitivity) "memory_store"
          (handler_names handlers)

  unfoldable pub route_observation : RoutedEvent → String → List HandlerManifest → RoutingDecision
  route_observation event level handlers =
      if is_expired deadline now event.expires_at
      then expired_decision event.event_id "expired before routing"
      else settle_pick repr event.event_id (pick_observation repr level) "archive"
          (handler_names handlers)
