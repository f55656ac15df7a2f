-- ===== src/Routing/Examples.antt =====
-- A message from a watch on a server that has the handlers `llm` and `discard`, and a tool.
use life_man.Base.{
  Option, String, [], false, if◌then◌else◌, nat_eq, none, refl, some, string_eq, suc, true, ℕ, ◌<>◌,
  ◌==◌, ◌∷◌, ◌≡◌,
}
use life_man.Json.{Fields, bool, end, field}
use life_man.Routing.{HandlerManifest, Handlers, RoutedEvent, RoutingDecision, handler_names}
use life_man.Routing.Engine.{Tables}
use life_man.Routing.Routers.{route_input, route_memory, route_observation}
use life_man.Outputs.Router.{is_expired}
use life_man.Routing.Installed.{WellRouted, builtin_routes_installed}
use life_man.Routing.Wiring.{create_engine, list_handlers}

abbrev handler : String → HandlerManifest
handler name = record { name = name; handler_type = "noop"; sensitivity_tolerance = "private" }

-- Every call counts; the tool `flaky` raises.
abbrev counting : String → String → RoutedEvent → ℕ → Option Fields × ℕ
counting name method event n =
    (if name == "flaky" then none else some (field "ok" (bool true) end), suc n)

abbrev domain : Handlers ℕ
domain =
    create_engine (handler "llm" ∷ handler "discard" ∷ []) (handler "flaky" ∷ handler "llm" ∷ [])
      counting

abbrev message : RoutedEvent
message = record { event_id = "e1"; expires_at = none; sensitivity = "personal"; payload = end }

abbrev unparsed : String → Option ℕ
unparsed t = none

abbrev quoted : String → String
quoted s = "'" <> s <> "'"

abbrev three : RoutingDecision
three = record {
  event_id = "e1";
  matched_rules = [];
  candidate_handlers = [];
  filtered = [];
  dispatched = "llm" ∷ "flaky" ∷ "gone" ∷ [];
  expired = false;
  notes = "";
}

abbrev nothing_yet : Tables ℕ
nothing_yet = record { audit_table = []; dispatch_table = []; state = 0 }

abbrev as_it_is : RoutedEvent → RoutingDecision → RoutedEvent
as_it_is event decision = event

listed_once :
    handler_names (list_handlers (handler "llm" ∷ []) (handler "flaky" ∷ handler "llm" ∷ []))
    ≡ "llm" ∷ "flaky" ∷ []
unfolding list_handlers
listed_once = refl

builtin_routes_installed_example :
    WellRouted domain "discard" false
      (route_input unparsed quoted 5 message none "watch" domain.listed)
    × WellRouted domain "memory_store" false (
        route_memory unparsed quoted 5 (λ s. 20) message "a long enough text" none [] domain.listed)
    × WellRouted domain "archive" false
        (route_observation unparsed quoted 5 message "info" domain.listed)
unfolding is_expired
builtin_routes_installed_example =
    builtin_routes_installed domain unparsed quoted 5 (λ s. 20) message none none "watch"
      "a long enough text" "info" []
