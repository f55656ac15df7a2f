-- ===== src/Routing.antt =====
-- The routing engine that inputs, memory and observations share (src/lifeman/routing), and the
-- built-in routers of the three domains. `Routing.Engine` holds the pipeline, `Routing.Routers` the
-- decisions. What an engine needs of its handlers is the record `Handlers`, which
-- `Routing.Wiring` fills the way `create_engine` does.
pub mod Dispatch
pub mod Engine
pub mod Examples
pub mod Installed
pub mod Routers
pub mod Wiring
use life_man.Base.{Bool, List, Option, String, [], elem, nat_eq, string_eq, ℕ, ◌∷◌, ◌≡◌}
use life_man.Json.{Fields, Value}

-- The part of a `RoutedEvent` that the engine and the routers read, and the whole as a payload.
pub record RoutedEvent : Type 0 where
  pub event_id : String
  pub expires_at : Option String
  pub sensitivity : String
  pub payload : Fields

pub record HandlerManifest : Type 0 where
  pub name : String
  pub handler_type : String
  pub sensitivity_tolerance : String

pub record RoutingDecision : Type 0 where
  pub event_id : String
  pub matched_rules : List ℕ
  pub candidate_handlers : List String
  pub filtered : List (String × String)
  pub dispatched : List String
  pub expired : Bool
  pub notes : String

-- A row of a domain's dispatch table.
pub record DispatchRow : Type 0 where
  pub event_id : String
  pub handler : String
  pub ok : Bool
  pub external_id : Option Value
  pub failure_reason : Option Value

abbrev pub handler_names : List HandlerManifest → List String
handler_names [] = []
handler_names (h ∷ hs) = h.name ∷ handler_names hs

-- The handlers of a domain, whose calls change a state `S`: those that are listed to a router,
-- those that a name resolves to, and the call of one, which may raise (`none`). What is listed is
-- what resolves.
pub record Handlers (S : Type 0) : Type 0 where
  pub listed : List HandlerManifest
  pub resolves : String → Bool
  pub invoke : String → String → RoutedEvent → S → Option Fields × S
  pub resolves-listed : (name : String) → resolves name ≡ elem name (handler_names listed)
