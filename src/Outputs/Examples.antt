-- ===== src/Outputs/Examples.antt =====
-- An event on a server with the built-in channels.
use life_man.Base.{
  All, Bool, List, Option, String, [], eq_iff, false, first, if◌then◌else◌, nat_eq, none, refl,
  select, some, string_eq, true, ℕ, ◌==◌, ◌∷◌, ◌≡◌, ◌≤◌,
}
use life_man.Json.{Fields, bool, end, field, get, str}
use life_man.Outputs.{
  ChannelManifest, Delivery, DeliveryResult, OutputEvent, RoutingDecision, RoutingRule, calling,
  cancel_pending, in_flight, listed,
}
use life_man.Outputs.Channels.{
  can_deliver, capabilities_from_dict, device_channel, digest, get_channel, install, register,
  web_persistent, web_toast,
}
use life_man.Outputs.Rules.{default_rules, match_rule}
use life_man.Outputs.Router.{
  World, apply_overrides, filter_channels, filter_reason, finish_route, is_expired, match_rules,
  rate_limited, route, start_matching,
}
use life_man.Outputs.Matching.{channels_of, decides, match_rules_lem, overrides, positions_of}
use life_man.Outputs.Dispatch.{Dispatched, plan_of, route_dispatches}
use life_man.Outputs.Deliveries.{
  Steps, answer, answer_step, begin, begin_step, cancel_deliveries, claim, claim_step, has_id, here,
  is_delivered, is_in_flight, next, recall_late, recall_step,
}
use life_man.Outputs.Deliveries.Recall.{IsValid, recalled_at_most_once}
use life_man.Outputs.Deliveries.Final.{cancel_output_final}
use life_man.Outputs.Emit.{Tables}

abbrev event : OutputEvent
event = record {
  output_id = "o1";
  source_tool = "weather";
  emitted_at = 10;
  content = str "Rain at noon";
  category = "reminder";
  urgency = "soft";
  expires_at = none;
  sensitivity = "private";
  context = end;
  actions = [];
  reason = "forecast";
}

abbrev never : String → Option ℕ
never t = none

abbrev phone_channel : ChannelManifest
phone_channel = device_channel "d1" end 1000

abbrev world : World
world = record {
  registry = install (phone_channel ∷ []);
  rules = default_rules;
  deliveries = [];
  now = 20;
  llm_enabled = false;
  llm_reply = none;
}

abbrev dnd_state : Fields
dnd_state = field "do_not_disturb" (bool true) end

abbrev to_phone : RoutingRule
to_phone = record {
  position = 5;
  match = record {
    category = some "reminder";
    urgency = none;
    state = none;
    urgency_below = none;
    source_tool = none;
  };
  action = record {
    channels = listed ("device:d1" ∷ "web_persistent" ∷ []);
    except_urgency = [];
    defer_to_digest = false;
    is_override = false;
  };
  description = "Reminders go to the phone.";
}

-- The phone does not tolerate a private event.
phone_filtered : route never (record world { rules = to_phone ∷ [] }) event end ≡ record {
  output_id = "o1";
  matched_rules = 5 ∷ [];
  candidate_channels = "device:d1" ∷ "web_persistent" ∷ [];
  filtered = ("device:d1", "sensitivity exceeds channel tolerance") ∷ [];
  dispatched = "web_persistent" ∷ [];
  expired = false;
  notes = [];
}
unfolding route finish_route filter_channels filter_reason rate_limited match_rules match_rule
    apply_overrides is_expired install register get_channel device_channel capabilities_from_dict
    can_deliver web_toast web_persistent digest get
phone_filtered = refl

match_rules_lem_example :
    let m = match_rules world.registry event dnd_state default_rules start_matching in
    (m.base ≡ channels_of world.registry (first (decides event dnd_state) default_rules))
    × (m.overrides ≡ select (overrides event dnd_state) default_rules)
    × (m.positions ≡ positions_of (select (λ r. match_rule r event dnd_state) default_rules))
match_rules_lem_example = match_rules_lem world.registry event dnd_state default_rules

route_dispatches_example :
    let d = route never world event end in
    (d.candidate_channels ≡ (plan_of world event end).1.0)
    × Dispatched world event d.candidate_channels d.dispatched
route_dispatches_example = route_dispatches never world event end (unfold is_expired in refl)

-- A delivery in flight, as `emit_output` begins it.
abbrev in_flight_row : Delivery
in_flight_row = record {
  id = 1;
  output_id = "o1";
  channel = "web_toast";
  delivered = false;
  delivery_id = none;
  failure_reason = none;
  status = in_flight;
  delivered_at = 10;
  cancelled_at = none;
  phase = calling;
  recalls = 0;
}

abbrev took_it : DeliveryResult
took_it = record {
  delivered = true;
  delivery_id = some "x1";
  failure_reason = none;
  delivered_at = none;
}

abbrev failed_it : DeliveryResult
failed_it = record {
  delivered = false;
  delivery_id = none;
  failure_reason = some "offline";
  delivered_at = none;
}

abbrev AnyOutput : String → Type 0
AnyOutput out = Unit

abbrev confirms : String → Option Bool
confirms channel = some true

-- The event is claimed while the channel is called; then the channel answers, and is asked to recall.
abbrev recalled_rows : List Delivery
recalled_rows = recall_late 1 (some "x1") 40 (answer 1 took_it 30 (claim "o1" (in_flight_row ∷ [])))

race : Steps AnyOutput (in_flight_row ∷ []) recalled_rows
race =
    next
      (next (next here (claim_step "o1" (in_flight_row ∷ []))) (
        answer_step 1 took_it 30 (claim "o1" (in_flight_row ∷ []))
          (unfold claim in ((λ e. refl), tt))))
      (recall_step 1 (some "x1") 40 (answer 1 took_it 30 (claim "o1" (in_flight_row ∷ [])))
        (unfold claim answer in ((λ e. refl), tt)))

recalled_at_most_once_example : All (λ d. IsValid d × (d.recalls ≤ 1)) recalled_rows
recalled_at_most_once_example = recalled_at_most_once AnyOutput race ((refl, refl, refl), tt)

cancel_output_final_example :
    (is_in_flight cancel_pending ≡ false) × (is_delivered cancel_pending ≡ false)
cancel_output_final_example =
    cancel_output_final "o1" 20 confirms (in_flight_row ∷ [])
      (begin "o2" "digest" 30 (cancel_deliveries "o1" 20 confirms (in_flight_row ∷ [])).0)
      (has_id 1) (record in_flight_row { status = cancel_pending })
      (next here (
        begin_step "o2" "digest" 30 _ (λ e. let bad : false ≡ true = (eq_iff "o2" "o1").1 e in cc)))
      (unfold begin cancel_deliveries claim in refl) refl

abbrev no_tables : Tables
no_tables = record { output_events = []; output_routing_audit = []; output_deliveries = [] }

abbrev decision : RoutingDecision
decision = record {
  output_id = "o1";
  matched_rules = [];
  candidate_channels = "web_toast" ∷ "gone" ∷ "digest" ∷ [];
  filtered = [];
  dispatched = "web_toast" ∷ "gone" ∷ "digest" ∷ [];
  expired = false;
  notes = [];
}

abbrev replies : String → Option DeliveryResult
replies c =
    if c == "web_toast" then some took_it else if c == "digest" then some failed_it else none
