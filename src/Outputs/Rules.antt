-- ===== src/Outputs/Rules.antt =====
-- The routing rules: which rule matches an event, and the default rules
-- (src/lifeman/outputs/router.py).
use life_man.Base.{
  Bool, List, Option, String, [], false, get_or, if◌then◌else◌, ltb, nat_eq, none, some, string_eq,
  true, ℕ, ◌&&◌, ◌==◌, ◌∷◌,
}
use life_man.Json.{Fields, get, null, truthy}
use life_man.Outputs.{
  ChannelList, OutputEvent, RoutingRule, RuleAction, RuleMatch, all_available, listed,
}

-- `URGENCY_RANK.get(urgency, default)`
abbrev pub urgency_rank : String → ℕ → ℕ
urgency_rank u default =
    if u == "ambient"
    then 0
    else if u == "soft"
    then 1
    else if u == "persistent"
    then 2
    else if u == "urgent"
    then 3
    else default

-- `m is not None and m != value`, negated
abbrev pub agrees : Option String → String → Bool
agrees none value = true
agrees (some m) value = m == value

abbrev pub ranks_below : Option String → String → Bool
ranks_below none urgency = true
ranks_below (some bound) urgency = ltb (urgency_rank urgency 0) (urgency_rank bound 99)

abbrev pub holds_in : Option String → Fields → Bool
holds_in none state = true
holds_in (some key) state = truthy (get_or (get key state) null)

-- `_match_rule`
unfoldable pub match_rule : RoutingRule → OutputEvent → Fields → Bool
match_rule rule event state =
    agrees rule.match.category event.category
    && agrees rule.match.urgency event.urgency
    && ranks_below rule.match.urgency_below event.urgency
    && holds_in rule.match.state state
    && agrees rule.match.source_tool event.source_tool

abbrev any_event : RuleMatch
any_event = record {
  category = none;
  urgency = none;
  state = none;
  urgency_below = none;
  source_tool = none;
}

abbrev to_channels : ChannelList → RuleAction
to_channels c = record {
  channels = c;
  except_urgency = [];
  defer_to_digest = false;
  is_override = false;
}

abbrev for_category : ℕ → String → List String → String → RoutingRule
for_category position category channels description = record {
  position = position;
  match = record any_event { category = some category };
  action = to_channels (listed channels);
  description = description;
}

-- `DEFAULT_RULES`
unfoldable pub default_rules : List RoutingRule
default_rules =
    record {
      position = 10;
      match = record any_event { urgency = some "urgent" };
      action = to_channels all_available;
      description = "Urgent events fan out to every available channel.";
    }
    ∷ record {
      position = 20;
      match = record any_event { category = some "intervention"; urgency = some "persistent" };
      action = to_channels (listed ("web_persistent" ∷ "web_toast" ∷ []));
      description = "Persistent interventions stay visible and also chime briefly.";
    }
    ∷ for_category 30 "permission_request" ("web_toast" ∷ [])
        "Permission prompts only surface in the trusted web UI."
    ∷ for_category 40 "completion" ("web_toast" ∷ []) "Task completion gets one transient toast."
    ∷ for_category 50 "reminder" ("web_persistent" ∷ []) "Reminders stick until acknowledged."
    ∷ for_category 60 "alert" ("web_toast" ∷ "web_persistent" ∷ []) "Alerts toast and stick."
    ∷ for_category 70 "status" ("digest" ∷ []) "Bare status events go only to the digest."
    ∷ for_category 80 "progress" ("web_toast" ∷ []) "Progress updates surface as transient toasts."
    ∷ for_category 90 "query" ("web_toast" ∷ [])
        "Queries surface in the web UI where actions can be captured."
    ∷ record {
      position = 200;
      match = record any_event { state = some "do_not_disturb" };
      action = record {
        channels = listed ("digest" ∷ []);
        except_urgency = "urgent" ∷ [];
        defer_to_digest = false;
        is_override = true;
      };
      description = "In DND, suppress everything below urgent into the digest.";
    }
    ∷ record {
      position = 210;
      match = record any_event { state = some "asleep"; urgency_below = some "urgent" };
      action = record {
        channels = listed [];
        except_urgency = [];
        defer_to_digest = true;
        is_override = true;
      };
      description = "While asleep, defer non-urgent events for morning digest.";
    }
    ∷ []
