-- ===== src/Outputs/Router.antt =====
-- The built-in router (src/lifeman/outputs/router.py): rules, overrides, filters and the fallback.
-- `deadline` reads the text of an ISO 8601 time; `none` is a text that it cannot read.
use life_man.Base.{
  Bool, List, Option, String, [], elem, false, if◌then◌else◌, is_empty, is_some, leb, ltb, nat_eq,
  none, not, rowcount, some, string_eq, true, ℕ, ◌&&◌, ◌++◌, ◌-◌, ◌==◌, ◌||◌, ◌∷◌,
}
use life_man.Json.{Fields, Items, Value, arr, cons, get, nil, str}
use life_man.Outputs.{
  ChannelList, ChannelManifest, Delivery, Note, OutputEvent, RoutingDecision, RoutingRule, Status,
  all_available, cancelled, defaulted_to_digest, deferred_by, expired_before_routing,
  fell_back_to_digest, fell_back_to_web_toast, listed, llm_picked, replaced_by,
}
use life_man.Outputs.Channels.{Registry, can_deliver, get_channel, names}
use life_man.Outputs.Rules.{match_rule}

-- `is_expired` of src/lifeman/routing/event.py
unfoldable pub is_expired : (String → Option ℕ) → ℕ → Option String → Bool
is_expired deadline now none = false
is_expired deadline now (some t) =
    if is_empty t then false else elim (deadline t) [ none ↦ false | some d ↦ leb d now ]

-- What the loop over the rules has found.
pub record Matches : Type 0 where
  pub positions : List ℕ
  pub base : Option (List String)
  pub overrides : List RoutingRule

abbrev pub listed_names : ChannelList → Registry → List String
listed_names all_available registry = names registry
listed_names (listed cs) registry = cs

-- One round of the loop: the first match that is no override gives the channels.
abbrev pub note_match : Registry → RoutingRule → Matches → Matches
note_match registry rule m =
    let m' = record m { positions = m.positions ++ rule.position ∷ [] } in
    if rule.action.is_override
    then record m' { overrides = m.overrides ++ rule ∷ [] }
    else elim m.base [
      | some cs ↦ m'
      | none ↦ record m' { base = some (listed_names rule.action.channels registry) }
    ]

unfoldable pub match_rules : Registry → OutputEvent → Fields → List RoutingRule → Matches → Matches
match_rules registry event state [] m = m
match_rules registry event state (rule ∷ rules) m =
    match_rules registry event state rules
      (if match_rule rule event state then note_match registry rule m else m)

-- The channels the local LLM picks, from the JSON object in its reply; `none` is any failure.
abbrev texts_in : List String → Items → List String
texts_in available nil = []
texts_in available (cons (str c) xs) =
    let rest = texts_in available xs in if elem c available then c ∷ rest else rest
texts_in available (cons v xs) = texts_in available xs

abbrev or_digest : List String → List String → List String
or_digest available [] = if elem "digest" available then "digest" ∷ [] else []
or_digest available (c ∷ cs) = c ∷ cs

abbrev picked_from : List String → Option Value → Option (List String)
picked_from available (some (arr xs)) = some (or_digest available (texts_in available xs))
picked_from available v = none

abbrev picked_among : List String → Fields → Option (List String)
picked_among [] reply = none
picked_among (c ∷ cs) reply = picked_from (c ∷ cs) (get "channels" reply)

-- `_llm_pick_channels`; `reply` is the object in the LLM's answer, `none` without a usable answer.
unfoldable pub llm_pick_channels : Bool → Option Fields → Registry → Option (List String)
llm_pick_channels enabled reply registry =
    if enabled then elim reply [ none ↦ none | some r ↦ picked_among (names registry) r ] else none

-- The channels and notes so far.
abbrev pub Plan : Type 0
Plan = List String × List Note

unfoldable pub apply_overrides : Registry → String → List RoutingRule → Plan → Plan
apply_overrides registry urgency [] plan = plan
apply_overrides registry urgency (ov ∷ ovs) (base, notes) = apply_overrides registry urgency ovs (
    if elem urgency ov.action.except_urgency
    then (base, notes)
    else if ov.action.defer_to_digest
    then ("digest" ∷ [], notes ++ deferred_by ov.position ∷ [])
    else (listed_names ov.action.channels registry, notes ++ replaced_by ov.position ∷ []))

abbrev is_cancelled : Status → Bool
is_cancelled cancelled = true
is_cancelled _ = false

-- The rows that count against the limits of a channel.
abbrev pub counts_since : String → ℕ → Delivery → Bool
counts_since name cutoff d =
    (d.channel == name) && d.delivered && not (is_cancelled d.status) && ltb cutoff d.delivered_at

abbrev over_limit : ℕ → ℕ → Bool
over_limit limit n = not (limit == 0) && leb limit n

-- `_rate_limited`; a minute and an hour in microseconds
unfoldable pub rate_limited : ChannelManifest → ℕ → List Delivery → Bool
rate_limited c now rows =
    over_limit c.rate_limit_per_minute (rowcount (counts_since c.name (now - 60000000)) rows)
    || over_limit c.rate_limit_per_hour (rowcount (counts_since c.name (now - 3600000000)) rows)

-- Why a candidate is filtered out; `none` when it stays.
unfoldable pub filter_reason : Registry → OutputEvent → ℕ → List Delivery → String → Option String
filter_reason registry event now rows name = elim (get_channel name registry) [
  | none ↦ some "not installed"
  | some c ↦ elim (can_deliver event c) [
    | some reason ↦ some reason
    | none ↦ if rate_limited c now rows then some "rate-limited" else none
  ]
]

abbrev pub keep :
    String
    → Option String
    → List String × List (String × String)
    → List String × List (String × String)
keep c none (final, filtered) = (c ∷ final, filtered)
keep c (some why) (final, filtered) = (final, (c, why) ∷ filtered)

-- The candidates that stay, and the others with the reasons; a name that is listed twice is
-- filtered twice, for the same reason.
unfoldable pub filter_channels :
    (String → Option String) → List String → List String × List (String × String)
filter_channels reason [] = ([], [])
filter_channels reason (c ∷ cs) = keep c (reason c) (filter_channels reason cs)

-- The fallback when no channel is left.
abbrev pub escalate : Registry → String → List String → Plan
escalate registry urgency (c ∷ cs) = (c ∷ cs, [])
escalate registry urgency [] =
    if (urgency == "urgent") && is_some (get_channel "web_toast" registry)
    then ("web_toast" ∷ [], fell_back_to_web_toast ∷ [])
    else if is_some (get_channel "digest" registry)
    then ("digest" ∷ [], fell_back_to_digest ∷ [])
    else ([], [])

-- The channels before the overrides: those of a rule, the LLM's, or the digest.
abbrev pub base_plan : Option (List String) → Option (List String) → Plan
base_plan (some cs) llm = (cs, [])
base_plan none (some cs) = (cs, llm_picked cs ∷ [])
base_plan none none = ("digest" ∷ [], defaulted_to_digest ∷ [])

abbrev pub start_matching : Matches
start_matching = record { positions = []; base = none; overrides = [] }

pub record World : Type 0 where
  pub registry : Registry
  pub rules : List RoutingRule
  pub deliveries : List Delivery
  pub now : ℕ
  pub llm_enabled : Bool
  pub llm_reply : Option Fields

-- The part of `route` behind the rules.
unfoldable pub finish_route : World → OutputEvent → List ℕ → Plan → RoutingDecision
finish_route w event positions (candidates, notes) =
    let (final, filtered) =
      filter_channels (filter_reason w.registry event w.now w.deliveries) candidates in
    let (dispatched, more) = escalate w.registry event.urgency final in
    record {
      output_id = event.output_id;
      matched_rules = positions;
      candidate_channels = candidates;
      filtered = filtered;
      dispatched = dispatched;
      expired = false;
      notes = notes ++ more;
    }

abbrev expired_decision : OutputEvent → RoutingDecision
expired_decision event = record {
  output_id = event.output_id;
  matched_rules = [];
  candidate_channels = [];
  filtered = [];
  dispatched = [];
  expired = true;
  notes = expired_before_routing ∷ [];
}

-- `route`
unfoldable pub route : (String → Option ℕ) → World → OutputEvent → Fields → RoutingDecision
unfolding finish_route
route deadline w event state =
    if is_expired deadline w.now event.expires_at
    then expired_decision event
    else let m = match_rules w.registry event state w.rules start_matching in
      let llm = llm_pick_channels w.llm_enabled w.llm_reply w.registry in
      finish_route w event m.positions
        (apply_overrides w.registry event.urgency m.overrides (base_plan m.base llm))
