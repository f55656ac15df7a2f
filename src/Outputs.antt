-- ===== src/Outputs.antt =====
-- The output system: an event is recorded, routed to channels and delivered (the models of
-- src/lifeman/outputs/models.py). The router's rules are in `Outputs.Rules`, the channels and their
-- registry in `Outputs.Channels`, the routing decision in `Outputs.Router`, the delivery state
-- machine in `Outputs.Deliveries`.
pub mod Channels
pub mod Deliveries
pub mod Dispatch
pub mod Emission
pub mod Examples
pub mod Emit
pub mod Matching
pub mod Router
pub mod Rules
use life_man.Base.{Bool, List, Option, String, ℕ}
use life_man.Json.{Fields, Value}

pub record Action : Type 0 where
  pub label : String
  pub invoke_tool : String
  pub invoke_args : Fields
  pub confirmation_required : Bool

pub record OutputEvent : Type 0 where
  pub output_id : String
  pub source_tool : String
  pub emitted_at : ℕ
  pub content : Value
  pub category : String
  pub urgency : String
  pub expires_at : Option String
  pub sensitivity : String
  pub context : Fields
  pub actions : List Action
  pub reason : String

pub data InterruptionLevel : Type 0 where
  background foreground demanding : InterruptionLevel

pub record ChannelCapabilities : Type 0 where
  pub rich_content : Bool
  pub images : Bool
  pub actions : Bool
  pub persistence : Bool
  pub interruption_level : InterruptionLevel
  pub typical_latency_ms : ℕ

-- A rate limit of 0 is none.
pub record ChannelManifest : Type 0 where
  pub name : String
  pub channel_type : String
  pub capabilities : ChannelCapabilities
  pub rate_limit_per_minute : ℕ
  pub rate_limit_per_hour : ℕ
  pub sensitivity_tolerance : String

pub record DeliveryResult : Type 0 where
  pub delivered : Bool
  pub delivery_id : Option String
  pub failure_reason : Option String
  pub delivered_at : Option ℕ

pub record RuleMatch : Type 0 where
  pub category : Option String
  pub urgency : Option String
  pub state : Option String
  pub urgency_below : Option String
  pub source_tool : Option String

-- The value of `channels`.
pub data ChannelList : Type 0 where
  all_available : ChannelList
  listed : List String → ChannelList

pub record RuleAction : Type 0 where
  pub channels : ChannelList
  pub except_urgency : List String
  pub defer_to_digest : Bool
  pub is_override : Bool

pub record RoutingRule : Type 0 where
  pub position : ℕ
  pub match : RuleMatch
  pub action : RuleAction
  pub description : String

-- The sentences that `notes` strings together with "; ".
pub data Note : Type 0 where
  expired_before_routing defaulted_to_digest fell_back_to_web_toast fell_back_to_digest : Note
  llm_picked : List String → Note
  deferred_by replaced_by : ℕ → Note

pub record RoutingDecision : Type 0 where
  pub output_id : String
  pub matched_rules : List ℕ
  pub candidate_channels : List String
  pub filtered : List (String × String)
  pub dispatched : List String
  pub expired : Bool
  pub notes : List Note

-- The status of a row of `output_deliveries`; `unset` is the NULL of rows that predate the column.
pub data Status : Type 0 where
  unset in_flight delivered failed cancel_pending cancelled : Status

-- Where the coroutine of `emit_output` that inserted the row stands: it waits for the channel, it
-- has found the row claimed and is about to recall the event, or it is done with the row.
pub data Phase : Type 0 where
  calling : Phase
  recalling : Option String → Phase
  finished : Phase

-- A row of `output_deliveries`, with the phase of its coroutine and the number of calls of
-- `channel.cancel` that were made for it.
pub record Delivery : Type 0 where
  pub id : ℕ
  pub output_id : String
  pub channel : String
  pub delivered : Bool
  pub delivery_id : Option String
  pub failure_reason : Option String
  pub status : Status
  pub delivered_at : ℕ
  pub cancelled_at : Option ℕ
  pub phase : Phase
  pub recalls : ℕ
