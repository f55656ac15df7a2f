-- ===== src/Outputs/Channels.antt =====
-- The channels of the output system and their registry: src/lifeman/routing/registry.py,
-- src/lifeman/outputs/registry.py, and the manifests of src/lifeman/outputs/channels/builtin.py and
-- devices.py. Every registered channel is of a class that inherits `can_deliver`, so a channel is
-- its manifest here.
use life_man.Base.{
  Bool, List, Option, String, [], delete, false, first, get_or, if◌then◌else◌, is_some, ltb, nat_eq,
  none, not, some, string_eq, true, update, ℕ, ◌&&◌, ◌++◌, ◌<>◌, ◌==◌, ◌∷◌,
}
use life_man.Json.{Fields, Value, bool, get, str, truthy}
use life_man.Outputs.{
  Action, ChannelCapabilities, ChannelManifest, InterruptionLevel, OutputEvent, background,
  demanding, foreground,
}

abbrev named : String → ChannelManifest → Bool
named name c = c.name == name

-- `Registry`: a dict from names, in the order of the first registration.
abbrev pub Registry : Type 0
Registry = List ChannelManifest

unfoldable pub register : ChannelManifest → Registry → Registry
register c r =
    if is_some (first (named c.name) r) then update (named c.name) (λ _. c) r else r ++ c ∷ []

unfoldable pub unregister : String → Registry → Registry
unregister name r = delete (named name) r

unfoldable pub get_channel : String → Registry → Option ChannelManifest
get_channel name r = first (named name) r

abbrev pub names : Registry → List String
names [] = []
names (c ∷ r) = c.name ∷ names r

-- `order.get(sensitivity, default)`
abbrev pub sensitivity_level : String → ℕ → ℕ
sensitivity_level s default =
    if s == "public"
    then 0
    else if s == "personal"
    then 1
    else if s == "private"
    then 2
    else default

abbrev has_actions : List Action → Bool
has_actions [] = false
has_actions (a ∷ as') = true

-- `OutputChannel.can_deliver`: the reason when it cannot.
unfoldable pub can_deliver : OutputEvent → ChannelManifest → Option String
can_deliver e c =
    if ltb (sensitivity_level c.sensitivity_tolerance 0) (sensitivity_level e.sensitivity 2)
    then some "sensitivity exceeds channel tolerance"
    else if has_actions e.actions && not c.capabilities.actions
    then some "channel cannot capture actions"
    else none

unfoldable pub web_toast : ChannelManifest
web_toast = record {
  name = "web_toast";
  channel_type = "notification";
  capabilities = record {
    rich_content = true;
    images = false;
    actions = true;
    persistence = false;
    interruption_level = foreground;
    typical_latency_ms = 20;
  };
  rate_limit_per_minute = 0;
  rate_limit_per_hour = 0;
  sensitivity_tolerance = "private";
}

unfoldable pub web_persistent : ChannelManifest
web_persistent = record {
  name = "web_persistent";
  channel_type = "notification";
  capabilities = record {
    rich_content = true;
    images = true;
    actions = true;
    persistence = true;
    interruption_level = foreground;
    typical_latency_ms = 20;
  };
  rate_limit_per_minute = 0;
  rate_limit_per_hour = 0;
  sensitivity_tolerance = "private";
}

unfoldable pub digest : ChannelManifest
digest = record {
  name = "digest";
  channel_type = "digest";
  capabilities = record {
    rich_content = true;
    images = false;
    actions = false;
    persistence = true;
    interruption_level = background;
    typical_latency_ms = 5;
  };
  rate_limit_per_minute = 0;
  rate_limit_per_hour = 0;
  sensitivity_tolerance = "private";
}

-- `install` of the built-in channels
unfoldable pub install : Registry → Registry
unfolding register
install r = register digest (register web_persistent (register web_toast r))

abbrev level_of : Value → InterruptionLevel
level_of (str s) =
    if s == "background" then background else if s == "demanding" then demanding else foreground
level_of _ = foreground

abbrev flag : String → Bool → Fields → Bool
flag key default caps = truthy (get_or (get key caps) (bool default))

-- `_capabilities_from_dict`; `latency` is what `int(caps.get("typical_latency_ms", 1000))` gives
unfoldable pub capabilities_from_dict : Fields → ℕ → ChannelCapabilities
capabilities_from_dict caps latency = record {
  rich_content = flag "rich_content" true caps;
  images = flag "images" false caps;
  actions = flag "actions" true caps;
  persistence = flag "persistence" true caps;
  interruption_level = level_of (get_or (get "interruption_level" caps) (str "foreground"));
  typical_latency_ms = latency;
}

-- `DeviceChannel.__init__`
unfoldable pub device_channel : String → Fields → ℕ → ChannelManifest
unfolding capabilities_from_dict
device_channel id caps latency = record {
  name = "device:" <> id;
  channel_type = "notification";
  capabilities = capabilities_from_dict caps latency;
  rate_limit_per_minute = 0;
  rate_limit_per_hour = 0;
  sensitivity_tolerance = "personal";
}
