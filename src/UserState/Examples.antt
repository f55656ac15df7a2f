-- ===== src/UserState/Examples.antt =====
-- An afternoon with do-not-disturb on and no device, and a provider that overrides the period.
use life_man.Base.{
  Option, String, [], false, if◌then◌else◌, nat_eq, none, some, string_eq, true, ◌==◌, ◌∷◌, ◌≡◌,
}
use life_man.Json.{Value, bool, end, field, get, num, pos, str, truthy}
use life_man.Json.Merge.{}
use life_man.Sse.{}
use life_man.Devices.{}
use life_man.UserState.{Answer, get_state, register_provider, slice}
use life_man.UserState.Settings.{get_setting}
use life_man.UserState.Providers.{Library, Surroundings, classify_period, install_builtin_providers}
use life_man.UserState.Laws.{builtin_state, get-get_state_register}

abbrev dump : Value → String
dump v = elim v [ bool true ↦ "true" | _ ↦ "null" ]

abbrev load : String → Option Value
load t = if t == "true" then some (bool true) else none

abbrev library : Library
library = record {
  dumps = dump;
  loads = load;
  text_less = λ s t. false;
  like = λ s t. false;
  iso = λ n. "t";
  number = λ n. num (pos n);
}

abbrev afternoon : Surroundings
afternoon = record {
  hour = 15;
  weekday = 5;
  now = 100;
  settings = record { key = "do_not_disturb"; value_json = "true"; updated_at = 1 } ∷ [];
  input_events = [];
  device_tokens = [];
  bus = record { subscribers = []; next_id = 0; replay = []; seq = 0 };
}

abbrev siesta : Surroundings → Answer
siesta s = slice (field "period" (str "siesta") end)

overridden_period :
    get "period" (
      get_state
        (register_provider "siesta" siesta (install_builtin_providers library []))
        afternoon)
    ≡ some (str "siesta")
overridden_period =
    get-get_state_register "siesta" siesta (install_builtin_providers library []) afternoon "period"

builtin_state_example :
    let state = get_state (install_builtin_providers library []) afternoon in
    (get "do_not_disturb" state ≡ (
      if truthy (get_setting dump load "do_not_disturb" (bool false) afternoon.settings)
      then some (bool true)
      else none))
    × (get "device_online" state ≡ some (bool false))
    × (get "period" state ≡ some (str (classify_period 15)))
builtin_state_example = builtin_state library afternoon
