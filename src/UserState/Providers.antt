-- ===== src/UserState/Providers.antt =====
-- The built-in providers of src/lifeman/user_state.py.
use life_man.Base.{
  Bool, List, Option, String, [], false, get_or, if◌then◌else◌, is_none, leb, ltb, nat_eq, none,
  select, some, string_eq, suc, true, zero, ℕ, ◌&&◌, ◌-◌, ◌/◌, ◌<>◌, ◌==◌, ◌||◌, ◌∷◌,
}
use life_man.Json.{Value, bool, end, field, str, truthy}
use life_man.Sse.{EventBus, has_targeted_subscriber}
use life_man.Devices.{DeviceToken}
use life_man.UserState.{Answer, Registry, register_provider, slice}
use life_man.UserState.Settings.{Setting, get_setting}

-- A row of `input_events`, as far as the providers read it; an `emitted_at` that does not parse is `none`.
pub record InputRow : Type 0 where
  pub emitted_at_text : String
  pub emitted_at : Option ℕ
  pub intent_hint : Option String
  pub expires_at : Option String
  pub source : Option String

-- What the providers read.
pub record Surroundings : Type 0 where
  pub hour : ℕ
  pub weekday : ℕ
  pub now : ℕ
  pub settings : List Setting
  pub input_events : List InputRow
  pub device_tokens : List DeviceToken
  pub bus : EventBus

-- `_classify_period`
unfoldable pub classify_period : ℕ → String
classify_period hour =
    if leb 5 hour && ltb hour 12
    then "morning"
    else if leb 12 hour && ltb hour 18
    then "afternoon"
    else if leb 18 hour && ltb hour 22
    then "evening"
    else "night"

abbrev weekdays : List String
weekdays = "monday" ∷ "tuesday" ∷ "wednesday" ∷ "thursday" ∷ "friday" ∷ "saturday" ∷ "sunday" ∷ []

abbrev nth : List String → ℕ → String
nth [] n = ""
nth (x ∷ xs) zero = x
nth (x ∷ xs) (suc n) = nth xs n

-- What the providers call: the SQLite comparisons of texts, the ISO 8601 text of a time, `int` as a JSON
-- number, and those of the settings.
pub record Library : Type 0 where
  pub dumps : Value → String
  pub loads : String → Option Value
  pub text_less : String → String → Bool
  pub like : String → String → Bool
  pub iso : ℕ → String
  pub number : ℕ → Value

module _ (lib : Library) where
  unfoldable pub time_of_day_provider : Surroundings → Answer
  time_of_day_provider s = slice (
      field "hour" (lib.number s.hour) (
        field "weekday" (str (nth weekdays s.weekday)) (
          field "is_weekend" (bool (leb 5 s.weekday))
            (field "period" (str (classify_period s.hour)) end))))

  unfoldable pub dnd_provider : Surroundings → Answer
  dnd_provider s =
      if truthy (get_setting lib.dumps lib.loads "do_not_disturb" (bool false) s.settings)
      then slice (field "do_not_disturb" (bool true) end)
      else slice end

  -- `ORDER BY … DESC LIMIT 1`, by the text of a column
  abbrev pub latest_by : (InputRow → String) → List InputRow → Option InputRow
  latest_by column [] = none
  latest_by column (r ∷ rows) = elim (latest_by column rows) [
    | none ↦ some r
    | some q ↦ some (if lib.text_less (column r) (column q) then q else r)
  ]

  abbrev pub minutes_between : ℕ → ℕ → ℕ
  minutes_between earlier later = (later - earlier) / 60000000

  abbrev pub activity_of : ℕ → String
  activity_of minutes =
      if ltb minutes 5 then "active" else if ltb minutes 60 then "idle" else "long_idle"

  abbrev pub activity_at : ℕ → String → Option ℕ → Answer
  activity_at now text none = slice (field "activity" (str "no_data") end)
  activity_at now text (some last) = slice (
      field "last_input_at" (str text) (
        field "idle_minutes" (lib.number (minutes_between last now))
          (field "activity" (str (activity_of (minutes_between last now))) end)))

  abbrev pub activity_since : ℕ → Option InputRow → Answer
  activity_since now none = slice (field "activity" (str "no_data") end)
  activity_since now (some r) = activity_at now r.emitted_at_text r.emitted_at

  unfoldable pub activity_provider : Surroundings → Answer
  activity_provider s = activity_since s.now (latest_by (λ r. r.emitted_at_text) s.input_events)

  abbrev pub is_busy_hint : Option String → Bool
  is_busy_hint none = false
  is_busy_hint (some hint) = (hint == "busy") || lib.like hint "busy:%"

  abbrev pub expires_after : ℕ → Option String → Bool
  expires_after now none = false
  expires_after now (some t) = lib.text_less (lib.iso now) t

  abbrev pub busy_until : Option InputRow → Answer
  busy_until none = slice end
  busy_until (some r) = slice (
      field "busy" (bool true) (
        field "busy_until" (str (get_or r.expires_at ""))
          (field "busy_source" (str (get_or r.source "")) end)))

  unfoldable pub busy_provider : Surroundings → Answer
  busy_provider s = busy_until (
      latest_by (λ r. get_or r.expires_at "")
        (select (λ (r : InputRow). is_busy_hint r.intent_hint && expires_after s.now r.expires_at)
          s.input_events))

  abbrev pub any_online : EventBus → List DeviceToken → Bool
  any_online bus [] = false
  any_online bus (d ∷ ds) = has_targeted_subscriber ("device:" <> d.id) bus || any_online bus ds

  unfoldable pub device_status_provider : Surroundings → Answer
  device_status_provider s = slice (
      field "device_online"
        (bool
          (any_online s.bus (select (λ (d : DeviceToken). is_none d.revoked_at) s.device_tokens)))
        end)

  -- `install_builtin_providers`
  unfoldable pub install_builtin_providers : Registry Surroundings → Registry Surroundings
  install_builtin_providers providers = register_provider "device_status" device_status_provider (
      register_provider "busy" busy_provider (
        register_provider "activity" activity_provider (
          register_provider "dnd" dnd_provider
            (register_provider "time_of_day" time_of_day_provider providers))))
