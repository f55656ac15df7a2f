-- ===== src/UserState/Laws.antt =====
-- What a key of the user's state reads as.
use life_man.Base.{
  Bool-cases, List, Option, String, [], ap, false, if◌then◌else◌, inl, inr, is_none, nat_eq, none,
  refl, select, some, string_eq, sym, true, ℕ, ◌++◌, ◌==◌, ◌∙◌, ◌∷◌, ◌≡◌,
}
use life_man.Json.{Fields, Value, bool, end, get, str, truthy}
use life_man.Json.Merge.{get-merge, last_of, merge}
use life_man.Devices.{DeviceToken}
use life_man.Sse.{}
use life_man.UserState.{
  Answer, Registry, call_all, crashed, get_state, merge_slices, not_dict, register_provider, slice,
}
use life_man.UserState.Settings.{get_setting}
use life_man.UserState.Providers.{
  InputRow, Library, Surroundings, activity_at, activity_provider, activity_since, any_online,
  busy_provider, busy_until, classify_period, device_status_provider, dnd_provider,
  install_builtin_providers, time_of_day_provider,
}

-- The last value that the answers give to a key.
abbrev pub winner : String → List (String × Answer) → Option Value → Option Value
winner k [] found = found
winner k ((name, crashed) ∷ ps) found = winner k ps found
winner k ((name, not_dict) ∷ ps) found = winner k ps found
winner k ((name, slice fs) ∷ ps) found = winner k ps (last_of k fs found)

get-merge_slices :
    (k : String) (merged : Fields) (ps : List (String × Answer))
    → get k (merge_slices merged ps) ≡ winner k ps (get k merged)
unfolding merge_slices
get-merge_slices k merged [] = refl
get-merge_slices k merged ((name, crashed) ∷ ps) = get-merge_slices k merged ps
get-merge_slices k merged ((name, not_dict) ∷ ps) = get-merge_slices k merged ps
get-merge_slices k merged ((name, slice fs) ∷ ps) =
    get-merge_slices k (merge merged fs) ps ∙ ap (winner k ps) (get-merge k merged fs)

winner-append :
    (k : String) (ps qs : List (String × Answer)) (found : Option Value)
    → winner k (ps ++ qs) found ≡ winner k qs (winner k ps found)
winner-append k [] qs found = refl
winner-append k ((name, crashed) ∷ ps) qs found = winner-append k ps qs found
winner-append k ((name, not_dict) ∷ ps) qs found = winner-append k ps qs found
winner-append k ((name, slice fs) ∷ ps) qs found = winner-append k ps qs (last_of k fs found)

-- What the answer of one provider makes of the value of a key.
abbrev pub overridden : String → Answer → Option Value → Option Value
overridden k crashed found = found
overridden k not_dict found = found
overridden k (slice fs) found = last_of k fs found

module _ {S : Type 0} where
  call_all-append :
      (s : S) (ps qs : Registry S) → call_all s (ps ++ qs) ≡ call_all s ps ++ call_all s qs
  call_all-append s [] qs = refl
  call_all-append s ((name, p) ∷ ps) qs =
      ap (λ (l : List (String × Answer)). (name, p s) ∷ l) (call_all-append s ps qs)

  -- A provider that is registered after others has the last word on the keys that it gives, whatever the state
  -- of the program, and no other: every other key reads as without it, and so do all keys when it raises or
  -- returns no dict.
  pub get-get_state_register :
      (name : String) (provider : S → Answer) (providers : Registry S) (s : S) (k : String)
      → get k (get_state (register_provider name provider providers) s)
        ≡ overridden k (provider s) (get k (get_state providers s))
  unfolding get_state register_provider get
  get-get_state_register name provider providers s k =
      get-merge_slices k end (call_all s (providers ++ (name, provider) ∷ []))
      ∙ (ap (λ (l : List (String × Answer)). winner k l none)
            (call_all-append s providers ((name, provider) ∷ []))
          ∙ (winner-append k (call_all s providers) ((name, provider s) ∷ []) none
              ∙ last_step (provider s)))
    where
      last_step :
          (a : Answer)
          → winner k ((name, a) ∷ []) (winner k (call_all s providers) none)
            ≡ overridden k a (get k (merge_slices end (call_all s providers)))
      last_step crashed = sym (get-merge_slices k end (call_all s providers))
      last_step not_dict = sym (get-merge_slices k end (call_all s providers))
      last_step (slice fs) = ap (last_of k fs) (sym (get-merge_slices k end (call_all s providers)))

module _ (lib : Library) (s : Surroundings) where
  activity_at_off :
      (k text : String) (found : Option Value) (last : Option ℕ)
      → "last_input_at" == k ≡ false
      → "idle_minutes" == k ≡ false
      → "activity" == k ≡ false
      → overridden k (activity_at lib s.now text last) found ≡ found
  activity_at_off k text found none a b c = rw c refl
  activity_at_off k text found (some last) a b c = rw (a, b, c) refl

  activity_since_off :
      (k : String) (found : Option Value) (row : Option InputRow)
      → "last_input_at" == k ≡ false
      → "idle_minutes" == k ≡ false
      → "activity" == k ≡ false
      → overridden k (activity_since lib s.now row) found ≡ found
  activity_since_off k found none a b c = rw c refl
  activity_since_off k found (some r) a b c =
      activity_at_off k r.emitted_at_text found r.emitted_at a b c

  busy_off :
      (k : String) (found : Option Value) (row : Option InputRow)
      → "busy" == k ≡ false
      → "busy_until" == k ≡ false
      → "busy_source" == k ≡ false
      → overridden k (busy_until lib row) found ≡ found
  busy_off k found none a b c = refl
  busy_off k found (some r) a b c = rw (a, b, c) refl

  -- Activity and busyness leave a key alone that is not theirs.
  inner_off :
      (k : String) (found : Option Value)
      → "last_input_at" == k ≡ false
      → "idle_minutes" == k ≡ false
      → "activity" == k ≡ false
      → "busy" == k ≡ false
      → "busy_until" == k ≡ false
      → "busy_source" == k ≡ false
      → overridden k (busy_provider lib s) (overridden k (activity_provider lib s) found) ≡ found
  unfolding busy_provider activity_provider
  inner_off k found a b c d e f = busy_off k _ _ d e f ∙ activity_since_off k found _ a b c

  abbrev upto_time : Registry Surroundings
  upto_time = register_provider "time_of_day" (time_of_day_provider lib) []

  abbrev upto_dnd : Registry Surroundings
  upto_dnd = register_provider "dnd" (dnd_provider lib) upto_time

  abbrev upto_activity : Registry Surroundings
  upto_activity = register_provider "activity" (activity_provider lib) upto_dnd

  abbrev upto_busy : Registry Surroundings
  upto_busy = register_provider "busy" (busy_provider lib) upto_activity

  none_yet :
      (k : String)
      → overridden k (time_of_day_provider lib s) (get k (get_state {S = Surroundings} [] s))
        ≡ overridden k (time_of_day_provider lib s) none
  unfolding get_state merge_slices get
  none_yet k = refl

  -- The state with the built-in providers, one over the other.
  layers :
      (k : String)
      → get k (get_state (install_builtin_providers lib []) s)
        ≡ overridden k (device_status_provider lib s) (
            overridden k (busy_provider lib s) (
              overridden k (activity_provider lib s) (
                overridden k
                  (dnd_provider lib s)
                  (overridden k (time_of_day_provider lib s) none))))
  unfolding install_builtin_providers
  layers k =
      get-get_state_register "device_status" (device_status_provider lib) upto_busy s k
      ∙ ap (overridden k (device_status_provider lib s)) (
          get-get_state_register "busy" (busy_provider lib) upto_activity s k
          ∙ ap (overridden k (busy_provider lib s)) (
              get-get_state_register "activity" (activity_provider lib) upto_dnd s k
              ∙ ap (overridden k (activity_provider lib s)) (
                  get-get_state_register "dnd" (dnd_provider lib) upto_time s k
                  ∙ ap (overridden k (dnd_provider lib s)) (
                      get-get_state_register "time_of_day" (time_of_day_provider lib) [] s k
                      ∙ none_yet k))))

  -- The value of a key after the five providers.
  abbrev settled : String → Option Value
  settled k = overridden k (device_status_provider lib s) (
      overridden k (busy_provider lib s) (
        overridden k (activity_provider lib s)
          (overridden k (dnd_provider lib s) (overridden k (time_of_day_provider lib s) none))))

  dnd_said :
      overridden "do_not_disturb"
        (dnd_provider lib s)
        (overridden "do_not_disturb" (time_of_day_provider lib s) none)
      ≡ (if truthy (get_setting lib.dumps lib.loads "do_not_disturb" (bool false) s.settings)
          then some (bool true)
          else none)
  unfolding dnd_provider time_of_day_provider
  dnd_said =
      elim (Bool-cases
        (truthy (get_setting lib.dumps lib.loads "do_not_disturb" (bool false) s.settings))) [
          | inl k ↦ rw k refl
          | inr k ↦ rw k refl
        ]

  dnd_last : settled "do_not_disturb" ≡ (
      if truthy (get_setting lib.dumps lib.loads "do_not_disturb" (bool false) s.settings)
      then some (bool true)
      else none)
  unfolding device_status_provider
  dnd_last = inner_off "do_not_disturb" _ refl refl refl refl refl refl ∙ dnd_said

  online_last :
      settled "device_online"
      ≡ some (
          bool (
            any_online lib s.bus
              (select (λ (d : DeviceToken). is_none d.revoked_at) s.device_tokens)))
  unfolding device_status_provider
  online_last = refl

  period_said :
      overridden "period"
        (dnd_provider lib s)
        (overridden "period" (time_of_day_provider lib s) none)
      ≡ some (str (classify_period s.hour))
  unfolding dnd_provider time_of_day_provider
  period_said =
      elim (Bool-cases
        (truthy (get_setting lib.dumps lib.loads "do_not_disturb" (bool false) s.settings))) [
          | inl k ↦ rw k refl
          | inr k ↦ rw k refl
        ]

  period_last : settled "period" ≡ some (str (classify_period s.hour))
  unfolding device_status_provider
  period_last = inner_off "period" _ refl refl refl refl refl refl ∙ period_said

  -- The built-in providers do not get in each other's way: do-not-disturb is in the state, as true, exactly
  -- when its setting is true; whether a device is reachable is always there, and is true exactly
  -- when a device that is not revoked has a live subscriber of its own; the period is that of the hour.
  pub builtin_state :
      let state = get_state (install_builtin_providers lib []) s in
      (get "do_not_disturb" state ≡ (
        if truthy (get_setting lib.dumps lib.loads "do_not_disturb" (bool false) s.settings)
        then some (bool true)
        else none))
      × (get "device_online" state
          ≡ some (
              bool (
                any_online lib s.bus
                  (select (λ (d : DeviceToken). is_none d.revoked_at) s.device_tokens))))
      × (get "period" state ≡ some (str (classify_period s.hour)))
  builtin_state = (
    layers "do_not_disturb" ∙ dnd_last,
    layers "device_online" ∙ online_last,
    layers "period" ∙ period_last,
  )
