-- ===== src/ToolSocket/Events.antt =====
-- The method `sse_publish` of src/lifeman/tool_socket.py.
use text.Mathlib.Text.{starts_with}
use life_man.Base.{
  Bool-cases, Option, Option-cases, String, arith, if◌then◌else◌, inl, inr, none, not, refl, some,
  true, ℕ, ◌∙◌, ◌≡◌, ◌⊎◌,
}
use life_man.Json.{Fields, Value, bool, end, field, get, get_default, obj, str}
use life_man.Sse.{EventBus, publish}
use life_man.Json.Merge.{get-merge, last_of, merge}
use life_man.ToolSocket.{Reply, dict_or_empty, error, result}

-- `params.get("data") or {}`, where it is a dict
abbrev pub data_of : Fields → Option Fields
data_of params = elim (dict_or_empty "data" params) [ obj fs ↦ some fs | _ ↦ none ]

module _ (str_of : Value → String) where
  abbrev pub event_type_of : Fields → String
  event_type_of params = str_of (get_default "event_type" (str "") params)

  unfoldable pub sse_publish : String → Fields → ℕ → EventBus → Reply × EventBus
  sse_publish tool params now bus =
      if not (starts_with (event_type_of params) "output.")
      then (error "sse_publish event_type must start with 'output.'", bus)
      else elim (data_of params) [
        | none ↦ (error "sse_publish data must be an object", bus)
        | some fs ↦ (
          result (bool true),
          publish (event_type_of params) (obj (merge (field "source_tool" (str tool) end) fs)) none
              now bus,
        )
      ]

  -- A tool publishes events whose names start with `output.`, to every listener, and no others; the event
  -- says that its source is the tool, unless the data that the tool gives has an entry of
  -- that name: then it says what the tool wrote there.
  pub sse_publish_confined :
      (tool : String) (params : Fields) (now : ℕ) (bus : EventBus)
      → let (answered, bus') = sse_publish tool params now bus in
        (((e : String) × (answered ≡ error e)) × (bus' ≡ bus))
        ⊎ ((content fs : Fields) × (data_of params ≡ some fs)
            × (starts_with (event_type_of params) "output." ≡ true)
            × (bus' ≡ publish (event_type_of params) (obj content) none now bus)
            × (get "source_tool" content ≡ last_of "source_tool" fs (some (str tool))))
  unfolding sse_publish
  sse_publish_confined tool params now bus =
      elim (Bool-cases (starts_with (event_type_of params) "output.")) [
        | inr e ↦
            inl (("sse_publish event_type must start with 'output.'", ground arith), ground arith)
        | inl e ↦ elim (Option-cases (data_of params)) [
          | inl k ↦ inl (("sse_publish data must be an object", ground arith), ground arith)
          | inr (fs, k) ↦ inr (
            merge (field "source_tool" (str tool) end) fs,
            fs,
            k,
            e,
            ground arith,
            get-merge "source_tool" (field "source_tool" (str tool) end) fs ∙ (unfold get in refl),
          )
        ]
      ]
