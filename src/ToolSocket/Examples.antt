-- ===== src/ToolSocket/Examples.antt =====
-- Two tools that keep something under one key, and a tool that publishes and invokes.
use life_man.Base.{
  List, String, [], false, nat_eq, none, ok, raised, refl, some, string_eq, suc, true, ℕ, ◌==◌, ◌∷◌,
  ◌≡◌, ◌⊎◌,
}
use life_man.Json.{Fields, Value, arr, cons, end, field, get, nil, null, num, obj, pos, put, str}
use life_man.Json.Merge.{last_of}
use life_man.ToolSocket.{error, given_text, result}
use life_man.ToolSocket.State.{Codec, set_request, state_delete, state_get, state_list, state_set}
use life_man.ToolSocket.Refinement.{
  StateRequest, answer_from, delete_request_of, keeps, replay, run, set_request_of, state_refines,
}
use life_man.ToolSocket.Gate.{Caller, check_capability, check_invoke_capability, invoke}
use life_man.ToolSocket.Events.{data_of, event_type_of, sse_publish, sse_publish_confined}
use life_man.Audit.{emit, log, no_effects}
use life_man.Sse.{new_bus, publish}
use life_man.Permissions.{Runtime, Store}
use life_man.Permissions.Handlers.{
  await_end, await_start, create_permission_request, find_matching_grant, first_cover, slot,
}
use life_man.Permissions.Waiting.{await_permission}
use text.Mathlib.Text.{starts_with}

abbrev codec : Codec
codec = record {
  dumps = λ v. elim v [ str t ↦ ok t | _ ↦ raised "no text" ];
  loads = λ t. some (str t);
  iso = λ n. "t";
  like = λ t pattern. true;
  text_less = λ s t. false;
  show = λ n. num (pos n);
}

abbrev keyed : String → Fields
keyed key = field "key" (str key) end

abbrev written : String → String → Fields
written key text = field "key" (str key) (field "value" (str text) end)

abbrev requests : List StateRequest
requests =
    set_request_of "weather" (written "city" "Paris") 1
    ∷ set_request_of "news" (written "city" "Rome") 2
    ∷ delete_request_of "news" (keyed "city")
    ∷ set_request_of "weather" (written "city" "Oslo") 3
    ∷ []

reads_back :
    (state_get codec "weather" (keyed "city") (run codec requests []) ≡ result (str "Oslo"))
    × (state_get codec "news" (keyed "city") (run codec requests []) ≡ result null)
unfolding state_get run state_set state_delete set_request get
reads_back = (refl, refl)

listed_keys :
    state_list codec "weather" end (run codec requests [])
    ≡ result (arr (cons (obj (field "key" (str "city") (field "updated_at" (str "t") end))) nil))
unfolding state_list run state_set state_delete set_request get
listed_keys = refl

state_refines_example :
    state_get codec "weather" (keyed "city") (run codec requests [])
    ≡ answer_from codec
        (replay codec requests (keeps codec []))
        "weather"
        (given_text "key" (keyed "city"))
state_refines_example = state_refines codec requests [] "weather" (keyed "city")

abbrev texts : Value → String
texts v = elim v [ str t ↦ t | _ ↦ "" ]

-- The data names another tool as the source.
abbrev spoof : Fields
spoof =
    field "event_type" (str "output.toast")
      (field "data" (obj (field "source_tool" (str "bank") end)) end)

spoofed :
    (sse_publish texts "weather" spoof 3 new_bus).1
    ≡ publish "output.toast" (obj (field "source_tool" (str "bank") end)) none 3 new_bus
unfolding sse_publish get put
spoofed = refl

sse_publish_confined_example :
    let (answered, bus') = sse_publish texts "weather" spoof 3 new_bus in
    (((e : String) × (answered ≡ error e)) × (bus' ≡ new_bus))
    ⊎ ((content fs : Fields) × (data_of spoof ≡ some fs)
        × (starts_with (event_type_of texts spoof) "output." ≡ true)
        × (bus' ≡ publish (event_type_of texts spoof) (obj content) none 3 new_bus)
        × (get "source_tool" content ≡ last_of "source_tool" fs (some (str "weather"))))
sse_publish_confined_example = sse_publish_confined texts "weather" spoof 3 new_bus

abbrev runtime : Runtime
runtime = record {
  glob = λ name pattern. name == pattern;
  regex = λ pattern name. some (name == pattern);
  hostname = λ url. some (some url);
  lower = λ s. s;
  ip_is_local = λ host. some (host == "127.0.0.1");
  text_after = λ text now. true;
}

abbrev caller : Caller
caller = record {
  tool_name = "digest";
  invocation_id = "i1";
  pid = "p1";
  wait = λ s. ("granted_once", s);
}

abbrev nothing_granted : Store
nothing_granted = record { permissions = []; requests = []; waiters = []; fx = no_effects }

abbrev asks_weather : Fields
asks_weather = field "tool" (str "weather") (field "reason" (str "") end)

abbrev count : String → Value → Value → ℕ → Value × ℕ
count target args reason n = (null, suc n)

was_run : (invoke runtime count caller asks_weather 5 (nothing_granted, 0)).1.1 ≡ 1
unfolding invoke check_invoke_capability check_capability find_matching_grant first_cover get
    create_permission_request log emit publish await_permission await_start await_end slot
was_run = refl
