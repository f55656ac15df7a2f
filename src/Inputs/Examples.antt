-- ===== src/Inputs/Examples.antt =====
-- A feed that is polled three times, the second time in vain, and a webhook.
use life_man.Base.{
  List, String, [], false, first, if◌then◌else◌, is_empty, is_empty-append_right, nat_eq, none,
  refl, some, string_eq, suc, true, ℕ, ◌*◌, ◌+◌, ◌<>◌, ◌==◌, ◌↔◌, ◌∷◌, ◌≡◌, ◌≢◌, ◌≤◌,
}
use life_man.Json.{bool, end, field, get, null, put, str}
use life_man.Audit.{log, no_effects}
use life_man.Routing.{HandlerManifest, Handlers}
use life_man.Routing.Engine.{dispatch_all, dispatch_one, run_event}
use life_man.Routing.Routers.{route_input}
use life_man.Routing.Wiring.{create_engine, list_handlers, resolve_handler}
use life_man.Outputs.Router.{is_expired}
use life_man.Inputs.{Inbox, Ingest, InputRow, ingest_input}
use life_man.Inputs.Subscriptions.{
  Subscription, create_subscription, done, min_poll_interval, new_row, verify_webhook_secret,
}
use life_man.Inputs.Subscriptions.Polls.{
  Sources, Web, due_subscriptions, emit_input_event, failed_poll, fresh_poll, http_error,
  poll_answer, poll_json, poll_once, polled, record_poll, response,
}
use life_man.Inputs.Subscriptions.Repeats.{Pollable, failed_poll_repeats, repeat_not_stored}
use life_man.Inputs.Subscriptions.Intervals.{
  IsSpaced, Op, create_op, due-IsSpaced, poll_op, run, step,
}
use life_man.Inputs.Subscriptions.Webhooks.{webhook_secret_verifies}

abbrev hashed : String → String
hashed s = "#" <> s

abbrev same : String → String
same s = s

-- The server fails at the time 40.
abbrev feed : Web
feed = record {
  fetch = λ url headers now.
      if now == 40 then http_error "ConnectTimeout" "" else response 200 "news" none;
  digest = hashed;
  dict_of = λ v. none;
  repr = same;
  show = λ n. "200";
}

abbrev feed_row : Subscription
feed_row = record {
  id = "s1";
  kind = "json_poll";
  name = "feed";
  config = field "url" (str "https://example.org/feed") end;
  interval_seconds = 30;
  enabled = true;
  secret_hash = none;
  last_polled_at = none;
  last_etag = none;
  last_hash = none;
  last_status = none;
  last_error = none;
  created_at = 1;
}

abbrev llm : HandlerManifest
llm = record { name = "llm"; handler_type = "llm_chat"; sensitivity_tolerance = "private" }

abbrev handlers : Handlers ℕ
handlers =
    create_engine (llm ∷ []) [] (λ name method event n. (some (field "ok" (bool true) end), suc n))

abbrev ingest : String → ℕ → Ingest → Inbox ℕ → Inbox ℕ
ingest event_id now q inbox =
    (ingest_input handlers null (λ n. "t")
      (λ r event hs. route_input (λ t. none) same now event r.intent_hint r.surface hs) event_id now
      q inbox).1

abbrev one_feed : Sources ℕ
one_feed = record {
  subscriptions = feed_row ∷ [];
  inbox = record {
    input_events = [];
    tables = record { audit_table = []; dispatch_table = []; state = 0 };
    fx = no_effects;
  };
}

abbrev poll : String → ℕ → Sources ℕ → Sources ℕ
poll event_id now s = (poll_once feed ingest event_id "s1" now s).1

abbrev stored_bodies : List InputRow → List String
stored_bodies [] = []
stored_bodies (r ∷ rows) = r.request.raw_payload ∷ stored_bodies rows

-- The one body stands twice in the table of inputs, since the poll between failed.
stored_again :
    stored_bodies (poll "e3" 70 (poll "e2" 40 (poll "e1" 10 one_feed))).inbox.input_events
    ≡ "news" ∷ "news" ∷ []
unfolding poll_once poll_json poll_answer record_poll emit_input_event put get ingest_input
    run_event dispatch_all dispatch_one route_input list_handlers resolve_handler log no_effects
    is_expired
stored_again = refl

reaches : Pollable feed feed_row
unfolding get
reaches = record {
  is_enabled = refl;
  is_json = refl;
  url_given = refl;
  headers = end;
  headers_read = refl;
}

repeat_not_stored_example :
    (poll "e2" 70 (poll "e1" 10 one_feed)).inbox ≡ (poll "e1" 10 one_feed).inbox
repeat_not_stored_example =
    repeat_not_stored feed ingest "e1" "e2" "s1" 10 70 200 200 "news" none none one_feed feed_row
      refl reaches (λ h. refl) (λ h. refl) refl refl

failed_poll_repeats_example :
    let s' = poll "e1" 40 one_feed in
    (q : Subscription) × (poll_once feed ingest "e2" "s1" 70 s'
      ≡ emit_input_event feed ingest "e2" 70 q (fresh_poll "news" none "#news") (record s' {
        subscriptions = record_poll q.id 70 (fresh_poll "news" none "#news") s'.subscriptions;
      }))
unfolding poll_answer
failed_poll_repeats_example =
    failed_poll_repeats feed ingest "e1" "e2" "s1" 40 70 200 "news" (http_error "ConnectTimeout" "")
      none one_feed feed_row refl reaches (λ h. refl) tt (λ h. refl) refl

abbrev creation : List Op
creation =
    create_op "s1" "" "json_poll" "feed" (some feed_row.config) 30 1
    ∷ poll_op "s1" 10 (failed_poll "HTTP 500")
    ∷ []

found_due :
    first (λ (r : Subscription). true) (due_subscriptions 30000010 (run hashed same creation []))
    ≡ some (polled 10 (failed_poll "HTTP 500") feed_row)
unfolding due_subscriptions run step create_subscription record_poll get
found_due = refl

due-IsSpaced_example :
    let r = polled 10 (failed_poll "HTTP 500") feed_row in
    (10 + min_poll_interval * 1000000 ≤ 30000010)
    × (r.enabled ≡ true)
    × (r.kind ≢ "webhook")
    × IsSpaced hashed same r
due-IsSpaced_example =
    due-IsSpaced hashed same creation 30000010 10 (λ r. true)
      (polled 10 (failed_poll "HTTP 500") feed_row) found_due refl

abbrev hook : Subscription
hook = new_row hashed "s2" "t0ken" "webhook" "ci" none 300 5

hook_created :
    create_subscription hashed same "s2" "t0ken" "webhook" "ci" none 300 5 []
    ≡ (done (hook, some "t0ken"), hook ∷ [])
unfolding create_subscription
hook_created = refl

webhook_secret_verifies_example :
    (hook.kind ≡ "webhook")
    × ((verify_webhook_secret hashed "s2" "t0ken" (hook ∷ []) ≡ true)
        ↔ ((is_empty "t0ken" ≡ false) × (hashed "t0ken" ≡ hashed "t0ken")))
webhook_secret_verifies_example =
    webhook_secret_verifies hashed same "s2" "t0ken" "webhook" "ci" "t0ken" "t0ken" none 300 5 []
      (hook ∷ []) hook (λ t. is_empty-append_right "#" t refl) hook_created
