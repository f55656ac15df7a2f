-- ===== src/Inputs/Subscriptions/Polls.antt =====
-- The poll loop of src/lifeman/input_subscriptions.py. The HTTP client is the argument `Web`: a GET of
-- an address with headers answers or fails. A call that is `none` has raised.
use life_man.Base.{
  Bool, List, Option, String, false, has_text, if◌then◌else◌, is_empty, leb, ltb, nat_eq, none, not,
  select, some, string_eq, true, update, ℕ, ◌&&◌, ◌*◌, ◌+◌, ◌<>◌, ◌==◌, ◌>>=◌,
}
use life_man.Json.{Fields, Value, end, field, get_default, null, put, str, truthy}
use life_man.Routing.{}
use life_man.Inputs.{Inbox, Ingest}
use life_man.Inputs.Subscriptions.{Subscription, at, fetch_row, is_sub, same_text, unreadable}

-- What a GET gives: a status, a body and the `etag` header, or an `httpx.HTTPError` with the text that the
-- code makes of it, the name of its class first.
pub data Fetched : Type 0 where
  response : ℕ → String → Option String → Fetched
  http_error : String → String → Fetched

-- What the code calls of Python's library and of `httpx`; the time is the last argument of `fetch`.
pub record Web : Type 0 where
  pub fetch : Value → Fields → ℕ → Fetched
  -- `hashlib.sha256(body.encode("utf-8")).hexdigest()`
  pub digest : String → String
  -- `dict(v)`, which may raise
  pub dict_of : Value → Option Fields
  pub repr : String → String
  pub show : ℕ → String

pub record PollResult : Type 0 where
  pub raw_payload : Option String
  pub unchanged : Bool
  pub etag : Option String
  pub content_hash : Option String
  pub error : Option String

abbrev pub failed_poll : String → PollResult
failed_poll error = record {
  raw_payload = none;
  unchanged = false;
  etag = none;
  content_hash = none;
  error = some error;
}

abbrev pub unchanged_poll : Option String → Option String → PollResult
unchanged_poll etag content_hash = record {
  raw_payload = none;
  unchanged = true;
  etag = etag;
  content_hash = content_hash;
  error = none;
}

abbrev pub fresh_poll : String → Option String → String → PollResult
fresh_poll body etag content_hash = record {
  raw_payload = some body;
  unchanged = false;
  etag = etag;
  content_hash = some content_hash;
  error = none;
}

-- `etag or row.get("last_etag")`
abbrev pub text_else : Option String → Option String → Option String
text_else s t = if has_text s then s else t

abbrev pub is_success : ℕ → Bool
is_success status = leb 200 status && ltb status 300

abbrev pub add_etag : Option String → Fields → Fields
add_etag none headers = headers
add_etag (some etag) headers =
    if is_empty etag then headers else put "If-None-Match" (str etag) headers

module _ (web : Web) where
  -- `_poll_json` after the answer of the server
  unfoldable pub poll_answer : Subscription → Fetched → PollResult
  poll_answer row (http_error name message) = failed_poll (name <> (": " <> message))
  poll_answer row (response status body etag) =
      let hashed = web.digest body in
      if status == 304
      then unchanged_poll row.last_etag none
      else if not (is_success status)
      then failed_poll ("HTTP " <> web.show status)
      else if same_text hashed row.last_hash
      then unchanged_poll (text_else etag row.last_etag) (some hashed)
      else fresh_poll body etag hashed

  -- `dict(cfg.get("headers") or {})`
  abbrev pub headers_of : Fields → Option Fields
  headers_of cfg =
      let headers = get_default "headers" null cfg in
      if truthy headers then web.dict_of headers else some end

  unfoldable pub poll_json : Subscription → ℕ → Option PollResult
  poll_json row now =
      let url = get_default "url" null row.config in
      if truthy url
      then elim (headers_of row.config) [
        | none ↦ none
        | some headers ↦ some (poll_answer row (web.fetch url (add_etag row.last_etag headers) now))
      ]
      else some (failed_poll "config.url missing")

abbrev pub poll_status : PollResult → String
poll_status r = if has_text r.error then "error" else if r.unchanged then "unchanged" else "ok"

abbrev pub polled : ℕ → PollResult → Subscription → Subscription
polled now r row = record row {
  last_polled_at = some (at now);
  last_etag = r.etag;
  last_hash = r.content_hash;
  last_status = some (poll_status r);
  last_error = r.error;
}

-- `_record_poll`
unfoldable pub record_poll : String → ℕ → PollResult → List Subscription → List Subscription
record_poll sid now r rows = update (is_sub sid) (polled now r) rows

abbrev text_field : String → String → Fields → Option String
text_field k d cfg = elim (get_default k (str d) cfg) [ str s ↦ some s | _ ↦ none ]

abbrev hint_field : Fields → Option (Option String)
hint_field cfg = elim (get_default "intent_hint" null cfg) [
  | null ↦ some none
  | str s ↦ some (some s)
  | _ ↦ none
]

-- The arguments of `_emit_input_event`'s call; `none` is the error of a config whose value is no text.
abbrev pub ingest_of : (String → String) → Subscription → String → Option Ingest
ingest_of repr row payload = do
  surface ← text_field "surface" "api" row.config
  hint ← hint_field row.config
  sensitivity ← text_field "sensitivity" "personal" row.config
  some (record {
    surface = surface;
    raw_payload = payload;
    intent_hint = hint;
    source = "subscription:" <> row.id;
    sensitivity = sensitivity;
    expires_at = none;
    context = field "subscription_id" (str row.id) (field "kind" (str row.kind) end);
    reason = "poll of subscription " <> repr row.name;
  })

-- What a poll works on: the table, and the inbox of the inputs.
pub record Sources (S : Type 0) : Type 0 where
  pub subscriptions : List Subscription
  pub inbox : Inbox S

-- `result.raw_payload is not None and not result.unchanged and not result.error`
abbrev pub payload_of : PollResult → Option String
payload_of r = if not r.unchanged && not (has_text r.error) then r.raw_payload else none

module _ {S : Type 0} (web : Web) (ingest : String → ℕ → Ingest → Inbox S → Inbox S) where
  -- `_emit_input_event` after `_record_poll`; `none` where it raises.
  unfoldable pub emit_input_event :
      String → ℕ → Subscription → PollResult → Sources S → Option PollResult × Sources S
  emit_input_event event_id now row r s = elim (payload_of r) [
    | none ↦ (some r, s)
    | some payload ↦ elim (ingest_of web.repr row payload) [
      | none ↦ (none, s)
      | some q ↦ (some r, record s { inbox = ingest event_id now q s.inbox })
    ]
  ]

  -- `poll_once`; the time of its three steps is one.
  unfoldable pub poll_once : String → String → ℕ → Sources S → Option PollResult × Sources S
  poll_once event_id sid now s = elim (fetch_row sid s.subscriptions) [
    | none ↦ (some (failed_poll "subscription not found"), s)
    | some row ↦
        if not row.enabled
        then (some (unchanged_poll none none), s)
        else if row.kind == "json_poll"
        then elim (poll_json web row now) [
          | none ↦ (none, s)
          | some r ↦
              emit_input_event event_id now row r
                (record s { subscriptions = record_poll row.id now r s.subscriptions })
        ]
        else (some (failed_poll ("no poller for kind " <> web.repr row.kind)), s)
  ]

abbrev pub is_due : ℕ → Subscription → Bool
is_due now r = elim r.last_polled_at [
  | none ↦ true
  | some unreadable ↦ true
  | some (at last) ↦ leb (last + r.interval_seconds * 1000000) now
]

-- `_due_subscriptions`
unfoldable pub due_subscriptions : ℕ → List Subscription → List Subscription
due_subscriptions now rows =
    select (λ r. is_due now r)
      (select (λ (r : Subscription). r.enabled && not (r.kind == "webhook")) rows)
