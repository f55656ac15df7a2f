-- ===== src/Inputs/Subscriptions/Repeats.antt =====
-- When a polled body becomes an input: not when it repeats, unless a poll in between lost its hash.
use life_man.Base.{
  List, Option, String, arith, eq_iff, false, first-update_hit, first_sound, inl, inr, none, refl,
  some, true, ℕ, ◌≡◌, ◌⊎◌,
}
use life_man.Json.{Fields, get_default, null, truthy}
use life_man.Inputs.{Inbox, Ingest}
use life_man.Inputs.Subscriptions.{Subscription, fetch_row, is_sub}
use life_man.Inputs.Subscriptions.Polls.{
  Fetched, PollResult, Sources, Web, add_etag, emit_input_event, fresh_poll, headers_of, http_error,
  is_success, payload_of, poll_answer, poll_json, poll_once, polled, record_poll, response,
}

-- What lets a poll of the row reach the server.
pub record Pollable (web : Web) (row : Subscription) : Type 0 where
  pub is_enabled : row.enabled ≡ true
  pub is_json : row.kind ≡ "json_poll"
  pub url_given : truthy (get_default "url" null row.config) ≡ true
  pub headers : Fields
  pub headers_read : headers_of web row.config ≡ some headers

-- The server's answer to the row's request at that time, with whatever headers.
abbrev pub Answers : Web → Subscription → ℕ → Fetched → Type 0
Answers web row now a =
    (headers : Fields) → web.fetch (get_default "url" null row.config) headers now ≡ a

poll_json_lem :
    (web : Web) (row : Subscription) (now : ℕ) (a : Fetched)
    → Pollable web row
    → Answers web row now a
    → poll_json web row now ≡ some (poll_answer web row a)
unfolding poll_json
poll_json_lem web row now a able answers =
    rw (able.url_given, able.headers_read) (rw (answers (add_etag row.last_etag able.headers)) refl)

module _ {S : Type 0} (web : Web) (ingest : String → ℕ → Ingest → Inbox S → Inbox S) where
  poll_once_lem :
      (event_id sid : String) (now : ℕ) (s : Sources S) (row : Subscription) (a : Fetched)
      → fetch_row sid s.subscriptions ≡ some row
      → Pollable web row
      → Answers web row now a
      → poll_once web ingest event_id sid now s
        ≡ emit_input_event web ingest event_id now row (poll_answer web row a) (record s {
          subscriptions = record_poll row.id now (poll_answer web row a) s.subscriptions;
        })
  unfolding poll_once
  poll_once_lem event_id sid now s row a found able answers = ground (
    arith,
    able.is_enabled,
    able.is_json,
    eq_iff row.kind "json_poll",
    poll_json_lem web row now a able answers,
  )

  emit_input_event-subscriptions :
      (event_id : String) (now : ℕ) (row : Subscription) (r : PollResult) (s : Sources S)
      → (emit_input_event web ingest event_id now row r s).1.subscriptions ≡ s.subscriptions
  unfolding emit_input_event
  emit_input_event-subscriptions event_id now row r s = ground arith

  no_payload :
      (event_id : String) (now : ℕ) (row : Subscription) (r : PollResult) (s : Sources S)
      → payload_of r ≡ none
      → (emit_input_event web ingest event_id now row r s).1.inbox ≡ s.inbox
  unfolding emit_input_event
  no_payload event_id now row r s h = ground arith

  record_poll_found :
      (sid id : String) (now : ℕ) (rows : List Subscription) (r : PollResult) {row : Subscription}
      → fetch_row sid rows ≡ some row
      → id ≡ sid
      → fetch_row sid (record_poll id now r rows) ≡ some (polled now r row)
  unfolding record_poll
  record_poll_found sid id now rows r found same =
      rw same (first-update_hit (is_sub sid) (polled now r) rows (λ a. refl) found)

  -- The row after a poll that reached the server.
  poll_once_found :
      (event_id sid : String) (now : ℕ) (s : Sources S) (row : Subscription) (a : Fetched)
      → fetch_row sid s.subscriptions ≡ some row
      → Pollable web row
      → Answers web row now a
      → fetch_row sid (poll_once web ingest event_id sid now s).1.subscriptions
        ≡ some (polled now (poll_answer web row a) row)
  poll_once_found event_id sid now s row a found able answers =
      rw (poll_once_lem event_id sid now s row a found able answers) (
        rw (emit_input_event-subscriptions event_id now row (poll_answer web row a) _) (
          record_poll_found sid row.id now s.subscriptions (poll_answer web row a) found
            ((eq_iff row.id sid).0 (first_sound (is_sub sid) s.subscriptions found))))

  polled-Pollable :
      (now : ℕ) (r : PollResult) (row : Subscription)
      → Pollable web row
      → Pollable web (polled now r row)
  polled-Pollable now r row h = record {
    is_enabled = h.is_enabled;
    is_json = h.is_json;
    url_given = h.url_given;
    headers = h.headers;
    headers_read = h.headers_read;
  }

  answered_hash :
      (row : Subscription) (status : ℕ) (body : String) (etag : Option String)
      → is_success status ≡ true
      → (poll_answer web row (response status body etag)).content_hash ≡ some (web.digest body)
  unfolding poll_answer
  answered_hash row status body etag h = ground arith

  repeated :
      (row : Subscription) (status : ℕ) (body : String) (etag : Option String)
      → is_success status ≡ true
      → row.last_hash ≡ some (web.digest body)
      → payload_of (poll_answer web row (response status body etag)) ≡ none
  unfolding poll_answer
  repeated row status body etag h same = ground (arith, eq_iff (web.digest body) (web.digest body))

  -- Two polls of one subscription in a row that both get the same body, with whatever successful
  -- statuses and entity tags: the second leaves the inbox as the first left it.
  pub repeat_not_stored :
      (event_id event_id' sid : String) (now later status status' : ℕ) (body : String)
      (etag etag' : Option String) (s : Sources S) (row : Subscription)
      → fetch_row sid s.subscriptions ≡ some row
      → Pollable web row
      → Answers web row now (response status body etag)
      → Answers web row later (response status' body etag')
      → is_success status ≡ true
      → is_success status' ≡ true
      → let s' = (poll_once web ingest event_id sid now s).1 in
        (poll_once web ingest event_id' sid later s').1.inbox ≡ s'.inbox
  repeat_not_stored event_id event_id' sid now later status status' body etag etag' s row found able
        first_answer next_answer good good' =
      let a = response status body etag in
      let row' = polled now (poll_answer web row a) row in
      rw
        (poll_once_lem event_id' sid later (poll_once web ingest event_id sid now s).1 row'
          (response status' body etag')
          (poll_once_found event_id sid now s row a found able first_answer)
          (polled-Pollable now (poll_answer web row a) row able) next_answer)
        (no_payload event_id' later row' (poll_answer web row' (response status' body etag')) _
          (repeated row' status' body etag' good' (answered_hash row status body etag good)))

  lost_hash :
      (row : Subscription) (status : ℕ) (body : String) (etag : Option String)
      → is_success status ≡ true
      → row.last_hash ≡ none
      → poll_answer web row (response status body etag) ≡ fresh_poll body etag (web.digest body)
  unfolding poll_answer
  lost_hash row status body etag h gone = ground arith

  -- The fetch failed, or was answered by 304 or by a status that is no success.
  abbrev pub IsLost : Fetched → Type 0
  IsLost (http_error name message) = Unit
  IsLost (response status body etag) = (status ≡ 304) ⊎ (is_success status ≡ false)

  lost_answer :
      (row : Subscription) (a : Fetched) → IsLost a → (poll_answer web row a).content_hash ≡ none
  unfolding poll_answer
  lost_answer row (http_error name message) h = refl
  lost_answer row (response status body etag) (inl e) = ground arith
  lost_answer row (response status body etag) (inr e) = ground arith

  -- A poll that failed, or that was answered by 304 or by a status that is no success, loses the hash of the last body: whatever body
  -- the next successful poll gets is taken for a change, also the one that was stored last.
  pub failed_poll_repeats :
      (event_id event_id' sid : String) (now later status : ℕ) (body : String) (a : Fetched)
      (etag : Option String) (s : Sources S) (row : Subscription)
      → fetch_row sid s.subscriptions ≡ some row
      → Pollable web row
      → Answers web row now a
      → IsLost a
      → Answers web row later (response status body etag)
      → is_success status ≡ true
      → let s' = (poll_once web ingest event_id sid now s).1 in
        (q : Subscription) × (poll_once web ingest event_id' sid later s'
          ≡ emit_input_event web ingest event_id' later q
              (fresh_poll body etag (web.digest body))
              (record s' {
                subscriptions =
                    record_poll q.id later
                      (fresh_poll body etag (web.digest body))
                      s'.subscriptions;
              }))
  failed_poll_repeats event_id event_id' sid now later status body a etag s row found able
        first_answer gone next_answer good =
      let row' = polled now (poll_answer web row a) row in
      (
        row',
        rw (← lost_hash row' status body etag good (lost_answer row a gone)) (
            poll_once_lem event_id' sid later _ row' (response status body etag)
              (poll_once_found event_id sid now s row a found able first_answer)
              (polled-Pollable now (poll_answer web row a) row able) next_answer),
      )
