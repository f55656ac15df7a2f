-- ===== src/Inputs/Subscriptions.antt =====
-- Subscriptions to outside sources (src/lifeman/input_subscriptions.py): the table, its operations and
-- the check of a webhook's token. Times are in microseconds, intervals in seconds; an interval
-- below zero, which is refused like every one below 30, has no counterpart. `Subscriptions.Polls` models
-- the poll loop.
pub mod Polls
pub mod Intervals
pub mod Repeats
pub mod Webhooks
use life_man.Base.{
  Bool, List, Option, String, [], delete, elem, false, first, get_or, has_text, if◌then◌else◌,
  is_empty, is_none, is_some, ltb, nat_eq, none, not, rowcount, some, string_eq, true, update, ℕ,
  ◌&&◌, ◌++◌, ◌<>◌, ◌==◌, ◌||◌, ◌∷◌,
}
use life_man.Json.{Fields, end, get, str}

abbrev pub min_poll_interval : ℕ
min_poll_interval = 30

abbrev pub supported_kinds : List String
supported_kinds = "webhook" ∷ "json_poll" ∷ []

-- A time column, which `fromisoformat` reads or not.
pub data Stamp : Type 0 where
  at : ℕ → Stamp
  unreadable : Stamp

-- A row of `input_subscriptions`.
pub record Subscription : Type 0 where
  pub id : String
  pub kind : String
  pub name : String
  pub config : Fields
  pub interval_seconds : ℕ
  pub enabled : Bool
  pub secret_hash : Option String
  pub last_polled_at : Option Stamp
  pub last_etag : Option String
  pub last_hash : Option String
  pub last_status : Option String
  pub last_error : Option String
  pub created_at : ℕ

-- A call returns a value, or raises `ValueError` or `IntegrityError`.
pub data Outcome (A : Type 0) : Type 0 where
  done : A → Outcome A
  value_error : String → Outcome A
  integrity_error : Outcome A

abbrev pub is_sub : String → Subscription → Bool
is_sub sid r = r.id == sid

-- `config.url` is a text that is not empty.
abbrev pub has_url : Fields → Bool
has_url cfg = elim (get "url" cfg) [ some (str url) ↦ not (is_empty url) | _ ↦ false ]

abbrev pub config_or_empty : Option Fields → Fields
config_or_empty none = end
config_or_empty (some cfg) = cfg

-- `_fetch_row`
abbrev pub fetch_row : String → List Subscription → Option Subscription
fetch_row sid rows = first (is_sub sid) rows

abbrev pub too_short : String
too_short = "interval_seconds must be >= 30"

-- The optional text is there, and it is this one.
abbrev pub same_text : String → Option String → Bool
same_text s none = false
same_text s (some t) = s == t

module _ (hash : String → String) where
  abbrev pub new_row : String → String → String → String → Option Fields → ℕ → ℕ → Subscription
  new_row sid secret kind name config interval now = record {
    id = sid;
    kind = kind;
    name = name;
    config = config_or_empty config;
    interval_seconds = interval;
    enabled = true;
    secret_hash = if kind == "webhook" then some (hash secret) else none;
    last_polled_at = none;
    last_etag = none;
    last_hash = none;
    last_status = none;
    last_error = none;
    created_at = now;
  }

  -- `sid` and `secret` are drawn at random; the answer holds the secret of a webhook. `repr` is Python's.
  unfoldable pub create_subscription :
      (String → String)
      → String
      → String
      → String
      → String
      → Option Fields
      → ℕ
      → ℕ
      → List Subscription
      → Outcome (Subscription × Option String) × List Subscription
  create_subscription repr sid secret kind name config interval now rows =
      let row = new_row sid secret kind name config interval now in
      if not (elem kind supported_kinds)
      then (
        value_error (
            "unsupported subscription kind "
            <> repr kind
            <> "; expected one of ('webhook', 'json_poll')"),
        rows,
      )
      else if ltb interval min_poll_interval
      then (value_error too_short, rows)
      else if (kind == "json_poll") && not (has_url (config_or_empty config))
      then (value_error "json_poll subscription requires config.url", rows)
      else if is_some (fetch_row sid rows)
      then (integrity_error, rows)
      else (done (row, if kind == "webhook" then some secret else none), rows ++ row ∷ [])

  unfoldable pub verify_webhook_secret : String → String → List Subscription → Bool
  verify_webhook_secret sid presented rows =
      if is_empty presented then false else elim (fetch_row sid rows) [
        | none ↦ false
        | some r ↦
            if not r.enabled || not (r.kind == "webhook") || not (has_text r.secret_hash)
            then false
            else same_text (hash presented) r.secret_hash
      ]

-- The arguments of `update_subscription`; `none` leaves a column as it is.
pub record Changes : Type 0 where
  pub name : Option String
  pub config : Option Fields
  pub interval_seconds : Option ℕ
  pub enabled : Option Bool

abbrev pub apply_changes : Changes → Subscription → Subscription
apply_changes c r = record r {
  name = get_or c.name r.name;
  config = get_or c.config r.config;
  interval_seconds = get_or c.interval_seconds r.interval_seconds;
  enabled = get_or c.enabled r.enabled;
}

abbrev pub shortened : Option ℕ → Bool
shortened none = false
shortened (some interval) = ltb interval min_poll_interval

-- Without a column to set the UPDATE is left out, which changes no row either.
unfoldable pub update_subscription :
    String → Changes → List Subscription → Outcome (Option Subscription) × List Subscription
update_subscription sid c rows =
    let changed = update (is_sub sid) (apply_changes c) rows in
    if shortened c.interval_seconds
    then (value_error too_short, rows)
    else if is_none c.name && is_none c.config && is_none c.interval_seconds && is_none c.enabled
    then (done (fetch_row sid rows), rows)
    else (done (fetch_row sid changed), changed)

unfoldable pub delete_subscription : String → List Subscription → Bool × List Subscription
delete_subscription sid rows = (not (rowcount (is_sub sid) rows == 0), delete (is_sub sid) rows)
