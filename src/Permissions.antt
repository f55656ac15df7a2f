-- ===== src/Permissions.antt =====
-- Permission requests and standing grants (src/lifeman/permissions_runtime.py and
-- src/lifeman/routes/permissions.py): the tables, and Python's own functions that they call.
-- The scope of a grant is matched in `Permissions.Scope`, the handlers are in
-- `Permissions.Handlers`, and the proofs in the modules named for what they prove.
pub mod Scope
pub mod Examples
pub mod Remembered
pub mod Requests
pub mod Resolved
pub mod Unanswered
pub mod Waiting
pub mod Grants
pub mod Handlers
pub mod Coverage
use life_man.Base.{Bool, List, Option, String, ℕ}
use life_man.Json.{Value}
use life_man.Audit.{Effects}

-- The functions of Python's library, of SQLite and of the clock that the code calls.
pub record Runtime : Type 0 where
  -- `fnmatch.fnmatchcase(name, pattern)`
  pub glob : String → String → Bool
  -- `re.fullmatch(pattern, name) is not None`; `none` is `re.error`
  pub regex : String → String → Option Bool
  -- `urlparse(url).hostname`; the outer `none` is `ValueError`
  pub hostname : String → Option (Option String)
  -- `str.lower`
  pub lower : String → String
  -- `ip_address(host)` is loopback, private or link-local; `none` is `ValueError`
  pub ip_is_local : String → Option Bool
  -- SQLite's `expires_at > now` on texts, `now` being the ISO 8601 text of the time
  pub text_after : String → ℕ → Bool

-- A JSON column: empty, unreadable, or a value.
pub data Column : Type 0 where
  blank corrupt : Column
  json : Value → Column

-- A row of `permissions`.
pub record Grant : Type 0 where
  pub id : String
  pub granter : String
  pub grantee : String
  pub capability : String
  pub scope : Column
  pub granted_at : ℕ
  pub expires_at : Option String
  pub revoked_at : Option ℕ

-- A row of `permission_requests`. Its scope is written by `json.dumps`, so it reads back.
pub record Request : Type 0 where
  pub id : String
  pub requester : String
  pub capability : String
  pub scope : Value
  pub reason : String
  pub status : String
  pub requested_at : ℕ
  pub resolved_at : Option ℕ
  pub invocation_id : Option String

-- An entry of `_waiters`: the event, and the box with the latest status.
pub record Slot : Type 0 where
  pub pid : String
  pub is_set : Bool
  pub status : String

pub record Store : Type 0 where
  pub permissions : List Grant
  pub requests : List Request
  pub waiters : List Slot
  pub fx : Effects

-- What a route answers: a value, or an `HTTPException`.
pub data Response (A : Type 0) : Type 0 where
  answer : A → Response A
  http_error : ℕ → String → Response A
