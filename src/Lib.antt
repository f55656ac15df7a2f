-- ===== src/Lib.antt =====
-- LifeMan, a personal server that runs tools for its user: the parts that decide who may do what,
-- who hears of it, and where an event goes. All paths are from the repository's root.
--
-- The parts, and the files here that model them:
-- - Sse: the event bus (src/lifeman/sse.py). Every handler publishes on it. `EventBus` is its state,
--   `publish`, `subscribe`, `unsubscribe` its operations; the generator that `subscribe` returns is a
--   state of its subscriber (`Phase`), which `receive` advances from one yield to the next.
-- - Audit: `log` of src/lifeman/audit.py, and the record of the sinks that handlers write to.
-- - Permissions: src/lifeman/permissions_runtime.py and src/lifeman/routes/permissions.py. Scope
--   holds `scope_matches` and what it calls, Handlers the calls that read or change the tables
--   `permissions` and `permission_requests` and the waiters of the process.
-- - Devices: src/lifeman/devices.py, pairing codes, device tokens and push endpoints, with the
--   registration of a device's channel. Auth: src/lifeman/auth.py, which asks Devices.
-- - Outputs: src/lifeman/outputs. Rules and Router hold the routing decision of router.py, Channels
--   the registry (also src/lifeman/routing/registry.py) and the channels' manifests, Deliveries the
--   rows that `emit_output` and `cancel_output` of api.py contend for, Emit those two calls.
-- - Scheduler: src/lifeman/scheduler.py and src/lifeman/routes/schedules.py. When computes times,
--   Fires holds the tick, the fire and the handlers on the table `schedules`.
-- - Routing: the engine of src/lifeman/routing/engine.py that inputs, memory and observations share,
--   and their built-in routers (inputs/router.py, memory/router.py, observations/router.py). Engine
--   is a client of the record `Handlers`, which Wiring fills as `create_engine` does.
-- - Storage: src/lifeman/db.py. Sqlite says what the statements of the schema do to the tables and the
--   indexes of a file, Schema and Migrations list those statements as the source does, and `get_db` is the start.
-- - Secrets: src/lifeman/secrets. Keys holds the master key of crypto.py, Vault the table of store.py, Reads who may
--   read a secret; the requests for permission are those of Permissions.
-- - Inputs: `ingest_input` of src/lifeman/inputs/__init__.py, a client of Routing, and src/lifeman/input_subscriptions.py
--   (Subscriptions for the table, Polls for a poll).
-- - Memory: src/lifeman/memory. The table `memories`, Refs for the check of references, and Producer for
--   `record_memory` with its built-in handlers, another client of Routing.
-- - UserState: src/lifeman/user_state.py (the providers and their merge) and src/lifeman/user_settings.py.
-- - Tools: src/lifeman/routes/tools.py. Registry registers and lists tools; Calls, Rows and Execution are the
--   phases of `_execute_tool` and `_spawn_invocation`.
-- - ToolSocket: the methods of src/lifeman/tool_socket.py that a running tool calls: State holds the key-value
--   store, Gate the check before one tool invokes another, Events the publishing of events.
-- - Json: JSON values, Python's equality on them and the merging of dicts. Base: tests, lists, tables, texts.
--
-- How code becomes a definition: a handler is a function from its arguments, the time and its tables
-- to its answer and the new tables. An exception is a value of the answer. A table is the list of its
-- rows in the order of their insertion; SELECT, UPDATE and DELETE are in Base/Rows. Times are
-- microseconds, ids and tokens that the program draws at random are arguments. A call that is
-- suspended by an `await` between a read and a write that depends on it is two definitions, so that
-- other calls can come between them: `resolve_check` and `resolve_apply`, `consume_check` and
-- `consume_apply`, `await_start` and `await_end`, `reserve` and `complete`, and the steps of Outputs/Deliveries.
--
-- A call that waits for the user is `await_permission` of Permissions/Waiting, over any state that has the store of
-- permissions in it. It has what happens while it waits as an argument, `wait`: the text that its waiter is woken
-- with, empty after a timeout, and the state then. Permissions/Resolved has the steps of the handlers in any order,
-- and Permissions/Unanswered takes such steps for `wait`.
--
-- What is not under src/lifeman is an argument: `Runtime` holds Python's fnmatch, re, urlparse,
-- ipaddress and SQLite's comparison of texts, `Parsers` what reads the parts of a schedule's spec,
-- `hash` is the hash of a token, `deadline` parses a time; `Crypto` is AES-GCM, base64 and what the process
-- draws at random, `Web` an HTTP client and SHA-256, `Codec` and `Library` the texts of JSON values and times,
-- `Python` jsonschema, the sandboxed process, the text that a TEXT column keeps of a number, and what
-- `emit_output` does, `Sql` SQLite's LIKE. A theorem that
-- assumes documented behaviour of these says so in its statement, for example that what AES-GCM seals it opens
-- again under the same key. No definition uses fuel: every loop of the modelled code runs over a list. The
-- bounds are the code's: 256 replayed events, 256 queued ones, values of 64 KB in
-- the state of a tool, results of 1 MB, 30 seconds between polls, 200 memories. A time before the epoch is
-- taken for the epoch.
--
-- Not modelled: the command line of the sandbox and the library inside it, the chat, its tools and the language
-- models, the pages, backup, push and MCP (processes, network and terminals); the ambient context, the
-- observations and the handlers of inputs; the methods of ToolSocket that only pass a call on, and
-- `llm_chat`; the loop that wakes the poller.
pub mod Audit
pub mod Auth
pub mod Base
pub mod Devices
pub mod Inputs
pub mod Json
pub mod Memory
pub mod Outputs
pub mod Permissions
pub mod Routing
pub mod Scheduler
pub mod Secrets
pub mod Sse
pub mod Storage
pub mod ToolSocket
pub mod Tools
pub mod UserState
