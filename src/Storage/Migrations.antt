-- ===== src/Storage/Migrations.antt =====
-- The migrations of src/lifeman/db.py.
use life_man.Base.{List, [], ℕ, ◌∷◌}
use life_man.Storage.Sqlite.{Statement, add_column, create_index, create_table}

-- `_MIGRATIONS`
unfoldable pub migrations : List (ℕ × Statement)
migrations =
    (1, add_column "sessions" "title")
    ∷ (2, add_column "sessions" "external_id")
    ∷ (3, add_column "sessions" "archived_at")
    ∷ (4, add_column "invocations" "session_id")
    ∷ (5, add_column "invocations" "parent_invocation_id")
    ∷ (6, add_column "invocations" "reason")
    ∷ (7, add_column "invocations" "status")
    ∷ (8, add_column "permission_requests" "invocation_id")
    ∷ (9, add_column "schedules" "last_started_at")
    ∷ (10, create_index "uq_messages_session_seq" "messages" ("session_id" ∷ "seq" ∷ []))
    ∷ (11, add_column "output_deliveries" "status")
    ∷ (12, add_column "invocations" "fire_id")
    ∷ (
      13,
      create_table "device_tokens" (
          "id" ∷ "name" ∷ "platform" ∷ "token_hash" ∷ "capabilities_json" ∷ "created_at"
          ∷ "last_seen_at" ∷ "revoked_at" ∷ []),
    )
    ∷ (
      14,
      create_table "pairing_codes"
          ("code" ∷ "issued_at" ∷ "expires_at" ∷ "consumed_at" ∷ "device_id" ∷ "note" ∷ []),
    )
    ∷ (15, add_column "device_tokens" "push_transport")
    ∷ (16, add_column "device_tokens" "push_endpoint")
    ∷ (
      17,
      create_table "input_subscriptions" (
          "id" ∷ "kind" ∷ "name" ∷ "config_json" ∷ "interval_seconds" ∷ "enabled" ∷ "secret_hash"
          ∷ "last_polled_at" ∷ "last_etag" ∷ "last_hash" ∷ "last_status" ∷ "last_error"
          ∷ "created_at" ∷ []),
    )
    ∷ (18, create_table "user_settings" ("key" ∷ "value_json" ∷ "updated_at" ∷ []))
    ∷ []
