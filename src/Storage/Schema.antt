-- ===== src/Storage/Schema.antt =====
-- The tables, columns and indexes of `SCHEMA` (src/lifeman/db.py), in its order and in three parts.
use life_man.Base.{List, [], ◌++◌, ◌∷◌}
use life_man.Storage.Sqlite.{Statement, create_index, create_table}

abbrev pub schema_outputs : List Statement
schema_outputs =
    create_table "tools" (
      "id" ∷ "name" ∷ "description" ∷ "category" ∷ "version" ∷ "installed_at" ∷ "deprecated_at"
      ∷ [])
    ∷ create_table "tool_manifests" (
        "tool_id" ∷ "manifest_json" ∷ "schema_input_json" ∷ "schema_output_json" ∷ "code"
        ∷ "version" ∷ [])
    ∷ create_table "permissions" (
        "id" ∷ "granter" ∷ "grantee" ∷ "capability" ∷ "scope_json" ∷ "granted_at" ∷ "expires_at"
        ∷ "revoked_at" ∷ [])
    ∷ create_table "permission_requests" (
        "id" ∷ "requester" ∷ "capability" ∷ "scope_json" ∷ "reason" ∷ "status" ∷ "requested_at"
        ∷ "resolved_at" ∷ [])
    ∷ create_table "schedules" (
        "id" ∷ "tool" ∷ "args_json" ∷ "when_spec" ∷ "context_refs_json" ∷ "reason" ∷ "created_at"
        ∷ "fires_at" ∷ "last_fired" ∷ "consecutive_no_ops" ∷ "total_fires" ∷ "cancelled_at" ∷ [])
    ∷ create_table "invocations" (
        "id" ∷ "tool" ∷ "args_json" ∷ "source" ∷ "result_json" ∷ "error" ∷ "started_at"
        ∷ "finished_at" ∷ "schedule_id" ∷ "session_id" ∷ "parent_invocation_id" ∷ "reason"
        ∷ "status" ∷ [])
    ∷ create_table "audit_log" (
        "id" ∷ "timestamp" ∷ "source" ∷ "action" ∷ "target" ∷ "args_summary" ∷ "result_summary"
        ∷ "reason" ∷ [])
    ∷ create_table "output_events" (
        "id" ∷ "source_tool" ∷ "content_json" ∷ "category" ∷ "urgency" ∷ "sensitivity"
        ∷ "expires_at" ∷ "context_json" ∷ "actions_json" ∷ "reason" ∷ "emitted_at" ∷ "cancelled_at"
        ∷ [])
    ∷ create_table "output_channels" (
        "name" ∷ "channel_type" ∷ "capabilities_json" ∷ "rate_limit_per_minute"
        ∷ "rate_limit_per_hour" ∷ "sensitivity_tolerance" ∷ "config_json" ∷ "installed_at"
        ∷ "disabled_at" ∷ [])
    ∷ create_table "output_deliveries" (
        "id" ∷ "output_id" ∷ "channel" ∷ "delivered" ∷ "delivery_id" ∷ "failure_reason"
        ∷ "response_json" ∷ "delivered_at" ∷ "cancelled_at" ∷ [])
    ∷ create_table "output_routing_audit" (
        "id" ∷ "output_id" ∷ "matched_rules_json" ∷ "candidate_channels_json" ∷ "filtered_json"
        ∷ "dispatched_json" ∷ "expired" ∷ "notes" ∷ "decided_at" ∷ [])
    ∷ create_table "output_routing_rules"
        ("id" ∷ "position" ∷ "match_json" ∷ "action_json" ∷ "description" ∷ [])
    ∷ create_index "idx_output_events_emitted" "output_events" ("emitted_at" ∷ [])
    ∷ create_index "idx_output_events_category" "output_events" ("category" ∷ [])
    ∷ create_index "idx_output_deliveries_output" "output_deliveries" ("output_id" ∷ [])
    ∷ create_index "idx_output_routing_audit_output" "output_routing_audit" ("output_id" ∷ [])
    ∷ create_index "idx_output_routing_rules_position" "output_routing_rules" ("position" ∷ [])
    ∷ []

abbrev pub schema_events : List Statement
schema_events =
    create_table "input_events" (
      "id" ∷ "surface" ∷ "raw_payload" ∷ "intent_hint" ∷ "source" ∷ "sensitivity" ∷ "expires_at"
      ∷ "context_json" ∷ "reason" ∷ "emitted_at" ∷ [])
    ∷ create_table "input_routing_audit" (
        "id" ∷ "event_id" ∷ "matched_rules_json" ∷ "candidate_handlers_json" ∷ "filtered_json"
        ∷ "dispatched_json" ∷ "expired" ∷ "notes" ∷ "decided_at" ∷ [])
    ∷ create_table "input_dispatches" (
        "id" ∷ "event_id" ∷ "handler" ∷ "ok" ∷ "external_id" ∷ "failure_reason" ∷ "dispatched_at"
        ∷ [])
    ∷ create_table "memory_events" (
        "id" ∷ "content" ∷ "type_hint" ∷ "tags_json" ∷ "source" ∷ "sensitivity" ∷ "expires_at"
        ∷ "context_json" ∷ "reason" ∷ "emitted_at" ∷ [])
    ∷ create_table "memory_routing_audit" (
        "id" ∷ "event_id" ∷ "matched_rules_json" ∷ "candidate_handlers_json" ∷ "filtered_json"
        ∷ "dispatched_json" ∷ "expired" ∷ "notes" ∷ "decided_at" ∷ [])
    ∷ create_table "memory_dispatches" (
        "id" ∷ "event_id" ∷ "handler" ∷ "ok" ∷ "external_id" ∷ "failure_reason" ∷ "dispatched_at"
        ∷ [])
    ∷ create_table "memories" (
        "id" ∷ "content" ∷ "type" ∷ "tags_json" ∷ "sensitivity" ∷ "source" ∷ "created_at"
        ∷ "classified_by" ∷ [])
    ∷ create_table "observation_events" (
        "id" ∷ "level" ∷ "message" ∷ "component" ∷ "source" ∷ "sensitivity" ∷ "expires_at"
        ∷ "context_json" ∷ "reason" ∷ "emitted_at" ∷ [])
    ∷ create_table "observation_routing_audit" (
        "id" ∷ "event_id" ∷ "matched_rules_json" ∷ "candidate_handlers_json" ∷ "filtered_json"
        ∷ "dispatched_json" ∷ "expired" ∷ "notes" ∷ "decided_at" ∷ [])
    ∷ create_table "observation_dispatches" (
        "id" ∷ "event_id" ∷ "handler" ∷ "ok" ∷ "external_id" ∷ "failure_reason" ∷ "dispatched_at"
        ∷ [])
    ∷ create_table "observations"
        ("id" ∷ "level" ∷ "message" ∷ "component" ∷ "source" ∷ "context_json" ∷ "archived_at" ∷ [])
    ∷ []

abbrev pub schema_chat : List Statement
schema_chat =
    create_table "secrets" (
      "name" ∷ "description" ∷ "encrypted_value" ∷ "nonce" ∷ "allowed_tools_json" ∷ "sensitivity"
      ∷ "created_at" ∷ "updated_at" ∷ "last_accessed_at" ∷ [])
    ∷ create_table "secret_access_log" (
        "id" ∷ "secret_name" ∷ "accessor" ∷ "accessed_at" ∷ "granted" ∷ "failure_reason" ∷ "reason"
        ∷ [])
    ∷ create_index "idx_secret_access_log_secret" "secret_access_log"
        ("secret_name" ∷ "accessed_at" ∷ [])
    ∷ create_index "idx_input_events_emitted" "input_events" ("emitted_at" ∷ [])
    ∷ create_index "idx_memory_events_emitted" "memory_events" ("emitted_at" ∷ [])
    ∷ create_index "idx_observation_events_emitted" "observation_events" ("emitted_at" ∷ [])
    ∷ create_index "idx_memories_created" "memories" ("created_at" ∷ [])
    ∷ create_index "idx_observations_archived" "observations" ("archived_at" ∷ [])
    ∷ create_index "idx_observations_level" "observations" ("level" ∷ [])
    ∷ create_table "tool_state" ("tool_name" ∷ "key" ∷ "value_json" ∷ "updated_at" ∷ [])
    ∷ create_table "build_requests" (
        "id" ∷ "description" ∷ "reason" ∷ "priority" ∷ "status" ∷ "created_at" ∷ "resolved_at" ∷ [])
    ∷ create_table "sessions" (
        "id" ∷ "surface" ∷ "title" ∷ "external_id" ∷ "started_at" ∷ "last_message_at"
        ∷ "message_count" ∷ "archived_at" ∷ [])
    ∷ create_table "messages" (
        "id" ∷ "session_id" ∷ "role" ∷ "content" ∷ "tool_calls_json" ∷ "tool_call_id" ∷ "created_at"
        ∷ "seq" ∷ [])
    ∷ create_index "idx_messages_session" "messages" ("session_id" ∷ "seq" ∷ [])
    ∷ create_table "output_rule_proposals" (
        "id" ∷ "category" ∷ "urgency" ∷ "channels_json" ∷ "hit_count" ∷ "first_seen_at"
        ∷ "last_seen_at" ∷ "accepted_at" ∷ "dismissed_at" ∷ "notes" ∷ [])
    ∷ create_index "idx_rule_proposals_category_urgency" "output_rule_proposals"
        ("category" ∷ "urgency" ∷ [])
    ∷ create_table "llm_usage" (
        "id" ∷ "surface" ∷ "session_id" ∷ "model" ∷ "prompt_tokens" ∷ "completion_tokens"
        ∷ "total_tokens" ∷ "latency_ms" ∷ "created_at" ∷ [])
    ∷ create_index "idx_llm_usage_created" "llm_usage" ("created_at" ∷ [])
    ∷ create_index "idx_llm_usage_surface" "llm_usage" ("surface" ∷ [])
    ∷ create_index "idx_invocations_tool" "invocations" ("tool" ∷ [])
    ∷ create_index "idx_invocations_started" "invocations" ("started_at" ∷ [])
    ∷ create_index "idx_audit_timestamp" "audit_log" ("timestamp" ∷ [])
    ∷ create_index "idx_audit_source" "audit_log" ("source" ∷ [])
    ∷ create_index "idx_schedules_fires_at" "schedules" ("fires_at" ∷ [])
    ∷ create_index "idx_permissions_grantee" "permissions" ("grantee" ∷ [])
    ∷ create_index "idx_permission_requests_status" "permission_requests" ("status" ∷ [])
    ∷ []

-- `SCHEMA`
unfoldable pub schema : List Statement
schema = schema_outputs ++ schema_events ++ schema_chat
