-- ===== src/Stp/Contracts.antt =====
-- stp_contracts.py: the closed sets of values, the required fields, and the bound on their number.
use specora_verify.Base.{ℕ, ◌+◌, ltb, String, Bool, List, [], ◌∷◌, length}

abbrev pub stp_protocol_version : String
stp_protocol_version = "1.0.0"

abbrev pub stp_message_types : List String
stp_message_types =
    "agent.identity" ∷ "execution.authorize" ∷ "execution.record" ∷ "execution.attest" ∷ []

abbrev pub stp_response_types : List String
stp_response_types =
    "agent.identity.response" ∷ "execution.authorize.response" ∷ "execution.record.response"
    ∷ "execution.attest.response" ∷ []

abbrev pub stp_decisions : List String
stp_decisions = "allow" ∷ "block" ∷ "require_approval" ∷ "restrict" ∷ []

abbrev pub stp_runtime_types : List String
stp_runtime_types =
    "cursor" ∷ "aider" ∷ "codex_cli" ∷ "claude_code" ∷ "windsurf" ∷ "langgraph" ∷ "crewai"
    ∷ "autogen" ∷ "temporal" ∷ "custom" ∷ []

abbrev pub stp_capabilities : List String
stp_capabilities =
    "read_documents" ∷ "read_code" ∷ "read_data" ∷ "write_code" ∷ "write_documents" ∷ "write_data"
    ∷ "execute_code" ∷ "execute_commands" ∷ "invoke_models" ∷ "access_network" ∷ "access_database"
    ∷ "privileged_operations" ∷ []

abbrev pub stp_action_types : List String
stp_action_types =
    "code_read" ∷ "code_edit" ∷ "code_execute" ∷ "file_read" ∷ "file_write" ∷ "model_invoke"
    ∷ "command_execute" ∷ "network_request" ∷ "deploy_service" ∷ "database_operation"
    ∷ "document_access" ∷ "workflow_execution" ∷ "agent_coordination" ∷ "secret_access"
    ∷ "human_approval_request" ∷ []

abbrev pub stp_execution_statuses : List String
stp_execution_statuses = "success" ∷ "failure" ∷ "timeout" ∷ "cancelled" ∷ "partial" ∷ []

abbrev pub stp_attestation_statuses : List String
stp_attestation_statuses = "pending" ∷ "signed" ∷ "verified" ∷ "invalid" ∷ []

abbrev pub stp_backend_types : List String
stp_backend_types =
    "llm" ∷ "local_model" ∷ "fine_tuned" ∷ "tool_api" ∷ "workflow_engine" ∷ "human_operator" ∷ []

abbrev pub stp_required_fields : List (String × List String)
stp_required_fields =
    ("agent.identity", "protocol_version" ∷ "message_type" ∷ "timestamp" ∷ "payload" ∷ [])
    ∷ ("agent.identity.response", "protocol_version" ∷ "message_type" ∷ "timestamp" ∷ "result" ∷ [])
    ∷ ("execution.authorize", "protocol_version" ∷ "message_type" ∷ "timestamp" ∷ "payload" ∷ [])
    ∷ (
      "execution.authorize.response",
      "protocol_version" ∷ "message_type" ∷ "timestamp" ∷ "result" ∷ [],
    )
    ∷ ("execution.record", "protocol_version" ∷ "message_type" ∷ "timestamp" ∷ "payload" ∷ [])
    ∷ (
      "execution.record.response",
      "protocol_version" ∷ "message_type" ∷ "timestamp" ∷ "result" ∷ [],
    )
    ∷ ("execution.attest", "protocol_version" ∷ "message_type" ∷ "timestamp" ∷ "payload" ∷ [])
    ∷ (
      "execution.attest.response",
      "protocol_version" ∷ "message_type" ∷ "timestamp" ∷ "result" ∷ [],
    )
    ∷ []

abbrev pub stp_payload_required_fields : List (String × List String)
stp_payload_required_fields =
    ("agent.identity", "agent_name" ∷ "runtime" ∷ [])
    ∷ ("execution.authorize", "agent_identity_id" ∷ "action_type" ∷ [])
    ∷ ("execution.record", "authorization_id" ∷ "status" ∷ [])
    ∷ ("execution.attest", "execution_ids" ∷ [])
    ∷ []

abbrev pub stp_result_required_fields : List (String × List String)
stp_result_required_fields =
    (
      "agent.identity.response",
      "agent_identity_id" ∷ "trust_tier" ∷ "trust_score" ∷ "lifecycle_state" ∷ [],
    )
    ∷ ("execution.authorize.response", "decision" ∷ [])
    ∷ ("execution.record.response", "recorded" ∷ [])
    ∷ ("execution.attest.response", "attestation_bundle" ∷ [])
    ∷ []

unfoldable pub get_total_enum_cardinality : ℕ
get_total_enum_cardinality =
    length stp_message_types
    + length stp_decisions
    + length stp_runtime_types
    + length stp_capabilities
    + length stp_action_types
    + length stp_execution_statuses
    + length stp_attestation_statuses
    + length stp_backend_types

-- `false` is the `AssertionError`.
unfoldable pub validate_enum_cardinality : Bool
validate_enum_cardinality = ltb get_total_enum_cardinality 100
