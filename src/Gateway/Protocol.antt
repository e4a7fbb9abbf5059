-- ===== src/Gateway/Protocol.antt =====
-- What the dispatchers answer and record: the errors of internal/mcp/protocol/errors.go and
-- internal/a2a/protocol/errors.go, and the events of internal/audit/emitter.go. An error's code is
-- negative in Go: its absolute value stands here. The details are the object that is encoded.
use portico_gateway.Base.{ℕ, Bool, Option, List, GoString, codes}

-- What `redactScope` shows of an auth block: names, no values.
pub record Scope : Type 0 where
  pub strategy : GoString
  pub env_keys : List GoString
  pub header_keys : List GoString
  pub secret_ref : GoString
  pub audience : Option GoString

-- A value of an object; `error_text` is the message of a Go error, which is not modelled.
pub data Datum : Type 0 where
  text : GoString → Datum
  number : ℕ → Datum
  flag : Bool → Datum
  scope : Scope → Datum
  error_text : Datum

abbrev pub Payload : Type 0
Payload = List (GoString × Datum)

-- protocol.Error; the message is `none` where it is the text of another error.
pub record RpcError : Type 0 where
  pub code : ℕ
  pub message : Option GoString
  pub details : Payload

-- a2a.Error
pub record A2aError : Type 0 where
  pub code : ℕ
  pub message : Option GoString
  pub details : Payload

abbrev pub err_method_not_found : ℕ
err_method_not_found = 32601

abbrev pub err_invalid_params : ℕ
err_invalid_params = 32602

abbrev pub err_internal_error : ℕ
err_internal_error = 32603

abbrev pub err_approval_required : ℕ
err_approval_required = 32001

abbrev pub err_upstream_unavailable : ℕ
err_upstream_unavailable = 32002

abbrev pub err_policy_denied : ℕ
err_policy_denied = 32003

abbrev pub err_tool_not_enabled : ℕ
err_tool_not_enabled = 32004

abbrev pub err_agent_profile_violation : ℕ
err_agent_profile_violation = 32006

abbrev pub err_vk_scope_violation : ℕ
err_vk_scope_violation = 32007

-- The codes of the A2A protocol that differ.
abbrev pub err_unsupported_operation : ℕ
err_unsupported_operation = 32004

abbrev pub err_profile_violation : ℕ
err_profile_violation = 32010

-- audit.Event, without the time.
pub record AuditEvent : Type 0 where
  pub kind : GoString
  pub tenant_id : GoString
  pub session_id : GoString
  pub user_id : GoString
  pub payload : Payload

abbrev pub event_tool_call_start : GoString
event_tool_call_start = codes "tool_call.start"

abbrev pub event_tool_call_complete : GoString
event_tool_call_complete = codes "tool_call.complete"

abbrev pub event_tool_call_failed : GoString
event_tool_call_failed = codes "tool_call.failed"

abbrev pub event_policy_allowed : GoString
event_policy_allowed = codes "policy.allowed"

abbrev pub event_policy_denied : GoString
event_policy_denied = codes "policy.denied"

abbrev pub event_agent_profile_violation : GoString
event_agent_profile_violation = codes "agent_profile.violation"

abbrev pub event_vk_scope_violation : GoString
event_vk_scope_violation = codes "vk.scope_violation"

abbrev pub event_a2a_dispatch : GoString
event_a2a_dispatch = codes "a2a.dispatch"

abbrev pub event_credential_injected : GoString
event_credential_injected = codes "credential.injected"

abbrev pub event_credential_exchange_ng : GoString
event_credential_exchange_ng = codes "credential.exchange.failed"

-- An argument of a message to a peer.
pub data Part : Type 0 where
  data_part : List (GoString × GoString) → Part
  text_part : GoString → Part

-- a2a.MessageSendParams, as the bridge fills it.
pub record MessageSendParams : Type 0 where
  pub message_id : GoString
  pub part : Part
  pub a2a_task : GoString
  pub bridged_from : GoString

-- A call of a tool of a downstream server, with the identity it is made for and the credentials
-- that were injected.
pub record ToolCall : Type 0 where
  pub tenant_id : GoString
  pub user_id : GoString
  pub session_id : GoString
  pub server_id : GoString
  pub tool : GoString
  pub arguments : GoString
  pub progress_token : Option GoString
  pub headers : List (GoString × GoString)
  pub env : List (GoString × GoString)

-- What a request does outside, in order.
pub data Effect : Type 0 where
  audit : AuditEvent → Effect
  register_cancel : GoString → Effect
  unregister_cancel : GoString → Effect
  call_tool : ToolCall → Effect
  tick : GoString → GoString → Effect
  send_message : GoString → GoString → MessageSendParams → Effect

abbrev pub Effects : Type 0
Effects = List Effect
