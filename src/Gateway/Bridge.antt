-- ===== src/Gateway/Bridge.antt =====
-- internal/server/mcpgw/a2a_bridge.go, and the two checks of agent_profile.go and vk_allowlist.go.
-- The decoding of a JSON object is a parameter.
use portico_gateway.Base.{
  Bool, not, ◌&&◌, Option, none, some, List, [], ◌∷◌, ◌++◌, if◌then◌else◌, GoString, codes,
  is_empty,
}
use portico_gateway.Profiles.{
  Profile, McpToA2aBridge, allows_tool, allows_a2a_task, bridge_for_mcp_tool,
}
use portico_gateway.VirtualKeys.Service.{Resolved, allows_server}
use portico_gateway.Gateway.Protocol.{
  text, number, RpcError, Payload, Part, data_part, text_part, MessageSendParams, Effects,
  err_agent_profile_violation, err_vk_scope_violation, err_upstream_unavailable,
  event_agent_profile_violation, event_vk_scope_violation, event_a2a_dispatch,
  event_tool_call_failed,
}
use portico_gateway.Gateway.A2a
use portico_gateway.Gateway.A2a.{send_message_by_peer_name}
use portico_gateway.Gateway.Pipeline.{Caller, CallToolParams, event}

-- What a request carries: the profile and the virtual key of its context.
pub record Context : Type 0 where
  pub profile : Option Profile
  pub vk : Option Resolved

-- The answer to a call: the body of the result, or an error.
pub data Response : Type 0 where
  ok : GoString → Response
  bridged : GoString → Response
  error : RpcError → Response

-- An event, if the dispatcher has an emitter.
abbrev pub emitted : Bool → Caller → GoString → Payload → Effects
emitted on sess kind payload = if on then event sess kind payload ∷ [] else []

unfoldable pub emit_agent_profile_violation :
    Bool → Caller → Profile → GoString → GoString → Effects
emit_agent_profile_violation on sess prof tool reason =
    emitted on sess event_agent_profile_violation (
      (codes "profile_id", text prof.id)
      ∷ (codes "tool", text tool)
      ∷ (codes "reason", text reason)
      ∷ [])

abbrev pub profile_violation : Profile → GoString → GoString → GoString → RpcError
profile_violation prof key tool reason = record {
  code = err_agent_profile_violation;
  message = some (codes "agent profile violation");
  details =
      (codes "profile_id", text prof.id) ∷ (key, text tool) ∷ (codes "reason", text reason) ∷ [];
}

-- The check of a tool against a profile; `none` lets the call pass.
unfoldable pub check_profile :
    Bool → Caller → GoString → Option Profile → Option (Effects × RpcError)
check_profile on sess tool none = none
check_profile on sess tool (some prof) =
    if prof.is_default
    then none
    else if allows_tool (some prof) tool
    then none
    else some (
      emit_agent_profile_violation on sess prof tool (codes "tool_outside_profile"),
      profile_violation prof (codes "tool") tool (codes "tool_outside_profile"),
    )

unfoldable pub check_tool_allowed_by_profile :
    Bool → Context → Caller → GoString → Option (Effects × RpcError)
check_tool_allowed_by_profile on ctx sess tool = check_profile on sess tool ctx.profile

unfoldable pub emit_vk_scope_violation : Bool → Caller → GoString → GoString → Effects
emit_vk_scope_violation on sess id server = emitted on sess event_vk_scope_violation (
    (codes "vk_id", text id)
    ∷ (codes "server_id", text server)
    ∷ (codes "reason", text (codes "server_outside_vk_allowlist"))
    ∷ [])

abbrev pub vk_violation : Resolved → GoString → RpcError
vk_violation vk server = record {
  code = err_vk_scope_violation;
  message = some (codes "virtual key scope violation");
  details =
      (codes "vk_id", text vk.vk_id)
      ∷ (codes "server_id", text server)
      ∷ (codes "reason", text (codes "server_outside_vk_allowlist"))
      ∷ [];
}

-- The check of a server against a virtual key, likewise.
unfoldable pub check_vk : Bool → Caller → GoString → Option Resolved → Option (Effects × RpcError)
check_vk on sess server none = none
check_vk on sess server (some vk) =
    if allows_server vk server
    then none
    else some (emit_vk_scope_violation on sess vk.vk_id server, vk_violation vk server)

unfoldable pub check_server_allowed_by_vk :
    Bool → Context → Caller → GoString → Option (Effects × RpcError)
check_server_allowed_by_vk on ctx sess server = check_vk on sess server ctx.vk

abbrev pub namespaced_task : McpToA2aBridge → GoString
namespaced_task b = b.a2a_peer ++ b'.' ∷ b.a2a_task

-- `prof != nil && !prof.IsDefault && !prof.AllowsA2ATask(namespacedTask)`
unfoldable pub task_refused : Option Profile → GoString → Option Profile
task_refused none task = none
task_refused (some prof) task =
    if not prof.is_default && not (allows_a2a_task (some prof) task) then some prof else none

module _ (decode_object : GoString → Option (List (GoString × GoString))) where
  unfoldable pub mcp_args_to_a2a_part : GoString → Part
  mcp_args_to_a2a_part args =
      if is_empty args
      then data_part []
      else elim (decode_object args) [ none ↦ text_part args | some m ↦ data_part m ]

  unfoldable pub bridge_message : McpToA2aBridge → CallToolParams → GoString → MessageSendParams
  bridge_message b params req = record {
    message_id = if is_empty req then codes "mcp-bridge" else codes "mcp-bridge-" ++ req;
    part = mcp_args_to_a2a_part params.arguments;
    a2a_task = b.a2a_task;
    bridged_from = params.name;
  }

  abbrev bridge_payload : McpToA2aBridge → CallToolParams → Payload
  bridge_payload b params =
      (codes "mcp_tool", text params.name)
      ∷ (codes "a2a_peer", text b.a2a_peer)
      ∷ (codes "a2a_task", text b.a2a_task)
      ∷ []

  -- The event and the answer of a bridged call.
  unfoldable pub bridge_answer :
      Bool → Caller → McpToA2aBridge → CallToolParams → A2a.Reply → Effects × Response
  bridge_answer on sess b params (A2a.Reply.ok raw) =
      (emitted on sess event_a2a_dispatch (bridge_payload b params), bridged raw)
  bridge_answer on sess b params (A2a.Reply.error e) = (
    emitted on sess event_tool_call_failed
        (bridge_payload b params ++ (codes "error_code", number e.code) ∷ []),
    error (record {
      code = err_upstream_unavailable;
      message = e.message;
      details =
          (codes "a2a_code", number e.code)
          ∷ (codes "peer", text b.a2a_peer)
          ∷ (codes "a2a_task", text b.a2a_task)
          ∷ [];
    }),
  )

  -- The call over A2A unless the profile refuses its task.
  unfoldable pub send_bridged :
      A2a.Dispatcher
      → Bool
      → Context
      → Caller
      → McpToA2aBridge
      → CallToolParams
      → GoString
      → Option Profile
      → Effects × Response
  send_bridged a2a on ctx sess b params req (some prof) = (
    emit_agent_profile_violation on sess prof (namespaced_task b)
        (codes "a2a_task_outside_profile"),
    error (
        profile_violation prof (codes "a2a_task") (namespaced_task b)
          (codes "a2a_task_outside_profile")),
  )
  send_bridged a2a on ctx sess b params req none =
      let (es, reply) =
        send_message_by_peer_name a2a ctx.profile sess.tenant_id b.a2a_peer
          (bridge_message b params req) in
      let (es', answer) = bridge_answer on sess b params reply in (es ++ es', answer)

  unfoldable pub on_bridge :
      A2a.Dispatcher
      → Bool
      → Context
      → Caller
      → CallToolParams
      → GoString
      → Option McpToA2aBridge
      → Option (Effects × Response)
  on_bridge a2a on ctx sess params req none = none
  on_bridge a2a on ctx sess params req (some b) =
      some
        (send_bridged a2a on ctx sess b params req (task_refused ctx.profile (namespaced_task b)))

  -- `none` where no bridge applies.
  unfoldable pub try_mcp_to_a2a_bridge :
      Option A2a.Dispatcher
      → Bool
      → Context
      → Caller
      → CallToolParams
      → GoString
      → Option (Effects × Response)
  try_mcp_to_a2a_bridge none on ctx sess params req = none
  try_mcp_to_a2a_bridge (some a2a) on ctx sess params req =
      on_bridge a2a on ctx sess params req (bridge_for_mcp_tool ctx.profile params.name)
