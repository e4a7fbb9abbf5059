-- ===== src/Gateway/Dispatcher.antt =====
-- `dispatchToolCall` of internal/server/mcpgw/dispatcher.go, with Get, Acquire and Tick of
-- internal/mcp/southbound/manager. The supervisor and the clients it starts are functions, and a
-- result is taken to be encoded without an error; the duration of a call is left out of its events.
pub mod Served
pub mod Governed
pub mod Reaches
use portico_gateway.Base.{
  ℕ, Bool, true, false, not, ◌&&◌, Option, none, some, List, [], ◌∷◌, ◌++◌, if◌then◌else◌, GoString,
  codes, is_empty,
}
use portico_gateway.Base.Assoc.{lookup}
use portico_gateway.Namespace.{split_tool}
use portico_gateway.Approval.{Flow}
use portico_gateway.Gateway.Protocol.{
  text, error_text, RpcError, Payload, ToolCall, Effect, Effects, register_cancel,
  unregister_cancel, call_tool, tick, err_tool_not_enabled, err_upstream_unavailable,
  err_internal_error, event_tool_call_start, event_tool_call_complete, event_tool_call_failed,
}
use portico_gateway.Gateway.A2a
use portico_gateway.Gateway.Pipeline.{
  Caller, CallToolParams, Server, Lookup, found, missing, broken, PrepTarget, Pipeline, Run,
  PipelineResult, optional,
}
use portico_gateway.Gateway.Evaluate.{evaluate}
use portico_gateway.Gateway.Bridge.{
  Context, Response, ok, bridged, error, emitted, try_mcp_to_a2a_bridge,
  check_tool_allowed_by_profile, check_server_allowed_by_vk,
}

-- What a downstream client answers to a call: a result, a JSON-RPC error, or no answer.
pub data Answer : Type 0 where
  returned : GoString → Answer
  refused : RpcError → Answer
  broke : Answer

abbrev pub Client : Type 0
Client = ToolCall → Answer

-- manager.Manager: the registry, and the supervisor, which starts a client for a server and a call
-- with its credentials, or fails.
pub record Manager : Type 0 where
  pub registry : Option (GoString → GoString → Lookup)
  pub supervisor : Option (Server → ToolCall → Option Client)

pub record Dispatcher : Type 0 where
  pub manager : Option Manager
  pub policy : Option Pipeline
  pub a2a_bridge : Option A2a.Dispatcher
  pub emitter : Bool

unfoldable pub manager_get : Manager → GoString → GoString → Lookup
manager_get m tenant server = elim m.registry [ none ↦ broken | some get ↦ get tenant server ]

-- `Acquire` from the supervisor and the answer of Get on.
unfoldable pub acquire_from :
    Option (Server → ToolCall → Option Client) → ToolCall → Lookup → Option Client
acquire_from none c l = none
acquire_from (some start) c (found server) = if not server.enabled then none else start server c
acquire_from (some start) c missing = none
acquire_from (some start) c broken = none

unfoldable pub acquire : Manager → ToolCall → Option Client
acquire m c = acquire_from m.supervisor c (manager_get m c.tenant_id c.server_id)

-- The progress token of `_meta`; the decoding of its object is a parameter.
unfoldable pub extract_progress_token :
    (GoString → Option (List (GoString × GoString))) → GoString → Option GoString
extract_progress_token decode_object meta =
    if is_empty meta
    then none
    else elim (decode_object meta) [ none ↦ none | some m ↦ lookup (codes "progressToken") m ]

abbrev pub prepared : Option PipelineResult → PrepTarget
prepared none = record { env = []; headers = [] }
prepared (some prep) = elim prep.prep_target [
  | none ↦ record { env = []; headers = [] }
  | some target ↦ target
]

abbrev pub prep_payload : Option PipelineResult → Payload
prep_payload none = []
prep_payload (some prep) =
    optional (codes "skill_id") prep.decision.skill_id
    ++ optional (codes "risk_class") prep.decision.risk_class

abbrev pub rpc_error : ℕ → GoString → GoString → GoString → Response
rpc_error code message key value =
    error (record { code = code; message = some message; details = (key, text value) ∷ [] })

-- An upstream error, with the text of the Go error.
abbrev pub unavailable : GoString → Response
unavailable server = error (record {
  code = err_upstream_unavailable;
  message = none;
  details = (codes "server_id", text server) ∷ [];
})

-- `if prep.StructuredError != nil`
unfoldable pub unless_error : Option RpcError → Effects × Response → Effects × Response
unless_error (some e) rest = ([], error e)
unless_error none rest = rest

-- A check that refuses ends the call.
unfoldable pub unless_refused :
    Option (Effects × RpcError) → Flow → Flow × Effects × Response → Flow × Effects × Response
unless_refused (some (es, e)) f rest = (f, es, error e)
unless_refused none f rest = rest

-- Past the bridge, if none applies.
unfoldable pub unless_bridged :
    Option (Effects × Response) → Flow → Flow × Effects × Response → Flow × Effects × Response
unless_bridged (some (es, answer)) f rest = (f, es, answer)
unless_bridged none f rest = rest

module _ (decode_object : GoString → Option (List (GoString × GoString))) (r : Run) (d : Dispatcher)
    (ctx : Context) (sess : Caller) (params : CallToolParams) (req : GoString) where
  unfoldable pub emit_tool_call : GoString → GoString → Option PipelineResult → Payload → Effects
  emit_tool_call kind server prep err = emitted d.emitter sess kind (
      (codes "tool", text params.name)
      ∷ (codes "server_id", text server)
      ∷ (prep_payload prep ++ err))

  unfoldable pub tool_call : GoString → GoString → Option PipelineResult → ToolCall
  tool_call server tool prep = record {
    tenant_id = sess.tenant_id;
    user_id = sess.user_id;
    session_id = sess.id;
    server_id = server;
    tool = tool;
    arguments = params.arguments;
    progress_token = extract_progress_token decode_object params.meta;
    headers = (prepared prep).headers;
    env = (prepared prep).env;
  }

  -- What follows the answer of the client.
  unfoldable pub after_call : GoString → Option PipelineResult → Answer → Effects × Response
  after_call server prep (returned body) = (
    emit_tool_call event_tool_call_complete server prep [] ++ tick sess.tenant_id server ∷ [],
    ok body,
  )
  after_call server prep (refused e) = (
    emit_tool_call event_tool_call_failed server prep ((codes "error", error_text) ∷ []),
    error e,
  )
  after_call server prep broke = (
    emit_tool_call event_tool_call_failed server prep ((codes "error", error_text) ∷ []),
    unavailable server,
  )

  -- The call between the registration of its cancel function and the deferred removal.
  unfoldable pub call_client :
      GoString → GoString → Option PipelineResult → Client → Effects × Response
  call_client server tool prep client =
      let c = tool_call server tool prep in
      let (es, answer) = after_call server prep (client c) in
      (
        (if is_empty req then [] else register_cancel req ∷ [])
            ++ (emit_tool_call event_tool_call_start server prep []
                ++ (call_tool c
                    ∷ (es ++ (if is_empty req then [] else unregister_cancel req ∷ [])))),
        answer,
      )

  -- From the acquired client, and from the look-up of the server on.
  unfoldable pub on_client :
      GoString → GoString → Option PipelineResult → Option Client → Effects × Response
  on_client server tool prep none = ([], unavailable server)
  on_client server tool prep (some client) = call_client server tool prep client

  unfoldable pub on_server :
      Manager → GoString → GoString → Option PipelineResult → Lookup → Effects × Response
  on_server m server tool prep missing =
      ([], rpc_error err_tool_not_enabled (codes "unknown server") (codes "server_id") server)
  on_server m server tool prep broken = ([], unavailable server)
  on_server m server tool prep (found _) =
      on_client server tool prep (acquire m (tool_call server tool prep))

  unfoldable pub to_server :
      Manager → GoString → GoString → Option PipelineResult → Effects × Response
  to_server m server tool prep = on_server m server tool prep (manager_get m sess.tenant_id server)

  -- What follows the pipeline; `none` is an error of it.
  unfoldable pub after_pipeline :
      Manager → GoString → GoString → Option PipelineResult → Effects × Response
  after_pipeline m server tool none =
      ([], error (record { code = err_internal_error; message = none; details = [] }))
  after_pipeline m server tool (some prep) =
      unless_error prep.structured_error (to_server m server tool (some prep))

  -- From the pipeline on, if there is one.
  unfoldable pub through_policy :
      Manager → GoString → GoString → Flow → Option Pipeline → Flow × Effects × Response
  through_policy m server tool f none =
      let (es, answer) = to_server m server tool none in (f, es, answer)
  through_policy m server tool f (some p) =
      let (f', es, prep) = evaluate r p sess params f in
      let (es', answer) = after_pipeline m server tool prep in (f', es ++ es', answer)

  unfoldable pub through_manager :
      GoString → GoString → Flow → Option Manager → Flow × Effects × Response
  through_manager server tool f none = (
    f,
    [],
    error (record {
      code = err_upstream_unavailable;
      message = some (codes "manager not configured");
      details = [];
    }),
  )
  through_manager server tool f (some m) = through_policy m server tool f d.policy

  -- From the checks of the profile and of the virtual key on.
  unfoldable pub through_checks : GoString → GoString → Flow → Flow × Effects × Response
  through_checks server tool f =
      unless_refused (check_tool_allowed_by_profile d.emitter ctx sess params.name) f (
        unless_refused (check_server_allowed_by_vk d.emitter ctx sess server) f
          (through_manager server tool f d.manager))

  unfoldable pub on_split : Flow → Option (GoString × GoString) → Flow × Effects × Response
  on_split f none = (
    f,
    [],
    rpc_error err_tool_not_enabled (codes "tool name must be qualified as <server>.<tool>")
        (codes "name") params.name,
  )
  on_split f (some (server, tool)) =
      unless_bridged
        (try_mcp_to_a2a_bridge decode_object d.a2a_bridge d.emitter ctx sess params req) f
        (through_checks server tool f)

  unfoldable pub dispatch_tool_call : Flow → Flow × Effects × Response
  dispatch_tool_call f = on_split f (split_tool params.name)
