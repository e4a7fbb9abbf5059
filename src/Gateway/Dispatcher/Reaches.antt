-- ===== src/Gateway/Dispatcher/Reaches.antt =====
-- What lets a call reach its server, and what the caller is then told.
use portico_gateway.Base.{Option, some, List, [], ◌∷◌, ◌≡◌, GoString}
use portico_gateway.Approval.{Flow}
use portico_gateway.Gateway.Pipeline.{Caller, CallToolParams, Pipeline, Run, PipelineResult}
use portico_gateway.Gateway.Bridge.{Context, Response, ok, error}
use portico_gateway.Gateway.Protocol.{ToolCall, Effects}
use portico_gateway.Gateway.Outgoing.{called, outgoing}
use portico_gateway.Gateway.Dispatcher.{
  Answer, Client, Dispatcher, prepared, returned, refused, broke, unavailable,
}

-- What the caller is told of the client's answer.
abbrev pub told : GoString → Answer → Response
told server (returned body) = ok body
told server (refused e) = error e
told server broke = unavailable server

module _ (decode_object : GoString → Option (List (GoString × GoString))) (r : Run) (d : Dispatcher)
    (ctx : Context) (sess : Caller) (params : CallToolParams) (req : GoString) where
  -- The call is of the server's tool, for the caller, with the arguments as they came and the
  -- credentials that the pipeline prepared.
  abbrev pub Carries : GoString → GoString → PipelineResult → ToolCall → Type 0
  Carries server tool prep c =
      (c.server_id ≡ server)
      × (c.tool ≡ tool)
      × (c.tenant_id ≡ sess.tenant_id)
      × (c.user_id ≡ sess.user_id)
      × (c.session_id ≡ sess.id)
      × (c.arguments ≡ params.arguments)
      × (c.headers ≡ (prepared (some prep)).headers)
      × (c.env ≡ (prepared (some prep)).env)

  -- What was done and answered.
  abbrev pub outcome : Flow × Effects × Response → Effects × Response
  outcome x = (x.1, x.2)

  -- The one thing that goes out is the call, and the caller is told what the client answers to it.
  abbrev pub Delivers : GoString → ToolCall → Client → Effects × Response → Type 0
  Delivers server c client x = (outgoing x.0 ≡ called c ∷ []) × (x.1 ≡ told server (client c))
