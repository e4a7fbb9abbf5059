-- ===== src/Gateway/Dispatcher/Served.antt =====
-- The calls that are made past the checks: of a server that is served, if the pipeline lets it.
use portico_gateway.Base.{
  true, Option, none, some, List, [], ◌∷◌, ◌++◌, ◌≡◌, refl, sym, ◌⊎◌, inl, inr, arith, GoString,
  codes, is_empty, Bool-cases, if◌then◌else◌,
}
use mathlib.Core.List.{append-nil, append_assoc}
use portico_gateway.Approval.{Flow}
use portico_gateway.Gateway.Protocol.{
  ToolCall, Effects, RpcError, Payload, register_cancel, unregister_cancel, text,
  event_tool_call_complete, event_tool_call_failed,
}
use portico_gateway.Gateway.Pipeline.{
  Caller, CallToolParams, Server, Lookup, found, missing, broken, Pipeline, Run, PipelineResult,
}
use portico_gateway.Gateway.Evaluate.{evaluate}
use portico_gateway.Gateway.Evaluate.Consent.{Passed, evaluate-Passed, outgoing-evaluate}
use portico_gateway.Gateway.Bridge.{Context, emitted}
use portico_gateway.Gateway.Outgoing.{
  called, IsMade, IsMade-append, outgoing, outgoing-append, outgoing-emitted, outgoing-around,
}
use portico_gateway.Gateway.Dispatcher.{
  Answer, Client, Manager, Dispatcher, manager_get, acquire_from, acquire, emit_tool_call,
  tool_call, prep_payload, after_call, call_client, on_client, on_server, to_server, after_pipeline,
  through_policy, unless_error, returned, refused, broke,
}

-- The server is registered for the tenant, and enabled.
abbrev pub IsServed : GoString → Manager → GoString → Type 0
IsServed tenant m server =
    (s : Server) × (manager_get m tenant server ≡ found s) × (s.enabled ≡ true)

-- What let the call pass the pipeline, if there is one.
abbrev pub PolicyPassed : Run → Caller → CallToolParams → Flow → Option Pipeline → Type 0
PolicyPassed r sess params f none = Unit
PolicyPassed r sess params f (some p) = Passed r p sess params f

acquire_from-found :
    (supervisor : Option (Server → ToolCall → Option Client)) (c : ToolCall) (l : Lookup)
    (client : Client)
    → acquire_from supervisor c l ≡ some client
    → (s : Server) × (l ≡ found s) × (s.enabled ≡ true)
unfolding acquire_from
acquire_from-found none c l client h = absurd (cc)
acquire_from-found (some start) c (found s) client h = (s, refl, ground arith)
acquire_from-found (some start) c missing client h = absurd (cc)
acquire_from-found (some start) c broken client h = absurd (cc)

pub acquire-found :
    (m : Manager) (c : ToolCall) (client : Client)
    → acquire m c ≡ some client
    → (s : Server) × (manager_get m c.tenant_id c.server_id ≡ found s) × (s.enabled ≡ true)
unfolding acquire
acquire-found m c client h = acquire_from-found m.supervisor c _ client h

module _ (decode_object : GoString → Option (List (GoString × GoString))) (r : Run) (d : Dispatcher)
    (ctx : Context) (sess : Caller) (params : CallToolParams) (req : GoString) where
  outgoing-after_call :
      (server : GoString) (prep : Option PipelineResult) (a : Answer)
      → outgoing (after_call decode_object r d ctx sess params req server prep a).0 ≡ []
  unfolding outgoing after_call emit_tool_call
  outgoing-after_call server prep (returned body) =
      simp (outgoing-append, outgoing-emitted d.emitter sess) (unfold outgoing in refl)
  outgoing-after_call server prep (refused e) = outgoing-emitted d.emitter sess _ _
  outgoing-after_call server prep broke = outgoing-emitted d.emitter sess _ _

  outgoing-registered : outgoing (if is_empty req then [] else register_cancel req ∷ []) ≡ []
  unfolding outgoing
  outgoing-registered = elim (Bool-cases (is_empty req)) [ inl e ↦ rw e refl | inr e ↦ rw e refl ]

  outgoing-unregistered : outgoing (if is_empty req then [] else unregister_cancel req ∷ []) ≡ []
  unfolding outgoing
  outgoing-unregistered = elim (Bool-cases (is_empty req)) [ inl e ↦ rw e refl | inr e ↦ rw e refl ]

  pub outgoing-call_client :
      (server tool : GoString) (prep : Option PipelineResult) (client : Client)
      → outgoing (call_client decode_object r d ctx sess params req server tool prep client).0
        ≡ called (tool_call decode_object r d ctx sess params req server tool prep) ∷ []
  unfolding call_client emit_tool_call
  outgoing-call_client server tool prep client =
      outgoing-around _ _ _ _ _ outgoing-registered (outgoing-emitted d.emitter sess _ _)
        (outgoing-after_call server prep (client _)) outgoing-unregistered

  -- An answer is audited first of all.
  after_call-audited :
      (server : GoString) (prep : Option PipelineResult) (a : Answer)
      → (kind : GoString) × (err : Payload) × (rest : Effects) × ((after_call decode_object r d ctx
            sess params req server prep a).0
          ≡ emitted d.emitter sess kind err ++ rest)
        × ((kind ≡ event_tool_call_complete) ⊎ (kind ≡ event_tool_call_failed))
  unfolding after_call emit_tool_call
  after_call-audited server prep (returned body) = (_, _, _, refl, inl refl)
  after_call-audited server prep (refused e) = (_, _, [], sym (append-nil _), inr refl)
  after_call-audited server prep broke = (_, _, [], sym (append-nil _), inr refl)

  call_client-IsMade :
      (server tool : GoString) (prep : Option PipelineResult) (client : Client)
      → IsMade d.emitter sess
          (tool_call decode_object r d ctx sess params req server tool prep)
          (call_client decode_object r d ctx sess params req server tool prep client).0
  call_client-IsMade server tool prep client =
      let c = tool_call decode_object r d ctx sess params req server tool prep in
      let (kind, err, rest, q, closed) = after_call-audited server prep (client c) in
      record {
        one = outgoing-call_client server tool prep client;
        before = if is_empty req then [] else register_cancel req ∷ [];
        started =
            (codes "tool", text params.name)
            ∷ (codes "server_id", text server)
            ∷ (prep_payload prep ++ []);
        kind = kind;
        ended = err;
        after = rest ++ (if is_empty req then [] else unregister_cancel req ∷ []);
        whole = unfold call_client emit_tool_call in rw (q, append_assoc) refl;
        closed = closed;
      }

  -- No call, or one, of a server that is served.
  abbrev CallsServed : Manager → GoString → GoString → Option PipelineResult → Effects → Type 0
  CallsServed m server tool prep es =
      (outgoing es ≡ [])
      ⊎ (IsMade d.emitter sess (tool_call decode_object r d ctx sess params req server tool prep) es
          × IsServed sess.tenant_id m server)

  on_client-CallsServed :
      (m : Manager) (server tool : GoString) (prep : Option PipelineResult) (client : Option Client)
      → acquire m (tool_call decode_object r d ctx sess params req server tool prep) ≡ client
      → CallsServed m server tool prep
          (on_client decode_object r d ctx sess params req server tool prep client).0
  unfolding on_client tool_call outgoing
  on_client-CallsServed m server tool prep none h = inl refl
  on_client-CallsServed m server tool prep (some client) h =
      inr (call_client-IsMade server tool prep client, acquire-found m _ client h)

  on_server-CallsServed :
      (m : Manager) (server tool : GoString) (prep : Option PipelineResult) (l : Lookup)
      → CallsServed m server tool prep
          (on_server decode_object r d ctx sess params req m server tool prep l).0
  unfolding on_server outgoing
  on_server-CallsServed m server tool prep missing = inl refl
  on_server-CallsServed m server tool prep broken = inl refl
  on_server-CallsServed m server tool prep (found s) =
      on_client-CallsServed m server tool prep _ refl

  to_server-CallsServed :
      (m : Manager) (server tool : GoString) (prep : Option PipelineResult)
      → CallsServed m server tool prep
          (to_server decode_object r d ctx sess params req m server tool prep).0
  unfolding to_server
  to_server-CallsServed m server tool prep = on_server-CallsServed m server tool prep _

  -- No call, or one that the pipeline let pass, of a server that is served.
  abbrev pub CallsPassed : Manager → GoString → GoString → Flow → Option Pipeline → Effects → Type 0
  CallsPassed m server tool f policy es =
      (outgoing es ≡ [])
      ⊎ ((prep : Option PipelineResult) × IsMade d.emitter sess
            (tool_call decode_object r d ctx sess params req server tool prep) es
          × IsServed sess.tenant_id m server
          × PolicyPassed r sess params f policy)

  unless_error-CallsPassed :
      (m : Manager) (server tool : GoString) (f : Flow) (p : Pipeline) (prep : PipelineResult)
      (e : Option RpcError)
      → (evaluate r p sess params f).2 ≡ some prep
      → prep.structured_error ≡ e
      → CallsPassed m server tool f
          (some p)
          (unless_error e
            (to_server decode_object r d ctx sess params req m server tool (some prep))).0
  unfolding unless_error outgoing
  unless_error-CallsPassed m server tool f p prep (some e) h q = inl refl
  unless_error-CallsPassed m server tool f p prep none h q =
      elim (to_server-CallsServed m server tool (some prep)) [
        | inl quiet ↦ inl quiet
        | inr (one, served) ↦
            inr (some prep, one, served, evaluate-Passed r p sess params f prep h q)
      ]

  after_pipeline-CallsPassed :
      (m : Manager) (server tool : GoString) (f : Flow) (p : Pipeline)
      (prep : Option PipelineResult)
      → (evaluate r p sess params f).2 ≡ prep
      → CallsPassed m server tool f
          (some p)
          (after_pipeline decode_object r d ctx sess params req m server tool prep).0
  unfolding after_pipeline outgoing
  after_pipeline-CallsPassed m server tool f p none h = inl refl
  after_pipeline-CallsPassed m server tool f p (some prep) h =
      unless_error-CallsPassed m server tool f p prep _ h refl

  pub through_policy-CallsPassed :
      (m : Manager) (server tool : GoString) (f : Flow) (policy : Option Pipeline)
      → CallsPassed m server tool f policy
          (through_policy decode_object r d ctx sess params req m server tool f policy).1
  unfolding through_policy
  through_policy-CallsPassed m server tool f none =
      elim (to_server-CallsServed m server tool none) [
        | inl quiet ↦ inl quiet
        | inr (one, served) ↦ inr (none, one, served, tt)
      ]
  through_policy-CallsPassed m server tool f (some p) =
      let quiet = outgoing-evaluate r p sess params f in
      elim (after_pipeline-CallsPassed m server tool f p _ refl) [
        | inl none' ↦ inl (rw (outgoing-append (evaluate r p sess params f).1 _, quiet) none')
        | inr (prep, made, served, passed) ↦ inr (
          prep,
          IsMade-append d.emitter sess _ (evaluate r p sess params f).1 _ quiet made,
          served,
          passed,
        )
      ]
