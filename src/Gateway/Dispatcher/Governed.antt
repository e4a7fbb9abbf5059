-- ===== src/Gateway/Dispatcher/Governed.antt =====
-- What is true of every call that reaches a downstream server.
use portico_gateway.Base.{
  Bool, true, Option, none, some, List, [], ◌≡◌, refl, sym, subst, ◌⊎◌, inl, inr, arith, GoString,
  codes, Bool-cases,
}
use portico_gateway.Namespace.{split_tool}
use portico_gateway.Profiles.{Profile, allows_tool}
use portico_gateway.VirtualKeys.Service.{Resolved, allows_server}
use portico_gateway.Approval.{Flow}
use portico_gateway.Gateway.Protocol.{ToolCall, Effects, RpcError}
use portico_gateway.Gateway.Pipeline.{Caller, CallToolParams, Run}
use portico_gateway.Gateway.Dispatcher.Served.{IsServed, PolicyPassed, through_policy-CallsPassed}
use portico_gateway.Gateway.Bridge.{
  Context, check_tool_allowed_by_profile, check_server_allowed_by_vk, check_profile, check_vk,
  emit_agent_profile_violation, emit_vk_scope_violation, profile_violation, vk_violation,
}
use portico_gateway.Gateway.Bridged.{BridgedBy, try_mcp_to_a2a_bridge-BridgedBy}
use portico_gateway.Gateway.Outgoing.{IsMade, outgoing, outgoing-emitted}
use portico_gateway.Gateway.Dispatcher.{
  Manager, Dispatcher, tool_call, through_manager, unless_refused, through_checks, unless_bridged,
  on_split, dispatch_tool_call,
}

-- The virtual key of the request allows the server.
abbrev pub VkAllows : Option Resolved → GoString → Type 0
VkAllows none server = Unit
VkAllows (some vk) server = allows_server vk server ≡ true

-- The manager serves the server, for the tenant.
abbrev pub ManagerServes : GoString → Option Manager → GoString → Type 0
ManagerServes tenant none server = ⊥
ManagerServes tenant (some m) server = IsServed tenant m server

-- A check lets the call pass, or refuses and lets nothing out.
abbrev Checks {ℓ} : Type ℓ → Option (Effects × RpcError) → Type ℓ
Checks P c =
    ((c ≡ none) × P) ⊎ ((es : Effects) × (e : RpcError) × (c ≡ some (es, e)) × (outgoing es ≡ []))

check_profile-Checks :
    (on : Bool) (sess : Caller) (tool : GoString) (prof : Option Profile)
    → Checks (allows_tool prof tool ≡ true) (check_profile on sess tool prof)
unfolding check_profile emit_agent_profile_violation
check_profile-Checks on sess tool none = inl (refl, unfold allows_tool in refl)
check_profile-Checks on sess tool (some p) = elim (Bool-cases p.is_default) [
  | inl q ↦ inl (ground arith, unfold allows_tool in ground arith)
  | inr q ↦ elim (Bool-cases (allows_tool (some p) tool)) [
    | inl a ↦ inl (ground arith, a)
    | inr a ↦ inr (
      emit_agent_profile_violation on sess p tool (codes "tool_outside_profile"),
      profile_violation p (codes "tool") tool (codes "tool_outside_profile"),
      ground arith,
      outgoing-emitted on sess _ _,
    )
  ]
]

check_vk-Checks :
    (on : Bool) (sess : Caller) (server : GoString) (vk : Option Resolved)
    → Checks (VkAllows vk server) (check_vk on sess server vk)
unfolding check_vk emit_vk_scope_violation
check_vk-Checks on sess server none = inl (refl, tt)
check_vk-Checks on sess server (some vk) = elim (Bool-cases (allows_server vk server)) [
  | inl a ↦ inl (rw a refl, a)
  | inr a ↦ inr (
    emit_vk_scope_violation on sess vk.vk_id server,
    vk_violation vk server,
    rw a refl,
    outgoing-emitted on sess _ _,
  )
]

module _ (decode_object : GoString → Option (List (GoString × GoString))) (r : Run) (d : Dispatcher)
    (ctx : Context) (sess : Caller) (params : CallToolParams) (req : GoString) where
  -- What every call that is made has passed: it carries the session's identity and goes to the
  -- server and tool of its name; profile and virtual key allow it; the server is registered for
  -- the tenant and enabled; and the pipeline, if there is one, lets it pass.
  pub record IsGoverned (f : Flow) (c : ToolCall) : Type 0 where
    pub named : split_tool params.name ≡ some (c.server_id, c.tool)
    pub tenant : c.tenant_id ≡ sess.tenant_id
    pub user : c.user_id ≡ sess.user_id
    pub arguments : c.arguments ≡ params.arguments
    pub in_profile : allows_tool ctx.profile params.name ≡ true
    pub in_key : VkAllows ctx.vk c.server_id
    pub served : ManagerServes sess.tenant_id d.manager c.server_id
    pub passed : PolicyPassed r sess params f d.policy

  -- Nothing goes out, or one governed call, or one message that the bridge lets out.
  abbrev pub LetsOut : Flow → Effects → Type 0
  LetsOut f es =
      (outgoing es ≡ [])
      ⊎ ((c : ToolCall) × IsMade d.emitter sess c es × IsGoverned f c)
      ⊎ BridgedBy decode_object d.emitter ctx sess params req d.a2a_bridge es

  through_manager-LetsOut :
      (server tool : GoString) (f : Flow) (manager : Option Manager)
      → d.manager ≡ manager
      → split_tool params.name ≡ some (server, tool)
      → allows_tool ctx.profile params.name ≡ true
      → VkAllows ctx.vk server
      → LetsOut f (through_manager decode_object r d ctx sess params req server tool f manager).1
  unfolding through_manager
  through_manager-LetsOut server tool f none q s a k = inl (unfold outgoing in refl)
  through_manager-LetsOut server tool f (some m) q s a k =
      elim (through_policy-CallsPassed decode_object r d ctx sess params req m server tool f
        d.policy) [
          | inl quiet ↦ inl quiet
          | inr (prep, one, served, passed) ↦ inr (
              inl (
                tool_call decode_object r d ctx sess params req server tool prep,
                one,
                unfold tool_call in
                    record {
                      named = s;
                      tenant = refl;
                      user = refl;
                      arguments = refl;
                      in_profile = a;
                      in_key = k;
                      served = subst (λ o. ManagerServes sess.tenant_id o server) (sym q) served;
                      passed = passed;
                    },
              ))
        ]

  through_checks-LetsOut :
      (server tool : GoString) (f : Flow)
      → split_tool params.name ≡ some (server, tool)
      → LetsOut f (through_checks decode_object r d ctx sess params req server tool f).1
  unfolding through_checks check_tool_allowed_by_profile check_server_allowed_by_vk unless_refused
  through_checks-LetsOut server tool f s =
      elim (check_profile-Checks d.emitter sess params.name ctx.profile) [
        | inr (es, e, c, quiet) ↦ rw c (inl quiet)
        | inl (c, a) ↦ rw c (elim (check_vk-Checks d.emitter sess server ctx.vk) [
          | inr (es, e, c', quiet) ↦ rw c' (inl quiet)
          | inl (c', k) ↦ rw c' (through_manager-LetsOut server tool f d.manager refl s a k)
        ])
      ]

  on_split-LetsOut :
      (f : Flow) (split : Option (GoString × GoString))
      → split_tool params.name ≡ split
      → LetsOut f (on_split decode_object r d ctx sess params req f split).1
  unfolding on_split unless_bridged
  on_split-LetsOut f none s = inl (unfold outgoing in refl)
  on_split-LetsOut f (some (server, tool)) s =
      elim (try_mcp_to_a2a_bridge-BridgedBy decode_object d.emitter ctx sess params req
        d.a2a_bridge) [
          | inl c ↦ rw c (through_checks-LetsOut server tool f s)
          | inr (es, answer, c, out) ↦ rw c (inr (inr out))
        ]

  -- Of a call of a tool, at most one thing goes out of the gateway: a call of the server and tool
  -- of its name, with the session's identity, audited before and behind, that the profile, the
  -- virtual key, the registry and the pipeline all let pass, or the message of a bridge of the
  -- profile for the tool. The message goes to the id of a peer that the tenant registered under the
  -- peer name of the bridge; the profile allows the name that the id has when it is sent, and the
  -- task of the bridge.
  pub dispatch_tool_call-LetsOut :
      (f : Flow) → LetsOut f (dispatch_tool_call decode_object r d ctx sess params req f).1
  unfolding dispatch_tool_call
  dispatch_tool_call-LetsOut f = on_split-LetsOut f _ refl
