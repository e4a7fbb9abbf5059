-- ===== src/Gateway/Evaluate.antt =====
-- `Evaluate` of internal/server/mcpgw/policy_pipeline.go, over the parts of Pipeline.
pub mod Consent
pub mod Pending
use portico_gateway.Base.{
  ℕ, ◌/◌, ◌^◌, Bool, true, false, not, ◌&&◌, Option, none, some, List, [], ◌∷◌, ◌++◌, if◌then◌else◌,
  GoString, codes, str_eq,
}
use portico_gateway.Policy.Engine.{Decision, Engine, evaluate_tool_call}
use portico_gateway.Approval.Table.{expired}
use portico_gateway.Approval.{
  Ruling, CallContext, Flow, Outcome, run, is_approved, is_fallback_required,
}
use portico_gateway.Gateway.Protocol.{
  text, flag, error_text, Payload, RpcError, Effects, err_policy_denied, event_policy_allowed,
  event_policy_denied,
}
use portico_gateway.Gateway.Pipeline.{
  Caller, CallToolParams, Pipeline, Run, PipelineResult, Evaluated, PrepTarget, event, refused,
  policy_denied_error, approval_required_error, resolve_credentials,
}

abbrev pub reason_user_denied : GoString
reason_user_denied = codes "user_denied"

abbrev pub reason_approval_timeout : GoString
reason_approval_timeout = codes "approval_timeout"

abbrev pub ruling : Decision → Ruling
ruling dec = record {
  tool = dec.tool;
  risk_class = dec.risk_class;
  approval_timeout = dec.approval_timeout / 10 ^ 6;
}

abbrev pub call_context : Run → Decision → CallToolParams → CallContext
call_context r dec params = record {
  tool = dec.tool;
  arguments = params.arguments;
  skill_id = dec.skill_id;
  risk_class = dec.risk_class;
  approval_id = r.resume_approval_id;
}

abbrev credential_error : Decision → RpcError
credential_error dec = record {
  code = err_policy_denied;
  message = some (codes "credential resolution failed");
  details = (codes "tool", text dec.tool) ∷ (codes "error", error_text) ∷ [];
}

-- The last part of `Evaluate`, from the resolved credentials.
unfoldable pub with_target : Decision → Option Outcome → Option PrepTarget → PipelineResult
with_target dec out none =
    refused (record dec { allow = false; reason = codes "credential_lookup_failed" }) out
      (credential_error dec)
with_target dec out (some target) = record {
  decision = dec;
  outcome = out;
  prep_target = some target;
  structured_error = none;
}

unfoldable pub credentials : Pipeline → Caller → Decision → Option Outcome → Flow → Evaluated
credentials p sess dec out f =
    let (es, target) = resolve_credentials p sess dec in (f, es, some (with_target dec out target))

-- The `switch` on the outcome of the approval.
unfoldable pub after_approval : Pipeline → Caller → Decision → Outcome → Flow → Evaluated
after_approval p sess dec o f =
    if is_fallback_required o
    then (
      f,
      [],
      some (
          refused (record dec { allow = false }) (some o) (approval_required_error dec o.approval)),
    )
    else if not (is_approved o)
    then (let dec' = record dec {
      allow = false;
      reason = if str_eq o.decision expired then reason_approval_timeout else reason_user_denied;
    } in
        (f, [], some (refused dec' (some o) (policy_denied_error dec'))))
    else credentials p sess dec (some o) f

unfoldable pub approve : Run → Caller → CallToolParams → Decision → Flow → Flow × Option Outcome
approve r sess params dec f =
    run r.sha256_hex r.unmarshal r.channel r.faults sess.tenant_id sess.id sess.user_id r.now
      r.nanos (ruling dec) (call_context r dec params) r.decided r.reply f

unfoldable pub on_approval : Pipeline → Caller → Decision → Flow × Option Outcome → Evaluated
on_approval p sess dec (f, none) = (f, [], none)
on_approval p sess dec (f, some o) = after_approval p sess dec o f

unfoldable pub gate : Run → Pipeline → Caller → CallToolParams → Decision → Flow → Evaluated
gate r p sess params dec f =
    if dec.requires_approval && p.approvals
    then on_approval p sess dec (approve r sess params dec f)
    else credentials p sess dec none f

abbrev allowed_payload : Decision → Payload
allowed_payload dec =
    (codes "tool", text dec.tool)
    ∷ (codes "risk_class", text dec.risk_class)
    ∷ (codes "requires_approval", flag dec.requires_approval)
    ∷ (codes "skill_id", text dec.skill_id)
    ∷ []

-- The rest of `Evaluate` from the decision of the engine.
unfoldable pub after_policy : Run → Pipeline → Caller → CallToolParams → Decision → Flow → Evaluated
after_policy r p sess params dec f =
    if dec.allow
    then (let (f', es, out) = gate r p sess params dec f in
        (f', event sess event_policy_allowed (allowed_payload dec) ∷ es, out))
    else (
      f,
      event sess event_policy_denied
            ((codes "tool", text dec.tool) ∷ (codes "reason", text dec.reason) ∷ [])
          ∷ [],
      some (refused dec none (policy_denied_error dec)),
    )

-- From the answer of the engine on, and from the engine on.
unfoldable pub on_decision :
    Run → Pipeline → Caller → CallToolParams → Flow → Option Decision → Evaluated
on_decision r p sess params f none = (f, [], none)
on_decision r p sess params f (some dec) = after_policy r p sess params dec f

unfoldable pub on_engine :
    Run → Pipeline → Caller → CallToolParams → Flow → Option Engine → Evaluated
on_engine r p sess params f none = (f, [], none)
on_engine r p sess params f (some engine) =
    on_decision r p sess params f (evaluate_tool_call engine sess.tenant_id sess.id params.name)

unfoldable pub evaluate : Run → Pipeline → Caller → CallToolParams → Flow → Evaluated
evaluate r p sess params f = on_engine r p sess params f p.engine
