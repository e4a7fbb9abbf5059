-- ===== src/Gateway/Evaluate/Consent.antt =====
-- What it takes for the pipeline to let a call pass.
use portico_gateway.Base.{
  true, false, ◌&&◌, Option, none, some, [], ◌≡◌, refl, ◌⊎◌, inl, inr, arith, GoString, Bool-cases,
  Option-cases,
}
use mathlib.Core.Path.{Σ_path}
use portico_gateway.Policy.Engine.{Decision, Engine, evaluate_tool_call}
use portico_gateway.Policy.Engine.Admission.{IsAdmitted, evaluate_tool_call_iff}
use portico_gateway.Approval.{Flow, Outcome, is_approved}
use portico_gateway.Approval.Decision.{IsGranted, Grants, run_approved}
use portico_gateway.Gateway.Pipeline.{
  Caller, CallToolParams, Pipeline, Run, PipelineResult, Server, Injector, event, apply_injector,
  inject_for, inject_found, inject_by, resolve_credentials, found, missing, broken, Lookup,
}
use portico_gateway.Gateway.Evaluate.{
  ruling, call_context, credentials, after_approval, approve, on_approval, gate, after_policy,
  on_decision, on_engine, evaluate,
}
use portico_gateway.Gateway.Outgoing.{outgoing}

module _ (r : Run) (p : Pipeline) (sess : Caller) (params : CallToolParams) (f : Flow) where
  -- The tenant approved the call before, or the client was asked, accepted and approved.
  abbrev pub Consented : Decision → Type 0
  Consented dec =
      IsGranted r.sha256_hex r.channel sess.tenant_id sess.id (ruling dec)
        (call_context r dec params) f.rows
      ⊎ (Grants r.unmarshal r.reply
          × (r.channel.elicits sess.id ≡ true)
          × (r.channel.sender ≡ true))

  -- The engine allows the call, and there is consent if it asks for that.
  pub record Passed : Type 0 where
    pub engine : Engine
    pub decision : Decision
    pub configured : p.engine ≡ some engine
    pub decided : evaluate_tool_call engine sess.tenant_id sess.id params.name ≡ some decision
    pub admitted : IsAdmitted engine sess.tenant_id sess.id params.name
    pub consent : (decision.requires_approval && p.approvals ≡ false) ⊎ Consented decision

  after_approval-approved :
      (dec : Decision) (o : Outcome) (g : Flow) (prep : PipelineResult)
      → (after_approval p sess dec o g).2 ≡ some prep
      → prep.structured_error ≡ none
      → is_approved o ≡ true
  unfolding after_approval
  after_approval-approved dec o g prep h n = ground arith

  gate-consent :
      (dec : Decision) (prep : PipelineResult)
      → (gate r p sess params dec f).2 ≡ some prep
      → prep.structured_error ≡ none
      → (dec.requires_approval && p.approvals ≡ false) ⊎ Consented dec
  unfolding gate on_approval approve
  gate-consent dec prep h n = elim (Bool-cases (dec.requires_approval && p.approvals)) [
    | inr off ↦ inl off
    | inl on ↦ elim (Option-cases (approve r sess params dec f).1) [
      | inl q ↦ absurd (ground arith)
      | inr (o, q) ↦ inr (
          run_approved r.sha256_hex r.channel sess.tenant_id sess.id (ruling dec)
            (call_context r dec params) r.unmarshal r.faults sess.user_id r.now r.nanos r.decided
            r.reply f _ o (Σ_path refl q)
            (after_approval-approved dec o (approve r sess params dec f).0 prep (ground arith) n))
    ]
  ]

  after_policy-allow :
      (dec : Decision) (prep : PipelineResult)
      → (after_policy r p sess params dec f).2 ≡ some prep
      → prep.structured_error ≡ none
      → (dec.allow ≡ true) × ((gate r p sess params dec f).2 ≡ some prep)
  unfolding after_policy
  after_policy-allow dec prep h n = elim (Bool-cases dec.allow) [
    | inl a ↦ (a, ground arith)
    | inr a ↦ absurd (ground arith)
  ]

  on_decision-allow :
      (out : Option Decision) (prep : PipelineResult)
      → (on_decision r p sess params f out).2 ≡ some prep
      → prep.structured_error ≡ none
      → (dec : Decision) × (out ≡ some dec)
        × (dec.allow ≡ true)
        × ((gate r p sess params dec f).2 ≡ some prep)
  unfolding on_decision
  on_decision-allow none prep h n = absurd (cc)
  on_decision-allow (some dec) prep h n =
      let (a, g) = after_policy-allow dec prep h n in (dec, refl, a, g)

  on_engine-Passed :
      (engine : Option Engine) (prep : PipelineResult)
      → p.engine ≡ engine
      → (on_engine r p sess params f engine).2 ≡ some prep
      → prep.structured_error ≡ none
      → Passed
  unfolding on_engine
  on_engine-Passed none prep e h n = absurd (cc)
  on_engine-Passed (some engine) prep e h n =
      let (dec, q, a, g) = on_decision-allow _ prep h n in
      record {
        engine = engine;
        decision = dec;
        configured = e;
        decided = q;
        admitted = (evaluate_tool_call_iff engine sess.tenant_id sess.id params.name).0 (dec, q, a);
        consent = gate-consent dec prep g n;
      }

  -- The pipeline lets a call pass only with the engine's leave, and with consent where the engine
  -- asks for it and an approval flow is configured.
  pub evaluate-Passed :
      (prep : PipelineResult)
      → (evaluate r p sess params f).2 ≡ some prep
      → prep.structured_error ≡ none
      → Passed
  unfolding evaluate
  evaluate-Passed prep h n = on_engine-Passed p.engine prep refl h n

-- The pipeline calls no tool itself.
module _ (r : Run) (p : Pipeline) (sess : Caller) (params : CallToolParams) where
  outgoing-inject_for :
      (get : GoString → Option Injector) (server : Server)
      → outgoing (inject_for sess get server).0 ≡ []
  unfolding outgoing inject_for apply_injector event
  outgoing-inject_for get server = ground arith

  outgoing-inject_found :
      (get : GoString → Option Injector) (l : Lookup) → outgoing (inject_found sess get l).0 ≡ []
  unfolding outgoing inject_found
  outgoing-inject_found get (found server) = outgoing-inject_for get server
  outgoing-inject_found get missing = refl
  outgoing-inject_found get broken = refl

  outgoing-inject_by :
      (dec : Decision) (get : Option (GoString → Option Injector))
      (registry : Option (GoString → GoString → Lookup))
      → outgoing (inject_by sess dec get registry).0 ≡ []
  unfolding outgoing inject_by
  outgoing-inject_by dec none registry = refl
  outgoing-inject_by dec (some get) none = refl
  outgoing-inject_by dec (some get) (some registry) = outgoing-inject_found get _

  outgoing-credentials :
      (dec : Decision) (out : Option Outcome) (f : Flow)
      → outgoing (credentials p sess dec out f).1 ≡ []
  unfolding credentials resolve_credentials
  outgoing-credentials dec out f = outgoing-inject_by dec p.injectors p.registry

  outgoing-after_approval :
      (dec : Decision) (o : Outcome) (f : Flow) → outgoing (after_approval p sess dec o f).1 ≡ []
  unfolding outgoing after_approval
  outgoing-after_approval dec o f = ground (arith, outgoing-credentials dec (some o) f)

  outgoing-gate : (dec : Decision) (f : Flow) → outgoing (gate r p sess params dec f).1 ≡ []
  unfolding outgoing gate on_approval
  outgoing-gate dec f = elim (Bool-cases (dec.requires_approval && p.approvals)) [
    | inr off ↦ rw off (outgoing-credentials dec none f)
    | inl on ↦ elim (Option-cases (approve r sess params dec f).1) [
      | inl q ↦ rw (on, q) refl
      | inr (o, q) ↦ rw (on, q) (outgoing-after_approval dec o _)
    ]
  ]

  outgoing-after_policy :
      (dec : Decision) (f : Flow) → outgoing (after_policy r p sess params dec f).1 ≡ []
  unfolding outgoing after_policy event
  outgoing-after_policy dec f = elim (Bool-cases dec.allow) [
    | inl a ↦ simp a (outgoing-gate dec f)
    | inr a ↦ simp a
  ]

  outgoing-on_decision :
      (f : Flow) (out : Option Decision) → outgoing (on_decision r p sess params f out).1 ≡ []
  unfolding outgoing on_decision
  outgoing-on_decision f none = refl
  outgoing-on_decision f (some dec) = outgoing-after_policy dec f

  outgoing-on_engine :
      (f : Flow) (engine : Option Engine) → outgoing (on_engine r p sess params f engine).1 ≡ []
  unfolding outgoing on_engine
  outgoing-on_engine f none = refl
  outgoing-on_engine f (some engine) = outgoing-on_decision f _

  pub outgoing-evaluate : (f : Flow) → outgoing (evaluate r p sess params f).1 ≡ []
  unfolding evaluate
  outgoing-evaluate f = outgoing-on_engine f p.engine
