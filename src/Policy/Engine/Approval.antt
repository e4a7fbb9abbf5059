-- ===== src/Policy/Engine/Approval.antt =====
-- When an allowed call needs an approval, and with which risk class.
use portico_gateway.Base.{
  true, false, some, ◌≡◌, refl, ◌↔◌, ◌⊎◌, inl, inr, arith, GoString, Memᴰ, subst, Bool-cases,
  str_eq, str_eq_iff, contains, contains_iff,
}
use portico_gateway.Policy.Risk.{
  risk_read, risk_sensitive_read, risk_external_side_effect, risk_destructive, canonical_risk,
  requires_approval_default, valid_risk_classes,
}
use portico_gateway.Policy.Skills.{Owner}
use portico_gateway.Policy.Engine.Admission.{
  IsAdmitted, Passes-refusal, evaluate_on-decide, evaluate_tool_call_iff,
}
use portico_gateway.Policy.Engine.{
  Snapshot, Decision, Engine, policy_of, blank, pass, decide, owner, owner_asks, risk_of,
  evaluate_tool_call,
}

-- The classes that need an approval by themselves.
abbrev pub IsGuarded : GoString → Type 0
IsGuarded risk =
    (risk ≡ risk_destructive) ⊎ (risk ≡ risk_external_side_effect) ⊎ (risk ≡ risk_sensitive_read)

IsGuarded-iff : (risk : GoString) → (requires_approval_default risk ≡ true) ↔ IsGuarded risk
unfolding requires_approval_default
IsGuarded-iff risk = ground (
  arith,
  str_eq_iff risk risk_destructive,
  str_eq_iff risk risk_external_side_effect,
  str_eq_iff risk risk_sensitive_read,
)

pass-requires_approval :
    (e : Engine) (tenant session tool : GoString) (snap : Snapshot) (dec : Decision)
    → let d = pass e tenant session snap tool dec in
      (d.requires_approval ≡ true)
      ↔ (IsGuarded d.risk_class ⊎ (owner_asks (owner e tenant session tool) ≡ true))
unfolding pass
pass-requires_approval e tenant session tool snap dec =
    ground (arith, IsGuarded-iff (risk_of e tenant session snap tool))

module _ (e : Engine) (tenant session tool : GoString) where
  -- What the engine decides of an admitted call.
  admitted-pass :
      (a : IsAdmitted e tenant session tool)
      → evaluate_tool_call e tenant session tool
        ≡ some (pass e tenant session a.2 tool (blank e (policy_of e.policies tenant) tool a.0))
  unfolding decide
  admitted-pass (server, name, snap, q, l, p) = ground (
    arith,
    evaluate_on-decide e tenant session tool server name snap q l,
    Passes-refusal (policy_of e.policies tenant) snap tool p,
  )

  -- An allowed call asks for an approval exactly when its risk class is destructive, an external
  -- side effect or a sensitive read, or the skill that owns the tool asks for one.
  pub requires_approval_iff :
      (d : Decision)
      → evaluate_tool_call e tenant session tool ≡ some d
      → d.allow ≡ true
      → (d.requires_approval ≡ true)
        ↔ (IsGuarded d.risk_class ⊎ (owner_asks (owner e tenant session tool) ≡ true))
  requires_approval_iff d h allowed =
      let a = (evaluate_tool_call_iff e tenant session tool).0 (d, h, allowed) in
      let d' = pass e tenant session a.2 tool (blank e (policy_of e.policies tenant) tool a.0) in
      let same : d' ≡ d = ground (arith, admitted-pass a) in
      subst
        (λ (x : Decision).
          (x.requires_approval ≡ true)
          ↔ (IsGuarded x.risk_class ⊎ (owner_asks (owner e tenant session tool) ≡ true)))
        same
        (pass-requires_approval e tenant session tool a.2
          (blank e (policy_of e.policies tenant) tool a.0))

  risk_of-read :
      (snap : Snapshot) (o : Owner)
      → owner e tenant session tool ≡ some o
      → o.risk_override ≡ risk_read
      → risk_of e tenant session snap tool ≡ risk_read
  unfolding risk_of canonical_risk contains str_eq
  risk_of-read snap o own read = rw own (rw read refl)

  pass-read :
      (snap : Snapshot) (dec : Decision) (o : Owner)
      → owner e tenant session tool ≡ some o
      → o.risk_override ≡ risk_read
      → o.requires_approval ≡ false
      → let d = pass e tenant session snap tool dec in
        (d.risk_class ≡ risk_read) × (d.requires_approval ≡ false)
  unfolding pass requires_approval_default str_eq
  pass-read snap dec o own read quiet =
      let r = risk_of-read snap o own read in (r, rw (r, own) quiet)

  -- A skill lowers any server's class, `destructive` included: a tool that an enabled skill owns,
  -- classes as a read and asks no approval for is allowed with none.
  pub override_lowers :
      (d : Decision) (o : Owner)
      → evaluate_tool_call e tenant session tool ≡ some d
      → d.allow ≡ true
      → owner e tenant session tool ≡ some o
      → o.risk_override ≡ risk_read
      → o.requires_approval ≡ false
      → (d.risk_class ≡ risk_read) × (d.requires_approval ≡ false)
  override_lowers d o h allowed own read quiet =
      let a = (evaluate_tool_call_iff e tenant session tool).0 (d, h, allowed) in
      let dec = blank e (policy_of e.policies tenant) tool a.0 in
      let same : pass e tenant session a.2 tool dec ≡ d = ground (arith, admitted-pass a) in
      subst (λ (x : Decision). (x.risk_class ≡ risk_read) × (x.requires_approval ≡ false)) same
        (pass-read a.2 dec o own read quiet)

-- A class that is misspelt becomes `write`, which needs no approval by itself.
pub canonical_risk-unknown :
    (class : GoString)
    → ¬ Memᴰ class valid_risk_classes
    → requires_approval_default (canonical_risk class) ≡ false
unfolding canonical_risk requires_approval_default str_eq
canonical_risk-unknown class h = elim (Bool-cases (contains valid_risk_classes class)) [
  | inl e ↦ absurd (h ((contains_iff valid_risk_classes class).0 e))
  | inr e ↦ rw e
]
