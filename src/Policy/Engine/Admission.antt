-- ===== src/Policy/Engine/Admission.antt =====
-- When the engine allows a call.
use portico_gateway.Base.{
  true, false, none, some, [], ◌∷◌, ◌++◌, ◌≡◌, refl, ◌↔◌, ◌⊎◌, inl, inr, arith, GoString, Memᴰ,
  Option-cases,
}
use portico_gateway.Namespace.{split_tool}
use portico_gateway.Policy.Glob.{match_any}
use portico_gateway.Policy.Glob.Laws.{match_any-prefix}
use portico_gateway.Policy.Engine.{
  Policy, Snapshot, Decision, Engine, policy_of, lookup_server, refusal, blank, pass, decide,
  evaluate_on, evaluate_tool_call,
}

-- The server is enabled, the tool matches no pattern of the denylist, and it matches one of the
-- allowlist unless that is empty.
pub record Passes (pol : Policy) (snap : Snapshot) (tool : GoString) : Type 0 where
  pub enabled : snap.enabled ≡ true
  pub not_denied : match_any pol.tool_denylist tool ≡ false
  pub allowed : (pol.tool_allowlist ≡ []) ⊎ (match_any pol.tool_allowlist tool ≡ true)

refusal-Passes :
    (pol : Policy) (snap : Snapshot) (tool : GoString)
    → refusal pol snap tool ≡ none
    → Passes pol snap tool
unfolding refusal
refusal-Passes pol snap tool h = record {
  enabled = ground arith;
  not_denied = ground arith;
  allowed = ground arith;
}

pub Passes-refusal :
    (pol : Policy) (snap : Snapshot) (tool : GoString)
    → Passes pol snap tool
    → refusal pol snap tool ≡ none
unfolding refusal
Passes-refusal pol snap tool p = ground arith

module _ (e : Engine) (tenant session tool : GoString) where
  -- The tool names a registered server that passes the tenant's policy.
  abbrev pub IsAdmitted : Type 0
  IsAdmitted =
      (server : GoString) × (name : GoString) × (snap : Snapshot) × (split_tool tool
        ≡ some (server, name))
      × (lookup_server e tenant server ≡ some (some snap))
      × Passes (policy_of e.policies tenant) snap tool

  abbrev pub IsAllowed : Type 0
  IsAllowed =
      (d : Decision) × (evaluate_tool_call e tenant session tool ≡ some d) × (d.allow ≡ true)

  pub evaluate_on-decide :
      (server name : GoString) (snap : Snapshot)
      → split_tool tool ≡ some (server, name)
      → lookup_server e tenant server ≡ some (some snap)
      → evaluate_tool_call e tenant session tool
        ≡ some (
            decide e tenant session
              (policy_of e.policies tenant)
              snap
              tool
              (blank e (policy_of e.policies tenant) tool server))
  unfolding evaluate_tool_call evaluate_on
  evaluate_on-decide server name snap hs hl = ground arith

  decide-allow :
      (pol : Policy) (snap : Snapshot) (dec : Decision)
      → refusal pol snap tool ≡ none
      → (decide e tenant session pol snap tool dec).allow ≡ true
  unfolding decide pass
  decide-allow pol snap dec h = ground arith

  allow-decide :
      (pol : Policy) (snap : Snapshot) (dec : Decision)
      → dec.allow ≡ false
      → (decide e tenant session pol snap tool dec).allow ≡ true
      → refusal pol snap tool ≡ none
  unfolding decide
  allow-decide pol snap dec off h = elim (Option-cases (refusal pol snap tool)) [
    | inl r ↦ r
    | inr (r, q) ↦ absurd (ground arith)
  ]

  blank-allow : (pol : Policy) (server : GoString) → (blank e pol tool server).allow ≡ false
  unfolding blank
  blank-allow pol server = refl

  split_of_allowed :
      (d : Decision)
      → evaluate_tool_call e tenant session tool ≡ some d
      → d.allow ≡ true
      → (server : GoString) × (name : GoString) × (split_tool tool ≡ some (server, name))
  unfolding evaluate_tool_call evaluate_on
  split_of_allowed d h a = elim (Option-cases (split_tool tool)) [
    | inl q ↦ absurd (ground arith)
    | inr ((server, name), q) ↦ (server, name, q)
  ]

  snapshot_of_allowed :
      (d : Decision) (server name : GoString)
      → evaluate_tool_call e tenant session tool ≡ some d
      → d.allow ≡ true
      → split_tool tool ≡ some (server, name)
      → (snap : Snapshot) × (lookup_server e tenant server ≡ some (some snap))
  unfolding evaluate_tool_call evaluate_on
  snapshot_of_allowed d server name h a q = elim (Option-cases (lookup_server e tenant server)) [
    | inl l ↦ absurd (ground arith)
    | inr (none, l) ↦ absurd (ground (arith, blank-allow (policy_of e.policies tenant) server))
    | inr (some snap, l) ↦ (snap, l)
  ]

  allowed→admitted : IsAllowed → IsAdmitted
  allowed→admitted (d, h, a) =
      let (server, name, q) = split_of_allowed d h a in
      let (snap, l) = snapshot_of_allowed d server name h a q in
      let pol = policy_of e.policies tenant in
      let dec = blank e pol tool server in
      let d≡ = evaluate_on-decide server name snap q l in
      let r = allow-decide pol snap dec (blank-allow pol server) (ground (arith, d≡)) in
      (server, name, snap, q, l, refusal-Passes pol snap tool r)

  admitted→allowed : IsAdmitted → IsAllowed
  admitted→allowed (server, name, snap, q, l, p) =
      let pol = policy_of e.policies tenant in
      let dec = blank e pol tool server in
      (
        decide e tenant session pol snap tool dec,
        evaluate_on-decide server name snap q l,
        decide-allow pol snap dec (Passes-refusal pol snap tool p),
      )

  -- A call is allowed exactly when its tool is admitted: registered, on an enabled server, not
  -- denied, and allowed by the tenant's list if that has entries. Risk and approval play no part.
  pub evaluate_tool_call_iff : IsAllowed ↔ IsAdmitted
  evaluate_tool_call_iff = (allowed→admitted, admitted→allowed)

-- A pattern of the denylist that ends in a star is final: no call of a tool whose name begins as
-- the pattern does is allowed, whatever the allowlist, the skills and the registry say.
pub denied-prefix :
    (e : Engine) (tenant session prefix name : GoString)
    → Memᴰ (prefix ++ b'*' ∷ []) (policy_of e.policies tenant).tool_denylist
    → ¬ IsAllowed e tenant session (prefix ++ name)
denied-prefix e tenant session prefix name m a =
    let (server, tool, snap, q, l, p) =
      (evaluate_tool_call_iff e tenant session (prefix ++ name)).0 a in
    ground (
      arith,
      p.not_denied,
      match_any-prefix prefix name (policy_of e.policies tenant).tool_denylist m,
    )
