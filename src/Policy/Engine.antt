-- ===== src/Policy/Engine.antt =====
-- `EvaluateToolCall` of internal/policy/engine.go. The server registry, the skill catalogue, the
-- enablement and the tenant's policy are what the engine is built over. A timeout is a number of
-- nanoseconds, 0 for one that is not positive.
pub mod Admission
pub mod Approval
use portico_gateway.Base.{
  ℕ, ◌*◌, ◌^◌, Bool, true, false, not, ◌&&◌, ◌||◌, Option, none, some, List, [], ◌∷◌, if◌then◌else◌,
  leb, ltb, GoString, codes, str_eq, is_empty,
}
use portico_gateway.Namespace.{split_tool}
use portico_gateway.Policy.Glob.{match_any}
use portico_gateway.Policy.Risk.{risk_write, requires_approval_default, canonical_risk}
use portico_gateway.Policy.Skills.{Enablement, Manifest, Owner, find_owning_skill}

pub record Policy : Type 0 where
  pub tool_allowlist : List GoString
  pub tool_denylist : List GoString
  pub approval_timeout : ℕ

-- The parts of registry.Snapshot that the engine reads; `default_risk` is `none` with no Auth.
pub record Snapshot : Type 0 where
  pub id : GoString
  pub default_risk : Option GoString
  pub enabled : Bool

pub record Decision : Type 0 where
  pub allow : Bool
  pub reason : GoString
  pub tool : GoString
  pub server_id : GoString
  pub skill_id : GoString
  pub risk_class : GoString
  pub requires_approval : Bool
  pub approval_timeout : ℕ

pub record Engine : Type 0 where
  pub servers : Option (GoString → Option (List Snapshot))
  pub skills : Option (List (Option Manifest))
  pub enable : Option Enablement
  pub policies : Option (GoString → Policy)
  pub default_risk_class : GoString
  pub default_timeout : ℕ

abbrev pub reason_passes : GoString
reason_passes = codes "passes"

abbrev pub reason_not_found : GoString
reason_not_found = codes "tool_not_found"

abbrev pub reason_not_allowed : GoString
reason_not_allowed = codes "not_allowed"

abbrev pub reason_denied : GoString
reason_denied = codes "denied"

abbrev pub reason_server_disabled : GoString
reason_server_disabled = codes "server_disabled"

-- The defaults that `New` fills in.
unfoldable pub new :
    Option (GoString → Option (List Snapshot))
    → Option (List (Option Manifest))
    → Option Enablement
    → Option (GoString → Policy)
    → GoString
    → ℕ
    → Engine
new servers skills enable policies risk timeout = record {
  servers = servers;
  skills = skills;
  enable = enable;
  policies = policies;
  default_risk_class = if is_empty risk then risk_write else risk;
  default_timeout = if leb timeout 0 then 5 * 60 * 10 ^ 9 else timeout;
}

abbrev pub get_server_risk : Snapshot → GoString
get_server_risk s = elim s.default_risk [ none ↦ [] | some d ↦ d ]

-- `pol` of the call: the zero policy with no resolver.
abbrev pub policy_of : Option (GoString → Policy) → GoString → Policy
policy_of none tenant = record { tool_allowlist = []; tool_denylist = []; approval_timeout = 0 }
policy_of (some policies) tenant = policies tenant

-- The first snapshot of the list with the id.
unfoldable pub find_server : GoString → List Snapshot → Option Snapshot
find_server server [] = none
find_server server (s ∷ snaps) = if str_eq s.id server then some s else find_server server snaps

-- `none` is an error of the registry, `some none` an unknown server.
unfoldable pub lookup_server : Engine → GoString → GoString → Option (Option Snapshot)
lookup_server e tenant server = elim e.servers [
  | none ↦ some none
  | some servers ↦ elim (servers tenant) [
    | none ↦ none
    | some snaps ↦ some (find_server server snaps)
  ]
]

-- Steps 2 to 4: the first reason against the call.
unfoldable pub refusal : Policy → Snapshot → GoString → Option GoString
refusal pol snap tool =
    if not snap.enabled
    then some reason_server_disabled
    else if match_any pol.tool_denylist tool
    then some reason_denied
    else elim pol.tool_allowlist [
      | [] ↦ none
      | p ∷ ps ↦ if match_any (p ∷ ps) tool then none else some reason_not_allowed
    ]

-- Step 5: skill override, then server default, then engine default.
unfoldable pub server_risk : Engine → Snapshot → GoString
server_risk e snap =
    let d = get_server_risk snap in if is_empty d then e.default_risk_class else canonical_risk d

unfoldable pub owner : Engine → GoString → GoString → GoString → Option Owner
owner e tenant session tool = elim e.skills [
  | none ↦ none
  | some skills ↦ find_owning_skill e.enable tenant session tool skills
]

abbrev pub override : GoString → Option Owner → GoString
override risk none = risk
override risk (some o) = if is_empty o.risk_override then risk else canonical_risk o.risk_override

abbrev pub owner_id : Option Owner → GoString
owner_id none = []
owner_id (some o) = o.skill_id

abbrev pub owner_asks : Option Owner → Bool
owner_asks none = false
owner_asks (some o) = o.requires_approval

unfoldable pub risk_of : Engine → GoString → GoString → Snapshot → GoString → GoString
risk_of e tenant session snap tool = override (server_risk e snap) (owner e tenant session tool)

unfoldable pub blank : Engine → Policy → GoString → GoString → Decision
blank e pol tool server = record {
  allow = false;
  reason = [];
  tool = tool;
  server_id = server;
  skill_id = [];
  risk_class = [];
  requires_approval = false;
  approval_timeout = if ltb 0 pol.approval_timeout then pol.approval_timeout else e.default_timeout;
}

-- Steps 5 and 6.
unfoldable pub pass : Engine → GoString → GoString → Snapshot → GoString → Decision → Decision
pass e tenant session snap tool dec =
    let o = owner e tenant session tool in
    let risk = risk_of e tenant session snap tool in
    record dec {
      allow = true;
      reason = reason_passes;
      skill_id = owner_id o;
      risk_class = risk;
      requires_approval = requires_approval_default risk || owner_asks o;
    }

-- The rest of the function once the server is known.
unfoldable pub decide :
    Engine → GoString → GoString → Policy → Snapshot → GoString → Decision → Decision
decide e tenant session pol snap tool dec = elim (refusal pol snap tool) [
  | some reason ↦ record dec { reason = reason }
  | none ↦ pass e tenant session snap tool dec
]

unfoldable pub evaluate_on : Engine → GoString → GoString → GoString → GoString → Option Decision
evaluate_on e tenant session tool server =
    let pol = policy_of e.policies tenant in
    let dec = blank e pol tool server in
    elim (lookup_server e tenant server) [
      | none ↦ none
      | some none ↦ some (record dec { reason = reason_not_found })
      | some (some snap) ↦ some (decide e tenant session pol snap tool dec)
    ]

-- The decision for an engine that is not nil; `none` is an error of the registry.
unfoldable pub evaluate_tool_call : Engine → GoString → GoString → GoString → Option Decision
evaluate_tool_call e tenant session tool = elim (split_tool tool) [
  | none ↦ some (record {
    allow = false;
    reason = reason_not_found;
    tool = tool;
    server_id = [];
    skill_id = [];
    risk_class = [];
    requires_approval = false;
    approval_timeout = 0;
  })
  | some (server, _) ↦ evaluate_on e tenant session tool server
]
