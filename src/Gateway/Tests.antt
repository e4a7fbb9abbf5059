-- ===== src/Gateway/Tests.antt =====
-- A gateway with one server, whose client echoes its arguments, and one policy.
use portico_gateway.Base.{
  ◌≡◌, refl, true, false, Option, none, some, List, [], ◌∷◌, GoString, codes, str_eq,
}
use portico_gateway.Profiles.{default_profile}
use portico_gateway.Policy.Engine.{Snapshot, Engine, Decision, new, reason_passes}
use portico_gateway.Approval.Table.{Approval, get, pending}
use portico_gateway.Approval.{Flow, broken}
use portico_gateway.Gateway.Pipeline.{
  Caller, CallToolParams, Server, Lookup, found, missing, Pipeline, Run, PipelineResult,
  blank_target, refused, approval_required_error,
}
use portico_gateway.Gateway.Evaluate.{gate}
use portico_gateway.Gateway.Evaluate.Pending.{asks_back, gate-pending}
use portico_gateway.Gateway.Bridge.{Context}
use portico_gateway.Gateway.Dispatcher.{Client, Manager, Dispatcher, dispatch_tool_call, returned}
use portico_gateway.Gateway.Dispatcher.Governed.{LetsOut, dispatch_tool_call-LetsOut}
use portico_gateway.Gateway.Dispatcher.Reaches.{outcome}

abbrev decode_object : GoString → Option (List (GoString × GoString))
decode_object raw = none

abbrev digest : GoString → GoString
digest args = 1 ∷ args

abbrev mute : Run
mute = record {
  sha256_hex = digest;
  unmarshal = λ c. none;
  channel = record { elicits = λ s. false; sender = true };
  faults = record { insert = false; update = false; get = false };
  now = 0;
  nanos = 7;
  decided = 0;
  reply = broken [];
  resume_approval_id = [];
}

abbrev github : Server
github = record { id = codes "github"; auth = none; enabled = true }

abbrev registry : GoString → GoString → Lookup
registry tenant server = elim (str_eq server (codes "github")) [
  | true ↦ found github
  | false ↦ missing
]

abbrev snapshot : Snapshot
snapshot = record { id = codes "github"; default_risk = some (codes "read"); enabled = true }

abbrev engine : Engine
engine = new (some (λ t. some (snapshot ∷ []))) none none none [] 0

abbrev pipeline : Pipeline
pipeline = record {
  engine = some engine;
  approvals = true;
  injectors = none;
  registry = some registry;
}

abbrev echo : Client
echo c = returned c.arguments

abbrev manager : Manager
manager = record { registry = some registry; supervisor = some (λ s c. some echo) }

abbrev dispatcher : Dispatcher
dispatcher = record {
  manager = some manager;
  policy = some pipeline;
  a2a_bridge = none;
  emitter = true;
}

abbrev ctx : Context
ctx = record { profile = some (default_profile (codes "acme")); vk = none }

abbrev caller : Caller
caller = record {
  id = codes "s1";
  tenant_id = codes "acme";
  user_id = codes "ann";
  subject_token = [];
}

abbrev params : CallToolParams
params = record { name = codes "github.list"; arguments = codes "{}"; meta = [] }

abbrev flow : Flow
flow = record { rows = []; events = []; counter = 0 }

abbrev passes : Decision
passes = record {
  allow = true;
  reason = reason_passes;
  tool = codes "github.list";
  server_id = codes "github";
  skill_id = [];
  risk_class = codes "read";
  requires_approval = false;
  approval_timeout = 300000000000;
}

abbrev prep : PipelineResult
prep = record {
  decision = passes;
  outcome = none;
  prep_target = some blank_target;
  structured_error = none;
}

dispatch_tool_call-LetsOut_example :
    LetsOut decode_object mute dispatcher ctx caller params
      (codes "1")
      flow
      (dispatch_tool_call decode_object mute dispatcher ctx caller params (codes "1") flow).1
dispatch_tool_call-LetsOut_example =
    dispatch_tool_call-LetsOut decode_object mute dispatcher ctx caller params (codes "1") flow

abbrev asking : Decision
asking = record passes { requires_approval = true; risk_class = codes "write" }

gate-pending_example :
    (a : Approval) × (get caller.tenant_id a.id
        (gate mute pipeline caller params asking flow).0.rows
      ≡ some a)
    × (a.status ≡ pending)
    × (a.tool ≡ asking.tool)
    × (a.session_id ≡ caller.id)
    × (a.args_hash ≡ some (digest params.arguments))
    × ((gate mute pipeline caller params asking flow).2
        ≡ some (
            refused
              (record asking { allow = false })
              (some (asks_back mute pipeline caller params asking flow))
              (approval_required_error asking a)))
gate-pending_example =
    gate-pending mute pipeline caller params asking flow refl refl refl refl refl refl
