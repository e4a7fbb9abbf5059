-- ===== src/Gateway/Pipeline.antt =====
-- internal/server/mcpgw/policy_pipeline.go: policy, approval and credentials of one call. The
-- injectors of internal/secrets/inject are functions; the clocks and the client's reply to an
-- elicitation are what the run is given. A timeout is a whole number of milliseconds.
use portico_gateway.Base.{
  ℕ, Bool, Option, none, some, List, [], ◌∷◌, ◌++◌, if◌then◌else◌, GoString, codes, is_empty, cut,
}
use portico_gateway.Policy.Engine.{Decision, Engine}
use portico_gateway.Approval.{Flow, Outcome, Channel, Faults, Reply}
use portico_gateway.Approval.Table.{Approval}
use portico_gateway.Gateway.Protocol.{
  text, number, scope, error_text, Scope, Payload, RpcError, Effect, Effects, audit,
  err_policy_denied, err_approval_required, event_credential_injected, event_credential_exchange_ng,
}

-- The fields of mcpgw.Session that a call reads.
pub record Caller : Type 0 where
  pub id : GoString
  pub tenant_id : GoString
  pub user_id : GoString
  pub subject_token : GoString

-- protocol.CallToolParams
pub record CallToolParams : Type 0 where
  pub name : GoString
  pub arguments : GoString
  pub meta : GoString

-- registry.AuthSpec, as far as it is shown in events; `audience` is that of Exchange.
pub record AuthSpec : Type 0 where
  pub strategy : GoString
  pub env : List GoString
  pub headers : List (GoString × GoString)
  pub secret_ref : GoString
  pub audience : Option GoString

-- registry.Snapshot: the id and the auth block of its Spec, and Record.Enabled.
pub record Server : Type 0 where
  pub id : GoString
  pub auth : Option AuthSpec
  pub enabled : Bool

-- The answer of registry.Get.
pub data Lookup : Type 0 where
  found : Server → Lookup
  missing : Lookup
  broken : Lookup

-- inject.PrepTarget
pub record PrepTarget : Type 0 where
  pub env : List (GoString × GoString)
  pub headers : List (GoString × GoString)

-- inject.PrepRequest
pub record PrepRequest : Type 0 where
  pub tenant_id : GoString
  pub user_id : GoString
  pub session_id : GoString
  pub subject_token : GoString
  pub server : Server

-- inject.Injector, on an empty target; `none` is an error.
abbrev pub Injector : Type 0
Injector = PrepRequest → Option PrepTarget

-- Nil pointers are `none`; `approvals` says that there is an approval flow.
pub record Pipeline : Type 0 where
  pub engine : Option Engine
  pub approvals : Bool
  pub injectors : Option (GoString → Option Injector)
  pub registry : Option (GoString → GoString → Lookup)

-- What a run depends on besides: the libraries, the client's session, the faults of the database,
-- the clocks, the client's reply, and the approval id of a resumed call.
pub record Run : Type 0 where
  pub sha256_hex : GoString → GoString
  pub unmarshal : GoString → Option Bool
  pub channel : Channel
  pub faults : Faults
  pub now : ℕ
  pub nanos : ℕ
  pub decided : ℕ
  pub reply : Reply
  pub resume_approval_id : GoString

pub record PipelineResult : Type 0 where
  pub decision : Decision
  pub outcome : Option Outcome
  pub prep_target : Option PrepTarget
  pub structured_error : Option RpcError

-- `none` is an error.
abbrev pub Evaluated : Type 0
Evaluated = Flow × Effects × Option PipelineResult

abbrev pub optional : GoString → GoString → Payload
optional key s = if is_empty s then [] else (key, text s) ∷ []

-- The part before the first `=` of each entry that has one.
unfoldable pub env_keys : List GoString → List GoString
env_keys [] = []
env_keys (kv ∷ env) = elim (cut kv b'=') [ none ↦ env_keys env | some (k, _) ↦ k ∷ env_keys env ]

abbrev pub header_keys : List (GoString × GoString) → List GoString
header_keys [] = []
header_keys ((k, _) ∷ hs) = k ∷ header_keys hs

unfoldable pub redact_scope : AuthSpec → Scope
redact_scope a = record {
  strategy = a.strategy;
  env_keys = env_keys a.env;
  header_keys = header_keys a.headers;
  secret_ref = a.secret_ref;
  audience = a.audience;
}

unfoldable pub policy_denied_error : Decision → RpcError
policy_denied_error dec = record {
  code = err_policy_denied;
  message = some (codes "policy denied");
  details =
      (codes "tool", text dec.tool)
      ∷ (codes "reason", text dec.reason)
      ∷ (optional (codes "skill_id") dec.skill_id ++ optional (codes "risk_class") dec.risk_class);
}

unfoldable pub approval_required_error : Decision → Approval → RpcError
approval_required_error dec a = record {
  code = err_approval_required;
  message = some (codes "approval_required");
  details =
      (codes "tool", text dec.tool)
      ∷ (codes "risk_class", text dec.risk_class)
      ∷ (codes "approval_id", text a.id)
      ∷ (codes "expires_at", number a.expires_at)
      ∷ (codes "args_summary", text a.args_summary)
      ∷ optional (codes "skill_id") dec.skill_id;
}

unfoldable pub event : Caller → GoString → Payload → Effect
event sess kind payload = audit (record {
  kind = kind;
  tenant_id = sess.tenant_id;
  session_id = sess.id;
  user_id = sess.user_id;
  payload = payload;
})

abbrev pub blank_target : PrepTarget
blank_target = record { env = []; headers = [] }

abbrev pub prep_request : Caller → Server → PrepRequest
prep_request sess server = record {
  tenant_id = sess.tenant_id;
  user_id = sess.user_id;
  session_id = sess.id;
  subject_token = sess.subject_token;
  server = server;
}

-- The rest of `resolveCredentials` from the injector of the strategy.
unfoldable pub apply_injector :
    Caller → Server → AuthSpec → Option Injector → Effects × Option PrepTarget
apply_injector sess server auth none = ([], none)
apply_injector sess server auth (some inject) = elim (inject (prep_request sess server)) [
  | none ↦ (
    event sess event_credential_exchange_ng (
          (codes "strategy", text auth.strategy)
          ∷ (codes "server_id", text server.id)
          ∷ (codes "error", error_text)
          ∷ [])
        ∷ [],
    none,
  )
  | some target ↦ (
    event sess event_credential_injected (
          (codes "strategy", text auth.strategy)
          ∷ (codes "server_id", text server.id)
          ∷ (codes "scope", scope (redact_scope auth))
          ∷ [])
        ∷ [],
    some target,
  )
]

-- `resolveCredentials` for a server of the registry.
unfoldable pub inject_for :
    Caller → (GoString → Option Injector) → Server → Effects × Option PrepTarget
inject_for sess get server = elim server.auth [
  | none ↦ ([], some blank_target)
  | some auth ↦
      if is_empty auth.strategy
      then ([], some blank_target)
      else apply_injector sess server auth (get auth.strategy)
]

-- A server that is not found gets no credentials.
unfoldable pub inject_found :
    Caller → (GoString → Option Injector) → Lookup → Effects × Option PrepTarget
inject_found sess get (found server) = inject_for sess get server
inject_found sess get missing = ([], some blank_target)
inject_found sess get broken = ([], some blank_target)

unfoldable pub inject_by :
    Caller
    → Decision
    → Option (GoString → Option Injector)
    → Option (GoString → GoString → Lookup)
    → Effects × Option PrepTarget
inject_by sess dec none registry = ([], some blank_target)
inject_by sess dec (some get) none = ([], some blank_target)
inject_by sess dec (some get) (some registry) =
    inject_found sess get (registry sess.tenant_id dec.server_id)

unfoldable pub resolve_credentials : Pipeline → Caller → Decision → Effects × Option PrepTarget
resolve_credentials p sess dec = inject_by sess dec p.injectors p.registry

abbrev pub refused : Decision → Option Outcome → RpcError → PipelineResult
refused dec out e = record {
  decision = dec;
  outcome = out;
  prep_target = none;
  structured_error = some e;
}
