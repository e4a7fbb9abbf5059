-- ===== src/Profiles.antt =====
-- internal/profiles: the Agent Profile, its entitlement methods (profile.go, default.go) and the
-- surface that it sees of a live catalogue (surface.go). The resolver is the child Resolver.
pub mod Entitlement
pub mod Visible
pub mod Resolver
mod Tests
use portico_gateway.Base.{
  Bool, true, false, ◌||◌, Option, none, some, List, [], ◌∷◌, if◌then◌else◌, GoString, str_eq,
  codes, cut, contains, filter, is_empty,
}
use portico_gateway.Namespace.{split_tool}

-- ifaces.MCPToA2ABridge
pub record McpToA2aBridge : Type 0 where
  pub mcp_tool : GoString
  pub a2a_peer : GoString
  pub a2a_task : GoString

-- ifaces.A2AToMCPBridge
pub record A2aToMcpBridge : Type 0 where
  pub a2a_task : GoString
  pub mcp_tool : GoString

-- ifaces.AgentProfile, the stored form.
pub record AgentProfile : Type 0 where
  pub tenant_id : GoString
  pub id : GoString
  pub name : GoString
  pub description : GoString
  pub allowed_mcp_servers : List GoString
  pub allowed_tools : List GoString
  pub allowed_skills : List GoString
  pub allowed_model_aliases : List GoString
  pub allowed_a2a_peers : List GoString
  pub allowed_a2a_tasks : List GoString
  pub mcp_to_a2a_bridges : List McpToA2aBridge
  pub a2a_to_mcp_bridges : List A2aToMcpBridge
  pub scopes : List GoString
  pub policy_bundle_ref : GoString
  pub parent_profile_id : GoString
  pub enabled : Bool
  pub created_at : GoString
  pub updated_at : GoString

pub record Profile : Type 0 where
  pub tenant_id : GoString
  pub id : GoString
  pub name : GoString
  pub allowed_mcp_servers : List GoString
  pub allowed_tools : List GoString
  pub allowed_skills : List GoString
  pub allowed_model_aliases : List GoString
  pub allowed_a2a_peers : List GoString
  pub allowed_a2a_tasks : List GoString
  pub mcp_to_a2a_bridges : List McpToA2aBridge
  pub a2a_to_mcp_bridges : List A2aToMcpBridge
  pub scopes : List GoString
  pub is_default : Bool

unfoldable pub default_profile : GoString → Profile
default_profile tenant = record {
  tenant_id = tenant;
  id = codes "default";
  name = codes "default";
  allowed_mcp_servers = [];
  allowed_tools = [];
  allowed_skills = [];
  allowed_model_aliases = [];
  allowed_a2a_peers = [];
  allowed_a2a_tasks = [];
  mcp_to_a2a_bridges = [];
  a2a_to_mcp_bridges = [];
  scopes = [];
  is_default = true;
}

-- A `*Profile` is an `Option Profile`, with `none` for nil.
unfoldable pub from_store : Option AgentProfile → Option Profile
from_store none = none
from_store (some p) = some (record {
  tenant_id = p.tenant_id;
  id = p.id;
  name = p.name;
  allowed_mcp_servers = p.allowed_mcp_servers;
  allowed_tools = p.allowed_tools;
  allowed_skills = p.allowed_skills;
  allowed_model_aliases = p.allowed_model_aliases;
  allowed_a2a_peers = p.allowed_a2a_peers;
  allowed_a2a_tasks = p.allowed_a2a_tasks;
  mcp_to_a2a_bridges = p.mcp_to_a2a_bridges;
  a2a_to_mcp_bridges = p.a2a_to_mcp_bridges;
  scopes = p.scopes;
  is_default = false;
})

-- The loops of the two bridge look-ups.
find_mcp_bridge : GoString → List McpToA2aBridge → Option McpToA2aBridge
find_mcp_bridge tool [] = none
find_mcp_bridge tool (b ∷ bs) = if str_eq b.mcp_tool tool then some b else find_mcp_bridge tool bs

find_a2a_bridge : GoString → List A2aToMcpBridge → Option A2aToMcpBridge
find_a2a_bridge task [] = none
find_a2a_bridge task (b ∷ bs) = if str_eq b.a2a_task task then some b else find_a2a_bridge task bs

unfoldable pub bridge_for_mcp_tool : Option Profile → GoString → Option McpToA2aBridge
unfolding find_mcp_bridge
bridge_for_mcp_tool none tool = none
bridge_for_mcp_tool (some p) tool = find_mcp_bridge tool p.mcp_to_a2a_bridges

unfoldable pub bridge_for_a2a_task : Option Profile → GoString → Option A2aToMcpBridge
unfolding find_a2a_bridge
bridge_for_a2a_task none task = none
bridge_for_a2a_task (some p) task = find_a2a_bridge task p.a2a_to_mcp_bridges

unfoldable pub allows_server : Option Profile → GoString → Bool
allows_server none server = true
allows_server (some p) server = p.is_default || contains p.allowed_mcp_servers server

-- `len(list) == 0` or the name is in the list.
abbrev pub listed : List GoString → GoString → Bool
listed [] name = true
listed (x ∷ xs) name = contains (x ∷ xs) name

-- The rest of `AllowsTool` and of `AllowsA2ATask`, once the name is split at its first dot.
unfoldable pub allows_member : List GoString → List GoString → GoString → GoString → Bool
allows_member owners members owner name =
    if contains owners owner then listed members name else false

unfoldable pub allows_tool : Option Profile → GoString → Bool
unfolding allows_member
allows_tool none tool = true
allows_tool (some p) tool = if p.is_default then true else elim (split_tool tool) [
  | none ↦ false
  | some (server, _) ↦ allows_member p.allowed_mcp_servers p.allowed_tools server tool
]

unfoldable pub allows_skill : Option Profile → GoString → Bool
allows_skill none skill = true
allows_skill (some p) skill = p.is_default || contains p.allowed_skills skill

unfoldable pub allows_alias : Option Profile → GoString → Bool
allows_alias none alias = true
allows_alias (some p) alias = p.is_default || contains p.allowed_model_aliases alias

unfoldable pub allows_a2a_peer : Option Profile → GoString → Bool
allows_a2a_peer none peer = true
allows_a2a_peer (some p) peer = p.is_default || contains p.allowed_a2a_peers peer

unfoldable pub allows_a2a_task : Option Profile → GoString → Bool
unfolding allows_member
allows_a2a_task none task = true
allows_a2a_task (some p) task = if p.is_default then true else elim (cut task b'.') [
  | none ↦ false
  | some (peer, _) ↦ allows_member p.allowed_a2a_peers p.allowed_a2a_tasks peer task
]

pub record LiveCatalog : Type 0 where
  pub servers : List GoString
  pub skills : List GoString
  pub aliases : List GoString

pub record Surface : Type 0 where
  pub profile_id : GoString
  pub is_default : Bool
  pub servers : List GoString
  pub tools : List GoString
  pub skills : List GoString
  pub models : List GoString

unfoldable pub filter_allowed : List GoString → (GoString → Bool) → List GoString
filter_allowed items allow = filter allow items

unfoldable pub materialize_tools : Option Profile → List GoString
materialize_tools none = []
materialize_tools (some p) = filter (allows_tool (some p)) p.allowed_tools

abbrev profile_id : Option Profile → GoString
profile_id none = []
profile_id (some p) = p.id

abbrev profile_is_default : Option Profile → Bool
profile_is_default none = false
profile_is_default (some p) = p.is_default

unfoldable pub materialize : Option Profile → LiveCatalog → Surface
unfolding filter_allowed materialize_tools
materialize p live = record {
  profile_id = profile_id p;
  is_default = profile_is_default p;
  servers = filter_allowed live.servers (allows_server p);
  tools = materialize_tools p;
  skills = filter_allowed live.skills (allows_skill p);
  models = filter_allowed live.aliases (allows_alias p);
}
