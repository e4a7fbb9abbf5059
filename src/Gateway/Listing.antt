-- ===== src/Gateway/Listing.antt =====
-- `handleToolsList` of internal/server/mcpgw/dispatcher.go, with the filter of agent_profile.go and
-- Servers of internal/mcp/southbound/manager. What the supervisor and its clients answer, and the
-- order in which the answers come in, are parameters. A session's snapshot is bound elsewhere.
mod Answers
pub mod Offered
pub mod Cached
mod Tests
use portico_gateway.Base.{
  ℕ, ◌+◌, Bool, not, Option, none, some, List, [], ◌∷◌, ◌++◌, map, if◌then◌else◌, GoString,
  is_empty, ltb, filter,
}
use portico_gateway.Base.Assoc.{Assoc, lookup, set, delete}
use portico_gateway.Namespace.{join_tool}
use portico_gateway.Profiles.{Profile, allows_tool}
use portico_gateway.Snapshots.{Tool, ToolInfo, sort_tools}
use portico_gateway.Gateway.Protocol.{ToolCall}
use portico_gateway.Gateway.Pipeline.{Caller, Server}
use portico_gateway.Gateway.Dispatcher.{Client, Manager, acquire}

-- The time for which a listing is kept, in nanoseconds.
abbrev pub cache_ttl : ℕ
cache_ttl = 60000000000

pub record ToolsCacheEntry : Type 0 where
  pub tools : List Tool
  pub expires_at : ℕ

abbrev pub ToolsCache : Type 0
ToolsCache = Assoc ToolsCacheEntry

-- What one server answered.
pub record ServerTools : Type 0 where
  pub server_id : GoString
  pub tools : Option (List Tool)

-- The answer: the meta-tools of Code Mode, a list of tools, or an internal error.
pub data ToolsList : Type 0 where
  meta_tools : ToolsList
  listed : List Tool → ToolsList
  internal_error : ToolsList

unfoldable pub filter_tools_by_profile : Option Profile → List Tool → List Tool
filter_tools_by_profile none tools = tools
filter_tools_by_profile (some prof) tools =
    if prof.is_default then tools else filter (λ t. allows_tool (some prof) t.name) tools

-- A tool of a snapshot, as it is listed.
abbrev pub of_snapshot : ToolInfo → Tool
of_snapshot t = record {
  name = t.namespaced_name;
  description = t.description;
  input_schema = t.input_schema;
  annotations = t.annotations;
  icons = [];
}

-- The tools of the session's snapshot, if it has one with tools.
unfoldable pub bound_tools : Option (Option (List ToolInfo)) → Option (List Tool)
bound_tools none = none
bound_tools (some none) = none
bound_tools (some (some [])) = none
bound_tools (some (some (t ∷ ts))) = some (map of_snapshot (t ∷ ts))

-- The entry of a session, if it has not expired.
unfoldable pub live_entry : ℕ → Option ToolsCacheEntry → Option (List Tool)
live_entry now none = none
live_entry now (some e) = if ltb now e.expires_at then some e.tools else none

unfoldable pub qualify : GoString → Tool → Tool
qualify server t = record t { name = join_tool server t.name }

-- A server that failed is left out.
abbrev pub qualified : GoString → Option (List Tool) → List Tool
qualified server none = []
qualified server (some tools) = map (qualify server) tools

abbrev pub combined : List ServerTools → List Tool
combined [] = []
combined (r ∷ rs) = qualified r.server_id r.tools ++ combined rs

-- A call of Acquire for a listing names no tool.
abbrev pub acquire_request : Caller → Server → ToolCall
acquire_request sess server = record {
  tenant_id = sess.tenant_id;
  user_id = sess.user_id;
  session_id = sess.id;
  server_id = server.id;
  tool = [];
  arguments = [];
  progress_token = none;
  headers = [];
  env = [];
}

unfoldable pub acquire_for : Manager → Caller → Server → Option Client
acquire_for m sess server =
    if not server.enabled then none else acquire m (acquire_request sess server)

unfoldable pub invalidate_tools : GoString → ToolsCache → ToolsCache
invalidate_tools id cache = if is_empty id then cache else delete id cache

module _ (list_servers : GoString → Option (List Server)) where
  -- Servers of the manager; its registry may be missing.
  unfoldable pub manager_servers : Manager → GoString → Option (List Server)
  manager_servers m tenant = elim m.registry [
    | none ↦ none
    | some get ↦ if is_empty tenant then some [] else list_servers tenant
  ]

  unfoldable pub servers_for : Option Manager → Caller → Option (List Server)
  servers_for none sess = some []
  servers_for (some m) sess =
      if is_empty sess.tenant_id then some [] else manager_servers m sess.tenant_id

module _ (list_tools : Client → Option (List Tool)) where
  abbrev pub answer_of : Option Client → Option (List Tool)
  answer_of none = none
  answer_of (some client) = list_tools client

  -- Without a manager there is no server to ask.
  abbrev pub ask : Option Manager → Caller → Server → ServerTools
  ask none sess server = record { server_id = server.id; tools = none }
  ask (some m) sess server = record {
    server_id = server.id;
    tools = answer_of (acquire_for m sess server);
  }

  unfoldable pub gather :
      (List ServerTools → List ServerTools) → Option Manager → Caller → List Server → List Tool
  gather arrive m sess servers = sort_tools (combined (arrive (map (ask m sess) servers)))

module _ (list_servers : GoString → Option (List Server)) (list_tools : Client → Option (List Tool))
    (arrive : List ServerTools → List ServerTools) where
  -- The listing of the servers is stored at a later time than the look-up in the cache.
  unfoldable pub list_fresh :
      Option Manager
      → Option Profile
      → Caller
      → ℕ
      → ToolsCache
      → Option (List Server)
      → ToolsCache × ToolsList
  list_fresh m prof sess later cache none = (cache, internal_error)
  list_fresh m prof sess later cache (some servers) =
      let tools = gather list_tools arrive m sess servers in
      (
        set sess.id (record { tools = tools; expires_at = later + cache_ttl }) cache,
        listed (filter_tools_by_profile prof tools),
      )

  unfoldable pub list_cached :
      Option Manager
      → Option Profile
      → Caller
      → ℕ
      → ToolsCache
      → Option (List Tool)
      → ToolsCache × ToolsList
  list_cached m prof sess later cache (some tools) =
      (cache, listed (filter_tools_by_profile prof tools))
  list_cached m prof sess later cache none =
      list_fresh m prof sess later cache (servers_for list_servers m sess)

  -- `bound` is what a snapshot binder, if there is one, has for the session.
  unfoldable pub list_bound :
      Option Manager
      → Option Profile
      → Caller
      → ℕ
      → ℕ
      → ToolsCache
      → Option (List Tool)
      → ToolsCache × ToolsList
  list_bound m prof sess now later cache (some tools) =
      (cache, listed (filter_tools_by_profile prof tools))
  list_bound m prof sess now later cache none =
      list_cached m prof sess later cache (live_entry now (lookup sess.id cache))

  unfoldable pub handle_tools_list :
      Option Manager
      → Option Profile
      → Bool
      → Option (Option (List ToolInfo))
      → Caller
      → ℕ
      → ℕ
      → ToolsCache
      → ToolsCache × ToolsList
  handle_tools_list m prof code_mode bound sess now later cache =
      if code_mode
      then (cache, meta_tools)
      else list_bound m prof sess now later cache (bound_tools bound)
