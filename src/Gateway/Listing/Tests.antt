-- ===== src/Gateway/Listing/Tests.antt =====
-- Two servers, of which one is disabled, and a profile that allows one of three tools.
use mathlib.Core.List.Permᴰ
use portico_gateway.Base.{
  str_lt, ◌≡◌, refl, true, false, Option, none, some, List, [], ◌∷◌, GoString, codes, Memᴰ, ◌↔◌,
  ◌<◌, ◌+◌, arith, str_eq,
}
use portico_gateway.Base.Assoc.{lookup}
use portico_gateway.Namespace.{join_tool}
use portico_gateway.Snapshots.{Tool, sort_tools, insert_tool}
use portico_gateway.Gateway.Pipeline.{Caller, Server, Lookup, found}
use portico_gateway.Gateway.Dispatcher.{
  Client, returned, Manager, acquire, acquire_from, manager_get,
}
use portico_gateway.Gateway.Listing.{
  listed, ServerTools, ToolsCache, cache_ttl, bound_tools, live_entry, servers_for, manager_servers,
  qualify, acquire_for, gather, filter_tools_by_profile, list_fresh, list_cached, list_bound,
  handle_tools_list,
}
use portico_gateway.Gateway.Listing.Offered.{shown, IsOffered, Passes, handle_tools_list-IsOffered}
use portico_gateway.Gateway.Listing.Cached.{handle_tools_list-kept}

abbrev named : GoString → Tool
named name = record {
  name = name;
  description = [];
  input_schema = [];
  annotations = none;
  icons = [];
}

abbrev github : Server
github = record { id = codes "github"; auth = none; enabled = true }

abbrev jira : Server
jira = record { id = codes "jira"; auth = none; enabled = false }

abbrev servers : List Server
servers = jira ∷ github ∷ []

abbrev registry : GoString → GoString → Lookup
registry tenant id = elim (str_eq id (codes "github")) [ true ↦ found github | false ↦ found jira ]

abbrev client : Client
client c = returned c.arguments

abbrev manager : Manager
manager = record { registry = some registry; supervisor = some (λ s c. some client) }

abbrev list_servers : GoString → Option (List Server)
list_servers tenant = some servers

abbrev tools : List Tool
tools = named (codes "push") ∷ named (codes "merge") ∷ []

abbrev list_tools : Client → Option (List Tool)
list_tools c = some tools

abbrev in_order : List ServerTools → List ServerTools
in_order rs = rs

abbrev alice : Caller
alice = record {
  id = codes "s_1";
  tenant_id = codes "acme";
  user_id = codes "alice";
  subject_token = [];
}

abbrev cache : ToolsCache
cache = []

both :
    (handle_tools_list list_servers list_tools in_order
      (some manager)
      none
      false
      none
      alice
      0
      0
      cache).1
    ≡ listed (named (codes "github.merge") ∷ named (codes "github.push") ∷ [])
unfolding handle_tools_list list_bound bound_tools list_cached live_entry lookup servers_for
    manager_servers list_fresh filter_tools_by_profile gather acquire_for acquire acquire_from
    manager_get str_eq qualify join_tool sort_tools insert_tool str_lt
both = refl

unbound : bound_tools none ≡ none
unfolding bound_tools
unbound = refl

uncached : live_entry 0 (lookup alice.id cache) ≡ none
unfolding live_entry lookup
uncached = refl

tenant_servers : servers_for list_servers (some manager) alice ≡ some servers
unfolding servers_for manager_servers
tenant_servers = refl

handle_tools_list-IsOffered_example :
    Memᴰ (named (codes "github.push")) (
      shown
        (handle_tools_list list_servers list_tools in_order
          (some manager)
          none
          false
          none
          alice
          0
          0
          cache).1)
    ↔ (IsOffered list_tools manager alice servers (named (codes "github.push"))
        × Passes none (named (codes "github.push")))
handle_tools_list-IsOffered_example =
    handle_tools_list-IsOffered list_servers list_tools in_order Permᴰ.refl manager none none alice
      0 0 cache servers (named (codes "github.push")) unbound uncached tenant_servers

-- By then the registry lists no server and its clients no tool.
abbrev no_servers : GoString → Option (List Server)
no_servers tenant = some []

abbrev no_tools : Client → Option (List Tool)
no_tools c = none

soon : 5 < 0 + cache_ttl
soon = omega arith

handle_tools_list-kept_example :
    let first =
      (handle_tools_list list_servers list_tools in_order
        (some manager)
        none
        false
        none
        alice
        0
        0
        cache).0 in
    handle_tools_list no_servers no_tools in_order (some manager) none false none alice 5 6 first
    ≡ (
      first,
      listed
          (filter_tools_by_profile none (gather list_tools in_order (some manager) alice servers)),
    )
handle_tools_list-kept_example =
    handle_tools_list-kept list_servers no_servers list_tools no_tools in_order in_order
      (some manager) (some manager) none none none none alice 0 0 5 6 cache servers unbound unbound
      uncached tenant_servers soon
