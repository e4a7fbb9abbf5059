-- ===== src/Profiles/Tests.antt =====
-- Runs of the entitlement methods, the surface and the resolver on small profiles.
use portico_gateway.Base.{
  Without, ℕ, ◌+◌, ◌≤◌, ◌≡◌, refl, ◌↔◌, ◌≢◌, Bool, true, false, Option, none, some, List, [], ◌∷◌,
  ◌++◌, arith, inl, inr, GoString, codes, Memᴰ, length, str_eq, str_eq_iff, if◌then◌else◌,
}
use portico_gateway.Profiles.{AgentProfile, Profile, LiveCatalog, from_store, allows_tool}
use portico_gateway.Profiles.Entitlement.{ToolEntitled, allows_tool_iff}
use portico_gateway.Profiles.Resolver.{
  Principal, found, not_found, failed, BindingStore, Resolver, new_resolver, key, cached, resolve,
}
use portico_gateway.Profiles.Resolver.Steps.{Reach, resolve-Reach}
use portico_gateway.Profiles.Resolver.Capacity.{Reach-bounded}
use portico_gateway.Profiles.Resolver.Isolation.{
  CallsPlain, AnswersOwn, OutcomeOf, resolve-OutcomeOf,
}

abbrev stored : GoString → AgentProfile
stored t = record {
  tenant_id = t;
  id = codes "p1";
  name = codes "coder";
  description = [];
  allowed_mcp_servers = codes "github" ∷ [];
  allowed_tools = codes "github.search" ∷ codes "jira.list" ∷ [];
  allowed_skills = codes "code-review" ∷ [];
  allowed_model_aliases = codes "gpt-4o" ∷ [];
  allowed_a2a_peers = codes "planner" ∷ [];
  allowed_a2a_tasks = [];
  mcp_to_a2a_bridges = [];
  a2a_to_mcp_bridges = [];
  scopes = [];
  policy_bundle_ref = [];
  parent_profile_id = [];
  enabled = true;
  created_at = [];
  updated_at = [];
}

abbrev coder : Profile
coder = record {
  tenant_id = codes "acme";
  id = codes "p1";
  name = codes "coder";
  allowed_mcp_servers = codes "github" ∷ [];
  allowed_tools = codes "github.search" ∷ codes "jira.list" ∷ [];
  allowed_skills = codes "code-review" ∷ [];
  allowed_model_aliases = codes "gpt-4o" ∷ [];
  allowed_a2a_peers = codes "planner" ∷ [];
  allowed_a2a_tasks = [];
  mcp_to_a2a_bridges = [];
  a2a_to_mcp_bridges = [];
  scopes = [];
  is_default = false;
}

from_store-coder : from_store (some (stored (codes "acme"))) ≡ some coder
unfolding from_store
from_store-coder = refl

jira_not_allowed : allows_tool (some coder) (codes "jira.list") ≡ false
unfolding allows_tool portico_gateway.Namespace.split_tool portico_gateway.Base.contains str_eq
jira_not_allowed = refl

allows_tool_iff_example :
    (allows_tool (some coder) (codes "github.search") ≡ true)
    ↔ ToolEntitled coder refl (codes "github.search")
allows_tool_iff_example = allows_tool_iff coder refl (codes "github.search")

abbrev live : LiveCatalog
live = record { servers = codes "linear" ∷ []; skills = codes "code-review" ∷ []; aliases = [] }

-- A store with one binding in every tenant, which is down for the subject "down".
abbrev store : BindingStore
store t s =
    if str_eq s (codes "alice")
    then found (some (stored t))
    else if str_eq s (codes "down")
    then failed (codes "disk")
    else not_found

abbrev Row : GoString → GoString → Option AgentProfile → Type 0
Row t s row = store t s ≡ found row

Row-AnswersOwn : AnswersOwn Row
Row-AnswersOwn t s row h = ground arith

-- No tenant that calls has a bar in its name.
abbrev Calls : GoString → Type 0
Calls t = Without b'|' t

Calls-CallsPlain : CallsPlain Calls
Calls-CallsPlain t w = w

abbrev alice : Principal
alice = record { tenant_id = codes "acme"; subject = codes "alice" }

-- A cache for two, after one call, with the entry dropped by an invalidation.
abbrev called : Resolver
called = (resolve store 0 0 alice (new_resolver 60 2)).0

called-Reach : Reach Calls Row (new_resolver 60 2) called
called-Reach =
    resolve-Reach Calls Row store 0 0 alice (new_resolver 60 2) (omega arith) (λ row h. h)

Reach-bounded_example : length called.cache ≤ 2
Reach-bounded_example = Reach-bounded Calls Row 60 2 called called-Reach

resolve-OutcomeOf_example :
    OutcomeOf Calls Row Calls-CallsPlain Row-AnswersOwn
      (codes "acme")
      (resolve store 30 30 alice called).1
resolve-OutcomeOf_example =
    resolve-OutcomeOf Calls Row Calls-CallsPlain Row-AnswersOwn store 60 2 called 30 30 alice
      called-Reach (omega arith) (λ row h. h)

abbrev down : Principal
down = record { tenant_id = codes "acme"; subject = codes "down" }

abbrev bob : Principal
bob = record { tenant_id = codes "acme"; subject = codes "bob" }

abbrev carol : Principal
carol = record { tenant_id = codes "acme"; subject = codes "carol" }

-- Alice at 0, Bob at 50, then Alice's entry expires and is dropped at 61, and Carol fills the
-- cache again: the next write for Alice evicts itself.
abbrev full : Resolver
full =
    let r1 = (resolve store 0 0 alice (new_resolver 60 2)).0 in
    let r2 = (resolve store 50 50 bob r1).0 in
    let r3 = (cached 61 (key (codes "acme") (codes "alice")) r2).0 in
    (resolve store 62 62 carol r3).0
