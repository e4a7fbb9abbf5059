-- ===== src/Lib.antt =====
-- Portico gateway: a verification library for the governance core of the gateway.
--
-- Every governed call passes an envelope: the name of a tool is split (internal/catalog/namespace),
-- the caller's Agent Profile is resolved and asked (internal/profiles), the policy engine decides
-- (internal/policy), budgets and quotas are checked, and the call may wait for an approval. Each
-- part is a pure function or a state with operations here, in the module named after it.
--
--   Base        Go strings (as lists of bytes), Go maps (as association lists), shared lemmas.
--   Namespace   internal/catalog/namespace: ValidateServerID, JoinTool, SplitTool, prompt names.
--   Profiles    internal/profiles: profile.go and surface.go; Resolver is resolver.go.
--   Policy      internal/policy: Glob is matchAny of engine.go with Go's path.Match, Risk is
--               riskclass.go, Skills is findOwningSkill and internal/skills/runtime/enablement.go,
--               Engine is New and EvaluateToolCall.
--   Approval    internal/policy/approval/flow.go; Table is internal/storage/sqlite/approval_store.go.
--   VirtualKeys internal/auth/virtual_keys: Token is format.go, Service vk.go, Resolver resolver.go;
--               Store is the part of internal/storage/sqlite/governance_store.go they call.
--   Quota       internal/llm/quota/enforcer.go.
--   Budgets     internal/budgets: Window is window.go, Enforcer is enforcer.go.
--   LlmCache    internal/llm/cache/key.go and internal/llm/cache/inmem/driver.go.
--   Gateway     internal/server/mcpgw: Dispatcher is dispatchToolCall with internal/mcp/southbound/manager,
--               Pipeline and Evaluate policy_pipeline.go, Bridge a2a_bridge.go, agent_profile.go and
--               vk_allowlist.go; A2a is internal/a2a/dispatch; Protocol their errors and events.
--               Session is session_registry.go, Listing handleToolsList, ListChanged listchanged.go,
--               Binder snapshot_binder.go, Pool internal/a2a/southbound/manager/pool.go.
--   Snapshots   internal/catalog/snapshots: snapshot.go and fingerprint.go; Drift is drift.go.
--   CodeMode    internal/mcp/codemode/policy.go and internal/mcp/codemode/runtime/budget.go.
--
-- Each proof module is named for what it proves; each component's Tests run it on concrete inputs
-- and hold the witnesses. What a method of Go is called, its definition here is called in snake_case.
--
-- Conventions. A clock, the random bytes, the random order of a Go map and a failing statement of
-- the database are arguments. An operation under a mutex is one function on the state; where Go
-- releases the mutex in between, each critical section is one, and the interleavings are a step
-- relation (Profiles.Resolver.Steps, VirtualKeys.Resolver.Steps, Gateway.Binder.Steps, and
-- Gateway.Session.Notifications for the receives between the selects of EmitNotification). SHA-256,
-- HMAC-SHA256 and the decoding and encoding of JSON are parameters. Integers are natural numbers:
-- lengths, counts and times that no caller brings near 2 ^ 63, a duration that is not positive being 0.
--
-- Fuel. Glob.path_match is given more rounds than its pattern has bytes, which Glob.Fuel shows to be
-- enough; LlmCache.evict_locked the number of its nodes, which every turn makes fewer; a decimal
-- number is given the number itself, and Window.year_from more years than the days can make.
--
-- Not modelled: transports, REST handlers, the web console, the supervisor of processes, the Starlark
-- interpreter, encryption and serialisation, which are input and output or libraries. Where the
-- models call such a part (a client of a server or a peer, an injector of credentials), it is a
-- function among their arguments.
pub mod Base
pub mod Namespace
pub mod Profiles
pub mod Policy
pub mod Approval
pub mod VirtualKeys
pub mod Budgets
pub mod Quota
pub mod LlmCache
pub mod CodeMode
pub mod Gateway
pub mod Snapshots
