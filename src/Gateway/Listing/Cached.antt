-- ===== src/Gateway/Listing/Cached.antt =====
-- The listing that is kept for a session.
use portico_gateway.Base.{
  ℕ, ◌<◌, ◌+◌, false, Option, none, some, List, ◌≡◌, refl, ap, ◌∙◌, arith, GoString, str_eq_refl,
}
use portico_gateway.Base.Assoc.{lookup, set, lookup-set}
use portico_gateway.Profiles.{Profile}
use portico_gateway.Snapshots.{Tool, ToolInfo}
use portico_gateway.Gateway.Pipeline.{Caller, Server}
use portico_gateway.Gateway.Dispatcher.{Client, Manager}
use portico_gateway.Gateway.Listing.{
  cache_ttl, ServerTools, listed, ToolsCache, filter_tools_by_profile, bound_tools, live_entry,
  servers_for, gather, list_fresh, list_cached, list_bound, handle_tools_list,
}

module _ (list_servers : GoString → Option (List Server)) (list_tools : Client → Option (List Tool))
    (arrive : List ServerTools → List ServerTools) (m : Option Manager) (prof : Option Profile)
    (bound : Option (Option (List ToolInfo))) (sess : Caller) (now later : ℕ)
    (cache : ToolsCache) where
  -- A kept listing that has not expired is the answer, and stays.
  kept :
      (tools : List Tool)
      → bound_tools bound ≡ none
      → live_entry now (lookup sess.id cache) ≡ some tools
      → handle_tools_list list_servers list_tools arrive m prof false bound sess now later cache
        ≡ (cache, listed (filter_tools_by_profile prof tools))
  unfolding handle_tools_list list_bound list_cached
  kept tools free live = rw (free, live) refl

  -- A fresh listing is kept as it was gathered, whatever the profile.
  fresh_kept :
      (servers : List Server)
      → bound_tools bound ≡ none
      → live_entry now (lookup sess.id cache) ≡ none
      → servers_for list_servers m sess ≡ some servers
      → (handle_tools_list list_servers list_tools arrive m prof false bound sess now later cache).0
        ≡ set sess.id
            (record {
              tools = gather list_tools arrive m sess servers;
              expires_at = later + cache_ttl;
            })
            cache
  unfolding handle_tools_list list_bound list_cached list_fresh
  fresh_kept servers free stale have = rw (free, stale, have) refl

live_entry-set :
    (id : GoString) (tools : List Tool) (now expires : ℕ) (cache : ToolsCache)
    → now < expires
    → live_entry now (lookup id (set id (record { tools = tools; expires_at = expires }) cache))
      ≡ some tools
unfolding live_entry
live_entry-set id tools now expires cache h =
    ap (live_entry now) (lookup-set id id (record { tools = tools; expires_at = expires }) cache)
    ∙ (rw (str_eq_refl id) (ground arith))

-- A listing that a session fetched is the answer to its next request for a minute, whatever the
-- servers answer by then, under the profile of that request, and stays kept: when the session was
-- not in Code Mode and no snapshot was bound to it with its tools at either request, none was kept
-- before, the servers could be listed, and the kept listings were not changed in between.
pub handle_tools_list-kept :
    (list_servers list_servers2 : GoString → Option (List Server))
    (list_tools list_tools2 : Client → Option (List Tool))
    (arrive arrive2 : List ServerTools → List ServerTools) (m m2 : Option Manager)
    (prof prof2 : Option Profile) (bound bound2 : Option (Option (List ToolInfo))) (sess : Caller)
    (now later now2 later2 : ℕ) (cache : ToolsCache) (servers : List Server)
    → bound_tools bound ≡ none
    → bound_tools bound2 ≡ none
    → live_entry now (lookup sess.id cache) ≡ none
    → servers_for list_servers m sess ≡ some servers
    → now2 < later + cache_ttl
    → let first =
        (handle_tools_list list_servers list_tools arrive m prof false bound sess now later
          cache).0 in
      handle_tools_list list_servers2 list_tools2 arrive2 m2 prof2 false bound2 sess now2 later2
        first
      ≡ (first, listed (filter_tools_by_profile prof2 (gather list_tools arrive m sess servers)))
handle_tools_list-kept list_servers list_servers2 list_tools list_tools2 arrive arrive2 m m2 prof
      prof2 bound bound2 sess now later now2 later2 cache servers free free2 stale have soon =
    let first =
      (handle_tools_list list_servers list_tools arrive m prof false bound sess now later
        cache).0 in
    let tools = gather list_tools arrive m sess servers in
    kept list_servers2 list_tools2 arrive2 m2 prof2 bound2 sess now2 later2 first tools free2 (
      ap (λ c. live_entry now2 (lookup sess.id c))
        (fresh_kept list_servers list_tools arrive m prof bound sess now later cache servers free
          stale have)
      ∙ live_entry-set sess.id tools now2 (later + cache_ttl) cache soon)
