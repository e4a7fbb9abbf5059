-- ===== src/Gateway/ListChanged/Tests.antt =====
-- Two subscribers of a server, one in live mode and one in stable mode.
use portico_gateway.Base.{
  ◌≡◌, refl, true, some, [], ◌∷◌, ◌++◌, GoString, codes, not, ◌&&◌, if◌then◌else◌, str_eq, contains,
  filter,
}
use portico_gateway.Base.Assoc.{lookup, set}
use portico_gateway.Gateway.Listing.{ToolsCache}
use portico_gateway.Gateway.Session.{
  Session, new_session, offer, after_offer, emit_notification, get_session,
}
use portico_gateway.Gateway.ListChanged.{
  mode_live, mode_stable, Notification, ResourceCache, ListChangedMux, new_list_changed_mux,
  set_mode, mode_of, set_of, subscribe, keys, World, forward, tell, dispatch, handled,
  on_downstream,
}
use portico_gateway.Gateway.ListChanged.Subscribers.{Reach, new, moded, subscribed}
use portico_gateway.Gateway.ListChanged.Delivered.{heard, on_downstream-delivers}
use portico_gateway.Gateway.ListChanged.Cleared.{clears, on_downstream-clears}

abbrev alice : GoString
alice = codes "s_1"

abbrev bob : GoString
bob = codes "s_2"

abbrev github : GoString
github = codes "github"

abbrev mux : ListChangedMux
mux =
    set_mode alice mode_live
      (subscribe bob github (subscribe alice github (new_list_changed_mux mode_stable)))

abbrev reached : Reach mux
reached = moded alice mode_live (subscribed bob github (subscribed alice github (new mode_stable)))

abbrev new_one : GoString → Session
new_one id = new_session id (codes "acme") [] []

abbrev lists : ResourceCache
lists =
    (record { session_id = alice; kind = codes "resources"; cursor = [] }, codes "a")
    ∷ (record { session_id = bob; kind = codes "resources"; cursor = [] }, codes "b")
    ∷ []

-- What bob was last shown of the tools, kept until the time 60.
abbrev kept : ToolsCache
kept = (bob, record { tools = []; expires_at = 60 }) ∷ []

abbrev world : World
world = record {
  registry = record { sessions = (alice, new_one alice) ∷ (bob, new_one bob) ∷ []; notified = [] };
  resources = some lists;
  tools = kept;
}

abbrev changed : Notification
changed = record { method = codes "notifications/tools/list_changed"; params = [] }

abbrev name_server : GoString → Notification → GoString
name_server server n = server ++ n.method

only_alice :
    (on_downstream name_server mux github changed world).registry.sessions
    ≡ (alice, record (new_one alice) { queue = name_server github changed ∷ [] })
      ∷ (bob, new_one bob)
      ∷ []
unfolding on_downstream str_eq dispatch lookup set_mode subscribe set new_list_changed_mux tell
    mode_of forward get_session new_session offer after_offer emit_notification
only_alice = refl

on_downstream-delivers_example :
    lookup alice (on_downstream name_server mux github changed world).registry.sessions ≡ (
      if handled changed.method && contains (keys (set_of (lookup github mux.subs))) alice
      then heard name_server mux github changed alice (lookup alice world.registry.sessions)
      else lookup alice world.registry.sessions)
on_downstream-delivers_example =
    on_downstream-delivers name_server mux github changed world alice reached

is_handled : handled changed.method ≡ true
unfolding str_eq
is_handled = refl

on_downstream-clears_example :
    ((on_downstream name_server mux github changed world).resources
      ≡ some (
          filter
            (λ e. not (
              contains (keys (set_of (lookup github mux.subs))) e.0.session_id
              && clears mux e.0.session_id))
            lists))
    × ((on_downstream name_server mux github changed world).tools ≡ kept)
on_downstream-clears_example =
    on_downstream-clears name_server mux github changed world lists refl is_handled
