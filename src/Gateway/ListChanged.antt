-- ===== src/Gateway/ListChanged.antt =====
-- internal/server/mcpgw/listchanged.go: which sessions are told of a change that a server announces,
-- with InvalidateSession of resources.go. The rewriting of a notification's JSON is a parameter. A
-- set of sessions is a map to Unit; the range over it comes in the order of the list.
pub mod Subscribers
pub mod Delivered
pub mod Cleared
mod Tests
use portico_gateway.Base.{
  Bool, true, false, not, ◌&&◌, ◌||◌, Option, none, some, List, [], ◌∷◌, ◌++◌, if◌then◌else◌,
  GoString, codes, is_empty, str_eq, contains, filter,
}
use portico_gateway.Base.Assoc.{Assoc, lookup, set, delete}
use portico_gateway.Gateway.Listing.{ToolsCache}
use portico_gateway.Gateway.Session.{Session, SessionRegistry, emit_notification, get_session}

abbrev pub mode_stable : GoString
mode_stable = codes "stable"

abbrev pub mode_live : GoString
mode_live = codes "live"

pub record Notification : Type 0 where
  pub method : GoString
  pub params : GoString

pub record CacheKey : Type 0 where
  pub session_id : GoString
  pub kind : GoString
  pub cursor : GoString

-- The cache of the ResourceAggregator, with the bodies it holds.
abbrev pub ResourceCache : Type 0
ResourceCache = List (CacheKey × GoString)

unfoldable pub invalidate_session : GoString → ResourceCache → ResourceCache
invalidate_session id cache =
    if is_empty id then cache else filter (λ e. not (str_eq e.0.session_id id)) cache

-- A set of session ids.
abbrev pub IdSet : Type 0
IdSet = Assoc {0} Unit

-- `subs` has the subscribers of each server.
pub record ListChangedMux : Type 0 where
  pub modes : Assoc GoString
  pub default_mode : GoString
  pub subs : Assoc IdSet

unfoldable pub new_list_changed_mux : GoString → ListChangedMux
new_list_changed_mux mode = record {
  modes = [];
  default_mode = if str_eq mode mode_live then mode_live else mode_stable;
  subs = [];
}

unfoldable pub set_mode : GoString → GoString → ListChangedMux → ListChangedMux
set_mode id mode m = if is_empty id then m else record m {
  modes =
      set id
        (if not (str_eq mode mode_live) && not (str_eq mode mode_stable) then mode_stable else mode)
        m.modes;
}

abbrev pub or_default : GoString → Option GoString → GoString
or_default d none = d
or_default d (some mode) = mode

unfoldable pub mode_of : GoString → ListChangedMux → GoString
mode_of id m = or_default m.default_mode (lookup id m.modes)

abbrev pub set_of : Option IdSet → IdSet
set_of none = []
set_of (some ids) = ids

unfoldable pub subscribe : GoString → GoString → ListChangedMux → ListChangedMux
subscribe id server m =
    if is_empty id || is_empty server
    then m
    else record m { subs = set server (set id tt (set_of (lookup server m.subs))) m.subs }

-- An empty set of subscribers is deleted.
abbrev pub keep_set : GoString → IdSet → Assoc IdSet → Assoc IdSet
keep_set server [] rest = rest
keep_set server (e ∷ ids) rest = (server, e ∷ ids) ∷ rest

abbrev pub forget_in : GoString → Assoc IdSet → Assoc IdSet
forget_in id [] = []
forget_in id ((server, ids) ∷ subs) = keep_set server (delete id ids) (forget_in id subs)

unfoldable pub forget_session : GoString → ListChangedMux → ListChangedMux
forget_session id m =
    if is_empty id then m else record m { modes = delete id m.modes; subs = forget_in id m.subs }

abbrev pub keys : IdSet → List GoString
keys [] = []
keys ((id, u) ∷ ids) = id ∷ keys ids

-- The registry of the sessions and the cache of the aggregator, if the mux has one; and the tools
-- listings that the dispatcher keeps, which the mux does not know.
pub record World : Type 0 where
  pub registry : SessionRegistry
  pub resources : Option ResourceCache
  pub tools : ToolsCache

abbrev pub invalidated : GoString → Option ResourceCache → Option ResourceCache
invalidated id none = none
invalidated id (some cache) = some (invalidate_session id cache)

abbrev pub handled : GoString → Bool
handled method =
    str_eq method (codes "notifications/resources/list_changed")
    || (str_eq method (codes "notifications/prompts/list_changed")
        || (str_eq method (codes "notifications/tools/list_changed")
            || str_eq method (codes "notifications/resources/updated")))

module _ (rewrite_for_client : GoString → Notification → GoString) where
  -- A session that is found is told.
  unfoldable pub forward :
      GoString → Notification → GoString → Option Session → SessionRegistry → SessionRegistry
  forward server n id none r = r
  forward server n id (some s) r = record r {
    sessions = set id (emit_notification (rewrite_for_client server n) s).0 r.sessions;
  }

  -- One turn of the loop of `dispatch`.
  unfoldable pub tell : ListChangedMux → GoString → Notification → GoString → World → World
  tell m server n id w =
      if str_eq (mode_of id m) mode_stable
      then record w { resources = invalidated id w.resources }
      else record w { registry = forward server n id (get_session id w.registry) w.registry }

  abbrev pub tell_all : ListChangedMux → GoString → Notification → List GoString → World → World
  tell_all m server n [] w = w
  tell_all m server n (id ∷ ids) w = tell_all m server n ids (tell m server n id w)

  unfoldable pub dispatch : ListChangedMux → GoString → Notification → World → World
  dispatch m server n w = tell_all m server n (keys (set_of (lookup server m.subs))) w

  unfoldable pub on_downstream : ListChangedMux → GoString → Notification → World → World
  on_downstream m server n w = if handled n.method then dispatch m server n w else w
