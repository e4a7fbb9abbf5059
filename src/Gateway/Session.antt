-- ===== src/Gateway/Session.antt =====
-- internal/server/mcpgw/session_registry.go: a session's notifications and cancel functions, and the
-- registry of sessions. A method is one step under its mutex, but
-- for a receive, which may come between the selects of EmitNotification; `none` is a panic. A cancel function
-- is known by what it cancels, and firing it is recorded; the random ids are arguments.
pub mod Notifications
pub mod Closing
mod Tests
use portico_gateway.Base.{
  ℕ, ◌+◌, ◌<◌, ◌≡◌, Bool, true, false, not, Option, none, some, List, [], ◌∷◌, ◌++◌, if◌then◌else◌,
  GoString, ltb, length,
}
use portico_gateway.Base.Assoc.{Assoc, lookup, set, delete}
use portico_gateway.Gateway.Pipeline.{Caller}

-- The capacity of notifCh.
abbrev pub capacity : ℕ
capacity = 256

-- `queue` is what notifCh holds, the oldest first; `cancels` is none for the nil map.
pub record Session : Type 0 where
  pub caller : Caller
  pub queue : List GoString
  pub cancels : Option (Assoc GoString)
  pub fired : List GoString
  pub closed : Bool
  pub channel_closed : Bool

unfoldable pub new_session : GoString → GoString → GoString → GoString → Session
new_session id tenant user token = record {
  caller = record { id = id; tenant_id = tenant; user_id = user; subject_token = token };
  queue = [];
  cancels = some [];
  fired = [];
  closed = false;
  channel_closed = false;
}

-- The oldest element dropped.
abbrev pub drop_oldest : List GoString → List GoString
drop_oldest [] = []
drop_oldest (n ∷ ns) = ns

-- A send that does not wait: `none` when the channel is full.
abbrev pub try_send : GoString → Session → Option Session
try_send n s =
    if ltb (length s.queue) capacity then some (record s { queue = s.queue ++ n ∷ [] }) else none

-- What the first select comes to: EmitNotification returns the flag, or goes on to its default case.
abbrev pub after_send : Session → Option Session → Session × Option Bool
after_send s none = (s, none)
after_send s (some t) = (t, some false)

-- The guard and the first select of EmitNotification.
unfoldable pub offer : GoString → Session → Session × Option Bool
offer n s = if s.closed then (s, some true) else after_send s (try_send n s)

-- The second select.
unfoldable pub shed_oldest : Session → Session
shed_oldest s = record s { queue = drop_oldest s.queue }

abbrev pub or_kept : Session → Option Session → Session
or_kept s none = s
or_kept s (some t) = t

-- The third select.
unfoldable pub push : GoString → Session → Session
push n s = or_kept s (try_send n s)

-- The rest of EmitNotification, from the first select on.
unfoldable pub after_offer : GoString → Session × Option Bool → Session × Bool
after_offer n (s, some dropped) = (s, dropped)
after_offer n (s, none) = (push n (shed_oldest s), true)

-- The whole of EmitNotification when no receive comes in between. The flag says that a
-- notification was dropped.
unfoldable pub emit_notification : GoString → Session → Session × Bool
emit_notification n s = after_offer n (offer n s)

-- A receive from Notifications() that finds an element.
abbrev pub take_oldest : List GoString → List GoString × Option GoString
take_oldest [] = ([], none)
take_oldest (n ∷ ns) = (ns, some n)

unfoldable pub receive : Session → Session × Option GoString
receive s = let (rest, n) = take_oldest s.queue in (record s { queue = rest }, n)

-- An assignment to the nil map panics.
unfoldable pub register_cancel : GoString → GoString → Session → Option Session
register_cancel id cancel s = elim s.cancels [
  | none ↦ none
  | some m ↦ some (record s { cancels = some (set id cancel m) })
]

abbrev pub delete_from : GoString → Option (Assoc GoString) → Option (Assoc GoString)
delete_from id none = none
delete_from id (some m) = some (delete id m)

abbrev pub lookup_in : GoString → Option (Assoc GoString) → Option GoString
lookup_in id none = none
lookup_in id (some m) = lookup id m

unfoldable pub unregister_cancel : GoString → Session → Session
unregister_cancel id s = record s { cancels = delete_from id s.cancels }

-- The rest of `Cancel`, from the look-up.
unfoldable pub fire : GoString → Option GoString → Session → Session × Bool
fire id none s = (s, false)
fire id (some cancel) s =
    (record s { cancels = delete_from id s.cancels; fired = s.fired ++ cancel ∷ [] }, true)

unfoldable pub cancel_request : GoString → Session → Session × Bool
cancel_request id s = fire id (lookup_in id s.cancels) s

abbrev pub functions : Option (Assoc GoString) → List GoString
functions none = []
functions (some []) = []
functions (some ((id, cancel) ∷ m)) = cancel ∷ functions (some m)

unfoldable pub close_session : Session → Session
close_session s = if s.closed then s else record s {
  closed = true;
  fired = s.fired ++ functions s.cancels;
  cancels = none;
  channel_closed = true;
}

-- The sessions, and the ids for which the callbacks of OnClose were called.
pub record SessionRegistry : Type 0 where
  pub sessions : Assoc Session
  pub notified : List GoString

unfoldable pub create :
    GoString → GoString → GoString → GoString → SessionRegistry → SessionRegistry
create id tenant user token r = record r {
  sessions = set id (new_session id tenant user token) r.sessions;
}

abbrev pub if_open : Option Session → Option Session
if_open none = none
if_open (some s) = if s.closed then none else some s

unfoldable pub get_session : GoString → SessionRegistry → Option Session
get_session id r = if_open (lookup id r.sessions)

-- The rest of `Close` of the registry, from the look-up.
unfoldable pub close_found :
    GoString → Option Session → SessionRegistry → SessionRegistry × Option Session
close_found id none r = (record r { sessions = delete id r.sessions }, none)
close_found id (some s) r = (
  record r { sessions = delete id r.sessions; notified = r.notified ++ id ∷ [] },
  some (close_session s),
)

-- The session that was taken out is closed, and returned with the registry.
unfoldable pub close_by_id : GoString → SessionRegistry → SessionRegistry × Option Session
close_by_id id r = close_found id (lookup id r.sessions) r

abbrev pub ids_of : Assoc Session → List GoString
ids_of [] = []
ids_of ((id, s) ∷ m) = id ∷ ids_of m

abbrev pub closed_all : Assoc Session → List Session
closed_all [] = []
closed_all ((id, s) ∷ m) = close_session s ∷ closed_all m

-- The sessions come in the order of the list, which in Go is that of the range over the map.
unfoldable pub close_all : SessionRegistry → SessionRegistry × List Session
close_all r =
    (record r { sessions = []; notified = r.notified ++ ids_of r.sessions }, closed_all r.sessions)
