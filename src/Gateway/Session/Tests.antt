-- ===== src/Gateway/Session/Tests.antt =====
-- A session with a call in flight, two notifications and a registry around it.
use portico_gateway.Base.{
  ◌≡◌, refl, false, none, some, [], ◌∷◌, GoString, codes, Memᴰ, str_eq, if◌then◌else◌,
}
use portico_gateway.Base.Assoc.{lookup, set, delete}
use portico_gateway.Gateway.Pipeline.{Caller}
use portico_gateway.Gateway.Session.{
  Session, SessionRegistry, new_session, offer, after_offer, emit_notification, receive, lookup_in,
  fire, register_cancel, cancel_request, close_session, get_session, close_by_id, close_all,
}
use portico_gateway.Gateway.Session.Notifications.{
  Run, idle, started, offers, receives, IsFaithful, Run-IsFaithful,
}
use portico_gateway.Gateway.Session.Closing.{close_session-cancels, get_session-close_by_id}

abbrev alice : Caller
alice = record {
  id = codes "s_1";
  tenant_id = codes "acme";
  user_id = codes "alice";
  subject_token = codes "jwt";
}

abbrev new_one : Session
new_one = new_session (codes "s_1") (codes "acme") (codes "alice") (codes "jwt")

abbrev progress : GoString
progress = codes "progress"

abbrev list_changed : GoString
list_changed = codes "list_changed"

-- Two notifications, of which one was received.
abbrev two_sent : Session
two_sent = (emit_notification list_changed (emit_notification progress new_one).0).0

abbrev one_received : Session
one_received = (receive two_sent).0

one_left : one_received.queue ≡ list_changed ∷ []
unfolding new_session offer after_offer emit_notification receive
one_left = refl

abbrev the_run : Run alice (progress ∷ list_changed ∷ []) (progress ∷ []) 0 idle one_received
unfolding new_session offer after_offer emit_notification receive
the_run = receives progress (offers list_changed (offers progress started refl) refl) refl

Run-IsFaithful_example :
    IsFaithful (progress ∷ list_changed ∷ []) (progress ∷ []) 0 idle one_received.queue
Run-IsFaithful_example =
    Run-IsFaithful alice (progress ∷ list_changed ∷ []) (progress ∷ []) 0 idle one_received the_run

-- A session with the call 7 in flight.
abbrev busy : Session
busy = record new_one { cancels = some ((codes "7", codes "call 7") ∷ []) }

busy-registered : register_cancel (codes "7") (codes "call 7") new_one ≡ some busy
unfolding new_session register_cancel set
busy-registered = refl

cancelled : (cancel_request (codes "7") busy).0.fired ≡ codes "call 7" ∷ []
unfolding new_session cancel_request fire lookup delete str_eq
cancelled = refl

busy-found : lookup_in (codes "7") busy.cancels ≡ some (codes "call 7")
unfolding lookup str_eq
busy-found = refl

busy-open : busy.closed ≡ false
unfolding new_session
busy-open = refl

close_session-cancels_example :
    Memᴰ (codes "call 7") (close_session busy).fired
    × ((j : GoString) → cancel_request j (close_session busy) ≡ (close_session busy, false))
    × ((j c : GoString) → register_cancel j c (close_session busy) ≡ none)
close_session-cancels_example =
    close_session-cancels (codes "7") (codes "call 7") busy busy-open busy-found

abbrev registry : SessionRegistry
registry = record { sessions = (codes "s_1", busy) ∷ []; notified = [] }

get_session-close_by_id_example :
    get_session (codes "s_1") (close_by_id (codes "s_1") registry).0
    ≡ (if str_eq (codes "s_1") (codes "s_1") then none else get_session (codes "s_1") registry)
get_session-close_by_id_example = get_session-close_by_id (codes "s_1") (codes "s_1") registry

all_notified : (close_all registry).0.notified ≡ codes "s_1" ∷ []
unfolding close_all
all_notified = refl
