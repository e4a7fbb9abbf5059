-- ===== src/Gateway/A2a.antt =====
-- internal/a2a/dispatch/dispatch.go: the governed call of an A2A peer. The store of peers, the pool
-- of clients and the peers themselves are functions.
use portico_gateway.Base.{
  ℕ, Bool, not, ◌&&◌, Option, none, some, List, [], ◌∷◌, ◌++◌, if◌then◌else◌, GoString, codes,
  str_eq, is_empty,
}
use portico_gateway.Profiles.{Profile, allows_a2a_peer}
use portico_gateway.Gateway.Protocol.{
  text, Payload, A2aError, Effects, audit, send_message, MessageSendParams, err_invalid_params,
  err_internal_error, err_unsupported_operation, err_profile_violation, event_a2a_dispatch,
  event_agent_profile_violation,
}

-- The parts of ifaces.A2APeer that the dispatcher reads.
pub record Peer : Type 0 where
  pub id : GoString
  pub name : GoString
  pub enabled : Bool

pub data PeerLookup : Type 0 where
  found : Peer → PeerLookup
  missing : PeerLookup
  broken : PeerLookup

-- An error of the pool or of a client.
pub data CallError : Type 0 where
  peer_error : A2aError → CallError
  peer_disabled : CallError
  peer_missing : CallError
  other : CallError

-- What a pooled client answers to a message.
pub data Sent : Type 0 where
  replied : GoString → Sent
  refused : CallError → Sent

pub data Acquired : Type 0 where
  client : (MessageSendParams → Sent) → Acquired
  unavailable : CallError → Acquired

pub record Dispatcher : Type 0 where
  pub list_peers : GoString → Option (List Peer)
  pub get_peer : GoString → GoString → PeerLookup
  pub acquire : GoString → GoString → Acquired
  pub emitter : Bool

pub data Reply : Type 0 where
  ok : GoString → Reply
  error : A2aError → Reply

abbrev pub new_error : ℕ → GoString → A2aError
new_error code message = record { code = code; message = some message; details = [] }

unfoldable pub map_err : CallError → A2aError
map_err (peer_error e) = e
map_err peer_disabled = new_error err_unsupported_operation (codes "a2a peer is disabled")
map_err peer_missing = new_error err_invalid_params (codes "unknown a2a peer")
map_err other = record { code = err_internal_error; message = none; details = [] }

-- An event of the tenant, if there is an emitter.
abbrev pub emitted : Bool → GoString → GoString → Payload → Effects
emitted on tenant kind payload =
    if on
    then audit (record {
      kind = kind;
      tenant_id = tenant;
      session_id = [];
      user_id = [];
      payload = payload;
    })
      ∷ []
    else []

unfoldable pub audit_dispatch : Dispatcher → GoString → Peer → GoString → GoString → Effects
audit_dispatch d tenant peer method task = emitted d.emitter tenant event_a2a_dispatch (
    (codes "peer_id", text peer.id)
    ∷ (codes "peer", text peer.name)
    ∷ (codes "method", text method)
    ∷ (if is_empty task then [] else (codes "task_id", text task) ∷ []))

unfoldable pub audit_profile_violation : Dispatcher → GoString → GoString → GoString → Effects
audit_profile_violation d tenant profile peer =
    emitted d.emitter tenant event_agent_profile_violation (
      (codes "profile_id", text profile)
      ∷ (codes "peer", text peer)
      ∷ (codes "reason", text (codes "peer_outside_profile"))
      ∷ [])

pub data Resolved : Type 0 where
  peer : Peer → Resolved
  denied : A2aError → Resolved

abbrev pub violation : Profile → Peer → A2aError
violation prof p = record {
  code = err_profile_violation;
  message = some (codes "agent profile violation");
  details =
      (codes "profile_id", text prof.id)
      ∷ (codes "peer", text p.name)
      ∷ (codes "reason", text (codes "peer_outside_profile"))
      ∷ [];
}

-- `prof != nil && !prof.IsDefault && !prof.AllowsA2APeer(peer.Name)`
unfoldable pub enforce : Dispatcher → Option Profile → GoString → Peer → Effects × Resolved
enforce d none tenant p = ([], peer p)
enforce d (some prof) tenant p =
    if not prof.is_default && not (allows_a2a_peer (some prof) p.name)
    then (audit_profile_violation d tenant prof.id p.name, denied (violation prof p))
    else ([], peer p)

unfoldable pub enforce_found :
    Dispatcher → Option Profile → GoString → PeerLookup → Effects × Resolved
enforce_found d prof tenant (found p) = enforce d prof tenant p
enforce_found d prof tenant missing =
    ([], denied (new_error err_invalid_params (codes "unknown a2a peer")))
enforce_found d prof tenant broken =
    ([], denied (new_error err_internal_error (codes "a2a peer lookup failed")))

unfoldable pub resolve_and_enforce :
    Dispatcher → Option Profile → GoString → GoString → Effects × Resolved
resolve_and_enforce d prof tenant id = enforce_found d prof tenant (d.get_peer tenant id)

abbrev pub method_message_send : GoString
method_message_send = codes "message/send"

-- The call of the client that was acquired, and what is audited of it.
unfoldable pub on_sent :
    Dispatcher → GoString → GoString → Peer → MessageSendParams → Sent → Effects × Reply
on_sent d tenant id p params (refused e) = (send_message tenant id params ∷ [], error (map_err e))
on_sent d tenant id p params (replied raw) =
    (send_message tenant id params ∷ audit_dispatch d tenant p method_message_send [], ok raw)

unfoldable pub deliver :
    Dispatcher → GoString → GoString → Peer → MessageSendParams → Acquired → Effects × Reply
deliver d tenant id p params (unavailable e) = ([], error (map_err e))
deliver d tenant id p params (client send) = on_sent d tenant id p params (send params)

-- `SendMessage` from the peer on.
unfoldable pub on_resolved :
    Dispatcher → GoString → GoString → MessageSendParams → Effects × Resolved → Effects × Reply
on_resolved d tenant id params (es, denied e) = (es, error e)
on_resolved d tenant id params (es, peer p) =
    let (es', reply) = deliver d tenant id p params (d.acquire tenant id) in (es ++ es', reply)

unfoldable pub send_to_peer :
    Dispatcher → Option Profile → GoString → GoString → MessageSendParams → Effects × Reply
send_to_peer d prof tenant id params =
    on_resolved d tenant id params (resolve_and_enforce d prof tenant id)

-- The first peer of the list with the name.
unfoldable pub named : GoString → List Peer → Option Peer
named name [] = none
named name (p ∷ ps) = if str_eq p.name name then some p else named name ps

unfoldable pub on_named :
    Dispatcher
    → Option Profile
    → GoString
    → GoString
    → MessageSendParams
    → Option Peer
    → Effects × Reply
on_named d prof tenant name params none =
    ([], error (new_error err_invalid_params (codes "unknown a2a peer: " ++ name)))
on_named d prof tenant name params (some p) = send_to_peer d prof tenant p.id params

unfoldable pub on_listed :
    Dispatcher
    → Option Profile
    → GoString
    → GoString
    → MessageSendParams
    → Option (List Peer)
    → Effects × Reply
on_listed d prof tenant name params none =
    ([], error (new_error err_internal_error (codes "a2a peer lookup failed")))
on_listed d prof tenant name params (some peers) =
    on_named d prof tenant name params (named name peers)

unfoldable pub send_message_by_peer_name :
    Dispatcher → Option Profile → GoString → GoString → MessageSendParams → Effects × Reply
send_message_by_peer_name d prof tenant name params =
    on_listed d prof tenant name params (d.list_peers tenant)
