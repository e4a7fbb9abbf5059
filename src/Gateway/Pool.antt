-- ===== src/Gateway/Pool.antt =====
-- internal/a2a/southbound/manager/pool.go: the cached clients of the registered A2A peers. The store
-- of peers and the factory of clients are parameters; a client is closed by a function of its own,
-- whose error is only logged or returned. A call of Acquire reads the store before it takes the lock.
pub mod Isolation
mod Tests
use portico_gateway.Base.{
  ℕ, Bool, true, false, not, ◌||◌, Option, none, some, List, [], ◌∷◌, ◌++◌, if◌then◌else◌, GoString,
  is_empty,
}
use portico_gateway.Base.Assoc.{Assoc, lookup, set, delete}

-- ifaces.A2APeer.
pub record A2aPeer : Type 0 where
  pub tenant_id : GoString
  pub id : GoString
  pub name : GoString
  pub endpoint : GoString
  pub egress_auth_ref : GoString
  pub agent_card_json : GoString
  pub enabled : Bool
  pub created_at : GoString
  pub updated_at : GoString

-- `tenantID + "\x00" + peerID`
unfoldable pub key : GoString → GoString → GoString
key tenant id = tenant ++ 0 ∷ id

-- Why Acquire has no client; `store_failed` is the store's own error, a peer that is not found too.
pub data AcquireError : Type 0 where
  not_configured missing_argument store_failed peer_disabled build_failed : AcquireError

module _ (Client : Type 0) where
  pub record Pool : Type 0 where
    pub has_store : Bool
    pub factory : Option (A2aPeer → Option Client)
    pub clients : Assoc Client

  pub data Acquired : Type 0 where
    client : Client → Acquired
    refused : AcquireError → Acquired

  unfoldable pub new_pool : Bool → Option (A2aPeer → Option Client) → Pool
  new_pool has_store factory = record { has_store = has_store; factory = factory; clients = [] }

  abbrev pub built : GoString → Pool → Option Client → Pool × Acquired
  built k p none = (p, refused build_failed)
  built k p (some c) = (record p { clients = set k c p.clients }, client c)

  abbrev pub build : Option (A2aPeer → Option Client) → A2aPeer → Option Client
  build none peer = none
  build (some make) peer = make peer

  abbrev pub reuse : GoString → A2aPeer → Pool → Option Client → Pool × Acquired
  reuse k peer p (some c) = (p, client c)
  reuse k peer p none = built k p (build p.factory peer)

  -- The part of Acquire under the lock.
  unfoldable pub take : GoString → GoString → A2aPeer → Pool → Pool × Acquired
  take tenant id peer p = reuse (key tenant id) peer p (lookup (key tenant id) p.clients)

  abbrev pub is_set : Option (A2aPeer → Option Client) → Bool
  is_set none = false
  is_set (some make) = true

  -- What the store answered is looked at before the lock is taken.
  unfoldable pub on_peer : GoString → GoString → Option A2aPeer → Pool → Pool × Acquired
  on_peer tenant id none p = (p, refused store_failed)
  on_peer tenant id (some peer) p =
      let taken = take tenant id peer p in
      if not peer.enabled then (p, refused peer_disabled) else taken

  -- `answer` is what the store answers for the tenant and the peer.
  unfoldable pub acquire : GoString → GoString → Option A2aPeer → Pool → Pool × Acquired
  acquire tenant id answer p =
      if not p.has_store || not (is_set p.factory)
      then (p, refused not_configured)
      else if is_empty tenant || is_empty id
      then (p, refused missing_argument)
      else on_peer tenant id answer p

  -- The client that is dropped is closed, and returned with the pool.
  unfoldable pub invalidate : GoString → GoString → Pool → Pool × Option Client
  invalidate tenant id p =
      (record p { clients = delete (key tenant id) p.clients }, lookup (key tenant id) p.clients)

  -- Of the errors of closing, the first one of the loop is returned.
  abbrev pub close_each : (Client → Option GoString) → Assoc Client → Option GoString
  close_each close [] = none
  close_each close ((k, c) ∷ cs) = elim (close c) [ none ↦ close_each close cs | some e ↦ some e ]

  unfoldable pub close_all : (Client → Option GoString) → Pool → Pool × Option GoString
  close_all close p = (record p { clients = [] }, close_each close p.clients)
