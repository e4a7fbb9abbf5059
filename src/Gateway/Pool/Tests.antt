-- ===== src/Gateway/Pool/Tests.antt =====
-- A pool whose clients are the endpoint and the credential that they were built with.
use portico_gateway.Base.{
  ◌≡◌, refl, true, false, Option, some, [], GoString, codes, Without, arith, str_eq,
}
use portico_gateway.Base.Assoc.{lookup, set, delete}
use portico_gateway.Gateway.Pool.{
  A2aPeer, key, Pool, new_pool, client, refused, peer_disabled, take, on_peer, acquire, invalidate,
}
use portico_gateway.Gateway.Pool.Isolation.{IsBuilt, Reach, new, acquired, acquire-IsBuilt}

abbrev Client : Type 0
Client = GoString × GoString

abbrev make : A2aPeer → Option Client
make peer = some (peer.endpoint, peer.egress_auth_ref)

abbrev acme : GoString
acme = codes "acme"

abbrev translator : A2aPeer
translator = record {
  tenant_id = acme;
  id = codes "p1";
  name = codes "translator";
  endpoint = codes "https://a";
  egress_auth_ref = codes "vault/a";
  agent_card_json = [];
  enabled = true;
  created_at = [];
  updated_at = [];
}

abbrev Row : GoString → GoString → A2aPeer → Type 0
Row tenant id peer = (peer.tenant_id ≡ tenant) × (peer.id ≡ id)

abbrev used : Pool Client
used = (acquire Client acme (codes "p1") (some translator) (new_pool Client true (some make))).0

plain : Without 0 acme
plain = ((λ e. omega arith), ((λ e. omega arith), ((λ e. omega arith), ((λ e. omega arith), tt))))

rows : (peer : A2aPeer) → some translator ≡ some peer → Row acme (codes "p1") peer
rows peer e = (cc, cc)

reach_used : Reach Client make Row used
reach_used = acquired acme (codes "p1") (some translator) new plain rows

answered :
    (acquire Client acme (codes "p1") (some translator) used).1
    ≡ client (codes "https://a", codes "vault/a")
unfolding new_pool acquire on_peer take lookup set key str_eq
answered = refl

-- A peer that was disabled is refused, its client cached or not.
disabled_refused :
    (acquire Client acme (codes "p1") (some (record translator { enabled = false })) used).1
    ≡ refused peer_disabled
unfolding new_pool acquire on_peer take lookup set key str_eq
disabled_refused = refl

acquire-IsBuilt_example :
    IsBuilt Client make Row acme (codes "p1") (codes "https://a", codes "vault/a")
acquire-IsBuilt_example =
    acquire-IsBuilt Client make Row used acme (codes "p1") (some translator)
      (codes "https://a", codes "vault/a") reach_used plain rows answered

-- A row that was read before an update and an invalidation is cached after them: the peer's new
-- row is answered with the client of the old one.
stale_client :
    let late =
      (take Client acme (codes "p1") translator (invalidate Client acme (codes "p1") used).0).0 in
    (acquire Client acme
      (codes "p1")
      (some (record translator { egress_auth_ref = codes "vault/b" }))
      late).1
    ≡ client (codes "https://a", codes "vault/a")
unfolding new_pool acquire on_peer take invalidate lookup set delete key str_eq
stale_client = refl
