-- ===== src/Gateway/Pool/Isolation.antt =====
-- A tenant's call of a peer goes through a client that was built for that tenant's peer.
use portico_gateway.Base.{
  true, not, ◌||◌, Option, none, some, ◌≡◌, refl, sym, ap, subst, ◌∙◌, inl, inr, GoString, is_empty,
  Without, join_injective, str_eq, str_eq_iff, Bool-cases,
}
use mathlib.Core.Option.{some-injective}
use portico_gateway.Base.Assoc.{lookup, set, lookup-set, lookup-delete-some}
use portico_gateway.Gateway.Pool.{
  A2aPeer, key, Pool, new_pool, Acquired, client, refused, AcquireError, not_configured,
  missing_argument, store_failed, peer_disabled, build_failed, built, build, reuse, take, is_set,
  on_peer, acquire, invalidate, close_all,
}

pub key-injective :
    (t s u v : GoString) → Without 0 t → Without 0 u → key t s ≡ key u v → (t ≡ u) × (s ≡ v)
unfolding key
key-injective t s u v ht hu e = join_injective 0 t s u v ht hu e

-- `Row t i peer` says that the store has answered the row at some time, for the tenant and the id.
module _ (Client : Type 0) (make : A2aPeer → Option Client)
    (Row : GoString → GoString → A2aPeer → Type 0) where
  -- The client was built from such a row.
  pub record IsBuilt (tenant id : GoString) (c : Client) : Type 0 where
    pub peer : A2aPeer
    pub row : Row tenant id peer
    pub made : make peer ≡ some c

  pub data Reach : Pool Client → Type 0 where
    new : Reach (new_pool Client true (some make))
    acquired :
        {p : Pool Client} (tenant id : GoString) (answer : Option A2aPeer)
        → Reach p
        → Without 0 tenant
        → ((peer : A2aPeer) → answer ≡ some peer → Row tenant id peer)
        → Reach (acquire Client tenant id answer p).0
    invalidated :
        {p : Pool Client} (tenant id : GoString) → Reach p → Reach (invalidate Client tenant id p).0
    closed :
        {p : Pool Client} (close : Client → Option GoString)
        → Reach p
        → Reach (close_all Client close p).0

  record IsSound (p : Pool Client) : Type 0 where
    factory : p.factory ≡ some make
    owned :
        (tenant id : GoString) (c : Client)
        → Without 0 tenant
        → lookup (key tenant id) p.clients ≡ some c
        → IsBuilt tenant id c

  set-IsSound :
      (p : Pool Client) (tenant id : GoString) (c : Client)
      → IsSound p
      → Without 0 tenant
      → IsBuilt tenant id c
      → IsSound (record p { clients = set (key tenant id) c p.clients })
  set-IsSound p tenant id c h w b = record {
    factory = h.factory;
    owned = λ u v d wu e.
        let found = lookup-set (key tenant id) (key u v) c p.clients in
        elim (Bool-cases (str_eq (key tenant id) (key u v))) [
          | inl q ↦
              let (t, i) =
                key-injective tenant id u v w wu ((str_eq_iff (key tenant id) (key u v)).0 q) in
              let same = some-injective _ _ (sym (rw q at found) ∙ e) in
              subst (λ x. IsBuilt x v d) t
                (subst (λ x. IsBuilt tenant x d) i (subst (IsBuilt tenant id) same b))
          | inr q ↦ h.owned u v d wu (sym (rw q at found) ∙ e)
        ];
  }

  -- The pool that Acquire leaves is sound, and a client that it answers was built for the peer.
  record Sound (tenant id : GoString) (out : Pool Client × Acquired Client) : Type 0 where
    pool : IsSound out.0
    answer : (c : Client) → out.1 ≡ client c → IsBuilt tenant id c

  refused-Sound :
      (tenant id : GoString) (p : Pool Client) (e : AcquireError)
      → IsSound p
      → Sound tenant id (p, refused e)
  refused-Sound tenant id p e h = record { pool = h; answer = λ c q. absurd (cc) }

  built-Sound :
      (tenant id : GoString) (peer : A2aPeer) (p : Pool Client) (o : Option Client)
      → make peer ≡ o
      → IsSound p
      → Without 0 tenant
      → Row tenant id peer
      → Sound tenant id (built Client (key tenant id) p o)
  built-Sound tenant id peer p none e h w row = refused-Sound tenant id p build_failed h
  built-Sound tenant id peer p (some c) e h w row =
      let b : IsBuilt tenant id c = record { peer = peer; row = row; made = e } in
      record {
        pool = set-IsSound p tenant id c h w b;
        answer = λ d q. let same : c ≡ d = cc in subst (IsBuilt tenant id) same b;
      }

  reuse-Sound :
      (tenant id : GoString) (peer : A2aPeer) (p : Pool Client) (o : Option Client)
      → lookup (key tenant id) p.clients ≡ o
      → IsSound p
      → Without 0 tenant
      → Row tenant id peer
      → Sound tenant id (reuse Client (key tenant id) peer p o)
  reuse-Sound tenant id peer p none e h w row =
      built-Sound tenant id peer p (build Client p.factory peer)
        (sym (ap (λ f. build Client f peer) h.factory)) h w row
  reuse-Sound tenant id peer p (some c) e h w row = record {
    pool = h;
    answer =
        λ d q. let same : c ≡ d = cc in subst (IsBuilt tenant id) same (h.owned tenant id c w e);
  }

  on_peer-Sound :
      (tenant id : GoString) (answer : Option A2aPeer) (p : Pool Client)
      → IsSound p
      → Without 0 tenant
      → ((peer : A2aPeer) → answer ≡ some peer → Row tenant id peer)
      → Sound tenant id (on_peer Client tenant id answer p)
  unfolding on_peer take
  on_peer-Sound tenant id none p h w rows = refused-Sound tenant id p store_failed h
  on_peer-Sound tenant id (some peer) p h w rows = elim (Bool-cases (not peer.enabled)) [
    | inl e ↦ rw e (refused-Sound tenant id p peer_disabled h)
    | inr e ↦
        rw e (
          reuse-Sound tenant id peer p (lookup (key tenant id) p.clients) refl h w (rows peer refl))
  ]

  acquire-Sound :
      (tenant id : GoString) (answer : Option A2aPeer) (p : Pool Client)
      → IsSound p
      → Without 0 tenant
      → ((peer : A2aPeer) → answer ≡ some peer → Row tenant id peer)
      → Sound tenant id (acquire Client tenant id answer p)
  unfolding acquire
  acquire-Sound tenant id answer p h w rows =
      elim (Bool-cases (not p.has_store || not (is_set Client p.factory))) [
        | inl e ↦ rw e (refused-Sound tenant id p not_configured h)
        | inr e ↦ rw e (elim (Bool-cases (is_empty tenant || is_empty id)) [
          | inl f ↦ rw f (refused-Sound tenant id p missing_argument h)
          | inr f ↦ rw f (on_peer-Sound tenant id answer p h w rows)
        ])
      ]

  Reach-IsSound : (p : Pool Client) → Reach p → IsSound p
  unfolding new_pool invalidate close_all lookup
  Reach-IsSound _ new = record { factory = refl; owned = λ t i c w e. absurd (cc) }
  Reach-IsSound _ (acquired {p} tenant id answer r w rows) =
      (acquire-Sound tenant id answer p (Reach-IsSound p r) w rows).pool
  Reach-IsSound _ (invalidated {p} tenant id r) =
      let h = Reach-IsSound p r in
      record {
        factory = h.factory;
        owned = λ t i c w e.
            h.owned t i c w (lookup-delete-some (key tenant id) (key t i) p.clients e).1;
      }
  Reach-IsSound _ (closed {p} close r) =
      let h = Reach-IsSound p r in record { factory = h.factory; owned = λ t i c w e. absurd (cc) }

-- Whatever the pool has done, a client that Acquire answers for a peer of a tenant was built from a
-- row that the store answered, then or before, for that tenant and that peer, if no tenant's id holds
-- the separator of the cache's keys.
pub acquire-IsBuilt :
    (Client : Type 0) (make : A2aPeer → Option Client)
    (Row : GoString → GoString → A2aPeer → Type 0) (p : Pool Client) (tenant id : GoString)
    (answer : Option A2aPeer) (c : Client)
    → Reach Client make Row p
    → Without 0 tenant
    → ((peer : A2aPeer) → answer ≡ some peer → Row tenant id peer)
    → (acquire Client tenant id answer p).1 ≡ client c
    → IsBuilt Client make Row tenant id c
acquire-IsBuilt Client make Row p tenant id answer c r w rows e =
    (acquire-Sound Client make Row tenant id answer p (Reach-IsSound Client make Row p r) w
        rows).answer
      c e
