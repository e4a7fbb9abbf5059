-- ===== src/LlmCache/Effects.antt =====
-- What a store and an invalidation leave.
use portico_gateway.Base.{
  ℕ, suc, ◌<◌, true, false, not, Option, none, some, List, [], ◌∷◌, ◌≡◌, ◌≢◌, refl, inl, inr, ap,
  arith, GoString, str_eq_iff, Bool-cases, length, take, filter, is_empty,
}
use portico_gateway.LlmCache.{
  Key, Entry, Prefix, Node, MemCache, find, remove, is_expired, served, stamped, compose, lookup,
  node_of, placed, store, selects, purge, invalidate, mode_semantic,
}
use portico_gateway.LlmCache.Lru.{evict_locked-take, find-key}

module _ (hex_sha256 : GoString → GoString) where
  -- The node at the front holds the entry under the key.
  record IsFront (key : Key) (e : Entry) (ns : List Node) : Type 0 where
    head : Node
    rest : List Node
    split : ns ≡ head ∷ rest
    keyed : head.key ≡ compose hex_sha256 key
    entry : head.entry ≡ e
    tenant : head.tenant_id ≡ key.tenant_id

  placed-IsFront :
      (key : Key) (e : Entry) (c : MemCache) (o : Option Node)
      → find (compose hex_sha256 key) c.nodes ≡ o
      → ((m : Node) → o ≡ some m → m.tenant_id ≡ key.tenant_id)
      → (max : ℕ) → c.max_entries ≡ suc max
      → IsFront key e (placed hex_sha256 key e c o).nodes
  unfolding placed node_of
  placed-IsFront key e c none h own max pos =
      let n = node_of hex_sha256 key e in
      record {
        head = n;
        rest = take max c.nodes;
        split = rw pos (evict_locked-take (suc max) (n ∷ c.nodes) (omega arith));
        keyed = refl;
        entry = refl;
        tenant = refl;
      }
  placed-IsFront key e c (some n) h own max pos = record {
    head = record n { entry = e };
    rest = remove n.key c.nodes;
    split = refl;
    keyed = find-key (compose hex_sha256 key) c.nodes n h;
    entry = refl;
    tenant = own n refl;
  }

  lookup-IsFront :
      (now : ℕ) (key : Key) (e : Entry) (c : MemCache)
      → IsFront key e c.nodes
      → key.mode ≢ mode_semantic
      → is_expired now e ≡ false
      → (lookup hex_sha256 now key c).1 ≡ some e
  unfolding lookup served find
  lookup-IsFront now key e c f exact live = ground (
    arith,
    f.split,
    f.keyed,
    f.entry,
    f.tenant,
    str_eq_iff key.mode mode_semantic,
    str_eq_iff f.head.key (compose hex_sha256 key),
    str_eq_iff f.head.tenant_id key.tenant_id,
  )

  -- A lookup directly behind a store, with no other operation in between, finds what was stored,
  -- with the times that the store gave it, if it comes before the entry expires, the cache may hold
  -- an entry, the request is no semantic one, and no other tenant's node stands under the composed
  -- key.
  pub lookup-store :
      (now later max : ℕ) (key : Key) (e : Entry) (c : MemCache)
      → c.max_entries ≡ suc max
      → key.mode ≢ mode_semantic
      → ((m : Node) → find (compose hex_sha256 key) c.nodes ≡ some m → m.tenant_id ≡ key.tenant_id)
      → is_expired later (stamped now c.ttl e) ≡ false
      → (lookup hex_sha256 later key (store hex_sha256 now key e c)).1 ≡ some (stamped now c.ttl e)
  unfolding store
  lookup-store now later max key e c pos exact own live =
      lookup-IsFront later key (stamped now c.ttl e) (store hex_sha256 now key e c)
        (placed-IsFront key (stamped now c.ttl e) c (find (compose hex_sha256 key) c.nodes) refl own
          max pos)
        exact live

  -- A new entry goes to the front and pushes out the least recently used node, if the cache is full.
  pub store_lru :
      (now : ℕ) (key : Key) (e : Entry) (c : MemCache)
      → 0 < c.max_entries
      → find (compose hex_sha256 key) c.nodes ≡ none
      → (store hex_sha256 now key e c).nodes
        ≡ take c.max_entries (node_of hex_sha256 key (stamped now c.ttl e) ∷ c.nodes)
  unfolding store placed
  store_lru now key e c pos absent =
      rw absent (
        evict_locked-take c.max_entries (node_of hex_sha256 key (stamped now c.ttl e) ∷ c.nodes)
          pos)

purge-filter :
    (p : Prefix) (ns : List Node)
    → ((purge p ns).0 ≡ filter (λ n. not (selects p n)) ns)
      × ((purge p ns).1 ≡ length (filter (selects p) ns))
unfolding purge
purge-filter p [] = (refl, refl)
purge-filter p (n ∷ ns) =
    let (a, b) = purge-filter p ns in
    elim (Bool-cases (selects p n)) [
      | inl e ↦ rw e (a, omega (arith, b))
      | inr e ↦ rw e (ap (λ r. n ∷ r) a, b)
    ]

-- An invalidation of a tenant removes exactly the nodes that its prefix selects, all of the tenant,
-- counts them, and keeps the order of the others; with no tenant it does nothing.
pub invalidate_lem :
    (p : Prefix) (c : MemCache)
    → (is_empty p.tenant_id ≡ true → invalidate p c ≡ (c, 0))
      × (is_empty p.tenant_id ≡ false
          → ((invalidate p c).0.nodes ≡ filter (λ n. not (selects p n)) c.nodes)
            × ((invalidate p c).1 ≡ length (filter (selects p) c.nodes)))
      × ((n : Node) → selects p n ≡ true → n.tenant_id ≡ p.tenant_id)
unfolding invalidate selects
invalidate_lem p c = (
  λ e. rw e refl,
  λ e. rw e (purge-filter p c.nodes),
  λ n h. ground (arith, str_eq_iff n.tenant_id p.tenant_id),
)
