-- ===== src/LlmCache/Hits.antt =====
-- What a hit returns.

use portico_gateway.Base.{
  ℕ, ◌<◌, false, Option, none, some, List, [], ◌∷◌, ◌++◌, ◌≡◌, refl, inl, inr, sym, ◌∙◌, subst,
  arith, Memᴰ, GoString, str_eq, Bool-cases, take, is_empty, All, Without, join_injective,
}
use portico_gateway.LlmCache.{
  Key, Entry, Prefix, Node, MemCache, new_driver, find, is_expired, evict_locked, miss, served,
  stamped, compose, lookup, node_of, placed, store, joined, invalidate, mode_semantic, key_sep,
}
use portico_gateway.LlmCache.Lru.{
  evict_locked-take, find-key, All-take, All-remove, All-purge, All-find,
}
use portico_gateway.LlmCache.Bounds.{Op, look, put, drop, apply, run, new_driver-pos}

-- The separator occurs in none of the four names.
pub record IsPlain (k : Key) : Type 0 where
  pub tenant_id : Without key_sep k.tenant_id
  pub scope : Without key_sep k.scope
  pub scope_id : Without key_sep k.scope_id
  pub alias : Without key_sep k.alias

module _ (hex_sha256 : GoString → GoString) where
  abbrev pub digest : Key → GoString
  digest k = hex_sha256 (k.normalized_input ++ k.extra_salt)

  -- Two keys name one place of one tenant.
  pub record IsSamePlace (k j : Key) : Type 0 where
    pub tenant_id : k.tenant_id ≡ j.tenant_id
    pub scope : k.scope ≡ j.scope
    pub scope_id : k.scope_id ≡ j.scope_id
    pub alias : k.alias ≡ j.alias
    pub digests : digest k ≡ digest j

  -- A composed key can be read back, if the separator occurs in none of the four names; the
  -- request and the salt only as far as the digest of their concatenation tells them.
  pub compose_injective :
      (k j : Key)
      → IsPlain k
      → IsPlain j
      → compose hex_sha256 k ≡ compose hex_sha256 j
      → IsSamePlace k j
  unfolding compose
  compose_injective k j pk pj e =
      let l4 = λ (k : Key). joined k.alias (digest k) in
      let l3 = λ (k : Key). joined k.scope_id (l4 k) in
      let l2 = λ (k : Key). joined k.scope (l3 k) in
      let (t, e1) =
        join_injective key_sep k.tenant_id (l2 k) j.tenant_id (l2 j) pk.tenant_id pj.tenant_id e in
      let (s, e2) = join_injective key_sep k.scope (l3 k) j.scope (l3 j) pk.scope pj.scope e1 in
      let (i, e3) =
        join_injective key_sep k.scope_id (l4 k) j.scope_id (l4 j) pk.scope_id pj.scope_id e2 in
      let (a, d) =
        join_injective key_sep k.alias (digest k) j.alias (digest j) pk.alias pj.alias e3 in
      record { tenant_id = t; scope = s; scope_id = i; alias = a; digests = d }

  -- The entry of a node was stored under a key that composes to the node's.
  abbrev Came : ℕ → List Op → Node → Type 0
  Came ttl ops n =
      (at : ℕ) × (k : Key) × (x : Entry) × Memᴰ (put at k x) ops
      × (n.key ≡ compose hex_sha256 k)
      × (n.entry ≡ stamped at ttl x)

  record Stored (max ttl : ℕ) (ops : List Op) (c : MemCache) : Type 0 where
    capacity : c.max_entries ≡ max
    lifetime : c.ttl ≡ ttl
    came : All (Came ttl ops) c.nodes

  All-later :
      (ttl : ℕ) (o : Op) (ops : List Op) (ns : List Node)
      → All (Came ttl ops) ns
      → All (Came ttl (o ∷ ops)) ns
  All-later ttl o ops [] l = tt
  All-later ttl o ops (n ∷ ns) ((at, k, x, m, e, f), l) =
      ((at, k, x, Memᴰ.tail m, e, f), All-later ttl o ops ns l)

  Stored-later :
      (max ttl : ℕ) (o : Op) (ops : List Op) (c : MemCache)
      → Stored max ttl ops c
      → Stored max ttl (o ∷ ops) c
  Stored-later max ttl o ops c v = record {
    capacity = v.capacity;
    lifetime = v.lifetime;
    came = All-later ttl o ops c.nodes v.came;
  }

  Stored-served :
      (max ttl now : ℕ) (key : Key) (ops : List Op) (c : MemCache) (o : Option Node)
      → find (compose hex_sha256 key) c.nodes ≡ o
      → Stored max ttl ops c
      → Stored max ttl ops (served now key c o).0
  unfolding served miss
  Stored-served max ttl now key ops c none h v = record {
    capacity = v.capacity;
    lifetime = v.lifetime;
    came = v.came;
  }
  Stored-served max ttl now key ops c (some n) h v =
      let less = All-remove (Came ttl ops) n.key c.nodes v.came in
      elim (Bool-cases (is_expired now n.entry)) [
        | inl e ↦ rw e (record { capacity = v.capacity; lifetime = v.lifetime; came = less })
        | inr e ↦ elim (Bool-cases (str_eq n.tenant_id key.tenant_id)) [
          | inr t ↦
              rw (e, t) (record { capacity = v.capacity; lifetime = v.lifetime; came = v.came })
          | inl t ↦
              rw (e, t)
                (record {
                  capacity = v.capacity;
                  lifetime = v.lifetime;
                  came =
                      (All-find (Came ttl ops) (compose hex_sha256 key) c.nodes n v.came h, less);
                })
        ]
      ]

  Stored-placed :
      (max ttl now : ℕ) (key : Key) (x : Entry) (ops : List Op) (c : MemCache) (o : Option Node)
      → 0 < max
      → find (compose hex_sha256 key) c.nodes ≡ o
      → Stored max ttl ops c
      → Stored max ttl (put now key x ∷ ops) (placed hex_sha256 key (stamped now ttl x) c o)
  unfolding placed node_of
  Stored-placed max ttl now key x ops c none pos h v =
      let n = node_of hex_sha256 key (stamped now ttl x) in
      let kept : take max (n ∷ c.nodes) ≡ evict_locked c.max_entries (n ∷ c.nodes) =
        rw v.capacity (sym (evict_locked-take max (n ∷ c.nodes) pos)) in
      let mine : Came ttl (put now key x ∷ ops) n = (now, key, x, Memᴰ.head refl, refl, refl) in
      record {
        capacity = v.capacity;
        lifetime = v.lifetime;
        came = subst (All (Came ttl (put now key x ∷ ops))) kept (
            All-take (Came ttl (put now key x ∷ ops)) max (n ∷ c.nodes)
              (mine, All-later ttl (put now key x) ops c.nodes v.came));
      }
  Stored-placed max ttl now key x ops c (some n) pos h v =
      let o = put now key x in
      let at = find-key (compose hex_sha256 key) c.nodes n h in
      record {
        capacity = v.capacity;
        lifetime = v.lifetime;
        came = (
          (now, key, x, Memᴰ.head refl, at, refl),
          All-remove (Came ttl (o ∷ ops)) n.key c.nodes (All-later ttl o ops c.nodes v.came),
        );
      }

  Stored-lookup :
      (max ttl now : ℕ) (key : Key) (ops : List Op) (c : MemCache)
      → Stored max ttl ops c
      → Stored max ttl ops (lookup hex_sha256 now key c).0
  unfolding lookup miss
  Stored-lookup max ttl now key ops c v = elim (Bool-cases (str_eq key.mode mode_semantic)) [
    | inl e ↦ rw e (record { capacity = v.capacity; lifetime = v.lifetime; came = v.came })
    | inr e ↦
        rw e (Stored-served max ttl now key ops c (find (compose hex_sha256 key) c.nodes) refl v)
  ]

  Stored-store :
      (max ttl now : ℕ) (key : Key) (x : Entry) (ops : List Op) (c : MemCache)
      → 0 < max
      → Stored max ttl ops c
      → Stored max ttl (put now key x ∷ ops) (store hex_sha256 now key x c)
  unfolding store
  Stored-store max ttl now key x ops c pos v =
      subst
        (λ t.
          Stored max ttl (put now key x ∷ ops)
            (placed hex_sha256 key (stamped now t x) c (find (compose hex_sha256 key) c.nodes)))
        (sym v.lifetime)
        (Stored-placed max ttl now key x ops c (find (compose hex_sha256 key) c.nodes) pos refl v)

  Stored-invalidate :
      (max ttl : ℕ) (p : Prefix) (ops : List Op) (c : MemCache)
      → Stored max ttl ops c
      → Stored max ttl ops (invalidate p c).0
  unfolding invalidate
  Stored-invalidate max ttl p ops c v = elim (Bool-cases (is_empty p.tenant_id)) [
    | inl e ↦ rw e v
    | inr e ↦ rw e (record {
      capacity = v.capacity;
      lifetime = v.lifetime;
      came = All-purge (Came ttl ops) p c.nodes v.came;
    })
  ]

  Stored-apply :
      (max ttl : ℕ) (o : Op) (ops : List Op) (c : MemCache)
      → 0 < max
      → Stored max ttl ops c
      → Stored max ttl (o ∷ ops) (apply hex_sha256 o c)
  Stored-apply max ttl (look now key) ops c pos v =
      Stored-lookup max ttl now key (look now key ∷ ops) c
        (Stored-later max ttl (look now key) ops c v)
  Stored-apply max ttl (put now key x) ops c pos v = Stored-store max ttl now key x ops c pos v
  Stored-apply max ttl (drop p) ops c pos v =
      Stored-invalidate max ttl p (drop p ∷ ops) c (Stored-later max ttl (drop p) ops c v)

  Stored-run :
      (max ttl : ℕ) (ops : List Op) (c : MemCache)
      → 0 < max
      → Stored max ttl [] c
      → Stored max ttl ops (run hex_sha256 ops c)
  Stored-run max ttl [] c pos v = v
  Stored-run max ttl (o ∷ ops) c pos v =
      Stored-apply max ttl o ops (run hex_sha256 ops c) pos (Stored-run max ttl ops c pos v)

  served-hit :
      (now : ℕ) (key : Key) (c : MemCache) (o : Option Node) (x : Entry)
      → (served now key c o).1 ≡ some x
      → (n : Node) × (o ≡ some n) × (n.entry ≡ x) × (is_expired now x ≡ false)
  unfolding served miss
  served-hit now key c none x h = absurd (cc)
  served-hit now key c (some n) x h =
      let same : n.entry ≡ x = ground arith in
      (n, refl, same, subst (λ y. is_expired now y ≡ false) same (ground arith))

  lookup-hit :
      (now : ℕ) (key : Key) (c : MemCache) (x : Entry)
      → (lookup hex_sha256 now key c).1 ≡ some x
      → (n : Node) × (find (compose hex_sha256 key) c.nodes ≡ some n)
        × (n.entry ≡ x)
        × (is_expired now x ≡ false)
  unfolding lookup miss
  lookup-hit now key c x h = elim (Bool-cases (str_eq key.mode mode_semantic)) [
    | inl e ↦ absurd (ground arith)
    | inr e ↦ served-hit now key c (find (compose hex_sha256 key) c.nodes) x (rw e at h)
  ]

  -- After any operations on a new cache, a hit is an entry that was stored, with its times filled
  -- in, by the same tenant for the same scope, alias and digest of the request, and that is not
  -- expired; the separator is taken to occur in no name.
  pub lookup_sound :
      (n ttl : Option ℕ) (ops : List Op) (now : ℕ) (key : Key) (x : Entry)
      → IsPlain key
      → ((at : ℕ) (k : Key) (y : Entry) → Memᴰ (put at k y) ops → IsPlain k)
      → (lookup hex_sha256 now key (run hex_sha256 ops (new_driver n ttl))).1 ≡ some x
      → (at : ℕ) × (k : Key) × (y : Entry) × Memᴰ (put at k y) ops
        × IsSamePlace k key
        × (x ≡ stamped at (new_driver n ttl).ttl y)
        × (is_expired now x ≡ false)
  lookup_sound n ttl ops now key x plain all h =
      let c = new_driver n ttl in
      let start : Stored c.max_entries c.ttl [] c = record {
        capacity = refl;
        lifetime = refl;
        came = unfold new_driver in tt;
      } in
      let v = Stored-run c.max_entries c.ttl ops c (new_driver-pos n ttl) start in
      let d = run hex_sha256 ops c in
      let (node, f, e, live) = lookup-hit now key d x h in
      let (at, k, y, m, q, s) =
        All-find (Came c.ttl ops) (compose hex_sha256 key) d.nodes node v.came f in
      let place =
        compose_injective k key (all at k y m) plain
          (sym q ∙ find-key (compose hex_sha256 key) d.nodes node f) in
      (at, k, y, m, place, sym e ∙ s, live)
