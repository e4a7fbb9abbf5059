-- ===== src/LlmCache/Bounds.antt =====
-- The cache over any sequence of its operations.
use portico_gateway.Base.{
  ℕ, zero, suc, ◌≤◌, ◌<◌, Option, none, some, List, [], ◌∷◌, ◌≡◌, refl, inl, inr, sym, subst, arith,
  GoString, str_eq, Bool-cases, length, take, is_empty,
}
use portico_gateway.LlmCache.{
  Key, Entry, Prefix, Node, MemCache, new_driver, int_opt, find, is_expired, evict_locked, miss,
  served, stamped, compose, lookup, node_of, placed, store, invalidate, mode_semantic,
}
use portico_gateway.LlmCache.Lru.{
  Distinct, evict_locked-take, Distinct-take, Distinct-remove, remove-Lacks, length-remove-le,
  length-remove-lt, find-key, find-Lacks, Distinct-purge, length-purge-le,
}

pub data Op : Type 0 where
  look : ℕ → Key → Op
  put : ℕ → Key → Entry → Op
  drop : Prefix → Op

-- The list and its index agree, and the list is no longer than it may be.
pub record Inv (max : ℕ) (c : MemCache) : Type 0 where
  pub capacity : c.max_entries ≡ max
  pub distinct : Distinct c.nodes
  pub bounded : length c.nodes ≤ max

length-take-le : (n : ℕ) (ns : List Node) → length (take n ns) ≤ n
length-take-le zero ns = omega arith
length-take-le (suc n) [] = omega arith
length-take-le (suc n) (x ∷ ns) = omega (arith, length-take-le n ns)

pub new_driver-pos : (n ttl : Option ℕ) → 0 < (new_driver n ttl).max_entries
unfolding new_driver int_opt
new_driver-pos none ttl = omega arith
new_driver-pos (some n) ttl = ground arith

new_driver-Inv : (n ttl : Option ℕ) → Inv (new_driver n ttl).max_entries (new_driver n ttl)
unfolding new_driver
new_driver-Inv n ttl = record { capacity = refl; distinct = tt; bounded = omega arith }

module _ (hex_sha256 : GoString → GoString) where
  abbrev pub apply : Op → MemCache → MemCache
  apply (look now key) c = (lookup hex_sha256 now key c).0
  apply (put now key e) c = store hex_sha256 now key e c
  apply (drop p) c = (invalidate p c).0

  -- The first operation of the list is the last one run.
  abbrev pub run : List Op → MemCache → MemCache
  run [] c = c
  run (o ∷ ops) c = apply o (run ops c)

  Inv-served :
      (max now : ℕ) (key : Key) (c : MemCache) (o : Option Node)
      → find (compose hex_sha256 key) c.nodes ≡ o
      → Inv max c
      → Inv max (served now key c o).0
  unfolding served miss
  Inv-served max now key c none h v = record {
    capacity = v.capacity;
    distinct = v.distinct;
    bounded = v.bounded;
  }
  Inv-served max now key c (some n) h v = elim (Bool-cases (is_expired now n.entry)) [
    | inl e ↦ rw e (record {
      capacity = v.capacity;
      distinct = Distinct-remove n.key c.nodes v.distinct;
      bounded = omega (arith, length-remove-le n.key c.nodes, v.bounded);
    })
    | inr e ↦ elim (Bool-cases (str_eq n.tenant_id key.tenant_id)) [
      | inr t ↦
          rw (e, t) (record { capacity = v.capacity; distinct = v.distinct; bounded = v.bounded })
      | inl t ↦
          let at = find-key (compose hex_sha256 key) c.nodes n h in
          rw (e, t)
            (record {
              capacity = v.capacity;
              distinct =
                  (remove-Lacks n.key c.nodes v.distinct, Distinct-remove n.key c.nodes v.distinct);
              bounded = omega (
                arith,
                length-remove-lt n.key c.nodes n (subst (λ k. find k c.nodes ≡ some n) (sym at) h),
                v.bounded,
              );
            })
    ]
  ]

  Inv-lookup :
      (max now : ℕ) (key : Key) (c : MemCache) → Inv max c → Inv max (lookup hex_sha256 now key c).0
  unfolding lookup miss
  Inv-lookup max now key c v = elim (Bool-cases (str_eq key.mode mode_semantic)) [
    | inl e ↦ rw e (record { capacity = v.capacity; distinct = v.distinct; bounded = v.bounded })
    | inr e ↦ rw e (Inv-served max now key c (find (compose hex_sha256 key) c.nodes) refl v)
  ]

  Inv-placed :
      (max : ℕ) (key : Key) (e : Entry) (c : MemCache) (o : Option Node)
      → 0 < max
      → find (compose hex_sha256 key) c.nodes ≡ o
      → Inv max c
      → Inv max (placed hex_sha256 key e c o)
  unfolding placed node_of
  Inv-placed max key e c none pos h v =
      let fresh : Distinct (node_of hex_sha256 key e ∷ c.nodes) =
        (find-Lacks (compose hex_sha256 key) c.nodes h, v.distinct) in
      let kept : evict_locked c.max_entries (node_of hex_sha256 key e ∷ c.nodes)
          ≡ take max (node_of hex_sha256 key e ∷ c.nodes) =
        rw v.capacity (evict_locked-take max (node_of hex_sha256 key e ∷ c.nodes) pos) in
      record {
        capacity = v.capacity;
        distinct = subst Distinct (sym kept) (Distinct-take max _ fresh);
        bounded = subst (λ ns. length ns ≤ max) (sym kept) (length-take-le max _);
      }
  Inv-placed max key e c (some n) pos h v =
      let at = find-key (compose hex_sha256 key) c.nodes n h in
      record {
        capacity = v.capacity;
        distinct =
            (remove-Lacks n.key c.nodes v.distinct, Distinct-remove n.key c.nodes v.distinct);
        bounded = omega (
          arith,
          length-remove-lt n.key c.nodes n (subst (λ k. find k c.nodes ≡ some n) (sym at) h),
          v.bounded,
        );
      }

  Inv-store :
      (max now : ℕ) (key : Key) (e : Entry) (c : MemCache)
      → 0 < max
      → Inv max c
      → Inv max (store hex_sha256 now key e c)
  unfolding store
  Inv-store max now key e c pos v =
      Inv-placed max key (stamped now c.ttl e) c (find (compose hex_sha256 key) c.nodes) pos refl v

  Inv-invalidate : (max : ℕ) (p : Prefix) (c : MemCache) → Inv max c → Inv max (invalidate p c).0
  unfolding invalidate
  Inv-invalidate max p c v = elim (Bool-cases (is_empty p.tenant_id)) [
    | inl e ↦ rw e v
    | inr e ↦ rw e (record {
      capacity = v.capacity;
      distinct = Distinct-purge p c.nodes v.distinct;
      bounded = omega (arith, length-purge-le p c.nodes, v.bounded);
    })
  ]

  Inv-apply : (max : ℕ) (o : Op) (c : MemCache) → 0 < max → Inv max c → Inv max (apply o c)
  Inv-apply max (look now key) c pos v = Inv-lookup max now key c v
  Inv-apply max (put now key e) c pos v = Inv-store max now key e c pos v
  Inv-apply max (drop p) c pos v = Inv-invalidate max p c v

  pub Inv-run : (max : ℕ) (ops : List Op) (c : MemCache) → 0 < max → Inv max c → Inv max (run ops c)
  Inv-run max [] c pos v = v
  Inv-run max (o ∷ ops) c pos v = Inv-apply max o (run ops c) pos (Inv-run max ops c pos v)

  -- After any operations on a new cache, no two of its nodes have one key, and there are no more of
  -- them than the configured number, or 1024 where none is configured.
  pub run_bounded :
      (n : Option ℕ) (ttl : Option ℕ) (ops : List Op)
      → let c = run ops (new_driver n ttl) in
        Distinct c.nodes × (length c.nodes ≤ (new_driver n ttl).max_entries)
  run_bounded n ttl ops =
      let c = new_driver n ttl in
      let w = Inv-run c.max_entries ops c (new_driver-pos n ttl) (new_driver-Inv n ttl) in
      (w.distinct, w.bounded)
