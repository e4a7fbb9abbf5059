-- ===== src/VirtualKeys/Resolver/Bounds.antt =====
-- The cache is bounded.
use portico_gateway.Base.{
  ℕ, ◌+◌, ◌≤◌, ◌<◌, Bool, Option, none, some, [], ◌∷◌, ◌≡◌, ◌≢◌, refl, inl, inr, arith, ap, leb→le,
  GoString, str_eq, str_eq_refl, Bool-cases, Option-cases, leb, if◌then◌else◌, length, filter,
}
use portico_gateway.Base.Assoc.{Assoc, lookup, delete, length-set-le, length-delete-le}
use portico_gateway.VirtualKeys.Store.{VirtualKey}
use portico_gateway.VirtualKeys.Resolver.{
  CacheEntry, hydrate, Resolver, new_resolver, peek, peek_entry, chosen, is_expired, without,
  evict_one, remember, drop_vk, invalidate_vk, max_cache_entries,
}
use portico_gateway.VirtualKeys.Resolver.Steps.{Step, look, keep, drop, Reach, here, next}

length-delete-lt :
    (k : GoString) (m : Assoc CacheEntry) → lookup k m ≢ none → length (delete k m) < length m
unfolding lookup delete
length-delete-lt k [] h = absurd (h refl)
length-delete-lt k ((j, x) ∷ m) h = elim (Bool-cases (str_eq j k)) [
  | inl e ↦ rw e (omega (arith, length-delete-le {0} k m))
  | inr e ↦ rw e (omega (arith, length-delete-lt k m (rw e at h)))
]

chosen-there :
    (pick k : GoString) (m : Assoc CacheEntry) → chosen pick m ≡ some k → lookup k m ≢ none
unfolding chosen lookup
chosen-there pick k [] h = absurd (cc)
chosen-there pick k ((j, x) ∷ m) h = elim (Option-cases (lookup pick ((j, x) ∷ m))) [
  | inl e ↦ λ q. ground (arith, str_eq_refl j)
  | inr (y, e) ↦ λ q. ground arith
]

chosen-none : (pick : GoString) (m : Assoc CacheEntry) → chosen pick m ≡ none → m ≡ []
unfolding chosen
chosen-none pick [] h = refl
chosen-none pick ((j, x) ∷ m) h = elim (Option-cases (lookup pick ((j, x) ∷ m))) [
  | inl e ↦ absurd (ground arith)
  | inr (y, e) ↦ absurd (ground arith)
]

lookup-filter :
    (p : GoString × CacheEntry → Bool) (k : GoString) (m : Assoc CacheEntry)
    → lookup k m ≡ none
    → lookup k (filter p m) ≡ none
unfolding lookup
lookup-filter p k [] h = refl
lookup-filter p k ((j, x) ∷ m) h = ground (arith, lookup-filter p k m)

evict_one-lt :
    (now : ℕ) (pick : GoString) (m : Assoc CacheEntry)
    → 0 < length m
    → length (evict_one now pick m) < length m
unfolding evict_one without
evict_one-lt now pick m pos = elim (Option-cases (chosen pick (filter (is_expired now) m))) [
  | inr (k, c) ↦
      rw c
        (length-delete-lt k m (λ q. chosen-there pick k _ c (lookup-filter (is_expired now) k m q)))
  | inl c ↦ elim (Option-cases (chosen pick m)) [
    | inr (k, d) ↦ rw (c, d) (length-delete-lt k m (chosen-there pick k m d))
    | inl d ↦ absurd (omega (arith, ap length (chosen-none pick m d), pos))
  ]
]

room-lt :
    (now : ℕ) (pick : GoString) (m : Assoc CacheEntry)
    → length m ≤ max_cache_entries
    → length (if leb max_cache_entries (length m) then evict_one now pick m else m)
      < max_cache_entries
room-lt now pick m b = elim (Bool-cases (leb max_cache_entries (length m))) [
  | inl e ↦ rw e (
      let full = leb→le max_cache_entries (length m) e in
      omega (arith, evict_one-lt now pick m (omega arith)))
  | inr e ↦ rw e (ground arith)
]

remember-le :
    (now : ℕ) (pick h : GoString) (vk : VirtualKey) (r : Resolver)
    → length r.cache ≤ max_cache_entries
    → length (remember now pick h vk r).cache ≤ max_cache_entries
unfolding remember
remember-le now pick h vk r b =
    let room =
      if leb max_cache_entries (length r.cache) then evict_one now pick r.cache else r.cache in
    let e : CacheEntry = record {
      resolved = hydrate vk;
      vk_id = vk.id;
      expires_at = now + r.ttl;
    } in
    omega (arith, length-set-le {0} h e room, room-lt now pick r.cache b)

peek_entry-le :
    (now : ℕ) (h : GoString) (r : Resolver) (o : Option CacheEntry)
    → length (peek_entry now h r o).0.cache ≤ length r.cache
unfolding peek_entry
peek_entry-le now h r none = omega arith
peek_entry-le now h r (some e) = ground (arith, length-delete-le {0} h r.cache)

drop_vk-le :
    (id : GoString) (entries m : Assoc CacheEntry) → length (drop_vk id entries m) ≤ length m
unfolding drop_vk
drop_vk-le id [] m = omega arith
drop_vk-le id ((h, e) ∷ entries) m = elim (Bool-cases (str_eq e.vk_id id)) [
  | inl s ↦ rw s (omega (arith, drop_vk-le id entries (delete h m), length-delete-le {0} h m))
  | inr s ↦ rw s (drop_vk-le id entries m)
]

module _ (compute_hmac : GoString → GoString → GoString) (token_hash : GoString → GoString)
    (Row : VirtualKey → Type 0) where
  Step-le :
      (r s : Resolver)
      → Step compute_hmac token_hash Row r s
      → length r.cache ≤ max_cache_entries
      → length s.cache ≤ max_cache_entries
  unfolding peek invalidate_vk
  Step-le r _ (look now h) b = omega (arith, peek_entry-le now h r (lookup h r.cache), b)
  Step-le r _ (keep now pick token vk k o) b = remember-le now pick (token_hash token) vk r b
  Step-le r _ (drop id) b = omega (arith, drop_vk-le id r.cache r.cache, b)

  -- Whatever critical sections run, in whatever order, and whatever entry the random order of the
  -- map evicts, the cache of a new resolver never holds more than 4096 entries.
  pub cache_bounded :
      (ttl : ℕ) (s : Resolver)
      → Reach compute_hmac token_hash Row (new_resolver ttl) s
      → length s.cache ≤ max_cache_entries
  unfolding new_resolver
  cache_bounded ttl _ here = omega arith
  cache_bounded ttl _ (next {s = s} {t = t} m step) = Step-le s t step (cache_bounded ttl s m)
