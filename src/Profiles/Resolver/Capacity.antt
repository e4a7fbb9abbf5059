-- ===== src/Profiles/Resolver/Capacity.antt =====
-- The cache stays within its capacity, whatever the order in which the critical sections run.
use mathlib.Core.List.Memᴰ
use portico_gateway.Base.{
  ℕ, ◌+◌, ◌≤◌, Option, none, some, List, [], ◌∷◌, ◌≡◌, refl, ◌≢◌, inl, inr, sym, arith, ltb, leb,
  if◌then◌else◌, GoString, str_eq, str_eq_iff, str_eq_refl, length, Memᴰ, Bool-cases, Option-cases,
  subst, ◌∙◌,
}
use portico_gateway.Base.Assoc.{
  length-delete-le, Assoc, lookup, set, delete, lookup-set, lookup-delete,
}
use portico_gateway.Profiles.{AgentProfile, Profile}
use portico_gateway.Profiles.Resolver.Submap.{Submap, Submap-delete, Submap-drop_stale}
use portico_gateway.Profiles.Resolver.Steps.{Step, read, write, drop, Reach, here, next}
use portico_gateway.Profiles.Resolver.{
  cached_entry, key, CacheEntry, Resolver, new_resolver, cached, evict, remember, put_cache,
  drop_stale, is_stale, invalidate,
}

-- Every key of the cache stands in the order.
abbrev pub Covered : Assoc CacheEntry → List GoString → Type 0
Covered cache order = (k : GoString) → lookup k cache ≢ none → Memᴰ k order

empty_of_uncovered : (cache : Assoc CacheEntry) → Covered cache [] → cache ≡ []
unfolding lookup
empty_of_uncovered [] c = refl
empty_of_uncovered ((k, e) ∷ cache) c = elim (c k (λ h. ground (arith, str_eq_refl k))) [ ]

module _ (k j : GoString) (cache : Assoc CacheEntry) where
  lookup-delete-some : lookup j (delete k cache) ≢ none → (k ≢ j) × (lookup j cache ≢ none)
  lookup-delete-some h = elim (Bool-cases (str_eq k j)) [
    | inl e ↦ absurd (h (ground (arith, lookup-delete k j cache)))
    | inr e ↦
        (λ q. ground (arith, str_eq_iff k j), λ q. h (ground (arith, lookup-delete k j cache)))
  ]

Covered-delete :
    (k : GoString) (cache : Assoc CacheEntry) (order : List GoString)
    → Covered cache (k ∷ order)
    → Covered (delete k cache) order
Covered-delete k cache order c j h =
    let (ne, held) = lookup-delete-some k j cache h in
    elim (Memᴰ.cases_cons (c j held)) [ inl e ↦ absurd (ne (sym e)) | inr m ↦ m ]

evict-le :
    (n : ℕ) (cache : Assoc CacheEntry) (order : List GoString)
    → Covered cache order
    → length (evict n cache order).0 ≤ n
unfolding evict
evict-le n cache [] c = rw (empty_of_uncovered cache c) (omega arith)
evict-le n cache (k ∷ order) c =
    ground (arith, evict-le n (delete k cache) order (Covered-delete k cache order c))

evict-Covered :
    (n : ℕ) (cache : Assoc CacheEntry) (order : List GoString)
    → Covered cache order
    → Covered (evict n cache order).0 (evict n cache order).1
unfolding evict
evict-Covered n cache [] c = c
evict-Covered n cache (k ∷ order) c = elim (Bool-cases (ltb n (length cache))) [
  | inl e ↦ rw e (evict-Covered n (delete k cache) order (Covered-delete k cache order c))
  | inr e ↦ rw e c
]

Covered-remember :
    (k : GoString) (e : CacheEntry) (cache : Assoc CacheEntry) (order : List GoString)
    → Covered cache order
    → Covered (set k e cache) (remember k (lookup k cache) order)
Covered-remember k e cache order c j h = elim (Option-cases (lookup k cache)) [
  | inl miss ↦ rw miss (elim (Bool-cases (str_eq k j)) [
    | inl same ↦ Memᴰ.append_right order (Memᴰ.head (sym ((str_eq_iff k j).0 same)))
    | inr other ↦ Memᴰ.append_left (k ∷ []) (c j (λ q. h (ground (arith, lookup-set k j e cache))))
  ])
  | inr (held, hit) ↦ rw hit (elim (Bool-cases (str_eq k j)) [
    | inl same ↦ subst (λ x. Memᴰ x order) ((str_eq_iff k j).0 same) (c k (λ q. ground arith))
    | inr other ↦ c j (λ q. h (ground (arith, lookup-set k j e cache)))
  ])
]

pub record Inv (r : Resolver) : Type 0 where
  pub covered : Covered r.cache r.order
  pub bounded : length r.cache ≤ r.max_items

put_cache-Inv :
    (now : ℕ) (k : GoString) (p : Option Profile) (r : Resolver) → Inv r → Inv (put_cache now k p r)
unfolding put_cache
put_cache-Inv now k p r v =
    let e : CacheEntry = record { profile = p; expires_at = now + r.ttl } in
    let c = Covered-remember k e r.cache r.order v.covered in
    record { covered = evict-Covered r.max_items _ _ c; bounded = evict-le r.max_items _ _ c }

-- Fewer entries are covered by the same order.
Covered-Submap :
    (m n : Assoc CacheEntry) (order : List GoString)
    → Submap m n
    → Covered n order
    → Covered m order
Covered-Submap m n order s c k h = elim (Option-cases (lookup k m)) [
  | inl e ↦ absurd (h e)
  | inr (x, e) ↦ c k (λ q. ground (arith, s k x e))
]

cached_entry-Inv :
    (now : ℕ) (k : GoString) (o : Option CacheEntry) (r : Resolver)
    → Inv r
    → Inv (cached_entry now k o r).0
unfolding cached_entry
cached_entry-Inv now k none r v = v
cached_entry-Inv now k (some e) r v = elim (Bool-cases (ltb e.expires_at now)) [
  | inl q ↦ rw q (record {
    covered = Covered-Submap _ r.cache r.order (Submap-delete k r.cache) v.covered;
    bounded = omega (arith, v.bounded, length-delete-le {0} k r.cache);
  })
  | inr q ↦ rw q v
]

cached-Inv : (now : ℕ) (k : GoString) (r : Resolver) → Inv r → Inv (cached now k r).0
unfolding cached
cached-Inv now k r v = cached_entry-Inv now k (lookup k r.cache) r v

length-drop_stale-le :
    (tenant profile : GoString) (entries m : Assoc CacheEntry)
    → length (drop_stale tenant profile entries m) ≤ length m
unfolding drop_stale
length-drop_stale-le tenant profile [] m = omega arith
length-drop_stale-le tenant profile ((k, x) ∷ entries) m =
    elim (Bool-cases (is_stale tenant profile x.profile)) [
      | inl q ↦ rw q (
          omega (
            arith,
            length-drop_stale-le tenant profile entries (delete k m),
            length-delete-le {0} k m,
          ))
      | inr q ↦ rw q (length-drop_stale-le tenant profile entries m)
    ]

invalidate-Inv :
    (tenant profile : GoString) (r : Resolver) → Inv r → Inv (invalidate tenant profile r)
unfolding invalidate
invalidate-Inv tenant profile r v = record {
  covered =
      Covered-Submap _ r.cache r.order (Submap-drop_stale tenant profile r.cache r.cache) v.covered;
  bounded = omega (arith, v.bounded, length-drop_stale-le tenant profile r.cache r.cache);
}

Step-Inv :
    (Calls : GoString → Type 0) (Row : GoString → GoString → Option AgentProfile → Type 0)
    (r s : Resolver)
    → Step Calls Row r s
    → Inv r
    → Inv s
Step-Inv Calls Row r _ (read now k) v = cached-Inv now k r v
Step-Inv Calls Row r _ (write now p prof w a) v =
    put_cache-Inv now (key p.tenant_id p.subject) prof r v
Step-Inv Calls Row r _ (drop tenant profile) v = invalidate-Inv tenant profile r v

Reach-Inv :
    (Calls : GoString → Type 0) (Row : GoString → GoString → Option AgentProfile → Type 0)
    (r s : Resolver)
    → Reach Calls Row r s
    → Inv r
    → Inv s
Reach-Inv Calls Row r _ here v = v
Reach-Inv Calls Row r _ (next {s = s} {t = t} m step) v =
    Step-Inv Calls Row s t step (Reach-Inv Calls Row r s m v)

new_resolver-Inv : (ttl n : ℕ) → Inv (new_resolver ttl n)
unfolding new_resolver lookup
new_resolver-Inv ttl n = record { covered = λ k h. absurd (h refl); bounded = omega arith }

max_items-Step :
    (Calls : GoString → Type 0) (Row : GoString → GoString → Option AgentProfile → Type 0)
    (r s : Resolver)
    → Step Calls Row r s
    → s.max_items ≡ r.max_items
unfolding cached put_cache invalidate
max_items-Step Calls Row r _ (read now k) = ground arith
max_items-Step Calls Row r _ (write now p prof w a) = refl
max_items-Step Calls Row r _ (drop tenant profile) = refl

max_items-Reach :
    (Calls : GoString → Type 0) (Row : GoString → GoString → Option AgentProfile → Type 0)
    (r s : Resolver)
    → Reach Calls Row r s
    → s.max_items ≡ r.max_items
max_items-Reach Calls Row r _ here = refl
max_items-Reach Calls Row r _ (next {s = s} {t = t} m step) =
    max_items-Step Calls Row s t step ∙ max_items-Reach Calls Row r s m

-- Whatever critical sections run, in whatever order, a new resolver never holds more entries than
-- its capacity, which is 1024 where the given one is not positive.
pub Reach-bounded :
    (Calls : GoString → Type 0) (Row : GoString → GoString → Option AgentProfile → Type 0)
    (ttl n : ℕ) (s : Resolver)
    → Reach Calls Row (new_resolver ttl n) s
    → length s.cache ≤ (if leb n 0 then 1024 else n)
unfolding new_resolver
Reach-bounded Calls Row ttl n s m =
    subst (λ x. length s.cache ≤ x) (max_items-Reach Calls Row (new_resolver ttl n) s m)
      (Reach-Inv Calls Row (new_resolver ttl n) s m (new_resolver-Inv ttl n)).bounded
