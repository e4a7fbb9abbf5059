-- ===== src/Profiles/Resolver/Isolation.antt =====
-- A principal is never given the profile of another tenant.
use portico_gateway.Base.{
  ℕ, ◌+◌, true, Option, none, some, [], ◌∷◌, ◌≡◌, refl, inl, inr, subst, arith, ltb, GoString,
  Without, join_injective, str_eq, str_eq_iff, Bool-cases, is_empty,
}
use portico_gateway.Base.Assoc.{Assoc, lookup, set, lookup-set}
use portico_gateway.Profiles.{AgentProfile, Profile, default_profile, from_store}
use portico_gateway.Profiles.Resolver.{
  Principal, Answer, found, not_found, failed, BindingStore, CacheEntry, Resolver, new_resolver,
  key, cached_entry, cached, put_cache, invalidate, Outcome, resolved, unavailable, answer,
  after_cached, resolve,
}
use portico_gateway.Profiles.Resolver.Submap.{
  Submap, Submap-delete, Submap-evict, Submap-drop_stale,
}
use portico_gateway.Profiles.Resolver.Steps.{
  Answers, Answered, Step, read, write, drop, Reach, here, next,
}

-- The tenant can be read off a key, if no tenant's name holds the separator.
pub key-injective :
    (t s u v : GoString) → Without b'|' t → Without b'|' u → key t s ≡ key u v → (t ≡ u) × (s ≡ v)
unfolding key
key-injective t s u v ht hu e = join_injective b'|' t s u v ht hu e

-- The rows that were answered for a tenant are its own.
abbrev pub AnswersOwn : (GoString → GoString → Option AgentProfile → Type 0) → Type 0
AnswersOwn Row = (t s : GoString) (row : AgentProfile) → Row t s (some row) → row.tenant_id ≡ t

-- No tenant that calls the resolver has the separator in its name.
abbrev pub CallsPlain : (GoString → Type 0) → Type 0
CallsPlain Calls = (t : GoString) → Calls t → Without b'|' t

abbrev pub OfTenant : GoString → Option Profile → Type 0
OfTenant t prof = (p : Profile) → prof ≡ some p → p.tenant_id ≡ t

-- The entry under a tenant's key is a profile of the tenant.
abbrev pub Owned : Assoc CacheEntry → Type 0
Owned cache =
    (t s : GoString) (e : CacheEntry)
    → Without b'|' t
    → lookup (key t s) cache ≡ some e
    → OfTenant t e.profile

Owned-Submap : (m n : Assoc CacheEntry) → Submap m n → Owned n → Owned m
Owned-Submap m n s o t u e w h = o t u e w (s (key t u) e h)

Owned-set :
    (t s : GoString) (e : CacheEntry) (m : Assoc CacheEntry)
    → Without b'|' t
    → OfTenant t e.profile
    → Owned m
    → Owned (set (key t s) e m)
Owned-set t s e m w own o u v x wu h = elim (Bool-cases (str_eq (key t s) (key u v))) [
  | inl same ↦
      let k = key-injective t s u v w wu ((str_eq_iff (key t s) (key u v)).0 same) in
      let e≡x : e ≡ x = ground (arith, lookup-set (key t s) (key u v) e m) in
      subst (λ (z : CacheEntry). OfTenant u z.profile) e≡x
        (subst (λ z. OfTenant z e.profile) k.0 own)
  | inr other ↦ o u v x wu (ground (arith, lookup-set (key t s) (key u v) e m))
]

module _ (Calls : GoString → Type 0) (Row : GoString → GoString → Option AgentProfile → Type 0)
    (plain : CallsPlain Calls) (own : AnswersOwn Row) where
  from_store-OfTenant :
      (p : Principal) (row : Option AgentProfile)
      → Row p.tenant_id p.subject row
      → OfTenant p.tenant_id (from_store row)
  unfolding from_store
  from_store-OfTenant p none h q e = cc
  from_store-OfTenant p (some row) h q e = ground (arith, own p.tenant_id p.subject row h)

  default_profile-OfTenant : (t : GoString) → OfTenant t (some (default_profile t))
  unfolding default_profile
  default_profile-OfTenant t q e = ground arith

  Answers-OfTenant :
      (p : Principal) (prof : Option Profile) → Answers Calls Row p prof → OfTenant p.tenant_id prof
  Answers-OfTenant p prof (inl e) = rw e (default_profile-OfTenant p.tenant_id)
  Answers-OfTenant p prof (inr (row, h, e)) = rw e (from_store-OfTenant p row h)

  cached_entry-Submap :
      (now : ℕ) (k : GoString) (o : Option CacheEntry) (r : Resolver)
      → Submap (cached_entry now k o r).0.cache r.cache
  unfolding cached_entry
  cached_entry-Submap now k none r j e h = h
  cached_entry-Submap now k (some x) r j e h = elim (Bool-cases (ltb x.expires_at now)) [
    | inl q ↦ Submap-delete k r.cache j e (rw q at h)
    | inr q ↦ rw q at h
  ]

  cached-Submap : (now : ℕ) (k : GoString) (r : Resolver) → Submap (cached now k r).0.cache r.cache
  unfolding cached
  cached-Submap now k r = cached_entry-Submap now k (lookup k r.cache) r

  Owned-Step : (r s : Resolver) → Step Calls Row r s → Owned r.cache → Owned s.cache
  unfolding put_cache invalidate
  Owned-Step r _ (read now k) o = Owned-Submap _ r.cache (cached-Submap now k r) o
  Owned-Step r _ (write now p prof w a) o =
      let e : CacheEntry = record { profile = prof; expires_at = now + r.ttl } in
      Owned-Submap _ _ (Submap-evict r.max_items _ _) (
        Owned-set p.tenant_id p.subject e r.cache (plain p.tenant_id w) (Answers-OfTenant p prof a)
          o)
  Owned-Step r _ (drop tenant profile) o =
      Owned-Submap _ r.cache (Submap-drop_stale tenant profile r.cache r.cache) o

  pub Owned-Reach :
      (ttl n : ℕ) (s : Resolver) → Reach Calls Row (new_resolver ttl n) s → Owned s.cache
  unfolding new_resolver lookup
  Owned-Reach ttl n _ here = λ t u e w h. absurd (cc)
  Owned-Reach ttl n _ (next {s = s} {t = t} m step) = Owned-Step s t step (Owned-Reach ttl n s m)

  abbrev pub OutcomeOf : GoString → Outcome → Type 0
  OutcomeOf t (resolved prof) = OfTenant t prof
  OutcomeOf t (unavailable e) = Unit

  cached_entry-OfTenant :
      (now : ℕ) (p : Principal) (o : Option CacheEntry) (r : Resolver)
      → ((e : CacheEntry) → o ≡ some e → OfTenant p.tenant_id e.profile)
      → OfTenant p.tenant_id (cached_entry now (key p.tenant_id p.subject) o r).1
  unfolding cached_entry
  cached_entry-OfTenant now p none r own q e = cc
  cached_entry-OfTenant now p (some x) r own q e = elim (Bool-cases (ltb x.expires_at now)) [
    | inl l ↦ absurd (ground arith)
    | inr l ↦ own x refl q (ground arith)
  ]

  answer-OutcomeOf :
      (store : BindingStore) (now : ℕ) (p : Principal) (a : Answer) (r : Resolver)
      → Answered Calls Row store p
      → store p.tenant_id p.subject ≡ a
      → OutcomeOf p.tenant_id (answer now p a r).1
  unfolding answer
  answer-OutcomeOf store now p (found row) r k h = from_store-OfTenant p row (k row h)
  answer-OutcomeOf store now p not_found r k h = default_profile-OfTenant p.tenant_id
  answer-OutcomeOf store now p (failed e) r k h = tt

  after_cached-OutcomeOf :
      (store : BindingStore) (now : ℕ) (p : Principal) (hit : Option Profile) (r : Resolver)
      → Answered Calls Row store p
      → OfTenant p.tenant_id hit
      → OutcomeOf p.tenant_id (after_cached store now p hit r).1
  unfolding after_cached
  after_cached-OutcomeOf store now p (some prof) r k h = h
  after_cached-OutcomeOf store now p none r k h = elim (Bool-cases (is_empty p.subject)) [
    | inl e ↦ rw e (default_profile-OfTenant p.tenant_id)
    | inr e ↦ rw e (answer-OutcomeOf store now p (store p.tenant_id p.subject) r k refl)
  ]

  is_empty→nil : (t : GoString) → is_empty t ≡ true → t ≡ []
  is_empty→nil [] h = refl
  is_empty→nil (c ∷ t) h = cc

  -- In every state that a new resolver reaches by calls of tenants whose names hold no `|`, with the
  -- store changing in between, a principal of such a tenant is resolved to a profile of its own
  -- tenant, or to an error, if each row that the store answered for a tenant is the tenant's own.
  pub resolve-OutcomeOf :
      (store : BindingStore) (ttl n : ℕ) (r : Resolver) (t u : ℕ) (p : Principal)
      → Reach Calls Row (new_resolver ttl n) r
      → Calls p.tenant_id
      → Answered Calls Row store p
      → OutcomeOf p.tenant_id (resolve store t u p r).1
  unfolding resolve
  resolve-OutcomeOf store ttl n r t u p m w k = elim (Bool-cases (is_empty p.tenant_id)) [
    | inl e ↦ rw e (rw (is_empty→nil p.tenant_id e) (default_profile-OfTenant []))
    | inr e ↦ rw e (
        after_cached-OutcomeOf store u p _ _ k (
          unfold cached in
          cached_entry-OfTenant t p (lookup (key p.tenant_id p.subject) r.cache) r
            (λ x h. Owned-Reach ttl n r m p.tenant_id p.subject x (plain p.tenant_id w) h)))
  ]
