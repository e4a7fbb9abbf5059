-- ===== src/Profiles/Resolver/Freshness.antt =====
-- What `Resolve` gives after an invalidation, and what the order of insertion does to it.
use portico_gateway.Base.{
  ℕ, suc, ◌+◌, ◌<◌, true, false, ◌||◌, Option, none, some, List, [], ◌∷◌, ◌≡◌, refl, inl, inr,
  length, ◌∙◌, arith, GoString, str_eq_iff, str_eq_refl, is_empty, Bool-cases, Option-cases,
  if◌then◌else◌,
}
use portico_gateway.Base.Assoc.{Assoc, lookup, set, delete, lookup-delete-some}
use portico_gateway.Profiles.{AgentProfile, Profile, default_profile, from_store}
use portico_gateway.Profiles.Resolver.{
  Principal, Answer, found, not_found, failed, BindingStore, CacheEntry, Resolver, new_resolver,
  key, cached_entry, cached, evict, put_cache, is_stale, invalidate, Outcome, resolved, unavailable,
  answer, after_cached, resolve,
}
use portico_gateway.Profiles.Resolver.Submap.{Submap-drop_stale, drop_stale-fresh, Submap-evict}
use portico_gateway.Profiles.Resolver.Steps.{Reach}
use portico_gateway.Profiles.Resolver.Isolation.{AnswersOwn, CallsPlain, Owned-Reach}

-- The outcome that the store's answer means.
abbrev pub outcome_of : Principal → Answer → Outcome
outcome_of p (found row) = resolved (from_store row)
outcome_of p not_found = resolved (some (default_profile p.tenant_id))
outcome_of p (failed e) = unavailable e

-- What `Resolve` would give with no cache.
abbrev pub uncached : BindingStore → Principal → Outcome
uncached store p =
    if is_empty p.tenant_id || is_empty p.subject
    then resolved (some (default_profile p.tenant_id))
    else outcome_of p (store p.tenant_id p.subject)

answer-outcome_of :
    (now : ℕ) (p : Principal) (a : Answer) (r : Resolver) → (answer now p a r).1 ≡ outcome_of p a
unfolding answer
answer-outcome_of now p (found row) r = refl
answer-outcome_of now p not_found r = refl
answer-outcome_of now p (failed e) r = refl

is_empty→nil : (t : GoString) → is_empty t ≡ true → t ≡ []
is_empty→nil [] h = refl
is_empty→nil (c ∷ t) h = cc

after_miss :
    (store : BindingStore) (now : ℕ) (p : Principal) (hit : Option Profile) (r : Resolver)
    → hit ≡ none
    → is_empty p.tenant_id ≡ false
    → (after_cached store now p hit r).1 ≡ uncached store p
unfolding after_cached
after_miss store now p hit r miss h =
    rw miss (ground (arith, answer-outcome_of now p (store p.tenant_id p.subject) r))

resolve-after_cached :
    (store : BindingStore) (t u : ℕ) (p : Principal) (r : Resolver)
    → is_empty p.tenant_id ≡ false
    → (resolve store t u p r).1 ≡ (
        let (r', hit) = cached t (key p.tenant_id p.subject) r in (after_cached store u p hit r').1)
unfolding resolve
resolve-after_cached store t u p r e = rw e

-- A read finds nothing where no entry holds a profile.
cached_entry-miss :
    (now : ℕ) (k : GoString) (o : Option CacheEntry) (r : Resolver)
    → ((e : CacheEntry) → o ≡ some e → e.profile ≡ none)
    → (cached_entry now k o r).1 ≡ none
unfolding cached_entry
cached_entry-miss now k none r h = refl
cached_entry-miss now k (some e) r h = ground (arith, h e refl)

resolve-miss :
    (store : BindingStore) (t u : ℕ) (p : Principal) (r : Resolver)
    → (cached t (key p.tenant_id p.subject) r).1 ≡ none
    → (resolve store t u p r).1 ≡ uncached store p
resolve-miss store t u p r h = elim (Bool-cases (is_empty p.tenant_id)) [
  | inl e ↦ unfold resolve in rw (e, is_empty→nil p.tenant_id e)
  | inr e ↦ resolve-after_cached store t u p r e ∙ after_miss store u p _ _ h e
]

stale_of_tenant :
    (t : GoString) (prof : Option Profile)
    → ((q : Profile) → prof ≡ some q → q.tenant_id ≡ t)
    → is_stale t [] prof ≡ false
    → prof ≡ none
stale_of_tenant t none own h = refl
stale_of_tenant t (some q) own h = absurd (ground (arith, own q refl, str_eq_iff q.tenant_id t))

module _ (Calls : GoString → Type 0) (Row : GoString → GoString → Option AgentProfile → Type 0)
    (plain : CallsPlain Calls) (own : AnswersOwn Row) where
  invalidated :
      (r : Resolver) (ttl n : ℕ) (p : Principal)
      → Reach Calls Row (new_resolver ttl n) r
      → Calls p.tenant_id
      → (e : CacheEntry)
      → lookup (key p.tenant_id p.subject) (invalidate p.tenant_id [] r).cache ≡ some e
      → e.profile ≡ none
  unfolding invalidate
  invalidated r ttl n p m w e h =
      let k = key p.tenant_id p.subject in
      let before = Submap-drop_stale p.tenant_id [] r.cache r.cache k e h in
      stale_of_tenant p.tenant_id e.profile
        (Owned-Reach Calls Row plain own ttl n r m p.tenant_id p.subject e (plain p.tenant_id w)
          before)
        (drop_stale-fresh p.tenant_id [] r.cache r.cache k e before h)

  -- After an invalidation of its whole tenant, a principal gets what the store answers now, or
  -- the default profile where it has no subject: nothing comes from the cache.
  pub resolve-invalidate :
      (store : BindingStore) (ttl n : ℕ) (r : Resolver) (t u : ℕ) (p : Principal)
      → Reach Calls Row (new_resolver ttl n) r
      → Calls p.tenant_id
      → (resolve store t u p (invalidate p.tenant_id [] r)).1 ≡ uncached store p
  resolve-invalidate store ttl n r t u p m w =
      resolve-miss store t u p (invalidate p.tenant_id [] r) (
        unfold cached in
        cached_entry-miss t (key p.tenant_id p.subject) _ (invalidate p.tenant_id [] r)
          (invalidated r ttl n p m w))

-- A store that fails is never hidden behind a profile, and nothing is cached for it: with no
-- profile cached for the principal, the error comes back and the cache does not grow.
pub resolve-failed :
    (store : BindingStore) (t u : ℕ) (p : Principal) (r : Resolver) (e : GoString)
    → is_empty p.tenant_id ≡ false
    → is_empty p.subject ≡ false
    → lookup (key p.tenant_id p.subject) r.cache ≡ none
    → store p.tenant_id p.subject ≡ failed e
    → resolve store t u p r ≡ (r, unavailable e)
unfolding resolve
resolve-failed store t u p r e ht hs hm hf = ground arith

evict_front :
    (k : GoString) (n : ℕ) (cache : Assoc CacheEntry) (order : List GoString)
    → n < length cache
    → lookup k (evict n cache (k ∷ order)).0 ≡ none
unfolding evict
evict_front k n cache order h = elim (Option-cases (lookup k (evict n (delete k cache) order).0)) [
  | inl e ↦ ground arith
  | inr (x, e) ↦
      let kept = Submap-evict n (delete k cache) order k x e in
      absurd (ground (arith, (lookup-delete-some k k cache kept).0, str_eq_refl k))
]

length-set-new :
    (k : GoString) (e : CacheEntry) (m : Assoc CacheEntry)
    → lookup k m ≡ none
    → length (set k e m) ≡ suc (length m)
unfolding lookup set
length-set-new k e [] h = refl
length-set-new k e ((j, x) ∷ m) h = ground (arith, length-set-new k e m)

-- The order is not cleaned when an entry expires. So in a full cache whose oldest key has expired
-- and been dropped, writing that key again evicts the entry that is being written.
pub put_cache-evicts_itself :
    (now : ℕ) (k : GoString) (prof : Option Profile) (r : Resolver) (rest : List GoString)
    → lookup k r.cache ≡ none
    → r.order ≡ k ∷ rest
    → length r.cache ≡ r.max_items
    → lookup k (put_cache now k prof r).cache ≡ none
unfolding put_cache
put_cache-evicts_itself now k prof r rest miss front full =
    rw (miss, front)
      (evict_front k r.max_items _ _ (
        omega (
          arith,
          full,
          length-set-new k (record { profile = prof; expires_at = now + r.ttl }) r.cache miss,
        )))
