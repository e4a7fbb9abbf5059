-- ===== src/Profiles/Resolver.antt =====
-- internal/profiles/resolver.go: the caching resolver. A time is a number of nanoseconds, and each
-- reading of the clock is an argument. The mutex makes `cached`, `put_cache` and `invalidate` one
-- step each.
pub mod Steps
pub mod Submap
pub mod Capacity
pub mod Isolation
pub mod Freshness
use portico_gateway.Base.{
  ℕ, suc, ◌+◌, ◌*◌, ◌^◌, Bool, true, false, ◌&&◌, ◌||◌, Option, none, some, List, [], ◌∷◌, ◌++◌,
  ltb, leb, if◌then◌else◌, GoString, str_eq, is_empty, length, codes,
}
use portico_gateway.Base.Assoc.{Assoc, lookup, set, delete}
use portico_gateway.Profiles.{AgentProfile, Profile, default_profile, from_store}

pub record Principal : Type 0 where
  pub tenant_id : GoString
  pub subject : GoString

-- What `ResolveJWTBinding` answers: a row, ErrAgentProfileNotFound, or another error.
pub data Answer : Type 0 where
  found : Option AgentProfile → Answer
  not_found : Answer
  failed : GoString → Answer

abbrev pub BindingStore : Type 0
BindingStore = GoString → GoString → Answer

pub record CacheEntry : Type 0 where
  pub profile : Option Profile
  pub expires_at : ℕ

pub record Resolver : Type 0 where
  pub ttl : ℕ
  pub max_items : ℕ
  pub cache : Assoc CacheEntry
  pub order : List GoString

abbrev pub default_ttl : ℕ
default_ttl = 60 * 10 ^ 9

abbrev pub default_max_items : ℕ
default_max_items = 1024

-- A zero stands for every argument that is not positive.
unfoldable pub new_resolver : ℕ → ℕ → Resolver
new_resolver ttl max_items = record {
  ttl = if leb ttl 0 then default_ttl else ttl;
  max_items = if leb max_items 0 then default_max_items else max_items;
  cache = [];
  order = [];
}

-- tenantID + "|" + subject
unfoldable pub key : GoString → GoString → GoString
key tenant subject = tenant ++ b'|' ∷ subject

cached_entry : ℕ → GoString → Option CacheEntry → Resolver → Resolver × Option Profile
cached_entry now k none r = (r, none)
cached_entry now k (some e) r =
    if ltb e.expires_at now then (record r { cache = delete k r.cache }, none) else (r, e.profile)

unfoldable pub cached : ℕ → GoString → Resolver → Resolver × Option Profile
unfolding cached_entry
cached now k r = cached_entry now k (lookup k r.cache) r

-- The loop that evicts from the front of the order while the cache is over its capacity.
pub evict : ℕ → Assoc CacheEntry → List GoString → Assoc CacheEntry × List GoString
evict max_items cache [] = (cache, [])
evict max_items cache (oldest ∷ order) =
    let rest = evict max_items (delete oldest cache) order in
    if ltb max_items (length cache) then rest else (cache, oldest ∷ order)

-- A key that the cache does not hold is appended to the order.
abbrev pub remember : GoString → Option CacheEntry → List GoString → List GoString
remember k none order = order ++ k ∷ []
remember k (some e) order = order

unfoldable pub put_cache : ℕ → GoString → Option Profile → Resolver → Resolver
unfolding evict
put_cache now k p r =
    let order = remember k (lookup k r.cache) r.order in
    let cache = set k (record { profile = p; expires_at = now + r.ttl }) r.cache in
    let (cache', order') = evict r.max_items cache order in
    record r { cache = cache'; order = order' }

-- The test of `Invalidate` on one entry.
abbrev pub is_stale : GoString → GoString → Option Profile → Bool
is_stale tenant profile none = false
is_stale tenant profile (some p) =
    str_eq p.tenant_id tenant && (is_empty profile || str_eq p.id profile || p.is_default)

-- The range over the map: `entries` are those that are yet to come.
pub drop_stale : GoString → GoString → Assoc CacheEntry → Assoc CacheEntry → Assoc CacheEntry
drop_stale tenant profile [] cache = cache
drop_stale tenant profile ((k, e) ∷ entries) cache =
    drop_stale tenant profile entries
      (if is_stale tenant profile e.profile then delete k cache else cache)

unfoldable pub invalidate : GoString → GoString → Resolver → Resolver
unfolding drop_stale
invalidate tenant profile r = record r { cache = drop_stale tenant profile r.cache r.cache }

pub data Outcome : Type 0 where
  resolved : Option Profile → Outcome
  unavailable : GoString → Outcome

-- `Resolve` after a miss, with the store's answer; `now` is the clock at the write.
unfoldable pub answer : ℕ → Principal → Answer → Resolver → Resolver × Outcome
unfolding put_cache
answer now p not_found r =
    let prof = some (default_profile p.tenant_id) in
    (put_cache now (key p.tenant_id p.subject) prof r, resolved prof)
answer now p (failed e) r = (r, unavailable e)
answer now p (found row) r =
    (put_cache now (key p.tenant_id p.subject) (from_store row) r, resolved (from_store row))

-- `Resolve` after `cached`; an empty subject does not reach the store.
unfoldable pub after_cached :
    BindingStore → ℕ → Principal → Option Profile → Resolver → Resolver × Outcome
unfolding answer put_cache
after_cached store now p (some prof) r = (r, resolved (some prof))
after_cached store now p none r =
    if is_empty p.subject
    then (let prof = some (default_profile p.tenant_id) in
        (put_cache now (key p.tenant_id p.subject) prof r, resolved prof))
    else answer now p (store p.tenant_id p.subject) r

unfoldable pub resolve : BindingStore → ℕ → ℕ → Principal → Resolver → Resolver × Outcome
unfolding after_cached cached
resolve store read write p r =
    if is_empty p.tenant_id
    then (r, resolved (some (default_profile [])))
    else (let (r', hit) = cached read (key p.tenant_id p.subject) r in
        after_cached store write p hit r')
