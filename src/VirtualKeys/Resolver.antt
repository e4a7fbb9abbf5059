-- ===== src/VirtualKeys/Resolver.antt =====
-- internal/auth/virtual_keys/resolver.go. A critical section of the mutex is one function: `peek`,
-- `remember`, `invalidate_vk`. Times are nanoseconds. `pick` is the key at which the random order of
-- the map stops.
pub mod Steps
pub mod Sound
pub mod Bounds
pub mod Invalidated
pub mod Revoked
pub mod Rotated
use portico_gateway.Base.{
  ℕ, ◌+◌, ◌*◌, ◌^◌, Bool, true, false, not, ◌&&◌, ◌||◌, Option, none, some, List, [], ◌∷◌,
  if◌then◌else◌, ltb, leb, GoString, codes, str_eq, is_empty, length, filter,
}
use portico_gateway.Base.Assoc.{Assoc, lookup, set, delete}
use portico_gateway.VirtualKeys.Token.{parse_token}
use portico_gateway.VirtualKeys.Store.{VirtualKey, VirtualKeys, lookup_virtual_key_by_id}
use portico_gateway.VirtualKeys.Service.{Resolved}

pub record CacheEntry : Type 0 where
  pub resolved : Resolved
  pub vk_id : GoString
  pub expires_at : ℕ

abbrev pub default_ttl : ℕ
default_ttl = 60 * 10 ^ 9

abbrev pub max_cache_entries : ℕ
max_cache_entries = 4096

pub record Resolver : Type 0 where
  pub ttl : ℕ
  pub cache : Assoc CacheEntry

unfoldable pub new_resolver : ℕ → Resolver
new_resolver ttl = record { ttl = if leb ttl 0 then default_ttl else ttl; cache = [] }

pub data Outcome : Type 0 where
  granted : Resolved → Outcome
  err_unknown err_revoked store_failed : Outcome

unfoldable pub hydrate : VirtualKey → Resolved
hydrate vk = record {
  vk_id = vk.id;
  tenant_id = vk.tenant_id;
  name = vk.name;
  scopes = vk.scopes;
  provider_allowlist = vk.provider_allowlist;
  model_allowlist = vk.model_allowlist;
  mcp_server_allowlist = vk.mcp_server_allowlist;
  profile_id = vk.profile_id;
  parent_kind = vk.parent_kind;
  parent_id = vk.parent_id;
}

unfoldable pub peek_entry : ℕ → GoString → Resolver → Option CacheEntry → Resolver × Option Resolved
peek_entry now h r none = (r, none)
peek_entry now h r (some e) =
    if ltb now e.expires_at
    then (r, some e.resolved)
    else (record r { cache = delete h r.cache }, none)

-- The first critical section: a hit, or the entry dropped that is too old.
unfoldable pub peek : ℕ → GoString → Resolver → Resolver × Option Resolved
peek now h r = peek_entry now h r (lookup h r.cache)

abbrev pub is_expired : ℕ → GoString × CacheEntry → Bool
is_expired now (h, e) = ltb e.expires_at now

-- `pick` if it is one of the keys, else the first of them.
unfoldable pub chosen : GoString → Assoc CacheEntry → Option GoString
chosen pick [] = none
chosen pick ((h, e) ∷ m) = elim (lookup pick ((h, e) ∷ m)) [ none ↦ some h | some x ↦ some pick ]

-- The key that was found goes, or what the other search finds.
unfoldable pub without : Option GoString → Assoc CacheEntry → Assoc CacheEntry → Assoc CacheEntry
without (some h) otherwise m = delete h m
without none otherwise m = otherwise

-- An expired entry goes if there is one, else any.
unfoldable pub evict_one : ℕ → GoString → Assoc CacheEntry → Assoc CacheEntry
evict_one now pick m =
    without (chosen pick (filter (is_expired now) m)) (without (chosen pick m) m m) m

-- The second critical section.
unfoldable pub remember : ℕ → GoString → GoString → VirtualKey → Resolver → Resolver
remember now pick h vk r =
    let cache =
      if leb max_cache_entries (length r.cache) then evict_one now pick r.cache else r.cache in
    record r {
      cache =
          set h (record { resolved = hydrate vk; vk_id = vk.id; expires_at = now + r.ttl }) cache;
    }

unfoldable pub drop_vk : GoString → Assoc CacheEntry → Assoc CacheEntry → Assoc CacheEntry
drop_vk id [] m = m
drop_vk id ((h, e) ∷ entries) m =
    if str_eq e.vk_id id then drop_vk id entries (delete h m) else drop_vk id entries m

unfoldable pub invalidate_vk : GoString → Resolver → Resolver
invalidate_vk id r = record r { cache = drop_vk id r.cache r.cache }

-- What the answer leaves in the cache.
unfoldable pub settle :
    ℕ → GoString → GoString → Outcome × Option VirtualKey → Resolver → Resolver × Outcome
settle now pick h (o, none) r = (r, o)
settle now pick h (o, some vk) r = (remember now pick h vk r, o)

module _ (compute_hmac : GoString → GoString → GoString) where
  unfoldable pub verify_hmac : GoString → GoString → GoString → Bool
  verify_hmac salt stored secret = str_eq (compute_hmac salt secret) stored

  -- The answer of the store, judged: an error, or the key that may be remembered.
  unfoldable pub judge : Bool → GoString → Option VirtualKey → Outcome × Option VirtualKey
  judge fault secret found = if fault then (store_failed, none) else elim found [
    | none ↦ (err_unknown, none)
    | some vk ↦
        if not (verify_hmac vk.salt vk.hmac secret)
        then (err_unknown, none)
        else if not vk.enabled || not (is_empty vk.revoked_at)
        then (err_revoked, none)
        else (granted (hydrate vk), some vk)
  ]

  module _ (token_hash : GoString → GoString) where
    unfoldable pub after_peek :
        Bool
        → ℕ
        → GoString
        → GoString
        → GoString
        → GoString
        → VirtualKeys
        → Resolver × Option Resolved
        → Resolver × Outcome
    after_peek fault now pick h id secret rows (r, some res) = (r, granted res)
    after_peek fault now pick h id secret rows (r, none) =
        settle now pick h (judge fault secret (lookup_virtual_key_by_id id rows)) r

    unfoldable pub after_parse :
        Bool
        → ℕ
        → ℕ
        → GoString
        → GoString
        → VirtualKeys
        → Resolver
        → Option (GoString × GoString)
        → Resolver × Outcome
    after_parse fault now later pick token rows r none = (r, err_unknown)
    after_parse fault now later pick token rows r (some (id, secret)) =
        after_peek fault later pick (token_hash token) id secret rows
          (peek now (token_hash token) r)

    -- `Resolve` with nothing in between; `later` is the clock of the second section.
    unfoldable pub resolve :
        Bool → ℕ → ℕ → GoString → GoString → VirtualKeys → Resolver → Resolver × Outcome
    resolve fault now later pick token rows r =
        after_parse fault now later pick token rows r (parse_token token)
