-- ===== src/VirtualKeys/Resolver/Revoked.antt =====
-- A key after it was created, and after it was revoked.
use portico_gateway.Base.{
  ℕ, ◌+◌, ◌<◌, Bool, true, false, Option, none, some, List, [], ◌∷◌, ◌≡◌, ◌≢◌, refl, ap, ◌∙◌,
  lt→ltb, leb, length, arith, GoString, str_eq_refl, is_empty, if◌then◌else◌,
}
use portico_gateway.Base.Assoc.{lookup, lookup-set}
use portico_gateway.VirtualKeys.Token.{parse_token}
use portico_gateway.VirtualKeys.Token.Laws.{new_id-IsSegments, parse_token-compose_token}
use portico_gateway.VirtualKeys.Store.{
  VirtualKey, VirtualKeys, relisted, get_virtual_key, lookup_virtual_key_by_id,
}
use portico_gateway.VirtualKeys.Service.{Resolved, CreateParams, Created, Random, create, revoke}
use portico_gateway.VirtualKeys.Service.Lifecycle.{OwnsId, Holds, create-IsIssued, revoke-IsRevoked}
use portico_gateway.VirtualKeys.Resolver.{
  CacheEntry, Resolver, new_resolver, granted, hydrate, peek, peek_entry, remember, invalidate_vk,
  verify_hmac, judge, after_peek, settle, after_parse, resolve, evict_one, max_cache_entries,
}
use portico_gateway.VirtualKeys.Resolver.Invalidated.{invalidated-row}
use portico_gateway.VirtualKeys.Resolver.Steps.{Reach}
use portico_gateway.VirtualKeys.Resolver.Sound.{settle-out, IsUnshared}

peek-hit :
    (now : ℕ) (h : GoString) (s : Resolver) (e : CacheEntry)
    → lookup h s.cache ≡ some e
    → now < e.expires_at
    → peek now h s ≡ (s, some e.resolved)
unfolding peek peek_entry
peek-hit now h s e q young = rw q (rw (lt→ltb now e.expires_at young) refl)

peek-miss :
    (now : ℕ) (h : GoString) (s : Resolver) → lookup h s.cache ≡ none → peek now h s ≡ (s, none)
unfolding peek peek_entry
peek-miss now h s q = rw q refl

lookup-remember :
    (at : ℕ) (pick h : GoString) (vk : VirtualKey) (r : Resolver)
    → lookup h (remember at pick h vk r).cache
      ≡ some (record { resolved = hydrate vk; vk_id = vk.id; expires_at = at + r.ttl })
unfolding remember
lookup-remember at pick h vk r =
    let e : CacheEntry = record { resolved = hydrate vk; vk_id = vk.id; expires_at = at + r.ttl } in
    lookup-set h h e
      (if leb max_cache_entries (length r.cache) then evict_one at pick r.cache else r.cache)
    ∙ rw (str_eq_refl h) refl

peek-remember :
    (now at : ℕ) (pick h : GoString) (vk : VirtualKey) (r : Resolver)
    → now < at + r.ttl
    → peek now h (remember at pick h vk r) ≡ (remember at pick h vk r, some (hydrate vk))
peek-remember now at pick h vk r young =
    peek-hit now h (remember at pick h vk r) _ (lookup-remember at pick h vk r) young

pub cons-ne-nil : (x : ℕ) (xs : List ℕ) → x ∷ xs ≢ []
cons-ne-nil x xs h = cc

module _ (compute_hmac : GoString → GoString → GoString) (token_hash : GoString → GoString)
    (Row : VirtualKey → Type 0) where
  -- Once a key with a parent kind is revoked without an error and its entries are dropped, no
  -- token of it is let in, if nothing else runs in between; the id is taken to be of one tenant,
  -- and the token's hash of one token.
  pub revoke_denies :
      (fault again : Bool) (at tenant id secret token pick : GoString) (ttl now later : ℕ)
      (rows rows' : VirtualKeys) (vk : VirtualKey) (r : Resolver) (res : Resolved)
      → Reach compute_hmac token_hash Row (new_resolver ttl) r
      → get_virtual_key tenant id rows ≡ some vk
      → is_empty vk.parent_kind ≡ false
      → OwnsId tenant id rows
      → revoke fault at tenant id rows ≡ (rows', true)
      → parse_token token ≡ some (id, secret)
      → IsUnshared compute_hmac token_hash token
      → (resolve compute_hmac token_hash again now later pick token rows' (invalidate_vk id r)).1
        ≢ granted res
  revoke_denies fault again at tenant id secret token pick ttl now later rows rows' vk r res m g
        kind own w p alone h =
      let (row, e, o, q) =
        invalidated-row compute_hmac token_hash Row ttl again now later id secret token pick rows' r
          res m p alone h in
      let x = revoke-IsRevoked fault at tenant id rows rows' vk g kind own w in
      ground (arith, o.enabled, x.disabled, e, x.here)

  resolve-remember :
      (again : Bool) (now later at : ℕ) (token id secret pick pick' : GoString) (rows : VirtualKeys)
      (vk : VirtualKey) (r : Resolver)
      → parse_token token ≡ some (id, secret)
      → now < at + r.ttl
      → (resolve compute_hmac token_hash again now later pick' token rows
          (remember at pick (token_hash token) vk r)).1
        ≡ granted (hydrate vk)
  unfolding resolve after_parse after_peek
  resolve-remember again now later at token id secret pick pick' rows vk r p young =
      rw p (rw (peek-remember now at pick (token_hash token) vk r young) refl)

  -- A resolution that judged the row before the key was revoked without an error, and leaves its
  -- answer in the cache after the key's entries were dropped, lets the revoked token in again until
  -- the entry is too old; without that late write the token is denied. The key has a parent kind, its
  -- id is taken to be of one tenant, and the token's hash of one token.
  pub remember_reopens :
      (fault again : Bool) (at tenant id secret token pick pick' : GoString)
      (ttl now later late : ℕ) (rows rows' : VirtualKeys) (vk row : VirtualKey) (r : Resolver)
      (res : Resolved)
      → Reach compute_hmac token_hash Row (new_resolver ttl) r
      → get_virtual_key tenant id rows ≡ some vk
      → is_empty vk.parent_kind ≡ false
      → OwnsId tenant id rows
      → revoke fault at tenant id rows ≡ (rows', true)
      → parse_token token ≡ some (id, secret)
      → IsUnshared compute_hmac token_hash token
      → judge compute_hmac false secret (lookup_virtual_key_by_id id rows)
        ≡ (granted (hydrate row), some row)
      → now < late + r.ttl
      → let judged = judge compute_hmac false secret (lookup_virtual_key_by_id id rows) in
        let dropped = invalidate_vk id r in
        ((resolve compute_hmac token_hash again now later pick' token rows'
            (settle late pick (token_hash token) judged dropped).0).1
          ≡ granted (hydrate row))
        × ((resolve compute_hmac token_hash again now later pick' token rows' dropped).1
            ≢ granted res)
  remember_reopens fault again at tenant id secret token pick pick' ttl now later late rows rows' vk
        row r res m g kind own w p alone j young =
      (
        ap
              (λ x.
                (resolve compute_hmac token_hash again now later pick' token rows'
                  (settle late pick (token_hash token) x (invalidate_vk id r)).0).1)
              j
            ∙ (unfold settle invalidate_vk in
                resolve-remember again now later late token id secret pick pick' rows' row
                  (invalidate_vk id r) p young),
        revoke_denies fault again at tenant id secret token pick' ttl now later rows rows' vk r res
            m g kind own w p alone,
      )

module _ (compute_hmac : GoString → GoString → GoString) (token_hash : GoString → GoString) where
  pub judge-held :
      (secret : GoString) (found : Option VirtualKey) (vk : VirtualKey)
      → Holds found vk
      → vk.hmac ≡ compute_hmac vk.salt secret
      → vk.enabled ≡ true
      → vk.revoked_at ≡ []
      → (judge compute_hmac false secret found).0 ≡ granted (hydrate (relisted vk))
  unfolding judge verify_hmac hydrate
  judge-held secret found vk (c, e) bound on fresh =
      rw (e, bound, str_eq_refl (compute_hmac vk.salt secret), on, fresh) refl

  pub resolve-judge :
      (now later : ℕ) (pick token id secret : GoString) (rows : VirtualKeys) (r : Resolver)
      → parse_token token ≡ some (id, secret)
      → lookup (token_hash token) r.cache ≡ none
      → (resolve compute_hmac token_hash false now later pick token rows r).1
        ≡ (judge compute_hmac false secret (lookup_virtual_key_by_id id rows)).0
  unfolding resolve after_parse after_peek
  resolve-judge now later pick token id secret rows r p miss = rw p (
      rw (peek-miss now (token_hash token) r miss) (
        settle-out compute_hmac token_hash later pick (token_hash token)
          (judge compute_hmac false secret (lookup_virtual_key_by_id id rows)) r))

  -- A key that was just created without an error is let in by its token, directly after and with no
  -- fault of the store, as a key of its own tenant with its own scopes, and with the allow lists that
  -- the store gives back, without their empty items and in order; if the random bytes of the id and
  -- the secret are there, no other tenant has the id, and no entry of the cache stands under the
  -- token's hash.
  pub create_resolves :
      (fault : Bool) (at : GoString) (p : CreateParams) (x y : ℕ) (b c : List ℕ)
      (salt : Option (List ℕ)) (rows rows' : VirtualKeys) (k : Created) (now later : ℕ)
      (pick : GoString) (r : Resolver)
      → create compute_hmac fault at
          (record { id = some (x ∷ b); secret = some (y ∷ c); salt = salt })
          p
          rows
        ≡ (rows', some k)
      → OwnsId p.tenant_id k.vk.id rows
      → lookup (token_hash k.token) r.cache ≡ none
      → ((resolve compute_hmac token_hash false now later pick k.token rows' r).1
          ≡ granted (hydrate (relisted k.vk)))
        × (k.vk.tenant_id ≡ p.tenant_id)
        × (k.vk.scopes ≡ p.scopes)
  create_resolves fault at p x y b c salt rows rows' k now later pick r h own miss =
      let random : Random = record { id = some (x ∷ b); secret = some (y ∷ c); salt = salt } in
      let (i, d) = create-IsIssued compute_hmac fault at p random rows rows' k h own in
      let seg =
        new_id-IsSegments (x ∷ b) (y ∷ c) k.vk.id i.secret (cons-ne-nil x b) (cons-ne-nil y c) d.id
          i.drawn in
      let parsed : parse_token k.token ≡ some (k.vk.id, i.secret) =
        rw i.composed (parse_token-compose_token k.vk.id i.secret seg) in
      (
        resolve-judge now later pick k.token k.vk.id i.secret rows' r parsed miss
            ∙ judge-held i.secret _ k.vk i.held i.bound d.enabled d.revoked_at,
        d.tenant_id,
        d.scopes,
      )
