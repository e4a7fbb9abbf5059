-- ===== src/VirtualKeys/Resolver/Sound.antt =====
-- Who is let in.
use portico_gateway.Base.{
  ℕ, ◌+◌, Bool, true, false, Option, none, some, [], ◌∷◌, ◌≡◌, refl, inl, inr, subst, sym, ◌∙◌, ◌⊎◌,
  ◌<◌, arith, GoString, str_eq, str_eq_iff, Bool-cases, Option-cases, ltb, leb, if◌then◌else◌,
  length, filter,
}
use portico_gateway.Base.Assoc.{Assoc, lookup, set, delete, lookup-set, lookup-delete-some}
use portico_gateway.VirtualKeys.Token.{parse_token}
use portico_gateway.VirtualKeys.Store.{VirtualKey, VirtualKeys, lookup_virtual_key_by_id}
use portico_gateway.VirtualKeys.Service.{Resolved}
use portico_gateway.VirtualKeys.Resolver.{
  CacheEntry, Resolver, new_resolver, Outcome, granted, hydrate, peek, chosen, is_expired,
  evict_one, without, peek_entry, after_parse, remember, drop_vk, invalidate_vk, max_cache_entries,
  judge, settle, after_peek, resolve,
}
use portico_gateway.VirtualKeys.Resolver.Steps.{
  Opens, Known, lookup-id, Step, look, keep, drop, Reach, here, next,
}

-- Every entry of the one is an entry of the other.
abbrev pub Submap : Assoc CacheEntry → Assoc CacheEntry → Type 0
Submap m n = (h : GoString) (e : CacheEntry) → lookup h m ≡ some e → lookup h n ≡ some e

Submap-delete : (k : GoString) (m : Assoc CacheEntry) → Submap (delete k m) m
Submap-delete k m h e q = (lookup-delete-some k h m q).1

pub Submap-drop_vk :
    (id : GoString) (entries m : Assoc CacheEntry) → Submap (drop_vk id entries m) m
unfolding drop_vk
Submap-drop_vk id [] m h e q = q
Submap-drop_vk id ((k, x) ∷ entries) m h e q = elim (Bool-cases (str_eq x.vk_id id)) [
  | inl s ↦ Submap-delete k m h e (Submap-drop_vk id entries (delete k m) h e (rw s at q))
  | inr s ↦ Submap-drop_vk id entries m h e (rw s at q)
]

Submap-without :
    (o : Option GoString) (n m : Assoc CacheEntry) → Submap n m → Submap (without o n m) m
unfolding without
Submap-without (some h) n m s = Submap-delete h m
Submap-without none n m s = s

pub Submap-evict_one :
    (now : ℕ) (pick : GoString) (m : Assoc CacheEntry) → Submap (evict_one now pick m) m
unfolding evict_one
Submap-evict_one now pick m =
    Submap-without (chosen pick (filter (is_expired now) m)) (without (chosen pick m) m m) m
      (Submap-without (chosen pick m) m m (λ h e q. q))

Submap-peek_entry :
    (now : ℕ) (h : GoString) (r : Resolver) (o : Option CacheEntry)
    → Submap (peek_entry now h r o).0.cache r.cache
unfolding peek_entry
Submap-peek_entry now h r none k e q = q
Submap-peek_entry now h r (some x) k e q = elim (Bool-cases (ltb now x.expires_at)) [
  | inl b ↦ rw b at q
  | inr b ↦ Submap-delete h r.cache k e (rw b at q)
]

pub Submap-peek : (now : ℕ) (h : GoString) (r : Resolver) → Submap (peek now h r).0.cache r.cache
unfolding peek
Submap-peek now h r = Submap-peek_entry now h r (lookup h r.cache)

-- What makes room for a new entry.
pub Submap-room :
    (now : ℕ) (pick : GoString) (b : Bool) (m : Assoc CacheEntry)
    → Submap (if b then evict_one now pick m else m) m
Submap-room now pick true m = Submap-evict_one now pick m
Submap-room now pick false m = λ h e q. q

module _ (compute_hmac : GoString → GoString → GoString) (token_hash : GoString → GoString)
    (Row : VirtualKey → Type 0) where
  -- What stands under a key of the cache: the hash of a token that opened the row that it holds.
  pub record Vouched (h : GoString) (e : CacheEntry) : Type 0 where
    pub token : GoString
    pub vk : VirtualKey
    pub hashed : token_hash token ≡ h
    pub known : Row vk
    pub opens : Opens compute_hmac token_hash token vk
    pub holds : e.resolved ≡ hydrate vk
    pub named : e.vk_id ≡ vk.id

  abbrev pub AllVouched : Assoc CacheEntry → Type 0
  AllVouched m = (h : GoString) (e : CacheEntry) → lookup h m ≡ some e → Vouched h e

  AllVouched-Submap : (m n : Assoc CacheEntry) → Submap m n → AllVouched n → AllVouched m
  AllVouched-Submap m n s v h e q = v h e (s h e q)

  set-AllVouched :
      (token : GoString) (vk : VirtualKey) (e : CacheEntry) (m : Assoc CacheEntry)
      → Row vk
      → Opens compute_hmac token_hash token vk
      → e.resolved ≡ hydrate vk
      → e.vk_id ≡ vk.id
      → AllVouched m
      → AllVouched (set (token_hash token) e m)
  set-AllVouched token vk e m k o holds named v h x q =
      elim (Bool-cases (str_eq (token_hash token) h)) [
        | inl s ↦
            let same : e ≡ x = ground (arith, lookup-set (token_hash token) h e m) in
            subst (Vouched h) same (record {
              token = token;
              vk = vk;
              hashed = (str_eq_iff (token_hash token) h).0 s;
              known = k;
              opens = o;
              holds = holds;
              named = named;
            })
        | inr s ↦ v h x (ground (arith, lookup-set (token_hash token) h e m))
      ]

  remember-AllVouched :
      (now : ℕ) (pick token : GoString) (vk : VirtualKey) (r : Resolver)
      → Row vk
      → Opens compute_hmac token_hash token vk
      → AllVouched r.cache
      → AllVouched (remember now pick (token_hash token) vk r).cache
  unfolding remember
  remember-AllVouched now pick token vk r k o v =
      set-AllVouched token vk
        (record { resolved = hydrate vk; vk_id = vk.id; expires_at = now + r.ttl }) _ k o refl refl
        (AllVouched-Submap _ r.cache
          (Submap-room now pick (leb max_cache_entries (length r.cache)) r.cache) v)

  Step-AllVouched :
      (r s : Resolver)
      → Step compute_hmac token_hash Row r s
      → AllVouched r.cache
      → AllVouched s.cache
  unfolding invalidate_vk
  Step-AllVouched r _ (look now h) v = AllVouched-Submap _ r.cache (Submap-peek now h r) v
  Step-AllVouched r _ (keep now pick token vk k o) v = remember-AllVouched now pick token vk r k o v
  Step-AllVouched r _ (drop id) v =
      AllVouched-Submap _ r.cache (Submap-drop_vk id r.cache r.cache) v

  pub Reach-AllVouched :
      (ttl : ℕ) (s : Resolver)
      → Reach compute_hmac token_hash Row (new_resolver ttl) s
      → AllVouched s.cache
  unfolding new_resolver lookup
  Reach-AllVouched ttl _ here = λ h e q. absurd (cc)
  Reach-AllVouched ttl _ (next {s = s} {t = t} m step) =
      Step-AllVouched s t step (Reach-AllVouched ttl s m)

module _ (compute_hmac : GoString → GoString → GoString) (token_hash : GoString → GoString) where
  judge-granted :
      (fault : Bool) (token id secret : GoString) (rows : VirtualKeys) (res : Resolved)
      → parse_token token ≡ some (id, secret)
      → (judge compute_hmac fault secret (lookup_virtual_key_by_id id rows)).0 ≡ granted res
      → (vk : VirtualKey) × (lookup_virtual_key_by_id id rows ≡ some vk)
        × Opens compute_hmac token_hash token vk
        × (res ≡ hydrate vk)
  unfolding judge
  judge-granted fault token id secret rows res p h =
      elim (Option-cases (lookup_virtual_key_by_id id rows)) [
        | inl e ↦ absurd (ground arith)
        | inr (row, e) ↦
            let i = lookup-id id rows row e in
            (
              row,
              e,
              record {
                secret = secret;
                parsed = rw i p;
                verified = ground arith;
                enabled = ground arith;
                not_revoked = ground arith;
              },
              ground arith,
            )
      ]

  -- An entry of the cache that is still good.
  pub record Hit (now : ℕ) (token : GoString) (r : Resolver) (res : Resolved) : Type 0 where
    pub entry : CacheEntry
    pub there : lookup (token_hash token) r.cache ≡ some entry
    pub young : now < entry.expires_at
    pub same : entry.resolved ≡ res

  peek_entry-Hit :
      (now : ℕ) (token : GoString) (r : Resolver) (o : Option CacheEntry) (res : Resolved)
      → lookup (token_hash token) r.cache ≡ o
      → (peek_entry now (token_hash token) r o).1 ≡ some res
      → Hit now token r res
  unfolding peek_entry
  peek_entry-Hit now token r none res l h = absurd (cc)
  peek_entry-Hit now token r (some e) res l h = record {
    entry = e;
    there = l;
    young = ground arith;
    same = ground arith;
  }

  peek-Hit :
      (now : ℕ) (token : GoString) (r : Resolver) (res : Resolved)
      → (peek now (token_hash token) r).1 ≡ some res
      → Hit now token r res
  unfolding peek
  peek-Hit now token r res h =
      peek_entry-Hit now token r (lookup (token_hash token) r.cache) res refl h

  -- Where a grant comes from: the cache, or a row that the token opens.
  abbrev pub Source : ℕ → GoString → VirtualKeys → Resolver → Resolved → Type 0
  Source now token rows r res =
      Hit now token r res
      ⊎ ((id : GoString) × (secret : GoString) × (vk : VirtualKey) × (parse_token token
            ≡ some (id, secret))
          × (lookup_virtual_key_by_id id rows ≡ some vk)
          × Opens compute_hmac token_hash token vk
          × (res ≡ hydrate vk))

  pub settle-out :
      (now : ℕ) (pick h : GoString) (x : Outcome × Option VirtualKey) (s : Resolver)
      → (settle now pick h x s).1 ≡ x.0
  unfolding settle
  settle-out now pick h (o, none) s = refl
  settle-out now pick h (o, some vk) s = refl

  after_peek-Source :
      (fault : Bool) (now later : ℕ) (pick token id secret : GoString) (rows : VirtualKeys)
      (r s : Resolver) (hit : Option Resolved) (res : Resolved)
      → parse_token token ≡ some (id, secret)
      → ((x : Resolved) → hit ≡ some x → Hit now token r x)
      → (after_peek compute_hmac token_hash fault later pick
          (token_hash token)
          id
          secret
          rows
          (s, hit)).1
        ≡ granted res
      → Source now token rows r res
  unfolding after_peek
  after_peek-Source fault now later pick token id secret rows r s (some x) res p k h =
      inl (k res (ground arith))
  after_peek-Source fault now later pick token id secret rows r s none res p k h =
      let x = judge compute_hmac fault secret (lookup_virtual_key_by_id id rows) in
      let (vk, e, o, q) =
        judge-granted fault token id secret rows res p
          (sym (settle-out later pick (token_hash token) x s) ∙ h) in
      inr (id, secret, vk, p, e, o, q)

  after_parse-Source :
      (fault : Bool) (now later : ℕ) (pick token : GoString) (rows : VirtualKeys) (r : Resolver)
      (res : Resolved) (parts : Option (GoString × GoString))
      → parse_token token ≡ parts
      → (after_parse compute_hmac token_hash fault now later pick token rows r parts).1
        ≡ granted res
      → Source now token rows r res
  unfolding after_parse
  after_parse-Source fault now later pick token rows r res none p h = absurd (cc)
  after_parse-Source fault now later pick token rows r res (some (id, secret)) p h =
      after_peek-Source fault now later pick token id secret rows r _ _ res p (peek-Hit now token r)
        h

  pub resolve-Source :
      (fault : Bool) (now later : ℕ) (pick token : GoString) (rows : VirtualKeys) (r : Resolver)
      (res : Resolved)
      → (resolve compute_hmac token_hash fault now later pick token rows r).1 ≡ granted res
      → Source now token rows r res
  unfolding resolve
  resolve-Source fault now later pick token rows r res h =
      after_parse-Source fault now later pick token rows r res (parse_token token) refl h

  -- No other token has the hash of this one.
  abbrev pub IsUnshared : GoString → Type 0
  IsUnshared token = (other : GoString) → token_hash other ≡ token_hash token → other ≡ token

  -- In every state that a new resolver reaches, with the store changing in between, a grant is the
  -- state of a key that the store answered, now or when it was remembered, and that the token itself
  -- opened then: the token names its id, the token's secret has its digest, and it was enabled and
  -- not revoked; the token's hash is taken to be shared by no other.
  pub resolve_sound :
      (Row : VirtualKey → Type 0) (ttl : ℕ) (r : Resolver) (fault : Bool) (now later : ℕ)
      (pick token : GoString) (rows : VirtualKeys) (res : Resolved)
      → Reach compute_hmac token_hash Row (new_resolver ttl) r
      → Known compute_hmac token_hash Row rows
      → IsUnshared token
      → (resolve compute_hmac token_hash fault now later pick token rows r).1 ≡ granted res
      → (vk : VirtualKey) × Row vk × Opens compute_hmac token_hash token vk × (res ≡ hydrate vk)
  resolve_sound Row ttl r fault now later pick token rows res m known alone h =
      elim (resolve-Source fault now later pick token rows r res h) [
        | inr (id, secret, vk, p, e, o, q) ↦ (vk, known id vk e, o, q)
        | inl hit ↦
            let v =
              Reach-AllVouched compute_hmac token_hash Row ttl r m (token_hash token) hit.entry
                hit.there in
            (
              v.vk,
              v.known,
              subst (λ t. Opens compute_hmac token_hash t v.vk) (alone v.token v.hashed) v.opens,
              sym hit.same ∙ v.holds,
            )
      ]
