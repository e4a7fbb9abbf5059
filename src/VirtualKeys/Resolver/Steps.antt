-- ===== src/VirtualKeys/Resolver/Steps.antt =====
-- The interleavings of the critical sections, over any calls of the resolver and any states of the
-- store in between.
use portico_gateway.Base.{
  ℕ, Bool, true, Option, none, some, ◌≡◌, refl, inl, inr, arith, GoString, is_empty, str_eq,
  str_eq_iff, Bool-cases, subst, [], ◌∷◌, Option-cases,
}
use mathlib.Core.Path.{Σ_path}
use portico_gateway.VirtualKeys.Service.{Resolved}
use portico_gateway.VirtualKeys.Token.{parse_token}
use portico_gateway.VirtualKeys.Store.{VirtualKey, VirtualKeys, find_id, lookup_virtual_key_by_id}
use portico_gateway.VirtualKeys.Resolver.{
  Resolver, Outcome, granted, hydrate, peek, remember, invalidate_vk, verify_hmac, judge, settle,
  after_peek, after_parse, resolve,
}

find_id-id :
    (id : GoString) (rows : VirtualKeys) (vk : VirtualKey) → find_id id rows ≡ some vk → vk.id ≡ id
unfolding find_id
find_id-id id [] vk h = absurd (cc)
find_id-id id (r ∷ rows) vk h = elim (Bool-cases (str_eq r.id id)) [
  | inl e ↦ ground (arith, str_eq_iff r.id id)
  | inr e ↦ find_id-id id rows vk (rw e at h)
]

pub lookup-id :
    (id : GoString) (rows : VirtualKeys) (vk : VirtualKey)
    → lookup_virtual_key_by_id id rows ≡ some vk
    → vk.id ≡ id
unfolding lookup_virtual_key_by_id
lookup-id id rows vk h = find_id-id id rows vk (ground arith)

module _ (compute_hmac : GoString → GoString → GoString) (token_hash : GoString → GoString) where
  -- The token names the key, its secret has the key's digest, and the key is in force.
  pub record Opens (token : GoString) (vk : VirtualKey) : Type 0 where
    pub secret : GoString
    pub parsed : parse_token token ≡ some (vk.id, secret)
    pub verified : verify_hmac compute_hmac vk.salt vk.hmac secret ≡ true
    pub enabled : vk.enabled ≡ true
    pub not_revoked : is_empty vk.revoked_at ≡ true

  -- What is remembered opens the row that the store answered with.
  pub judge-Opens :
      (fault : Bool) (token id secret : GoString) (rows : VirtualKeys) (o : Outcome)
      (vk : VirtualKey)
      → parse_token token ≡ some (id, secret)
      → judge compute_hmac fault secret (lookup_virtual_key_by_id id rows) ≡ (o, some vk)
      → Opens token vk × (o ≡ granted (hydrate vk)) × (lookup_virtual_key_by_id id rows ≡ some vk)
  unfolding judge
  judge-Opens fault token id secret rows o vk p h = elim (Bool-cases fault) [
    | inl f ↦ absurd (ground arith)
    | inr f ↦ elim (Option-cases (lookup_virtual_key_by_id id rows)) [
      | inl e ↦ absurd (ground arith)
      | inr (row, e) ↦
          let i = lookup-id id rows row e in
          let same : row ≡ vk = ground arith in
          (
            subst (Opens token) same (record {
              secret = secret;
              parsed = rw i p;
              verified = ground arith;
              enabled = ground arith;
              not_revoked = ground arith;
            }),
            subst (λ k. o ≡ granted (hydrate k)) same (ground arith),
            subst (λ k. lookup_virtual_key_by_id id rows ≡ some k) same e,
          )
    ]
  ]

-- `Row vk` says that the store has answered the key, at some time.
module _ (compute_hmac : GoString → GoString → GoString) (token_hash : GoString → GoString)
    (Row : VirtualKey → Type 0) where
  pub data Step (r : Resolver) : Resolver → Type 0 where
    look : (now : ℕ) (h : GoString) → Step r (peek now h r).0
    keep :
        (now : ℕ) (pick token : GoString) (vk : VirtualKey)
        → Row vk
        → Opens compute_hmac token_hash token vk
        → Step r (remember now pick (token_hash token) vk r)
    drop : (id : GoString) → Step r (invalidate_vk id r)

  pub data Reach (r : Resolver) : Resolver → Type 0 where
    here : Reach r r
    next : {s t : Resolver} → Reach r s → Step s t → Reach r t

  -- What the rows answer by an id is among the keys that the store has answered.
  abbrev pub Known : VirtualKeys → Type 0
  Known rows =
      (id : GoString) (vk : VirtualKey) → lookup_virtual_key_by_id id rows ≡ some vk → Row vk

  abbrev pub Keeps : GoString → Outcome × Option VirtualKey → Type 0
  Keeps token x =
      (vk : VirtualKey) → x.1 ≡ some vk → Row vk × Opens compute_hmac token_hash token vk

  pub judge-Keeps :
      (fault : Bool) (token id secret : GoString) (rows : VirtualKeys)
      → Known rows
      → parse_token token ≡ some (id, secret)
      → Keeps token (judge compute_hmac fault secret (lookup_virtual_key_by_id id rows))
  judge-Keeps fault token id secret rows known p vk e =
      let (o, g, f) =
        judge-Opens compute_hmac token_hash fault token id secret rows _ vk p (Σ_path refl e) in
      (known id vk f, o)

  settle-Reach :
      (now : ℕ) (pick token : GoString) (x : Outcome × Option VirtualKey) (r s : Resolver)
      → Keeps token x
      → Reach r s
      → Reach r (settle now pick (token_hash token) x s).0
  unfolding settle
  settle-Reach now pick token (o, none) r s k m = m
  settle-Reach now pick token (o, some vk) r s k m =
      next m (keep now pick token vk (k vk refl).0 (k vk refl).1)

  after_peek-Reach :
      (fault : Bool) (now : ℕ) (pick token id secret : GoString) (rows : VirtualKeys)
      (r s : Resolver) (hit : Option Resolved)
      → Known rows
      → parse_token token ≡ some (id, secret)
      → Reach r s
      → Reach r
          (after_peek compute_hmac token_hash fault now pick
            (token_hash token)
            id
            secret
            rows
            (s, hit)).0
  unfolding after_peek
  after_peek-Reach fault now pick token id secret rows r s (some res) known p m = m
  after_peek-Reach fault now pick token id secret rows r s none known p m =
      settle-Reach now pick token _ r s (judge-Keeps fault token id secret rows known p) m

  after_parse-Reach :
      (fault : Bool) (now later : ℕ) (pick token : GoString) (rows : VirtualKeys) (r : Resolver)
      (parts : Option (GoString × GoString))
      → Known rows
      → parse_token token ≡ parts
      → Reach r (after_parse compute_hmac token_hash fault now later pick token rows r parts).0
  unfolding after_parse
  after_parse-Reach fault now later pick token rows r none known p = here
  after_parse-Reach fault now later pick token rows r (some (id, secret)) known p =
      after_peek-Reach fault later pick token id secret rows r _ _ known p
        (next here (look now (token_hash token)))

  -- A call of `resolve` is one of these sequences of steps.
  pub resolve-Reach :
      (fault : Bool) (now later : ℕ) (pick token : GoString) (rows : VirtualKeys) (r : Resolver)
      → Known rows
      → Reach r (resolve compute_hmac token_hash fault now later pick token rows r).0
  unfolding resolve
  resolve-Reach fault now later pick token rows r known =
      after_parse-Reach fault now later pick token rows r (parse_token token) known refl
