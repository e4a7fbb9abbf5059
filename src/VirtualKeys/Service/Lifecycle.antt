-- ===== src/VirtualKeys/Service/Lifecycle.antt =====
-- What the rows hold after a key has been issued, rotated or revoked.
use portico_gateway.Base.{
  Bool, true, false, Option, some, [], ◌∷◌, ◌≡◌, refl, inl, inr, sym, subst, arith, GoString,
  str_eq, str_eq_iff, str_eq_refl, is_empty, Bool-cases, Option-cases, if◌then◌else◌,
}
use portico_gateway.VirtualKeys.Token.{compose_token, new_id, new_secret}
use portico_gateway.VirtualKeys.Store.{
  VirtualKey, VirtualKeys, find_row, get_virtual_key, find_id, lookup_virtual_key_by_id, upsert,
  relisted, written, put_virtual_key, is_row,
}
use portico_gateway.VirtualKeys.Service.{
  CreateParams, Created, Random, parent_kind_of, stored, issued, issue, create, revoke,
}

find_row-is_row :
    (tenant id : GoString) (rows : VirtualKeys) (r : VirtualKey)
    → find_row tenant id rows ≡ some r
    → is_row tenant id r ≡ true
unfolding find_row
find_row-is_row tenant id [] r h = absurd (cc)
find_row-is_row tenant id (x ∷ rows) r h = elim (Bool-cases (is_row tenant id x)) [
  | inl e ↦ ground arith
  | inr e ↦ find_row-is_row tenant id rows r (ground arith)
]

-- A row that agrees with the key, its allow lists read back, in all but the time of its creation.
abbrev pub Holds : Option VirtualKey → VirtualKey → Type 0
Holds found vk = (c : GoString) × (found ≡ some (record (relisted vk) { created_at = c }))

-- The id is the tenant's, if anyone's.
abbrev pub OwnsId : GoString → GoString → VirtualKeys → Type 0
OwnsId tenant id rows = find_id id rows ≡ find_row tenant id rows

find_id-upsert :
    (vk : VirtualKey) (rows : VirtualKeys)
    → OwnsId vk.tenant_id vk.id rows
    → (c : GoString) × (find_id vk.id (upsert vk rows) ≡ some (record vk { created_at = c }))
unfolding find_id find_row upsert
find_id-upsert vk [] own = (vk.created_at, rw (str_eq_refl vk.id) refl)
find_id-upsert vk (r ∷ rows) own = elim (Bool-cases (str_eq r.id vk.id)) [
  | inl same ↦ elim (Bool-cases (str_eq r.tenant_id vk.tenant_id)) [
    | inl t ↦ (
      if is_empty r.created_at then vk.created_at else r.created_at,
      rw (t, same, str_eq_refl vk.id) refl,
    )
    | inr t ↦
        let e : some r ≡ find_row vk.tenant_id vk.id rows = rw (t, same) at own in
        absurd (ground (arith, find_row-is_row vk.tenant_id vk.id rows r (sym e)))
  ]
  | inr other ↦
      let apart : is_row vk.tenant_id vk.id r ≡ false = ground arith in
      let (c, e) = find_id-upsert vk rows (rw (apart, other) at own) in (c, rw (apart, other) e)
]

put-upsert :
    (fault : Bool) (now : GoString) (vk : VirtualKey) (rows rows' : VirtualKeys)
    → put_virtual_key fault now vk rows ≡ some rows'
    → (upsert (written now vk) rows ≡ rows') × (is_empty vk.id ≡ false)
unfolding put_virtual_key
put-upsert fault now vk rows rows' h = (ground arith, ground arith)

written_kind :
    (now : GoString) (vk : VirtualKey)
    → is_empty vk.parent_kind ≡ false
    → written now vk ≡ record (relisted vk) { created_at = now }
unfolding written
written_kind now vk kind = rw kind refl

pub lookup-put :
    (fault : Bool) (now : GoString) (vk : VirtualKey) (rows rows' : VirtualKeys)
    → is_empty vk.parent_kind ≡ false
    → OwnsId vk.tenant_id vk.id rows
    → put_virtual_key fault now vk rows ≡ some rows'
    → Holds (lookup_virtual_key_by_id vk.id rows') vk
unfolding lookup_virtual_key_by_id
lookup-put fault now vk rows rows' kind own h =
    let (e, ne) = put-upsert fault now vk rows rows' h in
    let (c, q) = find_id-upsert (record (relisted vk) { created_at = now }) rows own in
    (c, rw (ne, sym e, written_kind now vk kind) q)

-- What a successful call of the service leaves: the token, and the row that it opens.
pub record IsIssued (compute_hmac : GoString → GoString → GoString) (random : Random)
    (rows' : VirtualKeys) (vk : VirtualKey) (token : GoString) : Type 0 where
  pub secret : GoString
  pub drawn : new_secret random.secret ≡ some secret
  pub composed : token ≡ compose_token vk.id secret
  pub bound : vk.hmac ≡ compute_hmac vk.salt secret
  pub held : Holds (lookup_virtual_key_by_id vk.id rows') vk

parent_kind_of-nonempty : (p : CreateParams) → is_empty (parent_kind_of p) ≡ false
unfolding parent_kind_of
parent_kind_of-nonempty p = ground arith

pub stored-put :
    (fault : Bool) (now : GoString) (vk : VirtualKey) (token : GoString) (rows rows' : VirtualKeys)
    (c : Created)
    → stored fault now vk token rows ≡ (rows', some c)
    → (put_virtual_key fault now vk rows ≡ some rows') × (c.vk ≡ vk) × (c.token ≡ token)
unfolding stored
stored-put fault now vk token rows rows' c h =
    elim (Option-cases (put_virtual_key fault now vk rows)) [
      | inl e ↦ absurd (ground arith)
      | inr (r, e) ↦ (ground arith, ground arith, ground arith)
    ]

issued_of_some :
    (compute_hmac : GoString → GoString → GoString) (fault : Bool) (now : GoString)
    (p : CreateParams) (random : Random) (rows rows' : VirtualKeys) (c : Created)
    → create compute_hmac fault now random p rows ≡ (rows', some c)
    → (id : GoString) × (secret : GoString) × (salt : GoString) × (new_id random.id ≡ some id)
      × (new_secret random.secret ≡ some secret)
      × (stored fault now (issued compute_hmac p id secret salt) (compose_token id secret) rows
          ≡ (rows', some c))
unfolding create issue
issued_of_some compute_hmac fault now p random rows rows' c h =
    elim (Option-cases (new_id random.id)) [
      | inl i ↦ absurd (ground arith)
      | inr (id, i) ↦ elim (Option-cases (new_secret random.secret)) [
        | inl s ↦ absurd (ground arith)
        | inr (secret, s) ↦ elim (Option-cases random.salt) [
          | inl t ↦ absurd (ground arith)
          | inr (salt, t) ↦ (id, secret, salt, i, s, ground arith)
        ]
      ]
    ]

pub record IsCreated (p : CreateParams) (random : Random) (vk : VirtualKey) : Type 0 where
  pub id : new_id random.id ≡ some vk.id
  pub tenant_id : vk.tenant_id ≡ p.tenant_id
  pub scopes : vk.scopes ≡ p.scopes
  pub enabled : vk.enabled ≡ true
  pub revoked_at : vk.revoked_at ≡ []

-- A created key is held by the rows under its id, with the digest of the secret in its token.
pub create-IsIssued :
    (compute_hmac : GoString → GoString → GoString) (fault : Bool) (now : GoString)
    (p : CreateParams) (random : Random) (rows rows' : VirtualKeys) (c : Created)
    → create compute_hmac fault now random p rows ≡ (rows', some c)
    → OwnsId p.tenant_id c.vk.id rows
    → IsIssued compute_hmac random rows' c.vk c.token × IsCreated p random c.vk
unfolding issued
create-IsIssued compute_hmac fault now p random rows rows' c h own =
    let (id, secret, salt, i, s, st) =
      issued_of_some compute_hmac fault now p random rows rows' c h in
    let vk = issued compute_hmac p id secret salt in
    let (put, v, t) = stored-put fault now vk (compose_token id secret) rows rows' c st in
    let own' : OwnsId p.tenant_id id rows =
      subst (λ (k : VirtualKey). OwnsId p.tenant_id k.id rows) v own in
    subst (λ k. IsIssued compute_hmac random rows' k c.token × IsCreated p random k) (sym v)
      (
        record {
          secret = secret;
          drawn = s;
          composed = t;
          bound = refl;
          held = lookup-put fault now vk rows rows' (parent_kind_of-nonempty p) own' put;
        },
        record { id = i; tenant_id = refl; scopes = refl; enabled = refl; revoked_at = refl },
      )

pub get-find_row :
    (tenant id : GoString) (rows : VirtualKeys) (vk : VirtualKey)
    → get_virtual_key tenant id rows ≡ some vk
    → (find_row tenant id rows ≡ some vk) × (vk.tenant_id ≡ tenant) × (vk.id ≡ id)
unfolding get_virtual_key
get-find_row tenant id rows vk h =
    let f : find_row tenant id rows ≡ some vk = ground arith in
    let e = find_row-is_row tenant id rows vk f in
    (f, ground (arith, str_eq_iff vk.tenant_id tenant), ground (arith, str_eq_iff vk.id id))

-- What a revoked row is.
pub record IsRevoked (now : GoString) (found : Option VirtualKey) : Type 0 where
  pub row : VirtualKey
  pub here : found ≡ some row
  pub disabled : row.enabled ≡ false

-- A revocation that reports no error leaves the row disabled under its id.
pub revoke-IsRevoked :
    (fault : Bool) (now tenant id : GoString) (rows rows' : VirtualKeys) (vk : VirtualKey)
    → get_virtual_key tenant id rows ≡ some vk
    → is_empty vk.parent_kind ≡ false
    → OwnsId tenant id rows
    → revoke fault now tenant id rows ≡ (rows', true)
    → IsRevoked now (lookup_virtual_key_by_id id rows')
unfolding revoke
revoke-IsRevoked fault now tenant id rows rows' vk g kind own h =
    let (f, t, i) = get-find_row tenant id rows vk g in
    let vk' : VirtualKey = record vk { enabled = false; revoked_at = now } in
    elim (Option-cases (put_virtual_key fault now vk' rows)) [
      | inl e ↦ absurd (ground arith)
      | inr (r, e) ↦
          let same : r ≡ rows' = ground arith in
          let (c, q) = lookup-put fault now vk' rows r kind (rw (t, i) own) e in
          record {
            row = record (relisted vk') { created_at = c };
            here = rw (sym i, sym same) q;
            disabled = refl;
          }
    ]
