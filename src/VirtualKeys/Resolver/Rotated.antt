-- ===== src/VirtualKeys/Resolver/Rotated.antt =====
-- A key after it was rotated.
use portico_gateway.Base.{
  ℕ, Bool, false, some, [], ◌∷◌, ◌++◌, ap, sym, ◌≡◌, ◌≢◌, subst, ◌∙◌, arith, GoString, is_empty,
  str_eq_iff,
}
use portico_gateway.VirtualKeys.Token.{parse_token, compose_token, token_prefix, token_sep}
use portico_gateway.VirtualKeys.Store.{
  VirtualKey, VirtualKeys, relisted, get_virtual_key, lookup_virtual_key_by_id,
}
use portico_gateway.VirtualKeys.Service.{Resolved, Created, Random, rotate}
use portico_gateway.VirtualKeys.Service.Lifecycle.{OwnsId, get-find_row}
use portico_gateway.VirtualKeys.Service.Rotation.{rotate-IsIssued}
use portico_gateway.VirtualKeys.Resolver.{
  Resolver, new_resolver, granted, invalidate_vk, verify_hmac, resolve,
}
use portico_gateway.VirtualKeys.Resolver.Steps.{Reach}
use portico_gateway.VirtualKeys.Resolver.Sound.{IsUnshared}
use portico_gateway.VirtualKeys.Resolver.Invalidated.{invalidated-row}

append_cancel : (xs ys zs : GoString) → xs ++ ys ≡ xs ++ zs → ys ≡ zs
append_cancel [] ys zs h = h
append_cancel (x ∷ xs) ys zs h = append_cancel xs ys zs (cc)

-- The secret can be read off a token of a known id.
compose_token-secret : (id s t : GoString) → compose_token id s ≡ compose_token id t → s ≡ t
unfolding compose_token
compose_token-secret id s t h =
    let r = append_cancel id (token_sep ∷ s) (token_sep ∷ t) (append_cancel token_prefix _ _ h) in
    cc

module _ (compute_hmac : GoString → GoString → GoString) (token_hash : GoString → GoString)
    (Row : VirtualKey → Type 0) where
  -- Once a key with a parent kind is rotated without an error and its entries are dropped, a token of
  -- it whose secret and the new token's have different digests under the new salt is let in no longer,
  -- if nothing else runs in between, the id is of one tenant and no other token shares the hash.
  pub rotate_denies :
      (fault again : Bool) (at tenant id secret fresh token pick : GoString) (random : Random)
      (ttl now later : ℕ) (rows rows' : VirtualKeys) (old : VirtualKey) (k : Created) (r : Resolver)
      (res : Resolved)
      → Reach compute_hmac token_hash Row (new_resolver ttl) r
      → get_virtual_key tenant id rows ≡ some old
      → is_empty old.parent_kind ≡ false
      → OwnsId tenant id rows
      → rotate compute_hmac fault at random tenant id rows ≡ (rows', some k)
      → parse_token token ≡ some (id, secret)
      → k.token ≡ compose_token k.vk.id fresh
      → compute_hmac k.vk.salt secret ≢ compute_hmac k.vk.salt fresh
      → IsUnshared compute_hmac token_hash token
      → (resolve compute_hmac token_hash again now later pick token rows' (invalidate_vk id r)).1
        ≢ granted res
  unfolding verify_hmac
  rotate_denies fault again at tenant id secret fresh token pick random ttl now later rows rows' old
        k r res m g kind own w p named other alone h =
      let (row, e, o, q) =
        invalidated-row compute_hmac token_hash Row ttl again now later id secret token pick rows' r
          res m p alone h in
      let (issued, rotated) =
        rotate-IsIssued compute_hmac fault at tenant id random rows rows' old k g kind own w in
      let (f, t, i) = get-find_row tenant id rows old g in
      let (c, held) = issued.held in
      let same : row ≡ record (relisted k.vk) { created_at = c } = ground (
        arith,
        e,
        subst
            (λ x.
              lookup_virtual_key_by_id x rows' ≡ some (record (relisted k.vk) { created_at = c }))
            (rotated.id ∙ i) held,
      ) in
      let s : o.secret ≡ secret = ground (arith, o.parsed, p) in
      let v : compute_hmac row.salt o.secret ≡ row.hmac = (str_eq_iff _ _).0 o.verified in
      let b : compute_hmac k.vk.salt secret ≡ k.vk.hmac =
        subst (λ (x : VirtualKey). compute_hmac x.salt secret ≡ x.hmac) same
          (subst (λ z. compute_hmac row.salt z ≡ row.hmac) s v) in
      let f' : issued.secret ≡ fresh =
        compose_token-secret k.vk.id _ _ (sym issued.composed ∙ named) in
      other (b ∙ (issued.bound ∙ ap (compute_hmac k.vk.salt) f'))
