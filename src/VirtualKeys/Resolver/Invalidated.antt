-- ===== src/VirtualKeys/Resolver/Invalidated.antt =====
-- A key after its entries were dropped from the cache.
use portico_gateway.Base.{
  ℕ, Bool, true, none, some, [], ◌∷◌, ◌≡◌, ◌≢◌, inl, inr, subst, sym, ◌∙◌, arith, GoString, str_eq,
  str_eq_iff, Bool-cases, Option-cases,
}
use portico_gateway.Base.Assoc.{Assoc, lookup, delete, lookup-delete}
use portico_gateway.VirtualKeys.Token.{parse_token}
use portico_gateway.VirtualKeys.Store.{VirtualKey, VirtualKeys, lookup_virtual_key_by_id}
use portico_gateway.VirtualKeys.Service.{Resolved}
use portico_gateway.VirtualKeys.Resolver.{
  CacheEntry, Resolver, new_resolver, granted, hydrate, drop_vk, invalidate_vk, resolve,
}
use portico_gateway.VirtualKeys.Resolver.Steps.{Opens, Reach, next, drop}
use portico_gateway.VirtualKeys.Resolver.Sound.{
  Submap, Submap-drop_vk, Reach-AllVouched, resolve-Source, IsUnshared,
}

none-ne-some : (e : CacheEntry) → ¬ (none ≡ some e)
none-ne-some e h = cc

Submap-none :
    (h : GoString) (m n : Assoc CacheEntry) → Submap m n → lookup h n ≡ none → lookup h m ≡ none
Submap-none h m n s q = elim (Option-cases (lookup h m)) [
  | inl e ↦ e
  | inr (x, e) ↦ absurd (none-ne-some x (sym q ∙ s h x e))
]

lookup-drop_vk :
    (id h : GoString) (e : CacheEntry) (entries m : Assoc CacheEntry)
    → lookup h entries ≡ some e
    → e.vk_id ≡ id
    → lookup h (drop_vk id entries m) ≡ none
unfolding lookup drop_vk
lookup-drop_vk id h e [] m q v = absurd (cc)
lookup-drop_vk id h e ((k, x) ∷ entries) m q v = elim (Bool-cases (str_eq k h)) [
  | inl s ↦
      let same : x ≡ e = ground arith in
      let t : str_eq x.vk_id id ≡ true = ground (arith, same, str_eq_iff x.vk_id id) in
      rw t (
        Submap-none h _ (delete k m) (Submap-drop_vk id entries (delete k m))
          (ground (arith, lookup-delete k h m)))
  | inr s ↦ elim (Bool-cases (str_eq x.vk_id id)) [
    | inl t ↦ rw t (lookup-drop_vk id h e entries (delete k m) (rw s at q) v)
    | inr t ↦ rw t (lookup-drop_vk id h e entries m (rw s at q) v)
  ]
]

-- No entry of the key is left.
invalidate_vk-none :
    (id h : GoString) (e : CacheEntry) (r : Resolver)
    → lookup h (invalidate_vk id r).cache ≡ some e
    → e.vk_id ≢ id
unfolding invalidate_vk
invalidate_vk-none id h e r q v =
    let there = Submap-drop_vk id r.cache r.cache h e q in
    let gone = lookup-drop_vk id h e r.cache r.cache there v in
    absurd (none-ne-some e (sym gone ∙ q))

parsed_id :
    (token a b c d : GoString)
    → parse_token token ≡ some (a, b)
    → parse_token token ≡ some (c, d)
    → a ≡ c
parsed_id token a b c d p q = ground arith

module _ (compute_hmac : GoString → GoString → GoString) (token_hash : GoString → GoString)
    (Row : VirtualKey → Type 0) where
  -- A token of a key that has no entries left is judged by the row.
  pub invalidated-row :
      (ttl : ℕ) (again : Bool) (now later : ℕ) (id secret token pick : GoString)
      (rows : VirtualKeys) (r : Resolver) (res : Resolved)
      → Reach compute_hmac token_hash Row (new_resolver ttl) r
      → parse_token token ≡ some (id, secret)
      → IsUnshared compute_hmac token_hash token
      → (resolve compute_hmac token_hash again now later pick token rows (invalidate_vk id r)).1
        ≡ granted res
      → (row : VirtualKey) × (lookup_virtual_key_by_id id rows ≡ some row)
        × Opens compute_hmac token_hash token row
        × (res ≡ hydrate row)
  invalidated-row ttl again now later id secret token pick rows r res m p alone h =
      let s = invalidate_vk id r in
      elim (resolve-Source compute_hmac token_hash again now later pick token rows s res h) [
        | inl hit ↦
            let v =
              Reach-AllVouched compute_hmac token_hash Row ttl s (next m (drop id))
                (token_hash token) hit.entry hit.there in
            absurd (
              invalidate_vk-none id (token_hash token) hit.entry r hit.there (
                v.named
                ∙ parsed_id token v.vk.id v.opens.secret id secret
                    (subst (λ t. parse_token t ≡ some (v.vk.id, v.opens.secret))
                      (alone v.token v.hashed) v.opens.parsed)
                    p))
        | inr (id', secret', row, p', e, o, q) ↦
            let i : id' ≡ id = parsed_id token id' secret' id secret p' p in
            (row, subst (λ i. lookup_virtual_key_by_id i rows ≡ some row) i e, o, q)
      ]
