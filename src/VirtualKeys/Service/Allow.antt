-- ===== src/VirtualKeys/Service/Allow.antt =====
-- What a key's allow lists allow.
use portico_gateway.Base.{
  true, List, [], ◌∷◌, ◌≡◌, refl, ◌↔◌, ◌⊎◌, inl, inr, GoString, Memᴰ, contains_iff,
}
use portico_gateway.VirtualKeys.Service.{
  Resolved, allowed, allows_provider, allows_model, allows_server, has_scope,
}

-- The list does not narrow, or it names the value.
abbrev pub Admits : List GoString → GoString → Type 0
Admits list v = (list ≡ []) ⊎ Memᴰ v list

allowed_iff : (list : List GoString) (v : GoString) → (allowed list v ≡ true) ↔ Admits list v
unfolding allowed
allowed_iff [] v = (λ h. inl refl, λ h. refl)
allowed_iff (x ∷ xs) v = (
  λ h. inr ((contains_iff (x ∷ xs) v).0 h),
  λ h. elim h [ inl e ↦ absurd (cc) | inr m ↦ (contains_iff (x ∷ xs) v).1 m ],
)

-- A key allows a provider, a model or a server exactly when its list is empty or names it; a scope
-- it has only if it is named, so an empty list of scopes has none.
pub allows_iff :
    (r : Resolved) (v : GoString)
    → ((allows_provider r v ≡ true) ↔ Admits r.provider_allowlist v)
      × ((allows_model r v ≡ true) ↔ Admits r.model_allowlist v)
      × ((allows_server r v ≡ true) ↔ Admits r.mcp_server_allowlist v)
      × ((has_scope r v ≡ true) ↔ Memᴰ v r.scopes)
unfolding allows_provider allows_model allows_server has_scope
allows_iff r v = (
  allowed_iff r.provider_allowlist v,
  allowed_iff r.model_allowlist v,
  allowed_iff r.mcp_server_allowlist v,
  contains_iff r.scopes v,
)
