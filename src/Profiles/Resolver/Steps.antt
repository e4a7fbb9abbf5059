-- ===== src/Profiles/Resolver/Steps.antt =====
-- The interleavings of the critical sections of resolver.go, over any calls of the resolver.
use portico_gateway.Base.{
  ℕ, Option, none, some, ◌≡◌, ◌⊎◌, GoString, refl, inl, inr, Bool-cases, is_empty,
}
use portico_gateway.Profiles.{AgentProfile, Profile, default_profile, from_store}
use portico_gateway.Profiles.Resolver.{
  Principal, Answer, found, not_found, failed, BindingStore, Resolver, key, cached, put_cache,
  invalidate, answer, after_cached, resolve,
}

-- `Calls t` says that a principal of the tenant calls the resolver, `Row t s row` that the store has
-- answered the row, at some time, for the tenant and the subject.
module _ (Calls : GoString → Type 0)
    (Row : GoString → GoString → Option AgentProfile → Type 0) where
  -- The profiles that `Resolve` may write for a principal.
  abbrev pub Answers : Principal → Option Profile → Type 0
  Answers p prof =
      (prof ≡ some (default_profile p.tenant_id))
      ⊎ ((row : Option AgentProfile) × Row p.tenant_id p.subject row × (prof ≡ from_store row))

  pub data Step (r : Resolver) : Resolver → Type 0 where
    read : (now : ℕ) (k : GoString) → Step r (cached now k r).0
    write :
        (now : ℕ) (p : Principal) (prof : Option Profile)
        → Calls p.tenant_id
        → Answers p prof
        → Step r (put_cache now (key p.tenant_id p.subject) prof r)
    drop : (tenant profile : GoString) → Step r (invalidate tenant profile r)

  pub data Reach (r : Resolver) : Resolver → Type 0 where
    here : Reach r r
    next : {s t : Resolver} → Reach r s → Step s t → Reach r t

  -- What a store answers a principal now is among the rows.
  abbrev pub Answered : BindingStore → Principal → Type 0
  Answered store p =
      (row : Option AgentProfile)
      → store p.tenant_id p.subject ≡ found row
      → Row p.tenant_id p.subject row

  module _ (store : BindingStore) where
    answer-Reach :
        (now : ℕ) (p : Principal) (r s : Resolver) (a : Answer)
        → Calls p.tenant_id
        → Answered store p
        → store p.tenant_id p.subject ≡ a
        → Reach r s
        → Reach r (answer now p a s).0
    unfolding answer
    answer-Reach now p r s (found row) w k e h =
        next h (write now p (from_store row) w (inr (row, k row e, refl)))
    answer-Reach now p r s not_found w k e h =
        next h (write now p (some (default_profile p.tenant_id)) w (inl refl))
    answer-Reach now p r s (failed x) w k e h = h

    after_cached-Reach :
        (now : ℕ) (p : Principal) (hit : Option Profile) (r s : Resolver)
        → Calls p.tenant_id
        → Answered store p
        → Reach r s
        → Reach r (after_cached store now p hit s).0
    unfolding after_cached
    after_cached-Reach now p (some prof) r s w k h = h
    after_cached-Reach now p none r s w k h = elim (Bool-cases (is_empty p.subject)) [
      | inl e ↦ rw e (next h (write now p (some (default_profile p.tenant_id)) w (inl refl)))
      | inr e ↦ rw e (answer-Reach now p r s (store p.tenant_id p.subject) w k refl h)
    ]

    -- A call of `resolve` is one of these sequences of steps.
    pub resolve-Reach :
        (t u : ℕ) (p : Principal) (r : Resolver)
        → Calls p.tenant_id
        → Answered store p
        → Reach r (resolve store t u p r).0
    unfolding resolve
    resolve-Reach t u p r w k = elim (Bool-cases (is_empty p.tenant_id)) [
      | inl e ↦ rw e here
      | inr e ↦ rw e (
          let (r', hit) = cached t (key p.tenant_id p.subject) r in
          after_cached-Reach u p hit r r' w k (next here (read t (key p.tenant_id p.subject))))
    ]
