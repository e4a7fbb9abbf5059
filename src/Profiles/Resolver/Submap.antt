-- ===== src/Profiles/Resolver/Submap.antt =====
-- Evictions and invalidations only take entries away.
use portico_gateway.Base.{
  subst, ℕ, false, some, List, [], ◌∷◌, ◌≡◌, arith, ltb, GoString, str_eq, length, Bool-cases, inl,
  inr,
}
use portico_gateway.Base.Assoc.{Assoc, lookup, delete, lookup-delete-some}
use portico_gateway.Profiles.Resolver.{CacheEntry, evict, drop_stale, is_stale}

-- Every entry of the first map stands in the second.
abbrev pub Submap : Assoc CacheEntry → Assoc CacheEntry → Type 0
Submap m n = (j : GoString) (e : CacheEntry) → lookup j m ≡ some e → lookup j n ≡ some e

pub Submap-delete : (k : GoString) (m : Assoc CacheEntry) → Submap (delete k m) m
Submap-delete k m j e h = (lookup-delete-some k j m h).1

pub Submap-evict :
    (n : ℕ) (m : Assoc CacheEntry) (order : List GoString) → Submap (evict n m order).0 m
unfolding evict
Submap-evict n m [] j e h = h
Submap-evict n m (k ∷ order) j e h = elim (Bool-cases (ltb n (length m))) [
  | inl q ↦ Submap-delete k m j e (Submap-evict n (delete k m) order j e (rw q at h))
  | inr q ↦ rw q at h
]

pub Submap-drop_stale :
    (tenant profile : GoString) (entries m : Assoc CacheEntry)
    → Submap (drop_stale tenant profile entries m) m
unfolding drop_stale
Submap-drop_stale tenant profile [] m j e h = h
Submap-drop_stale tenant profile ((k, x) ∷ entries) m j e h =
    elim (Bool-cases (is_stale tenant profile x.profile)) [
      | inl q ↦
          Submap-delete k m j e
            (Submap-drop_stale tenant profile entries (delete k m) j e (rw q at h))
      | inr q ↦ Submap-drop_stale tenant profile entries m j e (rw q at h)
    ]

-- An entry that an invalidation leaves is not one that it selects.
pub drop_stale-fresh :
    (tenant profile : GoString) (entries m : Assoc CacheEntry) (j : GoString) (e : CacheEntry)
    → lookup j entries ≡ some e
    → lookup j (drop_stale tenant profile entries m) ≡ some e
    → is_stale tenant profile e.profile ≡ false
unfolding drop_stale lookup
drop_stale-fresh tenant profile [] m j e h l = absurd (cc)
drop_stale-fresh tenant profile ((k, x) ∷ entries) m j e h l = elim (Bool-cases (str_eq k j)) [
  | inl same ↦
      let x≡e : x ≡ e = ground arith in
      elim (Bool-cases (is_stale tenant profile x.profile)) [
        | inl q ↦
            let kept = Submap-drop_stale tenant profile entries (delete k m) j e (rw q at l) in
            absurd (ground (arith, (lookup-delete-some k j m kept).0))
        | inr q ↦ subst (λ z. is_stale tenant profile z.profile ≡ false) x≡e q
      ]
  | inr other ↦ drop_stale-fresh tenant profile entries _ j e (ground arith) l
]
