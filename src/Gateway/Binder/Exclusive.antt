-- ===== src/Gateway/Binder/Exclusive.antt =====
-- At most one call of a session creates at a time.
use portico_gateway.Base.{
  ℕ, ◌==◌, Bool, true, false, Option, none, some, ◌≡◌, ◌≢◌, refl, sym, ap, subst, ◌∙◌, inl, inr,
  arith, GoString, str_eq, str_eq_iff, str_eq_refl, Bool-cases, ◌⊎◌,
}
use mathlib.Core.Option.{some-injective}
use portico_gateway.Base.Assoc.{lookup, set, lookup-set, lookup-delete}
use portico_gateway.Snapshots.{Snapshot}
use portico_gateway.Gateway.Binder.{
  SnapshotBinder, Progress, begun, missed, creating, made, leaving, waiting, answered, after_look,
  look, claim_at, claim, bind, release, reread, forget,
}
use portico_gateway.Gateway.Binder.Steps.{
  World, put, Step, looks, claims, creates, binds, releases, wakes, gives_up, forgets, Reach, start,
  next,
}

-- The call is between its claim and its release.
abbrev pub is_owner : Progress → Bool
is_owner creating = true
is_owner (made r) = true
is_owner (leaving r) = true
is_owner begun = false
is_owner missed = false
is_owner (waiting c) = false
is_owner (answered r) = false

pub put_cases :
    (i j : ℕ) (p : Progress) (calls : ℕ → Progress)
    → ((i ≡ j) × (put i p calls j ≡ p)) ⊎ ((i ≢ j) × (put i p calls j ≡ calls j))
unfolding put
put_cases i j p calls = elim (Bool-cases (i == j)) [
  | inl e ↦ inl (ground arith, rw e refl)
  | inr e ↦ inr ((λ q. ground arith), rw e refl)
]

module _ (session : ℕ → GoString) where
  -- A call that is_owner stands in `pending` under its session.
  abbrev Owned : SnapshotBinder → (ℕ → Progress) → Type 0
  Owned b calls = (j : ℕ) → is_owner (calls j) ≡ true → lookup (session j) b.pending ≡ some j

  -- A call that goes on without the claim, or keeps it, leaves the others theirs.
  moved :
      (b c : SnapshotBinder) (calls : ℕ → Progress) (i : ℕ) (p : Progress)
      → c.pending ≡ b.pending
      → (is_owner p ≡ true → is_owner (calls i) ≡ true)
      → Owned b calls
      → Owned c (put i p calls)
  moved b c calls i p same keep h j o =
      ap (lookup (session j)) same ∙ elim (put_cases i j p calls) [
        | inl (q, e) ↦
            subst (λ k. lookup (session k) b.pending ≡ some k) q
              (h i (keep (ap is_owner (sym e) ∙ o)))
        | inr (ne, e) ↦ h j (ap is_owner (sym e) ∙ o)
      ]

  claim_at-Owned :
      (b : SnapshotBinder) (calls : ℕ → Progress) (i : ℕ) (o : Option ℕ)
      → lookup (session i) b.pending ≡ o
      → Owned b calls
      → Owned (claim_at i (session i) b o).0 (put i (claim_at i (session i) b o).1 calls)
  unfolding claim_at
  claim_at-Owned b calls i none e h = λ j o. elim (put_cases i j creating calls) [
    | inl (q, f) ↦
        subst (λ k. lookup (session k) (set (session i) i b.pending) ≡ some k) q
          (lookup-set (session i) (session i) i b.pending ∙ rw (str_eq_refl (session i)) refl)
    | inr (ne, f) ↦
        let mine = h j (ap is_owner (sym f) ∙ o) in
        lookup-set (session i) (session j) i b.pending
        ∙ elim (Bool-cases (str_eq (session i) (session j))) [
          | inl q ↦
              let same = ap (λ s. lookup s b.pending) ((str_eq_iff (session i) (session j)).0 q) in
              absurd (cc)
          | inr q ↦ rw q mine
        ]
  ]
  claim_at-Owned b calls i (some ch) e h = moved b b calls i (waiting ch) refl (λ q. absurd (cc)) h

  release-Owned :
      (b : SnapshotBinder) (calls : ℕ → Progress) (i : ℕ) (r : Option Snapshot)
      → is_owner (calls i) ≡ true
      → Owned b calls
      → Owned (release i (session i) b) (put i (answered r) calls)
  unfolding release
  release-Owned b calls i r own h j o = elim (put_cases i j (answered r) calls) [
    | inl (q, f) ↦ absurd (cc)
    | inr (ne, f) ↦
        let mine = h j (ap is_owner (sym f) ∙ o) in
        lookup-delete (session i) (session j) b.pending
        ∙ elim (Bool-cases (str_eq (session i) (session j))) [
          | inl q ↦
              let same = ap (λ s. lookup s b.pending) ((str_eq_iff (session i) (session j)).0 q) in
              absurd (ne (some-injective _ _ (sym (h i own) ∙ (same ∙ mine))))
          | inr q ↦ rw q mine
        ]
  ]

  after_look-is_owner : (o : Option Snapshot) → is_owner (after_look o) ≡ false
  after_look-is_owner none = refl
  after_look-is_owner (some s) = refl

  look-is_owner : (id : GoString) (b : SnapshotBinder) → is_owner (look id b) ≡ false
  unfolding look
  look-is_owner id b = elim (Bool-cases b.service) [
    | inl e ↦ rw e (after_look-is_owner (lookup id b.bindings))
    | inr e ↦ rw e refl
  ]

  bind-pending :
      (id : GoString) (r : Option Snapshot) (b : SnapshotBinder) → (bind id r b).pending ≡ b.pending
  unfolding bind
  bind-pending id none b = refl
  bind-pending id (some s) b = refl

  Step-Owned :
      (w v : World) → Step session w v → Owned w.binder w.progress → Owned v.binder v.progress
  unfolding claim forget
  Step-Owned _ _ (looks {b} {calls} i e) h =
      moved b b calls i (look (session i) b) refl (λ q. absurd (cc (look-is_owner (session i) b))) h
  Step-Owned _ _ (claims {b} {calls} i e) h =
      claim_at-Owned b calls i (lookup (session i) b.pending) refl h
  Step-Owned _ _ (creates {b} {calls} i r e) h =
      moved b b calls i (made r) refl (λ q. ap is_owner e) h
  Step-Owned _ _ (binds {b} {calls} i r e) h =
      moved b (bind (session i) r b) calls i (leaving r) (bind-pending (session i) r b)
        (λ q. ap is_owner e) h
  Step-Owned _ _ (releases {b} {calls} i r e) h = release-Owned b calls i r (ap is_owner e) h
  Step-Owned _ _ (wakes {b} {calls} i ch e m) h =
      moved b b calls i (answered (reread (session i) b)) refl (λ q. absurd (cc)) h
  Step-Owned _ _ (gives_up {b} {calls} i ch e) h =
      moved b b calls i (answered none) refl (λ q. absurd (cc)) h
  Step-Owned _ _ (forgets {b} {calls} id) h = h

  Reach-Owned : (service : Bool) (w : World) → Reach session service w → Owned w.binder w.progress
  Reach-Owned service _ start j o = absurd (cc)
  Reach-Owned service _ (next {w} {v} r s) j o = Step-Owned w v s (Reach-Owned service w r) j o

-- However the calls of Get and Forget interleave, of two calls for one session at most one is
-- between its claim and its release, where it creates the snapshot and binds it.
pub Reach-Exclusive :
    (session : ℕ → GoString) (service : Bool) (w : World) (i j : ℕ)
    → Reach session service w
    → session i ≡ session j
    → is_owner (w.progress i) ≡ true
    → is_owner (w.progress j) ≡ true
    → i ≡ j
Reach-Exclusive session service w i j r same o p =
    let all = Reach-Owned session service w r in
    some-injective _ _ (sym (all i o) ∙ (ap (λ s. lookup s w.binder.pending) same ∙ all j p))
