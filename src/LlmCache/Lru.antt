-- ===== src/LlmCache/Lru.antt =====
-- The size and the order of the nodes.
use portico_gateway.Base.{
  ℕ, zero, suc, ◌≤◌, ◌<◌, none, some, List, [], ◌∷◌, ◌≡◌, ◌≢◌, refl, inl, inr, sym, ap, ◌∙◌, arith,
  GoString, str_eq, str_eq_iff, Bool-cases, ltb, leb, leb→le, ltb→lt, subst, length, take, All,
}
use portico_gateway.LlmCache.{
  Prefix, Node, find, remove, drop_back, evict_from, evict_locked, selects, purge,
}

take_all : (n : ℕ) (ns : List Node) → length ns ≤ n → take n ns ≡ ns
take_all zero [] le = refl
take_all (suc n) [] le = refl
take_all zero (x ∷ ns) le = absurd (omega (arith, le))
take_all (suc n) (x ∷ ns) le = ap (λ r. x ∷ r) (take_all n ns (omega (arith, le)))

length-drop_back : (x : Node) (ns : List Node) → length (drop_back (x ∷ ns)) ≡ length ns
unfolding drop_back
length-drop_back x [] = refl
length-drop_back x (y ∷ ns) = ap suc (length-drop_back y ns)

take-drop_back : (n : ℕ) (ns : List Node) → n < length ns → take n (drop_back ns) ≡ take n ns
unfolding drop_back
take-drop_back n [] lt = refl
take-drop_back zero (x ∷ ns) lt = refl
take-drop_back (suc n) (x ∷ []) lt = absurd (omega (arith, lt))
take-drop_back (suc n) (x ∷ y ∷ ns) lt =
    ap (λ r. x ∷ r) (take-drop_back n (y ∷ ns) (omega (arith, lt)))

drop_back-le : (ns : List Node) (f : ℕ) → length ns ≤ suc f → length (drop_back ns) ≤ f
drop_back-le [] f le = unfold drop_back in omega arith
drop_back-le (x ∷ ns) f le = omega (arith, length-drop_back x ns, le)

-- With as many turns as there are nodes, or more, the loop of evictLocked ends, and leaves the most
-- recently used nodes, as many as the cache may hold.
pub evict_from-take :
    (max f : ℕ) (ns : List Node) → length ns ≤ f → evict_from max f ns ≡ take max ns
unfolding evict_from
evict_from-take max zero ns le = sym (take_all max ns (omega (arith, le)))
evict_from-take max (suc f) ns le = elim (Bool-cases (ltb max (length ns))) [
  | inl e ↦ rw e (
      evict_from-take max f (drop_back ns) (drop_back-le ns f le)
      ∙ take-drop_back max ns (ltb→lt max (length ns) e))
  | inr e ↦ rw e (sym (take_all max ns (ground arith)))
]

-- The loop keeps the most recently used nodes, as many as the cache may hold.
pub evict_locked-take : (max : ℕ) (ns : List Node) → 0 < max → evict_locked max ns ≡ take max ns
unfolding evict_locked
evict_locked-take max ns pos = elim (Bool-cases (leb max 0)) [
  | inl e ↦ absurd (omega (arith, leb→le max 0 e, pos))
  | inr e ↦ rw e (evict_from-take max (length ns) ns (omega arith))
]

-- No node has the key.
abbrev pub Lacks : GoString → List Node → Type 0
Lacks k ns = All (λ (n : Node). n.key ≢ k) ns

-- No two nodes have one key.
abbrev pub Distinct : List Node → Type 0
Distinct [] = Unit
Distinct (n ∷ ns) = Lacks n.key ns × Distinct ns

-- What holds of every node holds of those that an operation leaves.
module _ {κ} (P : Node → Type κ) where
  pub All-take : (m : ℕ) (ns : List Node) → All P ns → All P (take m ns)
  All-take zero ns l = tt
  All-take (suc m) [] l = tt
  All-take (suc m) (n ∷ ns) l = (l.0, All-take m ns l.1)

  pub All-remove : (j : GoString) (ns : List Node) → All P ns → All P (remove j ns)
  unfolding remove
  All-remove j [] l = tt
  All-remove j (n ∷ ns) l = elim (Bool-cases (str_eq n.key j)) [
    | inl e ↦ rw e l.1
    | inr e ↦ rw e (l.0, All-remove j ns l.1)
  ]

  pub All-purge : (p : Prefix) (ns : List Node) → All P ns → All P (purge p ns).0
  unfolding purge
  All-purge p [] l = tt
  All-purge p (n ∷ ns) l = elim (Bool-cases (selects p n)) [
    | inl e ↦ rw e (All-purge p ns l.1)
    | inr e ↦ rw e (l.0, All-purge p ns l.1)
  ]

  pub All-find : (j : GoString) (ns : List Node) (n : Node) → All P ns → find j ns ≡ some n → P n
  unfolding find
  All-find j [] n l h = absurd (cc)
  All-find j (m ∷ ns) n l h = elim (Bool-cases (str_eq m.key j)) [
    | inl e ↦ let same : m ≡ n = ground arith in subst P same l.0
    | inr e ↦ All-find j ns n l.1 (rw e at h)
  ]

pub Distinct-take : (m : ℕ) (ns : List Node) → Distinct ns → Distinct (take m ns)
Distinct-take zero ns d = tt
Distinct-take (suc m) [] d = tt
Distinct-take (suc m) (n ∷ ns) d = (All-take (λ x. x.key ≢ n.key) m ns d.0, Distinct-take m ns d.1)

pub Distinct-remove : (j : GoString) (ns : List Node) → Distinct ns → Distinct (remove j ns)
unfolding remove
Distinct-remove j [] d = tt
Distinct-remove j (n ∷ ns) d = elim (Bool-cases (str_eq n.key j)) [
  | inl e ↦ rw e d.1
  | inr e ↦ rw e (All-remove (λ x. x.key ≢ n.key) j ns d.0, Distinct-remove j ns d.1)
]

-- A removed key is gone.
pub remove-Lacks : (j : GoString) (ns : List Node) → Distinct ns → Lacks j (remove j ns)
unfolding remove
remove-Lacks j [] d = tt
remove-Lacks j (n ∷ ns) d = elim (Bool-cases (str_eq n.key j)) [
  | inl e ↦ rw e (subst (λ k. Lacks k ns) ((str_eq_iff n.key j).0 e) d.0)
  | inr e ↦ rw e ((λ q. ground (arith, str_eq_iff n.key j)), remove-Lacks j ns d.1)
]

pub length-remove-le : (j : GoString) (ns : List Node) → length (remove j ns) ≤ length ns
unfolding remove
length-remove-le j [] = omega arith
length-remove-le j (n ∷ ns) = ground (arith, length-remove-le j ns)

pub length-remove-lt :
    (j : GoString) (ns : List Node) (n : Node)
    → find j ns ≡ some n
    → length (remove j ns) < length ns
unfolding remove find
length-remove-lt j [] n h = absurd (cc)
length-remove-lt j (m ∷ ns) n h = ground (arith, length-remove-lt j ns n)

pub find-key : (j : GoString) (ns : List Node) (n : Node) → find j ns ≡ some n → n.key ≡ j
unfolding find
find-key j [] n h = absurd (cc)
find-key j (m ∷ ns) n h = elim (Bool-cases (str_eq m.key j)) [
  | inl e ↦ ground (arith, str_eq_iff m.key j)
  | inr e ↦ find-key j ns n (rw e at h)
]

pub find-Lacks : (j : GoString) (ns : List Node) → find j ns ≡ none → Lacks j ns
unfolding find
find-Lacks j [] h = tt
find-Lacks j (n ∷ ns) h = elim (Bool-cases (str_eq n.key j)) [
  | inl e ↦ absurd (ground arith)
  | inr e ↦ ((λ q. ground (arith, str_eq_iff n.key j)), find-Lacks j ns (rw e at h))
]

pub Distinct-purge : (p : Prefix) (ns : List Node) → Distinct ns → Distinct (purge p ns).0
unfolding purge
Distinct-purge p [] d = tt
Distinct-purge p (n ∷ ns) d = elim (Bool-cases (selects p n)) [
  | inl e ↦ rw e (Distinct-purge p ns d.1)
  | inr e ↦ rw e (All-purge (λ x. x.key ≢ n.key) p ns d.0, Distinct-purge p ns d.1)
]

pub length-purge-le : (p : Prefix) (ns : List Node) → length (purge p ns).0 ≤ length ns
unfolding purge
length-purge-le p [] = omega arith
length-purge-le p (n ∷ ns) = ground (arith, length-purge-le p ns)
