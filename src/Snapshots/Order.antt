-- ===== src/Snapshots/Order.antt =====
-- The fingerprint of a list of tools does not depend on the order in which the server lists them.
use mathlib.Core.List.{Perm, Permᴰ}
use mathlib.Core.Logic.{∥∥₁_elim}
use portico_gateway.Base.{
  str_lt, true, false, not, List, [], ◌∷◌, ◌≡◌, refl, sym, ap, ap₂, subst, ◌∙◌, ◌≢◌, inl, inr,
  arith, GoString, str_eq, str_eq_iff, Bool-cases, All, ◌==◌,
}
use portico_gateway.Snapshots.{Tool, insert_tool, sort_tools, server_tools_fingerprint}

-- Of two names that differ, exactly one is before the other.
str_lt_flip : (s t : GoString) → s ≢ t → str_lt s t ≡ not (str_lt t s)
unfolding str_lt
str_lt_flip [] [] h = absurd (h refl)
str_lt_flip [] (b ∷ t) h = refl
str_lt_flip (a ∷ s) [] h = refl
str_lt_flip (a ∷ s) (b ∷ t) h = elim (Bool-cases (a == b)) [
  | inl e ↦ let q : a ≡ b = ground arith in let ih = str_lt_flip s t (λ r. h (cc)) in ground arith
  | inr e ↦ ground arith
]

-- s ≤ u < t
str_lt_trans : (s t u : GoString) → str_lt u s ≡ false → str_lt u t ≡ true → str_lt s t ≡ true
unfolding str_lt
str_lt_trans [] [] u h k = absurd (cc)
str_lt_trans [] (b ∷ t) u h k = refl
str_lt_trans (a ∷ s) t [] h k = absurd (cc)
str_lt_trans (a ∷ s) [] (c ∷ u) h k = absurd (cc)
str_lt_trans (a ∷ s) (b ∷ t) (c ∷ u) h k = ground (arith, str_lt_trans s t u)

-- Tools of two names may be inserted in either order.
insert-insert :
    (x y : Tool) (zs : List Tool)
    → x.name ≢ y.name
    → insert_tool x (insert_tool y zs) ≡ insert_tool y (insert_tool x zs)
unfolding insert_tool
insert-insert x y [] h = let f = str_lt_flip x.name y.name h in ground arith
insert-insert x y (z ∷ zs) h =
    let f = str_lt_flip x.name y.name h in
    let ih = insert-insert x y zs h in
    ground (arith, str_lt_trans y.name x.name z.name, str_lt_trans x.name y.name z.name)

-- Each tool is the one that its name determines.
abbrev pub ByName : (GoString → Tool) → List Tool → Type 0
ByName pick tools = All (λ t. pick t.name ≡ t) tools

ByName-perm :
    (pick : GoString → Tool) {xs ys : List Tool} → Permᴰ xs ys → ByName pick xs → ByName pick ys
ByName-perm pick Permᴰ.nil h = tt
ByName-perm pick (Permᴰ.cons e p) h = (subst (λ t. pick t.name ≡ t) e h.0, ByName-perm pick p h.1)
ByName-perm pick (Permᴰ.swap e f) h =
    (subst (λ t. pick t.name ≡ t) f h.1.0, (subst (λ t. pick t.name ≡ t) e h.0, h.1.1))
ByName-perm pick (Permᴰ.trans p q) h = ByName-perm pick q (ByName-perm pick p h)

swap-sorted :
    (pick : GoString → Tool) (x y : Tool) (zs : List Tool)
    → pick x.name ≡ x
    → pick y.name ≡ y
    → insert_tool x (insert_tool y zs) ≡ insert_tool y (insert_tool x zs)
swap-sorted pick x y zs hx hy = elim (Bool-cases (str_eq x.name y.name)) [
  | inl e ↦
      let same : x ≡ y = sym hx ∙ (ap pick ((str_eq_iff x.name y.name).0 e) ∙ hy) in
      ap₂ (λ (a b : Tool). insert_tool a (insert_tool b zs)) same (sym same)
  | inr e ↦ insert-insert x y zs (λ q. cc ((str_eq_iff x.name y.name).1 q))
]

sort_tools-perm :
    (pick : GoString → Tool) {xs ys : List Tool}
    → Permᴰ xs ys
    → ByName pick xs
    → sort_tools xs ≡ sort_tools ys
unfolding sort_tools
sort_tools-perm pick Permᴰ.nil h = refl
sort_tools-perm pick (Permᴰ.cons e p) h = ap₂ insert_tool e (sort_tools-perm pick p h.1)
sort_tools-perm pick (Permᴰ.swap {l = l} e f) h =
    swap-sorted pick _ _ (sort_tools l) h.0 h.1.0
    ∙ ap₂ (λ (a b : Tool). insert_tool a (insert_tool b (sort_tools l))) f e
sort_tools-perm pick (Permᴰ.trans p q) h =
    sort_tools-perm pick p h ∙ sort_tools-perm pick q (ByName-perm pick p h)

GoString-set : IsSet GoString
GoString-set = hlevel

-- A permutation of the listing has the same fingerprint, if no two different tools of it share a
-- name.
pub server_tools_fingerprint-perm :
    (digest_tools : List Tool → GoString) (pick : GoString → Tool) (xs ys : List Tool)
    → Perm xs ys
    → ByName pick xs
    → server_tools_fingerprint digest_tools xs ≡ server_tools_fingerprint digest_tools ys
unfolding server_tools_fingerprint
server_tools_fingerprint-perm digest_tools pick xs ys p h =
    ∥∥₁_elim p (GoString-set _ _) (λ d. ap digest_tools (sort_tools-perm pick d h))
