-- ===== src/Policy/Glob/Laws.antt =====
-- Which names a list of patterns matches.

use portico_gateway.Base.{has_prefix-append}
use portico_gateway.Base.{
  true, false, List, [], ◌∷◌, ◌++◌, ◌≡◌, refl, ◌↔◌, inl, inr, subst, ap, arith, GoString, Memᴰ,
  is_empty, Bool-cases,
}
use portico_gateway.Policy.Glob.{ends_star, trim_star, matches, match_any}

match_any→pattern :
    (patterns : List GoString) (name : GoString)
    → match_any patterns name ≡ true
    → (p : GoString) × Memᴰ p patterns × (matches p name ≡ true)
unfolding match_any
match_any→pattern [] name h = absurd (cc)
match_any→pattern (p ∷ patterns) name h = elim (Bool-cases (matches p name)) [
  | inl e ↦ (p, Memᴰ.head refl, e)
  | inr e ↦ let (q, m, k) = match_any→pattern patterns name (ground arith) in (q, Memᴰ.tail m, k)
]

pattern→match_any :
    (p name : GoString) (patterns : List GoString)
    → Memᴰ p patterns
    → matches p name ≡ true
    → match_any patterns name ≡ true
unfolding match_any
pattern→match_any p name [] m h = elim m [ ]
pattern→match_any p name (q ∷ patterns) (Memᴰ.head e) h =
    ground (arith, subst (λ z. matches z name ≡ true) e h)
pattern→match_any p name (q ∷ patterns) (Memᴰ.tail m) h =
    ground (arith, pattern→match_any p name patterns m h)

-- A list of patterns matches a name exactly when one of them does.
pub match_any_iff :
    (patterns : List GoString) (name : GoString)
    → (match_any patterns name ≡ true)
      ↔ ((p : GoString) × Memᴰ p patterns × (matches p name ≡ true))
match_any_iff patterns name =
    (match_any→pattern patterns name, λ h. pattern→match_any h.0 name patterns h.1 h.2)

ends_star-append : (p : GoString) → ends_star (p ++ b'*' ∷ []) ≡ true
unfolding ends_star
ends_star-append [] = refl
ends_star-append (c ∷ []) = refl
ends_star-append (c ∷ d ∷ p) = ends_star-append (d ∷ p)

trim_star-append : (p : GoString) → trim_star (p ++ b'*' ∷ []) ≡ p
unfolding trim_star
trim_star-append [] = refl
trim_star-append (c ∷ []) = refl
trim_star-append (c ∷ d ∷ p) = ap (λ t. c ∷ t) (trim_star-append (d ∷ p))

is_empty-append : (p : GoString) → is_empty (p ++ b'*' ∷ []) ≡ false
is_empty-append [] = refl
is_empty-append (c ∷ p) = refl

-- A listed pattern that ends in a star matches every name that begins as the pattern does, across
-- dots and slashes, whatever `path.Match` says of it.
pub match_any-prefix :
    (p name : GoString) (patterns : List GoString)
    → Memᴰ (p ++ b'*' ∷ []) patterns
    → match_any patterns (p ++ name) ≡ true
match_any-prefix p name patterns m = pattern→match_any (p ++ b'*' ∷ []) (p ++ name) patterns m (
    unfold matches in
    ground
      (arith, is_empty-append p, ends_star-append p, trim_star-append p, has_prefix-append p name))
