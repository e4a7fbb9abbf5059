-- ===== src/Base/Text.antt =====
-- Go strings, as the sequences of their bytes, with the functions of package strings in use.
use Prim.Native.Nat.{ℕ, zero, suc, ◌<◌}
use Prim.Native.Char.{code}
use Prim.Native.String.{String}
use mathlib.Core.Path.{subst, ap₂, ◌∙◌, ◌≡◌, refl, sym, ap}
use mathlib.Core.Logic.{inl, inr, ◌↔◌, ◌≢◌}
use mathlib.Core.Bool.{◌||◌, Bool, true, false, ◌&&◌}
use mathlib.Core.Option.{Option, none, some}
use mathlib.Core.List.{List, [], ◌∷◌, ◌++◌, Memᴰ}
use native.Mathlib.Omega.{arith}
use portico_gateway.Base.Tests.{◌==◌, ltb, if◌then◌else◌, Bool-cases, Option-cases}
use portico_gateway.Base.Lists.{length, take, drop}

abbrev pub GoString : Type 0
GoString = List ℕ

-- The bytes of an ASCII literal.
abbrev pub codes : String → GoString
codes String.[] = []
codes (String.◌∷◌ c s) = code c ∷ codes s

-- `s == t`
unfoldable pub str_eq : GoString → GoString → Bool
str_eq [] [] = true
str_eq [] (b ∷ t) = false
str_eq (a ∷ s) [] = false
str_eq (a ∷ s) (b ∷ t) = (a == b) && str_eq s t

-- `s == ""`
abbrev pub is_empty : GoString → Bool
is_empty [] = true
is_empty (a ∷ s) = false

str_eq→≡ : (s t : GoString) → str_eq s t ≡ true → s ≡ t
unfolding str_eq
str_eq→≡ [] [] h = refl
str_eq→≡ [] (b ∷ t) h = cc
str_eq→≡ (a ∷ s) [] h = cc
str_eq→≡ (a ∷ s) (b ∷ t) h = ground (arith, str_eq→≡ s t)

pub str_eq_refl : (s : GoString) → str_eq s s ≡ true
unfolding str_eq
str_eq_refl [] = refl
str_eq_refl (a ∷ s) = ground (arith, str_eq_refl s)

pub str_eq_iff : (s t : GoString) → (str_eq s t ≡ true) ↔ (s ≡ t)
str_eq_iff s t = (str_eq→≡ s t, λ e. rw e (str_eq_refl t))

-- `strings.HasPrefix(s, p)`
unfoldable pub has_prefix : GoString → GoString → Bool
has_prefix s [] = true
has_prefix [] (b ∷ p) = false
has_prefix (a ∷ s) (b ∷ p) = (a == b) && has_prefix s p

pub has_prefix-append : (p s : GoString) → has_prefix (p ++ s) p ≡ true
unfolding has_prefix
has_prefix-append [] s = refl
has_prefix-append (c ∷ p) s = ground (arith, has_prefix-append p s)

pub drop-append : (p s : GoString) → drop (length p) (p ++ s) ≡ s
drop-append [] s = refl
drop-append (c ∷ p) s = drop-append p s

-- What stands behind a prefix that is there.
pub has_prefix-drop : (s p : GoString) → has_prefix s p ≡ true → s ≡ p ++ drop (length p) s
unfolding has_prefix
has_prefix-drop s [] h = refl
has_prefix-drop [] (b ∷ p) h = cc
has_prefix-drop (a ∷ s) (b ∷ p) h = ground (arith, has_prefix-drop s p)

-- `strings.IndexByte(s, c)`, with `none` for -1.
unfoldable pub index_byte : GoString → ℕ → Option ℕ
index_byte [] c = none
index_byte (a ∷ s) c =
    if a == c then some 0 else elim (index_byte s c) [ none ↦ none | some i ↦ some (suc i) ]

-- `strings.Cut(s, sep)` for a separator of one byte.
unfoldable pub cut : GoString → ℕ → Option (GoString × GoString)
cut s sep = elim (index_byte s sep) [ none ↦ none | some i ↦ some (take i s, drop (suc i) s) ]

-- The byte does not occur.
abbrev pub Without : ℕ → GoString → Type 0
Without sep [] = Unit
Without sep (a ∷ s) = (a ≢ sep) × Without sep s

pub index_byte-append :
    (c : ℕ) (s t : GoString) → Without c s → index_byte (s ++ c ∷ t) c ≡ some (length s)
unfolding index_byte
index_byte-append c [] t h = ground arith
index_byte-append c (a ∷ s) t h = ground (arith, index_byte-append c s t h.1)

pub take-length-append : (s t : GoString) → take (length s) (s ++ t) ≡ s
take-length-append [] t = refl
take-length-append (a ∷ s) t = ap (λ r. a ∷ r) (take-length-append s t)

pub drop-length-append : (s t : GoString) (c : ℕ) → drop (suc (length s)) (s ++ c ∷ t) ≡ t
drop-length-append [] t c = refl
drop-length-append (a ∷ s) t c = drop-length-append s t c

-- What a found index says of the text: it stands at the first occurrence.
pub record SplitsAt (q : GoString) (c i : ℕ) : Type 0 where
  pub whole : q ≡ take i q ++ c ∷ drop (suc i) q
  pub first : Without c (take i q)
  pub at : length (take i q) ≡ i
  pub inside : i < length q

index_byte_head : (a c : ℕ) (q : GoString) → index_byte (a ∷ q) c ≡ some 0 → a ≡ c
unfolding index_byte
index_byte_head a c q h = ground arith

index_byte_tail :
    (a c i : ℕ) (q : GoString)
    → index_byte (a ∷ q) c ≡ some (suc i)
    → (a ≢ c) × (index_byte q c ≡ some i)
unfolding index_byte
index_byte_tail a c i q h = (ground arith, ground arith)

pub index_byte-SplitsAt : (q : GoString) (c i : ℕ) → index_byte q c ≡ some i → SplitsAt q c i
index_byte-SplitsAt [] c i h = absurd (unfold index_byte in cc)
index_byte-SplitsAt (a ∷ q) c zero h = record {
  whole = ap (λ x. x ∷ q) (index_byte_head a c q h);
  first = tt;
  at = refl;
  inside = omega arith;
}
index_byte-SplitsAt (a ∷ q) c (suc i) h =
    let (ne, e) = index_byte_tail a c i q h in
    let r = index_byte-SplitsAt q c i e in
    record {
      whole = ap (λ t. a ∷ t) r.whole;
      first = (ne, r.first);
      at = ap suc r.at;
      inside = omega (arith, r.inside);
    }

-- A text that holds the byte nowhere has no index.
pub index_byte-eq-none : (q : GoString) (c : ℕ) → index_byte q c ≡ none → Without c q
unfolding index_byte
index_byte-eq-none [] c h = tt
index_byte-eq-none (a ∷ q) c h = (ground arith, index_byte-eq-none q c (ground arith))

cut-eq-some :
    (q : GoString) (c : ℕ) (s t : GoString) → cut q c ≡ some (s, t) → (q ≡ s ++ c ∷ t) × Without c s
unfolding cut
cut-eq-some q c s t h = elim (Option-cases (index_byte q c)) [
  | inl e ↦ absurd (ground arith)
  | inr (i, e) ↦
      let r = index_byte-SplitsAt q c i e in
      let ps : take i q ≡ s = ground arith in
      let pt : drop (suc i) q ≡ t = ground arith in
      (r.whole ∙ ap₂ (λ (a b : GoString). a ++ c ∷ b) ps pt, subst (Without c) ps r.first)
]

cut-append : (c : ℕ) (s t : GoString) → Without c s → cut (s ++ c ∷ t) c ≡ some (s, t)
unfolding cut
cut-append c s t h =
    ground
      (arith, index_byte-append c s t h, take-length-append s (c ∷ t), drop-length-append s t c)

-- A text is cut exactly where it is joined at the first separator.
pub cut_iff :
    (q : GoString) (c : ℕ) (s t : GoString)
    → (cut q c ≡ some (s, t)) ↔ ((q ≡ s ++ c ∷ t) × Without c s)
cut_iff q c s t = (cut-eq-some q c s t, λ h. rw h.0 (cut-append c s t h.1))

-- Two texts that are joined at a separator can be read back, if the first holds no separator.
pub join_injective :
    (c : ℕ) (s t u v : GoString)
    → Without c s
    → Without c u
    → s ++ c ∷ t ≡ u ++ c ∷ v
    → (s ≡ u) × (t ≡ v)
join_injective c s t u v hs hu e =
    let a = (cut_iff (s ++ c ∷ t) c s t).1 (refl, hs) in
    let b = (cut_iff (s ++ c ∷ t) c u v).1 (e, hu) in (ground arith, ground arith)

-- The search loop that the packages write out each for itself.
unfoldable pub contains : List GoString → GoString → Bool
contains [] want = false
contains (s ∷ ss) want = str_eq s want || contains ss want

contains→Memᴰ : (ss : List GoString) (w : GoString) → contains ss w ≡ true → Memᴰ w ss
unfolding contains
contains→Memᴰ [] w h = absurd (cc)
contains→Memᴰ (s ∷ ss) w h = elim (Bool-cases (str_eq s w)) [
  | inl e ↦ Memᴰ.head (sym ((str_eq_iff s w).0 e))
  | inr e ↦ Memᴰ.tail (contains→Memᴰ ss w (ground arith))
]

Memᴰ→contains : (w : GoString) (ss : List GoString) → Memᴰ w ss → contains ss w ≡ true
unfolding contains
Memᴰ→contains w [] m = elim m [ ]
Memᴰ→contains w (s ∷ ss) (Memᴰ.head e) = ground (arith, str_eq_iff s w)
Memᴰ→contains w (s ∷ ss) (Memᴰ.tail m) = ground (arith, Memᴰ→contains w ss m)

pub contains_iff : (ss : List GoString) (w : GoString) → (contains ss w ≡ true) ↔ Memᴰ w ss
contains_iff ss w = (contains→Memᴰ ss w, Memᴰ→contains w ss)

pub is_empty-ne-nil : (s : GoString) → is_empty s ≡ false → s ≢ []
is_empty-ne-nil [] h = cc
is_empty-ne-nil (c ∷ s) h = cc

pub length-pos : (s : GoString) → s ≢ [] → 0 < length s
length-pos [] h = absurd (h refl)
length-pos (c ∷ s) h = omega arith

pub is_empty-nil : (s : GoString) → is_empty s ≡ true → s ≡ []
is_empty-nil [] h = refl
is_empty-nil (c ∷ s) h = cc

-- `s < t` on Go strings.
unfoldable pub str_lt : GoString → GoString → Bool
str_lt s [] = false
str_lt [] (b ∷ t) = true
str_lt (a ∷ s) (b ∷ t) = if a == b then str_lt s t else ltb a b
