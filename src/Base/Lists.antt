-- ===== src/Base/Lists.antt =====
-- Lists measured by native numbers, under the library's names, and predicates over their elements.
use Prim.Native.Nat.{ℕ, zero, suc, ◌+◌, ◌≤◌}
use mathlib.Core.Path.{◌≡◌}
use mathlib.Core.Bool.{true, Bool}
use mathlib.Core.List.{List, [], ◌∷◌, ◌++◌, map, Memᴰ, Permᴰ}
use native.Mathlib.Omega.{arith}
use mathlib.Core.List.Memᴰ
use mathlib.Core.Path.{refl, sym, ap, subst, ◌∙◌}
use mathlib.Core.Logic.{◌↔◌, ◌⊎◌, inl, inr}
use portico_gateway.Base.Tests.{if◌then◌else◌, Bool-cases}

module _ {ℓ} {A : Type ℓ} where
  abbrev pub length : List A → ℕ
  length [] = 0
  length (x ∷ xs) = suc (length xs)

  abbrev pub take : ℕ → List A → List A
  take zero xs = []
  take (suc n) [] = []
  take (suc n) (x ∷ xs) = x ∷ take n xs

  abbrev pub drop : ℕ → List A → List A
  drop zero xs = xs
  drop (suc n) [] = []
  drop (suc n) (x ∷ xs) = drop n xs

  -- The elements that pass a test, in their order.
  abbrev pub filter : (A → Bool) → List A → List A
  filter p [] = []
  filter p (x ∷ xs) = let rest = filter p xs in if p x then x ∷ rest else rest

  pub length-append : (xs ys : List A) → length (xs ++ ys) ≡ length xs + length ys
  length-append [] ys = omega arith
  length-append (x ∷ xs) ys = omega (arith, length-append xs ys)

module _ {ℓ} {A : Type ℓ} where
  pub length-filter-le : (p : A → Bool) (xs : List A) → length (filter p xs) ≤ length xs
  length-filter-le p [] = omega arith
  length-filter-le p (x ∷ xs) = ground (arith, length-filter-le p xs)

module _ {ℓ κ} {A : Type ℓ} (P : A → Type κ) where
  -- Every element satisfies `P`.
  abbrev pub All : List A → Type κ
  All [] = Unit
  All (x ∷ xs) = P x × All xs

  pub All-append : (xs ys : List A) → All xs → All ys → All (xs ++ ys)
  All-append [] ys h k = k
  All-append (x ∷ xs) ys h k = (h.0, All-append xs ys h.1 k)

-- What stands in a part stands in the whole.
module _ {ℓ} {A : Type ℓ} {x : A} where
  pub Memᴰ-append_left : (xs ys : List A) → Memᴰ x xs → Memᴰ x (xs ++ ys)
  Memᴰ-append_left [] ys m = elim m [ ]
  Memᴰ-append_left (y ∷ xs) ys (Memᴰ.head e) = Memᴰ.head e
  Memᴰ-append_left (y ∷ xs) ys (Memᴰ.tail m) = Memᴰ.tail (Memᴰ-append_left xs ys m)

  pub Memᴰ-append_right : (xs ys : List A) → Memᴰ x ys → Memᴰ x (xs ++ ys)
  Memᴰ-append_right [] ys m = m
  Memᴰ-append_right (y ∷ xs) ys m = Memᴰ.tail (Memᴰ-append_right xs ys m)

  pub Memᴰ-append : (xs ys : List A) → Memᴰ x (xs ++ ys) → Memᴰ x xs ⊎ Memᴰ x ys
  Memᴰ-append [] ys m = inr m
  Memᴰ-append (y ∷ xs) ys (Memᴰ.head e) = inl (Memᴰ.head e)
  Memᴰ-append (y ∷ xs) ys (Memᴰ.tail m) = elim (Memᴰ-append xs ys m) [
    | inl k ↦ inl (Memᴰ.tail k)
    | inr k ↦ inr k
  ]

-- A filter keeps exactly the elements that pass.
module _ {ℓ} {A : Type ℓ} (p : A → Bool) (x : A) where
  Memᴰ-filter : (xs : List A) → Memᴰ x (filter p xs) → Memᴰ x xs × (p x ≡ true)
  Memᴰ-filter [] m = elim m [ ]
  Memᴰ-filter (y ∷ xs) m = elim (Bool-cases (p y)) [
    | inl e ↦ elim (Memᴰ.cases_cons (rw e at m)) [
      | inl q ↦ (Memᴰ.head q, subst (λ z. p z ≡ true) (sym q) e)
      | inr r ↦ (Memᴰ.tail (Memᴰ-filter xs r).0, (Memᴰ-filter xs r).1)
    ]
    | inr e ↦ let r = Memᴰ-filter xs (rw e at m) in (Memᴰ.tail r.0, r.1)
  ]

  filter-Memᴰ : (xs : List A) → Memᴰ x xs → p x ≡ true → Memᴰ x (filter p xs)
  filter-Memᴰ [] m h = elim m [ ]
  filter-Memᴰ (y ∷ xs) (Memᴰ.head q) h = rw (subst (λ z. p z ≡ true) q h) (Memᴰ.head q)
  filter-Memᴰ (y ∷ xs) (Memᴰ.tail m) h = elim (Bool-cases (p y)) [
    | inl e ↦ rw e (Memᴰ.tail (filter-Memᴰ xs m h))
    | inr e ↦ rw e (filter-Memᴰ xs m h)
  ]

  pub mem-filter : (xs : List A) → Memᴰ x (filter p xs) ↔ (Memᴰ x xs × (p x ≡ true))
  mem-filter xs = (Memᴰ-filter xs, λ h. filter-Memᴰ xs h.0 h.1)

module _ {ℓ κ} {A : Type ℓ} {B : Type κ} where
  -- What a map holds is the image of an element.
  pub map_mem :
      (f : A → B) (y : B) (xs : List A) → Memᴰ y (map f xs) → (x : A) × (Memᴰ x xs × (y ≡ f x))
  map_mem f y [] m = elim m [ ]
  map_mem f y (x ∷ xs) m = elim (Memᴰ.cases_cons m) [
    | inl q ↦ (x, (Memᴰ.head refl, q))
    | inr r ↦ let (z, (k, q)) = map_mem f y xs r in (z, (Memᴰ.tail k, q))
  ]

  pub mem-map : (f : A → B) (x : A) (xs : List A) → Memᴰ x xs → Memᴰ (f x) (map f xs)
  mem-map f x [] m = elim m [ ]
  mem-map f x (z ∷ xs) (Memᴰ.head q) = Memᴰ.head (ap f q)
  mem-map f x (z ∷ xs) (Memᴰ.tail m) = Memᴰ.tail (mem-map f x xs m)

module _ {ℓ} {A : Type ℓ} where
  pub perm-mem : {x : A} {xs ys : List A} → Permᴰ xs ys → Memᴰ x xs → Memᴰ x ys
  perm-mem Permᴰ.nil m = m
  perm-mem (Permᴰ.cons e p) m = elim (Memᴰ.cases_cons m) [
    | inl q ↦ Memᴰ.head (q ∙ e)
    | inr r ↦ Memᴰ.tail (perm-mem p r)
  ]
  perm-mem (Permᴰ.swap e f) m = elim (Memᴰ.cases_cons m) [
    | inl q ↦ Memᴰ.tail (Memᴰ.head (q ∙ e))
    | inr r ↦ elim (Memᴰ.cases_cons r) [
      | inl q ↦ Memᴰ.head (q ∙ f)
      | inr k ↦ Memᴰ.tail (Memᴰ.tail k)
    ]
  ]
  perm-mem (Permᴰ.trans p q) m = perm-mem q (perm-mem p m)
