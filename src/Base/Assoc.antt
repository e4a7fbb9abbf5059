-- ===== src/Base/Assoc.antt =====
-- Go maps with string keys, as association lists: `set` keeps one entry to a key.
use portico_gateway.Base.Tests.{if◌then◌else◌}
use portico_gateway.Base.Lists.{length}
use portico_gateway.Base.Text.{GoString, str_eq, str_eq_iff}
use Prim.Native.Nat.{◌+◌, ◌≤◌}
use mathlib.Core.Path.{◌≡◌, refl}
use mathlib.Core.Bool.{false}
use mathlib.Core.Option.{Option, none, some}
use mathlib.Core.List.{List, [], ◌∷◌}
use native.Mathlib.Omega.{arith}

abbrev pub Assoc {ℓ} : Type ℓ → Type ℓ
Assoc V = List (GoString × V)

module _ {ℓ} {V : Type ℓ} where
  -- `v, ok := m[k]`
  unfoldable pub lookup : GoString → Assoc V → Option V
  lookup k [] = none
  lookup k ((j, v) ∷ m) = if str_eq j k then some v else lookup k m

  -- `m[k] = v`
  unfoldable pub set : GoString → V → Assoc V → Assoc V
  set k v [] = (k, v) ∷ []
  set k v ((j, w) ∷ m) = let rest = set k v m in if str_eq j k then (k, v) ∷ m else (j, w) ∷ rest

  -- `delete(m, k)`
  unfoldable pub delete : GoString → Assoc V → Assoc V
  delete k [] = []
  delete k ((j, w) ∷ m) = let rest = delete k m in if str_eq j k then rest else (j, w) ∷ rest

  pub lookup-set :
      (k j : GoString) (v : V) (m : Assoc V)
      → lookup j (set k v m) ≡ (if str_eq k j then some v else lookup j m)
  unfolding lookup set
  lookup-set k j v [] = refl
  lookup-set k j v ((i, w) ∷ m) =
      ground (arith, str_eq_iff k j, str_eq_iff i k, str_eq_iff i j, lookup-set k j v m)

  pub lookup-delete :
      (k j : GoString) (m : Assoc V)
      → lookup j (delete k m) ≡ (if str_eq k j then none else lookup j m)
  unfolding lookup delete
  lookup-delete k j [] = ground arith
  lookup-delete k j ((i, w) ∷ m) =
      ground (arith, str_eq_iff k j, str_eq_iff i k, str_eq_iff i j, lookup-delete k j m)

  pub length-set-le : (k : GoString) (v : V) (m : Assoc V) → length (set k v m) ≤ length m + 1
  unfolding set
  length-set-le k v [] = omega arith
  length-set-le k v ((i, w) ∷ m) = ground (arith, length-set-le k v m)

  pub length-delete-le : (k : GoString) (m : Assoc V) → length (delete k m) ≤ length m
  unfolding delete
  length-delete-le k [] = omega arith
  length-delete-le k ((i, w) ∷ m) = ground (arith, length-delete-le k m)

  -- What a deletion leaves was there.
  pub lookup-delete-some :
      (k j : GoString) (m : Assoc V) {v : V}
      → lookup j (delete k m) ≡ some v
      → (str_eq k j ≡ false) × (lookup j m ≡ some v)
  lookup-delete-some k j m h = let e = lookup-delete k j m in (ground (arith, e), ground (arith, e))
