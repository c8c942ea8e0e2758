-- ===== src/Base/GoMap.antt =====
-- Go's `map`, as its entries in some order. No key stands twice: `insert` replaces.
use Prim.Native.Nat.{◌+◌, ◌≤◌}
use mathlib.Core.Path.{◌≡◌, refl}
use mathlib.Core.Option.{Option, none, some}
use mathlib.Core.List.{List, [], ◌∷◌}
use native.Mathlib.Omega.{arith}
use blitz.Base.Tests.{Comparable, ◌==◌, if◌then◌else◌}
use blitz.Base.Lists.{length}

abbrev pub GoMap {ℓ κ} : Type ℓ → Type κ → Type (ℓ ⊔ κ)
GoMap K V = List (K × V)

module _ {ℓ κ} {K : Type ℓ} {V : Type κ} ⦃e : Comparable K⦄ where
  -- `v, ok := entries[key]`
  unfoldable pub lookup : K → GoMap K V → Option V
  lookup key [] = none
  lookup key ((first, v) ∷ rest) = if first == key then some v else lookup key rest

  -- `entries[key] = v`
  unfoldable pub insert : K → V → GoMap K V → GoMap K V
  insert key v [] = (key, v) ∷ []
  insert key v ((first, old) ∷ rest) =
      if first == key then (first, v) ∷ rest else (first, old) ∷ insert key v rest

  pub length-insert-le :
      (key : K) (v : V) (entries : GoMap K V) → length (insert key v entries) ≤ length entries + 1
  unfolding insert
  length-insert-le key v [] = omega arith
  length-insert-le key v ((first, old) ∷ rest) = ground (arith, length-insert-le key v rest)

  -- A read after a write.
  pub lookup-insert :
      (key other : K) (v : V) (entries : GoMap K V)
      → lookup other (insert key v entries)
        ≡ (if key == other then some v else lookup other entries)
  unfolding lookup insert
  lookup-insert key other v [] = refl
  lookup-insert key other v ((first, old) ∷ rest) = ground (
    arith,
    lookup-insert key other v rest,
    e.same_iff first key,
    e.same_iff first other,
    e.same_iff key other,
  )
