-- ===== src/Common/Maps.antt =====
-- Go maps as association lists with one entry for a key, behind the laws of `lookup`.
use mathlib.Core.Path.{◌≡◌, refl}
use mathlib.Core.Option.{Option, none, some}
use mathlib.Core.List.{List, [], ◌∷◌}
use native.Mathlib.Omega.{arith}
use go_simple_protocol_runti.Common.Tests.{Eq, ◌==◌, if◌then◌else◌}

abbrev pub Map {ℓ κ} : Type ℓ → Type κ → Type (ℓ ⊔ κ)
Map K V = List (K × V)

module _ {ℓ κ} {K : Type ℓ} {V : Type κ} ⦃e : Eq K⦄ where
  -- `v, ok := m[k]`
  unfoldable pub lookup : K → Map K V → Option V
  lookup k [] = none
  lookup k ((j, v) ∷ m) = if j == k then some v else lookup k m

  -- `m[k] = v`
  unfoldable pub insert : K → V → Map K V → Map K V
  insert key value [] = (key, value) ∷ []
  insert key value ((other, old) ∷ m) =
      if other == key then (key, value) ∷ m else (other, old) ∷ insert key value m

  -- `delete(m, k)`
  unfoldable pub delete : K → Map K V → Map K V
  delete k [] = []
  delete k ((j, w) ∷ m) = if j == k then delete k m else (j, w) ∷ delete k m

  pub lookup-insert :
      (key j : K) (value : V) (m : Map K V)
      → lookup j (insert key value m) ≡ (if key == j then some value else lookup j m)
  unfolding lookup insert
  lookup-insert key j value [] = refl
  lookup-insert key j value ((other, old) ∷ m) =
      ground (
        arith,
        e.beq_iff key j,
        e.beq_iff other key,
        e.beq_iff other j,
        lookup-insert key j value m,
      )

  pub lookup-delete :
      (k j : K) (m : Map K V) → lookup j (delete k m) ≡ (if k == j then none else lookup j m)
  unfolding lookup delete
  lookup-delete k j [] = ground arith
  lookup-delete k j ((i, w) ∷ m) =
      ground (arith, e.beq_iff k j, e.beq_iff i k, e.beq_iff i j, lookup-delete k j m)
