-- ===== src/Base/Maps.antt =====
-- Maps with numbers for keys, as association lists in the order of the first insertions.
use Prim.Native.Nat.{ℕ}
use mathlib.Core.Path.{◌≡◌, refl}
use mathlib.Core.Option.{Option, none, some}
use mathlib.Core.List.{List, [], ◌∷◌}
use native.Mathlib.Omega.{arith}
use gem_macro_optimization.Base.Tests.{◌==◌, if◌then◌else◌}

module _ {ℓ} {V : Type ℓ} where
  -- `map.get(&k)`
  unfoldable pub map_get : List (ℕ × V) → ℕ → Option V
  map_get [] k = none
  map_get ((j, v) ∷ m) k = if j == k then some v else map_get m k

  -- `map.insert(k, v)`: a key that is there keeps its place.
  unfoldable pub map_insert : List (ℕ × V) → ℕ → V → List (ℕ × V)
  map_insert [] k v = (k, v) ∷ []
  map_insert ((j, w) ∷ m) k v = if j == k then (k, v) ∷ m else (j, w) ∷ map_insert m k v

  pub map_get-map_insert :
      (m : List (ℕ × V)) (k j : ℕ) (v : V)
      → map_get (map_insert m k v) j ≡ (if k == j then some v else map_get m j)
  unfolding map_get map_insert
  map_get-map_insert [] k j v = refl
  map_get-map_insert ((i, w) ∷ m) k j v = ground (arith, map_get-map_insert m k j v)
