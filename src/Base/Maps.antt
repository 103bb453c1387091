-- ===== src/Base/Maps.antt =====
-- JavaScript's `Map` from texts, as an association list with one entry for each key.
use Prim.Native.String.{String}
use mathlib.Core.Path.{◌≡◌}
use mathlib.Core.Option.{Option, none, some}
use mathlib.Core.List.{List, [], ◌∷◌}
use native.Mathlib.Omega.{arith}
use text.Mathlib.Text.{◌==◌ as str_eq}
use text.Mathlib.TextEquality.{eq_iff}
use text.Mathlib.TextPositions.{eq_refl}
use constrainable.Base.Tests.{if◌then◌else◌}

module _ {ℓ} {V : Type ℓ} where
  -- m.get(k)
  unfoldable pub map_get : String → List (String × V) → Option V
  map_get k [] = none
  map_get k ((j, v) ∷ m) = if str_eq j k then some v else map_get k m

  -- m.delete(k)
  unfoldable pub map_delete : String → List (String × V) → List (String × V)
  map_delete k [] = []
  map_delete k ((j, v) ∷ m) = if str_eq j k then map_delete k m else (j, v) ∷ map_delete k m

  -- m.set(k, v)
  unfoldable pub map_set : String → V → List (String × V) → List (String × V)
  unfolding map_delete
  map_set k v m = (k, v) ∷ map_delete k m

  pub map_get-delete :
      (k j : String) (m : List (String × V))
      → map_get j (map_delete k m) ≡ (if str_eq k j then none else map_get j m)
  unfolding map_get map_delete
  map_get-delete k j [] = ground arith
  map_get-delete k j ((i, w) ∷ m) =
      ground (arith, map_get-delete k j m, eq_iff i k, eq_iff i j, eq_iff k j)

  pub map_get-set :
      (k j : String) (v : V) (m : List (String × V))
      → map_get j (map_set k v m) ≡ (if str_eq k j then some v else map_get j m)
  unfolding map_get map_set
  map_get-set k j v m = ground (arith, map_get-delete k j m)

  pub map_get-delete_self : (k : String) (m : List (String × V)) → map_get k (map_delete k m) ≡ none
  map_get-delete_self k m = simp (map_get-delete, eq_refl)

  pub map_get-set_self :
      (k : String) (v : V) (m : List (String × V)) → map_get k (map_set k v m) ≡ some v
  map_get-set_self k v m = simp (map_get-set, eq_refl)
