-- ===== src/Base/Maps.antt =====
-- A JavaScript `Map` with text keys, as an association list, and a `Set` of texts as a list.
use Prim.Native.String.{String}
use mathlib.Core.Path.{◌≡◌, refl}
use mathlib.Core.Bool.{◌||◌}
use mathlib.Core.Option.{Option, none, some}
use mathlib.Core.List.{List, [], ◌∷◌, ◌++◌}
use native.Mathlib.Omega.{arith}
use beerengineer.Base.Tests.{if◌then◌else◌}
use beerengineer.Base.Texts.{eq_text, eq_text_iff, has, has-append}

module _ {ℓ} {V : Type ℓ} where
  -- `m.get(k)`.
  unfoldable pub lookup : String → List (String × V) → Option V
  lookup k [] = none
  lookup k ((j, v) ∷ m) = if eq_text j k then some v else lookup k m

  -- `m.set(k, v)`: a key that is there keeps its place.
  unfoldable pub map_set : String → V → List (String × V) → List (String × V)
  map_set k v [] = (k, v) ∷ []
  map_set k v ((j, w) ∷ m) = if eq_text j k then (j, v) ∷ m else (j, w) ∷ map_set k v m

  -- `m.delete(k)`.
  unfoldable pub map_delete : String → List (String × V) → List (String × V)
  map_delete k [] = []
  map_delete k ((j, w) ∷ m) =
      let rest = map_delete k m in if eq_text j k then rest else (j, w) ∷ rest

  pub lookup-map_set :
      (k j : String) (v : V) (m : List (String × V))
      → lookup j (map_set k v m) ≡ (if eq_text k j then some v else lookup j m)
  unfolding lookup map_set
  lookup-map_set k j v [] = refl
  lookup-map_set k j v ((i, w) ∷ m) =
      ground (arith, eq_text_iff k j, eq_text_iff i k, eq_text_iff i j, lookup-map_set k j v m)

  pub lookup-map_delete :
      (k j : String) (m : List (String × V))
      → lookup j (map_delete k m) ≡ (if eq_text k j then none else lookup j m)
  unfolding lookup map_delete
  lookup-map_delete k j [] = ground arith
  lookup-map_delete k j ((i, w) ∷ m) =
      ground (arith, eq_text_iff k j, eq_text_iff i k, eq_text_iff i j, lookup-map_delete k j m)

-- `s.add(x)`.
unfoldable pub add_to : List String → String → List String
add_to s x = if has s x then s else s ++ x ∷ []

pub has-add_to : (s : List String) (x y : String) → has (add_to s x) y ≡ (has s y || eq_text x y)
unfolding add_to has
has-add_to s x y = ground (arith, eq_text_iff x y, has-append s (x ∷ []) y)
