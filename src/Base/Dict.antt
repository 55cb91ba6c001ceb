-- ===== src/Base/Dict.antt =====
-- A JavaScript `Map` with string keys, as an association list.
use Prim.Native.String.{String}
use mathlib.Core.Path.{◌≡◌, refl}
use mathlib.Core.Bool.{Bool}
use mathlib.Core.Option.{Option, none, some}
use mathlib.Core.List.{List, [], ◌∷◌}
use native.Mathlib.Omega.{arith}
use enclave_gateway.Base.Tests.{if◌then◌else◌}
use enclave_gateway.Base.Text.{eqs}

module _ {ℓ} {V : Type ℓ} where
  -- `m.get(k)`, with `none` for undefined
  unfoldable pub lookup : String → List (String × V) → Option V
  lookup k [] = none
  lookup k ((j, v) ∷ m) = if eqs j k then some v else lookup k m

  -- `m.set(k, v)`
  unfoldable pub insert : String → V → List (String × V) → List (String × V)
  insert k v [] = (k, v) ∷ []
  insert k v ((j, w) ∷ m) = if eqs j k then (k, v) ∷ m else (j, w) ∷ insert k v m

  -- `m.delete(k)`
  unfoldable pub remove : String → List (String × V) → List (String × V)
  remove k [] = []
  remove k ((j, v) ∷ m) = if eqs j k then remove k m else (j, v) ∷ remove k m

  -- the deletions of a loop `for (const k of m.keys()) if (!p(k)) m.delete(k)`
  unfoldable pub retain : (String → Bool) → List (String × V) → List (String × V)
  retain p [] = []
  retain p ((j, v) ∷ m) = if p j then (j, v) ∷ retain p m else retain p m

  pub lookup-insert :
      (k j : String) (v : V) (m : List (String × V))
      → lookup j (insert k v m) ≡ (if eqs k j then some v else lookup j m)
  unfolding lookup insert
  lookup-insert k j v [] = refl
  lookup-insert k j v ((i, w) ∷ m) = ground (arith, lookup-insert k j v m)

  pub lookup-remove :
      (k j : String) (m : List (String × V))
      → lookup j (remove k m) ≡ (if eqs k j then none else lookup j m)
  unfolding lookup remove
  lookup-remove k j [] = ground arith
  lookup-remove k j ((i, w) ∷ m) = ground (arith, lookup-remove k j m)

  pub lookup-retain :
      (p : String → Bool) (j : String) (m : List (String × V))
      → lookup j (retain p m) ≡ (if p j then lookup j m else none)
  unfolding lookup retain
  lookup-retain p j [] = ground arith
  lookup-retain p j ((i, w) ∷ m) = ground (arith, lookup-retain p j m)
