-- ===== src/Base/Maps.antt =====
-- `HashMap<String, V>` as a list of pairs with distinct keys.
use Prim.Native.String.{String}
use mathlib.Core.Path.{◌≡◌}
use mathlib.Core.Option.{Option, none, some}
use mathlib.Core.List.{List, [], ◌∷◌}
use native.Mathlib.Omega.{arith}
use text.Mathlib.Text.{◌==◌}
use text.Mathlib.TextEquality.{eq_iff}
use ocpp_proxy.Base.Tests.{if◌then◌else◌}

module _ {ℓ} {V : Type ℓ} where
  -- `map.remove(key)`
  unfoldable pub remove : String → List (String × V) → List (String × V)
  remove key [] = []
  remove key ((at, value) ∷ rest) =
      if at == key then remove key rest else (at, value) ∷ remove key rest

  -- `map.get(key)`
  unfoldable pub lookup : String → List (String × V) → Option V
  lookup key [] = none
  lookup key ((at, value) ∷ rest) = if at == key then some value else lookup key rest

  -- `map.insert(key, value)`
  unfoldable pub insert : String → V → List (String × V) → List (String × V)
  unfolding remove
  insert key value entries = (key, value) ∷ remove key entries

  pub lookup-remove :
      (removed key : String) (entries : List (String × V))
      → lookup key (remove removed entries) ≡ (if removed == key then none else lookup key entries)
  unfolding lookup remove
  lookup-remove removed key [] = ground arith
  lookup-remove removed key ((at, value) ∷ rest) =
      ground (
        arith,
        lookup-remove removed key rest,
        eq_iff at removed,
        eq_iff at key,
        eq_iff removed key,
      )

  pub lookup-insert :
      (added key : String) (value : V) (entries : List (String × V))
      → lookup key (insert added value entries)
        ≡ (if added == key then some value else lookup key entries)
  unfolding lookup insert
  lookup-insert added key value entries = ground (arith, lookup-remove added key entries)
