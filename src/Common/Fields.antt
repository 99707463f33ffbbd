-- ===== src/Common/Fields.antt =====
-- `Record<string, V>` as an association list: reads, writes and deletes of own properties.
use mathlib.Core.Path.{◌≡◌, refl}
use mathlib.Core.Option.{Option, none, some}
use mathlib.Core.List.{List, [], ◌∷◌}
use native.Mathlib.Omega.{arith}
use sozai.Common.Tests.{if◌then◌else◌}
use sozai.Common.Text.{Text, same, same_iff}

abbrev pub Fields {ℓ} : Type ℓ → Type ℓ
Fields V = List (Text × V)

module _ {ℓ} {V : Type ℓ} where
  -- `Object.hasOwn(o, key) ? o[key] : undefined`
  unfoldable pub own : Fields V → Text → Option V
  own [] k = none
  own ((j, v) ∷ m) k = if same j k then some v else own m k

  -- `o[key] = v`
  unfoldable pub put : Fields V → Text → V → Fields V
  put [] k v = (k, v) ∷ []
  put ((j, w) ∷ m) k v = if same j k then (j, v) ∷ m else (j, w) ∷ put m k v

  -- `delete o[key]`
  unfoldable pub remove : Fields V → Text → Fields V
  remove [] k = []
  remove ((j, w) ∷ m) k = let rest = remove m k in if same j k then rest else (j, w) ∷ rest

  pub own-put :
      (m : Fields V) (k j : Text) (v : V)
      → own (put m k v) j ≡ (if same k j then some v else own m j)
  unfolding own put
  own-put [] k j v = refl
  own-put ((i, w) ∷ m) k j v =
      ground (arith, own-put m k j v, same_iff i k, same_iff i j, same_iff k j)

  pub own-remove :
      (m : Fields V) (k j : Text) → own (remove m k) j ≡ (if same k j then none else own m j)
  unfolding own remove
  own-remove [] k j = ground arith
  own-remove ((i, w) ∷ m) k j =
      ground (arith, own-remove m k j, same_iff i k, same_iff i j, same_iff k j)
