-- ===== src/Base/Map.antt =====
-- JavaScript's `Map` with string keys: an association list in the order of first insertion.
-- Clients reason by `map_laws`.
use Prim.Native.String.{String}
use mathlib.Core.Path.{◌≡◌, refl}
use mathlib.Core.Bool.{Bool}
use mathlib.Core.Option.{Option, none, some}
use mathlib.Core.List.{List, [], ◌∷◌}
use native.Mathlib.Omega.{arith}
use text.Mathlib.Text.{◌==◌}
use text.Mathlib.TextEquality.{eq_iff}
use express_nest_blueprint.Base.Tests.{if◌then◌else◌, is_some}

abbrev pub Map {ℓ} : Type ℓ → Type ℓ
Map V = List (String × V)

module _ {ℓ} {V : Type ℓ} where
  -- `map.get(k)`, `undefined` is `none`.
  unfoldable pub get : Map V → String → Option V
  get [] k = none
  get ((j, v) ∷ m) k = if j == k then some v else get m k

  unfoldable pub set : Map V → String → V → Map V
  set [] k v = (k, v) ∷ []
  set ((j, w) ∷ m) k v = if j == k then (j, v) ∷ m else (j, w) ∷ set m k v

  unfoldable pub delete : Map V → String → Map V
  delete [] k = []
  delete ((j, w) ∷ m) k = let rest = delete m k in if j == k then rest else (j, w) ∷ rest

  unfoldable pub has : Map V → String → Bool
  has m k = is_some (get m k)

  pub get-set :
      (m : Map V) (k j : String) (v : V) → get (set m k v) j ≡ (if k == j then some v else get m j)
  unfolding get set
  get-set [] k j v = refl
  get-set ((i, w) ∷ m) k j v = ground (arith, eq_iff i k, eq_iff i j, eq_iff k j, get-set m k j v)

  pub get-delete :
      (m : Map V) (k j : String) → get (delete m k) j ≡ (if k == j then none else get m j)
  unfolding get delete
  get-delete [] k j = ground arith
  get-delete ((i, w) ∷ m) k j = ground (arith, eq_iff i k, eq_iff i j, eq_iff k j, get-delete m k j)

pub get-empty {ℓ} : {V : Type ℓ} (k : String) → get {V = V} [] k ≡ none
unfolding get
get-empty k = refl

pub ruleset map_laws = (get-set, get-delete, get-empty)
