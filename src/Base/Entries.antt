-- ===== src/Base/Entries.antt =====
-- The entries of a `Map`: what holds of all of them, and that no key has two.
use Prim.Native.String.{String}
use mathlib.Core.Path.{◌≡◌, refl, sym, subst, ap}
use mathlib.Core.Logic.{inl, inr}
use mathlib.Core.Option.{none, some}
use mathlib.Core.List.{[], ◌∷◌, ◌++◌}
use native.Mathlib.Omega.{arith}
use package.text.Mathlib.Text.{◌==◌}
use package.text.Mathlib.TextEquality.{eq_iff}
use express_nest_blueprint.Base.Tests.{Bool-cases}
use express_nest_blueprint.Base.Lists.{All}
use express_nest_blueprint.Base.Map
use express_nest_blueprint.Base.Map.{Map, get-set, get-delete}

module _ {ℓ} {V : Type ℓ} where
  -- The keys are all different.
  abbrev pub Unique : Map V → Type ℓ
  Unique [] = Unit
  Unique ((k, v) ∷ m) = (Map.get m k ≡ none) × Unique m

  pub set-Unique : (m : Map V) (k : String) (v : V) → Unique m → Unique (Map.set m k v)
  unfolding Map.set Map.get
  set-Unique [] k v u = (refl, tt)
  set-Unique ((j, w) ∷ m) k v (a, u) = elim (Bool-cases (j == k)) [
    | inl e ↦ rw e (a, u)
    | inr e ↦
        rw e (rw (get-set m k j v) ground (arith, a, eq_iff j k, eq_iff k j), set-Unique m k v u)
  ]

  pub delete-Unique : (m : Map V) (k : String) → Unique m → Unique (Map.delete m k)
  unfolding Map.delete
  delete-Unique [] k u = tt
  delete-Unique ((j, w) ∷ m) k (a, u) = elim (Bool-cases (j == k)) [
    | inl e ↦ rw e (delete-Unique m k u)
    | inr e ↦ rw e (rw (get-delete m k j) ground (arith, a), delete-Unique m k u)
  ]

  -- A key that is not there yet goes to the end.
  pub set_absent :
      (m : Map V) (k : String) (v : V) → Map.get m k ≡ none → Map.set m k v ≡ m ++ (k, v) ∷ []
  unfolding Map.set Map.get
  set_absent [] k v h = refl
  set_absent ((j, w) ∷ m) k v h = elim (Bool-cases (j == k)) [
    | inl e ↦ ground (arith, h, e)
    | inr e ↦ rw e (ap (λ r. (j, w) ∷ r) (set_absent m k v (ground (arith, h, e))))
  ]

  module _ {κ} (P : String × V → Type κ) where
    pub set-All : (m : Map V) (k : String) (v : V) → P (k, v) → All P m → All P (Map.set m k v)
    unfolding Map.set
    set-All [] k v p h = (p, tt)
    set-All ((j, w) ∷ m) k v p (q, h) = elim (Bool-cases (j == k)) [
      | inl e ↦ rw e (subst (λ i. P (i, v)) (sym ((eq_iff j k).0 e)) p, h)
      | inr e ↦ rw e (q, set-All m k v p h)
    ]

    pub delete-All : (m : Map V) (k : String) → All P m → All P (Map.delete m k)
    unfolding Map.delete
    delete-All [] k h = tt
    delete-All ((j, w) ∷ m) k (q, h) = elim (Bool-cases (j == k)) [
      | inl e ↦ rw e (delete-All m k h)
      | inr e ↦ rw e (q, delete-All m k h)
    ]

    pub get-All : (m : Map V) (k : String) (v : V) → All P m → Map.get m k ≡ some v → P (k, v)
    unfolding Map.get
    get-All [] k v h e = ground (arith, e)
    get-All ((j, w) ∷ m) k v (q, h) e = elim (Bool-cases (j == k)) [
      | inl b ↦
          let s : w ≡ v = ground (arith, e, b) in
          subst (λ i. P (i, v)) ((eq_iff j k).0 b) (subst (λ x. P (j, x)) s q)
      | inr b ↦ get-All m k v h (ground (arith, e, b))
    ]
