-- ===== src/Container/Tests.antt =====
-- The container at a small application.
use mathlib.Core.Path.{subst}
use text.Mathlib.Text.{◌==◌ as str_eq}
use text.Mathlib.TextEquality.{eq_iff}
use express_nest_blueprint.Base.{
  Bool-cases, inl, inr, sym, ℕ, suc, String, ◌≡◌, ◌≢◌, refl, true, Option, none, some, List, [],
  ◌∷◌, arith, All, if◌then◌else◌,
}
use express_nest_blueprint.Base.Map
use express_nest_blueprint.Base.Map.{Map}
use express_nest_blueprint.Container.{
  Provider, class_provider, value_provider, factory_provider, Runtime, Container, ok, throws,
  overflow, not_found, register, resolve, resolve_deps, deps_of,
}
use express_nest_blueprint.Container.Singletons.{resolve_same}
use express_nest_blueprint.Container.Acyclic.{IsAcyclic, IsBelow, MadeOnce, resolve_acyclic, count}

-- Instances are numbers: 100 and one more for each dependency that is there.
abbrev made : List (Option ℕ) → ℕ
made [] = 100
made (none ∷ os) = made os
made (some o ∷ os) = suc (made os)

abbrev types : String → List (Option String)
types t =
    elim (Map.get {V = List (Option String)}
      (("UsersService", some "Repository" ∷ none ∷ []) ∷ ("Loop", some "Loop" ∷ []) ∷ []) t) [
        | none ↦ []
        | some ts ↦ ts
      ]

abbrev runtime : Runtime ℕ
runtime = record {
  is_injectable = λ t. true;
  is_truthy = λ v. true;
  param_types = types;
  inject_tokens = λ t. [];
  construct = λ t os. made os;
}

abbrev services : Map (Provider ℕ)
services =
    ("Database", value_provider 7)
    ∷ ("Repository", factory_provider made ("Database" ∷ []))
    ∷ ("UsersService", class_provider "UsersService")
    ∷ []

abbrev app : Container ℕ
app = record { services = services; singletons = []; log = [] }

abbrev looping : Container ℕ
looping = record { services = ("Loop", class_provider "Loop") ∷ []; singletons = []; log = [] }

container : Unit {0}
unfolding resolve resolve_deps deps_of register Map.get Map.set count
container = tt

container_tests :
    ((resolve runtime 3 "UsersService" app).0 ≡ ok 101)
    × ((resolve runtime 3 "UsersService" app).1.log
        ≡ "Database" ∷ "Repository" ∷ "UsersService" ∷ [])
    × ((resolve runtime 3 "Mailer" app).0 ≡ throws not_found)
    × ((resolve runtime 50 "Loop" looping).0 ≡ throws overflow)
unfolding container
container_tests = (refl, refl, refl, refl)

resolve_same_example :
    resolve runtime 1 "UsersService"
      (resolve runtime 3 "Database" (resolve runtime 3 "UsersService" app).1).1
    ≡ (ok 101, (resolve runtime 3 "Database" (resolve runtime 3 "UsersService" app).1).1)
resolve_same_example =
    resolve_same runtime 3 0 3 "UsersService" "Database" app 101 container_tests.0

abbrev rank : String → ℕ
rank t = if str_eq t "Repository" then 1 else 0

abbrev pair : Map (Provider ℕ)
pair = ("Database", value_provider 7) ∷ ("Repository", factory_provider made ("Database" ∷ [])) ∷ []

database_registered : Map.get pair "Database" ≢ none
unfolding Map.get
database_registered e = cc

repository_registered : Map.get pair "Repository" ≢ none
unfolding Map.get
repository_registered e = cc

IsBelow-each :
    (t : String) (p : Provider ℕ)
    → Map.get pair t ≡ some p
    → All (IsBelow runtime rank pair (rank t)) (deps_of runtime p)
unfolding Map.get
IsBelow-each t p h = elim (Bool-cases (str_eq "Database" t)) [
  | inl e ↦
      let q : value_provider 7 ≡ p = ground (arith, e) in
      subst (λ (x : Provider ℕ). All (IsBelow runtime rank pair (rank t)) (deps_of runtime x)) q
        (unfold deps_of in tt)
  | inr e ↦ elim (Bool-cases (str_eq "Repository" t)) [
    | inl f ↦
        let q : factory_provider made ("Database" ∷ []) ≡ p = ground (arith, e, f) in
        let s : t ≡ "Repository" = sym ((eq_iff "Repository" t).0 f) in
        subst (λ (x : Provider ℕ). All (IsBelow runtime rank pair (rank t)) (deps_of runtime x)) q
          (rw s (unfold deps_of in ((omega arith, database_registered), tt)))
    | inr f ↦ absurd (ground (arith, e, f))
  ]
]

acyclic : IsAcyclic runtime rank pair
acyclic = record { below = IsBelow-each }

abbrev small : Container ℕ
small = record { services = pair; singletons = []; log = [] }

nothing_made : MadeOnce runtime rank pair small
unfolding count Map.get
nothing_made k = omega arith

resolve_acyclic_example :
    (o : ℕ) × ((resolve runtime 2 "Repository" small).0 ≡ ok o)
    × MadeOnce runtime rank pair (resolve runtime 2 "Repository" small).1
resolve_acyclic_example =
    resolve_acyclic runtime rank pair acyclic 2 "Repository" small (omega arith)
      repository_registered refl nothing_made
