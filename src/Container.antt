-- ===== src/Container.antt =====
-- The dependency injection container: packages/backend/common/src/core/container/container.ts and the
-- resolvers of domain/constants/module/module.const.ts. An injection token, be it a class, a text or a
-- symbol, is a name. What the code cannot see is in `Runtime`: the metadata that the compiler and the
-- decorators leave on classes, and the constructors. The log of constructions is added, so that they
-- can be counted. A chain of resolutions deeper than the fuel is the overflow of the call stack.
pub mod Singletons
pub mod Acyclic
mod Tests
use express_nest_blueprint.Base.{
  ℕ, zero, suc, String, ◌≡◌, Bool, true, false, Option, none, some, List, [], ◌∷◌, ◌++◌, map,
  if◌then◌else◌, is_some,
}
use express_nest_blueprint.Base.Map
use express_nest_blueprint.Base.Map.{Map}

pub data Provider (O : Type 0) : Type 0 where
  class_provider : String → Provider O
  value_provider : O → Provider O
  factory_provider : (List (Option O) → O) → List String → Provider O

pub record RegisterOptions (O : Type 0) : Type 0 where
  pub provide : String
  pub use_class : Option String
  pub use_value : Option O
  pub use_factory : Option (List (Option O) → O)
  pub inject : List String

-- `param_types` is `design:paramtypes`, with `none` for a missing type and for Object, String, Number,
-- Boolean and Array; `inject_tokens` is the sparse array of @Inject.
pub record Runtime (O : Type 0) : Type 0 where
  pub is_injectable : String → Bool
  pub is_truthy : O → Bool
  pub param_types : String → List (Option String)
  pub inject_tokens : String → List (Option String)
  pub construct : String → List (Option O) → O

pub record Container (O : Type 0) : Type 0 where
  pub services : Map (Provider O)
  pub singletons : Map O
  pub log : List String

pub data Exception : Type 0 where
  not_injectable not_found overflow : Exception

pub data Result {ℓ} (A : Type ℓ) : Type ℓ where
  ok : A → Result A
  throws : Exception → Result A

module _ {O : Type 0} (r : Runtime O) where
  set_service : Container O → String → Provider O → Result (Unit {0}) × Container O
  set_service c provide p = (ok tt, record c { services = Map.set c.services provide p })

  register_class : Container O → String → String → Result (Unit {0}) × Container O
  unfolding set_service
  register_class c provide target =
      if r.is_injectable target
      then set_service c provide (class_provider target)
      else (throws not_injectable, c)

  register_factory :
      Container O
      → RegisterOptions O
      → Option (List (Option O) → O)
      → Result (Unit {0}) × Container O
  unfolding register_class
  register_factory c o none = register_class c o.provide o.provide
  register_factory c o (some f) = set_service c o.provide (factory_provider f o.inject)

  register_value : Container O → RegisterOptions O → Option O → Result (Unit {0}) × Container O
  unfolding register_factory
  register_value c o none = register_factory c o o.use_factory
  register_value c o (some v) =
      if r.is_truthy v
      then set_service c o.provide (value_provider v)
      else register_factory c o o.use_factory

  pub register : Container O → RegisterOptions O → Result (Unit {0}) × Container O
  unfolding register_value
  register c o = elim o.use_class [
    | none ↦ register_value c o o.use_value
    | some target ↦ register_class c o.provide target
  ]

  -- The tokens that a class is given: `injectTokens[index]`, or the type of the parameter.
  class_deps : List (Option String) → List (Option String) → List (Option String)
  class_deps [] tokens = []
  class_deps (type ∷ types) [] = type ∷ class_deps types []
  class_deps (type ∷ types) (none ∷ tokens) = type ∷ class_deps types tokens
  class_deps (type ∷ types) (some token ∷ tokens) = some token ∷ class_deps types tokens

  unfoldable pub deps_of : Provider O → List (Option String)
  unfolding class_deps
  deps_of (class_provider target) = class_deps (r.param_types target) (r.inject_tokens target)
  deps_of (value_provider v) = []
  deps_of (factory_provider f inject) = map some inject

  create : Provider O → List (Option O) → O
  create (class_provider target) deps = r.construct target deps
  create (value_provider v) deps = v
  create (factory_provider f inject) deps = f deps

  abbrev pub Resolve : Type 0
  Resolve = String → Container O → Result O × Container O

  -- `deps.map(...)`, where `undefined` stands for a dependency that is none.
  cons_dep :
      Option O → Result (List (Option O)) × Container O → Result (List (Option O)) × Container O
  cons_dep o (ok os, c) = (ok (o ∷ os), c)
  cons_dep o (throws e, c) = (throws e, c)

  after_dep :
      Result O × Container O
      → (Container O → Result (List (Option O)) × Container O)
      → Result (List (Option O)) × Container O
  unfolding cons_dep
  after_dep (ok o, c) rest = cons_dep (some o) (rest c)
  after_dep (throws e, c) rest = (throws e, c)

  pub resolve_deps :
      Resolve → List (Option String) → Container O → Result (List (Option O)) × Container O
  unfolding cons_dep after_dep
  resolve_deps resolve [] c = (ok [], c)
  resolve_deps resolve (none ∷ deps) c = cons_dep none (resolve_deps resolve deps c)
  resolve_deps resolve (some t ∷ deps) c = after_dep (resolve t c) (resolve_deps resolve deps)

  -- After the dependencies: make the instance and remember it.
  finish : String → Provider O → Result (List (Option O)) × Container O → Result O × Container O
  unfolding create
  finish provide p (throws e, c) = (throws e, c)
  finish provide p (ok deps, c) = (
    ok (create p deps),
    record c {
      singletons = Map.set c.singletons provide (create p deps);
      log = c.log ++ provide ∷ [];
    },
  )

  resolve_entry : Resolve → String → Option (Provider O) → Container O → Result O × Container O
  unfolding deps_of finish
  resolve_entry resolve provide none c = (throws not_found, c)
  resolve_entry resolve provide (some p) c = finish provide p (resolve_deps resolve (deps_of p) c)

  pub resolve : ℕ → Resolve
  unfolding resolve_entry
  resolve zero provide c = (throws overflow, c)
  resolve (suc fuel) provide c = elim (Map.get c.singletons provide) [
    | some o ↦ (ok o, c)
    | none ↦ resolve_entry (resolve fuel) provide (Map.get c.services provide) c
  ]

pub clear : {O : Type 0} → Container O → Container O
clear c = record c { services = []; singletons = [] }
