-- ===== src/Routing.antt =====
-- MiddlewareConsumerImpl: packages/backend/common/src/core/middleware/middleware-consumer.ts, its
-- exclusions and the middleware that it wraps. A text is its list of code points; a middleware is what its
-- `use` does with a request, and the container gives the instance of a class.
pub mod Paths
mod Tests
use express_nest_blueprint.Base.{
  ℕ, zero, suc, Bool, true, false, not, ◌&&◌, ◌||◌, Option, none, some, List, [], ◌∷◌, ◌++◌, any,
  length, get_elem?, ◌==◌, if◌then◌else◌,
}
use express_nest_blueprint.Base.Text.{codes, starts_with, split, text_eq}

-- `routePath.slice(0, -1)` of a path that ends with `*`.
pub star_prefix : List ℕ → Option (List ℕ)
star_prefix [] = none
star_prefix (c ∷ s) = elim (star_prefix s) [
  | some p ↦ some (c ∷ p)
  | none ↦ elim s [ [] ↦ if c == b'*' then some [] else none | _ ∷ _ ↦ none ]
]

-- `segment === pathSegments[index]`.
same_segment : List ℕ → Option (List ℕ) → Bool
same_segment segment none = false
same_segment segment (some part) = text_eq segment part

-- `routeSegments.every((segment, index) => ...)`, from an index on.
every_segment : List (List ℕ) → List (List ℕ) → ℕ → Bool
unfolding same_segment
every_segment [] parts index = true
every_segment (segment ∷ segments) parts index =
    (starts_with segment (codes ":") || same_segment segment (get_elem? parts index))
    && every_segment segments parts (suc index)

match_segments : List (List ℕ) → List (List ℕ) → Bool
unfolding every_segment
match_segments segments parts =
    if length segments == length parts then every_segment segments parts 0 else false

match_pattern : List ℕ → List ℕ → Option (List ℕ) → Bool
unfolding match_segments
match_pattern request route (some prefix) = starts_with request prefix
match_pattern request route none = match_segments (split b'/' route) (split b'/' request)

pub match_path : List ℕ → List ℕ → Bool
unfolding match_pattern star_prefix
match_path request route =
    if text_eq request route
    then true
    else if text_eq route (codes "*")
    then true
    else match_pattern request route (star_prefix route)

pub data RequestMethod : Type 0 where
  get post put delete patch all : RequestMethod

abbrev same_method : RequestMethod → RequestMethod → Bool
same_method get get = true
same_method post post = true
same_method put put = true
same_method delete delete = true
same_method patch patch = true
same_method all all = true
same_method _ _ = false

-- A route to exclude, a text or a RouteInfo; a text has no method.
pub record ExcludeRoute : Type 0 where
  pub path : List ℕ
  pub method : Option RequestMethod

pub record Request : Type 0 where
  pub path : List ℕ
  pub method : RequestMethod

abbrev method_matches : Option RequestMethod → RequestMethod → Bool
method_matches none m = true
method_matches (some all) m = true
method_matches (some e) m = same_method m e

pub should_exclude : List ExcludeRoute → Request → Bool
unfolding match_path
should_exclude routes req =
    any (λ e. match_path req.path e.path && method_matches e.method req.method) routes

-- What a middleware does: `use` of a class or an object, or a call of a function.
pub data Middleware {ℓ} (A : Type ℓ) : Type ℓ where
  -- A class, with what its instance does, or `none` where the container cannot resolve it.
  constructor_of : Option (Request → A) → Middleware A
  instance_of : (Request → A) → Middleware A
  function_of : (Request → A) → Middleware A

pub data Outcome {ℓ} (A : Type ℓ) : Type ℓ where
  -- `next()`, `next(error)`, or what the middleware does.
  next failed : Outcome A
  handled : A → Outcome A

module _ {ℓ} {A : Type ℓ} where
  pub wrap_middleware : Middleware A → Request → Outcome A
  wrap_middleware (constructor_of none) req = failed
  wrap_middleware (constructor_of (some f)) req = handled (f req)
  wrap_middleware (instance_of f) req = handled (f req)
  wrap_middleware (function_of f) req = next

  pub wrap_middleware_with_exclusions : Middleware A → List ExcludeRoute → Request → Outcome A
  unfolding wrap_middleware should_exclude
  wrap_middleware_with_exclusions m [] req = wrap_middleware m req
  wrap_middleware_with_exclusions m (e ∷ routes) req =
      if should_exclude (e ∷ routes) req then next else wrap_middleware m req
