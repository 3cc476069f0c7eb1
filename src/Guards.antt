-- ===== src/Guards.antt =====
-- Guards and the decorators that they read: packages/backend/common/src/core/guards,
-- core/decorators/auth.decorator.ts and runGuards of
-- application/nest-application/request-handler.ts. JwtService.verify, which calls jsonwebtoken, is the
-- argument `verify`; a text is its list of code points.
pub mod Roles
pub mod Health
pub mod Bearer
mod Tests
use express_nest_blueprint.Base.{
  ℕ, suc, ◌≡◌, Bool, true, false, not, ◌||◌, ◌&&◌, Option, none, some, List, [], ◌∷◌, ◌++◌, any,
  get_or, ◌==◌, if◌then◌else◌, zero,
}
use express_nest_blueprint.Base.Text.{codes, includes, starts_with, split, text_eq, drop}

pub data UserRoles : Type 0 where
  global_admin admin user moderator : UserRoles

abbrev pub same_role : UserRoles → UserRoles → Bool
same_role global_admin global_admin = true
same_role admin admin = true
same_role user user = true
same_role moderator moderator = true
same_role _ _ = false

pub record JwtPayload : Type 0 where
  pub sub : ℕ
  pub email : List ℕ
  pub role : UserRoles

-- What the guards read and write of a request.
pub record Request : Type 0 where
  pub path : List ℕ
  pub url : List ℕ
  pub authorization : Option (List ℕ)
  pub query_token : Option (List ℕ)
  pub health_key : Option (List ℕ)
  pub user : Option JwtPayload

-- The metadata of a method, or of a class.
pub record Metadata : Type 0 where
  pub is_public : Option Bool
  pub require_auth : Option Bool
  pub roles : Option (List UserRoles)

pub data Decorator : Type 0 where
  require_auth : Decorator
  roles : List UserRoles → Decorator
  public : Decorator

-- `Reflect.defineMetadata` for each decorator, on the method or class that has none at first.
decorate : Metadata → Decorator → Metadata
decorate m require_auth = record m { require_auth = some true }
decorate m (roles rs) = record m { require_auth = some true; roles = some rs }
decorate m public = record m { is_public = some true }

pub decorated : List Decorator → Metadata
unfolding decorate
decorated [] = record { is_public = none; require_auth = none; roles = none }
decorated (d ∷ ds) = decorate (decorated ds) d

pub data Exception : Type 0 where
  unauthorized : Exception
  forbidden : Exception

-- What `canActivate` does: `next()`, with the request as it then is, `next(error)`, or a throw.
pub data Verdict : Type 0 where
  next : Request → Verdict
  next_error : Exception → Verdict
  throws : Exception → Verdict

abbrev is_true : Option Bool → Bool
is_true o = get_or o false

-- `a || b` on texts.
abbrev or_text : List ℕ → List ℕ → List ℕ
or_text [] b = b
or_text a b = a

requires_auth : Metadata → Metadata → Bool
requires_auth method controller = get_or method.require_auth (get_or controller.require_auth false)

unfoldable pub skips_auth : Request → Bool
skips_auth req = includes (or_text req.path req.url) (codes "/auth/")

-- `authorization?.split(' ') ?? []`.
split_header : Option (List ℕ) → List (List ℕ)
split_header none = []
split_header (some header) = split b' ' header

-- `[type, token]` of the split header.
bearer_token : List (List ℕ) → Option (List ℕ)
bearer_token (kind ∷ (c ∷ token) ∷ _) =
    if text_eq kind (codes "Bearer") then some (c ∷ token) else none
bearer_token _ = none

pub extract_token_from_header : Request → Option (List ℕ)
unfolding split_header bearer_token
extract_token_from_header req = elim (bearer_token (split_header req.authorization)) [
  | none ↦ req.query_token
  | some token ↦ some token
]

module _ (verify : List ℕ → Option JwtPayload) where
  verified : Request → Option JwtPayload → Verdict
  verified req none = next_error unauthorized
  verified req (some payload) = next (record req { user = some payload })

  with_token : Request → Option (List ℕ) → Verdict
  unfolding verified
  with_token req none = throws unauthorized
  with_token req (some []) = throws unauthorized
  with_token req (some (c ∷ token)) = verified req (verify (c ∷ token))

  pub auth_guard : Metadata → Metadata → Request → Verdict
  unfolding requires_auth skips_auth with_token
  auth_guard method controller req =
      if is_true method.is_public
      then next req
      else if skips_auth req || not (requires_auth method controller)
      then next req
      else with_token req (extract_token_from_header req)

-- `methodRoles || classRoles`: an empty array is truthy.
required_roles : Metadata → Metadata → Option (List UserRoles)
required_roles method controller = elim method.roles [ none ↦ controller.roles | some rs ↦ some rs ]

check_roles : Request → Option (List UserRoles) → Option JwtPayload → Verdict
check_roles req none u = next req
check_roles req (some []) u = next req
check_roles req (some (r ∷ rs)) none = throws unauthorized
check_roles req (some (r ∷ rs)) (some u) =
    if any (λ q. same_role u.role q) (r ∷ rs) then next req else throws forbidden

pub roles_guard : Metadata → Metadata → Request → Verdict
unfolding required_roles check_roles
roles_guard method controller req =
    if is_true method.is_public
    then next req
    else check_roles req (required_roles method controller) req.user

-- `authHeader?.startsWith('Bearer ') ? authHeader.substring(7) : null`.
bearer_of : Option (List ℕ) → Option (List ℕ)
bearer_of none = none
bearer_of (some header) =
    if starts_with header (codes "Bearer ") then some (drop 7 header) else none

abbrev pub is_key : List ℕ → Option (List ℕ) → Bool
is_key secret none = false
is_key secret (some key) = text_eq key secret

check_key : Request → Option (List ℕ) → Verdict
unfolding bearer_of
check_key req none = next req
check_key req (some []) = next req
check_key req (some (c ∷ secret)) =
    if is_key (c ∷ secret) req.health_key || is_key (c ∷ secret) (bearer_of req.authorization)
    then next req
    else throws unauthorized

-- `secret` is HEALTH_CHECK_SECRET.
pub header_auth_guard : Option (List ℕ) → Metadata → Request → Verdict
unfolding check_key
header_auth_guard secret method req =
    if is_true method.is_public then next req else check_key req secret

pub data Result : Type 0 where
  passed : Request → Result
  rejected : Exception → Result

after : Verdict → (Request → Result) → Result
after (next req) rest = rest req
after (next_error _) rest = rejected unauthorized
after (throws e) rest = rejected e

-- The loop of `runGuards`; a guard is its `canActivate` on the method and class at hand.
run_all : List (Request → Verdict) → Request → Result
unfolding after
run_all [] req = passed req
run_all (g ∷ gs) req = after (g req) (λ req'. run_all gs req')

-- `[AuthGuard, RolesGuard, ...classGuards, ...methodGuards]`.
pub run_guards :
    (verify : List ℕ → Option JwtPayload)
    → Metadata
    → Metadata
    → List (Request → Verdict)
    → List (Request → Verdict)
    → Request
    → Result
unfolding run_all
run_guards verify method controller class_guards method_guards req =
    run_all
      (auth_guard verify method controller
        ∷ roles_guard method controller
        ∷ (class_guards ++ method_guards))
      req
