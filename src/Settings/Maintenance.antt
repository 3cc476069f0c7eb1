-- ===== src/Settings/Maintenance.antt =====
-- MaintenanceMiddleware: packages/backend/common/src/core/middleware/maintenance.middleware.ts. Its
-- settings service, with the state `S`, is an argument.
use express_nest_blueprint.Base.{
  String, ◌≢◌, Bool, true, false, not, ◌&&◌, ◌||◌, Option, none, some, List, [], ◌∷◌, ◌≡◌,
  if◌then◌else◌,
}
use express_nest_blueprint.Base.Text.{codes, includes}
use express_nest_blueprint.Guards.{JwtPayload, Request, global_admin, same_role}
use Prim.Native.Nat.{ℕ}

-- What the settings service throws: a ServiceUnavailableException with its message, or anything else.
pub data ServiceError : Type 0 where
  service_unavailable : String → ServiceError
  other_error : ServiceError

-- What `isMaintenanceModeEnabled` comes to.
pub data ModeRead : Type 0 where
  enabled : Bool → ModeRead
  failed : ServiceError → ModeRead

-- The next handler, or the status 503 with the message of the exception.
pub data Answer : Type 0 where
  next : Answer
  unavailable : String → Answer

abbrev pub maintenance_message : String
maintenance_message = "System is currently under maintenance. Please try again later."

-- `req.path || req.url || ''`.
unfoldable pub path_or_url : List ℕ → List ℕ → List ℕ
path_or_url [] url = url
path_or_url (c ∷ path) url = c ∷ path

unfoldable pub is_excluded_path : Request → Bool
unfolding path_or_url includes
is_excluded_path req =
    includes (path_or_url req.path req.url) (codes "/settings")
    || includes (path_or_url req.path req.url) (codes "/health")

-- `req.user && req.user.role !== UserRoles.GLOBAL_ADMIN`.
unfoldable pub is_held : Option JwtPayload → Bool
is_held none = false
is_held (some user) = not (same_role user.role global_admin)

module _ {S : Type 0} where
  -- The mode that is read, and the state after it; without a service, the mode as it was set.
  unfoldable pub mode_of : Option (S → ModeRead × S) → Bool → S → ModeRead × S
  mode_of none mode s = (enabled mode, s)
  mode_of (some is_enabled) mode s = is_enabled s

  -- The `try` block after the mode is read, and the `catch` block.
  unfoldable pub answer : Request → Bool → ModeRead × S → Answer × Bool × S
  unfolding is_held
  answer req mode (failed (service_unavailable message), s) = (unavailable message, mode, s)
  answer req mode (failed other_error, s) = (next, mode, s)
  answer req mode (enabled m, s) =
      (if m && is_held req.user then unavailable maintenance_message else next, m, s)

  -- `use`, with `isMaintenanceMode` before and after.
  unfoldable pub use_maintenance :
      Option (S → ModeRead × S) → Request → Bool → S → Answer × Bool × S
  unfolding is_excluded_path mode_of answer
  use_maintenance service req mode s =
      if is_excluded_path req then (next, mode, s) else answer req mode (mode_of service mode s)

-- A user other than a global admin.
abbrev pub OtherUser : Option JwtPayload → Type 0
OtherUser user = (u : JwtPayload) × (user ≡ some u) × (u.role ≢ global_admin)

-- Why the middleware refuses a request with a message, given what the mode is read as.
abbrev pub Refuses : ModeRead → Option JwtPayload → String → Type 0
Refuses (failed (service_unavailable text)) user message = text ≡ message
Refuses (failed other_error) user message = ⊥
Refuses (enabled false) user message = ⊥
Refuses (enabled true) user message = OtherUser user × (maintenance_message ≡ message)
