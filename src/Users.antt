-- ===== src/Users.antt =====
-- UsersRepository with its helpers: packages/backend/core-api/src/modules/users, users.repository.ts and
-- repository-helpers. The rows, Kafka and the state `S` they work on are arguments. What a message to
-- Kafka says beyond its topic and its key is left out.
pub mod Service
pub mod Worker
pub mod Fields
pub mod Policy
pub mod Futile
mod Tests
use Prim.Native.String
use package.text.Mathlib.Text.{◌==◌ as str_eq}
use express_nest_blueprint.Base.{
  ℕ, String, Bool, true, false, not, ◌&&◌, ◌||◌, Option, none, some, List, [], ◌∷◌, any, map,
  get_or, length, ◌==◌, if◌then◌else◌,
}
use express_nest_blueprint.Base.Settled.{Settled, ok, throws, and_then}
use express_nest_blueprint.Base.Map
use express_nest_blueprint.Base.Map.{Map}
use express_nest_blueprint.Base.Text.{codes, to_lower_case, text_eq}
use express_nest_blueprint.Guards.{JwtPayload, UserRoles, global_admin, same_role}
use express_nest_blueprint.Bulk.{RecordId, number, text, is_truthy_id}
use express_nest_blueprint.Query.Where.{object}
use express_nest_blueprint.Pages.{QueryAllWithPaginationOptions}
use express_nest_blueprint.Query.Sql.{decimal}

-- The values that the columns of a user take.
pub data FieldValue : Type 0 where
  undefined : FieldValue
  flag : Bool → FieldValue
  word : String → FieldValue
  amount : ℕ → FieldValue

-- `Partial<UserResponseDto>`, by its keys.
abbrev pub UserData : Type 0
UserData = Map FieldValue

-- `String(id)`.
unfoldable pub text_of : RecordId → String
text_of (number n) = decimal n
text_of (text t) = t

-- What a check comes to: the message of its error, or none.
abbrev pub Check : Type 0
Check = Option String

-- `Object.keys(data).some(...)`, against a list of names, without regard to case.
unfoldable pub has_field : List String → UserData → Bool
unfolding to_lower_case text_eq
has_field names [] = false
has_field names ((field, value) ∷ fields) =
    any (λ name. text_eq (to_lower_case (codes field)) (to_lower_case (codes name))) names
    || has_field names fields

abbrev pub restricted_fields : List String
restricted_fields = "isactive" ∷ "is_active" ∷ "isemailverified" ∷ "is_email_verified" ∷ "role" ∷ []

abbrev pub sensitive_fields : List String
sensitive_fields = "isActive" ∷ "isEmailVerified" ∷ []

abbrev pub is_self : JwtPayload → RecordId → Bool
is_self user id = str_eq (decimal user.sub) (text_of id)

unfoldable pub validate_self_update : JwtPayload → RecordId → UserData → Check
unfolding has_field text_of
validate_self_update user id fields =
    if is_self user id && has_field restricted_fields fields
    then some "Forbidden account update"
    else none

abbrev pub is_global_admin : JwtPayload → Bool
is_global_admin user = same_role user.role global_admin

unfoldable pub validate_sensitive_fields : JwtPayload → UserData → Check
unfolding has_field
validate_sensitive_fields user fields =
    if has_field sensitive_fields fields && not (is_global_admin user)
    then some "Admin required for sensitive fields"
    else none

abbrev pub is_defined : Option FieldValue → Bool
is_defined none = false
is_defined (some undefined) = false
is_defined (some _) = true

-- `data.role !== undefined`.
unfoldable pub sets_role : UserData → Bool
unfolding Map.get
sets_role fields = is_defined (Map.get fields "role")

unfoldable pub validate_role_update : JwtPayload → UserData → Check
unfolding sets_role
validate_role_update user fields =
    if sets_role fields && not (is_global_admin user)
    then some "Admin required for role update"
    else none

unfoldable pub validate_self_deletion : JwtPayload → RecordId → Check
unfolding text_of
validate_self_deletion user id = if is_self user id then some "Forbidden self-deletion" else none

unfoldable pub validate_admin_role : JwtPayload → Check
validate_admin_role user = if is_global_admin user then none else some "Admin required for deletion"

-- One check before what follows.
abbrev pub passing : {A S : Type 0} → Check → (S → Settled A × S) → S → Settled A × S
passing none next s = next s
passing (some e) next s = (throws e, s)

-- What the repository is made of: the rows of `U`, and Kafka, by topic and key.
pub record UsersTable (U S : Type 0) : Type 0 where
  pub find_by_id : RecordId → S → Settled (Option U) × S
  pub find_by_email : String → S → Settled (Option U) × S
  pub create_row : UserData → S → Settled (Option U) × S
  pub update_row : RecordId → UserData → S → Settled (Option U) × S
  pub delete_row : RecordId → S → Settled Bool × S
  pub produce : String → String → S → Settled Unit × S
  pub id_of : U → RecordId
  pub email_of : U → String

module _ {U S : Type 0} (table : UsersTable U S) where
  -- `notifyUpdate`, for a global admin, on what the row's update gave.
  unfoldable pub notify_update : JwtPayload → RecordId → U → S → Settled Unit × S
  unfolding text_of
  notify_update user id updated s =
      let updated_id =
        if is_truthy_id (some (table.id_of updated)) then table.id_of updated else id in
      let key = String.◌++◌ (text_of updated_id) (String.◌++◌ "_" (decimal user.sub)) in
      let notified = table.produce "user.events" key s in
      if is_global_admin user then notified else (ok tt, s)

  unfoldable pub updated : JwtPayload → RecordId → Option U → S → Settled (Option U) × S
  unfolding notify_update
  updated user id none s = (ok none, s)
  updated user id (some u) s = and_then (notify_update user id u s) (λ _ s'. (ok (some u), s'))

  unfoldable pub update_as : JwtPayload → RecordId → UserData → S → Settled (Option U) × S
  unfolding validate_self_update validate_sensitive_fields validate_role_update updated
  update_as user id fields = passing (validate_self_update user id fields) (
      passing (validate_sensitive_fields user fields) (
        passing (validate_role_update user fields)
          (λ s. and_then (table.update_row id fields s) (λ u s'. updated user id u s'))))

  -- `update`, on the user who asks.
  unfoldable pub update : RecordId → UserData → Option JwtPayload → S → Settled (Option U) × S
  unfolding update_as
  update id fields none s = (throws "Security Context Missing", s)
  update id fields (some user) s = update_as user id fields s

  unfoldable pub delete : RecordId → Option JwtPayload → S → Settled Bool × S
  unfolding validate_self_deletion validate_admin_role
  delete id none s = (throws "Security Context Missing", s)
  delete id (some user) s =
      passing (validate_self_deletion user id)
        (passing (validate_admin_role user) (table.delete_row id)) s
