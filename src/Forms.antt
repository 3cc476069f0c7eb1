-- ===== src/Forms.antt =====
-- The forms of the admin front end, under packages/frontend/admin/src/app/core/services:
-- validation/form-validation.service.ts, validation/field-access.service.ts and the permissions of
-- utilities/user-utility.service.ts. A value that is neither null, undefined nor a text is an `A`, and `===`
-- on those is an argument, as is who is signed in.
pub mod Changed
mod Tests
use Prim.Native.String
use package.text.Mathlib.Text.{◌==◌ as str_eq}
use express_nest_blueprint.Base.{
  ℕ, String, Bool, true, false, not, ◌&&◌, ◌||◌, leb, any, Option, none, some, get_or, List, [],
  ◌∷◌, ◌++◌, map, if◌then◌else◌,
}
use express_nest_blueprint.Base.Map
use express_nest_blueprint.Base.Map.{Map}
use express_nest_blueprint.Base.Text.{codes}

pub data Value (A : Type 0) : Type 0 where
  null : Value A
  undefined : Value A
  text : String → Value A
  other : A → Value A

abbrev pub Record : Type 0 → Type 0
Record A = Map (Value A)

pub record Change (A : Type 0) : Type 0 where
  pub name : String
  pub old_value : Value A
  pub new_value : Value A

module _ {A : Type 0} where
  -- `record[key]`.
  unfoldable pub value_at : Record A → String → Value A
  value_at record_of key = get_or (Map.get record_of key) undefined

  unfoldable pub is_empty : Value A → Bool
  is_empty null = true
  is_empty undefined = true
  is_empty (text s) = str_eq s ""
  is_empty (other a) = false

  keys : Record A → List String
  keys fields = map (λ entry. entry.0) fields

  unfoldable pub validate_form_data : Record A → List (String × Bool) → List String
  unfolding is_empty value_at
  validate_form_data form_data [] = []
  validate_form_data form_data ((column, required) ∷ columns) =
      let errors = validate_form_data form_data columns in
      if required && is_empty (value_at form_data column)
      then String.◌++◌ column " is required" ∷ errors
      else errors

  -- True where the role is missing.
  unfoldable pub validate_role : Record A → Bool
  unfolding is_empty value_at
  validate_role form_data = Map.has form_data "role" && is_empty (value_at form_data "role")

  module _ (same : A → A → Bool) where
    -- `value1 === value2`.
    unfoldable pub strictly_equal : Value A → Value A → Bool
    strictly_equal null null = true
    strictly_equal undefined undefined = true
    strictly_equal (text s) (text t) = str_eq s t
    strictly_equal (other a) (other b) = same a b
    strictly_equal _ _ = false

    unfoldable pub are_values_equal : Value A → Value A → Bool
    unfolding is_empty strictly_equal
    are_values_equal a b = if is_empty a && is_empty b then true else strictly_equal a b

    -- The loop over the keys of both records; a key of both is met once more here than in the set.
    unfoldable pub any_changed : Record A → Record A → List String → Bool
    unfolding are_values_equal value_at
    any_changed current original [] = false
    any_changed current original (key ∷ ks) =
        let rest = any_changed current original ks in
        if not (are_values_equal (value_at current key) (value_at original key)) then true else rest

    unfoldable pub has_form_changes : Record A → Record A → Bool
    unfolding any_changed keys
    has_form_changes current original = any_changed current original (keys current ++ keys original)

    changes_at : Record A → Record A → List String → List (Change A)
    unfolding strictly_equal value_at
    changes_at current original [] = []
    changes_at current original (key ∷ ks) =
        let rest = changes_at current original ks in
        if not (strictly_equal (value_at current key) (value_at original key))
        then record {
          name = key;
          old_value = value_at original key;
          new_value = value_at current key;
        }
          ∷ rest
        else rest

    unfoldable pub get_changed_fields : Record A → Record A → List (Change A)
    unfolding changes_at keys
    get_changed_fields current original = changes_at current original (keys current)

-- The user that is signed in.
pub record CurrentUser : Type 0 where
  pub id : String
  pub role : String

unfoldable pub is_global_admin : Option CurrentUser → Bool
is_global_admin none = false
is_global_admin (some user) = str_eq user.role "global admin"

unfoldable pub is_current_user : Option CurrentUser → String → Bool
is_current_user none id = false
is_current_user (some user) id = str_eq user.id id

abbrev excluded_fields : List String
excluded_fields = "id" ∷ "profileImageUrl" ∷ "createdAt" ∷ "updatedAt" ∷ "lastLogin" ∷ []

abbrev disabled_fields : List String
disabled_fields = "id" ∷ "email" ∷ "createdAt" ∷ "updatedAt" ∷ "lastLogin" ∷ []

abbrev sensitive_fields : List String
sensitive_fields = "isActive" ∷ "isEmailVerified" ∷ []

-- `list.includes(value)`.
abbrev listed : List String → String → Bool
listed fields column_name = any (λ f. str_eq f column_name) fields

unfoldable pub is_sensitive_field : String → Bool
is_sensitive_field column_name = listed sensitive_fields column_name

module _ (user : Option CurrentUser) where
  -- The record that is selected, by its id.
  unfoldable pub is_role_excluded : Option String → Bool
  unfolding is_global_admin is_current_user
  is_role_excluded none = not (is_global_admin user)
  is_role_excluded (some record_id) =
      if not (is_global_admin user) then true else is_current_user user record_id

  unfoldable pub is_field_excluded_from_update : String → Option String → Bool
  unfolding is_role_excluded
  is_field_excluded_from_update column_name selected =
      if listed excluded_fields column_name
      then true
      else (if str_eq column_name "role" then is_role_excluded selected else false)

  unfoldable pub can_modify_field : String → Bool
  unfolding is_global_admin is_sensitive_field
  can_modify_field column_name =
      if not (is_sensitive_field column_name) then true else is_global_admin user

-- The mode of a form: true where it creates; the columns of the table, if there is one.
unfoldable pub is_field_disabled : String → List String → Bool → Bool
is_field_disabled column_name columns creates =
    if creates && str_eq column_name "email" && listed columns "email"
    then false
    else listed disabled_fields column_name
