-- ===== src/Users/Fields.antt =====
-- Which fields an update of a user has, by their names in any case: the checks of
-- packages/backend/core-api/src/modules/users/repository-helpers.

use express_nest_blueprint.Base.{
  String, any, List, [], ◌∷◌, ◌↔◌, ◌≢◌, true, Option, none, some, ◌≡◌, ◌⊎◌, refl, arith,
}
use express_nest_blueprint.Base.Map
use express_nest_blueprint.Base.Text.{codes, to_lower_case, text_eq, text_eq_iff}
use express_nest_blueprint.Users.{
  FieldValue, undefined, flag, word, amount, is_defined, UserData, has_field,
}

-- One of the fields has this name, whatever their cases.
unfoldable pub Sets : String → UserData → Type 0
Sets name [] = ⊥
Sets name ((field, value) ∷ fields) =
    (to_lower_case (codes field) ≡ to_lower_case (codes name)) ⊎ Sets name fields

-- The key `role` itself has a value.
abbrev pub GivesRole : UserData → Type 0
GivesRole fields = (v : FieldValue) × (Map.get fields "role" ≡ some v) × (v ≢ undefined)

pub Sets-case :
    (name lower : String)
    → to_lower_case (codes name) ≡ to_lower_case (codes lower)
    → (fields : UserData) → Sets name fields ↔ Sets lower fields
unfolding Sets
Sets-case name lower h [] = ground arith
Sets-case name lower h ((field, value) ∷ fields) =
    rw h (ground (arith, Sets-case name lower h fields))

-- What the loop over the names finds in the fields.
unfoldable pub Finds : List String → UserData → Type 0
Finds [] fields = ⊥
Finds (name ∷ names) fields = Sets name fields ⊎ Finds names fields

Matches : List String → String → Type 0
Matches [] field = ⊥
Matches (name ∷ names) field =
    (to_lower_case (codes field) ≡ to_lower_case (codes name)) ⊎ Matches names field

Matches-iff :
    (names : List String) (field : String)
    → (any (λ name. text_eq (to_lower_case (codes field)) (to_lower_case (codes name))) names
        ≡ true)
      ↔ Matches names field
unfolding Matches
Matches-iff [] field = ground arith
Matches-iff (name ∷ names) field = ground (
  arith,
  text_eq_iff (to_lower_case (codes field)) (to_lower_case (codes name)),
  Matches-iff names field,
)

Finds-∷ :
    (names : List String) (field : String) (value : FieldValue) (fields : UserData)
    → Finds names ((field, value) ∷ fields) ↔ (Matches names field ⊎ Finds names fields)
unfolding Finds Matches Sets
Finds-∷ [] field value fields = ground arith
Finds-∷ (name ∷ names) field value fields = ground (arith, Finds-∷ names field value fields)

Finds-[] : (names : List String) → ¬ Finds names []
unfolding Finds Sets
Finds-[] [] = ground arith
Finds-[] (name ∷ names) = ground (arith, Finds-[] names)

pub has_field_iff :
    (names : List String) (fields : UserData) → (has_field names fields ≡ true) ↔ Finds names fields
unfolding has_field
has_field_iff names [] = ground (arith, Finds-[] names)
has_field_iff names ((field, value) ∷ fields) =
    ground
      (arith, Matches-iff names field, Finds-∷ names field value fields, has_field_iff names fields)

pub is_defined_iff :
    (given : Option FieldValue)
    → (is_defined given ≡ true) ↔ ((v : FieldValue) × (given ≡ some v) × (v ≢ undefined))
is_defined_iff none = (λ h. ground (arith, h), λ (v, e, n). ground (arith, e))
is_defined_iff (some undefined) = (λ h. ground (arith, h), λ (v, e, n). ground (arith, e, n))
is_defined_iff (some (flag b)) = (λ h. (flag b, refl, λ e. ground (arith, e)), λ h. refl)
is_defined_iff (some (word t)) = (λ h. (word t, refl, λ e. ground (arith, e)), λ h. refl)
is_defined_iff (some (amount n)) = (λ h. (amount n, refl, λ e. ground (arith, e)), λ h. refl)
