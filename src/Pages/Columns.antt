-- ===== src/Pages/Columns.antt =====
-- What QueryMethods tells of the columns of a table:
-- packages/backend/common/src/infrastructure/database/repository-extensions/query-methods.ts.
use package.text.Mathlib.Text.{◌==◌ as str_eq}
use express_nest_blueprint.Base.{
  String, Bool, not, ◌||◌, List, [], ◌∷◌, any, filter, map, if◌then◌else◌,
}
use express_nest_blueprint.Base.Text.{codes, includes, starts_with}

-- `getSearchableFields`, on all the fields.
pub get_searchable_fields : List String → List String
get_searchable_fields = filter (λ field. not (
    any (str_eq field) (
      "id" ∷ "password" ∷ "passwordHash" ∷ "password_hash" ∷ "createdAt" ∷ "updatedAt"
      ∷ "created_at" ∷ "updated_at" ∷ [])))

pub is_column_required : String → Bool
is_column_required name = not (any (str_eq name) ("profileImageUrl" ∷ "lastLogin" ∷ []))

pub is_column_editable : String → Bool
is_column_editable name =
    not (any (str_eq name) ("id" ∷ "createdAt" ∷ "updatedAt" ∷ "lastLogin" ∷ []))

unfoldable pub infer_column_type : String → String
infer_column_type name =
    if str_eq name "id"
    then "number"
    else if includes (codes name) (codes "Date") || includes (codes name) (codes "At")
    then "datetime"
    else if starts_with (codes name) (codes "is")
        || includes (codes name) (codes "Active")
        || includes (codes name) (codes "Verified")
    then "boolean"
    else "string"

pub record ColumnMetadata : Type 0 where
  pub name : String
  pub column_type : String
  pub required : Bool
  pub editable : Bool

-- `getColumnMetadata`, with BaseRepository's arguments.
pub get_column_metadata : List String → List ColumnMetadata
unfolding infer_column_type is_column_required is_column_editable
get_column_metadata = map (λ column. record {
  name = column;
  column_type = infer_column_type column;
  required = is_column_required column;
  editable = is_column_editable column;
})
