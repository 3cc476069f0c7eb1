-- ===== src/Query/Where.antt =====
-- WhereBuilder: packages/backend/common/src/infrastructure/database/query-builder/where-builder.ts,
-- and the options that it reads. The `params` array that the source shares and pushes to is passed on
-- and returned.
pub mod Binding
use Prim.Native.String
use package.text.Mathlib.Text.{◌==◌ as str_eq}
use express_nest_blueprint.Base.{
  ℕ, suc, String, Bool, not, ◌&&◌, Option, none, some, List, [], ◌∷◌, ◌++◌, map, get_or,
  if◌then◌else◌, length, ◌==◌,
}
use express_nest_blueprint.Base.Int.{ℤ}
use express_nest_blueprint.Base.Map
use express_nest_blueprint.Base.Map.{Map}
use express_nest_blueprint.Query.Sql.{raw, hole, Query, join}

pub record WhereCondition (V : Type 0) : Type 0 where
  pub field : String
  pub operator : String
  pub value : V

-- `where`: an object, by its entries, or an array of conditions.
pub data Where (V : Type 0) : Type 0 where
  object : List (String × V) → Where V
  array : List (WhereCondition V) → Where V

pub record SearchOption : Type 0 where
  pub fields : List String
  pub term : String

pub record QueryWithPaginationOptions (V : Type 0) : Type 0 where
  pub filter : Option (Where V)
  pub search : Option SearchOption
  pub order_by : Option String
  pub order_direction : Option String
  pub limit : Option ℤ
  pub offset : Option ℤ

-- The values that a query is sent with.
pub data Param (V : Type 0) : Type 0 where
  value : V → Param V
  pattern_text : String → Param V
  number : ℤ → Param V

-- `columnMappings[key] || key`.
unfoldable pub db_column : Map String → String → String
db_column mappings key =
    let mapped = get_or (Map.get mappings key) "" in if str_eq mapped "" then key else mapped

-- What a builder returns: its conditions, the params with what it pushed, and the next index.
abbrev pub Built : Type 0 → Type 0
Built V = List Query × List (Param V) × ℕ

search_condition : Map String → ℕ → String → Query
search_condition mappings index field =
    raw "LOWER(" ∷ raw (db_column mappings field) ∷ raw ") LIKE LOWER(" ∷ hole index ∷ raw ")" ∷ []

abbrev pub is_wanted : SearchOption → Bool
is_wanted s = not (length s.fields == 0) && not (str_eq s.term "")

module _ {V : Type 0} where
  object_conditions : Map String → List (String × V) → List (Param V) → ℕ → Built V
  object_conditions mappings [] params index = ([], params, index)
  object_conditions mappings ((key, v) ∷ entries) params index =
      let (conditions, params', index') =
        object_conditions mappings entries (params ++ value v ∷ []) (suc index) in
      ((raw (db_column mappings key) ∷ raw " = " ∷ hole index ∷ []) ∷ conditions, params', index')

  build_object_conditions : Map String → Option (Where V) → List (Param V) → ℕ → Built V
  unfolding object_conditions
  build_object_conditions mappings (some (object entries)) params index =
      object_conditions mappings entries params index
  build_object_conditions mappings _ params index = ([], params, index)

  array_conditions : Map String → List (WhereCondition V) → List (Param V) → ℕ → Built V
  array_conditions mappings [] params index = ([], params, index)
  array_conditions mappings (c ∷ cs) params index =
      let (conditions, params', index') =
        array_conditions mappings cs (params ++ value c.value ∷ []) (suc index) in
      (
        (raw (db_column mappings c.field) ∷ raw " " ∷ raw c.operator ∷ raw " " ∷ hole index ∷ [])
            ∷ conditions,
        params',
        index',
      )

  build_array_conditions : Map String → Option (Where V) → List (Param V) → ℕ → Built V
  unfolding array_conditions
  build_array_conditions mappings (some (array cs)) params index =
      array_conditions mappings cs params index
  build_array_conditions mappings _ params index = ([], params, index)

  search_conditions : Map String → SearchOption → List (Param V) → ℕ → Built V
  unfolding search_condition
  search_conditions mappings s params index =
      if is_wanted s
      then (
        (raw "(" ∷ join " OR " (map (search_condition mappings index) s.fields) ++ raw ")" ∷ [])
            ∷ [],
        params ++ pattern_text (String.◌++◌ "%" (String.◌++◌ s.term "%")) ∷ [],
        suc index,
      )
      else ([], params, index)

  build_search_conditions : Map String → Option SearchOption → List (Param V) → ℕ → Built V
  unfolding search_conditions
  build_search_conditions mappings none params index = ([], params, index)
  build_search_conditions mappings (some s) params index = search_conditions mappings s params index

  unfoldable pub build_where_conditions :
      Map String → QueryWithPaginationOptions V → List (Param V) → ℕ → Built V
  unfolding build_object_conditions build_array_conditions build_search_conditions
  build_where_conditions mappings options params index =
      let (objects, params₁, index₁) =
        build_object_conditions mappings options.filter params index in
      let (arrays, params₂, index₂) =
        build_array_conditions mappings options.filter params₁ index₁ in
      let (searches, params₃, index₃) =
        build_search_conditions mappings options.search params₂ index₂ in
      (objects ++ (arrays ++ searches), params₃, index₃)
