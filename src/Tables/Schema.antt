-- ===== src/Tables/Schema.antt =====
-- SchemaBuilder: packages/backend/core-api/src/modules/admin/services/crud-operations/schema-builder.ts.
use mathlib.Core.List.{append-nil, append_assoc}
use package.text.Mathlib.Text.{◌==◌ as str_eq}
use package.text.Mathlib.TextEquality.{eq_iff}
use express_nest_blueprint.Base.{
  String, true, Option, none, some, get_or, List, [], ◌∷◌, ◌++◌, ◌≡◌, sym, arith, if◌then◌else◌,
}
use express_nest_blueprint.Base.Map
use express_nest_blueprint.Base.Map.{Map, map_laws, get-set}
use express_nest_blueprint.Pages.Columns.{ColumnMetadata}
use express_nest_blueprint.Tables.{RepositoryEntry, Actions, CrudTableOptions, get_table_columns}

pub record TableMetadata : Type 0 where
  pub category : String
  pub name : String
  pub display_name : String
  pub table_name : String
  pub columns : List ColumnMetadata
  pub actions : Actions

abbrev all_actions : Actions
all_actions = record { create = some true; update = some true; delete = some true }

abbrev or_name : Option String → String → String
or_name none d = d
or_name (some t) d = t

-- What the schema tells of one entry, with the columns of its name.
table_of : (String → List ColumnMetadata) → CrudTableOptions → TableMetadata
table_of columns metadata = record {
  category = metadata.category;
  name = metadata.name;
  display_name = or_name metadata.display_name metadata.name;
  table_name = metadata.name;
  columns = columns metadata.name;
  actions = get_or metadata.actions all_actions;
}

placed :
    (c category : String) (schema : Map (List TableMetadata)) (row : TableMetadata)
    (others : List TableMetadata)
    → get_or
          (if str_eq c category
            then some (get_or (Map.get schema c) [] ++ (row ∷ []))
            else Map.get schema category)
          []
        ++ others
      ≡ get_or (Map.get schema category) [] ++ (if str_eq c category then row ∷ others else others)
placed c category schema row others =
    ground (arith, eq_iff c category, append_assoc (get_or (Map.get schema c) []) (row ∷ []) others)

module _ {V S : Type 0} where
  -- The loop over the entries, which pushes to the list of the entry's category.
  add_entries :
      (String → List ColumnMetadata)
      → Map (List TableMetadata)
      → Map (RepositoryEntry V S)
      → Map (List TableMetadata)
  unfolding table_of Map.get Map.set
  add_entries columns schema [] = schema
  add_entries columns schema ((key, entry) ∷ entries) =
      let metadata = entry.metadata in
      add_entries columns
        (Map.set schema metadata.category
          (get_or (Map.get schema metadata.category) [] ++ (table_of columns metadata ∷ [])))
        entries

  unfoldable pub build_table_schema : Map (RepositoryEntry V S) → Map (List TableMetadata)
  unfolding add_entries get_table_columns
  build_table_schema repositories = add_entries (get_table_columns repositories) [] repositories

  -- The tables of a category, in the order of registration.
  unfoldable pub tables_of :
      (String → List ColumnMetadata) → String → Map (RepositoryEntry V S) → List TableMetadata
  unfolding table_of
  tables_of columns category [] = []
  tables_of columns category ((key, entry) ∷ entries) =
      let others = tables_of columns category entries in
      if str_eq entry.metadata.category category
      then table_of columns entry.metadata ∷ others
      else others

  get-add_entries :
      (columns : String → List ColumnMetadata) (schema : Map (List TableMetadata))
      (entries : Map (RepositoryEntry V S)) (category : String)
      → get_or (Map.get (add_entries columns schema entries) category) []
        ≡ get_or (Map.get schema category) [] ++ tables_of columns category entries
  unfolding add_entries tables_of
  get-add_entries columns schema [] category = sym (append-nil _)
  get-add_entries columns schema ((key, entry) ∷ entries) category =
      let c = entry.metadata.category in
      let row = table_of columns entry.metadata in
      let v = get_or (Map.get schema c) [] ++ (row ∷ []) in
      rw
        (get-add_entries columns (Map.set schema c v) entries category, get-set schema c category v)
        (placed c category schema row (tables_of columns category entries))

-- The schema has under each category the tables of that category, in the order of registration, each
-- with the columns that its name has.
pub get-build_table_schema :
    {V S : Type 0} (repositories : Map (RepositoryEntry V S)) (category : String)
    → get_or (Map.get (build_table_schema repositories) category) []
      ≡ tables_of (get_table_columns repositories) category repositories
unfolding build_table_schema Map.get
get-build_table_schema repositories category =
    get-add_entries (get_table_columns repositories) [] repositories category
