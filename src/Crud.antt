-- ===== src/Crud.antt =====
-- CrudOperations: packages/backend/common/src/infrastructure/database/repository-extensions/
-- crud-operations.ts. A connection takes a prepared query to the database, with its state `S`; the
-- connections are a parameter.
pub mod Statements
mod Tests
use express_nest_blueprint.Base.{
  ℕ, zero, suc, String, Bool, true, false, Option, none, some, List, [], ◌∷◌, get_or,
}
use express_nest_blueprint.Query.{
  QueryBuilder, Prepared, build_select_query, build_insert_query, build_update_query,
  build_delete_query, build_count_query,
}
use express_nest_blueprint.Query.Where.{object, QueryWithPaginationOptions}
use express_nest_blueprint.Base.Settled.{Settled, ok, throws}

pub record QueryResult (Row : Type 0) : Type 0 where
  pub rows : List Row
  pub row_count : ℕ

-- `db.query(query, params)`.
abbrev pub DatabaseAdapter : Type 0 → Type 0 → Type 0 → Type 0
DatabaseAdapter V Row S = Prepared V → S → Settled (QueryResult Row) × S

pub record DatabaseService (V Row S : Type 0) : Type 0 where
  pub read_connection : DatabaseAdapter V Row S
  pub write_connection : DatabaseAdapter V Row S

-- After `await db.query(...)`.
unfoldable pub awaited :
    {Row A S : Type 0} → (QueryResult Row → A) → Settled (QueryResult Row) × S → Settled A × S
awaited f (ok r, s) = (ok (f r), s)
awaited f (throws e, s) = (throws e, s)

-- `result.rows[0] || null`.
abbrev pub first_row : {Row : Type 0} → QueryResult Row → Option Row
first_row r = elim r.rows [ [] ↦ none | row ∷ _ ↦ some row ]

abbrev pub deleted_any : {Row : Type 0} → QueryResult Row → Bool
deleted_any r = elim r.row_count [ zero ↦ false | suc _ ↦ true ]

-- The options `{ where }`.
abbrev pub where_options : {V : Type 0} → List (String × V) → QueryWithPaginationOptions V
where_options entries = record {
  filter = some (object entries);
  search = none;
  order_by = none;
  order_direction = none;
  limit = none;
  offset = none;
}

module _ {V Row S : Type 0} (builder : QueryBuilder) (service : DatabaseService V Row S)
    (select_columns : List String) where
  pub find_all :
      QueryWithPaginationOptions V → Option (DatabaseAdapter V Row S) → S → Settled (List Row) × S
  find_all options connection s =
      let db = get_or connection service.read_connection in
      awaited (λ r. r.rows) (db (build_select_query builder select_columns options) s)

  pub find_one : List (String × V) → Option (DatabaseAdapter V Row S) → S → Settled (Option Row) × S
  find_one entries connection s =
      let db = get_or connection service.read_connection in
      awaited first_row (db (build_select_query builder select_columns (where_options entries)) s)

  pub find_by_id : V → Option (DatabaseAdapter V Row S) → S → Settled (Option Row) × S
  find_by_id id connection s =
      let db = get_or connection service.read_connection in
      awaited first_row
        (db (build_select_query builder select_columns (where_options (("id", id) ∷ []))) s)

  pub create :
      List (String × V)
      → Option (List String)
      → Option (DatabaseAdapter V Row S)
      → S
      → Settled (Option Row) × S
  create fields returning connection s =
      let db = get_or connection service.write_connection in
      awaited first_row
        (db (build_insert_query builder fields (some (get_or returning select_columns))) s)

  pub update :
      V
      → List (String × Option V)
      → Option (List String)
      → Option (DatabaseAdapter V Row S)
      → S
      → Settled (Option Row) × S
  update id fields returning connection s =
      let db = get_or connection service.write_connection in
      awaited first_row
        (db (build_update_query builder id fields (get_or returning select_columns)) s)

  pub delete : V → Option (DatabaseAdapter V Row S) → S → Settled Bool × S
  delete id connection s =
      let db = get_or connection service.write_connection in
      awaited deleted_any (db (build_delete_query builder id) s)

  -- `parse` is parseInt on the `count` of the first row.
  pub count :
      {N : Type 0}
      → (Option Row → N)
      → QueryWithPaginationOptions V
      → Option (DatabaseAdapter V Row S)
      → S
      → Settled N × S
  count parse options connection s =
      let db = get_or connection service.read_connection in
      awaited (λ r. parse (first_row r)) (db (build_count_query builder options) s)
