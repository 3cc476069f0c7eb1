-- ===== src/Query.antt =====
-- QueryBuilder: packages/backend/common/src/infrastructure/database/query-builder.ts. A query is a
-- list of pieces, text and placeholders, so that what a placeholder stands for can be said;
-- `Sql.render` gives the text that the source builds.
pub mod Sql
pub mod Where
pub mod Inlined
pub mod Binding
pub mod Writes
mod Tests
use text.Mathlib.Text.{◌==◌ as str_eq}
use express_nest_blueprint.Base.{
  ℕ, suc, String, Bool, true, false, Option, none, some, List, [], ◌∷◌, ◌++◌, map, get_or,
  if◌then◌else◌,
}
use express_nest_blueprint.Base.Int.{ℤ, is_nat}
use express_nest_blueprint.Base.Map
use express_nest_blueprint.Base.Map.{Map}
use Sql.{raw, hole, Query, join}
use Where.{
  QueryWithPaginationOptions, Param, value, number, Built, db_column, build_where_conditions,
}

pub record QueryBuilder : Type 0 where
  pub table_name : String
  pub column_mappings : Map String

-- A query and the values of its placeholders, `{ query, params }`.
pub record Prepared (V : Type 0) : Type 0 where
  pub query : Query
  pub params : List (Param V)

map_column : Map String → String → Query
map_column mappings col =
    let mapping = get_or (Map.get mappings col) "" in
    if str_eq mapping "" then raw col ∷ [] else raw mapping ∷ raw " as \"" ∷ raw col ∷ raw "\"" ∷ []

pub map_columns : Map String → List String → Query
unfolding map_column
map_columns mappings columns = join ", " (map (map_column mappings) columns)

returned_column : Map String → String → Query
returned_column mappings col = raw (db_column mappings col) ∷ raw " AS \"" ∷ raw col ∷ raw "\"" ∷ []

update_returning : Map String → List String → Query
unfolding returned_column
update_returning mappings [] = []
update_returning mappings columns =
    raw "RETURNING " ∷ join ", " (map (returned_column mappings) columns)

is_empty : List Query → Bool
is_empty [] = true
is_empty _ = false

-- `if (conditions.length > 0) query += ...`
add_conditions : List Query → Query → Query
unfolding is_empty
add_conditions conditions query =
    if is_empty conditions then query else query ++ raw " WHERE " ∷ join " AND " conditions

module _ {V : Type 0} where
  order_clause : QueryBuilder → QueryWithPaginationOptions V → Query
  order_clause b options =
      let column = get_or options.order_by "" in
      let direction = get_or options.order_direction "" in
      if str_eq column ""
      then []
      else (raw " ORDER BY "
          ∷ raw (db_column b.column_mappings column)
          ∷ raw " "
          ∷ raw (if str_eq direction "" then "ASC" else direction)
          ∷ [])

  -- A page's clause, ` LIMIT $k` or ` OFFSET $k`, its param and the next index.
  page_clause : String → Option ℤ → ℕ → Query × List (Param V) × ℕ
  page_clause words none index = ([], [], index)
  page_clause words (some z) index =
      if is_nat z 0
      then ([], [], index)
      else (raw words ∷ hole index ∷ [], number z ∷ [], suc index)

  pub build_select_query : QueryBuilder → List String → QueryWithPaginationOptions V → Prepared V
  unfolding build_where_conditions add_conditions order_clause page_clause
  build_select_query b columns options =
      let start =
        raw "SELECT " ∷ map_columns b.column_mappings columns
        ++ raw " FROM " ∷ raw b.table_name ∷ [] in
      let (conditions, params, index) = build_where_conditions b.column_mappings options [] 1 in
      let query = add_conditions conditions start ++ order_clause b options in
      let after_where = if is_empty conditions then 1 else index in
      let (limit_clause, limit_params, after_limit) =
        page_clause " LIMIT " options.limit after_where in
      let (offset_clause, offset_params, _) = page_clause " OFFSET " options.offset after_limit in
      record {
        query = query ++ (limit_clause ++ offset_clause);
        params = params ++ (limit_params ++ offset_params);
      }

  pub build_count_query : QueryBuilder → QueryWithPaginationOptions V → Prepared V
  unfolding build_where_conditions add_conditions
  build_count_query b options =
      let built = build_where_conditions b.column_mappings options [] 1 in
      record {
        query =
            add_conditions built.0 (raw "SELECT COUNT(*) as count FROM " ∷ raw b.table_name ∷ []);
        params = built.1;
      }

  pub build_delete_query : QueryBuilder → V → Prepared V
  build_delete_query b id = record {
    query = raw "DELETE FROM " ∷ raw b.table_name ∷ raw " WHERE id = " ∷ hole 1 ∷ [];
    params = value id ∷ [];
  }

  -- The assignments of UPDATE, the params pushed for them and the next index.
  set_clauses : Map String → List (String × V) → ℕ → List Query × List (Param V) × ℕ
  set_clauses mappings [] index = ([], [], index)
  set_clauses mappings ((col, v) ∷ rest) index =
      let (clauses, params, index') = set_clauses mappings rest (suc index) in
      (
        (raw (db_column mappings col) ∷ raw " = " ∷ hole index ∷ []) ∷ clauses,
        value v ∷ params,
        index',
      )

  -- The columns whose value is not `undefined`.
  defined : List (String × Option V) → List (String × V)
  defined [] = []
  defined ((col, none) ∷ rest) = defined rest
  defined ((col, some v) ∷ rest) = (col, v) ∷ defined rest

  pub build_update_query : QueryBuilder → V → List (String × Option V) → List String → Prepared V
  build_update_query b id fields returning =
      let (clauses, params, index) = set_clauses b.column_mappings (defined fields) 1 in
      record {
        query =
            raw "\n      UPDATE " ∷ raw b.table_name ∷ raw " \n      SET " ∷ join ", " clauses
            ++ raw ", updated_at = CURRENT_TIMESTAMP\n      WHERE id = "
              ∷ hole index
              ∷ raw "\n      "
              ∷ update_returning b.column_mappings returning
            ++ raw "\n    " ∷ [];
        params = params ++ value id ∷ [];
      }

  -- `values.map((_, index) => ...)`, from an index on.
  placeholders : List (String × V) → ℕ → List Query
  placeholders [] index = []
  placeholders (_ ∷ rest) index = (hole index ∷ []) ∷ placeholders rest (suc index)

  pub build_insert_query : QueryBuilder → List (String × V) → Option (List String) → Prepared V
  unfolding placeholders returned_column
  build_insert_query b fields returning =
      let columns = map (λ (f : String × V). f.0) fields in
      let columns_to_return = get_or returning columns in
      record {
        query =
            raw "\n      INSERT INTO "
              ∷ raw b.table_name
              ∷ raw " ("
              ∷ join ", " (map (λ c. raw (db_column b.column_mappings c) ∷ []) columns)
            ++ raw ")\n      VALUES (" ∷ join ", " (placeholders fields 1)
            ++ raw ")\n      RETURNING "
              ∷ join ", " (map (returned_column b.column_mappings) columns_to_return)
            ++ raw "\n    " ∷ [];
        params = map (λ (f : String × V). value f.1) fields;
      }
