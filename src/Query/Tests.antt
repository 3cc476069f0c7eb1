-- ===== src/Query/Tests.antt =====
-- Queries at concrete inputs: the text that goes to the server, and witnesses.
use express_nest_blueprint.Base.{ℕ, ◌≡◌, none, some, [], ◌∷◌, refl}
use express_nest_blueprint.Base.Int.{pos}
use express_nest_blueprint.Base.Map
use express_nest_blueprint.Base.Map.{Map}
use express_nest_blueprint.Query.Sql.{render, intercalate}
use express_nest_blueprint.Query.Where.{
  object, QueryWithPaginationOptions, value, pattern_text, number, db_column,
}
use express_nest_blueprint.Query.Inlined.{bind_query}
use express_nest_blueprint.Query.Binding.{inlined_select, select_binds}
use express_nest_blueprint.Query.{
  QueryBuilder, build_select_query, build_update_query, set_clauses, defined, update_returning,
  map_columns,
}

abbrev users : QueryBuilder
users = record { table_name = "users"; column_mappings = ("firstName", "first_name") ∷ [] }

abbrev found : QueryWithPaginationOptions ℕ
found = record {
  filter = some (object (("firstName", 7) ∷ ("role", 8) ∷ []));
  search = some (record { fields = "email" ∷ "firstName" ∷ []; term = "ann" });
  order_by = some "id";
  order_direction = none;
  limit = some (pos 10);
  offset = some (pos 0);
}

queries : Unit {0}
unfolding build_select_query build_update_query set_clauses defined update_returning render
    intercalate db_column map_columns Map.get
queries = tt

select_text :
    render (build_select_query users ("id" ∷ "firstName" ∷ []) found).query
    ≡ "SELECT id, first_name as \"firstName\" FROM users WHERE first_name = $1 AND role = $2 AND (LOWER(email) LIKE LOWER($3) OR LOWER(first_name) LIKE LOWER($3)) ORDER BY id ASC LIMIT $4"
unfolding queries
select_text = refl

select_params :
    (build_select_query users ("id" ∷ []) found).params
    ≡ value 7 ∷ value 8 ∷ pattern_text "%ann%" ∷ number (pos 10) ∷ []
unfolding queries
select_params = refl

update_text :
    render
      (build_update_query {V = ℕ} users 4
        (("firstName", some 1) ∷ ("role", none) ∷ ("email", some 2) ∷ [])
        []).query
    ≡ "\n      UPDATE users \n      SET first_name = $1, email = $2, updated_at = CURRENT_TIMESTAMP\n      WHERE id = $3\n      \n    "
unfolding queries
update_text = refl

select_binds_example :
    bind_query {V = ℕ}
      (build_select_query users ("id" ∷ []) found).params
      (build_select_query users ("id" ∷ []) found).query
    ≡ inlined_select users ("id" ∷ []) found
select_binds_example = select_binds users ("id" ∷ []) found
