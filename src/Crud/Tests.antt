-- ===== src/Crud/Tests.antt =====
-- A table of users on a server that answers each statement with its number of pieces.
use express_nest_blueprint.Base.{ℕ, suc, String, ◌≡◌, none, some, List, [], ◌∷◌, length}
use express_nest_blueprint.Query.{QueryBuilder}
use express_nest_blueprint.Query.Binding.{inlined_select}
use express_nest_blueprint.Query.Writes.{inlined_update, inlined_insert}
use express_nest_blueprint.Base.Settled.{ok}
use express_nest_blueprint.Crud.{
  awaited, first_row, where_options, find_all, find_one, find_by_id, create, update,
}
use express_nest_blueprint.Crud.Statements.{Server, service_of, crud_statements}

abbrev users : QueryBuilder
users = record { table_name = "users"; column_mappings = ("firstName", "first_name") ∷ [] }

abbrev columns : List String
columns = "id" ∷ "firstName" ∷ []

abbrev server : Server ℕ ℕ ℕ
server statement s = (ok (record { rows = length statement ∷ []; row_count = 1 }), suc s)

abbrev named : List (String × ℕ)
named = ("firstName", 5) ∷ []

crud_statements_example :
    (find_all users (service_of server server) columns (where_options named) none 3
      ≡ awaited (λ r. r.rows) (server (inlined_select users columns (where_options named)) 3))
    × (find_by_id users (service_of server server) columns 7 none 3
        ≡ awaited first_row
            (server (inlined_select users columns (where_options (("id", 7) ∷ []))) 3))
    × (find_one users (service_of server server) columns named none 3
        ≡ awaited first_row (server (inlined_select users columns (where_options named)) 3))
    × (create users (service_of server server) columns named none none 3
        ≡ awaited first_row (server (inlined_insert users named (some columns)) 3))
    × (update users (service_of server server) columns 7 (("firstName", some 6) ∷ []) none none 3
        ≡ awaited first_row
            (server (inlined_update users 7 (("firstName", some 6) ∷ []) columns) 3))
crud_statements_example =
    crud_statements users columns server server (where_options named) 7 named
      (("firstName", some 6) ∷ []) none 3
