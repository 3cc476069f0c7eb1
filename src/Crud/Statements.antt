-- ===== src/Crud/Statements.antt =====
-- The statements that the CRUD operations come to.
use express_nest_blueprint.Base.{String, ◌≡◌, ap, Option, none, some, List, [], ◌∷◌, get_or}
use express_nest_blueprint.Query.{QueryBuilder}
use express_nest_blueprint.Query.Where.{QueryWithPaginationOptions}
use express_nest_blueprint.Query.Inlined.{Bound, bind_query}
use express_nest_blueprint.Query.Binding.{inlined_select, select_binds}
use express_nest_blueprint.Query.Writes.{inlined_update, update_binds, inlined_insert, insert_binds}
use express_nest_blueprint.Base.Settled.{Settled}
use express_nest_blueprint.Crud.{
  QueryResult, DatabaseAdapter, DatabaseService, awaited, first_row, where_options, find_all,
  find_one, find_by_id, create, update,
}

-- A server runs a statement with the values in their places.
abbrev pub Server : Type 0 → Type 0 → Type 0 → Type 0
Server V Row S = List (Bound V) → S → Settled (QueryResult Row) × S

module _ {V Row S : Type 0} where
  abbrev pub connected : Server V Row S → DatabaseAdapter V Row S
  connected run p s = run (bind_query p.params p.query) s

  abbrev pub service_of : Server V Row S → Server V Row S → DatabaseService V Row S
  service_of reads writes = record {
    read_connection = connected reads;
    write_connection = connected writes;
  }

module _ {V Row S : Type 0} (builder : QueryBuilder) (columns : List String) where
  -- Without a connection of their own, find_all, find_by_id and find_one go to the server for reads, and
  -- create and update to the one for writes, and what they give is that server's answer to the SELECT,
  -- INSERT or UPDATE with each value in its own place.
  pub crud_statements :
      (reads writes : Server V Row S) (options : QueryWithPaginationOptions V) (id : V)
      (entries : List (String × V)) (fields : List (String × Option V))
      (returning : Option (List String)) (s : S)
      → let db = service_of reads writes in
        (find_all builder db columns options none s
          ≡ awaited (λ r. r.rows) (reads (inlined_select builder columns options) s))
        × (find_by_id builder db columns id none s
            ≡ awaited first_row
                (reads (inlined_select builder columns (where_options (("id", id) ∷ []))) s))
        × (find_one builder db columns entries none s
            ≡ awaited first_row (reads (inlined_select builder columns (where_options entries)) s))
        × (create builder db columns entries returning none s
            ≡ awaited first_row
                (writes (inlined_insert builder entries (some (get_or returning columns))) s))
        × (update builder db columns id fields returning none s
            ≡ awaited first_row
                (writes (inlined_update builder id fields (get_or returning columns)) s))
  unfolding find_all find_by_id find_one create update
  crud_statements reads writes options id entries fields returning s = (
    ap (λ q. awaited (λ r. r.rows) (reads q s)) (select_binds builder columns options),
    ap (λ q. awaited first_row (reads q s))
        (select_binds builder columns (where_options (("id", id) ∷ []))),
    ap (λ q. awaited first_row (reads q s)) (select_binds builder columns (where_options entries)),
    ap (λ q. awaited first_row (writes q s))
        (insert_binds builder entries (some (get_or returning columns))),
    ap (λ q. awaited first_row (writes q s))
        (update_binds builder id fields (get_or returning columns)),
  )
