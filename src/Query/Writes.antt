-- ===== src/Query/Writes.antt =====
-- INSERT and UPDATE: every placeholder stands for the value of its column.
use mathlib.Core.List.{map-append}
use mathlib.Core.Path.{subst, ap₂}
use express_nest_blueprint.Base.{
  ℕ, suc, ◌+◌, ◌≡◌, refl, ap, String, Option, List, [], ◌∷◌, ◌++◌, map, length, arith, get_or,
  length-map,
}
use express_nest_blueprint.Base.Map.{Map}
use express_nest_blueprint.Query.Sql.{raw, hole, Query, intercalate}
use express_nest_blueprint.Query.Where.{Param, value, db_column}
use express_nest_blueprint.Query.Inlined.{Bound, words, sent, bind_query, At}
use express_nest_blueprint.Query.Where.Binding.{map-intercalate, At-append, At-all}
use express_nest_blueprint.Query.{
  QueryBuilder, build_update_query, build_insert_query, set_clauses, defined, update_returning,
  placeholders, returned_column,
}

module _ {V : Type 0} where
  abbrev plain : Query → List (Bound V)
  plain = bind_query []

  abbrev values : List (String × V) → List (Param V)
  values = map (λ (f : String × V). value f.1)

  abbrev assigned : Map String → String × V → List (Bound V)
  assigned mappings (col, v) = words (db_column mappings col) ∷ words " = " ∷ sent (value v) ∷ []

  set_clauses_state :
      (mappings : Map String) (fields : List (String × V)) (index : ℕ)
      → ((set_clauses mappings fields index).1 ≡ values fields)
        × ((set_clauses mappings fields index).2 ≡ index + length fields)
  unfolding set_clauses
  set_clauses_state mappings [] index = (refl, omega arith)
  set_clauses_state mappings ((col, v) ∷ fields) index =
      let (p, i) = set_clauses_state mappings fields (suc index) in
      (ap (λ vs. value v ∷ vs) p, omega (arith, i))

  set_clauses_bind :
      (mappings : Map String) (fields : List (String × V)) (P : List (Param V)) (index : ℕ)
      → At P index (values fields)
      → map (bind_query P) (set_clauses mappings fields (suc index)).0
        ≡ map (assigned mappings) fields
  unfolding set_clauses
  set_clauses_bind mappings [] P index h = refl
  set_clauses_bind mappings ((col, v) ∷ fields) P index (h, hs) =
      cc (h, set_clauses_bind mappings fields P (suc index) hs)

  placeholders_bind :
      (fields : List (String × V)) (P : List (Param V)) (index : ℕ)
      → At P index (values fields)
      → map (bind_query P) (placeholders fields (suc index))
        ≡ map (λ (f : String × V). sent (value f.1) ∷ []) fields
  unfolding placeholders
  placeholders_bind [] P index h = refl
  placeholders_bind (f ∷ fields) P index (h, hs) = cc (h, placeholders_bind fields P (suc index) hs)

  returned_plain :
      (mappings : Map String) (P : List (Param V)) (columns : List String)
      → map (bind_query P) (map (returned_column mappings) columns)
        ≡ map plain (map (returned_column mappings) columns)
  unfolding returned_column
  returned_plain mappings P [] = refl
  returned_plain mappings P (c ∷ cs) = ap₂ (λ q qs. q ∷ qs) refl (returned_plain mappings P cs)

  columns_plain :
      (mappings : Map String) (P : List (Param V)) (columns : List String)
      → map (bind_query P) (map (λ c. raw (db_column mappings c) ∷ []) columns)
        ≡ map (λ c. words (db_column mappings c) ∷ []) columns
  columns_plain mappings P [] = refl
  columns_plain mappings P (c ∷ cs) = ap₂ (λ q qs. q ∷ qs) refl (columns_plain mappings P cs)

  update_returning-plain :
      (mappings : Map String) (P : List (Param V)) (columns : List String)
      → bind_query P (update_returning mappings columns) ≡ plain (update_returning mappings columns)
  unfolding update_returning
  update_returning-plain mappings P [] = refl
  update_returning-plain mappings P (c ∷ cs) =
      ap (λ qs. words "RETURNING " ∷ qs)
        (simp map-intercalate (ap (intercalate (words ", ")) (returned_plain mappings P (c ∷ cs))))

  -- UPDATE with the values in their places.
  pub inlined_update : QueryBuilder → V → List (String × Option V) → List String → List (Bound V)
  inlined_update b id fields returning =
      words "\n      UPDATE "
        ∷ words b.table_name
        ∷ words " \n      SET "
        ∷ intercalate (words ", ") (map (assigned b.column_mappings) (defined fields))
      ++ words ", updated_at = CURRENT_TIMESTAMP\n      WHERE id = "
        ∷ sent (value id)
        ∷ words "\n      "
        ∷ plain (update_returning b.column_mappings returning)
      ++ words "\n    " ∷ []

  update_parts_bind :
      (b : QueryBuilder) (id : V) (fields : List (String × Option V)) (returning : List String)
      (P : List (Param V)) (n : ℕ)
      → At P 0 (values (defined fields))
      → At P n (value id ∷ [])
      → bind_query P (
          raw "\n      UPDATE "
            ∷ raw b.table_name
            ∷ raw " \n      SET "
            ∷ intercalate (raw ", ") (set_clauses b.column_mappings (defined fields) 1).0
          ++ raw ", updated_at = CURRENT_TIMESTAMP\n      WHERE id = "
            ∷ hole (suc n)
            ∷ raw "\n      "
            ∷ update_returning b.column_mappings returning
          ++ raw "\n    " ∷ [])
        ≡ inlined_update b id fields returning
  unfolding inlined_update
  update_parts_bind b id fields returning P n assigned_at (id_at, _) = simp (
    map-append,
    map-intercalate,
    set_clauses_bind b.column_mappings (defined fields) P 0 assigned_at,
    update_returning-plain,
    id_at,
  )

  update_parts :
      (b : QueryBuilder) (id : V) (fields : List (String × Option V)) (returning : List String)
      → build_update_query b id fields returning ≡ record {
        query =
            raw "\n      UPDATE "
              ∷ raw b.table_name
              ∷ raw " \n      SET "
              ∷ intercalate (raw ", ") (set_clauses b.column_mappings (defined fields) 1).0
            ++ raw ", updated_at = CURRENT_TIMESTAMP\n      WHERE id = "
              ∷ hole (suc (length (defined fields)))
              ∷ raw "\n      "
              ∷ update_returning b.column_mappings returning
            ++ raw "\n    " ∷ [];
        params = values (defined fields) ++ value id ∷ [];
      }
  unfolding build_update_query
  update_parts b id fields returning =
      let (p, i) = set_clauses_state b.column_mappings (defined fields) 1 in
      let next : (set_clauses b.column_mappings (defined fields) 1).2
          ≡ suc (length (defined fields)) =
        omega (arith, i) in
      rw (← p, ← next) refl

  -- UPDATE sets each column whose value is not undefined to that value, in the order given, for the
  -- row of the id, whatever the number of columns; the others are left out.
  pub update_binds :
      (b : QueryBuilder) (id : V) (fields : List (String × Option V)) (returning : List String)
      → bind_query
          (build_update_query b id fields returning).params
          (build_update_query b id fields returning).query
        ≡ inlined_update b id fields returning
  update_binds b id fields returning =
      let vs = values (defined fields) in
      let P = vs ++ value id ∷ [] in
      let (assigned_at, id_at) = At-append P 0 vs (value id ∷ []) (At-all [] P) in
      rw (update_parts b id fields returning) (
        update_parts_bind b id fields returning P (length (defined fields)) assigned_at (
          subst (λ (k : ℕ). At P k (value id ∷ []))
            (omega (arith, length-map (λ (f : String × V). value f.1) (defined fields))) id_at))

  -- INSERT with the values in their places.
  pub inlined_insert : QueryBuilder → List (String × V) → Option (List String) → List (Bound V)
  inlined_insert b fields returning =
      words "\n      INSERT INTO "
        ∷ words b.table_name
        ∷ words " ("
        ∷ intercalate (words ", ") (
            map (λ c. words (db_column b.column_mappings c) ∷ [])
              (map (λ (f : String × V). f.0) fields))
      ++ words ")\n      VALUES ("
        ∷ intercalate (words ", ") (map (λ (f : String × V). sent (value f.1) ∷ []) fields)
      ++ words ")\n      RETURNING "
        ∷ intercalate (words ", ") (
            map plain (
              map (returned_column b.column_mappings)
                (get_or returning (map (λ (f : String × V). f.0) fields))))
      ++ words "\n    " ∷ []

  -- INSERT gives each column its own value, in the order given.
  pub insert_binds :
      (b : QueryBuilder) (fields : List (String × V)) (returning : Option (List String))
      → bind_query
          (build_insert_query b fields returning).params
          (build_insert_query b fields returning).query
        ≡ inlined_insert b fields returning
  unfolding build_insert_query inlined_insert
  insert_binds b fields returning = simp (
    map-append,
    map-intercalate,
    placeholders_bind fields (values fields) 0 (At-all [] (values fields)),
    columns_plain,
    returned_plain,
  )
