-- ===== src/Query/Binding.antt =====
-- Every placeholder of a prepared query stands for the value that belongs in its place.
use mathlib.Core.List.{map-append, append_assoc, append-nil}
use mathlib.Core.Path.{subst, ap₂}
use express_nest_blueprint.Base.{
  ℕ, suc, ◌+◌, ◌≡◌, refl, ap, sym, String, Option, none, some, List, [], ◌∷◌, ◌++◌, map, length,
  if◌then◌else◌, arith, Bool-cases, inl, inr,
}
use express_nest_blueprint.Base.Int.{ℤ, is_nat}
use express_nest_blueprint.Base.Map.{Map}
use express_nest_blueprint.Query.Sql.{raw, Query, intercalate}
use express_nest_blueprint.Query.Where.{
  QueryWithPaginationOptions, Param, number, build_where_conditions,
}
use express_nest_blueprint.Query.Inlined.{
  Bound, words, sent, bind_query, At, filter_values, search_values, inlined_where,
}
use express_nest_blueprint.Query.Where.Binding.{
  map-intercalate, At-append, At-all, where_state, where_bind, where_empty,
}
use express_nest_blueprint.Query.{
  QueryBuilder, map_column, map_columns, is_empty, add_conditions, order_clause, page_clause,
  build_select_query, build_count_query,
}

after_where :
    (conditions : List Query) (index : ℕ)
    → (conditions ≡ [] → index ≡ 1)
    → (if is_empty conditions then 1 else index) ≡ index
unfolding is_empty
after_where [] index h = sym (h refl)
after_where (c ∷ cs) index h = refl

module _ {V : Type 0} where
  -- Text alone, which no params change.
  abbrev plain : Query → List (Bound V)
  plain = bind_query []

  abbrev page_values : Option ℤ → List (Param V)
  page_values none = []
  page_values (some z) = if is_nat z 0 then [] else number z ∷ []

  abbrev of_page : String → Option ℤ → List (Bound V)
  of_page clause none = []
  of_page clause (some z) = if is_nat z 0 then [] else words clause ∷ sent (number z) ∷ []

  abbrev of_conditions : List (List (Bound V)) → List (Bound V)
  of_conditions [] = []
  of_conditions (c ∷ cs) = words " WHERE " ∷ intercalate (words " AND ") (c ∷ cs)

  page_state :
      (clause : String) (z : Option ℤ) (index : ℕ)
      → ((page_clause clause z index).1 ≡ page_values z)
        × ((page_clause {V = V} clause z index).2 ≡ index + length (page_values z))
  unfolding page_clause
  page_state clause none index = (refl, omega arith)
  page_state clause (some z) index = ground arith

  page_bind :
      (clause : String) (z : Option ℤ) (P : List (Param V)) (index : ℕ)
      → At P index (page_values z)
      → bind_query P (page_clause {V = V} clause z (suc index)).0 ≡ of_page clause z
  unfolding page_clause
  page_bind clause none P index h = refl
  page_bind clause (some z) P index h = elim (Bool-cases (is_nat z 0)) [
    | inl e ↦ rw e
    | inr e ↦ let (found, _) = rw e at h in rw e (rw found)
  ]

  add_conditions_bind :
      (P : List (Param V)) (conditions : List Query) (query : Query)
      → bind_query P (add_conditions conditions query)
        ≡ bind_query P query ++ of_conditions (map (bind_query P) conditions)
  unfolding add_conditions
  add_conditions_bind P [] query = sym (append-nil _)
  add_conditions_bind P (c ∷ cs) query = simp (map-append, map-intercalate)

  map_columns-plain :
      (mappings : Map String) (columns : List String) (P : List (Param V))
      → bind_query P (map_columns mappings columns) ≡ plain (map_columns mappings columns)
  unfolding map_columns
  map_columns-plain mappings columns P =
      simp map-intercalate (ap (intercalate (words ", ")) (go columns))
    where
      go :
          (cs : List String)
          → map (bind_query P) (map (map_column mappings) cs)
            ≡ map plain (map (map_column mappings) cs)
      go [] = refl
      go (c ∷ cs) = ap₂ (λ q qs. q ∷ qs) (ground arith) (go cs)

  order_clause-plain :
      (b : QueryBuilder) (o : QueryWithPaginationOptions V) (P : List (Param V))
      → bind_query P (order_clause b o) ≡ plain (order_clause b o)
  unfolding order_clause
  order_clause-plain b o P = ground arith

  where_values : QueryWithPaginationOptions V → List (Param V)
  where_values o = filter_values o.filter ++ search_values o.search

  -- SELECT with the values in their places.
  pub inlined_select : QueryBuilder → List String → QueryWithPaginationOptions V → List (Bound V)
  inlined_select b columns o =
      words "SELECT " ∷ plain (map_columns b.column_mappings columns)
      ++ (words " FROM " ∷ words b.table_name ∷ of_conditions (inlined_where b.column_mappings o)
          ++ (plain (order_clause b o)
              ++ (of_page " LIMIT " o.limit ++ of_page " OFFSET " o.offset)))

  select_parts :
      (b : QueryBuilder) (columns : List String) (o : QueryWithPaginationOptions V)
      → let n = length (where_values o) in
        build_select_query b columns o ≡ record {
          query =
              (add_conditions (build_where_conditions b.column_mappings o [] 1).0 (
                  raw "SELECT " ∷ map_columns b.column_mappings columns
                  ++ raw " FROM " ∷ raw b.table_name ∷ [])
                ++ order_clause b o)
              ++ ((page_clause {V = V} " LIMIT " o.limit (suc n)).0
                  ++ (page_clause {V = V} " OFFSET " o.offset
                      (suc (n + length (page_values o.limit)))).0);
          params = where_values o ++ (page_values o.limit ++ page_values o.offset);
        }
  unfolding build_select_query where_values
  select_parts b columns o =
      let (p, i) = where_state b.column_mappings o in
      let a = after_where _ _ (where_empty b.column_mappings o) in
      let (lp, li) = page_state " LIMIT " o.limit (suc (length (where_values o))) in
      let (op, _) =
        page_state " OFFSET " o.offset
          (suc (length (where_values o) + length (page_values o.limit))) in
      let next : (page_clause {V = V} " LIMIT " o.limit (suc (length (where_values o)))).2
          ≡ suc (length (where_values o) + length (page_values o.limit)) =
        omega (arith, li) in
      rw (a, i, p, lp, next, op) refl

  -- The parts of the SELECT under params that hold the values from their indices on.
  select_parts_bind :
      (b : QueryBuilder) (columns : List String) (o : QueryWithPaginationOptions V)
      (P : List (Param V)) (n m : ℕ)
      → At P 0 (where_values o)
      → At P n (page_values o.limit)
      → At P m (page_values o.offset)
      → bind_query P (
          (add_conditions (build_where_conditions b.column_mappings o [] 1).0 (
              raw "SELECT " ∷ map_columns b.column_mappings columns
              ++ raw " FROM " ∷ raw b.table_name ∷ [])
            ++ order_clause b o)
          ++ ((page_clause {V = V} " LIMIT " o.limit (suc n)).0
              ++ (page_clause {V = V} " OFFSET " o.offset (suc m)).0))
        ≡ inlined_select b columns o
  unfolding inlined_select where_values
  select_parts_bind b columns o P n m filtered limited shifted = simp (
    map-append,
    add_conditions_bind,
    append_assoc,
    where_bind b.column_mappings o P filtered,
    map_columns-plain,
    order_clause-plain,
    page_bind " LIMIT " o.limit P n limited,
    page_bind " OFFSET " o.offset P m shifted,
  )

  -- SELECT: whatever the columns, filter, search, order and page, a query with every placeholder
  -- replaced by its param says what was asked for, each value in its own place.
  pub select_binds :
      (b : QueryBuilder) (columns : List String) (o : QueryWithPaginationOptions V)
      → bind_query (build_select_query b columns o).params (build_select_query b columns o).query
        ≡ inlined_select b columns o
  select_binds b columns o =
      let P = where_values o ++ (page_values o.limit ++ page_values o.offset) in
      let n = length (where_values o) in
      let (filtered, paged) =
        At-append P 0 (where_values o) (page_values o.limit ++ page_values o.offset)
          (At-all [] P) in
      let (limited, shifted) = At-append P n (page_values o.limit) (page_values o.offset) (
        subst (λ (k : ℕ). At P k (page_values o.limit ++ page_values o.offset)) (omega arith)
          paged) in
      rw (select_parts b columns o) (
        select_parts_bind b columns o P n (n + length (page_values o.limit)) filtered limited
          shifted)

  -- COUNT with the values in their places.
  pub inlined_count : QueryBuilder → QueryWithPaginationOptions V → List (Bound V)
  inlined_count b o =
      words "SELECT COUNT(*) as count FROM "
      ∷ words b.table_name
      ∷ of_conditions (inlined_where b.column_mappings o)

  -- COUNT has the filter and the search of the SELECT, each value in its place.
  pub count_binds :
      (b : QueryBuilder) (o : QueryWithPaginationOptions V)
      → bind_query (build_count_query b o).params (build_count_query b o).query ≡ inlined_count b o
  unfolding build_count_query inlined_count
  count_binds b o =
      let (p, _) = where_state b.column_mappings o in
      rw p (
        simp (
          add_conditions_bind,
          where_bind b.column_mappings o (filter_values o.filter ++ search_values o.search)
              (At-all [] (filter_values o.filter ++ search_values o.search)),
        ))
