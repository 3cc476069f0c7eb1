-- ===== src/Pages/Search.antt =====
-- The search of retrieveDataWithPagination, in
-- packages/backend/common/src/infrastructure/database/repository-extensions/query-methods.ts.
use express_nest_blueprint.Base.{
  ℕ, suc, ◌*◌, ◌≤◌, ◌≡◌, refl, some, List, [], ◌∷◌, String, length, length-filter-le, arith,
}
use express_nest_blueprint.Base.Slices.{drop, length-drop, take_none}
use express_nest_blueprint.Base.Text.{trim}
use express_nest_blueprint.Base.Settled.{ok}
use express_nest_blueprint.Pages.{
  FindPage, FieldText, QueryPaginationOptionsResults, retrieve_data_with_pagination, by_page,
  apply_post_processing, apply_search, paginate_array, searched, searched_for, processed, with_rows,
  from_page, no_options,
}

module _ {T : Type 0} (field_text : FieldText T) (fields : List String) where
  length-apply_search-le :
      (rows : List T) (term : List ℕ)
      → length (apply_search field_text fields rows term) ≤ length rows
  unfolding apply_search
  length-apply_search-le rows [] = omega arith
  length-apply_search-le rows (c ∷ term) = length-filter-le _ rows

  -- A page after the first is past the end of a list of at most one page.
  paginate_array-past :
      (rows : List T) (page limit : ℕ)
      → length rows ≤ limit
      → paginate_array rows (suc (suc page)) limit ≡ []
  unfolding paginate_array
  paginate_array-past rows page limit h =
      take_none limit (drop (suc page * limit) rows)
        (omega (arith, length-drop (suc page * limit) rows))

-- A search shows no rows on any page after the first, whatever the table holds: it looks only among
-- the rows of the page that was fetched, which are at most a page, and cuts the asked page out of what
-- it finds there.
pub search-page_after_first :
    {V T S : Type 0} (field_text : FieldText T) (fields : List String) (find : FindPage V T S)
    (page limit c : ℕ) (term query : List ℕ) (s s' : S) (r : QueryPaginationOptionsResults T)
    → trim query ≡ c ∷ term
    → find no_options (suc (suc page)) limit s ≡ (ok r, s')
    → length r.rows ≤ limit
    → retrieve_data_with_pagination field_text fields
        (by_page find)
        apply_post_processing
        (suc (suc page))
        limit
        (some query)
        s
      ≡ (
        ok (record {
          rows = [];
          total = length (apply_search field_text fields r.rows (c ∷ term));
        }),
        s',
      )
unfolding retrieve_data_with_pagination from_page processed with_rows apply_post_processing searched
    searched_for
search-page_after_first field_text fields find page limit c term query s s' r blank found few =
    let e =
      paginate_array-past field_text fields (apply_search field_text fields r.rows (c ∷ term)) page
        limit (omega (arith, few, length-apply_search-le field_text fields r.rows (c ∷ term))) in
    rw (found, blank, e) refl
