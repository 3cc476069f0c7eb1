-- ===== src/Pages/Tests.antt =====
-- Pages at concrete inputs, and witnesses.
use express_nest_blueprint.Base.{
  ℕ, ◌≡◌, ◌<◌, ◌≤◌, ◌*◌, ◌+◌, refl, some, Option, List, [], ◌∷◌, String, length,
}
use express_nest_blueprint.Base.Int.{ℤ, pos}
use express_nest_blueprint.Base.Slices.{take, drop}
use express_nest_blueprint.Base.Text.{codes, includes, starts_with, to_lower_case, trim}
use express_nest_blueprint.Base.Settled.{ok}
use express_nest_blueprint.Pages.Columns.{infer_column_type}
use express_nest_blueprint.Pages.{
  Count, FindAll, QueryPaginationOptionsResults, paged, counted, offset_of, FieldText,
  find_with_pagination, total_pages_of, apply_search, matches, field_has, no_options,
}
use express_nest_blueprint.Pages.Windows.{IsServing, total_pages_of-bounds}

abbrev names : List String
names = "ann" ∷ "bob" ∷ "cid" ∷ "dan" ∷ "eve" ∷ []

abbrev nat_of : Option ℤ → ℕ
nat_of (some (pos n)) = n
nat_of _ = 0

abbrev count_names : Count ℕ ℕ
count_names options s = (ok 5, s)

abbrev find_names : FindAll ℕ String ℕ
find_names options s = (ok (take (nat_of options.limit) (drop (nat_of options.offset) names)), s)

names-IsServing : IsServing count_names find_names no_options names
names-IsServing = record { counts = λ s. refl; finds = λ limit offset s. refl }

three_pages : total_pages_of 5 2 ≡ some 3
unfolding total_pages_of
three_pages = refl

total_pages_of-bounds_example : (5 ≤ 3 * 2) × (3 * 2 < 5 + 2)
total_pages_of-bounds_example = total_pages_of-bounds 5 2 3 three_pages

abbrev name_text : FieldText String
name_text row field = some (codes row)

types : infer_column_type "lastLoginAt" ≡ "datetime"
unfolding infer_column_type includes starts_with
types = refl

required_types : infer_column_type "isActive" ≡ "boolean"
unfolding infer_column_type includes starts_with
required_types = refl

abbrev second_page : QueryPaginationOptionsResults String
second_page = record {
  rows = "cid" ∷ "dan" ∷ [];
  total = 5;
  page = 2;
  limit = 2;
  total_pages = some 3;
}

finds_second_page :
    find_with_pagination count_names find_names no_options 2 2 0 ≡ (ok second_page, 0)
unfolding find_with_pagination counted paged offset_of total_pages_of take drop
finds_second_page = refl

trimmed : trim (codes " c ") ≡ codes "c"
unfolding trim
trimmed = refl

found_on_page : length (apply_search name_text ("name" ∷ []) second_page.rows (codes "c")) ≡ 1
unfolding apply_search matches field_has includes starts_with to_lower_case
found_on_page = refl
