-- ===== src/Pages.antt =====
-- QueryMethods and TransactionMethods, through which BaseRepository pages and searches:
-- packages/backend/common/src/infrastructure/database/repository-extensions/query-methods.ts and
-- transaction-methods.ts. The operations on the database, with its state `S`, are arguments; so is the
-- text of a field, which convertValueToSearchableString makes. Pages and limits are natural numbers, and
-- a text is its list of code points where the code looks into it.
pub mod Windows
pub mod Columns
pub mod Search
mod Tests
use package.text.Mathlib.Text.{◌==◌ as str_eq}
use express_nest_blueprint.Base.{
  ℕ, zero, suc, ◌+◌, ◌-◌, ◌*◌, ◌/◌, String, Bool, true, false, not, ◌&&◌, ◌||◌, Option, none, some,
  List, [], ◌∷◌, any, filter, length, map, ◌==◌, leb, if◌then◌else◌,
}
use express_nest_blueprint.Base.Int.{ℤ, pos, negsuc}
use express_nest_blueprint.Base.Slices.{take, drop}
use express_nest_blueprint.Base.Text.{codes, includes, starts_with, to_lower_case, trim}
use express_nest_blueprint.Query.Where.{Where, SearchOption, QueryWithPaginationOptions}
use express_nest_blueprint.Base.Settled.{Settled, ok, throws}

module _ {ℓ} {T : Type ℓ} where
  -- `data.slice((page - 1) * limit, (page - 1) * limit + limit)`; page 0 ends the slice at 0.
  pub paginate_array : List T → ℕ → ℕ → List T
  paginate_array rows zero limit = []
  paginate_array rows (suc page) limit = take limit (drop (page * limit) rows)

-- `(page - 1) * limit`.
pub offset_of : ℕ → ℕ → ℤ
offset_of zero zero = pos 0
offset_of zero (suc limit) = negsuc limit
offset_of (suc page) limit = pos (page * limit)

-- `Math.ceil(total / limit)`; a limit of 0 gives Infinity or NaN, which is `none`.
pub total_pages_of : ℕ → ℕ → Option ℕ
total_pages_of total zero = none
total_pages_of total (suc limit) = some ((total + limit) / suc limit)

-- `QueryAllWithPaginationOptions`, with an absent or falsy text as `none`.
pub record QueryAllWithPaginationOptions (V : Type 0) : Type 0 where
  pub page : ℕ
  pub limit : ℕ
  pub search : Option String
  pub search_fields : Option (List String)
  pub filter_by : Option (Where V)
  pub order_by : Option String
  pub order_direction : Option String

pub record QueryPaginationOptionsResults (T : Type 0) : Type 0 where
  pub rows : List T
  pub total : ℕ
  pub page : ℕ
  pub limit : ℕ
  pub total_pages : Option ℕ

-- `search && searchFields && searchFields.length > 0`.
search_option : Option String → Option (List String) → Option SearchOption
search_option (some term) (some (f ∷ fs)) =
    if str_eq term "" then none else some (record { fields = f ∷ fs; term = term })
search_option _ _ = none

-- `value || fallback`.
abbrev or_text : Option String → String → String
or_text none d = d
or_text (some t) d = if str_eq t "" then d else t

abbrev pub Count : Type 0 → Type 0 → Type 0
Count V S = QueryWithPaginationOptions V → S → Settled ℕ × S

abbrev pub FindAll : Type 0 → Type 0 → Type 0 → Type 0
FindAll V T S = QueryWithPaginationOptions V → S → Settled (List T) × S

-- `findWithPagination` of the repository, on its options, page and limit.
abbrev pub FindPage : Type 0 → Type 0 → Type 0 → Type 0
FindPage V T S =
    QueryWithPaginationOptions V → ℕ → ℕ → S → Settled (QueryPaginationOptionsResults T) × S

module _ {T S : Type 0} where
  paged : ℕ → ℕ → ℕ → Settled (List T) × S → Settled (QueryPaginationOptionsResults T) × S
  unfolding total_pages_of
  paged total page limit (throws e, s) = (throws e, s)
  paged total page limit (ok rows, s) = (
    ok (record {
      rows = rows;
      total = total;
      page = page;
      limit = limit;
      total_pages = total_pages_of total limit;
    }),
    s,
  )

module _ {V T S : Type 0} where
  counted :
      FindAll V T S
      → QueryWithPaginationOptions V
      → ℕ
      → ℕ
      → Settled ℕ × S
      → Settled (QueryPaginationOptionsResults T) × S
  unfolding paged offset_of
  counted find_all options page limit (throws e, s) = (throws e, s)
  counted find_all options page limit (ok total, s) = paged total page limit (
      find_all (record options { limit = some (pos limit); offset = some (offset_of page limit) })
        s)

  pub find_with_pagination : Count V S → FindAll V T S → FindPage V T S
  unfolding counted
  find_with_pagination count find_all options page limit s =
      counted find_all options page limit (count options s)

  pub find_all_with_pagination :
      FindPage V T S
      → QueryAllWithPaginationOptions V
      → S
      → Settled (QueryPaginationOptionsResults T) × S
  unfolding search_option
  find_all_with_pagination find_page o s =
      find_page
        (record {
          filter = o.filter_by;
          search = search_option o.search o.search_fields;
          order_by = some (or_text o.order_by "id");
          order_direction = some (or_text o.order_direction "ASC");
          limit = none;
          offset = none;
        })
        o.page o.limit s

-- What is there of the two ways to retrieve a page.
pub data Retrieval (V T S : Type 0) : Type 0 where
  by_page :
      (QueryWithPaginationOptions V → ℕ → ℕ → S → Settled (QueryPaginationOptionsResults T) × S)
      → Retrieval V T S
  by_rows : (QueryWithPaginationOptions V → S → Settled (List T) × S) → Retrieval V T S
  unsupported : Retrieval V T S

-- The rows that a table shows, and their number.
pub record Retrieved (T : Type 0) : Type 0 where
  pub rows : List T
  pub total : ℕ

-- `convertValueToSearchableString(record[field])`, `none` where the field is null or absent.
abbrev pub FieldText : Type 0 → Type 0
FieldText T = T → String → Option (List ℕ)

module _ {T : Type 0} (field_text : FieldText T) (searchable_fields : List String) where
  field_has : List ℕ → Option (List ℕ) → Bool
  field_has term none = false
  field_has term (some t) = includes (to_lower_case t) term

  matches : List ℕ → T → Bool
  unfolding field_has
  matches term row = any (λ f. field_has (to_lower_case term) (field_text row f)) searchable_fields

  pub apply_search : List T → List ℕ → List T
  unfolding matches
  apply_search rows [] = rows
  apply_search rows (c ∷ term) = filter (matches (c ∷ term)) rows

  -- The rows that are at hand are searched, and the page is cut out of what is found.
  searched_for : List ℕ → ℕ → ℕ → Retrieved T → Retrieved T
  unfolding apply_search paginate_array
  searched_for [] page limit r = r
  searched_for (c ∷ term) page limit r = record {
    rows = paginate_array (apply_search r.rows (c ∷ term)) page limit;
    total = length (apply_search r.rows (c ∷ term));
  }

  -- `if (search && search.trim())`.
  searched : Option (List ℕ) → ℕ → ℕ → Retrieved T → Retrieved T
  unfolding searched_for
  searched none page limit r = r
  searched (some query) page limit r = searched_for (trim query) page limit r

abbrev no_options : {V : Type 0} → QueryWithPaginationOptions V
no_options = record {
  filter = none;
  search = none;
  order_by = none;
  order_direction = none;
  limit = none;
  offset = none;
}

-- `applyPostProcessing`, which may change the rows.
abbrev pub PostProcess : Type 0 → Type 0 → Type 0
PostProcess T S = List T → S → Settled (List T) × S

module _ {T S : Type 0} where
  with_rows : ℕ → Settled (List T) × S → Settled (Retrieved T) × S
  with_rows total (ok rows, s) = (ok (record { rows = rows; total = total }), s)
  with_rows total (throws e, s) = (throws e, s)

  -- `await applyPostProcessing(data); return { data, total }`.
  processed : PostProcess T S → Retrieved T → S → Settled (Retrieved T) × S
  unfolding with_rows
  processed post r s = with_rows r.total (post r.rows s)

module _ {T S : Type 0} (field_text : FieldText T) (searchable_fields : List String) where
  from_page :
      PostProcess T S
      → Option (List ℕ)
      → ℕ
      → ℕ
      → Settled (QueryPaginationOptionsResults T) × S
      → Settled (Retrieved T) × S
  unfolding searched processed
  from_page post query page limit (throws e, s) = (throws e, s)
  from_page post query page limit (ok r, s) =
      processed post
        (searched field_text searchable_fields query page limit
          (record { rows = r.rows; total = r.total }))
        s

  from_rows :
      PostProcess T S → Option (List ℕ) → ℕ → ℕ → Settled (List T) × S → Settled (Retrieved T) × S
  unfolding searched processed
  from_rows post query page limit (throws e, s) = (throws e, s)
  from_rows post query page limit (ok rows, s) =
      processed post
        (searched field_text searchable_fields query page limit
          (record { rows = rows; total = length rows }))
        s

module _ {V T S : Type 0} (field_text : FieldText T) (searchable_fields : List String) where
  pub retrieve_data_with_pagination :
      Retrieval V T S → PostProcess T S → ℕ → ℕ → Option (List ℕ) → S → Settled (Retrieved T) × S
  unfolding from_page from_rows offset_of
  retrieve_data_with_pagination (by_page find) post page limit query s =
      from_page field_text searchable_fields post query page limit (find no_options page limit s)
  retrieve_data_with_pagination (by_rows find_all) post page limit query s =
      from_rows field_text searchable_fields post query page limit (
        find_all
          (record no_options { limit = some (pos limit); offset = some (offset_of page limit) }) s)
  retrieve_data_with_pagination unsupported post page limit query s =
      (throws "Repository does not support data retrieval", s)

-- BaseRepository's own `applyPostProcessing`, which changes nothing.
pub apply_post_processing : {T S : Type 0} → PostProcess T S
apply_post_processing rows s = (ok rows, s)
