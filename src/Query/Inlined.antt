-- ===== src/Query/Inlined.antt =====
-- What a prepared query says once each placeholder is replaced by its value, as the server does, and
-- the same written down at once, with the values in their places.
use Prim.Native.String
use express_nest_blueprint.Base.{
  ℕ, zero, suc, ◌≡◌, String, Option, none, some, List, [], ◌∷◌, ◌++◌, map, get_elem?, if◌then◌else◌,
}
use express_nest_blueprint.Base.Map.{Map}
use express_nest_blueprint.Query.Sql.{Piece, raw, hole, Query, intercalate}
use express_nest_blueprint.Query.Where.{
  Where, object, array, WhereCondition, SearchOption, QueryWithPaginationOptions, Param, value,
  pattern_text, db_column, is_wanted,
}

pub data Bound (V : Type 0) : Type 0 where
  words : String → Bound V
  sent : Param V → Bound V
  unbound : Bound V

module _ {V : Type 0} where
  abbrev value_at : Option (Param V) → Bound V
  value_at none = unbound
  value_at (some v) = sent v

  -- `$k` is the k-th param, counted from 1.
  abbrev pub bind : List (Param V) → Piece → Bound V
  bind params (raw s) = words s
  bind params (hole zero) = unbound
  bind params (hole (suc k)) = value_at (get_elem? params k)

  abbrev pub bind_query : List (Param V) → Query → List (Bound V)
  bind_query params = map (bind params)

  -- The values `vs` stand in `params` from the index `i` on.
  abbrev pub At : List (Param V) → ℕ → List (Param V) → Type 0
  At params i [] = Unit
  At params i (v ∷ vs) = (get_elem? params i ≡ some v) × At params (suc i) vs

  abbrev pub in_object : Map String → String × V → List (Bound V)
  in_object mappings (key, v) = words (db_column mappings key) ∷ words " = " ∷ sent (value v) ∷ []

  abbrev pub in_array : Map String → WhereCondition V → List (Bound V)
  in_array mappings c =
      words (db_column mappings c.field)
      ∷ words " "
      ∷ words c.operator
      ∷ words " "
      ∷ sent (value c.value)
      ∷ []

  abbrev pub of_filter : Map String → Option (Where V) → List (List (Bound V))
  of_filter mappings none = []
  of_filter mappings (some (object entries)) = map (in_object mappings) entries
  of_filter mappings (some (array cs)) = map (in_array mappings) cs

  abbrev pub wanted_pattern : String → Param V
  wanted_pattern term = pattern_text (String.◌++◌ "%" (String.◌++◌ term "%"))

  abbrev pub in_search : Map String → String → String → List (Bound V)
  in_search mappings term field =
      words "LOWER("
      ∷ words (db_column mappings field)
      ∷ words ") LIKE LOWER("
      ∷ sent (wanted_pattern term)
      ∷ words ")"
      ∷ []

  abbrev pub of_search : Map String → Option SearchOption → List (List (Bound V))
  of_search mappings none = []
  of_search mappings (some s) =
      if is_wanted s
      then ((words "(" ∷ intercalate (words " OR ") (map (in_search mappings s.term) s.fields)
            ++ words ")" ∷ [])
          ∷ [])
      else []

  abbrev pub filter_values : Option (Where V) → List (Param V)
  filter_values none = []
  filter_values (some (object entries)) = map (λ (e : String × V). value e.1) entries
  filter_values (some (array cs)) = map (λ (c : WhereCondition V). value c.value) cs

  abbrev pub search_values : Option SearchOption → List (Param V)
  search_values none = []
  search_values (some s) = if is_wanted s then wanted_pattern s.term ∷ [] else []

  -- All conditions, with the values in their places.
  unfoldable pub inlined_where : Map String → QueryWithPaginationOptions V → List (List (Bound V))
  inlined_where mappings o = of_filter mappings o.filter ++ of_search mappings o.search
