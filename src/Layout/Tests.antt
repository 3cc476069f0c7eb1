-- ===== src/Layout/Tests.antt =====
-- The layout and the pager at concrete inputs, and witnesses.
use package.text.Mathlib.Text.{◌==◌ as str_eq}
use express_nest_blueprint.Base.{ℕ, ◌≤◌, ◌↔◌, none, List, [], ◌∷◌, any, ◌≡◌, refl, arith, false}
use express_nest_blueprint.Base.Int.{pos, negsuc}
use express_nest_blueprint.Base.Map
use express_nest_blueprint.Base.Map.{Map}
use express_nest_blueprint.Layout.{
  LayoutPosition, Layout, Json, save_position, publish_drafts, load_from_local_storage,
  changed_elements, generate_page_numbers, window, first_page, numbers_from,
}
use express_nest_blueprint.Layout.Changes.{Unmoved, changed_elements_lem}
use express_nest_blueprint.Layout.Reload.{here, next, move, run-publish-load}
use express_nest_blueprint.Layout.Pager.{IsWindow, generate_page_numbers-IsWindow}

abbrev Item : Type 0
Item = List LayoutPosition

abbrev json : Json Item
json = record { stringify = λ ps. ps; parse = λ ps. ps }

abbrev blank : Layout Item
blank = record { original_positions = []; current_positions = []; saved = none }

abbrev card : LayoutPosition
card = record {
  element_id = "card";
  left = negsuc 4;
  top = pos 10;
  width = pos 300;
  height = pos 200;
  z_index = pos 1000;
}

abbrev moved : Layout Item
moved = record { original_positions = []; current_positions = ("card", card) ∷ []; saved = none }

changed_elements_lem_example :
    (any (λ i. str_eq i "card") (changed_elements moved) ≡ false)
    ↔ Unmoved (Map.get moved.original_positions "card") (Map.get moved.current_positions "card")
changed_elements_lem_example = changed_elements_lem moved "card" (absent, tt)
  where
    absent : Map.get {V = LayoutPosition} [] "card" ≡ none
    absent = Map.get-empty "card"

run-publish-load_example :
    load_from_local_storage json
      (publish_drafts json (save_position "card" (negsuc 4) (pos 10) (pos 300) (pos 200) blank))
    ≡ publish_drafts json (save_position "card" (negsuc 4) (pos 10) (pos 300) (pos 200) blank)
run-publish-load_example =
    run-publish-load json blank (save_position "card" (negsuc 4) (pos 10) (pos 300) (pos 200) blank)
      (λ ps. refl) refl refl (next here (move "card" (negsuc 4) (pos 10) (pos 300) (pos 200)))

abbrev eighth : ℕ
eighth = 8

abbrev pages : ℕ
pages = 9

last_window : generate_page_numbers eighth pages ≡ 5 ∷ 6 ∷ 7 ∷ 8 ∷ 9 ∷ []
unfolding generate_page_numbers window first_page numbers_from
last_window = refl

one_eighth : 1 ≤ eighth
one_eighth = omega arith

eighth_in_range : eighth ≤ pages
eighth_in_range = omega arith

generate_page_numbers-IsWindow_example : IsWindow eighth pages (generate_page_numbers eighth pages)
generate_page_numbers-IsWindow_example =
    generate_page_numbers-IsWindow eighth pages one_eighth eighth_in_range
