-- ===== src/Layout.antt =====
-- The layout of the admin front end that a user may change, LayoutCustomizationService, and the numbers of
-- the pager: packages/frontend/admin/src/app/core/services/ui, layout-customization.service.ts and
-- pagination.service.ts. JSON and the answers of the server are arguments.
pub mod Changes
pub mod Reload
pub mod Pager
mod Tests
use Prim.Native.String
use package.text.Mathlib.Text.{◌==◌ as str_eq}
use express_nest_blueprint.Base.{
  ℕ, zero, suc, ◌+◌, ◌-◌, max, min, leb, ◌==◌, String, Bool, true, false, not, ◌&&◌, ◌||◌, Option,
  none, some, List, [], ◌∷◌, ◌++◌, map, filter, length, ltb, if◌then◌else◌,
}
use express_nest_blueprint.Base.Int.{ℤ, pos, negsuc}
use express_nest_blueprint.Base.Map
use express_nest_blueprint.Base.Map.{Map}

pub record LayoutPosition : Type 0 where
  pub element_id : String
  pub left : ℤ
  pub top : ℤ
  pub width : ℤ
  pub height : ℤ
  pub z_index : ℤ

-- The signals of the service, and the item of localStorage under its key.
pub record Layout (Item : Type 0) : Type 0 where
  pub original_positions : Map LayoutPosition
  pub current_positions : Map LayoutPosition
  pub saved : Option Item

pub record Json (Item : Type 0) : Type 0 where
  pub stringify : List LayoutPosition → Item
  pub parse : Item → List LayoutPosition

-- `a === b` on numbers.
unfoldable pub same_number : ℤ → ℤ → Bool
same_number (pos m) (pos n) = m == n
same_number (negsuc m) (negsuc n) = m == n
same_number _ _ = false

unfoldable pub is_same_position : LayoutPosition → LayoutPosition → Bool
unfolding same_number
is_same_position a b =
    same_number a.left b.left
    && same_number a.top b.top
    && same_number a.width b.width
    && same_number a.height b.height

-- `!originalPos || !this.isSamePosition(originalPos, currentPos)`.
unfoldable pub is_moved : Option LayoutPosition → LayoutPosition → Bool
unfolding is_same_position
is_moved none current = true
is_moved (some original) current = not (is_same_position original current)

-- The first loop of `computeChangedKeys`, over the entries of the current positions.
unfoldable pub moved_keys : Map LayoutPosition → Map LayoutPosition → List String
unfolding is_moved
moved_keys original [] = []
moved_keys original ((key, position) ∷ current) =
    let rest = moved_keys original current in
    if is_moved (Map.get original key) position then key ∷ rest else rest

-- Its second loop, over the keys of the original positions.
unfoldable pub removed_keys : Map LayoutPosition → Map LayoutPosition → List String
removed_keys current [] = []
removed_keys current ((key, position) ∷ original) =
    let rest = removed_keys current original in
    if not (Map.has current key) then key ∷ rest else rest

unfoldable pub compute_changed_keys : Map LayoutPosition → Map LayoutPosition → List String
unfolding moved_keys removed_keys
compute_changed_keys original current = moved_keys original current ++ removed_keys current original

-- `positions.forEach(pos => map.set(pos.elementId, pos))`.
unfoldable pub positions_map : Map LayoutPosition → List LayoutPosition → Map LayoutPosition
positions_map m [] = m
positions_map m (position ∷ positions) =
    positions_map (Map.set m position.element_id position) positions

module _ {Item : Type 0} where
  unfoldable pub changed_elements : Layout Item → List String
  unfolding compute_changed_keys
  changed_elements s = compute_changed_keys s.original_positions s.current_positions

  unfoldable pub draft_count : Layout Item → ℕ
  unfolding changed_elements
  draft_count s = length (changed_elements s)

  unfoldable pub has_drafts : Layout Item → Bool
  unfolding draft_count
  has_drafts s = ltb 0 (draft_count s)

  unfoldable pub update_position : String → LayoutPosition → Layout Item → Layout Item
  update_position element_id position s = record s {
    current_positions = Map.set s.current_positions element_id position;
  }

  -- `savePosition` of DraggableResizableDirective, for the box that an element has.
  unfoldable pub save_position : String → ℤ → ℤ → ℤ → ℤ → Layout Item → Layout Item
  unfolding update_position
  save_position id left top width height s =
      update_position id
        (record {
          element_id = id;
          left = left;
          top = top;
          width = width;
          height = height;
          z_index = pos 1000;
        })
        s

  unfoldable pub reset_drafts : Layout Item → Layout Item
  reset_drafts s = record s { current_positions = s.original_positions }

  unfoldable pub initialize : List LayoutPosition → Layout Item → Layout Item
  unfolding positions_map
  initialize positions s = record s {
    original_positions = positions_map [] positions;
    current_positions = positions_map [] positions;
  }

  unfoldable pub clear : Layout Item → Layout Item
  clear s = record { original_positions = []; current_positions = []; saved = none }

module _ {Item : Type 0} (json : Json Item) where
  -- `publishDrafts`, with `saveToLocalStorage`.
  unfoldable pub publish_drafts : Layout Item → Layout Item
  publish_drafts s = record s {
    original_positions = s.current_positions;
    saved = some (json.stringify (map (λ entry. entry.1) s.current_positions));
  }

  loaded : Option Item → Layout Item → Layout Item
  unfolding initialize
  loaded none s = s
  loaded (some item) s = initialize (json.parse item) s

  -- `loadFromLocalStorage` in a page that has just been loaded.
  unfoldable pub load_from_local_storage : Layout Item → Layout Item
  unfolding loaded
  load_from_local_storage s =
      loaded s.saved (record { original_positions = []; current_positions = []; saved = s.saved })

-- `Array.from({ length: n }, (_, i) => first + i)`.
unfoldable pub numbers_from : ℕ → ℕ → List ℕ
numbers_from first zero = []
numbers_from first (suc n) = first ∷ numbers_from (suc first) n

-- `generatePageNumbers`: `current - 2` stops at 0 here, and at most 1 is what `Math.max(1, _)` leaves.
first_page : ℕ → ℕ
first_page current = max 1 (current - 2)

unfoldable pub window : ℕ → ℕ → ℕ → List ℕ
unfolding numbers_from
window total start end =
    let first = if end == total then max 1 (total - 4) else start in
    numbers_from first (end - first + 1)

unfoldable pub generate_page_numbers : ℕ → ℕ → List ℕ
unfolding window first_page
generate_page_numbers current total =
    let start = first_page current in
    if leb total 5 then numbers_from 1 total else window total start (min total (start + 4))

unfoldable pub is_valid_page_change : ℕ → ℕ → Bool
is_valid_page_change new_page total = leb 1 new_page && leb new_page total
