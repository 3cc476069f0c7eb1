-- ===== src/Layout/Reload.antt =====
-- That a published layout is there after the page is loaded again:
-- packages/frontend/admin/src/app/core/services/ui/layout-customization.service.ts.

use mathlib.Core.Path.{subst}
use mathlib.Core.List.{append_assoc, append-nil}
use package.text.Mathlib.Text.{◌==◌ as str_eq}
use package.text.Mathlib.TextEquality.{eq_iff}
use express_nest_blueprint.Base.{
  String, false, Option, none, some, List, [], ◌∷◌, ◌++◌, map, All, ◌≡◌, refl, sym, ap, ◌∙◌, arith,
}
use express_nest_blueprint.Base.Int.{ℤ}
use express_nest_blueprint.Base.Map
use express_nest_blueprint.Base.Map.{Map, get-set, get-empty}
use express_nest_blueprint.Base.Entries.{Unique, set-Unique, set_absent, set-All}
use express_nest_blueprint.Layout.{
  LayoutPosition, Layout, Json, positions_map, update_position, save_position, reset_drafts,
  initialize, publish_drafts, load_from_local_storage, loaded,
}

-- Each position stands under the id of its element, and no id twice.
abbrev pub IsKeyed : Map LayoutPosition → Type 0
IsKeyed m = Unique m × All (λ e. e.1.element_id ≡ e.0) m

set-IsKeyed :
    (m : Map LayoutPosition) (k : String) (p : LayoutPosition)
    → p.element_id ≡ k
    → IsKeyed m
    → IsKeyed (Map.set m k p)
set-IsKeyed m k p e h = (set-Unique m k p h.0, set-All (λ x. x.1.element_id ≡ x.0) m k p e h.1)

positions_map-IsKeyed :
    (ps : List LayoutPosition) (m : Map LayoutPosition) → IsKeyed m → IsKeyed (positions_map m ps)
unfolding positions_map
positions_map-IsKeyed [] m h = h
positions_map-IsKeyed (p ∷ ps) m h =
    positions_map-IsKeyed ps (Map.set m p.element_id p) (set-IsKeyed m p.element_id p refl h)

-- A key that is not there is not the key of an entry.
absent-All :
    (m : Map LayoutPosition) (k : String) → Map.get m k ≡ none → All (λ e. str_eq k e.0 ≡ false) m
unfolding Map.get
absent-All [] k h = tt
absent-All ((j, p) ∷ m) k h =
    (ground (arith, h, eq_iff j k, eq_iff k j), absent-All m k (ground (arith, h)))

-- None of the entries has a key of the other map.
abbrev Apart : Map LayoutPosition → Map LayoutPosition → Type 0
Apart m n = All (λ e. Map.get m e.0 ≡ none) n

set-Apart :
    (m n : Map LayoutPosition) (k : String) (p : LayoutPosition)
    → All (λ e. str_eq k e.0 ≡ false) n
    → Apart m n
    → Apart (Map.set m k p) n
set-Apart m [] k p h a = tt
set-Apart m ((j, q) ∷ n) k p (h, hs) (a, as_well) =
    (get-set m k j p ∙ (rw h a), set-Apart m n k p hs as_well)

positions_map-values :
    (n m : Map LayoutPosition)
    → IsKeyed n
    → Apart m n
    → positions_map m (map (λ entry. entry.1) n) ≡ m ++ n
unfolding positions_map
positions_map-values [] m h a = sym (append-nil m)
positions_map-values ((k, p) ∷ n) m ((absent, u), (e, keyed)) (a, apart) =
    ap (λ i. positions_map (Map.set m i p) (map (λ entry. entry.1) n)) e
    ∙ (positions_map-values n (Map.set m k p) (u, keyed)
          (set-Apart m n k p (absent-All n k absent) apart)
        ∙ (ap (λ l. l ++ n) (set_absent m k p a) ∙ append_assoc m ((k, p) ∷ []) n))

empty-Apart : (n : Map LayoutPosition) → Apart [] n
unfolding Map.get
empty-Apart [] = tt
empty-Apart (e ∷ n) = (refl, empty-Apart n)

-- What the page does with the layout.
module _ {Item : Type 0} (json : Json Item) where
  pub data Step (s : Layout Item) : Layout Item → Type 0 where
    move :
        (id : String) (left top width height : ℤ)
        → Step s (save_position id left top width height s)
    reset : Step s (reset_drafts s)
    receive : (positions : List LayoutPosition) → Step s (initialize positions s)
    publish : Step s (publish_drafts json s)
    load_page : Step s (load_from_local_storage json s)

  pub data Reach (s : Layout Item) : Layout Item → Type 0 where
    here : Reach s s
    next : {t u : Layout Item} → Reach s t → Step t u → Reach s u

  pub record IsSound (s : Layout Item) : Type 0 where
    pub original : IsKeyed s.original_positions
    pub current : IsKeyed s.current_positions

  initialize-IsSound : (ps : List LayoutPosition) (s : Layout Item) → IsSound (initialize ps s)
  unfolding initialize
  initialize-IsSound ps s = record {
    original = positions_map-IsKeyed ps [] (tt, tt);
    current = positions_map-IsKeyed ps [] (tt, tt);
  }

  loaded-IsSound : (o : Option Item) (s : Layout Item) → IsSound s → IsSound (loaded json o s)
  unfolding loaded
  loaded-IsSound none s h = h
  loaded-IsSound (some item) s h = initialize-IsSound (json.parse item) s

  Step-IsSound : {s t : Layout Item} → Step s t → IsSound s → IsSound t
  unfolding save_position update_position reset_drafts publish_drafts load_from_local_storage
  Step-IsSound {s = s} (move id left top width height) h = record {
    original = h.original;
    current = set-IsKeyed s.current_positions id _ refl h.current;
  }
  Step-IsSound reset h = record { original = h.original; current = h.original }
  Step-IsSound {s = s} (receive positions) h = initialize-IsSound positions s
  Step-IsSound publish h = record { original = h.current; current = h.current }
  Step-IsSound {s = s} load_page h =
      loaded-IsSound s.saved _ (record { original = (tt, tt); current = (tt, tt) })

  Reach-IsSound : {s t : Layout Item} → Reach s t → IsSound s → IsSound t
  Reach-IsSound here h = h
  Reach-IsSound (next r st) h = Step-IsSound st (Reach-IsSound r h)

-- Whatever was done in pages that began without positions: once a layout is published, a page that is
-- loaded again has it as the original and as the current one, where JSON reads back what it writes.
pub run-publish-load :
    {Item : Type 0} (json : Json Item) (s s' : Layout Item)
    → ((ps : List LayoutPosition) → json.parse (json.stringify ps) ≡ ps)
    → s.original_positions ≡ []
    → s.current_positions ≡ []
    → Reach json s s'
    → load_from_local_storage json (publish_drafts json s') ≡ publish_drafts json s'
unfolding load_from_local_storage publish_drafts loaded initialize
run-publish-load json s s' back o c run =
    let sound = Reach-IsSound json run (record {
      original = subst IsKeyed (sym o) (tt, tt);
      current = subst IsKeyed (sym c) (tt, tt);
    }) in
    let m = s'.current_positions in
    let e : positions_map [] (json.parse (json.stringify (map (λ entry. entry.1) m))) ≡ m =
      ap (positions_map []) (back (map (λ entry. entry.1) m))
      ∙ positions_map-values m [] sound.current (empty-Apart m) in
    ap
      (λ x. record {
        original_positions = x;
        current_positions = x;
        saved = some (json.stringify (map (λ entry. entry.1) m));
      })
      e
