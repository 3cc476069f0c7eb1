-- ===== src/Layout/Changes.antt =====
-- Which elements of the layout count as changed:
-- packages/frontend/admin/src/app/core/services/ui/layout-customization.service.ts.

use mathlib.Core.Path.{subst}
use package.text.Mathlib.Text.{◌==◌ as str_eq}
use package.text.Mathlib.TextEquality.{eq_iff}
use express_nest_blueprint.Base.{
  String, Bool, true, false, not, ◌&&◌, ◌||◌, ◌↔◌, Bool-cases, Option, none, some, is_some, List,
  [], ◌∷◌, ◌++◌, any, ◌≡◌, inl, inr, if◌then◌else◌, refl, ap, ◌∙◌, arith,
}
use express_nest_blueprint.Base.Int.{ℤ, pos, negsuc}
use express_nest_blueprint.Base.Map
use express_nest_blueprint.Base.Map.{Map}
use express_nest_blueprint.Base.Entries.{Unique}
use express_nest_blueprint.Layout.{
  LayoutPosition, Layout, same_number, is_same_position, is_moved, moved_keys, removed_keys,
  compute_changed_keys, changed_elements,
}

-- The element is in neither map, or in both with the same place and size; `z_index` does not count.
unfoldable pub Unmoved : Option LayoutPosition → Option LayoutPosition → Type 0
Unmoved none none = Unit
Unmoved none (some b) = ⊥
Unmoved (some a) none = ⊥
Unmoved (some a) (some b) =
    (a.left ≡ b.left) × (a.top ≡ b.top) × (a.width ≡ b.width) × (a.height ≡ b.height)

same_number_iff : (m n : ℤ) → (same_number m n ≡ true) ↔ (m ≡ n)
unfolding same_number
same_number_iff (pos m) (pos n) = ground arith
same_number_iff (pos m) (negsuc n) = ground arith
same_number_iff (negsuc m) (pos n) = ground arith
same_number_iff (negsuc m) (negsuc n) = ground arith

is_same_position_iff :
    (a b : LayoutPosition) → (is_same_position a b ≡ true) ↔ Unmoved (some a) (some b)
unfolding is_same_position Unmoved
is_same_position_iff a b = ground (
  arith,
  same_number_iff a.left b.left,
  same_number_iff a.top b.top,
  same_number_iff a.width b.width,
  same_number_iff a.height b.height,
)

any-append :
    {A : Type 0} (p : A → Bool) (xs ys : List A) → any p (xs ++ ys) ≡ (any p xs || any p ys)
any-append p [] ys = refl
any-append p (x ∷ xs) ys = ground (arith, any-append p xs ys)

moved_at : Option LayoutPosition → Option LayoutPosition → Bool
unfolding is_moved
moved_at original none = false
moved_at original (some current) = is_moved original current

-- A list with the head only under a test.
any-if :
    (b : Bool) (j k : String) (rest : List String)
    → any (λ i. str_eq i k) (if b then j ∷ rest else rest)
      ≡ (b && str_eq j k || any (λ i. str_eq i k) rest)
any-if true j k rest = refl
any-if false j k rest = refl

moved_keys_lem :
    (o c : Map LayoutPosition) (k : String)
    → Unique c
    → any (λ i. str_eq i k) (moved_keys o c) ≡ moved_at (Map.get o k) (Map.get c k)
unfolding moved_keys moved_at Map.get
moved_keys_lem o [] k u = refl
moved_keys_lem o ((j, p) ∷ c) k (a, u) = elim (Bool-cases (str_eq j k)) [
  | inl b ↦
      let same = (eq_iff j k).0 b in
      let absent : Map.get c k ≡ none = subst (λ i. Map.get c i ≡ none) same a in
      any-if (is_moved (Map.get o j) p) j k (moved_keys o c)
      ∙ rw b (
          rw (moved_keys_lem o c k u) (
            rw absent
              (or_false (is_moved (Map.get o j) p) ∙ ap (λ i. is_moved (Map.get o i) p) same)))
  | inr b ↦
      any-if (is_moved (Map.get o j) p) j k (moved_keys o c)
      ∙ rw b (and_false (is_moved (Map.get o j) p) _ ∙ moved_keys_lem o c k u)
]
  where
    or_false : (x : Bool) → (x && true || false) ≡ x
    or_false x = ground arith

    and_false : (x y : Bool) → (x && false || y) ≡ y
    and_false x y = ground arith

removed_keys_lem :
    (c o : Map LayoutPosition) (k : String)
    → any (λ i. str_eq i k) (removed_keys c o)
      ≡ (is_some (Map.get o k) && not (is_some (Map.get c k)))
unfolding removed_keys Map.get Map.has
removed_keys_lem c [] k = refl
removed_keys_lem c ((j, p) ∷ o) k = elim (Bool-cases (str_eq j k)) [
  | inl b ↦
      let same = (eq_iff j k).0 b in
      any-if (not (is_some (Map.get c j))) j k (removed_keys c o)
      ∙ rw b (rw (removed_keys_lem c o k) (rw same (ground arith)))
  | inr b ↦
      any-if (not (is_some (Map.get c j))) j k (removed_keys c o)
      ∙ rw b (rw (removed_keys_lem c o k) (ground arith))
]

moved_or_removed :
    (o c : Option LayoutPosition)
    → ((moved_at o c || is_some o && not (is_some c)) ≡ false) ↔ Unmoved o c
unfolding moved_at is_moved Unmoved
moved_or_removed none none = (λ h. tt, λ h. refl)
moved_or_removed none (some b) = ground arith
moved_or_removed (some a) none = ground arith
moved_or_removed (some a) (some b) =
    let e : (is_same_position a b ≡ true)
        ↔ ((a.left ≡ b.left) × (a.top ≡ b.top) × (a.width ≡ b.width) × (a.height ≡ b.height)) =
      is_same_position_iff a b in
    ground (arith, e)

-- What the two lists of changed keys say of one id.
changed_at :
    {Item : Type 0} (s : Layout Item) (id : String)
    → Unique s.current_positions
    → let o = Map.get s.original_positions id in
      let c = Map.get s.current_positions id in
      any (λ i. str_eq i id) (changed_elements s) ≡ (moved_at o c || is_some o && not (is_some c))
unfolding changed_elements compute_changed_keys
changed_at s id u =
    any-append (λ i. str_eq i id) (moved_keys s.original_positions s.current_positions)
      (removed_keys s.current_positions s.original_positions)
    ∙ (ap (λ b. b || any (λ i. str_eq i id) (removed_keys s.current_positions s.original_positions))
          (moved_keys_lem s.original_positions s.current_positions id u)
        ∙ ap (λ b. moved_at (Map.get s.original_positions id) (Map.get s.current_positions id) || b)
            (removed_keys_lem s.current_positions s.original_positions id))

-- An element does not count as changed exactly where it is in neither map, or where its original and its
-- current position have the same left, top, width and height; no id stands twice in the current
-- positions. The order in depth does not count.
pub changed_elements_lem :
    {Item : Type 0} (s : Layout Item) (id : String)
    → Unique s.current_positions
    → (any (λ i. str_eq i id) (changed_elements s) ≡ false)
      ↔ Unmoved (Map.get s.original_positions id) (Map.get s.current_positions id)
changed_elements_lem s id u =
    rw (changed_at s id u)
      (moved_or_removed (Map.get s.original_positions id) (Map.get s.current_positions id))
