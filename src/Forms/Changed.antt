-- ===== src/Forms/Changed.antt =====
-- When a form of the admin front end counts as changed:
-- packages/frontend/admin/src/app/core/services/validation/form-validation.service.ts.

use package.text.Mathlib.Text.{◌==◌ as str_eq}
use package.text.Mathlib.TextEquality.{eq_iff}
use express_nest_blueprint.Base.{
  String, Bool, true, false, ◌||◌, any, Bool-cases, List, [], ◌∷◌, ◌++◌, ◌≡◌, ◌↔◌, ◌⊎◌, inl, inr,
  refl, sym, ap, ◌∙◌, arith,
}
use express_nest_blueprint.Base.Map
use express_nest_blueprint.Base.Map.{Map}
use express_nest_blueprint.Forms.{
  Value, null, other, strictly_equal, undefined, text, Record, value_at, is_empty, keys,
  are_values_equal, any_changed, has_form_changes,
}

listed_in : List String → String → Bool
listed_in ks k = any (λ j. str_eq j k) ks

listed_in-append :
    (xs ys : List String) (k : String) → listed_in (xs ++ ys) k ≡ (listed_in xs k || listed_in ys k)
unfolding listed_in
listed_in-append [] ys k = refl
listed_in-append (x ∷ xs) ys k = ground (arith, listed_in-append xs ys k)

module _ {A : Type 0} where
  -- A key that is not listed has no value.
  value_at-unlisted :
      (r : Record A) (k : String) → listed_in (keys r) k ≡ false → value_at r k ≡ undefined
  unfolding value_at keys listed_in Map.get
  value_at-unlisted [] k h = refl
  value_at-unlisted ((j, v) ∷ r) k h = elim (Bool-cases (str_eq j k)) [
    | inl b ↦ absurd (ground (arith, h, b))
    | inr b ↦ rw b (value_at-unlisted r k (ground (arith, h, b)))
  ]

  module _ (same : A → A → Bool) where
    any_changed-listed :
        (c o : Record A) (ks : List String) (k : String)
        → any_changed same c o ks ≡ false
        → listed_in ks k ≡ true
        → are_values_equal same (value_at c k) (value_at o k) ≡ true
    unfolding any_changed listed_in
    any_changed-listed c o [] k h l = absurd (ground (arith, l))
    any_changed-listed c o (j ∷ ks) k h l = elim (Bool-cases (str_eq j k)) [
      | inl b ↦
          ap (λ i. are_values_equal same (value_at c i) (value_at o i)) (sym ((eq_iff j k).0 b))
          ∙ ground (arith, h)
      | inr b ↦ any_changed-listed c o ks k (ground (arith, h)) (ground (arith, l, b))
    ]

    all_equal :
        (c o : Record A) (ks : List String)
        → ((k : String) → are_values_equal same (value_at c k) (value_at o k) ≡ true)
        → any_changed same c o ks ≡ false
    unfolding any_changed
    all_equal c o [] h = refl
    all_equal c o (j ∷ ks) h = ground (arith, h j, all_equal c o ks h)

    absent_equal :
        (c o : Record A) (k : String)
        → listed_in (keys c ++ keys o) k ≡ false
        → are_values_equal same (value_at c k) (value_at o k) ≡ true
    unfolding are_values_equal is_empty
    absent_equal c o k h =
        let both = sym (listed_in-append (keys c) (keys o) k) ∙ h in
        rw (value_at-unlisted c k (ground (arith, both)))
          (rw (value_at-unlisted o k (ground (arith, both))) refl)

module _ {A : Type 0} where
  -- A value that is null, missing or the empty text.
  unfoldable pub IsBlank : Value A → Type 0
  IsBlank null = Unit
  IsBlank undefined = Unit
  IsBlank (text s) = s ≡ ""
  IsBlank (other a) = ⊥

  -- Two values that a form does not tell apart.
  abbrev pub SameValue : Value A → Value A → Type 0
  SameValue v w = (IsBlank v × IsBlank w) ⊎ (v ≡ w)

  is_empty_iff : (v : Value A) → (is_empty v ≡ true) ↔ IsBlank v
  unfolding is_empty IsBlank
  is_empty_iff null = (λ h. tt, λ h. refl)
  is_empty_iff undefined = (λ h. tt, λ h. refl)
  is_empty_iff (text s) = eq_iff s ""
  is_empty_iff (other a) = ground arith

  -- `===` on the values that are no text decides equality.
  abbrev pub Decides : (A → A → Bool) → Type 0
  Decides same = (a b : A) → (same a b ≡ true) ↔ (a ≡ b)

  module _ (same : A → A → Bool) (decides : Decides same) where
    strictly_equal_iff : (v w : Value A) → (strictly_equal same v w ≡ true) ↔ (v ≡ w)
    unfolding strictly_equal
    strictly_equal_iff null null = ground arith
    strictly_equal_iff null undefined = ground arith
    strictly_equal_iff null (text t) = ground arith
    strictly_equal_iff null (other b) = ground arith
    strictly_equal_iff undefined null = ground arith
    strictly_equal_iff undefined undefined = ground arith
    strictly_equal_iff undefined (text t) = ground arith
    strictly_equal_iff undefined (other b) = ground arith
    strictly_equal_iff (text s) null = ground arith
    strictly_equal_iff (text s) undefined = ground arith
    strictly_equal_iff (text s) (text t) = ground (arith, eq_iff s t)
    strictly_equal_iff (text s) (other b) = ground arith
    strictly_equal_iff (other a) null = ground arith
    strictly_equal_iff (other a) undefined = ground arith
    strictly_equal_iff (other a) (text t) = ground arith
    strictly_equal_iff (other a) (other b) = ground (arith, decides a b)

    are_values_equal_iff : (v w : Value A) → (are_values_equal same v w ≡ true) ↔ SameValue v w
    unfolding are_values_equal
    are_values_equal_iff v w =
        ground (arith, is_empty_iff v, is_empty_iff w, strictly_equal_iff v w)

    -- Where `===` decides equality, a form has no changes exactly where each field has the same value
    -- before and after, or is null, missing or the empty text both times.
    pub has_form_changes_iff :
        (current original : Record A)
        → (has_form_changes same current original ≡ false)
          ↔ ((key : String) → SameValue (value_at current key) (value_at original key))
    unfolding has_form_changes
    has_form_changes_iff current original =
        let iff =
          λ (key : String). are_values_equal_iff (value_at current key) (value_at original key) in
        let listed = keys current ++ keys original in
        (
          (λ h key. (iff key).0 (elim (Bool-cases (listed_in listed key)) [
            | inl l ↦ any_changed-listed same current original listed key h l
            | inr l ↦ absent_equal same current original key l
          ])),
          (λ h. all_equal same current original listed (λ key. (iff key).1 (h key))),
        )
