-- ===== src/Tokens/Overlay.antt =====
-- What a draft that is put among the drafts says, and what the drafts always are:
-- packages/frontend/admin/src/app/core/services/theme/token-draft.service.ts and
-- token-draft-factory.util.ts.

use mathlib.Core.Path.{subst}
use package.text.Mathlib.Text.{◌==◌ as str_eq}
use package.text.Mathlib.TextEquality.{eq_iff}
use express_nest_blueprint.Base.{
  String, Bool, true, false, Bool-cases, Option, none, some, List, ◌≡◌, ◌↔◌, inl, inr,
  if◌then◌else◌, refl, sym, ap, ◌∙◌, arith,
}
use express_nest_blueprint.Base.Map
use express_nest_blueprint.Base.Map.{Map, get-set, get-delete}
use express_nest_blueprint.Tokens.{
  Mode, light, dark, default, CssToken, TokenDraft, option_eq, create_or_get_draft,
  update_draft_value, differs, mark_changes, create_or_update_draft, get_token_by_id,
}
use express_nest_blueprint.Tokens.Editor.{Values, draft_values, token_values, source}

pub option_eq_iff : (a b : Option String) → (option_eq a b ≡ true) ↔ (a ≡ b)
unfolding option_eq
option_eq_iff none none = ground arith
option_eq_iff none (some b) = ground arith
option_eq_iff (some a) none = ground arith
option_eq_iff (some a) (some b) = ground (arith, eq_iff a b)

-- A draft that does not differ has the values of the token.
draft_values-same :
    (d : TokenDraft) (t : CssToken) → differs d t ≡ false → draft_values d ≡ token_values t
unfolding differs
draft_values-same d t h = ground (
  arith,
  h,
  option_eq_iff d.light_mode_value t.light_mode_value,
  option_eq_iff d.dark_mode_value t.dark_mode_value,
  eq_iff d.default_value t.default_value,
)

-- What an edit does to the values of a token.
unfoldable pub overwrite : Values → String → Mode → Bool → Values
overwrite v value light both = record v {
  light_mode_value = some value;
  dark_mode_value = if both then some value else v.dark_mode_value;
}
overwrite v value dark both = record v {
  dark_mode_value = some value;
  light_mode_value = if both then some value else v.light_mode_value;
}
overwrite v value default both = record {
  default_value = value;
  light_mode_value = some value;
  dark_mode_value = some value;
}

draft_values-update :
    (d : TokenDraft) (value : String) (mode : Mode) (both : Bool)
    → draft_values (update_draft_value d value mode both)
      ≡ overwrite (draft_values d) value mode both
unfolding update_draft_value overwrite
draft_values-update d value light both = refl
draft_values-update d value dark both = refl
draft_values-update d value default both = refl

-- What holds of the entry at a key.
abbrev pub IsKeptAt : List CssToken → String → TokenDraft → Type 0
IsKeptAt tokens k d =
    (d.id ≡ k)
    × (d.has_changes ≡ true)
    × ((t : CssToken) × (get_token_by_id tokens k ≡ some t) × (differs d t ≡ true))

-- Each draft stands under its id and differs from its token.
abbrev pub IsKept : List CssToken → Map TokenDraft → Type 0
IsKept tokens drafts =
    (k : String) (d : TokenDraft) → Map.get drafts k ≡ some d → IsKeptAt tokens k d

draft_id :
    (t : CssToken) (o : Option TokenDraft) (value : String) (mode : Mode) (both : Bool)
    → ((d : TokenDraft) → o ≡ some d → d.id ≡ t.id)
    → (update_draft_value (create_or_get_draft t o) value mode both).id ≡ t.id
unfolding create_or_get_draft update_draft_value
draft_id t none value light both h = refl
draft_id t none value dark both h = refl
draft_id t none value default both h = refl
draft_id t (some d) value light both h = h d refl
draft_id t (some d) value dark both h = h d refl
draft_id t (some d) value default both h = h d refl

draft_values-create :
    (t : CssToken) (o : Option TokenDraft)
    → ((d : TokenDraft) → o ≡ some d → d.has_changes ≡ true)
    → draft_values (create_or_get_draft t o) ≡ source o t
unfolding create_or_get_draft source
draft_values-create t none h = refl
draft_values-create t (some d) h = ground (arith, h d refl)

-- What stands at each key once a draft is put among the others.
get-create_or_update :
    (m : Map TokenDraft) (u : TokenDraft) (k : String)
    → Map.get (create_or_update_draft m u) k
      ≡ (if str_eq u.id k then (if u.has_changes then some u else none) else Map.get m k)
unfolding create_or_update_draft
get-create_or_update m u k = ground (arith, get-set m u.id k u, get-delete m u.id k)

-- A draft whose mark is right, or no draft where it has no changes, gives the values of the draft.
source-marked :
    (d : TokenDraft) (t : CssToken)
    → source (if differs d t then some (mark_changes d t) else none) t ≡ draft_values d
unfolding source mark_changes
source-marked d t = elim (Bool-cases (differs d t)) [
  | inl e ↦ ground (arith, e)
  | inr e ↦ rw e (sym (draft_values-same d t e))
]

module _ (tokens : List CssToken) (m : Map TokenDraft) (t : CssToken) (value : String) (mode : Mode)
    (both : Bool) (kept : IsKept tokens m) (found : get_token_by_id tokens t.id ≡ some t) where
  unfoldable pub edited : TokenDraft
  edited = update_draft_value (create_or_get_draft t (Map.get m t.id)) value mode both

  unfoldable pub edited_drafts : Map TokenDraft
  unfolding edited
  edited_drafts = create_or_update_draft m (mark_changes edited t)

  edited_id : edited.id ≡ t.id
  unfolding edited
  edited_id = draft_id t (Map.get m t.id) value mode both (λ d e. (kept t.id d e).0)

  get-edited :
      (k : String)
      → Map.get edited_drafts k ≡ (
          if str_eq t.id k
          then (if differs edited t then some (mark_changes edited t) else none)
          else Map.get m k)
  unfolding edited_drafts mark_changes
  get-edited k =
      get-create_or_update m (mark_changes edited t) k
      ∙ ap
          (λ i.
            if str_eq i k
            then (if differs edited t then some (mark_changes edited t) else none)
            else Map.get m k)
          edited_id

  pub source-edited :
      source (Map.get edited_drafts t.id) t ≡ overwrite (source (Map.get m t.id) t) value mode both
  unfolding edited
  source-edited = rw (get-edited t.id) rw ((eq_iff t.id t.id).1 refl) (
      source-marked edited t
      ∙ (draft_values-update (create_or_get_draft t (Map.get m t.id)) value mode both
          ∙ ap (λ v. overwrite v value mode both)
              (draft_values-create t (Map.get m t.id) (λ d e. (kept t.id d e).1))))

  pub get-edited_other :
      (k : String) → str_eq t.id k ≡ false → Map.get edited_drafts k ≡ Map.get m k
  get-edited_other k h = rw (get-edited k) rw h refl

  marked-IsKeptAt : differs edited t ≡ true → IsKeptAt tokens t.id (mark_changes edited t)
  unfolding mark_changes differs
  marked-IsKeptAt h = (edited_id, h, (t, found, h))

  put_marked :
      (d : TokenDraft)
      → (if differs edited t then some (mark_changes edited t) else none) ≡ some d
      → (differs edited t ≡ true) × (mark_changes edited t ≡ d)
  put_marked d e = ground (arith, e, Bool-cases (differs edited t))

  pub edited-IsKept : IsKept tokens edited_drafts
  edited-IsKept k d e = elim (Bool-cases (str_eq t.id k)) [
    | inl b ↦
        let p = put_marked d (sym (get-edited k ∙ rw b refl) ∙ e) in
        subst (λ j. IsKeptAt tokens j d) ((eq_iff t.id k).0 b)
          (subst (λ x. IsKeptAt tokens t.id x) p.1 (marked-IsKeptAt p.0))
    | inr b ↦ kept k d (sym (get-edited_other k b) ∙ e)
  ]
