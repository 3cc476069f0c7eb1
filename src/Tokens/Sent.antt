-- ===== src/Tokens/Sent.antt =====
-- What the table has once the drafts are sent:
-- packages/frontend/admin/src/app/core/services/theme/theme-editor.service.ts.

use mathlib.Core.Path.{subst}
use package.text.Mathlib.Text.{◌==◌ as str_eq}
use package.text.Mathlib.TextEquality.{eq_iff}
use express_nest_blueprint.Base.{
  String, true, Bool-cases, Option, none, some, List, [], ◌∷◌, ◌≡◌, inl, inr, if◌then◌else◌, refl,
  sym, ap, ◌∙◌, arith,
}
use express_nest_blueprint.Base.Settled.{ok}
use express_nest_blueprint.Base.Map
use express_nest_blueprint.Base.Map.{Map}
use express_nest_blueprint.Base.Entries.{Unique}
use express_nest_blueprint.Tokens.{CssToken, TokenDraft, get_all_drafts_for_publish}
use express_nest_blueprint.Tokens.Editor.{Values, draft_values}
use express_nest_blueprint.Tokens.View.{View}
use express_nest_blueprint.Tokens.Publish.{Server, Answers, patch_all, first_error, replaced}

unfoldable pub published : Option TokenDraft → Option Values → Option Values
unfolding replaced
published none o = o
published (some d) o = replaced (draft_values d) o

-- Each draft stands under its id and has changes.
abbrev pub IsMarked : Map TokenDraft → Type 0
IsMarked m =
    (k : String) (d : TokenDraft) → Map.get m k ≡ some d → (d.id ≡ k) × (d.has_changes ≡ true)

pub IsMarked-first :
    (m : Map TokenDraft) (j : String) (d : TokenDraft)
    → IsMarked ((j, d) ∷ m)
    → (d.id ≡ j) × (d.has_changes ≡ true)
unfolding Map.get
IsMarked-first m j d h = h j d (rw ((eq_iff j j).1 refl) refl)

absent_other :
    (m : Map TokenDraft) (j k : String)
    → Map.get m j ≡ none
    → str_eq j k ≡ true
    → Map.get m k ≡ none
absent_other m j k a b = subst (λ i. Map.get m i ≡ none) ((eq_iff j k).0 b) a

IsMarked-rest :
    (m : Map TokenDraft) (j : String) (d : TokenDraft)
    → Map.get m j ≡ none
    → IsMarked ((j, d) ∷ m)
    → IsMarked m
unfolding Map.get
IsMarked-rest m j d a h k e f = elim (Bool-cases (str_eq j k)) [
  | inl b ↦ absurd (ground (arith, sym f ∙ absent_other m j k a b))
  | inr b ↦ h k e (rw b f)
]

published_first :
    (m : Map TokenDraft) (j : String) (d : TokenDraft) (k : String) (o : Option Values)
    → Map.get m j ≡ none
    → published (Map.get m k) (if str_eq j k then replaced (draft_values d) o else o)
      ≡ published (Map.get ((j, d) ∷ m) k) o
unfolding published Map.get
published_first m j d k o a = elim (Bool-cases (str_eq j k)) [
  | inl b ↦ rw b (rw (absent_other m j k a b) refl)
  | inr b ↦ rw b refl
]

module _ {S : Type 0} (server : Server S) (sorted : List CssToken → List CssToken) (rows : S → View)
    (answers : Answers server sorted rows) where
  pub patch_all-ok : (drafts : List TokenDraft) (w : S) → (patch_all server drafts w).0 ≡ ok tt
  unfolding patch_all first_error
  patch_all-ok [] w = refl
  patch_all-ok (d ∷ drafts) w =
      rw (answers.patched d.id (draft_values d) w)
        (patch_all-ok drafts ((server.patch d.id (draft_values d) w).1))

  -- A draft that the first of them sends, and then the others.
  patch_first :
      (m : Map TokenDraft) (j : String) (d : TokenDraft) (w : S)
      → d.has_changes ≡ true
      → (patch_all server (get_all_drafts_for_publish ((j, d) ∷ m)) w).1
        ≡ (patch_all server
            (get_all_drafts_for_publish m)
            ((server.patch d.id (draft_values d) w).1)).1
  unfolding patch_all get_all_drafts_for_publish
  patch_first m j d w e = ground (arith, e)

  -- Once every draft is sent, the table has the values of the drafts, and its own for the other ids.
  pub patch_all-rows :
      (m : Map TokenDraft) (w : S) (k : String)
      → Unique m
      → IsMarked m
      → rows ((patch_all server (get_all_drafts_for_publish m) w).1) k
        ≡ published (Map.get m k) (rows w k)
  unfolding published Map.get patch_all get_all_drafts_for_publish
  patch_all-rows [] w k u h = refl
  patch_all-rows ((j, d) ∷ m) w k (a, u) h =
      let own = IsMarked-first m j d h in
      let w' = (server.patch d.id (draft_values d) w).1 in
      ap (λ x. rows x k) (patch_first m j d w own.1)
      ∙ (patch_all-rows m w' k u (IsMarked-rest m j d a h)
          ∙ (ap (published (Map.get m k)) (
                answers.rows_after d.id (draft_values d) w k
                ∙ ap (λ i. if str_eq i k then replaced (draft_values d) (rows w k) else rows w k)
                    own.0)
              ∙ published_first m j d k (rows w k) a))
