-- ===== src/Tokens/Runs.antt =====
-- The theme editor over any sequence of edits, resets and loads of its page, between two loads of the
-- tokens: packages/frontend/admin/src/app/core/services/theme/theme-editor.service.ts and
-- token-draft.service.ts.

use mathlib.Core.Path.{subst}
use package.text.Mathlib.TextEquality.{eq_iff}
use express_nest_blueprint.Base.{
  String, Bool, true, false, Option, none, some, [], ◌≡◌, ◌≢◌, ◌⊎◌, ◌↔◌, inl, inr, get_or, refl,
  sym, ap, ◌∙◌, arith,
}
use express_nest_blueprint.Base.Map
use express_nest_blueprint.Base.Map.{Map, get-empty}
use express_nest_blueprint.Base.Entries.{Unique}
use express_nest_blueprint.Tokens.{
  Mode, CssToken, TokenDraft, differs, get_token_by_id, has_token_changes, draft_has_changes,
  create_or_get_draft, update_draft_value, mark_changes,
}
use express_nest_blueprint.Tokens.Editor.{
  Json, Editor, draft_values, token_values, source, put_draft, update_token_draft, reset_drafts,
  save_drafts, load_drafts_from_storage, from_storage, apply_current_tokens,
}
use express_nest_blueprint.Tokens.Overlay.{option_eq_iff}
use express_nest_blueprint.Tokens.View.{values_of, seen, IsSound, HasUniqueIds}
use express_nest_blueprint.Tokens.Values.{update_token_draft-IsAfter}
use express_nest_blueprint.Tokens.Keeps.{update_token_draft-keeps, create_or_update-Unique}

-- The text in localStorage is the drafts.
abbrev IsStored : {Item : Type 0} → Json Item → Editor Item → Type 0
IsStored json s =
    (s.stored ≡ some (json.stringify s.drafts)) ⊎ ((s.stored ≡ none) × (s.drafts ≡ []))

-- JSON reads what it has written.
abbrev pub ReadsBack : {Item : Type 0} → Json Item → Type 0
ReadsBack json = (drafts : Map TokenDraft) → json.parse (json.stringify drafts) ≡ some drafts

-- `loadDraftsFromStorage` in a page that has just been loaded.
abbrev pub reload : {Item : Type 0} → Json Item → Editor Item → Editor Item
reload json s = load_drafts_from_storage json (record s { drafts = [] })

module _ {Item : Type 0} (adjust_opacity : String → String) (json : Json Item) where
  -- What a user does in the editor.
  pub data Step (s : Editor Item) : Editor Item → Type 0 where
    edit :
        (id value : String) (mode : Mode)
        → Step s (update_token_draft adjust_opacity json id value mode s)
    reset : Step s (reset_drafts adjust_opacity json s)
    load_page : Step s (reload json s)

  pub data Reach (s : Editor Item) : Editor Item → Type 0 where
    here : Reach s s
    next : {t u : Editor Item} → Reach s t → Step t u → Reach s u

  pub record IsIntact (s : Editor Item) : Type 0 where
    pub sound : IsSound s
    pub stored : IsStored json s
    pub unique : Unique s.drafts

  put_draft-IsStored :
      (mode : Mode) (t : CssToken) (value : String) (both : Bool) (s : Editor Item)
      → IsStored json s
      → IsStored json (put_draft adjust_opacity json t value mode both s)
  unfolding put_draft save_drafts
  put_draft-IsStored mode t value both s h = inl refl

  put_draft-Unique :
      (mode : Mode) (t : CssToken) (value : String) (both : Bool) (s : Editor Item)
      → Unique s.drafts
      → Unique (put_draft adjust_opacity json t value mode both s).drafts
  unfolding put_draft save_drafts
  put_draft-Unique mode t value both s h =
      create_or_update-Unique s.drafts
        (mark_changes
          (update_draft_value (create_or_get_draft t (Map.get s.drafts t.id)) value mode both) t)
        h

  update-IsIntact :
      (s : Editor Item) (id value : String) (mode : Mode)
      → IsIntact s
      → IsIntact (update_token_draft adjust_opacity json id value mode s)
  update-IsIntact s id value mode h = record {
    sound = (update_token_draft-IsAfter adjust_opacity json mode s id value h.sound).0;
    stored =
        update_token_draft-keeps adjust_opacity json (IsStored json) mode (put_draft-IsStored mode)
          id value s h.stored;
    unique =
        update_token_draft-keeps adjust_opacity json (λ x. Unique x.drafts) mode
          (put_draft-Unique mode) id value s h.unique;
  }

  reset-IsIntact : (s : Editor Item) → IsIntact s → IsIntact (reset_drafts adjust_opacity json s)
  unfolding reset_drafts save_drafts apply_current_tokens Map.get
  reset-IsIntact s h = record {
    sound = (λ k d e. absurd (ground (arith, e)), h.sound.1);
    stored = inl refl;
    unique = tt;
  }

  reload_lem : (s : Editor Item) → ReadsBack json → IsStored json s → reload json s ≡ s
  unfolding load_drafts_from_storage from_storage
  reload_lem s back (inl e) = rw e (rw (back s.drafts) refl)
  reload_lem s back (inr (e, n)) =
      ap (λ text. from_storage json text (record s { drafts = [] })) e
      ∙ ap (λ d. record s { drafts = d }) (sym n)

  pub new-IsIntact :
      (s : Editor Item) → HasUniqueIds s.tokens → s.drafts ≡ [] → s.stored ≡ none → IsIntact s
  new-IsIntact s unique empty new = record {
    sound = (
      λ k d e. absurd (ground (arith, sym e ∙ (ap (λ m. Map.get m k) empty ∙ get-empty k))),
      unique,
    );
    stored = inr (new, empty);
    unique = subst (λ m. Unique m) (sym empty) tt;
  }

  Step-IsIntact : {s t : Editor Item} → ReadsBack json → Step s t → IsIntact s → IsIntact t
  Step-IsIntact back (edit id value mode) h = update-IsIntact _ id value mode h
  Step-IsIntact back reset h = reset-IsIntact _ h
  Step-IsIntact {s = s} back load_page h = subst IsIntact (sym (reload_lem s back h.stored)) h

  pub Reach-IsIntact : {s t : Editor Item} → ReadsBack json → Reach s t → IsIntact s → IsIntact t
  Reach-IsIntact back here h = h
  Reach-IsIntact back (next r st) h = Step-IsIntact back st (Reach-IsIntact back r h)

-- A draft with the values of its token does not differ from it.
differs-same :
    (d : TokenDraft) (t : CssToken) → draft_values d ≡ token_values t → differs d t ≡ false
unfolding differs
differs-same d t h = ground (
  arith,
  ap (λ v. v.light_mode_value) h,
  ap (λ v. v.dark_mode_value) h,
  ap (λ v. v.default_value) h,
  option_eq_iff d.light_mode_value t.light_mode_value,
  option_eq_iff d.dark_mode_value t.dark_mode_value,
  eq_iff d.default_value t.default_value,
)

changes_lem :
    (t : CssToken) (o : Option TokenDraft)
    → ((d : TokenDraft) → o ≡ some d → (d.has_changes ≡ true) × (differs d t ≡ true))
    → (draft_has_changes o ≡ true) ↔ (source o t ≢ token_values t)
unfolding draft_has_changes source
changes_lem t none h = ((λ e. absurd (ground (arith, e))), (λ n. absurd (n refl)))
changes_lem t (some d) h =
    rw ((h d refl).0) ((λ e p. ground (arith, differs-same d t p, (h d refl).1)), (λ n. refl))

differs_of_kept :
    {Item : Type 0} (s : Editor Item) (t : CssToken)
    → IsSound s
    → get_token_by_id s.tokens t.id ≡ some t
    → (d : TokenDraft) → Map.get s.drafts t.id ≡ some d
    → (d.has_changes ≡ true) × (differs d t ≡ true)
differs_of_kept s t sound found d e =
    let k = sound.0 t.id d e in
    let same : k.2.0 ≡ t = ground (arith, sym k.2.1 ∙ found) in
    (k.1, subst (λ u. differs d u ≡ true) same k.2.2)

-- After any edits, resets and loads of the page, from no drafts and none stored, a token counts as
-- changed exactly where the values that the editor has for it differ from those that were loaded; the
-- ids of the tokens are unique, and JSON reads back what it writes.
pub run-has_token_changes :
    {Item : Type 0} (adjust_opacity : String → String) (json : Json Item) (s s' : Editor Item)
    (t : CssToken)
    → ReadsBack json
    → HasUniqueIds s.tokens
    → s.drafts ≡ []
    → s.stored ≡ none
    → Reach adjust_opacity json s s'
    → get_token_by_id s'.tokens t.id ≡ some t
    → (has_token_changes s'.drafts t.id ≡ true) ↔ (values_of s' t.id ≢ some (token_values t))
unfolding has_token_changes values_of seen
run-has_token_changes adjust_opacity json s s' t back unique empty new run found =
    let intact =
      Reach-IsIntact adjust_opacity json back run
        (new-IsIntact adjust_opacity json s unique empty new) in
    let c = changes_lem t (Map.get s'.drafts t.id) (differs_of_kept s' t intact.sound found) in
    rw found
      ((λ e p. c.0 e (ap (λ o. get_or o (token_values t)) p)), (λ n. c.1 (λ p. n (ap some p))))
