-- ===== src/Tokens/Editor.antt =====
-- ThemeEditorService, TokenRelationshipHandler and CssApplicationService in a browser:
-- packages/frontend/admin/src/app/core/services/theme. `adjust_opacity` is the one of ColorUtilityService.

use package.text.Mathlib.Text.{◌==◌ as str_eq}
use express_nest_blueprint.Base.{
  String, Bool, false, Option, none, some, List, [], ◌∷◌, if◌then◌else◌,
}
use express_nest_blueprint.Base.Map
use express_nest_blueprint.Base.Map.{Map}
use express_nest_blueprint.Tokens.{
  Mode, light, dark, default, CssToken, TokenDraft, create_or_get_draft, update_draft_value,
  mark_changes, create_or_update_draft, get_token_by_id, get_token_by_name,
  should_update_both_modes, token_relationships, token_generators,
}

-- The signals of the services, the properties of `document.documentElement.style` and the item that
-- localStorage has under the key of the drafts.
pub record Editor (Item : Type 0) : Type 0 where
  pub tokens : List CssToken
  pub drafts : Map TokenDraft
  pub theme : Mode
  pub css : Map String
  pub stored : Option Item

-- `JSON.stringify` of the entries of the drafts, and `JSON.parse` with `new Map`, of an `Item` that
-- localStorage holds.
pub record Json (Item : Type 0) : Type 0 where
  pub stringify : Map TokenDraft → Item
  pub parse : Item → Option (Map TokenDraft)

-- The three values that a draft and a token both have.
pub record Values : Type 0 where
  pub light_mode_value : Option String
  pub dark_mode_value : Option String
  pub default_value : String

abbrev pub draft_values : TokenDraft → Values
draft_values draft = record {
  light_mode_value = draft.light_mode_value;
  dark_mode_value = draft.dark_mode_value;
  default_value = draft.default_value;
}

abbrev pub token_values : CssToken → Values
token_values token = record {
  light_mode_value = token.light_mode_value;
  dark_mode_value = token.dark_mode_value;
  default_value = token.default_value;
}

-- `draft?.hasChanges ? draft : token`.
unfoldable pub source : Option TokenDraft → CssToken → Values
source none token = token_values token
source (some draft) token = if draft.has_changes then draft_values draft else token_values token

-- `if (value) return value; return fallback`.
unfoldable pub truthy_or : Option String → String → String
truthy_or none fallback = fallback
truthy_or (some value) fallback = if str_eq value "" then fallback else value

unfoldable pub value_in : Mode → Values → String
unfolding truthy_or
value_in light v = truthy_or v.light_mode_value v.default_value
value_in dark v = truthy_or v.dark_mode_value v.default_value
value_in default v = v.default_value

unfoldable pub shown_value : Mode → Option TokenDraft → Option CssToken → String
unfolding value_in source
shown_value mode draft none = ""
shown_value mode draft (some token) = value_in mode (source draft token)

-- `getTokenValue(tokenId, mode)`, whose callers pass the current theme where they pass no mode.
unfoldable pub get_token_value : {Item : Type 0} → Editor Item → String → Mode → String
unfolding shown_value
get_token_value s id mode = shown_value mode (Map.get s.drafts id) (get_token_by_id s.tokens id)

module _ {Item : Type 0} (json : Json Item) where
  -- `this._drafts.set(drafts); this.saveDraftsToStorage()`.
  unfoldable pub save_drafts : Map TokenDraft → Editor Item → Editor Item
  save_drafts drafts s = record s { drafts = drafts; stored = some (json.stringify drafts) }

  unfoldable pub from_storage : Option Item → Editor Item → Editor Item
  from_storage none s = s
  from_storage (some text) s = from_parsed (json.parse text) s
    where
      -- A text that is not JSON stops the constructor: the drafts stay as they are.
      from_parsed : Option (Map TokenDraft) → Editor Item → Editor Item
      from_parsed none s = s
      from_parsed (some drafts) s = record s { drafts = drafts }

  -- `loadDraftsFromStorage`.
  unfoldable pub load_drafts_from_storage : Editor Item → Editor Item
  unfolding from_storage
  load_drafts_from_storage s = from_storage s.stored s

module _ (adjust_opacity : String → String) where
  set_generated : String → String → Option (String → String) → Map String → Map String
  set_generated related value none css = css
  set_generated related value (some generator) css = Map.set css related (generator value)

  apply_related_tokens : List String → String → Map String → Map String
  unfolding set_generated
  apply_related_tokens [] value css = css
  apply_related_tokens (related ∷ names) value css =
      apply_related_tokens names value
        (set_generated related value (token_generators adjust_opacity related) css)

  unfoldable pub apply_token_to_css : String → String → Map String → Map String
  unfolding apply_related_tokens
  apply_token_to_css name value css =
      apply_related_tokens (token_relationships name) value (Map.set css name value)

  -- `tokens.forEach` in `applyCurrentTokens`.
  apply_each : {Item : Type 0} → Editor Item → List CssToken → Map String → Map String
  unfolding apply_token_to_css get_token_value
  apply_each s [] css = css
  apply_each s (token ∷ tokens) css =
      let value = get_token_value s token.id s.theme in
      apply_each s tokens
        (if str_eq value "" then css else apply_token_to_css token.token_name value css)

  unfoldable pub apply_current_tokens : {Item : Type 0} → Editor Item → Editor Item
  unfolding apply_each
  apply_current_tokens s = record s { css = apply_each s s.tokens s.css }

  unfoldable pub set_tokens : {Item : Type 0} → List CssToken → Editor Item → Editor Item
  unfolding apply_current_tokens
  set_tokens tokens s = apply_current_tokens (record s { tokens = tokens })

  module _ {Item : Type 0} (json : Json Item) where
    -- The end of `updateTokenDraft` and of `updateSingleRelatedToken`.
    unfoldable pub put_draft : CssToken → String → Mode → Bool → Editor Item → Editor Item
    unfolding save_drafts apply_token_to_css
    put_draft token value mode both s =
        let draft = create_or_get_draft token (Map.get s.drafts token.id) in
        let updated = mark_changes (update_draft_value draft value mode both) token in
        let saved = save_drafts json (create_or_update_draft s.drafts updated) s in
        record saved { css = apply_token_to_css token.token_name value s.css }

    unfoldable pub put_found : Option CssToken → String → Mode → Bool → Editor Item → Editor Item
    unfolding put_draft
    put_found none value mode both s = s
    put_found (some token) value mode both s = put_draft token value mode both s

    unfoldable pub put_generated :
        String → String → Mode → Option (String → String) → Editor Item → Editor Item
    unfolding put_found
    put_generated related value mode none s = s
    put_generated related value mode (some generator) s =
        put_found (get_token_by_name s.tokens related) (generator value) mode false s

    unfoldable pub update_single_related_token : String → String → Mode → Editor Item → Editor Item
    unfolding put_generated
    update_single_related_token related value mode s =
        put_generated related value mode (token_generators adjust_opacity related) s

    unfoldable pub update_each : List String → String → Mode → Editor Item → Editor Item
    unfolding update_single_related_token
    update_each [] value mode s = s
    update_each (related ∷ names) value mode s =
        update_each names value mode (update_single_related_token related value mode s)

    unfoldable pub update_related_tokens : String → String → Mode → Editor Item → Editor Item
    unfolding update_each
    update_related_tokens name value mode s = update_each (token_relationships name) value mode s

    unfoldable pub update_found : Option CssToken → String → Mode → Editor Item → Editor Item
    unfolding put_draft update_related_tokens
    update_found none value mode s = s
    update_found (some token) value mode s =
        update_related_tokens token.token_name value mode
          (put_draft token value mode (should_update_both_modes token.token_name) s)

    unfoldable pub update_token_draft : String → String → Mode → Editor Item → Editor Item
    unfolding update_found
    update_token_draft id value mode s = update_found (get_token_by_id s.tokens id) value mode s

    unfoldable pub reset_drafts : Editor Item → Editor Item
    unfolding save_drafts apply_current_tokens
    reset_drafts s = apply_current_tokens (save_drafts json [] s)
