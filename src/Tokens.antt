-- ===== src/Tokens.antt =====
-- The theme editor of the admin front end: TokenDraftFactory, TokenDraftService and the look-ups of
-- TokenService, in packages/frontend/admin/src/app/core/services/theme. ThemeEditorService is in Editor.
pub mod Editor
mod Overlay
pub mod View
pub mod Values
pub mod Sparse
mod Keeps
pub mod Runs
pub mod Publish
mod Sent
pub mod Shown
mod Tests
use Prim.Native.String
use package.text.Mathlib.Text.{◌==◌ as str_eq}
use express_nest_blueprint.Base.{
  ℕ, String, Bool, true, false, not, ◌||◌, Option, none, some, List, [], ◌∷◌, length, filter,
  if◌then◌else◌, map,
}
use express_nest_blueprint.Base.Map
use express_nest_blueprint.Base.Map.{Map}
use express_nest_blueprint.Base.Text.{codes, includes}

pub data Mode : Type 0 where
  light : Mode
  dark : Mode
  default : Mode

pub record CssToken : Type 0 where
  pub id : String
  pub token_name : String
  pub token_category : String
  pub token_type : String
  pub default_value : String
  pub light_mode_value : Option String
  pub dark_mode_value : Option String
  pub description : Option String
  pub is_customizable : Bool
  pub created_at : ℕ
  pub updated_at : ℕ

pub record TokenDraft : Type 0 where
  pub id : String
  pub token_name : String
  pub light_mode_value : Option String
  pub dark_mode_value : Option String
  pub default_value : String
  pub has_changes : Bool

-- `a === b` on strings that may be null.
unfoldable pub option_eq : Option String → Option String → Bool
option_eq none none = true
option_eq (some a) (some b) = str_eq a b
option_eq _ _ = false

unfoldable pub create_or_get_draft : CssToken → Option TokenDraft → TokenDraft
create_or_get_draft token (some draft) = draft
create_or_get_draft token none = record {
  id = token.id;
  token_name = token.token_name;
  light_mode_value = token.light_mode_value;
  dark_mode_value = token.dark_mode_value;
  default_value = token.default_value;
  has_changes = false;
}

unfoldable pub update_draft_value : TokenDraft → String → Mode → Bool → TokenDraft
update_draft_value draft value light both = record draft {
  light_mode_value = some value;
  dark_mode_value = if both then some value else draft.dark_mode_value;
}
update_draft_value draft value dark both = record draft {
  dark_mode_value = some value;
  light_mode_value = if both then some value else draft.light_mode_value;
}
update_draft_value draft value default both = record draft {
  default_value = value;
  light_mode_value = some value;
  dark_mode_value = some value;
}

unfoldable pub differs : TokenDraft → CssToken → Bool
unfolding option_eq
differs draft token =
    not (option_eq draft.light_mode_value token.light_mode_value)
    || not (option_eq draft.dark_mode_value token.dark_mode_value)
    || not (str_eq draft.default_value token.default_value)

unfoldable pub mark_changes : TokenDraft → CssToken → TokenDraft
mark_changes draft token = record draft { has_changes = differs draft token }

unfoldable pub create_or_update_draft : Map TokenDraft → TokenDraft → Map TokenDraft
create_or_update_draft drafts draft =
    if draft.has_changes then Map.set drafts draft.id draft else Map.delete drafts draft.id

unfoldable pub draft_has_changes : Option TokenDraft → Bool
draft_has_changes none = false
draft_has_changes (some draft) = draft.has_changes

unfoldable pub has_token_changes : Map TokenDraft → String → Bool
unfolding draft_has_changes
has_token_changes drafts id = draft_has_changes (Map.get drafts id)

-- The values of a `Map`, in its order.
abbrev values : Map TokenDraft → List TokenDraft
values = map (λ entry. entry.1)

unfoldable pub get_all_drafts_for_publish : Map TokenDraft → List TokenDraft
get_all_drafts_for_publish drafts = filter (λ draft. draft.has_changes) (values drafts)

unfoldable pub draft_count : Map TokenDraft → ℕ
draft_count drafts = length (filter (λ draft. draft.has_changes) (values drafts))

-- `tokens.find(p)`.
abbrev pub find : (CssToken → Bool) → List CssToken → Option CssToken
find p [] = none
find p (token ∷ tokens) = let found = find p tokens in if p token then some token else found

unfoldable pub get_token_by_id : List CssToken → String → Option CssToken
get_token_by_id tokens id = find (λ t. str_eq t.id id) tokens

unfoldable pub get_token_by_name : List CssToken → String → Option CssToken
get_token_by_name tokens name = find (λ t. str_eq t.token_name name) tokens

unfoldable pub get_tokens_by_category : List CssToken → String → List CssToken
get_tokens_by_category tokens category = filter (λ t. str_eq t.token_category category) tokens

-- `SYNC_BOTH_MODES_TOKENS.some(prefix => token.tokenName.includes(prefix))`.
unfoldable pub should_update_both_modes : String → Bool
should_update_both_modes name =
    includes (codes name) (codes "toggle") || includes (codes name) (codes "btn-")

-- `TOKEN_RELATIONSHIPS[tokenName]`, none where there is no entry.
unfoldable pub token_relationships : String → List String
token_relationships name =
    if str_eq name "--btn-secondary-bg" then "--btn-secondary-hover" ∷ [] else []

-- `TOKEN_GENERATORS[tokenName]`, over `adjustOpacity(value, 0.15)` of ColorUtilityService.
unfoldable pub token_generators : (String → String) → String → Option (String → String)
token_generators adjust_opacity name =
    if str_eq name "--btn-secondary-hover" then some adjust_opacity else none
