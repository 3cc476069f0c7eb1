-- ===== src/Tokens/Tests.antt =====
-- The theme editor at concrete inputs, and witnesses.
use Prim.Native.String
use package.text.Mathlib.Text.{◌==◌ as str_eq}
use package.text.Mathlib.TextEquality.{eq_iff}
use express_nest_blueprint.Base.{
  String, true, false, none, some, List, [], ◌∷◌, ◌≡◌, ◌≢◌, ◌↔◌, inl, refl, sym, ap, if◌then◌else◌,
  arith,
}
use express_nest_blueprint.Base.Settled.{ok}
use express_nest_blueprint.Base.Map
use express_nest_blueprint.Base.Map.{Map}
use express_nest_blueprint.Tokens.{
  Mode, light, CssToken, TokenDraft, get_token_by_id, has_token_changes, create_or_update_draft,
  create_or_get_draft, update_draft_value, mark_changes, differs, option_eq,
}
use express_nest_blueprint.Base.Text.{includes, starts_with}
use express_nest_blueprint.Tokens.{
  token_generators, token_relationships, get_token_by_name, should_update_both_modes,
}
use express_nest_blueprint.Tokens.Runs.{Reach, here, next, edit, run-has_token_changes}
use express_nest_blueprint.Tokens.Publish.{Server, Answers, token_view, replaced, publish_drafts}
use express_nest_blueprint.Tokens.Shown.{publish_drafts-get_token_value}
use express_nest_blueprint.Tokens.Editor.{
  Json, Editor, Values, get_token_value, update_token_draft, update_found, put_draft,
  update_related_tokens, update_each, update_single_related_token, put_generated, put_found,
  save_drafts, shown_value, source, value_in, truthy_or, token_values,
}
use express_nest_blueprint.Tokens.Values.{update_token_draft-values}
use express_nest_blueprint.Tokens.Sparse.{update_token_draft-get_token_value}
use express_nest_blueprint.Tokens.View.{values_of, seen, write_all, writes, IsSound, HasUniqueIds}

abbrev token : String → String → String → CssToken
token id name value = record {
  id = id;
  token_name = name;
  token_category = "colors";
  token_type = "color";
  default_value = value;
  light_mode_value = none;
  dark_mode_value = none;
  description = none;
  is_customizable = true;
  created_at = 0;
  updated_at = 0;
}

abbrev background : CssToken
background = token "1" "--btn-secondary-bg" "#fff"

abbrev hover : CssToken
hover = token "2" "--btn-secondary-hover" "#eee"

abbrev tokens : List CssToken
tokens = background ∷ hover ∷ []

abbrev opened : Editor (Map TokenDraft)
opened = record { tokens = tokens; drafts = []; theme = light; css = []; stored = none }

-- An opacity that is put after the colour.
abbrev faded : String → String
faded color = String.◌++◌ color "26"

abbrev json : Json (Map TokenDraft)
json = record { stringify = λ drafts. drafts; parse = λ drafts. some drafts }

tokens-HasUniqueIds : HasUniqueIds tokens
unfolding get_token_by_id
tokens-HasUniqueIds = (refl, (refl, tt))

opened-IsSound : IsSound opened
unfolding Map.get
opened-IsSound = ((λ k d e. absurd (ground (arith, e))), tokens-HasUniqueIds)

abbrev edited : Editor (Map TokenDraft)
edited = update_token_draft faded json "1" "#000" light opened

related_value : get_token_value edited "2" light ≡ "#00026"
unfolding get_token_value update_token_draft update_found put_draft update_related_tokens
    update_each update_single_related_token put_generated put_found token_generators
    token_relationships get_token_by_name get_token_by_id save_drafts create_or_update_draft
    create_or_get_draft update_draft_value mark_changes differs option_eq should_update_both_modes
    includes starts_with shown_value source value_in truthy_or Map.get Map.set Map.delete
related_value = refl

update_token_draft-values_example :
    values_of edited ≡ write_all light (writes faded tokens "1" "#000") (values_of opened)
update_token_draft-values_example =
    update_token_draft-values faded json light opened "1" "#000" opened-IsSound

abbrev color : String
color = "#000"

black : color ≢ ""
black p = ground (arith, (eq_iff color "").1 p)

background_found : get_token_by_id tokens "1" ≡ some background
unfolding get_token_by_id
background_found = refl

update_token_draft-get_token_value_example : get_token_value edited "1" light ≡ "#000"
update_token_draft-get_token_value_example =
    update_token_draft-get_token_value faded json light light opened background "#000"
      opened-IsSound background_found black (inl refl)

edited-Reach : Reach faded json opened edited
edited-Reach = next here (edit "1" "#000" light)

edited_found : get_token_by_id edited.tokens "1" ≡ some background
unfolding update_token_draft update_found put_draft update_related_tokens update_each
    update_single_related_token put_generated put_found token_generators token_relationships
    get_token_by_name get_token_by_id save_drafts
edited_found = refl

run-has_token_changes_example :
    (has_token_changes edited.drafts "1" ≡ true)
    ↔ (values_of edited "1" ≢ some (token_values background))
run-has_token_changes_example =
    run-has_token_changes faded json opened edited background (λ drafts. refl) tokens-HasUniqueIds
      refl refl edited-Reach edited_found

edited_tokens : edited.tokens ≡ tokens
unfolding update_token_draft update_found put_draft update_related_tokens update_each
    update_single_related_token put_generated put_found token_generators token_relationships
    get_token_by_name get_token_by_id save_drafts
edited_tokens = refl

edited_rows : (k : String) → token_view tokens k ≡ token_view edited.tokens k
edited_rows k = ap (λ l. token_view l k) (sym edited_tokens)

abbrev with_values : Values → CssToken → CssToken
with_values v t = record t {
  light_mode_value = v.light_mode_value;
  dark_mode_value = v.dark_mode_value;
  default_value = v.default_value;
}

patch_rows : String → Values → List CssToken → List CssToken
patch_rows id v [] = []
patch_rows id v (t ∷ rows) =
    let rest = patch_rows id v rows in if str_eq t.id id then with_values v t ∷ rest else t ∷ rest

abbrev server : Server (List CssToken)
server = record {
  patch = λ id v rows. (ok tt, patch_rows id v rows);
  get_all = λ rows. (ok rows, rows);
}

token_view-patch_rows :
    (id : String) (v : Values) (rows : List CssToken) (k : String)
    → token_view (patch_rows id v rows) k
      ≡ (if str_eq id k then replaced v (token_view rows k) else token_view rows k)
unfolding patch_rows token_view seen get_token_by_id replaced source
token_view-patch_rows id v [] k = ground arith
token_view-patch_rows id v (t ∷ rows) k =
    ground (arith, eq_iff t.id id, eq_iff id k, eq_iff t.id k, token_view-patch_rows id v rows k)

server-Answers : Answers server (λ rows. rows) token_view
server-Answers = record {
  patched = λ id v rows. refl;
  rows_after = token_view-patch_rows;
  read = λ rows. (rows, refl);
  rows_read = λ rows k. refl;
}

publish_drafts-get_token_value_example :
    (s' : Editor (Map TokenDraft)) × ((publish_drafts server (λ rows. rows) json edited tokens).0
      ≡ ok s')
    × ((k : String) → has_token_changes s'.drafts k ≡ false)
    × ((k : String) (mode : Mode) → get_token_value s' k mode ≡ get_token_value edited k mode)
publish_drafts-get_token_value_example =
    publish_drafts-get_token_value server (λ rows. rows) token_view json faded opened edited tokens
      server-Answers (λ drafts. refl) tokens-HasUniqueIds refl refl edited-Reach edited_rows
