-- ===== src/Tokens/Keeps.antt =====
-- What an edit of the theme editor keeps:
-- packages/frontend/admin/src/app/core/services/theme/theme-editor.service.ts and
-- token-relationship-handler.service.ts.

use express_nest_blueprint.Base.{String, Bool, false, Option, none, some, List, [], ◌∷◌, if_cases}
use express_nest_blueprint.Base.Map
use express_nest_blueprint.Base.Map.{Map, get-empty}
use express_nest_blueprint.Base.Entries.{Unique, set-Unique, delete-Unique}
use express_nest_blueprint.Tokens.{
  Mode, CssToken, TokenDraft, get_token_by_id, get_token_by_name, token_relationships,
  token_generators, should_update_both_modes, create_or_update_draft,
}
use express_nest_blueprint.Tokens.Editor.{
  Json, Editor, put_draft, put_found, put_generated, update_single_related_token, update_each,
  update_related_tokens, update_found, update_token_draft,
}

module _ {Item : Type 0} (adjust_opacity : String → String) (json : Json Item)
    (P : Editor Item → Type 0) (mode : Mode)
    (put : (t : CssToken) (value : String) (both : Bool) (s : Editor Item)
      → P s
      → P (put_draft adjust_opacity json t value mode both s)) where
  put_found-keeps :
      (o : Option CssToken) (value : String) (both : Bool) (s : Editor Item)
      → P s
      → P (put_found adjust_opacity json o value mode both s)
  unfolding put_found
  put_found-keeps none value both s h = h
  put_found-keeps (some t) value both s h = put t value both s h

  put_generated-keeps :
      (o : Option (String → String)) (related value : String) (s : Editor Item)
      → P s
      → P (put_generated adjust_opacity json related value mode o s)
  unfolding put_generated
  put_generated-keeps none related value s h = h
  put_generated-keeps (some g) related value s h =
      put_found-keeps (get_token_by_name s.tokens related) (g value) false s h

  update_each-keeps :
      (names : List String) (value : String) (s : Editor Item)
      → P s
      → P (update_each adjust_opacity json names value mode s)
  unfolding update_each update_single_related_token
  update_each-keeps [] value s h = h
  update_each-keeps (related ∷ names) value s h =
      update_each-keeps names value
        (update_single_related_token adjust_opacity json related value mode s)
        (put_generated-keeps (token_generators adjust_opacity related) related value s h)

  update_found-keeps :
      (o : Option CssToken) (value : String) (s : Editor Item)
      → P s
      → P (update_found adjust_opacity json o value mode s)
  unfolding update_found update_related_tokens
  update_found-keeps none value s h = h
  update_found-keeps (some t) value s h =
      update_each-keeps (token_relationships t.token_name) value
        (put_draft adjust_opacity json t value mode (should_update_both_modes t.token_name) s)
        (put t value (should_update_both_modes t.token_name) s h)

  -- What every put of a draft keeps, an edit keeps.
  pub update_token_draft-keeps :
      (id value : String) (s : Editor Item)
      → P s
      → P (update_token_draft adjust_opacity json id value mode s)
  unfolding update_token_draft
  update_token_draft-keeps id value s h = update_found-keeps (get_token_by_id s.tokens id) value s h

pub create_or_update-Unique :
    (m : Map TokenDraft) (d : TokenDraft) → Unique m → Unique (create_or_update_draft m d)
unfolding create_or_update_draft
create_or_update-Unique m d h =
    if_cases {A = Map TokenDraft} (λ x. Unique {V = TokenDraft} x) d.has_changes (Map.set m d.id d)
      (Map.delete m d.id) (λ _. set-Unique m d.id d h) (λ _. delete-Unique m d.id h)
