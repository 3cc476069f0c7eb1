-- ===== src/Tokens/Publish.antt =====
-- `publishDrafts` of packages/frontend/admin/src/app/core/services/theme/theme-editor.service.ts, with
-- `loadTokens` and `updateToken` of token.service.ts. The HTTP client and the server are arguments, on one
-- state `S`.

use package.text.Mathlib.Text.{◌==◌ as str_eq}
use express_nest_blueprint.Base.{String, Option, none, some, List, [], ◌∷◌, ◌≡◌, if◌then◌else◌}
use express_nest_blueprint.Base.Settled.{Settled, ok, throws, and_then}
use express_nest_blueprint.Tokens.{
  CssToken, TokenDraft, get_token_by_id, get_all_drafts_for_publish,
}
use express_nest_blueprint.Tokens.Editor.{Json, Editor, Values, draft_values, save_drafts}
use express_nest_blueprint.Tokens.View.{View, seen}

-- `http.patch` of the fields of a token, and `http.get` of all of them.
pub record Server (S : Type 0) : Type 0 where
  pub patch : String → Values → S → Settled Unit × S
  pub get_all : S → Settled (List CssToken) × S

module _ {S : Type 0} (server : Server S) where
  unfoldable pub first_error : Settled Unit → Settled Unit → Settled Unit
  first_error (throws e) rest = throws e
  first_error (ok u) rest = rest

  -- `Promise.all` of the requests: each is sent, whatever comes of the others.
  unfoldable pub patch_all : List TokenDraft → S → Settled Unit × S
  unfolding first_error
  patch_all [] w = (ok tt, w)
  patch_all (draft ∷ drafts) w =
      let one = server.patch draft.id (draft_values draft) w in
      let rest = patch_all drafts one.1 in (first_error one.0 rest.0, rest.1)

module _ {S : Type 0} (server : Server S) (sorted : List CssToken → List CssToken) where
  -- `loadTokens`, with the tokens sorted by name.
  unfoldable pub load_tokens : {Item : Type 0} → Editor Item → S → Settled (Editor Item) × S
  load_tokens s w =
      and_then (server.get_all w) (λ tokens w'. (ok (record s { tokens = sorted tokens }), w'))

module _ {S Item : Type 0} (server : Server S) (sorted : List CssToken → List CssToken)
    (json : Json Item) where
  unfoldable pub publish_all : List TokenDraft → Editor Item → S → Settled (Editor Item) × S
  unfolding patch_all load_tokens save_drafts
  publish_all [] s w = (ok s, w)
  publish_all (draft ∷ drafts) s w = and_then (patch_all server (draft ∷ drafts) w) (λ _ w'.
      and_then (load_tokens server sorted s w') (λ s' w''. (ok (save_drafts json [] s'), w'')))

  unfoldable pub publish_drafts : Editor Item → S → Settled (Editor Item) × S
  unfolding publish_all
  publish_drafts s w = publish_all (get_all_drafts_for_publish s.drafts) s w

-- What the tokens of a list have at each id.
unfoldable pub token_view : List CssToken → View
unfolding seen
token_view tokens id = seen none (get_token_by_id tokens id)

unfoldable pub replaced : Values → Option Values → Option Values
replaced v none = none
replaced v (some old) = some v

module _ {S : Type 0} (server : Server S) (sorted : List CssToken → List CssToken) where
  -- A server that answers each request, where `rows` is what its table has: a PATCH replaces the values
  -- of a row, and the sorted answer of the GET has what the table has.
  pub record Answers (rows : S → View) : Type 0 where
    pub patched : (id : String) (v : Values) (w : S) → (server.patch id v w).0 ≡ ok tt
    pub rows_after :
        (id : String) (v : Values) (w : S) (k : String)
        → rows ((server.patch id v w).1) k
          ≡ (if str_eq id k then replaced v (rows w k) else rows w k)
    pub read : (w : S) → (tokens : List CssToken) × ((server.get_all w).0 ≡ ok tokens)
    pub rows_read : (w : S) (k : String) → token_view (sorted ((read w).0)) k ≡ rows w k
