-- ===== src/Tokens/View.antt =====
-- The theme editor as a view of values, where drafts, their marks and their storage are forgotten, and
-- what updateTokenDraft of packages/frontend/admin/src/app/core/services/theme/theme-editor.service.ts
-- is to write.

use mathlib.Core.Path.{subst}
use package.text.Mathlib.Text.{◌==◌ as str_eq}
use package.text.Mathlib.TextEquality.{eq_iff}
use express_nest_blueprint.Base.{
  String, Bool, true, false, Bool-cases, Option, none, some, List, [], ◌∷◌, ◌++◌, ◌≡◌, inl, inr,
  if◌then◌else◌, sym, ap, ◌∙◌, arith, All,
}
use express_nest_blueprint.Base.Map
use express_nest_blueprint.Tokens.{
  Mode, CssToken, TokenDraft, find, get_token_by_id, get_token_by_name, should_update_both_modes,
  token_relationships, token_generators,
}
use express_nest_blueprint.Tokens.Editor.{Editor, Values, source}
use express_nest_blueprint.Tokens.Overlay.{overwrite, IsKept}

-- What the editor has for each id.
abbrev pub View : Type 0
View = String → Option Values

unfoldable pub seen : Option TokenDraft → Option CssToken → Option Values
unfolding source
seen draft none = none
seen draft (some token) = some (source draft token)

unfoldable pub values_of : {Item : Type 0} → Editor Item → View
unfolding seen
values_of s id = seen (Map.get s.drafts id) (get_token_by_id s.tokens id)

pub record Write : Type 0 where
  pub id : String
  pub value : String
  pub both : Bool

unfoldable pub write_value : Mode → Write → Option Values → Option Values
unfolding overwrite
write_value mode w none = none
write_value mode w (some v) = some (overwrite v w.value mode w.both)

unfoldable pub write : Mode → Write → View → View
unfolding write_value
write mode w f id = if str_eq w.id id then write_value mode w (f id) else f id

unfoldable pub write_all : Mode → List Write → View → View
unfolding write
write_all mode [] f = f
write_all mode (w ∷ ws) f = write_all mode ws (write mode w f)

module _ (adjust_opacity : String → String) (tokens : List CssToken) where
  unfoldable pub generated_write : String → Option (String → String) → Option CssToken → List Write
  generated_write value (some generator) (some token) =
      record { id = token.id; value = generator value; both = false } ∷ []
  generated_write value _ _ = []

  unfoldable pub related_writes : List String → String → List Write
  unfolding generated_write
  related_writes [] value = []
  related_writes (related ∷ names) value =
      generated_write value (token_generators adjust_opacity related)
        (get_token_by_name tokens related)
      ++ related_writes names value

  unfoldable pub writes_found : Option CssToken → String → List Write
  unfolding related_writes
  writes_found none value = []
  writes_found (some token) value =
      record { id = token.id; value = value; both = should_update_both_modes token.token_name }
      ∷ related_writes (token_relationships token.token_name) value

  -- What an edit of a token writes: its own value, and the generated values of the related tokens.
  unfoldable pub writes : String → String → List Write
  unfolding writes_found
  writes id value = writes_found (get_token_by_id tokens id) value

-- No two tokens have one id.
abbrev pub HasUniqueIds : List CssToken → Type 0
HasUniqueIds tokens = All (λ t. get_token_by_id tokens t.id ≡ some t) tokens

abbrev pub IsSound : {Item : Type 0} → Editor Item → Type 0
IsSound s = IsKept s.tokens s.drafts × HasUniqueIds s.tokens

find-All :
    (P : CssToken → Type 0) (p : CssToken → Bool) (tokens : List CssToken) (t : CssToken)
    → All P tokens
    → find p tokens ≡ some t
    → P t × (p t ≡ true)
find-All P p [] t a e = ground (arith, e)
find-All P p (u ∷ tokens) t (h, a) e = elim (Bool-cases (p u)) [
  | inl b ↦ let s : u ≡ t = ground (arith, e, b) in (subst P s h, ap p (sym s) ∙ b)
  | inr b ↦ find-All P p tokens t a (ground (arith, e, b))
]

pub found_by_name :
    (tokens : List CssToken) (name : String) (t : CssToken)
    → HasUniqueIds tokens
    → get_token_by_name tokens name ≡ some t
    → (get_token_by_id tokens t.id ≡ some t) × (t.token_name ≡ name)
unfolding get_token_by_name
found_by_name tokens name t unique e =
    let f =
      find-All (λ u. get_token_by_id tokens u.id ≡ some u) (λ u. str_eq u.token_name name) tokens t
        unique e in
    (f.0, (eq_iff t.token_name name).0 f.1)

pub found_by_id :
    (tokens : List CssToken) (id : String) (t : CssToken)
    → HasUniqueIds tokens
    → get_token_by_id tokens id ≡ some t
    → (get_token_by_id tokens t.id ≡ some t) × (t.id ≡ id)
unfolding get_token_by_id
found_by_id tokens id t unique e =
    let f =
      find-All (λ u. find (λ v. str_eq v.id u.id) tokens ≡ some u) (λ u. str_eq u.id id) tokens t
        unique e in
    (f.0, (eq_iff t.id id).0 f.1)
