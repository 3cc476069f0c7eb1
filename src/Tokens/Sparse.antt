-- ===== src/Tokens/Sparse.antt =====
-- What an edit shows, and that the drafts are the difference from the loaded tokens:
-- packages/frontend/admin/src/app/core/services/theme/theme-editor.service.ts and
-- token-draft.service.ts.

use package.text.Mathlib.Text.{◌==◌ as str_eq}
use package.text.Mathlib.TextEquality.{eq_iff}
use express_nest_blueprint.Base.{
  String, Bool, false, Bool-cases, Option-cases, Option, none, some, List, [], ◌∷◌, ◌≡◌, ◌≢◌, ◌⊎◌,
  inl, inr, refl, sym, ap, ◌∙◌, arith, All, All-append,
}
use express_nest_blueprint.Base.Map
use express_nest_blueprint.Base.Map.{Map}
use express_nest_blueprint.Tokens.{
  Mode, light, dark, default, CssToken, get_token_by_id, get_token_by_name, token_relationships,
  token_generators, should_update_both_modes,
}
use express_nest_blueprint.Tokens.Editor.{
  Json, Editor, Values, source, value_in, truthy_or, shown_value, get_token_value,
  update_token_draft,
}
use express_nest_blueprint.Tokens.Overlay.{overwrite}
use express_nest_blueprint.Tokens.Values.{update_token_draft-values}
use express_nest_blueprint.Tokens.View.{
  View, Write, values_of, write, write_all, writes, writes_found, related_writes, generated_write,
  IsSound, HasUniqueIds, seen, write_value, found_by_name,
}

unfoldable pub read_value : Mode → Option Values → String
unfolding value_in
read_value mode none = ""
read_value mode (some v) = value_in mode v

pub get_token_value-values :
    {Item : Type 0} (s : Editor Item) (id : String) (mode : Mode)
    → get_token_value s id mode ≡ read_value mode (values_of s id)
unfolding get_token_value values_of seen shown_value read_value
get_token_value-values s id mode = ground (arith, Option-cases (get_token_by_id s.tokens id))

-- An edit in a mode is seen in that mode, and an edit of the default in every mode.
value_in-overwrite :
    (v : Values) (value : String) (mode shown : Mode) (both : Bool)
    → value ≢ ""
    → (mode ≡ shown) ⊎ (mode ≡ default)
    → value_in shown (overwrite v value mode both) ≡ value
unfolding value_in overwrite truthy_or
value_in-overwrite v value light light both full h = ground (arith, full, eq_iff value "")
value_in-overwrite v value dark dark both full h = ground (arith, full, eq_iff value "")
value_in-overwrite v value default light both full h = ground (arith, full, eq_iff value "")
value_in-overwrite v value default dark both full h = ground (arith, full, eq_iff value "")
value_in-overwrite v value default default both full h = refl
value_in-overwrite v value light dark both full h = absurd (ground (arith, h))
value_in-overwrite v value light default both full h = absurd (ground (arith, h))
value_in-overwrite v value dark light both full h = absurd (ground (arith, h))
value_in-overwrite v value dark default both full h = absurd (ground (arith, h))

-- Writes to other ids leave the values at an id.
write_all_other :
    (mode : Mode) (id : String) (ws : List Write) (f : View)
    → All (λ w. str_eq w.id id ≡ false) ws
    → write_all mode ws f id ≡ f id
unfolding write_all write
write_all_other mode id [] f h = refl
write_all_other mode id (w ∷ ws) f (n, h) =
    write_all_other mode id ws (write mode w f) h ∙ rw n refl

module _ (adjust_opacity : String → String) (tokens : List CssToken) (t : CssToken)
    (unique : HasUniqueIds tokens) (found : get_token_by_id tokens t.id ≡ some t)
    (value : String) where
  generated_write_other :
      (o : Option (String → String)) (u : Option CssToken) (related : String)
      → get_token_by_name tokens related ≡ u
      → str_eq related t.token_name ≡ false
      → All (λ w. str_eq w.id t.id ≡ false) (generated_write adjust_opacity tokens value o u)
  unfolding generated_write
  generated_write_other none none related e n = tt
  generated_write_other none (some u) related e n = tt
  generated_write_other (some g) none related e n = tt
  generated_write_other (some g) (some u) related e n = (
    elim (Bool-cases (str_eq u.id t.id)) [
      | inl b ↦
          let f = found_by_name tokens related u unique e in
          let i : u.id ≡ t.id = (eq_iff u.id t.id).0 b in
          let p : some u ≡ some t = sym f.0 ∙ (ap (get_token_by_id tokens) i ∙ found) in
          let q : u ≡ t = ground (arith, p) in
          absurd
            (ground (arith, n, eq_iff related t.token_name, sym f.1 ∙ ap (λ x. x.token_name) q))
      | inr b ↦ b
    ],
    tt,
  )

  related_writes_other :
      (names : List String)
      → All (λ r. str_eq r t.token_name ≡ false) names
      → All (λ w. str_eq w.id t.id ≡ false) (related_writes adjust_opacity tokens names value)
  unfolding related_writes
  related_writes_other [] h = tt
  related_writes_other (related ∷ names) (n, h) =
      All-append _ _ _
        (generated_write_other (token_generators adjust_opacity related)
          (get_token_by_name tokens related) related refl n)
        (related_writes_other names h)

-- A token is not its own related token.
token_relationships_other :
    (name : String) → All (λ r. str_eq r name ≡ false) (token_relationships name)
unfolding token_relationships
token_relationships_other name = elim (Bool-cases (str_eq name "--btn-secondary-bg")) [
  | inl b ↦ rw b rw ((eq_iff name "--btn-secondary-bg").0 b) (refl, tt)
  | inr b ↦ rw b tt
]

module _ {Item : Type 0} (adjust_opacity : String → String) (json : Json Item) (mode : Mode)
    (s : Editor Item) (t : CssToken) (value : String) (sound : IsSound s)
    (found : get_token_by_id s.tokens t.id ≡ some t) where
  both : Bool
  both = should_update_both_modes t.token_name

  own : Write
  unfolding both
  own = record { id = t.id; value = value; both = both }

  others : List Write
  others = related_writes adjust_opacity s.tokens (token_relationships t.token_name) value

  own_and_others : writes adjust_opacity s.tokens t.id value ≡ own ∷ others
  unfolding writes writes_found own both others
  own_and_others = rw found refl

  own_value :
      write mode own (values_of s) t.id
      ≡ some (overwrite (source (Map.get s.drafts t.id) t) value mode both)
  unfolding write write_value values_of seen own
  own_value = rw ((eq_iff t.id t.id).1 refl) (rw found refl)

  values_after :
      values_of (update_token_draft adjust_opacity json t.id value mode s) t.id
      ≡ some (overwrite (source (Map.get s.drafts t.id) t) value mode both)
  unfolding write_all others
  values_after =
      ap (λ f. f t.id) (update_token_draft-values adjust_opacity json mode s t.id value sound)
      ∙ (ap (λ ws. write_all mode ws (values_of s) t.id) own_and_others
          ∙ (write_all_other mode t.id others (write mode own (values_of s)) (
                related_writes_other adjust_opacity s.tokens t sound.1 found value
                  (token_relationships t.token_name) (token_relationships_other t.token_name))
              ∙ own_value))

-- An edit of a token with a text that is not empty is the value that the editor shows, in the mode of the
-- edit, or in every mode where the edit is of the default value. The editor is sound: the ids of the tokens
-- are unique, and each draft stands under its id and differs from its token.
pub update_token_draft-get_token_value :
    {Item : Type 0} (adjust_opacity : String → String) (json : Json Item) (mode shown : Mode)
    (s : Editor Item) (t : CssToken) (value : String)
    → IsSound s
    → get_token_by_id s.tokens t.id ≡ some t
    → value ≢ ""
    → (mode ≡ shown) ⊎ (mode ≡ default)
    → get_token_value (update_token_draft adjust_opacity json t.id value mode s) t.id shown ≡ value
unfolding read_value both
update_token_draft-get_token_value adjust_opacity json mode shown s t value sound found full shows =
    get_token_value-values (update_token_draft adjust_opacity json t.id value mode s) t.id shown
    ∙ (ap (read_value shown) (values_after adjust_opacity json mode s t value sound found)
        ∙ value_in-overwrite (source (Map.get s.drafts t.id) t) value mode shown
            (should_update_both_modes t.token_name) full shows)
