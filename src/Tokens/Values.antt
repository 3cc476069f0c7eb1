-- ===== src/Tokens/Values.antt =====
-- What updateTokenDraft does to the values of each token:
-- packages/frontend/admin/src/app/core/services/theme/theme-editor.service.ts.

use mathlib.Core.Path.{subst, fun_ext}
use package.text.Mathlib.Text.{◌==◌ as str_eq}
use package.text.Mathlib.TextEquality.{eq_iff}
use express_nest_blueprint.Base.{
  String, Bool, false, Bool-cases, Option, none, some, List, [], ◌∷◌, ◌++◌, ◌≡◌, inl, inr, refl,
  sym, ap, ◌∙◌,
}
use express_nest_blueprint.Base.Map
use express_nest_blueprint.Base.Map.{Map}
use express_nest_blueprint.Tokens.{
  Mode, CssToken, get_token_by_id, get_token_by_name, should_update_both_modes, token_relationships,
  token_generators,
}
use express_nest_blueprint.Tokens.Editor.{
  Json, Editor, put_draft, put_found, put_generated, update_single_related_token, update_each,
  update_related_tokens, update_found, update_token_draft, save_drafts,
}
use express_nest_blueprint.Tokens.Overlay.{
  edited, edited_drafts, source-edited, get-edited_other, edited-IsKept,
}
use express_nest_blueprint.Tokens.View.{
  View, values_of, seen, Write, write, write_value, write_all, related_writes, generated_write,
  writes_found, writes, IsSound, found_by_name, found_by_id,
}

module _ {Item : Type 0} (adjust_opacity : String → String) (json : Json Item) (mode : Mode) where
  module _ (s : Editor Item) (sound : IsSound s) (t : CssToken) (value : String) (both : Bool)
      (found : get_token_by_id s.tokens t.id ≡ some t) where
    put_draft-IsSound : IsSound (put_draft adjust_opacity json t value mode both s)
    unfolding put_draft save_drafts edited_drafts edited
    put_draft-IsSound = (edited-IsKept s.tokens s.drafts t value mode both sound.0 found, sound.1)

    written : Write
    written = record { id = t.id; value = value; both = both }

    values_at_token :
        seen
          (Map.get (edited_drafts s.tokens s.drafts t value mode both sound.0 found) t.id)
          (get_token_by_id s.tokens t.id)
        ≡ write_value mode written (values_of s t.id)
    unfolding values_of seen write_value written
    values_at_token =
        rw found (ap some (source-edited s.tokens s.drafts t value mode both sound.0 found))

    put_draft-values :
        values_of (put_draft adjust_opacity json t value mode both s)
        ≡ write mode written (values_of s)
    unfolding values_of write put_draft save_drafts edited_drafts edited written
    put_draft-values = fun_ext (λ k. elim (Bool-cases (str_eq t.id k)) [
      | inl b ↦ rw b (
          subst
            (λ j.
              seen (Map.get (edited_drafts s.tokens s.drafts t value mode both sound.0 found) j)
                (get_token_by_id s.tokens j)
              ≡ write_value mode written (values_of s j))
            ((eq_iff t.id k).0 b) values_at_token)
      | inr b ↦ rw b (
          ap (λ d. seen d (get_token_by_id s.tokens k))
            (get-edited_other s.tokens s.drafts t value mode both sound.0 found k b))
    ])

write_all-append :
    (mode : Mode) (ws vs : List Write) (f : View)
    → write_all mode (ws ++ vs) f ≡ write_all mode vs (write_all mode ws f)
unfolding write_all
write_all-append mode [] vs f = refl
write_all-append mode (w ∷ ws) vs f = write_all-append mode ws vs (write mode w f)

-- `s'` is `s` after some writes.
abbrev IsAfter : {Item : Type 0} → Mode → List Write → Editor Item → Editor Item → Type 0
IsAfter mode ws s s' =
    IsSound s' × (s'.tokens ≡ s.tokens) × (values_of s' ≡ write_all mode ws (values_of s))

IsAfter-append :
    {Item : Type 0} (mode : Mode) (ws vs : List Write) (s s' s'' : Editor Item)
    → IsAfter mode ws s s'
    → IsAfter mode vs s' s''
    → IsAfter mode (ws ++ vs) s s''
IsAfter-append mode ws vs s s' s'' a b = (
  b.0,
  b.1 ∙ a.1,
  b.2 ∙ (ap (write_all mode vs) a.2 ∙ sym (write_all-append mode ws vs (values_of s))),
)

module _ {Item : Type 0} (adjust_opacity : String → String) (json : Json Item) (mode : Mode) where
  put_draft-IsAfter :
      (s : Editor Item) (t : CssToken) (value : String) (both : Bool)
      → IsSound s
      → get_token_by_id s.tokens t.id ≡ some t
      → IsAfter mode
          (record { id = t.id; value = value; both = both } ∷ [])
          s
          (put_draft adjust_opacity json t value mode both s)
  unfolding write_all written put_draft save_drafts
  put_draft-IsAfter s t value both sound found = (
    put_draft-IsSound adjust_opacity json mode s sound t value both found,
    refl,
    put_draft-values adjust_opacity json mode s sound t value both found,
  )

  put_found-IsAfter :
      (s : Editor Item) (generator : String → String) (o : Option CssToken) (related value : String)
      → IsSound s
      → get_token_by_name s.tokens related ≡ o
      → IsAfter mode
          (generated_write adjust_opacity s.tokens value (some generator) o)
          s
          (put_found adjust_opacity json o (generator value) mode false s)
  unfolding put_found generated_write write_all
  put_found-IsAfter s generator none related value sound e = (sound, refl, refl)
  put_found-IsAfter s generator (some t) related value sound e =
      put_draft-IsAfter s t (generator value) false sound
        (found_by_name s.tokens related t sound.1 e).0

  put_generated-IsAfter :
      (s : Editor Item) (o : Option (String → String)) (related value : String)
      → IsSound s
      → IsAfter mode
          (generated_write adjust_opacity s.tokens value o (get_token_by_name s.tokens related))
          s
          (put_generated adjust_opacity json related value mode o s)
  unfolding put_generated generated_write write_all
  put_generated-IsAfter s none related value sound = (sound, refl, refl)
  put_generated-IsAfter s (some generator) related value sound =
      put_found-IsAfter s generator (get_token_by_name s.tokens related) related value sound refl

  update_each-IsAfter :
      (names : List String) (value : String) (s : Editor Item)
      → IsSound s
      → IsAfter mode
          (related_writes adjust_opacity s.tokens names value)
          s
          (update_each adjust_opacity json names value mode s)
  unfolding update_each related_writes write_all update_single_related_token
  update_each-IsAfter [] value s sound = (sound, refl, refl)
  update_each-IsAfter (related ∷ names) value s sound =
      let one =
        put_generated-IsAfter s (token_generators adjust_opacity related) related value sound in
      let next = update_single_related_token adjust_opacity json related value mode s in
      let first =
        generated_write adjust_opacity s.tokens value (token_generators adjust_opacity related)
          (get_token_by_name s.tokens related) in
      IsAfter-append mode first (related_writes adjust_opacity s.tokens names value) s next
        (update_each adjust_opacity json names value mode next) one
        (subst
          (λ tokens.
            IsAfter mode (related_writes adjust_opacity tokens names value) next
              (update_each adjust_opacity json names value mode next))
          one.1 (update_each-IsAfter names value next one.0))

  update_found-IsAfter :
      (s : Editor Item) (o : Option CssToken) (value : String)
      → IsSound s
      → ((t : CssToken) → o ≡ some t → get_token_by_id s.tokens t.id ≡ some t)
      → IsAfter mode
          (writes_found adjust_opacity s.tokens o value)
          s
          (update_found adjust_opacity json o value mode s)
  unfolding update_found update_related_tokens writes_found write_all put_draft save_drafts
  update_found-IsAfter s none value sound found = (sound, refl, refl)
  update_found-IsAfter s (some t) value sound found =
      let both = should_update_both_modes t.token_name in
      let next = put_draft adjust_opacity json t value mode both s in
      let one = put_draft-IsAfter s t value both sound (found t refl) in
      IsAfter-append mode (record { id = t.id; value = value; both = both } ∷ [])
        (related_writes adjust_opacity s.tokens (token_relationships t.token_name) value) s next
        (update_each adjust_opacity json (token_relationships t.token_name) value mode next) one
        (update_each-IsAfter (token_relationships t.token_name) value next one.0)

  pub update_token_draft-IsAfter :
      (s : Editor Item) (id value : String)
      → IsSound s
      → IsAfter mode
          (writes adjust_opacity s.tokens id value)
          s
          (update_token_draft adjust_opacity json id value mode s)
  unfolding update_token_draft writes
  update_token_draft-IsAfter s id value sound =
      update_found-IsAfter s (get_token_by_id s.tokens id) value sound
        (λ t e. (found_by_id s.tokens id t sound.1 e).0)

-- Where the ids of the tokens are unique, updateTokenDraft changes the values that the editor has for
-- its tokens by the writes of the edit alone: to the token, and the generated ones to related tokens.
pub update_token_draft-values :
    {Item : Type 0} (adjust_opacity : String → String) (json : Json Item) (mode : Mode)
    (s : Editor Item) (id value : String)
    → IsSound s
    → values_of (update_token_draft adjust_opacity json id value mode s)
      ≡ write_all mode (writes adjust_opacity s.tokens id value) (values_of s)
update_token_draft-values adjust_opacity json mode s id value sound =
    (update_token_draft-IsAfter adjust_opacity json mode s id value sound).2
