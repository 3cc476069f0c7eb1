-- ===== src/Tokens/Shown.antt =====
-- That publishing the drafts changes nothing that the editor shows:
-- packages/frontend/admin/src/app/core/services/theme/theme-editor.service.ts.

use mathlib.Core.Path.{subst}
use express_nest_blueprint.Base.{
  String, true, false, Option, none, some, List, [], ◌∷◌, ◌≡◌, refl, sym, ap, ◌∙◌, arith,
}
use express_nest_blueprint.Base.Settled.{Settled, ok, and_then, and_then_returned}
use express_nest_blueprint.Base.Map
use express_nest_blueprint.Base.Map.{Map}
use express_nest_blueprint.Base.Entries.{Unique}
use express_nest_blueprint.Tokens.{
  Mode, CssToken, TokenDraft, get_token_by_id, get_all_drafts_for_publish, has_token_changes,
  draft_has_changes,
}
use express_nest_blueprint.Tokens.Editor.{Json, Editor, save_drafts, source, get_token_value}
use express_nest_blueprint.Tokens.Runs.{ReadsBack, Reach, Reach-IsIntact, new-IsIntact}
use express_nest_blueprint.Tokens.Sparse.{read_value, get_token_value-values}
use express_nest_blueprint.Tokens.View.{View, seen, values_of, HasUniqueIds}
use express_nest_blueprint.Tokens.Publish.{
  Server, Answers, patch_all, load_tokens, publish_all, publish_drafts, token_view, replaced,
}
use express_nest_blueprint.Tokens.Sent.{
  IsMarked, IsMarked-first, published, patch_all-ok, patch_all-rows,
}

has_token_changes-empty : (k : String) → has_token_changes [] k ≡ false
unfolding has_token_changes draft_has_changes Map.get
has_token_changes-empty k = refl

-- The editor after a publication.
after_publish :
    {Item : Type 0}
    → (List CssToken → List CssToken)
    → Json Item
    → List CssToken
    → Editor Item
    → Editor Item
unfolding save_drafts
after_publish sorted json tokens s = save_drafts json [] (record s { tokens = sorted tokens })

IsMarked-empty : (m : Map TokenDraft) → IsMarked m → get_all_drafts_for_publish m ≡ [] → m ≡ []
unfolding get_all_drafts_for_publish
IsMarked-empty [] h e = refl
IsMarked-empty ((j, d) ∷ m) h e = absurd (ground (arith, e, (IsMarked-first m j d h).1))

seen-published :
    (o : Option TokenDraft) (t : Option CssToken)
    → ((d : TokenDraft) → o ≡ some d → d.has_changes ≡ true)
    → published o (seen none t) ≡ seen o t
unfolding published seen source replaced
seen-published none t h = refl
seen-published (some d) none h = refl
seen-published (some d) (some t) h = rw (h d refl) refl

module _ {S Item : Type 0} (server : Server S) (sorted : List CssToken → List CssToken)
    (rows : S → View) (answers : Answers server sorted rows) (json : Json Item) where
  after_publish-changes :
      (tokens : List CssToken) (s : Editor Item) (k : String)
      → has_token_changes (after_publish sorted json tokens s).drafts k ≡ false
  unfolding after_publish save_drafts
  after_publish-changes tokens s k = has_token_changes-empty k

  publish_all-ok :
      (d : TokenDraft) (drafts : List TokenDraft) (s : Editor Item) (w : S)
      → (publish_all server sorted json (d ∷ drafts) s w).0
        ≡ ok (after_publish sorted json ((answers.read ((patch_all server (d ∷ drafts) w).1)).0) s)
  unfolding publish_all after_publish load_tokens save_drafts
  publish_all-ok d drafts s w =
      let w' = (patch_all server (d ∷ drafts) w).1 in
      ap (λ x. x.0)
        (and_then_returned (patch_all server (d ∷ drafts) w)
            (λ _ v.
              and_then (load_tokens server sorted s v) (λ s' v'. (ok (save_drafts json [] s'), v')))
            tt (patch_all-ok server sorted rows answers (d ∷ drafts) w)
          ∙ and_then_returned (load_tokens server sorted s w')
              (λ s' v. (ok (save_drafts json [] s'), v))
              (record s { tokens = sorted ((answers.read w').0) })
              (ap (λ x. x.0)
                (and_then_returned (server.get_all w')
                  (λ tokens v. (ok (record s { tokens = sorted tokens }), v)) ((answers.read w').0)
                  (answers.read w').1)))

  after_publish-values :
      (s : Editor Item) (w : S) (k : String)
      → Unique s.drafts
      → IsMarked s.drafts
      → ((j : String) → rows w j ≡ token_view s.tokens j)
      → values_of
          (after_publish sorted json
            ((answers.read ((patch_all server (get_all_drafts_for_publish s.drafts) w).1)).0)
            s)
          k
        ≡ values_of s k
  unfolding after_publish save_drafts values_of token_view Map.get
  after_publish-values s w k u h same =
      answers.rows_read ((patch_all server (get_all_drafts_for_publish s.drafts) w).1) k
      ∙ (patch_all-rows server sorted rows answers s.drafts w k u h
          ∙ (ap (published (Map.get s.drafts k)) (same k)
              ∙ seen-published (Map.get s.drafts k) (get_token_by_id s.tokens k)
                  (λ d e. (h k d e).1)))

  -- What a publication comes to.
  IsPublished : Editor Item → Settled (Editor Item) → Type 0
  IsPublished s result =
      (s' : Editor Item) × (result ≡ ok s')
      × ((k : String) → has_token_changes s'.drafts k ≡ false)
      × ((k : String) (mode : Mode) → get_token_value s' k mode ≡ get_token_value s k mode)

  publish_sent :
      (drafts : List TokenDraft) (s : Editor Item) (w : S)
      → get_all_drafts_for_publish s.drafts ≡ drafts
      → Unique s.drafts
      → IsMarked s.drafts
      → ((j : String) → rows w j ≡ token_view s.tokens j)
      → IsPublished s (publish_all server sorted json drafts s w).0
  unfolding IsPublished publish_all
  publish_sent [] s w e u h same = (
    s,
    refl,
    (λ k.
        ap (λ m. has_token_changes m k) (IsMarked-empty s.drafts h e) ∙ has_token_changes-empty k),
    (λ k mode. refl),
  )
  publish_sent (d ∷ drafts) s w e u h same =
      let s' =
        after_publish sorted json ((answers.read ((patch_all server (d ∷ drafts) w).1)).0) s in
      (
        s',
        publish_all-ok d drafts s w,
        (λ k. after_publish-changes ((answers.read ((patch_all server (d ∷ drafts) w).1)).0) s k),
        (λ k mode.
            get_token_value-values s' k mode
            ∙ (ap (read_value mode) (
                  subst
                    (λ l.
                      values_of
                        (after_publish sorted json ((answers.read ((patch_all server l w).1)).0) s)
                        k
                      ≡ values_of s k)
                    e (after_publish-values s w k u h same))
                ∙ sym (get_token_value-values s k mode))),
      )

-- Where the server answers and the editor, reached from a page without drafts, still has the tokens of
-- the table, publishDrafts succeeds, leaves no changes and changes no value that the editor shows.
pub publish_drafts-get_token_value :
    {Item : Type 0} {S : Type 0} (server : Server S) (sorted : List CssToken → List CssToken)
    (rows : S → View) (json : Json Item) (adjust_opacity : String → String) (first s : Editor Item)
    (w : S)
    → Answers server sorted rows
    → ReadsBack json
    → HasUniqueIds first.tokens
    → first.drafts ≡ []
    → first.stored ≡ none
    → Reach adjust_opacity json first s
    → ((j : String) → rows w j ≡ token_view s.tokens j)
    → (s' : Editor Item) × ((publish_drafts server sorted json s w).0 ≡ ok s')
      × ((k : String) → has_token_changes s'.drafts k ≡ false)
      × ((k : String) (mode : Mode) → get_token_value s' k mode ≡ get_token_value s k mode)
unfolding publish_drafts IsPublished
publish_drafts-get_token_value server sorted rows json adjust_opacity first s w answers back unique
      empty new run same =
    let intact =
      Reach-IsIntact adjust_opacity json back run
        (new-IsIntact adjust_opacity json first unique empty new) in
    publish_sent server sorted rows answers json (get_all_drafts_for_publish s.drafts) s w refl
      intact.unique (λ k d e. let kept = intact.sound.0 k d e in (kept.0, kept.1)) same
