-- ===== src/Drafts/Manager/Storage.antt =====
-- What the page keeps in localStorage, and that its drafts stay in order.
use mathlib.Core.List.{append_assoc}
use package.text.Mathlib.TextEquality.{eq_iff}
use express_nest_blueprint.Base.{
  ℕ, String, ◌≡◌, refl, sym, ◌∙◌, ap, Bool, true, Option, none, some, List, [], ◌∷◌, ◌++◌, arith,
  All, Bool-cases, Option-cases, inl, inr,
}
use express_nest_blueprint.Base.Map
use express_nest_blueprint.Base.Map.{Map, get-set}
use express_nest_blueprint.Base.Entries.{
  Unique, set-Unique, delete-Unique, set-All, delete-All, get-All, set_absent,
}
use express_nest_blueprint.Bulk.{DatabaseOperation}
use express_nest_blueprint.Drafts.{
  DatabaseDraft, DraftManager, DraftStorage, Json, generate_draft_id, create_draft_object,
  has_data_changes,
}
use express_nest_blueprint.Drafts.Manager.{
  save_drafts, rebuild, load_drafts, loaded, create_draft, update_draft, update_existing,
  delete_draft, reset_drafts, delete_each, deletes_any, remove_drafts,
}
use express_nest_blueprint.Drafts.Manager.Keys.{
  Action, creates, updates, deletes, removes, resets, reloads, step, run, IsKeyed, IsStored, fresh,
  saved, save-IsStored, generate_draft_id-or_new,
}

module _ {V Item : Type 0} (json : Json V Item) where
  append_nil : (m : Map (DatabaseDraft V)) → m ++ [] ≡ m
  append_nil [] = refl
  append_nil (e ∷ m) = ap (λ r. e ∷ r) (append_nil m)

  absent_after_set :
      (m built : Map (DatabaseDraft V)) (k : String) (d : DatabaseDraft V)
      → Map.get m k ≡ none
      → All (λ (e : String × DatabaseDraft V). Map.get built e.0 ≡ none) m
      → All (λ (e : String × DatabaseDraft V). Map.get (Map.set built k d) e.0 ≡ none) m
  unfolding Map.get
  absent_after_set [] built k d h a = tt
  absent_after_set ((j, w) ∷ m) built k d h (a, as') = (
    rw (get-set built k j d) ground (arith, h, a, eq_iff j k, eq_iff k j),
    absent_after_set m built k d (ground (arith, h)) as',
  )

  rebuild-append :
      (m built : Map (DatabaseDraft V))
      → Unique m
      → All (λ (e : String × DatabaseDraft V). Map.get built e.0 ≡ none) m
      → rebuild json m built ≡ built ++ m
  unfolding rebuild
  rebuild-append [] built u a = sym (append_nil built)
  rebuild-append ((k, d) ∷ m) built (n, u) (a, as') =
      rebuild-append m (Map.set built k d) u (absent_after_set m built k d n as')
      ∙ ap (λ r. r ++ m) (set_absent built k d a)
      ∙ append_assoc built ((k, d) ∷ []) m

  All-absent :
      (m : Map (DatabaseDraft V))
      → All (λ (e : String × DatabaseDraft V). Map.get {V = DatabaseDraft V} [] e.0 ≡ none) m
  unfolding Map.get
  All-absent [] = tt
  All-absent (e ∷ m) = (refl, All-absent m)

  rebuild_same : (m : Map (DatabaseDraft V)) → Unique m → rebuild json m [] ≡ m
  rebuild_same m u = rebuild-append m [] u (All-absent m)

  -- Ids under their own drafts, no id twice, and localStorage as the page left it.
  pub record IsSound (m : DraftManager V Item) : Type 0 where
    pub keyed : All IsKeyed m.drafts
    pub unique : Unique m.drafts
    pub stored : IsStored json m

  save-IsSound :
      (m : Map (DatabaseDraft V)) (now : ℕ)
      → All IsKeyed m
      → Unique m
      → IsSound (save_drafts json m now)
  unfolding save_drafts
  save-IsSound m now k u = record { keyed = k; unique = u; stored = save-IsStored json m now }

  module _ (parse-stringify : (s : DraftStorage V) → json.parse (json.stringify s) ≡ some s) where
    -- The page that is loaded next has the drafts of this one.
    load_same : (m : DraftManager V Item) → IsSound m → load_drafts json m.stored ≡ m
    unfolding load_drafts loaded
    load_same m sound = elim sound.stored [
      | fresh e n ↦ rw e cc
      | saved storage e v n ↦
          let built : rebuild json storage.drafts [] ≡ m.drafts =
            ap (λ d. rebuild json d []) n ∙ rebuild_same m.drafts sound.unique in
          rw e (rw (parse-stringify storage) (rw v cc))
    ]

    create-IsSound :
        (m : DraftManager V Item) (op : DatabaseOperation V) (original : Option (Map V)) (now : ℕ)
        → IsSound m
        → IsSound (create_draft json m op original now)
    unfolding create_draft create_draft_object
    create-IsSound m op original now s =
        let id = generate_draft_id op.category op.table op.record_id in
        let d = create_draft_object op original id now in
        save-IsSound (Map.set m.drafts id d) now
          (set-All IsKeyed m.drafts id d
            (sym (generate_draft_id-or_new op.category op.table op.record_id)) s.keyed)
          (set-Unique m.drafts id d s.unique)

    update-IsSound :
        (same : V → V → Bool) (m : DraftManager V Item) (id : String) (fields : Map V) (now : ℕ)
        → IsSound m
        → IsSound (update_draft json same m id fields now)
    unfolding update_draft update_existing
    update-IsSound same m id fields now s = elim (Option-cases (Map.get m.drafts id)) [
      | inl n ↦ rw (n, update_existing) s
      | inr (d, e) ↦ elim (Bool-cases (has_data_changes same d.original_data fields)) [
        | inl c ↦
            rw (e, update_existing, c)
              (save-IsSound _ now
                (set-All IsKeyed m.drafts id
                  (record d { draft_data = fields; has_changes = true; timestamp = now })
                  (get-All IsKeyed m.drafts id d s.keyed e) s.keyed)
                (set-Unique m.drafts id _ s.unique))
        | inr c ↦
            rw (e, update_existing, c)
              (save-IsSound _ now (delete-All IsKeyed m.drafts id s.keyed)
                (delete-Unique m.drafts id s.unique))
      ]
    ]

    pub delete_each-IsSound :
        (ids : List String) (m : Map (DatabaseDraft V))
        → All IsKeyed m
        → Unique m
        → All IsKeyed (delete_each json ids m) × Unique (delete_each json ids m)
    unfolding delete_each
    delete_each-IsSound [] m k u = (k, u)
    delete_each-IsSound (id ∷ ids) m k u =
        delete_each-IsSound ids (Map.delete m id) (delete-All IsKeyed m id k) (delete-Unique m id u)

    remove-IsSound :
        (m : DraftManager V Item) (ids : List String) (now : ℕ)
        → IsSound m
        → IsSound (remove_drafts json m ids now)
    unfolding remove_drafts
    remove-IsSound m ids now s = elim (Bool-cases (deletes_any json ids m.drafts)) [
      | inl c ↦
          let (k, u) = delete_each-IsSound ids m.drafts s.keyed s.unique in
          rw (c, remove_drafts) (save-IsSound _ now k u)
      | inr c ↦ rw (c, remove_drafts) s
    ]

    module _ (same : V → V → Bool) where
      step-IsSound :
          (m : DraftManager V Item) (a : Action V) → IsSound m → IsSound (step json same m a)
      unfolding step delete_draft reset_drafts
      step-IsSound m (creates op original now) s = create-IsSound m op original now s
      step-IsSound m (updates id fields now) s = update-IsSound same m id fields now s
      step-IsSound m (deletes id now) s =
          save-IsSound _ now (delete-All IsKeyed m.drafts id s.keyed)
            (delete-Unique m.drafts id s.unique)
      step-IsSound m (removes ids now) s = remove-IsSound m ids now s
      step-IsSound m (resets now) s = save-IsSound [] now tt tt
      step-IsSound m reloads s = rw (load_same m s) s

      -- Whatever a page does with its drafts, each draft stands under the id of its own record, no id
      -- has two, and localStorage stands for the drafts at hand.
      pub run-IsSound :
          (actions : List (Action V)) (m : DraftManager V Item)
          → IsSound m
          → IsSound (run json same m actions)
      unfolding run
      run-IsSound [] m s = s
      run-IsSound (a ∷ actions) m s = run-IsSound actions (step json same m a) (step-IsSound m a s)

      -- Reloading the page at any time loses no draft and changes none.
      pub run_reloads :
          (actions : List (Action V))
          → let m = run json same (load_drafts json none) actions in load_drafts json m.stored ≡ m
      unfolding load_drafts
      run_reloads actions = load_same _ (
          run-IsSound actions (record { drafts = []; stored = none })
            (record { keyed = tt; unique = tt; stored = fresh refl refl }))
