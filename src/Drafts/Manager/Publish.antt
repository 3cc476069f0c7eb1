-- ===== src/Drafts/Manager/Publish.antt =====
-- What publishing does to the drafts.
use package.text.Mathlib.Text.{◌==◌ as str_eq}
use package.text.Mathlib.TextEquality.{eq_iff}
use express_nest_blueprint.Base.{
  ℕ, String, ◌≡◌, ◌≢◌, refl, sym, ◌∙◌, ap, Bool, true, false, Option, none, some, List, [], ◌∷◌,
  ◌&&◌, map, any, arith, All, Bool-cases, inl, inr, if◌then◌else◌,
}
use express_nest_blueprint.Base.Map
use express_nest_blueprint.Base.Map.{Map, get-set, get-delete}
use express_nest_blueprint.Bulk.{DatabaseOperation, OperationResult, BulkOperationResponse}
use express_nest_blueprint.Drafts.{
  DatabaseDraft, DraftManager, Json, generate_draft_id, convert_draft, drafts_with_changes,
}
use express_nest_blueprint.Drafts.Manager.{
  save_drafts, delete_each, deletes_any, remove_drafts, removed, DatabaseDraftService,
  successful_draft_ids, handle_publish_success, answered, publish_operations, publish_drafts,
}
use express_nest_blueprint.Drafts.Manager.Keys.{IsKeyed}

module _ {V Item : Type 0} (json : Json V Item) where
  delete_absent : (m : Map (DatabaseDraft V)) (k : String) → Map.get m k ≡ none → Map.delete m k ≡ m
  unfolding Map.get Map.delete
  delete_absent [] k h = refl
  delete_absent ((j, w) ∷ m) k h = elim (Bool-cases (str_eq j k)) [
    | inl e ↦ ground (arith, h, e)
    | inr e ↦ rw e (ap (λ r. (j, w) ∷ r) (delete_absent m k (ground (arith, h, e))))
  ]

  delete_each_absent :
      (ids : List String) (m : Map (DatabaseDraft V))
      → deletes_any json ids m ≡ false
      → delete_each json ids m ≡ m
  unfolding deletes_any delete_each Map.has
  delete_each_absent [] m h = refl
  delete_each_absent (id ∷ ids) m h =
      let n : Map.get m id ≡ none = ground (arith, h) in
      let same = delete_absent m id n in
      let later : deletes_any json ids (Map.delete m id) ≡ false = ground (arith, h) in
      rw same (delete_each_absent ids m (rw same at later))

  remove_drafts-drafts :
      (m : DraftManager V Item) (ids : List String) (now : ℕ)
      → (remove_drafts json m ids now).drafts ≡ delete_each json ids m.drafts
  unfolding remove_drafts save_drafts
  remove_drafts-drafts m ids now = elim (Bool-cases (deletes_any json ids m.drafts)) [
    | inl c ↦ rw (c, remove_drafts) refl
    | inr c ↦ rw (c, remove_drafts) (sym (delete_each_absent ids m.drafts c))
  ]

  removed-drafts :
      (m : DraftManager V Item) (ids : List String) (now : ℕ)
      → (removed json m ids now).drafts ≡ delete_each json ids m.drafts
  removed-drafts m [] now = unfold delete_each in refl
  removed-drafts m (id ∷ ids) now = remove_drafts-drafts m (id ∷ ids) now

  get-delete_each :
      (ids : List String) (m : Map (DatabaseDraft V)) (k : String)
      → Map.get (delete_each json ids m) k
        ≡ (if any (λ id. str_eq id k) ids then none else Map.get m k)
  unfolding delete_each
  get-delete_each [] m k = refl
  get-delete_each (id ∷ ids) m k =
      rw (get-delete_each ids (Map.delete m id) k, get-delete m id k) ground arith

abbrev pub operations : {V Item : Type 0} → DatabaseDraftService V Item → List (DatabaseOperation V)
operations s = map convert_draft (drafts_with_changes s.manager.drafts)

module _ {V R Item : Type 0} (json : Json V Item) where
  -- A result that says that the operation of the draft `k` is done.
  abbrev pub is_done : String → OperationResult V R → Bool
  is_done k r =
      r.success
      && str_eq (generate_draft_id r.operation.category r.operation.table r.operation.record_id) k

  -- The drafts that an answer reports done.
  abbrev pub published : Option (BulkOperationResponse V R) → String → Bool
  published none k = false
  published (some response) k = response.success && any (is_done k) response.results

  successful_draft_ids-any :
      (rs : List (OperationResult V R)) (k : String)
      → any (λ id. str_eq id k) (successful_draft_ids json rs) ≡ any (is_done k) rs
  unfolding successful_draft_ids
  successful_draft_ids-any [] k = refl
  successful_draft_ids-any (r ∷ rs) k = ground (arith, successful_draft_ids-any rs k)

  answered-drafts :
      (s : DatabaseDraftService V Item) (answer : Option (BulkOperationResponse V R))
      (ops : List (DatabaseOperation V)) (now : ℕ) (k : String)
      → Map.get (answered json s answer ops now).manager.drafts k
        ≡ (if published answer k then none else Map.get s.manager.drafts k)
  unfolding answered handle_publish_success
  answered-drafts s none ops now k = refl
  answered-drafts s (some response) ops now k =
      let ids = successful_draft_ids json response.results in
      let h = removed-drafts json s.manager ids now in
      let g = get-delete_each json ids s.manager.drafts k in
      let same = successful_draft_ids-any response.results k in ground (arith, h, g, same)

  publish_operations-drafts :
      (server : List (DatabaseOperation V) → Option (BulkOperationResponse V R))
      (s : DatabaseDraftService V Item) (ops : List (DatabaseOperation V)) (now : ℕ) (k : String)
      → ops ≢ []
      → Map.get (publish_operations json server s ops now).1.manager.drafts k
        ≡ (if published (server ops) k then none else Map.get s.manager.drafts k)
  unfolding publish_operations
  publish_operations-drafts server s [] now k h = elim (h refl) [ ]
  publish_operations-drafts server s (op ∷ ops) now k h =
      answered-drafts (record s { loading = true }) (server (op ∷ ops)) (op ∷ ops) now k

  -- Where there is something to publish, the drafts whose operations the answer has as a success among its
  -- results are taken off the list and all others stay as they were; a failed request, and an answer that
  -- is no success, take nothing off.
  pub publish_drafts_lem :
      (server : List (DatabaseOperation V) → Option (BulkOperationResponse V R))
      (s : DatabaseDraftService V Item) (now : ℕ) (k : String)
      → operations s ≢ []
      → Map.get (publish_drafts json server s now).1.manager.drafts k
        ≡ (if published (server (operations s)) k then none else Map.get s.manager.drafts k)
  unfolding publish_drafts
  publish_drafts_lem server s now k h = publish_operations-drafts server s (operations s) now k h

module _ {V : Type 0} where
  -- A list of ids has the key of each draft with changes.
  abbrev Covers : List String → Map (DatabaseDraft V) → Type 0
  Covers ids m =
      All
        (λ (e : String × DatabaseDraft V).
          e.1.has_changes ≡ true → any (λ id. str_eq id e.0) ids ≡ true)
        m

  -- The draft id of an operation.
  abbrev pub id_of : DatabaseOperation V → String
  id_of op = generate_draft_id op.category op.table op.record_id

  Covers-delete :
      (id : String) (ids : List String) (m : Map (DatabaseDraft V))
      → Covers (id ∷ ids) m
      → Covers ids (Map.delete m id)
  unfolding Map.delete
  Covers-delete id ids [] c = tt
  Covers-delete id ids ((j, d) ∷ m) (c, cs) = elim (Bool-cases (str_eq j id)) [
    | inl e ↦ rw e (Covers-delete id ids m cs)
    | inr e ↦
        rw e (λ h. ground (arith, c h, e, eq_iff j id, eq_iff id j), Covers-delete id ids m cs)
  ]

  Covers-none : (m : Map (DatabaseDraft V)) → Covers [] m → drafts_with_changes m ≡ []
  unfolding drafts_with_changes
  Covers-none [] c = refl
  Covers-none ((j, d) ∷ m) (c, cs) = ground (arith, c, Covers-none m cs)

  Covers-wider :
      (ids ids' : List String) (m : Map (DatabaseDraft V))
      → ((k : String) → any (λ id. str_eq id k) ids ≡ true → any (λ id. str_eq id k) ids' ≡ true)
      → Covers ids m
      → Covers ids' m
  Covers-wider ids ids' [] h c = tt
  Covers-wider ids ids' ((j, d) ∷ m) h (c, cs) = (λ b. h j (c b), Covers-wider ids ids' m h cs)

  Covers-own :
      (m : Map (DatabaseDraft V))
      → All IsKeyed m
      → Covers (map id_of (map convert_draft (drafts_with_changes m))) m
  unfolding drafts_with_changes convert_draft
  Covers-own [] k = tt
  Covers-own ((j, d) ∷ m) (k, ks) = (
    λ h.
        ground
          (arith, h, eq_iff (generate_draft_id d.category d.table_name (some d.record_id)) j, k),
    Covers-wider _ _ m (λ i h. ground (arith, h)) (Covers-own m ks),
  )

module _ {V Item : Type 0} (json : Json V Item) where
  delete_each-Covers :
      (ids : List String) (m : Map (DatabaseDraft V))
      → Covers ids m
      → drafts_with_changes (delete_each json ids m) ≡ []
  unfolding delete_each
  delete_each-Covers [] m c = Covers-none m c
  delete_each-Covers (id ∷ ids) m c =
      delete_each-Covers ids (Map.delete m id) (Covers-delete id ids m c)

module _ {V R Item : Type 0} (json : Json V Item) where
  successful_draft_ids-All :
      (rs : List (OperationResult V R))
      → All (λ (r : OperationResult V R). r.success ≡ true) rs
      → successful_draft_ids json rs ≡ map id_of (map (λ (r : OperationResult V R). r.operation) rs)
  unfolding successful_draft_ids
  successful_draft_ids-All [] a = refl
  successful_draft_ids-All (r ∷ rs) (a, as') = rw (a, successful_draft_ids-All rs as') refl

  publish_operations-done :
      (server : List (DatabaseOperation V) → Option (BulkOperationResponse V R))
      (s : DatabaseDraftService V Item) (ops : List (DatabaseOperation V)) (now : ℕ)
      (response : BulkOperationResponse V R)
      → ops ≢ []
      → server ops ≡ some response
      → response.success ≡ true
      → drafts_with_changes
          (delete_each json (successful_draft_ids json response.results) s.manager.drafts)
        ≡ []
      → let after = (publish_operations json server s ops now).1 in
        (drafts_with_changes after.manager.drafts ≡ []) × (after.loading ≡ false)
  unfolding publish_operations answered handle_publish_success
  publish_operations-done server s [] now response h answer success none_left = elim (h refl) [ ]
  publish_operations-done server s (op ∷ ops) now response h answer success none_left =
      let same = removed-drafts json s.manager (successful_draft_ids json response.results) now in
      rw answer (rw success (rw same none_left, refl))

  -- Where the server has done each of the operations it was sent, no draft with changes is left and the
  -- page no longer loads; the drafts must stand under their own ids, as they do (run-IsSound).
  pub publish_drafts_done :
      (server : List (DatabaseOperation V) → Option (BulkOperationResponse V R))
      (s : DatabaseDraftService V Item) (now : ℕ) (response : BulkOperationResponse V R)
      → All IsKeyed s.manager.drafts
      → operations s ≢ []
      → server (operations s) ≡ some response
      → response.success ≡ true
      → map (λ (r : OperationResult V R). r.operation) response.results ≡ operations s
      → All (λ (r : OperationResult V R). r.success ≡ true) response.results
      → let after = (publish_drafts json server s now).1 in
        (drafts_with_changes after.manager.drafts ≡ []) × (after.loading ≡ false)
  unfolding publish_drafts
  publish_drafts_done server s now response k h answer success sent done =
      let ids : successful_draft_ids json response.results ≡ map id_of (operations s) =
        successful_draft_ids-All response.results done ∙ ap (map id_of) sent in
      publish_operations-done server s (operations s) now response h answer success (
        rw ids (
          delete_each-Covers json (map id_of (operations s)) s.manager.drafts
            (Covers-own s.manager.drafts k)))
