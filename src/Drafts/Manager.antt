-- ===== src/Drafts/Manager.antt =====
-- DraftManager with DraftStorageUtility (packages/frontend/admin/src/app/core/services/database/helpers/
-- draft-manager.ts and services/utilities/draft-storage.service.ts) in a browser, and
-- DraftPublisher with DatabaseDraftService (draft-publisher.ts, database-draft.service.ts).
pub mod Keys
pub mod Storage
pub mod Publish
mod Tests
use package.text.Mathlib.Text.{◌==◌ as str_eq}
use express_nest_blueprint.Base.{
  ℕ, zero, suc, String, Bool, true, false, Option, none, some, List, [], ◌∷◌, map, length, any,
  is_some, if◌then◌else◌,
}
use express_nest_blueprint.Base.Map
use express_nest_blueprint.Base.Map.{Map}
use express_nest_blueprint.Bulk.{
  RecordId, DatabaseOperation, OperationResult, BulkOperationResponse,
}
use express_nest_blueprint.Drafts.{
  DatabaseDraft, DraftManager, DraftStorage, Json, storage_version, generate_draft_id,
  convert_draft, create_draft_object, has_data_changes, drafts_with_changes, table_names,
}

module _ {V Item : Type 0} (json : Json V Item) where
  pub save_drafts : Map (DatabaseDraft V) → ℕ → DraftManager V Item
  save_drafts m now = record {
    drafts = m;
    stored = some (
        json.stringify (record {
          version = storage_version;
          timestamp = now;
          drafts = m;
          total_changes = length (drafts_with_changes m);
          affected_tables = table_names (drafts_with_changes m);
          last_modified = now;
        }));
  }

  -- `Object.entries(storage.drafts).forEach(([key, draft]) => draftsMap.set(key, ...))`.
  pub rebuild : Map (DatabaseDraft V) → Map (DatabaseDraft V) → Map (DatabaseDraft V)
  rebuild [] built = built
  rebuild ((k, d) ∷ m) built = rebuild m (Map.set built k d)

  loaded : Item → Option (DraftStorage V) → DraftManager V Item
  unfolding rebuild
  loaded item none = record { drafts = []; stored = none }
  loaded item (some storage) =
      if str_eq storage.version storage_version
      then record { drafts = rebuild storage.drafts []; stored = some item }
      else record { drafts = []; stored = none }

  -- The constructor, in a page that finds this item in localStorage.
  pub load_drafts : Option Item → DraftManager V Item
  unfolding loaded
  load_drafts none = record { drafts = []; stored = none }
  load_drafts (some item) = loaded item (json.parse item)

  pub create_draft :
      DraftManager V Item → DatabaseOperation V → Option (Map V) → ℕ → DraftManager V Item
  unfolding save_drafts create_draft_object
  create_draft m op original now =
      let draft_id = generate_draft_id op.category op.table op.record_id in
      save_drafts (Map.set m.drafts draft_id (create_draft_object op original draft_id now)) now

  module _ (same : V → V → Bool) where
    update_existing :
        DraftManager V Item → String → Map V → ℕ → Option (DatabaseDraft V) → DraftManager V Item
    unfolding save_drafts
    update_existing m draft_id fields now none = m
    update_existing m draft_id fields now (some d) =
        if has_data_changes same d.original_data fields
        then save_drafts
            (Map.set m.drafts draft_id
              (record d { draft_data = fields; has_changes = true; timestamp = now }))
            now
        else save_drafts (Map.delete m.drafts draft_id) now

    pub update_draft : DraftManager V Item → String → Map V → ℕ → DraftManager V Item
    unfolding update_existing
    update_draft m draft_id fields now =
        update_existing m draft_id fields now (Map.get m.drafts draft_id)

  pub delete_draft : DraftManager V Item → String → ℕ → DraftManager V Item
  unfolding save_drafts
  delete_draft m draft_id now = save_drafts (Map.delete m.drafts draft_id) now

  pub reset_drafts : DraftManager V Item → ℕ → DraftManager V Item
  unfolding save_drafts
  reset_drafts m now = save_drafts [] now

  pub get_draft_for_record :
      DraftManager V Item → String → String → RecordId → Option (DatabaseDraft V)
  get_draft_for_record m category table id =
      Map.get m.drafts (generate_draft_id category table (some id))

  unfoldable pub delete_each : List String → Map (DatabaseDraft V) → Map (DatabaseDraft V)
  delete_each [] m = m
  delete_each (id ∷ ids) m = delete_each ids (Map.delete m id)

  -- `changed`: whether one of the calls of `delete` finds its key.
  deletes_any : List String → Map (DatabaseDraft V) → Bool
  deletes_any [] m = false
  deletes_any (id ∷ ids) m =
      let later = deletes_any ids (Map.delete m id) in if Map.has m id then true else later

  pub remove_drafts : DraftManager V Item → List String → ℕ → DraftManager V Item
  unfolding delete_each deletes_any save_drafts
  remove_drafts m ids now =
      if deletes_any ids m.drafts then save_drafts (delete_each ids m.drafts) now else m

  -- `if (successfulDraftIds.length > 0) this.onDraftsRemoved(successfulDraftIds)`.
  abbrev removed : DraftManager V Item → List String → ℕ → DraftManager V Item
  removed m [] now = m
  removed m (id ∷ ids) now = remove_drafts m (id ∷ ids) now

-- DatabaseDraftService: its manager, the `loading` signal, and how often the token services were
-- notified.
pub record DatabaseDraftService (V Item : Type 0) : Type 0 where
  pub manager : DraftManager V Item
  pub loading : Bool
  pub notified : ℕ

abbrev is_css_token : {V : Type 0} → DatabaseOperation V → Bool
is_css_token op = str_eq op.table "css_tokens"

module _ {V R Item : Type 0} (json : Json V Item) where
  -- The draft ids of the results that are a success.
  pub successful_draft_ids : List (OperationResult V R) → List String
  successful_draft_ids [] = []
  successful_draft_ids (r ∷ rs) =
      let ids = successful_draft_ids rs in
      let op = r.operation in
      if r.success then generate_draft_id op.category op.table op.record_id ∷ ids else ids

  handle_publish_success :
      DatabaseDraftService V Item
      → BulkOperationResponse V R
      → List (DatabaseOperation V)
      → ℕ
      → DatabaseDraftService V Item
  unfolding successful_draft_ids remove_drafts
  handle_publish_success s response ops now =
      if response.success
      then record s {
        manager = removed json s.manager (successful_draft_ids response.results) now;
        notified = if any is_css_token ops then suc s.notified else s.notified;
      }
      else s

  -- `map`, `tap` and `finalize` on the answer of the POST; `none` is its error.
  answered :
      DatabaseDraftService V Item
      → Option (BulkOperationResponse V R)
      → List (DatabaseOperation V)
      → ℕ
      → DatabaseDraftService V Item
  unfolding handle_publish_success
  answered s none ops now = record s { loading = false }
  answered s (some response) ops now = record (handle_publish_success s response ops now) {
    loading = false;
  }

  -- `server` answers the POST.
  publish_operations :
      (List (DatabaseOperation V) → Option (BulkOperationResponse V R))
      → DatabaseDraftService V Item
      → List (DatabaseOperation V)
      → ℕ
      → Option (BulkOperationResponse V R) × DatabaseDraftService V Item
  unfolding answered
  publish_operations server s [] now = (
    some (record {
      success = true;
      results = [];
      summary = record { total = 0; successful = 0; failed = 0 };
    }),
    s,
  )
  publish_operations server s (op ∷ ops) now =
      (server (op ∷ ops), answered (record s { loading = true }) (server (op ∷ ops)) (op ∷ ops) now)

  pub publish_drafts :
      (List (DatabaseOperation V) → Option (BulkOperationResponse V R))
      → DatabaseDraftService V Item
      → ℕ
      → Option (BulkOperationResponse V R) × DatabaseDraftService V Item
  unfolding publish_operations convert_draft drafts_with_changes
  publish_drafts server s now =
      publish_operations server s (map convert_draft (drafts_with_changes s.manager.drafts)) now
