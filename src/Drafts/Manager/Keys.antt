-- ===== src/Drafts/Manager/Keys.antt =====
-- Which draft stands under which id.
use express_nest_blueprint.Base.{
  ℕ, String, ◌≡◌, refl, Bool, Option, none, some, List, [], ◌∷◌, arith, All,
}
use express_nest_blueprint.Base.Map.{Map}
use express_nest_blueprint.Base.Entries.{Unique}
use express_nest_blueprint.Bulk.{RecordId, number, text, DatabaseOperation}
use express_nest_blueprint.Drafts.{
  DatabaseDraft, DraftManager, DraftStorage, Json, storage_version, or_new, generate_draft_id,
}
use express_nest_blueprint.Drafts.Manager.{
  save_drafts, load_drafts, create_draft, update_draft, delete_draft, reset_drafts, remove_drafts,
}

-- Taking the fallback twice changes nothing.
or_new-or_new : (id : Option RecordId) → or_new (some (or_new id)) ≡ or_new id
unfolding or_new
or_new-or_new none = refl
or_new-or_new (some (number n)) = ground arith
or_new-or_new (some (text s)) = ground arith

pub generate_draft_id-or_new :
    (category table : String) (id : Option RecordId)
    → generate_draft_id category table (some (or_new id)) ≡ generate_draft_id category table id
unfolding generate_draft_id
generate_draft_id-or_new category table id = rw (or_new-or_new id) refl

-- What the page does to its drafts; `reload` leaves localStorage alone.
pub data Action (V : Type 0) : Type 0 where
  creates : DatabaseOperation V → Option (Map V) → ℕ → Action V
  updates : String → Map V → ℕ → Action V
  deletes : String → ℕ → Action V
  removes : List String → ℕ → Action V
  resets : ℕ → Action V
  reloads : Action V

module _ {V Item : Type 0} (json : Json V Item) (same : V → V → Bool) where
  unfoldable pub step : DraftManager V Item → Action V → DraftManager V Item
  step m (creates op original now) = create_draft json m op original now
  step m (updates id fields now) = update_draft json same m id fields now
  step m (deletes id now) = delete_draft json m id now
  step m (removes ids now) = remove_drafts json m ids now
  step m (resets now) = reset_drafts json m now
  step m reloads = load_drafts json m.stored

  unfoldable pub run : DraftManager V Item → List (Action V) → DraftManager V Item
  run m [] = m
  run m (a ∷ actions) = run (step m a) actions

-- A draft stands under the id of its own category, table and record.
abbrev pub IsKeyed : {V : Type 0} → String × DatabaseDraft V → Type 0
IsKeyed (k, d) = k ≡ generate_draft_id d.category d.table_name (some d.record_id)

abbrev pub AllKeyed : {V Item : Type 0} → DraftManager V Item → Type 0
AllKeyed m = All IsKeyed m.drafts × Unique m.drafts

module _ {V Item : Type 0} (json : Json V Item) where
  -- The item in localStorage stands for the drafts at hand.
  pub data IsStored (m : DraftManager V Item) : Type 0 where
    fresh : m.stored ≡ none → m.drafts ≡ [] → IsStored m
    saved :
        (storage : DraftStorage V)
        → m.stored ≡ some (json.stringify storage)
        → storage.version ≡ storage_version
        → storage.drafts ≡ m.drafts
        → IsStored m

  pub save-IsStored : (m : Map (DatabaseDraft V)) (now : ℕ) → IsStored (save_drafts json m now)
  unfolding save_drafts
  save-IsStored m now = saved _ refl refl refl
