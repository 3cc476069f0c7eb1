-- ===== src/Drafts.antt =====
-- The drafts of the admin front end: DraftOperationsUtility and DraftStorageUtility of
-- packages/frontend/admin/src/app/core/services/utilities, and DraftManager, DraftPublisher and
-- DatabaseDraftService of services/database. A column's value is a `V`, and `same` is `===` on values;
-- an item of localStorage is an `Item`, and JSON is a parameter. Signals are fields of the state.
pub mod Manager
use Prim.Native.String
use package.text.Mathlib.Text.{◌==◌ as str_eq}
use express_nest_blueprint.Base.{
  ℕ, suc, String, Bool, true, false, not, ◌&&◌, ◌||◌, Option, none, some, List, [], ◌∷◌, ◌++◌,
  length, any, ◌==◌, if◌then◌else◌,
}
use express_nest_blueprint.Base.Map
use express_nest_blueprint.Base.Map.{Map}
use express_nest_blueprint.Query.Sql.{decimal}
use express_nest_blueprint.Bulk.{
  RecordId, number, text, is_truthy_id, BulkOperationType, delete, DatabaseOperation,
}

pub record DatabaseDraft (V : Type 0) : Type 0 where
  pub id : String
  pub table_name : String
  pub category : String
  pub record_id : RecordId
  pub operation : BulkOperationType
  pub original_data : Map V
  pub draft_data : Map V
  pub has_changes : Bool
  pub timestamp : ℕ

pub id_text : RecordId → String
id_text (number n) = decimal n
id_text (text s) = s

-- `recordId || 'new'`.
pub or_new : Option RecordId → RecordId
or_new none = text "new"
or_new (some id) = if is_truthy_id (some id) then id else text "new"

pub generate_draft_id : String → String → Option RecordId → String
unfolding id_text or_new
generate_draft_id category table id =
    String.◌++◌ category
      (String.◌++◌ ":" (String.◌++◌ table (String.◌++◌ ":" (id_text (or_new id)))))

abbrev is_delete : BulkOperationType → Bool
is_delete delete = true
is_delete _ = false

module _ {V : Type 0} where
  pub convert_draft : DatabaseDraft V → DatabaseOperation V
  convert_draft d = record {
    kind = d.operation;
    table = d.table_name;
    category = d.category;
    record_id = some d.record_id;
    data_fields = elim d.operation [ delete ↦ none | _ ↦ some d.draft_data ];
  }

  abbrev or_empty : Option (Map V) → Map V
  or_empty none = []
  or_empty (some m) = m

  abbrev first_of : Option (Map V) → Option (Map V) → Map V
  first_of (some m) o = m
  first_of none o = or_empty o

  abbrev has_data : Option (Map V) → Bool
  has_data none = false
  has_data (some m) = true

  pub create_draft_object : DatabaseOperation V → Option (Map V) → String → ℕ → DatabaseDraft V
  unfolding or_new
  create_draft_object op original draft_id now = record {
    id = draft_id;
    table_name = op.table;
    category = op.category;
    record_id = or_new op.record_id;
    operation = op.kind;
    original_data = or_empty original;
    draft_data = first_of op.data_fields original;
    has_changes = is_delete op.kind || has_data op.data_fields;
    timestamp = now;
  }

  -- `original[key] !== modified[key]` for one key of the original.
  differs : (V → V → Bool) → V → Option V → Bool
  differs same v none = true
  differs same v (some w) = not (same v w)

  some_differs : (V → V → Bool) → Map V → Map V → Bool
  unfolding differs
  some_differs same [] modified = false
  some_differs same ((k, v) ∷ rest) modified =
      let later = some_differs same rest modified in
      if differs same v (Map.get modified k) then true else later

  pub has_data_changes : (V → V → Bool) → Map V → Map V → Bool
  unfolding some_differs
  has_data_changes same original modified =
      if length original == length modified then some_differs same original modified else true

  -- `Array.from(drafts.values()).filter(draft => draft.hasChanges)`.
  pub drafts_with_changes : Map (DatabaseDraft V) → List (DatabaseDraft V)
  drafts_with_changes [] = []
  drafts_with_changes ((k, d) ∷ m) =
      let rest = drafts_with_changes m in if d.has_changes then d ∷ rest else rest

  -- A `Set` of names, in the order of insertion.
  collect_tables : List String → List (DatabaseDraft V) → List String
  collect_tables seen [] = seen
  collect_tables seen (d ∷ ds) =
      collect_tables (if any (str_eq d.table_name) seen then seen else seen ++ d.table_name ∷ []) ds

  pub table_names : List (DatabaseDraft V) → List String
  unfolding collect_tables
  table_names ds = collect_tables [] ds

-- `_drafts`, and the item under DRAFT_STORAGE_KEY.
pub record DraftManager (V Item : Type 0) : Type 0 where
  pub drafts : Map (DatabaseDraft V)
  pub stored : Option Item

pub record DraftStorage (V : Type 0) : Type 0 where
  pub version : String
  pub timestamp : ℕ
  pub drafts : Map (DatabaseDraft V)
  pub total_changes : ℕ
  pub affected_tables : List String
  pub last_modified : ℕ

abbrev pub storage_version : String
storage_version = "1.0.0"

-- JSON.stringify and JSON.parse on a storage; `none` is a SyntaxError.
pub record Json (V Item : Type 0) : Type 0 where
  pub stringify : DraftStorage V → Item
  pub parse : Item → Option (DraftStorage V)
